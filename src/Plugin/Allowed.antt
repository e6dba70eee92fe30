-- ===== src/Plugin/Allowed.antt =====
-- What the filter of internal/plugin/chain.go keeps and refuses.
use otto_gateway.Base.{
  ◌≡◌, refl, ◌∙◌, ap, subst, String, Bool, true, false, not, ◌&&◌, ◌||◌, List, [], ◌∷◌,
  if◌then◌else◌, any_of, str_eq, eq_iff, is_blank, Bool-cases, inl, inr, arith,
}
use otto_gateway.Plugin.Chain.{
  Chain, allows, keep_if, is_allowed, mark, filter_hooks, or_unknown, filter_chain,
}

keep_if-cong :
    (f g : String → Bool) (ns : List String)
    → ((n : String) → allows ns n ≡ true → f n ≡ g n)
    → keep_if f ns ≡ keep_if g ns
keep_if-cong f g [] same = refl
keep_if-cong f g (n ∷ ns) same =
    let here = same n (ground (arith, eq_iff n n)) in
    let rest = keep_if-cong f g ns (λ m h. same m (ground arith)) in ground arith

str_eq-eq : (m n : String) → str_eq m n ≡ true → m ≡ n
str_eq-eq m n h = ground (arith, eq_iff m n)

module _ {H : Type 0} (hook_name : H → String) where
  -- Whether a hook has the name.
  abbrev pub has_name : String → H → Bool
  has_name n h = not (is_blank (hook_name h)) && str_eq n (hook_name h)

  abbrev kept_chain : List H → List H → Chain H
  kept_chain pre post = record { pre = pre; post = post }

  kept-filter :
      (allowlist : List String) (matched : String → Bool) (hs : List H)
      → (filter_hooks hook_name allowlist matched hs).0
        ≡ keep_if (is_allowed hook_name allowlist) hs
  unfolding filter_hooks
  kept-filter allowlist matched [] = refl
  kept-filter allowlist matched (h ∷ hs) =
      let matched' =
        if is_allowed hook_name allowlist h
        then mark hook_name (hook_name h) matched
        else matched in
      ap (λ rest. if is_allowed hook_name allowlist h then h ∷ rest else rest)
        (kept-filter allowlist matched' hs)

  matched-filter :
      (allowlist : List String) (matched : String → Bool) (hs : List H) (n : String)
      → allows allowlist n ≡ true
      → (filter_hooks hook_name allowlist matched hs).1 n ≡ (matched n || any_of (has_name n) hs)
  unfolding filter_hooks
  matched-filter allowlist matched [] n a = ground arith
  matched-filter allowlist matched (h ∷ hs) n a =
      let matched' =
        if is_allowed hook_name allowlist h
        then mark hook_name (hook_name h) matched
        else matched in
      let rest = matched-filter allowlist matched' hs n a in
      elim (Bool-cases (str_eq n (hook_name h))) [
        | inl e ↦
            let named = subst (λ m. allows allowlist m ≡ true) (str_eq-eq n (hook_name h) e) a in
            rest ∙ ground (arith, named, e)
        | inr e ↦ rest ∙ ground (arith, e)
      ]

  -- For an allowlist that is not empty: where every name of it is a hook's, exactly the hooks that it
  -- names are kept, in the order of the chain; and where some are no hook's, those names are the error.
  pub filter_chain-eq :
      (c : Chain H) (n : String) (ns : List String)
      → filter_chain hook_name c (n ∷ ns)
        ≡ or_unknown hook_name
            (keep_if (λ m. not (any_of (has_name m) c.pre || any_of (has_name m) c.post)) (n ∷ ns))
            (record {
              pre = keep_if (is_allowed hook_name (n ∷ ns)) c.pre;
              post = keep_if (is_allowed hook_name (n ∷ ns)) c.post;
            })
  unfolding filter_chain
  filter_chain-eq c n ns =
      let allowlist = n ∷ ns in
      let m1 = (filter_hooks hook_name allowlist (λ m. false) c.pre).1 in
      let m2 = (filter_hooks hook_name allowlist m1 c.post).1 in
      let named = λ (m : String). not (any_of (has_name m) c.pre || any_of (has_name m) c.post) in
      let same : keep_if (λ m. not (m2 m)) allowlist ≡ keep_if named allowlist =
        keep_if-cong (λ m. not (m2 m)) named allowlist
          (λ m a. ground (
            arith,
            matched-filter allowlist (λ k. false) c.pre m a,
            matched-filter allowlist m1 c.post m a,
          )) in
      ap
        (λ ks. or_unknown hook_name ks (
          kept_chain (filter_hooks hook_name allowlist (λ m. false) c.pre).0
            (filter_hooks hook_name allowlist m1 c.post).0))
        same
      ∙ ap
          (λ p.
            or_unknown hook_name (keep_if named allowlist)
              (kept_chain p (filter_hooks hook_name allowlist m1 c.post).0))
          (kept-filter allowlist (λ m. false) c.pre)
      ∙ ap
          (λ p.
            or_unknown hook_name (keep_if named allowlist)
              (kept_chain (keep_if (is_allowed hook_name allowlist) c.pre) p))
          (kept-filter allowlist m1 c.post)
