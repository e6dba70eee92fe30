-- ===== src/Plugin/Chain.antt =====
-- The hook chain and its filter, internal/plugin/chain.go. `hookName`, which asks the hook or reflects on
-- its type, is a parameter; the map `matched` is a function.
use otto_gateway.Base.{
  String, Bool, false, not, ◌&&◌, ◌||◌, List, [], ◌∷◌, if◌then◌else◌, any_of, str_eq, is_blank,
}

pub record Chain (H : Type 0) : Type 0 where
  pub pre : List H
  pub post : List H

pub data Filtered (H : Type 0) : Type 0 where
  kept : Chain H → Filtered H
  -- the names of ENABLED_HOOKS that no hook has
  unknown_hooks : List String → Filtered H

abbrev pub allows : List String → String → Bool
allows allowlist name = any_of (str_eq name) allowlist

abbrev pub keep_if {ℓ} : {A : Type ℓ} → (A → Bool) → List A → List A
keep_if f [] = []
keep_if f (a ∷ as') = let rest = keep_if f as' in if f a then a ∷ rest else rest

module _ {H : Type 0} (hook_name : H → String) where
  abbrev pub is_allowed : List String → H → Bool
  is_allowed allowlist h = not (is_blank (hook_name h)) && allows allowlist (hook_name h)

  abbrev pub mark : String → (String → Bool) → String → Bool
  mark name matched n = str_eq n name || matched n

  -- One loop of Filter: the hooks that stay, and the names that were matched.
  unfoldable pub filter_hooks : List String → (String → Bool) → List H → List H × (String → Bool)
  filter_hooks allowlist matched [] = ([], matched)
  filter_hooks allowlist matched (h ∷ hs) =
      let ok = is_allowed allowlist h in
      let (rest, matched') =
        filter_hooks allowlist (if ok then mark (hook_name h) matched else matched) hs in
      (if ok then h ∷ rest else rest, matched')

  abbrev pub or_unknown : List String → Chain H → Filtered H
  or_unknown [] c = kept c
  or_unknown (n ∷ ns) c = unknown_hooks (n ∷ ns)

  unfoldable pub filter_chain : Chain H → List String → Filtered H
  unfolding filter_hooks
  filter_chain c [] = kept c
  filter_chain c (n ∷ ns) =
      let (pre, matched) = filter_hooks (n ∷ ns) (λ m. false) c.pre in
      let (post, matched') = filter_hooks (n ∷ ns) matched c.post in
      or_unknown (keep_if (λ m. not (matched' m)) (n ∷ ns)) (record { pre = pre; post = post })
