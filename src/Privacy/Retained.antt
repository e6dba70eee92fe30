-- ===== src/Privacy/Retained.antt =====
-- Lists of scopes in which each scope counts its leases, internal/privacy/store.go.
use otto_gateway.Base.{
  ℕ, zero, suc, ◌+◌, ◌≤◌, ◌<◌, ◌≡◌, ◌≢◌, refl, ◌∙◌, sym, subst, String, true, not, ◌&&◌, none, some,
  List, [], ◌∷◌, ◌++◌, if◌then◌else◌, ltb, ◌==◌, length, get_elem?, set, sum_of, is_some, str_eq,
  eq_iff, Bool-cases, inl, inr, arith,
}
use otto_gateway.Privacy.Store.{
  ScopeState, ScopeLease, find_scope, remove_scope, deref, update, entries, finished_lease,
}

-- Whether a lease counts for a scope, and how many do.
abbrev pub counts : ℕ → ScopeLease → ℕ
counts r l = if not l.released && (l.scope == r) then 1 else 0

abbrev pub count : List ScopeLease → ℕ → ℕ
count ls r = sum_of (counts r) ls

-- The entries of a scope, with one that is reserved.
abbrev pub weight : ScopeState → ℕ
weight x = entries x + (if is_some x.holder then 1 else 0)

pub deref_head :
    (r : ℕ) (y x : ScopeState) (xs : List ScopeState)
    → (y.ref == r) ≡ true
    → deref r (y ∷ xs) ≡ some x
    → y ≡ x
unfolding deref
deref_head r y x xs e h = ground arith

find_head :
    (id : String) (y x : ScopeState) (xs : List ScopeState)
    → str_eq y.id id ≡ true
    → find_scope id (y ∷ xs) ≡ some x
    → y ≡ x
unfolding find_scope
find_head id y x xs e h = ground arith

module _ (P : ScopeState → Type 0) where
  -- The first of the scopes that are left, whose pointers are below `n`.
  pub record Heads (uses : ℕ → ℕ) (n : ℕ) (x : ScopeState) : Type 0 where
    pub below : x.ref < n
    pub gap : (r : ℕ) → x.ref < r → r < n → uses r ≡ 0
    pub used : x.in_flight ≡ uses x.ref
    pub holds : P x

  -- Pointers fall along the list, each scope counts its uses, and no other pointer has any.
  abbrev pub Fits : (ℕ → ℕ) → ℕ → List ScopeState → Type 0
  Fits uses n [] = (r : ℕ) → r < n → uses r ≡ 0
  Fits uses n (x ∷ xs) = Heads uses n x × Fits uses x.ref xs

  pub Fits-cong :
      (uses uses' : ℕ → ℕ) (n : ℕ) (xs : List ScopeState)
      → ((r : ℕ) → r < n → uses' r ≡ uses r)
      → Fits uses n xs
      → Fits uses' n xs
  Fits-cong uses uses' n [] same f = λ r b. ground (arith, same r, f r)
  Fits-cong uses uses' n (x ∷ xs) same (h, f) = (
    record {
      below = h.below;
      gap = λ r above b. ground (arith, same r, h.gap r);
      used = ground (arith, same x.ref, h.used, h.below);
      holds = h.holds;
    },
    Fits-cong uses uses' x.ref xs (λ r b. same r (ground (arith, h.below))) f,
  )

  -- The scope behind a pointer is one of the list.
  pub record Found (uses : ℕ → ℕ) (n r : ℕ) (x : ScopeState) : Type 0 where
    pub at : x.ref ≡ r
    pub low : r < n
    pub used : x.in_flight ≡ uses r
    pub holds : P x

  pub deref-Found :
      (uses : ℕ → ℕ) (n r : ℕ) (xs : List ScopeState) (x : ScopeState)
      → Fits uses n xs
      → deref r xs ≡ some x
      → Found uses n r x
  unfolding deref
  deref-Found uses n r [] x f h = absurd (ground arith)
  deref-Found uses n r (y ∷ xs) x (g, f) h = elim (Bool-cases (y.ref == r)) [
    | inl e ↦ subst (Found uses n r) (deref_head r y x xs e h) (record {
      at = ground arith;
      low = ground (arith, g.below);
      used = ground (arith, g.used);
      holds = g.holds;
    })
    | inr e ↦
        let d = deref-Found uses y.ref r xs x f (ground (arith, h)) in
        record { at = d.at; low = ground (arith, d.low, g.below); used = d.used; holds = d.holds }
  ]

  pub update-Fits :
      (uses uses' : ℕ → ℕ) (n r : ℕ) (g : ScopeState → ScopeState) (xs : List ScopeState)
      (x : ScopeState)
      → Fits uses n xs
      → deref r xs ≡ some x
      → (g x).ref ≡ x.ref
      → (g x).in_flight ≡ uses' r
      → P (g x)
      → ((q : ℕ) → q ≢ r → uses' q ≡ uses q)
      → Fits uses' n (update r g xs)
  unfolding deref update
  update-Fits uses uses' n r g [] x f h keeps used p same = absurd (ground arith)
  update-Fits uses uses' n r g (y ∷ xs) x (here, f) h keeps used p same =
      elim (Bool-cases (y.ref == r)) [
        | inl e ↦
            let q = deref_head r y x xs e h in
            let keeps' : (g y).ref ≡ y.ref = subst (λ z. (g z).ref ≡ z.ref) (sym q) keeps in
            let used' : (g y).in_flight ≡ uses' r =
              subst (λ z. (g z).in_flight ≡ uses' r) (sym q) used in
            let p' : P (g y) = subst (λ z. P (g z)) (sym q) p in
            rw e (
              (
                record {
                  below = ground (arith, here.below);
                  gap = λ a above b. same a (ground arith) ∙ here.gap a (ground arith) b;
                  used = ground arith;
                  holds = p';
                },
                subst (λ m. Fits uses' m xs) (sym keeps')
                    (Fits-cong uses uses' y.ref xs (λ a b. same a (ground arith)) f),
              ))
        | inr e ↦
            let d = deref-Found uses y.ref r xs x f (ground (arith, h)) in
            rw e (
              (
                record {
                  below = here.below;
                  gap = λ a above b. same a (ground (arith, d.low)) ∙ here.gap a above b;
                  used = here.used ∙ sym (same y.ref (ground arith));
                  holds = here.holds;
                },
                update-Fits uses uses' y.ref r g xs x f (ground (arith, h)) keeps used p same,
              ))
      ]

  -- The first scope can go once nothing uses it.
  pub Fits-widen :
      (uses : ℕ → ℕ) (n m : ℕ) (xs : List ScopeState)
      → m < n
      → uses m ≡ 0
      → ((r : ℕ) → m < r → r < n → uses r ≡ 0)
      → Fits uses m xs
      → Fits uses n xs
  Fits-widen uses n m [] b idle gap f = λ r low. elim (Bool-cases (ltb r m)) [
    | inl e ↦ f r (ground arith)
    | inr e ↦ elim (Bool-cases (r == m)) [
      | inl q ↦ ground (arith, idle)
      | inr q ↦ gap r (ground arith) low
    ]
  ]
  Fits-widen uses n m (x ∷ xs) b idle gap (h, f) = (
    record {
      below = ground (arith, h.below);
      gap = λ r above low. elim (Bool-cases (ltb r m)) [
        | inl e ↦ h.gap r above (ground arith)
        | inr e ↦ elim (Bool-cases (r == m)) [
          | inl q ↦ ground (arith, idle)
          | inr q ↦ gap r (ground arith) low
        ]
      ];
      used = h.used;
      holds = h.holds;
    },
    f,
  )

  pub remove-Fits :
      (uses : ℕ → ℕ) (n : ℕ) (id : String) (xs : List ScopeState) (x : ScopeState)
      → Fits uses n xs
      → find_scope id xs ≡ some x
      → x.in_flight ≡ 0
      → Fits uses n (remove_scope id xs)
  unfolding find_scope remove_scope
  remove-Fits uses n id [] x f h z = absurd (ground arith)
  remove-Fits uses n id (y ∷ xs) x (here, f) h z = elim (Bool-cases (str_eq y.id id)) [
    | inl e ↦
        let q = find_head id y x xs e h in
        let z' : y.in_flight ≡ 0 = subst (λ w. w.in_flight ≡ 0) (sym q) z in
        rw e (Fits-widen uses n y.ref xs here.below (sym here.used ∙ z') here.gap f)
    | inr e ↦ rw e (here, remove-Fits uses y.ref id xs x f (ground (arith, h)) z)
  ]

  -- A scope found by its id is the one behind its pointer.
  pub find-Found :
      (uses : ℕ → ℕ) (n : ℕ) (id : String) (xs : List ScopeState) (x : ScopeState)
      → Fits uses n xs
      → find_scope id xs ≡ some x
      → (deref x.ref xs ≡ some x) × (x.ref < n)
  unfolding find_scope deref
  find-Found uses n id [] x f h = absurd (ground arith)
  find-Found uses n id (y ∷ xs) x (here, f) h = elim (Bool-cases (str_eq y.id id)) [
    | inl e ↦
        subst (λ w. (deref w.ref (y ∷ xs) ≡ some w) × (w.ref < n)) (find_head id y x xs e h)
          (ground arith, here.below)
    | inr e ↦
        let (d, b) = find-Found uses y.ref id xs x f (ground (arith, h)) in
        (ground (arith, d, b), ground (arith, b, here.below))
  ]

  -- A pointer in use has its scope.
  pub used-Found :
      (uses : ℕ → ℕ) (n r : ℕ) (xs : List ScopeState)
      → Fits uses n xs
      → r < n
      → 0 < uses r
      → deref r xs ≢ none
  unfolding deref
  used-Found uses n r [] f low busy h = ground (arith, f r)
  used-Found uses n r (y ∷ xs) (here, f) low busy h = elim (Bool-cases (y.ref == r)) [
    | inl e ↦ ground arith
    | inr e ↦ elim (Bool-cases (ltb r y.ref)) [
      | inl b ↦ used-Found uses y.ref r xs f (ground arith) busy (ground arith)
      | inr b ↦ ground (arith, here.gap r)
    ]
  ]

add_comm : (a b : ℕ) → a + b ≡ b + a
add_comm a b = omega arith

plus_left : (a b c d y : ℕ) → a + b ≡ c + d → y + a + b ≡ y + c + d
plus_left a b c d y h = omega arith

plus_head : (a b c y : ℕ) → a + b ≡ c → y + a + b ≡ y + c
plus_head a b c y h = omega arith

pub sum-update :
    (r : ℕ) (g : ScopeState → ScopeState) (xs : List ScopeState) (x : ScopeState)
    → deref r xs ≡ some x
    → sum_of weight (update r g xs) + weight x ≡ sum_of weight xs + weight (g x)
unfolding deref update
sum-update r g [] x h = absurd (ground arith)
sum-update r g (y ∷ xs) x h = elim (Bool-cases (y.ref == r)) [
  | inl e ↦
      subst
        (λ w.
          sum_of weight (update r g (y ∷ xs)) + weight w ≡ sum_of weight (y ∷ xs) + weight (g w))
        (deref_head r y x xs e h) (rw e (ground arith))
  | inr e ↦ rw e (plus_left _ _ _ _ (weight y) (sum-update r g xs x (ground (arith, h))))
]

pub length-update :
    (r : ℕ) (g : ScopeState → ScopeState) (xs : List ScopeState)
    → length (update r g xs) ≡ length xs
unfolding update
length-update r g [] = refl
length-update r g (y ∷ xs) = ground (arith, length-update r g xs)

pub sum-remove :
    (id : String) (xs : List ScopeState) (x : ScopeState)
    → find_scope id xs ≡ some x
    → sum_of weight (remove_scope id xs) + weight x ≡ sum_of weight xs
unfolding find_scope remove_scope
sum-remove id [] x h = absurd (ground arith)
sum-remove id (y ∷ xs) x h = elim (Bool-cases (str_eq y.id id)) [
  | inl e ↦
      subst (λ w. sum_of weight (remove_scope id (y ∷ xs)) + weight w ≡ sum_of weight (y ∷ xs))
        (find_head id y x xs e h) (rw e (add_comm (sum_of weight xs) (weight y)))
  | inr e ↦ rw e (plus_head _ _ _ (weight y) (sum-remove id xs x (ground (arith, h))))
]

pub length-remove : (id : String) (xs : List ScopeState) → length (remove_scope id xs) ≤ length xs
unfolding remove_scope
length-remove id [] = ground arith
length-remove id (y ∷ xs) = ground (arith, length-remove id xs)

pub count-append :
    (ls : List ScopeLease) (l : ScopeLease) (r : ℕ)
    → count (ls ++ (l ∷ [])) r ≡ count ls r + counts r l
count-append [] l r = ground arith
count-append (k ∷ ls) l r = ground (arith, count-append ls l r)

pub count-finished :
    (ls : List ScopeLease) (i : ℕ) (l : ScopeLease) (r : ℕ)
    → get_elem? ls i ≡ some l
    → count (set ls i (finished_lease l)) r + counts r l ≡ count ls r
count-finished [] i l r h = absurd (ground arith)
count-finished (k ∷ ls) zero l r h = ground arith
count-finished (k ∷ ls) (suc i) l r h = ground (arith, count-finished ls i l r)

pub deref-update :
    (r : ℕ) (g : ScopeState → ScopeState) (xs : List ScopeState) (x : ScopeState)
    → deref r xs ≡ some x
    → (g x).ref ≡ x.ref
    → deref r (update r g xs) ≡ some (g x)
unfolding deref update
deref-update r g [] x h keeps = absurd (ground arith)
deref-update r g (y ∷ xs) x h keeps = elim (Bool-cases (y.ref == r)) [
  | inl e ↦
      let q = deref_head r y x xs e h in
      subst (λ w. deref r (update r g (y ∷ xs)) ≡ some (g w)) q
        (let keeps' : (g y).ref ≡ y.ref = subst (λ w. (g w).ref ≡ w.ref) (sym q) keeps in
          ground arith)
  | inr e ↦ let k = deref-update r g xs x (ground (arith, h)) keeps in ground arith
]

pub find_scope-id :
    (id : String) (xs : List ScopeState) (x : ScopeState) → find_scope id xs ≡ some x → x.id ≡ id
unfolding find_scope
find_scope-id id [] x h = absurd (ground arith)
find_scope-id id (y ∷ xs) x h = elim (Bool-cases (str_eq y.id id)) [
  | inl e ↦ subst (λ w. w.id ≡ id) (find_head id y x xs e h) (ground (arith, eq_iff y.id id))
  | inr e ↦ find_scope-id id xs x (ground (arith, h))
]

pub deref-ref : (r : ℕ) (xs : List ScopeState) (x : ScopeState) → deref r xs ≡ some x → x.ref ≡ r
unfolding deref
deref-ref r [] x h = absurd (ground arith)
deref-ref r (y ∷ xs) x h = elim (Bool-cases (y.ref == r)) [
  | inl e ↦ subst (λ w. w.ref ≡ r) (deref_head r y x xs e h) (ground arith)
  | inr e ↦ deref-ref r xs x (ground (arith, h))
]
