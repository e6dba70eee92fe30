-- ===== src/Privacy/Sound.antt =====
-- The counts and bounds of internal/privacy/store.go that every section keeps.
use otto_gateway.Base.{
  ℕ, zero, suc, ◌+◌, ◌-◌, ◌≤◌, ◌≡◌, ◌≢◌, refl, ◌∙◌, sym, subst, String, Bool, true, false, Option,
  none, some, List, [], ◌∷◌, map, if◌then◌else◌, length, sum_of, is_some, ◌==◌, Bool-cases,
  Option-cases, inl, inr, arith,
}
use otto_gateway.Pool.State.{lookup}
use otto_gateway.Privacy.Ledger.{MappingKey, find_entry}
use otto_gateway.Privacy.Store.{
  StoreConfig, stores_entry, stores_relation, ScopeState, ScopeLease, ScopeStore, find_scope,
  remove_scope, deref, update, entries, add_tombstone, prune_from, prune_tombstones,
  wipe_and_remove, can_reap, reap_one, reap_each, reap_available, reap_expired,
}
use otto_gateway.Privacy.Retained.{
  count, weight, Fits, update-Fits, remove-Fits, deref-Found, sum-update, sum-remove, length-update,
  length-remove,
}
use otto_gateway.Privacy.Paired.{Paired}

-- A scope's entries are within the bound, its maps inverse, and what its holder is to store is new.
pub record Tidy (limit : ℕ) (x : ScopeState) : Type 0 where
  pub room : weight x ≤ limit
  pub paired : Paired x
  pub new_entry :
      (k : MappingKey) (p : String)
      → x.holder ≡ some (stores_entry k p)
      → find_entry k x.forward ≡ none
  pub new_relation :
      (k : String) → x.holder ≡ some (stores_relation k) → lookup k x.relations ≡ none

-- What the tombstones have no part in.
pub record View : Type 0 where
  pub config : StoreConfig
  pub scopes : List ScopeState
  pub total : ℕ
  pub leases : List ScopeLease
  pub next : ℕ

abbrev pub view : ScopeStore → View
view s = record {
  config = s.config;
  scopes = s.scopes;
  total = s.total_entries;
  leases = s.leases;
  next = s.next_ref;
}

pub record Sound (v : View) : Type 0 where
  pub fits : Fits (Tidy v.config.max_entries_per_scope) (count v.leases) v.next v.scopes
  pub beyond : (r : ℕ) → v.next ≤ r → count v.leases r ≡ 0
  pub sums : v.total ≡ sum_of weight v.scopes
  pub bounded : v.total ≤ v.config.max_total_entries
  pub few : length v.scopes ≤ v.config.max_scopes

view-if :
    (b : Bool) (s t : ScopeStore) (v : View)
    → view s ≡ v
    → view t ≡ v
    → view (if b then s else t) ≡ v
view-if true s t v h g = h
view-if false s t v h g = g

pub view-add_tombstone :
    (id : String) (expires : ℕ) (s : ScopeStore) → view (add_tombstone id expires s) ≡ view s
unfolding add_tombstone
view-add_tombstone id expires s =
    view-if (s.tombstone_len == length s.tombstone_ring) _ _ (view s) refl refl

view-prune_from : (n now : ℕ) (s : ScopeStore) → view (prune_from n now s) ≡ view s
unfolding prune_from
view-prune_from zero now s = refl
view-prune_from (suc n) now s = view-if _ _ _ (view s) refl (view-prune_from n now _)

pub view-prune_tombstones : (now : ℕ) (s : ScopeStore) → view (prune_tombstones now s) ≡ view s
unfolding prune_tombstones
view-prune_tombstones now s = view-prune_from s.tombstone_len now s

-- A change of the scope behind a pointer, of the leases and of the total.
pub change-Sound :
    (v : View) (r : ℕ) (g : ScopeState → ScopeState) (x : ScopeState) (ls : List ScopeLease)
    (total : ℕ)
    → Sound v
    → deref r v.scopes ≡ some x
    → (g x).ref ≡ x.ref
    → (g x).in_flight ≡ count ls r
    → Tidy v.config.max_entries_per_scope (g x)
    → ((q : ℕ) → q ≢ r → count ls q ≡ count v.leases q)
    → total + weight x ≡ v.total + weight (g x)
    → total ≤ v.config.max_total_entries
    → Sound (record v { scopes = update r g v.scopes; total = total; leases = ls })
change-Sound v r g x ls total s at keeps used tidy same sums bound =
    let P = Tidy v.config.max_entries_per_scope in
    let d = deref-Found P (count v.leases) v.next r v.scopes x s.fits at in
    record {
      fits =
          update-Fits P (count v.leases) (count ls) v.next r g v.scopes x s.fits at keeps used tidy
            same;
      beyond = λ q h. same q (ground (arith, d.low)) ∙ s.beyond q h;
      sums = ground (arith, sum-update r g v.scopes x at, s.sums);
      bounded = bound;
      few = ground (arith, length-update r g v.scopes, s.few);
    }

pub wipe-Sound :
    (id : String) (ref now : ℕ) (s : ScopeStore)
    → Sound (view s)
    → ((x : ScopeState)
        → find_scope id s.scopes ≡ some x
        → x.ref ≡ ref
        → (x.in_flight ≡ 0) × (is_some x.holder ≡ false))
    → Sound (view (wipe_and_remove id ref now s))
unfolding wipe_and_remove
wipe-Sound id ref now s i idle = elim (Option-cases (find_scope id s.scopes)) [
  | inl n ↦ rw (n, wipe_and_remove) i
  | inr (x, n) ↦ elim (Bool-cases (x.ref == ref)) [
    | inr e ↦ rw (n, e, wipe_and_remove) i
    | inl e ↦
        let (unused, unheld) = idle x n (ground arith) in
        let t : ScopeStore = record s {
          scopes = remove_scope id s.scopes;
          total_entries = s.total_entries - entries x;
        } in
        let c : Sound (view t) = record {
          fits = remove-Fits _ (count s.leases) s.next_ref id s.scopes x i.fits n unused;
          beyond = i.beyond;
          sums = ground (arith, sum-remove id s.scopes x n, i.sums, unheld);
          bounded = ground (arith, i.bounded);
          few = ground (arith, i.few, length-remove id s.scopes);
        } in
        rw (n, e, wipe_and_remove)
          (subst Sound (sym (view-add_tombstone id (now + s.config.scope_ttl) t)) c)
  ]
]

pub same_scope : (x y : ScopeState) {o : Option ScopeState} → o ≡ some x → o ≡ some y → x ≡ y
same_scope x y h g = ground arith

reap_one-Sound :
    (id : String) (now : ℕ) (s : ScopeStore) → Sound (view s) → Sound (view (reap_one id now s))
unfolding reap_one
reap_one-Sound id now s i = elim (Option-cases (find_scope id s.scopes)) [
  | inl n ↦ rw (n, reap_one) i
  | inr (x, n) ↦ elim (Bool-cases (can_reap x now)) [
    | inr e ↦ rw (n, e, reap_one) i
    | inl e ↦
        rw (n, e, reap_one)
          (wipe-Sound id x.ref now s i (λ y m q.
            subst (λ z. (z.in_flight ≡ 0) × (is_some z.holder ≡ false)) (same_scope x y n m)
              (ground arith, ground arith)))
  ]
]

reap_each-Sound :
    (ids : List String) (now : ℕ) (s : ScopeStore)
    → Sound (view s)
    → Sound (view (reap_each ids now s))
unfolding reap_each
reap_each-Sound [] now s i = i
reap_each-Sound (id ∷ ids) now s i =
    reap_each-Sound ids now (reap_one id now s) (reap_one-Sound id now s i)

pub reap_available-Sound :
    (now : ℕ) (s : ScopeStore) → Sound (view s) → Sound (view (reap_available now s))
unfolding reap_available
reap_available-Sound now s i = reap_each-Sound (map (λ x. x.id) s.scopes) now s i

pub pruned-Sound :
    (now : ℕ) (s : ScopeStore) → Sound (view s) → Sound (view (prune_tombstones now s))
pruned-Sound now s i = subst Sound (sym (view-prune_tombstones now s)) i

pub reap_expired-Sound :
    (now : ℕ) (s : ScopeStore) → Sound (view s) → Sound (view (reap_expired now s))
unfolding reap_expired
reap_expired-Sound now s i =
    reap_available-Sound now (prune_tombstones now s) (pruned-Sound now s i)

-- A section that is one of two, and one that depends on an option.
pub if-Sound :
    {A : Type 0} (b : Bool) (r r' : ScopeStore × A)
    → (b ≡ true → Sound (view r.0))
    → (b ≡ false → Sound (view r'.0))
    → Sound (view (if b then r else r').0)
if-Sound true r r' h g = h refl
if-Sound false r r' h g = g refl

pub option-Sound :
    {A B : Type 0} (o : Option B) (r : ScopeStore × A) (f : B → ScopeStore × A)
    → (o ≡ none → Sound (view r.0))
    → ((b : B) → o ≡ some b → Sound (view (f b).0))
    → Sound (view (elim o as (λ _. ScopeStore × A) [ none ↦ r | some b ↦ f b ]).0)
option-Sound none r f h g = h refl
option-Sound (some b) r f h g = g b refl

pub if_store-Sound :
    (b : Bool) (s t : ScopeStore)
    → (b ≡ true → Sound (view s))
    → (b ≡ false → Sound (view t))
    → Sound (view (if b then s else t))
if_store-Sound true s t h g = h refl
if_store-Sound false s t h g = g refl

pub option_store-Sound :
    {B : Type 0} (o : Option B) (s : ScopeStore) (f : B → ScopeStore)
    → (o ≡ none → Sound (view s))
    → ((b : B) → o ≡ some b → Sound (view (f b)))
    → Sound (view (elim o as (λ _. ScopeStore) [ none ↦ s | some b ↦ f b ]))
option_store-Sound none s f h g = h refl
option_store-Sound (some b) s f h g = g b refl
