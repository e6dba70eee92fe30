-- ===== src/Privacy/Roundtrip.antt =====
-- A pseudonym of internal/privacy/store.go leads back to what it stands for.
use otto_gateway.Base.{
  ℕ, ◌≡◌, refl, sym, ap, subst, String, false, Option, none, some, List, if◌then◌else◌, is_some,
  Bool-cases, Option-cases, inl, inr, arith,
}
use otto_gateway.Privacy.Ledger.{MappingKey, MappingEntry, find_entry}
use otto_gateway.Privacy.Store.{
  StoreConfig, ScopeState, ScopeStore, deref, update, touched, new_store,
}
use otto_gateway.Privacy.Entries.{
  Target, released_lease, gone, at_scope, target, resolved, resolve_by, resolve_synthetic,
  resolve_original,
}
use otto_gateway.Privacy.Service.{ScopeEvent, scope_run}
use otto_gateway.Privacy.Retained.{deref-update, deref-ref}
use otto_gateway.Privacy.Sound.{view, Sound}
use otto_gateway.Privacy.Mapping.{target-Aims, target-Member}
use otto_gateway.Privacy.Bounds.{new_store-Sound, scope_run-Sound}

-- A look-up that gives an entry, and what it did.
record Looked (find : ScopeState → Option MappingEntry) (n now : ℕ) (s : ScopeStore)
    (m : MappingEntry) : Type 0 where
  scope : ScopeState
  aimed : target n s ≡ at_scope scope
  unheld : is_some scope.holder ≡ false
  gives : find scope ≡ some m
  after :
      (resolve_by find n now s).0
      ≡ record s { scopes = update scope.ref (touched s.config now) s.scopes }

resolve_by-Looked :
    (find : ScopeState → Option MappingEntry) (n now : ℕ) (s : ScopeStore) (m : MappingEntry)
    → (resolve_by find n now s).1 ≡ some m
    → Looked find n now s m
unfolding resolve_by resolved
resolve_by-Looked find n now s m h = go (target n s) refl h
  where
    go :
        (t : Target)
        → target n s ≡ t
        → (elim t as (λ _. ScopeStore × Option MappingEntry) [
          | released_lease ↦ (s, none)
          | gone ↦ (s, none)
          | at_scope x ↦ if is_some x.holder then (s, none) else resolved x (find x) now s
        ]).1
          ≡ some m
        → Looked find n now s m
    go released_lease e h = absurd (ground arith)
    go gone e h = absurd (ground arith)
    go (at_scope x) e h = elim (Bool-cases (is_some x.holder)) [
      | inl b ↦ absurd (ground arith)
      | inr b ↦ elim (Option-cases (find x)) [
        | inl f ↦ absurd (ground arith)
        | inr (a, f) ↦ record {
          scope = x;
          aimed = e;
          unheld = b;
          gives = ground arith;
          after = ground arith;
        }
      ]
    ]

pub resolve_by-finds :
    (find : ScopeState → Option MappingEntry) (n now : ℕ) (s : ScopeStore) (x : ScopeState)
    (m : MappingEntry)
    → target n s ≡ at_scope x
    → is_some x.holder ≡ false
    → find x ≡ some m
    → (resolve_by find n now s).1 ≡ some m
unfolding resolve_by resolved
resolve_by-finds find n now s x m e b f = ground arith

-- A lease aims at its scope, also after the scope has changed.
pub target-update :
    (n : ℕ) (s : ScopeStore) (x : ScopeState) (g : ScopeState → ScopeState)
    → Sound (view s)
    → target n s ≡ at_scope x
    → (g x).ref ≡ x.ref
    → target n (record s { scopes = update x.ref g s.scopes }) ≡ at_scope (g x)
unfolding target
target-update n s x g i h keeps =
    let a = target-Aims n s x h in
    let m = target-Member n s x i h in
    let same : a.lease.scope ≡ x.ref = sym (deref-ref a.lease.scope s.scopes x a.behind) in
    let d = deref-update a.lease.scope g s.scopes x a.behind keeps in
    ground (
      arith,
      a.at,
      a.live,
      subst (λ q. deref a.lease.scope (update q g s.scopes) ≡ some (g x)) same d,
    )

-- A second look-up, of what the first one's scope holds.
looks_again :
    (find find' : ScopeState → Option MappingEntry) (n now now' : ℕ) (s : ScopeStore)
    (m : MappingEntry)
    → Sound (view s)
    → (l : Looked find n now s m) → find' (touched s.config now l.scope) ≡ some m
    → (resolve_by find' n now' (resolve_by find n now s).0).1 ≡ some m
looks_again find find' n now now' s m i l gives =
    let x = l.scope in
    let g = touched s.config now in
    let s' : ScopeStore = record s { scopes = update x.ref g s.scopes } in
    subst (λ t. (resolve_by find' n now' t).1 ≡ some m) (sym l.after)
      (resolve_by-finds find' n now' s' (g x) m (target-update n s x g i l.aimed refl) l.unheld
        gives)

-- After any sections of a new store, in any order: where a look-up by the original value gives an entry,
-- the entry is of that value, and a look-up by its synthetic value at once gives the same entry.
pub original_resolves_back :
    (c : StoreConfig) (s : ScopeStore) (es : List ScopeEvent) (n now now' : ℕ)
    (entity original : String) (m : MappingEntry)
    → new_store c ≡ some s
    → (resolve_original n entity original now (scope_run es s)).1 ≡ some m
    → (let s' = (resolve_original n entity original now (scope_run es s)).0 in
        (m.entity ≡ entity)
        × (m.original ≡ original)
        × ((resolve_synthetic n entity m.synthetic now' s').1 ≡ some m))
unfolding resolve_original resolve_synthetic
original_resolves_back c s es n now now' entity original m made h =
    let s1 = scope_run es s in
    let i = scope_run-Sound es s (new_store-Sound c s made) in
    let k : MappingKey = record { entity = entity; value = original } in
    let l = resolve_by-Looked (λ x. find_entry k x.forward) n now s1 m h in
    let x = l.scope in
    let t = (target-Member n s1 x i l.aimed).tidy.paired.there k m l.gives in
    (
      ap (λ j. j.entity) t.0,
      ap (λ j. j.value) t.0,
      looks_again _ (λ y. find_entry (record { entity = entity; value = m.synthetic }) y.reverse) n
          now now' s1 m i l
          (subst (λ e. find_entry (record { entity = e; value = m.synthetic }) x.reverse ≡ some m)
            (ap (λ j. j.entity) t.0) t.1),
    )

-- After any sections of a new store, in any order: where a look-up by a synthetic value gives an entry,
-- the entry has that value, and a look-up by its original value at once gives the same entry.
pub synthetic_resolves_back :
    (c : StoreConfig) (s : ScopeStore) (es : List ScopeEvent) (n now now' : ℕ)
    (entity synthetic : String) (m : MappingEntry)
    → new_store c ≡ some s
    → (resolve_synthetic n entity synthetic now (scope_run es s)).1 ≡ some m
    → (let s' = (resolve_synthetic n entity synthetic now (scope_run es s)).0 in
        (m.entity ≡ entity)
        × (m.synthetic ≡ synthetic)
        × ((resolve_original n entity m.original now' s').1 ≡ some m))
unfolding resolve_original resolve_synthetic
synthetic_resolves_back c s es n now now' entity synthetic m made h =
    let s1 = scope_run es s in
    let i = scope_run-Sound es s (new_store-Sound c s made) in
    let k : MappingKey = record { entity = entity; value = synthetic } in
    let l = resolve_by-Looked (λ x. find_entry k x.reverse) n now s1 m h in
    let x = l.scope in
    let t = (target-Member n s1 x i l.aimed).tidy.paired.back k m l.gives in
    (
      ap (λ j. j.entity) t.0,
      ap (λ j. j.value) t.0,
      looks_again _ (λ y. find_entry (record { entity = entity; value = m.original }) y.forward) n
          now now' s1 m i l
          (subst (λ e. find_entry (record { entity = e; value = m.original }) x.forward ≡ some m)
            (ap (λ j. j.entity) t.0) t.1),
    )
