-- ===== src/Privacy/Created.antt =====
-- A pseudonym that internal/privacy/store.go has created can be looked up.
use otto_gateway.Base.{ℕ, ◌≡◌, refl, sym, ap, subst, String, Option, some, List, arith}
use otto_gateway.Privacy.Ledger.{MappingKey, MappingEntry, find-put_self}
use otto_gateway.Privacy.Store.{StoreConfig, ScopeState, ScopeStore, update, touched, new_store}
use otto_gateway.Privacy.Entries.{
  at_scope, target, resolve_synthetic, resolve_original, reverse_key, Outcome, created, stopped,
  freed, Chosen, chosen, no_choice, choose, attempts, synthetic_taken, new_entry, store_entry,
  place_entry, unreserve,
}
use otto_gateway.Privacy.Service.{ScopeEvent, scope_run}
use otto_gateway.Privacy.Bounds.{new_store-Sound, scope_run-Sound}
use otto_gateway.Privacy.Roundtrip.{resolve_by-finds, target-update}

-- The outcome of the section that stores an entry, taken apart.
record Placed (x : ScopeState) (k : MappingKey) (p : String) (now : ℕ) (s : ScopeStore)
    (m : MappingEntry) (t : ScopeStore) : Type 0 where
  synthetic : String
  made : m ≡ new_entry k synthetic p now
  after : t ≡ record s {
    scopes =
        update x.ref
          (λ y. freed (touched s.config now (store_entry k (new_entry k synthetic p now) y)))
          s.scopes;
  }

abbrev created_entry : MappingEntry → Outcome MappingEntry → MappingEntry
created_entry d (created m) = m
created_entry d _ = d

place_entry-Placed :
    (x : ScopeState) (k : MappingKey) (p : String) (candidate : ℕ → Option String) (now : ℕ)
    (s : ScopeStore) (m : MappingEntry)
    → (place_entry x k p candidate now s).1 ≡ created m
    → Placed x k p now s m (place_entry x k p candidate now s).0
unfolding place_entry
place_entry-Placed x k p candidate now s m =
    go (choose candidate (synthetic_taken x k.entity) attempts 0)
  where
    outcome : Chosen → ScopeStore × Outcome MappingEntry
    outcome c = elim c [
      | no_choice e n ↦ (unreserve x s, stopped e)
      | chosen v n ↦ (
        record s {
          scopes =
              update x.ref
                (λ y. freed (touched s.config now (store_entry k (new_entry k v p now) y)))
                s.scopes;
        },
        created (new_entry k v p now),
      )
    ]

    go : (c : Chosen) → (outcome c).1 ≡ created m → Placed x k p now s m (outcome c).0
    go (no_choice e n) h = absurd (ground arith)
    go (chosen v n) h = record { synthetic = v; made = ap (created_entry m) (sym h); after = refl }

-- After any sections of a new store, in any order: where the section that stores an entry, at a scope
-- that a lease has, creates one, the entry is of the value that was asked for, and a look-up of the lease
-- gives it, by its synthetic value as by the original.
pub created_resolves :
    (c : StoreConfig) (s : ScopeStore) (es : List ScopeEvent) (n : ℕ) (x : ScopeState)
    (k : MappingKey) (p : String) (candidate : ℕ → Option String) (now now' : ℕ) (m : MappingEntry)
    → new_store c ≡ some s
    → target n (scope_run es s) ≡ at_scope x
    → (place_entry x k p candidate now (scope_run es s)).1 ≡ created m
    → (let s' = (place_entry x k p candidate now (scope_run es s)).0 in
        (m.original ≡ k.value)
        × ((resolve_synthetic n k.entity m.synthetic now' s').1 ≡ some m)
        × ((resolve_original n k.entity k.value now' s').1 ≡ some m))
unfolding resolve_original resolve_synthetic store_entry
created_resolves c s es n x k p candidate now now' m made at h =
    let s1 = scope_run es s in
    let i = scope_run-Sound es s (new_store-Sound c s made) in
    let r = place_entry-Placed x k p candidate now s1 m h in
    let e = new_entry k r.synthetic p now in
    let g = λ (y : ScopeState). freed (touched s1.config now (store_entry k e y)) in
    let s2 : ScopeStore = record s1 { scopes = update x.ref g s1.scopes } in
    let aimed : target n s2 ≡ at_scope (g x) = target-update n s1 x g i at refl in
    let by_synthetic : (resolve_synthetic n k.entity e.synthetic now' s2).1 ≡ some e =
      resolve_by-finds _ n now' s2 (g x) e aimed refl (find-put_self (reverse_key e) e x.reverse) in
    let by_original : (resolve_original n k.entity k.value now' s2).1 ≡ some e =
      resolve_by-finds _ n now' s2 (g x) e aimed refl (find-put_self k e x.forward) in
    (
      ap (λ b. b.original) r.made,
      subst
          (λ b.
            (resolve_synthetic n k.entity b.synthetic now' (place_entry x k p candidate now s1).0).1
            ≡ some b)
          (sym r.made)
          (subst (λ t. (resolve_synthetic n k.entity e.synthetic now' t).1 ≡ some e) (sym r.after)
            by_synthetic),
      subst
          (λ b.
            (resolve_original n k.entity k.value now' (place_entry x k p candidate now s1).0).1
            ≡ some b)
          (sym r.made)
          (subst (λ t. (resolve_original n k.entity k.value now' t).1 ≡ some e) (sym r.after)
            by_original),
    )
