-- ===== src/Privacy/Bounds.antt =====
-- Whatever the callers of internal/privacy/store.go do, the bounds hold and no lease loses its scope.
use otto_gateway.Base.{
  ℕ, ◌≤◌, ◌≡◌, ◌≢◌, refl, ◌∙◌, sym, ap, subst, false, Option, none, some, List, [], ◌∷◌, length,
  get_elem?, sum_of, arith,
}
use otto_gateway.Privacy.Store.{
  StoreConfig, ScopeState, ScopeLease, ScopeStore, deref, entries, empty_store, new_store,
}
use otto_gateway.Privacy.Entries.{resolve_synthetic, resolve_original}
use otto_gateway.Privacy.Service.{
  ScopeEvent, acquires, releases, finalizes, clears, reaps, shuts_down, begins_entry, retries_entry,
  begins_relation, retries_relation, places, resolves_synthetic, resolves_original, place,
  scope_step, scope_run,
}
use otto_gateway.Privacy.Retained.{count, weight, used-Found, count-finished}
use otto_gateway.Privacy.Settings.{run-config}
use otto_gateway.Privacy.Sound.{view, Sound, reap_expired-Sound}
use otto_gateway.Privacy.Lifecycle.{
  deref-Member, acquire-Sound, release-Sound, finalize_closed-Sound, clear_scope-Sound,
}
use otto_gateway.Privacy.Mapping.{
  begin_entry-Sound, retry_entry-Sound, begin_relation-Sound, retry_relation-Sound,
  resolve_by-Sound,
}
use otto_gateway.Privacy.Storing.{place-Sound}

made : (c : StoreConfig) (s : ScopeStore) → new_store c ≡ some s → empty_store c ≡ s
unfolding new_store
made c s h = ground arith

pub new_store-Sound : (c : StoreConfig) (s : ScopeStore) → new_store c ≡ some s → Sound (view s)
unfolding new_store
new_store-Sound c s h =
    subst (λ t. Sound (view t)) (made c s h)
      (record {
        fits = λ r low. absurd (ground arith);
        beyond = λ r h. refl;
        sums = refl;
        bounded = ground arith;
        few = ground arith;
      })

pub scope_step-Sound :
    (e : ScopeEvent) (s : ScopeStore) → Sound (view s) → Sound (view (scope_step e s))
unfolding scope_step
scope_step-Sound (acquires id profile now) s i = acquire-Sound id profile now s i
scope_step-Sound (releases n) s i = release-Sound n s i
scope_step-Sound (finalizes id ref now) s i = finalize_closed-Sound id ref now s i
scope_step-Sound (clears id now) s i = clear_scope-Sound id now s i
scope_step-Sound (reaps now) s i = reap_expired-Sound now s i
scope_step-Sound shuts_down s i = i
scope_step-Sound (begins_entry n k p now) s i = begin_entry-Sound n k p now s i
scope_step-Sound (retries_entry n k p now) s i = retry_entry-Sound n k p now s i
scope_step-Sound (begins_relation n k now) s i = begin_relation-Sound n k now s i
scope_step-Sound (retries_relation n k now) s i = retry_relation-Sound n k now s i
scope_step-Sound (places ref candidate now) s i = go (deref ref s.scopes) refl
  where
    go :
        (o : Option ScopeState)
        → deref ref s.scopes ≡ o
        → Sound (
            view (elim o as (λ _. ScopeStore) [
              | none ↦ s
              | some x ↦ place x x.holder candidate now s
            ]))
    go none h = i
    go (some x) h = place-Sound x x.holder candidate now s i (deref-Member s ref x i h) refl
scope_step-Sound (resolves_synthetic n entity v now) s i =
    unfold resolve_synthetic in resolve_by-Sound _ n now s i
scope_step-Sound (resolves_original n entity v now) s i =
    unfold resolve_original in resolve_by-Sound _ n now s i

pub scope_run-Sound :
    (es : List ScopeEvent) (s : ScopeStore) → Sound (view s) → Sound (view (scope_run es s))
unfolding scope_run
scope_run-Sound [] s i = i
scope_run-Sound (e ∷ es) s i = scope_run-Sound es (scope_step e s) (scope_step-Sound e s i)

-- After any sections of a new store, in any order, the total is the number of entries that the scopes
-- store or have reserved, and it, the number of scopes and the entries of each scope are within the
-- bounds of the configuration.
pub scope_run-bound :
    (c : StoreConfig) (s : ScopeStore) (es : List ScopeEvent)
    → new_store c ≡ some s
    → (let s' = scope_run es s in
        (s'.total_entries ≡ sum_of weight s'.scopes)
        × (s'.total_entries ≤ c.max_total_entries)
        × (length s'.scopes ≤ c.max_scopes)
        × ((r : ℕ) (x : ScopeState)
            → deref r s'.scopes ≡ some x
            → entries x ≤ c.max_entries_per_scope))
scope_run-bound c s es h =
    let s' = scope_run es s in
    let i = scope_run-Sound es s (new_store-Sound c s h) in
    let q : s'.config ≡ c = run-config es s ∙ ap (λ t. t.config) (sym (made c s h)) in
    let each : (r : ℕ) (x : ScopeState)
        → deref r s'.scopes ≡ some x
        → entries x ≤ s'.config.max_entries_per_scope =
      λ r x d. ground (arith, (deref-Member s' r x i d).tidy.room) in
    (
      i.sums,
      subst (λ k. s'.total_entries ≤ k.max_total_entries) q i.bounded,
      subst (λ k. length s'.scopes ≤ k.max_scopes) q i.few,
      λ r x d. subst (λ k. entries x ≤ k.max_entries_per_scope) q (each r x d),
    )

-- After any sections of a new store, in any order, a lease that was not released has its scope: it was
-- neither wiped nor removed.
pub lease_retained :
    (c : StoreConfig) (s : ScopeStore) (es : List ScopeEvent) (n : ℕ) (l : ScopeLease)
    → new_store c ≡ some s
    → get_elem? (scope_run es s).leases n ≡ some l
    → l.released ≡ false
    → deref l.scope (scope_run es s).scopes ≢ none
lease_retained c s es n l h at live =
    let s' = scope_run es s in
    let i = scope_run-Sound es s (new_store-Sound c s h) in
    let one = count-finished s'.leases n l l.scope at in
    used-Found _ (count s'.leases) s'.next_ref l.scope s'.scopes i.fits
      (ground (arith, one, i.beyond l.scope)) (ground (arith, one))
