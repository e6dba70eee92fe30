-- ===== src/Privacy/Settings.antt =====
-- No section of internal/privacy/store.go changes the configuration.
use otto_gateway.Base.{
  ℕ, ◌≡◌, refl, ◌∙◌, ap, String, Option, none, some, List, [], ◌∷◌, map, Option-cases, inl, inr,
  arith,
}
use otto_gateway.Privacy.Ledger.{MappingKey, MappingEntry}
use otto_gateway.Privacy.Store.{
  Holder, stores_entry, stores_relation, ScopeState, ScopeStore, StoreError, find_scope, deref,
  begin_closing, update, add_tombstone, prune_tombstones, wipe_and_remove, reap_one, reap_each,
  reap_available, reap_expired, join_scope, open_scope, acquire_pruned, acquire, release,
  finalize_closed, clear_pruned, clear_scope,
}
use otto_gateway.Privacy.Entries.{
  reserve, enter_entry, begin_entry, retry_entry, Chosen, chosen, no_choice, place_entry,
  place_relation, enter_relation, begin_relation, retry_relation, resolved, resolve_by,
  resolve_synthetic, resolve_original,
}
use otto_gateway.Privacy.Service.{
  acquires, releases, finalizes, clears, reaps, shuts_down, begins_entry, retries_entry,
  begins_relation, retries_relation, places, resolves_synthetic, resolves_original, ScopeEvent,
  place, scope_step, scope_run,
}
use otto_gateway.Privacy.Sound.{view-prune_tombstones}

wipe-config :
    (id : String) (ref now : ℕ) (s : ScopeStore) → (wipe_and_remove id ref now s).config ≡ s.config
unfolding wipe_and_remove add_tombstone
wipe-config id ref now s = ground arith

reap_one-config : (id : String) (now : ℕ) (s : ScopeStore) → (reap_one id now s).config ≡ s.config
unfolding reap_one
reap_one-config id now s = elim (Option-cases (find_scope id s.scopes)) [
  | inl e ↦ ground arith
  | inr (x, e) ↦ ground (arith, wipe-config id x.ref now s)
]

prune-config : (now : ℕ) (s : ScopeStore) → (prune_tombstones now s).config ≡ s.config
prune-config now s = ap (λ v. v.config) (view-prune_tombstones now s)

release-config : (i : ℕ) (s : ScopeStore) → (release i s).config ≡ s.config
unfolding release
release-config i s = ground arith

finalize-config :
    (id : String) (ref now : ℕ) (s : ScopeStore) → (finalize_closed id ref now s).config ≡ s.config
unfolding finalize_closed
finalize-config id ref now s = ground (arith, wipe-config id ref now s)

begin_entry-config :
    (i : ℕ) (k : MappingKey) (p : String) (now : ℕ) (s : ScopeStore)
    → (begin_entry i k p now s).0.config ≡ s.config
unfolding begin_entry enter_entry reserve
begin_entry-config i k p now s = ground arith

reap_each-config :
    (ids : List String) (now : ℕ) (s : ScopeStore) → (reap_each ids now s).config ≡ s.config
unfolding reap_each
reap_each-config [] now s = refl
reap_each-config (id ∷ ids) now s =
    reap_each-config ids now (reap_one id now s) ∙ reap_one-config id now s

reap_available-config : (now : ℕ) (s : ScopeStore) → (reap_available now s).config ≡ s.config
unfolding reap_available
reap_available-config now s = reap_each-config (map (λ x. x.id) s.scopes) now s

reap_expired-config : (now : ℕ) (s : ScopeStore) → (reap_expired now s).config ≡ s.config
unfolding reap_expired
reap_expired-config now s = reap_available-config now (prune_tombstones now s) ∙ prune-config now s

open-config :
    (id profile : String) (now : ℕ) (s : ScopeStore)
    → (open_scope id profile now s).0.config ≡ s.config
unfolding open_scope
open-config id profile now s = ground arith

join-config :
    (x : ScopeState) (profile : String) (now : ℕ) (s : ScopeStore)
    → (join_scope x profile now s).0.config ≡ s.config
unfolding join_scope
join-config x profile now s = ground (arith, wipe-config x.id x.ref now s)

acquire_pruned-config :
    (id profile : String) (now : ℕ) (s : ScopeStore)
    → (acquire_pruned id profile now s).0.config ≡ s.config
unfolding acquire_pruned
acquire_pruned-config id profile now s = elim (Option-cases (find_scope id s.scopes)) [
  | inl e ↦ ground (
    arith,
    open-config id profile now s,
    open-config id profile now (reap_available now s),
    reap_available-config now s,
  )
  | inr (x, e) ↦ ground (arith, join-config x profile now s)
]

acquire-config :
    (id profile : String) (now : ℕ) (s : ScopeStore)
    → (acquire id profile now s).0.config ≡ s.config
unfolding acquire
acquire-config id profile now s =
    ground
      (arith, acquire_pruned-config id profile now (prune_tombstones now s), prune-config now s)

clear_pruned-config :
    (id : String) (now : ℕ) (s : ScopeStore) → (clear_pruned id now s).0.config ≡ s.config
unfolding clear_pruned
clear_pruned-config id now s = elim (Option-cases (find_scope id s.scopes)) [
  | inl e ↦ ground arith
  | inr (x, e) ↦
      ground (
        arith,
        wipe-config id x.ref now (record s { scopes = update x.ref begin_closing s.scopes }),
      )
]

clear-config : (id : String) (now : ℕ) (s : ScopeStore) → (clear_scope id now s).0.config ≡ s.config
unfolding clear_scope
clear-config id now s =
    ground (arith, clear_pruned-config id now (prune_tombstones now s), prune-config now s)

begin_relation-config :
    (i : ℕ) (k : String) (now : ℕ) (s : ScopeStore) → (begin_relation i k now s).0.config ≡ s.config
unfolding begin_relation enter_relation reserve
begin_relation-config i k now s = ground arith

resolve_by-config :
    (find : ScopeState → Option MappingEntry) (i now : ℕ) (s : ScopeStore)
    → (resolve_by find i now s).0.config ≡ s.config
unfolding resolve_by resolved
resolve_by-config find i now s = ground arith

chosen-config :
    {A : Type 0} (c : Chosen) (s : ScopeStore) (f : StoreError → ℕ → ScopeStore × A)
    (g : String → ℕ → ScopeStore × A)
    → ((e : StoreError) (n : ℕ) → (f e n).0.config ≡ s.config)
    → ((v : String) (n : ℕ) → (g v n).0.config ≡ s.config)
    → (elim c as (λ _. ScopeStore × A) [ no_choice e n ↦ f e n | chosen v n ↦ g v n ]).0.config
      ≡ s.config
chosen-config (no_choice e n) s f g h k = h e n
chosen-config (chosen v n) s f g h k = k v n

place-config :
    (x : ScopeState) (o : Option Holder) (candidate : ℕ → Option String) (now : ℕ) (s : ScopeStore)
    → (place x o candidate now s).config ≡ s.config
unfolding place place_entry place_relation
place-config x none candidate now s = refl
place-config x (some (stores_entry k p)) candidate now s =
    chosen-config _ s _ _ (λ e n. refl) (λ v n. refl)
place-config x (some (stores_relation k)) candidate now s =
    chosen-config _ s _ _ (λ e n. refl) (λ v n. refl)

pub step-config : (e : ScopeEvent) (s : ScopeStore) → (scope_step e s).config ≡ s.config
unfolding scope_step
step-config (acquires id profile now) s = acquire-config id profile now s
step-config (releases n) s = release-config n s
step-config (finalizes id ref now) s = finalize-config id ref now s
step-config (clears id now) s = clear-config id now s
step-config (reaps now) s = reap_expired-config now s
step-config shuts_down s = refl
step-config (begins_entry n k p now) s = begin_entry-config n k p now s
step-config (retries_entry n k p now) s = unfold retry_entry in begin_entry-config n k p now s
step-config (begins_relation n k now) s = begin_relation-config n k now s
step-config (retries_relation n k now) s = unfold retry_relation in begin_relation-config n k now s
step-config (places ref candidate now) s = elim (Option-cases (deref ref s.scopes)) [
  | inl e ↦ ground arith
  | inr (x, e) ↦ ground (arith, place-config x x.holder candidate now s)
]
step-config (resolves_synthetic n entity v now) s =
    unfold resolve_synthetic in resolve_by-config _ n now s
step-config (resolves_original n entity v now) s =
    unfold resolve_original in resolve_by-config _ n now s

pub run-config : (es : List ScopeEvent) (s : ScopeStore) → (scope_run es s).config ≡ s.config
unfolding scope_run
run-config [] s = refl
run-config (e ∷ es) s = run-config es (scope_step e s) ∙ step-config e s
