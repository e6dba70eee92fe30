-- ===== src/Privacy/Service.antt =====
-- The callers of internal/privacy/store.go, interleaved section by section.
use otto_gateway.Base.{ℕ, String, Option, none, some, List, [], ◌∷◌}
use otto_gateway.Privacy.Ledger.{MappingKey}
use otto_gateway.Privacy.Store.{
  Holder, stores_entry, stores_relation, ScopeState, ScopeStore, deref, acquire, release,
  finalize_closed, clear_scope, reap_expired, begin_shutdown,
}
use otto_gateway.Privacy.Entries.{
  begin_entry, retry_entry, place_entry, begin_relation, retry_relation, place_relation,
  resolve_synthetic, resolve_original,
}

pub data ScopeEvent : Type 0 where
  acquires : String → String → ℕ → ScopeEvent
  releases : ℕ → ScopeEvent
  finalizes : String → ℕ → ℕ → ScopeEvent
  clears : String → ℕ → ScopeEvent
  reaps : ℕ → ScopeEvent
  shuts_down : ScopeEvent
  begins_entry retries_entry : ℕ → MappingKey → String → ℕ → ScopeEvent
  begins_relation retries_relation : ℕ → String → ℕ → ScopeEvent
  -- the operation that holds the mutex of a scope goes on, with its candidates
  places : ℕ → (ℕ → Option String) → ℕ → ScopeEvent
  resolves_synthetic resolves_original : ℕ → String → String → ℕ → ScopeEvent

unfoldable pub place :
    ScopeState → Option Holder → (ℕ → Option String) → ℕ → ScopeStore → ScopeStore
unfolding place_entry place_relation
place x none candidate now s = s
place x (some (stores_entry k provenance)) candidate now s =
    (place_entry x k provenance candidate now s).0
place x (some (stores_relation k)) candidate now s = (place_relation x k candidate now s).0

unfoldable pub scope_step : ScopeEvent → ScopeStore → ScopeStore
unfolding acquire release finalize_closed clear_scope reap_expired begin_entry retry_entry
    begin_relation retry_relation place deref resolve_synthetic resolve_original
scope_step (acquires id profile now) s = (acquire id profile now s).0
scope_step (releases i) s = release i s
scope_step (finalizes id ref now) s = finalize_closed id ref now s
scope_step (clears id now) s = (clear_scope id now s).0
scope_step (reaps now) s = reap_expired now s
scope_step shuts_down s = begin_shutdown s
scope_step (begins_entry i k p now) s = (begin_entry i k p now s).0
scope_step (retries_entry i k p now) s = (retry_entry i k p now s).0
scope_step (begins_relation i k now) s = (begin_relation i k now s).0
scope_step (retries_relation i k now) s = (retry_relation i k now s).0
scope_step (places ref candidate now) s = elim (deref ref s.scopes) [
  | none ↦ s
  | some x ↦ place x x.holder candidate now s
]
scope_step (resolves_synthetic i entity v now) s = (resolve_synthetic i entity v now s).0
scope_step (resolves_original i entity v now) s = (resolve_original i entity v now s).0

unfoldable pub scope_run : List ScopeEvent → ScopeStore → ScopeStore
unfolding scope_step
scope_run [] s = s
scope_run (e ∷ es) s = scope_run es (scope_step e s)
