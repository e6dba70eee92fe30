-- ===== src/Privacy/Tests.antt =====
-- Runs of the store of internal/privacy/store.go.
use otto_gateway.Base.{
  ℕ, ◌≡◌, ◌≢◌, ◌≤◌, refl, Bool, false, String, Option, none, some, List, [], ◌∷◌, length, sum_of,
  arith, get_elem?, if◌then◌else◌, ◌==◌, ◌+◌, str_eq,
}
use otto_gateway.Privacy.Ledger.{MappingKey, MappingEntry}
use otto_gateway.Privacy.Store.{
  stores_entry, StoreConfig, ScopeState, ScopeLease, deref, entries, empty_store, new_store,
  candidate_exhausted,
}
use otto_gateway.Privacy.Entries.{
  chosen, no_choice, choose, attempts, resolve_synthetic, resolve_original, created, place_entry,
  target, at_scope,
}
use otto_gateway.Privacy.Service.{
  ScopeEvent, acquires, releases, begins_entry, places, clears, scope_run,
}
use otto_gateway.Privacy.Retained.{weight}
use otto_gateway.Privacy.Bounds.{scope_run-bound, lease_retained}
use otto_gateway.Privacy.Roundtrip.{original_resolves_back, synthetic_resolves_back}
use otto_gateway.Privacy.Created.{created_resolves}
use otto_gateway.Privacy.Candidates.{AllTaken, choose-ends, exhausted_wraps}

abbrev config : StoreConfig
config = record { scope_ttl = 10; max_scopes = 2; max_entries_per_scope = 3; max_total_entries = 4 }

abbrev address : MappingKey
address = record { entity = "EMAIL"; value = "ann@example.com" }

abbrev events : List ScopeEvent
events =
    acquires "s1" "standard" 1
    ∷ begins_entry 0 address "input" 2
    ∷ places 0 (λ n. some "p1") 3
    ∷ clears "s1" 4
    ∷ []

abbrev mapped : MappingEntry
mapped = record {
  entity = "EMAIL";
  original = "ann@example.com";
  synthetic = "p1";
  provenance = "input";
  created_at = 3;
}

abbrev lease : ScopeLease
lease = record { scope = 0; released = false }

new_test : new_store config ≡ some (empty_store config)
unfolding new_store
new_test = refl

-- A scope that is cleared while it is in use keeps its entry until the lease is released.
run_test : (scope_run events (empty_store config)).total_entries ≡ 1
unfolding scope_run
run_test = refl

release_test :
    (scope_run
      (releases 0 ∷ clears "s1" 5 ∷ [])
      (scope_run events (empty_store config))).total_entries
    ≡ 0
unfolding scope_run
release_test = refl

scope_run-bound_example :
    (let s' = scope_run events (empty_store config) in
      (s'.total_entries ≡ sum_of weight s'.scopes)
      × (s'.total_entries ≤ config.max_total_entries)
      × (length s'.scopes ≤ config.max_scopes)
      × ((r : ℕ) (x : ScopeState)
          → deref r s'.scopes ≡ some x
          → entries x ≤ config.max_entries_per_scope))
scope_run-bound_example = scope_run-bound config (empty_store config) events new_test

leased_test : get_elem? (scope_run events (empty_store config)).leases 0 ≡ some lease
unfolding scope_run
leased_test = refl

lease_retained_example : deref 0 (scope_run events (empty_store config)).scopes ≢ none
lease_retained_example =
    lease_retained config (empty_store config) events 0 lease new_test leased_test refl

resolved_test :
    (resolve_original 0 "EMAIL" "ann@example.com" 5 (scope_run events (empty_store config))).1
    ≡ some mapped
unfolding resolve_original scope_run
resolved_test = refl

original_resolves_back_example :
    (let s' =
        (resolve_original 0 "EMAIL" "ann@example.com" 5
          (scope_run events (empty_store config))).0 in
      (mapped.entity ≡ "EMAIL")
      × (mapped.original ≡ "ann@example.com")
      × ((resolve_synthetic 0 "EMAIL" "p1" 6 s').1 ≡ some mapped))
original_resolves_back_example =
    original_resolves_back config (empty_store config) events 0 5 6 "EMAIL" "ann@example.com" mapped
      new_test resolved_test

synthetic_test :
    (resolve_synthetic 0 "EMAIL" "p1" 5 (scope_run events (empty_store config))).1 ≡ some mapped
unfolding resolve_synthetic scope_run
synthetic_test = refl

synthetic_resolves_back_example :
    (let s' = (resolve_synthetic 0 "EMAIL" "p1" 5 (scope_run events (empty_store config))).0 in
      (mapped.entity ≡ "EMAIL")
      × (mapped.synthetic ≡ "p1")
      × ((resolve_original 0 "EMAIL" "ann@example.com" 6 s').1 ≡ some mapped))
synthetic_resolves_back_example =
    synthetic_resolves_back config (empty_store config) events 0 5 6 "EMAIL" "p1" mapped new_test
      synthetic_test

-- The second candidate is the first that is free.
abbrev numbered : ℕ → Option String
numbered n = if n == 1 then some "p2" else some "p1"

abbrev is_p1 : String → Bool
is_p1 v = str_eq v "p1"

choose-ends_example :
    (w : String) × (m : ℕ) × (choose numbered is_p1 3 0 ≡ chosen w (0 + m))
    × (numbered (0 + m) ≡ some w)
    × (is_p1 w ≡ false)
    × (m ≤ 1)
    × AllTaken numbered is_p1 0 m
choose-ends_example =
    choose-ends numbered is_p1 3 0 1 "p2" (ground arith) refl refl (λ j low. ground arith)

exhausted_wraps_example : choose (λ n. some "p1") is_p1 attempts 0 ≡ no_choice candidate_exhausted 0
exhausted_wraps_example = exhausted_wraps (λ n. some "p1") is_p1 (λ n. ("p1", refl, refl))

-- The scope of a lease whose operation has reserved an entry.
abbrev reserving : List ScopeEvent
reserving = acquires "s1" "standard" 1 ∷ begins_entry 0 address "input" 2 ∷ []

abbrev waiting_scope : ScopeState
waiting_scope = record {
  ref = 0;
  id = "s1";
  profile = "standard";
  forward = [];
  reverse = [];
  relations = [];
  in_flight = 1;
  closing = false;
  created_at = 1;
  last_used = 1;
  expires_at = 11;
  holder = some (stores_entry address "input");
}

aimed_test : target 0 (scope_run reserving (empty_store config)) ≡ at_scope waiting_scope
unfolding target scope_run
aimed_test = refl

placed_test :
    (place_entry waiting_scope address "input"
      (λ n. some "p1")
      3
      (scope_run reserving (empty_store config))).1
    ≡ created mapped
unfolding place_entry scope_run
placed_test = refl

created_resolves_example :
    (let s' =
        (place_entry waiting_scope address "input"
          (λ n. some "p1")
          3
          (scope_run reserving (empty_store config))).0 in
      (mapped.original ≡ "ann@example.com")
      × ((resolve_synthetic 0 "EMAIL" "p1" 4 s').1 ≡ some mapped)
      × ((resolve_original 0 "EMAIL" "ann@example.com" 4 s').1 ≡ some mapped))
created_resolves_example =
    created_resolves config (empty_store config) reserving 0 waiting_scope address "input"
      (λ n. some "p1") 3 4 mapped new_test aimed_test placed_test
