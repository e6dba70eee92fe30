-- ===== src/Catalog/Store.antt =====
-- `catalogStore` of internal/pool/catalog.go. A method returns the new store; `none` is the zero time.
use otto_gateway.Base.{
  ℕ, ◌+◌, Bool, false, ◌&&◌, Option, none, some, List, [], length, ltb, ◌==◌, u64, if◌then◌else◌,
}
use otto_gateway.Catalog.Models.{
  ModelInfo, CatalogError, ok, err, normalize_catalog, catalog_ids, count_missing,
  catalog_metadata_equal, merge_catalog_additions, catalog_id_set_equal,
}

pub data CatalogOutcome : Type 0 where
  startup unchanged expanded metadata_updated pending_shrink shrink_confirmed : CatalogOutcome
  skipped_busy failed cancelled : CatalogOutcome

pub record CatalogStore : Type 0 where
  pub models : List ModelInfo
  pub generation : ℕ
  pub interval : ℕ
  pub in_progress : Bool
  pub last_attempt_at : Option ℕ
  pub last_success_at : Option ℕ
  pub last_updated_at : Option ℕ
  pub next_attempt_at : Option ℕ
  pub last_outcome : Option CatalogOutcome
  pub pending_candidate : List ModelInfo
  pub pending_removals : ℕ

pub record CatalogRefreshResult : Type 0 where
  pub outcome : CatalogOutcome
  pub previous_count : ℕ
  pub candidate_count : ℕ
  pub published_count : ℕ
  pub pending_removals : ℕ

unfoldable pub new_catalog_store : ℕ → CatalogStore
new_catalog_store interval = record {
  models = [];
  generation = 0;
  interval = interval;
  in_progress = false;
  last_attempt_at = none;
  last_success_at = none;
  last_updated_at = none;
  next_attempt_at = none;
  last_outcome = none;
  pending_candidate = [];
  pending_removals = 0;
}

unfoldable pub next_catalog_attempt : ℕ → ℕ → Option ℕ
next_catalog_attempt at interval = if ltb 0 interval then some (at + interval) else none

unfoldable pub publish : CatalogStore → List ModelInfo → ℕ → CatalogStore
publish s models at = record s {
  models = models;
  generation = u64 (s.generation + 1);
  last_updated_at = some at;
}

unfoldable pub stage_shrink : CatalogStore → List ModelInfo → CatalogStore
stage_shrink s candidate = record s {
  pending_candidate = candidate;
  pending_removals = count_missing (catalog_ids s.models) (catalog_ids candidate);
}

unfoldable pub clear_pending : CatalogStore → CatalogStore
clear_pending s = record s { pending_candidate = []; pending_removals = 0 }

unfoldable pub result : CatalogStore → CatalogOutcome → ℕ → ℕ → CatalogRefreshResult
result s outcome previous candidate = record {
  outcome = outcome;
  previous_count = previous;
  candidate_count = candidate;
  published_count = length s.models;
  pending_removals = s.pending_removals;
}

unfoldable pub initialize : CatalogStore → List ModelInfo → ℕ → CatalogStore
unfolding clear_pending next_catalog_attempt
initialize s models at =
    let s' = record s {
      last_attempt_at = some at;
      next_attempt_at = next_catalog_attempt at s.interval;
    } in
    elim (normalize_catalog models) [
      | err e ↦ record s' { last_outcome = some failed }
      | ok candidate ↦ clear_pending (record s' {
        models = candidate;
        generation = u64 (s.generation + 1);
        last_success_at = some at;
        last_updated_at = some at;
        last_outcome = some startup;
      })
    ]

-- The four cases of the reconciliation, for a store and the candidate that was observed.
unfoldable pub decide : CatalogStore → List ModelInfo → CatalogOutcome
decide s candidate =
    let missing = count_missing (catalog_ids s.models) (catalog_ids candidate) in
    let additions = count_missing (catalog_ids candidate) (catalog_ids s.models) in
    if missing == 0 && additions == 0
    then (if catalog_metadata_equal s.models candidate then unchanged else metadata_updated)
    else if missing == 0
    then expanded
    else if additions == 0 && catalog_id_set_equal s.pending_candidate candidate
    then shrink_confirmed
    else pending_shrink

-- What each case does to the store.
unfoldable pub apply : CatalogStore → List ModelInfo → ℕ → CatalogOutcome → CatalogStore
unfolding publish stage_shrink clear_pending
apply s candidate at metadata_updated = publish (clear_pending s) candidate at
apply s candidate at expanded = publish (clear_pending s) candidate at
apply s candidate at shrink_confirmed = clear_pending (publish s candidate at)
apply s candidate at pending_shrink =
    let additions = count_missing (catalog_ids candidate) (catalog_ids s.models) in
    stage_shrink
      (if ltb 0 additions then publish s (merge_catalog_additions s.models candidate) at else s)
      candidate
apply s candidate at _ = clear_pending s

unfoldable pub reconcile_completed :
    CatalogStore
    → List ModelInfo
    → ℕ
    → ℕ
    → CatalogStore × CatalogRefreshResult × Option CatalogError
unfolding decide apply result next_catalog_attempt
reconcile_completed s models attempt_at completed_at =
    let attempted = record s {
      last_attempt_at = some attempt_at;
      next_attempt_at = next_catalog_attempt attempt_at s.interval;
    } in
    let previous = length s.models in
    elim (normalize_catalog models) [
      | err e ↦
          let s' = record attempted { last_outcome = some failed } in
          (s', result s' failed previous 0, some e)
      | ok candidate ↦
          let outcome = decide s candidate in
          let s' =
            record (apply (record attempted { last_success_at = some completed_at }) candidate
              completed_at outcome) { last_outcome = some outcome } in
          (s', result s' outcome previous (length candidate), none)
    ]

unfoldable pub reconcile :
    CatalogStore → List ModelInfo → ℕ → CatalogStore × CatalogRefreshResult × Option CatalogError
unfolding reconcile_completed
reconcile s models at = reconcile_completed s models at at

-- `recordRefreshOutcome` and `setNextAttempt` of internal/pool/catalog_refresh.go
unfoldable pub record_refresh_outcome :
    CatalogStore → CatalogOutcome → ℕ → CatalogStore × CatalogRefreshResult
unfolding result
record_refresh_outcome s outcome at =
    let s' = record s { last_attempt_at = some at; last_outcome = some outcome } in
    (s', result s' outcome (length s.models) 0)

unfoldable pub set_next_attempt : CatalogStore → Option ℕ → CatalogStore
set_next_attempt s at = record s { next_attempt_at = at }

unfoldable pub set_in_progress : CatalogStore → Bool → CatalogStore
set_in_progress s in_progress = record s { in_progress = in_progress }
