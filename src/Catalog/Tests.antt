-- ===== src/Catalog/Tests.antt =====
-- The catalog of internal/pool/catalog.go at concrete observations.
use otto_gateway.Base.{◌≡◌, refl, false, ◌⊎◌, ◌&&◌, not, List, [], ◌∷◌, trim_space}
use otto_gateway.Catalog.Models.{
  ModelInfo, CatalogError, ok, err, normalize_catalog, contains, ids_of, catalog_ids, count_missing,
  catalog_id_set_equal,
}
use otto_gateway.Catalog.Store.{
  CatalogStore, new_catalog_store, pending_shrink, initialize, reconcile_completed,
}
use otto_gateway.Catalog.Shrink.{publishes, observe, removal_needs_two, observe_adds}
use otto_gateway.Catalog.Clean.{IsClean, initializes, store_run, published-IsClean}

abbrev sonnet : ModelInfo
sonnet = record { id = "sonnet"; name = "Sonnet" }

abbrev opus : ModelInfo
opus = record { id = "opus"; name = "Opus" }

abbrev auto : ModelInfo
auto = record { id = " auto "; name = "Auto" }

-- A store that has published two models.
abbrev two_models : CatalogStore
two_models =
    store_run (new_catalog_store 60) (initializes (auto ∷ sonnet ∷ opus ∷ sonnet ∷ []) 1 ∷ [])

starts_with_two : two_models.models ≡ sonnet ∷ opus ∷ []
unfolding trim_space store_run new_catalog_store initialize normalize_catalog
starts_with_two = refl

-- The first observation without "opus" keeps it, the second one drops it.
keeps_once : (reconcile_completed two_models (sonnet ∷ []) 2 3).1.outcome ≡ pending_shrink
unfolding trim_space store_run new_catalog_store initialize normalize_catalog reconcile_completed
    catalog_ids count_missing catalog_id_set_equal
keeps_once = refl

removal_needs_two_example :
    (seen : List ModelInfo) × (seen_again : List ModelInfo) × (normalize_catalog (sonnet ∷ [])
      ≡ ok seen)
    × (normalize_catalog (sonnet ∷ auto ∷ []) ≡ ok seen_again)
    × (contains "opus" (ids_of seen) ≡ false)
    × (contains "opus" (ids_of seen_again) ≡ false)
unfolding trim_space store_run new_catalog_store initialize normalize_catalog reconcile_completed
    catalog_ids count_missing catalog_id_set_equal contains
removal_needs_two_example =
    removal_needs_two two_models (sonnet ∷ []) (sonnet ∷ auto ∷ []) 2 3 4 5 "opus" refl refl refl

observe_adds_example :
    ((candidate : List ModelInfo) × (normalize_catalog (opus ∷ []) ≡ ok candidate)
      × ((contains "opus" (ids_of candidate)
            && not (publishes "opus" (observe (new_catalog_store 60) (opus ∷ []) 2 3)))
          ≡ false))
    ⊎ ((e : CatalogError) × (normalize_catalog (opus ∷ []) ≡ err e)
        × ((observe (new_catalog_store 60) (opus ∷ []) 2 3).models ≡ [])
        × ((observe (new_catalog_store 60) (opus ∷ []) 2 3).generation ≡ 0)
        × ((observe (new_catalog_store 60) (opus ∷ []) 2 3).pending_candidate ≡ []))
unfolding new_catalog_store
observe_adds_example = observe_adds (new_catalog_store 60) (opus ∷ []) 2 3 "opus"

published-IsClean_example : IsClean two_models.models
published-IsClean_example =
    published-IsClean 60 (initializes (auto ∷ sonnet ∷ opus ∷ sonnet ∷ []) 1 ∷ [])
