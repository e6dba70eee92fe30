-- ===== src/Catalog/Clean.antt =====
-- The published models of internal/pool/catalog.go are well formed in every reachable store.
use otto_gateway.Base.{
  ℕ, ◌≡◌, refl, ap, ◌∙◌, String, Bool, true, false, ◌&&◌, Option, none, some, List, [], ◌∷◌, ◌++◌,
  arith, str_eq, eq_iff, is_blank, trim_space, trim_space-trim_space, inl, inr, if◌then◌else◌,
}
use otto_gateway.Catalog.Models.{
  ModelInfo, ok, normalize_from, normalize_catalog, contains, ids_of, catalog_ids, absent_from,
  merge_catalog_additions,
}
use otto_gateway.Catalog.Store.{
  CatalogStore, CatalogOutcome, new_catalog_store, initialize, decide, apply, reconcile_completed,
  record_refresh_outcome, set_next_attempt, set_in_progress,
}
use otto_gateway.Catalog.Sets.{contains-catalog_ids, contains-append}
use otto_gateway.Catalog.Shrink.{Normalized-cases}

-- Each id is trimmed, and is neither empty nor "auto", and no id occurs twice.
abbrev pub IsClean : List ModelInfo → Type 0
IsClean [] = Unit {0}
IsClean (m ∷ ms) =
    (trim_space m.id ≡ m.id)
    × (is_blank m.id ≡ false)
    × (str_eq m.id "auto" ≡ false)
    × (contains m.id (ids_of ms) ≡ false)
    × IsClean ms

contains-cons :
    (id j : String) (ids : List String)
    → contains id (j ∷ ids) ≡ (if str_eq j id then true else contains id ids)
unfolding contains
contains-cons id j ids = refl

abbrev FreshOf : List String → String → Option (List ModelInfo) → Type 0
FreshOf seen id none = Unit {0}
FreshOf seen id (some out) = (contains id seen && contains id (ids_of out)) ≡ false

abbrev CleanOf : Option (List ModelInfo) → Type 0
CleanOf none = Unit {0}
CleanOf (some out) = IsClean out

-- The loop keeps no id that it has seen before.
normalize_from-FreshOf :
    (seen : List String) (ms : List ModelInfo) (id : String)
    → FreshOf seen id (normalize_from seen ms)
unfolding normalize_from contains
normalize_from-FreshOf seen [] id = ground arith
normalize_from-FreshOf seen (m ∷ ms) id = ground (
  arith,
  eq_iff (trim_space m.id) id,
  normalize_from-FreshOf seen ms id,
  normalize_from-FreshOf (trim_space m.id ∷ seen) ms id,
)

normalize_from-CleanOf :
    (seen : List String) (ms : List ModelInfo) → CleanOf (normalize_from seen ms)
unfolding normalize_from contains
normalize_from-CleanOf seen [] = tt
normalize_from-CleanOf seen (m ∷ ms) = ground (
  arith,
  trim_space-trim_space m.id,
  eq_iff (trim_space m.id) (trim_space m.id),
  normalize_from-FreshOf (trim_space m.id ∷ seen) ms (trim_space m.id),
  normalize_from-CleanOf seen ms,
  normalize_from-CleanOf (trim_space m.id ∷ seen) ms,
)

normalize_catalog-IsClean :
    (models candidate : List ModelInfo)
    → normalize_catalog models ≡ ok candidate
    → IsClean candidate
unfolding normalize_catalog
normalize_catalog-IsClean models candidate e = ground (arith, normalize_from-CleanOf [] models)

absent_from-lacks :
    (id : String) (ids : List String) (ms : List ModelInfo)
    → contains id ids ≡ true
    → contains id (ids_of (absent_from ids ms)) ≡ false
unfolding absent_from contains
absent_from-lacks id ids [] h = refl
absent_from-lacks id ids (m ∷ ms) h =
    ground (arith, eq_iff m.id id, ap (λ k. contains k ids), absent_from-lacks id ids ms)

absent_from-subset :
    (id : String) (ids : List String) (ms : List ModelInfo)
    → contains id (ids_of ms) ≡ false
    → contains id (ids_of (absent_from ids ms)) ≡ false
unfolding absent_from contains
absent_from-subset id ids [] h = refl
absent_from-subset id ids (m ∷ ms) h = ground (arith, absent_from-subset id ids ms)

absent_from-IsClean :
    (ids : List String) (ms : List ModelInfo) → IsClean ms → IsClean (absent_from ids ms)
unfolding absent_from
absent_from-IsClean ids [] c = tt
absent_from-IsClean ids (m ∷ ms) c =
    ground (arith, absent_from-subset m.id ids ms, absent_from-IsClean ids ms)

map-append-ids : (xs ys : List ModelInfo) → ids_of (xs ++ ys) ≡ ids_of xs ++ ids_of ys
map-append-ids [] ys = refl
map-append-ids (x ∷ xs) ys = ap (◌∷◌ x.id) (map-append-ids xs ys)

append-IsClean :
    (xs ys : List ModelInfo)
    → IsClean xs
    → IsClean ys
    → ((id : String) → contains id (ids_of xs) ≡ true → contains id (ids_of ys) ≡ false)
    → IsClean (xs ++ ys)
unfolding contains
append-IsClean [] ys c d apart = d
append-IsClean (x ∷ xs) ys c d apart = ground (
  arith,
  apart x.id,
  eq_iff x.id x.id,
  map-append-ids xs ys,
  contains-append x.id (ids_of xs) (ids_of ys),
  append-IsClean xs ys c.4 d (λ id h. apart id (later x.id id (ids_of xs) h)),
)
  where
    later :
        (j id : String) (ids : List String) → contains id ids ≡ true → contains id (j ∷ ids) ≡ true
    later j id ids h = ground (arith, contains-cons id j ids)

merge-IsClean :
    (published candidate : List ModelInfo)
    → IsClean published
    → IsClean candidate
    → IsClean (merge_catalog_additions published candidate)
unfolding merge_catalog_additions
merge-IsClean published candidate p c =
    append-IsClean candidate (absent_from (catalog_ids candidate) published) c
      (absent_from-IsClean (catalog_ids candidate) published p)
      λ id h.
        absent_from-lacks id (catalog_ids candidate) published
          (contains-catalog_ids id candidate ∙ h)

apply-IsClean :
    (s : CatalogStore) (candidate : List ModelInfo) (at : ℕ)
    → IsClean s.models
    → IsClean candidate
    → IsClean (apply s candidate at (decide s candidate)).models
unfolding decide apply
apply-IsClean s candidate at v c = ground (arith, merge-IsClean s.models candidate)

observed-IsClean :
    (s : CatalogStore) (models : List ModelInfo) (a b : ℕ)
    → IsClean s.models
    → IsClean (reconcile_completed s models a b).0.models
unfolding reconcile_completed
observed-IsClean s models a b v = elim (Normalized-cases (normalize_catalog models)) [
  | inl (e, bad) ↦ rw (bad, reconcile_completed) v
  | inr (candidate, good) ↦
      rw (good, reconcile_completed)
        (apply-IsClean _ candidate b v (normalize_catalog-IsClean models candidate good))
]

initialized-IsClean :
    (s : CatalogStore) (models : List ModelInfo) (at : ℕ)
    → IsClean s.models
    → IsClean (initialize s models at).models
unfolding initialize
initialized-IsClean s models at v = elim (Normalized-cases (normalize_catalog models)) [
  | inl (e, bad) ↦ rw (bad, initialize) v
  | inr (candidate, good) ↦ rw (good, initialize) (normalize_catalog-IsClean models candidate good)
]

-- The calls that the pool makes of its store.
pub data StoreCall : Type 0 where
  initializes : List ModelInfo → ℕ → StoreCall
  reconciles : List ModelInfo → ℕ → ℕ → StoreCall
  records : CatalogOutcome → ℕ → StoreCall
  sets_next : Option ℕ → StoreCall
  sets_progress : Bool → StoreCall

unfoldable pub store_step : CatalogStore → StoreCall → CatalogStore
store_step s (initializes models at) = initialize s models at
store_step s (reconciles models a b) = (reconcile_completed s models a b).0
store_step s (records outcome at) = (record_refresh_outcome s outcome at).0
store_step s (sets_next at) = set_next_attempt s at
store_step s (sets_progress b) = set_in_progress s b

unfoldable pub store_run : CatalogStore → List StoreCall → CatalogStore
unfolding store_step
store_run s [] = s
store_run s (c ∷ cs) = store_run (store_step s c) cs

store_run-IsClean :
    (s : CatalogStore) (cs : List StoreCall) → IsClean s.models → IsClean (store_run s cs).models
unfolding store_run
store_run-IsClean s [] v = v
store_run-IsClean s (initializes models at ∷ cs) v =
    store_run-IsClean (initialize s models at) cs (initialized-IsClean s models at v)
store_run-IsClean s (reconciles models a b ∷ cs) v =
    store_run-IsClean (reconcile_completed s models a b).0 cs (observed-IsClean s models a b v)
store_run-IsClean s (records outcome at ∷ cs) v =
    store_run-IsClean (record_refresh_outcome s outcome at).0 cs
      (unfold record_refresh_outcome in v)
store_run-IsClean s (sets_next at ∷ cs) v =
    store_run-IsClean (set_next_attempt s at) cs (unfold set_next_attempt in v)
store_run-IsClean s (sets_progress b ∷ cs) v =
    store_run-IsClean (set_in_progress s b) cs (unfold set_in_progress in v)

-- Whatever the workers report and whatever calls are made, each id that a store that began empty
-- publishes is trimmed, and is neither empty nor "auto", so none is blank, and no id is published
-- twice.
pub published-IsClean :
    (interval : ℕ) (cs : List StoreCall)
    → IsClean (store_run (new_catalog_store interval) cs).models
unfolding new_catalog_store
published-IsClean interval cs = store_run-IsClean (new_catalog_store interval) cs tt
