-- ===== src/Catalog/Shrink.antt =====
-- What a reconciliation of internal/pool/catalog.go may remove from the published models.
use otto_gateway.Base.{
  ℕ, ◌≡◌, refl, String, ◌&&◌, not, Bool-cases, Bool, true, false, ◌⊎◌, inl, inr, List, [], ◌∷◌,
  arith, ◌≢◌,
}
use otto_gateway.Catalog.Models.{
  ModelInfo, Normalized, ok, err, CatalogError, normalize_catalog, insert_sorted, sort_strings,
  same_strings, catalog_sorted_ids, contains, ids_of, catalog_id_set_equal,
}
use otto_gateway.Catalog.Store.{CatalogStore, decide, apply, reconcile_completed}
use otto_gateway.Catalog.Sets.{covers_of_count_missing, contains-merge, same_ids_of_set_equal}

pub Normalized-cases :
    (n : Normalized) → ((e : CatalogError) × (n ≡ err e)) ⊎ ((c : List ModelInfo) × (n ≡ ok c))
Normalized-cases (err e) = inl (e, refl)
Normalized-cases (ok c) = inr (c, refl)

abbrev pub publishes : String → CatalogStore → Bool
publishes id s = contains id (ids_of s.models)

-- One decided observation: a published id that is not published any more is neither in the
-- candidate nor in the pending one.
decided_removal :
    (s : CatalogStore) (candidate : List ModelInfo) (at : ℕ) (id : String)
    → publishes id s ≡ true
    → publishes id (apply s candidate at (decide s candidate)) ≡ false
    → (contains id (ids_of candidate) ≡ false) × (contains id (ids_of s.pending_candidate) ≡ false)
unfolding decide apply
decided_removal s candidate at id was gone = ground (
  arith,
  covers_of_count_missing id s.models candidate,
  contains-merge id s.models candidate,
  same_ids_of_set_equal id s.pending_candidate candidate,
)

abbrev pub observe : CatalogStore → List ModelInfo → ℕ → ℕ → CatalogStore
observe s models attempt_at completed_at = (reconcile_completed s models attempt_at completed_at).0

same_strings-insert_sorted :
    (s : String) (ss : List String) → same_strings [] (insert_sorted s ss) ≡ false
unfolding same_strings insert_sorted
same_strings-insert_sorted s [] = refl
same_strings-insert_sorted s (t ∷ ts) = ground arith

-- No candidate has the ids of the empty list.
set_equal-nil : (m : ModelInfo) (ms : List ModelInfo) → catalog_id_set_equal [] (m ∷ ms) ≡ false
unfolding catalog_id_set_equal catalog_sorted_ids sort_strings
set_equal-nil m ms = same_strings-insert_sorted m.id (sort_strings (ids_of ms))

normalize-ne-nil : (models : List ModelInfo) → normalize_catalog models ≢ ok []
unfolding normalize_catalog
normalize-ne-nil models e = ground arith

set_equal-ne-nil :
    (models pending candidate : List ModelInfo)
    → normalize_catalog models ≡ ok candidate
    → pending ≡ []
    → catalog_id_set_equal pending candidate ≡ false
set_equal-ne-nil models pending [] e p = absurd (normalize-ne-nil models e)
set_equal-ne-nil models pending (m ∷ ms) e p = rw p (set_equal-nil m ms)

decided_keeps :
    (s : CatalogStore) (candidate : List ModelInfo) (at : ℕ) (id : String)
    → catalog_id_set_equal s.pending_candidate candidate ≡ false
    → publishes id s ≡ true
    → publishes id (apply s candidate at (decide s candidate)) ≡ true
unfolding decide apply
decided_keeps s candidate at id fresh was =
    ground
      (arith, covers_of_count_missing id s.models candidate, contains-merge id s.models candidate)

-- With no pending candidate nothing is removed.
observe_keeps :
    (s : CatalogStore) (models : List ModelInfo) (a b : ℕ) (id : String)
    → s.pending_candidate ≡ []
    → publishes id s ≡ true
    → publishes id (observe s models a b) ≡ true
unfolding reconcile_completed
observe_keeps s models a b id none_pending was =
    elim (Normalized-cases (normalize_catalog models)) [
      | inl (e, bad) ↦ rw (bad, observe, reconcile_completed) was
      | inr (candidate, good) ↦
          rw (good, observe, reconcile_completed)
            (decided_keeps _ candidate b id (set_equal-ne-nil models _ candidate good none_pending)
              was)
    ]

-- The pending candidate is dropped, or is what was observed.
observe_pending :
    (s : CatalogStore) (models : List ModelInfo) (a b : ℕ)
    → s.pending_candidate ≡ []
    → ((observe s models a b).pending_candidate ≡ [])
      ⊎ (normalize_catalog models ≡ ok (observe s models a b).pending_candidate)
unfolding reconcile_completed decide apply
observe_pending s models a b none_pending = ground arith

observe_removal :
    (s : CatalogStore) (models : List ModelInfo) (a b : ℕ) (id : String)
    → publishes id s ≡ true
    → publishes id (observe s models a b) ≡ false
    → (candidate : List ModelInfo) × (normalize_catalog models ≡ ok candidate)
      × (contains id (ids_of candidate) ≡ false)
      × (contains id (ids_of s.pending_candidate) ≡ false)
unfolding reconcile_completed
observe_removal s models a b id was gone = elim (Normalized-cases (normalize_catalog models)) [
  | inl (e, bad) ↦ absurd (ground arith)
  | inr (candidate, good) ↦
      let (new, old) =
        decided_removal _ candidate b id was (rw (good, observe, reconcile_completed) at gone) in
      (candidate, good, new, old)
]

-- From a store with no pending candidate, a model that is published after a first observation and
-- not after a second one is in neither: both observations were valid, and both lacked it.
pub removal_needs_two :
    (s : CatalogStore) (first second : List ModelInfo) (a b c d : ℕ) (id : String)
    → s.pending_candidate ≡ []
    → publishes id (observe s first a b) ≡ true
    → publishes id (observe (observe s first a b) second c d) ≡ false
    → (seen : List ModelInfo) × (seen_again : List ModelInfo) × (normalize_catalog first ≡ ok seen)
      × (normalize_catalog second ≡ ok seen_again)
      × (contains id (ids_of seen) ≡ false)
      × (contains id (ids_of seen_again) ≡ false)
removal_needs_two s first second a b c d id none_pending was gone =
    elim (observe_pending s first a b none_pending) [
      | inl dropped ↦
          absurd (ground (arith, observe_keeps (observe s first a b) second c d id dropped was))
      | inr staged ↦
          let (again, valid, lacks, lacked) =
            observe_removal (observe s first a b) second c d id was gone in
          ((observe s first a b).pending_candidate, again, staged, valid, lacked, lacks)
    ]

decided_adds :
    (s : CatalogStore) (candidate : List ModelInfo) (at : ℕ) (id : String)
    → contains id (ids_of candidate) ≡ true
    → publishes id (apply s candidate at (decide s candidate)) ≡ true
unfolding decide apply
decided_adds s candidate at id new =
    ground
      (arith, covers_of_count_missing id candidate s.models, contains-merge id s.models candidate)

decided_none_left :
    (s : CatalogStore) (candidate : List ModelInfo) (at : ℕ) (id : String)
    → (contains id (ids_of candidate)
        && not (publishes id (apply s candidate at (decide s candidate))))
      ≡ false
decided_none_left s candidate at id = elim (Bool-cases (contains id (ids_of candidate))) [
  | inl new ↦ rw (new, decided_adds s candidate at id new) refl
  | inr old ↦ rw old refl
]

-- A valid observation is published at once as far as it adds: each model of it is published
-- afterwards. An invalid one leaves the published models, the generation and the pending candidate.
pub observe_adds :
    (s : CatalogStore) (models : List ModelInfo) (a b : ℕ) (id : String)
    → ((candidate : List ModelInfo) × (normalize_catalog models ≡ ok candidate)
        × ((contains id (ids_of candidate) && not (publishes id (observe s models a b))) ≡ false))
      ⊎ ((e : CatalogError) × (normalize_catalog models ≡ err e)
          × ((observe s models a b).models ≡ s.models)
          × ((observe s models a b).generation ≡ s.generation)
          × ((observe s models a b).pending_candidate ≡ s.pending_candidate))
unfolding reconcile_completed
observe_adds s models a b id = elim (Normalized-cases (normalize_catalog models)) [
  | inl (e, bad) ↦ inr (
    e,
    bad,
    rw (bad, observe, reconcile_completed) refl,
    rw (bad, observe, reconcile_completed) refl,
    rw (bad, observe, reconcile_completed) refl,
  )
  | inr (candidate, good) ↦ inl (
    candidate,
    good,
    rw (good, observe, reconcile_completed) (decided_none_left _ candidate b id),
  )
]
