-- ===== src/Catalog/Sets.antt =====
-- Which ids the helpers of internal/pool/catalog.go keep: membership of an id in their results.
use otto_gateway.Base.{
  ◌≡◌, refl, sym, ap, ◌∙◌, String, true, ◌||◌, List, [], ◌∷◌, ◌++◌, arith, str_eq, eq_iff,
  if◌then◌else◌,
}
use otto_gateway.Catalog.Models.{
  ModelInfo, contains, ids_of, catalog_ids, count_missing, absent_from, merge_catalog_additions,
  insert_sorted, sort_strings, catalog_sorted_ids, same_strings, catalog_id_set_equal,
}

contains_of_eq : (id j : String) (ids : List String) → j ≡ id → contains j ids ≡ contains id ids
contains_of_eq id j ids e = ap (λ k. contains k ids) e

pub contains-catalog_ids :
    (id : String) (ms : List ModelInfo) → contains id (catalog_ids ms) ≡ contains id (ids_of ms)
unfolding contains catalog_ids
contains-catalog_ids id [] = refl
contains-catalog_ids id (m ∷ ms) =
    ground
      (arith, eq_iff m.id id, contains-catalog_ids id ms, contains_of_eq id m.id (catalog_ids ms))

pub contains-append :
    (id : String) (xs ys : List String)
    → contains id (xs ++ ys) ≡ (contains id xs || contains id ys)
unfolding contains
contains-append id [] ys = refl
contains-append id (x ∷ xs) ys = ground (arith, contains-append id xs ys)

-- Where nothing of `left` is missing in `right`, `right` has every id of `left`.
pub contains_of_count_missing :
    (id : String) (left right : List String)
    → count_missing left right ≡ 0
    → contains id left ≡ true
    → contains id right ≡ true
unfolding contains count_missing
contains_of_count_missing id [] right none_missing h = cc
contains_of_count_missing id (j ∷ js) right none_missing h =
    ground (arith, eq_iff j id, contains_of_eq id j right, contains_of_count_missing id js right)

-- The model list form of the lemma.
pub covers_of_count_missing :
    (id : String) (left right : List ModelInfo)
    → count_missing (catalog_ids left) (catalog_ids right) ≡ 0
    → contains id (ids_of left) ≡ true
    → contains id (ids_of right) ≡ true
covers_of_count_missing id left right none_missing h =
    sym (contains-catalog_ids id right)
    ∙ contains_of_count_missing id (catalog_ids left) (catalog_ids right) none_missing
        (contains-catalog_ids id left ∙ h)

contains-absent_from :
    (id : String) (ids : List String) (ms : List ModelInfo)
    → (contains id ids || contains id (ids_of (absent_from ids ms)))
      ≡ (contains id ids || contains id (ids_of ms))
unfolding contains absent_from
contains-absent_from id ids [] = refl
contains-absent_from id ids (m ∷ ms) =
    ground (arith, eq_iff m.id id, contains_of_eq id m.id ids, contains-absent_from id ids ms)

map-append-ids : (xs ys : List ModelInfo) → ids_of (xs ++ ys) ≡ ids_of xs ++ ids_of ys
map-append-ids [] ys = refl
map-append-ids (x ∷ xs) ys = ap (◌∷◌ x.id) (map-append-ids xs ys)

-- A merge has the candidate's ids and the published ones.
pub contains-merge :
    (id : String) (published candidate : List ModelInfo)
    → contains id (ids_of (merge_catalog_additions published candidate))
      ≡ (contains id (ids_of candidate) || contains id (ids_of published))
unfolding merge_catalog_additions
contains-merge id published candidate =
    rw
      (
        map-append-ids candidate (absent_from (catalog_ids candidate) published),
        contains-append id (ids_of candidate)
            (ids_of (absent_from (catalog_ids candidate) published)),
      )
      (ground (
        arith,
        contains-absent_from id (catalog_ids candidate) published,
        contains-catalog_ids id candidate,
      ))

contains-insert_sorted :
    (id s : String) (ss : List String)
    → contains id (insert_sorted s ss) ≡ (if str_eq s id then true else contains id ss)
unfolding contains insert_sorted
contains-insert_sorted id s [] = refl
contains-insert_sorted id s (t ∷ ts) = ground (arith, contains-insert_sorted id s ts)

contains-sort_strings :
    (id : String) (ss : List String) → contains id (sort_strings ss) ≡ contains id ss
unfolding contains sort_strings
contains-sort_strings id [] = refl
contains-sort_strings id (s ∷ ss) =
    ground (arith, contains-insert_sorted id s (sort_strings ss), contains-sort_strings id ss)

same_strings→≡ : (xs ys : List String) → same_strings xs ys ≡ true → xs ≡ ys
unfolding same_strings
same_strings→≡ [] [] h = refl
same_strings→≡ [] (y ∷ ys) h = cc
same_strings→≡ (x ∷ xs) [] h = cc
same_strings→≡ (x ∷ xs) (y ∷ ys) h = ground (arith, eq_iff x y, same_strings→≡ xs ys)

-- Two catalogs that pass the comparison of their sorted ids have the same ids.
pub same_ids_of_set_equal :
    (id : String) (left right : List ModelInfo)
    → catalog_id_set_equal left right ≡ true
    → contains id (ids_of left) ≡ contains id (ids_of right)
unfolding catalog_id_set_equal catalog_sorted_ids
same_ids_of_set_equal id left right h =
    sym (contains-sort_strings id (ids_of left))
    ∙ ap (contains id) (same_strings→≡ _ _ h)
    ∙ contains-sort_strings id (ids_of right)
