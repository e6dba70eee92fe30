-- ===== src/Catalog/Models.antt =====
-- Lists of models and sets of their ids: the pure helpers of internal/pool/catalog.go.
use Prim.Native.Nat.{compare, Ordering}
use Prim.Native.Char.{code}
use otto_gateway.Base.{
  ℕ, ◌+◌, String, Bool, true, false, ◌&&◌, ◌||◌, Option, none, some, List, [], ◌∷◌, ◌++◌, map,
  length, ◌==◌, str_eq, is_blank, trim_space, if◌then◌else◌,
}

pub record ModelInfo : Type 0 where
  pub id : String
  pub name : String

pub data CatalogError : Type 0 where
  invalid_catalog empty_catalog : CatalogError

pub data Normalized : Type 0 where
  ok : List ModelInfo → Normalized
  err : CatalogError → Normalized

-- Whether an id is in a set of ids.
unfoldable pub contains : String → List String → Bool
contains id [] = false
contains id (j ∷ js) = if str_eq j id then true else contains id js

-- The ids of models, as often as they occur.
abbrev pub ids_of : List ModelInfo → List String
ids_of = map (λ m. m.id)

-- The loop of `normalizeCatalog`; none for a blank id.
unfoldable pub normalize_from : List String → List ModelInfo → Option (List ModelInfo)
unfolding contains
normalize_from seen [] = some []
normalize_from seen (m ∷ ms) =
    let id = trim_space m.id in
    let skipped = str_eq id "auto" || contains id seen in
    let rest = normalize_from (if skipped then seen else id ∷ seen) ms in
    if is_blank id then none else if skipped then rest else elim rest [
      | none ↦ none
      | some kept ↦ some (record { id = id; name = trim_space m.name } ∷ kept)
    ]

unfoldable pub normalize_catalog : List ModelInfo → Normalized
unfolding normalize_from
normalize_catalog models = elim (normalize_from [] models) [
  | none ↦ err invalid_catalog
  | some [] ↦ err empty_catalog
  | some (m ∷ ms) ↦ ok (m ∷ ms)
]

-- A set of ids: each id once.
unfoldable pub catalog_ids : List ModelInfo → List String
unfolding contains
catalog_ids [] = []
catalog_ids (m ∷ ms) = let ids = catalog_ids ms in if contains m.id ids then ids else m.id ∷ ids

unfoldable pub count_missing : List String → List String → ℕ
unfolding contains
count_missing [] right = 0
count_missing (id ∷ ids) right = (if contains id right then 0 else 1) + count_missing ids right

-- The map from ids to models; a later model replaces an earlier one of its id.
unfoldable pub find_last : String → List ModelInfo → Option ModelInfo
find_last id [] = none
find_last id (m ∷ ms) = elim (find_last id ms) [
  | some later ↦ some later
  | none ↦ if str_eq m.id id then some m else none
]

abbrev pub is_model : ModelInfo → Option ModelInfo → Bool
is_model m none = false
is_model m (some n) = str_eq n.id m.id && str_eq n.name m.name

unfoldable pub all_found : List ModelInfo → List ModelInfo → Bool
unfolding find_last
all_found published [] = true
all_found published (m ∷ ms) = is_model m (find_last m.id published) && all_found published ms

unfoldable pub catalog_metadata_equal : List ModelInfo → List ModelInfo → Bool
unfolding all_found
catalog_metadata_equal published candidate =
    length published == length candidate && all_found published candidate

-- The published models that the candidate does not have.
unfoldable pub absent_from : List String → List ModelInfo → List ModelInfo
unfolding contains
absent_from ids [] = []
absent_from ids (m ∷ ms) =
    let rest = absent_from ids ms in if contains m.id ids then rest else m ∷ rest

unfoldable pub merge_catalog_additions : List ModelInfo → List ModelInfo → List ModelInfo
unfolding catalog_ids absent_from
merge_catalog_additions published candidate =
    candidate ++ absent_from (catalog_ids candidate) published

-- `<` on Go strings, code point by code point.
unfoldable pub str_lt : String → String → Bool
str_lt String.[] String.[] = false
str_lt String.[] (String.◌∷◌ d t) = true
str_lt (String.◌∷◌ c s) String.[] = false
str_lt (String.◌∷◌ c s) (String.◌∷◌ d t) =
    let rest = str_lt s t in
    elim (compare (code c) (code d)) [
      | Ordering.lt ↦ true
      | Ordering.eq ↦ rest
      | Ordering.gt ↦ false
    ]

unfoldable pub insert_sorted : String → List String → List String
unfolding str_lt
insert_sorted s [] = s ∷ []
insert_sorted s (t ∷ ts) =
    let rest = insert_sorted s ts in if str_lt t s then t ∷ rest else s ∷ t ∷ ts

-- `sort.Strings`
unfoldable pub sort_strings : List String → List String
unfolding insert_sorted
sort_strings [] = []
sort_strings (s ∷ ss) = insert_sorted s (sort_strings ss)

unfoldable pub catalog_sorted_ids : List ModelInfo → List String
unfolding sort_strings
catalog_sorted_ids models = sort_strings (ids_of models)

unfoldable pub same_strings : List String → List String → Bool
same_strings [] [] = true
same_strings [] (t ∷ ts) = false
same_strings (s ∷ ss) [] = false
same_strings (s ∷ ss) (t ∷ ts) = str_eq s t && same_strings ss ts

unfoldable pub catalog_id_set_equal : List ModelInfo → List ModelInfo → Bool
unfolding catalog_sorted_ids same_strings
catalog_id_set_equal left right = same_strings (catalog_sorted_ids left) (catalog_sorted_ids right)
