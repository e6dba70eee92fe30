-- ===== src/Privacy/Ledger.antt =====
-- The maps of a scope in internal/privacy/store.go: association lists without repeated keys.
use otto_gateway.Base.{
  ℕ, suc, ◌≡◌, String, Bool, true, false, ◌&&◌, Option, none, some, List, [], ◌∷◌, if◌then◌else◌,
  length, str_eq, eq_iff, arith, is_some,
}

pub record MappingEntry : Type 0 where
  pub entity : String
  pub original : String
  pub synthetic : String
  pub provenance : String
  pub created_at : ℕ

pub record MappingKey : Type 0 where
  pub entity : String
  pub value : String

abbrev pub Ledger : Type 0
Ledger = List (MappingKey × MappingEntry)

unfoldable pub same_key : MappingKey → MappingKey → Bool
same_key j k = str_eq j.entity k.entity && str_eq j.value k.value

unfoldable pub find_entry : MappingKey → Ledger → Option MappingEntry
unfolding same_key
find_entry k [] = none
find_entry k ((j, m) ∷ l) = if same_key j k then some m else find_entry k l

unfoldable pub put_entry : MappingKey → MappingEntry → Ledger → Ledger
unfolding same_key
put_entry k m [] = (k, m) ∷ []
put_entry k m ((j, x) ∷ l) =
    let rest = put_entry k m l in if same_key j k then (k, m) ∷ l else (j, x) ∷ rest

pub same_key_refl : (k : MappingKey) → same_key k k ≡ true
unfolding same_key
same_key_refl k = ground (arith, eq_iff k.entity k.entity, eq_iff k.value k.value)

pub same_key-eq : (j k : MappingKey) → same_key j k ≡ true → j ≡ k
unfolding same_key
same_key-eq j k h = ground (arith, eq_iff j.entity k.entity, eq_iff j.value k.value)

pub find-put_self :
    (k : MappingKey) (m : MappingEntry) (l : Ledger) → find_entry k (put_entry k m l) ≡ some m
unfolding find_entry put_entry
find-put_self k m [] = ground (arith, same_key_refl k)
find-put_self k m ((j, x) ∷ l) = ground (arith, same_key_refl k, find-put_self k m l)

pub find-put_ne :
    (j k : MappingKey) (m : MappingEntry) (l : Ledger)
    → same_key k j ≡ false
    → find_entry j (put_entry k m l) ≡ find_entry j l
unfolding find_entry put_entry
find-put_ne j k m [] h = ground arith
find-put_ne j k m ((i, x) ∷ l) h = ground (arith, same_key-eq i k, find-put_ne j k m l)

pub length-put :
    (k : MappingKey) (m : MappingEntry) (l : Ledger)
    → length (put_entry k m l) ≡ (if is_some (find_entry k l) then length l else suc (length l))
unfolding find_entry put_entry
length-put k m [] = ground arith
length-put k m ((j, x) ∷ l) = ground (arith, length-put k m l)
