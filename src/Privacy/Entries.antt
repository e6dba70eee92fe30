-- ===== src/Privacy/Entries.antt =====
-- The mappings of a scope in internal/privacy/store.go. An operation that creates a mapping holds the
-- scope's mutex from the section that reserves the entry to the one that stores it; where no entry is
-- left, it lets go of the mutex, reaps, and tries a second time.
use otto_gateway.Base.{
  ℕ, zero, suc, ◌-◌, ◌%◌, ◌^◌, String, Bool, true, false, not, ◌&&◌, ◌||◌, Option, none, some, ltb,
  if◌then◌else◌, get_elem?, any_of, str_eq, is_some,
}
use otto_gateway.Pool.State.{lookup, assign}
use otto_gateway.Privacy.Ledger.{MappingKey, MappingEntry, find_entry, put_entry}
use otto_gateway.Privacy.Store.{
  Holder, stores_entry, stores_relation, ScopeState, ScopeStore, StoreError, capacity_per_scope,
  capacity_global, lease_released, invalid_provenance, candidate_failed, candidate_exhausted, deref,
  update, entries, touched,
}

pub data Outcome (A : Type 0) : Type 0 where
  found created : A → Outcome A
  -- the entry is reserved, and the mutex held; no entry is left
  reserved starved : Outcome A
  stopped : StoreError → Outcome A
  -- the mutex is held by another operation, and the caller waits
  blocked : Outcome A
  -- the maps of the scope are gone
  wiped : Outcome A

pub data Target : Type 0 where
  released_lease gone : Target
  at_scope : ScopeState → Target

unfoldable pub target : ℕ → ScopeStore → Target
unfolding deref
target i s = elim (get_elem? s.leases i) [
  | none ↦ released_lease
  | some l ↦
      if l.released
      then released_lease
      else elim (deref l.scope s.scopes) [ none ↦ gone | some x ↦ at_scope x ]
]

abbrev pub is_promoted : MappingEntry → String → Bool
is_promoted m provenance = str_eq m.provenance "generated" && str_eq provenance "input"

abbrev pub promote : MappingEntry → String → MappingEntry
promote m provenance = if is_promoted m provenance then record m { provenance = "input" } else m

abbrev pub reverse_key : MappingEntry → MappingKey
reverse_key m = record { entity = m.entity; value = m.synthetic }

unfoldable pub promote_input : MappingKey → MappingEntry → String → ScopeState → ScopeState
unfolding put_entry
promote_input k m provenance x = record x {
  forward =
      if is_promoted m provenance then put_entry k (promote m provenance) x.forward else x.forward;
  reverse =
      if is_promoted m provenance
      then put_entry (reverse_key m) (promote m provenance) x.reverse
      else x.reverse;
}

abbrev pub held_by : Holder → ScopeState → ScopeState
held_by h x = record x { holder = some h }

abbrev pub freed : ScopeState → ScopeState
freed x = record x { holder = none }

-- Reserves an entry, where there is room, and keeps the mutex.
unfoldable pub reserve : {A : Type 0} → ScopeState → Holder → ScopeStore → ScopeStore × Outcome A
unfolding update
reserve x h s =
    if not (ltb (entries x) s.config.max_entries_per_scope)
    then (s, stopped capacity_per_scope)
    else if not (ltb s.total_entries s.config.max_total_entries)
    then (s, starved)
    else (
      record s { total_entries = suc s.total_entries; scopes = update x.ref (held_by h) s.scopes },
      reserved,
    )

unfoldable pub enter_entry :
    ScopeState → MappingKey → String → ℕ → ScopeStore → ScopeStore × Outcome MappingEntry
unfolding find_entry promote_input reserve update
enter_entry x k provenance now s =
    if is_some x.holder then (s, blocked) else elim (find_entry k x.forward) [
      | some m ↦ (
        record s {
          scopes =
              update x.ref (λ y. touched s.config now (promote_input k m provenance y)) s.scopes;
        },
        found (promote m provenance),
      )
      | none ↦ reserve x (stores_entry k provenance) s
    ]

abbrev pub valid_provenance : String → Bool
valid_provenance p = str_eq p "input" || str_eq p "generated"

-- The first section of getOrCreateObserved.
unfoldable pub begin_entry :
    ℕ → MappingKey → String → ℕ → ScopeStore → ScopeStore × Outcome MappingEntry
unfolding target enter_entry
begin_entry i k provenance now s =
    if not (valid_provenance provenance)
    then (s, stopped invalid_provenance)
    else elim (target i s) [
      | released_lease ↦ (s, stopped lease_released)
      | gone ↦ (s, wiped)
      | at_scope x ↦ enter_entry x k provenance now s
    ]

-- The second attempt, for which no entry left is an error.
abbrev pub last_attempt : {A : Type 0} → Outcome A → Outcome A
last_attempt starved = stopped capacity_global
last_attempt (found a) = found a
last_attempt (created a) = created a
last_attempt reserved = reserved
last_attempt (stopped e) = stopped e
last_attempt blocked = blocked
last_attempt wiped = wiped

unfoldable pub retry_entry :
    ℕ → MappingKey → String → ℕ → ScopeStore → ScopeStore × Outcome MappingEntry
unfolding begin_entry
retry_entry i k provenance now s =
    let (s', o) = begin_entry i k provenance now s in (s', last_attempt o)

-- A value that does not collide, and the number of collisions before it.
pub data Chosen : Type 0 where
  chosen : String → ℕ → Chosen
  no_choice : StoreError → ℕ → Chosen

-- The loop over the candidates: the attempts that are left, and the one that is next.
unfoldable pub choose : (ℕ → Option String) → (String → Bool) → ℕ → ℕ → Chosen
choose candidate collides zero attempt = no_choice candidate_exhausted (attempt % 2 ^ 32)
choose candidate collides (suc left) attempt = elim (candidate attempt) [
  | none ↦ no_choice candidate_failed attempt
  | some v ↦ elim (collides v) [
    | true ↦ choose candidate collides left (suc attempt)
    | false ↦ chosen v attempt
  ]
]

abbrev pub attempts : ℕ
attempts = 2 ^ 32

abbrev pub synthetic_taken : ScopeState → String → String → Bool
synthetic_taken x entity v = is_some (find_entry (record { entity = entity; value = v }) x.reverse)

abbrev pub new_entry : MappingKey → String → String → ℕ → MappingEntry
new_entry k v provenance now = record {
  entity = k.entity;
  original = k.value;
  synthetic = v;
  provenance = provenance;
  created_at = now;
}

unfoldable pub store_entry : MappingKey → MappingEntry → ScopeState → ScopeState
unfolding put_entry
store_entry k m x = record x {
  forward = put_entry k m x.forward;
  reverse = put_entry (reverse_key m) m x.reverse;
}

-- Gives the reservation back.
abbrev pub unreserve : ScopeState → ScopeStore → ScopeStore
unreserve x s = record s {
  total_entries = s.total_entries - 1;
  scopes = update x.ref freed s.scopes;
}

-- The section that stores the entry, at the end of getOrCreateObserved.
unfoldable pub place_entry :
    ScopeState
    → MappingKey
    → String
    → (ℕ → Option String)
    → ℕ
    → ScopeStore
    → ScopeStore × Outcome MappingEntry
unfolding choose find_entry store_entry update
place_entry x k provenance candidate now s =
    elim (choose candidate (synthetic_taken x k.entity) attempts 0) [
      | no_choice e n ↦ (unreserve x s, stopped e)
      | chosen v n ↦
          let m = new_entry k v provenance now in
          (
            record s {
              scopes =
                  update x.ref (λ y. freed (touched s.config now (store_entry k m y))) s.scopes;
            },
            created m,
          )
    ]

abbrev pub relation_taken : ScopeState → String → String → Bool
relation_taken x k v = any_of (λ p. not (str_eq p.0 k) && str_eq p.1 v) x.relations

abbrev pub store_relation : String → String → ScopeState → ScopeState
store_relation k v x = record x { relations = assign k v x.relations }

unfoldable pub place_relation :
    ScopeState → String → (ℕ → Option String) → ℕ → ScopeStore → ScopeStore × Outcome String
unfolding choose assign update
place_relation x k candidate now s = elim (choose candidate (relation_taken x k) attempts 0) [
  | no_choice e n ↦ (unreserve x s, stopped e)
  | chosen v n ↦ (
    record s {
      scopes = update x.ref (λ y. freed (touched s.config now (store_relation k v y))) s.scopes;
    },
    created v,
  )
]

unfoldable pub enter_relation : ScopeState → String → ℕ → ScopeStore → ScopeStore × Outcome String
unfolding lookup reserve update
enter_relation x k now s = if is_some x.holder then (s, blocked) else elim (lookup k x.relations) [
  | some v ↦ (record s { scopes = update x.ref (touched s.config now) s.scopes }, found v)
  | none ↦ reserve x (stores_relation k) s
]

unfoldable pub begin_relation : ℕ → String → ℕ → ScopeStore → ScopeStore × Outcome String
unfolding target enter_relation
begin_relation i k now s = elim (target i s) [
  | released_lease ↦ (s, stopped lease_released)
  | gone ↦ (s, wiped)
  | at_scope x ↦ enter_relation x k now s
]

unfoldable pub retry_relation : ℕ → String → ℕ → ScopeStore → ScopeStore × Outcome String
unfolding begin_relation
retry_relation i k now s = let (s', o) = begin_relation i k now s in (s', last_attempt o)

-- A look-up that touches the scope where it finds the entry.
unfoldable pub resolved :
    ScopeState → Option MappingEntry → ℕ → ScopeStore → ScopeStore × Option MappingEntry
unfolding update
resolved x none now s = (s, none)
resolved x (some m) now s =
    (record s { scopes = update x.ref (touched s.config now) s.scopes }, some m)

-- A caller that has to wait for the mutex has no answer, and none is left as it is.
unfoldable pub resolve_by :
    (ScopeState → Option MappingEntry) → ℕ → ℕ → ScopeStore → ScopeStore × Option MappingEntry
unfolding target resolved
resolve_by find i now s = elim (target i s) [
  | released_lease ↦ (s, none)
  | gone ↦ (s, none)
  | at_scope x ↦ if is_some x.holder then (s, none) else resolved x (find x) now s
]

unfoldable pub resolve_synthetic :
    ℕ → String → String → ℕ → ScopeStore → ScopeStore × Option MappingEntry
unfolding resolve_by find_entry
resolve_synthetic i entity synthetic =
    resolve_by (λ x. find_entry (record { entity = entity; value = synthetic }) x.reverse) i

unfoldable pub resolve_original :
    ℕ → String → String → ℕ → ScopeStore → ScopeStore × Option MappingEntry
unfolding resolve_by find_entry
resolve_original i entity original =
    resolve_by (λ x. find_entry (record { entity = entity; value = original }) x.forward) i
