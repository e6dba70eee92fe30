-- ===== src/Privacy/Store.antt =====
-- The scopes of internal/privacy/store.go: acquisition, release, closing, reaping and tombstones. Each
-- function is a critical section. A `*scopeState` is a number, its `ref`, which no other scope gets;
-- a lease is its position in `leases`. A time is a number.
use otto_gateway.Base.{
  ℕ, zero, suc, ◌+◌, ◌-◌, ◌*◌, ◌%◌, String, Bool, true, false, not, ◌&&◌, ◌||◌, Option, none, some,
  List, [], ◌∷◌, ◌++◌, ltb, ◌==◌, if◌then◌else◌, length, get_elem?, get_or, set, map, replicate,
  str_eq, u64, is_some,
}
use otto_gateway.Pool.State.{lookup, delete, assign}
use otto_gateway.Privacy.Ledger.{MappingKey, Ledger}

pub record StoreConfig : Type 0 where
  pub scope_ttl : ℕ
  pub max_scopes : ℕ
  pub max_entries_per_scope : ℕ
  pub max_total_entries : ℕ

-- The operation that holds a scope's mutex and has reserved an entry, with what it is to store.
pub data Holder : Type 0 where
  stores_entry : MappingKey → String → Holder
  stores_relation : String → Holder

pub record ScopeState : Type 0 where
  pub ref : ℕ
  pub id : String
  pub profile : String
  pub forward : Ledger
  pub reverse : Ledger
  pub relations : List (String × String)
  pub in_flight : ℕ
  pub closing : Bool
  pub created_at : ℕ
  pub last_used : ℕ
  pub expires_at : ℕ
  pub holder : Option Holder

pub record Tombstone : Type 0 where
  pub id : String
  pub expires_at : ℕ
  pub sequence : ℕ

pub record ScopeLease : Type 0 where
  pub scope : ℕ
  pub released : Bool

pub record ScopeStore : Type 0 where
  pub config : StoreConfig
  pub shutdown : Bool
  pub scopes : List ScopeState
  pub total_entries : ℕ
  pub tombstones : List (String × Tombstone)
  pub tombstone_ring : List Tombstone
  pub tombstone_head : ℕ
  pub tombstone_len : ℕ
  pub next_sequence : ℕ
  -- the next `ref`, and the leases that were given
  pub next_ref : ℕ
  pub leases : List ScopeLease

pub data StoreError : Type 0 where
  invalid_profile scope_closed scope_not_found capacity_scope capacity_per_scope capacity_global :
      StoreError
  lease_released invalid_provenance candidate_failed candidate_exhausted : StoreError

abbrev pub no_tombstone : Tombstone
no_tombstone = record { id = ""; expires_at = 0; sequence = 0 }

abbrev pub tombstone_capacity : StoreConfig → ℕ
tombstone_capacity c = if ltb (4 * c.max_scopes) 128 then 128 else 4 * c.max_scopes

abbrev pub empty_store : StoreConfig → ScopeStore
empty_store c = record {
  config = c;
  shutdown = false;
  scopes = [];
  total_entries = 0;
  tombstones = [];
  tombstone_ring = replicate (tombstone_capacity c) no_tombstone;
  tombstone_head = 0;
  tombstone_len = 0;
  next_sequence = 0;
  next_ref = 0;
  leases = [];
}

-- `NewScopeStore`, whose clock is not nil.
unfoldable pub new_store : StoreConfig → Option ScopeStore
new_store c =
    if (c.scope_ttl == 0)
      || (c.max_scopes == 0)
      || (c.max_entries_per_scope == 0)
      || (c.max_total_entries == 0)
    then none
    else some (empty_store c)

unfoldable pub find_scope : String → List ScopeState → Option ScopeState
find_scope id [] = none
find_scope id (x ∷ xs) = if str_eq x.id id then some x else find_scope id xs

unfoldable pub remove_scope : String → List ScopeState → List ScopeState
remove_scope id [] = []
remove_scope id (x ∷ xs) = let rest = remove_scope id xs in if str_eq x.id id then xs else x ∷ rest

-- The scope behind a pointer, and a write through one.
unfoldable pub deref : ℕ → List ScopeState → Option ScopeState
deref r [] = none
deref r (x ∷ xs) = if x.ref == r then some x else deref r xs

unfoldable pub update : ℕ → (ScopeState → ScopeState) → List ScopeState → List ScopeState
update r f [] = []
update r f (x ∷ xs) = let rest = update r f xs in if x.ref == r then f x ∷ xs else x ∷ rest

abbrev pub entries : ScopeState → ℕ
entries x = length x.forward + length x.relations

-- Whether the tombstone of the ring is the one that counts for its scope.
unfoldable pub is_current : ScopeStore → Tombstone → Bool
unfolding lookup
is_current s t = elim (lookup t.id s.tombstones) [
  | none ↦ false
  | some c ↦ c.sequence == t.sequence
]

unfoldable pub bury : ScopeStore → Tombstone → List (String × Tombstone)
unfolding is_current delete
bury s t = if is_current s t then delete t.id s.tombstones else s.tombstones

unfoldable pub add_tombstone : String → ℕ → ScopeStore → ScopeStore
unfolding bury assign
add_tombstone id expires s =
    let marker : Tombstone = record {
      id = id;
      expires_at = expires;
      sequence = u64 (suc s.next_sequence);
    } in
    let slots = length s.tombstone_ring in
    let oldest = get_or s.tombstone_ring s.tombstone_head no_tombstone in
    if s.tombstone_len == slots
    then record s {
      next_sequence = u64 (suc s.next_sequence);
      tombstone_ring = set s.tombstone_ring s.tombstone_head marker;
      tombstone_head = (suc s.tombstone_head) % slots;
      tombstones = assign id marker (bury s oldest);
    }
    else record s {
      next_sequence = u64 (suc s.next_sequence);
      tombstone_ring = set s.tombstone_ring ((s.tombstone_head + s.tombstone_len) % slots) marker;
      tombstone_len = suc s.tombstone_len;
      tombstones = assign id marker s.tombstones;
    }

-- Drops the oldest tombstones that have expired; the number is the length of the ring's contents.
unfoldable pub prune_from : ℕ → ℕ → ScopeStore → ScopeStore
unfolding is_current bury
prune_from zero now s = s
prune_from (suc n) now s =
    let oldest = get_or s.tombstone_ring s.tombstone_head no_tombstone in
    let rest = prune_from n now (record s {
      tombstones = bury s oldest;
      tombstone_ring = set s.tombstone_ring s.tombstone_head no_tombstone;
      tombstone_head = (suc s.tombstone_head) % length s.tombstone_ring;
      tombstone_len = n;
    }) in
    if is_current s oldest && ltb now oldest.expires_at then s else rest

unfoldable pub prune_tombstones : ℕ → ScopeStore → ScopeStore
unfolding prune_from
prune_tombstones now s = prune_from s.tombstone_len now s

unfoldable pub wipe_and_remove : String → ℕ → ℕ → ScopeStore → ScopeStore
unfolding find_scope remove_scope add_tombstone
wipe_and_remove id ref now s = elim (find_scope id s.scopes) [
  | none ↦ s
  | some x ↦
      if x.ref == ref
      then add_tombstone id (now + s.config.scope_ttl) (record s {
        scopes = remove_scope id s.scopes;
        total_entries = s.total_entries - entries x;
      })
      else s
]

abbrev pub is_expired : ScopeState → ℕ → Bool
is_expired x now = not (ltb now x.expires_at)

-- Whether a reaper that gets the scope's lock wipes it.
abbrev pub can_reap : ScopeState → ℕ → Bool
can_reap x now = not (is_some x.holder) && (x.in_flight == 0) && (x.closing || is_expired x now)

unfoldable pub reap_one : String → ℕ → ScopeStore → ScopeStore
unfolding find_scope wipe_and_remove
reap_one id now s = elim (find_scope id s.scopes) [
  | none ↦ s
  | some x ↦ if can_reap x now then wipe_and_remove id x.ref now s else s
]

unfoldable pub reap_each : List String → ℕ → ScopeStore → ScopeStore
unfolding reap_one
reap_each [] now s = s
reap_each (id ∷ ids) now s = reap_each ids now (reap_one id now s)

unfoldable pub reap_available : ℕ → ScopeStore → ScopeStore
unfolding reap_each
reap_available now s = reap_each (map (λ x. x.id) s.scopes) now s

-- `reapExpiredObserved` and `reclaimAvailableExpired`.
unfoldable pub reap_expired : ℕ → ScopeStore → ScopeStore
unfolding prune_tombstones reap_available
reap_expired now s = reap_available now (prune_tombstones now s)

abbrev pub touched : StoreConfig → ℕ → ScopeState → ScopeState
touched c now x = record x { last_used = now; expires_at = now + c.scope_ttl }

abbrev pub joined_by : StoreConfig → ℕ → ScopeState → ScopeState
joined_by c now x = touched c now (record x { in_flight = suc x.in_flight })

pub data Acquired : Type 0 where
  -- the lease, and whether its scope is new
  leased : ℕ → Bool → Acquired
  denied : StoreError → Acquired
  -- the scope's mutex is held: the caller waits for it and starts again
  contended : Acquired

abbrev pub valid_profile : String → Bool
valid_profile p = str_eq p "standard" || str_eq p "strict"

abbrev pub new_scope : StoreConfig → ℕ → String → String → ℕ → ScopeState
new_scope c ref id profile now = record {
  ref = ref;
  id = id;
  profile = profile;
  forward = [];
  reverse = [];
  relations = [];
  in_flight = 1;
  closing = false;
  created_at = now;
  last_used = now;
  expires_at = now + c.scope_ttl;
  holder = none;
}

-- A lease of a scope.
abbrev pub with_lease : ℕ → Bool → ScopeStore → ScopeStore × Acquired
with_lease ref fresh s = (
  record s { leases = s.leases ++ (record { scope = ref; released = false } ∷ []) },
  leased (length s.leases) fresh,
)

unfoldable pub join_scope : ScopeState → String → ℕ → ScopeStore → ScopeStore × Acquired
unfolding wipe_and_remove update
join_scope x profile now s =
    if is_some x.holder
    then (s, contended)
    else if (x.in_flight == 0) && is_expired x now
    then (wipe_and_remove x.id x.ref now s, denied scope_closed)
    else if x.closing
    then (s, denied scope_closed)
    else if not (str_eq x.profile profile)
    then (s, denied invalid_profile)
    else with_lease x.ref false
        (record s { scopes = update x.ref (joined_by s.config now) s.scopes })

unfoldable pub open_scope : String → String → ℕ → ScopeStore → ScopeStore × Acquired
open_scope id profile now s =
    if not (ltb (length s.scopes) s.config.max_scopes)
    then (s, denied capacity_scope)
    else with_lease s.next_ref true (record s {
      scopes = new_scope s.config s.next_ref id profile now ∷ s.scopes;
      next_ref = suc s.next_ref;
    })

-- Reaps where there is no room for a scope.
abbrev pub make_room : ℕ → ScopeStore → ScopeStore
make_room now s = if ltb (length s.scopes) s.config.max_scopes then s else reap_available now s

unfoldable pub acquire_pruned : String → String → ℕ → ScopeStore → ScopeStore × Acquired
unfolding find_scope join_scope open_scope lookup reap_available
acquire_pruned id profile now s =
    if s.shutdown then (s, denied scope_closed) else elim (find_scope id s.scopes) [
      | some x ↦ join_scope x profile now s
      | none ↦
          if is_some (lookup id s.tombstones)
          then (s, denied scope_closed)
          else open_scope id profile now (make_room now s)
    ]

unfoldable pub acquire : String → String → ℕ → ScopeStore → ScopeStore × Acquired
unfolding acquire_pruned prune_tombstones
acquire id profile now s =
    if not (valid_profile profile)
    then (s, denied invalid_profile)
    else acquire_pruned id profile now (prune_tombstones now s)

abbrev pub left_by : ScopeState → ScopeState
left_by x = record x { in_flight = x.in_flight - 1 }

abbrev pub finished_lease : ScopeLease → ScopeLease
finished_lease l = record l { released = true }

-- Drops the reference of a lease. While an operation holds the scope's mutex, the caller waits.
unfoldable pub release : ℕ → ScopeStore → ScopeStore
unfolding deref update
release i s = elim (get_elem? s.leases i) [
  | none ↦ s
  | some l ↦ if l.released then s else elim (deref l.scope s.scopes) [
    | none ↦ record s { leases = set s.leases i (finished_lease l) }
    | some x ↦ if is_some x.holder then s else record s {
      leases = set s.leases i (finished_lease l);
      scopes = update l.scope left_by s.scopes;
    }
  ]
]

-- What Release calls after the last lease of a closing scope.
unfoldable pub finalize_closed : String → ℕ → ℕ → ScopeStore → ScopeStore
unfolding find_scope wipe_and_remove
finalize_closed id ref now s = elim (find_scope id s.scopes) [
  | none ↦ s
  | some x ↦
      if (x.ref == ref) && not (is_some x.holder) && x.closing && (x.in_flight == 0)
      then wipe_and_remove id ref now s
      else s
]

pub data Cleared : Type 0 where
  clear_completed clear_closing unknown_scope busy : Cleared

abbrev pub begin_closing : ScopeState → ScopeState
begin_closing x = record x { closing = true }

unfoldable pub clear_pruned : String → ℕ → ScopeStore → ScopeStore × Cleared
unfolding find_scope lookup update wipe_and_remove
clear_pruned id now s = elim (find_scope id s.scopes) [
  | none ↦ (s, if is_some (lookup id s.tombstones) then clear_completed else unknown_scope)
  | some x ↦
      let s' = record s { scopes = update x.ref begin_closing s.scopes } in
      if is_some x.holder
      then (s, busy)
      else if ltb 0 x.in_flight
      then (s', clear_closing)
      else (wipe_and_remove id x.ref now s', clear_completed)
]

unfoldable pub clear_scope : String → ℕ → ScopeStore → ScopeStore × Cleared
unfolding clear_pruned prune_tombstones
clear_scope id now s = clear_pruned id now (prune_tombstones now s)

abbrev pub begin_shutdown : ScopeStore → ScopeStore
begin_shutdown s = record s { shutdown = true }
