-- ===== src/Session/Machine.antt =====
-- The goroutines of internal/session that share the registry, interleaved: callers of `Get` that
-- create an entry, the watchers, the reaper, and handlers. `Close`, `Delete` and a recycle are one
-- step each, with the calls to the workers that follow the critical section.
use otto_gateway.Base.{
  ℕ, zero, suc, String, Bool, Option, none, some, List, [], ◌∷◌, if◌then◌else◌, ◌==◌,
}
use otto_gateway.Session.Registry.{
  Registry, Got, hands, creates, waits, retries, is_closed, max_exceeded, get, Spawning, no_cwd,
  no_spawn, starts, Creation, publish_error, create_entry, watch_entry, delete_session, close,
  reap_snapshot, reap_check, reap_remove, lock_entry, mark_used, set_ctx_pct,
}

pub record Sessions : Type 0 where
  pub registry : Registry
  -- the callers of `Get` that are inside createEntry
  pub creators : List (String × ℕ)
  -- the worker that the caller with an entry has started and not yet published or closed
  pub starting : ℕ → Option ℕ
  -- the reaper: the entries of its snapshot that are left, and the one whose worker it has shut
  pub snapshot : List (String × ℕ)
  pub reaping : Option (String × ℕ)
  -- the workers that createEntry has started: kept to state what becomes of them
  pub spawned : List ℕ

pub data SessionEvent : Type 0 where
  gets : String → ℕ → SessionEvent
  spawns_worker : ℕ → Spawning → SessionEvent
  finishes_creation : ℕ → Creation → ℕ → SessionEvent
  worker_exits : String → ℕ → SessionEvent
  deletes : String → SessionEvent
  closes_registry : SessionEvent
  reap_starts reap_ends : SessionEvent
  reap_inspects : ℕ → SessionEvent
  holds_lock : ℕ → Bool → SessionEvent
  uses_entry reports_pct : ℕ → ℕ → SessionEvent

-- A caller of `Get` that has installed a placeholder goes on in createEntry.
abbrev pub got : Sessions → String → Registry × Got → Sessions
got c sid (r, creates e) = record c { registry = r; creators = (sid, e) ∷ c.creators }
got c sid (r, hands e) = record c { registry = r }
got c sid (r, waits e) = record c { registry = r }
got c sid (r, retries) = record c { registry = r }
got c sid (r, is_closed) = record c { registry = r }
got c sid (r, max_exceeded) = record c { registry = r }

-- The creator at an index, and the others.
unfoldable pub take_creator : List (String × ℕ) → ℕ → Option ((String × ℕ) × List (String × ℕ))
take_creator [] i = none
take_creator (t ∷ ts) zero = some (t, ts)
take_creator (t ∷ ts) (suc i) = elim (take_creator ts i) [
  | none ↦ none
  | some (u, us) ↦ some (u, t ∷ us)
]

abbrev pub without : (ℕ → Option ℕ) → ℕ → ℕ → Option ℕ
without f e i = if i == e then none else f i

-- The end of a createEntry, which leaves a registry.
abbrev pub ended : Sessions → List (String × ℕ) → ℕ → Registry → Sessions
ended c others e r = record c { registry = r; creators = others; starting = without c.starting e }

-- A worker that was started belongs to its caller alone.
abbrev pub started : Sessions → ℕ → ℕ → Sessions
started c e w = record c {
  starting = λ i. if i == e then some w else c.starting i;
  spawned = w ∷ c.spawned;
}

-- The answer of `Spawn`, which a caller asks for once.
unfoldable pub start_creation : Sessions → ℕ → Spawning → Sessions
unfolding take_creator publish_error
start_creation c i a = elim (take_creator c.creators i) [
  | none ↦ c
  | some ((sid, e), others) ↦ elim (c.starting e) [
    | some w ↦ c
    | none ↦ elim a [
      | no_cwd ↦ ended c others e (publish_error c.registry sid e none)
      | no_spawn ↦ ended c others e (publish_error c.registry sid e none)
      | starts w ↦ started c e w
    ]
  ]
]

-- The rest of createEntry, up to the publication.
unfoldable pub finish_creation : Sessions → ℕ → Creation → ℕ → Sessions
unfolding take_creator create_entry
finish_creation c i a now = elim (take_creator c.creators i) [
  | none ↦ c
  | some ((sid, e), others) ↦ elim (c.starting e) [
    | none ↦ c
    | some w ↦ ended c others e (create_entry c.registry sid e w a now).0
  ]
]

-- One entry of the reaper's snapshot.
unfoldable pub inspect_next : Sessions → ℕ → Sessions
inspect_next c now = elim c.snapshot [
  | [] ↦ c
  | (sid, e) ∷ rest ↦
      let (r, expired) = reap_check c.registry e now in
      record c { registry = r; snapshot = rest; reaping = if expired then some (sid, e) else none }
]

unfoldable pub end_reap : Sessions → Sessions
end_reap c = elim c.reaping [
  | none ↦ c
  | some (sid, e) ↦ record c { registry = reap_remove c.registry sid e; reaping = none }
]

-- The reaper begins a new round, or goes to its next entry, when it holds none.
unfoldable pub session_step : Sessions → SessionEvent → Sessions
unfolding start_creation finish_creation inspect_next end_reap
session_step c (gets sid now) = got c sid (get c.registry sid now)
session_step c (spawns_worker i a) = start_creation c i a
session_step c (finishes_creation i a now) = finish_creation c i a now
session_step c (worker_exits sid e) = record c { registry = watch_entry c.registry sid e }
session_step c (deletes sid) = record c { registry = (delete_session c.registry sid).0 }
session_step c closes_registry = record c { registry = close c.registry }
session_step c reap_starts = record c { snapshot = reap_snapshot c.registry c.registry.entries }
session_step c (reap_inspects now) = elim c.reaping [ none ↦ inspect_next c now | some x ↦ c ]
session_step c reap_ends = end_reap c
session_step c (holds_lock e held) = record c { registry = lock_entry c.registry e held }
session_step c (uses_entry e now) = record c { registry = mark_used c.registry e now }
session_step c (reports_pct e pct) = record c { registry = set_ctx_pct c.registry e pct }

unfoldable pub session_run : Sessions → List SessionEvent → Sessions
unfolding session_step
session_run c [] = c
session_run c (e ∷ es) = session_run (session_step c e) es
