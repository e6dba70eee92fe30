-- ===== src/Session/Registry.antt =====
-- internal/session/registry.go, and the reaper of reaper.go: each function of this module is a
-- critical section of `r.mu`, or what one caller does between two of them. A `*Entry` is an index
-- into `heap`, a worker a number. A percentage is a number of which only the order matters; a Go map
-- is an association list.
use otto_gateway.Base.{
  ℕ, suc, ◌+◌, String, Bool, true, false, not, ◌&&◌, Option, none, some, List, [], ◌∷◌, ltb, leb,
  ◌==◌, if◌then◌else◌, length, u64,
}
use otto_gateway.Pool.State.{ClientCall, cancels, closes, lookup, delete, assign}

pub record SessionConfig : Type 0 where
  pub max_sessions : ℕ
  pub ttl : ℕ
  pub recycle_pct : ℕ

pub record Entry : Type 0 where
  pub client : Option ℕ
  pub session_id : String
  pub last_used : ℕ
  pub ctx_pct : ℕ
  pub dead : Bool
  pub creating : Bool
  -- whether the channel `ready` is closed, and whether somebody holds `Mu`
  pub ready : Bool
  pub locked : Bool

pub record Registry : Type 0 where
  pub cfg : SessionConfig
  pub entries : List (String × ℕ)
  pub heap : ℕ → Entry
  -- the first index of the heap that no entry uses
  pub fresh : ℕ
  pub closed : Bool
  pub created : ℕ
  pub recycled : ℕ
  pub reaped : ℕ
  -- the calls made to workers, newest first
  pub calls : List ClientCall

-- `&Entry{creating: true, ready: make(chan struct{})}`
abbrev pub placeholder : Entry
placeholder = record {
  client = none;
  session_id = "";
  last_used = 0;
  ctx_pct = 0;
  dead = false;
  creating = true;
  ready = false;
  locked = false;
}

unfoldable pub new_registry : SessionConfig → Registry
new_registry cfg = record {
  cfg = cfg;
  entries = [];
  heap = λ e. placeholder;
  fresh = 0;
  closed = false;
  created = 0;
  recycled = 0;
  reaped = 0;
  calls = [];
}

abbrev pub put : Registry → ℕ → Entry → Registry
put r e x = record r { heap = λ i. if i == e then x else r.heap i }

-- `Cancel` and `Close` of the entry's worker, where it has one.
unfoldable pub shut : Registry → ℕ → Registry
shut r e = elim (r.heap e).client [
  | none ↦ r
  | some c ↦ record r { calls = closes c ∷ cancels c (r.heap e).session_id ∷ r.calls }
]

-- How one round of `Get` ends.
pub data Got : Type 0 where
  hands creates waits : ℕ → Got
  retries is_closed max_exceeded : Got

-- The gate on the number of sessions, and the placeholder.
unfoldable pub install_placeholder : Registry → String → Registry × Got
unfolding assign
install_placeholder r sid =
    if leb r.cfg.max_sessions (length r.entries) then (r, max_exceeded) else (
      record (put r r.fresh placeholder) {
        entries = assign sid r.fresh r.entries;
        fresh = suc r.fresh;
      },
      creates r.fresh,
    )

-- The recycle of an entry that has used up its context: its request lock is free.
unfoldable pub recycle_entry : Registry → String → ℕ → Registry
unfolding delete shut
recycle_entry r sid e =
    shut (record r { entries = delete sid r.entries; recycled = u64 (r.recycled + 1) }) e

-- A round of `Get` that finds the entry `e`.
unfoldable pub get_entry : Registry → String → ℕ → ℕ → Registry × Got
unfolding delete install_placeholder recycle_entry
get_entry r sid e now =
    let x = r.heap e in
    if x.dead
    then install_placeholder (record r { entries = delete sid r.entries }) sid
    else if x.creating
    then (r, waits e)
    else if ltb 0 r.cfg.recycle_pct && leb r.cfg.recycle_pct x.ctx_pct && not x.locked
    then (recycle_entry r sid e, retries)
    else (put r e (record x { last_used = now }), hands e)

unfoldable pub get : Registry → String → ℕ → Registry × Got
unfolding lookup install_placeholder get_entry
get r sid now = if r.closed then (r, is_closed) else elim (lookup sid r.entries) [
  | none ↦ install_placeholder r sid
  | some e ↦ get_entry r sid e now
]

-- Whether `r.entries[sid]` is still the entry `e`.
abbrev pub is_ours : Registry → String → ℕ → Bool
is_ours r sid e = elim (lookup sid r.entries) [ none ↦ false | some i ↦ i == e ]

-- What the world answers to the first part of createEntry: no working directory, or no worker, or a
-- worker that was started; and to the second part: the worker fails to initialize, or to open a
-- session, or opens one.
pub data Spawning : Type 0 where
  no_cwd no_spawn : Spawning
  starts : ℕ → Spawning

pub data Creation : Type 0 where
  no_initialize no_session : Creation
  opened : String → Creation

-- `publishError`, for a worker that was started or none.
unfoldable pub publish_error : Registry → String → ℕ → Option ℕ → Registry
unfolding delete lookup
publish_error r sid e client =
    let removed = if is_ours r sid e then record r { entries = delete sid r.entries } else r in
    let signalled = put removed e (record (removed.heap e) { ready = true }) in
    elim client [
      | none ↦ signalled
      | some c ↦ record signalled { calls = closes c ∷ signalled.calls }
    ]

-- The publication of a session that was opened; the Boolean is the success.
unfoldable pub publish_entry : Registry → String → ℕ → ℕ → String → ℕ → Registry × Bool
unfolding lookup
publish_entry r sid e c session_id now =
    let x = r.heap e in
    if is_ours r sid e
    then (
      record (put r e (record x {
        client = some c;
        session_id = session_id;
        last_used = now;
        creating = false;
        ready = true;
      })) { created = u64 (r.created + 1) },
      true,
    )
    else (record (put r e (record x { ready = true })) { calls = closes c ∷ r.calls }, false)

-- createEntry from the answer of `Spawn` on, with the worker.
unfoldable pub create_entry : Registry → String → ℕ → ℕ → Creation → ℕ → Registry × Bool
unfolding publish_error publish_entry
create_entry r sid e c no_initialize now = (publish_error r sid e (some c), false)
create_entry r sid e c no_session now = (publish_error r sid e (some c), false)
create_entry r sid e c (opened session_id) now = publish_entry r sid e c session_id now

-- The watcher of an entry, once its worker is gone.
unfoldable pub watch_entry : Registry → String → ℕ → Registry
unfolding lookup delete
watch_entry r sid e =
    let removed =
      if is_ours r sid e
      then record (put r e (record (r.heap e) { dead = true })) { entries = delete sid r.entries }
      else r in
    elim (r.heap e).client [
      | none ↦ r
      | some c ↦ record removed { calls = closes c ∷ removed.calls }
    ]

-- `Delete`: false where there is no such session.
unfoldable pub delete_session : Registry → String → Registry × Bool
unfolding lookup delete shut
delete_session r sid = elim (lookup sid r.entries) [
  | none ↦ (r, false)
  | some e ↦
      let r' = shut (record r { entries = delete sid r.entries }) e in
      ((if (r'.heap e).creating then put r' e (record (r'.heap e) { ready = true }) else r'), true)
]

-- The teardown of the entries that `Close` took.
unfoldable pub close_entry : Registry → ℕ → Registry
unfolding shut
close_entry r e = elim (r.heap e).client [
  | none ↦ put r e (record (r.heap e) { ready = true })
  | some c ↦ shut r e
]

unfoldable pub close_entries : Registry → List (String × ℕ) → Registry
unfolding close_entry
close_entries r [] = r
close_entries r ((sid, e) ∷ es) = close_entries (close_entry r e) es

unfoldable pub close : Registry → Registry
unfolding close_entries
close r = if r.closed then r else close_entries (record r { closed = true; entries = [] }) r.entries

-- The entries that the reaper looks at.
unfoldable pub reap_snapshot : Registry → List (String × ℕ) → List (String × ℕ)
reap_snapshot r [] = []
reap_snapshot r ((sid, e) ∷ es) =
    let rest = reap_snapshot r es in if (r.heap e).creating then rest else (sid, e) ∷ rest

-- The reaper at one entry up to the teardown: the Boolean says that it took the entry's lock and
-- found it idle for longer than the TTL.
unfoldable pub reap_check : Registry → ℕ → ℕ → Registry × Bool
unfolding shut
reap_check r e now =
    let x = r.heap e in
    if not x.locked && ltb (x.last_used + r.cfg.ttl) now
    then (shut (put r e (record x { locked = true })) e, true)
    else (r, false)

-- The removal that follows the teardown, and the release of the lock.
unfoldable pub reap_remove : Registry → String → ℕ → Registry
unfolding lookup delete
reap_remove r sid e =
    let x = record (r.heap e) { locked = false } in
    if is_ours r sid e
    then record (put r e (record x { dead = true })) {
      entries = delete sid r.entries;
      reaped = u64 (r.reaped + 1);
    }
    else put r e x

-- A handler's `Mu`, `MarkUsed` at the end of a response, and the worker's context percentage.
unfoldable pub lock_entry : Registry → ℕ → Bool → Registry
lock_entry r e held = put r e (record (r.heap e) { locked = held })

unfoldable pub mark_used : Registry → ℕ → ℕ → Registry
mark_used r e now = put r e (record (r.heap e) { last_used = now })

unfoldable pub set_ctx_pct : Registry → ℕ → ℕ → Registry
set_ctx_pct r e pct = put r e (record (r.heap e) { ctx_pct = pct })
