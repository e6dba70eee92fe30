-- ===== src/Session/Bounds.antt =====
-- The bound on the number of sessions that `Get` of internal/session/registry.go enforces.
use otto_gateway.Base.{
  ℕ, ◌≤◌, ◌≡◌, refl, String, true, Option, none, some, List, [], ◌∷◌, arith, length, Option-cases,
  ◌⊎◌, inl, inr,
}
use otto_gateway.Pool.State.{lookup, delete, assign}
use otto_gateway.Session.Registry.{
  Registry, get, get_entry, install_placeholder, recycle_entry, shut, create_entry, publish_error,
  publish_entry, Spawning, no_cwd, no_spawn, starts, Creation, no_initialize, no_session, opened,
  watch_entry, delete_session, close, close_entry, close_entries, reap_check, reap_remove,
  lock_entry, mark_used, set_ctx_pct,
}
use otto_gateway.Session.Machine.{
  Sessions, SessionEvent, gets, spawns_worker, finishes_creation, worker_exits, deletes,
  closes_registry, reap_starts, reap_ends, reap_inspects, holds_lock, uses_entry, reports_pct,
  take_creator, ended, started, start_creation, finish_creation, inspect_next, end_reap,
  session_step, session_run,
}

-- What a step keeps: the configuration, and the bound.
pub record Bounds (r r' : Registry) : Type 0 where
  cfg : r'.cfg ≡ r.cfg
  bound : length r.entries ≤ r.cfg.max_sessions → length r'.entries ≤ r.cfg.max_sessions

pub Pending-cases :
    (es : List (String × ℕ))
    → (es ≡ []) ⊎ ((x : String × ℕ) × (rest : List (String × ℕ)) × (es ≡ x ∷ rest))
Pending-cases [] = inl refl
Pending-cases (x ∷ rest) = inr (x, rest, refl)

length-delete : {A : Type 0} (k : String) (m : List (String × A)) → length (delete k m) ≤ length m
unfolding delete
length-delete k [] = omega arith
length-delete k ((j, v) ∷ m) = ground (arith, length-delete k m)

install_placeholder-Bounds : (r : Registry) (sid : String) → Bounds r (install_placeholder r sid).0
unfolding install_placeholder assign
install_placeholder-Bounds r sid = ground (arith, length-delete sid r.entries)

shut-Bounds : (r : Registry) (e : ℕ) → Bounds r (shut r e)
unfolding shut
shut-Bounds r e = ground arith

recycle_entry-Bounds : (r : Registry) (sid : String) (e : ℕ) → Bounds r (recycle_entry r sid e)
unfolding recycle_entry shut
recycle_entry-Bounds r sid e = ground (arith, length-delete sid r.entries)

get_entry-Bounds : (r : Registry) (sid : String) (e now : ℕ) → Bounds r (get_entry r sid e now).0
unfolding get_entry
get_entry-Bounds r sid e now =
    let removed = record r { entries = delete sid r.entries } in
    ground (
      arith,
      install_placeholder-Bounds removed sid,
      recycle_entry-Bounds r sid e,
      length-delete sid r.entries,
    )

get-Bounds : (r : Registry) (sid : String) (now : ℕ) → Bounds r (get r sid now).0
unfolding get
get-Bounds r sid now = elim (Option-cases (lookup sid r.entries)) [
  | inl e ↦ rw (e, get) (ground (arith, install_placeholder-Bounds r sid))
  | inr (i, e) ↦ rw (e, get) (ground (arith, get_entry-Bounds r sid i now))
]

publish_error-Bounds :
    (r : Registry) (sid : String) (e : ℕ) (client : Option ℕ)
    → Bounds r (publish_error r sid e client)
unfolding publish_error
publish_error-Bounds r sid e client = ground (arith, length-delete sid r.entries)

publish_entry-Bounds :
    (r : Registry) (sid : String) (e c : ℕ) (session_id : String) (now : ℕ)
    → Bounds r (publish_entry r sid e c session_id now).0
unfolding publish_entry
publish_entry-Bounds r sid e c session_id now = ground arith

create_entry-Bounds :
    (r : Registry) (sid : String) (e c : ℕ) (a : Creation) (now : ℕ)
    → Bounds r (create_entry r sid e c a now).0
unfolding create_entry
create_entry-Bounds r sid e c no_initialize now = publish_error-Bounds r sid e (some c)
create_entry-Bounds r sid e c no_session now = publish_error-Bounds r sid e (some c)
create_entry-Bounds r sid e c (opened s) now = publish_entry-Bounds r sid e c s now

watch_entry-Bounds : (r : Registry) (sid : String) (e : ℕ) → Bounds r (watch_entry r sid e)
unfolding watch_entry
watch_entry-Bounds r sid e = ground (arith, length-delete sid r.entries)

delete_session-Bounds : (r : Registry) (sid : String) → Bounds r (delete_session r sid).0
unfolding delete_session
delete_session-Bounds r sid = elim (Option-cases (lookup sid r.entries)) [
  | inl e ↦ rw (e, delete_session) (ground arith)
  | inr (i, e) ↦
      let removed = record r { entries = delete sid r.entries } in
      rw (e, delete_session) (ground (arith, length-delete sid r.entries, shut-Bounds removed i))
]

close_entry-Bounds : (r : Registry) (e : ℕ) → Bounds r (close_entry r e)
unfolding close_entry shut
close_entry-Bounds r e = ground arith

close_entries-Bounds : (r : Registry) (es : List (String × ℕ)) → Bounds r (close_entries r es)
unfolding close_entries
close_entries-Bounds r [] = ground arith
close_entries-Bounds r ((sid, e) ∷ es) =
    ground (arith, close_entry-Bounds r e, close_entries-Bounds (close_entry r e) es)

close-Bounds : (r : Registry) → Bounds r (close r)
unfolding close
close-Bounds r =
    ground (arith, close_entries-Bounds (record r { closed = true; entries = [] }) r.entries)

reap_check-Bounds : (r : Registry) (e now : ℕ) → Bounds r (reap_check r e now).0
unfolding reap_check shut
reap_check-Bounds r e now = ground arith

reap_remove-Bounds : (r : Registry) (sid : String) (e : ℕ) → Bounds r (reap_remove r sid e)
unfolding reap_remove
reap_remove-Bounds r sid e = ground (arith, length-delete sid r.entries)

inspect_next-Bounds : (c : Sessions) (now : ℕ) → Bounds c.registry (inspect_next c now).registry
unfolding inspect_next
inspect_next-Bounds c now = elim (Pending-cases c.snapshot) [
  | inl e ↦ rw (e, inspect_next) (ground arith)
  | inr ((sid, i), rest, e) ↦ rw (e, inspect_next) (reap_check-Bounds c.registry i now)
]

spawning-Bounds :
    (c : Sessions) (sid : String) (e : ℕ) (us : List (String × ℕ)) (a : Spawning)
    → Bounds c.registry
        (elim a as (λ _. Sessions) [
          | no_cwd ↦ ended c us e (publish_error c.registry sid e none)
          | no_spawn ↦ ended c us e (publish_error c.registry sid e none)
          | starts w ↦ started c e w
        ]).registry
spawning-Bounds c sid e us no_cwd = publish_error-Bounds c.registry sid e none
spawning-Bounds c sid e us no_spawn = publish_error-Bounds c.registry sid e none
spawning-Bounds c sid e us (starts w) = ground arith

start_creation-Bounds :
    (c : Sessions) (i : ℕ) (a : Spawning) → Bounds c.registry (start_creation c i a).registry
unfolding start_creation
start_creation-Bounds c i a = elim (Option-cases (take_creator c.creators i)) [
  | inl e ↦ rw (e, start_creation) (ground arith)
  | inr (((sid, i'), us), e) ↦ elim (Option-cases (c.starting i')) [
    | inl n ↦ rw (e, n, start_creation) (spawning-Bounds c sid i' us a)
    | inr (d, st) ↦ rw (e, st, start_creation) (ground arith)
  ]
]

session_step-Bounds :
    (c : Sessions) (ev : SessionEvent) → Bounds c.registry (session_step c ev).registry
unfolding session_step
session_step-Bounds c (gets sid now) = ground (arith, get-Bounds c.registry sid now)
session_step-Bounds c (spawns_worker i a) = start_creation-Bounds c i a
session_step-Bounds c (finishes_creation i a now) =
    elim (Option-cases (take_creator c.creators i)) [
      | inl e ↦ rw (e, session_step, finish_creation) (ground arith)
      | inr (((sid, i'), us), e) ↦ elim (Option-cases (c.starting i')) [
        | inl n ↦ rw (e, n, session_step, finish_creation) (ground arith)
        | inr (d, st) ↦
            rw (e, st, session_step, finish_creation)
              (create_entry-Bounds c.registry sid i' d a now)
      ]
    ]
session_step-Bounds c (worker_exits sid e) = watch_entry-Bounds c.registry sid e
session_step-Bounds c (deletes sid) = delete_session-Bounds c.registry sid
session_step-Bounds c closes_registry = close-Bounds c.registry
session_step-Bounds c reap_starts = ground arith
session_step-Bounds c (reap_inspects now) = elim (Option-cases c.reaping) [
  | inl e ↦ rw (e, session_step) (inspect_next-Bounds c now)
  | inr (x, e) ↦ rw (e, session_step) (ground arith)
]
session_step-Bounds c reap_ends = elim (Option-cases c.reaping) [
  | inl e ↦ rw (e, session_step, end_reap) (ground arith)
  | inr ((sid, i), e) ↦ rw (e, session_step, end_reap) (reap_remove-Bounds c.registry sid i)
]
session_step-Bounds c (holds_lock e held) = unfold lock_entry in ground arith
session_step-Bounds c (uses_entry e now) = unfold mark_used in ground arith
session_step-Bounds c (reports_pct e pct) = unfold set_ctx_pct in ground arith

-- Whatever the callers, the watchers and the reaper do, a registry that began within SESSION_MAX
-- never holds more entries than that, placeholders included.
pub session_run-bound :
    (c : Sessions) (es : List SessionEvent)
    → length c.registry.entries ≤ c.registry.cfg.max_sessions
    → length (session_run c es).registry.entries ≤ c.registry.cfg.max_sessions
unfolding session_run
session_run-bound c [] h = h
session_run-bound c (e ∷ es) h =
    ground (arith, session_step-Bounds c e, session_run-bound (session_step c e) es)
