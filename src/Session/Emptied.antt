-- ===== src/Session/Emptied.antt =====
-- A closed registry of internal/session/registry.go holds no entry, and gets none.
use otto_gateway.Base.{
  ℕ, ◌≡◌, refl, String, true, Option, none, some, List, [], ◌∷◌, arith, Option-cases, inl, inr,
}
use otto_gateway.Pool.State.{lookup, delete}
use otto_gateway.Session.Registry.{
  Registry, get, get_entry, install_placeholder, recycle_entry, shut, create_entry, publish_error,
  publish_entry, Spawning, no_cwd, no_spawn, starts, Creation, no_initialize, no_session, opened,
  watch_entry, delete_session, close, close_entry, close_entries, reap_check, reap_remove,
  lock_entry, mark_used, set_ctx_pct,
}
use otto_gateway.Session.Machine.{
  Sessions, SessionEvent, gets, spawns_worker, finishes_creation, worker_exits, deletes,
  closes_registry, reap_starts, reap_ends, reap_inspects, holds_lock, uses_entry, reports_pct,
  take_creator, ended, started, start_creation, finish_creation, inspect_next, end_reap,
  session_step, session_run,
}
use otto_gateway.Session.Bounds.{Pending-cases}

abbrev pub Emptied : Registry → Type 0
Emptied r = r.closed ≡ true → r.entries ≡ []

-- What a step does that closes nothing: a registry that holds no entry and is closed gets none.
record Stays (r r' : Registry) : Type 0 where
  closed : r'.closed ≡ true → r.closed ≡ true
  entries : r.closed ≡ true → r.entries ≡ [] → r'.entries ≡ []

Stays-Emptied : (r r' : Registry) → Stays r r' → Emptied r → Emptied r'
Stays-Emptied r r' s v o = s.entries (s.closed o) (v (s.closed o))

delete-nil : (sid : String) (m : List (String × ℕ)) → m ≡ [] → delete sid m ≡ []
unfolding delete
delete-nil sid m e = rw e refl

get_entry-closed :
    (r : Registry) (sid : String) (e now : ℕ) → (get_entry r sid e now).0.closed ≡ r.closed
unfolding get_entry install_placeholder recycle_entry shut
get_entry-closed r sid e now = ground arith

install_placeholder-closed :
    (r : Registry) (sid : String) → (install_placeholder r sid).0.closed ≡ r.closed
unfolding install_placeholder
install_placeholder-closed r sid = ground arith

get-Stays : (r : Registry) (sid : String) (now : ℕ) → Stays r (get r sid now).0
unfolding get
get-Stays r sid now = elim (Option-cases (lookup sid r.entries)) [
  | inl e ↦ rw (e, get) (ground (arith, install_placeholder-closed r sid))
  | inr (i, e) ↦ rw (e, get) (ground (arith, get_entry-closed r sid i now))
]

publish_error-Stays :
    (r : Registry) (sid : String) (e : ℕ) (client : Option ℕ)
    → Stays r (publish_error r sid e client)
unfolding publish_error
publish_error-Stays r sid e client = ground (arith, delete-nil sid r.entries)

create_entry-Stays :
    (r : Registry) (sid : String) (e c : ℕ) (a : Creation) (now : ℕ)
    → Stays r (create_entry r sid e c a now).0
unfolding create_entry
create_entry-Stays r sid e c no_initialize now = publish_error-Stays r sid e (some c)
create_entry-Stays r sid e c no_session now = publish_error-Stays r sid e (some c)
create_entry-Stays r sid e c (opened s) now = unfold publish_entry in ground arith

watch_entry-Stays : (r : Registry) (sid : String) (e : ℕ) → Stays r (watch_entry r sid e)
unfolding watch_entry
watch_entry-Stays r sid e = ground (arith, delete-nil sid r.entries)

shut-Stays : (r : Registry) (e : ℕ) → Stays r (shut r e)
unfolding shut
shut-Stays r e = ground arith

delete_session-Stays : (r : Registry) (sid : String) → Stays r (delete_session r sid).0
unfolding delete_session
delete_session-Stays r sid = elim (Option-cases (lookup sid r.entries)) [
  | inl e ↦ rw (e, delete_session) (ground arith)
  | inr (i, e) ↦
      let removed = record r { entries = delete sid r.entries } in
      rw (e, delete_session) (ground (arith, delete-nil sid r.entries, shut-Stays removed i))
]

reap_check-Stays : (r : Registry) (e now : ℕ) → Stays r (reap_check r e now).0
unfolding reap_check shut
reap_check-Stays r e now = ground arith

reap_remove-Stays : (r : Registry) (sid : String) (e : ℕ) → Stays r (reap_remove r sid e)
unfolding reap_remove
reap_remove-Stays r sid e = ground (arith, delete-nil sid r.entries)

close_entries-entries :
    (r : Registry) (es : List (String × ℕ)) → (close_entries r es).entries ≡ r.entries
unfolding close_entries close_entry shut
close_entries-entries r [] = refl
close_entries-entries r ((sid, e) ∷ es) = ground (arith, close_entries-entries (close_entry r e) es)

close-Emptied : (r : Registry) → Emptied r → Emptied (close r)
unfolding close
close-Emptied r v =
    ground (arith, close_entries-entries (record r { closed = true; entries = [] }) r.entries)

spawning-Stays :
    (c : Sessions) (sid : String) (e : ℕ) (us : List (String × ℕ)) (a : Spawning)
    → Stays c.registry
        (elim a as (λ _. Sessions) [
          | no_cwd ↦ ended c us e (publish_error c.registry sid e none)
          | no_spawn ↦ ended c us e (publish_error c.registry sid e none)
          | starts w ↦ started c e w
        ]).registry
spawning-Stays c sid e us no_cwd = publish_error-Stays c.registry sid e none
spawning-Stays c sid e us no_spawn = publish_error-Stays c.registry sid e none
spawning-Stays c sid e us (starts w) = ground arith

start_creation-Stays :
    (c : Sessions) (i : ℕ) (a : Spawning) → Stays c.registry (start_creation c i a).registry
unfolding start_creation
start_creation-Stays c i a = elim (Option-cases (take_creator c.creators i)) [
  | inl e ↦ rw (e, start_creation) (ground arith)
  | inr (((sid, i'), us), e) ↦ elim (Option-cases (c.starting i')) [
    | inl n ↦ rw (e, n, start_creation) (spawning-Stays c sid i' us a)
    | inr (d, st) ↦ rw (e, st, start_creation) (ground arith)
  ]
]

finish_creation-Stays :
    (c : Sessions) (i : ℕ) (a : Creation) (now : ℕ)
    → Stays c.registry (finish_creation c i a now).registry
unfolding finish_creation
finish_creation-Stays c i a now = elim (Option-cases (take_creator c.creators i)) [
  | inl e ↦ rw (e, finish_creation) (ground arith)
  | inr (((sid, i'), us), e) ↦ elim (Option-cases (c.starting i')) [
    | inl n ↦ rw (e, n, finish_creation) (ground arith)
    | inr (d, st) ↦ rw (e, st, finish_creation) (create_entry-Stays c.registry sid i' d a now)
  ]
]

inspect_next-Stays : (c : Sessions) (now : ℕ) → Stays c.registry (inspect_next c now).registry
unfolding inspect_next
inspect_next-Stays c now = elim (Pending-cases c.snapshot) [
  | inl e ↦ rw (e, inspect_next) (ground arith)
  | inr ((sid, i), rest, e) ↦ rw (e, inspect_next) (reap_check-Stays c.registry i now)
]

end_reap-Stays : (c : Sessions) → Stays c.registry (end_reap c).registry
unfolding end_reap
end_reap-Stays c = elim (Option-cases c.reaping) [
  | inl e ↦ rw (e, end_reap) (ground arith)
  | inr ((sid, i), e) ↦ rw (e, end_reap) (reap_remove-Stays c.registry sid i)
]

session_step-Emptied :
    (c : Sessions) (ev : SessionEvent) → Emptied c.registry → Emptied (session_step c ev).registry
unfolding session_step
session_step-Emptied c (gets sid now) v =
    let s = get-Stays c.registry sid now in ground (arith, s.closed, s.entries, v)
session_step-Emptied c (spawns_worker i a) v =
    Stays-Emptied c.registry _ (start_creation-Stays c i a) v
session_step-Emptied c (finishes_creation i a now) v =
    Stays-Emptied c.registry _ (finish_creation-Stays c i a now) v
session_step-Emptied c (worker_exits sid e) v =
    Stays-Emptied c.registry _ (watch_entry-Stays c.registry sid e) v
session_step-Emptied c (deletes sid) v =
    Stays-Emptied c.registry _ (delete_session-Stays c.registry sid) v
session_step-Emptied c closes_registry v = close-Emptied c.registry v
session_step-Emptied c reap_starts v = v
session_step-Emptied c (reap_inspects now) v = elim (Option-cases c.reaping) [
  | inl e ↦ rw (e, session_step) (Stays-Emptied c.registry _ (inspect_next-Stays c now) v)
  | inr (x, e) ↦ rw (e, session_step) v
]
session_step-Emptied c reap_ends v = Stays-Emptied c.registry _ (end_reap-Stays c) v
session_step-Emptied c (holds_lock e held) v = unfold lock_entry in v
session_step-Emptied c (uses_entry e now) v = unfold mark_used in v
session_step-Emptied c (reports_pct e pct) v = unfold set_ctx_pct in v

pub session_run-Emptied :
    (c : Sessions) (es : List SessionEvent)
    → Emptied c.registry
    → Emptied (session_run c es).registry
unfolding session_run
session_run-Emptied c [] v = v
session_run-Emptied c (e ∷ es) v =
    session_run-Emptied (session_step c e) es (session_step-Emptied c e v)
