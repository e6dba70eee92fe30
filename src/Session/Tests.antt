-- ===== src/Session/Tests.antt =====
-- The registry of internal/session at concrete sequences of events.
use otto_gateway.Base.{◌≤◌, ◌≡◌, refl, true, false, List, [], ◌∷◌, arith, length}
use otto_gateway.Session.Registry.{
  SessionConfig, Registry, new_registry, get, reap_check, starts, opened, create_entry,
  delete_session,
}
use otto_gateway.Session.Machine.{
  Sessions, SessionEvent, gets, spawns_worker, finishes_creation, deletes, closes_registry,
  start_creation, session_run,
}
use otto_gateway.Session.Bounds.{session_run-bound}
use otto_gateway.Session.Handout.{Serves, handout_spared}
use otto_gateway.Session.Evolves.{is_shut}
use otto_gateway.Session.Accounted.{idle_sessions}

abbrev one_session : SessionConfig
one_session = record { max_sessions = 1; ttl = 100; recycle_pct = 80 }

abbrev begun : Sessions
begun = idle_sessions one_session

-- Two sessions ask: the second one is turned away.
abbrev asked : List SessionEvent
asked =
    gets "a" 1
    ∷ spawns_worker 0 (starts 7)
    ∷ finishes_creation 0 (opened "kiro-a") 2
    ∷ gets "b" 3
    ∷ []

abbrev served : Registry
served = (session_run begun asked).registry

session_run-bound_example : length served.entries ≤ 1
unfolding new_registry
session_run-bound_example = session_run-bound begun asked (omega arith)

handout_spared_example :
    Serves served "a" 0 50 (get served "a" 50).0
    × (reap_check (get served "a" 50).0 0 150 ≡ ((get served "a" 50).0, false))
unfolding session_run get new_registry create_entry start_creation
handout_spared_example = handout_spared served "a" 0 50 150 refl (omega arith)

-- Delete takes the entry away while its worker is in its Initialize; the caller's end closes it.
abbrev raced : List SessionEvent
raced = gets "a" 1 ∷ spawns_worker 0 (starts 7) ∷ deletes "a" ∷ []

abbrev raced_ended : List SessionEvent
raced_ended =
    gets "a" 1
    ∷ spawns_worker 0 (starts 7)
    ∷ deletes "a"
    ∷ finishes_creation 0 (opened "kiro-a") 2
    ∷ []

not_yet_closed : is_shut 7 (session_run begun raced).registry.calls ≡ false
unfolding session_run get new_registry create_entry start_creation delete_session
not_yet_closed = refl

closed_in_the_end : is_shut 7 (session_run begun raced_ended).registry.calls ≡ true
unfolding session_run get new_registry create_entry start_creation delete_session
closed_in_the_end = refl

abbrev closing : List SessionEvent
closing =
    gets "a" 1
    ∷ spawns_worker 0 (starts 7)
    ∷ finishes_creation 0 (opened "kiro-a") 2
    ∷ closes_registry
    ∷ []
