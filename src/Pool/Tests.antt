-- ===== src/Pool/Tests.antt =====
-- The pool of internal/pool at concrete configurations, answers and events.
use otto_gateway.Base.{
  ℕ, ◌+◌, ◌≡◌, refl, String, true, false, none, some, List, [], ◌∷◌, arith, sum_of,
}
use otto_gateway.Pool.State.{Config, Pool, Sequence, go, finish, completing, lookup}
use otto_gateway.Pool.Respawn.{worker}
use otto_gateway.Pool.Release.{release_or_recycle, return_or_recycle, complete_session_release}
use otto_gateway.Pool.Acquire.{check_closed, check_alive, finish_open}
use otto_gateway.Pool.Sequence.{
  begin_prompt_sequence, finish_prompt_sequence, begin_prompt, resolve_prompt_start,
  complete_pending_cancel, finish_prompt_for_session, cancel,
}
use otto_gateway.Pool.Machine.{
  Answer, System, Event, receives, new_session, resumes, begins_sequence, ends_sequence, resume,
  run, step,
}
use otto_gateway.Pool.Weights.{task_weight, session_weight}
use otto_gateway.Pool.Exclusive.{is_slot, holders, lease_exclusive}
use otto_gateway.Pool.Lossless.{IsSound, IsFreshRun, no_slot_lost, quiescent_all_free}
use otto_gateway.Pool.SingleFlight.{run-IsSingleFlight}
use otto_gateway.Pool.Flight.{IsSingleFlight}
use otto_gateway.Pool.Barrier.{cancel_barrier}
use otto_gateway.Pool.Holds.{hold_defers_release}
use otto_gateway.Pool.Warmup.{WarmAnswer, warmup, apply_defaults}
use otto_gateway.Pool.Ready.{warmed, warmup-IsSound, session_workers_distinct}

-- Two workers, recycled after two turns.
abbrev two_workers : Config
two_workers = record {
  size = 2;
  max_worker_turns = 2;
  idle_recycle_after = 0;
  idle_recycle_memory_bytes = 0;
  worker_memory_supported = false;
  read_worker_memory = none;
}

abbrev all_well : ℕ → WarmAnswer
all_well i = record {
  label = "slot";
  now = 10 + i;
  spawned = worker (100 + i);
  probes = some ("probe", true) ∷ [];
  respawned = worker (200 + i);
}

abbrev answers : String → Answer
answers sid = record { now = 50; pid = 7; spawned = worker 300; session = some sid }

warmup_two : (warmup two_workers all_well).1 ≡ true
unfolding warmup
warmup_two = refl

warmup-IsSound_example :
    IsSound (warmed two_workers all_well)
    × IsSingleFlight (warmed two_workers all_well)
    × (holders 1 (warmed two_workers all_well) ≡ 1)
unfolding apply_defaults
warmup-IsSound_example = warmup-IsSound two_workers all_well 1 warmup_two

-- Two callers take a slot each and open their sessions.
abbrev two_sessions : List Event
two_sessions =
    receives new_session
    ∷ resumes 0 (answers "a")
    ∷ resumes 0 (answers "a")
    ∷ resumes 0 (answers "a")
    ∷ receives new_session
    ∷ resumes 0 (answers "b")
    ∷ resumes 0 (answers "b")
    ∷ resumes 0 (answers "b")
    ∷ []

second_session :
    lookup "b" (run (warmed two_workers all_well) two_sessions).pool.session_slots ≡ some 1
unfolding warmup run resume lookup check_closed check_alive finish_open
second_session = refl

abbrev busy : System
busy = run (warmed two_workers all_well) two_sessions

lease_exclusive_example :
    (sum_of (is_slot 1) busy.pool.slots ≡ 0)
    × (sum_of (task_weight (is_slot 1)) busy.tasks ≡ 0)
    × (sum_of (is_slot 1) busy.pool.lost ≡ 0)
unfolding apply_defaults
lease_exclusive_example =
    lease_exclusive (warmed two_workers all_well) two_sessions 1 "b"
      (omega (arith, (warmup-IsSound two_workers all_well 1 warmup_two).2)) second_session

session_workers_distinct_example : ◌≡◌ {A = String} "b" "b"
session_workers_distinct_example =
    session_workers_distinct two_workers all_well two_sessions 1 "b" "b" warmup_two second_session
      second_session

run-IsSingleFlight_example : IsSingleFlight busy
run-IsSingleFlight_example =
    run-IsSingleFlight (warmed two_workers all_well) two_sessions warmup-IsSound_example.1

-- The same workers, recycled after three turns.
abbrev lasting : Config
lasting = record two_workers { max_worker_turns = 3 }

abbrev warm : System
warm = warmed lasting all_well

warmup_well : (warmup lasting all_well).1 ≡ true
unfolding warmup
warmup_well = refl

warm-IsSound : IsSound warm
unfolding apply_defaults
warm-IsSound = (warmup-IsSound lasting all_well 0 warmup_well).0

-- A caller opens a session, its only prompt sequence ends, and its slot goes back to the channel.
abbrev opened_and_released : List Event
opened_and_released =
    receives new_session
    ∷ resumes 0 (answers "a")
    ∷ resumes 0 (answers "a")
    ∷ resumes 0 (answers "a")
    ∷ begins_sequence "a"
    ∷ ends_sequence "a"
    ∷ resumes 0 (answers "a")
    ∷ resumes 0 (answers "a")
    ∷ resumes 0 (answers "a")
    ∷ []

abbrev opened_only : List Event
opened_only =
    receives new_session
    ∷ resumes 0 (answers "a")
    ∷ resumes 0 (answers "a")
    ∷ resumes 0 (answers "a")
    ∷ []

bound_then : lookup "a" (run warm opened_only).pool.session_slots ≡ some 0
unfolding warmup run resume lookup check_closed check_alive finish_open
bound_then = refl

opened-IsFreshRun : IsFreshRun warm opened_and_released
unfolding warmup step resume lookup check_closed check_alive finish_open begin_prompt_sequence
    finish_prompt_sequence return_or_recycle release_or_recycle complete_session_release
opened-IsFreshRun = (tt, (tt, (tt, ((λ sid h. refl), (tt, (tt, (tt, (tt, (tt, tt)))))))))

quiescent_all_free_example :
    sum_of (is_slot 0) (run warm opened_and_released).pool.slots ≡ holders 0 warm
unfolding warmup run resume lookup check_closed check_alive finish_open begin_prompt_sequence
    finish_prompt_sequence return_or_recycle release_or_recycle complete_session_release
quiescent_all_free_example =
    quiescent_all_free warm opened_and_released 0 warm-IsSound opened-IsFreshRun refl refl refl refl

no_slot_lost_example :
    sum_of (is_slot 0) (run warm opened_and_released).pool.slots
      + sum_of (session_weight (is_slot 0)) (run warm opened_and_released).pool.session_slots
      + sum_of (task_weight (is_slot 0)) (run warm opened_and_released).tasks
    ≡ holders 0 warm
unfolding warmup run resume lookup check_closed check_alive finish_open begin_prompt_sequence
    finish_prompt_sequence return_or_recycle release_or_recycle complete_session_release
no_slot_lost_example =
    no_slot_lost warm opened_and_released 0 warm-IsSound opened-IsFreshRun refl refl

-- A session whose prompt is pending, and the same with no sequence.
abbrev pending : Sequence
pending = record {
  holds = 1;
  prompt_pending = true;
  prompt_active = false;
  cancel_requested = false;
  cancel_complete = false;
}

abbrev prompting : Pool
prompting = record (busy.pool) { session_sequences = ("b", pending) ∷ [] }

cancel_barrier_example :
    let (p1, n1, follows) = cancel prompting "b" in
    (n1 ≡ finish)
    × (follows ≡ true)
    × ((complete_pending_cancel p1 "b").1 ≡ finish)
    × ((resolve_prompt_start (complete_pending_cancel p1 "b").0 "b" true).1 ≡ go (completing 1))
    × ((resolve_prompt_start p1 "b" true).1 ≡ finish)
    × ((complete_pending_cancel (resolve_prompt_start p1 "b" true).0 "b").1 ≡ go (completing 1))
    × ((finish_prompt_sequence p1 "b").1 ≡ finish)
    × ((finish_prompt_sequence (resolve_prompt_start p1 "b" true).0 "b").1 ≡ go (completing 1))
unfolding lookup
cancel_barrier_example =
    cancel_barrier prompting "b" pending 1 true refl refl refl refl refl second_session

hold_defers_release_example :
    let held = (begin_prompt_sequence busy.pool "b").0 in
    let active = (resolve_prompt_start (begin_prompt held "b").0 "b" true).0 in
    (finish_prompt_sequence (finish_prompt_for_session active "b").0 "b").1 ≡ go (completing 1)
unfolding warmup run resume lookup check_closed check_alive finish_open
hold_defers_release_example = (hold_defers_release busy.pool "b" 1 refl second_session refl).1
