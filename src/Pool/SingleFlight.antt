-- ===== src/Pool/SingleFlight.antt =====
-- The single flight of recycles over whole runs of internal/pool.
use otto_gateway.Base.{String, Bool, List, [], ◌∷◌, arith}
use otto_gateway.Pool.State.{Pool, Next}
use otto_gateway.Pool.Slots.{watch_exit}
use otto_gateway.Pool.Sequence.{
  release_session, begin_prompt_sequence, finish_prompt_sequence, begin_prompt,
  resolve_prompt_start, complete_pending_cancel, finish_prompt_for_session, cancel_client,
  cancel_idle, cancel_pending, cancel,
}
use otto_gateway.Pool.Close.{begin_close, mark_closed, close_all}
use otto_gateway.Pool.Machine.{
  System, Event, receives, resumes, begins_sequence, ends_sequence, begins_prompt, finishes_prompt,
  completes_cancel, resolves_prompt, cancels_session, worker_exits, begins_close, marks_closed,
  closes_all, joined, receive, step, run,
}
use otto_gateway.Pool.Flight.{
  Counts, IsSingleFlight, joined-IsSingleFlight, resume_at-IsSingleFlight,
}

release_session-Counts : (p : Pool) (sid : String) → Counts p 0 (release_session p sid)
unfolding release_session
release_session-Counts p sid = ground arith

cancel-Counts :
    (p : Pool) (sid : String) → let (p', next, follows) = cancel p sid in Counts p 0 (p', next)
unfolding cancel cancel_idle cancel_pending cancel_client release_session
cancel-Counts p sid = ground arith

resolve-Counts : (p : Pool) (sid : String) (ok : Bool) → Counts p 0 (resolve_prompt_start p sid ok)
unfolding resolve_prompt_start
resolve-Counts p sid ok = ground (arith, release_session-Counts p sid)

outside :
    (c : System) (r : Pool × Next)
    → Counts c.pool 0 r
    → IsSingleFlight c
    → IsSingleFlight (joined c.tasks r)
outside c r k v = joined-IsSingleFlight c.pool 0 c.tasks r k (omega arith) v.single

step-IsSingleFlight : (c : System) (e : Event) → IsSingleFlight c → IsSingleFlight (step c e)
unfolding step
step-IsSingleFlight c (receives r) v = unfold receive in ground arith
step-IsSingleFlight c (resumes i a) v = resume_at-IsSingleFlight c i a v
step-IsSingleFlight c (begins_sequence sid) v = unfold begin_prompt_sequence in ground arith
step-IsSingleFlight c (ends_sequence sid) v =
    outside c _ (unfold finish_prompt_sequence in ground (arith, release_session-Counts c.pool sid))
      v
step-IsSingleFlight c (begins_prompt sid) v = unfold begin_prompt in ground arith
step-IsSingleFlight c (finishes_prompt sid) v =
    outside c _
      (unfold finish_prompt_for_session in ground (arith, release_session-Counts c.pool sid)) v
step-IsSingleFlight c (completes_cancel sid) v =
    outside c _
      (unfold complete_pending_cancel in ground (arith, release_session-Counts c.pool sid)) v
step-IsSingleFlight c (resolves_prompt sid ok) v = outside c _ (resolve-Counts c.pool sid ok) v
step-IsSingleFlight c (cancels_session sid) v = outside c _ (cancel-Counts c.pool sid) v
step-IsSingleFlight c (worker_exits s watched) v = unfold watch_exit in ground arith
step-IsSingleFlight c begins_close v = unfold begin_close in ground arith
step-IsSingleFlight c marks_closed v = unfold mark_closed in ground arith
step-IsSingleFlight c closes_all v = unfold close_all in ground arith

-- Whatever the events, `recyclesInFlight` stays the number of goroutines in recycleSlot, their
-- deferred decrement included, and stays at most 1.
pub run-IsSingleFlight :
    (c : System) (es : List Event) → IsSingleFlight c → IsSingleFlight (run c es)
unfolding run
run-IsSingleFlight c [] v = v
run-IsSingleFlight c (e ∷ es) v = run-IsSingleFlight (step c e) es (step-IsSingleFlight c e v)
