-- ===== src/Pool/Lossless.antt =====
-- Runs of the pool of internal/pool in which the workers never hand out a session id that is still
-- bound: while the pool is open, no slot leaves it.
use otto_gateway.Base.{
  ℕ, ◌+◌, ◌≤◌, ◌≡◌, refl, String, Bool, false, Option, none, some, subst, List, [], ◌∷◌, arith,
  sum_of, length, Option-cases, inl, inr,
}
use otto_gateway.Pool.State.{Pool, Task, acquired, recycle_ended}
use otto_gateway.Pool.Slots.{watch_exit}
use otto_gateway.Pool.Release.{end_recycle}
use otto_gateway.Pool.Sequence.{
  release_session, begin_prompt_sequence, finish_prompt_sequence, begin_prompt,
  resolve_prompt_start, complete_pending_cancel, finish_prompt_for_session, cancel_client,
  cancel_idle, cancel_pending, cancel,
}
use otto_gateway.Pool.Close.{begin_close, mark_closed, close_all}
use otto_gateway.Pool.Machine.{
  Answer, resume, System, Event, receives, resumes, begins_sequence, ends_sequence, begins_prompt,
  finishes_prompt, completes_cancel, resolves_prompt, cancels_session, worker_exits, begins_close,
  marks_closed, closes_all, take_task, receive, resume_at, step, run,
}
use otto_gateway.Pool.Weights.{task_weight, session_weight, total, pool_weight}
use otto_gateway.Pool.Conservation.{take_task-weight}
use otto_gateway.Pool.Exclusive.{step-total, is_slot, holders}
use otto_gateway.Pool.Open.{Keeps, IsFresh, resume-Keeps}

abbrev pub one : ℕ → ℕ
one s = 1

-- All references together fit the channel, and an open pool has dropped nothing.
pub record IsSound (c : System) : Type 0 where
  pub room : total one c ≤ c.pool.cfg.size
  pub kept : c.pool.closed ≡ false → c.pool.closing ≡ false → c.pool.lost ≡ []

length-sum_of : (xs : List ℕ) → length xs ≡ sum_of one xs
length-sum_of [] = refl
length-sum_of (x ∷ xs) = omega (arith, length-sum_of xs)

-- The answer that resumes a task, where it is a worker's answer to NewSession, names no session that
-- is bound: `newSessionInternal` would overwrite that session's slot.
abbrev pub HasFreshAnswer : Pool → Option (Task × List Task) → Answer → Type 0
HasFreshAnswer p none a = Unit {0}
HasFreshAnswer p (some (t, us)) a = IsFresh p t a

abbrev pub IsAdmissible : System → Event → Type 0
IsAdmissible c (resumes i a) = HasFreshAnswer c.pool (take_task c.tasks i) a
IsAdmissible c e = Unit {0}

-- The assumption on the workers: in the run of the events, none of them hands out the id of a session
-- that is still bound.
abbrev pub IsFreshRun : System → List Event → Type 0
IsFreshRun c [] = Unit {0}
IsFreshRun c (e ∷ es) = IsAdmissible c e × IsFreshRun (step c e) es

task_fits :
    (p : Pool) (t : Task) (a : Answer) (rest : ℕ)
    → pool_weight one p + (task_weight one t + rest) ≤ p.cfg.size
    → IsFresh p t a
    → Keeps p (resume p t a).0
task_fits p recycle_ended a rest h f = unfold resume end_recycle in ground arith
task_fits p (acquired s) a rest h f =
    resume-Keeps p (omega (arith, length-sum_of p.slots)) (acquired s) a f
task_fits p t a rest h f = resume-Keeps p (omega (arith, length-sum_of p.slots)) t a f

release_session-Keeps : (p : Pool) (sid : String) → Keeps p (release_session p sid).0
unfolding release_session
release_session-Keeps p sid = ground arith

cancel-Keeps : (p : Pool) (sid : String) → Keeps p (cancel p sid).0
unfolding cancel cancel_idle cancel_pending cancel_client release_session
cancel-Keeps p sid = ground arith

resolve-Keeps : (p : Pool) (sid : String) (ok : Bool) → Keeps p (resolve_prompt_start p sid ok).0
unfolding resolve_prompt_start
resolve-Keeps p sid ok = ground (arith, release_session-Keeps p sid)

resume_at-Keeps :
    (c : System) (i : ℕ) (a : Answer)
    → total one c ≤ c.pool.cfg.size
    → IsAdmissible c (resumes i a)
    → Keeps c.pool (resume_at c i a).pool
unfolding resume_at
resume_at-Keeps c i a room fresh = elim (Option-cases (take_task c.tasks i)) [
  | inl n ↦ rw (n, resume_at) (ground arith)
  | inr ((t, us), e) ↦
      rw (e, resume_at)
        (task_fits c.pool t a (sum_of (task_weight one) us)
          (omega (arith, take_task-weight one c.tasks i t us e))
          (subst (λ o. HasFreshAnswer c.pool o a) e fresh))
]

step-Keeps :
    (c : System) (e : Event)
    → total one c ≤ c.pool.cfg.size
    → IsAdmissible c e
    → Keeps c.pool (step c e).pool
unfolding step
step-Keeps c (receives r) h f = unfold receive in ground arith
step-Keeps c (resumes i a) h f = resume_at-Keeps c i a h f
step-Keeps c (begins_sequence sid) h f = unfold begin_prompt_sequence in ground arith
step-Keeps c (ends_sequence sid) h f =
    unfold finish_prompt_sequence in ground (arith, release_session-Keeps c.pool sid)
step-Keeps c (begins_prompt sid) h f = unfold begin_prompt in ground arith
step-Keeps c (finishes_prompt sid) h f =
    unfold finish_prompt_for_session in ground (arith, release_session-Keeps c.pool sid)
step-Keeps c (completes_cancel sid) h f =
    unfold complete_pending_cancel in ground (arith, release_session-Keeps c.pool sid)
step-Keeps c (resolves_prompt sid ok) h f = resolve-Keeps c.pool sid ok
step-Keeps c (cancels_session sid) h f = cancel-Keeps c.pool sid
step-Keeps c (worker_exits s watched) h f = unfold watch_exit in ground arith
step-Keeps c begins_close h f = unfold begin_close in ground arith
step-Keeps c marks_closed h f = unfold mark_closed in ground arith
step-Keeps c closes_all h f = unfold close_all in ground arith

-- One admissible step keeps the invariant.
pub step-IsSound : (c : System) (e : Event) → IsSound c → IsAdmissible c e → IsSound (step c e)
step-IsSound c e v f =
    let k = step-Keeps c e v.room f in
    record {
      room = omega (arith, step-total one c e, k.size, v.room);
      kept = λ o n. k.kept o n (v.kept (k.open_before o) (k.closing_before n));
    }

run-IsSound : (c : System) (es : List Event) → IsSound c → IsFreshRun c es → IsSound (run c es)
unfolding run
run-IsSound c [] v f = v
run-IsSound c (e ∷ es) v f = run-IsSound (step c e) es (step-IsSound c e v f.0) f.1

run-total : (w : ℕ → ℕ) (c : System) (es : List Event) → total w (run c es) ≡ total w c
unfolding run
run-total w c [] = refl
run-total w c (e ∷ es) = omega (arith, step-total w c e, run-total w (step c e) es)

-- From a sound state on, while the pool is open, and where no worker's answer to NewSession names a
-- session that is still bound (the pool would overwrite that session's slot): every slot that the pool
-- began with is in the channel, bound to a session, or owned by a running goroutine. None is lost.
pub no_slot_lost :
    (c : System) (es : List Event) (s : ℕ)
    → IsSound c
    → IsFreshRun c es
    → (run c es).pool.closed ≡ false
    → (run c es).pool.closing ≡ false
    → sum_of (is_slot s) (run c es).pool.slots
        + sum_of (session_weight (is_slot s)) (run c es).pool.session_slots
        + sum_of (task_weight (is_slot s)) (run c es).tasks
      ≡ holders s c
no_slot_lost c es s v f unclosed running =
    let gone : sum_of (is_slot s) (run c es).pool.lost ≡ 0 =
      rw ((run-IsSound c es v f).kept unclosed running) refl in
    omega (arith, run-total (is_slot s) c es, gone)

-- From a sound state on, while the pool is open, and where no worker's answer to NewSession names a
-- session that is still bound: once no session is bound and no goroutine is under way, the channel
-- holds every slot that the pool began with.
pub quiescent_all_free :
    (c : System) (es : List Event) (s : ℕ)
    → IsSound c
    → IsFreshRun c es
    → (run c es).pool.closed ≡ false
    → (run c es).pool.closing ≡ false
    → (run c es).pool.session_slots ≡ []
    → (run c es).tasks ≡ []
    → sum_of (is_slot s) (run c es).pool.slots ≡ holders s c
quiescent_all_free c es s v f unclosed running idle done =
    let sessions : sum_of (session_weight (is_slot s)) (run c es).pool.session_slots ≡ 0 =
      rw idle refl in
    let tasks : sum_of (task_weight (is_slot s)) (run c es).tasks ≡ 0 = rw done refl in
    omega (arith, no_slot_lost c es s v f unclosed running, sessions, tasks)
