-- ===== src/Pool/Flight.antt =====
-- `recyclesInFlight` of internal/pool/pool.go counts the goroutines that recycle a worker, and is
-- at most 1: two workers are never recycled at once.
use otto_gateway.Base.{
  ℕ, zero, suc, ◌+◌, ◌≤◌, ◌≡◌, String, Bool, true, false, Option, none, some, List, [], ◌∷◌, arith,
  sum_of, Option-cases, inl, inr,
}
use otto_gateway.Pool.State.{
  Pool, Task, Next, go, fails, opens, finish, acquired, checked, opening, respawning, spawning,
  respawn_aborted, completing, releasing, returning, recycle_started, recycle_respawned,
  recycle_ended, swept, inspecting, refreshing, probing, Cause, lazily, recycling, RecycleTrigger,
}
use otto_gateway.Pool.Respawn.{
  Spawned, spawn_err, initialize_err, worker, begin_respawn, finish_respawn,
}
use otto_gateway.Pool.Release.{
  complete_session_release, release_or_recycle, return_or_recycle, start_recycle, finish_recycle,
  end_recycle,
}
use otto_gateway.Pool.Acquire.{check_closed, check_alive, defer_respawn, finish_open}
use otto_gateway.Pool.Idle.{sweep_mark, refresh_mark, inspect_idle_worker, probe_catalog}
use otto_gateway.Pool.Machine.{Answer, resume, System, take_task, joined, resume_at}

-- Whether the task stands in `recycleSlot`.
abbrev pub recycle_count : Task → ℕ
recycle_count (respawning s (recycling t)) = 1
recycle_count (spawning s (recycling t)) = 1
recycle_count (recycle_started s t) = 1
recycle_count (recycle_respawned s ok) = 1
recycle_count recycle_ended = 1
recycle_count _ = 0

abbrev pub next_count : Next → ℕ
next_count (go t) = recycle_count t
next_count _ = 0

-- From `p` to the outcome, the counter moves as the goroutines do, and only from 0 to 1.
pub record Counts (p : Pool) (before : ℕ) (r : Pool × Next) : Type 0 where
  pub moves : r.0.recycles_in_flight + before ≡ p.recycles_in_flight + next_count r.1
  pub capped : p.recycles_in_flight ≤ 1 → r.0.recycles_in_flight ≤ 1

finish_respawn-Counts :
    (p : Pool) (s : ℕ) (cause : Cause) (a : Spawned) (now : ℕ)
    → Counts p (recycle_count (spawning s cause)) (finish_respawn p s cause a now)
unfolding finish_respawn
finish_respawn-Counts p s lazily (spawn_err c e) now = ground arith
finish_respawn-Counts p s lazily (initialize_err d c e) now = ground arith
finish_respawn-Counts p s lazily (worker c) now = ground arith
finish_respawn-Counts p s (recycling t) (spawn_err c e) now = ground arith
finish_respawn-Counts p s (recycling t) (initialize_err d c e) now = ground arith
finish_respawn-Counts p s (recycling t) (worker c) now = ground arith

begin_respawn-Counts :
    (p : Pool) (s : ℕ) (cause : Cause)
    → Counts p (recycle_count (respawning s cause)) (begin_respawn p s cause)
unfolding begin_respawn
begin_respawn-Counts p s lazily = ground arith
begin_respawn-Counts p s (recycling t) = ground arith

return_or_recycle-Counts :
    (p : Pool) (s : ℕ) (requested : Option RecycleTrigger)
    → Counts p 0 (return_or_recycle p s requested)
unfolding return_or_recycle
return_or_recycle-Counts p s none = ground arith
return_or_recycle-Counts p s (some t) = ground arith

finish_open-Counts :
    (p : Pool) (s : ℕ) (session : Option String) → Counts p 0 (finish_open p s session)
unfolding finish_open
finish_open-Counts p s none = ground arith
finish_open-Counts p s (some sid) = ground arith

probe_catalog-Counts :
    (p : Pool) (s : ℕ) (session : Option String) → Counts p 0 (probe_catalog p s session)
unfolding probe_catalog
probe_catalog-Counts p s none = ground arith
probe_catalog-Counts p s (some sid) = ground arith

finish_recycle-Counts : (p : Pool) (s : ℕ) (ok : Bool) → Counts p 1 (finish_recycle p s ok)
unfolding finish_recycle
finish_recycle-Counts p s true = ground arith
finish_recycle-Counts p s false = ground arith

-- A critical section that ends a recycle is run while the counter is not 0.
resume-Counts :
    (p : Pool) (t : Task) (a : Answer)
    → recycle_count t ≤ p.recycles_in_flight
    → Counts p (recycle_count t) (resume p t a)
unfolding resume
resume-Counts p (acquired s) a h = unfold check_closed in ground arith
resume-Counts p (checked s) a h = unfold check_alive in ground arith
resume-Counts p (opening s) a h = finish_open-Counts p s a.session
resume-Counts p (respawning s cause) a h = begin_respawn-Counts p s cause
resume-Counts p (spawning s cause) a h = finish_respawn-Counts p s cause a.spawned a.now
resume-Counts p (respawn_aborted s) a h = unfold defer_respawn in ground arith
resume-Counts p (completing s) a h = unfold complete_session_release in ground arith
resume-Counts p (releasing s) a h = unfold release_or_recycle in ground arith
resume-Counts p (returning s requested) a h = return_or_recycle-Counts p s requested
resume-Counts p (recycle_started s t) a h = unfold start_recycle in ground arith
resume-Counts p (recycle_respawned s ok) a h = finish_recycle-Counts p s ok
resume-Counts p recycle_ended a h = unfold end_recycle in ground arith
resume-Counts p (swept s) a h = unfold sweep_mark in ground arith
resume-Counts p (inspecting s) a h = unfold inspect_idle_worker in ground arith
resume-Counts p (refreshing s) a h = unfold refresh_mark in ground arith
resume-Counts p (probing s) a h = probe_catalog-Counts p s a.session

-- The counter is the number of recycling goroutines, and at most 1.
pub record IsSingleFlight (c : System) : Type 0 where
  pub counted : c.pool.recycles_in_flight ≡ sum_of recycle_count c.tasks
  pub single : c.pool.recycles_in_flight ≤ 1

take_task-count :
    (ts : List Task) (i : ℕ) (t : Task) (us : List Task)
    → take_task ts i ≡ some (t, us)
    → sum_of recycle_count ts ≡ recycle_count t + sum_of recycle_count us
unfolding take_task
take_task-count [] i t us e = cc
take_task-count (x ∷ ts) zero t us e = ground arith
take_task-count (x ∷ ts) (suc i) t us e = elim (Option-cases (take_task ts i)) [
  | inl n ↦ absurd (ground arith)
  | inr ((u, vs), f) ↦ ground (arith, take_task-count ts i u vs f)
]

pub joined-IsSingleFlight :
    (p : Pool) (n : ℕ) (ts : List Task) (r : Pool × Next)
    → Counts p n r
    → p.recycles_in_flight ≡ n + sum_of recycle_count ts
    → p.recycles_in_flight ≤ 1
    → IsSingleFlight (joined ts r)
joined-IsSingleFlight p n ts (q, go t) k e h = omega arith
joined-IsSingleFlight p n ts (q, fails x) k e h = omega arith
joined-IsSingleFlight p n ts (q, opens sid) k e h = omega arith
joined-IsSingleFlight p n ts (q, finish) k e h = omega arith

pub resume_at-IsSingleFlight :
    (c : System) (i : ℕ) (a : Answer) → IsSingleFlight c → IsSingleFlight (resume_at c i a)
unfolding resume_at
resume_at-IsSingleFlight c i a v = elim (Option-cases (take_task c.tasks i)) [
  | inl n ↦ rw (n, resume_at) v
  | inr ((t, us), e) ↦
      let split = take_task-count c.tasks i t us e in
      rw (e, resume_at)
        (joined-IsSingleFlight c.pool (recycle_count t) us (resume c.pool t a)
          (resume-Counts c.pool t a (omega arith)) (omega arith) v.single)
]
