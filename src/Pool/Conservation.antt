-- ===== src/Pool/Conservation.antt =====
-- Every critical section of the pool moves the slot that it was given to one place, and no other
-- slot: the total of every weight is the same after each step of the machine.
use otto_gateway.Base.{
  ℕ, zero, suc, ◌+◌, ◌≡◌, String, Bool, true, false, Option, none, some, List, [], ◌∷◌, arith,
  sum_of, sum_of-append, Option-cases, inl, inr,
}
use otto_gateway.Pool.State.{
  Pool, Task, Next, go, fails, opens, finish, acquired, checked, opening, respawning, spawning,
  respawn_aborted, completing, releasing, returning, recycle_started, recycle_respawned,
  recycle_ended, swept, inspecting, refreshing, probing, assign, Cause, lazily, recycling,
  RecycleTrigger,
}
use otto_gateway.Pool.Respawn.{Spawned, begin_respawn, finish_respawn}
use otto_gateway.Pool.Release.{
  complete_session_release, release_or_recycle, return_or_recycle, start_recycle, finish_recycle,
  end_recycle,
}
use otto_gateway.Pool.Acquire.{check_closed, check_alive, defer_respawn, finish_open, bind_session}
use otto_gateway.Pool.Sequence.{
  finish_prompt_sequence, resolve_prompt_start, resolve_sequence, complete_pending_cancel,
  finish_prompt_for_session, cancel_client, cancel_pending, cancel_idle, cancel,
}
use otto_gateway.Pool.Idle.{
  sweep_mark, refresh_mark, inspect_idle_worker, probe_catalog, count_probe,
}
use otto_gateway.Pool.Slots.{try_return_slot}
use otto_gateway.Pool.Machine.{
  Answer, resume, System, Receiver, take_task, joined, receive, resume_at,
}
use otto_gateway.Pool.Weights.{
  task_weight, pool_weight, total, outcome_weight, delete-weight, try_return_slot-weight,
  release_session-weight, respawn_slot-weight,
}

module _ (w : ℕ → ℕ) where
  return_or_recycle-weight :
      (p : Pool) (s : ℕ) (requested : Option RecycleTrigger)
      → outcome_weight w (return_or_recycle p s requested) ≡ pool_weight w p + w s
  unfolding return_or_recycle
  return_or_recycle-weight p s none = ground (arith, try_return_slot-weight w p s)
  return_or_recycle-weight p s (some t) = ground (arith, try_return_slot-weight w p s)

  finish_recycle-weight :
      (p : Pool) (s : ℕ) (ok : Bool)
      → outcome_weight w (finish_recycle p s ok) ≡ pool_weight w p + w s
  unfolding finish_recycle try_return_slot
  finish_recycle-weight p s true = ground (arith, sum_of-append w p.slots (s ∷ []))
  finish_recycle-weight p s false = ground (arith, sum_of-append w p.slots (s ∷ []))

  finish_respawn-weight :
      (p : Pool) (s : ℕ) (cause : Cause) (a : Spawned) (now : ℕ)
      → outcome_weight w (finish_respawn p s cause a now) ≡ pool_weight w p + w s
  unfolding finish_respawn
  finish_respawn-weight p s lazily a now = ground (arith, respawn_slot-weight w p s lazily a now)
  finish_respawn-weight p s (recycling t) a now =
      ground (arith, respawn_slot-weight w p s (recycling t) a now)

  defer_respawn-weight :
      (p : Pool) (s : ℕ) → outcome_weight w (defer_respawn p s) ≡ pool_weight w p + w s
  unfolding defer_respawn try_return_slot
  defer_respawn-weight p s = ground (arith, sum_of-append w p.slots (s ∷ []))

  finish_open-weight :
      (p : Pool) (s : ℕ) (session : Option String)
      → outcome_weight w (finish_open p s session) ≡ pool_weight w p + w s
  unfolding finish_open try_return_slot bind_session assign
  finish_open-weight p s none = ground (arith, sum_of-append w p.slots (s ∷ []))
  finish_open-weight p s (some sid) = ground (arith, delete-weight w sid p.session_slots)

  inspect_idle_worker-weight :
      (p : Pool) (s now pid : ℕ)
      → outcome_weight w (inspect_idle_worker p s now pid) ≡ pool_weight w p + w s
  unfolding inspect_idle_worker
  inspect_idle_worker-weight p s now pid = ground arith

  probe_catalog-weight :
      (p : Pool) (s : ℕ) (session : Option String)
      → outcome_weight w (probe_catalog p s session) ≡ pool_weight w p + w s
  unfolding probe_catalog count_probe
  probe_catalog-weight p s none = ground arith
  probe_catalog-weight p s (some sid) = ground arith

  -- A critical section hands on the slot of its task, and keeps all others where they were.
  resume-weight :
      (p : Pool) (t : Task) (a : Answer)
      → outcome_weight w (resume p t a) ≡ pool_weight w p + task_weight w t
  unfolding resume
  resume-weight p (acquired s) a = unfold check_closed in ground arith
  resume-weight p (checked s) a = unfold check_alive in ground arith
  resume-weight p (opening s) a = finish_open-weight p s a.session
  resume-weight p (respawning s cause) a = unfold begin_respawn in ground arith
  resume-weight p (spawning s cause) a = finish_respawn-weight p s cause a.spawned a.now
  resume-weight p (respawn_aborted s) a = defer_respawn-weight p s
  resume-weight p (completing s) a = unfold complete_session_release in ground arith
  resume-weight p (releasing s) a = unfold release_or_recycle in ground arith
  resume-weight p (returning s requested) a = return_or_recycle-weight p s requested
  resume-weight p (recycle_started s t) a = unfold start_recycle in ground arith
  resume-weight p (recycle_respawned s ok) a = finish_recycle-weight p s ok
  resume-weight p recycle_ended a = unfold end_recycle in ground arith
  resume-weight p (swept s) a = unfold sweep_mark in ground arith
  resume-weight p (inspecting s) a = inspect_idle_worker-weight p s a.now a.pid
  resume-weight p (refreshing s) a = unfold refresh_mark in ground arith
  resume-weight p (probing s) a = probe_catalog-weight p s a.session

  cancel_client-weight :
      (p : Pool) (sid : String) → pool_weight w (cancel_client p sid) ≡ pool_weight w p
  unfolding cancel_client
  cancel_client-weight p sid = ground arith

  cancel_idle-weight :
      (p : Pool) (sid : String) → outcome_weight w (cancel_idle p sid) ≡ pool_weight w p
  unfolding cancel_idle
  cancel_idle-weight p sid =
      ground (arith, release_session-weight w (cancel_client p sid) sid, cancel_client-weight p sid)

  pub cancel-weight :
      (p : Pool) (sid : String)
      → let (p', next, follows) = cancel p sid in outcome_weight w (p', next) ≡ pool_weight w p
  unfolding cancel cancel_pending
  cancel-weight p sid = ground (arith, cancel_idle-weight p sid, cancel_client-weight _ sid)

  pub finish_prompt_sequence-weight :
      (p : Pool) (sid : String) → outcome_weight w (finish_prompt_sequence p sid) ≡ pool_weight w p
  unfolding finish_prompt_sequence
  finish_prompt_sequence-weight p sid = ground (arith, release_session-weight w p sid)

  pub finish_prompt_for_session-weight :
      (p : Pool) (sid : String)
      → outcome_weight w (finish_prompt_for_session p sid) ≡ pool_weight w p
  unfolding finish_prompt_for_session
  finish_prompt_for_session-weight p sid = ground (arith, release_session-weight w p sid)

  pub complete_pending_cancel-weight :
      (p : Pool) (sid : String) → outcome_weight w (complete_pending_cancel p sid) ≡ pool_weight w p
  unfolding complete_pending_cancel
  complete_pending_cancel-weight p sid = ground (arith, release_session-weight w p sid)

  pub resolve_prompt_start-weight :
      (p : Pool) (sid : String) (ok : Bool)
      → outcome_weight w (resolve_prompt_start p sid ok) ≡ pool_weight w p
  unfolding resolve_prompt_start resolve_sequence
  resolve_prompt_start-weight p sid ok = ground (arith, release_session-weight w p sid)

  pub take_task-weight :
      (ts : List Task) (i : ℕ) (t : Task) (us : List Task)
      → take_task ts i ≡ some (t, us)
      → sum_of (task_weight w) ts ≡ task_weight w t + sum_of (task_weight w) us
  unfolding take_task
  take_task-weight [] i t us e = cc
  take_task-weight (x ∷ ts) zero t us e = ground arith
  take_task-weight (x ∷ ts) (suc i) t us e = elim (Option-cases (take_task ts i)) [
    | inl n ↦ absurd (ground arith)
    | inr ((u, vs), f) ↦ ground (arith, take_task-weight ts i u vs f)
  ]

  pub joined-weight :
      (ts : List Task) (r : Pool × Next)
      → total w (joined ts r) ≡ outcome_weight w r + sum_of (task_weight w) ts
  joined-weight ts (p, go t) = omega arith
  joined-weight ts (p, fails e) = omega arith
  joined-weight ts (p, opens sid) = omega arith
  joined-weight ts (p, finish) = omega arith

  pub receive-weight : (c : System) (r : Receiver) → total w (receive c r) ≡ total w c
  unfolding receive
  receive-weight c r = ground arith

  pub resume_at-weight : (c : System) (i : ℕ) (a : Answer) → total w (resume_at c i a) ≡ total w c
  unfolding resume_at
  resume_at-weight c i a = elim (Option-cases (take_task c.tasks i)) [
    | inl n ↦ rw (n, resume_at)
    | inr ((t, us), e) ↦
        rw (e, resume_at)
          (omega (
            arith,
            joined-weight us (resume c.pool t a),
            resume-weight c.pool t a,
            take_task-weight c.tasks i t us e,
          ))
  ]
