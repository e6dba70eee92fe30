-- ===== src/Pool/Machine.antt =====
-- The pool as a transition system: the goroutines that own a slot stand at tasks, and each event
-- lets one of them run its next critical section, or makes a call from outside. The environment
-- chooses the order of events and the answers of the workers, the clock and the factory.
use otto_gateway.Base.{ℕ, zero, suc, String, Bool, Option, none, some, List, [], ◌∷◌}
use otto_gateway.Pool.State.{
  Pool, Task, acquired, checked, opening, respawning, spawning, respawn_aborted, completing,
  releasing, returning, recycle_started, recycle_respawned, recycle_ended, swept, inspecting,
  refreshing, probing, Next, go, fails, opens, finish,
}
use otto_gateway.Pool.Slots.{watch_exit}
use otto_gateway.Pool.Respawn.{Spawned, begin_respawn, finish_respawn}
use otto_gateway.Pool.Release.{
  complete_session_release, release_or_recycle, return_or_recycle, start_recycle, finish_recycle,
  end_recycle,
}
use otto_gateway.Pool.Acquire.{check_closed, check_alive, defer_respawn, finish_open}
use otto_gateway.Pool.Sequence.{
  begin_prompt_sequence, finish_prompt_sequence, begin_prompt, resolve_prompt_start,
  complete_pending_cancel, finish_prompt_for_session, cancel,
}
use otto_gateway.Pool.Idle.{sweep_mark, refresh_mark, inspect_idle_worker, probe_catalog}
use otto_gateway.Pool.Close.{begin_close, mark_closed, close_all}

-- What the world answers to one critical section: each task takes what it asks for.
pub record Answer : Type 0 where
  pub now : ℕ
  pub pid : ℕ
  pub spawned : Spawned
  pub session : Option String

unfoldable pub resume : Pool → Task → Answer → Pool × Next
resume p (acquired s) a = check_closed p s
resume p (checked s) a = check_alive p s
resume p (opening s) a = finish_open p s a.session
resume p (respawning s cause) a = begin_respawn p s cause
resume p (spawning s cause) a = finish_respawn p s cause a.spawned a.now
resume p (respawn_aborted s) a = defer_respawn p s
resume p (completing s) a = complete_session_release p s a.now
resume p (releasing s) a = release_or_recycle p s
resume p (returning s requested) a = return_or_recycle p s requested
resume p (recycle_started s t) a = start_recycle p s t
resume p (recycle_respawned s ok) a = finish_recycle p s ok
resume p recycle_ended a = end_recycle p
resume p (swept s) a = sweep_mark p s
resume p (inspecting s) a = inspect_idle_worker p s a.now a.pid
resume p (refreshing s) a = refresh_mark p s
resume p (probing s) a = probe_catalog p s a.session

pub record System : Type 0 where
  pub pool : Pool
  pub tasks : List Task

-- The goroutine goes on, or is gone.
abbrev pub continue : Next → List Task → List Task
continue (go t) ts = t ∷ ts
continue (fails e) ts = ts
continue (opens sid) ts = ts
continue finish ts = ts

-- Who receives from the channel of free slots.
pub data Receiver : Type 0 where
  new_session idle_sweep catalog_refresh : Receiver

abbrev pub received : Receiver → ℕ → Task
received new_session s = acquired s
received idle_sweep s = swept s
received catalog_refresh s = refreshing s

pub data Event : Type 0 where
  receives : Receiver → Event
  resumes : ℕ → Answer → Event
  begins_sequence ends_sequence begins_prompt finishes_prompt completes_cancel : String → Event
  resolves_prompt : String → Bool → Event
  cancels_session : String → Event
  worker_exits : ℕ → ℕ → Event
  begins_close marks_closed closes_all : Event

-- The task at an index, and the others.
unfoldable pub take_task : List Task → ℕ → Option (Task × List Task)
take_task [] i = none
take_task (t ∷ ts) zero = some (t, ts)
take_task (t ∷ ts) (suc i) = elim (take_task ts i) [ none ↦ none | some (u, us) ↦ some (u, t ∷ us) ]

abbrev pub joined : List Task → Pool × Next → System
joined ts r = record { pool = r.0; tasks = continue r.1 ts }

unfoldable pub receive : System → Receiver → System
receive c r = elim c.pool.slots [
  | [] ↦ c
  | s ∷ rest ↦ record { pool = record (c.pool) { slots = rest }; tasks = received r s ∷ c.tasks }
]

unfoldable pub resume_at : System → ℕ → Answer → System
unfolding take_task
resume_at c i a = elim (take_task c.tasks i) [
  | none ↦ c
  | some (t, ts) ↦ joined ts (resume c.pool t a)
]

unfoldable pub step : System → Event → System
unfolding receive resume_at
step c (receives r) = receive c r
step c (resumes i a) = resume_at c i a
step c (begins_sequence sid) = joined c.tasks (begin_prompt_sequence c.pool sid)
step c (ends_sequence sid) = joined c.tasks (finish_prompt_sequence c.pool sid)
step c (begins_prompt sid) = joined c.tasks (begin_prompt c.pool sid)
step c (finishes_prompt sid) = joined c.tasks (finish_prompt_for_session c.pool sid)
step c (completes_cancel sid) = joined c.tasks (complete_pending_cancel c.pool sid)
step c (resolves_prompt sid ok) = joined c.tasks (resolve_prompt_start c.pool sid ok)
step c (cancels_session sid) =
    let (p', next, follows) = cancel c.pool sid in joined c.tasks (p', next)
step c (worker_exits s watched) = record c { pool = watch_exit c.pool s watched }
step c begins_close = record c { pool = begin_close c.pool }
step c marks_closed = record c { pool = mark_closed c.pool }
step c closes_all = record c { pool = close_all c.pool }

unfoldable pub run : System → List Event → System
unfolding step
run c [] = c
run c (e ∷ es) = run (step c e) es
