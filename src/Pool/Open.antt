-- ===== src/Pool/Open.antt =====
-- What every critical section of internal/pool leaves alone: the channel's capacity, and, while the
-- pool is open, the slots: none is dropped as long as the channel has room for it.
use otto_gateway.Base.{
  ℕ, suc, ◌≤◌, ◌≡◌, refl, String, Bool, true, false, Option, none, some, [], arith, length,
}
use otto_gateway.Pool.State.{
  Pool, Task, acquired, checked, opening, respawning, spawning, respawn_aborted, completing,
  releasing, returning, recycle_started, recycle_respawned, recycle_ended, swept, inspecting,
  refreshing, probing, Cause, RecycleTrigger, lookup,
}
use otto_gateway.Pool.Respawn.{
  Spawned, spawn_err, initialize_err, worker, begin_respawn, finish_respawn,
}
use otto_gateway.Pool.Release.{
  complete_session_release, release_or_recycle, return_or_recycle, start_recycle, finish_recycle,
  end_recycle,
}
use otto_gateway.Pool.Acquire.{check_closed, check_alive, defer_respawn, finish_open}
use otto_gateway.Pool.Idle.{sweep_mark, refresh_mark, inspect_idle_worker, probe_catalog}
use otto_gateway.Pool.Machine.{Answer, resume}

-- From `p` to `q`: the capacity is the same, nothing reopens, and an open pool drops nothing.
pub record Keeps (p q : Pool) : Type 0 where
  pub size : q.cfg.size ≡ p.cfg.size
  pub open_before : q.closed ≡ false → p.closed ≡ false
  pub closing_before : q.closing ≡ false → p.closing ≡ false
  pub kept : q.closed ≡ false → q.closing ≡ false → p.lost ≡ [] → q.lost ≡ []

-- The answer binds no session id that is bound already.
abbrev pub IsFresh : Pool → Task → Answer → Type 0
IsFresh p (opening s) a = (sid : String) → a.session ≡ some sid → lookup sid p.session_slots ≡ none
IsFresh p t a = Unit {0}

module _ (p : Pool) (room : suc (length p.slots) ≤ p.cfg.size) where
  return_or_recycle-Keeps :
      (s : ℕ) (requested : Option RecycleTrigger) → Keeps p (return_or_recycle p s requested).0
  unfolding return_or_recycle
  return_or_recycle-Keeps s none = ground arith
  return_or_recycle-Keeps s (some t) = ground arith

  finish_recycle-Keeps : (s : ℕ) (ok : Bool) → Keeps p (finish_recycle p s ok).0
  unfolding finish_recycle
  finish_recycle-Keeps s true = ground arith
  finish_recycle-Keeps s false = ground arith

  finish_open-Keeps :
      (s : ℕ) (session : Option String)
      → ((sid : String) → session ≡ some sid → lookup sid p.session_slots ≡ none)
      → Keeps p (finish_open p s session).0
  unfolding finish_open
  finish_open-Keeps s none fresh = ground arith
  finish_open-Keeps s (some sid) fresh = ground (arith, fresh sid refl)

  respawn-Keeps :
      (s : ℕ) (cause : Cause) (a : Spawned) (now : ℕ) → Keeps p (finish_respawn p s cause a now).0
  unfolding finish_respawn
  respawn-Keeps s cause (spawn_err c e) now = ground arith
  respawn-Keeps s cause (initialize_err d c e) now = ground arith
  respawn-Keeps s cause (worker c) now = ground arith

  probe-Keeps : (s : ℕ) (session : Option String) → Keeps p (probe_catalog p s session).0
  unfolding probe_catalog
  probe-Keeps s none = ground arith
  probe-Keeps s (some sid) = ground arith

  -- While the channel has room for the slot of a task, its critical section drops nothing.
  pub resume-Keeps : (t : Task) (a : Answer) → IsFresh p t a → Keeps p (resume p t a).0
  unfolding resume
  resume-Keeps (acquired s) a f = unfold check_closed in ground arith
  resume-Keeps (checked s) a f = unfold check_alive in ground arith
  resume-Keeps (opening s) a f = finish_open-Keeps s a.session f
  resume-Keeps (respawning s cause) a f = unfold begin_respawn in ground arith
  resume-Keeps (spawning s cause) a f = respawn-Keeps s cause a.spawned a.now
  resume-Keeps (respawn_aborted s) a f = unfold defer_respawn in ground arith
  resume-Keeps (completing s) a f = unfold complete_session_release in ground arith
  resume-Keeps (releasing s) a f = unfold release_or_recycle in ground arith
  resume-Keeps (returning s requested) a f = return_or_recycle-Keeps s requested
  resume-Keeps (recycle_started s t) a f = unfold start_recycle in ground arith
  resume-Keeps (recycle_respawned s ok) a f = finish_recycle-Keeps s ok
  resume-Keeps recycle_ended a f = unfold end_recycle in ground arith
  resume-Keeps (swept s) a f = unfold sweep_mark in ground arith
  resume-Keeps (inspecting s) a f = unfold inspect_idle_worker in ground arith
  resume-Keeps (refreshing s) a f = unfold refresh_mark in ground arith
  resume-Keeps (probing s) a f = probe-Keeps s a.session
