-- ===== src/Pool/Weights.antt =====
-- What refers to a slot: the channel, the sessions, the goroutines' tasks, and the dropped slots,
-- summed by a weight on slots; and the weight that each helper of internal/pool/pool.go moves.
use otto_gateway.Base.{
  ℕ, ◌+◌, ◌≡◌, String, Option, none, some, List, [], ◌∷◌, arith, sum_of, sum_of-append,
}
use otto_gateway.Pool.State.{
  Pool, Task, Next, go, fails, opens, finish, acquired, checked, opening, respawning, spawning,
  respawn_aborted, completing, releasing, returning, recycle_started, recycle_respawned,
  recycle_ended, swept, inspecting, refreshing, probing, lookup, delete, assign, Cause,
}
use otto_gateway.Pool.Respawn.{Spawned, spawn_err, initialize_err, worker, respawn_slot}
use otto_gateway.Pool.Acquire.{bind_session}
use otto_gateway.Pool.Sequence.{release_session}
use otto_gateway.Pool.Slots.{try_return_slot}
use otto_gateway.Pool.Machine.{System}

-- The slot that a task owns, by its weight.
abbrev pub task_weight : (ℕ → ℕ) → Task → ℕ
task_weight w (acquired s) = w s
task_weight w (checked s) = w s
task_weight w (opening s) = w s
task_weight w (respawning s cause) = w s
task_weight w (spawning s cause) = w s
task_weight w (respawn_aborted s) = w s
task_weight w (completing s) = w s
task_weight w (releasing s) = w s
task_weight w (returning s requested) = w s
task_weight w (recycle_started s t) = w s
task_weight w (recycle_respawned s ok) = w s
task_weight w recycle_ended = 0
task_weight w (swept s) = w s
task_weight w (inspecting s) = w s
task_weight w (refreshing s) = w s
task_weight w (probing s) = w s

abbrev pub next_weight : (ℕ → ℕ) → Next → ℕ
next_weight w (go t) = task_weight w t
next_weight w (fails e) = 0
next_weight w (opens sid) = 0
next_weight w finish = 0

abbrev pub session_weight : (ℕ → ℕ) → String × ℕ → ℕ
session_weight w (sid, s) = w s

-- What the pool itself refers to: free slots, sessions, and the slots that were dropped.
abbrev pub pool_weight : (ℕ → ℕ) → Pool → ℕ
pool_weight w p = sum_of w p.slots + sum_of (session_weight w) p.session_slots + sum_of w p.lost

abbrev pub total : (ℕ → ℕ) → System → ℕ
total w c = pool_weight w c.pool + sum_of (task_weight w) c.tasks

abbrev pub option_weight : (ℕ → ℕ) → Option ℕ → ℕ
option_weight w none = 0
option_weight w (some s) = w s

abbrev pub outcome_weight : (ℕ → ℕ) → Pool × Next → ℕ
outcome_weight w r = pool_weight w r.0 + next_weight w r.1

module _ (w : ℕ → ℕ) where
  -- What `delete` takes out is what `lookup` finds.
  pub delete-weight :
      (k : String) (m : List (String × ℕ))
      → sum_of (session_weight w) (delete k m) + option_weight w (lookup k m)
        ≡ sum_of (session_weight w) m
  unfolding delete lookup
  delete-weight k [] = omega arith
  delete-weight k ((j, v) ∷ m) = ground (arith, delete-weight k m)

  pub try_return_slot-weight :
      (p : Pool) (s : ℕ) → pool_weight w (try_return_slot p s).0 ≡ pool_weight w p + w s
  unfolding try_return_slot
  try_return_slot-weight p s = ground (arith, sum_of-append w p.slots (s ∷ []))

  pub release_session-weight :
      (p : Pool) (sid : String) → outcome_weight w (release_session p sid) ≡ pool_weight w p
  unfolding release_session
  release_session-weight p sid = ground (arith, delete-weight sid p.session_slots)

  pub bind_session-weight :
      (p : Pool) (sid : String) (s : ℕ)
      → pool_weight w (bind_session p sid s) ≡ pool_weight w p + w s
  unfolding bind_session assign
  bind_session-weight p sid s = ground (arith, delete-weight sid p.session_slots)

  pub respawn_slot-weight :
      (p : Pool) (s : ℕ) (cause : Cause) (a : Spawned) (now : ℕ)
      → pool_weight w (respawn_slot p s cause a now).0 ≡ pool_weight w p
  unfolding respawn_slot
  respawn_slot-weight p s cause (spawn_err c e) now = ground arith
  respawn_slot-weight p s cause (initialize_err d c e) now = ground arith
  respawn_slot-weight p s cause (worker c) now = ground arith
