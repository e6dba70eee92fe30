-- ===== src/Pool/Respawn.antt =====
-- `respawnSlot` of internal/pool/pool.go in two parts: up to the call of the factory, and from its
-- answer on. `recordSpawnErr`'s own critical section is joined to the one before it.
use otto_gateway.Base.{ℕ, ◌+◌, Bool, true, false, not, ◌&&◌, none, some, if◌then◌else◌, u64}
use otto_gateway.Pool.State.{
  Pool, Cause, lazily, recycling, closes, Task, spawning, respawn_aborted, recycle_respawned,
  opening, Next, go,
}
use otto_gateway.Pool.Slots.{write, call}

-- What Spawn and Initialize answer. The Boolean says that the error is the context's own
-- (cancelled, or its deadline passed); the number names the error.
pub data Spawned : Type 0 where
  spawn_err : Bool → ℕ → Spawned
  initialize_err : ℕ → Bool → ℕ → Spawned
  worker : ℕ → Spawned

abbrev pub is_recycle : Cause → Bool
is_recycle lazily = false
is_recycle (recycling t) = true

unfoldable pub begin_respawn : Pool → ℕ → Cause → Pool × Next
begin_respawn p s cause =
    let slot = p.heap s in
    let p' = write p s (record slot { respawning = true }) in
    (elim slot.client [ none ↦ p' | some c ↦ call p' (closes c) ], go (spawning s cause))

-- `slot.respawning = false`, and `slot.dead = true` on the recycle path.
unfoldable pub clear_respawning : Pool → ℕ → Cause → Pool
clear_respawning p s cause =
    let slot = p.heap s in
    write p s
      (record slot { respawning = false; dead = if is_recycle cause then true else slot.dead })

-- An error that is the caller's own context is not recorded on the lazy path.
unfoldable pub record_spawn_err : Pool → Cause → Bool → ℕ → Pool
record_spawn_err p cause of_context e =
    if not (is_recycle cause) && of_context then p else record p { last_spawn_err = some e }

-- The last critical section, with the new worker.
unfoldable pub install : Pool → ℕ → Cause → ℕ → ℕ → Pool
install p s cause c now =
    let p' = write p s (record (p.heap s) {
      client = some c;
      dead = false;
      respawning = false;
      turns = 0;
      user_requests_since_spawn = 0;
      last_user_release_at = none;
      spawned_at = some now;
    }) in
    if is_recycle cause
    then record p' { recycles = u64 (p.recycles + 1) }
    else record p' { respawns = u64 (p.respawns + 1) }

-- The new state, and whether a new worker serves the slot.
unfoldable pub respawn_slot : Pool → ℕ → Cause → Spawned → ℕ → Pool × Bool
unfolding clear_respawning record_spawn_err install
respawn_slot p s cause (spawn_err of_context e) now =
    (record_spawn_err (clear_respawning p s cause) cause of_context e, false)
respawn_slot p s cause (initialize_err c of_context e) now =
    (record_spawn_err (clear_respawning (call p (closes c)) s cause) cause of_context e, false)
respawn_slot p s cause (worker c) now =
    if p.closed
    then (call (clear_respawning p s cause) (closes c), false)
    else (install p s cause c now, true)

-- Where `respawnSlot` returns to: NewSession, or recycleSlot.
unfoldable pub respawn_returns : ℕ → Cause → Bool → Task
respawn_returns s lazily true = opening s
respawn_returns s lazily false = respawn_aborted s
respawn_returns s (recycling t) ok = recycle_respawned s ok

unfoldable pub finish_respawn : Pool → ℕ → Cause → Spawned → ℕ → Pool × Next
unfolding respawn_slot respawn_returns
finish_respawn p s cause answer now =
    let (p', ok) = respawn_slot p s cause answer now in (p', go (respawn_returns s cause ok))
