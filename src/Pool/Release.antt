-- ===== src/Pool/Release.antt =====
-- The way of a slot back to the channel: completeSessionRelease, releaseOrRecycle, returnOrRecycle
-- and recycleSlot of internal/pool/pool.go, each cut at its critical sections.
use otto_gateway.Base.{ℕ, ◌+◌, ◌-◌, Bool, true, ◌&&◌, Option, none, some, ltb, leb, if◌then◌else◌}
use otto_gateway.Pool.State.{
  Pool, RecycleTrigger, max_turns, recycling, closes, respawning, releasing, returning,
  recycle_started, recycle_ended, Next, go, finish,
}
use otto_gateway.Pool.Slots.{write, call, drop_slot, try_return_slot}

-- `p.cfg.MaxWorkerTurns > 0 && turns >= p.cfg.MaxWorkerTurns`
abbrev pub is_worn : Pool → ℕ → Bool
is_worn p s = ltb 0 p.cfg.max_worker_turns && leb p.cfg.max_worker_turns (p.heap s).turns

abbrev pub max_turns_trigger : Pool → ℕ → RecycleTrigger
max_turns_trigger p s = record {
  reason = max_turns;
  turns = (p.heap s).turns;
  user_requests = (p.heap s).user_requests_since_spawn;
  pid = 0;
  rss_bytes = 0;
  idle = 0;
}

-- `completeSessionRelease` for a slot that was taken out of the session map.
unfoldable pub complete_session_release : Pool → ℕ → ℕ → Pool × Next
complete_session_release p s now =
    (write p s (record (p.heap s) { last_user_release_at = some now }), go (releasing s))

unfoldable pub release_or_recycle : Pool → ℕ → Pool × Next
release_or_recycle p s =
    (p, go (returning s (if is_worn p s then some (max_turns_trigger p s) else none)))

-- The channel send of the release paths, which then return.
unfoldable pub requeue : Pool → ℕ → Pool × Next
unfolding try_return_slot
requeue p s = let (p', sent) = try_return_slot p s in (p', finish)

-- The decision on a trigger; `go (recycle_started …)` is the goroutine that is launched.
unfoldable pub return_triggered : Pool → ℕ → Option RecycleTrigger → Pool × Next
unfolding requeue
return_triggered p s none = requeue p s
return_triggered p s (some t) =
    if ltb 0 p.recycles_in_flight
    then requeue p s
    else (record p { recycles_in_flight = p.recycles_in_flight + 1 }, go (recycle_started s t))

unfoldable pub return_or_recycle : Pool → ℕ → Option RecycleTrigger → Pool × Next
unfolding return_triggered
return_or_recycle p s requested =
    if p.closed
    then (drop_slot p s, finish)
    else return_triggered p s (if is_worn p s then some (max_turns_trigger p s) else requested)

-- recycleSlot up to its call of respawnSlot. The pid is only logged.
unfoldable pub start_recycle : Pool → ℕ → RecycleTrigger → Pool × Next
start_recycle p s t =
    if p.closing then (drop_slot p s, go recycle_ended) else (p, go (respawning s (recycling t)))

-- recycleSlot from respawnSlot's return on, up to its deferred decrement.
unfoldable pub finish_recycle : Pool → ℕ → Bool → Pool × Next
unfolding try_return_slot
finish_recycle p s ok =
    if p.closed
    then (
      drop_slot
          (if ok then (elim (p.heap s).client [ none ↦ p | some c ↦ call p (closes c) ]) else p) s,
      go recycle_ended,
    )
    else let p' = if ok then p else write p s (record (p.heap s) { dead = true }) in
      let (p'', sent) = try_return_slot p' s in (p'', go recycle_ended)

-- The deferred `p.recyclesInFlight--`.
unfoldable pub end_recycle : Pool → Pool × Next
end_recycle p = (record p { recycles_in_flight = p.recycles_in_flight - 1 }, finish)
