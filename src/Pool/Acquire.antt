-- ===== src/Pool/Acquire.antt =====
-- `NewSession` of internal/pool/pool.go, from the receive on, cut at its critical sections, and the
-- ways in which the wait for a slot ends.
use otto_gateway.Base.{ℕ, ◌+◌, String, true, Option, none, some, if◌then◌else◌, u64}
use otto_gateway.Pool.State.{
  Pool, lazily, cancels, checked, opening, respawning, Err, pool_closed, closed_during_respawn,
  respawn_failed, new_session_failed, pool_exhausted, acquire_cancelled, Next, go, fails, opens,
  lookup, assign,
}
use otto_gateway.Pool.Slots.{write, call, drop_slot, slot_alive, try_return_slot}

-- The `select` of a caller that waits: it ends without a slot by its context, by `closing`, or by
-- the acquire timeout.
pub data Wait : Type 0 where
  cancelled closed timeout : Wait

unfoldable pub wait_error : Wait → Err
wait_error cancelled = acquire_cancelled
wait_error closed = pool_closed
wait_error timeout = pool_exhausted

-- The slot is marked, and dropped if the pool has closed meanwhile.
unfoldable pub check_closed : Pool → ℕ → Pool × Next
check_closed p s =
    let p' = write p s (record (p.heap s) { checked_out = true }) in
    if p.closed then (drop_slot p' s, fails pool_closed) else (p', go (checked s))

unfoldable pub check_alive : Pool → ℕ → Pool × Next
unfolding slot_alive
check_alive p s = if slot_alive p s then (p, go (opening s)) else (p, go (respawning s lazily))

-- Both branches for a failed respawn: the slot goes back dead, to be respawned by its next user.
unfoldable pub defer_respawn : Pool → ℕ → Pool × Next
unfolding try_return_slot
defer_respawn p s =
    if p.closed
    then (drop_slot p s, fails closed_during_respawn)
    else let p' = write p s (record (p.heap s) { dead = true }) in
      let (p'', sent) = try_return_slot p' s in (p'', fails respawn_failed)

-- `p.sessionSlots[sid] = slot`: a slot that the same id named before is forgotten.
unfoldable pub bind_session : Pool → String → ℕ → Pool
unfolding lookup assign
bind_session p sid s =
    let p' = record p { session_slots = assign sid s p.session_slots } in
    elim (lookup sid p.session_slots) [ none ↦ p' | some old ↦ drop_slot p' old ]

-- The worker's answer to NewSession: none for an error.
unfoldable pub finish_open : Pool → ℕ → Option String → Pool × Next
unfolding try_return_slot bind_session
finish_open p s none =
    if p.closed
    then (drop_slot p s, fails new_session_failed)
    else let (p', sent) = try_return_slot p s in (p', fails new_session_failed)
finish_open p s (some sid) =
    if p.closed
    then (
      drop_slot (elim (p.heap s).client [ none ↦ p | some c ↦ call p (cancels c sid) ]) s,
      fails pool_closed,
    )
    else let slot = p.heap s in
      let counted = write p s (record slot {
        turns = slot.turns + 1;
        user_requests_since_spawn = u64 (slot.user_requests_since_spawn + 1);
      }) in
      (bind_session counted sid s, opens sid)
