-- ===== src/Pool/Sequence.antt =====
-- The prompt sequences of internal/pool/pool.go: BeginPromptSequence, Prompt, Cancel, and what
-- decides when a session's slot is released.
use otto_gateway.Base.{
  ◌+◌, ◌-◌, String, Bool, true, false, not, ◌&&◌, ◌||◌, Option, none, some, is_some, ltb,
  if◌then◌else◌,
}
use otto_gateway.Pool.State.{
  Pool, Sequence, new_sequence, cancels, completing, pool_closed, unknown_session, Next, go, fails,
  finish, lookup, delete, assign,
}
use otto_gateway.Pool.Slots.{call}

abbrev pub set_sequence : Pool → String → Sequence → Pool
set_sequence p sid q = record p { session_sequences = assign sid q p.session_sequences }

-- `delete(p.sessionSequences, sid)`, takeSessionSlotLocked and the release of what it gave.
unfoldable pub release_session : Pool → String → Pool × Next
unfolding lookup delete
release_session p sid =
    let p' = record p { session_sequences = delete sid p.session_sequences } in
    elim (lookup sid p.session_slots) [
      | none ↦ (p', finish)
      | some s ↦ (record p' { session_slots = delete sid p.session_slots }, go (completing s))
    ]

abbrev pub sequence_or_new : Option Sequence → Sequence
sequence_or_new none = new_sequence
sequence_or_new (some q) = q

unfoldable pub begin_prompt_sequence : Pool → String → Pool × Next
unfolding lookup assign
begin_prompt_sequence p sid =
    if p.closed
    then (p, fails pool_closed)
    else if is_some (lookup sid p.session_slots)
    then (let q = sequence_or_new (lookup sid p.session_sequences) in
        (set_sequence p sid (record q { holds = q.holds + 1 }), finish))
    else (p, fails unknown_session)

-- `holds--` above 0 only, as ℕ's subtraction does.
unfoldable pub finish_prompt_sequence : Pool → String → Pool × Next
unfolding lookup assign release_session
finish_prompt_sequence p sid = elim (lookup sid p.session_sequences) [
  | none ↦ (p, finish)
  | some q ↦
      let q' = record q { holds = q.holds - 1 } in
      if ltb 0 q'.holds || q'.prompt_pending || q'.prompt_active
      then (set_sequence p sid q', finish)
      else release_session p sid
]

-- Prompt up to its call of the worker; the answer comes back by `resolve_prompt_start`.
unfoldable pub begin_prompt : Pool → String → Pool × Next
unfolding lookup assign
begin_prompt p sid =
    if is_some (lookup sid p.session_slots)
    then (let q = sequence_or_new (lookup sid p.session_sequences) in
        (set_sequence p sid (record q { prompt_pending = true }), finish))
    else (p, fails unknown_session)

unfoldable pub resolve_sequence : Pool → String → Bool → Sequence → Pool × Next
unfolding assign release_session
resolve_sequence p sid succeeded q =
    let settled = record q { prompt_pending = false } in
    if q.cancel_requested && not q.cancel_complete
    then (set_sequence p sid settled, finish)
    else if succeeded && not q.cancel_requested
    then (set_sequence p sid (record settled { prompt_active = true }), finish)
    else if ltb 0 q.holds && not q.cancel_requested
    then (set_sequence p sid settled, finish)
    else release_session p sid

unfoldable pub resolve_prompt_start : Pool → String → Bool → Pool × Next
unfolding lookup resolve_sequence
resolve_prompt_start p sid succeeded = elim (lookup sid p.session_sequences) [
  | none ↦ (p, finish)
  | some q ↦ resolve_sequence p sid succeeded q
]

unfoldable pub complete_pending_cancel : Pool → String → Pool × Next
unfolding lookup assign release_session
complete_pending_cancel p sid = elim (lookup sid p.session_sequences) [
  | none ↦ (p, finish)
  | some q ↦
      if not q.cancel_requested
      then (p, finish)
      else if q.prompt_pending
      then (set_sequence p sid (record q { cancel_complete = true }), finish)
      else release_session p sid
]

unfoldable pub finish_prompt_for_session : Pool → String → Pool × Next
unfolding lookup assign release_session
finish_prompt_for_session p sid = elim (lookup sid p.session_sequences) [
  | none ↦ release_session p sid
  | some q ↦
      let q' = record q { prompt_active = false } in
      if ltb 0 q'.holds || q'.prompt_pending || (q'.cancel_requested && not q'.cancel_complete)
      then (set_sequence p sid q', finish)
      else release_session p sid
]

-- `client.Cancel(sid)` on the worker of the session's slot, if there is one.
unfoldable pub cancel_client : Pool → String → Pool
unfolding lookup
cancel_client p sid = elim (lookup sid p.session_slots) [
  | none ↦ p
  | some s ↦ elim (p.heap s).client [ none ↦ p | some c ↦ call p (cancels c sid) ]
]

-- Cancel of a pending prompt, up to its call of completePendingCancel. The Boolean says that the
-- call follows: the first Cancel makes it, a repeated one does not.
unfoldable pub cancel_pending : Pool → String → Sequence → Pool × Bool
unfolding assign cancel_client
cancel_pending p sid q =
    let p' = set_sequence p sid (record q { holds = 0; cancel_requested = true }) in
    if q.cancel_requested then (p', false) else (cancel_client p' sid, true)

-- Cancel with no prompt pending: the worker is told, and the slot released.
unfoldable pub cancel_idle : Pool → String → Pool × Next
unfolding release_session cancel_client
cancel_idle p sid = release_session (cancel_client p sid) sid

unfoldable pub cancel : Pool → String → Pool × Next × Bool
unfolding lookup cancel_pending cancel_idle
cancel p sid = elim (lookup sid p.session_sequences) [
  | none ↦ let (p', next) = cancel_idle p sid in (p', next, false)
  | some q ↦
      if q.prompt_pending
      then (let (p', follows) = cancel_pending p sid q in (p', finish, follows))
      else (let (p', next) = cancel_idle p sid in (p', next, false))
]
