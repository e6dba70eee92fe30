-- ===== src/Pool/Holds.antt =====
-- BeginPromptSequence of internal/pool/pool.go: a hold keeps the slot over the end of a prompt.
use otto_gateway.Base.{ℕ, ◌-◌, ◌≡◌, refl, String, true, false, none, some, arith}
use otto_gateway.Pool.State.{Pool, Sequence, new_sequence, go, finish, completing, lookup}
use otto_gateway.Pool.Sequence.{
  begin_prompt_sequence, finish_prompt_sequence, begin_prompt, resolve_sequence,
  resolve_prompt_start, finish_prompt_for_session,
}
use otto_gateway.Pool.Barrier.{Stands, lookup-assign_self, release_session_bound}

begin_sequence_Stands :
    (p : Pool) (sid : String) (s : ℕ)
    → p.closed ≡ false
    → lookup sid p.session_slots ≡ some s
    → lookup sid p.session_sequences ≡ none
    → Stands (begin_prompt_sequence p sid).0 sid s (record new_sequence { holds = 1 })
unfolding begin_prompt_sequence
begin_sequence_Stands p sid s o b n =
    ground (arith, lookup-assign_self sid (record new_sequence { holds = 1 }) p.session_sequences)

module _ (p : Pool) (sid : String) (s : ℕ) (q : Sequence) (st : Stands p sid s q) where
  begin_prompt-Stands : Stands (begin_prompt p sid).0 sid s (record q { prompt_pending = true })
  unfolding begin_prompt
  begin_prompt-Stands = ground (
    arith,
    st.entry,
    st.bound,
    lookup-assign_self sid (record q { prompt_pending = true }) p.session_sequences,
  )

  started_Stands :
      q.cancel_requested ≡ false
      → Stands
          (resolve_prompt_start p sid true).0
          sid
          s
          (record q { prompt_pending = false; prompt_active = true })
  unfolding resolve_prompt_start resolve_sequence
  started_Stands fresh = ground (
    arith,
    st.entry,
    st.bound,
    lookup-assign_self sid (record q { prompt_pending = false; prompt_active = true })
        p.session_sequences,
  )

  held_Stands :
      q.holds ≡ 1
      → ((finish_prompt_for_session p sid).1 ≡ finish)
        × Stands (finish_prompt_for_session p sid).0 sid s (record q { prompt_active = false })
  unfolding finish_prompt_for_session
  held_Stands held = ground (
    arith,
    st.entry,
    st.bound,
    lookup-assign_self sid (record q { prompt_active = false }) p.session_sequences,
  )

  active_Stands :
      q.holds ≡ 1
      → q.prompt_active ≡ true
      → ((finish_prompt_sequence p sid).1 ≡ finish)
        × Stands (finish_prompt_sequence p sid).0 sid s (record q { holds = 0 })
  unfolding finish_prompt_sequence
  active_Stands held active = ground (
    arith,
    st.entry,
    st.bound,
    lookup-assign_self sid (record q { holds = 0 }) p.session_sequences,
    lookup-assign_self sid (record q { holds = q.holds - 1 }) p.session_sequences,
  )

  sequence_releases :
      q.holds ≡ 1
      → q.prompt_pending ≡ false
      → q.prompt_active ≡ false
      → (finish_prompt_sequence p sid).1 ≡ go (completing s)
  unfolding finish_prompt_sequence
  sequence_releases held settled idle =
      ground (arith, st.entry, release_session_bound p sid s st.bound)

  prompt_releases :
      q.holds ≡ 0
      → q.prompt_pending ≡ false
      → q.cancel_requested ≡ false
      → (finish_prompt_for_session p sid).1 ≡ go (completing s)
  unfolding finish_prompt_for_session
  prompt_releases free settled fresh =
      ground (arith, st.entry, release_session_bound p sid s st.bound)

-- In an open pool, on a bound session with no sequence under way: after BeginPromptSequence and the
-- start of a prompt, neither the end of the prompt nor the end of the hold releases the slot by
-- itself. Whichever comes second releases it.
pub hold_defers_release :
    (p : Pool) (sid : String) (s : ℕ)
    → p.closed ≡ false
    → lookup sid p.session_slots ≡ some s
    → lookup sid p.session_sequences ≡ none
    → let held = (begin_prompt_sequence p sid).0 in
      let active = (resolve_prompt_start (begin_prompt held sid).0 sid true).0 in
      ((finish_prompt_for_session active sid).1 ≡ finish)
      × ((finish_prompt_sequence (finish_prompt_for_session active sid).0 sid).1
          ≡ go (completing s))
      × ((finish_prompt_sequence active sid).1 ≡ finish)
      × ((finish_prompt_for_session (finish_prompt_sequence active sid).0 sid).1
          ≡ go (completing s))
hold_defers_release p sid s o b n =
    let held = (begin_prompt_sequence p sid).0 in
    let begun = begin_prompt-Stands held sid s _ (begin_sequence_Stands p sid s o b n) in
    let active = (resolve_prompt_start (begin_prompt held sid).0 sid true).0 in
    let st = started_Stands (begin_prompt held sid).0 sid s _ begun refl in
    let (n1, ended) = held_Stands active sid s _ st refl in
    let (n2, unheld) = active_Stands active sid s _ st refl refl in
    (
      n1,
      sequence_releases (finish_prompt_for_session active sid).0 sid s _ ended refl refl refl,
      n2,
      prompt_releases (finish_prompt_sequence active sid).0 sid s _ unheld refl refl refl,
    )
