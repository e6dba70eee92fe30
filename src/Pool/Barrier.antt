-- ===== src/Pool/Barrier.antt =====
-- When a session's slot is released (the prompt sequences of internal/pool/pool.go).
use otto_gateway.Base.{ℕ, ◌≡◌, refl, String, Bool, true, false, some, List, arith, eq_iff}
use otto_gateway.Pool.State.{Pool, Sequence, go, finish, completing, lookup, assign}
use otto_gateway.Pool.Sequence.{
  release_session, resolve_sequence, resolve_prompt_start, complete_pending_cancel, cancel_client,
  cancel_pending, cancel, finish_prompt_sequence,
}

pub lookup-assign_self {ℓ} :
    {A : Type ℓ} (k : String) (v : A) (m : List (String × A)) → lookup k (assign k v m) ≡ some v
unfolding lookup assign
lookup-assign_self k v m = ground (arith, eq_iff k k)

-- A bound session whose slot is released: the slot goes to completeSessionRelease, its session and
-- sequence entries are deleted.
pub release_session_bound :
    (p : Pool) (sid : String) (s : ℕ)
    → lookup sid p.session_slots ≡ some s
    → (release_session p sid).1 ≡ go (completing s)
unfolding release_session
release_session_bound p sid s e = ground arith

-- What the steps leave of a session: its slot's binding, and its sequence's entry.
pub record Stands (p : Pool) (sid : String) (s : ℕ) (q : Sequence) : Type 0 where
  pub bound : lookup sid p.session_slots ≡ some s
  pub entry : lookup sid p.session_sequences ≡ some q

module _ (p : Pool) (sid : String) (s : ℕ) (q : Sequence) (st : Stands p sid s q) where
  cancel-Stands :
      q.prompt_pending ≡ true
      → q.cancel_requested ≡ false
      → ((cancel p sid).1 ≡ finish)
        × ((cancel p sid).2 ≡ true)
        × Stands (cancel p sid).0 sid s (record q { holds = 0; cancel_requested = true })
  unfolding cancel cancel_pending cancel_client
  cancel-Stands pending fresh = ground (
    arith,
    st.entry,
    st.bound,
    lookup-assign_self sid (record q { holds = 0; cancel_requested = true }) p.session_sequences,
  )

  complete_Stands :
      q.prompt_pending ≡ true
      → q.cancel_requested ≡ true
      → ((complete_pending_cancel p sid).1 ≡ finish)
        × Stands (complete_pending_cancel p sid).0 sid s (record q { cancel_complete = true })
  unfolding complete_pending_cancel
  complete_Stands pending requested = ground (
    arith,
    st.entry,
    st.bound,
    lookup-assign_self sid (record q { cancel_complete = true }) p.session_sequences,
  )

  complete_releases :
      q.prompt_pending ≡ false
      → q.cancel_requested ≡ true
      → (complete_pending_cancel p sid).1 ≡ go (completing s)
  unfolding complete_pending_cancel
  complete_releases settled requested =
      ground (arith, st.entry, release_session_bound p sid s st.bound)

  resolve_Stands :
      (ok : Bool)
      → q.cancel_requested ≡ true
      → q.cancel_complete ≡ false
      → ((resolve_prompt_start p sid ok).1 ≡ finish)
        × Stands (resolve_prompt_start p sid ok).0 sid s (record q { prompt_pending = false })
  unfolding resolve_prompt_start resolve_sequence
  resolve_Stands ok requested incomplete = ground (
    arith,
    st.entry,
    st.bound,
    lookup-assign_self sid (record q { prompt_pending = false }) p.session_sequences,
  )

  resolve_releases :
      (ok : Bool)
      → q.cancel_requested ≡ true
      → q.cancel_complete ≡ true
      → (resolve_prompt_start p sid ok).1 ≡ go (completing s)
  unfolding resolve_prompt_start resolve_sequence
  resolve_releases ok requested complete =
      ground (arith, st.entry, release_session_bound p sid s st.bound)

  -- The end of a prompt sequence does not ask whether a Cancel is still under way.
  sequence_end_releases :
      q.holds ≡ 0
      → q.prompt_pending ≡ false
      → q.prompt_active ≡ false
      → (finish_prompt_sequence p sid).1 ≡ go (completing s)
  unfolding finish_prompt_sequence
  sequence_end_releases free settled inactive =
      ground (arith, st.entry, release_session_bound p sid s st.bound)

  sequence_end_waits : q.prompt_pending ≡ true → (finish_prompt_sequence p sid).1 ≡ finish
  unfolding finish_prompt_sequence
  sequence_end_waits pending = ground (arith, st.entry)

-- The first Cancel of a bound session whose prompt is pending and not active, and no other call for
-- the session between the ones that are named: Cancel releases nothing itself. If its end comes
-- before the answer to the prompt's start, the end releases nothing, and the answer releases the
-- session's slot, also where the start succeeded. If the answer comes first, it releases nothing, and
-- the end of the Cancel releases the slot. An end of the prompt sequence releases nothing before the
-- answer; after the answer it releases the slot, although the Cancel has not ended.
pub cancel_barrier :
    (p : Pool) (sid : String) (q : Sequence) (s : ℕ) (ok : Bool)
    → lookup sid p.session_sequences ≡ some q
    → q.prompt_pending ≡ true
    → q.prompt_active ≡ false
    → q.cancel_requested ≡ false
    → q.cancel_complete ≡ false
    → lookup sid p.session_slots ≡ some s
    → let (p1, n1, follows) = cancel p sid in
      (n1 ≡ finish)
      × (follows ≡ true)
      × ((complete_pending_cancel p1 sid).1 ≡ finish)
      × ((resolve_prompt_start (complete_pending_cancel p1 sid).0 sid ok).1 ≡ go (completing s))
      × ((resolve_prompt_start p1 sid ok).1 ≡ finish)
      × ((complete_pending_cancel (resolve_prompt_start p1 sid ok).0 sid).1 ≡ go (completing s))
      × ((finish_prompt_sequence p1 sid).1 ≡ finish)
      × ((finish_prompt_sequence (resolve_prompt_start p1 sid ok).0 sid).1 ≡ go (completing s))
cancel_barrier p sid q s ok eq pending inactive fresh incomplete es =
    let st : Stands p sid s q = record { bound = es; entry = eq } in
    let (n, follows, asked) = cancel-Stands p sid s q st pending fresh in
    let (n', ended) = complete_Stands (cancel p sid).0 sid s _ asked pending refl in
    let (n'', answered) = resolve_Stands (cancel p sid).0 sid s _ asked ok refl incomplete in
    (
      n,
      follows,
      n',
      resolve_releases (complete_pending_cancel (cancel p sid).0 sid).0 sid s _ ended ok refl refl,
      n'',
      complete_releases (resolve_prompt_start (cancel p sid).0 sid ok).0 sid s _ answered refl refl,
      sequence_end_waits (cancel p sid).0 sid s _ asked pending,
      sequence_end_releases (resolve_prompt_start (cancel p sid).0 sid ok).0 sid s _ answered refl
          refl inactive,
    )
