-- ===== src/Pool/Exclusive.antt =====
-- Ownership of slots over whole runs of internal/pool: no step of any goroutine duplicates a slot,
-- forgets one while the pool is open, or lets two sessions share a worker.
use otto_gateway.Base.{
  ℕ, ◌+◌, ◌≤◌, ◌≡◌, refl, ◌∙◌, String, some, ◌⊎◌, inl, inr, List, [], ◌∷◌, arith, sum_of, ◌==◌,
  if◌then◌else◌, eq_iff,
}
use otto_gateway.Pool.State.{lookup}
use otto_gateway.Pool.Slots.{watch_exit}
use otto_gateway.Pool.Sequence.{begin_prompt_sequence, begin_prompt, cancel}
use otto_gateway.Pool.Close.{begin_close, mark_closed, close_all}
use otto_gateway.Pool.Machine.{
  System, Event, receives, resumes, begins_sequence, ends_sequence, begins_prompt, finishes_prompt,
  completes_cancel, resolves_prompt, cancels_session, worker_exits, begins_close, marks_closed,
  closes_all, step, run,
}
use otto_gateway.Pool.Weights.{task_weight, session_weight, total}
use otto_gateway.Pool.Conservation.{
  joined-weight, receive-weight, resume_at-weight, cancel-weight, finish_prompt_sequence-weight,
  finish_prompt_for_session-weight, complete_pending_cancel-weight, resolve_prompt_start-weight,
}

-- One step keeps the total of every weight.
pub step-total : (w : ℕ → ℕ) (c : System) (e : Event) → total w (step c e) ≡ total w c
unfolding step
step-total w c (receives r) = receive-weight w c r
step-total w c (resumes i a) = resume_at-weight w c i a
step-total w c (begins_sequence sid) = unfold begin_prompt_sequence in ground arith
step-total w c (ends_sequence sid) =
    omega (arith, joined-weight w c.tasks _, finish_prompt_sequence-weight w c.pool sid)
step-total w c (begins_prompt sid) = unfold begin_prompt in ground arith
step-total w c (finishes_prompt sid) =
    omega (arith, joined-weight w c.tasks _, finish_prompt_for_session-weight w c.pool sid)
step-total w c (completes_cancel sid) =
    omega (arith, joined-weight w c.tasks _, complete_pending_cancel-weight w c.pool sid)
step-total w c (resolves_prompt sid ok) =
    omega (arith, joined-weight w c.tasks _, resolve_prompt_start-weight w c.pool sid ok)
step-total w c (cancels_session sid) = omega (
  arith,
  joined-weight w c.tasks ((cancel c.pool sid).0, (cancel c.pool sid).1),
  cancel-weight w c.pool sid,
)
step-total w c (worker_exits s watched) = unfold watch_exit in ground arith
step-total w c begins_close = unfold begin_close in ground arith
step-total w c marks_closed = unfold mark_closed in ground arith
step-total w c closes_all = unfold close_all in ground arith

pub run-total : (w : ℕ → ℕ) (c : System) (es : List Event) → total w (run c es) ≡ total w c
unfolding run
run-total w c [] = refl
run-total w c (e ∷ es) = run-total w (step c e) es ∙ step-total w c e

-- How many places refer to the slot `s`: the channel, the sessions, the tasks of goroutines, and
-- the dropped slots.
abbrev pub is_slot : ℕ → ℕ → ℕ
is_slot s i = if i == s then 1 else 0

abbrev pub holders : ℕ → System → ℕ
holders s = total (is_slot s)

lookup-weight :
    (w : ℕ → ℕ) (k : String) (m : List (String × ℕ)) (s : ℕ)
    → lookup k m ≡ some s
    → w s ≤ sum_of (session_weight w) m
unfolding lookup
lookup-weight w k [] s e = absurd (ground arith)
lookup-weight w k ((j, v) ∷ m) s e = ground (arith, lookup-weight w k m s)

-- Two ids that are bound to one slot count twice.
lookup_twice :
    (w : ℕ → ℕ) (k j : String) (m : List (String × ℕ)) (s : ℕ)
    → lookup k m ≡ some s
    → lookup j m ≡ some s
    → (k ≡ j) ⊎ (w s + w s ≤ sum_of (session_weight w) m)
unfolding lookup
lookup_twice w k j [] s e f = absurd (ground arith)
lookup_twice w k j ((i, v) ∷ m) s e f = ground (
  arith,
  eq_iff i k,
  eq_iff i j,
  lookup_twice w k j m s,
  lookup-weight w k m s,
  lookup-weight w j m s,
)

is_slot_self : (s : ℕ) → is_slot s s ≡ 1
is_slot_self s = ground arith

-- After any run from a state in which the slot is in one place at most: a slot that a session is
-- bound to is not in the channel of free slots, no goroutine owns it, and it was not dropped.
pub lease_exclusive :
    (c : System) (es : List Event) (s : ℕ) (sid : String)
    → holders s c ≤ 1
    → lookup sid (run c es).pool.session_slots ≡ some s
    → (sum_of (is_slot s) (run c es).pool.slots ≡ 0)
      × (sum_of (task_weight (is_slot s)) (run c es).tasks ≡ 0)
      × (sum_of (is_slot s) (run c es).pool.lost ≡ 0)
lease_exclusive c es s sid h e =
    omega (arith, run-total (is_slot s) c es, is_slot_self s, lookup-weight (is_slot s) sid _ s e)

-- After any run from a state in which the slot is in one place at most: two sessions that are bound
-- to it are the same session.
pub lease_unique :
    (c : System) (es : List Event) (s : ℕ) (sid other : String)
    → holders s c ≤ 1
    → lookup sid (run c es).pool.session_slots ≡ some s
    → lookup other (run c es).pool.session_slots ≡ some s
    → sid ≡ other
lease_unique c es s sid other h e f =
    elim (lookup_twice (is_slot s) sid other (run c es).pool.session_slots s e f) [
      | inl same ↦ same
      | inr twice ↦ absurd (omega (arith, run-total (is_slot s) c es, is_slot_self s))
    ]
