-- ===== src/Pool/Close.antt =====
-- `Close` and `closeAll` of internal/pool/pool.go.
use otto_gateway.Base.{ℕ, String, true, none, some, List, [], ◌∷◌}
use otto_gateway.Pool.State.{Pool, ClientCall, cancels, closes}

-- Close's first two steps: `close(p.closing)`, and the flag under the lock.
unfoldable pub begin_close : Pool → Pool
begin_close p = record p { closing = true }

unfoldable pub mark_closed : Pool → Pool
mark_closed p = record p { closed = true }

-- The workers of the slots in `all`, in their order.
unfoldable pub close_targets : Pool → List ℕ → List ℕ
close_targets p [] = []
close_targets p (s ∷ ss) =
    let rest = close_targets p ss in elim (p.heap s).client [ none ↦ rest | some c ↦ c ∷ rest ]

-- A Cancel for each session in flight. (Go visits a map in any order; the model in the list's.)
unfoldable pub cancel_inflight : Pool → List (String × ℕ) → List ClientCall
cancel_inflight p [] = []
cancel_inflight p ((sid, s) ∷ m) =
    let rest = cancel_inflight p m in
    elim (p.heap s).client [ none ↦ rest | some c ↦ cancels c sid ∷ rest ]

-- `push_all cs log` makes the calls `cs` in turn; the log has the newest first.
unfoldable pub push_all : List ClientCall → List ClientCall → List ClientCall
push_all [] log = log
push_all (c ∷ cs) log = push_all cs (c ∷ log)

-- The workers are closed in the order opposite to that of `all`: closing the list's tail first.
unfoldable pub close_reversed : List ℕ → List ClientCall → List ClientCall
close_reversed [] log = log
close_reversed (c ∷ cs) log = closes c ∷ close_reversed cs log

unfoldable pub close_all : Pool → Pool
unfolding close_targets cancel_inflight push_all close_reversed
close_all p = record p {
  all = [];
  closed = true;
  session_sequences = [];
  calls =
      close_reversed (close_targets p p.all) (push_all (cancel_inflight p p.session_slots) p.calls);
}
