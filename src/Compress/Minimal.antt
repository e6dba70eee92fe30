-- ===== src/Compress/Minimal.antt =====
-- Stage four of internal/plugin/compress stops as soon as the transcript is within its budget.
use otto_gateway.Base.{
  ℕ, zero, suc, ◌+◌, ◌-◌, ◌≤◌, ◌<◌, ◌≡◌, refl, ap, ◌⊎◌, inl, inr, some, List, [], ◌∷◌, arith,
  Bool-cases, Option-cases, get_elem?, set, leb, length,
}
use otto_gateway.Compress.Message.{Message, est_message_tokens, est_messages_tokens}
use otto_gateway.Compress.Stages.{Library}
use otto_gateway.Compress.Prune.{replace_text, elide, elision_stub, est_at, prune_loop}

module _ {J S : Type 0} (lib : Library J S) where
  abbrev est : List (Message J) → ℕ
  est ms = est_messages_tokens lib.marshal ms

  est-cons :
      (m : Message J) (ms : List (Message J))
      → est (m ∷ ms) ≡ est_message_tokens lib.marshal m + est ms
  unfolding est_messages_tokens est_message_tokens
  est-cons m ms = ground arith

  est-set :
      (i : ℕ) (m n : Message J) (ms : List (Message J))
      → get_elem? ms i ≡ some m
      → est (set ms i n) + est_message_tokens lib.marshal m
        ≡ est ms + est_message_tokens lib.marshal n
  est-set i m n [] h = ground arith
  est-set zero m n (o ∷ ms) h = ground (arith, est-cons o ms, est-cons n ms)
  est-set (suc i) m n (o ∷ ms) h =
      omega (arith, est-cons o ms, est-cons o (set ms i n), est-set i m n ms h)

  get_elem?-set :
      (i : ℕ) (m n : Message J) (ms : List (Message J))
      → get_elem? ms i ≡ some m
      → get_elem? (set ms i n) i ≡ some n
  get_elem?-set i m n [] h = ground arith
  get_elem?-set zero m n (o ∷ ms) h = refl
  get_elem?-set (suc i) m n (o ∷ ms) h = get_elem?-set i m n ms h

  est-at-le : (i : ℕ) (ms : List (Message J)) → est_at lib i ms ≤ est ms
  est-at-le i [] = omega arith
  est-at-le zero (m ∷ ms) = omega (arith, est-cons m ms)
  est-at-le (suc i) (m ∷ ms) = omega (arith, est-cons m ms, est-at-le i ms)

  -- The running total after an elision is the estimate of the transcript.
  running_total :
      (i : ℕ) (ms : List (Message J))
      → est ms + est_at lib i (elide lib i ms) - est_at lib i ms ≡ est (elide lib i ms)
  unfolding elide
  running_total i ms = elim (Option-cases (get_elem? ms i)) [
    | inl e ↦ ground arith
    | inr (m, e) ↦
        let n = replace_text (elision_stub lib i) m in
        ground (arith, est-set i m n ms e, get_elem?-set i m n ms e, est-at-le i ms)
  ]

  -- The first k candidates of the order, elided.
  abbrev pub elide_first : ℕ → List (S × ℕ) → List (Message J) → List (Message J)
  elide_first zero order ms = ms
  elide_first (suc k) [] ms = ms
  elide_first (suc k) ((s, i) ∷ order) ms = elide_first k order (elide lib i ms)

  -- Before each of the first k elisions the estimate is above the budget.
  abbrev pub OverUpTo : ℕ → ℕ → List (S × ℕ) → List (Message J) → Type 0
  OverUpTo budget zero order ms = Unit {0}
  OverUpTo budget (suc k) [] ms = ⊥
  OverUpTo budget (suc k) ((s, i) ∷ order) ms =
      (budget < est_messages_tokens lib.marshal ms) × OverUpTo budget k order (elide lib i ms)

  -- The first k elisions give the result, and no fewer would do.
  pub record Stops (budget k : ℕ) (order : List (S × ℕ)) (ms ns : List (Message J)) : Type 0 where
    pub result : ns ≡ elide_first k order ms
    pub enough : (est ns ≤ budget) ⊎ (k ≡ length order)
    pub needed : OverUpTo budget k order ms

  Stops-cons :
      (budget k : ℕ) (s : S) (i : ℕ) (order : List (S × ℕ)) (ms ns : List (Message J))
      → budget < est ms
      → Stops budget k order (elide lib i ms) ns
      → Stops budget (suc k) ((s, i) ∷ order) ms ns
  Stops-cons budget k s i order ms ns over r = record {
    result = r.result;
    enough = elim r.enough [ inl small ↦ inl small | inr all ↦ inr (ap suc all) ];
    needed = (over, r.needed);
  }

  -- Stage four, with its running total, elides the candidates in their order up to the first point
  -- where the estimate of the whole transcript is within the budget, or all of them; before each
  -- elision the estimate is above the budget.
  pub prune_loop-Stops :
      (budget : ℕ) (order : List (S × ℕ)) (ms : List (Message J))
      → (k : ℕ) × Stops budget k order ms
          (prune_loop lib budget (est_messages_tokens lib.marshal ms) order ms)
  unfolding prune_loop
  prune_loop-Stops budget [] ms = (0, record { result = refl; enough = inr refl; needed = tt })
  prune_loop-Stops budget ((s, i) ∷ order) ms = elim (Bool-cases (leb (est ms) budget)) [
    | inl within ↦
        (0, rw within (record { result = refl; enough = inl (ground arith); needed = tt }))
    | inr over ↦
        let (k, r) = prune_loop-Stops budget order (elide lib i ms) in
        (
          suc k,
          rw over (rw (running_total i ms) (Stops-cons budget k s i order ms _ (ground arith) r)),
        )
  ]
