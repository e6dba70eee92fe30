-- ===== src/Privacy/Candidates.antt =====
-- The loop over the candidates for a synthetic value, internal/privacy/store.go.
use otto_gateway.Base.{
  ℕ, zero, suc, ◌+◌, ◌≤◌, ◌<◌, ◌%◌, ◌^◌, ◌≡◌, ◌≢◌, ◌∙◌, sym, ap, String, Bool, true, false, Option,
  none, some, Bool-cases, Option-cases, inl, inr, arith,
}
use otto_gateway.Privacy.Store.{candidate_exhausted}
use otto_gateway.Privacy.Entries.{chosen, no_choice, choose, attempts}

plus_zero : (n : ℕ) → n + 0 ≡ n
plus_zero n = omega arith

plus_suc : (m n : ℕ) → suc m + n ≡ m + suc n
plus_suc m n = omega arith

-- Whether an attempt gives a candidate that is in use.
abbrev pub is_taken : (String → Bool) → Option String → Bool
is_taken collides none = false
is_taken collides (some v) = collides v

-- Each of the first attempts gives a candidate that is in use.
abbrev pub AllTaken : (ℕ → Option String) → (String → Bool) → ℕ → ℕ → Type 0
AllTaken candidate collides attempt zero = Unit {0}
AllTaken candidate collides attempt (suc m) =
    (is_taken collides (candidate attempt) ≡ true) × AllTaken candidate collides (suc attempt) m

-- Where the candidate of some attempt within those that are left is free, and no attempt before it
-- fails to give one, the loop ends with the first free candidate and its attempt: that attempt gives
-- the value, the value is not in use, and each attempt before it gives a value in use.
pub choose-ends :
    (candidate : ℕ → Option String) (collides : String → Bool) (left attempt k : ℕ) (v : String)
    → k < left
    → candidate (attempt + k) ≡ some v
    → collides v ≡ false
    → ((j : ℕ) → j < k → candidate (attempt + j) ≢ none)
    → (w : String) × (m : ℕ) × (choose candidate collides left attempt ≡ chosen w (attempt + m))
      × (candidate (attempt + m) ≡ some w)
      × (collides w ≡ false)
      × (m ≤ k)
      × AllTaken candidate collides attempt m
unfolding choose
choose-ends candidate collides zero attempt k v low at free before = absurd (ground arith)
choose-ends candidate collides (suc left) attempt zero v low at free before =
    let here : candidate attempt ≡ some v = sym (ap candidate (plus_zero attempt)) ∙ at in
    (v, 0, ground arith, at, free, omega arith, tt)
choose-ends candidate collides (suc left) attempt (suc k) v low at free before =
    elim (Option-cases (candidate attempt)) [
      | inl e ↦ absurd (before 0 (omega arith) (ap candidate (plus_zero attempt) ∙ e))
      | inr (w, e) ↦ elim (Bool-cases (collides w)) [
        | inr c ↦ (w, 0, ground arith, ap candidate (plus_zero attempt) ∙ e, c, omega arith, tt)
        | inl c ↦
            let (u, m, chose, at_m, f, b, taken) =
              choose-ends candidate collides left (suc attempt) k v (omega arith)
                (ap candidate (plus_suc attempt k) ∙ at) free
                (λ j l h.
                  before (suc j) (omega arith) (sym (ap candidate (plus_suc attempt j)) ∙ h)) in
            let moved : chosen u (suc attempt + m) ≡ chosen u (attempt + suc m) =
              ap (chosen u) (plus_suc attempt m) in
            (
              u,
              suc m,
              ground (arith, chose ∙ moved),
              sym (ap candidate (plus_suc attempt m)) ∙ at_m,
              f,
              omega arith,
              (rw (e, is_taken) c, taken),
            )
      ]
    ]

collides_to_the_end :
    (candidate : ℕ → Option String) (collides : String → Bool) (left attempt : ℕ)
    → ((n : ℕ) → (v : String) × (candidate n ≡ some v) × (collides v ≡ true))
    → choose candidate collides left attempt
      ≡ no_choice candidate_exhausted ((attempt + left) % 2 ^ 32)
unfolding choose
collides_to_the_end candidate collides zero attempt taken =
    ap (λ n. no_choice candidate_exhausted (n % 2 ^ 32)) (sym (plus_zero attempt))
collides_to_the_end candidate collides (suc left) attempt taken =
    let (v, c, t) = taken attempt in
    let rest = collides_to_the_end candidate collides left (suc attempt) taken in
    let same = ap (λ n. no_choice candidate_exhausted (n % 2 ^ 32)) (plus_suc attempt left) in
    ground (arith, rest ∙ same)

-- Where every candidate collides, the loop ends with the error, and the number of collisions that it
-- reports for all 2 ^ 32 attempts is 0.
pub exhausted_wraps :
    (candidate : ℕ → Option String) (collides : String → Bool)
    → ((n : ℕ) → (v : String) × (candidate n ≡ some v) × (collides v ≡ true))
    → choose candidate collides attempts 0 ≡ no_choice candidate_exhausted 0
exhausted_wraps candidate collides taken = collides_to_the_end candidate collides attempts 0 taken
