-- ===== src/Capture/Reads.antt =====
-- The reads of `Snapshot` round the ring of internal/capture/ring.go.
use native.Mathlib.Nat.{mod-add-mod, mod-eq_of_lt, mod-eq-sub-mod}
use mathlib.Core.Path.{ap₂}
use native.Mathlib.Decide.{dec_lt}
use otto_gateway.Base.{
  ℕ, zero, suc, ◌+◌, ◌-◌, ◌%◌, ◌<◌, ◌≡◌, ◌≢◌, refl, ap, List, [], ◌∷◌, ◌++◌, arith, length,
  length-set, get_or, set, get_or-set_ne,
}
use otto_gateway.Capture.Ring.{Frame, no_frame, read_from}

module _ (buf : List Frame) (start : ℕ) where
  pub length-read_from : (i n : ℕ) → length (read_from buf start i n) ≡ n
  unfolding read_from
  length-read_from i zero = refl
  length-read_from i (suc n) = ap suc (length-read_from (suc i) n)

  -- The last of the frames read.
  pub read_from-suc :
      (i n : ℕ)
      → read_from buf start i (suc n)
        ≡ read_from buf start i n ++ (get_or buf ((start + (i + n)) % length buf) no_frame ∷ [])
  unfolding read_from
  read_from-suc i zero = ground arith
  read_from-suc i (suc n) =
      let e : suc i + n ≡ i + suc n = omega arith in
      ap (◌∷◌ (get_or buf ((start + i) % length buf) no_frame)) (rw (← e) (read_from-suc (suc i) n))

  -- A write at an index that is not read changes nothing.
  pub read_from-set :
      (i n j : ℕ) (f : Frame)
      → ((k : ℕ) → k < n → j ≢ (start + (i + k)) % length buf)
      → read_from (set buf j f) start i n ≡ read_from buf start i n
  unfolding read_from
  read_from-set i zero j f apart = refl
  read_from-set i (suc n) j f apart = rw (length-set buf j f) (
      ap₂ ◌∷◌ (get_or-set_ne buf f no_frame (first (apart 0 (omega arith))))
        (read_from-set (suc i) n j f (λ k h. later k (apart (suc k) (omega arith)))))
    where
      first : j ≢ (start + (i + 0)) % length buf → j ≢ (start + i) % length buf
      first h = let e : i + 0 ≡ i = omega arith in rw e at h

      later :
          (k : ℕ) → j ≢ (start + (i + suc k)) % length buf → j ≢ (start + (suc i + k)) % length buf
      later k h = let e : i + suc k ≡ suc i + k = omega arith in rw e at h

pub read_from_of_ne_zero :
    (buf : List Frame) (start i n : ℕ)
    → n ≢ 0
    → read_from buf start i n
      ≡ get_or buf ((start + i) % length buf) no_frame ∷ read_from buf start (i + 1) (n - 1)
unfolding read_from
read_from_of_ne_zero buf start i zero h = absurd (h refl)
read_from_of_ne_zero buf start i (suc n) h = ground arith

-- Reading from one slot further is reading later.
pub read_from-shift :
    (buf : List Frame) (start i n : ℕ)
    → read_from buf ((start + 1) % length buf) i n ≡ read_from buf start (suc i) n
unfolding read_from
read_from-shift buf start i zero = refl
read_from-shift buf start i (suc n) =
    ap₂ ◌∷◌ (ap (λ k. get_or buf k no_frame) index) (read_from-shift buf start (suc i) n)
  where
    index : ((start + 1) % length buf + i) % length buf ≡ (start + suc i) % length buf
    index = rw mod-add-mod (ap (λ k. k % length buf) (omega arith))

-- Fewer than `m` steps round the ring do not come back to the start.
pub add-mod-ne : (m h k : ℕ) → h < m → suc k < m → h ≢ (h + suc k) % m
add-mod-ne m h k p q = elim (dec_lt (h + suc k) m) [
  | yes inside ↦ omega (arith, mod-eq_of_lt inside)
  | no round ↦ omega (
    arith,
    mod-eq-sub-mod {n = h + suc k} {m = m} (omega arith),
    mod-eq_of_lt {n = h + suc k - m} {m = m} (omega arith),
  )
]

pub full_turn : (m h : ℕ) → h < m → (h + m) % m ≡ h
full_turn m h p = omega (
  arith,
  mod-eq-sub-mod {n = h + m} {m = m} (omega arith),
  mod-eq_of_lt {n = h + m - m} {m = m} (omega arith),
)
