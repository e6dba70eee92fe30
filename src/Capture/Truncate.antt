-- ===== src/Capture/Truncate.antt =====
-- `truncateUTF8` of internal/capture/ring.go, over the bytes of a text.
use otto_gateway.Base.{
  ℕ, zero, suc, ◌≤◌, ◌<◌, ◌≡◌, refl, ◌⊎◌, inl, inr, Bool, true, false, not, ◌&&◌, List, arith,
  length, take, get_or, leb, ltb, Bool-cases, length-take-le, if◌then◌else◌,
}

-- `utf8.RuneStart`: every byte but 10xxxxxx.
unfoldable pub rune_start : ℕ → Bool
rune_start b = not (leb 128 b && ltb b 192)

-- `for n > 0 && !utf8.RuneStart(s[n]) { n-- }`
unfoldable pub cut_point : List ℕ → ℕ → ℕ
cut_point s zero = zero
cut_point s (suc n) =
    let rest = cut_point s n in if rune_start (get_or s (suc n) 0) then suc n else rest

unfoldable pub truncate_utf8 : List ℕ → ℕ → List ℕ
unfolding cut_point
truncate_utf8 s max_len = if leb (length s) max_len then s else take (cut_point s max_len) s

cut_point-le : (s : List ℕ) (n : ℕ) → cut_point s n ≤ n
unfolding cut_point
cut_point-le s zero = omega arith
cut_point-le s (suc n) = ground (arith, cut_point-le s n)

cut_point_start :
    (s : List ℕ) (n : ℕ) → (cut_point s n ≡ 0) ⊎ (rune_start (get_or s (cut_point s n) 0) ≡ true)
unfolding cut_point
cut_point_start s zero = inl refl
cut_point_start s (suc n) = elim (Bool-cases (rune_start (get_or s (suc n) 0))) [
  | inl starts ↦ inr (rw (starts, cut_point) starts)
  | inr inner ↦ rw (inner, cut_point) (cut_point_start s n)
]

cut_point_maximal :
    (s : List ℕ) (n k : ℕ) → cut_point s n < k → k ≤ n → rune_start (get_or s k 0) ≡ false
unfolding cut_point
cut_point_maximal s zero k h l = absurd (omega arith)
cut_point_maximal s (suc n) k h l = elim (Bool-cases (rune_start (get_or s (suc n) 0))) [
  | inl starts ↦ absurd (ground (arith, starts))
  | inr inner ↦ elim (Bool-cases (leb k n)) [
    | inl below ↦ cut_point_maximal s n k (ground (arith, inner)) (ground arith)
    | inr last ↦ let e : k ≡ suc n = ground (arith, last) in rw e inner
  ]
]

-- A text over the limit is cut at a length within it that is 0 or the start of a rune, and no later
-- rune starts up to the limit: the cut splits no rune, and keeps all that fit.
pub truncate_utf8_cut :
    (s : List ℕ) (max_len k : ℕ)
    → max_len < length s
    → k ≤ max_len
    → (n : ℕ) × (truncate_utf8 s max_len ≡ take n s)
      × (n ≤ max_len)
      × ((n ≡ 0) ⊎ (rune_start (get_or s n 0) ≡ true))
      × ((k ≤ n) ⊎ (rune_start (get_or s k 0) ≡ false))
unfolding truncate_utf8
truncate_utf8_cut s max_len k over within = (
  cut_point s max_len,
  ground arith,
  cut_point-le s max_len,
  cut_point_start s max_len,
  elim (Bool-cases (leb k (cut_point s max_len))) [
    | inl kept ↦ inl (ground arith)
    | inr beyond ↦ inr (cut_point_maximal s max_len k (ground arith) within)
  ],
)

pub length-truncate_utf8 : (s : List ℕ) (max_len : ℕ) → length (truncate_utf8 s max_len) ≤ max_len
unfolding truncate_utf8
length-truncate_utf8 s max_len =
    ground (arith, length-take-le (cut_point s max_len) s, cut_point-le s max_len)
