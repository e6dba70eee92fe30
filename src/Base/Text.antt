-- ===== src/Base/Text.antt =====
-- Texts: equality tests, and the standard library's `strings.TrimSpace`.
use Prim.Native.Nat.{ℕ, ◌+◌}
use mathlib.Core.Path.{◌≡◌, ◌∙◌, refl, ap}
use native.Mathlib.Omega.{arith}
use Prim.Native.Char.{code}
use Prim.Native.String.{String}
use mathlib.Core.Bool.{Bool, true, false, ◌&&◌, ◌||◌}
use otto_gateway.Base.Tests.{ltb, leb, ◌==◌, if◌then◌else◌}

-- The test `s == ""`; callers trim first where a text of spaces is to count as blank.
abbrev pub is_blank : String → Bool
is_blank String.[] = true
is_blank (String.◌∷◌ c s) = false

-- `unicode.IsSpace`
unfoldable pub is_space : ℕ → Bool
is_space c =
    (leb 9 c && leb c 13)
    || c == 32
    || c == 0x85
    || c == 0xA0
    || c == 0x1680
    || (leb 0x2000 c && leb c 0x200A)
    || c == 0x2028
    || c == 0x2029
    || c == 0x202F
    || c == 0x205F
    || c == 0x3000

unfoldable pub trim_left : String → String
unfolding is_space
trim_left String.[] = String.[]
trim_left (String.◌∷◌ c s) =
    let rest = trim_left s in if is_space (code c) then rest else String.◌∷◌ c s

unfoldable pub trim_right : String → String
unfolding is_space
trim_right String.[] = String.[]
trim_right (String.◌∷◌ c s) =
    let rest = trim_right s in
    if is_space (code c) && is_blank rest then String.[] else String.◌∷◌ c rest

unfoldable pub trim_space : String → String
unfolding trim_left trim_right
trim_space s = trim_right (trim_left s)

trim_right-trim_right : (s : String) → trim_right (trim_right s) ≡ trim_right s
unfolding trim_right
trim_right-trim_right String.[] = refl
trim_right-trim_right (String.◌∷◌ c s) = ground (arith, trim_right-trim_right s)

-- No space at the left end.
abbrev IsFlush : String → Type 0
IsFlush String.[] = Unit {0}
IsFlush (String.◌∷◌ c s) = is_space (code c) ≡ false

trim_left-IsFlush : (s : String) → IsFlush (trim_left s)
unfolding trim_left
trim_left-IsFlush String.[] = tt
trim_left-IsFlush (String.◌∷◌ c s) =
    elim (is_space (code c))
        as (λ b. is_space (code c) ≡ b → IsFlush (if b then trim_left s else String.◌∷◌ c s)) [
          | true ↦ λ e. trim_left-IsFlush s
          | false ↦ λ e. e
        ]
      refl

trim_left-trim_right : (s : String) → IsFlush s → trim_left (trim_right s) ≡ trim_right s
unfolding trim_left trim_right
trim_left-trim_right String.[] h = refl
trim_left-trim_right (String.◌∷◌ c s) h = ground (arith, h)

-- A trimmed text has nothing left to trim.
pub trim_space-trim_space : (s : String) → trim_space (trim_space s) ≡ trim_space s
unfolding trim_space
trim_space-trim_space s =
    ap trim_right (trim_left-trim_right (trim_left s) (trim_left-IsFlush s))
    ∙ trim_right-trim_right (trim_left s)

-- `s + t` of Go
unfoldable pub concat : String → String → String
concat String.[] t = t
concat (String.◌∷◌ c s) t = String.◌∷◌ c (concat s t)

pub concat-nil : (s : String) → concat s "" ≡ s
unfolding concat
concat-nil String.[] = refl
concat-nil (String.◌∷◌ c s) = ap (String.◌∷◌ c) (concat-nil s)

pub concat_assoc : (s t u : String) → concat (concat s t) u ≡ concat s (concat t u)
unfolding concat
concat_assoc String.[] t u = refl
concat_assoc (String.◌∷◌ c s) t u = ap (String.◌∷◌ c) (concat_assoc s t u)

-- The bytes of the UTF-8 encoding, which `len` counts.
unfoldable pub byte_length : String → ℕ
byte_length String.[] = 0
byte_length (String.◌∷◌ c s) =
    (if ltb (code c) 0x80
      then 1
      else if ltb (code c) 0x800
      then 2
      else if ltb (code c) 0x10000
      then 3
      else 4)
    + byte_length s
