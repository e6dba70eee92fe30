-- ===== src/Base/Steps.antt =====
-- Steps on a state that may fail: a failure ends a sequence of steps.
use mathlib.Core.Path.{◌≡◌, refl, sym, subst}
use mathlib.Core.Bool.{Bool, true, false}
use otto_gateway.Base.Tests.{if◌then◌else◌}

-- A step; false is an error.
abbrev pub Step : Type 0 → Type 0
Step E = E → E × Bool

module _ {E : Type 0} where
  infixl 5 ◌>>◌
  abbrev pub ◌>>◌ : Step E → Step E → Step E
  ◌>>◌ m k e = let (e', good) = m e in if good then k e' else (e', false)

  abbrev pub pass : Step E
  pass e = (e, true)

  abbrev pub fail : Step E
  fail e = (e, false)

  abbrev pub modify : (E → E) → Step E
  modify f e = (f e, true)

  -- An error that the caller ignores.
  abbrev pub ignore : Step E → Step E
  ignore m e = let (e', good) = m e in (e', true)

  -- What holds after a step, by whether it failed.
  abbrev pub Post : (E → Type 0) → (E → Type 0) → E × Bool → Type 0
  Post B P (e, true) = P e
  Post B P (e, false) = B e

  sequel :
      (B P Q : E → Type 0) (k : Step E) (r : E × Bool)
      → Post B P r
      → ((e' : E) → P e' → Post B Q (k e'))
      → Post B Q (let (e', good) = r in if good then k e' else (e', false))
  sequel B P Q k (e', true) h next = next e' h
  sequel B P Q k (e', false) h next = h

  -- A step that ends in `P`, and the steps that go on from there.
  pub then-Post :
      (B P Q : E → Type 0) (m k : Step E) (e : E)
      → Post B P (m e)
      → ((e' : E) → P e' → Post B Q (k e'))
      → Post B Q ((m >> k) e)
  then-Post B P Q m k e h next = sequel B P Q k (m e) h next

  pub Post-map :
      (B P Q : E → Type 0) (r : E × Bool) → Post B P r → ((e : E) → P e → Q e) → Post B Q r
  Post-map B P Q (e, true) h f = f e h
  Post-map B P Q (e, false) h f = h

  assoc :
      (k l : Step E) (r : E × Bool)
      → (let (e', good) = (let (e₁, one) = r in if one then k e₁ else (e₁, false)) in
          if good then l e' else (e', false))
        ≡ (let (e₁, one) = r in if one then (k >> l) e₁ else (e₁, false))
  assoc k l (e, true) = refl
  assoc k l (e, false) = refl

  -- A sequence of three steps, grouped from the right.
  pub assoc_Post :
      (B P : E → Type 0) (m k l : Step E) (e : E)
      → Post B P ((m >> (k >> l)) e)
      → Post B P (((m >> k) >> l) e)
  assoc_Post B P m k l e h = subst (Post B P) (sym (assoc k l (m e))) h
