-- ===== src/Compress/Protected.antt =====
-- Which messages of a transcript internal/plugin/compress must pass unchanged, said without its indices.
use otto_gateway.Base.{
  ℕ, suc, ◌+◌, ◌-◌, ◌≡◌, refl, Bool, true, false, not, ◌&&◌, ◌||◌, ◌⊎◌, inl, inr, Option, none,
  some, List, [], ◌∷◌, arith, any_of, Bool-cases, leb, length,
}
use otto_gateway.Compress.Message.{Message, is_system, is_user}
use otto_gateway.Compress.Stages.{Library, Pins, is_pin}
use otto_gateway.Compress.Prune.{is_mutable, last_index, has_query_terms, find_pinned}
use otto_gateway.Compress.Hook.{Hook, pins_of}
use otto_gateway.Compress.Kept.{Keeps, AllKept}

module _ {J : Type 0} where
  -- The message passes the test and none after it does.
  abbrev pub is_latest : (Message J → Bool) → Message J → List (Message J) → Bool
  is_latest p m later = p m && not (any_of p later)

  found_later :
      (p : Message J → Bool) (i : ℕ) (ms : List (Message J))
      → ((any_of p ms ≡ false) × (last_index p i ms ≡ none))
        ⊎ ((any_of p ms ≡ true) × (j : ℕ) × (last_index p i ms ≡ some j))
  unfolding last_index
  found_later p i [] = inl (refl, refl)
  found_later p i (m ∷ ms) = elim (found_later p (suc i) ms) [
    | inl (none_any, none_at) ↦ elim (Bool-cases (p m)) [
      | inl passes ↦ inr (ground arith, i, ground arith)
      | inr fails ↦ inl (ground arith, ground arith)
    ]
    | inr (some_any, j, at) ↦ inr (ground arith, j, ground arith)
  ]

  -- A pin found in the whole transcript, seen from the messages from i on.
  abbrev Sees : (Message J → Bool) → Option ℕ → ℕ → List (Message J) → Type 0
  Sees p o i ms = (any_of p ms ≡ false) ⊎ (o ≡ last_index p i ms)

  Sees-cons :
      (p : Message J → Bool) (o : Option ℕ) (i : ℕ) (m : Message J) (ms : List (Message J))
      → Sees p o i (m ∷ ms)
      → Sees p o (suc i) ms
  unfolding last_index
  Sees-cons p o i m ms s = elim (found_later p (suc i) ms) [
    | inl (none_any, none_at) ↦ inl none_any
    | inr (some_any, j, at) ↦ inr (ground arith)
  ]

  latest_pinned :
      (p : Message J → Bool) (o : Option ℕ) (i : ℕ) (m : Message J) (ms : List (Message J))
      → Sees p o i (m ∷ ms)
      → is_latest p m ms ≡ true
      → is_pin o i ≡ true
  unfolding last_index
  latest_pinned p o i m ms s h = elim (found_later p (suc i) ms) [
    | inl (none_any, none_at) ↦ ground arith
    | inr (some_any, j, at) ↦ absurd (ground arith)
  ]

module _ {J S : Type 0} (lib : Library J S) where
  abbrev is_turn : Message J → Bool
  is_turn m = not (is_system m.role)

  abbrev is_question : Message J → Bool
  is_question m = is_user m.role && has_query_terms lib m

  -- A system message, one of the last `protect_tail`, the newest message that is not a system
  -- message, and the newest message of the user that has a term.
  abbrev pub is_protected : Hook → ℕ → ℕ → Message J → List (Message J) → Bool
  is_protected h total i m later =
      is_system m.role
      || leb total (i + h.protect_tail)
      || is_latest (λ n. not (is_system n.role)) m later
      || is_latest (λ n. is_user n.role && has_query_terms lib n) m later

  -- The message is kept whole where it is protected, and its role, ids, calls and skeleton always.
  abbrev pub Preserved : Hook → ℕ → ℕ → List (Message J) → List (Message J) → Type 0
  Preserved h total i [] [] = Unit {0}
  Preserved h total i [] (n ∷ ns) = ⊥
  Preserved h total i (m ∷ ms) [] = ⊥
  Preserved h total i (m ∷ ms) (n ∷ ns) =
      Keeps (is_protected h total i m ms) m n × Preserved h total (suc i) ms ns

  protected_fixed :
      (h : Hook) (total i : ℕ) (pins : Pins) (m : Message J) (ms : List (Message J))
      → pins.tail_start ≡ total - h.protect_tail
      → Sees is_turn pins.last_idx i (m ∷ ms)
      → Sees is_question pins.query_idx i (m ∷ ms)
      → is_protected h total i m ms ≡ true
      → is_mutable pins i m ≡ false
  unfolding is_mutable
  protected_fixed h total i pins m ms tail last query e = ground (
    arith,
    latest_pinned is_turn pins.last_idx i m ms last,
    latest_pinned is_question pins.query_idx i m ms query,
  )

  kept_protected :
      (fixed guarded : Bool) (m n : Message J)
      → ((guarded ≡ false) ⊎ (fixed ≡ true))
      → Keeps fixed m n
      → Keeps guarded m n
  kept_protected fixed guarded m n h k = record {
    role = k.role;
    tool_calls = k.tool_calls;
    tool_call_id = k.tool_call_id;
    skeleton = k.skeleton;
    same = ground (arith, k.same);
  }

  kept_guarded :
      (h : Hook) (total i : ℕ) (pins : Pins) (m : Message J) (ms : List (Message J))
      → pins.tail_start ≡ total - h.protect_tail
      → Sees is_turn pins.last_idx i (m ∷ ms)
      → Sees is_question pins.query_idx i (m ∷ ms)
      → (is_protected h total i m ms ≡ false) ⊎ (not (is_mutable pins i m) ≡ true)
  kept_guarded h total i pins m ms tail last query =
      elim (Bool-cases (is_protected h total i m ms)) [
        | inl e ↦ inr (rw (protected_fixed h total i pins m ms tail last query e))
        | inr e ↦ inl e
      ]

  AllKept-Preserved :
      (h : Hook) (total i : ℕ) (pins : Pins) (ms ns : List (Message J))
      → pins.tail_start ≡ total - h.protect_tail
      → Sees is_turn pins.last_idx i ms
      → Sees is_question pins.query_idx i ms
      → AllKept pins i ms ns
      → Preserved h total i ms ns
  AllKept-Preserved h total i pins [] [] tail last query a = tt
  AllKept-Preserved h total i pins [] (n ∷ ns) tail last query a = a
  AllKept-Preserved h total i pins (m ∷ ms) [] tail last query a = a
  AllKept-Preserved h total i pins (m ∷ ms) (n ∷ ns) tail last query (k, ks) = (
    kept_protected (not (is_mutable pins i m)) (is_protected h total i m ms) m n
        (kept_guarded h total i pins m ms tail last query) k,
    AllKept-Preserved h total (suc i) pins ms ns tail (Sees-cons is_turn pins.last_idx i m ms last)
        (Sees-cons is_question pins.query_idx i m ms query) ks,
  )

  pub AllKept-pins_of :
      (h : Hook) (ms ns : List (Message J))
      → AllKept (pins_of lib h ms) 0 ms ns
      → Preserved h (length ms) 0 ms ns
  unfolding pins_of find_pinned
  AllKept-pins_of h ms ns a =
      AllKept-Preserved h (length ms) 0 (pins_of lib h ms) ms ns refl (inr refl) (inr refl) a
