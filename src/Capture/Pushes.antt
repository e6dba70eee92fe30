-- ===== src/Capture/Pushes.antt =====
-- One write to the ring of internal/capture/ring.go is a push to the queue of its frames.
use native.Mathlib.Nat.{mod_self, mod-lt, mod-eq_of_lt}
use mathlib.Core.Path.{ap₂}
use native.Mathlib.Decide.{dec_lt}
use otto_gateway.Base.{
  ℕ, suc, ◌+◌, ◌-◌, ◌%◌, ◌≤◌, ◌<◌, ◌≡◌, ◌≢◌, refl, ap, ◌∙◌, sym, String, List, [], ◌∷◌, ◌++◌, arith,
  length, length-set, get_or, set, get_or-set_self, drop, ◌==◌, if◌then◌else◌, Bool-cases, inl, inr,
}
use otto_gateway.Capture.Ring.{
  Frame, Ring, no_frame, frame, write_frame, read_from, snapshot, clear,
}
use otto_gateway.Capture.Reads.{
  length-read_from, read_from-suc, read_from-set, read_from_of_ne_zero, read_from-shift, add-mod-ne,
  full_turn,
}

pub record IsValid (r : Ring) : Type 0 where
  pub next_in : r.next < length r.buf
  pub count_in : r.count ≤ length r.buf
  pub filling : r.count < length r.buf → r.next ≡ r.count

-- The queue that a ring stands for: a new frame at the end, the oldest dropped when it is full.
abbrev pub push_bounded : ℕ → List Frame → Frame → List Frame
push_bounded size q f = (if length q == size then drop 1 q else q) ++ (f ∷ [])

module _ (buf : List Frame) (f : Frame) where
  -- Not full: the frames stand from index 0 on, and the new one is put behind them.
  filling_write :
      (n : ℕ)
      → n < length buf
      → read_from (set buf n f) 0 0 (suc n) ≡ read_from buf 0 0 n ++ (f ∷ [])
  filling_write n h =
      rw
        (
          read_from-suc (set buf n f) 0 0 n,
          read_from-set buf 0 0 n n f (λ k l e.
              omega (arith, e, mod-eq_of_lt {n = 0 + (0 + k)} {m = length buf} (omega arith))),
          length-set buf n f,
          mod-eq_of_lt {n = 0 + (0 + n)} {m = length buf} (omega arith),
        )
        (let e : 0 + (0 + n) ≡ n = omega arith in rw (e, get_or-set_self buf n f no_frame h) refl)

  -- Full: the frames stand round the whole buffer, and the new one replaces the oldest.
  full_write :
      (next m : ℕ)
      → length buf ≡ suc m
      → next < suc m
      → read_from (set buf next f) ((next + 1) % suc m) 0 (suc m)
        ≡ read_from buf next 1 m ++ (f ∷ [])
  full_write next m e h =
      let size : length (set buf next f) ≡ suc m = length-set buf next f ∙ e in
      ap (λ k. read_from (set buf next f) ((next + 1) % k) 0 (suc m)) (sym size)
      ∙ read_from-shift (set buf next f) next 0 (suc m)
      ∙ read_from-suc (set buf next f) next 1 m
      ∙ ap₂ ◌++◌ (read_from-set buf next 1 m next f apart) (
          ap (λ x. x ∷ [])
            (ap (λ k. get_or (set buf next f) k no_frame) (turn size)
              ∙ get_or-set_self buf next f no_frame (omega arith)))
    where
      apart : (k : ℕ) → k < m → next ≢ (next + (1 + k)) % length buf
      apart k p =
          let one_more : 1 + k ≡ suc k = omega arith in
          rw (e, one_more) (add-mod-ne (suc m) next k h (omega arith))

      turn : length (set buf next f) ≡ suc m → (next + (1 + m)) % length (set buf next f) ≡ next
      turn size =
          let one_more : 1 + m ≡ suc m = omega arith in
          rw (size, one_more) (full_turn (suc m) next h)

pub snapshot_at :
    (r : Ring) (start n : ℕ)
    → r.count ≡ n
    → (n ≡ length r.buf → r.next ≡ start)
    → (n < length r.buf → start ≡ 0)
    → n ≤ length r.buf
    → snapshot r ≡ read_from r.buf start 0 n
unfolding snapshot
snapshot_at r start n e full filling fits = elim (Bool-cases (r.count == length r.buf)) [
  | inl b ↦ rw (b, snapshot) (ap₂ (λ k j. read_from r.buf k 0 j) (full (ground arith)) e)
  | inr b ↦ rw (b, snapshot) (ap₂ (λ k j. read_from r.buf k 0 j) (sym (filling (ground arith))) e)
]

module _ (r : Ring) (v : IsValid r) where
  -- A new frame keeps the ring's indices in range.
  pub write_frame-IsValid :
      (now : ℕ) (method : String) (params : List ℕ) → IsValid (write_frame r now method params)
  unfolding write_frame
  write_frame-IsValid now method params = ground (
    arith,
    length-set r.buf r.next (frame r now method params),
    mod-lt (r.next + 1) {m = length r.buf},
    mod-eq_of_lt {n = r.next + 1} {m = length r.buf},
  )

  filling_refines :
      (now : ℕ) (method : String) (params : List ℕ)
      → r.count < length r.buf
      → snapshot (write_frame r now method params)
        ≡ push_bounded (length r.buf) (snapshot r) (frame r now method params)
  unfolding write_frame
  filling_refines now method params room =
      let f : Frame = frame r now method params in
      let old : snapshot r ≡ read_from r.buf 0 0 r.count =
        snapshot_at r 0 r.count refl (λ e. absurd (omega arith)) (λ h. refl) (omega arith) in
      let new : snapshot (write_frame r now method params)
          ≡ read_from (set r.buf r.count f) 0 0 (suc r.count) =
        snapshot_at (write_frame r now method params) 0 (suc r.count) (ground arith)
          (λ e. ground (arith, v.filling, length-set r.buf r.next f, mod_self (length r.buf)))
          (λ h. refl) (omega (arith, length-set r.buf r.next f))
        ∙ ap (λ k. read_from (set r.buf k f) 0 0 (suc r.count)) (v.filling room) in
      ground
        (arith, old, new, filling_write r.buf f r.count room, length-read_from r.buf 0 0 r.count)

  full_refines :
      (now : ℕ) (method : String) (params : List ℕ)
      → r.count ≡ length r.buf
      → snapshot (write_frame r now method params)
        ≡ push_bounded (length r.buf) (snapshot r) (frame r now method params)
  unfolding write_frame
  full_refines now method params same =
      let f : Frame = frame r now method params in
      let m : ℕ = length r.buf - 1 in
      let size : length r.buf ≡ suc m = omega (arith, v.next_in) in
      let old : snapshot r ≡ read_from r.buf r.next 0 (suc m) =
        snapshot_at r r.next (suc m) (omega arith) (λ e. refl) (λ h. absurd (omega arith))
          (omega arith) in
      let new : snapshot (write_frame r now method params)
          ≡ read_from (set r.buf r.next f) ((r.next + 1) % suc m) 0 (suc m) =
        snapshot_at (write_frame r now method params) ((r.next + 1) % suc m) (suc m) (ground arith)
          (λ e. ap (λ k. (r.next + 1) % k) size)
          (λ h. absurd (omega (arith, length-set r.buf r.next f)))
          (omega (arith, length-set r.buf r.next f)) in
      ground (
        arith,
        old,
        new,
        read_from_of_ne_zero r.buf r.next 0 (suc m),
        full_write r.buf f r.next m size,
        length-read_from r.buf r.next 0 (suc m),
      )

  pub write-push :
      (now : ℕ) (method : String) (params : List ℕ)
      → snapshot (write_frame r now method params)
        ≡ push_bounded (length r.buf) (snapshot r) (frame r now method params)
  write-push now method params = elim (dec_lt r.count (length r.buf)) [
    | yes room ↦ filling_refines now method params room
    | no none_left ↦ full_refines now method params (omega (arith, v.count_in))
  ]

  -- Clearing empties the snapshot and keeps the ring's indices in range.
  pub clear-IsValid : IsValid (clear r) × (snapshot (clear r) ≡ [])
  unfolding clear read_from
  clear-IsValid = (
    ground (arith, v.next_in),
    snapshot_at (clear r) 0 0 refl (λ e. refl) (λ h. refl) (omega arith),
  )
