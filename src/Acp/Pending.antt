-- ===== src/Acp/Pending.antt =====
-- The map of pending requests of internal/acp/dispatcher.go: lookups, removals and the loop of
-- drainAll, by how often a channel stands in the map.
use otto_gateway.Base.{
  ℕ, suc, ◌+◌, ◌≤◌, ◌≡◌, String, some, List, [], ◌∷◌, ◌==◌, arith, length, sum_of, if◌then◌else◌,
  Bool-cases, inl, inr, zero, Option-cases, Each,
}
use otto_gateway.Acp.Dispatcher.{
  RpcFrame, sentinel, find_pending, delete_pending, fill, take_frame, drain_each,
}

-- How often a channel occurs.
abbrev pub is_to : ℕ → ℕ × ℕ → ℕ
is_to r (id, c) = if c == r then 1 else 0

abbrev pub is_for : ℕ → ℕ × RpcFrame → ℕ
is_for r (c, f) = if c == r then 1 else 0

abbrev pub is_it : ℕ → ℕ → ℕ
is_it r c = if c == r then 1 else 0

-- A request's id is one more than the number of its channel.
abbrev pub Numbered : ℕ × ℕ → Type 0
Numbered (id, c) = id ≡ suc c

pub delete_pending-Numbered :
    (id : ℕ) (p : List (ℕ × ℕ)) → Each Numbered p → Each Numbered (delete_pending id p)
unfolding delete_pending
delete_pending-Numbered id [] n = tt
delete_pending-Numbered id ((k, c) ∷ p) (m, n) = ground (arith, delete_pending-Numbered id p n)

pub delete_pending-count :
    (id r : ℕ) (p : List (ℕ × ℕ))
    → Each Numbered p
    → sum_of (is_to r) (delete_pending id p) ≡ (if suc r == id then 0 else sum_of (is_to r) p)
unfolding delete_pending
delete_pending-count id r [] n = ground arith
delete_pending-count id r ((k, c) ∷ p) (m, n) = ground (arith, delete_pending-count id r p n)

pub find_pending-Numbered :
    (id c : ℕ) (p : List (ℕ × ℕ))
    → Each Numbered p
    → find_pending id p ≡ some c
    → (id ≡ suc c) × (1 ≤ sum_of (is_to c) p)
unfolding find_pending
find_pending-Numbered id c [] n h = ground arith
find_pending-Numbered id c ((k, d) ∷ p) (m, n) h = elim (Bool-cases (k == id)) [
  | inl same ↦ ground arith
  | inr other ↦ ground (arith, find_pending-Numbered id c p n)
]

pub take_frame-count :
    (r i : ℕ) (x : ℕ × RpcFrame) (xs ys : List (ℕ × RpcFrame))
    → take_frame xs i ≡ some (x, ys)
    → sum_of (is_for r) xs ≡ is_for r x + sum_of (is_for r) ys
unfolding take_frame
take_frame-count r i x [] ys h = ground arith
take_frame-count r zero x (y ∷ xs) ys h = ground arith
take_frame-count r (suc i) x (y ∷ xs) ys h = elim (Option-cases (take_frame xs i)) [
  | inl e ↦ ground arith
  | inr ((z, zs), e) ↦ ground (arith, take_frame-count r i z xs zs e)
]

pub take_frame-Each :
    (P : ℕ × RpcFrame → Type 0) (i : ℕ) (x : ℕ × RpcFrame) (xs ys : List (ℕ × RpcFrame))
    → Each P xs
    → take_frame xs i ≡ some (x, ys)
    → P x × Each P ys
unfolding take_frame
take_frame-Each P i x [] ys n h = ground arith
take_frame-Each P zero x (y ∷ xs) ys n h = ground arith
take_frame-Each P (suc i) x (y ∷ xs) ys (m, n) h = elim (Option-cases (take_frame xs i)) [
  | inl e ↦ ground arith
  | inr ((z, zs), e) ↦ ground (arith, take_frame-Each P i z xs zs n e)
]

-- One round of drainAll's loop.
abbrev drained : String → ℕ → (ℕ → List RpcFrame) → ℕ → List RpcFrame
drained message c boxes = elim (boxes c) [
  | [] ↦ fill c (sentinel message ∷ []) boxes
  | f ∷ fs ↦ boxes
]

drained-length :
    (message : String) (c r : ℕ) (boxes : ℕ → List RpcFrame)
    → length (boxes c) ≡ 0
    → length (drained message c boxes r) ≡ length (boxes r) + (if c == r then 1 else 0)
drained-length message c r boxes h = ground arith

-- Where no pending channel occurs twice or holds a frame, the loop puts one frame in each.
pub drain_each-length :
    (message : String) (p : List (ℕ × ℕ)) (boxes : ℕ → List RpcFrame)
    → ((r : ℕ) → sum_of (is_to r) p + length (boxes r) ≤ 1)
    → (r : ℕ) → length (drain_each message p boxes r) ≡ length (boxes r) + sum_of (is_to r) p
unfolding drain_each
drain_each-length message [] boxes h r = omega arith
drain_each-length message ((id, c) ∷ p) boxes h r =
    let empty : length (boxes c) ≡ 0 = ground (arith, h c) in
    let rest =
      drain_each-length message p (drained message c boxes)
        (λ q. ground (arith, h q, drained-length message c q boxes empty)) r in
    omega (arith, rest, drained-length message c r boxes empty)

drained-Each :
    (P : ℕ → RpcFrame → Type 0) (message : String) (c r : ℕ) (boxes : ℕ → List RpcFrame)
    → P r (sentinel message)
    → Each (P r) (boxes r)
    → Each (P r) (drained message c boxes r)
drained-Each P message c r boxes s h = ground arith

pub drain_each-Each :
    (P : ℕ → RpcFrame → Type 0) (message : String) (p : List (ℕ × ℕ)) (boxes : ℕ → List RpcFrame)
    → ((r : ℕ) → P r (sentinel message))
    → ((r : ℕ) → Each (P r) (boxes r))
    → (r : ℕ) → Each (P r) (drain_each message p boxes r)
unfolding drain_each
drain_each-Each P message [] boxes s h r = h r
drain_each-Each P message ((id, c) ∷ p) boxes s h r =
    drain_each-Each P message p (drained message c boxes) s
      (λ q. drained-Each P message c q boxes (s q) (h q)) r
