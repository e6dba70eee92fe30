-- ===== src/Capture/Refine.antt =====
-- The ring of internal/capture/ring.go, from its making on, is the queue of the last frames.
use mathlib.Core.Path.{ap₂}
use otto_gateway.Base.{
  ℕ, zero, suc, ◌+◌, ◌≡◌, refl, ◌∙◌, String, List, [], ◌∷◌, arith, u64, length, length-set,
  length-replicate,
}
use otto_gateway.Capture.Ring.{
  Frame, Ring, no_frame, frame, write_frame, new_ring, read_from, snapshot, clear,
}
use otto_gateway.Capture.Truncate.{truncate_utf8}
use otto_gateway.Capture.Pushes.{
  IsValid, push_bounded, snapshot_at, write-push, write_frame-IsValid, clear-IsValid,
}

-- The calls that change a ring.
pub data RingCall : Type 0 where
  writes : ℕ → String → List ℕ → RingCall
  clears : RingCall

abbrev pub ring_call : Ring → RingCall → Ring
ring_call r (writes now method params) = write_frame r now method params
ring_call r clears = clear r

unfoldable pub ring_run : Ring → List RingCall → Ring
ring_run r [] = r
ring_run r (c ∷ cs) = ring_run (ring_call r c) cs

-- The frame that stands for a write: the number of the write, and the parameters cut to the limit.
abbrev pub numbered_frame : ℕ → ℕ → ℕ → String → List ℕ → Frame
numbered_frame limit n now method params = record {
  seq = n;
  ts = now;
  method = method;
  params = truncate_utf8 params limit;
  bytes = length params;
}

-- The queue that the calls leave, with the bound, the limit of the parameters, the number of writes
-- since the last clear, and the queue so far.
unfoldable pub queue_run : ℕ → ℕ → ℕ → List Frame → List RingCall → List Frame
queue_run size limit n q [] = q
queue_run size limit n q (writes now method params ∷ cs) =
    let k = u64 (n + 1) in
    queue_run size limit k (push_bounded size q (numbered_frame limit k now method params)) cs
queue_run size limit n q (clears ∷ cs) = queue_run size limit 0 [] cs

-- A size or a limit that is asked for: 1 in place of 0.
abbrev pub at_least_one : ℕ → ℕ
at_least_one zero = 1
at_least_one (suc n) = suc n

new_ring-IsValid : (size cap_bytes : ℕ) → IsValid (new_ring size cap_bytes)
unfolding new_ring
new_ring-IsValid zero cap_bytes = ground arith
new_ring-IsValid (suc n) cap_bytes = ground (arith, length-replicate n no_frame)

length-new_ring : (size cap_bytes : ℕ) → length (new_ring size cap_bytes).buf ≡ at_least_one size
unfolding new_ring
length-new_ring zero cap_bytes = ground arith
length-new_ring (suc n) cap_bytes = ground (arith, length-replicate n no_frame)

new_ring-limit : (size cap_bytes : ℕ) → (new_ring size cap_bytes).cap_bytes ≡ at_least_one cap_bytes
unfolding new_ring
new_ring-limit size zero = ground arith
new_ring-limit size (suc n) = ground arith

new_ring-unnumbered : (size cap_bytes : ℕ) → (new_ring size cap_bytes).seq ≡ 0
unfolding new_ring
new_ring-unnumbered size cap_bytes = refl

snapshot-new_ring : (size cap_bytes : ℕ) → snapshot (new_ring size cap_bytes) ≡ []
unfolding new_ring read_from
snapshot-new_ring size cap_bytes =
    snapshot_at (new_ring size cap_bytes) 0 0 refl (λ e. refl) (λ h. refl) (omega arith)

length-write_frame :
    (r : Ring) (now : ℕ) (method : String) (params : List ℕ)
    → length (write_frame r now method params).buf ≡ length r.buf
unfolding write_frame
length-write_frame r now method params = length-set r.buf r.next (frame r now method params)

length-clear : (r : Ring) → length (clear r).buf ≡ length r.buf
unfolding clear
length-clear r = refl

ring_run-refines :
    (r : Ring)
    → IsValid r
    → (cs : List RingCall)
    → snapshot (ring_run r cs) ≡ queue_run (length r.buf) r.cap_bytes r.seq (snapshot r) cs
unfolding ring_run queue_run write_frame clear
ring_run-refines r v [] = refl
ring_run-refines r v (writes now method params ∷ cs) =
    ring_run-refines (write_frame r now method params) (write_frame-IsValid r v now method params)
      cs
    ∙ ap₂ (λ n q. queue_run n r.cap_bytes (u64 (r.seq + 1)) q cs)
        (length-write_frame r now method params) (write-push r v now method params)
ring_run-refines r v (clears ∷ cs) =
    ring_run-refines (clear r) (clear-IsValid r v).0 cs
    ∙ ap₂ (λ n q. queue_run n r.cap_bytes 0 q cs) (length-clear r) (clear-IsValid r v).1

-- From a new ring of any size and limit on, whatever frames are recorded and however often it is
-- cleared, the snapshot is a bounded queue: a write puts its frame, numbered from 1 since the last
-- clear and with its parameters cut to the limit, at the end, without the oldest frame if the queue
-- was full, and a clear empties it. Bound and limit are those asked for, or 1 for 0.
pub write_frame_refines :
    (size cap_bytes : ℕ) (cs : List RingCall)
    → snapshot (ring_run (new_ring size cap_bytes) cs)
      ≡ queue_run (at_least_one size) (at_least_one cap_bytes) 0 [] cs
write_frame_refines size cap_bytes cs =
    let r = new_ring size cap_bytes in
    ring_run-refines r (new_ring-IsValid size cap_bytes) cs
    ∙ ap₂ (λ n q. queue_run n r.cap_bytes r.seq q cs) (length-new_ring size cap_bytes)
        (snapshot-new_ring size cap_bytes)
    ∙ ap₂ (λ limit n. queue_run (at_least_one size) limit n [] cs) (new_ring-limit size cap_bytes)
        (new_ring-unnumbered size cap_bytes)
