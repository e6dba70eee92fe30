-- ===== src/Capture/Tests.antt =====
-- The ring of internal/capture at concrete frames.
use otto_gateway.Base.{ℕ, ◌≡◌, ◌≤◌, refl, ◌⊎◌, true, false, List, [], ◌∷◌, arith, take, get_or}
use otto_gateway.Capture.Truncate.{rune_start, truncate_utf8, truncate_utf8_cut}
use otto_gateway.Capture.Ring.{Frame, Ring, no_frame, new_ring, snapshot}
use otto_gateway.Capture.Refine.{
  RingCall, writes, clears, ring_run, numbered_frame, queue_run, write_frame_refines,
}

abbrev framed : ℕ → Frame
framed n = record no_frame { seq = n }

-- Three frames in a ring of three: 5 is the oldest.
abbrev full_ring : Ring
full_ring = record {
  buf = framed 7 ∷ framed 5 ∷ framed 6 ∷ [];
  cap_bytes = 4;
  next = 1;
  count = 3;
  seq = 7;
}

oldest_first : snapshot full_ring ≡ framed 5 ∷ framed 6 ∷ framed 7 ∷ []
unfolding snapshot
oldest_first = refl

-- Two writes, a clear, and three writes to a ring of two: the third drops the first.
abbrev six_calls : List RingCall
six_calls =
    writes 1 "a" (1 ∷ [])
    ∷ writes 2 "b" []
    ∷ clears
    ∷ writes 3 "c" (1 ∷ 2 ∷ 3 ∷ [])
    ∷ writes 4 "d" []
    ∷ writes 5 "e" []
    ∷ []

write_frame_refines_example :
    snapshot (ring_run (new_ring 2 2) six_calls) ≡ queue_run 2 2 0 [] six_calls
write_frame_refines_example = write_frame_refines 2 2 six_calls

last_two :
    queue_run 2 2 0 [] six_calls ≡ numbered_frame 2 2 4 "d" [] ∷ numbered_frame 2 3 5 "e" [] ∷ []
unfolding queue_run
last_two = refl

-- "aé" in three bytes, cut at two: the cut does not split the second rune.
abbrev a_acute : List ℕ
a_acute = 97 ∷ 195 ∷ 169 ∷ []

cuts_before_the_rune : truncate_utf8 a_acute 2 ≡ 97 ∷ []
unfolding truncate_utf8 rune_start
cuts_before_the_rune = refl

truncate_utf8_cut_example :
    (n : ℕ) × (truncate_utf8 a_acute 2 ≡ take n a_acute)
    × (n ≤ 2)
    × ((n ≡ 0) ⊎ (rune_start (get_or a_acute n 0) ≡ true))
    × ((2 ≤ n) ⊎ (rune_start (get_or a_acute 2 0) ≡ false))
truncate_utf8_cut_example = truncate_utf8_cut a_acute 2 2 (omega arith) (omega arith)
