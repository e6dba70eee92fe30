-- ===== src/Capture/Ring.antt =====
-- `Ring` of internal/capture/ring.go. A method that changes the ring returns the new one. The sizes
-- are taken as natural numbers: the constructor treats a negative one as it treats 0.
use otto_gateway.Base.{
  ℕ, zero, suc, ◌+◌, ◌%◌, String, List, [], ◌∷◌, length, get_or, set, replicate, ltb, ◌==◌, u64,
  if◌then◌else◌,
}
use otto_gateway.Capture.Truncate.{truncate_utf8}

pub record Frame : Type 0 where
  pub seq : ℕ
  pub ts : ℕ
  pub method : String
  pub params : List ℕ
  pub bytes : ℕ

abbrev pub no_frame : Frame
no_frame = record { seq = 0; ts = 0; method = ""; params = []; bytes = 0 }

pub record Ring : Type 0 where
  pub buf : List Frame
  pub cap_bytes : ℕ
  pub next : ℕ
  pub count : ℕ
  pub seq : ℕ

unfoldable pub new_ring : ℕ → ℕ → Ring
new_ring size cap_bytes = record {
  buf = replicate (if size == 0 then 1 else size) no_frame;
  cap_bytes = if cap_bytes == 0 then 1 else cap_bytes;
  next = 0;
  count = 0;
  seq = 0;
}

-- The frame that `Record` stores at a time.
abbrev pub frame : Ring → ℕ → String → List ℕ → Frame
frame r now method params = record {
  seq = u64 (r.seq + 1);
  ts = now;
  method = method;
  params = truncate_utf8 params r.cap_bytes;
  bytes = length params;
}

unfoldable pub write_frame : Ring → ℕ → String → List ℕ → Ring
write_frame r now method params = record r {
  seq = u64 (r.seq + 1);
  buf = set r.buf r.next (frame r now method params);
  next = (r.next + 1) % length r.buf;
  count = if ltb r.count (length r.buf) then r.count + 1 else r.count;
}

-- `buf[(start+i) % len(buf)]` for `n` values of `i` from the one given.
unfoldable pub read_from : List Frame → ℕ → ℕ → ℕ → List Frame
read_from buf start i zero = []
read_from buf start i (suc n) =
    get_or buf ((start + i) % length buf) no_frame ∷ read_from buf start (suc i) n

unfoldable pub snapshot : Ring → List Frame
unfolding read_from
snapshot r = read_from r.buf (if r.count == length r.buf then r.next else 0) 0 r.count

unfoldable pub clear : Ring → Ring
clear r = record r { next = 0; count = 0; seq = 0 }

unfoldable pub len : Ring → ℕ
len r = r.count

unfoldable pub cap : Ring → ℕ
cap r = length r.buf
