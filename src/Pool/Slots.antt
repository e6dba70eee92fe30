-- ===== src/Pool/Slots.antt =====
-- Reading and writing single slots, and the channel of free slots (internal/pool/pool.go).
use otto_gateway.Base.{
  ℕ, ◌+◌, ◌-◌, Bool, true, false, not, ◌&&◌, ◌||◌, Option, none, some, is_some, List, [], ◌∷◌, ◌++◌,
  length, ltb, ◌==◌, if◌then◌else◌,
}
use otto_gateway.Pool.State.{Pool, Slot, ClientCall}

-- A write through a `*Slot`.
abbrev pub write : Pool → ℕ → Slot → Pool
write p s slot = record p { heap = λ i. if i == s then slot else p.heap i }

-- A call of a worker's method, recorded.
abbrev pub call : Pool → ClientCall → Pool
call p c = record p { calls = c ∷ p.calls }

unfoldable pub mark_slot_checked_out : Pool → ℕ → Pool
mark_slot_checked_out p s = write p s (record (p.heap s) { checked_out = true })

-- `select { case p.slots <- slot: … default: }`: the send succeeds while the channel has room.
-- Every caller drops the slot on `false`.
unfoldable pub try_return_slot : Pool → ℕ → Pool × Bool
try_return_slot p s =
    if ltb (length p.slots) p.cfg.size
    then (
      record (write p s (record (p.heap s) { checked_out = false })) {
        slots = p.slots ++ (s ∷ []);
      },
      true,
    )
    else (record p { lost = s ∷ p.lost }, false)

-- A goroutine returns while it alone holds the slot.
abbrev pub drop_slot : Pool → ℕ → Pool
drop_slot p s = record p { lost = s ∷ p.lost }

unfoldable pub slot_alive : Pool → ℕ → Bool
slot_alive p s = not (p.heap s).dead

-- `slot.Client == watchedClient`
abbrev pub is_client : ℕ → Option ℕ → Bool
is_client c none = false
is_client c (some d) = d == c

-- The `done` case of the watcher that `startExitWatcher` starts for a worker.
unfoldable pub watch_exit : Pool → ℕ → ℕ → Pool
watch_exit p s watched =
    let slot = p.heap s in
    let planned = slot.respawning || not (is_client watched slot.client) in
    if planned then p else write p s (record slot { dead = true })

unfoldable pub is_alive : Slot → Bool
is_alive s = is_some s.client && not s.dead && not s.respawning

unfoldable pub count_alive : Pool → List ℕ → ℕ
count_alive p [] = 0
count_alive p (s ∷ ss) = (if is_alive (p.heap s) then 1 else 0) + count_alive p ss

pub record Stats : Type 0 where
  pub size : ℕ
  pub alive : ℕ
  pub busy : ℕ

-- `busy` is `len(p.all) - len(p.slots)`, set to 0 where that is negative.
unfoldable pub stats : Pool → Stats
unfolding count_alive is_alive
stats p = record {
  size = p.cfg.size;
  alive = count_alive p p.all;
  busy = length p.all - length p.slots;
}

unfoldable pub is_exhausted : Pool → Bool
is_exhausted p = length p.slots == 0
