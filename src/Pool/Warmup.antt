-- ===== src/Pool/Warmup.antt =====
-- `New` and `Warmup` of internal/pool/pool.go, with initSlot and captureCatalogWithRetry. The
-- model catalog's own state is in Catalog: here a probe counts a turn, and ends the retries.
use otto_gateway.Base.{
  ℕ, zero, suc, String, Bool, true, false, not, Option, none, some, List, [], ◌∷◌, ◌++◌, ◌==◌,
  if◌then◌else◌,
}
use otto_gateway.Pool.State.{Config, Pool, Slot, recycling, closes}
use otto_gateway.Pool.Slots.{write, call}
use otto_gateway.Pool.Respawn.{
  Spawned, spawn_err, initialize_err, worker, begin_respawn, respawn_slot,
}
use otto_gateway.Pool.Release.{is_worn, max_turns_trigger}
use otto_gateway.Pool.Idle.{count_probe}
use otto_gateway.Pool.Close.{close_all}

-- A slot that `initSlot` has not filled yet.
abbrev pub no_slot : Slot
no_slot = record {
  label = "";
  client = none;
  dead = false;
  turns = 0;
  respawning = false;
  spawned_at = none;
  user_requests_since_spawn = 0;
  last_user_release_at = none;
  checked_out = false;
}

-- A size that is not positive is 1.
unfoldable pub apply_defaults : Config → Config
apply_defaults cfg = record cfg { size = if cfg.size == 0 then 1 else cfg.size }

unfoldable pub new : Config → Pool
unfolding apply_defaults
new cfg = record {
  cfg = apply_defaults cfg;
  slots = [];
  all = [];
  heap = λ i. no_slot;
  session_slots = [];
  session_sequences = [];
  closed = false;
  closing = false;
  recycles_in_flight = 0;
  respawns = 0;
  recycles = 0;
  last_spawn_err = none;
  calls = [];
  lost = [];
}

-- A probe's answer: none where NewSession failed, else the session and whether models came.
abbrev pub Probe : Type 0
Probe = Option (String × Bool)

-- What the world answers while slot `i` is warmed up.
pub record WarmAnswer : Type 0 where
  pub label : String
  pub now : ℕ
  pub spawned : Spawned
  pub probes : List Probe
  pub respawned : Spawned

-- The client's slot, or the error: a worker that does not initialize is closed.
unfoldable pub init_slot : Pool → ℕ → String → Spawned → ℕ → Pool × Bool
init_slot p i label (spawn_err c e) now = (p, false)
init_slot p i label (initialize_err d c e) now = (call p (closes d), false)
init_slot p i label (worker c) now =
    (write p i (record no_slot { label = label; client = some c; spawned_at = some now }), true)

-- The probes of the first slot: the list ends where the retries or the context do. A probe that
-- brings models ends them too.
unfoldable pub capture_catalog : Pool → ℕ → List Probe → Pool
unfolding count_probe
capture_catalog p i [] = p
capture_catalog p i (none ∷ probes) = capture_catalog p i probes
capture_catalog p i (some (sid, models) ∷ probes) =
    let counted = count_probe p i sid in
    let rest = capture_catalog counted i probes in if models then counted else rest

-- The slot's recycle where the probes have used up its turns.
unfoldable pub warm_recycle : Pool → ℕ → WarmAnswer → Pool × Bool
unfolding begin_respawn
warm_recycle p i a =
    if is_worn p i
    then (let cause = recycling (max_turns_trigger p i) in
        respawn_slot (begin_respawn p i cause).0 i cause a.respawned a.now)
    else (p, true)

abbrev pub enlist : Pool → ℕ → Pool
enlist p i = record p { all = p.all ++ (i ∷ []) }

abbrev pub send : Pool → ℕ → Pool
send p i = record p { slots = p.slots ++ (i ∷ []) }

-- One round of the loop. On a failure all that was started is closed.
unfoldable pub warm_slot : Pool → ℕ → WarmAnswer → Pool × Bool
unfolding init_slot capture_catalog warm_recycle
warm_slot p i a =
    let (started, ready) = init_slot p i a.label a.spawned a.now in
    let probed = if i == 0 then capture_catalog started i a.probes else started in
    let (recycled, serves) = warm_recycle (enlist probed i) i a in
    if not ready
    then (close_all started, false)
    else if not serves
    then (close_all recycled, false)
    else (send recycled i, true)

-- Rounds `i`, `i + 1`, … , as many as are left; the Boolean is Warmup's success.
unfoldable pub warm_slots : ℕ → ℕ → Pool → (ℕ → WarmAnswer) → Pool × Bool
unfolding warm_slot
warm_slots zero i p answers = (p, true)
warm_slots (suc left) i p answers =
    let (p', ok) = warm_slot p i (answers i) in
    let rest = warm_slots left (suc i) p' answers in if ok then rest else (p', false)

unfoldable pub warmup : Config → (ℕ → WarmAnswer) → Pool × Bool
unfolding new warm_slots
warmup cfg answers = warm_slots (new cfg).cfg.size 0 (new cfg) answers
