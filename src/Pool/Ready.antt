-- ===== src/Pool/Ready.antt =====
-- What a successful `Warmup` of internal/pool/pool.go leaves: a pool that is open and owns every
-- slot once.
use otto_gateway.Base.{
  ℕ, zero, suc, ◌+◌, ◌≡◌, refl, ap, ◌∙◌, subst, inl, inr, Bool-cases, String, true, false, none,
  some, List, [], ◌∷◌, ◌++◌, arith, sum_of, sum_of-append, ltb, if◌then◌else◌,
}
use otto_gateway.Pool.State.{Config, Pool, Cause, recycling, lookup}
use otto_gateway.Pool.Respawn.{
  Spawned, spawn_err, initialize_err, worker, begin_respawn, respawn_slot,
}
use otto_gateway.Pool.Release.{max_turns_trigger}
use otto_gateway.Pool.Idle.{count_probe}
use otto_gateway.Pool.Machine.{System, Event, run}
use otto_gateway.Pool.Weights.{total}
use otto_gateway.Pool.Exclusive.{is_slot, holders, lease_unique}
use otto_gateway.Pool.Lossless.{IsSound, one}
use otto_gateway.Pool.Flight.{IsSingleFlight}
use otto_gateway.Pool.Warmup.{
  Probe, WarmAnswer, apply_defaults, new, init_slot, capture_catalog, warm_recycle, warm_slot,
  warm_slots, warmup, enlist,
}

-- The weights of the slots 0, 1, … below a bound.
abbrev pub sum_below : (ℕ → ℕ) → ℕ → ℕ
sum_below w zero = 0
sum_below w (suc n) = sum_below w n + w n

-- The parts of the pool that say where slots are.
record Same (p q : Pool) : Type 0 where
  cfg : q.cfg ≡ p.cfg
  slots : q.slots ≡ p.slots
  sessions : q.session_slots ≡ p.session_slots
  flight : q.recycles_in_flight ≡ p.recycles_in_flight
  lost : q.lost ≡ p.lost
  closed : q.closed ≡ p.closed
  closing : q.closing ≡ p.closing

init_slot-Same :
    (p : Pool) (i : ℕ) (label : String) (a : Spawned) (now : ℕ)
    → Same p (init_slot p i label a now).0
unfolding init_slot
init_slot-Same p i label (spawn_err c e) now = ground arith
init_slot-Same p i label (initialize_err d c e) now = ground arith
init_slot-Same p i label (worker c) now = ground arith

count_probe-Same : (p : Pool) (i : ℕ) (sid : String) → Same p (count_probe p i sid)
unfolding count_probe
count_probe-Same p i sid = ground arith

capture_catalog-Same : (p : Pool) (i : ℕ) (ps : List Probe) → Same p (capture_catalog p i ps)
unfolding capture_catalog
capture_catalog-Same p i [] = ground arith
capture_catalog-Same p i (none ∷ ps) = capture_catalog-Same p i ps
capture_catalog-Same p i (some (sid, true) ∷ ps) = count_probe-Same p i sid
capture_catalog-Same p i (some (sid, false) ∷ ps) =
    ground (arith, count_probe-Same p i sid, capture_catalog-Same (count_probe p i sid) i ps)

respawn_slot-Same :
    (p : Pool) (s : ℕ) (cause : Cause) (a : Spawned) (now : ℕ)
    → Same p (respawn_slot p s cause a now).0
unfolding respawn_slot
respawn_slot-Same p s cause (spawn_err c e) now = ground arith
respawn_slot-Same p s cause (initialize_err d c e) now = ground arith
respawn_slot-Same p s cause (worker c) now = ground arith

begin_respawn-Same : (p : Pool) (s : ℕ) (cause : Cause) → Same p (begin_respawn p s cause).0
unfolding begin_respawn
begin_respawn-Same p s cause = ground arith

warm_recycle-Same : (p : Pool) (i : ℕ) (a : WarmAnswer) → Same p (warm_recycle p i a).0
unfolding warm_recycle
warm_recycle-Same p i a =
    let cause = recycling (max_turns_trigger p i) in
    ground (
      arith,
      respawn_slot-Same (begin_respawn p i cause).0 i cause a.respawned a.now,
      begin_respawn-Same p i cause,
    )

-- The pool after `n` rounds.
record IsWarm (cfg : Config) (n : ℕ) (p : Pool) : Type 0 where
  same_cfg : p.cfg ≡ cfg
  free : (w : ℕ → ℕ) → sum_of w p.slots ≡ sum_below w n
  no_sessions : p.session_slots ≡ []
  no_flight : p.recycles_in_flight ≡ 0
  none_lost : p.lost ≡ []
  unclosed : p.closed ≡ false
  running : p.closing ≡ false

-- A round that succeeds adds its slot to the channel.
record Adds (i : ℕ) (p q : Pool) : Type 0 where
  cfg : q.cfg ≡ p.cfg
  slots : q.slots ≡ p.slots ++ (i ∷ [])
  sessions : q.session_slots ≡ p.session_slots
  flight : q.recycles_in_flight ≡ p.recycles_in_flight
  lost : q.lost ≡ p.lost
  closed : q.closed ≡ p.closed
  closing : q.closing ≡ p.closing

warm_slot-Adds :
    (p : Pool) (i : ℕ) (a : WarmAnswer) → (warm_slot p i a).1 ≡ true → Adds i p (warm_slot p i a).0
unfolding warm_slot
warm_slot-Adds p i a ok =
    let started = (init_slot p i a.label a.spawned a.now).0 in
    let first = capture_catalog started i a.probes in
    ground (
      arith,
      ok,
      init_slot-Same p i a.label a.spawned a.now,
      capture_catalog-Same started i a.probes,
      warm_recycle-Same (enlist started i) i a,
      warm_recycle-Same (enlist first i) i a,
    )

Adds-IsWarm :
    (cfg : Config) (i : ℕ) (p q : Pool) → IsWarm cfg i p → Adds i p q → IsWarm cfg (suc i) q
Adds-IsWarm cfg i p q v a = record {
  same_cfg = a.cfg ∙ v.same_cfg;
  free = λ w. omega (arith, ap (sum_of w) a.slots, sum_of-append w p.slots (i ∷ []), v.free w);
  no_sessions = a.sessions ∙ v.no_sessions;
  no_flight = a.flight ∙ v.no_flight;
  none_lost = a.lost ∙ v.none_lost;
  unclosed = a.closed ∙ v.unclosed;
  running = a.closing ∙ v.running;
}

warm_slots-IsWarm :
    (cfg : Config) (left i n : ℕ) (p : Pool) (answers : ℕ → WarmAnswer)
    → n ≡ i + left
    → IsWarm cfg i p
    → (warm_slots left i p answers).1 ≡ true
    → IsWarm cfg n (warm_slots left i p answers).0
unfolding warm_slots
warm_slots-IsWarm cfg zero i n p answers e v ok = subst (λ k. IsWarm cfg k p) (omega arith) v
warm_slots-IsWarm cfg (suc left) i n p answers e v ok =
    elim (Bool-cases (warm_slot p i (answers i)).1) [
      | inl good ↦
          rw (good, warm_slots)
            (warm_slots-IsWarm cfg left (suc i) n (warm_slot p i (answers i)).0 answers
              (omega arith) (Adds-IsWarm cfg i p _ v (warm_slot-Adds p i (answers i) good))
              (rw (good, warm_slots) at ok))
      | inr bad ↦ absurd (ground arith)
    ]

warmup-IsWarm :
    (cfg : Config) (answers : ℕ → WarmAnswer)
    → (warmup cfg answers).1 ≡ true
    → IsWarm (apply_defaults cfg) (apply_defaults cfg).size (warmup cfg answers).0
unfolding warmup new
warmup-IsWarm cfg answers ok =
    let size = (apply_defaults cfg).size in
    warm_slots-IsWarm (apply_defaults cfg) size 0 size (new cfg) answers (omega arith)
      (record {
        same_cfg = refl;
        free = λ w. refl;
        no_sessions = refl;
        no_flight = refl;
        none_lost = refl;
        unclosed = refl;
        running = refl;
      })
      ok

sum_below-one : (n : ℕ) → sum_below one n ≡ n
sum_below-one zero = refl
sum_below-one (suc n) = omega (arith, sum_below-one n)

sum_below-is_slot : (s n : ℕ) → sum_below (is_slot s) n ≡ (if ltb s n then 1 else 0)
sum_below-is_slot s zero = ground arith
sum_below-is_slot s (suc n) = ground (arith, sum_below-is_slot s n)

-- The system that `Warmup` leaves: no goroutine owns a slot yet.
abbrev pub warmed : Config → (ℕ → WarmAnswer) → System
warmed cfg answers = record { pool = (warmup cfg answers).0; tasks = [] }

-- A Warmup that succeeds leaves an open pool that satisfies the invariants of ownership and of
-- single flight, and in which each slot below the
-- size, after the defaults, is in exactly one place and no other slot is
-- anywhere.
pub warmup-IsSound :
    (cfg : Config) (answers : ℕ → WarmAnswer) (s : ℕ)
    → (warmup cfg answers).1 ≡ true
    → IsSound (warmed cfg answers)
      × IsSingleFlight (warmed cfg answers)
      × (holders s (warmed cfg answers) ≡ (if ltb s (apply_defaults cfg).size then 1 else 0))
warmup-IsSound cfg answers s ok =
    let v = warmup-IsWarm cfg answers ok in
    let size : (warmup cfg answers).0.cfg.size ≡ (apply_defaults cfg).size =
      ap (λ (c : Config). c.size) v.same_cfg in
    let weigh : (w : ℕ → ℕ) → total w (warmed cfg answers) ≡ sum_below w (apply_defaults cfg).size =
      λ w. rw (v.no_sessions, v.none_lost) (omega (arith, v.free w)) in
    (
      record {
        room = omega (arith, weigh one, sum_below-one (apply_defaults cfg).size, size);
        kept = λ o n. v.none_lost;
      },
      record { counted = v.no_flight; single = omega (arith, v.no_flight) },
      weigh (is_slot s) ∙ sum_below-is_slot s (apply_defaults cfg).size,
    )

-- From a Warmup that succeeded, whatever the events: two sessions that are bound to the same worker
-- are the same session.
pub session_workers_distinct :
    (cfg : Config) (answers : ℕ → WarmAnswer) (es : List Event) (s : ℕ) (sid other : String)
    → (warmup cfg answers).1 ≡ true
    → lookup sid (run (warmed cfg answers) es).pool.session_slots ≡ some s
    → lookup other (run (warmed cfg answers) es).pool.session_slots ≡ some s
    → sid ≡ other
session_workers_distinct cfg answers es s sid other ok e f =
    lease_unique (warmed cfg answers) es s sid other
      (ground (arith, (warmup-IsSound cfg answers s ok).2)) e f
