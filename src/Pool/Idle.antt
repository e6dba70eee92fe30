-- ===== src/Pool/Idle.antt =====
-- internal/pool/idle_recycle.go, and the slot's way through runCatalogRefresh and probeCatalogOnce
-- (internal/pool/catalog_refresh.go, internal/pool/pool.go).
use otto_gateway.Base.{
  ℕ, ◌+◌, ◌-◌, ◌*◌, ◌/◌, String, Bool, not, ◌&&◌, Option, none, some, is_some, ltb, leb, ◌==◌,
  if◌then◌else◌,
}
use otto_gateway.Pool.State.{
  Pool, Config, Slot, idle_memory, cancels, inspecting, releasing, returning, probing, Next, go,
}
use otto_gateway.Pool.Slots.{write, call, slot_alive, mark_slot_checked_out}

abbrev pub second : ℕ
second = 1_000_000_000

-- A quarter of the period, between one second and thirty.
unfoldable pub idle_sweep_cadence : ℕ → ℕ
idle_sweep_cadence after =
    let d = after / 4 in
    if ltb d second then second else if ltb (30 * second) d then 30 * second else d

-- The read of the memory: none where the worker has no pid (0), the platform has no reader, or the
-- read fails.
unfoldable pub read_memory : Config → ℕ → Option ℕ
read_memory cfg pid = elim cfg.read_worker_memory [
  | none ↦ none
  | some read ↦ if pid == 0 then none else read pid
]

-- `p.cfg.Now().Sub(lastRelease)`, at least 0. The zero time is excluded by the caller.
abbrev pub idle_since : ℕ → Option ℕ → ℕ
idle_since now none = 0
idle_since now (some t) = now - t

abbrev pub can_recycle_idle : Pool → Slot → ℕ → Bool
can_recycle_idle p slot now =
    not p.closed
    && not slot.dead
    && not slot.respawning
    && not (slot.user_requests_since_spawn == 0)
    && is_some slot.last_user_release_at
    && leb p.cfg.idle_recycle_after (idle_since now slot.last_user_release_at)
    && p.cfg.worker_memory_supported
    && is_some p.cfg.read_worker_memory

unfoldable pub inspect_idle_worker : Pool → ℕ → ℕ → ℕ → Pool × Next
unfolding read_memory
inspect_idle_worker p s now pid =
    let slot = p.heap s in
    if can_recycle_idle p slot now
    then elim (read_memory p.cfg pid) [
      | none ↦ (p, go (releasing s))
      | some rss ↦ if leb rss p.cfg.idle_recycle_memory_bytes then (p, go (releasing s)) else (
        p,
        go (
            returning s (
              some (record {
                reason = idle_memory;
                turns = slot.turns;
                user_requests = slot.user_requests_since_spawn;
                pid = pid;
                rss_bytes = rss;
                idle = idle_since now slot.last_user_release_at;
              }))),
      )
    ]
    else (p, go (releasing s))

unfoldable pub sweep_mark : Pool → ℕ → Pool × Next
unfolding mark_slot_checked_out
sweep_mark p s = (mark_slot_checked_out p s, go (inspecting s))

unfoldable pub refresh_mark : Pool → ℕ → Pool × Next
unfolding mark_slot_checked_out
refresh_mark p s = (mark_slot_checked_out p s, go (probing s))

-- The probe's turn is counted, and its session cancelled at the worker.
unfoldable pub count_probe : Pool → ℕ → String → Pool
count_probe p s sid =
    let slot = p.heap s in
    let p' = write p s (record slot { turns = slot.turns + 1 }) in
    elim slot.client [ none ↦ p' | some c ↦ call p' (cancels c sid) ]

-- A dead slot is not probed. On an answer the turn is counted and the probe's session cancelled.
-- On every path the slot is released.
unfoldable pub probe_catalog : Pool → ℕ → Option String → Pool × Next
unfolding slot_alive count_probe
probe_catalog p s none = (p, go (releasing s))
probe_catalog p s (some sid) =
    if slot_alive p s then (count_probe p s sid, go (releasing s)) else (p, go (releasing s))
