-- ===== src/Session/Handout.antt =====
-- The handoff between `Get` and the reaper of internal/session.
use otto_gateway.Base.{ℕ, ◌+◌, ◌≤◌, ◌≡◌, String, false, some, arith, Option-cases, inl, inr}
use otto_gateway.Pool.State.{lookup}
use otto_gateway.Session.Registry.{Registry, get, get_entry, install_placeholder, reap_check, hands}

-- What an entry that `Get` hands to its caller is.
pub record Serves (r : Registry) (sid : String) (e now : ℕ) (r' : Registry) : Type 0 where
  mapped : lookup sid r'.entries ≡ some e
  alive : (r'.heap e).dead ≡ false
  complete : (r'.heap e).creating ≡ false
  stamped : (r'.heap e).last_used ≡ now
  cfg : r'.cfg ≡ r.cfg

get_entry-Serves :
    (r : Registry) (sid : String) (i e now : ℕ)
    → lookup sid r.entries ≡ some i
    → (get_entry r sid i now).1 ≡ hands e
    → Serves r sid e now (get_entry r sid i now).0
unfolding get_entry install_placeholder
get_entry-Serves r sid i e now m h = ground arith

get-found :
    (r : Registry) (sid : String) (e now : ℕ)
    → (get r sid now).1 ≡ hands e
    → (i : ℕ) × (lookup sid r.entries ≡ some i) × (get r sid now ≡ get_entry r sid i now)
unfolding get install_placeholder
get-found r sid e now h = elim (Option-cases (lookup sid r.entries)) [
  | inl m ↦ absurd (ground arith)
  | inr (i, m) ↦ (i, m, ground arith)
]

get-Serves :
    (r : Registry) (sid : String) (e now : ℕ)
    → (get r sid now).1 ≡ hands e
    → Serves r sid e now (get r sid now).0
get-Serves r sid e now h =
    let (i, m, found) = get-found r sid e now h in
    rw (found) (get_entry-Serves r sid i e now m (rw (found) at h))

-- An entry that `Get` hands to its caller is the one of the session, neither dead nor in creation,
-- and a reaper that inspects it no later than the TTL after the handoff leaves it and its worker as
-- they are, even where the caller has not taken the entry's lock yet.
pub handout_spared :
    (r : Registry) (sid : String) (e now later : ℕ)
    → (get r sid now).1 ≡ hands e
    → later ≤ now + r.cfg.ttl
    → Serves r sid e now (get r sid now).0
      × (reap_check (get r sid now).0 e later ≡ ((get r sid now).0, false))
unfolding reap_check
handout_spared r sid e now later h t = let s = get-Serves r sid e now h in (s, ground arith)
