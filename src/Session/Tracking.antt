-- ===== src/Session/Tracking.antt =====
-- Every step of internal/session keeps its workers tracked.
use otto_gateway.Base.{
  ℕ, ◌≡◌, refl, sym, subst, String, Bool, true, false, none, some, List, ◌∷◌, arith, Option-cases,
  Bool-cases, ◌⊎◌, inl, inr, if◌then◌else◌, ltb, leb, ◌&&◌, not, str_eq, eq_iff, length,
}
use otto_gateway.Pool.State.{lookup, delete, assign}
use otto_gateway.Session.Registry.{
  Registry, put, get, get_entry, install_placeholder, Got, hands, creates, waits, retries,
  is_closed, max_exceeded, recycle_entry,
}
use otto_gateway.Session.Machine.{Sessions, got}
use otto_gateway.Session.Evolves.{
  is_shut, HasShut, Evolves, lookup-delete_ne, recycle_entry-Evolves,
}
use otto_gateway.Session.Teardown.{still, hand-Evolves, drop_dead-Evolves}
use otto_gateway.Session.Workers.{IsTracked, Evolves-IsTracked, Places, Places-IsTracked}

survives_assign :
    (k sid : String) (m : List (String × ℕ)) (v e : ℕ)
    → lookup k m ≡ some e
    → (sid ≡ k) ⊎ (lookup k (assign sid v m) ≡ some e)
unfolding lookup assign
survives_assign k sid m v e h = elim (Bool-cases (str_eq sid k)) [
  | inl same ↦ inl (ground (arith, eq_iff sid k))
  | inr differ ↦ inr (ground (arith, lookup-delete_ne k sid m differ))
]

-- What a round of `Get` does, by how it ends.
abbrev Follows : Registry → String → Registry × Got → Type 0
Follows r sid (r', creates e) = (e ≡ r.fresh) × Places r sid r'
Follows r sid (r', hands e) = Evolves r r'
Follows r sid (r', waits e) = Evolves r r'
Follows r sid (r', retries) = Evolves r r'
Follows r sid (r', is_closed) = Evolves r r'
Follows r sid (r', max_exceeded) = Evolves r r'

Follows-if :
    (r : Registry) (sid : String) (b : Bool) (x y : Registry × Got)
    → (b ≡ true → Follows r sid x)
    → (b ≡ false → Follows r sid y)
    → Follows r sid (if b then x else y)
Follows-if r sid true x y f g = f refl
Follows-if r sid false x y f g = g refl

-- The placeholder of a session that has no entry, or a dead one.
install-Follows :
    (r : Registry) (sid : String) (m : List (String × ℕ))
    → Evolves r (record r { entries = m })
    → ((k : String) (i c : ℕ)
        → lookup k r.entries ≡ some i
        → (r.heap i).client ≡ some c
        → (is_shut c r.calls ≡ true) ⊎ (lookup k (assign sid r.fresh m) ≡ some i))
    → Follows r sid (install_placeholder (record r { entries = m }) sid)
unfolding install_placeholder
install-Follows r sid m v g = elim (Bool-cases (leb r.cfg.max_sessions (length m))) [
  | inl full ↦ rw (full, install_placeholder) v
  | inr room ↦
      rw (room, install_placeholder)
        (refl, record { fresh = refl; calls = refl; heap = λ i. refl; mapped = g })
]

replaced :
    (r : Registry) (sid : String) (e : ℕ)
    → lookup sid r.entries ≡ some e
    → HasShut r e
    → (k : String) (i c : ℕ) → lookup k r.entries ≡ some i
    → (r.heap i).client ≡ some c
    → (is_shut c r.calls ≡ true) ⊎ (lookup k (assign sid r.fresh (delete sid r.entries)) ≡ some i)
replaced r sid e m gone k i c l h = elim (Bool-cases (str_eq sid k)) [
  | inl same ↦ inl (ground (arith, gone c, eq_iff sid k))
  | inr differ ↦ inr (
      unfold assign lookup in
      ground (
        arith,
        lookup-delete_ne k sid (delete sid r.entries) differ,
        lookup-delete_ne k sid r.entries differ,
      ))
]

get_entry-Follows :
    (r : Registry) (sid : String) (e now : ℕ)
    → lookup sid r.entries ≡ some e
    → ((r.heap e).dead ≡ true → HasShut r e)
    → Follows r sid (get_entry r sid e now)
unfolding get_entry
get_entry-Follows r sid e now m g =
    let x = r.heap e in
    let worn = ltb 0 r.cfg.recycle_pct && leb r.cfg.recycle_pct x.ctx_pct && not x.locked in
    let replacing = install_placeholder (record r { entries = delete sid r.entries }) sid in
    let recycling : Registry × Got = (recycle_entry r sid e, retries) in
    let handing : Registry × Got = (put r e (record x { last_used = now }), hands e) in
    let settled : Registry × Got = if worn then recycling else handing in
    let waiting : Registry × Got = (r, waits e) in
    Follows-if r sid x.dead replacing (if x.creating then waiting else settled)
      (λ d.
        install-Follows r sid (delete sid r.entries) (drop_dead-Evolves r sid e m (g d))
          (replaced r sid e m (g d)))
      (λ alive.
        Follows-if r sid x.creating waiting settled (λ busy. still r)
          (λ made.
            Follows-if r sid worn recycling handing (λ over. recycle_entry-Evolves r sid e m)
              (λ serves. hand-Evolves r e now)))

pub get-Follows :
    (r : Registry) (sid : String) (now : ℕ)
    → ((e : ℕ) → (r.heap e).dead ≡ true → HasShut r e)
    → Follows r sid (get r sid now)
unfolding get
get-Follows r sid now g =
    let looked : Registry × Got = elim (lookup sid r.entries) [
      | none ↦ install_placeholder r sid
      | some e ↦ get_entry r sid e now
    ] in
    Follows-if r sid r.closed (r, is_closed) looked (λ over. still r)
      (λ serving. elim (Option-cases (lookup sid r.entries)) [
        | inl m ↦ rw (m) (
            install-Follows r sid r.entries (still r) (λ k i c l h.
              elim (survives_assign k sid r.entries r.fresh i l) [
                | inl same ↦ absurd (ground (arith, m, l, same))
                | inr lives ↦ inr lives
              ]))
        | inr (e, m) ↦ rw (m) (get_entry-Follows r sid e now m (g e))
      ])

pub got-IsTracked :
    (c : Sessions) (sid : String) (o : Registry × Got)
    → IsTracked c
    → Follows c.registry sid o
    → IsTracked (got c sid o)
got-IsTracked c sid (r', creates e) t (new, v) =
    subst (λ i. IsTracked (record c { registry = r'; creators = (sid, i) ∷ c.creators })) (sym new)
      (Places-IsTracked c sid r' t v)
got-IsTracked c sid (r', hands e) t v = Evolves-IsTracked c r' t v
got-IsTracked c sid (r', waits e) t v = Evolves-IsTracked c r' t v
got-IsTracked c sid (r', retries) t v = Evolves-IsTracked c r' t v
got-IsTracked c sid (r', is_closed) t v = Evolves-IsTracked c r' t v
got-IsTracked c sid (r', max_exceeded) t v = Evolves-IsTracked c r' t v
