-- ===== src/Session/Evolves.antt =====
-- What the operations of internal/session/registry.go do to the entries that exist: which workers
-- they keep reachable, and which they close.
use otto_gateway.Base.{
  ℕ, Option, ◌≡◌, refl, String, Bool, true, false, ◌||◌, none, some, List, [], ◌∷◌, arith,
  Option-cases, Bool-cases, ◌⊎◌, inl, inr, ◌==◌, str_eq, eq_iff,
}
use otto_gateway.Pool.State.{ClientCall, cancels, closes, lookup, delete}
use otto_gateway.Session.Registry.{
  Registry, shut, recycle_entry, publish_error, watch_entry, delete_session, reap_check,
  reap_remove,
}

-- Whether the worker was closed.
abbrev pub is_shut : ℕ → List ClientCall → Bool
is_shut c [] = false
is_shut c (closes d ∷ cs) = c == d || is_shut c cs
is_shut c (cancels d sid ∷ cs) = is_shut c cs

-- The entry's worker, if it has one, was closed.
abbrev pub HasShut : Registry → ℕ → Type 0
HasShut r e = (c : ℕ) → (r.heap e).client ≡ some c → is_shut c r.calls ≡ true

-- A step that creates no entry and publishes none: workers stay where they are, and an entry leaves
-- the map, or is marked dead, only with its worker closed.
pub record Evolves (r r' : Registry) : Type 0 where
  pub fresh : r'.fresh ≡ r.fresh
  pub calls : (c : ℕ) → is_shut c r.calls ≡ true → is_shut c r'.calls ≡ true
  pub clients : (e : ℕ) → (r'.heap e).client ≡ (r.heap e).client
  pub creating : (e : ℕ) → (r'.heap e).creating ≡ (r.heap e).creating
  pub unborn :
      (e : ℕ)
      → (r.heap e).creating ≡ true
      → (r.heap e).client ≡ none
      → (r'.heap e).dead ≡ (r.heap e).dead
  pub dead : (e : ℕ) → (r'.heap e).dead ≡ true → ((r.heap e).dead ≡ true) ⊎ HasShut r' e
  pub mapped :
      (sid : String) (e c : ℕ)
      → lookup sid r.entries ≡ some e
      → (r.heap e).client ≡ some c
      → (is_shut c r'.calls ≡ true) ⊎ (lookup sid r'.entries ≡ some e)

pub lookup-delete_ne :
    (k sid : String) (m : List (String × ℕ))
    → str_eq sid k ≡ false
    → lookup k (delete sid m) ≡ lookup k m
unfolding lookup delete
lookup-delete_ne k sid [] h = refl
lookup-delete_ne k sid ((j, v) ∷ m) h = elim (Bool-cases (str_eq j sid)) [
  | inl e ↦ ground (arith, eq_iff j sid, eq_iff j k, eq_iff sid k)
  | inr e ↦ ground (arith, lookup-delete_ne k sid m h)
]

-- A look-up survives the removal of another key.
pub survives :
    (k sid : String) (m : List (String × ℕ)) (e : ℕ)
    → lookup k m ≡ some e
    → (sid ≡ k) ⊎ (lookup k (delete sid m) ≡ some e)
survives k sid m e h = elim (Bool-cases (str_eq sid k)) [
  | inl same ↦ inl (ground (arith, eq_iff sid k))
  | inr differ ↦ inr (ground (arith, lookup-delete_ne k sid m differ))
]

pub shut-shuts :
    (r : Registry) (e c : ℕ) → (r.heap e).client ≡ some c → is_shut c (shut r e).calls ≡ true
unfolding shut
shut-shuts r e c h = ground arith

pub recycle_entry-Evolves :
    (r : Registry) (sid : String) (e : ℕ)
    → lookup sid r.entries ≡ some e
    → Evolves r (recycle_entry r sid e)
unfolding recycle_entry shut
recycle_entry-Evolves r sid e m = record {
  fresh = ground arith;
  calls = λ c h. ground arith;
  clients = λ i. ground arith;
  creating = λ i. ground arith;
  unborn = λ i h g. ground arith;
  dead = λ i h. inl (ground arith);
  mapped = λ k i c l h. elim (survives k sid r.entries i l) [
    | inl same ↦ inl (ground (arith, m, l, h, same))
    | inr lives ↦ inr (ground (arith, lives))
  ];
}

pub delete_session-Evolves : (r : Registry) (sid : String) → Evolves r (delete_session r sid).0
unfolding delete_session shut
delete_session-Evolves r sid = elim (Option-cases (lookup sid r.entries)) [
  | inl m ↦ rw (m, delete_session) (ground arith)
  | inr (e, m) ↦ record {
    fresh = ground arith;
    calls = λ c h. ground arith;
    clients = λ i. ground arith;
    creating = λ i. ground arith;
    unborn = λ i h g. ground arith;
    dead = λ i h. inl (ground arith);
    mapped = λ k i c l h. elim (survives k sid r.entries i l) [
      | inl same ↦ inl (ground (arith, m, l, h, same))
      | inr lives ↦ inr (ground (arith, lives))
    ];
  }
]

-- The failure of a creation, at an entry that has no worker yet.
pub publish_error-Evolves :
    (r : Registry) (sid : String) (e : ℕ) (client : Option ℕ)
    → (r.heap e).client ≡ none
    → Evolves r (publish_error r sid e client)
unfolding publish_error
publish_error-Evolves r sid e client n = record {
  fresh = ground arith;
  calls = λ c h. ground arith;
  clients = λ i. ground arith;
  creating = λ i. ground arith;
  unborn = λ i h g. ground arith;
  dead = λ i h. inl (ground arith);
  mapped = λ k i c l h. elim (survives k sid r.entries i l) [
    | inl same ↦ inr (ground (arith, n, l, h, same))
    | inr lives ↦ inr (ground (arith, lives))
  ];
}

pub watch_entry-Evolves : (r : Registry) (sid : String) (e : ℕ) → Evolves r (watch_entry r sid e)
unfolding watch_entry
watch_entry-Evolves r sid e = elim (Option-cases (r.heap e).client) [
  | inl n ↦ rw (n, watch_entry) (ground arith)
  | inr (c', n) ↦ record {
    fresh = ground arith;
    calls = λ c h. ground arith;
    clients = λ i. ground arith;
    creating = λ i. ground arith;
    unborn = λ i h g. ground arith;
    dead = λ i h. elim (Bool-cases (i == e)) [
      | inl same ↦ inr (λ c g. ground arith)
      | inr differ ↦ inl (ground arith)
    ];
    mapped = λ k i c l h. elim (survives k sid r.entries i l) [
      | inl same ↦ elim (Bool-cases (i == e)) [
        | inl at_e ↦ inl (ground arith)
        | inr other ↦ inr (ground arith)
      ]
      | inr lives ↦ inr (ground (arith, lives))
    ];
  }
]

pub reap_check-Evolves : (r : Registry) (e now : ℕ) → Evolves r (reap_check r e now).0
unfolding reap_check shut
reap_check-Evolves r e now = record {
  fresh = ground arith;
  calls = λ c h. ground arith;
  clients = λ i. ground arith;
  creating = λ i. ground arith;
  unborn = λ i h g. ground arith;
  dead = λ i h. inl (ground arith);
  mapped = λ k i c l h. inr (ground arith);
}

-- The removal by the reaper of an entry whose worker it has closed.
pub reap_remove-Evolves :
    (r : Registry) (sid : String) (e : ℕ)
    → (r.heap e).creating ≡ false
    → HasShut r e
    → Evolves r (reap_remove r sid e)
unfolding reap_remove
reap_remove-Evolves r sid e settled gone = record {
  fresh = ground arith;
  calls = λ c h. ground arith;
  clients = λ i. ground arith;
  creating = λ i. ground arith;
  unborn = λ i h g. ground arith;
  dead = λ i h. elim (Bool-cases (i == e)) [
    | inl same ↦ inr (λ c g. ground (arith, gone c))
    | inr differ ↦ inl (ground arith)
  ];
  mapped = λ k i c l h. elim (survives k sid r.entries i l) [
    | inl same ↦ elim (Bool-cases (i == e)) [
      | inl at_e ↦ inl (ground (arith, gone c))
      | inr other ↦ inr (ground arith)
    ]
    | inr lives ↦ inr (ground (arith, lives))
  ];
}
