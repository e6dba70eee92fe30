-- ===== src/Session/Workers.antt =====
-- No worker of internal/session is forgotten: one that was started is closed, or the map leads to it.
use otto_gateway.Base.{
  ℕ, suc, ◌≤◌, ◌≡◌, ◌∙◌, String, Bool, true, false, Option, none, some, List, [], ◌∷◌, arith,
  Bool-cases, ◌⊎◌, inl, inr, if◌then◌else◌, ltb, ◌==◌, ◌||◌, sum_of,
}
use otto_gateway.Pool.State.{lookup}
use otto_gateway.Session.Registry.{Registry, placeholder}
use otto_gateway.Session.Machine.{Sessions}
use otto_gateway.Session.Evolves.{is_shut, HasShut, Evolves}

-- An entry that no creation has filled.
pub record Virgin (r : Registry) (e : ℕ) : Type 0 where
  pub client : (r.heap e).client ≡ none
  pub creating : (r.heap e).creating ≡ true
  pub dead : (r.heap e).dead ≡ false

-- The map leads to the worker.
pub record Held (r : Registry) (c : ℕ) : Type 0 where
  pub sid : String
  pub entry : ℕ
  pub mapped : lookup sid r.entries ≡ some entry
  pub client : (r.heap entry).client ≡ some c

abbrev pub is_entry : ℕ → String × ℕ → ℕ
is_entry e x = if x.1 == e then 1 else 0

abbrev pub is_among : ℕ → List ℕ → Bool
is_among c [] = false
is_among c (d ∷ ds) = c == d || is_among c ds

-- A caller that is inside createEntry has started the worker.
pub record Starts (creators : List (String × ℕ)) (starting : ℕ → Option ℕ) (w : ℕ) : Type 0 where
  pub entry : ℕ
  pub client : starting entry ≡ some w
  pub creating : 1 ≤ sum_of (is_entry entry) creators

abbrev pub Starting : Sessions → ℕ → Type 0
Starting c w = Starts c.creators c.starting w

-- A worker is closed, or the map leads to it, or a caller inside createEntry has it.
abbrev pub Owned : Sessions → ℕ → Type 0
Owned c w = (is_shut w c.registry.calls ≡ true) ⊎ (Held c.registry w ⊎ Starting c w)

-- What becomes of workers: `owned` is the claim, the other fields say which entries are in creation,
-- and that an entry that is dead, or that the reaper is about to remove, has its worker closed.
pub record IsTracked (c : Sessions) : Type 0 where
  pub distinct :
      (e : ℕ) → sum_of (is_entry e) c.creators ≤ (if ltb e c.registry.fresh then 1 else 0)
  pub pending : (e : ℕ) → 1 ≤ sum_of (is_entry e) c.creators → Virgin c.registry e
  pub unborn : (e : ℕ) → c.registry.fresh ≤ e → Virgin c.registry e
  pub dead : (e : ℕ) → (c.registry.heap e).dead ≡ true → HasShut c.registry e
  pub snapshot : (e : ℕ) → 1 ≤ sum_of (is_entry e) c.snapshot → (c.registry.heap e).creating ≡ false
  pub reaping :
      (sid : String) (e : ℕ)
      → c.reaping ≡ some (sid, e)
      → ((c.registry.heap e).creating ≡ false) × HasShut c.registry e
  pub owned : (w : ℕ) → is_among w c.spawned ≡ true → Owned c w

pub closed_or_held : {P Q R : Type 0} → P ⊎ Q → P ⊎ (Q ⊎ R)
closed_or_held (inl gone) = inl gone
closed_or_held (inr held) = inr (inl held)

Evolves-Virgin : {r r' : Registry} {e : ℕ} → Evolves r r' → Virgin r e → Virgin r' e
Evolves-Virgin {r} {r'} {e} v g = record {
  client = v.clients e ∙ g.client;
  creating = v.creating e ∙ g.creating;
  dead = v.unborn e g.creating g.client ∙ g.dead;
}

Evolves-HasShut : {r r' : Registry} {e : ℕ} → Evolves r r' → HasShut r e → HasShut r' e
Evolves-HasShut {r} {r'} {e} v gone = λ c h. v.calls c (gone c (ground (arith, v.clients e)))

Evolves-Held :
    {r r' : Registry} {w : ℕ} → Evolves r r' → Held r w → (is_shut w r'.calls ≡ true) ⊎ Held r' w
Evolves-Held {r} {r'} {w} v h = elim (v.mapped h.sid h.entry w h.mapped h.client) [
  | inl gone ↦ inl gone
  | inr kept ↦ inr (record {
    sid = h.sid;
    entry = h.entry;
    mapped = kept;
    client = v.clients h.entry ∙ h.client;
  })
]

pub Evolves-IsTracked :
    (c : Sessions) (r' : Registry)
    → IsTracked c
    → Evolves c.registry r'
    → IsTracked (record c { registry = r' })
Evolves-IsTracked c r' t v = record {
  distinct = λ e. ground (arith, t.distinct e, v.fresh);
  pending = λ e h. Evolves-Virgin v (t.pending e h);
  unborn = λ e h. Evolves-Virgin v (t.unborn e (omega (arith, v.fresh)));
  dead = λ e h. elim (v.dead e h) [
    | inl before ↦ Evolves-HasShut v (t.dead e before)
    | inr gone ↦ gone
  ];
  snapshot = λ e h. v.creating e ∙ t.snapshot e h;
  reaping = λ sid e h.
      let (settled, gone) = t.reaping sid e h in (v.creating e ∙ settled, Evolves-HasShut v gone);
  owned = λ w h. elim (t.owned w h) [
    | inl gone ↦ inl (v.calls w gone)
    | inr (inl held) ↦ closed_or_held (Evolves-Held v held)
    | inr (inr s) ↦ inr (inr (record { entry = s.entry; client = s.client; creating = s.creating }))
  ];
}

-- What a new placeholder does: the other sessions keep their entries.
pub record Places (r : Registry) (sid : String) (r' : Registry) : Type 0 where
  pub fresh : r'.fresh ≡ suc r.fresh
  pub calls : r'.calls ≡ r.calls
  pub heap : (e : ℕ) → r'.heap e ≡ (if e == r.fresh then placeholder else r.heap e)
  pub mapped :
      (k : String) (e c : ℕ)
      → lookup k r.entries ≡ some e
      → (r.heap e).client ≡ some c
      → (is_shut c r.calls ≡ true) ⊎ (lookup k r'.entries ≡ some e)

Places-same :
    {r r' : Registry} {sid : String} {e : ℕ}
    → Places r sid r'
    → (e == r.fresh) ≡ false
    → r'.heap e ≡ r.heap e
Places-same {r} {r'} {sid} {e} v other = ground (arith, v.heap e)

Places-Virgin :
    {r r' : Registry} {sid : String} {e : ℕ}
    → Places r sid r'
    → ((e == r.fresh) ≡ false → Virgin r e)
    → Virgin r' e
Places-Virgin {r} {r'} {sid} {e} v g = elim (Bool-cases (e == r.fresh)) [
  | inl new ↦ record {
    client = ground (arith, v.heap e);
    creating = ground (arith, v.heap e);
    dead = ground (arith, v.heap e);
  }
  | inr other ↦ record {
    client = ground (arith, Places-same v other, (g other).client);
    creating = ground (arith, Places-same v other, (g other).creating);
    dead = ground (arith, Places-same v other, (g other).dead);
  }
]

-- An entry that is not in creation is not the new one.
Places-settled :
    {r r' : Registry} {sid : String} {e : ℕ}
    → Places r sid r'
    → (r.fresh ≤ e → Virgin r e)
    → (r.heap e).creating ≡ false
    → r'.heap e ≡ r.heap e
Places-settled {r} {r'} {sid} {e} v g settled = elim (Bool-cases (e == r.fresh)) [
  | inl new ↦ absurd (ground (arith, (g (ground arith)).creating))
  | inr other ↦ Places-same v other
]

Places-Held :
    {r r' : Registry} {sid : String} {w : ℕ}
    → Places r sid r'
    → ((e : ℕ) → r.fresh ≤ e → Virgin r e)
    → Held r w
    → (is_shut w r'.calls ≡ true) ⊎ Held r' w
Places-Held {r} {r'} {sid} {w} v g h = elim (v.mapped h.sid h.entry w h.mapped h.client) [
  | inl gone ↦ inl (ground (arith, v.calls))
  | inr kept ↦ elim (Bool-cases (h.entry == r.fresh)) [
    | inl new ↦ absurd (ground (arith, (g h.entry (ground arith)).client, h.client))
    | inr other ↦ inr (record {
      sid = h.sid;
      entry = h.entry;
      mapped = kept;
      client = ground (arith, Places-same v other, h.client);
    })
  ]
]

pub Places-IsTracked :
    (c : Sessions) (sid : String) (r' : Registry)
    → IsTracked c
    → Places c.registry sid r'
    → IsTracked (record c { registry = r'; creators = (sid, c.registry.fresh) ∷ c.creators })
Places-IsTracked c sid r' t v = record {
  distinct = λ e. ground (arith, t.distinct e, v.fresh);
  pending = λ e h. Places-Virgin v (λ other. t.pending e (ground arith));
  unborn = λ e h. Places-Virgin v (λ other. t.unborn e (omega (arith, v.fresh)));
  dead = λ e d g h. elim (Bool-cases (e == c.registry.fresh)) [
    | inl new ↦ absurd (ground (arith, v.heap e))
    | inr other ↦
        let same = Places-same v other in
        ground (arith, v.calls, t.dead e (ground (arith, same)) g (ground (arith, same)))
  ];
  snapshot = λ e h.
      let settled = t.snapshot e h in
      ground (arith, settled, Places-settled v (t.unborn e) settled);
  reaping = λ k e h.
      let (settled, gone) = t.reaping k e h in
      let same = Places-settled v (t.unborn e) settled in
      (ground (arith, settled, same), λ g i. ground (arith, same, v.calls, gone g));
  owned = λ w h. elim (t.owned w h) [
    | inl gone ↦ inl (ground (arith, v.calls))
    | inr (inl held) ↦ closed_or_held (Places-Held v t.unborn held)
    | inr (inr s) ↦
        inr (
          inr (record { entry = s.entry; client = s.client; creating = omega (arith, s.creating) }))
  ];
}
