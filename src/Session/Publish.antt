-- ===== src/Session/Publish.antt =====
-- The end of a creation, createEntry of internal/session/registry.go: the worker is published or
-- closed.
use otto_gateway.Base.{
  ℕ, zero, suc, ◌+◌, ◌≤◌, ◌≡◌, String, true, false, some, List, [], ◌∷◌, arith, Option-cases,
  Bool-cases, ◌⊎◌, inl, inr, ◌==◌, sum_of,
}
use otto_gateway.Pool.State.{lookup}
use otto_gateway.Session.Registry.{Registry}
use otto_gateway.Session.Machine.{Sessions, take_creator, ended}
use otto_gateway.Session.Evolves.{is_shut}
use otto_gateway.Session.Workers.{Virgin, Held, Starting, is_entry, IsTracked}

-- The creator that is taken out, and the others.
pub take_creator-sum :
    (w : String × ℕ → ℕ) (ts : List (String × ℕ)) (i : ℕ) (x : String × ℕ) (us : List (String × ℕ))
    → take_creator ts i ≡ some (x, us)
    → sum_of w ts ≡ w x + sum_of w us
unfolding take_creator
take_creator-sum w [] i x us h = absurd (ground arith)
take_creator-sum w (t ∷ ts) zero x us h = ground arith
take_creator-sum w (t ∷ ts) (suc i) x us h = elim (Option-cases (take_creator ts i)) [
  | inl e ↦ absurd (ground arith)
  | inr ((u, vs), e) ↦ ground (arith, take_creator-sum w ts i u vs e)
]

-- A creator `(sid, e)` in its list, with the others.
pub record Ends (c : Sessions) (e : ℕ) (us : List (String × ℕ)) : Type 0 where
  pub virgin : Virgin c.registry e
  pub own : suc (sum_of (is_entry e) us) ≤ sum_of (is_entry e) c.creators
  pub fewer : (i : ℕ) → sum_of (is_entry i) us ≤ sum_of (is_entry i) c.creators
  pub kept : (i : ℕ) → (i == e) ≡ false → sum_of (is_entry i) us ≡ sum_of (is_entry i) c.creators

-- The worker of the creator that leaves is its own; another one's stays with its creator.
pub leave-Starting :
    (c : Sessions) (e w : ℕ) (us : List (String × ℕ)) (r : Registry)
    → ((i : ℕ) → (i == e) ≡ false → sum_of (is_entry i) us ≡ sum_of (is_entry i) c.creators)
    → Starting c w
    → (c.starting e ≡ some w) ⊎ Starting (ended c us e r) w
leave-Starting c e w us r kept s = elim (Bool-cases (s.entry == e)) [
  | inl same ↦ inl (ground (arith, s.client))
  | inr other ↦ inr (record {
    entry = s.entry;
    client = ground (arith, s.client);
    creating = ground (arith, kept s.entry other, s.creating);
  })
]

-- A creator leaves, and a worker that it has started is closed.
pub left-IsTracked :
    (c : Sessions) (e : ℕ) (us : List (String × ℕ))
    → IsTracked c
    → ((i : ℕ) → sum_of (is_entry i) us ≤ sum_of (is_entry i) c.creators)
    → ((i : ℕ) → (i == e) ≡ false → sum_of (is_entry i) us ≡ sum_of (is_entry i) c.creators)
    → ((w : ℕ) → c.starting e ≡ some w → is_shut w c.registry.calls ≡ true)
    → IsTracked (ended c us e c.registry)
left-IsTracked c e us t fewer kept gone = record {
  distinct = λ i. ground (arith, t.distinct i, fewer i);
  pending = λ i h. t.pending i (omega (arith, fewer i));
  unborn = t.unborn;
  dead = t.dead;
  snapshot = t.snapshot;
  reaping = t.reaping;
  owned = λ w h. elim (t.owned w h) [
    | inl shut ↦ inl shut
    | inr (inl held) ↦ inr (inl held)
    | inr (inr s) ↦ elim (leave-Starting c e w us c.registry kept s) [
      | inl mine ↦ inl (gone w mine)
      | inr others ↦ inr (inr others)
    ]
  ];
}

-- What the publication of an entry in creation does.
pub record Publishes (r : Registry) (sid : String) (e w : ℕ) (r' : Registry) : Type 0 where
  pub fresh : r'.fresh ≡ r.fresh
  pub calls : r'.calls ≡ r.calls
  pub entries : r'.entries ≡ r.entries
  pub others : (i : ℕ) → (i == e) ≡ false → r'.heap i ≡ r.heap i
  pub client : (r'.heap e).client ≡ some w
  pub dead : (r'.heap e).dead ≡ false
  pub mapped : lookup sid r.entries ≡ some e

Publishes-same :
    {r r' : Registry} {sid : String} {e w i : ℕ}
    → Publishes r sid e w r'
    → Virgin r e
    → (r.heap i).creating ≡ false
    → r'.heap i ≡ r.heap i
Publishes-same {r} {r'} {sid} {e} {w} {i} v g settled = elim (Bool-cases (i == e)) [
  | inl same ↦ absurd (ground (arith, g.creating))
  | inr other ↦ v.others i other
]

Publishes-Virgin :
    {r r' : Registry} {sid : String} {e w i : ℕ}
    → Publishes r sid e w r'
    → (i == e) ≡ false
    → Virgin r i
    → Virgin r' i
Publishes-Virgin {r} {r'} {sid} {e} {w} {i} v other g = record {
  client = ground (arith, v.others i other, g.client);
  creating = ground (arith, v.others i other, g.creating);
  dead = ground (arith, v.others i other, g.dead);
}

Publishes-Held :
    {r r' : Registry} {sid : String} {e w c : ℕ}
    → Publishes r sid e w r'
    → Virgin r e
    → Held r c
    → Held r' c
Publishes-Held {r} {r'} {sid} {e} {w} {c} v g h = elim (Bool-cases (h.entry == e)) [
  | inl same ↦ absurd (ground (arith, g.client, h.client))
  | inr other ↦ record {
    sid = h.sid;
    entry = h.entry;
    mapped = ground (arith, h.mapped, v.entries);
    client = ground (arith, h.client, v.others h.entry other);
  }
]

pub Publishes-IsTracked :
    (c : Sessions) (r' : Registry) (sid : String) (e w : ℕ) (us : List (String × ℕ))
    → IsTracked c
    → Publishes c.registry sid e w r'
    → Ends c e us
    → c.starting e ≡ some w
    → IsTracked (ended c us e r')
Publishes-IsTracked c r' sid e w us t v ends st = record {
  distinct = λ i. ground (arith, t.distinct i, ends.fewer i, v.fresh);
  pending = λ i h.
      Publishes-Virgin v (ground (arith, t.distinct e, ends.own))
        (t.pending i (omega (arith, ends.fewer i)));
  unborn = λ i h.
      Publishes-Virgin v (ground (arith, t.distinct e, ends.own, v.fresh))
        (t.unborn i (omega (arith, v.fresh)));
  dead = λ i d k h. elim (Bool-cases (i == e)) [
    | inl same ↦ absurd (ground (arith, v.dead))
    | inr other ↦
        let eq = v.others i other in
        ground (arith, v.calls, t.dead i (ground (arith, eq)) k (ground (arith, eq)))
  ];
  snapshot = λ i h.
      let settled = t.snapshot i h in ground (arith, settled, Publishes-same v ends.virgin settled);
  reaping = λ k i h.
      let (settled, gone) = t.reaping k i h in
      let same = Publishes-same v ends.virgin settled in
      (
        ground (arith, settled, same),
        λ d l. ground (arith, v.calls, gone d (ground (arith, same))),
      );
  owned = λ d h. elim (t.owned d h) [
    | inl gone ↦ inl (ground (arith, v.calls))
    | inr (inl held) ↦ inr (inl (Publishes-Held v ends.virgin held))
    | inr (inr s) ↦ elim (leave-Starting c e d us r' ends.kept s) [
      | inl mine ↦ inr (
          inl (record {
            sid = sid;
            entry = e;
            mapped = ground (arith, v.mapped, v.entries);
            client = ground (arith, v.client, st, mine);
          }))
      | inr others ↦ inr (inr others)
    ]
  ];
}
