-- ===== src/Session/Teardown.antt =====
-- `Close` of internal/session/registry.go and the writes of a handler: workers stay reachable until
-- they are closed.
use otto_gateway.Base.{
  subst, ℕ, ◌∙◌, sym, ◌≡◌, refl, String, Bool, true, false, some, List, [], ◌∷◌, arith, Bool-cases,
  inl, inr, str_eq,
}
use otto_gateway.Pool.State.{lookup, delete}
use otto_gateway.Session.Registry.{
  Registry, Entry, put, shut, close, close_entry, close_entries, lock_entry, mark_used, set_ctx_pct,
}
use otto_gateway.Session.Evolves.{is_shut, HasShut, Evolves, survives}

pub still : (r : Registry) → Evolves r r
still r = record {
  fresh = refl;
  calls = λ c h. h;
  clients = λ i. refl;
  creating = λ i. refl;
  unborn = λ i h g. refl;
  dead = λ i h. inl h;
  mapped = λ k i c l h. inr l;
}

-- A write to an entry that keeps its worker and its marks.
touch-Evolves :
    (r : Registry) (e : ℕ) (x : Entry)
    → x.client ≡ (r.heap e).client
    → x.creating ≡ (r.heap e).creating
    → x.dead ≡ (r.heap e).dead
    → Evolves r (put r e x)
touch-Evolves r e x same_client same_creating same_dead = record {
  fresh = refl;
  calls = λ c h. h;
  clients = λ i. ground arith;
  creating = λ i. ground arith;
  unborn = λ i h g. ground arith;
  dead = λ i h. inl (ground arith);
  mapped = λ k i c l h. inr l;
}

pub lock_entry-Evolves : (r : Registry) (e : ℕ) (held : Bool) → Evolves r (lock_entry r e held)
unfolding lock_entry
lock_entry-Evolves r e held = touch-Evolves r e _ refl refl refl

pub mark_used-Evolves : (r : Registry) (e now : ℕ) → Evolves r (mark_used r e now)
unfolding mark_used
mark_used-Evolves r e now = touch-Evolves r e _ refl refl refl

pub set_ctx_pct-Evolves : (r : Registry) (e pct : ℕ) → Evolves r (set_ctx_pct r e pct)
unfolding set_ctx_pct
set_ctx_pct-Evolves r e pct = touch-Evolves r e _ refl refl refl

-- The entry in front of `Get` that is handed out.
pub hand-Evolves :
    (r : Registry) (e now : ℕ) → Evolves r (put r e (record (r.heap e) { last_used = now }))
hand-Evolves r e now = touch-Evolves r e _ refl refl refl

-- The removal of an entry that is dead.
pub drop_dead-Evolves :
    (r : Registry) (sid : String) (e : ℕ)
    → lookup sid r.entries ≡ some e
    → HasShut r e
    → Evolves r (record r { entries = delete sid r.entries })
drop_dead-Evolves r sid e m gone = record {
  fresh = refl;
  calls = λ c h. h;
  clients = λ i. refl;
  creating = λ i. refl;
  unborn = λ i h g. refl;
  dead = λ i h. inl h;
  mapped = λ k i c l h. elim (survives k sid r.entries i l) [
    | inl same ↦ inl (ground (arith, gone c))
    | inr lives ↦ inr lives
  ];
}

Evolves-trans : {p q r : Registry} → Evolves p q → Evolves q r → Evolves p r
Evolves-trans {p} {q} {r} a b = record {
  fresh = b.fresh ∙ a.fresh;
  calls = λ c h. b.calls c (a.calls c h);
  clients = λ i. b.clients i ∙ a.clients i;
  creating = λ i. b.creating i ∙ a.creating i;
  unborn = λ i h g. b.unborn i (a.creating i ∙ h) (a.clients i ∙ g) ∙ a.unborn i h g;
  dead = λ i h. elim (b.dead i h) [
    | inl before ↦ elim (a.dead i before) [
      | inl first ↦ inl first
      | inr gone ↦ inr (λ c g. b.calls c (gone c (sym (b.clients i) ∙ g)))
    ]
    | inr gone ↦ inr gone
  ];
  mapped = λ k i c l h. elim (a.mapped k i c l h) [
    | inl gone ↦ inl (b.calls c gone)
    | inr kept ↦ b.mapped k i c kept (a.clients i ∙ h)
  ];
}

close_entry-Evolves : (r : Registry) (e : ℕ) → Evolves r (close_entry r e)
unfolding close_entry shut
close_entry-Evolves r e = record {
  fresh = ground arith;
  calls = λ c h. ground arith;
  clients = λ i. ground arith;
  creating = λ i. ground arith;
  unborn = λ i h g. ground arith;
  dead = λ i h. inl (ground arith);
  mapped = λ k i c l h. inr (ground arith);
}

close_entries-Evolves : (r : Registry) (es : List (String × ℕ)) → Evolves r (close_entries r es)
unfolding close_entries
close_entries-Evolves r [] = still r
close_entries-Evolves r ((sid, e) ∷ es) =
    Evolves-trans (close_entry-Evolves r e) (close_entries-Evolves (close_entry r e) es)

close_entry-shuts :
    (r : Registry) (e c : ℕ) → (r.heap e).client ≡ some c → is_shut c (close_entry r e).calls ≡ true
unfolding close_entry shut
close_entry-shuts r e c h = ground arith

-- Every worker of the entries that are closed.
close_entries-shuts :
    (r : Registry) (es : List (String × ℕ)) (k : String) (i c : ℕ)
    → lookup k es ≡ some i
    → (r.heap i).client ≡ some c
    → is_shut c (close_entries r es).calls ≡ true
unfolding close_entries lookup
close_entries-shuts r [] k i c l h = absurd (ground arith)
close_entries-shuts r ((sid, e) ∷ es) k i c l h = elim (Bool-cases (str_eq sid k)) [
  | inl same ↦
      (close_entries-Evolves (close_entry r e) es).calls c (close_entry-shuts r e c (ground arith))
  | inr differ ↦
      close_entries-shuts (close_entry r e) es k i c (ground arith)
        ((close_entry-Evolves r e).clients i ∙ h)
]

closed_once : (r : Registry) → r.closed ≡ true → r ≡ close r
unfolding close
closed_once r over = ground arith

closed_now :
    (r : Registry)
    → r.closed ≡ false
    → close_entries (record r { closed = true; entries = [] }) r.entries ≡ close r
unfolding close
closed_now r serving = ground arith

pub close-Evolves : (r : Registry) → Evolves r (close r)
close-Evolves r = elim (Bool-cases r.closed) [
  | inl over ↦ subst (λ x. Evolves r x) (closed_once r over) (still r)
  | inr serving ↦
      let emptied = record r { closed = true; entries = [] } in
      let v = close_entries-Evolves emptied r.entries in
      subst (λ x. Evolves r x) (closed_now r serving)
        (record {
          fresh = v.fresh;
          calls = v.calls;
          clients = v.clients;
          creating = v.creating;
          unborn = v.unborn;
          dead = v.dead;
          mapped = λ k i c l h. inl (close_entries-shuts emptied r.entries k i c l h);
        })
]
