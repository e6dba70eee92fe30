-- ===== src/Session/Creations.antt =====
-- The end of a creation of internal/session, whatever the worker answers, keeps the workers tracked.
use otto_gateway.Base.{
  ℕ, ◌+◌, ◌≤◌, ◌≡◌, String, true, false, Option, none, some, List, arith, Option-cases, Bool-cases,
  inl, inr, sum_of, ◌==◌,
}
use otto_gateway.Pool.State.{lookup}
use otto_gateway.Session.Registry.{
  Registry, create_entry, publish_entry, publish_error, Spawning, no_cwd, no_spawn, starts,
  Creation, no_initialize, no_session, opened, is_ours,
}
use otto_gateway.Session.Machine.{
  Sessions, take_creator, start_creation, finish_creation, ended, started,
}
use otto_gateway.Session.Evolves.{is_shut, Evolves, publish_error-Evolves}
use otto_gateway.Session.Workers.{Virgin, is_entry, IsTracked, Evolves-IsTracked}
use otto_gateway.Session.Publish.{
  take_creator-sum, Ends, left-IsTracked, Publishes, Publishes-IsTracked,
}

publish_error-shuts :
    (r : Registry) (sid : String) (e d w : ℕ)
    → w ≡ d
    → is_shut w (publish_error r sid e (some d)).calls ≡ true
unfolding publish_error
publish_error-shuts r sid e d w h = ground arith

refused-Evolves :
    (r : Registry) (sid : String) (e d : ℕ) (kiro : String) (now : ℕ)
    → is_ours r sid e ≡ false
    → Evolves r (publish_entry r sid e d kiro now).0
unfolding publish_entry
refused-Evolves r sid e d kiro now theirs = record {
  fresh = ground arith;
  calls = λ c h. ground arith;
  clients = λ i. ground arith;
  creating = λ i. ground arith;
  unborn = λ i h g. ground arith;
  dead = λ i h. inl (ground arith);
  mapped = λ k i c l h. inr (ground arith);
}

refused-shuts :
    (r : Registry) (sid : String) (e d w : ℕ) (kiro : String) (now : ℕ)
    → is_ours r sid e ≡ false
    → w ≡ d
    → is_shut w (publish_entry r sid e d kiro now).0.calls ≡ true
unfolding publish_entry
refused-shuts r sid e d w kiro now theirs h = ground arith

accepted-Publishes :
    (r : Registry) (sid : String) (e d : ℕ) (kiro : String) (now : ℕ)
    → is_ours r sid e ≡ true
    → Virgin r e
    → Publishes r sid e d (publish_entry r sid e d kiro now).0
unfolding publish_entry
accepted-Publishes r sid e d kiro now ours g = record {
  fresh = ground arith;
  calls = ground arith;
  entries = ground arith;
  others = λ i h. ground arith;
  client = ground arith;
  dead = ground (arith, g.dead);
  mapped = elim (Option-cases (lookup sid r.entries)) [
    | inl n ↦ absurd (ground arith)
    | inr (i, m) ↦ ground arith
  ];
}

taken-Ends :
    (c : Sessions) (sid : String) (e : ℕ) (us : List (String × ℕ))
    → IsTracked c
    → ((w : String × ℕ → ℕ) → sum_of w c.creators ≡ w (sid, e) + sum_of w us)
    → Ends c e us
taken-Ends c sid e us t total = record {
  virgin = t.pending e (ground (arith, total (is_entry e)));
  own = ground (arith, total (is_entry e));
  fewer = λ i. omega (arith, total (is_entry i));
  kept = λ i h. ground (arith, total (is_entry i));
}

-- It fails: the worker it started, if any, is closed.
failed-IsTracked :
    (c : Sessions) (sid : String) (e : ℕ) (us : List (String × ℕ)) (client : Option ℕ)
    → IsTracked c
    → Ends c e us
    → ((w : ℕ)
        → c.starting e ≡ some w
        → is_shut w (publish_error c.registry sid e client).calls ≡ true)
    → IsTracked (ended c us e (publish_error c.registry sid e client))
failed-IsTracked c sid e us client t ends shuts =
    let r = publish_error c.registry sid e client in
    left-IsTracked (record c { registry = r }) e us
      (Evolves-IsTracked c r t (publish_error-Evolves c.registry sid e client ends.virgin.client))
      ends.fewer ends.kept shuts

published-IsTracked :
    (c : Sessions) (sid : String) (e : ℕ) (us : List (String × ℕ)) (d : ℕ) (kiro : String) (now : ℕ)
    → IsTracked c
    → Ends c e us
    → c.starting e ≡ some d
    → IsTracked (ended c us e (publish_entry c.registry sid e d kiro now).0)
published-IsTracked c sid e us d kiro now t ends st =
    let r = (publish_entry c.registry sid e d kiro now).0 in
    elim (Bool-cases (is_ours c.registry sid e)) [
      | inl ours ↦
          Publishes-IsTracked c r sid e d us t
            (accepted-Publishes c.registry sid e d kiro now ours ends.virgin) ends st
      | inr theirs ↦
          left-IsTracked (record c { registry = r }) e us
            (Evolves-IsTracked c r t (refused-Evolves c.registry sid e d kiro now theirs))
            ends.fewer ends.kept
            (λ w h. refused-shuts c.registry sid e d w kiro now theirs (ground (arith, h, st)))
    ]

ended-IsTracked :
    (c : Sessions) (sid : String) (e : ℕ) (us : List (String × ℕ)) (d : ℕ) (a : Creation) (now : ℕ)
    → IsTracked c
    → Ends c e us
    → c.starting e ≡ some d
    → IsTracked (ended c us e (create_entry c.registry sid e d a now).0)
unfolding create_entry
ended-IsTracked c sid e us d no_initialize now t ends st =
    failed-IsTracked c sid e us (some d) t ends
      (λ w h. publish_error-shuts c.registry sid e d w (ground (arith, h, st)))
ended-IsTracked c sid e us d no_session now t ends st =
    failed-IsTracked c sid e us (some d) t ends
      (λ w h. publish_error-shuts c.registry sid e d w (ground (arith, h, st)))
ended-IsTracked c sid e us d (opened kiro) now t ends st =
    published-IsTracked c sid e us d kiro now t ends st

pub finish_creation-IsTracked :
    (c : Sessions) (i : ℕ) (a : Creation) (now : ℕ)
    → IsTracked c
    → IsTracked (finish_creation c i a now)
unfolding finish_creation
finish_creation-IsTracked c i a now t = elim (Option-cases (take_creator c.creators i)) [
  | inl e ↦ rw (e, finish_creation) t
  | inr (((sid, e), us), h) ↦ elim (Option-cases (c.starting e)) [
    | inl n ↦ rw (h, n, finish_creation) t
    | inr (d, st) ↦
        rw (h, st, finish_creation)
          (ended-IsTracked c sid e us d a now t
            (taken-Ends c sid e us t (λ w. take_creator-sum w c.creators i (sid, e) us h)) st)
  ]
]

-- A worker that was started has its caller.
started-IsTracked :
    (c : Sessions) (e d : ℕ)
    → IsTracked c
    → c.starting e ≡ none
    → 1 ≤ sum_of (is_entry e) c.creators
    → IsTracked (started c e d)
started-IsTracked c e d t free mine = record {
  distinct = t.distinct;
  pending = t.pending;
  unborn = t.unborn;
  dead = t.dead;
  snapshot = t.snapshot;
  reaping = t.reaping;
  owned = λ w h. elim (Bool-cases (w == d)) [
    | inl new ↦ inr (inr (record { entry = e; client = ground arith; creating = mine }))
    | inr old ↦ elim (t.owned w (ground (arith, h))) [
      | inl gone ↦ inl gone
      | inr (inl held) ↦ inr (inl held)
      | inr (inr s) ↦ elim (Bool-cases (s.entry == e)) [
        | inl same ↦ absurd (ground (arith, s.client))
        | inr other ↦ inr (
            inr (record {
              entry = s.entry;
              client = ground (arith, s.client);
              creating = s.creating;
            }))
      ]
    ]
  ];
}

spawning-IsTracked :
    (c : Sessions) (sid : String) (e : ℕ) (us : List (String × ℕ)) (a : Spawning)
    → IsTracked c
    → Ends c e us
    → c.starting e ≡ none
    → IsTracked (elim a as (λ _. Sessions) [
      | no_cwd ↦ ended c us e (publish_error c.registry sid e none)
      | no_spawn ↦ ended c us e (publish_error c.registry sid e none)
      | starts w ↦ started c e w
    ])
spawning-IsTracked c sid e us no_cwd t ends n =
    failed-IsTracked c sid e us none t ends (λ w h. absurd (ground (arith, h, n)))
spawning-IsTracked c sid e us no_spawn t ends n =
    failed-IsTracked c sid e us none t ends (λ w h. absurd (ground (arith, h, n)))
spawning-IsTracked c sid e us (starts w) t ends n =
    started-IsTracked c e w t n (omega (arith, ends.own))

pub start_creation-IsTracked :
    (c : Sessions) (i : ℕ) (a : Spawning) → IsTracked c → IsTracked (start_creation c i a)
unfolding start_creation
start_creation-IsTracked c i a t = elim (Option-cases (take_creator c.creators i)) [
  | inl e ↦ rw (e, start_creation) t
  | inr (((sid, e), us), h) ↦ elim (Option-cases (c.starting e)) [
    | inl n ↦
        rw (h, n, start_creation)
          (spawning-IsTracked c sid e us a t
            (taken-Ends c sid e us t (λ w. take_creator-sum w c.creators i (sid, e) us h)) n)
    | inr (d, st) ↦ rw (h, st, start_creation) t
  ]
]
