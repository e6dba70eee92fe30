-- ===== src/Privacy/Storing.antt =====
-- The sections of internal/privacy/store.go that store what was reserved keep the counts and bounds.
use otto_gateway.Base.{
  ℕ, zero, suc, ◌-◌, ◌<◌, ◌≡◌, refl, ◌∙◌, sym, ap, String, Bool, true, false, Option, none, some,
  List, [], ◌∷◌, length, is_some, Bool-cases, Option-cases, inl, inr, arith,
}
use otto_gateway.Pool.State.{lookup, delete, assign}
use otto_gateway.Privacy.Ledger.{MappingKey, length-put}
use otto_gateway.Privacy.Store.{
  Holder, stores_entry, stores_relation, ScopeState, ScopeStore, StoreError, touched,
}
use otto_gateway.Privacy.Entries.{
  freed, Chosen, chosen, no_choice, choose, attempts, synthetic_taken, new_entry, store_entry,
  unreserve, place_entry, relation_taken, store_relation, place_relation,
}
use otto_gateway.Privacy.Service.{place}
use otto_gateway.Privacy.Retained.{weight, sum-update}
use otto_gateway.Privacy.Paired.{store_entry-Paired}
use otto_gateway.Privacy.Sound.{view, Sound, change-Sound}
use otto_gateway.Privacy.Lifecycle.{Member, adjust-Sound}

abbrev chosen_value : String → Chosen → String
chosen_value d (chosen v n) = v
chosen_value d (no_choice e n) = d

-- The value that the loop chooses does not collide.
pub choose-free :
    (candidate : ℕ → Option String) (collides : String → Bool) (left attempt n : ℕ) (v : String)
    → choose candidate collides left attempt ≡ chosen v n
    → collides v ≡ false
unfolding choose
choose-free candidate collides zero attempt n v h = absurd (ground arith)
choose-free candidate collides (suc left) attempt n v h = elim (Option-cases (candidate attempt)) [
  | inl e ↦ absurd (ground arith)
  | inr (w, e) ↦ elim (Bool-cases (collides w)) [
    | inl c ↦ choose-free candidate collides left (suc attempt) n v (ground (arith, h))
    | inr c ↦
        let q : chosen w attempt ≡ chosen v n = ground arith in
        ap (λ o. collides (chosen_value v o)) (sym q) ∙ c
  ]
]

-- A reservation is counted.
reserved_some :
    (s : ScopeStore) (x : ScopeState)
    → Sound (view s)
    → Member s x
    → is_some x.holder ≡ true
    → 0 < s.total_entries
reserved_some s x i m h = ground (arith, sum-update x.ref freed s.scopes x m.at, i.sums, h)

unreserve-Sound :
    (x : ScopeState) (s : ScopeStore)
    → Sound (view s)
    → Member s x
    → is_some x.holder ≡ true
    → Sound (view (unreserve x s))
unreserve-Sound x s i m h =
    change-Sound (view s) x.ref freed x s.leases (s.total_entries - 1) i m.at refl m.used
      (record {
        room = ground (arith, m.tidy.room, h);
        paired = record { there = m.tidy.paired.there; back = m.tidy.paired.back };
        new_entry = λ k p e. absurd (ground arith);
        new_relation = λ k e. absurd (ground arith);
      })
      (λ q ne. refl) (ground (arith, reserved_some s x i m h, h)) (ground (arith, i.bounded))

-- A section that depends on what was chosen.
chosen-Sound :
    {A : Type 0} (c : Chosen) (f : StoreError → ℕ → ScopeStore × A)
    (g : String → ℕ → ScopeStore × A)
    → ((e : StoreError) (n : ℕ) → Sound (view (f e n).0))
    → ((v : String) (n : ℕ) → c ≡ chosen v n → Sound (view (g v n).0))
    → Sound
        (view (elim c as (λ _. ScopeStore × A) [ no_choice e n ↦ f e n | chosen v n ↦ g v n ]).0)
chosen-Sound (no_choice e n) f g h k = h e n
chosen-Sound (chosen v n) f g h k = k v n refl

place_entry-Sound :
    (x : ScopeState) (k : MappingKey) (p : String) (candidate : ℕ → Option String) (now : ℕ)
    (s : ScopeStore)
    → Sound (view s)
    → Member s x
    → x.holder ≡ some (stores_entry k p)
    → Sound (view (place_entry x k p candidate now s).0)
unfolding place_entry
place_entry-Sound x k p candidate now s i m h =
    chosen-Sound (choose candidate (synthetic_taken x k.entity) attempts 0) _ _
      (λ e n. unreserve-Sound x s i m (ground (arith, h)))
      (λ v n c.
        let g = λ (y : ScopeState).
          freed (touched s.config now (store_entry k (new_entry k v p now) y)) in
        let new = m.tidy.new_entry k p h in
        let same : weight (g x) ≡ weight x =
          unfold store_entry in
          ground (arith, length-put k (new_entry k v p now) x.forward, new, h) in
        adjust-Sound s x g i m (unfold store_entry in refl) (unfold store_entry in refl) same
          (record {
            room = ground (arith, same, m.tidy.room);
            paired =
                let q =
                  store_entry-Paired k v p now x m.tidy.paired new
                    (choose-free candidate (synthetic_taken x k.entity) attempts 0 n v c) in
                record { there = q.there; back = q.back };
            new_entry = λ k p e. absurd (unfold store_entry in ground arith);
            new_relation = λ k e. absurd (unfold store_entry in ground arith);
          }))

length-delete_absent :
    (k : String) (l : List (String × String)) → lookup k l ≡ none → length (delete k l) ≡ length l
unfolding lookup delete
length-delete_absent k [] h = refl
length-delete_absent k ((j, v) ∷ l) h = ground (arith, length-delete_absent k l)

place_relation-Sound :
    (x : ScopeState) (k : String) (candidate : ℕ → Option String) (now : ℕ) (s : ScopeStore)
    → Sound (view s)
    → Member s x
    → x.holder ≡ some (stores_relation k)
    → Sound (view (place_relation x k candidate now s).0)
unfolding place_relation
place_relation-Sound x k candidate now s i m h =
    chosen-Sound (choose candidate (relation_taken x k) attempts 0) _ _
      (λ e n. unreserve-Sound x s i m (ground (arith, h)))
      (λ v n c.
        let g = λ (y : ScopeState). freed (touched s.config now (store_relation k v y)) in
        let same : weight (g x) ≡ weight x =
          unfold assign in
          ground (arith, length-delete_absent k x.relations, m.tidy.new_relation k h, h) in
        adjust-Sound s x g i m refl refl same (record {
          room = ground (arith, same, m.tidy.room);
          paired = record { there = m.tidy.paired.there; back = m.tidy.paired.back };
          new_entry = λ k p e. absurd (ground arith);
          new_relation = λ k e. absurd (ground arith);
        }))

pub place-Sound :
    (x : ScopeState) (o : Option Holder) (candidate : ℕ → Option String) (now : ℕ) (s : ScopeStore)
    → Sound (view s)
    → Member s x
    → x.holder ≡ o
    → Sound (view (place x o candidate now s))
unfolding place
place-Sound x none candidate now s i m h = i
place-Sound x (some (stores_entry k p)) candidate now s i m h =
    place_entry-Sound x k p candidate now s i m h
place-Sound x (some (stores_relation k)) candidate now s i m h =
    place_relation-Sound x k candidate now s i m h
