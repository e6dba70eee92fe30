-- ===== src/Privacy/Mapping.antt =====
-- The sections of internal/privacy/store.go that reserve, store and look up entries keep the counts and
-- bounds.
use otto_gateway.Base.{
  ℕ, suc, ◌+◌, ◌≡◌, refl, ◌∙◌, sym, ap, subst, String, false, not, Option, none, some,
  if◌then◌else◌, get_elem?, is_some, ltb, Bool-cases, Option-cases, inl, inr, arith,
}
use otto_gateway.Pool.State.{lookup}
use otto_gateway.Privacy.Ledger.{MappingKey, MappingEntry, find_entry, length-put}
use otto_gateway.Privacy.Store.{
  Holder, stores_entry, stores_relation, ScopeState, ScopeLease, ScopeStore, deref, entries,
  touched,
}
use otto_gateway.Privacy.Entries.{
  Target, released_lease, gone, at_scope, target, is_promoted, promote, promote_input, held_by,
  reserve, enter_entry, valid_provenance, begin_entry, retry_entry, enter_relation, begin_relation,
  retry_relation, resolved, resolve_by,
}
use otto_gateway.Privacy.Retained.{weight}
use otto_gateway.Privacy.Paired.{promote_input-Paired}
use otto_gateway.Privacy.Sound.{view, Sound, change-Sound, if-Sound, option-Sound}
use otto_gateway.Privacy.Lifecycle.{Member, deref-Member, adjust-Sound, shell-Tidy}

-- A lease that has its scope.
pub record Aims (n : ℕ) (s : ScopeStore) (x : ScopeState) : Type 0 where
  pub lease : ScopeLease
  pub at : get_elem? s.leases n ≡ some lease
  pub live : lease.released ≡ false
  pub behind : deref lease.scope s.scopes ≡ some x

pub target-Aims : (n : ℕ) (s : ScopeStore) (x : ScopeState) → target n s ≡ at_scope x → Aims n s x
unfolding target
target-Aims n s x h = elim (Option-cases (get_elem? s.leases n)) [
  | inl e ↦ absurd (ground arith)
  | inr (l, e) ↦ elim (Bool-cases l.released) [
    | inl b ↦ absurd (ground arith)
    | inr b ↦ elim (Option-cases (deref l.scope s.scopes)) [
      | inl d ↦ absurd (ground arith)
      | inr (y, d) ↦
          subst (Aims n s) (ground arith) (record { lease = l; at = e; live = b; behind = d })
    ]
  ]
]

pub target-Member :
    (n : ℕ) (s : ScopeStore) (x : ScopeState)
    → Sound (view s)
    → target n s ≡ at_scope x
    → Member s x
target-Member n s x i h = let a = target-Aims n s x h in deref-Member s a.lease.scope x i a.behind

-- A section that works on the scope of a lease.
target-Sound :
    {A : Type 0} (i : ℕ) (s : ScopeStore) (r r' : ScopeStore × A) (f : ScopeState → ScopeStore × A)
    → Sound (view s)
    → Sound (view r.0)
    → Sound (view r'.0)
    → ((x : ScopeState) → Member s x → Sound (view (f x).0))
    → Sound (
        view
          (elim (target i s) as (λ _. ScopeStore × A) [
            | released_lease ↦ r
            | gone ↦ r'
            | at_scope x ↦ f x
          ]).0)
target-Sound {A = A} i s r r' f sound h h' g = go (target i s) refl
  where
    go :
        (t : Target)
        → target i s ≡ t
        → Sound (
            view
              (elim t as (λ _. ScopeStore × A) [
                | released_lease ↦ r
                | gone ↦ r'
                | at_scope x ↦ f x
              ]).0)
    go released_lease e = h
    go gone e = h'
    go (at_scope x) e = g x (target-Member i s x sound e)

reserve-Sound :
    (A : Type 0) (x : ScopeState) (h : Holder) (s : ScopeStore)
    → Sound (view s)
    → Member s x
    → is_some x.holder ≡ false
    → ((k : MappingKey) (p : String)
        → some h ≡ some (stores_entry k p)
        → find_entry k x.forward ≡ none)
    → ((k : String) → some h ≡ some (stores_relation k) → lookup k x.relations ≡ none)
    → Sound (view (reserve {A = A} x h s).0)
unfolding reserve
reserve-Sound A x h s i m unheld entry relation =
    if-Sound (not (ltb (entries x) s.config.max_entries_per_scope)) _ _ (λ e. i)
      (λ room.
        if-Sound (not (ltb s.total_entries s.config.max_total_entries)) _ _ (λ e. i)
          (λ left.
            change-Sound (view s) x.ref (held_by h) x s.leases (suc s.total_entries) i m.at refl
              m.used
              (record {
                room = ground arith;
                paired = record { there = m.tidy.paired.there; back = m.tidy.paired.back };
                new_entry = entry;
                new_relation = relation;
              })
              (λ q ne. refl) (ground (arith, unheld)) (ground arith)))

-- The key of what a holder is to store.
abbrev entry_key : MappingKey → Option Holder → MappingKey
entry_key d (some (stores_entry k p)) = k
entry_key d _ = d

abbrev relation_key : String → Option Holder → String
relation_key d (some (stores_relation k)) = k
relation_key d _ = d

promoted_weight :
    (k : MappingKey) (m : MappingEntry) (p : String) (x : ScopeState)
    → find_entry k x.forward ≡ some m
    → weight (promote_input k m p x) ≡ weight x
unfolding promote_input
promoted_weight k m p x at = elim (Bool-cases (is_promoted m p)) [
  | inl e ↦ ground (arith, length-put k (promote m p) x.forward)
  | inr e ↦ ground arith
]

enter_entry-Sound :
    (x : ScopeState) (k : MappingKey) (p : String) (now : ℕ) (s : ScopeStore)
    → Sound (view s)
    → Member s x
    → Sound (view (enter_entry x k p now s).0)
unfolding enter_entry
enter_entry-Sound x k p now s i m =
    if-Sound (is_some x.holder) _ _ (λ e. i)
      (λ unheld.
        option-Sound (find_entry k x.forward) _ _
          (λ new.
            reserve-Sound MappingEntry x (stores_entry k p) s i m unheld
              (λ k' p' e. ap (λ o. find_entry (entry_key k o) x.forward) (sym e) ∙ new)
              (λ k' e. absurd (ground arith)))
          (λ old at.
            adjust-Sound s x (λ y. touched s.config now (promote_input k old p y)) i m refl refl
              (promoted_weight k old p x at)
              (record {
                room = ground (arith, promoted_weight k old p x at, m.tidy.room);
                paired =
                    let q = promote_input-Paired k old p x m.tidy.paired at in
                    record { there = q.there; back = q.back };
                new_entry = λ k' p' e. absurd (ground arith);
                new_relation = λ k' e. absurd (ground arith);
              })))

pub begin_entry-Sound :
    (i : ℕ) (k : MappingKey) (p : String) (now : ℕ) (s : ScopeStore)
    → Sound (view s)
    → Sound (view (begin_entry i k p now s).0)
unfolding begin_entry
begin_entry-Sound i k p now s sound =
    if-Sound (not (valid_provenance p)) _ _ (λ e. sound)
      (λ e.
        target-Sound i s _ _ (λ x. enter_entry x k p now s) sound sound sound
          (λ x m. enter_entry-Sound x k p now s sound m))

pub retry_entry-Sound :
    (i : ℕ) (k : MappingKey) (p : String) (now : ℕ) (s : ScopeStore)
    → Sound (view s)
    → Sound (view (retry_entry i k p now s).0)
unfolding retry_entry
retry_entry-Sound = begin_entry-Sound

enter_relation-Sound :
    (x : ScopeState) (k : String) (now : ℕ) (s : ScopeStore)
    → Sound (view s)
    → Member s x
    → Sound (view (enter_relation x k now s).0)
unfolding enter_relation
enter_relation-Sound x k now s i m =
    if-Sound (is_some x.holder) _ _ (λ e. i)
      (λ unheld.
        option-Sound (lookup k x.relations) _ _
          (λ new.
            reserve-Sound String x (stores_relation k) s i m unheld
              (λ k' p' e. absurd (ground arith))
              (λ k' e. ap (λ o. lookup (relation_key k o) x.relations) (sym e) ∙ new))
          (λ v at.
            adjust-Sound s x (touched s.config now) i m refl refl refl
              (shell-Tidy _ x x.in_flight x.closing now (now + s.config.scope_ttl) m.tidy)))

pub begin_relation-Sound :
    (i : ℕ) (k : String) (now : ℕ) (s : ScopeStore)
    → Sound (view s)
    → Sound (view (begin_relation i k now s).0)
unfolding begin_relation
begin_relation-Sound i k now s sound =
    target-Sound i s _ _ (λ x. enter_relation x k now s) sound sound sound
      (λ x m. enter_relation-Sound x k now s sound m)

pub retry_relation-Sound :
    (i : ℕ) (k : String) (now : ℕ) (s : ScopeStore)
    → Sound (view s)
    → Sound (view (retry_relation i k now s).0)
unfolding retry_relation
retry_relation-Sound = begin_relation-Sound

resolved-Sound :
    (x : ScopeState) (o : Option MappingEntry) (now : ℕ) (s : ScopeStore)
    → Sound (view s)
    → Member s x
    → Sound (view (resolved x o now s).0)
unfolding resolved
resolved-Sound x none now s i m = i
resolved-Sound x (some e) now s i m =
    adjust-Sound s x (touched s.config now) i m refl refl refl
      (shell-Tidy _ x x.in_flight x.closing now (now + s.config.scope_ttl) m.tidy)

pub resolve_by-Sound :
    (find : ScopeState → Option MappingEntry) (i now : ℕ) (s : ScopeStore)
    → Sound (view s)
    → Sound (view (resolve_by find i now s).0)
unfolding resolve_by
resolve_by-Sound find i now s sound =
    target-Sound i s _ _ (λ x. if is_some x.holder then (s, none) else resolved x (find x) now s)
      sound sound sound
      (λ x m.
        if-Sound (is_some x.holder) _ _ (λ e. sound) (λ e. resolved-Sound x (find x) now s sound m))
