-- ===== src/Privacy/Lifecycle.antt =====
-- Acquisition, release and closing in internal/privacy/store.go keep the counts and bounds.
use otto_gateway.Base.{
  ℕ, suc, ◌+◌, ◌-◌, ◌<◌, ◌≡◌, refl, ◌∙◌, sym, ap, subst, String, Bool, true, false, not, ◌&&◌, some,
  [], ◌∷◌, ◌++◌, length, get_elem?, set, is_some, ltb, ◌==◌, str_eq, arith,
}
use otto_gateway.Pool.State.{lookup}
use otto_gateway.Privacy.Ledger.{find_entry}
use otto_gateway.Privacy.Store.{
  StoreConfig, ScopeState, ScopeLease, ScopeStore, find_scope, deref, update, reap_available,
  prune_tombstones, is_expired, joined_by, new_scope, join_scope, open_scope, make_room,
  acquire_pruned, valid_profile, acquire, left_by, finished_lease, release, finalize_closed,
  begin_closing, clear_pruned, clear_scope,
}
use otto_gateway.Privacy.Retained.{
  count, weight, Fits-cong, deref-Found, find-Found, count-append, count-finished, used-Found,
  deref-update, find_scope-id,
}
use otto_gateway.Privacy.Sound.{
  Tidy, view, Sound, change-Sound, wipe-Sound, same_scope, if-Sound, option-Sound, if_store-Sound,
  option_store-Sound, reap_available-Sound, pruned-Sound,
}

abbrev shell : ScopeState → ℕ → Bool → ℕ → ℕ → ScopeState
shell x n c a b = record x { in_flight = n; closing = c; last_used = a; expires_at = b }

pub shell-Tidy :
    (limit : ℕ) (x : ScopeState) (n : ℕ) (c : Bool) (a b : ℕ)
    → Tidy limit x
    → Tidy limit (shell x n c a b)
shell-Tidy limit x n c a b t = record {
  room = t.room;
  paired = record { there = t.paired.there; back = t.paired.back };
  new_entry = t.new_entry;
  new_relation = t.new_relation;
}

-- The scope behind a pointer of a store that is sound.
pub record Member (s : ScopeStore) (x : ScopeState) : Type 0 where
  pub at : deref x.ref s.scopes ≡ some x
  pub low : x.ref < s.next_ref
  pub used : x.in_flight ≡ count s.leases x.ref
  pub tidy : Tidy s.config.max_entries_per_scope x

pub deref-Member :
    (s : ScopeStore) (r : ℕ) (x : ScopeState)
    → Sound (view s)
    → deref r s.scopes ≡ some x
    → Member s x
deref-Member s r x i h =
    let d = deref-Found _ (count s.leases) s.next_ref r s.scopes x i.fits h in
    record {
      at = subst (λ q. deref q s.scopes ≡ some x) (sym d.at) h;
      low = ground (arith, d.low, d.at);
      used = d.used ∙ ap (count s.leases) (sym d.at);
      tidy = d.holds;
    }

pub find-Member :
    (s : ScopeStore) (id : String) (x : ScopeState)
    → Sound (view s)
    → find_scope id s.scopes ≡ some x
    → Member s x
find-Member s id x i h =
    deref-Member s x.ref x i (find-Found _ (count s.leases) s.next_ref id s.scopes x i.fits h).0

-- A change that leaves what a scope stores alone.
pub adjust-Sound :
    (s : ScopeStore) (x : ScopeState) (g : ScopeState → ScopeState)
    → Sound (view s)
    → Member s x
    → (g x).ref ≡ x.ref
    → (g x).in_flight ≡ x.in_flight
    → weight (g x) ≡ weight x
    → Tidy s.config.max_entries_per_scope (g x)
    → Sound (view (record s { scopes = update x.ref g s.scopes }))
adjust-Sound s x g i m keeps used same t =
    change-Sound (view s) x.ref g x s.leases s.total_entries i m.at keeps (used ∙ m.used) t
      (λ q h. refl) (ap (λ w. s.total_entries + w) (sym same)) i.bounded

join_scope-Sound :
    (x : ScopeState) (profile : String) (now : ℕ) (s : ScopeStore)
    → Sound (view s)
    → find_scope x.id s.scopes ≡ some x
    → Sound (view (join_scope x profile now s).0)
unfolding join_scope
join_scope-Sound x profile now s i h =
    let m = find-Member s x.id x i h in
    let ls = s.leases ++ (record { scope = x.ref; released = false } ∷ []) in
    if-Sound (is_some x.holder) _ _ (λ e. i)
      (λ unheld.
        if-Sound ((x.in_flight == 0) && is_expired x now) _ _
          (λ e. wipe-Sound x.id x.ref now s i (λ y at q.
            subst (λ z. (z.in_flight ≡ 0) × (is_some z.holder ≡ false)) (same_scope x y h at)
              (ground arith, unheld)))
          (λ e.
            if-Sound x.closing _ _ (λ e. i)
              (λ e.
                if-Sound (not (str_eq x.profile profile)) _ _ (λ e. i)
                  (λ e.
                    change-Sound (view s) x.ref (joined_by s.config now) x ls s.total_entries i m.at
                      refl
                      (ground (
                        arith,
                        m.used,
                        count-append s.leases (record { scope = x.ref; released = false }) x.ref,
                      ))
                      (shell-Tidy _ x (suc x.in_flight) x.closing now (now + s.config.scope_ttl)
                        m.tidy)
                      (λ q ne. ground (
                        arith,
                        count-append s.leases (record { scope = x.ref; released = false }) q,
                      ))
                      refl i.bounded))))

-- A scope with nothing in it.
fresh-Tidy :
    (c : StoreConfig) (limit ref : ℕ) (id profile : String) (now : ℕ)
    → Tidy limit (new_scope c ref id profile now)
fresh-Tidy c limit ref id profile now = record {
  room = ground arith;
  paired = record {
    there = λ j a h. absurd (unfold find_entry in ground arith);
    back = λ j a h. absurd (unfold find_entry in ground arith);
  };
  new_entry = λ k p h. absurd (ground arith);
  new_relation = λ k h. absurd (ground arith);
}

open_scope-Sound :
    (id profile : String) (now : ℕ) (s : ScopeStore)
    → Sound (view s)
    → Sound (view (open_scope id profile now s).0)
unfolding open_scope
open_scope-Sound id profile now s i =
    let l : ScopeLease = record { scope = s.next_ref; released = false } in
    let n = s.next_ref in
    if-Sound (not (ltb (length s.scopes) s.config.max_scopes)) _ _ (λ e. i)
      (λ e. record {
        fits = (
          record {
            below = ground arith;
            gap = λ r above low. absurd (ground arith);
            used = ground (arith, count-append s.leases l n, i.beyond n);
            holds = fresh-Tidy s.config _ n id profile now;
          },
          Fits-cong _ (count s.leases) (count (s.leases ++ (l ∷ []))) n s.scopes
              (λ r low. ground (arith, count-append s.leases l r)) i.fits,
        );
        beyond = λ r h. ground (arith, count-append s.leases l r, i.beyond r);
        sums = ground (arith, i.sums);
        bounded = i.bounded;
        few = ground arith;
      })

acquire_pruned-Sound :
    (id profile : String) (now : ℕ) (s : ScopeStore)
    → Sound (view s)
    → Sound (view (acquire_pruned id profile now s).0)
unfolding acquire_pruned
acquire_pruned-Sound id profile now s i =
    if-Sound s.shutdown _ _ (λ e. i)
      (λ e.
        option-Sound (find_scope id s.scopes) _ _
          (λ n.
            if-Sound (is_some (lookup id s.tombstones)) _ _ (λ e. i)
              (λ e. open_scope-Sound id profile now (make_room now s) (
                if_store-Sound (ltb (length s.scopes) s.config.max_scopes) s (reap_available now s)
                  (λ e. i) (λ e. reap_available-Sound now s i))))
          (λ x n.
            join_scope-Sound x profile now s i
              (ap (λ k. find_scope k s.scopes) (find_scope-id id s.scopes x n) ∙ n)))

pub acquire-Sound :
    (id profile : String) (now : ℕ) (s : ScopeStore)
    → Sound (view s)
    → Sound (view (acquire id profile now s).0)
unfolding acquire
acquire-Sound id profile now s i =
    if-Sound (not (valid_profile profile)) _ _ (λ e. i)
      (λ e. acquire_pruned-Sound id profile now (prune_tombstones now s) (pruned-Sound now s i))

pub release-Sound : (n : ℕ) (s : ScopeStore) → Sound (view s) → Sound (view (release n s))
unfolding release
release-Sound n s i =
    option_store-Sound (get_elem? s.leases n) s _ (λ e. i)
      (λ l at.
        let ls = set s.leases n (finished_lease l) in
        let one = count-finished s.leases n l l.scope at in
        if_store-Sound l.released s _ (λ e. i)
          (λ live.
            option_store-Sound (deref l.scope s.scopes) _ _
              (λ lost. absurd (
                used-Found _ (count s.leases) s.next_ref l.scope s.scopes i.fits
                  (ground (arith, one, i.beyond l.scope)) (ground (arith, one)) lost))
              (λ x d.
                if_store-Sound (is_some x.holder) s _ (λ e. i)
                  (λ e.
                    let f = deref-Found _ (count s.leases) s.next_ref l.scope s.scopes x i.fits d in
                    change-Sound (view s) l.scope left_by x ls s.total_entries i d refl
                      (ground (arith, one, f.used))
                      (shell-Tidy _ x (x.in_flight - 1) x.closing x.last_used x.expires_at f.holds)
                      (λ q ne. ground (arith, count-finished s.leases n l q at)) refl i.bounded))))

pub finalize_closed-Sound :
    (id : String) (ref now : ℕ) (s : ScopeStore)
    → Sound (view s)
    → Sound (view (finalize_closed id ref now s))
unfolding finalize_closed
finalize_closed-Sound id ref now s i =
    option_store-Sound (find_scope id s.scopes) s _ (λ e. i)
      (λ x n.
        if_store-Sound ((x.ref == ref) && not (is_some x.holder) && x.closing && (x.in_flight == 0))
          _ s
          (λ e. wipe-Sound id ref now s i (λ y at q.
            subst (λ z. (z.in_flight ≡ 0) × (is_some z.holder ≡ false)) (same_scope x y n at)
              (ground arith, ground arith)))
          (λ e. i))

clear_pruned-Sound :
    (id : String) (now : ℕ) (s : ScopeStore)
    → Sound (view s)
    → Sound (view (clear_pruned id now s).0)
unfolding clear_pruned
clear_pruned-Sound id now s i =
    option-Sound (find_scope id s.scopes) _ _ (λ e. i)
      (λ x n.
        let m = find-Member s id x i n in
        let s' : ScopeStore = record s { scopes = update x.ref begin_closing s.scopes } in
        let closing : Sound (view s') =
          adjust-Sound s x begin_closing i m refl refl refl
            (shell-Tidy _ x x.in_flight true x.last_used x.expires_at m.tidy) in
        if-Sound (is_some x.holder) _ _ (λ e. i)
          (λ unheld.
            if-Sound (ltb 0 x.in_flight) _ _ (λ e. closing)
              (λ idle. wipe-Sound id x.ref now s' closing (λ y at q.
                subst (λ z. (z.in_flight ≡ 0) × (is_some z.holder ≡ false))
                  (same_scope (begin_closing x) y
                    (deref-update x.ref begin_closing s.scopes x m.at refl)
                    (ap (λ r. deref r s'.scopes) (sym q) ∙ (find-Member s' id y closing at).at))
                  (ground arith, unheld)))))

pub clear_scope-Sound :
    (id : String) (now : ℕ) (s : ScopeStore)
    → Sound (view s)
    → Sound (view (clear_scope id now s).0)
unfolding clear_scope
clear_scope-Sound id now s i =
    clear_pruned-Sound id now (prune_tombstones now s) (pruned-Sound now s i)
