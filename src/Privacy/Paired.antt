-- ===== src/Privacy/Paired.antt =====
-- The two maps of a scope in internal/privacy/store.go are inverse.
use otto_gateway.Base.{
  ℕ, ◌≡◌, ◌∙◌, sym, ap, subst, String, false, none, some, Bool-cases, inl, inr, arith,
}
use otto_gateway.Privacy.Ledger.{
  MappingEntry, MappingKey, Ledger, same_key, find_entry, put_entry, same_key_refl, same_key-eq,
  find-put_self, find-put_ne,
}
use otto_gateway.Privacy.Store.{ScopeState}
use otto_gateway.Privacy.Entries.{
  is_promoted, reverse_key, promote_input, new_entry, store_entry, synthetic_taken,
}

abbrev pub forward_key : MappingEntry → MappingKey
forward_key m = record { entity = m.entity; value = m.original }

-- Every entry of a ledger stands at its own key, and at its other key in the other ledger.
abbrev Points : (MappingEntry → MappingKey) → (MappingEntry → MappingKey) → Ledger → Ledger → Type 0
Points own other l l' =
    (j : MappingKey) (a : MappingEntry)
    → find_entry j l ≡ some a
    → (own a ≡ j) × (find_entry (other a) l' ≡ some a)

some-injective : {A : Type 0} (a b : A) → some a ≡ some b → a ≡ b
some-injective a b h = ground arith

Points-put :
    (own other : MappingEntry → MappingKey) (m : MappingEntry) (l l' : Ledger)
    → ((j : MappingKey) (a : MappingEntry)
        → find_entry j l ≡ some a
        → other a ≡ other m
        → own a ≡ own m)
    → Points own other l l'
    → Points own other (put_entry (own m) m l) (put_entry (other m) m l')
Points-put own other m l l' alone p j a h = elim (Bool-cases (same_key (own m) j)) [
  | inl e ↦
      let at : own m ≡ j = same_key-eq (own m) j e in
      let q : m ≡ a =
        some-injective m a (
          sym (find-put_self (own m) m l)
          ∙ ap (λ i. find_entry i (put_entry (own m) m l)) at
          ∙ h) in
      (
        ap own (sym q) ∙ at,
        subst (λ b. find_entry (other b) (put_entry (other m) m l') ≡ some b) q
            (find-put_self (other m) m l'),
      )
  | inr e ↦
      let old = sym (find-put_ne j (own m) m l e) ∙ h in
      let (at, there) = p j a old in
      (
        at,
        elim (Bool-cases (same_key (other m) (other a))) [
          | inl same ↦
              let q : own a ≡ own m = alone j a old (sym (same_key-eq (other m) (other a) same)) in
              absurd (ground (arith, same_key_refl j, ap (λ i. same_key i j) (sym q ∙ at)))
          | inr ne ↦ find-put_ne (other a) (other m) m l' ne ∙ there
        ],
      )
]

pub record Paired (x : ScopeState) : Type 0 where
  pub there : Points forward_key reverse_key x.forward x.reverse
  pub back : Points reverse_key forward_key x.reverse x.forward

pub store_entry-Paired :
    (k : MappingKey) (v p : String) (now : ℕ) (x : ScopeState)
    → Paired x
    → find_entry k x.forward ≡ none
    → synthetic_taken x k.entity v ≡ false
    → Paired (store_entry k (new_entry k v p now) x)
unfolding store_entry
store_entry-Paired k v p now x h fresh free =
    let m = new_entry k v p now in
    record {
      there =
          Points-put forward_key reverse_key m x.forward x.reverse
            (λ j a at same.
              absurd (ground (arith, ap (λ i. find_entry i x.reverse) same, (h.there j a at).1)))
            h.there;
      back =
          Points-put reverse_key forward_key m x.reverse x.forward
            (λ j a at same.
              absurd (ground (arith, ap (λ i. find_entry i x.forward) same, (h.back j a at).1)))
            h.back;
    }

-- Two entries at the same place are the same.
same_place :
    (j : MappingKey) (l : Ledger) (a b : MappingEntry) (i : MappingKey)
    → find_entry i l ≡ some a
    → find_entry j l ≡ some b
    → i ≡ j
    → a ≡ b
same_place j l a b i f g same = some-injective a b (sym f ∙ ap (λ k. find_entry k l) same ∙ g)

pub promote_input-Paired :
    (k : MappingKey) (m : MappingEntry) (p : String) (x : ScopeState)
    → Paired x
    → find_entry k x.forward ≡ some m
    → Paired (promote_input k m p x)
unfolding promote_input
promote_input-Paired k m p x h at =
    let m' : MappingEntry = record m { provenance = "input" } in
    let (at_k, at_rev) = h.there k m at in
    elim (Bool-cases (is_promoted m p)) [
      | inr e ↦ rw e (record { there = h.there; back = h.back })
      | inl e ↦ rw e (record {
        there =
            subst
              (λ i.
                Points forward_key reverse_key (put_entry i m' x.forward)
                  (put_entry (reverse_key m) m' x.reverse))
              at_k
              (Points-put forward_key reverse_key m' x.forward x.reverse
                (λ j a found same. ap forward_key (
                  same_place (reverse_key m) x.reverse a m (reverse_key a) (h.there j a found).1
                    at_rev same))
                h.there);
        back =
            subst
              (λ i.
                Points reverse_key forward_key (put_entry (reverse_key m) m' x.reverse)
                  (put_entry i m' x.forward))
              at_k
              (Points-put reverse_key forward_key m' x.reverse x.forward
                (λ j a found same. ap reverse_key (
                  same_place (forward_key m) x.forward a m (forward_key a) (h.back j a found).1
                    (ap (λ i. find_entry i x.forward) at_k ∙ at) same))
                h.back);
      })
    ]
