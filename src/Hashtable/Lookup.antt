-- ===== src/Hashtable/Lookup.antt =====
-- What the identity of objects and their hash keys owe one another, when a table is well formed, and
-- the lookup in one chain.
use mathlib.Core.Path.{subst}
use libnl.Prelude.{
  ◌∙◌, ◌⊎◌, Option-cases, ℕ, ◌<◌, ◌≡◌, refl, true, false, none, some, [], ◌∷◌, if◌then◌else◌,
  length, get_or, All, arith, Bool-cases, inl, inr,
}
use libnl.Object.Refs.{Ptr}
use libnl.Hashtable.{Keys, Chain, HashTable, find_node, unlink}

-- The contract of an object type: identity is symmetric and transitive, identical
-- objects have equal keys, and a key lies inside the table.
pub record IsHash (k : Keys) : Type 0 where
  pub symm : (p q : Ptr) → k.identical p q ≡ k.identical q p
  pub trans :
      (p q r : Ptr) → k.identical p q ≡ true → k.identical q r ≡ true → k.identical p r ≡ true
  pub key-identical : (p q : Ptr) (n : ℕ) → k.identical p q ≡ true → k.keygen p n ≡ k.keygen q n
  pub key-lt : (p : Ptr) (n : ℕ) → 0 < n → k.keygen p n < n

module _ (k : Keys) where
  abbrev pub Distinct : Chain → Type 0
  Distinct [] = Unit
  Distinct (p ∷ c) = All (λ r. k.identical p r ≡ false) c × Distinct c

  -- Every object is in the chain of its key, and a chain holds no two identical ones.
  pub record IsValid (ht : HashTable) : Type 0 where
    pub width : length ht.nodes ≡ ht.size
    pub nonempty : 0 < ht.size
    pub placed : (i : ℕ) → All (λ p. k.keygen p ht.size ≡ i) (get_or ht.nodes i [])
    pub distinct : (i : ℕ) → Distinct (get_or ht.nodes i [])

module _ {k : Keys} (laws : IsHash k) where
  pub find_node_absent :
      (c : Chain) (p q : Ptr)
      → All (λ r. k.identical p r ≡ false) c
      → k.identical p q ≡ true
      → find_node k c q ≡ none
  unfolding find_node
  find_node_absent [] p q h e = refl
  find_node_absent (r ∷ c) p q h e =
      ground (arith, find_node_absent c p q h.1 e, laws.symm r q, laws.trans p q r)

  -- An object that is not found is identical to none in the chain.
  pub find_node-none :
      (c : Chain) (obj : Ptr) → find_node k c obj ≡ none → All (λ r. k.identical obj r ≡ false) c
  unfolding find_node
  find_node-none [] obj e = tt
  find_node-none (r ∷ c) obj e = elim (Bool-cases (k.identical r obj)) [
    | inl same ↦ absurd (cc (rw same at e))
    | inr other ↦ (laws.symm obj r ∙ other, find_node-none c obj (rw other at e))
  ]

  pub find_node-identical :
      (c : Chain) (obj p : Ptr) → find_node k c obj ≡ some p → k.identical p obj ≡ true
  unfolding find_node
  find_node-identical [] obj p e = absurd (cc)
  find_node-identical (r ∷ c) obj p e = ground (arith, find_node-identical c obj p)

  -- What unlink found: the first node, or one further on.
  unlink-cases :
      (p : Ptr) (c c' : Chain) (obj : Ptr)
      → unlink k (p ∷ c) obj ≡ some c'
      → ((k.identical p obj ≡ true) × (c ≡ c'))
        ⊎ ((k.identical p obj ≡ false) × ((r : Chain) × (unlink k c obj ≡ some r) × (p ∷ r ≡ c')))
  unfolding unlink
  unlink-cases p c c' obj e = elim (Bool-cases (k.identical p obj)) [
    | inl same ↦ inl (same, ground arith)
    | inr other ↦ elim (Option-cases (unlink k c obj)) [
      | inl none_left ↦ absurd (ground arith)
      | inr (r, found) ↦ inr (other, (r, found, ground arith))
    ]
  ]

  pub unlink-find_node :
      (c c' : Chain) (obj q : Ptr)
      → Distinct k c
      → unlink k c obj ≡ some c'
      → find_node k c' q ≡ (if k.identical obj q then none else find_node k c q)
  unfolding unlink find_node
  unlink-find_node [] c' obj q d e = absurd (cc)
  unlink-find_node (p ∷ c) c' obj q d e = elim (unlink-cases p c c' obj e) [
    | inl (same, tail) ↦ rw (← tail) (
        ground (
          arith,
          find_node_absent c p q d.0,
          laws.symm p obj,
          laws.trans p obj q,
          laws.trans obj p q,
        ))
    | inr (other, (r, found, eq)) ↦
        rw (← eq) (
          ground (arith, unlink-find_node c r obj q d.1 found, laws.symm obj q, laws.trans p q obj))
  ]

  pub unlink-none : (c : Chain) (obj : Ptr) → unlink k c obj ≡ none → find_node k c obj ≡ none
  unfolding unlink find_node
  unlink-none [] obj e = refl
  unlink-none (p ∷ c) obj e = ground (arith, unlink-none c obj)

  pub find_node-unlink :
      (c c' : Chain) (obj : Ptr)
      → unlink k c obj ≡ some c'
      → (p : Ptr) × (find_node k c obj ≡ some p)
  unfolding unlink find_node
  find_node-unlink [] c' obj e = absurd (cc)
  find_node-unlink (p ∷ c) c' obj e = elim (Bool-cases (k.identical p obj)) [
    | inl same ↦ (p, rw same)
    | inr other ↦ elim (unlink-cases p c c' obj e) [
      | inl (same, _) ↦ absurd (cc)
      | inr (_, (r, found, _)) ↦ rw other (find_node-unlink c r obj found)
    ]
  ]

  -- What unlink leaves is part of the chain.
  pub All-unlink {ℓ} :
      (P : Ptr → Type ℓ) (c c' : Chain) (obj : Ptr) → All P c → unlink k c obj ≡ some c' → All P c'
  unfolding unlink
  All-unlink P [] c' obj h e = absurd (cc)
  All-unlink P (p ∷ c) c' obj h e = elim (unlink-cases p c c' obj e) [
    | inl (_, tail) ↦ subst (All P) tail h.1
    | inr (_, (r, found, eq)) ↦ subst (All P) eq (h.0, All-unlink P c r obj h.1 found)
  ]

  unlink_nil : (obj : Ptr) {c : Chain} → unlink k [] obj ≡ some c → ⊥
  unfolding unlink
  unlink_nil obj e = cc

  pub Distinct-unlink :
      (c c' : Chain) (obj : Ptr) → Distinct k c → unlink k c obj ≡ some c' → Distinct k c'
  Distinct-unlink [] c' obj d e = absurd (unlink_nil obj e)
  Distinct-unlink (p ∷ c) c' obj d e = elim (unlink-cases p c c' obj e) [
    | inl (_, tail) ↦ subst (Distinct k) tail d.1
    | inr (_, (r, found, eq)) ↦ subst (Distinct k) eq (
      All-unlink (λ x. k.identical p x ≡ false) c r obj d.0 found,
      Distinct-unlink c r obj d.1 found,
    )
  ]
