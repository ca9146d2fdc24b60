-- ===== src/Hashtable/Update.antt =====
-- nl_hash_table_add and nl_hash_table_del against the map from objects to the identical one stored.
use mathlib.Core.Path.{subst}
use libnl.Prelude.{
  ℕ, ◌+◌, ◌<◌, ◌≡◌, ◌≢◌, ◌⊎◌, refl, sym, ap, ◌∙◌, Option, none, some, [], ◌∷◌, if◌then◌else◌, ◌==◌,
  length, get_or, set, get_or-set, length-set, All, arith, Bool-cases, Option-cases, inl, inr,
}
use libnl.Prelude.Int.{pos}
use libnl.Errno.{success, error, exist, obj_notfound}
use libnl.Object.Refs.{Ptr, Refs, nl_object_get, nl_object_put}
use libnl.Hashtable.{
  Keys, Chain, HashTable, find_node, unlink, nl_hash_table_lookup, nl_hash_table_add,
  nl_hash_table_del,
}
use libnl.Hashtable.Lookup.{
  IsHash, IsValid, Distinct, find_node-none, unlink-find_node, unlink-none, find_node-unlink,
  find_node-identical, All-unlink, Distinct-unlink,
}

-- Putting an object that keeps a reference succeeds and touches no other count.
put_other :
    (r : Refs) (obj p : Ptr) (n : ℕ)
    → p ≢ obj
    → r.ce_refcnt obj ≡ pos (n + 2)
    → ((nl_object_put r obj).0 ≡ success)
      × ((nl_object_put r obj).1.ce_refcnt p ≡ r.ce_refcnt p)
      × ((nl_object_put r obj).1.ce_refcnt obj ≡ pos (n + 1))
unfolding nl_object_put
put_other r obj p n ne count = ground arith

find_node_cons :
    (k : Keys) (c : Chain) (obj q : Ptr)
    → find_node k (obj ∷ c) q ≡ (if k.identical obj q then some obj else find_node k c q)
unfolding find_node
find_node_cons k c obj q = refl

module _ {k : Keys} (laws : IsHash k) {ht : HashTable} (v : IsValid k ht) (obj : Ptr) where
  abbrev pub home : Chain
  home = get_or ht.nodes (k.keygen obj ht.size) []

  -- The table with the chain of the object replaced.
  abbrev pub with_chain : Chain → HashTable
  with_chain c = record ht { nodes = set ht.nodes (k.keygen obj ht.size) c }

  inside : k.keygen obj ht.size < length ht.nodes
  inside = omega (arith, v.width, laws.key-lt obj ht.size v.nonempty)

  chain_at :
      (c : Chain) (i : ℕ)
      → get_or (with_chain c).nodes i []
        ≡ (if k.keygen obj ht.size == i then c else get_or ht.nodes i [])
  chain_at c i = get_or-set ht.nodes (k.keygen obj ht.size) i c [] inside

  with_chain-IsValid :
      (c : Chain)
      → All (λ p. k.keygen p ht.size ≡ k.keygen obj ht.size) c
      → Distinct k c
      → IsValid k (with_chain c)
  with_chain-IsValid c home_keys apart = record {
    width = length-set ht.nodes (k.keygen obj ht.size) c ∙ v.width;
    nonempty = v.nonempty;
    placed = λ i. elim (Bool-cases (k.keygen obj ht.size == i)) [
      | inl same ↦
          subst (All (λ p. k.keygen p ht.size ≡ i)) (sym (chain_at c i ∙ rw same))
            (subst (λ j. All (λ p. k.keygen p ht.size ≡ j) c) (ground arith) home_keys)
      | inr other ↦
          subst (All (λ p. k.keygen p ht.size ≡ i)) (sym (chain_at c i ∙ rw other)) (v.placed i)
    ];
    distinct = λ i. elim (Bool-cases (k.keygen obj ht.size == i)) [
      | inl same ↦ subst (Distinct k) (sym (chain_at c i ∙ rw same)) apart
      | inr other ↦ subst (Distinct k) (sym (chain_at c i ∙ rw other)) (v.distinct i)
    ];
  }

  lookup-with_chain :
      (c : Chain) (q : Ptr) (o : Option Ptr)
      → (k.keygen obj ht.size ≡ k.keygen q ht.size
          → find_node k c q ≡ (if k.identical obj q then o else find_node k home q))
      → nl_hash_table_lookup k (with_chain c) q
        ≡ (if k.identical obj q then o else nl_hash_table_lookup k ht q)
  unfolding nl_hash_table_lookup
  lookup-with_chain c q o here = elim (Bool-cases (k.keygen obj ht.size == k.keygen q ht.size)) [
    | inl same ↦
        let e : k.keygen obj ht.size ≡ k.keygen q ht.size = ground arith in
        rw (chain_at c (k.keygen q ht.size), same)
          (here e
            ∙ ap (λ (i : ℕ). if k.identical obj q then o else find_node k (get_or ht.nodes i []) q)
                e)
    | inr other ↦
        rw (chain_at c (k.keygen q ht.size), other)
          (ground (arith, laws.key-identical obj q ht.size))
  ]

  -- nl_hash_table_add returns -NLE_EXIST and changes nothing exactly when the lookup of the object
  -- finds one. Otherwise it succeeds and takes one reference to the object; the table stays well
  -- formed, and a lookup then finds the object for all that are identical to it, and what it found
  -- before for all others.
  pub nl_hash_table_add_lem :
      (r : Refs)
      → ((p : Ptr) × (nl_hash_table_lookup k ht obj ≡ some p)
          × (nl_hash_table_add k ht obj r ≡ (error exist, ht, r)))
        ⊎ ((nl_hash_table_lookup k ht obj ≡ none)
            × ((ht' : HashTable) × (nl_hash_table_add k ht obj r
                  ≡ (success, ht', nl_object_get r obj))
                × IsValid k ht'
                × ((q : Ptr)
                    → nl_hash_table_lookup k ht' q
                      ≡ (if k.identical obj q then some obj else nl_hash_table_lookup k ht q))))
  unfolding nl_hash_table_add nl_hash_table_lookup
  nl_hash_table_add_lem r = elim (Option-cases (find_node k home obj)) [
    | inr (p, found) ↦ inl (p, found, ground arith)
    | inl absent ↦ inr (
      absent,
      (
        with_chain (obj ∷ home),
        ground arith,
        with_chain-IsValid (obj ∷ home) (refl, v.placed (k.keygen obj ht.size))
            (find_node-none laws home obj absent, v.distinct (k.keygen obj ht.size)),
        λ q. lookup-with_chain (obj ∷ home) q (some obj) (λ e. find_node_cons k home obj q),
      ),
    )
  ]

  -- nl_hash_table_del returns -NLE_OBJ_NOTFOUND and changes nothing exactly when the lookup of the
  -- object finds none. Otherwise the object given, not the one stored, is put; the deletion succeeds,
  -- the table stays well formed, and a lookup then finds nothing for all that are identical to the
  -- object, and what it found before for all others. The condition is that putting the object does
  -- not end in BUG().
  pub nl_hash_table_del_lem :
      (r : Refs)
      → (nl_object_put r obj).0 ≡ success
      → ((nl_hash_table_lookup k ht obj ≡ none)
          × (nl_hash_table_del k ht obj r ≡ (error obj_notfound, ht, r)))
        ⊎ (((p : Ptr) × (nl_hash_table_lookup k ht obj ≡ some p))
            × ((ht' : HashTable) × (nl_hash_table_del k ht obj r
                  ≡ (success, ht', (nl_object_put r obj).1))
                × IsValid k ht'
                × ((q : Ptr)
                    → nl_hash_table_lookup k ht' q
                      ≡ (if k.identical obj q then none else nl_hash_table_lookup k ht q))))
  unfolding nl_hash_table_del nl_hash_table_lookup
  nl_hash_table_del_lem r fine = elim (Option-cases (unlink k home obj)) [
    | inl absent ↦ inl (unlink-none laws home obj absent, ground arith)
    | inr (c, found) ↦ inr (
      find_node-unlink laws home c obj found,
      (
        with_chain c,
        ground arith,
        with_chain-IsValid c
            (All-unlink laws (λ p. k.keygen p ht.size ≡ k.keygen obj ht.size) home c obj
              (v.placed (k.keygen obj ht.size)) found)
            (Distinct-unlink laws home c obj (v.distinct (k.keygen obj ht.size)) found),
        λ q.
            lookup-with_chain c q none
              (λ e. unlink-find_node laws home c obj q (v.distinct (k.keygen obj ht.size)) found),
      ),
    )
  ]

  -- Deleting by an object that is identical to the stored one but is another object gives back a
  -- reference to the argument: the count of the stored object stays, although the table no longer
  -- refers to it, and the count of the argument falls, although the table never held it.
  pub del_wrong_reference :
      (r : Refs) (p : Ptr) (n : ℕ)
      → nl_hash_table_lookup k ht obj ≡ some p
      → p ≢ obj
      → r.ce_refcnt obj ≡ pos (n + 2)
      → let (o, ht', r') = nl_hash_table_del k ht obj r in
        (o ≡ success)
        × (nl_hash_table_lookup k ht' obj ≡ none)
        × (r'.ce_refcnt p ≡ r.ce_refcnt p)
        × (r'.ce_refcnt obj ≡ pos (n + 1))
  unfolding nl_hash_table_lookup
  del_wrong_reference r p n found ne count =
      let (fine, kept, fell) = put_other r obj p n ne count in
      elim (nl_hash_table_del_lem r fine) [
        | inl (absent, _) ↦ absurd (cc)
        | inr (_, (ht', e, _, after)) ↦
            let same = find_node-identical laws home obj p found in
            rw e
              (refl, ground (arith, after obj, laws.symm p obj, laws.trans obj p obj), kept, fell)
      ]
