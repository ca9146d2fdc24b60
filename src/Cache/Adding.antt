-- ===== src/Cache/Adding.antt =====
-- nl_cache_add on a well-formed memory.
use libnl.Prelude.{
  ℕ, ◌+◌, ◌≡◌, refl, sym, ap, subst, ◌∙◌, true, false, none, some, List, [], ◌∷◌, ◌++◌, ◌==◌,
  ==_refl, if◌then◌else◌, All, Bool-cases, inl, inr, arith,
}
use libnl.Prelude.Int.{pos, plus}
use libnl.Errno.{success}
use libnl.Object.{ObjectOps}
use libnl.Object.Refs.{Ptr, Refs, update, nl_object_get}
use libnl.Hashtable.{Keys, HashTable, find_node, nl_hash_table_add}
use libnl.Hashtable.Objects.{object_keys}
use libnl.Hashtable.Lookup.{IsHash, Distinct}
use libnl.Hashtable.Update.{nl_hash_table_add_lem}
use libnl.Cache.Heap.{World, update_cache}
use libnl.Cache.Valid.{has-append, IsIndex, Indexed, held_by}
use libnl.Cache.Enter.{Enters}

All-append : (P : Ptr → Type 0) (l : List Ptr) (p : Ptr) → All P l → P p → All P (l ++ p ∷ [])
All-append P [] p a h = (h, tt)
All-append P (q ∷ l) p a h = (a.0, All-append P l p a.1 h)

module _ {k : Keys} (laws : IsHash k) where
  -- A search through a list with an object at the end that nothing in it is identical to.
  find_node_append :
      (items : List Ptr) (p q : Ptr)
      → find_node k items p ≡ none
      → find_node k (items ++ p ∷ []) q ≡ (if k.identical p q then some p else find_node k items q)
  unfolding find_node
  find_node_append [] p q absent = refl
  find_node_append (r ∷ l) p q absent =
      ground (arith, find_node_append l p q, laws.symm p q, laws.trans r q p)

  Distinct-append :
      (items : List Ptr) (p : Ptr)
      → find_node k items p ≡ none
      → Distinct k items
      → Distinct k (items ++ p ∷ [])
  unfolding find_node
  Distinct-append [] p absent d = (tt, tt)
  Distinct-append (r ∷ l) p absent d = elim (Bool-cases (k.identical r p)) [
    | inl same ↦ absurd (ground arith)
    | inr other ↦ (
      All-append (λ q. k.identical r q ≡ false) l p d.0 other,
      Distinct-append l p (rw other at absent) d.1,
    )
  ]

  -- What nl_hash_table_add leaves for an object that is identical to none in the cache.
  pub nl_hash_table_add-IsIndex :
      (ht : HashTable) (items : List Ptr) (p : Ptr) (r : Refs)
      → IsIndex k ht items
      → find_node k items p ≡ none
      → k.identical p p ≡ true
      → (ht' : HashTable) × (nl_hash_table_add k ht p r ≡ (success, ht', nl_object_get r p))
        × IsIndex k ht' (items ++ p ∷ [])
  nl_hash_table_add-IsIndex ht items p r ix absent self =
      elim (nl_hash_table_add_lem laws ix.table p r) [
        | inl (q, found, _) ↦ absurd (ground (arith, ix.agrees p))
        | inr (_, (ht', run, v, after)) ↦ (
          ht',
          run,
          record {
            table = v;
            agrees = λ q. ground (arith, after q, ix.agrees q, find_node_append items p q absent);
            apart = Distinct-append items p absent ix.apart;
            reflexive = λ q h. elim (Bool-cases (p == q)) [
              | inl same ↦ let e : p ≡ q = ground arith in ap (λ x. k.identical x x) (sym e) ∙ self
              | inr other ↦ ix.reflexive q (ground (arith, has-append p q items))
            ];
          },
        )
      ]

-- The memory w1 is w, but that p points to the cache c, which holds its references to it.
pub record Stored {D : Type 0} (ops : ℕ → ObjectOps D) (c : ℕ) (p : Ptr) (w w1 : World D)
    : Type 0 where
  pub items : (w1.caches c).c_items ≡ (w.caches c).c_items
  pub nitems : (w1.caches c).c_nitems ≡ (w.caches c).c_nitems
  pub same_ops : (w1.caches c).c_ops ≡ (w.caches c).c_ops
  pub same_held : held_by (w1.caches c).hashtable ≡ held_by (w.caches c).hashtable
  pub others : (d : ℕ) → (c == d) ≡ false → w1.caches d ≡ w.caches d
  pub inside : (q : Ptr) → w1.refs.in_cache q ≡ (if p == q then true else w.refs.in_cache q)
  pub owners : (q : Ptr) → w1.owner q ≡ (if p == q then c else w.owner q)
  pub links : (q : Ptr) → w1.linked q ≡ w.linked q
  pub objects : w1.heap ≡ w.heap
  pub count : (n : ℕ) × (w1.refs.ce_refcnt p ≡ pos (n + held_by (w.caches c).hashtable))
  pub counts : (q : Ptr) → (p == q) ≡ false → w1.refs.ce_refcnt q ≡ w.refs.ce_refcnt q
  pub lives : (q : Ptr) → w1.refs.live q ≡ w.refs.live q
  pub index :
      Indexed (object_keys ops w.heap) (w1.caches c).hashtable ((w.caches c).c_items ++ p ∷ [])

-- The memory after append_item.
abbrev pub appended : {D : Type 0} → ℕ → Ptr → World D → World D
appended c p w =
    record (update_cache c
      (λ cache. record cache {
        c_items = cache.c_items ++ p ∷ [];
        c_nitems = plus cache.c_nitems 1;
      })
      w) { linked = update w.linked p true }

pub appended-Enters :
    {D : Type 0} {ops : ℕ → ObjectOps D} {c : ℕ} {p : Ptr} {w w1 : World D}
    → Stored ops c p w w1
    → Enters ops c p w (appended c p w1)
appended-Enters {ops = ops} {c = c} {p = p} {w = w} {w1 = w1} t =
    let same_table : ((appended c p w1).caches c).hashtable ≡ (w1.caches c).hashtable =
      ground (arith, ==_refl c) in
    record {
      items = ground (arith, ==_refl c, ap (λ l. l ++ p ∷ []) t.items);
      nitems = ground (arith, ==_refl c, t.nitems);
      same_ops = ground (arith, ==_refl c, t.same_ops);
      same_held = ground (arith, ==_refl c, t.same_held);
      others = λ d other. ground (arith, other, t.others d other);
      inside = λ q. t.inside q;
      owners = λ q. t.owners q;
      links = λ q. ground (arith, t.links q);
      objects = t.objects;
      count = t.count;
      counts = λ q other. t.counts q other;
      lives = λ q. t.lives q;
      index =
          subst (λ h. Indexed (object_keys ops w.heap) h ((w.caches c).c_items ++ p ∷ []))
            (sym same_table) t.index;
    }
