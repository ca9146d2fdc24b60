-- ===== src/Cache/Removal.antt =====
-- nl_cache_remove on a well-formed memory.
use libnl.Prelude.{
  if◌then◌else◌, inl, inr, Option-cases, subst, sym, ℕ, ◌==◌, ==_refl, ◌+◌, ◌≡◌, refl, ◌∙◌, ap,
  true, false, Option, none, some, arith,
}
use libnl.Hashtable.Lookup.{IsHash}
use libnl.Errno.{Outcome, success}
use libnl.Hashtable.{HashTable}
use libnl.Object.Refs.{nl_object_put, Ptr, update}
use libnl.Prelude.Int.{pos}
use libnl.Cache.Valid.{has, IsWorld, IsIndex, held_by, Indexed}
use libnl.Cache.{hash_del, remove_from, nl_cache_remove, erase}
use libnl.Hashtable.Objects.{object_keys}
use libnl.Cache.Remove.{
  put_kept, put_last, nl_hash_table_del-IsIndex, rest, left, rest-left, put_fine, put_count,
  put_in_cache, put_live,
}
use libnl.Cache.Leave.{Leaves-IsWorld, Leaves}
use libnl.Object.{ObjectOps}
use libnl.Cache.Heap.{update_cache, World}

-- The memory w1 is w, but for what the hash table of the cache c and its reference to p are.
record Taken {D : Type 0} (ops : ℕ → ObjectOps D) (c : ℕ) (p : Ptr) (w w1 : World D) : Type 0 where
  pub items : (w1.caches c).c_items ≡ (w.caches c).c_items
  pub nitems : (w1.caches c).c_nitems ≡ (w.caches c).c_nitems
  pub same_ops : (w1.caches c).c_ops ≡ (w.caches c).c_ops
  pub same_held : held_by (w1.caches c).hashtable ≡ held_by (w.caches c).hashtable
  pub others : (d : ℕ) → (c == d) ≡ false → w1.caches d ≡ w.caches d
  pub inside : (q : Ptr) → w1.refs.in_cache q ≡ w.refs.in_cache q
  pub owners : (q : Ptr) → w1.owner q ≡ w.owner q
  pub links : (q : Ptr) → w1.linked q ≡ w.linked q
  pub objects : w1.heap ≡ w.heap
  pub counts : (q : Ptr) → (p == q) ≡ false → w1.refs.ce_refcnt q ≡ w.refs.ce_refcnt q
  pub lives : (q : Ptr) → (p == q) ≡ false → w1.refs.live q ≡ w.refs.live q
  pub marks : w1.marked ≡ w.marked
  pub reports : w1.events ≡ w.events
  pub count :
      (n : ℕ)
      → w.refs.ce_refcnt p ≡ pos (n + held_by (w.caches c).hashtable)
      → (w1.refs.ce_refcnt p ≡ pos (n + 1)) × (w1.refs.live p ≡ w.refs.live p)
  pub index :
      Indexed (object_keys ops w.heap) (w1.caches c).hashtable (erase p (w.caches c).c_items)

module _ {D : Type 0} {ops : ℕ → ObjectOps D} {c : ℕ} {p : Ptr} {w w1 : World D}
    (t : Taken ops c p w w1) where
  rest_fine :
      (n : ℕ)
      → w.refs.ce_refcnt p ≡ pos (n + held_by (w.caches c).hashtable)
      → rest c p w1 ≡ some (tt, left c p w1)
  rest_fine n e = rest-left c p w1 (
      put_fine (record (w1.refs) { in_cache = update w1.refs.in_cache p false }) p n (t.count n e).0
        (ground (arith, ==_refl p)))

  -- The count of the object falls by one, and it is outside.
  left-Leaves : Leaves ops c p w (left c p w1)
  left-Leaves =
      let out = record (w1.refs) { in_cache = update w1.refs.in_cache p false } in
      let same_table : ((left c p w1).caches c).hashtable ≡ (w1.caches c).hashtable =
        ground (arith, ==_refl c) in
      record {
        items = ground (arith, ==_refl c, ap (erase p) t.items);
        nitems = ground (arith, ==_refl c, t.nitems);
        same_ops = ground (arith, ==_refl c, t.same_ops);
        same_held = ground (arith, ==_refl c, t.same_held);
        others = λ d other. ground (arith, other, t.others d other);
        outside = λ q. ground (arith, put_in_cache out p q, t.inside q);
        owners = λ q. t.owners q;
        links = λ q. t.links q;
        objects = t.objects;
        counts = λ q other. ground (arith, put_count out p q, t.counts q other);
        lives = λ q other. put_live out p q other ∙ t.lives q other;
        marks = t.marks;
        reports = t.reports;
        gives_back = λ n e.
            let (back, alive) = t.count n e in
            let (count, live) = put_last out p n back (ground (arith, ==_refl p)) in
            (count, live ∙ ap (λ x. if n == 0 then false else x) alive);
        index =
            subst (λ h. Indexed (object_keys ops w.heap) h (erase p (w.caches c).c_items))
              (sym same_table) t.index;
      }

module _ {D : Type 0} {ops : ℕ → ObjectOps D} {w : World D} (v : IsWorld ops w) (c : ℕ) (p : Ptr)
    (there : has p (w.caches c).c_items ≡ true) where
  without_table : (w.caches c).hashtable ≡ none → Taken ops c p w w
  without_table e = record {
    items = refl;
    nitems = refl;
    same_ops = refl;
    same_held = refl;
    others = λ d other. refl;
    inside = λ q. refl;
    owners = λ q. refl;
    links = λ q. refl;
    objects = refl;
    counts = λ q other. refl;
    lives = λ q other. refl;
    marks = refl;
    reports = refl;
    count = λ n count. (count ∙ ap (λ h. pos (n + held_by h)) e, refl);
    index =
        subst (λ h. Indexed (object_keys ops w.heap) h (erase p (w.caches c).c_items)) (sym e) tt;
  }

  -- The memory after the hash table gave back its reference.
  abbrev unhashed : HashTable → World D
  unhashed ht =
      update_cache c (λ cache. record cache { hashtable = some ht })
        (record w { refs = (nl_object_put w.refs p).1 })

  with_table :
      (ht ht' : HashTable)
      → (w.caches c).hashtable ≡ some ht
      → IsIndex (object_keys ops w.heap) ht' (erase p (w.caches c).c_items)
      → Taken ops c p w (unhashed ht')
  with_table ht ht' e ix = record {
    items = ground (arith, ==_refl c);
    nitems = ground (arith, ==_refl c);
    same_ops = ground (arith, ==_refl c);
    same_held = ground (arith, ==_refl c);
    others = λ d other. ground (arith, other);
    inside = λ q. put_in_cache w.refs p q;
    owners = λ q. refl;
    links = λ q. refl;
    objects = refl;
    counts = λ q other. ground (arith, put_count w.refs p q);
    lives = λ q other. put_live w.refs p q other;
    marks = refl;
    reports = refl;
    count = λ n count.
        let two : w.refs.ce_refcnt p ≡ pos (n + 2) = count ∙ ap (λ h. pos (n + held_by h)) e in
        (ground (arith, put_count w.refs p p, ==_refl p, two), (put_kept w.refs p n two).1);
    index =
        let same : ((unhashed ht').caches c).hashtable ≡ some ht' = ground (arith, ==_refl c) in
        subst (λ h. Indexed (object_keys ops w.heap) h (erase p (w.caches c).c_items)) (sym same)
          ix;
  }

  hash_del_taken :
      IsHash (object_keys ops w.heap)
      → (o : Outcome) × ((w1 : World D) × (hash_del ops c p w ≡ some (o, w1)) × Taken ops c p w w1)
  unfolding hash_del
  hash_del_taken laws = elim (Option-cases ((w.caches c).hashtable)) [
    | inl e ↦ (success, (w, ground (arith, e), without_table e))
    | inr (ht, e) ↦
        let ix : IsIndex (object_keys ops w.heap) ht (w.caches c).c_items =
          subst (λ h. Indexed (object_keys ops w.heap) h (w.caches c).c_items) e (v c).indexed in
        let (n, count) = (v c).held p there in
        let (fine, _) = put_kept w.refs p n (count ∙ ap (λ h. pos (n + held_by h)) e) in
        let (ht', run, ix') = nl_hash_table_del-IsIndex laws p w.refs ix (v c).unique there fine in
        (success, (unhashed ht', ground (arith, e, run), with_table ht ht' e ix'))
  ]

  remove_from-rest :
      (o : Outcome) (w1 : World D)
      → hash_del ops c p w ≡ some (o, w1)
      → remove_from ops c p w ≡ rest c p w1
  unfolding remove_from
  remove_from-rest o w1 e =
      ap (λ (x : Option (Outcome × World D)). elim x [ none ↦ none | some (_, w') ↦ rest c p w' ]) e

  remove_from-Leaves :
      IsHash (object_keys ops w.heap)
      → (w' : World D) × (remove_from ops c p w ≡ some (tt, w'))
        × IsWorld ops w'
        × Leaves ops c p w w'
  remove_from-Leaves laws =
      let (o, (w1, run, taken)) = hash_del_taken laws in
      let leaves = left-Leaves taken in
      let (n, count) = (v c).held p there in
      (
        left c p w1,
        remove_from-rest o w1 run ∙ rest_fine taken n count,
        Leaves-IsWorld leaves v there,
        leaves,
      )

-- Removing an object that stands in a cache succeeds. The cache that the object points to loses this
-- object and no other, its count of objects falls by one, its hash table finds what the search through
-- the shorter list finds; the other caches and the references to other objects stay; and the memory is
-- well formed again. The conditions are that the memory is, and that the objects meet the contract of
-- the hash table.
pub nl_cache_remove_lem :
    {D : Type 0} {ops : ℕ → ObjectOps D} {w : World D}
    → IsWorld ops w
    → IsHash (object_keys ops w.heap)
    → (p : Ptr) → w.refs.in_cache p ≡ true
    → (w' : World D) × (nl_cache_remove ops p w ≡ some (tt, w'))
      × IsWorld ops w'
      × Leaves ops (w.owner p) p w w'
unfolding nl_cache_remove
nl_cache_remove_lem {w = w} v laws p inside = rw inside (
    remove_from-Leaves v (w.owner p) p
      (ground (arith, (v (w.owner p)).members p, ==_refl (w.owner p))) laws)
