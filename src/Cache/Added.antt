-- ===== src/Cache/Added.antt =====
-- nl_cache_add on a well-formed memory, for an object that is in no cache.
use libnl.Prelude.{
  ℕ, ◌+◌, ◌≡◌, ◌⊎◌, refl, sym, ap, subst, ◌∙◌, true, false, Option, none, some, [], ◌∷◌, ◌++◌, ◌==◌,
  ==_refl, Option-cases, inl, inr, arith,
}
use libnl.Prelude.Int.{pos}
use libnl.Errno.{Outcome, success, error, exist}
use libnl.Object.{ObjectOps}
use libnl.Object.Refs.{Ptr, Refs, update, nl_object_get, nl_object_put}
use libnl.Hashtable.{HashTable, find_node}
use libnl.Hashtable.Objects.{object_keys}
use libnl.Hashtable.Lookup.{IsHash}
use libnl.Hashtable.Update.{nl_hash_table_add_lem}
use libnl.Cache.Heap.{World, update_cache, pure, ◌>>=◌, ◌>>◌}
use libnl.Cache.{settled, added, hash_add, cache_add, to_add, nl_cache_add}
use libnl.Cache.Valid.{IsIndex, Indexed, held_by, IsWorld}
use libnl.Cache.Adding.{Stored, appended, appended-Enters, nl_hash_table_add-IsIndex}
use libnl.Cache.Enter.{Enters, Enters-IsWorld}
use libnl.Cache.Remove.{put_fine, ran-success}

-- The memory is what it was, but for the cache that an object outside of all caches points to.
pub record Unchanged {D : Type 0} (p : Ptr) (w w' : World D) : Type 0 where
  pub same_caches : (d : ℕ) → w'.caches d ≡ w.caches d
  pub same_counts : (q : Ptr) → w'.refs.ce_refcnt q ≡ w.refs.ce_refcnt q
  pub inside : (q : Ptr) → w'.refs.in_cache q ≡ w.refs.in_cache q
  pub lives : (q : Ptr) → w'.refs.live q ≡ w.refs.live q
  pub owners : (q : Ptr) → (p == q) ≡ false → w'.owner q ≡ w.owner q
  pub links : (q : Ptr) → w'.linked q ≡ w.linked q
  pub objects : w'.heap ≡ w.heap

module _ {D : Type 0} {ops : ℕ → ObjectOps D} {w : World D} (v : IsWorld ops w)
    (laws : IsHash (object_keys ops w.heap)) (c : ℕ) (p : Ptr) (n : ℕ)
    (count : w.refs.ce_refcnt p ≡ pos (n + 1)) where
  -- The memory after the object was given the reference and the pointer to the cache.
  abbrev entered : World D
  entered =
      let r = nl_object_get w.refs p in
      record w {
        refs = record r { in_cache = update r.in_cache p true };
        owner = update w.owner p c;
      }

  abbrev with_table : HashTable → Refs → World D
  with_table ht r =
      update_cache c (λ cache. record cache { hashtable = some ht }) (record entered { refs = r })

  list-Stored : (w.caches c).hashtable ≡ none → Stored ops c p w entered
  unfolding nl_object_get
  list-Stored e = record {
    items = refl;
    nitems = refl;
    same_ops = refl;
    same_held = refl;
    others = λ d other. refl;
    inside = λ q. refl;
    owners = λ q. refl;
    links = λ q. refl;
    objects = refl;
    count = (n + 1, ground (arith, count, ap held_by e));
    counts = λ q other. ground (arith, other);
    lives = λ q. refl;
    index =
        subst (λ h. Indexed (object_keys ops w.heap) h ((w.caches c).c_items ++ p ∷ [])) (sym e) tt;
  }

  table-Stored :
      (ht ht' : HashTable)
      → (w.caches c).hashtable ≡ some ht
      → IsIndex (object_keys ops w.heap) ht' ((w.caches c).c_items ++ p ∷ [])
      → Stored ops c p w (with_table ht' (nl_object_get entered.refs p))
  unfolding nl_object_get
  table-Stored ht ht' e ix =
      let same : ((with_table ht' (nl_object_get entered.refs p)).caches c).hashtable ≡ some ht' =
        ground (arith, ==_refl c) in
      record {
        items = ground (arith, ==_refl c);
        nitems = ground (arith, ==_refl c);
        same_ops = ground (arith, ==_refl c);
        same_held = ground (arith, ==_refl c);
        others = λ d other. ground (arith, other);
        inside = λ q. refl;
        owners = λ q. refl;
        links = λ q. refl;
        objects = refl;
        count = (n + 1, ground (arith, count, ap held_by e, ==_refl p));
        counts = λ q other. ground (arith, other);
        lives = λ q. refl;
        index =
            subst (λ h. Indexed (object_keys ops w.heap) h ((w.caches c).c_items ++ p ∷ []))
              (sym same) ix;
      }

  -- The two outcomes of the hash table, if the cache has one.
  hash_add-Stored :
      (object_keys ops w.heap).identical p p ≡ true
      → ((q : Ptr) × (ht : HashTable) × (find_node (object_keys ops w.heap) (w.caches c).c_items p
            ≡ some q)
          × ((w.caches c).hashtable ≡ some ht)
          × (hash_add ops c p entered ≡ some (error exist, with_table ht entered.refs)))
        ⊎ ((w1 : World D) × (hash_add ops c p entered ≡ some (success, w1)) × Stored ops c p w w1)
  unfolding hash_add
  hash_add-Stored self = elim (Option-cases ((w.caches c).hashtable)) [
    | inl e ↦ inr (entered, ground (arith, e), list-Stored e)
    | inr (ht, e) ↦
        let ix : IsIndex (object_keys ops w.heap) ht (w.caches c).c_items =
          subst (λ h. Indexed (object_keys ops w.heap) h (w.caches c).c_items) e (v c).indexed in
        elim (nl_hash_table_add_lem laws ix.table p entered.refs) [
          | inl (q, found, run) ↦ inl (q, ht, sym (ix.agrees p) ∙ found, e, ground (arith, e, run))
          | inr (missing, _) ↦
              let (ht', run, ix') =
                nl_hash_table_add-IsIndex laws ht (w.caches c).c_items p entered.refs ix
                  (sym (ix.agrees p) ∙ missing) self in
              inr (
                with_table ht' (nl_object_get entered.refs p),
                ground (arith, e, run),
                table-Stored ht ht' e ix',
              )
        ]
  ]

  -- The memory after nl_cache_add took back what it did, on -NLE_EXIST.
  abbrev undone : HashTable → World D
  undone ht =
      let r = entered.refs in
      let w' = with_table ht r in
      record w' { refs = (nl_object_put (record r { in_cache = update r.in_cache p false }) p).1 }

  -- What nl_cache_add does after the hash table.
  nl_cache_add-hash_add :
      (o : Outcome) (w1 : World D)
      → (w.caches c).c_ops.co_obj_ops == (w.heap p).ce_ops ≡ true
      → w.linked p ≡ false
      → hash_add ops c p entered ≡ some (o, w1)
      → nl_cache_add ops c p w ≡ (settled ops c p o >>= added ops p) w1
  unfolding nl_cache_add cache_add to_add
  nl_cache_add-hash_add o w1 type unlinked e =
      let got : to_add ops p w ≡ some (p, record w { refs = nl_object_get w.refs p }) =
        ground (arith, unlinked) in
      rw type (
        ap
          (λ (x : Option (Ptr × World D)). elim x [
            | none ↦ none
            | some (new, w') ↦ (cache_add ops c new >>= added ops new) w'
          ])
          got
        ∙ ap
            (λ (x : Option (Outcome × World D)).
              (((λ (_ : World D). x) >>= settled ops c p) >>= added ops p) w)
            e)

  undone_lem :
      (ht : HashTable)
      → (settled ops c p (error exist) >>= added ops p) (with_table ht entered.refs)
        ≡ some (error exist, undone ht)
  unfolding nl_object_get
  undone_lem ht =
      let r = entered.refs in
      let out = record r { in_cache = update r.in_cache p false } in
      ap (λ (x : Option (Unit {0} × World D)). ((λ (_ : World D). x) >> pure (error exist)) w)
        (ran-success (record (with_table ht r) { refs = out }) (nl_object_put out p)
          (put_fine out p (n + 1) (ground (arith, count, ==_refl p)) (ground (arith, ==_refl p))))

  undone-Unchanged :
      (ht : HashTable)
      → (w.caches c).hashtable ≡ some ht
      → w.refs.in_cache p ≡ false
      → Unchanged p w (undone ht)
  unfolding nl_object_get nl_object_put
  undone-Unchanged ht e out =
      let same_table : record (w.caches c) { hashtable = some ht } ≡ w.caches c =
        ap (λ h. record (w.caches c) { hashtable = h }) (sym e) in
      record {
        same_caches = λ d. ground (arith, same_table, ap w.caches {x = c} {y = d});
        same_counts = λ q. ground (arith, count, ap w.refs.ce_refcnt {x = p} {y = q});
        inside = λ q. ground (arith, count, out, ap w.refs.in_cache {x = p} {y = q});
        lives = λ q. ground (arith, count);
        owners = λ q other. ground (arith, other);
        links = λ q. refl;
        objects = refl;
      }

-- Adding an object of the cache's type, which is in no cache and on no list, has two outcomes. If the
-- cache has a hash table and an identical object, -NLE_EXIST is returned, and the caches, the counts of
-- the references and the objects are as they were. Otherwise the object stands at the end of the cache,
-- which holds its references to it, counts it and finds it through its hash table; the other caches
-- and the references to other objects stay; and the memory is well formed again. The conditions are
-- that the memory is, that the objects meet the contract of the hash table, and that the object is
-- alive and has the attributes that identify it.
pub nl_cache_add_lem :
    {D : Type 0} {ops : ℕ → ObjectOps D} {w : World D}
    → IsWorld ops w
    → IsHash (object_keys ops w.heap)
    → (c : ℕ) (p : Ptr) (n : ℕ) → w.refs.ce_refcnt p ≡ pos (n + 1)
    → w.refs.in_cache p ≡ false
    → w.refs.live p ≡ true
    → w.linked p ≡ false
    → (w.caches c).c_ops.co_obj_ops == (w.heap p).ce_ops ≡ true
    → (object_keys ops w.heap).identical p p ≡ true
    → ((q : Ptr) × (ht : HashTable) × (w' : World D) × (find_node
            (object_keys ops w.heap)
            (w.caches c).c_items
            p
          ≡ some q)
        × ((w.caches c).hashtable ≡ some ht)
        × (nl_cache_add ops c p w ≡ some (error exist, w'))
        × Unchanged p w w')
      ⊎ ((w' : World D) × (nl_cache_add ops c p w ≡ some (success, w'))
          × IsWorld ops w'
          × Enters ops c p w w')
nl_cache_add_lem {ops = ops} {w = w} v laws c p n count out live unlinked type self =
    elim (hash_add-Stored v laws c p n count self) [
      | inl (q, ht, found, e, run) ↦ inl (
        q,
        ht,
        undone v laws c p n count ht,
        found,
        e,
        nl_cache_add-hash_add v laws c p n count (error exist)
              (with_table v laws c p n count ht (entered v laws c p n count).refs) type unlinked run
            ∙ undone_lem v laws c p n count ht,
        undone-Unchanged v laws c p n count ht e out,
      )
      | inr (w1, run, stored) ↦
          let enters = appended-Enters stored in
          inr (
            appended c p w1,
            nl_cache_add-hash_add v laws c p n count success w1 type unlinked run,
            Enters-IsWorld enters v out live (ground arith),
            enters,
          )
    ]
