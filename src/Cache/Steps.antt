-- ===== src/Cache/Steps.antt =====
-- Sequences of changes to the caches and to the references of others to their objects.
use libnl.Prelude.{
  ℕ, ◌+◌, ◌≡◌, refl, sym, ap, subst, ◌∙◌, Bool, true, false, Option, none, some, ◌==◌, ==_refl,
  if◌then◌else◌, Bool-cases, Option-cases, inl, inr, arith,
}
use libnl.Prelude.Int.{pos}
use libnl.Errno.{Outcome}
use libnl.Object.{ObjectOps}
use libnl.Object.Refs.{Ptr, nl_object_get, nl_object_put}
use libnl.Hashtable.{find_node}
use libnl.Hashtable.Objects.{object_keys}
use libnl.Hashtable.Lookup.{IsHash}
use libnl.Cache.Heap.{World}
use libnl.Cache.{nl_cache_add, nl_cache_remove}
use libnl.Cache.Scan.{got, nl_cache_search}
use libnl.Cache.Valid.{held_some, has, held_by, IsWorld}
use libnl.Cache.Remove.{put_count, put_in_cache, put_live, put_kept}
use libnl.Cache.Removal.{nl_cache_remove_lem}
use libnl.Cache.Added.{Unchanged, nl_cache_add_lem}
use libnl.Cache.Search.{nl_cache_search-find_node}
use libnl.Cache.Sweep.{taken-Touches}
use libnl.Cache.Touch.{Touches, Touches-IsWorld}

-- One change: an object that is in no cache, and of the cache's type, is added to one, an object is
-- removed, a cache is searched, and others take a reference to an object or give one back that is not the cache's.
pub data Step {D : Type 0} (ops : ℕ → ObjectOps D) (w w' : World D) : Type 0 where
  adds :
      (c : ℕ) (p : Ptr) (n : ℕ) (o : Outcome)
      → w.refs.ce_refcnt p ≡ pos (n + 1)
      → w.refs.in_cache p ≡ false
      → w.refs.live p ≡ true
      → w.linked p ≡ false
      → (w.caches c).c_ops.co_obj_ops == (w.heap p).ce_ops ≡ true
      → (object_keys ops w.heap).identical p p ≡ true
      → nl_cache_add ops c p w ≡ some (o, w')
      → Step ops w w'
  removes : (p : Ptr) → nl_cache_remove ops p w ≡ some (tt, w') → Step ops w w'
  searches :
      (c : ℕ) (needle : Ptr) (found : Option Ptr)
      → nl_cache_search ops c needle w ≡ some (found, w')
      → Step ops w w'
  takes : (p : Ptr) → record w { refs = nl_object_get w.refs p } ≡ w' → Step ops w w'
  gives :
      (p : Ptr) (n : ℕ)
      → w.refs.ce_refcnt p
        ≡ pos (n + 1 + (if w.refs.in_cache p then held_by (w.caches (w.owner p)).hashtable else 0))
      → record w { refs = (nl_object_put w.refs p).1 } ≡ w'
      → Step ops w w'

pub data Steps {D : Type 0} (ops : ℕ → ObjectOps D) (w : World D) : World D → Type 0 where
  stay : Steps ops w w
  step : {w1 w2 : World D} → Steps ops w w1 → Step ops w1 w2 → Steps ops w w2

Unchanged-Touches :
    {D : Type 0} (p : Ptr) (w w' : World D)
    → w.refs.in_cache p ≡ false
    → Unchanged p w w'
    → Touches w w'
Unchanged-Touches p w w' out u = record {
  same_caches = u.same_caches;
  inside = u.inside;
  owners = λ q h. u.owners q (ground (arith, ap w.refs.in_cache {x = p} {y = q}));
  links = u.links;
  objects = u.objects;
  counts = λ q n h count. (n, u.same_counts q ∙ count);
  lives = λ q h. u.lives q;
}

gives-Touches :
    {D : Type 0} (p : Ptr) (n : ℕ) (w : World D)
    → w.refs.ce_refcnt p
      ≡ pos (n + 1 + (if w.refs.in_cache p then held_by (w.caches (w.owner p)).hashtable else 0))
    → Touches w (record w { refs = (nl_object_put w.refs p).1 })
gives-Touches p n w count = record {
  same_caches = λ d. refl;
  inside = λ q. put_in_cache w.refs p q;
  owners = λ q h. refl;
  links = λ q. refl;
  objects = refl;
  counts = λ q m h count'. elim (Bool-cases (p == q)) [
    | inl same ↦
        let e : p ≡ q = ground arith in
        let inside = ap w.refs.in_cache e ∙ h in
        (
          n,
          subst
              (λ x.
                (nl_object_put w.refs p).1.ce_refcnt x
                ≡ pos (n + held_by (w.caches (w.owner x)).hashtable))
              e (ground (arith, put_count w.refs p p, ==_refl p, inside, count)),
        )
    | inr other ↦ (m, ground (arith, put_count w.refs p q, count'))
  ];
  lives = λ q h. elim (Bool-cases (p == q)) [
    | inl same ↦
        let e : p ≡ q = ground arith in
        let inside = ap w.refs.in_cache e ∙ h in
        let (m, held) = held_some (w.caches (w.owner p)).hashtable in
        let two : w.refs.ce_refcnt p ≡ pos (n + m + 2) =
          count
          ∙ ap
              (λ (b : Bool).
                pos (n + 1 + (if b then held_by (w.caches (w.owner p)).hashtable else 0)))
              inside
          ∙ ap pos (omega (arith, held)) in
        subst (λ x. (nl_object_put w.refs p).1.live x ≡ w.refs.live x) e
          (put_kept w.refs p (n + m) two).1
    | inr other ↦ put_live w.refs p q other
  ];
}

-- The memories that a function returns are the same.
same_world :
    {D A : Type 0} {a b : A} {w w' : World D}
    → ◌≡◌ {A = Option (A × World D)} (some (a, w)) (some (b, w'))
    → w ≡ w'
same_world {D} {A} {w = w} e =
    ap (λ (o : Option (A × World D)). elim o [ none ↦ w | some (_, x) ↦ x ]) e

module _ {D : Type 0} {ops : ℕ → ObjectOps D} where
  -- The memory is well formed after a step, with the same contents of the objects.
  Step-IsWorld :
      {w w' : World D}
      → IsWorld ops w
      → IsHash (object_keys ops w.heap)
      → Step ops w w'
      → IsWorld ops w' × (w'.heap ≡ w.heap)
  unfolding nl_cache_remove
  Step-IsWorld {w} {w'} v laws (adds c p n o count out live unlinked type self run) =
      elim (nl_cache_add_lem v laws c p n count out live unlinked type self) [
        | inl (q, ht, w1, _, _, run', u) ↦
            let e = same_world (sym run' ∙ run) in
            let t = Unchanged-Touches p w w1 out u in
            subst (λ x. IsWorld ops x × (x.heap ≡ w.heap)) e (Touches-IsWorld t v, t.objects)
        | inr (w1, run', v', l) ↦
            subst (λ x. IsWorld ops x × (x.heap ≡ w.heap)) (same_world (sym run' ∙ run))
              (v', l.objects)
      ]
  Step-IsWorld {w} {w'} v laws (removes p run) = elim (Bool-cases (w.refs.in_cache p)) [
    | inl inside ↦
        let (w1, run', v', l) = nl_cache_remove_lem v laws p inside in
        subst (λ x. IsWorld ops x × (x.heap ≡ w.heap)) (same_world (sym run' ∙ run)) (v', l.objects)
    | inr outside ↦
        subst (λ x. IsWorld ops x × (x.heap ≡ w.heap)) (same_world (ground (arith, outside) ∙ run))
          (v, refl)
  ]
  Step-IsWorld {w} {w'} v laws (searches c needle found run) =
      let here = nl_cache_search-find_node v c needle in
      elim (Option-cases (find_node (object_keys ops w.heap) (w.caches c).c_items needle)) [
        | inl missing ↦
            subst (λ x. IsWorld ops x × (x.heap ≡ w.heap))
              (same_world (sym (here ∙ ap (λ o. got o w) missing) ∙ run)) (v, refl)
        | inr (p, e) ↦
            subst (λ x. IsWorld ops x × (x.heap ≡ w.heap))
              (same_world (sym (here ∙ ap (λ o. got o w) e) ∙ run))
              (Touches-IsWorld (taken-Touches p w) v, refl)
      ]
  Step-IsWorld {w} {w'} v laws (takes p e) =
      subst (λ x. IsWorld ops x × (x.heap ≡ w.heap)) e (Touches-IsWorld (taken-Touches p w) v, refl)
  Step-IsWorld {w} {w'} v laws (gives p n count e) =
      subst (λ x. IsWorld ops x × (x.heap ≡ w.heap)) e
        (Touches-IsWorld (gives-Touches p n w count) v, refl)

  Steps-IsWorld :
      {w w' : World D}
      → IsWorld ops w
      → IsHash (object_keys ops w.heap)
      → Steps ops w w'
      → IsWorld ops w' × (w'.heap ≡ w.heap)
  Steps-IsWorld v laws stay = (v, refl)
  Steps-IsWorld v laws (step s last) =
      let (v1, same) = Steps-IsWorld v laws s in
      let (v2, same') =
        Step-IsWorld v1 (subst (λ h. IsHash (object_keys ops h)) (sym same) laws) last in
      (v2, same' ∙ same)

  -- After any sequence of the changes that Step lists, an object that points to a cache has not been
  -- freed, stands in the list of that cache, and has at least the references that the cache holds to
  -- it, one for the list and one for the hash table. The changes are: nl_cache_add of an object that
  -- has not been freed, is in no cache and no list, has a reference of the caller, is of the type of
  -- the cache and is identical to itself; any nl_cache_remove and nl_cache_search that does not stop by
  -- BUG(); a reference that others take; and one that they give back and that is not the cache's. The
  -- memory was well formed at the start, and the objects meet the contract of the hash table.
  pub Steps-alive :
      {w w' : World D}
      → IsWorld ops w
      → IsHash (object_keys ops w.heap)
      → Steps ops w w'
      → (p : Ptr) → w'.refs.in_cache p ≡ true
      → (w'.refs.live p ≡ true)
        × (has p (w'.caches (w'.owner p)).c_items ≡ true)
        × ((n : ℕ) × (w'.refs.ce_refcnt p ≡ pos (n + held_by (w'.caches (w'.owner p)).hashtable)))
  Steps-alive {w} {w'} v laws s p inside =
      let (v', _) = Steps-IsWorld v laws s in
      let c = v' (w'.owner p) in
      let there : has p (w'.caches (w'.owner p)).c_items ≡ true =
        ground (arith, c.members p, ==_refl (w'.owner p)) in
      ((c.alive p there).0, there, c.held p there)
