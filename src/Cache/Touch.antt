-- ===== src/Cache/Touch.antt =====
-- A well-formed memory in which other holders took or gave back references.
use libnl.Prelude.{ℕ, ◌+◌, ◌≡◌, sym, ap, subst, ◌∙◌, true, length, arith}
use libnl.Prelude.Int.{pos}
use libnl.Object.{ObjectOps}
use libnl.Object.Refs.{Ptr}
use libnl.Hashtable.Objects.{object_keys}
use libnl.Cache.Heap.{Cache, World}
use libnl.Cache.Valid.{has, Unique, Indexed, held_by, IsWorld}

-- The caches and the objects in them are the same, and no object in a cache lost a reference.
pub record Touches {D : Type 0} (w w' : World D) : Type 0 where
  pub same_caches : (d : ℕ) → w'.caches d ≡ w.caches d
  pub inside : (q : Ptr) → w'.refs.in_cache q ≡ w.refs.in_cache q
  pub owners : (q : Ptr) → w.refs.in_cache q ≡ true → w'.owner q ≡ w.owner q
  pub links : (q : Ptr) → w'.linked q ≡ w.linked q
  pub objects : w'.heap ≡ w.heap
  pub counts :
      (q : Ptr) (n : ℕ)
      → w.refs.in_cache q ≡ true
      → w.refs.ce_refcnt q ≡ pos (n + held_by (w.caches (w.owner q)).hashtable)
      → (m : ℕ) × (w'.refs.ce_refcnt q ≡ pos (m + held_by (w.caches (w.owner q)).hashtable))
  pub lives : (q : Ptr) → w.refs.in_cache q ≡ true → w'.refs.live q ≡ w.refs.live q

pub Touches-IsWorld :
    {D : Type 0} {ops : ℕ → ObjectOps D} {w w' : World D}
    → Touches w w'
    → IsWorld ops w
    → IsWorld ops w'
Touches-IsWorld {ops = ops} {w = w} {w' = w'} t v d =
    let e = t.same_caches d in
    let inside : (q : Ptr) → has q (w'.caches d).c_items ≡ true → w.refs.in_cache q ≡ true =
      λ q h. ground (arith, ap (λ x. has q x.c_items) e, (v d).members q) in
    let back : (q : Ptr) → has q (w'.caches d).c_items ≡ true → has q (w.caches d).c_items ≡ true =
      λ q h. ap (λ x. has q x.c_items) (sym e) ∙ h in
    record {
      counted = ap (λ x. x.c_nitems) e ∙ (v d).counted ∙ ap (λ x. pos (length x.c_items)) (sym e);
      members = λ q.
          ap (λ x. has q x.c_items) e ∙ ground (arith, t.inside q, t.owners q, (v d).members q);
      unique = subst (λ x. Unique x.c_items) (sym e) (v d).unique;
      held = λ q h.
          let owner : w.owner q ≡ d = ground (arith, (v d).members q, back q h) in
          let same : held_by (w.caches (w.owner q)).hashtable ≡ held_by (w.caches d).hashtable =
            ap (λ c. held_by (w.caches c).hashtable) owner in
          let (n, count) = (v d).held q (back q h) in
          let (m, count') = t.counts q n (inside q h) (count ∙ ap (λ x. pos (n + x)) (sym same)) in
          (m, count' ∙ ap (λ x. pos (m + x)) (same ∙ ap (λ x. held_by x.hashtable) (sym e)));
      alive = λ q h.
          let (a, b) = (v d).alive q (back q h) in (t.lives q (inside q h) ∙ a, t.links q ∙ b);
      typed = λ q h.
          ap (λ x. (x q).ce_ops) t.objects
          ∙ (v d).typed q (back q h)
          ∙ ap (λ x. x.c_ops.co_obj_ops) (sym e);
      indexed =
          subst (λ x. Indexed (object_keys ops x) (w'.caches d).hashtable (w'.caches d).c_items)
            (sym t.objects)
            (subst (λ (x : Cache). Indexed (object_keys ops w.heap) x.hashtable x.c_items) (sym e)
              (v d).indexed);
    }
