-- ===== src/Cache/Leave.antt =====
-- A well-formed memory without one object of a cache.
use libnl.Prelude.{
  ℕ, ◌+◌, ◌≡◌, sym, ap, subst, ◌∙◌, true, false, ◌==◌, if◌then◌else◌, length, Bool-cases, inl, inr,
  arith,
}
use libnl.Prelude.Int.{pos, minus}
use libnl.Object.{ObjectOps}
use libnl.Object.Refs.{Ptr}
use libnl.Hashtable.Objects.{object_keys}
use libnl.Cache.Heap.{Cache, World}
use libnl.Cache.{erase}
use libnl.Cache.Valid.{
  has, Unique, Indexed, held_by, IsCache, IsWorld, has-erase, Unique-erase, length-erase,
}

-- The object p left the cache c, which gave back its references; at the last one it is freed.
pub record Leaves {D : Type 0} (ops : ℕ → ObjectOps D) (c : ℕ) (p : Ptr) (w w' : World D)
    : Type 0 where
  pub items : (w'.caches c).c_items ≡ erase p (w.caches c).c_items
  pub nitems : (w'.caches c).c_nitems ≡ minus (w.caches c).c_nitems 1
  pub same_ops : (w'.caches c).c_ops ≡ (w.caches c).c_ops
  pub same_held : held_by (w'.caches c).hashtable ≡ held_by (w.caches c).hashtable
  pub others : (d : ℕ) → (c == d) ≡ false → w'.caches d ≡ w.caches d
  pub outside : (q : Ptr) → w'.refs.in_cache q ≡ (if p == q then false else w.refs.in_cache q)
  pub owners : (q : Ptr) → w'.owner q ≡ w.owner q
  pub links : (q : Ptr) → w'.linked q ≡ w.linked q
  pub objects : w'.heap ≡ w.heap
  pub counts : (q : Ptr) → (p == q) ≡ false → w'.refs.ce_refcnt q ≡ w.refs.ce_refcnt q
  pub lives : (q : Ptr) → (p == q) ≡ false → w'.refs.live q ≡ w.refs.live q
  pub marks : w'.marked ≡ w.marked
  pub reports : w'.events ≡ w.events
  pub gives_back :
      (n : ℕ)
      → w.refs.ce_refcnt p ≡ pos (n + held_by (w.caches c).hashtable)
      → (w'.refs.ce_refcnt p ≡ pos n) × (w'.refs.live p ≡ (if n == 0 then false else w.refs.live p))
  pub index :
      Indexed (object_keys ops w.heap) (w'.caches c).hashtable (erase p (w.caches c).c_items)

module _ {D : Type 0} {ops : ℕ → ObjectOps D} {c : ℕ} {p : Ptr} {w w' : World D}
    (l : Leaves ops c p w w') (v : IsWorld ops w) (there : has p (w.caches c).c_items ≡ true) where
  items_of :
      (q : Ptr)
      → has q (w'.caches c).c_items ≡ (if p == q then false else has q (w.caches c).c_items)
  items_of q = ap (has q) l.items ∙ has-erase p q (w.caches c).c_items (v c).unique

  same-IsCache : IsCache ops w' c
  same-IsCache = record {
    counted = ground (
      arith,
      l.nitems,
      ap length l.items,
      (v c).counted,
      length-erase p (w.caches c).c_items there,
    );
    members = λ q. ground (arith, items_of q, l.outside q, l.owners q, (v c).members q);
    unique = subst Unique (sym l.items) (Unique-erase p (w.caches c).c_items (v c).unique);
    held = λ q h.
        let other : (p == q) ≡ false = ground (arith, items_of q) in
        let (n, e) = (v c).held q (ground (arith, items_of q)) in
        (n, l.counts q other ∙ e ∙ ap (λ x. pos (n + x)) (sym l.same_held));
    alive = λ q h.
        let other : (p == q) ≡ false = ground (arith, items_of q) in
        let (a, b) = (v c).alive q (ground (arith, items_of q)) in
        (l.lives q other ∙ a, l.links q ∙ b);
    typed = λ q h.
        ap (λ x. (x q).ce_ops) l.objects
        ∙ (v c).typed q (ground (arith, items_of q))
        ∙ ap (λ x. x.co_obj_ops) (sym l.same_ops);
    indexed =
        subst (λ x. Indexed (object_keys ops x) (w'.caches c).hashtable (w'.caches c).c_items)
          (sym l.objects)
          (subst (λ x. Indexed (object_keys ops w.heap) (w'.caches c).hashtable x) (sym l.items)
            l.index);
  }

  -- An object of another cache is another object.
  distinct_from :
      (d : ℕ) (q : Ptr) → (c == d) ≡ false → has q (w.caches d).c_items ≡ true → (p == q) ≡ false
  distinct_from d q other h = elim (Bool-cases (p == q)) [
    | inl same ↦
        let e : p ≡ q = ground arith in
        absurd (ground (arith, (v c).members p, (v d).members q, ap w.owner e))
    | inr apart ↦ apart
  ]

  other-IsCache : (d : ℕ) → (c == d) ≡ false → IsCache ops w' d
  other-IsCache d other =
      let e = l.others d other in
      record {
        counted = ap (λ x. x.c_nitems) e ∙ (v d).counted ∙ ap (λ x. pos (length x.c_items)) (sym e);
        members = λ q.
            ap (λ x. has q x.c_items) e
            ∙ ground (arith, l.outside q, l.owners q, (v d).members q, (v c).members p);
        unique = subst (λ x. Unique x.c_items) (sym e) (v d).unique;
        held = λ q h.
            let h' : has q (w.caches d).c_items ≡ true = ap (λ x. has q x.c_items) (sym e) ∙ h in
            let (n, e') = (v d).held q h' in
            (
              n,
              l.counts q (distinct_from d q other h')
                  ∙ e'
                  ∙ ap (λ x. pos (n + held_by x.hashtable)) (sym e),
            );
        alive = λ q h.
            let h' : has q (w.caches d).c_items ≡ true = ap (λ x. has q x.c_items) (sym e) ∙ h in
            let (a, b) = (v d).alive q h' in
            (l.lives q (distinct_from d q other h') ∙ a, l.links q ∙ b);
        typed = λ q h.
            ap (λ x. (x q).ce_ops) l.objects
            ∙ (v d).typed q (ap (λ x. has q x.c_items) (sym e) ∙ h)
            ∙ ap (λ x. x.c_ops.co_obj_ops) (sym e);
        indexed =
            subst (λ x. Indexed (object_keys ops x) (w'.caches d).hashtable (w'.caches d).c_items)
              (sym l.objects)
              (subst (λ (x : Cache). Indexed (object_keys ops w.heap) x.hashtable x.c_items) (sym e)
                (v d).indexed);
      }

  pub Leaves-IsWorld : IsWorld ops w'
  Leaves-IsWorld d = elim (Bool-cases (c == d)) [
    | inl same ↦ subst (λ x. IsCache ops w' x) (ground arith) same-IsCache
    | inr other ↦ other-IsCache d other
  ]
