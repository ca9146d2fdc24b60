-- ===== src/Cache/Enter.antt =====
-- A well-formed memory with one object more in a cache.
use libnl.Prelude.{
  length-append, ℕ, ◌+◌, ◌≡◌, sym, ap, subst, ◌∙◌, true, false, [], ◌∷◌, ◌++◌, ◌==◌, ==_refl,
  if◌then◌else◌, length, Bool-cases, inl, inr, arith,
}
use libnl.Prelude.Int.{pos, plus}
use libnl.Object.{ObjectOps}
use libnl.Object.Refs.{Ptr}
use libnl.Hashtable.Objects.{object_keys}
use libnl.Cache.Heap.{Cache, World}
use libnl.Cache.Valid.{has, Unique, Indexed, held_by, IsCache, IsWorld, has-append, Unique-append}

-- The object p came to the end of the cache c.
pub record Enters {D : Type 0} (ops : ℕ → ObjectOps D) (c : ℕ) (p : Ptr) (w w' : World D)
    : Type 0 where
  pub items : (w'.caches c).c_items ≡ (w.caches c).c_items ++ p ∷ []
  pub nitems : (w'.caches c).c_nitems ≡ plus (w.caches c).c_nitems 1
  pub same_ops : (w'.caches c).c_ops ≡ (w.caches c).c_ops
  pub same_held : held_by (w'.caches c).hashtable ≡ held_by (w.caches c).hashtable
  pub others : (d : ℕ) → (c == d) ≡ false → w'.caches d ≡ w.caches d
  pub inside : (q : Ptr) → w'.refs.in_cache q ≡ (if p == q then true else w.refs.in_cache q)
  pub owners : (q : Ptr) → w'.owner q ≡ (if p == q then c else w.owner q)
  pub links : (q : Ptr) → w'.linked q ≡ (if p == q then true else w.linked q)
  pub objects : w'.heap ≡ w.heap
  pub count : (n : ℕ) × (w'.refs.ce_refcnt p ≡ pos (n + held_by (w.caches c).hashtable))
  pub counts : (q : Ptr) → (p == q) ≡ false → w'.refs.ce_refcnt q ≡ w.refs.ce_refcnt q
  pub lives : (q : Ptr) → w'.refs.live q ≡ w.refs.live q
  pub index :
      Indexed (object_keys ops w.heap) (w'.caches c).hashtable ((w.caches c).c_items ++ p ∷ [])

module _ {D : Type 0} {ops : ℕ → ObjectOps D} {c : ℕ} {p : Ptr} {w w' : World D}
    (l : Enters ops c p w w') (v : IsWorld ops w) (out : w.refs.in_cache p ≡ false)
    (live : w.refs.live p ≡ true) (type : (w.heap p).ce_ops ≡ (w.caches c).c_ops.co_obj_ops) where
  -- The object stood in no cache.
  absent : (d : ℕ) → has p (w.caches d).c_items ≡ false
  absent d = ground (arith, (v d).members p)

  items_of :
      (q : Ptr)
      → has q (w'.caches c).c_items ≡ (if p == q then true else has q (w.caches c).c_items)
  items_of q = ap (has q) l.items ∙ has-append p q (w.caches c).c_items

  same-IsCache : IsCache ops w' c
  same-IsCache = record {
    counted = ground (
      arith,
      l.nitems,
      ap length l.items,
      (v c).counted,
      length-append (w.caches c).c_items (p ∷ []),
    );
    members = λ q. ground (arith, items_of q, l.inside q, l.owners q, (v c).members q, ==_refl c);
    unique =
        subst Unique (sym l.items) (Unique-append p (w.caches c).c_items (absent c) (v c).unique);
    held = λ q h. elim (Bool-cases (p == q)) [
      | inl same ↦
          let (n, e) = l.count in
          (n, ap w'.refs.ce_refcnt (ground arith) ∙ e ∙ ap (λ x. pos (n + x)) (sym l.same_held))
      | inr other ↦
          let (n, e) = (v c).held q (ground (arith, items_of q)) in
          (n, l.counts q other ∙ e ∙ ap (λ x. pos (n + x)) (sym l.same_held))
    ];
    alive = λ q h. elim (Bool-cases (p == q)) [
      | inl same ↦ (l.lives q ∙ ap w.refs.live (ground arith) ∙ live, ground (arith, l.links q))
      | inr other ↦
          let (a, b) = (v c).alive q (ground (arith, items_of q)) in
          (l.lives q ∙ a, ground (arith, l.links q))
    ];
    typed = λ q h. elim (Bool-cases (p == q)) [
      | inl same ↦
          ap (λ x. (x q).ce_ops) l.objects
          ∙ ap (λ x. (w.heap x).ce_ops) (ground arith)
          ∙ type
          ∙ ap (λ x. x.co_obj_ops) (sym l.same_ops)
      | inr other ↦
          ap (λ x. (x q).ce_ops) l.objects
          ∙ (v c).typed q (ground (arith, items_of q))
          ∙ ap (λ x. x.co_obj_ops) (sym l.same_ops)
    ];
    indexed =
        subst (λ x. Indexed (object_keys ops x) (w'.caches c).hashtable (w'.caches c).c_items)
          (sym l.objects)
          (subst (λ x. Indexed (object_keys ops w.heap) (w'.caches c).hashtable x) (sym l.items)
            l.index);
  }

  -- An object of another cache is another object.
  apart_from : (d : ℕ) (q : Ptr) → has q (w.caches d).c_items ≡ true → (p == q) ≡ false
  apart_from d q h = elim (Bool-cases (p == q)) [
    | inl same ↦
        let e : q ≡ p = ground arith in
        absurd (ground (arith, absent d, ap (λ x. has x (w.caches d).c_items) e))
    | inr apart ↦ apart
  ]

  other-IsCache : (d : ℕ) → (c == d) ≡ false → IsCache ops w' d
  other-IsCache d other =
      let e = l.others d other in
      record {
        counted = ap (λ x. x.c_nitems) e ∙ (v d).counted ∙ ap (λ x. pos (length x.c_items)) (sym e);
        members = λ q.
            ap (λ x. has q x.c_items) e
            ∙ ground (
              arith,
              l.inside q,
              l.owners q,
              (v d).members q,
              absent d,
              ap (λ x. has x (w.caches d).c_items) {x = p} {y = q},
            );
        unique = subst (λ x. Unique x.c_items) (sym e) (v d).unique;
        held = λ q h.
            let h' : has q (w.caches d).c_items ≡ true = ap (λ x. has q x.c_items) (sym e) ∙ h in
            let (n, e') = (v d).held q h' in
            (
              n,
              l.counts q (apart_from d q h') ∙ e' ∙ ap (λ x. pos (n + held_by x.hashtable)) (sym e),
            );
        alive = λ q h.
            let h' : has q (w.caches d).c_items ≡ true = ap (λ x. has q x.c_items) (sym e) ∙ h in
            let (a, b) = (v d).alive q h' in (l.lives q ∙ a, ground (arith, l.links q));
        typed = λ q h.
            ap (λ x. (x q).ce_ops) l.objects
            ∙ (v d).typed q (ap (λ x. has q x.c_items) (sym e) ∙ h)
            ∙ ap (λ x. x.c_ops.co_obj_ops) (sym e);
        indexed =
            subst (λ x. Indexed (object_keys ops x) (w'.caches d).hashtable (w'.caches d).c_items)
              (sym l.objects)
              (subst (λ (x : Cache). Indexed (object_keys ops w.heap) x.hashtable x.c_items) (sym e)
                (v d).indexed);
      }

  pub Enters-IsWorld : IsWorld ops w'
  Enters-IsWorld d = elim (Bool-cases (c == d)) [
    | inl same ↦ subst (λ x. IsCache ops w' x) (ground arith) same-IsCache
    | inr other ↦ other-IsCache d other
  ]
