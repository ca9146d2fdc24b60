-- ===== src/Cache/Search.antt =====
-- nl_cache_search and nl_cache_find: what they find, and the reference that is taken to it.
use libnl.Prelude.{
  ℕ, ◌≡◌, ◌⊎◌, refl, sym, ap, ◌∙◌, subst, true, false, none, some, List, [], ◌∷◌, ◌==◌,
  if◌then◌else◌, arith, inl, inr, Bool-cases, Option-cases,
}
use libnl.Prelude.Int.{plus}
use libnl.Object.{ObjectOps}
use libnl.Object.Refs.{Ptr, nl_object_get}
use libnl.Hashtable.{find_node}
use libnl.Hashtable.Objects.{object_keys}
use libnl.Cache.Heap.{World}
use libnl.Cache.Scan.{got, nl_cache_search}
use libnl.Cache.Valid.{has, IsWorld, IsIndex, Indexed}
use libnl.Cache.Touch.{Touches-IsWorld}
use libnl.Cache.Sweep.{taken-Touches}

-- A search through the hash table is as good as one through the list.
pub nl_cache_search-find_node :
    {D : Type 0} {ops : ℕ → ObjectOps D} {w : World D}
    → IsWorld ops w
    → (c : ℕ) (needle : Ptr)
    → nl_cache_search ops c needle w
      ≡ got (find_node (object_keys ops w.heap) (w.caches c).c_items needle) w
unfolding nl_cache_search
nl_cache_search-find_node {ops = ops} {w = w} v c needle =
    elim (Option-cases ((w.caches c).hashtable)) [
      | inl e ↦ ground (arith, e)
      | inr (ht, e) ↦
          let ix : IsIndex (object_keys ops w.heap) ht (w.caches c).c_items =
            subst (λ h. Indexed (object_keys ops w.heap) h (w.caches c).c_items) e (v c).indexed in
          ground (arith, e, ap (λ o. got o w) (ix.agrees needle))
    ]

module _ {D : Type 0} (ops : ℕ → ObjectOps D) (w : World D) where
  -- What find_node returns stands in the list and is identical to the object.
  pub find_node-has :
      (l : List Ptr) (q p : Ptr)
      → find_node (object_keys ops w.heap) l q ≡ some p
      → (has p l ≡ true) × ((object_keys ops w.heap).identical p q ≡ true)
  unfolding find_node
  find_node-has [] q p e = absurd (ground arith)
  find_node-has (r ∷ l) q p e = elim (Bool-cases ((object_keys ops w.heap).identical r q)) [
    | inl same ↦
        let here : r ≡ p = ground arith in
        (ground (arith, here), ap (λ x. (object_keys ops w.heap).identical x q) (sym here) ∙ same)
    | inr other ↦
        let (there, identical) = find_node-has l q p (rw other at e) in
        (ground (arith, there), identical)
  ]

  find_node_missing :
      (l : List Ptr) (q p : Ptr)
      → find_node (object_keys ops w.heap) l q ≡ none
      → has p l ≡ true
      → (object_keys ops w.heap).identical p q ≡ false
  unfolding find_node
  find_node_missing [] q p e h = absurd (ground arith)
  find_node_missing (r ∷ l) q p e h = elim (Bool-cases ((object_keys ops w.heap).identical r q)) [
    | inl same ↦ absurd (ground (arith, rw same at e))
    | inr other ↦ elim (Bool-cases (r == p)) [
      | inl here ↦
          let e' : r ≡ p = ground arith in
          ap (λ x. (object_keys ops w.heap).identical x q) (sym e') ∙ other
      | inr differ ↦ find_node_missing l q p (rw other at e) (ground arith)
    ]
  ]

-- A search either returns NULL and changes nothing, and no object in the list of the cache is
-- identical to the needle; or it returns an object in the list that is identical to the needle, with
-- one more reference to it, and neither the other counts nor the objects, the caches and where the
-- objects stand change, and the memory stays well formed. It was well formed before, so that a hash
-- table of the cache indexes its list.
pub nl_cache_search_lem :
    {D : Type 0} {ops : ℕ → ObjectOps D} {w : World D}
    → IsWorld ops w
    → (c : ℕ) (needle : Ptr)
    → ((nl_cache_search ops c needle w ≡ some (none, w))
        × ((p : Ptr)
            → has p (w.caches c).c_items ≡ true
            → (object_keys ops w.heap).identical p needle ≡ false))
      ⊎ ((p : Ptr) × (has p (w.caches c).c_items ≡ true)
          × ((object_keys ops w.heap).identical p needle ≡ true)
          × ((w' : World D) × (nl_cache_search ops c needle w ≡ some (some p, w'))
              × IsWorld ops w'
              × ((q : Ptr)
                  → w'.refs.ce_refcnt q
                    ≡ (if p == q then plus (w.refs.ce_refcnt q) 1 else w.refs.ce_refcnt q))
              × (w'.heap ≡ w.heap)
              × (w'.caches ≡ w.caches)
              × (w'.refs.in_cache ≡ w.refs.in_cache)))
unfolding nl_object_get
nl_cache_search_lem {ops = ops} {w = w} v c needle =
    let here = nl_cache_search-find_node v c needle in
    let l = (w.caches c).c_items in
    elim (Option-cases (find_node (object_keys ops w.heap) l needle)) [
      | inl missing ↦
          inl
            (here ∙ ap (λ o. got o w) missing, λ p h. find_node_missing ops w l needle p missing h)
      | inr (p, e) ↦
          let (there, identical) = find_node-has ops w l needle p e in
          inr (
            p,
            there,
            identical,
            (
              record w { refs = nl_object_get w.refs p },
              here ∙ ap (λ o. got o w) e,
              Touches-IsWorld (taken-Touches p w) v,
              λ q. ground (arith, ap w.refs.ce_refcnt {x = p} {y = q}),
              refl,
              refl,
              refl,
            ),
          )
    ]
