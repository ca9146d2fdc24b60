-- ===== src/Cache/Clear.antt =====
-- nl_cache_clear on a well-formed memory.
use libnl.Prelude.{
  false, ℕ, ◌≡◌, refl, sym, ap, subst, ◌∙◌, true, some, List, [], ◌∷◌, arith, ◌==◌, ==_refl, Option,
}
use libnl.Object.{ObjectOps}
use libnl.Object.Refs.{Ptr}
use libnl.Hashtable.Objects.{object_keys}
use libnl.Hashtable.Lookup.{IsHash}
use libnl.Cache.Heap.{World, ◌>>◌}
use libnl.Cache.{nl_cache_remove, erase}
use libnl.Cache.Scan.{remove_all, nl_cache_clear}
use libnl.Cache.Valid.{has, IsWorld}
use libnl.Cache.Leave.{Leaves}
use libnl.Cache.Removal.{nl_cache_remove_lem}

-- The first object of a cache leaves it with the rest.
pub nl_cache_remove_first :
    {D : Type 0} {ops : ℕ → ObjectOps D} {w : World D}
    → IsWorld ops w
    → IsHash (object_keys ops w.heap)
    → (c : ℕ) (p : Ptr) → has p (w.caches c).c_items ≡ true
    → (w' : World D) × (nl_cache_remove ops p w ≡ some (tt, w'))
      × IsWorld ops w'
      × Leaves ops c p w w'
nl_cache_remove_first {ops = ops} {w = w} v laws c p there =
    let (w', run, v', l) = nl_cache_remove_lem v laws p (ground (arith, (v c).members p)) in
    (w', run, v', subst (λ d. Leaves ops d p w w') (ground (arith, (v c).members p)) l)

remove_all_lem :
    {D : Type 0} {ops : ℕ → ObjectOps D} (l : List Ptr) {w : World D}
    → IsWorld ops w
    → IsHash (object_keys ops w.heap)
    → (c : ℕ) → (w.caches c).c_items ≡ l
    → (w' : World D) × (remove_all ops l w ≡ some (tt, w'))
      × IsWorld ops w'
      × ((w'.caches c).c_items ≡ [])
      × ((d : ℕ) → (c == d) ≡ false → w'.caches d ≡ w.caches d)
unfolding remove_all
remove_all_lem [] {w = w} v laws c e = (w, refl, v, e, λ d other. refl)
remove_all_lem {ops = ops} (p ∷ l) {w = w} v laws c e =
    let there : has p (w.caches c).c_items ≡ true = ap (has p) e ∙ ground (arith, ==_refl p) in
    let (w1, run, v1, leaves) = nl_cache_remove_first v laws c p there in
    let (w', runs, v', empty, others) =
      remove_all_lem l v1 (subst (λ h. IsHash (object_keys ops h)) (sym leaves.objects) laws) c
        (leaves.items ∙ ap (erase p) e ∙ ground (arith, ==_refl p)) in
    (
      w',
      ap (λ (x : Option (Unit {0} × World _)). ((λ (_ : World _). x) >> remove_all ops l) w) run
          ∙ runs,
      v',
      empty,
      λ d other. others d other ∙ leaves.others d other,
    )

-- Clearing a cache ends, without BUG(): the cache is empty afterwards, the other caches are as they
-- were, and the memory is well formed. The conditions are that it was, and that the objects meet the
-- contract of the hash table.
pub nl_cache_clear_lem :
    {D : Type 0} {ops : ℕ → ObjectOps D} {w : World D}
    → IsWorld ops w
    → IsHash (object_keys ops w.heap)
    → (c : ℕ)
    → (w' : World D) × (nl_cache_clear ops c w ≡ some (tt, w'))
      × IsWorld ops w'
      × ((w'.caches c).c_items ≡ [])
      × ((d : ℕ) → (c == d) ≡ false → w'.caches d ≡ w.caches d)
unfolding nl_cache_clear
nl_cache_clear_lem {w = w} v laws c = remove_all_lem (w.caches c).c_items v laws c refl
