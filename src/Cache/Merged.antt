-- ===== src/Cache/Merged.antt =====
-- cache_include for an object that merges into the one in the cache, and what nl_cache_resync makes of
-- it afterwards.
use libnl.Prelude.{
  ℕ, ◌+◌, ◌≡◌, refl, ap, ◌∙◌, Bool, true, false, Option, none, some, List, [], ◌∷◌, ◌++◌,
  Bool-cases, inl, inr, arith,
}
use libnl.Prelude.Int.{pos}
use libnl.Errno.{success}
use libnl.Object.{Object, ObjectOps}
use libnl.Object.Refs.{Ptr, update, nl_object_get, nl_object_put}
use libnl.Hashtable.{find_node}
use libnl.Hashtable.Objects.{object_keys}
use libnl.Cache.Heap.{Event, act_new, act_change, World, pure, ◌>>◌, ◌>>=◌}
use libnl.Cache.Include.{
  Change, no_cb, cb, cb_v2, wants_v2, merged, included, snapshot, nl_object_update, cache_include,
}
use libnl.Cache.Scan.{nl_cache_search, got}
use libnl.Cache.Valid.{held_some, has, held_by, IsWorld}
use libnl.Cache.Remove.{ran-success, put_kept}
use libnl.Cache.Search.{find_node-has, nl_cache_search-find_node}
use libnl.Cache.Resync.{unmarked}
use libnl.Cache.Sweep.{get_count}

has-unmarked :
    (marked : Ptr → Bool) (p : Ptr) (l : List Ptr)
    → marked p ≡ true
    → has p (unmarked marked l) ≡ false
has-unmarked marked p [] m = refl
has-unmarked marked p (q ∷ l) m = elim (Bool-cases (marked q)) [
  | inl gone ↦ rw gone (has-unmarked marked p l m)
  | inr kept ↦ rw kept (ground (arith, has-unmarked marked p l m, ap marked {x = q} {y = p}))
]

-- The callback of a merge, and the reference of the search given back.
module _ {D : Type 0} (ops : ℕ → ObjectOps D)
    (oo_update : ℕ → Option (Object D → Object D → Option (Object D))) where
  merged_lem :
      (change : Change) (old obj : Ptr) (w : World D)
      → wants_v2 change ≡ false
      → (nl_object_put w.refs old).0 ≡ success
      → (w' : World D) × (merged ops oo_update change old obj none 0 w ≡ some (tt, w'))
        × (w'.caches ≡ w.caches)
        × (w'.marked ≡ w.marked)
  merged_lem no_cb old obj w v1 fine = (
    record w { refs = (nl_object_put w.refs old).1 },
    ran-success w (nl_object_put w.refs old) fine,
    refl,
    refl,
  )
  merged_lem cb old obj w v1 fine =
      let e : Event = record {
        on_old = none;
        on_new = some old;
        on_diff = 0;
        on_act = act_change;
      } in
      let w1 = record w { events = w.events ++ e ∷ [] } in
      (
        record w1 { refs = (nl_object_put w.refs old).1 },
        ran-success w1 (nl_object_put w.refs old) fine,
        refl,
        refl,
      )
  merged_lem cb_v2 old obj w v1 fine = absurd (cc)

  -- The memory after the search, and after the merge.
  abbrev searched : World D → Ptr → World D
  searched w old = record w { refs = nl_object_get w.refs old }

  abbrev updated : World D → Ptr → Object D → World D
  updated w old new = record (searched w old) { heap = update w.heap old new }

  search_found :
      {w : World D} (v : IsWorld ops w) (c : ℕ) (old obj : Ptr)
      → find_node (object_keys ops w.heap) (w.caches c).c_items obj ≡ some old
      → nl_cache_search ops c obj w ≡ some (some old, searched w old)
  search_found {w} v c old obj found = nl_cache_search-find_node v c obj ∙ ap (λ o. got o w) found

  put_succeeds :
      {w : World D} (v : IsWorld ops w) (c : ℕ) (old : Ptr)
      → has old (w.caches c).c_items ≡ true
      → (nl_object_put (searched w old).refs old).0 ≡ success
  put_succeeds {w} v c old there =
      let (n, count) = (v c).held old there in
      let (m, held) = held_some (w.caches c).hashtable in
      (put_kept (searched w old).refs old (n + m) (
        get_count w.refs old n (held_by (w.caches c).hashtable) count
        ∙ ap pos (omega (arith, held)))).0

  included-merged :
      (w : World D) (change : Change) (c : ℕ) (old obj : Ptr) (new : Object D)
      (f : Object D → Object D → Option (Object D))
      → wants_v2 change ≡ false
      → oo_update (w.heap old).ce_ops ≡ some f
      → f (w.heap old) (w.heap obj) ≡ some new
      → included ops oo_update change true c obj (some old) (searched w old)
        ≡ merged ops oo_update change old obj none 0 (updated w old new)
  unfolding snapshot nl_object_update
  included-merged w change c old obj new f v1 mergeable merges =
      ground (arith, mergeable, v1, merges)

-- An object of a dump that merges into the identical one of the cache leaves the list of the cache and
-- all marks as they are: the object that it merged into is still marked, and is not among the
-- objects that nl_cache_resync keeps, although the kernel has just reported it. The conditions are that
-- the memory is well formed, that the search finds the marked object, that its type can merge the two,
-- and that there is no v2 callback, as nl_cache_resync passes none.
pub cache_include_merged :
    {D : Type 0} (ops : ℕ → ObjectOps D)
    (oo_update : ℕ → Option (Object D → Object D → Option (Object D))) {w : World D}
    → IsWorld ops w
    → (change : Change) (c : ℕ) (old obj : Ptr) (new : Object D)
      (f : Object D → Object D → Option (Object D))
    → wants_v2 change ≡ false
    → find_node (object_keys ops w.heap) (w.caches c).c_items obj ≡ some old
    → w.marked old ≡ true
    → oo_update (w.heap old).ce_ops ≡ some f
    → f (w.heap old) (w.heap obj) ≡ some new
    → (w' : World D) × (cache_include ops oo_update c obj act_new change w ≡ some (success, w'))
      × ((w'.caches c).c_items ≡ (w.caches c).c_items)
      × (w'.marked ≡ w.marked)
      × (has old (unmarked w'.marked (w'.caches c).c_items) ≡ false)
unfolding cache_include
cache_include_merged ops oo_update {w} v change c old obj new f v1 found marked mergeable merges =
    let (there, _) = find_node-has ops w (w.caches c).c_items obj old found in
    let (w', run, caches, marks) =
      merged_lem ops oo_update change old obj (updated ops oo_update w old new) v1
        (put_succeeds ops oo_update v c old there) in
    let still : w'.marked old ≡ true = ap (λ m. m old) marks ∙ marked in
    (
      w',
      ap
            (λ (x : Option (Option Ptr × World _)).
              ((λ (_ : World _). x) >>= λ o.
              included ops oo_update change true c obj o >> pure success)
                w)
            (search_found ops oo_update v c old obj found)
          ∙ ap (λ (x : Option (Unit {0} × World _)). ((λ (_ : World _). x) >> pure success) w)
              (included-merged ops oo_update w change c old obj new f v1 mergeable merges ∙ run),
      ap (λ x. (x c).c_items) caches,
      marks,
      has-unmarked w'.marked old (w'.caches c).c_items still,
    )
