-- ===== src/Cache/Scan.antt =====
-- lib/cache.c: the functions that go through the objects of a cache.
use libnl.Prelude.{ℕ, suc, ◌+◌, Bool, true, Option, none, some, List, [], ◌∷◌, ◌==◌, if◌then◌else◌}
use libnl.Prelude.Int.{pos, minus, is_nonpos}
use libnl.Errno.{success}
use libnl.Object.{ObjectOps, nl_object_match_filter, nl_object_get_id_attrs}
use libnl.Object.Refs.{Ptr, update}
use libnl.Hashtable.{
  HashTable, find_node, nl_hash_table_alloc, nl_hash_table_free, nl_hash_table_lookup,
}
use libnl.Hashtable.Objects.{object_keys}
use libnl.Cache.Heap.{Cache, CacheOps, World, M, pure, ◌>>=◌, ◌>>◌, modify, update_cache, get, ran}
use libnl.Cache.{nl_max_hash_entries, nl_cache_add, nl_cache_remove}

-- The first and the last object, and the neighbours of an object in its cache.
unfoldable pub nl_cache_get_first : Cache → Option Ptr
nl_cache_get_first cache = elim cache.c_items [ [] ↦ none | p ∷ l ↦ some p ]

last_of : List Ptr → Option Ptr
last_of [] = none
last_of (p ∷ []) = some p
last_of (p ∷ q ∷ l) = last_of (q ∷ l)

unfoldable pub nl_cache_get_last : Cache → Option Ptr
unfolding last_of
nl_cache_get_last cache = last_of cache.c_items

after : Ptr → List Ptr → Option Ptr
after p [] = none
after p (q ∷ []) = none
after p (q ∷ r ∷ l) = if q == p then some r else after p (r ∷ l)

before : Ptr → List Ptr → Option Ptr
before p [] = none
before p (q ∷ []) = none
before p (q ∷ r ∷ l) = if r == p then some q else before p (r ∷ l)

unfoldable pub nl_cache_get_next : {D : Type 0} → World D → Ptr → Option Ptr
unfolding after
nl_cache_get_next w p = after p (w.caches (w.owner p)).c_items

unfoldable pub nl_cache_get_prev : {D : Type 0} → World D → Ptr → Option Ptr
unfolding before
nl_cache_get_prev w p = before p (w.caches (w.owner p)).c_items

-- A reference to the object that was found.
abbrev pub got : {D : Type 0} → Option Ptr → M D (Option Ptr)
got none = pure none
got (some p) = get p >> pure (some p)

unfoldable pub nl_cache_mark_all : {D : Type 0} → List Ptr → World D → World D
nl_cache_mark_all [] w = w
nl_cache_mark_all (p ∷ l) w = nl_cache_mark_all l (record w { marked = update w.marked p true })

module _ {D : Type 0} (ops : ℕ → ObjectOps D) where
  matches : World D → Option Ptr → Ptr → Bool
  matches w none p = true
  matches w (some filter) p = nl_object_match_filter ops (w.heap p) (w.heap filter)

  unfoldable pub nl_cache_nitems_filter : World D → Option Ptr → List Ptr → ℕ
  unfolding matches
  nl_cache_nitems_filter w filter [] = 0
  nl_cache_nitems_filter w filter (p ∷ l) =
      let rest = nl_cache_nitems_filter w filter l in if matches w filter p then rest + 1 else rest

  unfoldable pub nl_cache_search : ℕ → Ptr → M D (Option Ptr)
  nl_cache_search c needle w = elim ((w.caches c).hashtable) [
    | some ht ↦ got (nl_hash_table_lookup (object_keys ops w.heap) ht needle) w
    | none ↦ got (find_node (object_keys ops w.heap) (w.caches c).c_items needle) w
  ]

  first_match : World D → Ptr → List Ptr → Option Ptr
  first_match w filter [] = none
  first_match w filter (p ∷ l) =
      if nl_object_match_filter ops (w.heap p) (w.heap filter)
      then some p
      else first_match w filter l

  -- A filter that gives just the attributes that identify an object is looked up.
  unfoldable pub nl_cache_find : ℕ → Ptr → M D (Option Ptr)
  unfolding first_match
  nl_cache_find c filter w =
      let scan = got (first_match w filter (w.caches c).c_items) w in
      if nl_object_get_id_attrs ops (w.heap filter) == (w.heap filter).ce_mask
      then elim ((w.caches c).hashtable) [
        | some ht ↦ got (nl_hash_table_lookup (object_keys ops w.heap) ht filter) w
        | none ↦ scan
      ]
      else scan

  -- The loop takes the next object before it removes one.
  unfoldable pub remove_all : List Ptr → M D (Unit {0})
  remove_all [] = pure tt
  remove_all (p ∷ l) = nl_cache_remove ops p >> remove_all l

  unfoldable pub nl_cache_clear : ℕ → M D (Unit {0})
  unfolding remove_all
  nl_cache_clear c w = remove_all (w.caches c).c_items w

  unfoldable pub nl_cache_alloc : CacheOps → M D ℕ
  nl_cache_alloc co w =
      let c = w.next_cache in
      let size = if co.co_hash_size == 0 then nl_max_hash_entries else co.co_hash_size in
      some (
        c,
        record w {
          next_cache = suc c;
          caches = update w.caches c record {
            c_items = [];
            c_nitems = pos 0;
            c_refcnt = pos 1;
            hashtable = elim (ops co.co_obj_ops).oo_keygen [
              | none ↦ none
              | some _ ↦ some (nl_hash_table_alloc size)
            ];
            c_ops = co;
          };
        },
      )

  -- Each object that matches, or each: what nl_cache_add returns is not looked at.
  unfoldable pub add_matching : ℕ → Option Ptr → List Ptr → M D (Unit {0})
  unfolding matches
  add_matching c filter [] w = some (tt, w)
  add_matching c filter (p ∷ l) w =
      ((λ w'. if matches w' filter p then nl_cache_add ops c p w' else some (success, w')) >>= λ _.
      add_matching c filter l)
        w

  unfoldable pub nl_cache_subset : ℕ → Ptr → M D ℕ
  unfolding nl_cache_alloc add_matching
  nl_cache_subset orig filter w =
      (do
        c ← nl_cache_alloc (w.caches orig).c_ops
        add_matching c (some filter) (w.caches orig).c_items
        pure c)
        w

  unfoldable pub nl_cache_clone : ℕ → M D ℕ
  unfolding nl_cache_alloc add_matching
  nl_cache_clone orig w =
      (do
        c ← nl_cache_alloc (w.caches orig).c_ops
        add_matching c none (w.caches orig).c_items
        pure c)
        w

  unfoldable pub free_table : Option HashTable → M D (Unit {0})
  free_table none w = some (tt, w)
  free_table (some ht) w = ran w (nl_hash_table_free ht.nodes w.refs)

  -- The memory of the cache is given back: nothing refers to its number afterwards.
  unfoldable pub nl_cache_free : ℕ → M D (Unit {0})
  unfolding nl_cache_clear free_table
  nl_cache_free c = do
    modify (update_cache c λ cache. record cache { c_refcnt = minus cache.c_refcnt 1 })
    λ w.
        if is_nonpos (w.caches c).c_refcnt
        then (nl_cache_clear c >> λ w'. free_table (w'.caches c).hashtable w') w
        else some (tt, w)
