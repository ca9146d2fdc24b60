-- ===== src/Cache.antt =====
-- lib/cache.c: caches of objects. Allocation is taken to succeed.
pub mod Heap
pub mod Scan
pub mod Include
pub mod Pickup
pub mod Valid
pub mod Leave
pub mod Remove
pub mod Removal
pub mod Touch
pub mod Sweep
pub mod Resync
pub mod Merged
pub mod Steps
pub mod Clear
pub mod Enter
pub mod Adding
pub mod Added
pub mod Search
use Prim.Native.Nat.{bit_and}
use libnl.Prelude.{
  ℕ, suc, ◌+◌, Bool, true, false, not, ◌&&◌, Option, none, some, List, [], ◌∷◌, ◌++◌, ◌==◌,
  if◌then◌else◌,
}
use libnl.Prelude.Int.{ℤ, pos, plus, minus, is_nonpos}
use libnl.Errno.{Errno, obj_mismatch, Outcome, success, error, bug}
use libnl.Object.{
  Object, ObjectOps, nl_object_match_filter, nl_object_get_id_attrs, nl_object_identical,
}
use libnl.Object.Refs.{Ptr, Refs, update}
use libnl.Hashtable.{
  Keys, HashTable, find_node, nl_hash_table_alloc, nl_hash_table_free, nl_hash_table_lookup,
  nl_hash_table_add, nl_hash_table_del,
}
use libnl.Hashtable.Objects.{object_keys}
use libnl.Cache.Heap.{
  Cache, CacheOps, World, M, pure, ◌>>=◌, ◌>>◌, modify, update_cache, get, put, attach, detach, ran,
}

abbrev pub nl_max_hash_entries : ℕ
nl_max_hash_entries = 1024

-- nl_list_del takes the element out that stands at the object's own list head.
abbrev pub erase : Ptr → List Ptr → List Ptr
erase p [] = []
erase p (q ∷ l) = if q == p then l else q ∷ erase p l

-- nl_list_add_tail, and `c_nitems++`.
abbrev pub append_item : {D : Type 0} → ℕ → Ptr → M D (Unit {0})
append_item c p = modify λ w.
    record (update_cache c
      (λ cache. record cache {
        c_items = cache.c_items ++ p ∷ [];
        c_nitems = plus cache.c_nitems 1;
      })
      w) { linked = update w.linked p true }

abbrev pub remove_item : {D : Type 0} → ℕ → Ptr → M D (Unit {0})
remove_item c p = modify (update_cache c λ cache. record cache { c_items = erase p cache.c_items })

abbrev pub count_down : {D : Type 0} → ℕ → M D (Unit {0})
count_down c = modify (update_cache c λ cache. record cache { c_nitems = minus cache.c_nitems 1 })

abbrev pub stored :
    {D : Type 0} → World D → ℕ → Outcome × HashTable × Refs → Option (Outcome × World D)
stored w c (bug, ht, r) = none
stored w c (o, ht, r) =
    some (o, update_cache c (λ cache. record cache { hashtable = some ht }) (record w { refs = r }))

-- The clone has a deep copy of the attributes: the same value.
unfoldable pub nl_object_clone : {D : Type 0} → Ptr → M D Ptr
nl_object_clone p w =
    let new = w.next_ptr in
    some (
      new,
      record w {
        next_ptr = suc new;
        heap = update w.heap new (w.heap p);
        linked = update w.linked new false;
        marked = update w.marked new false;
        refs = record {
          ce_refcnt = update w.refs.ce_refcnt new (pos 1);
          in_cache = update w.refs.in_cache new false;
          live = update w.refs.live new true;
        };
      },
    )

module _ {D : Type 0} (ops : ℕ → ObjectOps D) where
  -- nl_hash_table_add and nl_hash_table_del, if the cache has a hash table.
  unfoldable pub hash_add : ℕ → Ptr → M D Outcome
  hash_add c p w = elim ((w.caches c).hashtable) [
    | none ↦ some (success, w)
    | some ht ↦ stored w c (nl_hash_table_add (object_keys ops w.heap) ht p w.refs)
  ]

  unfoldable pub hash_del : ℕ → Ptr → M D Outcome
  hash_del c p w = elim ((w.caches c).hashtable) [
    | none ↦ some (success, w)
    | some ht ↦ stored w c (nl_hash_table_del (object_keys ops w.heap) ht p w.refs)
  ]

  abbrev pub settled : ℕ → Ptr → Outcome → M D Outcome
  settled c p success = append_item c p >> pure success
  settled c p e = detach p >> pure e

  -- __cache_add
  unfoldable pub cache_add : ℕ → Ptr → M D Outcome
  unfolding hash_add
  cache_add c p = do attach p c; o ← hash_add c p; settled c p o

  -- nl_cache_add up to the call of __cache_add: the object that is added.
  unfoldable pub to_add : Ptr → M D Ptr
  unfolding nl_object_clone
  to_add p w = if w.linked p then nl_object_clone p w else (get p >> pure p) w

  abbrev pub added : Ptr → Outcome → M D Outcome
  added new success = pure success
  added new e = put new >> pure e

  unfoldable pub nl_cache_add : ℕ → Ptr → M D Outcome
  unfolding to_add cache_add
  nl_cache_add c p w =
      if (w.caches c).c_ops.co_obj_ops == (w.heap p).ce_ops
      then (do new ← to_add p; o ← cache_add c new; added new o) w
      else some (error obj_mismatch, w)

  -- A failure to delete from the hash table is only logged.
  unfoldable pub remove_from : ℕ → Ptr → M D (Unit {0})
  unfolding hash_del
  remove_from c p = do _ ← hash_del c p; remove_item c p; detach p; put p; count_down c

  unfoldable pub nl_cache_remove : Ptr → M D (Unit {0})
  unfolding remove_from
  nl_cache_remove p w = if w.refs.in_cache p then remove_from (w.owner p) p w else some (tt, w)

  unfoldable pub nl_cache_move : ℕ → Ptr → M D Outcome
  unfolding nl_cache_remove cache_add
  nl_cache_move c p w =
      if (w.caches c).c_ops.co_obj_ops == (w.heap p).ce_ops
      then (do
        get p
        (λ w'. if w'.linked p then nl_cache_remove p w' else some (tt, w'))
        cache_add c p)
          w
      else some (error obj_mismatch, w)
