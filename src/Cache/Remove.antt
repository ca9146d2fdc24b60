-- ===== src/Cache/Remove.antt =====
-- nl_cache_remove on a well-formed memory.
use libnl.Prelude.{
  ==_refl, ℕ, ◌+◌, ◌≡◌, refl, ap, true, false, Option, none, some, List, ◌==◌, if◌then◌else◌, inl,
  inr, arith,
}
use libnl.Prelude.Int.{pos, minus}
use libnl.Errno.{Outcome, success, error, bug}
use libnl.Object.Refs.{Ptr, Refs, update, nl_object_put}
use libnl.Hashtable.{Keys, HashTable, nl_hash_table_del}
use libnl.Hashtable.Lookup.{IsHash, find_node-unlink, unlink-find_node, Distinct-unlink}
use libnl.Hashtable.Update.{nl_hash_table_del_lem}
use libnl.Cache.Heap.{World, ran, put, detach, update_cache, ◌>>◌}
use libnl.Cache.{erase, remove_item, count_down}
use libnl.Cache.Valid.{has, Unique, IsIndex, has-erase, unlink-erase}

-- What nl_hash_table_del leaves for an object of the cache.
pub nl_hash_table_del-IsIndex :
    {k : Keys} (laws : IsHash k) {ht : HashTable} {items : List Ptr} (p : Ptr) (r : Refs)
    → IsIndex k ht items
    → Unique items
    → has p items ≡ true
    → (nl_object_put r p).0 ≡ success
    → (ht' : HashTable) × (nl_hash_table_del k ht p r ≡ (success, ht', (nl_object_put r p).1))
      × IsIndex k ht' (erase p items)
nl_hash_table_del-IsIndex {k} laws {ht} {items} p r ix u h fine =
    let gone = unlink-erase k p items ix.apart (ix.reflexive p h) h in
    let (there, found) = find_node-unlink laws items (erase p items) p gone in
    elim (nl_hash_table_del_lem laws ix.table p r fine) [
      | inl (absent, _) ↦ absurd (ground (arith, ix.agrees p))
      | inr (_, (ht', run, v, after)) ↦ (
        ht',
        run,
        record {
          table = v;
          agrees = λ q. ground (
            arith,
            after q,
            ix.agrees q,
            unlink-find_node laws items (erase p items) p q ix.apart gone,
          );
          apart = Distinct-unlink laws items (erase p items) p ix.apart gone;
          reflexive = λ q h'. ix.reflexive q (ground (arith, has-erase p q items u));
        },
      )
    ]

-- The references when a cache gives back the one of its list.
abbrev pub left_refs : Refs → Ptr → Refs
left_refs r p = (nl_object_put (record r { in_cache = update r.in_cache p false }) p).1

-- The memory after the object left the list of the cache.
abbrev pub left : {D : Type 0} → ℕ → Ptr → World D → World D
left c p w =
    update_cache c (λ cache. record cache { c_nitems = minus cache.c_nitems 1 })
      (record (update_cache c (λ cache. record cache { c_items = erase p cache.c_items }) w) {
        refs = left_refs w.refs p;
      })

-- What remove_from does after it looked into the hash table.
abbrev pub rest : {D : Type 0} → ℕ → Ptr → World D → Option (Unit {0} × World D)
rest c p = remove_item c p >> detach p >> put p >> count_down c

pub ran-success :
    {D : Type 0} (w : World D) (x : Outcome × Refs)
    → x.0 ≡ success
    → ran w x ≡ some (tt, record w { refs = x.1 })
ran-success w (success, r) e = refl
ran-success w (error x, r) e = absurd (cc)
ran-success w (bug, r) e = absurd (cc)

pub rest-left :
    {D : Type 0} (c : ℕ) (p : Ptr) (w : World D)
    → (nl_object_put (record (w.refs) { in_cache = update w.refs.in_cache p false }) p).0 ≡ success
    → rest c p w ≡ some (tt, left c p w)
rest-left c p w fine =
    ap
      (λ (o : Option (Unit {0} × World _)). elim o [ none ↦ none | some (u, w') ↦ count_down c w' ])
      (ran-success
        (record (update_cache c (λ cache. record cache { c_items = erase p cache.c_items }) w) {
          refs = record (w.refs) { in_cache = update w.refs.in_cache p false };
        })
        (nl_object_put (record (w.refs) { in_cache = update w.refs.in_cache p false }) p) fine)

-- The counts after a reference was given back.
pub put_count :
    (r : Refs) (p q : Ptr)
    → (nl_object_put r p).1.ce_refcnt q
      ≡ (if p == q then minus (r.ce_refcnt p) 1 else r.ce_refcnt q)
unfolding nl_object_put
put_count r p q = ground arith

pub put_in_cache : (r : Refs) (p q : Ptr) → (nl_object_put r p).1.in_cache q ≡ r.in_cache q
unfolding nl_object_put
put_in_cache r p q = ground arith

pub put_live : (r : Refs) (p q : Ptr) → (p == q) ≡ false → (nl_object_put r p).1.live q ≡ r.live q
unfolding nl_object_put
put_live r p q other = ground arith

pub put_kept :
    (r : Refs) (p : Ptr) (n : ℕ)
    → r.ce_refcnt p ≡ pos (n + 2)
    → ((nl_object_put r p).0 ≡ success) × ((nl_object_put r p).1.live p ≡ r.live p)
unfolding nl_object_put
put_kept r p n e = ground arith

pub put_fine :
    (r : Refs) (p : Ptr) (n : ℕ)
    → r.ce_refcnt p ≡ pos (n + 1)
    → r.in_cache p ≡ false
    → (nl_object_put r p).0 ≡ success
unfolding nl_object_put
put_fine r p n e out = ground arith

-- The object is freed when the last reference is given back.
pub put_last :
    (r : Refs) (p : Ptr) (n : ℕ)
    → r.ce_refcnt p ≡ pos (n + 1)
    → r.in_cache p ≡ false
    → ((nl_object_put r p).1.ce_refcnt p ≡ pos n)
      × ((nl_object_put r p).1.live p ≡ (if n == 0 then false else r.live p))
unfolding nl_object_put
put_last r p n e out = ground (arith, ==_refl p)
