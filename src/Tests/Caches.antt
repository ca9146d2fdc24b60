-- ===== src/Tests/Caches.antt =====
-- lib/cache.c at a concrete memory: the cache 0 has a hash table and the objects 10 and 11, the cache 1
-- has the object 12 and no hash table; an object is identified by its number modulo 100.
use libnl.Cache.{nl_cache_remove, nl_cache_add}
use libnl.Cache.Removal.{nl_cache_remove_lem}
use libnl.Cache.Added.{nl_cache_add_lem, Unchanged}
use libnl.Cache.Leave.{Leaves}
use libnl.Cache.Enter.{Enters}
use libnl.Cache.Search.{nl_cache_search_lem}
use libnl.Cache.Clear.{nl_cache_clear_lem}
use libnl.Cache.Resync.{sweep_lem, unmarked}
use libnl.Cache.Merged.{cache_include_merged}
use libnl.Cache.Scan.{nl_cache_search, nl_cache_clear}
use libnl.Cache.Pickup.{sweep}
use libnl.Cache.Include.{cb, cache_include}
use libnl.Errno.{success, error, exist}
use libnl.Prelude.{
  All, ℕ, zero, suc, ◌%◌, ◌≡◌, ◌⊎◌, refl, true, false, Option, none, some, List, [], ◌∷◌, ◌==◌,
  if◌then◌else◌, get_or, arith,
}
use libnl.Prelude.Int.{pos}
use libnl.Object.{Object, ObjectOps, nl_object_identical, nl_object_keygen}
use libnl.Object.Refs.{Ptr}
use libnl.Hashtable.{HashTable, find_node, nl_hash_table_lookup}
use libnl.Hashtable.Objects.{object_keys, object_keys-IsHash}
use libnl.Hashtable.Lookup.{Distinct, IsHash}
use libnl.Cache.Heap.{act_new, act_del, Cache, CacheOps, World}
use libnl.Cache.Valid.{has, IsIndex, IsWorld}
use libnl.Tests.Tables.{number_ops, number_ops-IsHashable}

abbrev pub types : ℕ → ObjectOps ℕ
types t = number_ops

abbrev numbered : Ptr → Object ℕ
numbered p = record { ce_ops = 0; ce_msgtype = 16; ce_mask = 1; attrs = p % 100 }

abbrev number_cache : CacheOps
number_cache = record {
  co_obj_ops = 0;
  co_hdrsize = 4;
  co_protocol = pos 0;
  co_hash_size = 2;
  co_msgtypes = [];
}

abbrev number_table : HashTable
number_table = record { nodes = (10 ∷ []) ∷ (11 ∷ []) ∷ []; size = 2 }

abbrev cache_of : List Ptr → ℕ → Option HashTable → Cache
cache_of l n table = record {
  c_items = l;
  c_nitems = pos n;
  c_refcnt = pos 1;
  hashtable = table;
  c_ops = number_cache;
}

abbrev number_caches : ℕ → Cache
number_caches zero = cache_of (10 ∷ 11 ∷ []) 2 (some number_table)
number_caches (suc zero) = cache_of (12 ∷ []) 1 none
number_caches (suc (suc d)) = cache_of [] 0 none

abbrev pub memory : World ℕ
memory = record {
  refs = record {
    ce_refcnt = λ p. pos 3;
    in_cache = λ p. has p (10 ∷ 11 ∷ 12 ∷ []);
    live = λ p. true;
  };
  owner = λ p. if p == 12 then 1 else 0;
  linked = λ p. has p (10 ∷ 11 ∷ 12 ∷ []);
  marked = λ p. p == 10;
  heap = numbered;
  caches = number_caches;
  next_ptr = 30;
  next_cache = 2;
  events = [];
}

pub memory_keys-IsHash : IsHash (object_keys types numbered)
memory_keys-IsHash = object_keys-IsHash types 0 number_ops-IsHashable numbered (λ p. refl)

same_number : (p q : Ptr) → (object_keys types numbered).identical p q ≡ (p % 100 == q % 100)
unfolding nl_object_identical
same_number p q = ground arith

in_chain :
    (i : ℕ) (q : Ptr)
    → i ≡ q % 100 % 2
    → find_node (object_keys types numbered) (get_or number_table.nodes i []) q
      ≡ find_node (object_keys types numbered) (10 ∷ 11 ∷ []) q
unfolding find_node
in_chain zero q e = ground (arith, same_number 10 q, same_number 11 q)
in_chain (suc zero) q e = ground (arith, same_number 10 q, same_number 11 q)
in_chain (suc (suc i)) q e = absurd (omega arith)

table_agrees :
    (q : Ptr)
    → nl_hash_table_lookup (object_keys types numbered) number_table q
      ≡ find_node (object_keys types numbered) (10 ∷ 11 ∷ []) q
unfolding nl_hash_table_lookup nl_object_keygen
table_agrees q = in_chain (q % 100 % 2) q refl

number_table_placed :
    (i : ℕ)
    → All
        (λ p. (object_keys types numbered).keygen p number_table.size ≡ i)
        (get_or number_table.nodes i [])
unfolding nl_object_keygen
number_table_placed zero = (refl, tt)
number_table_placed (suc zero) = (refl, tt)
number_table_placed (suc (suc i)) = tt

number_table-Distinct :
    (i : ℕ) → Distinct (object_keys types numbered) (get_or number_table.nodes i [])
number_table-Distinct zero = (tt, tt)
number_table-Distinct (suc zero) = (tt, tt)
number_table-Distinct (suc (suc i)) = tt

number_table-IsIndex : IsIndex (object_keys types numbered) number_table (10 ∷ 11 ∷ [])
number_table-IsIndex = record {
  table = record {
    width = refl;
    nonempty = omega arith;
    placed = number_table_placed;
    distinct = number_table-Distinct;
  };
  agrees = table_agrees;
  apart = ((same_number 10 11, tt), (tt, tt));
  reflexive = λ p h. ground (arith, same_number p p);
}

pub memory-IsWorld : IsWorld types memory
memory-IsWorld zero = record {
  counted = refl;
  members = λ p. ground arith;
  unique = (refl, (refl, tt));
  held = λ p h. (1, refl);
  alive = λ p h. (refl, ground arith);
  typed = λ p h. refl;
  indexed = number_table-IsIndex;
}
memory-IsWorld (suc zero) = record {
  counted = refl;
  members = λ p. ground arith;
  unique = (refl, tt);
  held = λ p h. (2, refl);
  alive = λ p h. (refl, ground arith);
  typed = λ p h. refl;
  indexed = tt;
}
memory-IsWorld (suc (suc d)) = record {
  counted = refl;
  members = λ p. ground arith;
  unique = tt;
  held = λ p h. absurd (cc);
  alive = λ p h. absurd (cc);
  typed = λ p h. refl;
  indexed = tt;
}

nl_cache_remove_lem_example :
    (w' : World ℕ) × (nl_cache_remove types 11 memory ≡ some (tt, w'))
    × IsWorld types w'
    × Leaves types 0 11 memory w'
nl_cache_remove_lem_example = nl_cache_remove_lem memory-IsWorld memory_keys-IsHash 11 refl

-- The object 110 is identical to 10.
nl_cache_add_lem_example :
    ((q : Ptr) × (ht : HashTable) × (w' : World ℕ) × (find_node
          (object_keys types numbered)
          (10 ∷ 11 ∷ [])
          110
        ≡ some q)
      × (some number_table ≡ some ht)
      × (nl_cache_add types 0 110 memory ≡ some (error exist, w'))
      × Unchanged 110 memory w')
    ⊎ ((w' : World ℕ) × (nl_cache_add types 0 110 memory ≡ some (success, w'))
        × IsWorld types w'
        × Enters types 0 110 memory w')
nl_cache_add_lem_example =
    nl_cache_add_lem memory-IsWorld memory_keys-IsHash 0 110 2 refl refl refl refl refl
      (same_number 110 110)

nl_cache_search_lem_example :
    ((nl_cache_search types 0 111 memory ≡ some (none, memory))
      × ((p : Ptr)
          → has p (10 ∷ 11 ∷ []) ≡ true
          → (object_keys types numbered).identical p 111 ≡ false))
    ⊎ ((p : Ptr) × (has p (10 ∷ 11 ∷ []) ≡ true)
        × ((object_keys types numbered).identical p 111 ≡ true)
        × ((w' : World ℕ) × (nl_cache_search types 0 111 memory ≡ some (some p, w'))
            × IsWorld types w'
            × ((q : Ptr) → w'.refs.ce_refcnt q ≡ (if p == q then pos 4 else pos 3))
            × (w'.heap ≡ numbered)
            × (w'.caches ≡ number_caches)
            × (w'.refs.in_cache ≡ memory.refs.in_cache)))
nl_cache_search_lem_example = nl_cache_search_lem memory-IsWorld 0 111

nl_cache_clear_lem_example :
    (w' : World ℕ) × (nl_cache_clear types 0 memory ≡ some (tt, w'))
    × IsWorld types w'
    × ((w'.caches 0).c_items ≡ [])
    × ((d : ℕ) → (0 == d) ≡ false → w'.caches d ≡ number_caches d)
nl_cache_clear_lem_example = nl_cache_clear_lem memory-IsWorld memory_keys-IsHash 0

-- The object 10 is marked.
sweep_lem_example :
    (w' : World ℕ) × (sweep types cb (10 ∷ 11 ∷ []) memory ≡ some (tt, w'))
    × IsWorld types w'
    × ((w'.caches 0).c_items ≡ 11 ∷ [])
    × (w'.events ≡ record { on_old = none; on_new = some 10; on_diff = 0; on_act = act_del } ∷ [])
    × ((d : ℕ) → (0 == d) ≡ false → w'.caches d ≡ number_caches d)
sweep_lem_example = sweep_lem memory-IsWorld memory_keys-IsHash cb 0

-- Objects of this type take over what the new object says.
abbrev take_over : ℕ → Option (Object ℕ → Object ℕ → Option (Object ℕ))
take_over t = some (λ a b. some b)

found_10 : find_node (object_keys types numbered) (10 ∷ 11 ∷ []) 110 ≡ some 10
unfolding find_node
found_10 = ground (arith, same_number 10 110)

cache_include_merged_example :
    (w' : World ℕ) × (cache_include types take_over 0 110 act_new cb memory ≡ some (success, w'))
    × ((w'.caches 0).c_items ≡ 10 ∷ 11 ∷ [])
    × (w'.marked ≡ memory.marked)
    × (has 10 (unmarked w'.marked (w'.caches 0).c_items) ≡ false)
cache_include_merged_example =
    cache_include_merged types take_over memory-IsWorld cb 0 10 110 (numbered 110) (λ a b. some b)
      refl found_10 refl refl refl
