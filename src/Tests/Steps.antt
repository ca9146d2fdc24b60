-- ===== src/Tests/Steps.antt =====
-- A sequence of changes to the caches of a concrete memory: the object 13 is added to the cache 0, one
-- more reference is taken to it, the object 11 is removed, the object 10 is searched for, and the
-- reference to 13 is given back.
use libnl.Prelude.{ℕ, ◌+◌, ◌≡◌, refl, true, Option, none, some}
use libnl.Prelude.Int.{pos}
use libnl.Errno.{success}
use libnl.Object.Refs.{nl_object_get, nl_object_put}
use libnl.Object.{nl_object_identical, nl_object_keygen}
use libnl.Hashtable.{nl_hash_table_add, nl_hash_table_del, nl_hash_table_lookup}
use libnl.Cache.{nl_cache_add, nl_cache_remove}
use libnl.Cache.Valid.{has, held_by}
use libnl.Cache.Heap.{World}
use libnl.Cache.Scan.{nl_cache_search}
use libnl.Cache.Steps.{stay, takes, step, searches, removes, gives, adds, Step, Steps, Steps-alive}
use libnl.Tests.Caches.{types, memory, memory-IsWorld, memory_keys-IsHash}

-- The memory that a function leaves.
abbrev after : {A : Type 0} → World ℕ → Option (A × World ℕ) → World ℕ
after w none = w
after w (some (a, w')) = w'

abbrev added : World ℕ
added = after memory (nl_cache_add types 0 13 memory)

adds_13 : Step types memory added
unfolding nl_cache_add nl_object_identical nl_hash_table_add nl_object_keygen
adds_13 = adds 0 13 2 success refl refl refl refl refl refl refl

abbrev referenced : World ℕ
referenced = record added { refs = nl_object_get added.refs 13 }

takes_13 : Step types added referenced
takes_13 = takes 13 refl

abbrev removed : World ℕ
removed = after referenced (nl_cache_remove types 11 referenced)

removes_11 : Step types referenced removed
unfolding nl_cache_search nl_cache_remove nl_cache_add nl_object_get nl_object_put nl_hash_table_add
    nl_object_keygen nl_object_identical nl_hash_table_del nl_hash_table_lookup
removes_11 = removes 11 refl

abbrev searched : World ℕ
searched = after removed (nl_cache_search types 0 110 removed)

searches_10 : Step types removed searched
unfolding nl_cache_search nl_cache_remove nl_cache_add nl_object_get nl_object_put nl_hash_table_add
    nl_object_keygen nl_object_identical nl_hash_table_del nl_hash_table_lookup
searches_10 = searches 0 110 (some 10) refl

abbrev given : World ℕ
given = record searched { refs = (nl_object_put searched.refs 13).1 }

gives_13 : Step types searched given
unfolding nl_cache_search nl_cache_remove nl_cache_add nl_object_get nl_object_put nl_hash_table_add
    nl_object_keygen nl_object_identical nl_hash_table_del nl_hash_table_lookup
gives_13 = gives 13 3 refl refl

five-Steps : Steps types memory given
five-Steps = step (step (step (step (step stay adds_13) takes_13) removes_11) searches_10) gives_13

in_cache_13 : given.refs.in_cache 13 ≡ true
unfolding nl_cache_search nl_cache_remove nl_cache_add nl_object_get nl_object_put nl_hash_table_add
    nl_object_keygen nl_object_identical nl_hash_table_del nl_hash_table_lookup
in_cache_13 = refl

Steps-alive_example :
    (given.refs.live 13 ≡ true)
    × (has 13 (given.caches (given.owner 13)).c_items ≡ true)
    × ((n : ℕ) × (given.refs.ce_refcnt 13
          ≡ pos (n + held_by (given.caches (given.owner 13)).hashtable)))
Steps-alive_example = Steps-alive memory-IsWorld memory_keys-IsHash five-Steps 13 in_cache_13
