-- ===== src/Hashtable.antt =====
-- lib/hashtable.c: chains of references to objects. Allocations are taken to succeed.
pub mod Lookup
pub mod Update
pub mod Objects
pub mod Types
use libnl.Prelude.{
  ℕ, zero, suc, Bool, true, false, Option, none, some, List, [], ◌∷◌, if◌then◌else◌, get_or, set,
  replicate,
}
use libnl.Errno.{exist, obj_notfound, Outcome, success, error, bug}
use libnl.Object.Refs.{Ptr, Refs, nl_object_get, nl_object_put}

-- nl_object_keygen for a table of some size, and nl_object_identical, on references.
pub record Keys : Type 0 where
  pub keygen : Ptr → ℕ → ℕ
  pub identical : Ptr → Ptr → Bool

-- A node is the reference in it: its key is the place of its chain.
abbrev pub Chain : Type 0
Chain = List Ptr

pub record HashTable : Type 0 where
  pub nodes : List Chain
  pub size : ℕ

unfoldable pub nl_hash_table_alloc : ℕ → HashTable
nl_hash_table_alloc size = record { nodes = replicate size []; size = size }

-- The nodes of one chain, then those of the others: each object is put.
unfoldable pub put_chain : Chain → Refs → Outcome × Refs
put_chain [] r = (success, r)
put_chain (p ∷ c) r =
    let (o, r') = nl_object_put r p in elim o [ success ↦ put_chain c r' | e ↦ (e, r') ]

unfoldable pub nl_hash_table_free : List Chain → Refs → Outcome × Refs
unfolding put_chain
nl_hash_table_free [] r = (success, r)
nl_hash_table_free (c ∷ nodes) r =
    let (o, r') = put_chain c r in elim o [ success ↦ nl_hash_table_free nodes r' | e ↦ (e, r') ]

module _ (k : Keys) where
  -- The while loop of nl_hash_table_lookup and nl_hash_table_add.
  unfoldable pub find_node : Chain → Ptr → Option Ptr
  find_node [] obj = none
  find_node (p ∷ c) obj = if k.identical p obj then some p else find_node c obj

  unfoldable pub nl_hash_table_lookup : HashTable → Ptr → Option Ptr
  unfolding find_node
  nl_hash_table_lookup ht obj = find_node (get_or ht.nodes (k.keygen obj ht.size) []) obj

  unfoldable pub nl_hash_table_add : HashTable → Ptr → Refs → Outcome × HashTable × Refs
  unfolding find_node
  nl_hash_table_add ht obj r =
      let key_hash = k.keygen obj ht.size in
      let chain = get_or ht.nodes key_hash [] in
      elim (find_node chain obj) [
        | some _ ↦ (error exist, ht, r)
        | none ↦ (
          success,
          record ht { nodes = set ht.nodes key_hash (obj ∷ chain) },
          nl_object_get r obj,
        )
      ]

  -- The chain without the first node whose object is identical, if there is one.
  unfoldable pub unlink : Chain → Ptr → Option Chain
  unlink [] obj = none
  unlink (p ∷ c) obj =
      if k.identical p obj
      then some c
      else elim (unlink c obj) [ none ↦ none | some c' ↦ some (p ∷ c') ]

  -- It is the argument that is put, not the object of the node.
  unfoldable pub nl_hash_table_del : HashTable → Ptr → Refs → Outcome × HashTable × Refs
  unfolding unlink
  nl_hash_table_del ht obj r =
      let key_hash = k.keygen obj ht.size in
      elim (unlink (get_or ht.nodes key_hash []) obj) [
        | none ↦ (error obj_notfound, ht, r)
        | some chain ↦
            let (o, r') = nl_object_put r obj in
            elim o [
              | success ↦ (success, record ht { nodes = set ht.nodes key_hash chain }, r')
              | e ↦ (e, ht, r')
            ]
      ]
