-- ===== src/Tests/Tables.antt =====
-- lib/object.c and lib/hashtable.c at concrete objects: the references 10 to 19 are identical, as
-- are 20 to 29 and so on.
use libnl.Prelude.{
  ap, ℕ, zero, suc, ◌/◌, ◌%◌, ◌≡◌, ◌⊎◌, refl, true, false, none, some, [], ◌∷◌, ◌==◌, if◌then◌else◌,
  get_or, All, arith,
}
use libnl.Prelude.Int.{pos}
use libnl.Errno.{success, error, exist, obj_notfound}
use libnl.Object.{Object, ObjectOps}
use libnl.Object.Refs.{Ptr, Refs, nl_object_get, nl_object_put}
use libnl.Hashtable.{Keys, HashTable, nl_hash_table_add, nl_hash_table_del, nl_hash_table_lookup}
use libnl.Hashtable.Lookup.{IsHash, Distinct, IsValid}
use libnl.Hashtable.Objects.{IsHashable}
use libnl.Hashtable.Update.{nl_hash_table_add_lem, nl_hash_table_del_lem, del_wrong_reference}

abbrev keys : Keys
keys = record { keygen = λ p n. p / 10 % n; identical = λ p q. p / 10 == q / 10 }

keys-IsHash : IsHash keys
keys-IsHash = record {
  symm = λ p q. ground arith;
  trans = λ p q r. ground arith;
  key-identical = λ p q n. ground arith;
  key-lt = λ p n. omega arith;
}

-- Three references to each object, none in a cache.
abbrev refs : Refs
refs = record { ce_refcnt = λ p. pos 3; in_cache = λ p. false; live = λ p. true }

abbrev table : HashTable
table = record { nodes = [] ∷ (10 ∷ 40 ∷ []) ∷ [] ∷ []; size = 3 }

table_placed : (i : ℕ) → All (λ p. keys.keygen p table.size ≡ i) (get_or table.nodes i [])
table_placed zero = tt
table_placed (suc zero) = (refl, (refl, tt))
table_placed (suc (suc zero)) = tt
table_placed (suc (suc (suc i))) = tt

table-Distinct : (i : ℕ) → Distinct keys (get_or table.nodes i [])
table-Distinct zero = tt
table-Distinct (suc zero) = ((refl, tt), (tt, tt))
table-Distinct (suc (suc zero)) = tt
table-Distinct (suc (suc (suc i))) = tt

table-IsValid : IsValid keys table
table-IsValid = record {
  width = refl;
  nonempty = omega arith;
  placed = table_placed;
  distinct = table-Distinct;
}

abbrev object : ℕ → Object ℕ
object n = record { ce_ops = 0; ce_msgtype = 16; ce_mask = 1; attrs = n }

nl_hash_table_add_lem_example :
    ((p : Ptr) × (nl_hash_table_lookup keys table 20 ≡ some p)
      × (nl_hash_table_add keys table 20 refs ≡ (error exist, table, refs)))
    ⊎ ((nl_hash_table_lookup keys table 20 ≡ none)
        × ((ht' : HashTable) × (nl_hash_table_add keys table 20 refs
              ≡ (success, ht', nl_object_get refs 20))
            × IsValid keys ht'
            × ((q : Ptr)
                → nl_hash_table_lookup keys ht' q
                  ≡ (if 2 == q / 10 then some 20 else nl_hash_table_lookup keys table q))))
nl_hash_table_add_lem_example = nl_hash_table_add_lem keys-IsHash table-IsValid 20 refs

nl_hash_table_del_lem_example :
    ((nl_hash_table_lookup keys table 40 ≡ none)
      × (nl_hash_table_del keys table 40 refs ≡ (error obj_notfound, table, refs)))
    ⊎ (((p : Ptr) × (nl_hash_table_lookup keys table 40 ≡ some p))
        × ((ht' : HashTable) × (nl_hash_table_del keys table 40 refs
              ≡ (success, ht', (nl_object_put refs 40).1))
            × IsValid keys ht'
            × ((q : Ptr)
                → nl_hash_table_lookup keys ht' q
                  ≡ (if 4 == q / 10 then none else nl_hash_table_lookup keys table q))))
unfolding nl_object_put
nl_hash_table_del_lem_example = nl_hash_table_del_lem keys-IsHash table-IsValid 40 refs refl

del_wrong_reference_example :
    let (o, ht', r') = nl_hash_table_del keys table 15 refs in
    (o ≡ success)
    × (nl_hash_table_lookup keys ht' 15 ≡ none)
    × (r'.ce_refcnt 10 ≡ pos 3)
    × (r'.ce_refcnt 15 ≡ pos 2)
unfolding nl_hash_table_lookup
del_wrong_reference_example =
    del_wrong_reference keys-IsHash table-IsValid 15 refs 10 1 refl (omega arith) refl

-- A type whose objects are identified by their number, and its keys.
abbrev pub number_ops : ObjectOps ℕ
number_ops = record {
  oo_id_attrs = 1;
  oo_id_attrs_get = none;
  oo_compare = some (λ a b attrs flags. if a.attrs == b.attrs then 0 else 1);
  oo_keygen = some (λ a n. a.attrs % n);
}

pub number_ops-IsHashable : IsHashable number_ops
number_ops-IsHashable = record {
  compare = λ a b attrs flags. if a.attrs == b.attrs then 0 else 1;
  key = λ a n. a.attrs % n;
  has_compare = refl;
  has_key = refl;
  fixed_attrs = refl;
  some_attrs = omega arith;
  not_all_attrs = omega arith;
  compare-symm = λ x y. ground arith;
  compare-trans = λ x y z h h'. ground arith;
  key-compare = λ x y n h. let e : x.attrs ≡ y.attrs = ground arith in ap (λ a. a % n) e;
  key-lt = λ x n h. omega arith;
}
