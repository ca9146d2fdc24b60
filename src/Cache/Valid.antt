-- ===== src/Cache/Valid.antt =====
-- When the memory of the caches is well formed.
use libnl.Prelude.{
  ℕ, ◌+◌, ◌≡◌, refl, ap, subst, Bool, true, false, ◌&&◌, Option, none, some, List, [], ◌∷◌, ◌++◌,
  ◌==◌, if◌then◌else◌, length, All, Bool-cases, inl, inr, arith,
}
use libnl.Prelude.Int.{pos}
use libnl.Object.{ObjectOps}
use libnl.Object.Refs.{Ptr}
use libnl.Hashtable.{Keys, HashTable, find_node, unlink, nl_hash_table_lookup}
use libnl.Hashtable.Objects.{object_keys}
use libnl.Hashtable.Lookup.{IsValid, Distinct}
use libnl.Cache.Heap.{World}
use libnl.Cache.{erase}

abbrev pub has : Ptr → List Ptr → Bool
has p [] = false
has p (q ∷ l) = if q == p then true else has p l

-- No object stands twice in a list.
abbrev pub Unique : List Ptr → Type 0
Unique [] = Unit
Unique (p ∷ l) = (has p l ≡ false) × Unique l

-- The hash table finds what a search through the list finds; no two objects in the list are
-- identical, and each is identical to itself, which takes the attributes that identify it.
pub record IsIndex (k : Keys) (ht : HashTable) (items : List Ptr) : Type 0 where
  pub table : IsValid k ht
  pub agrees : (q : Ptr) → nl_hash_table_lookup k ht q ≡ find_node k items q
  pub apart : Distinct k items
  pub reflexive : (p : Ptr) → has p items ≡ true → k.identical p p ≡ true

abbrev pub Indexed : Keys → Option HashTable → List Ptr → Type 0
Indexed k none items = Unit
Indexed k (some ht) items = IsIndex k ht items

-- The references to an object that a cache holds: one of the list, one of the hash table.
abbrev pub held_by : Option HashTable → ℕ
held_by none = 1
held_by (some ht) = 2

pub held_some : (h : Option HashTable) → (m : ℕ) × (held_by h ≡ m + 1)
held_some none = (0, refl)
held_some (some ht) = (1, refl)

module _ {D : Type 0} (ops : ℕ → ObjectOps D) (w : World D) where
  -- The cache with the number c: its list has each object that points to the cache, once, and the
  -- cache counts them and holds its references to them.
  pub record IsCache (c : ℕ) : Type 0 where
    pub counted : (w.caches c).c_nitems ≡ pos (length (w.caches c).c_items)
    pub members : (p : Ptr) → has p (w.caches c).c_items ≡ (w.refs.in_cache p && w.owner p == c)
    pub unique : Unique (w.caches c).c_items
    pub held :
        (p : Ptr)
        → has p (w.caches c).c_items ≡ true
        → (n : ℕ) × (w.refs.ce_refcnt p ≡ pos (n + held_by (w.caches c).hashtable))
    pub alive :
        (p : Ptr) → has p (w.caches c).c_items ≡ true → (w.refs.live p ≡ true) × (w.linked p ≡ true)
    pub typed :
        (p : Ptr)
        → has p (w.caches c).c_items ≡ true
        → (w.heap p).ce_ops ≡ (w.caches c).c_ops.co_obj_ops
    pub indexed : Indexed (object_keys ops w.heap) (w.caches c).hashtable (w.caches c).c_items

  abbrev pub IsWorld : Type 0
  IsWorld = (c : ℕ) → IsCache c

-- Lists with an object taken out or put at the end.
pub has-erase :
    (p q : Ptr) (l : List Ptr) → Unique l → has q (erase p l) ≡ (if p == q then false else has q l)
has-erase p q [] u = ground arith
has-erase p q (r ∷ l) u = ground (arith, has-erase p q l u.1, ap (λ x. has x l) {x = r} {y = q})

pub has-append :
    (p q : Ptr) (l : List Ptr) → has q (l ++ p ∷ []) ≡ (if p == q then true else has q l)
has-append p q [] = ground arith
has-append p q (r ∷ l) = ground (arith, has-append p q l)

pub Unique-erase : (p : Ptr) (l : List Ptr) → Unique l → Unique (erase p l)
Unique-erase p [] u = tt
Unique-erase p (q ∷ l) u = elim (Bool-cases (q == p)) [
  | inl same ↦ rw same u.1
  | inr other ↦ rw other (ground (arith, has-erase p q l u.1), Unique-erase p l u.1)
]

pub Unique-append : (p : Ptr) (l : List Ptr) → has p l ≡ false → Unique l → Unique (l ++ p ∷ [])
Unique-append p [] h u = (refl, tt)
Unique-append p (q ∷ l) h u =
    (ground (arith, has-append p q l), Unique-append p l (ground arith) u.1)

pub length-erase : (p : Ptr) (l : List Ptr) → has p l ≡ true → length (erase p l) + 1 ≡ length l
length-erase p [] h = absurd (cc)
length-erase p (q ∷ l) h = ground (arith, length-erase p l)

-- A predicate of all objects in a list.
pub All-has {ℓ} : (P : Ptr → Type ℓ) (p : Ptr) (l : List Ptr) → All P l → has p l ≡ true → P p
All-has P p [] a h = absurd (cc)
All-has P p (q ∷ l) a h = elim (Bool-cases (q == p)) [
  | inl same ↦ subst P (ground arith) a.0
  | inr other ↦ All-has P p l a.1 (rw other at h)
]

module _ (k : Keys) where
  -- The first node that is identical to an object in a list of distinct ones is the object.
  pub unlink-erase :
      (p : Ptr) (l : List Ptr)
      → Distinct k l
      → k.identical p p ≡ true
      → has p l ≡ true
      → unlink k l p ≡ some (erase p l)
  unfolding unlink
  unlink-erase p [] d self h = absurd (cc)
  unlink-erase p (q ∷ l) d self h = elim (Bool-cases (q == p)) [
    | inl same ↦ let e : q ≡ p = ground arith in ground (arith, ap (λ x. k.identical x p) e)
    | inr other ↦
        let h' : has p l ≡ true = rw other at h in
        ground
          (arith, All-has (λ x. k.identical q x ≡ false) p l d.0 h', unlink-erase p l d.1 self h')
  ]
