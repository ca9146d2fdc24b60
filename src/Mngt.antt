-- ===== src/Mngt.antt =====
-- lib/cache_mngt.c: the cache types that are registered and the caches that they provide. The lock
-- around each operation is left out. A cache type, and a cache, is the number of a place in memory.
pub mod Find
pub mod Registry
pub mod Provide
use libnl.Prelude.{
  ℕ, ◌+◌, ◌-◌, ◌%◌, ◌^◌, Bool, true, false, ◌&&◌, not, Option, none, some, List, [], ◌∷◌, ltb, ◌==◌,
  if◌then◌else◌, same_ptr, same_text,
}
use libnl.Prelude.Int.{ℤ, plus, minus, is_nonpos}
use Prim.Native.Nat.{bit_or}
use libnl.Errno.{Outcome, success, error, bug, inval, exist, busy, nocache}
use libnl.Object.{ObjectOps}
use libnl.Cache.{erase}
use libnl.Cache.Pickup.{same_int}

pub record CacheType : Type 0 where
  pub co_name : Option (List ℕ)
  pub co_protocol : ℤ
  pub co_flags : ℕ
  pub co_refcnt : ℕ
  pub co_msgtypes : List ℕ
  pub co_obj_ops : Option ℕ
  pub co_major_cache : Option ℕ

-- `cache_ops` is the list that co_next links; of the caches there are the counts of references, the
-- types, and whether they were freed.
pub record Mngt : Type 0 where
  pub cache_ops : List ℕ
  pub types : ℕ → CacheType
  pub c_refcnt : ℕ → ℤ
  pub c_ops : ℕ → ℕ
  pub freed : ℕ → Bool

-- A loop over the list that ends at the first type that meets a test.
abbrev pub find : (ℕ → Bool) → List ℕ → Option ℕ
find f [] = none
find f (t ∷ l) = if f t then some t else find f l

abbrev pub has_name : Option (List ℕ) → List ℕ → Bool
has_name none name = false
has_name (some n) name = same_text n name

unfoldable pub nl_cache_ops_lookup : Mngt → List ℕ → Option ℕ
nl_cache_ops_lookup m name = find (λ t. has_name (m.types t).co_name name) m.cache_ops

abbrev pub change : ℕ → (CacheType → CacheType) → Mngt → Mngt
change t f m = record m { types = λ q. if t == q then f (m.types q) else m.types q }

-- The count is an unsigned int.
unfoldable pub nl_cache_ops_get : ℕ → Mngt → Mngt
nl_cache_ops_get t m = change t (λ ops. record ops { co_refcnt = (ops.co_refcnt + 1) % 2 ^ 32 }) m

unfoldable pub nl_cache_ops_put : ℕ → Mngt → Mngt
nl_cache_ops_put t m =
    change t (λ ops. record ops { co_refcnt = (ops.co_refcnt + (2 ^ 32 - 1)) % 2 ^ 32 }) m

-- What is found is returned with a reference.
abbrev pub safe : Option ℕ → Mngt → Option ℕ × Mngt
safe none m = (none, m)
safe (some t) m = (some t, nl_cache_ops_get t m)

unfoldable pub nl_cache_ops_lookup_safe : List ℕ → Mngt → Option ℕ × Mngt
nl_cache_ops_lookup_safe name m = safe (nl_cache_ops_lookup m name) m

abbrev pub has_msgtype : ℕ → List ℕ → Bool
has_msgtype msgtype [] = false
has_msgtype msgtype (id ∷ l) = if id == msgtype then true else has_msgtype msgtype l

abbrev pub place : ℕ → List ℕ → ℕ → Option ℕ
place msgtype [] i = none
place msgtype (id ∷ l) i = if id == msgtype then some i else place msgtype l (i + 1)

unfoldable pub nl_cache_ops_associate : Mngt → ℤ → ℕ → Option ℕ
nl_cache_ops_associate m protocol msgtype =
    find
      (λ t.
        same_int (m.types t).co_protocol protocol && has_msgtype msgtype (m.types t).co_msgtypes)
      m.cache_ops

unfoldable pub nl_cache_ops_associate_safe : ℤ → ℕ → Mngt → Option ℕ × Mngt
nl_cache_ops_associate_safe protocol msgtype m = safe (nl_cache_ops_associate m protocol msgtype) m

-- `none` is NULL, else the place in the table.
unfoldable pub nl_msgtype_lookup : CacheType → ℕ → Option ℕ
nl_msgtype_lookup ops msgtype = place msgtype ops.co_msgtypes 0

unfoldable pub nl_cache_ops_set_flags : ℕ → ℕ → Mngt → Mngt
nl_cache_ops_set_flags t flags m =
    change t (λ ops. record ops { co_flags = bit_or ops.co_flags flags }) m

abbrev pub is_some : {A : Type 0} → Option A → Bool
is_some none = false
is_some (some a) = true

-- The type is put in front of the list unless its name is taken.
abbrev pub link : Option ℕ → ℕ → Mngt → Outcome × Mngt
link (some u) t m = (error exist, m)
link none t m = (
  success,
  record (change t (λ ops. record ops { co_refcnt = 0 }) m) { cache_ops = t ∷ m.cache_ops },
)

-- oo_keygen also needs oo_compare.
abbrev pub needs_compare : {D : Type 0} → ObjectOps D → Bool
needs_compare o = is_some o.oo_keygen && not (is_some o.oo_compare)

abbrev pub register_as :
    {D : Type 0} → (ℕ → ObjectOps D) → Option (List ℕ) → Option ℕ → ℕ → Mngt → Outcome × Mngt
register_as ops (some name) (some o) t m =
    if needs_compare (ops o) then (bug, m) else link (nl_cache_ops_lookup m name) t m
register_as ops name o t m = (error inval, m)

unfoldable pub nl_cache_mngt_register : {D : Type 0} → (ℕ → ObjectOps D) → ℕ → Mngt → Outcome × Mngt
nl_cache_mngt_register ops t m = register_as ops (m.types t).co_name (m.types t).co_obj_ops t m

unfoldable pub nl_cache_mngt_unregister : ℕ → Mngt → Outcome × Mngt
nl_cache_mngt_unregister t m =
    if ltb 0 (m.types t).co_refcnt then (error busy, m) else elim (find (λ u. u == t) m.cache_ops) [
      | none ↦ (error nocache, m)
      | some u ↦ (success, record m { cache_ops = erase t m.cache_ops })
    ]

-- The type for the objects of a cache.
unfoldable pub lookup_for_obj : Mngt → ℕ → Option ℕ
lookup_for_obj m c =
    find (λ t. same_ptr (m.types t).co_obj_ops (m.types (m.c_ops c)).co_obj_ops) m.cache_ops

abbrev pub nl_cache_get : ℕ → Mngt → Mngt
nl_cache_get c m = record m {
  c_refcnt = λ d. if c == d then plus (m.c_refcnt d) 1 else m.c_refcnt d;
}

-- nl_cache_free: a cache without references is freed.
abbrev pub free_cache : ℕ → Mngt → Mngt
free_cache c m = record m {
  c_refcnt = λ d. if c == d then minus (m.c_refcnt d) 1 else m.c_refcnt d;
  freed = λ d. if c == d && is_nonpos (minus (m.c_refcnt d) 1) then true else m.freed d;
}

abbrev pub set_major : Option ℕ → ℕ → Mngt → Mngt
set_major c t m = change t (λ ops. record ops { co_major_cache = c }) m

abbrev pub provided : Option ℕ → ℕ → ℕ → Mngt → Mngt
unfolding nl_cache_ops_get
provided none c t m = set_major (some c) t (nl_cache_ops_get t (nl_cache_get c m))
provided (some old) c t m = set_major (some c) t (nl_cache_get c m)

-- `none` is BUG().
unfoldable pub nl_cache_mngt_provide : ℕ → Mngt → Option Mngt
unfolding nl_cache_ops_get
nl_cache_mngt_provide c m = elim (lookup_for_obj m c) [
  | none ↦ none
  | some t ↦ some (provided (m.types t).co_major_cache c t m)
]

unfoldable pub nl_cache_mngt_unprovide : ℕ → Mngt → Option Mngt
unfolding nl_cache_ops_put
nl_cache_mngt_unprovide c m = elim (lookup_for_obj m c) [
  | none ↦ none
  | some t ↦ some (
      if same_ptr (m.types t).co_major_cache (some c)
      then set_major none t (nl_cache_ops_put t (free_cache c m))
      else m)
]

abbrev pub required_from : Option ℕ × Mngt → Option ℕ × Mngt
unfolding nl_cache_ops_put
required_from (none, m) = (none, m)
required_from (some t, m) = ((m.types t).co_major_cache, nl_cache_ops_put t m)

unfoldable pub nl_cache_mngt_require : List ℕ → Mngt → Option ℕ × Mngt
unfolding nl_cache_ops_put
nl_cache_mngt_require name m = required_from (nl_cache_ops_lookup_safe name m)

abbrev pub kept : Option ℕ × Mngt → Option ℕ × Mngt
kept (none, m) = (none, m)
kept (some c, m) = (some c, nl_cache_get c m)

unfoldable pub nl_cache_mngt_require_safe : List ℕ → Mngt → Option ℕ × Mngt
nl_cache_mngt_require_safe name m = kept (nl_cache_mngt_require name m)
