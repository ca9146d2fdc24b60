-- ===== src/Mngt/Provide.antt =====
-- The caches that cache types provide in lib/cache_mngt.c.
use libnl.Prelude.{
  same_ptr, ℕ, ◌+◌, ◌^◌, ◌<◌, ◌≡◌, refl, sym, ap, ◌∙◌, true, false, Option, none, some, List, ◌==◌,
  ==_refl, subst, Bool-cases, inl, inr, arith,
}
use libnl.Errno.{error, busy}
use libnl.Cache.Valid.{has, Unique}
use libnl.Mngt.{
  Mngt, find, has_name, lookup_for_obj, nl_cache_ops_lookup, nl_cache_ops_get,
  nl_cache_ops_lookup_safe, nl_cache_mngt_provide, nl_cache_mngt_unprovide, nl_cache_mngt_require,
  nl_cache_mngt_unregister, provided, set_major, nl_cache_get,
}
use libnl.Mngt.Find.{find_ext, find-has}
use libnl.Mngt.Registry.{IsMngt, named}

-- The same types are registered under the same names.
record Keeps (m m' : Mngt) : Type 0 where
  list : m'.cache_ops ≡ m.cache_ops
  names : (u : ℕ) → (m'.types u).co_name ≡ (m.types u).co_name

lookup-Keeps :
    (m m' : Mngt) (n : List ℕ) → Keeps m m' → nl_cache_ops_lookup m' n ≡ nl_cache_ops_lookup m n
unfolding nl_cache_ops_lookup
lookup-Keeps m m' n k =
    ap (find (λ u. has_name (m'.types u).co_name n)) k.list
    ∙ find_ext (λ u. has_name (m'.types u).co_name n) (λ u. has_name (m.types u).co_name n)
        m.cache_ops (λ u. ap (λ o. has_name o n) (k.names u))

Keeps-IsMngt :
    (m m' : Mngt)
    → Keeps m m'
    → IsMngt m
    → ((u c : ℕ)
        → (m'.types u).co_major_cache ≡ some c
        → (has u m.cache_ops ≡ true) × (0 < (m'.types u).co_refcnt))
    → IsMngt m'
Keeps-IsMngt m m' k v provides = record {
  found = λ u there.
      let (n, en, found) = v.found u (ap (has u) (sym k.list) ∙ there) in
      (n, k.names u ∙ en, lookup-Keeps m m' n k ∙ found);
  unique = subst Unique (sym k.list) v.unique;
  provides =
      λ u c major. let (there, count) = provides u c major in (ap (has u) k.list ∙ there, count);
}

provided-Keeps : (major : Option ℕ) (c t : ℕ) (m : Mngt) → Keeps m (provided major c t m)
unfolding nl_cache_ops_get
provided-Keeps none c t m = record { list = refl; names = λ u. ground arith }
provided-Keeps (some old) c t m = record { list = refl; names = λ u. ground arith }

-- The type has the cache afterwards and is referenced; other types are as before.
provided-type :
    (c t : ℕ) (m : Mngt)
    → IsMngt m
    → (m.types t).co_refcnt + 1 < 2 ^ 32
    → (major : Option ℕ) → (m.types t).co_major_cache ≡ major
    → (((provided major c t m).types t).co_major_cache ≡ some c)
      × (0 < ((provided major c t m).types t).co_refcnt)
unfolding nl_cache_ops_get
provided-type c t m v small none e =
    let self = ==_refl t in (ground (arith, self), ground (arith, self))
provided-type c t m v small (some old) e =
    let self = ==_refl t in
    let (_, count) = v.provides t old e in (ground (arith, self), ground (arith, self, count))

provided_other :
    (major : Option ℕ) (c t u : ℕ) (m : Mngt)
    → (t == u) ≡ false
    → (provided major c t m).types u ≡ m.types u
unfolding nl_cache_ops_get
provided_other none c t u m other = ground (arith, other)
provided_other (some old) c t u m other = ground (arith, other)

-- What is found for a cache is registered, under its name.
for_obj-found :
    (m : Mngt) (c t : ℕ) (name : List ℕ)
    → IsMngt m
    → lookup_for_obj m c ≡ some t
    → (m.types t).co_name ≡ some name
    → (has t m.cache_ops ≡ true) × (nl_cache_ops_lookup m name ≡ some t)
unfolding lookup_for_obj
for_obj-found m c t name v h e =
    let (_, there) = find-has _ m.cache_ops t h in
    let (n, en, found) = v.found t there in
    (there, ap (nl_cache_ops_lookup m) (named m t name n e en) ∙ found)

require-major :
    (m : Mngt) (name : List ℕ) (t : ℕ)
    → nl_cache_ops_lookup m name ≡ some t
    → (nl_cache_mngt_require name m).0 ≡ (m.types t).co_major_cache
unfolding nl_cache_mngt_require nl_cache_ops_lookup_safe nl_cache_ops_get
require-major m name t h = ground (arith, h, ==_refl t)

-- Providing a cache for a registered type succeeds: nl_cache_mngt_require of the name of the type
-- returns the cache, the type cannot be unregistered while it provides one, and the registry is well
-- formed. It was well formed before, and the count of references to the type does not wrap.
pub nl_cache_mngt_provide_lem :
    {m : Mngt} (c t : ℕ) (name : List ℕ)
    → IsMngt m
    → lookup_for_obj m c ≡ some t
    → (m.types t).co_name ≡ some name
    → (m.types t).co_refcnt + 1 < 2 ^ 32
    → (m' : Mngt) × (nl_cache_mngt_provide c m ≡ some m')
      × IsMngt m'
      × ((nl_cache_mngt_require name m').0 ≡ some c)
      × (nl_cache_mngt_unregister t m' ≡ (error busy, m'))
unfolding nl_cache_mngt_provide nl_cache_mngt_unregister
nl_cache_mngt_provide_lem {m} c t name v h e small =
    let m' = provided (m.types t).co_major_cache c t m in
    let k = provided-Keeps (m.types t).co_major_cache c t m in
    let (major, count) = provided-type c t m v small (m.types t).co_major_cache refl in
    let (there, found) = for_obj-found m c t name v h e in
    (
      m',
      ground (arith, h),
      Keeps-IsMngt m m' k v (λ u d owns. elim (Bool-cases (t == u)) [
        | inl same ↦
            let e' : t ≡ u = ground arith in
            (
              ap (λ x. has x m.cache_ops) (sym e') ∙ there,
              subst (λ x. 0 < (m'.types x).co_refcnt) e' count,
            )
        | inr other ↦
            let same = provided_other (m.types t).co_major_cache c t u m other in
            let (has_u, n) = v.provides u d (ap (λ x. x.co_major_cache) (sym same) ∙ owns) in
            (has_u, subst (λ x. 0 < x.co_refcnt) (sym same) n)
      ]),
      require-major m' name t (lookup-Keeps m m' name k ∙ found) ∙ major,
      ground (arith, count),
    )

-- A cache that takes the place of another one as that of a type: nl_cache_mngt_provide leaves the
-- references to the other as they are, and nl_cache_mngt_unprovide of the other then changes nothing.
-- So the reference that the type held to it is never given back.
pub nl_cache_mngt_provide-replaced :
    (m : Mngt) (old c t : ℕ)
    → lookup_for_obj m c ≡ some t
    → (m.types t).co_major_cache ≡ some old
    → m.c_ops old ≡ m.c_ops c
    → (c == old) ≡ false
    → (m' : Mngt) × (nl_cache_mngt_provide c m ≡ some m')
      × (m'.c_refcnt old ≡ m.c_refcnt old)
      × (nl_cache_mngt_unprovide old m' ≡ some m')
unfolding nl_cache_mngt_provide nl_cache_mngt_unprovide lookup_for_obj
nl_cache_mngt_provide-replaced m old c t h e same other =
    let m' = set_major (some c) t (nl_cache_get c m) in
    let objs : (u : ℕ) → (m'.types u).co_obj_ops ≡ (m.types u).co_obj_ops = λ u. ground arith in
    let test =
      λ (x : Mngt) (d u : ℕ). same_ptr (x.types u).co_obj_ops (x.types (x.c_ops d)).co_obj_ops in
    let found : find (test m' old) m'.cache_ops ≡ some t =
      find_ext (test m' old) (test m c) m.cache_ops (λ u.
        ap (λ o. same_ptr o (m'.types (m.c_ops old)).co_obj_ops) (objs u)
        ∙ ap (same_ptr (m.types u).co_obj_ops) (objs (m.c_ops old))
        ∙ ap (λ d. same_ptr (m.types u).co_obj_ops (m.types d).co_obj_ops) same)
      ∙ h in
    (m', ground (arith, h, e), ground (arith, other), ground (arith, found, ==_refl t, other))
