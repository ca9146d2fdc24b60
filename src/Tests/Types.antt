-- ===== src/Tests/Types.antt =====
-- A concrete registry of cache types: the type 0 is registered, the type 1 is not.
use libnl.Prelude.{
  ℕ, zero, suc, ◌<◌, ◌≡◌, ◌⊎◌, refl, false, true, Option, none, some, List, [], ◌∷◌, if◌then◌else◌,
  same_text, arith,
}
use libnl.Prelude.Int.{pos}
use libnl.Errno.{success, error, exist, busy, nocache}
use libnl.Object.{ObjectOps}
use libnl.Cache.Valid.{has}
use libnl.Mngt.{
  CacheType, Mngt, lookup_for_obj, nl_cache_ops_lookup, nl_cache_mngt_register,
  nl_cache_mngt_unregister, nl_cache_mngt_provide, nl_cache_mngt_unprovide, nl_cache_mngt_require,
}
use libnl.Mngt.Registry.{IsMngt, nl_cache_mngt_register_lem, nl_cache_mngt_unregister_lem}
use libnl.Mngt.Provide.{nl_cache_mngt_provide_lem, nl_cache_mngt_provide-replaced}
use libnl.Tests.Tables.{number_ops}

abbrev kind : List ℕ → Option ℕ → ℕ → CacheType
kind name major n = record {
  co_name = some name;
  co_protocol = pos 0;
  co_flags = 0;
  co_refcnt = n;
  co_msgtypes = 16 ∷ 17 ∷ [];
  co_obj_ops = some 0;
  co_major_cache = major;
}

-- The names are "a" and "b".
abbrev kinds : Option ℕ → ℕ → ℕ → CacheType
kinds major n zero = kind (97 ∷ []) major n
kinds major n (suc t) = kind (98 ∷ []) none 0

abbrev registry : Option ℕ → ℕ → Mngt
registry major n = record {
  cache_ops = 0 ∷ [];
  types = kinds major n;
  c_refcnt = λ c. pos 1;
  c_ops = λ c. 0;
  freed = λ c. false;
}

abbrev empty : Mngt
empty = registry none 0

registered :
    (t : ℕ)
    → has t (0 ∷ []) ≡ true
    → (n : List ℕ) × ((kinds none 0 t).co_name ≡ some n) × (nl_cache_ops_lookup empty n ≡ some t)
unfolding nl_cache_ops_lookup
registered zero h = (97 ∷ [], refl, refl)
registered (suc t) h = absurd (ground arith)

no_majors :
    (t c : ℕ)
    → (kinds none 0 t).co_major_cache ≡ some c
    → (has t (0 ∷ []) ≡ true) × (0 < (kinds none 0 t).co_refcnt)
no_majors zero c h = absurd (ground arith)
no_majors (suc t) c h = absurd (ground arith)

empty-IsMngt : IsMngt empty
empty-IsMngt = record { found = registered; unique = (refl, tt); provides = no_majors }

abbrev numbers : ℕ → ObjectOps ℕ
numbers o = number_ops

nl_cache_mngt_register_lem_example :
    ((u : ℕ) × (nl_cache_ops_lookup empty (98 ∷ []) ≡ some u)
      × (nl_cache_mngt_register numbers 1 empty ≡ (error exist, empty)))
    ⊎ ((m' : Mngt) × (nl_cache_ops_lookup empty (98 ∷ []) ≡ none)
        × (nl_cache_mngt_register numbers 1 empty ≡ (success, m'))
        × IsMngt m'
        × ((n : List ℕ)
            → nl_cache_ops_lookup m' n
              ≡ (if same_text (98 ∷ []) n then some 1 else nl_cache_ops_lookup empty n)))
nl_cache_mngt_register_lem_example =
    nl_cache_mngt_register_lem numbers 1 (98 ∷ []) 0 empty-IsMngt refl refl refl

nl_cache_mngt_unregister_lem_example :
    ((0 < 0) × (nl_cache_mngt_unregister 0 empty ≡ (error busy, empty)))
    ⊎ (((has 0 (0 ∷ []) ≡ false) × (nl_cache_mngt_unregister 0 empty ≡ (error nocache, empty)))
        ⊎ ((m' : Mngt) × (nl_cache_mngt_unregister 0 empty ≡ (success, m'))
            × IsMngt m'
            × ((n : List ℕ)
                → nl_cache_ops_lookup m' n
                  ≡ (if same_text (97 ∷ []) n then none else nl_cache_ops_lookup empty n))))
nl_cache_mngt_unregister_lem_example = nl_cache_mngt_unregister_lem 0 (97 ∷ []) empty-IsMngt refl

found_0 : lookup_for_obj empty 5 ≡ some 0
unfolding lookup_for_obj
found_0 = refl

nl_cache_mngt_provide_lem_example :
    (m' : Mngt) × (nl_cache_mngt_provide 5 empty ≡ some m')
    × IsMngt m'
    × ((nl_cache_mngt_require (97 ∷ []) m').0 ≡ some 5)
    × (nl_cache_mngt_unregister 0 m' ≡ (error busy, m'))
nl_cache_mngt_provide_lem_example =
    nl_cache_mngt_provide_lem 5 0 (97 ∷ []) empty-IsMngt found_0 refl (omega arith)

-- The type 0 provides the cache 4.
abbrev with_4 : Mngt
with_4 = registry (some 4) 1

found_with_4 : lookup_for_obj with_4 5 ≡ some 0
unfolding lookup_for_obj
found_with_4 = refl

nl_cache_mngt_provide-replaced_example :
    (m' : Mngt) × (nl_cache_mngt_provide 5 with_4 ≡ some m')
    × (m'.c_refcnt 4 ≡ pos 1)
    × (nl_cache_mngt_unprovide 4 m' ≡ some m')
nl_cache_mngt_provide-replaced_example =
    nl_cache_mngt_provide-replaced with_4 4 5 0 found_with_4 refl refl refl
