-- ===== src/Mngt/Registry.antt =====
-- Registering and unregistering cache types in lib/cache_mngt.c.
use libnl.Prelude.{
  ltb, ℕ, ◌<◌, ◌≡◌, ◌⊎◌, sym, ap, ◌∙◌, true, false, Option, none, some, List, ◌∷◌, ◌==◌, ==_refl,
  if◌then◌else◌, same_text, Bool-cases, Option-cases, inl, inr, arith,
}
use libnl.Errno.{nocache, busy, success, error, exist}
use libnl.Object.{ObjectOps}
use libnl.Cache.Valid.{Unique-erase, has-erase, has, Unique}
use libnl.Mngt.{
  nl_cache_mngt_unregister, erase, Mngt, has_name, change, needs_compare, nl_cache_ops_lookup,
  nl_cache_mngt_register,
}
use libnl.Mngt.Find.{find_self, find-erase, find-none, same_text-eq, same_text_refl, find_ext}

-- Each registered type has a name, by which it is found, so no two have the same; a type that
-- provides a cache is registered and referenced.
pub record IsMngt (m : Mngt) : Type 0 where
  pub found :
      (t : ℕ)
      → has t m.cache_ops ≡ true
      → (n : List ℕ) × ((m.types t).co_name ≡ some n) × (nl_cache_ops_lookup m n ≡ some t)
  pub unique : Unique m.cache_ops
  pub provides :
      (t c : ℕ)
      → (m.types t).co_major_cache ≡ some c
      → (has t m.cache_ops ≡ true) × (0 < (m.types t).co_refcnt)

pub named :
    (m : Mngt) (t : ℕ) (a b : List ℕ)
    → (m.types t).co_name ≡ some a
    → (m.types t).co_name ≡ some b
    → a ≡ b
named m t a b h h' = ap (λ (o : Option (List ℕ)). elim o [ none ↦ a | some n ↦ n ]) (sym h ∙ h')

-- A type whose name is not found is not registered.
fresh :
    (m : Mngt) (t : ℕ) (name : List ℕ)
    → IsMngt m
    → (m.types t).co_name ≡ some name
    → nl_cache_ops_lookup m name ≡ none
    → has t m.cache_ops ≡ false
fresh m t name v e missing = elim (Bool-cases (has t m.cache_ops)) [
  | inl there ↦
      let (n, e', found) = v.found t there in
      let same = ap (nl_cache_ops_lookup m) (named m t name n e e') in
      absurd (ground (arith, found, missing, same))
  | inr out ↦ out
]

-- The memory after a type was linked.
abbrev linked : ℕ → Mngt → Mngt
linked t m = record (change t (λ ops. record ops { co_refcnt = 0 }) m) {
  cache_ops = t ∷ m.cache_ops;
}

lookup-linked :
    (m : Mngt) (t : ℕ) (name n : List ℕ)
    → (m.types t).co_name ≡ some name
    → nl_cache_ops_lookup (linked t m) n
      ≡ (if same_text name n then some t else nl_cache_ops_lookup m n)
unfolding nl_cache_ops_lookup
lookup-linked m t name n e =
    let rest =
      find_ext (λ u. has_name ((linked t m).types u).co_name n)
        (λ u. has_name (m.types u).co_name n) m.cache_ops (λ u. ground arith) in
    let here : has_name ((linked t m).types t).co_name n ≡ same_text name n =
      ground (arith, ==_refl t) ∙ ap (λ o. has_name o n) e in
    ground (arith, rest, here)

linked-IsMngt :
    (m : Mngt) (t : ℕ) (name : List ℕ)
    → IsMngt m
    → (m.types t).co_name ≡ some name
    → nl_cache_ops_lookup m name ≡ none
    → IsMngt (linked t m)
linked-IsMngt m t name v e missing =
    let out = fresh m t name v e missing in
    record {
      found = λ u there. elim (Bool-cases (t == u)) [
        | inl same ↦
            let e' : t ≡ u = ground arith in
            (
              name,
              ground (arith, same, ap (λ x. (m.types x).co_name) e', e),
              lookup-linked m t name name e ∙ ground (arith, same_text_refl name),
            )
        | inr other ↦
            let (n, en, found) = v.found u (ground arith) in
            (
              n,
              ground (arith, other, en),
              lookup-linked m t name n e ∙ elim (Bool-cases (same_text name n)) [
                | inl same ↦
                    let e' = ap (nl_cache_ops_lookup m) (same_text-eq name n same) in
                    absurd (ground (arith, e', missing, found))
                | inr differ ↦ ground (arith, differ, found)
              ],
            )
      ];
      unique = (out, v.unique);
      provides = λ u c major. elim (Bool-cases (t == u)) [
        | inl same ↦
            let e' : t ≡ u = ground arith in
            let (there, _) =
              v.provides t c
                (ap (λ x. (m.types x).co_major_cache) e' ∙ ground (arith, major, same)) in
            absurd (ground (arith, there, out))
        | inr other ↦
            let (there, count) = v.provides u c (ground (arith, major, other)) in
            (ground (arith, other, there), ground (arith, other, count))
      ];
    }

-- Registering a cache type that has a name and an object type: if the name is taken, NLE_EXIST is
-- returned and nothing changes. Otherwise it succeeds, the name finds the type, what other names
-- find stays the same, and the registry is well formed. An object type with oo_keygen has oo_compare,
-- and the registry was well formed.
pub nl_cache_mngt_register_lem :
    {D : Type 0} (ops : ℕ → ObjectOps D) {m : Mngt} (t : ℕ) (name : List ℕ) (o : ℕ)
    → IsMngt m
    → (m.types t).co_name ≡ some name
    → (m.types t).co_obj_ops ≡ some o
    → needs_compare (ops o) ≡ false
    → ((u : ℕ) × (nl_cache_ops_lookup m name ≡ some u)
        × (nl_cache_mngt_register ops t m ≡ (error exist, m)))
      ⊎ ((m' : Mngt) × (nl_cache_ops_lookup m name ≡ none)
          × (nl_cache_mngt_register ops t m ≡ (success, m'))
          × IsMngt m'
          × ((n : List ℕ)
              → nl_cache_ops_lookup m' n
                ≡ (if same_text name n then some t else nl_cache_ops_lookup m n)))
unfolding nl_cache_mngt_register
nl_cache_mngt_register_lem ops {m} t name o v e e' compares =
    elim (Option-cases (nl_cache_ops_lookup m name)) [
      | inl missing ↦ inr (
        linked t m,
        missing,
        ground (arith, e, e', compares, missing),
        linked-IsMngt m t name v e missing,
        λ n. lookup-linked m t name n e,
      )
      | inr (u, there) ↦ inl (u, there, ground (arith, e, e', compares, there))
    ]

-- The memory after a type was taken out.
abbrev without : ℕ → Mngt → Mngt
without t m = record m { cache_ops = erase t m.cache_ops }

lookup-without :
    (m : Mngt) (t : ℕ) (name n : List ℕ)
    → IsMngt m
    → (m.types t).co_name ≡ some name
    → has t m.cache_ops ≡ true
    → nl_cache_ops_lookup (without t m) n
      ≡ (if same_text name n then none else nl_cache_ops_lookup m n)
unfolding nl_cache_ops_lookup
lookup-without m t name n v e there =
    let test = λ (u : ℕ). has_name (m.types u).co_name n in
    let here : test t ≡ same_text name n = ap (λ o. has_name o n) e in
    elim (Bool-cases (same_text name n)) [
      | inl same ↦
          find-none test (erase t m.cache_ops) (λ u left. elim (Bool-cases (test u)) [
            | inl meets ↦
                let out = has-erase t u m.cache_ops v.unique in
                let (nu, eu, found) = v.found u (ground arith) in
                let (nt, et, found') = v.found t there in
                let a : nu ≡ n = same_text-eq nu n (sym (ap (λ o. has_name o n) eu) ∙ meets) in
                let b : nt ≡ n = named m t nt name et e ∙ same_text-eq name n same in
                let c = ap (nl_cache_ops_lookup m) (a ∙ sym b) in
                absurd (ground (arith, out, left, found, found', c))
            | inr misses ↦ misses
          ])
          ∙ ground (arith, same)
      | inr differ ↦ find-erase test t m.cache_ops (here ∙ differ) ∙ ground (arith, differ)
    ]

without-IsMngt :
    (m : Mngt) (t : ℕ) (name : List ℕ)
    → IsMngt m
    → (m.types t).co_name ≡ some name
    → has t m.cache_ops ≡ true
    → ltb 0 (m.types t).co_refcnt ≡ false
    → IsMngt (without t m)
without-IsMngt m t name v e there free = record {
  found = λ u left.
      let out = has-erase t u m.cache_ops v.unique in
      let (n, en, found) = v.found u (ground arith) in
      let (nt, et, found') = v.found t there in
      (
        n,
        en,
        lookup-without m t name n v e there ∙ elim (Bool-cases (same_text name n)) [
          | inl same ↦
              let c =
                ap (nl_cache_ops_lookup m) (named m t nt name et e ∙ same_text-eq name n same) in
              absurd (ground (arith, out, left, found, found', c))
          | inr differ ↦ ground (arith, differ, found)
        ],
      );
  unique = Unique-erase t m.cache_ops v.unique;
  provides = λ u c major.
      let (h, count) = v.provides u c major in
      let out = has-erase t u m.cache_ops v.unique in
      elim (Bool-cases (t == u)) [
        | inl same ↦
            let e' = ap (λ x. (m.types x).co_refcnt) {x = t} {y = u} (ground arith) in
            absurd (ground (arith, e', free, count))
        | inr other ↦ (ground (arith, out, other, h), count)
      ];
}

-- Unregistering a cache type on every branch: one that is referenced is busy, and one that is not
-- registered gives NLE_NOCACHE, both without a change. Otherwise its name finds nothing any more, what
-- other names find stays the same, and the registry is well formed. It was well formed before, and the
-- type has a name.
pub nl_cache_mngt_unregister_lem :
    {m : Mngt} (t : ℕ) (name : List ℕ)
    → IsMngt m
    → (m.types t).co_name ≡ some name
    → ((0 < (m.types t).co_refcnt) × (nl_cache_mngt_unregister t m ≡ (error busy, m)))
      ⊎ (((has t m.cache_ops ≡ false) × (nl_cache_mngt_unregister t m ≡ (error nocache, m)))
          ⊎ ((m' : Mngt) × (nl_cache_mngt_unregister t m ≡ (success, m'))
              × IsMngt m'
              × ((n : List ℕ)
                  → nl_cache_ops_lookup m' n
                    ≡ (if same_text name n then none else nl_cache_ops_lookup m n))))
unfolding nl_cache_mngt_unregister
nl_cache_mngt_unregister_lem {m} t name v e =
    let search = find_self t m.cache_ops in
    elim (Bool-cases (ltb 0 (m.types t).co_refcnt)) [
      | inl used ↦ inl (ground (arith, used), ground (arith, used))
      | inr free ↦ elim (Bool-cases (has t m.cache_ops)) [
        | inl there ↦ inr (
            inr (
              without t m,
              ground (arith, free, search, there),
              without-IsMngt m t name v e there free,
              λ n. lookup-without m t name n v e there,
            ))
        | inr out ↦ inr (inl (out, ground (arith, free, search, out)))
      ]
    ]
