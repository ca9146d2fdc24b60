-- ===== src/Attr/Parse.antt =====
-- nla_parse, nla_validate and nla_find over the stream of attributes that they visit.
use libnl.Prelude.{
  ℕ, zero, suc, ◌≤◌, ◌<◌, ◌≡◌, refl, ◌∙◌, true, List, [], ◌∷◌, inl, inr, Bool-cases, arith, Option,
  none, some, ltb, ◌==◌, if◌then◌else◌, get_or, set, length, replicate, get_or-set, length-set,
  length-replicate, get_or-replicate,
}
use mathlib.Core.Option
use libnl.Prelude.Int.{ℤ, pos_part}
use libnl.Errno.{Outcome, success}
use libnl.Attr.{
  Attr, Table, Policy, nla_type, validate_nla, validate_if, parse_loop, nla_parse, validate_loop,
  nla_validate, find_loop, nla_find,
}
use libnl.Attr.Stream.{Stream, stop, visit, nla_next-lt}

-- The last attribute of a type, which is the one that wins.
abbrev pub last_with : ℕ → List Attr → Option Attr
last_with t [] = none
last_with t (a ∷ l) = elim (last_with t l) [
  | some b ↦ some b
  | none ↦ if nla_type a == t then some a else none
]

-- The first attribute of a type.
abbrev pub first_with : ℕ → List Attr → Option Attr
first_with t [] = none
first_with t (a ∷ l) = if nla_type a == t then some a else first_with t l

-- What the first attribute that fails a check reports.
abbrev pub verdict : (Attr → Outcome) → List Attr → Outcome
verdict check [] = success
verdict check (a ∷ l) = elim (check a) [ success ↦ verdict check l | e ↦ e ]

-- The attributes before the first one that fails a check.
abbrev pub good_prefix : (Attr → Outcome) → List Attr → List Attr
good_prefix check [] = []
good_prefix check (a ∷ l) = elim (check a) [ success ↦ a ∷ good_prefix check l | _ ↦ [] ]

-- The policy passes whatever lies above `maxtype`.
validate_if_above :
    (policy : Option (List Policy)) (a : Attr) (maxtype : ℕ)
    → ltb maxtype (nla_type a) ≡ true
    → validate_if policy a maxtype ≡ success
unfolding validate_if validate_nla
validate_if_above none a maxtype h = refl
validate_if_above (some policy) a maxtype h = rw h

-- The table after the attributes of a list have been entered in their order.
fill : ℕ → Table → List Attr → Table
fill maxtype tb [] = tb
fill maxtype tb (a ∷ l) =
    fill maxtype (if ltb maxtype (nla_type a) then tb else set tb (nla_type a) (some a)) l

fill-last_with :
    (maxtype t : ℕ) (tb : Table) (l : List Attr)
    → t ≤ maxtype
    → length tb ≡ suc maxtype
    → get_or (fill maxtype tb l) t none
      ≡ elim (last_with t l) [ some a ↦ some a | none ↦ get_or tb t none ]
unfolding fill
fill-last_with maxtype t tb [] h n = refl
fill-last_with maxtype t tb (a ∷ l) h n = elim (Bool-cases (ltb maxtype (nla_type a))) [
  | inl above ↦ rw above (rw (fill-last_with maxtype t tb l h n) (ground arith))
  | inr within ↦ rw within (
      rw
        (fill-last_with maxtype t (set tb (nla_type a) (some a)) l h
          (length-set tb (nla_type a) (some a) ∙ n))
        (ground (arith, get_or-set tb (nla_type a) t (some a) none)))
]

module _ (maxtype : ℕ) (policy : Option (List Policy)) where
  abbrev pub check : Attr → Outcome
  check a = validate_if policy a maxtype

  -- The run of the loop from a table: its code, and the table that it leaves.
  parse_loop_lem :
      (fuel : ℕ) (tb : Table) {nla : Attr} {rem : ℤ} {l : List Attr}
      → Stream nla rem l
      → pos_part rem < fuel
      → parse_loop fuel maxtype policy tb nla rem
        ≡ some (verdict check l, fill maxtype tb (good_prefix check l))
  unfolding parse_loop fill
  parse_loop_lem zero tb s f = absurd (omega arith)
  parse_loop_lem (suc fuel) tb (stop h) f = rw h
  parse_loop_lem (suc fuel) tb (visit {nla = a} {rem = rem} {attrs = l} h s) f = ground (
    arith,
    nla_next-lt a rem h,
    validate_if_above policy a maxtype,
    parse_loop_lem fuel tb s,
    parse_loop_lem fuel (set tb (nla_type a) (some a)) s,
  )

  -- nla_parse returns, with the verdict of the first attribute that the policy refuses (0 if there
  -- is none). The entry for each type up to `maxtype` is then the last attribute of that type among
  -- those in front of the refused one, and empty if there is none.
  pub nla_parse_lem :
      {head : Attr} {len : ℤ} {l : List Attr}
      → Stream head len l
      → (tb : Table) × (nla_parse maxtype head len policy ≡ some (verdict check l, tb))
        × ((t : ℕ) → t ≤ maxtype → get_or tb t none ≡ last_with t (good_prefix check l))
  unfolding nla_parse
  nla_parse_lem {len = len} {l = l} s = (
    fill maxtype (replicate (suc maxtype) none) (good_prefix check l),
    parse_loop_lem (suc (pos_part len)) (replicate (suc maxtype) none) s (omega arith),
    λ t h.
        fill-last_with maxtype t (replicate (suc maxtype) none) (good_prefix check l) h
          (length-replicate (suc maxtype) none)
        ∙ last_or_empty t,
  )
    where
      last_or_empty :
          (t : ℕ)
          → elim (last_with t (good_prefix check l)) [
            | some a ↦ some a
            | none ↦ get_or (replicate (suc maxtype) none) t none
          ]
            ≡ last_with t (good_prefix check l)
      last_or_empty t = ground (arith, get_or-replicate {A = Option Attr} (suc maxtype) t none)

validate_loop_lem :
    (fuel maxtype : ℕ) (policy : List Policy) {nla : Attr} {rem : ℤ} {l : List Attr}
    → Stream nla rem l
    → pos_part rem < fuel
    → validate_loop fuel maxtype policy nla rem ≡ some (verdict (check maxtype (some policy)) l)
unfolding validate_loop validate_if
validate_loop_lem zero maxtype policy s f = absurd (omega arith)
validate_loop_lem (suc fuel) maxtype policy (stop h) f = rw h
validate_loop_lem (suc fuel) maxtype policy (visit {nla = a} {rem = rem} h s) f =
    ground (arith, nla_next-lt a rem h, validate_loop_lem fuel maxtype policy s)

-- nla_validate returns, with the verdict of the first attribute that the policy refuses: the code
-- with which nla_parse returns for the same stream and policy.
pub nla_validate-eq-parse :
    (maxtype : ℕ) (policy : List Policy) {head : Attr} {len : ℤ} {l : List Attr}
    → Stream head len l
    → (nla_validate head len maxtype policy ≡ some (verdict (check maxtype (some policy)) l))
      × (Option.map (λ r. r.0) (nla_parse maxtype head len (some policy))
          ≡ nla_validate head len maxtype policy)
unfolding nla_validate
nla_validate-eq-parse maxtype policy {len = len} s =
    let v = validate_loop_lem (suc (pos_part len)) maxtype policy s (omega arith) in
    let (tb, run, _) = nla_parse_lem maxtype (some policy) s in (v, rw (run, v))

find_loop_lem :
    (fuel t : ℕ) {nla : Attr} {rem : ℤ} {l : List Attr}
    → Stream nla rem l
    → pos_part rem < fuel
    → find_loop fuel t nla rem ≡ some (first_with t l)
unfolding find_loop
find_loop_lem zero t s f = absurd (omega arith)
find_loop_lem (suc fuel) t (stop h) f = rw h
find_loop_lem (suc fuel) t (visit {nla = a} {rem = rem} h s) f =
    ground (arith, nla_next-lt a rem h, find_loop_lem fuel t s)

-- nla_find returns the first attribute of the type that the walk visits, and NULL if there is none.
pub nla_find_lem :
    (t : ℕ) {head : Attr} {len : ℤ} {l : List Attr}
    → Stream head len l
    → nla_find head len t ≡ some (first_with t l)
unfolding nla_find
nla_find_lem t {len = len} s = find_loop_lem (suc (pos_part len)) t s (omega arith)
