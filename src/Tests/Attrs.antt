-- ===== src/Tests/Attrs.antt =====
-- The parsing half of lib/attr.c at concrete bytes.
use libnl.Prelude.{ℕ, ◌≤◌, ◌≡◌, refl, List, [], ◌∷◌, none, some, arith, drop, get_or}
use mathlib.Core.Option
use libnl.Prelude.Int.{pos}
use libnl.Errno.{success, error, range}
use libnl.Attr.{
  Policy, Table, nla_ok, nla_next, nla_type, nla_parse, nla_validate, validate_nla, validate_if,
}
use libnl.Attr.Stream.{Stream, stop, visit}
use libnl.Attr.Parse.{last_with, verdict, good_prefix, check, nla_parse_lem, nla_validate-eq-parse}
use libnl.Attr.Bounds.{InBounds, nla_parse-InBounds}
use libnl.Tests.{two_attrs}

-- Type 1 must have two bytes: the u8 is refused.
abbrev strict : List Policy
strict =
    record { type = 0; minlen = 0; maxlen = 0 } ∷ record { type = 2; minlen = 0; maxlen = 0 } ∷ []

two_attrs-Stream : Stream two_attrs (pos 14) (two_attrs ∷ drop 8 two_attrs ∷ [])
unfolding nla_ok nla_next
two_attrs-Stream = visit refl (visit refl (stop refl))

parse_runs :
    Option.map (λ r. r.0) (nla_parse 2 two_attrs (pos 14) (some strict)) ≡ some (error range)
unfolding nla_parse nla_ok nla_next nla_type validate_nla validate_if
parse_runs = refl

nla_parse_lem_example :
    (tb : Table) × (nla_parse 2 two_attrs (pos 14) (some strict)
      ≡ some (verdict (check 2 (some strict)) (two_attrs ∷ drop 8 two_attrs ∷ []), tb))
    × ((t : ℕ)
        → t ≤ 2
        → get_or tb t none
          ≡ last_with t (good_prefix (check 2 (some strict)) (two_attrs ∷ drop 8 two_attrs ∷ [])))
nla_parse_lem_example = nla_parse_lem 2 (some strict) two_attrs-Stream

nla_validate-eq-parse_example :
    (nla_validate two_attrs (pos 14) 2 strict
      ≡ some (verdict (check 2 (some strict)) (two_attrs ∷ drop 8 two_attrs ∷ [])))
    × (Option.map (λ r. r.0) (nla_parse 2 two_attrs (pos 14) (some strict))
        ≡ nla_validate two_attrs (pos 14) 2 strict)
nla_validate-eq-parse_example = nla_validate-eq-parse 2 strict two_attrs-Stream

abbrev parsed : Table
parsed = none ∷ some two_attrs ∷ some (drop 8 two_attrs) ∷ []

parse_two : nla_parse 2 two_attrs (pos 14) none ≡ some (success, parsed)
unfolding nla_parse nla_ok nla_next nla_type validate_if
parse_two = refl

nla_parse-InBounds_example : InBounds two_attrs 14 (drop 8 two_attrs)
nla_parse-InBounds_example = nla_parse-InBounds 2 none two_attrs 14 2 parse_two (omega arith) refl
