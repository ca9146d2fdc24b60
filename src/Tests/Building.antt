-- ===== src/Tests/Building.antt =====
-- The writing half of lib/attr.c at a concrete message.
use mathlib.Core.Option
use libnl.Prelude.{
  take, drop, ◌<◌, ℕ, ◌+◌, ◌^◌, ◌≤◌, ◌<◌, ◌≡◌, ◌⊎◌, refl, List, [], ◌∷◌, none, some, arith, true,
  false, length, replicate, map, get_or,
}
use libnl.Prelude.Int.{pos, negsuc}
use libnl.Errno.{success, error, inval, nomem, attrsize}
use libnl.Attr.{Table}
use libnl.Msg.{nlmsg_parse}
use libnl.Msg.Buffer.{NlMsg, nlmsg_alloc_size, nlmsg_put}
use libnl.Msg.Buffer.Valid.{IsValid}
use libnl.Build.{nla_put, nla_nest_cancel, nest_end}
use libnl.Build.Put.{no_room, Enters, nla_put_lem}
use libnl.Build.Content.{Item, Holds, plain, item_at, encodes}
use libnl.Build.RoundTrip.{last_item, put_all, build_parse}
use libnl.Build.Nest.{place_behind, nla_nest_cancel_len, nest_end_lem}
use libnl.Tests.{sample}

abbrev held : List Item
held = (3, 7 ∷ 8 ∷ 9 ∷ []) ∷ []

sample-IsValid : IsValid sample
sample-IsValid = omega arith

abbrev more : List Item
more = (1, 5 ∷ []) ∷ (2, []) ∷ []

nla_put_lem_example :
    ((n : ℕ) → nla_put sample 1 (negsuc n) (5 ∷ []) ≡ (error inval, sample))
    × (((no_room sample 1 ≡ true) × (nla_put sample 1 (pos 1) (5 ∷ []) ≡ (error nomem, sample)))
        ⊎ ((no_room sample 1 ≡ false)
            × ((m' : NlMsg) × (nla_put sample 1 (pos 1) (5 ∷ []) ≡ (success, m'))
                × Enters sample 1 (5 ∷ []) m')))
nla_put_lem_example = nla_put_lem 1 (5 ∷ []) sample-IsValid (omega arith)

build_parse_example :
    (m m' : NlMsg) × (nlmsg_put (nlmsg_alloc_size 64) 0 1 16 4 1 ≡ (success, m))
    × (put_all m more ≡ (success, m'))
    × ((tb' : Table) × (nlmsg_parse m'.nm_nlh 4 2 none [] ≡ some (success, tb'))
        × ((t : ℕ) → t ≤ 2 → Option.map item_at (get_or tb' t none) ≡ last_item t (map plain more)))
unfolding encodes
build_parse_example = build_parse 64 0 1 16 4 1 2 more [] (omega arith) (omega arith) (omega arith)

-- A message that ends at 27, with the attribute at 20.
abbrev unaligned : NlMsg
unaligned = record sample { nm_nlh = record (sample.nm_nlh) { nlmsg_len = 27 } }

nla_nest_cancel_len_example :
    (m' : NlMsg) × (nla_nest_cancel unaligned 20 ≡ (success, m'))
    × (m'.nm_nlh.nlmsg_len + 1 ≡ 20)
    × (m'.nm_nlh.nlmsg_len < 20)
    × (take 4 m'.nm_nlh.payload ≡ 2 ∷ 0 ∷ 0 ∷ 0 ∷ [])
    × (take 8 (drop 4 m'.nm_nlh.payload) ≡ replicate 8 0)
nla_nest_cancel_len_example =
    nla_nest_cancel_len 20 (omega arith) (λ h. absurd (omega (arith, h))) (omega arith) refl
      (omega arith) (omega arith)

-- An opened attribute of type 3 with one attribute of type 1 in it.
abbrev nested : NlMsg
nested = record sample {
  nm_nlh = record (sample.nm_nlh) {
    nlmsg_len = 32;
    payload = 2 ∷ 0 ∷ 0 ∷ 0 ∷ 4 ∷ 0 ∷ 3 ∷ 128 ∷ 5 ∷ 0 ∷ 1 ∷ 0 ∷ 5 ∷ 0 ∷ 0 ∷ 0 ∷ replicate 32 0;
  };
}

abbrev inner : List Item
inner = (1, 5 ∷ []) ∷ []

nested-Holds : Holds nested 4 ((2 ^ 15 + 3, []) ∷ inner)
unfolding encodes
nested-Holds = record { valid = omega arith; rest = replicate 32 0; content = refl; extent = refl }

nest_end_lem_example :
    let (o, m') = nest_end nested (place_behind 4 []) false in
    ((65535 < 4 + length (encodes inner)) × (o ≡ error attrsize) × Holds m' 4 [])
    ⊎ ((4 + length (encodes inner) ≤ 65535)
        × (((false ≡ false) × (length (encodes inner) ≡ 0) × (o ≡ success) × Holds m' 4 [])
            ⊎ (((false ≡ true) ⊎ (0 < length (encodes inner)))
                × (o ≡ success)
                × Holds m' 4 ((2 ^ 15 + 3, encodes inner) ∷ []))))
nest_end_lem_example = nest_end_lem 4 (2 ^ 15 + 3) [] inner nested-Holds false
