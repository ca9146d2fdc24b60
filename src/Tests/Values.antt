-- ===== src/Tests/Values.antt =====
-- A number put into a concrete message and read back.
use libnl.Prelude.{ℕ, ◌≡◌, refl, List, [], ◌∷◌, some, arith, replicate}
use libnl.Errno.{success}
use libnl.Attr.{Attr}
use libnl.Attr.Payload.{nla_get_uint}
use libnl.Msg.{nlmsg_find_attr}
use libnl.Msg.Buffer.{NlMsg}
use libnl.Build.{nla_put_uint}
use libnl.Build.Content.{Item, Holds, encodes}
use libnl.Build.Values.{nla_get_uint-put}
use libnl.Tests.{sample}

abbrev pub held : List Item
held = (3, 7 ∷ 8 ∷ 9 ∷ []) ∷ []

pub values-Holds : Holds sample 4 held
unfolding encodes
values-Holds = record { valid = omega arith; rest = replicate 36 0; content = refl; extent = refl }

nla_get_uint-put_example :
    (m' : NlMsg) × (nla_put_uint 4 sample 1 123456 ≡ (success, m'))
    × ((nla : Attr) × (nlmsg_find_attr m'.nm_nlh 4 1 ≡ some (some nla))
        × (nla_get_uint 4 nla ≡ 123456))
nla_get_uint-put_example =
    nla_get_uint-put 4 1 123456 values-Holds (omega arith) refl (omega arith) (omega arith)
      (omega arith) (omega arith)

abbrev answer : List ℕ
answer = 42 ∷ []

abbrev other : List ℕ
other = 43 ∷ []
