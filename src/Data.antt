-- ===== src/Data.antt =====
-- lib/data.c: abstract data, a byte string with its size. Allocation is taken to succeed. A NULL
-- buffer is `none`.
pub mod Compare
use libnl.Prelude.{
  ℕ, ◌+◌, ◌-◌, ◌<◌, ◌≡◌, ◌↔◌, ◌⊎◌, refl, sym, ap, ◌∙◌, Bool, true, false, ◌&&◌, not, Option, none,
  some, List, [], ◌∷◌, ◌++◌, ltb, ◌==◌, if◌then◌else◌, length, take, replicate, arith,
}
use libnl.Prelude.Int.{ℤ, pos, negsuc, sub_ℕ}
use libnl.Errno.{Outcome, success}
use libnl.Attr.Payload.{memcmp}
use libnl.Build.{nla_put}
use libnl.Msg.Buffer.{NlMsg}

pub record NlData : Type 0 where
  pub d_size : ℕ
  pub d_data : List ℕ

-- The first `size` bytes of a buffer, or zeros.
abbrev filled : Option (List ℕ) → ℕ → List ℕ
filled none size = replicate size 0
filled (some buf) size = take size buf

unfoldable pub nl_data_alloc : Option (List ℕ) → ℕ → NlData
nl_data_alloc buf size = record { d_size = size; d_data = filled buf size }

unfoldable pub nl_data_clone : NlData → NlData
unfolding nl_data_alloc
nl_data_clone src = nl_data_alloc (some src.d_data) src.d_size

unfoldable pub nl_data_append : NlData → Option (List ℕ) → ℕ → Outcome × NlData
nl_data_append d buf size =
    if ltb 0 size
    then (success, record { d_size = d.d_size + size; d_data = d.d_data ++ filled buf size })
    else (success, d)

unfoldable pub nl_data_get : NlData → Option (List ℕ)
nl_data_get d = if ltb 0 d.d_size then some d.d_data else none

-- As many bytes are compared as the first has; behind the end of the second, the code reads on.
unfoldable pub nl_data_cmp : NlData → NlData → ℤ
nl_data_cmp a b = elim (nl_data_get a) [
  | none ↦ negsuc 0
  | some a' ↦ elim (nl_data_get b) [
    | none ↦ negsuc 0
    | some b' ↦ memcmp (take a.d_size a') (take a.d_size b')
  ]
]

unfoldable pub nla_put_data : NlMsg → ℕ → NlData → Outcome × NlMsg
nla_put_data msg attrtype d =
    nla_put msg attrtype (pos d.d_size) (elim (nl_data_get d) [ none ↦ [] | some buf ↦ buf ])
