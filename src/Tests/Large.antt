-- ===== src/Tests/Large.antt =====
-- A payload that is too large for the length field of an attribute.
use libnl.Prelude.{
  ◌^◌, ℕ, ◌+◌, ◌-◌, ◌<◌, ◌≡◌, refl, List, arith, length, drop, replicate, length-replicate, sym,
  ◌%◌, ◌≤◌,
}
use mathlib.Core.Path.{subst}
use libnl.Prelude.Bytes.{align}
use libnl.Prelude.Int.{pos}
use libnl.Errno.{success}
use libnl.Attr.{len_field, nla_total_size}
use libnl.Msg.Buffer.{NlMsg, nlmsg_alloc_size}
use libnl.Msg.Buffer.Valid.{nlmsg_alloc_size-IsValid}
use libnl.Build.{nla_put}
use libnl.Build.Limits.{nla_put_wraps}

abbrev large : NlMsg
large = nlmsg_alloc_size 70000

fits : align large.nm_nlh.nlmsg_len + nla_total_size 65532 ≤ large.nm_size
unfolding nlmsg_alloc_size
fits = omega arith

abbrev zeros : List ℕ
zeros = replicate 65532 0

length-zeros : 65532 ≡ length zeros
length-zeros = sym (length-replicate {A = ℕ} 65532 0)

nla_put_wraps_example :
    (m' : NlMsg) × (nla_put large 1 (pos (length zeros)) zeros ≡ (success, m'))
    × (len_field (drop (align large.nm_nlh.nlmsg_len - 16) m'.nm_nlh.payload)
        ≡ (4 + length zeros) % 2 ^ 16)
    × ((4 + length zeros) % 2 ^ 16 < 4 + length zeros)
nla_put_wraps_example =
    nla_put_wraps 1 zeros (nlmsg_alloc_size-IsValid 70000 (omega arith)).0
      (subst (λ n. 65531 < n) length-zeros (omega arith)) (subst (λ n. n % 4 ≡ 0) length-zeros refl)
      (subst (λ n. align large.nm_nlh.nlmsg_len + nla_total_size n ≤ large.nm_size) length-zeros
        fits)
