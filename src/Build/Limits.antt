-- ===== src/Build/Limits.antt =====
-- Payloads that the 16-bit length of an attribute cannot hold.
use libnl.Prelude.{
  [], replicate, splice_nothing, ℕ, ◌+◌, ◌-◌, ◌%◌, ◌^◌, ◌≤◌, ◌<◌, ◌≡◌, refl, ap, List, length, drop,
  arith, take-length, ◌++◌, splice, splice-splice_after, drop-splice, length-append,
}
use libnl.Prelude.Int.{pos}
use libnl.Errno.{success}
use libnl.Attr.{nla_padlen, len_field, nla_total_size}
use libnl.Msg.{nlmsg_tail}
use libnl.Msg.Buffer.{NlMsg}
use libnl.Msg.Buffer.Valid.{IsValid}
use libnl.Build.{nla_header, nla_put}

no_padding : (n : ℕ) → n % 4 ≡ 0 → replicate {A = ℕ} (nla_padlen n) 0 ≡ []
no_padding n h = ap (λ z. replicate z 0) (let e : nla_padlen n ≡ 0 = omega arith in e)

-- A payload of more than 65531 bytes that needs no padding and fits into the memory is accepted by
-- nla_put, but the length stored in its header is the remainder of the size of the attribute modulo
-- 65536, which is smaller than the size.
pub nla_put_wraps :
    {m : NlMsg} (t : ℕ) (d : List ℕ)
    → IsValid m
    → 65531 < length d
    → length d % 4 ≡ 0
    → nlmsg_tail m.nm_nlh + nla_total_size (length d) ≤ m.nm_size
    → (m' : NlMsg) × (nla_put m t (pos (length d)) d ≡ (success, m'))
      × (len_field (drop (nlmsg_tail m.nm_nlh - 16) m'.nm_nlh.payload) ≡ (4 + length d) % 2 ^ 16)
      × ((4 + length d) % 2 ^ 16 < 4 + length d)
unfolding nla_put
nla_put_wraps {m} t d v big aligned room =
    let p = m.nm_nlh.payload in
    let n = length d in
    let i = nlmsg_tail m.nm_nlh - 16 in
    let bytes : List ℕ = nla_header t n ++ d in
    let written =
      drop-splice p i (i + (4 + n)) bytes (omega (arith, length-append (nla_header t n) d))
        (omega arith) in
    (
      record m {
        nm_nlh = record (m.nm_nlh) {
          nlmsg_len = nlmsg_tail m.nm_nlh + nla_total_size n;
          payload = splice p i bytes;
        };
      },
      ground (
        arith,
        no_padding n aligned,
        take-length n d refl,
        splice_nothing (splice p i (nla_header t n)) (nlmsg_tail m.nm_nlh + (4 + n) % 2 ^ 16 - 16),
        splice-splice_after p i (nlmsg_tail m.nm_nlh + 4 - 16) (nla_header t n) d (omega arith),
      ),
      rw written (omega arith),
      omega arith,
    )
