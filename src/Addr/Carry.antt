-- ===== src/Addr/Carry.antt =====
-- An address that is put into a message and read back.
use libnl.Attr.Payload.{to_size}
use libnl.Prelude.{
  take-length, subst, ℕ, ◌+◌, ◌*◌, ◌^◌, ◌<◌, ◌≤◌, ◌≡◌, refl, sym, ap, ◌∙◌, none, some, List, map,
  ◌==◌, if◌then◌else◌, length, take, take-append_eq, inr, arith,
}
use libnl.Prelude.Int.{pos}
use libnl.Errno.{success}
use libnl.Attr.{Attr, nla_total_size, nla_data, nla_len}
use libnl.Msg.{nlmsg_find_attr}
use libnl.Msg.Buffer.{NlMsg}
use libnl.Build.{nla_put}
use libnl.Build.Content.{Item, Holds, Fits, Carries, plain}
use libnl.Build.RoundTrip.{first_item}
use libnl.Build.Values.{nla_put-find}
use libnl.Addr.{
  nl_addr_alloc, NlAddr, af_mpls, nl_addr_cmp, nl_addr_build, nl_addr_alloc_attr, nla_put_addr,
}
use libnl.Addr.Compare.{IsAddr, Same, bytes_of, nl_addr_cmp_lem}

alloc_attr-Same :
    (addr : NlAddr) (nla : Attr)
    → IsAddr addr
    → addr.a_prefixlen ≡ (if addr.a_family == af_mpls then 20 else addr.a_len * 8)
    → Carries nla (take addr.a_len addr.a_addr)
    → IsAddr (nl_addr_alloc_attr nla addr.a_family)
      × Same (nl_addr_alloc_attr nla addr.a_family) addr
unfolding nl_addr_alloc_attr nl_addr_build nl_addr_alloc
alloc_attr-Same addr nla v prefix (rest, len, bytes) =
    let d = take addr.a_len addr.a_addr in
    let size : length d ≡ addr.a_len = bytes_of addr v in
    let n : to_size (nla_len nla) ≡ addr.a_len = ap to_size len ∙ size in
    let whole : take (to_size (nla_len nla)) (nla_data nla) ≡ d =
      ap (λ k. take k (nla_data nla)) n
      ∙ ap (take addr.a_len) bytes
      ∙ take-append_eq addr.a_len d rest (sym size) in
    (
      (omega arith, ap length whole ∙ size ∙ sym n),
      record {
        family = refl;
        len = n;
        bytes =
            ap (take (to_size (nla_len nla))) whole
            ∙ take-length (to_size (nla_len nla)) d (n ∙ sym size);
        prefix = inr (ap (λ k. if addr.a_family == af_mpls then 20 else k * 8) n ∙ sym prefix);
      },
    )

-- An address that is put for a type that the message does not hold yet is read back by
-- nl_addr_alloc_attr with the same family from what nlmsg_find_attr returns for the type: the two
-- compare as 0. The message holds well-formed attributes and has room for one more; the address is
-- well formed and has the prefix length of a whole address, which an attribute does not carry.
pub nl_addr_alloc_attr-put :
    {m : NlMsg} {h : ℕ} {l : List Item} (t : ℕ) (addr : NlAddr)
    → Holds m h l
    → Fits l
    → first_item t (map plain l) ≡ none
    → t < 2 ^ 14
    → IsAddr addr
    → addr.a_len ≤ 65531
    → addr.a_prefixlen ≡ (if addr.a_family == af_mpls then 20 else addr.a_len * 8)
    → m.nm_nlh.nlmsg_len + nla_total_size addr.a_len ≤ m.nm_size
    → (m' : NlMsg) × (nla_put_addr m t addr ≡ (success, m'))
      × ((nla : Attr) × (nlmsg_find_attr m'.nm_nlh h t ≡ some (some nla))
          × (nl_addr_cmp (some (nl_addr_alloc_attr nla addr.a_family)) (some addr) ≡ pos 0))
unfolding nla_put_addr
nl_addr_alloc_attr-put {m} t addr was f new small v short prefix room =
    let d = take addr.a_len addr.a_addr in
    let size : length d ≡ addr.a_len = bytes_of addr v in
    let (m', run, (nla, found, c)) =
      nla_put-find t d was f new small (omega (arith, size))
        (subst (λ k. m.nm_nlh.nlmsg_len + nla_total_size k ≤ m.nm_size) (sym size) room) in
    let (va, same) = alloc_attr-Same addr nla v prefix c in
    (
      m',
      ap (λ k. nla_put m t (pos k) d) (sym size) ∙ run,
      (
        nla,
        found,
        (nl_addr_cmp_lem (some (nl_addr_alloc_attr nla addr.a_family)) (some addr) va v).1 same,
      ),
    )
