-- ===== src/Addr.antt =====
-- lib/addr.c: abstract addresses. Allocation is taken to succeed, and a prefix length is not negative.
-- The bytes of an address are the `a_maxsize` ones that were allocated for it.
pub mod Compare
pub mod Carry
use Prim.Native.Nat.{bit_and}
use libnl.Prelude.{
  min, ℕ, zero, suc, ◌+◌, ◌-◌, ◌*◌, ◌/◌, ◌%◌, ◌^◌, Bool, true, false, ◌&&◌, ◌||◌, not, Option, none,
  some, List, [], ◌∷◌, ◌++◌, ltb, leb, ◌==◌, if◌then◌else◌, length, take, replicate,
}
use libnl.Prelude.Bytes.{byte_at}
use libnl.Prelude.Int.{plus, is_nonpos, ℤ, pos, negsuc, sub_ℕ, minus}
use libnl.Errno.{Outcome, success, error, range, inval}
use libnl.Attr.{Attr, nla_data, nla_len}
use libnl.Attr.Payload.{memcmp, to_size}
use libnl.Build.{nla_put}
use libnl.Msg.Buffer.{NlMsg}

-- The address families that the library treats in a way of their own.
abbrev pub af_unspec : ℕ
af_unspec = 0

abbrev pub af_inet : ℕ
af_inet = 2

abbrev pub af_bridge : ℕ
af_bridge = 7

abbrev pub af_inet6 : ℕ
af_inet6 = 10

abbrev pub af_llc : ℕ
af_llc = 26

abbrev pub af_mpls : ℕ
af_mpls = 28

pub record NlAddr : Type 0 where
  pub a_family : ℕ
  pub a_maxsize : ℕ
  pub a_len : ℕ
  pub a_prefixlen : ℕ
  pub a_refcnt : ℤ
  pub a_addr : List ℕ

unfoldable pub nl_addr_alloc : ℕ → NlAddr
nl_addr_alloc maxsize = record {
  a_family = 0;
  a_maxsize = maxsize;
  a_len = 0;
  a_prefixlen = 0;
  a_refcnt = pos 1;
  a_addr = replicate maxsize 0;
}

unfoldable pub nl_addr_build : ℕ → List ℕ → ℕ → NlAddr
unfolding nl_addr_alloc
nl_addr_build family buf size = record (nl_addr_alloc size) {
  a_family = family;
  a_len = size;
  a_prefixlen = if family == af_mpls then 20 else size * 8;
  a_addr = take size buf;
}

-- `a_len` is the length of the payload as an unsigned number.
unfoldable pub nl_addr_alloc_attr : Attr → ℕ → NlAddr
unfolding nl_addr_build
nl_addr_alloc_attr nla family = nl_addr_build family (nla_data nla) (to_size (nla_len nla))

unfoldable pub nl_addr_clone : NlAddr → NlAddr
unfolding nl_addr_build
nl_addr_clone addr = record (nl_addr_build addr.a_family addr.a_addr addr.a_len) {
  a_prefixlen = addr.a_prefixlen;
}

unfoldable pub nl_addr_get : NlAddr → NlAddr
nl_addr_get addr = record addr { a_refcnt = plus addr.a_refcnt 1 }

-- `none` is an address that was freed, or NULL.
unfoldable pub nl_addr_put : Option NlAddr → Option NlAddr
nl_addr_put none = none
nl_addr_put (some addr) = elim addr.a_refcnt [
  | pos (suc zero) ↦ none
  | n ↦ some (record addr { a_refcnt = minus n 1 })
]

unfoldable pub nl_addr_shared : NlAddr → Bool
nl_addr_shared addr = not (is_nonpos (minus addr.a_refcnt 1))

-- The comparison of two addresses that are there. As few bytes are compared as `a_len` says, and no
-- prefix lengths of empty addresses.
cmp_addr : NlAddr → NlAddr → ℤ
unfolding memcmp
cmp_addr a b =
    if a.a_family == b.a_family
    then if a.a_len == b.a_len
      then if ltb 0 a.a_len
        then elim (memcmp (take a.a_len a.a_addr) (take a.a_len b.a_addr)) [
          | pos zero ↦ sub_ℕ a.a_prefixlen b.a_prefixlen
          | d ↦ d
        ]
        else pos 0
      else sub_ℕ a.a_len b.a_len
    else sub_ℕ a.a_family b.a_family

-- Two pointers to the same address compare as 0, as any address does with one that equals it.
unfoldable pub nl_addr_cmp : Option NlAddr → Option NlAddr → ℤ
unfolding cmp_addr
nl_addr_cmp none none = pos 0
nl_addr_cmp none (some b) = negsuc 0
nl_addr_cmp (some a) none = pos 1
nl_addr_cmp (some a) (some b) = cmp_addr a b

-- `(0xFF00 >> n) & 0xFF`
abbrev pub prefix_mask : ℕ → ℕ
prefix_mask n = 0xFF00 / 2 ^ n % 256

unfoldable pub nl_addr_cmp_prefix : NlAddr → NlAddr → ℤ
unfolding memcmp
nl_addr_cmp_prefix a b =
    if a.a_family == b.a_family
    then (let len = min a.a_prefixlen b.a_prefixlen in
        let bytes = len / 8 in
        elim (memcmp (take bytes a.a_addr) (take bytes b.a_addr)) [
          | pos zero ↦
              if len % 8 == 0
              then pos 0
              else sub_ℕ (bit_and (byte_at a.a_addr bytes) (prefix_mask (len % 8)))
                  (bit_and (byte_at b.a_addr bytes) (prefix_mask (len % 8)))
          | d ↦ d
        ])
    else sub_ℕ a.a_family b.a_family

all_zero : List ℕ → Bool
all_zero [] = true
all_zero (b ∷ l) = if b == 0 then all_zero l else false

unfoldable pub nl_addr_iszero : NlAddr → Bool
unfolding all_zero
nl_addr_iszero addr = all_zero (take addr.a_len addr.a_addr)

unfoldable pub nl_addr_guess_family : NlAddr → ℕ
nl_addr_guess_family addr =
    if addr.a_len == 4
    then af_inet
    else if addr.a_len == 6
    then af_llc
    else if addr.a_len == 16
    then af_inet6
    else af_unspec

unfoldable pub nl_addr_set_binary_addr : NlAddr → List ℕ → ℕ → Outcome × NlAddr
nl_addr_set_binary_addr addr buf len = if ltb addr.a_maxsize len then (error range, addr) else (
  success,
  record addr { a_len = len; a_addr = take len buf ++ replicate (addr.a_maxsize - len) 0 },
)

abbrev pub nl_addr_set_prefixlen : NlAddr → ℕ → NlAddr
nl_addr_set_prefixlen addr prefixlen = record addr { a_prefixlen = prefixlen }

-- What nl_addr_fill_sockaddr leaves in a struct sockaddr_in or sockaddr_in6 and in `salen`.
fill_sock : NlAddr → ℕ → ℕ → ℕ → Outcome × Option (ℕ × List ℕ) × ℕ
fill_sock addr size bytes salen =
    if ltb salen size
    then (error inval, none, salen)
    else if addr.a_len == bytes
    then (success, some (addr.a_family, take bytes addr.a_addr), size)
    else if addr.a_len == 0
    then (success, some (addr.a_family, replicate bytes 0), size)
    else (error inval, none, salen)

unfoldable pub nl_addr_fill_sockaddr : NlAddr → ℕ → Outcome × Option (ℕ × List ℕ) × ℕ
unfolding fill_sock
nl_addr_fill_sockaddr addr salen =
    if addr.a_family == af_inet
    then fill_sock addr 16 4 salen
    else if addr.a_family == af_inet6
    then fill_sock addr 28 16 salen
    else (error inval, none, salen)

unfoldable pub nla_put_addr : NlMsg → ℕ → NlAddr → Outcome × NlMsg
nla_put_addr msg attrtype addr = nla_put msg attrtype (pos addr.a_len) (take addr.a_len addr.a_addr)
