-- ===== src/Msg.antt =====
-- lib/msg.c: netlink messages. A pointer to a struct nlmsghdr is its five fields and the bytes
-- behind them, up to the end of the memory; a place in a message is an offset from its header.
pub mod Buffer
use mathlib.Core.Option
use Prim.Native.Nat.{bit_and}
use libnl.Prelude.{
  ℕ, zero, suc, ◌+◌, ◌-◌, ◌*◌, ◌/◌, ◌%◌, ◌^◌, Bool, true, false, ◌&&◌, ◌||◌, Option, none, some,
  List, [], ◌∷◌, ltb, leb, ◌==◌, if◌then◌else◌, length, get_or, set, take, drop, replicate, min,
  max, splice,
}
use libnl.Prelude.Bytes.{align, of_bytes}
use libnl.Prelude.Int.{ℤ, pos, negsuc, minus, leb_int}
use libnl.Errno.{Errno, nomem, inval, msg_tooshort, Outcome, success, error, bug}
use libnl.Attr.{Attr, Policy, Table, nla_parse, nla_find, nla_validate}

abbrev pub nlmsg_alignto : ℕ
nlmsg_alignto = 4

abbrev pub nlmsg_hdrlen : ℕ
nlmsg_hdrlen = 16

pub record Nlmsghdr : Type 0 where
  pub nlmsg_len : ℕ
  pub nlmsg_type : ℕ
  pub nlmsg_flags : ℕ
  pub nlmsg_seq : ℕ
  pub nlmsg_pid : ℕ
  pub payload : List ℕ

-- The header that stands at a pointer.
unfoldable pub hdr_at : List ℕ → Nlmsghdr
hdr_at p = record {
  nlmsg_len = of_bytes 4 p;
  nlmsg_type = of_bytes 2 (drop 4 p);
  nlmsg_flags = of_bytes 2 (drop 6 p);
  nlmsg_seq = of_bytes 4 (drop 8 p);
  nlmsg_pid = of_bytes 4 (drop 12 p);
  payload = drop 16 p;
}

abbrev pub nlmsg_size : ℕ → ℕ
nlmsg_size payload = nlmsg_hdrlen + payload

abbrev pub nlmsg_total_size : ℕ → ℕ
nlmsg_total_size payload = align (nlmsg_size payload)

abbrev pub nlmsg_padlen : ℕ → ℕ
nlmsg_padlen payload = nlmsg_total_size payload - nlmsg_size payload

-- The offset that the pointer stands for.
abbrev pub nlmsg_tail : Nlmsghdr → ℕ
nlmsg_tail nlh = align nlh.nlmsg_len

abbrev pub nlmsg_datalen : Nlmsghdr → ℤ
nlmsg_datalen nlh = minus (pos nlh.nlmsg_len) nlmsg_hdrlen

unfoldable pub nlmsg_attrdata : Nlmsghdr → ℕ → Attr
nlmsg_attrdata nlh hdrlen = drop (align hdrlen) nlh.payload

-- max_t(int, …, 0) cuts a negative length to 0.
unfoldable pub nlmsg_attrlen : Nlmsghdr → ℕ → ℕ
nlmsg_attrlen nlh hdrlen = nlh.nlmsg_len - nlmsg_hdrlen - align hdrlen

unfoldable pub nlmsg_valid_hdr : Nlmsghdr → ℕ → Bool
nlmsg_valid_hdr nlh hdrlen = if ltb nlh.nlmsg_len (nlmsg_size hdrlen) then false else true

unfoldable pub nlmsg_ok : Nlmsghdr → ℤ → Bool
nlmsg_ok nlh remaining =
    leb_int nlmsg_hdrlen remaining
    && (leb nlmsg_hdrlen nlh.nlmsg_len && leb_int nlh.nlmsg_len remaining)

-- The next message, behind a header whose length is at least its own size.
unfoldable pub nlmsg_next : Nlmsghdr → ℤ → Nlmsghdr × ℤ
unfolding hdr_at
nlmsg_next nlh remaining =
    let totlen = align nlh.nlmsg_len in
    (hdr_at (drop (totlen - nlmsg_hdrlen) nlh.payload), minus remaining totlen)

unfoldable pub nlmsg_parse :
    Nlmsghdr → ℕ → ℕ → Option (List Policy) → Table → Option (Outcome × Table)
unfolding nlmsg_valid_hdr nlmsg_attrdata nlmsg_attrlen
nlmsg_parse nlh hdrlen maxtype policy tb =
    if nlmsg_valid_hdr nlh hdrlen
    then nla_parse maxtype (nlmsg_attrdata nlh hdrlen) (pos (nlmsg_attrlen nlh hdrlen)) policy
    else some (error msg_tooshort, tb)

unfoldable pub nlmsg_find_attr : Nlmsghdr → ℕ → ℕ → Option (Option Attr)
unfolding nlmsg_attrdata nlmsg_attrlen
nlmsg_find_attr nlh hdrlen attrtype =
    nla_find (nlmsg_attrdata nlh hdrlen) (pos (nlmsg_attrlen nlh hdrlen)) attrtype

unfoldable pub nlmsg_validate : Nlmsghdr → ℕ → ℕ → List Policy → Option Outcome
unfolding nlmsg_valid_hdr nlmsg_attrdata nlmsg_attrlen
nlmsg_validate nlh hdrlen maxtype policy =
    if nlmsg_valid_hdr nlh hdrlen
    then nla_validate (nlmsg_attrdata nlh hdrlen) (pos (nlmsg_attrlen nlh hdrlen)) maxtype policy
    else some (error msg_tooshort)
