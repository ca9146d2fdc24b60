-- ===== src/Msg/Buffer.antt =====
-- lib/msg.c: struct nl_msg, a message that is built in memory of its own. Sums of sizes are taken
-- without wrap-around: the memory of a message is far below 2 ^ 31 bytes.
pub mod Valid
pub mod Append
use Prim.Native.Nat.{bit_and, bit_or}
use libnl.Prelude.{
  ℕ, ◌+◌, ◌-◌, ◌*◌, ◌/◌, ◌%◌, ◌^◌, Bool, true, false, Option, none, some, List, ltb, leb, ◌==◌,
  if◌then◌else◌, length, take, replicate, max, splice, ◌++◌,
}
use libnl.Prelude.Int.{is_nonpos, plus, is_neg, ℤ, pos, negsuc, minus}
use libnl.Errno.{nomem, inval, Outcome, success, error, bug}
use libnl.Msg.{Nlmsghdr, nlmsg_hdrlen, nlmsg_alignto, nlmsg_total_size, hdr_at}
use libnl.Prelude.Bytes.{align, of_bytes}

-- struct sockaddr_nl
pub record SockaddrNl : Type 0 where
  pub nl_family : ℕ
  pub nl_pid : ℕ
  pub nl_groups : ℕ

-- struct ucred
pub record Ucred : Type 0 where
  pub pid : ℕ
  pub uid : ℕ
  pub gid : ℕ

pub record NlMsg : Type 0 where
  pub nm_protocol : ℤ
  pub nm_flags : ℕ
  pub nm_src : SockaddrNl
  pub nm_dst : SockaddrNl
  pub nm_creds : Ucred
  pub nm_nlh : Nlmsghdr
  pub nm_size : ℕ
  pub nm_refcnt : ℤ

-- What calloc leaves in the address and credential fields.
abbrev pub no_addr : SockaddrNl
no_addr = record { nl_family = 0; nl_pid = 0; nl_groups = 0 }

abbrev pub no_creds : Ucred
no_creds = record { pid = 0; uid = 0; gid = 0 }

abbrev pub fresh_hdr : ℕ → Nlmsghdr
fresh_hdr len = record {
  nlmsg_len = nlmsg_total_size 0;
  nlmsg_type = 0;
  nlmsg_flags = 0;
  nlmsg_seq = 0;
  nlmsg_pid = 0;
  payload = replicate (len - nlmsg_hdrlen) 0;
}

-- __nlmsg_alloc when both allocations succeed.
unfoldable pub nlmsg_alloc_size : ℕ → NlMsg
nlmsg_alloc_size len =
    let size = max len nlmsg_hdrlen in
    record {
      nm_protocol = negsuc 0;
      nm_flags = 0;
      nm_src = no_addr;
      nm_dst = no_addr;
      nm_creds = no_creds;
      nm_nlh = fresh_hdr size;
      nm_size = size;
      nm_refcnt = pos 1;
    }

-- nlmsg_set_default_size: the new `default_msg_size`.
unfoldable pub nlmsg_set_default_size : ℕ → ℕ
nlmsg_set_default_size size = if ltb size (nlmsg_total_size 0) then nlmsg_total_size 0 else size

-- The first argument is `default_msg_size`.
unfoldable pub nlmsg_inherit : ℕ → Option Nlmsghdr → NlMsg
unfolding nlmsg_alloc_size
nlmsg_inherit size none = nlmsg_alloc_size size
nlmsg_inherit size (some hdr) =
    let nm = nlmsg_alloc_size size in
    record nm {
      nm_nlh = record (nm.nm_nlh) {
        nlmsg_type = hdr.nlmsg_type;
        nlmsg_flags = hdr.nlmsg_flags;
        nlmsg_seq = hdr.nlmsg_seq;
        nlmsg_pid = hdr.nlmsg_pid;
      };
    }

-- NL_AUTO_SEQ and NL_AUTO_PID are 0.
unfoldable pub nlmsg_alloc_simple : ℕ → ℕ → ℕ → NlMsg
unfolding nlmsg_inherit
nlmsg_alloc_simple size nlmsgtype flags = nlmsg_inherit size (
    some (record {
      nlmsg_len = 0;
      nlmsg_type = nlmsgtype % 2 ^ 16;
      nlmsg_flags = flags % 2 ^ 16;
      nlmsg_seq = 0;
      nlmsg_pid = 0;
      payload = List.[];
    }))

-- nlmsg_convert of a header whose length is at least its own size: the memcpy brings in the fields
-- and the bytes up to the length.
unfoldable pub nlmsg_convert : Nlmsghdr → NlMsg
unfolding nlmsg_alloc_size
nlmsg_convert hdr =
    let nm = nlmsg_alloc_size (align hdr.nlmsg_len) in
    record nm {
      nm_nlh = record hdr {
        payload = splice nm.nm_nlh.payload 0 (take (hdr.nlmsg_len - nlmsg_hdrlen) hdr.payload);
      };
    }

-- A write of bytes at an offset behind the header.
unfoldable pub write_at : NlMsg → ℕ → List ℕ → NlMsg
write_at m offset bytes = record m {
  nm_nlh = record (m.nm_nlh) { payload = splice m.nm_nlh.payload (offset - nlmsg_hdrlen) bytes };
}

unfoldable pub set_len : NlMsg → ℕ → NlMsg
set_len m len = record m { nm_nlh = record (m.nm_nlh) { nlmsg_len = len % 2 ^ 32 } }

-- `pad ? ((len + (pad - 1)) & ~(pad - 1)) : len`; the bits of `x & ~m` are those of x that are not
-- in `x & m`.
unfoldable pub padded : ℕ → ℕ → ℕ
padded len pad = if pad == 0 then len else let x = len + (pad - 1) in x - bit_and x (pad - 1)

-- The offset of the reserved bytes, or NULL.
unfoldable pub nlmsg_reserve : NlMsg → ℕ → ℕ → Option ℕ × NlMsg
unfolding write_at set_len
nlmsg_reserve n len pad =
    let offset = n.nm_nlh.nlmsg_len in
    let tlen = padded len pad in
    if ltb n.nm_size len then (none, n) else if ltb n.nm_size (tlen + offset) then (none, n) else (
      some offset,
      write_at (set_len n (offset + tlen)) (offset + len) (replicate (tlen - len) 0),
    )

-- The memcpy of nlmsg_append, or its error.
copied : List ℕ → ℕ → Option ℕ × NlMsg → Outcome × NlMsg
unfolding write_at
copied bytes len (none, n) = (error nomem, n)
copied bytes len (some offset, n) = (success, write_at n offset (take len bytes))

unfoldable pub nlmsg_append : NlMsg → List ℕ → ℕ → ℕ → Outcome × NlMsg
unfolding nlmsg_reserve copied
nlmsg_append n bytes len pad = copied bytes len (nlmsg_reserve n len pad)

-- The bytes that realloc adds are not determined: they are an argument.
unfoldable pub nlmsg_expand : NlMsg → ℕ → List ℕ → Outcome × NlMsg
nlmsg_expand n newlen fresh = if leb newlen n.nm_size then (error inval, n) else (
  success,
  record n {
    nm_size = newlen;
    nm_nlh = record (n.nm_nlh) { payload = n.nm_nlh.payload ++ take (newlen - n.nm_size) fresh };
  },
)

-- The fields of the header that nlmsg_put sets.
abbrev pub with_header : NlMsg → ℕ → ℕ → ℕ → ℕ → NlMsg
with_header n pid seq type flags = record n {
  nm_nlh = record (n.nm_nlh) {
    nlmsg_type = type % 2 ^ 16;
    nlmsg_flags = flags % 2 ^ 16;
    nlmsg_pid = pid;
    nlmsg_seq = seq;
  };
}

unfoldable pub reserved : Option ℕ × NlMsg → Outcome × NlMsg
reserved (none, n) = (error nomem, n)
reserved (some _, n) = (success, n)

-- A result of NULL is `error nomem` here; BUG() stops.
unfoldable pub nlmsg_put : NlMsg → ℕ → ℕ → ℕ → ℕ → ℕ → Outcome × NlMsg
unfolding nlmsg_reserve reserved
nlmsg_put n pid seq type payload flags =
    let n' = with_header n pid seq type flags in
    if ltb n.nm_nlh.nlmsg_len nlmsg_hdrlen
    then (bug, n)
    else if ltb 0 payload
    then reserved (nlmsg_reserve n' payload nlmsg_alignto)
    else (success, n')

unfoldable pub nlmsg_get : NlMsg → NlMsg
nlmsg_get msg = record msg { nm_refcnt = plus msg.nm_refcnt 1 }

-- What is left of an object after a reference to it was given back.
pub data Release {ℓ} (A : Type ℓ) : Type ℓ where
  kept : A → Release A
  freed : Release A
  misused : Release A

unfoldable pub nlmsg_free : NlMsg → Release NlMsg
nlmsg_free msg =
    let count = minus msg.nm_refcnt 1 in
    if is_neg count
    then misused
    else if is_nonpos count
    then freed
    else kept (record msg { nm_refcnt = count })

-- NL_MSG_CRED_PRESENT is bit 0 of `nm_flags`.
unfoldable pub nlmsg_set_creds : NlMsg → Ucred → NlMsg
nlmsg_set_creds msg creds = record msg { nm_creds = creds; nm_flags = bit_or msg.nm_flags 1 }

unfoldable pub nlmsg_get_creds : NlMsg → Option Ucred
nlmsg_get_creds msg = if bit_and msg.nm_flags 1 == 0 then none else some msg.nm_creds
