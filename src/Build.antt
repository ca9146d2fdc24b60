-- ===== src/Build.antt =====
-- lib/attr.c, the writing half: attributes at the end of a message that is built. An attribute is
-- referred to by its offset from the message's header.
pub mod Put
pub mod Content
pub mod RoundTrip
pub mod Limits
pub mod Nest
pub mod Payload
pub mod Values
use Prim.Native.Nat.{bit_or}
use libnl.Prelude.{
  ℕ, ◌+◌, ◌-◌, ◌*◌, ◌/◌, ◌%◌, ◌^◌, Bool, true, false, ◌&&◌, ◌||◌, not, Option, none, some, List, [],
  ◌∷◌, ◌++◌, ltb, leb, ◌==◌, if◌then◌else◌, length, take, replicate,
}
use libnl.Prelude.Bytes.{align, to_bytes}
use libnl.Prelude.Int.{ℤ, pos, negsuc}
use libnl.Errno.{nomem, inval, attrsize, Outcome, success, error, bug}
use libnl.Attr.{nla_hdrlen, nla_attr_size, nla_total_size, nla_padlen}
use libnl.Msg.{nlmsg_tail, nlmsg_datalen, nlmsg_hdrlen}
use libnl.Msg.Buffer.{NlMsg, write_at, set_len, nlmsg_reserve}

-- nla->nla_type and nla->nla_len, as 16-bit fields.
abbrev pub nla_header : ℕ → ℕ → List ℕ
nla_header attrtype attrlen = to_bytes 2 (nla_attr_size attrlen) ++ to_bytes 2 attrtype

-- nla_reserve, for a length that is not negative. The zeros go behind the length as it was stored.
unfoldable pub reserve_attr : NlMsg → ℕ → ℕ → Option ℕ × NlMsg
unfolding write_at set_len
reserve_attr msg attrtype attrlen =
    let nla = nlmsg_tail msg.nm_nlh in
    let tlen = nla + nla_total_size attrlen in
    let headed = write_at msg nla (nla_header attrtype attrlen) in
    let stored = nla_attr_size attrlen % 2 ^ 16 in
    let cleared =
      if attrlen == 0
      then headed
      else write_at headed (nla + stored) (replicate (nla_padlen attrlen) 0) in
    if ltb msg.nm_size tlen then (none, msg) else (some nla, set_len cleared tlen)

unfoldable pub nla_reserve : NlMsg → ℕ → ℤ → Option ℕ × NlMsg
unfolding reserve_attr
nla_reserve msg attrtype (negsuc n) = (none, msg)
nla_reserve msg attrtype (pos n) = reserve_attr msg attrtype n

-- What nla_put does with the pointer that it got, for a length that is not negative.
put_payload : ℕ → List ℕ → Option ℕ × NlMsg → Outcome × NlMsg
unfolding write_at
put_payload datalen bytes (none, msg) = (error nomem, msg)
put_payload datalen bytes (some nla, msg) =
    (success, if ltb 0 datalen then write_at msg (nla + nla_hdrlen) (take datalen bytes) else msg)

unfoldable pub nla_put : NlMsg → ℕ → ℤ → List ℕ → Outcome × NlMsg
unfolding nla_reserve put_payload
nla_put msg attrtype (negsuc n) bytes = (error inval, msg)
nla_put msg attrtype (pos n) bytes = put_payload n bytes (nla_reserve msg attrtype (pos n))

-- nla_put_u8 … nla_put_u64 and their signed forms pass the w bytes of the value.
unfoldable pub nla_put_uint : ℕ → NlMsg → ℕ → ℕ → Outcome × NlMsg
unfolding nla_put
nla_put_uint w msg attrtype value = nla_put msg attrtype (pos w) (to_bytes w value)

-- The text is its characters with no NUL among them; the NUL behind them is put too.
unfoldable pub nla_put_string : NlMsg → ℕ → List ℕ → Outcome × NlMsg
unfolding nla_put
nla_put_string msg attrtype str = nla_put msg attrtype (pos (length str + 1)) (str ++ 0 ∷ [])

unfoldable pub nla_put_flag : NlMsg → ℕ → Outcome × NlMsg
unfolding nla_put
nla_put_flag msg attrtype = nla_put msg attrtype (pos 0) []

unfoldable pub nla_put_nested : NlMsg → ℕ → NlMsg → Outcome × NlMsg
unfolding nla_put
nla_put_nested msg attrtype nested =
    nla_put msg attrtype (nlmsg_datalen nested.nm_nlh) nested.nm_nlh.payload

abbrev pub nla_f_nested : ℕ
nla_f_nested = 2 ^ 15

started : ℕ → Outcome × NlMsg → Option ℕ × NlMsg
started start (success, msg) = (some start, msg)
started start (_, msg) = (none, msg)

unfoldable pub nla_nest_start : NlMsg → ℕ → Option ℕ × NlMsg
unfolding nla_put started
nla_nest_start msg attrtype =
    started (nlmsg_tail msg.nm_nlh) (nla_put msg (bit_or nla_f_nested attrtype) (pos 0) [])

-- BUG() where the attribute lies behind the end of the message. The tail is taken again after the
-- length was cut.
unfoldable pub nla_nest_cancel : NlMsg → ℕ → Outcome × NlMsg
unfolding write_at set_len
nla_nest_cancel msg attr =
    let tail = nlmsg_tail msg.nm_nlh in
    let len = tail - attr in
    let cut = set_len msg (msg.nm_nlh.nlmsg_len - len) in
    if ltb tail attr
    then (bug, msg)
    else if ltb 0 len
    then (success, write_at cut (nlmsg_tail cut.nm_nlh) (replicate len 0))
    else (success, msg)

-- The padding at the end of _nest_end may never fail: BUG() if it does.
padded_nest : Option ℕ × NlMsg → Outcome × NlMsg
padded_nest (none, msg) = (bug, msg)
padded_nest (some _, msg) = (success, msg)

-- The end of _nest_end: the length is stored, and the message padded.
close_nest : NlMsg → ℕ → ℕ → Outcome × NlMsg
unfolding write_at nlmsg_reserve padded_nest
close_nest msg start len =
    let stored = write_at msg start (to_bytes 2 len) in
    let pad = nlmsg_tail msg.nm_nlh - msg.nm_nlh.nlmsg_len in
    if ltb 0 pad then padded_nest (nlmsg_reserve stored pad 0) else (success, stored)

-- The code that _nest_end returns after it has cancelled the attribute.
cancelled : ℕ → Outcome × NlMsg → Outcome × NlMsg
cancelled len (success, msg) = (if len == nla_hdrlen then success else error attrsize, msg)
cancelled len (o, msg) = (o, msg)

-- _nest_end, for an attribute that does not lie behind the tail.
unfoldable pub nest_end : NlMsg → ℕ → Bool → Outcome × NlMsg
unfolding nla_nest_cancel close_nest cancelled
nest_end msg start keep_empty =
    let len = nlmsg_tail msg.nm_nlh - start in
    if ltb (2 ^ 16 - 1) len || (not keep_empty && len == nla_hdrlen)
    then cancelled len (nla_nest_cancel msg start)
    else close_nest msg start len

unfoldable pub nla_nest_end : NlMsg → ℕ → Outcome × NlMsg
unfolding nest_end
nla_nest_end msg start = nest_end msg start false

unfoldable pub nla_nest_end_keep_empty : NlMsg → ℕ → Outcome × NlMsg
unfolding nest_end
nla_nest_end_keep_empty msg start = nest_end msg start true
