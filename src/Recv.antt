-- ===== src/Recv.antt =====
-- lib/nl.c: recvmsgs, the loop that reads messages from a socket and hands them to callbacks. The
-- state of the callbacks is of an arbitrary type; what the socket will deliver is a list of
-- datagrams, and a number that the read returns when there is none left.
pub mod Stream
pub mod Refine
pub mod Parts
pub mod Dump
pub mod Pieces
pub mod Interrupted
pub mod Sequence
use libnl.Prelude.{
  ℕ, zero, suc, ◌+◌, ◌-◌, ◌/◌, ◌%◌, ◌^◌, Bool, true, false, not, ◌&&◌, ◌||◌, Option, none, some,
  List, [], ◌∷◌, ltb, ◌==◌, if◌then◌else◌, length,
}
use libnl.Prelude.Bytes.{of_bytes}
use libnl.Prelude.Int.{ℤ, pos, negsuc, is_neg}
use libnl.Errno.{Errno, seq_mismatch, msg_overflow, msg_trunc, nl_syserr2nlerr, neg_code}
use libnl.Msg.{Nlmsghdr, hdr_at, nlmsg_ok, nlmsg_next, nlmsg_size}
use libnl.Msg.Buffer.{NlMsg, SockaddrNl, Ucred, nlmsg_convert, nlmsg_set_creds}

-- enum nl_cb_type
pub data CbType : Type 0 where
  valid finish overrun skipped ack msg_in msg_out invalid seq_check send_ack dump_intr : CbType

-- The callbacks of struct nl_cb; `none` is a NULL pointer. The error callback is given the bytes of
-- the struct nlmsgerr.
pub record Cb (U : Type 0) : Type 0 where
  pub cb_set : CbType → Option (NlMsg → U → ℤ × U)
  pub cb_err : Option (List ℕ → U → ℤ × U)

-- What recvmsgs reads of the socket, and the sender and its credentials, which are those of every
-- datagram.
pub record Socket : Type 0 where
  pub s_proto : ℤ
  pub no_auto_ack : Bool
  pub source : SockaddrNl
  pub creds : Option Ucred

-- The variables of recvmsgs, `s_seq_expect` of the socket, and the state of the callbacks.
pub record State (U : Type 0) : Type 0 where
  pub s_seq_expect : ℕ
  pub multipart : Bool
  pub interrupted : Bool
  pub nrecv : ℕ
  pub user : U

-- Where control goes: on, to `skip`, to `stop`, or to `out` with `err` set.
pub data Flow : Type 0 where
  next skip stop : Flow
  out : ℤ → Flow

abbrev pub Step : Type 0 → Type 0
Step U = State U → Flow × State U

infixr 5 ◌>>>◌
abbrev pub ◌>>>◌ : {U : Type 0} → Step U → Step U → Step U
◌>>>◌ a b s = let (f, s') = a s in elim f [ next ↦ b s' | g ↦ (g, s') ]

abbrev pub pass : {U : Type 0} → Step U
pass s = (next, s)

abbrev pub fail : {U : Type 0} → Errno → Step U
fail e s = (out (neg_code e), s)

-- The switch of NL_CB_CALL: NL_OK, NL_SKIP, NL_STOP, any other.
abbrev pub flow_of : ℤ → Flow
flow_of (pos zero) = next
flow_of (pos (suc zero)) = skip
flow_of (pos (suc (suc zero))) = stop
flow_of r = out r

unfoldable pub nl_cb_call : {U : Type 0} → (NlMsg → U → ℤ × U) → NlMsg → Step U
nl_cb_call f msg s = let (r, u) = f msg s.user in (flow_of r, record s { user = u })

-- `if (cb->cb_set[type]) NL_CB_CALL(…); else …`
unfoldable pub call_or : {U : Type 0} → Cb U → CbType → NlMsg → Step U → Step U
unfolding nl_cb_call
call_or cb type msg otherwise s = elim (cb.cb_set type) [
  | none ↦ otherwise s
  | some f ↦ nl_cb_call f msg s
]

abbrev pub nlmsg_noop : ℕ
nlmsg_noop = 1

abbrev pub nlmsg_error : ℕ
nlmsg_error = 2

abbrev pub nlmsg_done : ℕ
nlmsg_done = 3

abbrev pub nlmsg_overrun : ℕ
nlmsg_overrun = 4

-- NLM_F_MULTI, NLM_F_ACK and NLM_F_DUMP_INTR are bits 1, 2 and 4.
abbrev pub has_flag : Nlmsghdr → ℕ → Bool
has_flag hdr bit = hdr.nlmsg_flags / 2 ^ bit % 2 == 1

abbrev pub is_control : Nlmsghdr → Bool
is_control hdr =
    hdr.nlmsg_type == nlmsg_done
    || (hdr.nlmsg_type == nlmsg_error
        || (hdr.nlmsg_type == nlmsg_noop || hdr.nlmsg_type == nlmsg_overrun))

-- The copy of the message that the callbacks are given.
unfoldable pub received : Socket → Nlmsghdr → NlMsg
received sk hdr =
    let msg = record (nlmsg_convert hdr) { nm_protocol = sk.s_proto; nm_src = sk.source } in
    elim sk.creds [ none ↦ msg | some creds ↦ nlmsg_set_creds msg creds ]

-- `e->error`, the int at the start of a struct nlmsgerr, which has 20 bytes.
abbrev pub sizeof_nlmsgerr : ℕ
sizeof_nlmsgerr = 20

unfoldable pub nlmsgerr_error : Nlmsghdr → ℤ
nlmsgerr_error hdr =
    let w = of_bytes 4 hdr.payload in if ltb w (2 ^ 31) then pos w else negsuc (2 ^ 32 - 1 - w)

-- From `out` on.
unfoldable pub leave : {U : Type 0} → ℤ → State U → ℤ × State U
leave err s =
    if s.interrupted
    then (neg_code Errno.dump_intr, s)
    else elim err [ pos zero ↦ (pos s.nrecv, s) | e ↦ (e, s) ]

module _ {U : Type 0} (cb : Cb U) (sk : Socket) where
  unfoldable pub count_message : Step U
  count_message s = (next, record s { nrecv = s.nrecv + 1 })

  unfoldable pub check_sequence : Nlmsghdr → NlMsg → Step U
  unfolding call_or
  check_sequence hdr msg = call_or cb seq_check msg λ s.
      if not sk.no_auto_ack && not (hdr.nlmsg_seq == s.s_seq_expect)
      then call_or cb invalid msg (fail seq_mismatch) s
      else (next, s)

  unfoldable pub bump_sequence : Nlmsghdr → Step U
  bump_sequence hdr s =
      if is_control hdr
      then (next, record s { s_seq_expect = (s.s_seq_expect + 1) % 2 ^ 32 })
      else (next, s)

  unfoldable pub note_multipart : Nlmsghdr → Step U
  note_multipart hdr s = if has_flag hdr 1 then (next, record s { multipart = true }) else (next, s)

  unfoldable pub note_interrupt : Nlmsghdr → NlMsg → Step U
  unfolding call_or
  note_interrupt hdr msg s =
      if has_flag hdr 4
      then call_or cb CbType.dump_intr msg (λ t. (next, record t { interrupted = true })) s
      else (next, s)

  unfoldable pub acknowledge : Nlmsghdr → NlMsg → Step U
  unfolding call_or
  acknowledge hdr msg s = if has_flag hdr 2 then call_or cb send_ack msg pass s else (next, s)

  -- What the error callback's result leads to: only negative results, NL_SKIP and NL_STOP matter.
  unfoldable pub after_error : Nlmsghdr → ℤ → Flow
  after_error hdr (negsuc n) = out (negsuc n)
  after_error hdr (pos (suc zero)) = skip
  after_error hdr (pos (suc (suc zero))) = out (neg_code (nl_syserr2nlerr (nlmsgerr_error hdr)))
  after_error hdr (pos n) = next

  unfoldable pub handle_error : Nlmsghdr → NlMsg → Step U
  unfolding call_or after_error
  handle_error hdr msg s =
      if ltb hdr.nlmsg_len (nlmsg_size sizeof_nlmsgerr)
      then call_or cb invalid msg (fail msg_trunc) s
      else elim (nlmsgerr_error hdr) [
        | pos zero ↦ call_or cb ack msg pass s
        | _ ↦ elim cb.cb_err [
          | none ↦ (out (neg_code (nl_syserr2nlerr (nlmsgerr_error hdr))), s)
          | some f ↦ let (r, u) = f hdr.payload s.user in (after_error hdr r, record s { user = u })
        ]
      ]

  unfoldable pub dispatch : Nlmsghdr → NlMsg → Step U
  unfolding call_or handle_error
  dispatch hdr msg s =
      if hdr.nlmsg_type == nlmsg_done
      then call_or cb finish msg pass (record s { multipart = false })
      else if hdr.nlmsg_type == nlmsg_noop
      then call_or cb skipped msg (λ t. (skip, t)) s
      else if hdr.nlmsg_type == nlmsg_overrun
      then call_or cb overrun msg (fail msg_overflow) s
      else if hdr.nlmsg_type == nlmsg_error
      then handle_error hdr msg s
      else call_or cb valid msg pass s

  -- The body of the while loop.
  unfoldable pub handle_message : Nlmsghdr → Step U
  unfolding count_message call_or check_sequence bump_sequence note_multipart note_interrupt
      acknowledge dispatch
  handle_message hdr =
      let msg = received sk hdr in
      count_message
      >>> call_or cb msg_in msg pass
      >>> check_sequence hdr msg
      >>> bump_sequence hdr
      >>> note_multipart hdr
      >>> note_interrupt hdr msg
      >>> acknowledge hdr msg
      >>> dispatch hdr msg

  -- `while (nlmsg_ok(hdr, n))`; the outer `none` means that the fuel ran out.
  unfoldable pub read_loop : ℕ → Nlmsghdr → ℤ → State U → Option (Flow × State U)
  read_loop zero hdr n s = none
  read_loop (suc fuel) hdr n s =
      let (hdr', n') = nlmsg_next hdr n in
      let (f, s') = handle_message hdr s in
      let rest = read_loop fuel hdr' n' s' in
      if nlmsg_ok hdr n
      then elim f [ next ↦ rest | skip ↦ rest | g ↦ some (g, s') ]
      else some (next, s)

  -- From `continue_reading` on. A read of no bytes returns at once, as one that fails does.
  unfoldable pub recvmsgs : List (List ℕ) → ℤ → State U → Option (ℤ × State U)
  unfolding read_loop leave
  recvmsgs [] last s = some (last, s)
  recvmsgs ([] ∷ datagrams) last s = some (pos 0, s)
  recvmsgs ((b ∷ buf) ∷ datagrams) last s =
      elim (read_loop (suc (length (b ∷ buf))) (hdr_at (b ∷ buf)) (pos (length (b ∷ buf))) s) [
        | none ↦ none
        | some (f, s') ↦ elim f [
          | out e ↦ some (leave e s')
          | stop ↦ some (leave (pos 0) s')
          | _ ↦ if s'.multipart then recvmsgs datagrams last s' else some (leave (pos 0) s')
        ]
      ]

-- The variables at the start of recvmsgs.
abbrev pub start : {U : Type 0} → ℕ → U → State U
start seq u = record {
  s_seq_expect = seq;
  multipart = false;
  interrupted = false;
  nrecv = 0;
  user = u;
}

-- nl_recvmsgs returns 0 for a number of messages.
unfoldable pub nl_recvmsgs_result : ℤ → ℤ
nl_recvmsgs_result (pos n) = pos 0
nl_recvmsgs_result (negsuc n) = negsuc n
