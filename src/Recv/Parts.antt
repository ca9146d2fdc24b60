-- ===== src/Recv/Parts.antt =====
-- What recvmsgs does with one message of a dump: a part with NLM_F_MULTI, or the NLMSG_DONE at its end.
use libnl.Prelude.{ℕ, ◌+◌, ◌%◌, ◌^◌, ◌≡◌, ap, true, false, ◌||◌, none, some, List, [], ◌∷◌, arith}
use libnl.Prelude.Int.{ℤ, pos}
use libnl.Msg.{Nlmsghdr}
use libnl.Msg.Buffer.{NlMsg}
use libnl.Recv.{
  Cb, Socket, State, next, has_flag, is_control, nlmsg_done, valid, msg_in, seq_check, finish,
  received, handle_message, count_message, call_or, nl_cb_call, check_sequence, bump_sequence,
  note_multipart, note_interrupt, acknowledge, dispatch, pass, CbType, Step, flow_of,
}

-- A part of the dump that answers the request with the sequence number `seq`.
pub record IsPart (seq : ℕ) (hdr : Nlmsghdr) : Type 0 where
  pub same_seq : hdr.nlmsg_seq ≡ seq
  pub multi : has_flag hdr 1 ≡ true
  pub no_ack : has_flag hdr 2 ≡ false
  pub no_intr : has_flag hdr 4 ≡ false
  pub no_control : is_control hdr ≡ false

-- The end of the dump.
pub record IsDone (seq : ℕ) (hdr : Nlmsghdr) : Type 0 where
  pub end_seq : hdr.nlmsg_seq ≡ seq
  pub end_type : hdr.nlmsg_type ≡ nlmsg_done
  pub end_no_ack : has_flag hdr 2 ≡ false
  pub end_no_intr : has_flag hdr 4 ≡ false

-- Callbacks that leave the protocol to libnl: `f` takes the valid messages and returns NL_OK.
pub record IsReader {U : Type 0} (cb : Cb U) (f : NlMsg → U → ℤ × U) : Type 0 where
  pub on_valid : cb.cb_set valid ≡ some f
  pub on_msg_in : cb.cb_set msg_in ≡ none
  pub on_seq_check : cb.cb_set seq_check ≡ none
  pub on_finish : cb.cb_set finish ≡ none
  pub f_ok : (msg : NlMsg) (u : U) → (f msg u).0 ≡ pos 0

module _ {U : Type 0} (cb : Cb U) (sk : Socket) (f : NlMsg → U → ℤ × U) where
  -- The callback on one message after the other.
  unfoldable pub consume : List Nlmsghdr → U → U
  consume [] u = u
  consume (hdr ∷ l) u = consume l (f (received sk hdr) u).1

  pub call_or-none :
      (t : CbType) (msg : NlMsg) (o : Step U) (s : State U)
      → cb.cb_set t ≡ none
      → call_or cb t msg o s ≡ o s
  unfolding call_or
  call_or-none t msg o s e = rw (e, call_or)

  pub check_sequence-same :
      (hdr : Nlmsghdr) (msg : NlMsg) (s : State U)
      → cb.cb_set seq_check ≡ none
      → hdr.nlmsg_seq ≡ s.s_seq_expect
      → check_sequence cb sk hdr msg s ≡ (next, s)
  unfolding check_sequence
  check_sequence-same hdr msg s n e = ground (arith, call_or-none seq_check msg)

  pub bump_sequence-part :
      (hdr : Nlmsghdr) (s : State U)
      → is_control hdr ≡ false
      → bump_sequence cb sk hdr s ≡ (next, s)
  unfolding bump_sequence
  bump_sequence-part hdr s e = rw e

  pub note_multipart-part :
      (hdr : Nlmsghdr) (s : State U)
      → has_flag hdr 1 ≡ true
      → note_multipart cb sk hdr s ≡ (next, record s { multipart = true })
  unfolding note_multipart
  note_multipart-part hdr s e = rw e

  note_interrupt-none :
      (hdr : Nlmsghdr) (msg : NlMsg) (s : State U)
      → has_flag hdr 4 ≡ false
      → note_interrupt cb sk hdr msg s ≡ (next, s)
  unfolding note_interrupt
  note_interrupt-none hdr msg s e = rw e

  pub acknowledge-none :
      (hdr : Nlmsghdr) (msg : NlMsg) (s : State U)
      → has_flag hdr 2 ≡ false
      → acknowledge cb sk hdr msg s ≡ (next, s)
  unfolding acknowledge
  acknowledge-none hdr msg s e = rw e

  pub dispatch-valid :
      (hdr : Nlmsghdr) (msg : NlMsg) (s : State U)
      → IsReader cb f
      → is_control hdr ≡ false
      → dispatch cb sk hdr msg s ≡ (next, record s { user = (f msg s.user).1 })
  unfolding dispatch call_or nl_cb_call
  dispatch-valid hdr msg s r e =
      ground (arith, r.on_valid, r.f_ok msg s.user, ap flow_of (r.f_ok msg s.user))

  pub handle_message-IsPart :
      (hdr : Nlmsghdr) (s : State U)
      → IsReader cb f
      → IsPart s.s_seq_expect hdr
      → handle_message cb sk hdr s ≡ (
        next,
        record s { nrecv = s.nrecv + 1; multipart = true; user = (f (received sk hdr) s.user).1 },
      )
  unfolding handle_message count_message
  handle_message-IsPart hdr s r p =
      let msg = received sk hdr in
      let counted = record s { nrecv = s.nrecv + 1 } in
      let noted = record counted { multipart = true } in
      ground (
        arith,
        call_or-none msg_in msg pass counted r.on_msg_in,
        check_sequence-same hdr msg counted r.on_seq_check p.same_seq,
        bump_sequence-part hdr counted p.no_control,
        note_multipart-part hdr counted p.multi,
        note_interrupt-none hdr msg noted p.no_intr,
        acknowledge-none hdr msg noted p.no_ack,
        dispatch-valid hdr msg noted r p.no_control,
      )

  pub dispatch-done :
      (hdr : Nlmsghdr) (msg : NlMsg) (s : State U)
      → IsReader cb f
      → hdr.nlmsg_type ≡ nlmsg_done
      → dispatch cb sk hdr msg s ≡ (next, record s { multipart = false })
  unfolding dispatch call_or
  dispatch-done hdr msg s r e = ground (arith, r.on_finish)

  pub bump_sequence-done :
      (hdr : Nlmsghdr) (s : State U)
      → hdr.nlmsg_type ≡ nlmsg_done
      → bump_sequence cb sk hdr s
        ≡ (next, record s { s_seq_expect = (s.s_seq_expect + 1) % 2 ^ 32 })
  unfolding bump_sequence
  bump_sequence-done hdr s e = ground arith

  pub note_multipart-any :
      (hdr : Nlmsghdr) (s : State U)
      → note_multipart cb sk hdr s ≡ (next, record s { multipart = has_flag hdr 1 || s.multipart })
  unfolding note_multipart
  note_multipart-any hdr s = ground arith

  pub handle_message-IsDone :
      (hdr : Nlmsghdr) (s : State U)
      → IsReader cb f
      → IsDone s.s_seq_expect hdr
      → handle_message cb sk hdr s ≡ (
        next,
        record s {
          nrecv = s.nrecv + 1;
          s_seq_expect = (s.s_seq_expect + 1) % 2 ^ 32;
          multipart = false;
        },
      )
  unfolding handle_message count_message
  handle_message-IsDone hdr s r p =
      let msg = received sk hdr in
      let counted = record s { nrecv = s.nrecv + 1 } in
      let bumped = record counted { s_seq_expect = (s.s_seq_expect + 1) % 2 ^ 32 } in
      let noted = record bumped { multipart = has_flag hdr 1 || s.multipart } in
      ground (
        arith,
        call_or-none msg_in msg pass counted r.on_msg_in,
        check_sequence-same hdr msg counted r.on_seq_check p.end_seq,
        bump_sequence-done hdr counted p.end_type,
        note_multipart-any hdr bumped,
        note_interrupt-none hdr msg noted p.end_no_intr,
        acknowledge-none hdr msg noted p.end_no_ack,
        dispatch-done hdr msg noted r p.end_type,
      )
