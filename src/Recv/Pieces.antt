-- ===== src/Recv/Pieces.antt =====
-- What recvmsgs does with one message of a dump, whether or not it has the flag NLM_F_DUMP_INTR.
use libnl.Prelude.{ℕ, ◌+◌, ◌%◌, ◌^◌, ◌≡◌, true, false, ◌||◌, none, arith}
use libnl.Prelude.Int.{ℤ}
use libnl.Msg.{Nlmsghdr}
use libnl.Msg.Buffer.{NlMsg}
use libnl.Recv.{
  Cb, Socket, State, next, received, has_flag, is_control, nlmsg_done, msg_in, pass, CbType,
  handle_message, count_message, note_interrupt,
}
use libnl.Recv.Parts.{
  IsReader, call_or-none, check_sequence-same, bump_sequence-part, note_multipart-part,
  acknowledge-none, dispatch-valid, bump_sequence-done, note_multipart-any, dispatch-done,
}

-- A part of the dump, and its end, whether or not they have the flag.
pub record IsPiece (seq : ℕ) (hdr : Nlmsghdr) : Type 0 where
  pub same_seq : hdr.nlmsg_seq ≡ seq
  pub multi : has_flag hdr 1 ≡ true
  pub no_ack : has_flag hdr 2 ≡ false
  pub no_control : is_control hdr ≡ false

pub record IsEnd (seq : ℕ) (hdr : Nlmsghdr) : Type 0 where
  pub end_seq : hdr.nlmsg_seq ≡ seq
  pub end_type : hdr.nlmsg_type ≡ nlmsg_done
  pub end_no_ack : has_flag hdr 2 ≡ false

module _ {U : Type 0} (cb : Cb U) (sk : Socket) (f : NlMsg → U → ℤ × U) (reader : IsReader cb f)
    (quiet : cb.cb_set CbType.dump_intr ≡ none) where
  note_interrupt-any :
      (hdr : Nlmsghdr) (msg : NlMsg) (s : State U)
      → note_interrupt cb sk hdr msg s
        ≡ (next, record s { interrupted = has_flag hdr 4 || s.interrupted })
  unfolding note_interrupt
  note_interrupt-any hdr msg s = ground (
    arith,
    call_or-none cb sk f CbType.dump_intr msg (λ t. (next, record t { interrupted = true })) s
        quiet,
  )

  pub handle_message-IsPiece :
      (hdr : Nlmsghdr) (s : State U)
      → IsPiece s.s_seq_expect hdr
      → handle_message cb sk hdr s ≡ (
        next,
        record s {
          nrecv = s.nrecv + 1;
          multipart = true;
          interrupted = has_flag hdr 4 || s.interrupted;
          user = (f (received sk hdr) s.user).1;
        },
      )
  unfolding handle_message count_message
  handle_message-IsPiece hdr s p =
      let msg = received sk hdr in
      let counted = record s { nrecv = s.nrecv + 1 } in
      let noted = record counted { multipart = true } in
      let told = record noted { interrupted = has_flag hdr 4 || s.interrupted } in
      ground (
        arith,
        call_or-none cb sk f msg_in msg pass counted reader.on_msg_in,
        check_sequence-same cb sk f hdr msg counted reader.on_seq_check p.same_seq,
        bump_sequence-part cb sk f hdr counted p.no_control,
        note_multipart-part cb sk f hdr counted p.multi,
        note_interrupt-any hdr msg noted,
        acknowledge-none cb sk f hdr msg told p.no_ack,
        dispatch-valid cb sk f hdr msg told reader p.no_control,
      )

  pub handle_message-IsEnd :
      (hdr : Nlmsghdr) (s : State U)
      → IsEnd s.s_seq_expect hdr
      → handle_message cb sk hdr s ≡ (
        next,
        record s {
          nrecv = s.nrecv + 1;
          s_seq_expect = (s.s_seq_expect + 1) % 2 ^ 32;
          multipart = false;
          interrupted = has_flag hdr 4 || s.interrupted;
        },
      )
  unfolding handle_message count_message
  handle_message-IsEnd hdr s p =
      let msg = received sk hdr in
      let counted = record s { nrecv = s.nrecv + 1 } in
      let bumped = record counted { s_seq_expect = (s.s_seq_expect + 1) % 2 ^ 32 } in
      let noted = record bumped { multipart = has_flag hdr 1 || s.multipart } in
      let told = record noted { interrupted = has_flag hdr 4 || s.interrupted } in
      ground (
        arith,
        call_or-none cb sk f msg_in msg pass counted reader.on_msg_in,
        check_sequence-same cb sk f hdr msg counted reader.on_seq_check p.end_seq,
        bump_sequence-done cb sk f hdr counted p.end_type,
        note_multipart-any cb sk f hdr bumped,
        note_interrupt-any hdr msg noted,
        acknowledge-none cb sk f hdr msg told p.end_no_ack,
        dispatch-done cb sk f hdr msg told reader p.end_type,
      )
