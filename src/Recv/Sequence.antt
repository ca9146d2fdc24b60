-- ===== src/Recv/Sequence.antt =====
-- The check of sequence numbers in recvmsgs, at a message with another number.
use libnl.Prelude.{length, ℕ, ◌+◌, ◌≡◌, ◌≢◌, true, false, none, some, List, ◌∷◌, arith}
use libnl.Prelude.Int.{ℤ, pos}
use libnl.Errno.{code, neg_code, seq_mismatch}
use libnl.Msg.{hdr_at, nlmsg_ok, Nlmsghdr}
use libnl.Recv.{
  received, Cb, Socket, State, out, handle_message, count_message, call_or, check_sequence, invalid,
  seq_check, msg_in, recvmsgs, leave, read_loop,
}

module _ {U : Type 0} (cb : Cb U) (sk : Socket) where
  check_sequence-differs :
      (hdr : Nlmsghdr) (s : State U)
      → cb.cb_set seq_check ≡ none
      → cb.cb_set invalid ≡ none
      → sk.no_auto_ack ≡ false
      → hdr.nlmsg_seq ≢ s.s_seq_expect
      → check_sequence cb sk hdr (received sk hdr) s ≡ (out (neg_code seq_mismatch), s)
  unfolding check_sequence call_or
  check_sequence-differs hdr s c i a d = ground (arith, c, i, a, d)

  handle_message-differs :
      (hdr : Nlmsghdr) (s : State U)
      → cb.cb_set msg_in ≡ none
      → cb.cb_set seq_check ≡ none
      → cb.cb_set invalid ≡ none
      → sk.no_auto_ack ≡ false
      → hdr.nlmsg_seq ≢ s.s_seq_expect
      → handle_message cb sk hdr s ≡ (out (neg_code seq_mismatch), record s { nrecv = s.nrecv + 1 })
  unfolding handle_message count_message call_or
  handle_message-differs hdr s m c i a d =
      ground (arith, m, check_sequence-differs hdr (record s { nrecv = s.nrecv + 1 }) c i a d)

  -- With automatic acknowledgement, and no callback for sequence numbers, invalid messages or all
  -- messages, a message whose sequence number is not the expected one ends the reading: recvmsgs
  -- returns NLE_SEQ_MISMATCH, and neither the state of the callbacks nor the expected number changes.
  -- The message is the first of a datagram, and no dump was interrupted before it.
  pub recvmsgs-differs :
      (b : ℕ) (buf : List ℕ) (bufs : List (List ℕ)) (last : ℤ) (s : State U)
      → cb.cb_set msg_in ≡ none
      → cb.cb_set seq_check ≡ none
      → cb.cb_set invalid ≡ none
      → sk.no_auto_ack ≡ false
      → s.interrupted ≡ false
      → nlmsg_ok (hdr_at (b ∷ buf)) (pos (length (b ∷ buf))) ≡ true
      → (hdr_at (b ∷ buf)).nlmsg_seq ≢ s.s_seq_expect
      → recvmsgs cb sk ((b ∷ buf) ∷ bufs) last s
        ≡ some (neg_code seq_mismatch, record s { nrecv = s.nrecv + 1 })
  unfolding recvmsgs read_loop leave code
  recvmsgs-differs b buf bufs last s m c i a q ok d =
      ground (arith, handle_message-differs (hdr_at (b ∷ buf)) s m c i a d)
