-- ===== src/Tests/Receiving.antt =====
-- recvmsgs on a dump of two parts in two datagrams, with one callback that adds up the types.
use libnl.Prelude.{
  true, replicate, ℕ, ◌+◌, ◌≡◌, refl, false, Option, none, some, List, [], ◌∷◌, length, arith,
}
use libnl.Prelude.Int.{ℤ, pos}
use libnl.Errno.{neg_code, seq_mismatch}
use libnl.Msg.{hdr_at, nlmsg_ok, nlmsg_next}
use libnl.Msg.Buffer.{NlMsg, no_addr}
use libnl.Recv.{State, Cb, Socket, CbType, valid, start, recvmsgs}
use libnl.Recv.Stream.{Messages, done, visit}
use libnl.Recv.Refine.{Reads, nothing, datagram}
use libnl.Recv.Parts.{consume, IsReader, IsPart, IsDone}
use libnl.Recv.Dump.{Dump, final, more, after_dump, recvmsgs-Dump}
use libnl.Socket.{PortMap}
use libnl.Send.{complete_pid, SendSock, nl_complete_msg, complete_seq, nl_socket_use_seq}
use libnl.Send.Sync.{recvmsgs-nl_complete_msg}
use libnl.Tests.{sample}
use libnl.Recv.Sequence.{recvmsgs-differs}

abbrev pub add_type : NlMsg → ℕ → ℤ × ℕ
add_type msg u = (pos 0, u + msg.nm_nlh.nlmsg_type)

abbrev set_valid : CbType → Option (NlMsg → ℕ → ℤ × ℕ)
set_valid valid = some add_type
set_valid t = none

abbrev pub cb : Cb ℕ
cb = record { cb_set = set_valid; cb_err = none }

abbrev pub sk : Socket
sk = record { s_proto = pos 0; no_auto_ack = false; source = no_addr; creds = none }

pub cb-IsReader : IsReader cb add_type
cb-IsReader = record {
  on_valid = refl;
  on_msg_in = refl;
  on_seq_check = refl;
  on_finish = refl;
  f_ok = λ msg u. refl;
}

-- A message of type 16 with NLM_F_MULTI and sequence number 7, and no payload.
abbrev part_bytes : List ℕ
part_bytes = 16 ∷ 0 ∷ 0 ∷ 0 ∷ 16 ∷ 0 ∷ 2 ∷ 0 ∷ 7 ∷ 0 ∷ 0 ∷ 0 ∷ 0 ∷ 0 ∷ 0 ∷ 0 ∷ []

-- NLMSG_DONE with the same sequence number.
abbrev pub done_bytes : List ℕ
done_bytes = 16 ∷ 0 ∷ 0 ∷ 0 ∷ 3 ∷ 0 ∷ 2 ∷ 0 ∷ 7 ∷ 0 ∷ 0 ∷ 0 ∷ 0 ∷ 0 ∷ 0 ∷ 0 ∷ []

part-Messages : Messages (hdr_at part_bytes) (pos (length part_bytes)) (hdr_at part_bytes ∷ [])
unfolding nlmsg_ok nlmsg_next
part-Messages = visit refl (done refl)

pub done-Messages : Messages (hdr_at done_bytes) (pos (length done_bytes)) (hdr_at done_bytes ∷ [])
unfolding nlmsg_ok nlmsg_next
done-Messages = visit refl (done refl)

two-Reads :
    Reads (part_bytes ∷ done_bytes ∷ []) ((hdr_at part_bytes ∷ []) ∷ (hdr_at done_bytes ∷ []) ∷ [])
two-Reads = datagram part-Messages (datagram done-Messages nothing)

answer-IsPart : IsPart 7 (hdr_at part_bytes)
unfolding hdr_at
answer-IsPart = record {
  same_seq = refl;
  multi = refl;
  no_ack = refl;
  no_intr = refl;
  no_control = refl;
}

end-IsDone : IsDone 7 (hdr_at done_bytes)
unfolding hdr_at
end-IsDone = record { end_seq = refl; end_type = refl; end_no_ack = refl; end_no_intr = refl }

two-Dump :
    Dump 7 ((hdr_at part_bytes ∷ []) ∷ (hdr_at done_bytes ∷ []) ∷ []) (hdr_at part_bytes ∷ [])
two-Dump = more {hs = []} (answer-IsPart, tt) (final {l = []} tt end-IsDone)

recvmsgs-Dump_example :
    recvmsgs cb sk (part_bytes ∷ done_bytes ∷ []) (pos 0) (start 7 0)
    ≡ some (pos 2, after_dump cb sk add_type (hdr_at part_bytes ∷ []) (start 7 0))
recvmsgs-Dump_example =
    recvmsgs-Dump cb sk add_type (pos 0) (start 7 0) cb-IsReader two-Reads two-Dump refl

-- The same dump when the request had the sequence number 8.
recvmsgs-differs_example :
    recvmsgs cb sk (part_bytes ∷ []) (pos 0) (start 8 0)
    ≡ some (neg_code seq_mismatch, record (start 8 0) { nrecv = 1 })
unfolding nlmsg_ok hdr_at
recvmsgs-differs_example =
    recvmsgs-differs cb sk 16 (0 ∷ 0 ∷ 0 ∷ 16 ∷ 0 ∷ 2 ∷ 0 ∷ 7 ∷ 0 ∷ 0 ∷ 0 ∷ 0 ∷ 0 ∷ 0 ∷ 0 ∷ []) []
      (pos 0) (start 8 0) refl refl refl refl refl refl (omega arith)

abbrev client : SendSock
client = record {
  ports = record { local_pid = 0; own_port = true };
  s_proto = pos 0;
  s_seq_next = 7;
  s_seq_expect = 7;
  no_auto_ack = false;
}

abbrev no_ports : PortMap
no_ports = record { used_ports_map = replicate 32 0; idx_state = 1 }

answer-Dump :
    Dump
      (nl_complete_msg client sample no_ports 5 0).1.nm_nlh.nlmsg_seq
      ((hdr_at part_bytes ∷ []) ∷ (hdr_at done_bytes ∷ []) ∷ [])
      (hdr_at part_bytes ∷ [])
unfolding nl_complete_msg complete_seq nl_socket_use_seq complete_pid
answer-Dump = two-Dump

recvmsgs-nl_complete_msg_example :
    (s' : State ℕ) × (recvmsgs cb sk (part_bytes ∷ done_bytes ∷ []) (pos 0) (start 7 0)
      ≡ some (pos 2, s'))
    × (s'.user ≡ consume cb sk add_type (hdr_at part_bytes ∷ []) 0)
    × (s'.s_seq_expect ≡ (nl_complete_msg client sample no_ports 5 0).0.s_seq_next)
recvmsgs-nl_complete_msg_example =
    recvmsgs-nl_complete_msg cb sk add_type client sample no_ports 5 0 (pos 0) 0 cb-IsReader refl
      refl two-Reads answer-Dump
