-- ===== src/Send/Complete.antt =====
-- What nl_complete_msg makes of a message.
use libnl.Prelude.{ℕ, ◌+◌, ◌%◌, ◌^◌, ◌≡◌, ◌≢◌, refl, ◌||◌, ◌&&◌, not, ◌==◌, if◌then◌else◌, arith}
use libnl.Prelude.Word.{bit, set_bit, bit-set_bit}
use libnl.Msg.Buffer.{NlMsg}
use libnl.Socket.{PortMap, nl_socket_get_local_port}
use libnl.Socket.Life.{local_port-nonzero}
use libnl.Send.{
  SendSock, nl_socket_use_seq, complete_pid, complete_seq, complete_flags, nl_complete_msg,
}

complete_pid_lem :
    (sk : SendSock) (pid : ℕ) (m : PortMap) (getpid time : ℕ)
    → let (pid', sk', m') = complete_pid sk pid m getpid time in
      (pid' ≢ 0)
      × (pid' ≡ (if pid == 0 then (nl_socket_get_local_port sk.ports m getpid time).0 else pid))
      × (sk'.s_seq_next ≡ sk.s_seq_next)
unfolding complete_pid
complete_pid_lem sk pid m getpid time = ground (arith, local_port-nonzero sk.ports m getpid time)

complete_seq_lem :
    (sk : SendSock) (seq : ℕ)
    → let (seq', sk') = complete_seq sk seq in
      (seq' ≡ (if seq == 0 then sk.s_seq_next else seq))
      × (sk'.s_seq_next ≡ (if seq == 0 then (sk.s_seq_next + 1) % 2 ^ 32 else sk.s_seq_next))
unfolding complete_seq nl_socket_use_seq
complete_seq_lem sk seq = ground arith

complete_flags_lem :
    (sk : SendSock) (flags n : ℕ)
    → bit (complete_flags sk flags) n ≡ (n == 0 || (n == 2 && not sk.no_auto_ack || bit flags n))
unfolding complete_flags
complete_flags_lem sk flags n =
    ground (arith, bit-set_bit flags 0 n, bit-set_bit (set_bit flags 0) 2 n)

-- nl_complete_msg changes no message but in its header: the port is not 0 afterwards: it is that of
-- the message if it had one, else that of the socket; the sequence number is that of the message, or the next of the socket,
-- which counts on; the flags have NLM_F_REQUEST, and NLM_F_ACK unless automatic acknowledgement is
-- off, and the others as before; the length and the payload stay.
pub nl_complete_msg_lem :
    (sk : SendSock) (msg : NlMsg) (m : PortMap) (getpid time : ℕ)
    → let (sk', msg', m') = nl_complete_msg sk msg m getpid time in
      (msg'.nm_nlh.nlmsg_pid ≢ 0)
      × (msg'.nm_nlh.nlmsg_pid ≡ (
          if msg.nm_nlh.nlmsg_pid == 0
          then (nl_socket_get_local_port sk.ports m getpid time).0
          else msg.nm_nlh.nlmsg_pid))
      × (msg'.nm_nlh.nlmsg_seq
          ≡ (if msg.nm_nlh.nlmsg_seq == 0 then sk.s_seq_next else msg.nm_nlh.nlmsg_seq))
      × (sk'.s_seq_next
          ≡ (if msg.nm_nlh.nlmsg_seq == 0 then (sk.s_seq_next + 1) % 2 ^ 32 else sk.s_seq_next))
      × ((n : ℕ)
          → bit msg'.nm_nlh.nlmsg_flags n
            ≡ (n == 0 || (n == 2 && not sk.no_auto_ack || bit msg.nm_nlh.nlmsg_flags n)))
      × (msg'.nm_nlh.nlmsg_len ≡ msg.nm_nlh.nlmsg_len)
      × (msg'.nm_nlh.payload ≡ msg.nm_nlh.payload)
unfolding nl_complete_msg
nl_complete_msg_lem sk msg m getpid time =
    let (nonzero, port, next) = complete_pid_lem sk msg.nm_nlh.nlmsg_pid m getpid time in
    let (seq, count) =
      complete_seq_lem (complete_pid sk msg.nm_nlh.nlmsg_pid m getpid time).1
        msg.nm_nlh.nlmsg_seq in
    (
      nonzero,
      port,
      ground (arith, seq, next),
      ground (arith, count, next),
      λ n. complete_flags_lem sk msg.nm_nlh.nlmsg_flags n,
      refl,
      refl,
    )
