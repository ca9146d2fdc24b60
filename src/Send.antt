-- ===== src/Send.antt =====
-- lib/nl.c: nl_complete_msg, which fills in what the sender of a message left open, and
-- nl_socket_use_seq of lib/socket.c.
pub mod Complete
pub mod Sync
use libnl.Prelude.{zero, ℕ, ◌+◌, ◌%◌, ◌^◌, Bool, true, false, ◌==◌, if◌then◌else◌}
use libnl.Prelude.Int.{ℤ, pos, negsuc}
use libnl.Prelude.Word.{set_bit}
use libnl.Msg.Buffer.{NlMsg}
use libnl.Socket.{PortMap, PortSock, nl_socket_get_local_port}

-- The fields of struct nl_sock that sending uses.
pub record SendSock : Type 0 where
  pub ports : PortSock
  pub s_proto : ℤ
  pub s_seq_next : ℕ
  pub s_seq_expect : ℕ
  pub no_auto_ack : Bool

unfoldable pub nl_socket_use_seq : SendSock → ℕ × SendSock
nl_socket_use_seq sk = (sk.s_seq_next, record sk { s_seq_next = (sk.s_seq_next + 1) % 2 ^ 32 })

-- `nlmsg_pid`: a port that is not given is that of the socket.
unfoldable pub complete_pid : SendSock → ℕ → PortMap → ℕ → ℕ → ℕ × SendSock × PortMap
complete_pid sk pid m getpid time =
    if pid == 0
    then (let (port, p, m') = nl_socket_get_local_port sk.ports m getpid time in
        (port, record sk { ports = p }, m'))
    else (pid, sk, m)

-- `nlmsg_seq`: a number that is not given is the next one of the socket.
unfoldable pub complete_seq : SendSock → ℕ → ℕ × SendSock
complete_seq sk seq = if seq == 0 then nl_socket_use_seq sk else (seq, sk)

-- -1 stands for a protocol that is not given.
unfoldable pub complete_proto : SendSock → ℤ → ℤ
complete_proto sk (negsuc zero) = sk.s_proto
complete_proto sk proto = proto

-- NLM_F_REQUEST is bit 0, NLM_F_ACK bit 2.
unfoldable pub complete_flags : SendSock → ℕ → ℕ
complete_flags sk flags =
    let requested = set_bit flags 0 in if sk.no_auto_ack then requested else set_bit requested 2

unfoldable pub nl_complete_msg : SendSock → NlMsg → PortMap → ℕ → ℕ → SendSock × NlMsg × PortMap
nl_complete_msg sk msg m getpid time =
    let nlh = msg.nm_nlh in
    let (pid, sk₁, m') = complete_pid sk nlh.nlmsg_pid m getpid time in
    let (seq, sk₂) = complete_seq sk₁ nlh.nlmsg_seq in
    (
      sk₂,
      record msg {
        nm_protocol = complete_proto sk msg.nm_protocol;
        nm_nlh = record nlh {
          nlmsg_pid = pid;
          nlmsg_seq = seq;
          nlmsg_flags = complete_flags sk nlh.nlmsg_flags;
        };
      },
      m',
    )
