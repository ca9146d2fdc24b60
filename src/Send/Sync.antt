-- ===== src/Send/Sync.antt =====
-- A request and its answer: the two counters of a socket, through nl_complete_msg and recvmsgs.
use libnl.Prelude.{ℕ, ◌+◌, ◌≡◌, refl, ap, subst, ◌∙◌, some, List, length, arith}
use libnl.Prelude.Int.{ℤ, pos}
use libnl.Msg.{Nlmsghdr}
use libnl.Msg.Buffer.{NlMsg}
use libnl.Recv.{Cb, Socket, State, start, recvmsgs}
use libnl.Recv.Refine.{Reads}
use libnl.Recv.Parts.{IsReader, consume}
use libnl.Recv.Dump.{Dump, after_dump, recvmsgs-Dump}
use libnl.Socket.{PortMap}
use libnl.Send.{SendSock, nl_complete_msg}
use libnl.Send.Complete.{nl_complete_msg_lem}

-- A request with no sequence number of its own, sent by a socket that expects the number that it
-- will use next, and answered by a dump with the number that the request got: recvmsgs reads the
-- dump to its end, gives each part to the callback, and the socket then expects the number that it
-- will use next again.
pub recvmsgs-nl_complete_msg :
    {U : Type 0} (cb : Cb U) (rsk : Socket) (f : NlMsg → U → ℤ × U) (sk : SendSock) (msg : NlMsg)
    (m : PortMap) (getpid time : ℕ) (last : ℤ) (u : U) {bufs : List (List ℕ)}
    {ls : List (List Nlmsghdr)} {hs : List Nlmsghdr}
    → IsReader cb f
    → sk.s_seq_expect ≡ sk.s_seq_next
    → msg.nm_nlh.nlmsg_seq ≡ 0
    → Reads bufs ls
    → Dump (nl_complete_msg sk msg m getpid time).1.nm_nlh.nlmsg_seq ls hs
    → (s' : State U) × (recvmsgs cb rsk bufs last (start sk.s_seq_expect u)
        ≡ some (pos (length hs + 1), s'))
      × (s'.user ≡ consume cb rsk f hs u)
      × (s'.s_seq_expect ≡ (nl_complete_msg sk msg m getpid time).0.s_seq_next)
unfolding after_dump
recvmsgs-nl_complete_msg cb rsk f sk msg m getpid time last u {ls = ls} {hs = hs} reader sync auto
      reads dump =
    let (_, _, number, next, _, _, _) = nl_complete_msg_lem sk msg m getpid time in
    let s = start sk.s_seq_expect u in
    let asked : (nl_complete_msg sk msg m getpid time).1.nm_nlh.nlmsg_seq ≡ sk.s_seq_expect =
      ground arith in
    let run =
      recvmsgs-Dump cb rsk f last s reader reads (subst (λ n. Dump n ls hs) asked dump) refl in
    let none_before : 0 + length hs + 1 ≡ length hs + 1 = omega arith in
    (
      after_dump cb rsk f hs s,
      run ∙ ap (λ n. some (pos n, after_dump cb rsk f hs s)) none_before,
      refl,
      ground arith,
    )
