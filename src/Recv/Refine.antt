-- ===== src/Recv/Refine.antt =====
-- recvmsgs on bytes against a loop over the messages that the datagrams hold.
use libnl.Prelude.{ℕ, zero, suc, ◌<◌, ◌≡◌, refl, some, List, [], ◌∷◌, length, arith, if◌then◌else◌}
use libnl.Prelude.Int.{ℤ, pos, pos_part}
use libnl.Msg.{Nlmsghdr, hdr_at}
use libnl.Recv.{
  Cb, Socket, State, Flow, next, skip, stop, out, handle_message, read_loop, leave, recvmsgs,
}
use libnl.Recv.Stream.{Messages, done, visit, nlmsg_next-lt}

-- The datagrams, each with some bytes, and the messages in each.
pub data Reads : List (List ℕ) → List (List Nlmsghdr) → Type 0 where
  nothing : Reads [] []
  datagram :
      {b : ℕ} {buf : List ℕ} {bufs : List (List ℕ)} {l : List Nlmsghdr} {ls : List (List Nlmsghdr)}
      → Messages (hdr_at (b ∷ buf)) (pos (length (b ∷ buf))) l
      → Reads bufs ls
      → Reads ((b ∷ buf) ∷ bufs) (l ∷ ls)

module _ {U : Type 0} (cb : Cb U) (sk : Socket) where
  -- The messages of one datagram, up to one that ends the reading.
  unfoldable pub handle_all : List Nlmsghdr → State U → Flow × State U
  handle_all [] s = (next, s)
  handle_all (hdr ∷ l) s =
      let (f, s') = handle_message cb sk hdr s in
      elim f [ next ↦ handle_all l s' | skip ↦ handle_all l s' | g ↦ (g, s') ]

  -- The datagrams, while a multipart message is not complete.
  unfoldable pub handle_datagrams : List (List Nlmsghdr) → ℤ → State U → ℤ × State U
  handle_datagrams [] last s = (last, s)
  handle_datagrams (l ∷ ls) last s =
      let (f, s') = handle_all l s in
      elim f [
        | out e ↦ leave e s'
        | stop ↦ leave (pos 0) s'
        | _ ↦ if s'.multipart then handle_datagrams ls last s' else leave (pos 0) s'
      ]

  read_loop-handle_all :
      (fuel : ℕ) (s : State U) {hdr : Nlmsghdr} {n : ℤ} {l : List Nlmsghdr}
      → Messages hdr n l
      → pos_part n < fuel
      → read_loop cb sk fuel hdr n s ≡ some (handle_all l s)
  unfolding read_loop handle_all
  read_loop-handle_all zero s m h = absurd (omega arith)
  read_loop-handle_all (suc fuel) s (done e) h = rw e
  read_loop-handle_all (suc fuel) s (visit {hdr = hdr} {n = n} e m) h =
      ground
        (arith, nlmsg_next-lt hdr n e, read_loop-handle_all fuel (handle_message cb sk hdr s).1 m)

  -- Reading datagrams, recvmsgs returns, with the result and the state of the loop over the messages
  -- that they hold, whatever the callbacks return.
  pub recvmsgs_lem :
      (last : ℤ) (s : State U) {bufs : List (List ℕ)} {ls : List (List Nlmsghdr)}
      → Reads bufs ls
      → recvmsgs cb sk bufs last s ≡ some (handle_datagrams ls last s)
  unfolding recvmsgs handle_datagrams
  recvmsgs_lem last s nothing = refl
  recvmsgs_lem last s (datagram {b = b} {buf = buf} {l = l} m r) = ground (
    arith,
    read_loop-handle_all (suc (length (b ∷ buf))) s m (omega arith),
    recvmsgs_lem last (handle_all l s).1 r,
  )
