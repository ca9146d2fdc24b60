-- ===== src/Recv/Dump.antt =====
-- A dump in the answer of the kernel: parts with NLM_F_MULTI in any number of datagrams, then an
-- NLMSG_DONE.
use libnl.Prelude.{
  subst, length-append, append-nil, ℕ, suc, ◌+◌, ◌%◌, ◌^◌, ◌≡◌, refl, ap, sym, ◌∙◌, Bool, true,
  false, some, List, append-nil, length-append, [], ◌∷◌, ◌++◌, length, arith, All,
}
use libnl.Prelude.Int.{ℤ, pos}
use libnl.Msg.{Nlmsghdr}
use libnl.Msg.Buffer.{NlMsg}
use libnl.Recv.{Cb, Socket, State, next, received, recvmsgs, leave}
use libnl.Recv.Parts.{
  IsPart, IsDone, IsReader, consume, handle_message-IsPart, handle_message-IsDone,
}
use libnl.Recv.Refine.{Reads, handle_all, handle_datagrams, recvmsgs_lem}

-- The messages of the datagrams, and the parts among them.
pub data Dump (seq : ℕ) : List (List Nlmsghdr) → List Nlmsghdr → Type 0 where
  final :
      {l : List Nlmsghdr} {hdr : Nlmsghdr} {ls : List (List Nlmsghdr)}
      → All (IsPart seq) l
      → IsDone seq hdr
      → Dump seq ((l ++ (hdr ∷ [])) ∷ ls) l
  more :
      {h : Nlmsghdr} {l : List Nlmsghdr} {ls : List (List Nlmsghdr)} {hs : List Nlmsghdr}
      → All (IsPart seq) (h ∷ l)
      → Dump seq ls hs
      → Dump seq ((h ∷ l) ∷ ls) ((h ∷ l) ++ hs)

module _ {U : Type 0} (cb : Cb U) (sk : Socket) (f : NlMsg → U → ℤ × U) where
  -- The flag `multipart` after the parts `l`.
  unfoldable pub noted : List Nlmsghdr → Bool → Bool
  noted [] b = b
  noted (hdr ∷ l) b = true

  pub noted-true : (l : List Nlmsghdr) → noted l true ≡ true
  unfolding noted
  noted-true [] = refl
  noted-true (hdr ∷ l) = refl

  handle_all-parts :
      (l rest : List Nlmsghdr) (s : State U)
      → IsReader cb f
      → All (IsPart s.s_seq_expect) l
      → handle_all cb sk (l ++ rest) s
        ≡ handle_all cb sk rest (record s {
          nrecv = s.nrecv + length l;
          multipart = noted l s.multipart;
          user = consume cb sk f l s.user;
        })
  unfolding handle_all consume noted
  handle_all-parts [] rest s r ps = ground arith
  handle_all-parts (hdr ∷ l) rest s r (p, ps) = ground (
    arith,
    handle_message-IsPart cb sk f hdr s r p,
    noted-true l,
    handle_all-parts l rest
        (record s { nrecv = s.nrecv + 1; multipart = true; user = (f (received sk hdr) s.user).1 })
        r ps,
  )

  handle_all-only :
      (h : Nlmsghdr) (l : List Nlmsghdr) (s : State U)
      → IsReader cb f
      → All (IsPart s.s_seq_expect) (h ∷ l)
      → handle_all cb sk (h ∷ l) s ≡ (
        next,
        record s {
          nrecv = s.nrecv + suc (length l);
          multipart = true;
          user = consume cb sk f (h ∷ l) s.user;
        },
      )
  unfolding handle_all noted
  handle_all-only h l s r ps =
      ap (λ x. handle_all cb sk x s) (sym (append-nil (h ∷ l))) ∙ handle_all-parts (h ∷ l) [] s r ps

  handle_all-IsDone :
      (hdr : Nlmsghdr) (s : State U)
      → IsReader cb f
      → IsDone s.s_seq_expect hdr
      → handle_all cb sk (hdr ∷ []) s ≡ (
        next,
        record s {
          nrecv = s.nrecv + 1;
          s_seq_expect = (s.s_seq_expect + 1) % 2 ^ 32;
          multipart = false;
        },
      )
  unfolding handle_all
  handle_all-IsDone hdr s r d = ground (arith, handle_message-IsDone cb sk f hdr s r d)

  leave-nrecv : (s : State U) → s.interrupted ≡ false → leave (pos 0) s ≡ (pos s.nrecv, s)
  unfolding leave
  leave-nrecv s i = rw i

  -- The state after the whole dump `hs`.
  unfoldable pub after_dump : List Nlmsghdr → State U → State U
  after_dump hs s = record s {
    nrecv = s.nrecv + length hs + 1;
    s_seq_expect = (s.s_seq_expect + 1) % 2 ^ 32;
    multipart = false;
    user = consume cb sk f hs s.user;
  }

  pub consume-append :
      (l hs : List Nlmsghdr) (u : U)
      → consume cb sk f (l ++ hs) u ≡ consume cb sk f hs (consume cb sk f l u)
  unfolding consume
  consume-append [] hs u = refl
  consume-append (hdr ∷ l) hs u = consume-append l hs (f (received sk hdr) u).1

  handle_datagrams-Dump :
      (last : ℤ) {seq : ℕ} (s : State U) {ls : List (List Nlmsghdr)} {hs : List Nlmsghdr}
      → IsReader cb f
      → Dump seq ls hs
      → seq ≡ s.s_seq_expect
      → s.interrupted ≡ false
      → handle_datagrams cb sk ls last s ≡ (pos (s.nrecv + length hs + 1), after_dump hs s)
  unfolding handle_datagrams after_dump
  handle_datagrams-Dump last s r (final {l = l} {hdr = hdr} ps d) e i =
      let shown = record s {
        nrecv = s.nrecv + length l;
        multipart = noted l s.multipart;
        user = consume cb sk f l s.user;
      } in
      ground (
        arith,
        handle_all-parts l (hdr ∷ []) s r (subst (λ n. All (IsPart n) l) e ps),
        handle_all-IsDone hdr shown r (subst (λ n. IsDone n hdr) e d),
        leave-nrecv (after_dump l s) i,
      )
  handle_datagrams-Dump last s r (more {h = h} {l = l} {hs = hs} ps d) e i =
      let shown = record s {
        nrecv = s.nrecv + suc (length l);
        multipart = true;
        user = consume cb sk f (h ∷ l) s.user;
      } in
      ground (
        arith,
        handle_all-only h l s r (subst (λ n. All (IsPart n) (h ∷ l)) e ps),
        handle_datagrams-Dump last shown r d e i,
        length-append l hs,
        consume-append (h ∷ l) hs s.user,
      )

  -- A dump that answers the request: recvmsgs gives every part to the callback for valid messages,
  -- once and in order, whatever the datagrams they come in, stops at NLMSG_DONE, and returns the
  -- number of messages; the next sequence number is expected then. The callback must return NL_OK and
  -- no other callback may be set for these messages.
  pub recvmsgs-Dump :
      (last : ℤ) (s : State U) {bufs : List (List ℕ)} {ls : List (List Nlmsghdr)}
      {hs : List Nlmsghdr}
      → IsReader cb f
      → Reads bufs ls
      → Dump s.s_seq_expect ls hs
      → s.interrupted ≡ false
      → recvmsgs cb sk bufs last s ≡ some (pos (s.nrecv + length hs + 1), after_dump hs s)
  recvmsgs-Dump last s r b d i =
      recvmsgs_lem cb sk last s b ∙ ap some (handle_datagrams-Dump last s r d refl i)
