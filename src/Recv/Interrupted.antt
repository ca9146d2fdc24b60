-- ===== src/Recv/Interrupted.antt =====
-- A dump in which messages may say that it was interrupted (NLM_F_DUMP_INTR).
use libnl.Prelude.{
  ℕ, suc, ◌+◌, ◌%◌, ◌^◌, ◌≡◌, refl, ap, sym, subst, ◌∙◌, Bool, true, false, ◌||◌, none, some, List,
  [], ◌∷◌, ◌++◌, if◌then◌else◌, length, All, append-nil, length-append, arith,
}
use libnl.Prelude.Int.{ℤ, pos}
use libnl.Errno.{Errno, neg_code}
use libnl.Msg.{Nlmsghdr}
use libnl.Msg.Buffer.{NlMsg}
use libnl.Recv.{Cb, Socket, State, next, received, recvmsgs, leave, has_flag, CbType}
use libnl.Recv.Parts.{IsReader, consume}
use libnl.Recv.Refine.{Reads, handle_all, handle_datagrams, recvmsgs_lem}
use libnl.Recv.Dump.{noted, noted-true, consume-append}
use libnl.Recv.Pieces.{IsPiece, IsEnd, handle_message-IsPiece, handle_message-IsEnd}

-- One of the messages has the flag NLM_F_DUMP_INTR.
abbrev pub any_intr : List Nlmsghdr → Bool
any_intr [] = false
any_intr (hdr ∷ l) = has_flag hdr 4 || any_intr l

-- The messages of the datagrams, the parts among them, and whether a message has the flag.
pub data Answer (seq : ℕ) : List (List Nlmsghdr) → List Nlmsghdr → Bool → Type 0 where
  final :
      {l : List Nlmsghdr} {hdr : Nlmsghdr} {ls : List (List Nlmsghdr)}
      → All (IsPiece seq) l
      → IsEnd seq hdr
      → Answer seq ((l ++ (hdr ∷ [])) ∷ ls) l (has_flag hdr 4 || any_intr l)
  more :
      {h : Nlmsghdr} {l : List Nlmsghdr} {ls : List (List Nlmsghdr)} {hs : List Nlmsghdr} {b : Bool}
      → All (IsPiece seq) (h ∷ l)
      → Answer seq ls hs b
      → Answer seq ((h ∷ l) ∷ ls) ((h ∷ l) ++ hs) (b || any_intr (h ∷ l))

-- The flags may be gathered from the front or from the back.
gathered : (a b c : Bool) → (b || a || c) ≡ ((a || b) || c)
gathered true true c = refl
gathered true false c = refl
gathered false true c = refl
gathered false false c = refl

or_assoc : (a b c : Bool) → (a || (b || c)) ≡ ((a || b) || c)
or_assoc true b c = refl
or_assoc false b c = refl

module _ {U : Type 0} (cb : Cb U) (sk : Socket) (f : NlMsg → U → ℤ × U) (reader : IsReader cb f)
    (quiet : cb.cb_set CbType.dump_intr ≡ none) where
  -- The state after the parts `l`.
  abbrev shown : List Nlmsghdr → State U → State U
  shown l s = record s {
    nrecv = s.nrecv + length l;
    multipart = noted cb sk f l s.multipart;
    interrupted = any_intr l || s.interrupted;
    user = consume cb sk f l s.user;
  }

  handle_all-pieces :
      (l rest : List Nlmsghdr) (s : State U)
      → All (IsPiece s.s_seq_expect) l
      → handle_all cb sk (l ++ rest) s ≡ handle_all cb sk rest (shown l s)
  unfolding handle_all consume noted
  handle_all-pieces [] rest s ps = ground arith
  handle_all-pieces (hdr ∷ l) rest s (p, ps) = ground (
    arith,
    handle_message-IsPiece cb sk f reader quiet hdr s p,
    noted-true cb sk f l,
    gathered (has_flag hdr 4) (any_intr l) s.interrupted,
    handle_all-pieces l rest
        (record s {
          nrecv = s.nrecv + 1;
          multipart = true;
          interrupted = has_flag hdr 4 || s.interrupted;
          user = (f (received sk hdr) s.user).1;
        })
        ps,
  )

  handle_all-IsEnd :
      (hdr : Nlmsghdr) (s : State U)
      → IsEnd s.s_seq_expect hdr
      → handle_all cb sk (hdr ∷ []) s ≡ (
        next,
        record s {
          nrecv = s.nrecv + 1;
          s_seq_expect = (s.s_seq_expect + 1) % 2 ^ 32;
          multipart = false;
          interrupted = has_flag hdr 4 || s.interrupted;
        },
      )
  unfolding handle_all
  handle_all-IsEnd hdr s d = ground (arith, handle_message-IsEnd cb sk f reader quiet hdr s d)

  handle_all-only :
      (h : Nlmsghdr) (l : List Nlmsghdr) (s : State U)
      → All (IsPiece s.s_seq_expect) (h ∷ l)
      → handle_all cb sk (h ∷ l) s ≡ (next, shown (h ∷ l) s)
  unfolding handle_all
  handle_all-only h l s ps =
      ap (λ x. handle_all cb sk x s) (sym (append-nil (h ∷ l))) ∙ handle_all-pieces (h ∷ l) [] s ps

  leave-interrupted :
      (s : State U)
      → leave (pos 0) s ≡ (if s.interrupted then neg_code Errno.dump_intr else pos s.nrecv, s)
  unfolding leave
  leave-interrupted s = ground arith

  datagram_last :
      (last : ℤ) (s s' : State U) (l : List Nlmsghdr) (ls : List (List Nlmsghdr))
      → handle_all cb sk l s ≡ (next, s')
      → s'.multipart ≡ false
      → handle_datagrams cb sk (l ∷ ls) last s ≡ leave (pos 0) s'
  unfolding handle_datagrams
  datagram_last last s s' l ls run e = ground (arith, run, e)

  datagram_more :
      (last : ℤ) (s s' : State U) (l : List Nlmsghdr) (ls : List (List Nlmsghdr))
      → handle_all cb sk l s ≡ (next, s')
      → s'.multipart ≡ true
      → handle_datagrams cb sk (l ∷ ls) last s ≡ handle_datagrams cb sk ls last s'
  unfolding handle_datagrams
  datagram_more last s s' l ls run e = ground (arith, run, e)

  -- The result and the state, by whether the flag was seen, the number of messages and the user's state.
  abbrev result : State U → Bool → ℕ → U → ℤ × State U
  result s b n u = (
    if b then neg_code Errno.dump_intr else pos n,
    record s {
      nrecv = n;
      s_seq_expect = (s.s_seq_expect + 1) % 2 ^ 32;
      multipart = false;
      interrupted = b;
      user = u;
    },
  )

  handle_datagrams-Answer :
      (last : ℤ) {seq : ℕ} (s : State U) {ls : List (List Nlmsghdr)} {hs : List Nlmsghdr} {b : Bool}
      → Answer seq ls hs b
      → seq ≡ s.s_seq_expect
      → handle_datagrams cb sk ls last s
        ≡ result s (b || s.interrupted) (s.nrecv + length hs + 1) (consume cb sk f hs s.user)
  unfolding noted
  handle_datagrams-Answer last s (final {l = l} {hdr = hdr} {ls = ls} ps d) e =
      let run =
        handle_all-pieces l (hdr ∷ []) s (subst (λ n. All (IsPiece n) l) e ps)
        ∙ handle_all-IsEnd hdr (shown l s) (subst (λ n. IsEnd n hdr) e d) in
      let s' = record (shown l s) {
        nrecv = s.nrecv + length l + 1;
        s_seq_expect = (s.s_seq_expect + 1) % 2 ^ 32;
        multipart = false;
        interrupted = has_flag hdr 4 || (any_intr l || s.interrupted);
      } in
      datagram_last last s s' (l ++ hdr ∷ []) ls run refl
      ∙ leave-interrupted s'
      ∙ ap (λ b. result s b (s.nrecv + length l + 1) (consume cb sk f l s.user))
          (or_assoc (has_flag hdr 4) (any_intr l) s.interrupted)
  handle_datagrams-Answer last s (more {h = h} {l = l} {ls = ls} {hs = hs} {b = b} ps d) e =
      let run = handle_all-only h l s (subst (λ n. All (IsPiece n) (h ∷ l)) e ps) in
      let s' = record s {
        nrecv = s.nrecv + suc (length l);
        multipart = true;
        interrupted = any_intr (h ∷ l) || s.interrupted;
        user = consume cb sk f (h ∷ l) s.user;
      } in
      let u = consume cb sk f hs (consume cb sk f (h ∷ l) s.user) in
      let n : s.nrecv + suc (length l) + length hs + 1 ≡ s.nrecv + length ((h ∷ l) ++ hs) + 1 =
        omega (arith, length-append l hs) in
      datagram_more last s s' (h ∷ l) ls run refl
      ∙ handle_datagrams-Answer last s' d e
      ∙ ap (λ x. result s x (s.nrecv + suc (length l) + length hs + 1) u)
          (or_assoc b (any_intr (h ∷ l)) s.interrupted)
      ∙ ap (λ k. result s ((b || any_intr (h ∷ l)) || s.interrupted) k u) n
      ∙ ap
          (result s ((b || any_intr (h ∷ l)) || s.interrupted)
            (s.nrecv + length ((h ∷ l) ++ hs) + 1))
          (sym (consume-append cb sk f (h ∷ l) hs s.user))

  -- A dump that answers the request, in which any message may have the flag NLM_F_DUMP_INTR: recvmsgs
  -- reads it to its end, gives every part to the callback for valid messages, once and in order, and
  -- the next sequence number is expected then. If a message has the flag, it returns -NLE_DUMP_INTR,
  -- and else the number of messages. The callback must return NL_OK, no other callback may be set for
  -- these messages, nor one for interrupted dumps, and no interruption was noted before.
  pub recvmsgs-Answer :
      (last : ℤ) (s : State U) {bufs : List (List ℕ)} {ls : List (List Nlmsghdr)}
      {hs : List Nlmsghdr} {b : Bool}
      → Reads bufs ls
      → Answer s.s_seq_expect ls hs b
      → s.interrupted ≡ false
      → (s' : State U) × (recvmsgs cb sk bufs last s
          ≡ some (if b then neg_code Errno.dump_intr else pos (s.nrecv + length hs + 1), s'))
        × (s'.user ≡ consume cb sk f hs s.user)
        × (s'.s_seq_expect ≡ (s.s_seq_expect + 1) % 2 ^ 32)
        × (s'.multipart ≡ false)
        × (s'.interrupted ≡ b)
  recvmsgs-Answer last s {hs = hs} {b = b} r d i =
      let n = s.nrecv + length hs + 1 in
      let u = consume cb sk f hs s.user in
      let none_before : (b || s.interrupted) ≡ b = ground (arith, i) in
      (
        (result s b n u).1,
        recvmsgs_lem cb sk last s r
            ∙ ap some
                (handle_datagrams-Answer last s d refl ∙ ap (λ x. result s x n u) none_before),
        refl,
        refl,
        refl,
        refl,
      )
