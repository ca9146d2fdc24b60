-- ===== src/Tests/Interrupted.antt =====
-- A dump of two datagrams whose first part has the flag NLM_F_DUMP_INTR.
use libnl.Prelude.{ℕ, ◌≡◌, refl, true, false, some, List, [], ◌∷◌, length}
use libnl.Prelude.Int.{pos}
use libnl.Errno.{Errno, neg_code}
use libnl.Msg.{hdr_at, nlmsg_ok, nlmsg_next}
use libnl.Recv.{State, recvmsgs, start}
use libnl.Recv.Stream.{Messages, done, visit}
use libnl.Recv.Parts.{consume}
use libnl.Recv.Refine.{nothing, datagram}
use libnl.Recv.Pieces.{IsPiece, IsEnd}
use libnl.Recv.Interrupted.{Answer, final, more, recvmsgs-Answer}
use libnl.Tests.Receiving.{cb, sk, add_type, cb-IsReader, done_bytes, done-Messages}

abbrev torn_bytes : List ℕ
torn_bytes = 16 ∷ 0 ∷ 0 ∷ 0 ∷ 16 ∷ 0 ∷ 18 ∷ 0 ∷ 7 ∷ 0 ∷ 0 ∷ 0 ∷ 0 ∷ 0 ∷ 0 ∷ 0 ∷ []

torn-Messages : Messages (hdr_at torn_bytes) (pos (length torn_bytes)) (hdr_at torn_bytes ∷ [])
unfolding nlmsg_ok nlmsg_next
torn-Messages = visit refl (done refl)

torn-IsPiece : IsPiece 7 (hdr_at torn_bytes)
unfolding hdr_at
torn-IsPiece = record { same_seq = refl; multi = refl; no_ack = refl; no_control = refl }

last_part-IsEnd : IsEnd 7 (hdr_at done_bytes)
unfolding hdr_at
last_part-IsEnd = record { end_seq = refl; end_type = refl; end_no_ack = refl }

torn-Answer :
    Answer 7
      ((hdr_at torn_bytes ∷ []) ∷ (hdr_at done_bytes ∷ []) ∷ [])
      (hdr_at torn_bytes ∷ [])
      true
unfolding hdr_at
torn-Answer = more {hs = []} (torn-IsPiece, tt) (final {l = []} tt last_part-IsEnd)

recvmsgs-Answer_example :
    (s' : State ℕ) × (recvmsgs cb sk (torn_bytes ∷ done_bytes ∷ []) (pos 0) (start 7 0)
      ≡ some (neg_code Errno.dump_intr, s'))
    × (s'.user ≡ consume cb sk add_type (hdr_at torn_bytes ∷ []) 0)
    × (s'.s_seq_expect ≡ 8)
    × (s'.multipart ≡ false)
    × (s'.interrupted ≡ true)
recvmsgs-Answer_example =
    recvmsgs-Answer cb sk add_type cb-IsReader refl (pos 0) (start 7 0)
      (datagram torn-Messages (datagram done-Messages nothing)) torn-Answer refl
