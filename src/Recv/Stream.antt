-- ===== src/Recv/Stream.antt =====
-- The messages in a datagram, as recvmsgs visits them by nlmsg_ok and nlmsg_next.
use libnl.Prelude.{
  ℕ, zero, suc, ◌+◌, ◌≤◌, ◌<◌, ◌≡◌, true, false, List, [], ◌∷◌, inl, inr, Bool-cases, arith,
}
use libnl.Prelude.Int.{ℤ, pos_part}
use libnl.Msg.{Nlmsghdr, nlmsg_ok, nlmsg_next}

pub data Messages : Nlmsghdr → ℤ → List Nlmsghdr → Type 0 where
  done : {hdr : Nlmsghdr} {n : ℤ} → nlmsg_ok hdr n ≡ false → Messages hdr n []
  visit :
      {hdr : Nlmsghdr} {n : ℤ} {l : List Nlmsghdr}
      → nlmsg_ok hdr n ≡ true
      → Messages (nlmsg_next hdr n).0 (nlmsg_next hdr n).1 l
      → Messages hdr n (hdr ∷ l)

-- Every message takes at least the sixteen bytes of a header.
pub nlmsg_next-lt :
    (hdr : Nlmsghdr) (n : ℤ)
    → nlmsg_ok hdr n ≡ true
    → pos_part (nlmsg_next hdr n).1 + 16 ≤ pos_part n
unfolding nlmsg_ok nlmsg_next
nlmsg_next-lt hdr n h = ground arith

Messages-fuel :
    (fuel : ℕ) (hdr : Nlmsghdr) (n : ℤ) → pos_part n < fuel → (l : List Nlmsghdr) × Messages hdr n l
Messages-fuel zero hdr n h = absurd (omega arith)
Messages-fuel (suc fuel) hdr n h = elim (Bool-cases (nlmsg_ok hdr n)) [
  | inl more ↦
      let (l, m) =
        Messages-fuel fuel (nlmsg_next hdr n).0 (nlmsg_next hdr n).1
          (omega (arith, nlmsg_next-lt hdr n more)) in
      (hdr ∷ l, visit more m)
  | inr stop ↦ ([], done stop)
]

-- Whatever the bytes of a datagram are, the walk over it ends.
pub Messages-total : (hdr : Nlmsghdr) (n : ℤ) → (l : List Nlmsghdr) × Messages hdr n l
Messages-total hdr n = Messages-fuel (suc (pos_part n)) hdr n (omega arith)
