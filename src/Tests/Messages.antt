-- ===== src/Tests/Messages.antt =====
-- lib/msg.c at concrete messages.
use libnl.Prelude.{
  ◌+◌, ◌-◌, ◌<◌, take, drop, replicate, inr, refl, ℕ, ◌≤◌, ◌≡◌, ◌⊎◌, none, some, arith,
}
use libnl.Msg.Buffer.{NlMsg, nlmsg_reserve}
use libnl.Msg.Buffer.Valid.{IsValid, Reserves, Rounds, nlmsg_reserve_lem}
use libnl.Tests.{sample}

sample-IsValid : IsValid sample
sample-IsValid = omega arith

nlmsg_reserve_lem_example :
    (size : ℕ) × Rounds 5 4 size
    × (((64 < 28 + size) × (nlmsg_reserve sample 5 4 ≡ (none, sample)))
        ⊎ ((m' : NlMsg) × (28 + size ≤ 64)
            × (nlmsg_reserve sample 5 4 ≡ (some 28, m'))
            × Reserves sample size m'
            × (take (size - 5) (drop 17 m'.nm_nlh.payload) ≡ replicate (size - 5) 0)))
nlmsg_reserve_lem_example = nlmsg_reserve_lem 5 4 sample-IsValid (inr (2, refl))
