-- ===== src/Msg/Buffer/Valid.antt =====
-- The memory of a message that is built: its size, its length field, and what each operation of
-- lib/msg.c does to them.
use libnl.Prelude.Bits.{low_bits, bit_and_three}
use libnl.Prelude.{
  subst, ◌*◌, ◌==◌, sym, take-append_eq, ℕ, ◌+◌, ◌-◌, ◌^◌, ◌≤◌, ◌<◌, ◌≡◌, refl, ap, ◌∙◌, Bool, true,
  false, none, some, List, ltb, length, take, drop, replicate, max, arith, length-splice,
  length-replicate, take-splice, ◌⊎◌, inl, inr, Bool-cases, ◌||◌, drop-splice,
}
use libnl.Msg.{align, nlmsg_alignto}
use libnl.Msg.Buffer.{NlMsg, nlmsg_alloc_size, nlmsg_reserve, padded, write_at, set_len}

-- `nm_size` is the size of the memory, and the length of the message lies between its header's and
-- that size.
pub record IsValid (m : NlMsg) : Type 0 where
  pub memory : 16 + length m.nm_nlh.payload ≡ m.nm_size
  pub has_header : 16 ≤ m.nm_nlh.nlmsg_len
  pub fits : m.nm_nlh.nlmsg_len ≤ m.nm_size
  pub small : m.nm_size < 2 ^ 31

-- A new message is valid and has an empty payload, whatever size is asked for.
pub nlmsg_alloc_size-IsValid :
    (len : ℕ)
    → len < 2 ^ 31
    → IsValid (nlmsg_alloc_size len) × ((nlmsg_alloc_size len).nm_nlh.nlmsg_len ≡ 16)
unfolding nlmsg_alloc_size
nlmsg_alloc_size-IsValid len h = (omega (arith, length-replicate {A = ℕ} (max len 16 - 16) 0), refl)

pub nlmsg_alloc_size_room : (len : ℕ) → 16 ≤ len → (nlmsg_alloc_size len).nm_size ≡ len
unfolding nlmsg_alloc_size
nlmsg_alloc_size_room len h = omega arith

-- The request does not fit: by itself, or behind what the message holds.
abbrev pub too_long : NlMsg → ℕ → ℕ → Bool
too_long m len pad = ltb m.nm_size len || ltb m.nm_size (padded len pad + m.nm_nlh.nlmsg_len)

pub nlmsg_reserve-too_long :
    (m : NlMsg) (len pad : ℕ) → too_long m len pad ≡ true → nlmsg_reserve m len pad ≡ (none, m)
unfolding nlmsg_reserve
nlmsg_reserve-too_long m len pad h = ground arith

-- The message after a reservation that fits.
abbrev pub reserved_in : NlMsg → ℕ → ℕ → NlMsg
reserved_in m len pad =
    write_at (set_len m (m.nm_nlh.nlmsg_len + padded len pad)) (m.nm_nlh.nlmsg_len + len)
      (replicate (padded len pad - len) 0)

pub nlmsg_reserve-fits :
    (m : NlMsg) (len pad : ℕ)
    → too_long m len pad ≡ false
    → nlmsg_reserve m len pad ≡ (some m.nm_nlh.nlmsg_len, reserved_in m len pad)
unfolding nlmsg_reserve
nlmsg_reserve-fits m len pad h = ground arith

-- The bytes of a reservation: room inside the memory, behind a payload that stays as it was.
pub record Reserves (m : NlMsg) (size : ℕ) (m' : NlMsg) : Type 0 where
  pub valid : IsValid m'
  pub grown : m'.nm_nlh.nlmsg_len ≡ m.nm_nlh.nlmsg_len + size
  pub same_size : m'.nm_size ≡ m.nm_size
  pub kept :
      take (m.nm_nlh.nlmsg_len - 16) m'.nm_nlh.payload
      ≡ take (m.nm_nlh.nlmsg_len - 16) m.nm_nlh.payload

pub reserved_in-Reserves :
    (m : NlMsg) (len pad : ℕ)
    → IsValid m
    → too_long m len pad ≡ false
    → Reserves m (padded len pad) (reserved_in m len pad)
unfolding write_at set_len
reserved_in-Reserves m len pad v h =
    let p = m.nm_nlh.payload in
    let i = m.nm_nlh.nlmsg_len + len - 16 in
    let zeros : List ℕ = replicate (padded len pad - len) 0 in
    let room : padded len pad + m.nm_nlh.nlmsg_len ≤ m.nm_size = ground arith in
    record {
      valid = omega (arith, length-splice p i zeros);
      grown = omega arith;
      same_size = refl;
      kept = take-splice (m.nm_nlh.nlmsg_len - 16) p i zeros (omega arith);
    }

-- The size that a request takes: its length, or the least multiple of `pad` that is not below it.
abbrev pub Rounds : ℕ → ℕ → ℕ → Type 0
Rounds len pad size =
    ((pad ≡ 0) × (size ≡ len)) ⊎ ((q : ℕ) × (size ≡ q * pad) × (len ≤ size) × (size < len + pad))

abbrev pub IsPad : ℕ → Type 0
IsPad pad = (pad ≡ 0) ⊎ ((k : ℕ) × (pad ≡ 2 ^ k))

padded-Rounds : (len pad : ℕ) → IsPad pad → Rounds len pad (padded len pad) × (len ≤ padded len pad)
unfolding padded
padded-Rounds len pad (inl e) = (inl (e, ground (arith, e)), ground (arith, e))
padded-Rounds len pad (inr (k, e)) =
    let x = len + (2 ^ k - 1) in
    let (positive, small, (q, split)) = low_bits k x in
    let other : (2 ^ k == 0) ≡ false = ground arith in
    let size : padded len (2 ^ k) ≡ q * 2 ^ k = ground (arith, other, split) in
    subst (λ p. Rounds len p (padded len p) × (len ≤ padded len p)) (sym e)
      (
        inr (q, size, omega (arith, size, split, small), omega (arith, size, split)),
        omega (arith, size, split, small),
      )

reserved_in-zeroed :
    (m : NlMsg) (len pad : ℕ)
    → IsValid m
    → too_long m len pad ≡ false
    → len ≤ padded len pad
    → take
        (padded len pad - len)
        (drop (m.nm_nlh.nlmsg_len + len - 16) (reserved_in m len pad).nm_nlh.payload)
      ≡ replicate (padded len pad - len) 0
unfolding write_at set_len
reserved_in-zeroed m len pad v h low =
    let p = m.nm_nlh.payload in
    let i = m.nm_nlh.nlmsg_len + len - 16 in
    let z = padded len pad - len in
    let room : padded len pad + m.nm_nlh.nlmsg_len ≤ m.nm_size = ground arith in
    let n = length-replicate {A = ℕ} z 0 in
    ap (take z)
      (drop-splice p i (i + z) (replicate z 0) (omega (arith, n)) (omega (arith, v.memory)))
    ∙ take-append_eq z (replicate z 0) (drop (i + z) p) (sym n)

-- nlmsg_reserve takes the length asked for, without padding if `pad` is 0, and else the least multiple
-- of `pad` that is not below it, where `pad` is a power of two. It returns NULL and changes nothing
-- exactly when this size does not fit behind what the message holds. Otherwise it returns the old end
-- of the message, grows the length by the size, keeps the payload and the invariant, and the bytes of
-- the padding are 0.
pub nlmsg_reserve_lem :
    {m : NlMsg} (len pad : ℕ)
    → IsValid m
    → IsPad pad
    → (size : ℕ) × Rounds len pad size
      × (((m.nm_size < m.nm_nlh.nlmsg_len + size) × (nlmsg_reserve m len pad ≡ (none, m)))
          ⊎ ((m' : NlMsg) × (m.nm_nlh.nlmsg_len + size ≤ m.nm_size)
              × (nlmsg_reserve m len pad ≡ (some m.nm_nlh.nlmsg_len, m'))
              × Reserves m size m'
              × (take (size - len) (drop (m.nm_nlh.nlmsg_len + len - 16) m'.nm_nlh.payload)
                  ≡ replicate (size - len) 0)))
nlmsg_reserve_lem {m} len pad v p =
    let (rounds, low) = padded-Rounds len pad p in
    (
      padded len pad,
      rounds,
      elim (Bool-cases (too_long m len pad)) [
        | inl long ↦ inl (ground (arith, low), nlmsg_reserve-too_long m len pad long)
        | inr short ↦ inr (
          reserved_in m len pad,
          ground arith,
          nlmsg_reserve-fits m len pad short,
          reserved_in-Reserves m len pad v short,
          reserved_in-zeroed m len pad v short low,
        )
      ],
    )

-- Padded to a boundary of four bytes.
pub padded_four : (len : ℕ) → padded len nlmsg_alignto ≡ align len
unfolding padded
padded_four len = omega (arith, bit_and_three (len + 3))
