-- ===== src/Msg/Buffer/Append.antt =====
-- nlmsg_append and nlmsg_expand of lib/msg.c: what they leave in the memory of a message.
use libnl.Prelude.{
  leb→le, leb, append_assoc, ℕ, ◌+◌, ◌-◌, ◌^◌, ◌≤◌, ◌<◌, ◌≡◌, refl, ap, ◌∙◌, true, false, List,
  length, take, drop, replicate, splice, ◌++◌, arith, length-splice, length-replicate, take-splice,
  ◌⊎◌, inl, inr, Bool-cases, take-length, splice-splice_before, drop-splice, take-append,
  length-append, length-take,
}
use libnl.Msg.{nomem, inval, error, success}
use libnl.Msg.Buffer.{copied, NlMsg, nlmsg_append, nlmsg_expand, padded, write_at, set_len}
use libnl.Msg.Buffer.Valid.{
  IsValid, Reserves, too_long, nlmsg_reserve-too_long, reserved_in, nlmsg_reserve-fits,
  reserved_in-Reserves,
}

-- The message after an append that fits.
abbrev appended : NlMsg → List ℕ → ℕ → NlMsg
appended m bytes pad = write_at (reserved_in m (length bytes) pad) m.nm_nlh.nlmsg_len bytes

nlmsg_append-fits :
    (m : NlMsg) (bytes : List ℕ) (pad : ℕ)
    → too_long m (length bytes) pad ≡ false
    → nlmsg_append m bytes (length bytes) pad ≡ (success, appended m bytes pad)
unfolding nlmsg_append
nlmsg_append-fits m bytes pad h =
    ap (copied bytes (length bytes)) (nlmsg_reserve-fits m (length bytes) pad h)
    ∙ rw (take-length (length bytes) bytes refl)

-- The bytes and the zeros of their padding are written side by side.
appended-payload :
    {m : NlMsg} (bytes : List ℕ) (pad : ℕ)
    → IsValid m
    → (appended m bytes pad).nm_nlh.payload
      ≡ splice m.nm_nlh.payload
          (m.nm_nlh.nlmsg_len - 16)
          (bytes ++ replicate (padded (length bytes) pad - length bytes) 0)
unfolding write_at set_len
appended-payload {m} bytes pad v =
    splice-splice_before m.nm_nlh.payload (m.nm_nlh.nlmsg_len - 16)
      (m.nm_nlh.nlmsg_len + length bytes - 16) bytes
      (replicate (padded (length bytes) pad - length bytes) 0) (omega arith)

appended-Reserves :
    {m : NlMsg} (bytes : List ℕ) (pad : ℕ)
    → IsValid m
    → too_long m (length bytes) pad ≡ false
    → Reserves m (padded (length bytes) pad) (appended m bytes pad)
unfolding write_at set_len
appended-Reserves {m} bytes pad v h =
    let q = (reserved_in m (length bytes) pad).nm_nlh.payload in
    let i = m.nm_nlh.nlmsg_len - 16 in
    let r = reserved_in-Reserves m (length bytes) pad v h in
    record {
      valid = omega (arith, length-splice q i bytes);
      grown = r.grown;
      same_size = refl;
      kept = take-splice i q i bytes (omega arith) ∙ r.kept;
    }

appended-bytes :
    {m : NlMsg} (bytes : List ℕ) (pad : ℕ)
    → IsValid m
    → too_long m (length bytes) pad ≡ false
    → length bytes ≤ padded (length bytes) pad
    → take (length bytes) (drop (m.nm_nlh.nlmsg_len - 16) (appended m bytes pad).nm_nlh.payload)
      ≡ bytes
appended-bytes {m} bytes pad v h big =
    let p = m.nm_nlh.payload in
    let i = m.nm_nlh.nlmsg_len - 16 in
    let zeros : List ℕ = replicate (padded (length bytes) pad - length bytes) 0 in
    let room : padded (length bytes) pad + m.nm_nlh.nlmsg_len ≤ m.nm_size = ground arith in
    let size : length (bytes ++ zeros) ≡ padded (length bytes) pad = omega (
      arith,
      length-append bytes zeros,
      length-replicate {A = ℕ} (padded (length bytes) pad - length bytes) 0,
    ) in
    rw
      (
        appended-payload bytes pad v,
        drop-splice p i (i + length (bytes ++ zeros)) (bytes ++ zeros) refl (omega arith),
        append_assoc bytes zeros (drop (i + length (bytes ++ zeros)) p),
      )
      (take-append bytes _)

-- nlmsg_append, when the bytes and their padding fit, succeeds; the bytes stand behind the old end,
-- the length grows by the padded size, and the payload below and the invariant are kept. When they
-- do not fit it returns -NLE_NOMEM and changes nothing.
pub nlmsg_append_lem :
    {m : NlMsg} (bytes : List ℕ) (pad : ℕ)
    → IsValid m
    → length bytes ≤ padded (length bytes) pad
    → ((too_long m (length bytes) pad ≡ true)
        × (nlmsg_append m bytes (length bytes) pad ≡ (error nomem, m)))
      ⊎ ((too_long m (length bytes) pad ≡ false)
          × ((m' : NlMsg) × (nlmsg_append m bytes (length bytes) pad ≡ (success, m'))
              × Reserves m (padded (length bytes) pad) m'
              × (take (length bytes) (drop (m.nm_nlh.nlmsg_len - 16) m'.nm_nlh.payload) ≡ bytes)))
unfolding nlmsg_append
nlmsg_append_lem {m} bytes pad v big = elim (Bool-cases (too_long m (length bytes) pad)) [
  | inl long ↦
      inl
        (long, ap (copied bytes (length bytes)) (nlmsg_reserve-too_long m (length bytes) pad long))
  | inr short ↦ inr (
    short,
    (
      appended m bytes pad,
      nlmsg_append-fits m bytes pad short,
      appended-Reserves bytes pad v short,
      appended-bytes bytes pad v short big,
    ),
  )
]

-- nlmsg_expand refuses a size that is not larger, and otherwise keeps the length, the whole payload
-- and the invariant; the new bytes are those that realloc gives.
pub nlmsg_expand_lem :
    {m : NlMsg} (newlen : ℕ) (fresh : List ℕ)
    → IsValid m
    → newlen < 2 ^ 31
    → newlen - m.nm_size ≤ length fresh
    → let (o, m') = nlmsg_expand m newlen fresh in
      ((newlen ≤ m.nm_size) × (o ≡ error inval) × (m' ≡ m))
      ⊎ ((m.nm_size < newlen)
          × (o ≡ success)
          × IsValid m'
          × (m'.nm_size ≡ newlen)
          × (m'.nm_nlh.nlmsg_len ≡ m.nm_nlh.nlmsg_len)
          × (take (length m.nm_nlh.payload) m'.nm_nlh.payload ≡ m.nm_nlh.payload))
unfolding nlmsg_expand
nlmsg_expand_lem {m} newlen fresh v small given = elim (Bool-cases (leb newlen m.nm_size)) [
  | inl smaller ↦ inl (leb→le newlen m.nm_size smaller, ground arith, ground arith)
  | inr larger ↦
      let added = take (newlen - m.nm_size) fresh in
      inr (
        ground arith,
        ground arith,
        ground
            (arith, length-append m.nm_nlh.payload added, length-take (newlen - m.nm_size) fresh),
        ground arith,
        ground arith,
        ground (arith, take-append m.nm_nlh.payload added),
      )
]
