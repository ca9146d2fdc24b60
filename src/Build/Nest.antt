-- ===== src/Build/Nest.antt =====
-- Nested attributes, closed and cancelled, on a message as the list of the attributes in it.
use libnl.Prelude.{
  ◌≢◌, take, drop, length-replicate, take-splice, drop-splice, take-append_eq, ltb→lt, Bool-cases,
  zero, suc, ◌⊎◌, inl, inr, if◌then◌else◌, ℕ, ◌+◌, ◌-◌, ◌%◌, ◌≤◌, ◌<◌, ◌≡◌, refl, sym, ap, ◌∙◌,
  Bool, true, false, List, [], ◌∷◌, ◌++◌, ltb, length, replicate, splice, arith, append-nil,
  append_assoc, length-append, length-splice, drop-splice_above, splice-append,
}
use libnl.Attr.{nla_padlen}
use libnl.Prelude.Bytes.{align, to_bytes}
use libnl.Errno.{attrsize, success, error}
use libnl.Msg.{nlmsg_tail}
use libnl.Msg.Buffer.{NlMsg, write_at, set_len}
use libnl.Msg.Buffer.Valid.{IsValid}
use libnl.Build.{nla_header, nla_nest_cancel, nest_end, close_nest}
use libnl.Build.Put.{encode, length-encode}
use libnl.Build.Content.{
  Item, encodes, encodes-append, encodes_snoc, encodes_aligned, Holds, Holds-aligned,
}

-- The place of the attribute behind the first ones.
abbrev pub place_behind : ℕ → List Item → ℕ
place_behind h l = 16 + align h + length (encodes l)

-- The message after a cancellation that has something to cut.
abbrev pub cut_at : NlMsg → ℕ → NlMsg
cut_at m attr =
    let len = nlmsg_tail m.nm_nlh - attr in
    let cut = set_len m (m.nm_nlh.nlmsg_len - len) in
    write_at cut (nlmsg_tail cut.nm_nlh) (replicate len 0)

nla_nest_cancel-below :
    (m : NlMsg) (attr : ℕ)
    → attr < nlmsg_tail m.nm_nlh
    → nla_nest_cancel m attr ≡ (success, cut_at m attr)
unfolding nla_nest_cancel
nla_nest_cancel-below m attr h = ground arith

-- Cancelling at a message whose end is not aligned, as after data that was appended without padding:
-- nla_nest_cancel succeeds and zeroes the bytes from the attribute to the aligned tail, and those in
-- front of it stay as they are. But the length ends in front of the attribute, by the padding of the
-- old end, one to three bytes, so it cuts off the end of what stood before the attribute. The
-- attribute stands at an aligned place, and the memory reaches to the tail.
pub nla_nest_cancel_len :
    {m : NlMsg} (attr : ℕ)
    → IsValid m
    → m.nm_nlh.nlmsg_len % 4 ≢ 0
    → 20 ≤ attr
    → attr % 4 ≡ 0
    → attr < nlmsg_tail m.nm_nlh
    → nlmsg_tail m.nm_nlh ≤ m.nm_size
    → (m' : NlMsg) × (nla_nest_cancel m attr ≡ (success, m'))
      × (m'.nm_nlh.nlmsg_len + (4 - m.nm_nlh.nlmsg_len % 4) ≡ attr)
      × (m'.nm_nlh.nlmsg_len < attr)
      × (take (attr - 16) m'.nm_nlh.payload ≡ take (attr - 16) m.nm_nlh.payload)
      × (take (nlmsg_tail m.nm_nlh - attr) (drop (attr - 16) m'.nm_nlh.payload)
          ≡ replicate (nlmsg_tail m.nm_nlh - attr) 0)
unfolding write_at set_len
nla_nest_cancel_len {m} attr v unaligned low aligned h room =
    let p = m.nm_nlh.payload in
    let n = nlmsg_tail m.nm_nlh - attr in
    let m' = cut_at m attr in
    let len : m'.nm_nlh.nlmsg_len + (4 - m.nm_nlh.nlmsg_len % 4) ≡ attr = ground arith in
    let place : nlmsg_tail m'.nm_nlh - 16 ≡ attr - 16 = ground arith in
    let zeros = replicate {A = ℕ} n 0 in
    let same : m'.nm_nlh.payload ≡ splice p (attr - 16) zeros = ap (λ i. splice p i zeros) place in
    let size = length-replicate {A = ℕ} n 0 in
    (
      m',
      nla_nest_cancel-below m attr h,
      len,
      ground arith,
      ap (take (attr - 16)) same ∙ take-splice (attr - 16) p (attr - 16) zeros (omega arith),
      ap (λ q. take n (drop (attr - 16) q)) same
          ∙ ap (take n) (
              drop-splice p (attr - 16) (attr - 16 + n) zeros (omega (arith, size))
                (omega (arith, v.memory)))
          ∙ take-append_eq n zeros (drop (attr - 16 + n) p) (sym size),
    )

cut_at-Holds :
    {m : NlMsg} (h : ℕ) (l later : List Item)
    → Holds m h (l ++ later)
    → Holds (cut_at m (place_behind h l)) h l
unfolding write_at set_len
cut_at-Holds {m} h l later was =
    let p = m.nm_nlh.payload in
    let k = align h in
    let j = length (encodes l) in
    let attr = place_behind h l in
    let len = nlmsg_tail m.nm_nlh - attr in
    let zeros : List ℕ = replicate len 0 in
    let size : length (encodes (l ++ later)) ≡ j + length (encodes later) =
      ap length (encodes-append l later) ∙ length-append (encodes l) (encodes later) in
    let place : (cut_at m attr).nm_nlh.nlmsg_len ≡ attr =
      omega (arith, Holds-aligned was, was.extent, size) in
    let i = nlmsg_tail (cut_at m attr).nm_nlh - 16 in
    let low : i ≡ k + j = omega (arith, place, encodes_aligned l) in
    record {
      valid = omega (arith, length-splice p i zeros, place, was.extent, size);
      rest = splice (encodes later ++ was.rest) 0 zeros;
      content =
          drop-splice_above k i j p zeros low
          ∙ ap (λ q. splice q j zeros)
              (was.content
                ∙ ap (λ q. q ++ was.rest) (encodes-append l later)
                ∙ append_assoc (encodes l) (encodes later) was.rest)
          ∙ splice-append (encodes l) (encodes later ++ was.rest) zeros;
      extent = place;
    }

-- nla_nest_cancel at the place of the first of the later attributes of a message succeeds and leaves
-- it holding exactly the earlier ones.
pub nla_nest_cancel-Holds :
    {m : NlMsg} (h : ℕ) (l : List Item) (a : Item) (later : List Item)
    → Holds m h (l ++ a ∷ later)
    → (nla_nest_cancel m (place_behind h l) ≡ (success, cut_at m (place_behind h l)))
      × Holds (cut_at m (place_behind h l)) h l
unfolding encodes
nla_nest_cancel-Holds {m} h l a later was =
    let size : length (encodes (l ++ a ∷ later))
        ≡ length (encodes l) + length (encodes (a ∷ later)) =
      ap length (encodes-append l (a ∷ later)) ∙ length-append (encodes l) (encodes (a ∷ later)) in
    let some_bytes : 4 ≤ length (encodes (a ∷ later)) =
      omega (arith, length-append (encode a.0 a.1) (encodes later), length-encode a.0 a.1) in
    (
      nla_nest_cancel-below m (place_behind h l)
          (omega (arith, Holds-aligned was, was.extent, size)),
      cut_at-Holds h l (a ∷ later) was,
    )

-- What closing leaves: the length of the attribute is stored in its header.
abbrev closed_at : NlMsg → ℕ → ℕ → NlMsg
closed_at m start len = write_at m start (to_bytes 2 len)

-- A payload that ends at a boundary is encoded without padding.
encode_aligned : (t : ℕ) (d : List ℕ) → length d % 4 ≡ 0 → encode t d ≡ nla_header t (length d) ++ d
encode_aligned t d h =
    let none : nla_padlen (length d) ≡ 0 = omega arith in
    ap (λ z. nla_header t (length d) ++ (d ++ replicate z 0)) none
    ∙ ap (λ q. nla_header t (length d) ++ q) (append-nil d)

filled_cases : (keep : Bool) (n : ℕ) → ((keep ≡ false) × (n ≡ 0)) ⊎ ((keep ≡ true) ⊎ (0 < n))
filled_cases true n = inr (inl refl)
filled_cases false zero = inl (refl, refl)
filled_cases false (suc n) = inr (inr (omega arith))

module _ {m : NlMsg} (h t : ℕ) (l inner : List Item) (was : Holds m h (l ++ (t, []) ∷ inner)) where
  opened :
      (encodes (l ++ (t, []) ∷ inner) ≡ encodes l ++ (encode t [] ++ encodes inner))
      × (length (encodes (l ++ (t, []) ∷ inner))
          ≡ length (encodes l) + (4 + length (encodes inner)))
  unfolding encodes
  opened =
      let e = encodes-append l ((t, []) ∷ inner) in
      (e, ap length e ∙ length-append (encodes l) _ ∙ omega arith)

  distance : nlmsg_tail m.nm_nlh - place_behind h l ≡ 4 + length (encodes inner)
  distance = omega (arith, Holds-aligned was, was.extent, opened.1)

  nest_end-closed :
      (keep_empty : Bool)
      → 4 + length (encodes inner) ≤ 65535
      → (keep_empty ≡ true) ⊎ (0 < length (encodes inner))
      → nest_end m (place_behind h l) keep_empty
        ≡ (success, closed_at m (place_behind h l) (4 + length (encodes inner)))
  unfolding nest_end close_nest
  nest_end-closed keep_empty small filled = ground (arith, distance, Holds-aligned was)

  closed_at-Holds :
      4 + length (encodes inner) ≤ 65535
      → Holds
          (closed_at m (place_behind h l) (4 + length (encodes inner)))
          h
          (l ++ (t, encodes inner) ∷ [])
  unfolding write_at
  closed_at-Holds small =
      let p = m.nm_nlh.payload in
      let k = align h in
      let j = length (encodes l) in
      let d = encodes inner in
      let bytes : List ℕ = to_bytes 2 (4 + length d) in
      let i = place_behind h l - 16 in
      let size : length (encodes (l ++ (t, d) ∷ [])) ≡ j + length (encode t d) =
        ap length (encodes_snoc l t d) ∙ length-append (encodes l) (encode t d) in
      record {
        valid = omega (arith, length-splice p i bytes);
        rest = was.rest;
        content =
            drop-splice_above k i j p bytes (omega arith)
            ∙ ap (λ q. splice q j bytes)
                (was.content
                  ∙ ap (λ q. q ++ was.rest) opened.0
                  ∙ append_assoc (encodes l) (encode t [] ++ d) was.rest)
            ∙ splice-append (encodes l) ((encode t [] ++ d) ++ was.rest) bytes
            ∙ ap (λ q. encodes l ++ (q ++ was.rest))
                (sym (encode_aligned t d (encodes_aligned inner)))
            ∙ sym (append_assoc (encodes l) (encode t d) was.rest)
            ∙ ap (λ q. q ++ was.rest) (sym (encodes_snoc l t d));
        extent =
            omega (arith, was.extent, opened.1, size, length-encode t d, encodes_aligned inner);
      }

  nest_end-cancelled :
      (keep_empty : Bool)
      → (65535 < 4 + length (encodes inner)) ⊎ ((keep_empty ≡ false) × (length (encodes inner) ≡ 0))
      → nest_end m (place_behind h l) keep_empty ≡ (
        if ltb 65535 (4 + length (encodes inner)) then error attrsize else success,
        cut_at m (place_behind h l),
      )
  unfolding nest_end
  nest_end-cancelled keep_empty why =
      let run = (nla_nest_cancel-Holds h l (t, []) inner was).0 in ground (arith, distance, run)

  -- _nest_end, on a message that holds an attribute opened with no payload and then some inner
  -- attributes. If they are too long for a 16-bit length, it returns -NLE_ATTRSIZE and the message
  -- holds what it held before the opening; if there are none and empty ones are not kept, the same
  -- with success. Otherwise it succeeds, and the message holds one attribute in their place, whose
  -- payload is their encoding.
  pub nest_end_lem :
      (keep_empty : Bool)
      → let (o, m') = nest_end m (place_behind h l) keep_empty in
        ((65535 < 4 + length (encodes inner)) × (o ≡ error attrsize) × Holds m' h l)
        ⊎ ((4 + length (encodes inner) ≤ 65535)
            × (((keep_empty ≡ false) × (length (encodes inner) ≡ 0) × (o ≡ success) × Holds m' h l)
                ⊎ (((keep_empty ≡ true) ⊎ (0 < length (encodes inner)))
                    × (o ≡ success)
                    × Holds m' h (l ++ (t, encodes inner) ∷ []))))
  nest_end_lem keep_empty =
      let size = length (encodes inner) in
      let cut = (nla_nest_cancel-Holds h l (t, []) inner was).1 in
      elim (Bool-cases (ltb 65535 (4 + size))) [
        | inl long ↦
            let big : 65535 < 4 + size = ltb→lt 65535 (4 + size) long in
            inl (rw (nest_end-cancelled keep_empty (inl big)) (big, ground arith, cut))
        | inr short ↦
            let small : 4 + size ≤ 65535 = ground arith in
            elim (filled_cases keep_empty size) [
              | inl (drop_it, none) ↦ inr (
                small,
                inl (
                    rw (nest_end-cancelled keep_empty (inr (drop_it, none)))
                      (drop_it, none, ground arith, cut)),
              )
              | inr filled ↦ inr (
                small,
                inr (
                    rw (nest_end-closed keep_empty small filled)
                      (filled, refl, closed_at-Holds small)),
              )
            ]
      ]
