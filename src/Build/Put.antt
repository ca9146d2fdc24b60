-- ===== src/Build/Put.antt =====
-- What nla_put does to a message: room or nothing, and the encoded attribute at the old end.
use libnl.Prelude.{
  ℕ, ◌+◌, ◌-◌, ◌%◌, ◌^◌, ◌≤◌, ◌≡◌, refl, Bool, true, false, List, [], ◌∷◌, ◌++◌, ltb, length, take,
  drop, replicate, splice, arith, inl, inr, ◌⊎◌, Bool-cases, splice-splice_before,
  splice-splice_after, drop-splice, take-splice, take-length, length-append, length-replicate,
  length-splice,
}
use libnl.Prelude.Int.{pos, negsuc}
use libnl.Errno.{nomem, inval, success, error}
use libnl.Attr.{nla_total_size, nla_padlen}
use libnl.Msg.{nlmsg_tail}
use libnl.Msg.Buffer.{NlMsg}
use libnl.Msg.Buffer.Valid.{IsValid}
use libnl.Build.{nla_header, nla_put}

-- The bytes of an attribute: header, payload, and zeros up to a boundary of four bytes.
abbrev pub encode : ℕ → List ℕ → List ℕ
encode attrtype d = nla_header attrtype (length d) ++ (d ++ replicate (nla_padlen (length d)) 0)

pub length-encode : (t : ℕ) (d : List ℕ) → length (encode t d) ≡ nla_total_size (length d)
length-encode t d = omega (
  arith,
  length-append d (replicate (nla_padlen (length d)) 0),
  length-replicate {A = ℕ} (nla_padlen (length d)) 0,
)

-- The message with an attribute entered at its end.
abbrev pub with_attr : NlMsg → ℕ → List ℕ → NlMsg
with_attr m t d = record m {
  nm_nlh = record (m.nm_nlh) {
    nlmsg_len = nlmsg_tail m.nm_nlh + nla_total_size (length d);
    payload = splice m.nm_nlh.payload (nlmsg_tail m.nm_nlh - 16) (encode t d);
  };
}

-- The attribute does not fit behind the tail of the message.
abbrev pub no_room : NlMsg → ℕ → Bool
no_room m n = ltb m.nm_size (nlmsg_tail m.nm_nlh + nla_total_size n)

nla_put-no_room :
    (m : NlMsg) (t n : ℕ) (d : List ℕ)
    → no_room m n ≡ true
    → nla_put m t (pos n) d ≡ (error nomem, m)
unfolding nla_put
nla_put-no_room m t n d h = ground arith

nla_put-room :
    {m : NlMsg} (t : ℕ) (d : List ℕ)
    → IsValid m
    → length d ≤ 65531
    → no_room m (length d) ≡ false
    → nla_put m t (pos (length d)) d ≡ (success, with_attr m t d)
unfolding nla_put
nla_put-room {m} t [] v short h = ground arith
nla_put-room {m} t (x ∷ d) v short h =
    let p = m.nm_nlh.payload in
    let n = length (x ∷ d) in
    let i = nlmsg_tail m.nm_nlh - 16 in
    let zeros : List ℕ = replicate (nla_padlen n) 0 in
    ground (
      arith,
      take-length n (x ∷ d) refl,
      splice-splice_before (splice p i (nla_header t n)) (nlmsg_tail m.nm_nlh + 4 - 16)
          (nlmsg_tail m.nm_nlh + (4 + n) % 2 ^ 16 - 16) (x ∷ d) zeros (omega arith),
      splice-splice_after p i (nlmsg_tail m.nm_nlh + 4 - 16) (nla_header t n) (x ∷ d ++ zeros)
          (omega arith),
    )

-- An entered attribute keeps the invariant and what stood below it, and stands at the old tail.
pub record Enters (m : NlMsg) (t : ℕ) (d : List ℕ) (m' : NlMsg) : Type 0 where
  pub valid : IsValid m'
  pub grown : m'.nm_nlh.nlmsg_len ≡ nlmsg_tail m.nm_nlh + nla_total_size (length d)
  pub same_size : m'.nm_size ≡ m.nm_size
  pub kept :
      take (nlmsg_tail m.nm_nlh - 16) m'.nm_nlh.payload
      ≡ take (nlmsg_tail m.nm_nlh - 16) m.nm_nlh.payload
  pub entered :
      drop (nlmsg_tail m.nm_nlh - 16) m'.nm_nlh.payload
      ≡ encode t d ++ drop (nlmsg_tail m.nm_nlh - 16 + nla_total_size (length d)) m.nm_nlh.payload

pub with_attr-Enters :
    {m : NlMsg} (t : ℕ) (d : List ℕ)
    → IsValid m
    → no_room m (length d) ≡ false
    → Enters m t d (with_attr m t d)
with_attr-Enters {m} t d v h =
    let p = m.nm_nlh.payload in
    let i = nlmsg_tail m.nm_nlh - 16 in
    let room : nlmsg_tail m.nm_nlh + nla_total_size (length d) ≤ m.nm_size = ground arith in
    record {
      valid = omega (arith, length-splice p i (encode t d));
      grown = refl;
      same_size = refl;
      kept = take-splice i p i (encode t d) (omega arith);
      entered =
          drop-splice p i (i + nla_total_size (length d)) (encode t d)
            (omega (arith, length-encode t d)) (omega arith);
    }

-- nla_put with a negative length returns -NLE_INVAL. Otherwise, for a payload of at most 65531
-- bytes, it returns -NLE_NOMEM and changes nothing exactly when the padded attribute does not fit
-- behind the tail of the message; else it succeeds, the encoded attribute stands at the old tail,
-- and everything below is kept.
pub nla_put_lem :
    {m : NlMsg} (t : ℕ) (d : List ℕ)
    → IsValid m
    → length d ≤ 65531
    → ((n : ℕ) → nla_put m t (negsuc n) d ≡ (error inval, m))
      × (((no_room m (length d) ≡ true) × (nla_put m t (pos (length d)) d ≡ (error nomem, m)))
          ⊎ ((no_room m (length d) ≡ false)
              × ((m' : NlMsg) × (nla_put m t (pos (length d)) d ≡ (success, m'))
                  × Enters m t d m')))
unfolding nla_put
nla_put_lem {m} t d v short = (
  λ n. refl,
  elim (Bool-cases (no_room m (length d))) [
    | inl full ↦ inl (full, nla_put-no_room m t (length d) d full)
    | inr room ↦
        inr (room, (with_attr m t d, nla_put-room t d v short room, with_attr-Enters t d v room))
  ],
)
