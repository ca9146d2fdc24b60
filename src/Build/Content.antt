-- ===== src/Build/Content.antt =====
-- A message as the list of the attributes in it, between the writing and the parsing half of
-- lib/attr.c.
use libnl.Prelude.{
  ℕ, ◌+◌, ◌-◌, ◌%◌, ◌^◌, ◌≤◌, ◌≡◌, refl, sym, ap, ap₂, ◌∙◌, true, false, List, [], ◌∷◌, ◌++◌,
  length, take, drop, replicate, arith, map, append-nil, append_assoc, take-append-drop, take-drop,
  drop-drop, take-append_eq, drop-append_eq, length-append, All,
}
use mathlib.Core.Path.{subst, subst₂}
use libnl.Prelude.Int.{pos, pos_part}
use libnl.Prelude.Bytes.{align}
use libnl.Attr.{
  Attr, nla_total_size, len_field, nla_padlen, nla_type, nla_len, nla_data, nla_ok, nla_next,
}
use libnl.Attr.Stream.{Stream, stop, visit}
use libnl.Msg.{nlmsg_tail}
use libnl.Msg.Buffer.{NlMsg}
use libnl.Msg.Buffer.Valid.{IsValid}
use libnl.Build.Put.{encode, length-encode, Enters}

-- An attribute of the content: its type and its payload.
abbrev pub Item : Type 0
Item = ℕ × List ℕ

unfoldable pub encodes : List Item → List ℕ
encodes [] = []
encodes (a ∷ l) = encode a.0 a.1 ++ encodes l

-- The header can hold the size of each payload.
abbrev pub Fits : List Item → Type 0
Fits l = All (λ a. length a.1 ≤ 65531) l

-- The type without its flags, as the reader sees it.
abbrev pub plain : Item → Item
plain a = (a.0 % 2 ^ 14, a.1)

-- The type and the payload that stand at a pointer to an attribute.
abbrev pub item_at : Attr → Item
item_at a = (nla_type a, take (pos_part (nla_len a)) (nla_data a))

item_at-encode :
    (t : ℕ) (d rest : List ℕ) → length d ≤ 65531 → item_at (encode t d ++ rest) ≡ (t % 2 ^ 14, d)
unfolding nla_type nla_len nla_data
item_at-encode t d rest hd =
    let zeros : List ℕ = replicate (nla_padlen (length d)) 0 in
    ground (arith, append_assoc d zeros rest, take-append_eq (length d) d (zeros ++ rest) refl)

-- The attribute has these bytes, and no more, as its payload.
abbrev pub Carries : Attr → List ℕ → Type 0
Carries nla d = (rest : List ℕ) × (nla_len nla ≡ pos (length d)) × (nla_data nla ≡ d ++ rest)

-- All of the payload is there.
abbrev pub IsWhole : Attr → Type 0
IsWhole nla = Carries nla (item_at nla).1

encode-Carries : (t : ℕ) (d rest : List ℕ) → length d ≤ 65531 → Carries (encode t d ++ rest) d
unfolding nla_len nla_data
encode-Carries t d rest hd =
    let zeros : List ℕ = replicate (nla_padlen (length d)) 0 in
    (zeros ++ rest, ground arith, append_assoc d zeros rest)

encode-IsWhole : (t : ℕ) (d rest : List ℕ) → length d ≤ 65531 → IsWhole (encode t d ++ rest)
encode-IsWhole t d rest hd =
    subst (λ b. Carries (encode t d ++ rest) b.1) (sym (item_at-encode t d rest hd))
      (encode-Carries t d rest hd)

nla_ok-encode :
    (t r : ℕ) (d rest : List ℕ)
    → length d ≤ 65531
    → nla_total_size (length d) ≤ r
    → nla_ok (encode t d ++ rest) (pos r) ≡ true
unfolding nla_ok
nla_ok-encode t r d rest hd h = ground arith

nla_ok_end : (p : Attr) → nla_ok p (pos 0) ≡ false
unfolding nla_ok
nla_ok_end p = refl

nla_next-encode :
    (t r k : ℕ) (d rest : List ℕ)
    → length d ≤ 65531
    → r ≡ nla_total_size (length d) + k
    → nla_next (encode t d ++ rest) (pos r) ≡ (rest, pos k)
unfolding nla_next
nla_next-encode t r k d rest hd e =
    let p = encode t d ++ rest in
    let whole : align (len_field p) ≡ length (encode t d) = omega (arith, length-encode t d) in
    ground (arith, drop-append_eq (align (len_field p)) (encode t d) rest whole, length-encode t d)

-- The walk over encoded attributes visits each of them, whatever follows.
pub Stream-encodes :
    (l : List Item) (rest : List ℕ) (r : ℕ)
    → Fits l
    → r ≡ length (encodes l)
    → (visited : List Attr) × Stream (encodes l ++ rest) (pos r) visited
      × (map item_at visited ≡ map plain l)
      × All IsWhole visited
unfolding encodes
Stream-encodes [] rest r f e = ([], stop (rw e (nla_ok_end rest)), refl, tt)
Stream-encodes ((t, d) ∷ l) rest r f e =
    let k = length (encodes l) in
    let e' : r ≡ nla_total_size (length d) + k =
      omega (arith, length-append (encode t d) (encodes l), length-encode t d) in
    let (visited, s, m, w) = Stream-encodes l rest k f.1 refl in
    let p = encode t d ++ (encodes l ++ rest) in
    let next = nla_next-encode t r k d (encodes l ++ rest) f.0 e' in
    let more = visit (nla_ok-encode t r d (encodes l ++ rest) f.0 (omega arith)) (
      subst₂ (λ q j. Stream q j visited) (sym (ap (λ z. z.0) next)) (sym (ap (λ z. z.1) next)) s) in
    (
      p ∷ visited,
      subst (λ q. Stream q (pos r) (p ∷ visited)) (sym (append_assoc (encode t d) (encodes l) rest))
          more,
      ap₂ ◌∷◌ (item_at-encode t d (encodes l ++ rest) f.0) m,
      (encode-IsWhole t d (encodes l ++ rest) f.0, w),
    )

-- Behind the header and `h` bytes of protocol header the message holds exactly these attributes.
pub record Holds (m : NlMsg) (h : ℕ) (l : List Item) : Type 0 where
  pub valid : IsValid m
  pub rest : List ℕ
  pub content : drop (align h) m.nm_nlh.payload ≡ encodes l ++ rest
  pub extent : m.nm_nlh.nlmsg_len ≡ 16 + align h + length (encodes l)

-- Encoded attributes end at a boundary of four bytes.
pub encodes_aligned : (l : List Item) → length (encodes l) % 4 ≡ 0
unfolding encodes
encodes_aligned [] = refl
encodes_aligned ((t, d) ∷ l) =
    omega (arith, length-append (encode t d) (encodes l), length-encode t d, encodes_aligned l)

pub encodes-append : (l l' : List Item) → encodes (l ++ l') ≡ encodes l ++ encodes l'
unfolding encodes
encodes-append [] l' = refl
encodes-append (a ∷ l) l' =
    ap (λ r. encode a.0 a.1 ++ r) (encodes-append l l')
    ∙ sym (append_assoc (encode a.0 a.1) (encodes l) (encodes l'))

pub encodes_snoc :
    (l : List Item) (t : ℕ) (d : List ℕ) → encodes (l ++ (t, d) ∷ []) ≡ encodes l ++ encode t d
unfolding encodes
encodes_snoc l t d =
    encodes-append l ((t, d) ∷ []) ∙ ap (λ r. encodes l ++ r) (append-nil (encode t d))

-- The length of a message that holds encoded attributes is aligned.
pub Holds-aligned :
    {m : NlMsg} {h : ℕ} {l : List Item} → Holds m h l → nlmsg_tail m.nm_nlh ≡ m.nm_nlh.nlmsg_len
Holds-aligned {l = l} was = omega (arith, was.extent, encodes_aligned l)

-- An attribute that nla_put enters comes behind those that the message holds.
pub Enters-Holds :
    {m m' : NlMsg} (h t : ℕ) (l : List Item) (d : List ℕ)
    → Holds m h l
    → Enters m t d m'
    → Holds m' h (l ++ (t, d) ∷ [])
Enters-Holds {m} {m'} h t l d was e =
    let k = align h in
    let j = length (encodes l) in
    let p = m.nm_nlh.payload in
    let p' = m'.nm_nlh.payload in
    let i = nlmsg_tail m.nm_nlh - 16 in
    let tail : i ≡ k + j = omega (arith, was.extent, encodes_aligned l) in
    let rest' = drop (i + nla_total_size (length d)) p in
    let low : take j (drop k p') ≡ encodes l =
      take-drop j k i p' tail
      ∙ ap (drop k) e.kept
      ∙ sym (take-drop j k i p tail)
      ∙ ap (take j) was.content
      ∙ take-append_eq j (encodes l) was.rest refl in
    let high : drop j (drop k p') ≡ encode t d ++ rest' = drop-drop j k i p' tail ∙ e.entered in
    let size : length (encodes (l ++ (t, d) ∷ [])) ≡ j + nla_total_size (length d) =
      ap length (encodes_snoc l t d)
      ∙ length-append (encodes l) (encode t d)
      ∙ ap (λ n. j + n) (length-encode t d) in
    record {
      valid = e.valid;
      rest = rest';
      content =
          sym (take-append-drop j (drop k p'))
          ∙ ap₂ ◌++◌ low high
          ∙ sym (append_assoc (encodes l) (encode t d) rest')
          ∙ ap (λ q. q ++ rest') (sym (encodes_snoc l t d));
      extent = omega (arith, e.grown, was.extent, size, encodes_aligned l);
    }
