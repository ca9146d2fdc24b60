-- ===== src/Attr/Bounds.antt =====
-- Where the attributes lie that the walk visits, and that nla_parse and nla_find hand out.
use libnl.Prelude.{
  none, get_or, sym, ap, Option, ℕ, ◌+◌, ◌-◌, ◌≤◌, ◌≡◌, refl, ◌∙◌, true, List, [], ◌∷◌, inl, inr,
  ◌⊎◌, arith, some, drop, drop-drop, All,
}
use mathlib.Core.Path.{subst}
use libnl.Prelude.Bytes.{align}
use libnl.Prelude.Int.{ℤ, pos_part}
use libnl.Errno.{Outcome, success}
use libnl.Attr.{nla_parse, Table, pos, Policy, nla_find, Attr, len_field, nla_ok, nla_next}
use libnl.Attr.Stream.{Stream-total, Stream, stop, visit}
use libnl.Attr.Parse.{check, nla_parse_lem, nla_find_lem, first_with, last_with, good_prefix}

-- The header and the payload of an attribute lie inside the first n bytes at `head`.
pub record InBounds (head : Attr) (n : ℕ) (a : Attr) : Type 0 where
  pub offset : ℕ
  pub at_offset : a ≡ drop offset head
  pub header : 4 ≤ len_field a
  pub whole : offset + len_field a ≤ n

nla_ok-bounds :
    (nla : Attr) (rem : ℤ)
    → nla_ok nla rem ≡ true
    → (4 ≤ len_field nla) × (len_field nla ≤ pos_part rem)
unfolding nla_ok
nla_ok-bounds nla rem h = ground arith

nla_next_step :
    (nla head : Attr) (rem : ℤ) (n k : ℕ)
    → nla ≡ drop k head
    → nla_ok nla rem ≡ true
    → pos_part rem ≡ n - k
    → (j : ℕ) × ((nla_next nla rem).0 ≡ drop j head) × (pos_part (nla_next nla rem).1 ≡ n - j)
unfolding nla_next nla_ok
nla_next_step nla head rem n k e h p = (
  k + align (len_field nla),
  ap (drop (align (len_field nla))) e
      ∙ drop-drop (align (len_field nla)) k (k + align (len_field nla)) head refl,
  ground arith,
)

module _ (head : Attr) (n : ℕ) where
  Stream-InBounds :
      {nla : Attr} {rem : ℤ} {l : List Attr} (k : ℕ)
      → Stream nla rem l
      → nla ≡ drop k head
      → pos_part rem ≡ n - k
      → All (InBounds head n) l
  Stream-InBounds k (stop h) e p = tt
  Stream-InBounds k (visit {nla = a} {rem = rem} h s) e p =
      let (low, high) = nla_ok-bounds a rem h in
      let (j, e', p') = nla_next_step a head rem n k e h p in
      (
        record { offset = k; at_offset = e; header = low; whole = omega arith },
        Stream-InBounds j s e' p',
      )

last_with-cases :
    (t : ℕ) (b : Attr) (l : List Attr) {a : Attr}
    → last_with t (b ∷ l) ≡ some a
    → (last_with t l ≡ some a) ⊎ (b ≡ a)
last_with-cases t b l e = ground arith

first_with-cases :
    (t : ℕ) (b : Attr) (l : List Attr) {a : Attr}
    → first_with t (b ∷ l) ≡ some a
    → (first_with t l ≡ some a) ⊎ (b ≡ a)
first_with-cases t b l e = ground arith

All-last_with {ℓ} :
    (P : Attr → Type ℓ) (t : ℕ) (l : List Attr) {a : Attr} → All P l → last_with t l ≡ some a → P a
All-last_with P t [] h e = absurd (cc)
All-last_with P t (b ∷ l) {a} h e = elim (last_with-cases t b l e) [
  | inl f ↦ All-last_with P t l h.1 f
  | inr f ↦ subst P f h.0
]

pub All-first_with {ℓ} :
    (P : Attr → Type ℓ) (t : ℕ) (l : List Attr) {a : Attr} → All P l → first_with t l ≡ some a → P a
All-first_with P t [] h e = absurd (cc)
All-first_with P t (b ∷ l) {a} h e = elim (first_with-cases t b l e) [
  | inl f ↦ All-first_with P t l h.1 f
  | inr f ↦ subst P f h.0
]

All-good_prefix {ℓ} :
    (P : Attr → Type ℓ) (f : Attr → Outcome) (l : List Attr) → All P l → All P (good_prefix f l)
All-good_prefix P f [] h = tt
All-good_prefix P f (a ∷ l) h =
    elim (f a) as (λ o. All P (elim o [ success ↦ a ∷ good_prefix f l | _ ↦ [] ])) [
      | success ↦ (h.0, All-good_prefix P f l h.1)
      | _ ↦ tt
    ]

-- Whatever the bytes at `head` are, an attribute that nla_parse enters in the table for a type up to
-- `maxtype` lies inside the `n` bytes that it was given, with a header of its own.
pub nla_parse-InBounds :
    (maxtype : ℕ) (policy : Option (List Policy)) (head : Attr) (n t : ℕ) {o : Outcome} {tb : Table}
    {a : Attr}
    → nla_parse maxtype head (pos n) policy ≡ some (o, tb)
    → t ≤ maxtype
    → get_or tb t none ≡ some a
    → InBounds head n a
nla_parse-InBounds maxtype policy head n t {tb = tb} {a = a} run h e =
    let (l, s) = Stream-total head (pos n) in
    let (tb', run', entries) = nla_parse_lem maxtype policy s in
    let same : tb ≡ tb' = cc in
    All-last_with (InBounds head n) t (good_prefix (check maxtype policy) l)
      (All-good_prefix (InBounds head n) (check maxtype policy) l
        (Stream-InBounds head n 0 s refl (omega arith)))
      (sym (entries t h) ∙ ap (λ (x : Table). get_or x t none) (sym same) ∙ e)

-- The attribute that nla_find returns lies inside the `n` bytes that it was given.
pub nla_find-InBounds :
    (head : Attr) (n t : ℕ) {a : Attr} → nla_find head (pos n) t ≡ some (some a) → InBounds head n a
nla_find-InBounds head n t {a} e =
    let (l, s) = Stream-total head (pos n) in
    let found : first_with t l ≡ some a = cc (nla_find_lem t s) in
    All-first_with (InBounds head n) t l (Stream-InBounds head n 0 s refl (omega arith)) found
