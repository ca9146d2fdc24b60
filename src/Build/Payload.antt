-- ===== src/Build/Payload.antt =====
-- What the readers of payloads give back for an attribute that the writers built.
use libnl.Prelude.{
  inl, inr, Bool-cases, take-append_eq, Bool-cases, ℕ, zero, suc, ◌+◌, ◌-◌, ◌^◌, ◌<◌, ◌≤◌, ◌≡◌, ◌↔◌,
  refl, sym, ap, ◌∙◌, List, [], ◌∷◌, ◌++◌, ◌==◌, take, replicate, min, length, arith, length-append,
}
use libnl.Prelude.Int.{pos}
use libnl.Prelude.Bytes.{byte_at, to_bytes, of_bytes, of_bytes-to_bytes}
use libnl.Attr.{Attr, nla_data, nla_len}
use libnl.Build.Content.{Carries}
use libnl.Attr.Payload.{nla_get_uint, nla_strlcpy, nla_memcmp, memcmp, text_length}

-- A number of w bytes comes back.
pub nla_get_uint-Carries :
    (w value m : ℕ) (nla : Attr)
    → m ≡ 256 ^ w
    → value < m
    → Carries nla (to_bytes w value)
    → nla_get_uint w nla ≡ value
unfolding nla_get_uint
nla_get_uint-Carries w value m nla e small (rest, _, bytes) =
    ap (of_bytes w) bytes ∙ of_bytes-to_bytes w value m rest e small

byte_at-end : (str rest : List ℕ) (b : ℕ) → byte_at ((str ++ b ∷ []) ++ rest) (length str) ≡ b
byte_at-end [] rest b = refl
byte_at-end (c ∷ str) rest b = byte_at-end str rest b

length-text : (str : List ℕ) → length (str ++ 0 ∷ []) ≡ length str + 1
length-text str = omega (arith, length-append str (0 ∷ []))

text_length-Carries :
    (nla : Attr) (str : List ℕ) → Carries nla (str ++ 0 ∷ []) → text_length nla ≡ length str
unfolding text_length
text_length-Carries nla str (rest, len, bytes) =
    ground
      (arith, len, length-text str, ap (λ p. byte_at p (length str)) bytes, byte_at-end str rest 0)

take-text :
    (str rest : List ℕ) (n : ℕ) → n ≤ length str → take n ((str ++ 0 ∷ []) ++ rest) ≡ take n str
take-text str rest zero h = refl
take-text [] rest (suc n) h = absurd (omega arith)
take-text (c ∷ str) rest (suc n) h = ap (λ r. c ∷ r) (take-text str rest n (omega arith))

-- The text, as far as there is room for it.
take-Carries :
    (nla : Attr) (str : List ℕ) (n : ℕ)
    → Carries nla (str ++ 0 ∷ [])
    → take (min (length str) n) (nla_data nla) ≡ take (min (length str) n) str
take-Carries nla str n (rest, _, bytes) =
    ap (take (min (length str) n)) bytes ∙ take-text str rest (min (length str) n) (omega arith)

-- A text that was put with its NUL comes back: nla_strlcpy returns its length, whatever the room, and
-- the copy is the text, cut where there is no room for it and its NUL, with zeros behind it.
pub nla_strlcpy-Carries :
    (nla : Attr) (str : List ℕ) (dstsize : ℕ)
    → Carries nla (str ++ 0 ∷ [])
    → 0 < dstsize
    → let len = min (length str) (dstsize - 1) in
      nla_strlcpy nla dstsize ≡ (length str, take len str ++ replicate (dstsize - len) 0)
unfolding nla_strlcpy
nla_strlcpy-Carries nla str dstsize c room =
    ground (arith, text_length-Carries nla str c, take-Carries nla str (dstsize - 1) c)

pub memcmp-eq : (p q : List ℕ) → length p ≡ length q → (memcmp p q ≡ pos 0) ↔ (p ≡ q)
unfolding memcmp
memcmp-eq [] [] e = (λ h. refl, λ h. refl)
memcmp-eq [] (b ∷ q) e = absurd (omega arith)
memcmp-eq (a ∷ p) [] e = absurd (omega arith)
memcmp-eq (a ∷ p) (b ∷ q) e =
    let (there, back) = memcmp-eq p q (omega arith) in
    (λ h. ground (arith, there), λ h. ground (arith, back))

nla_memcmp-same :
    (nla : Attr) (bytes : List ℕ)
    → nla_len nla ≡ pos (length bytes)
    → nla_memcmp nla bytes ≡ memcmp (take (length bytes) (nla_data nla)) bytes
unfolding nla_memcmp
nla_memcmp-same nla bytes len = ground (arith, len)

-- nla_memcmp is 0 exactly when the payload is the bytes given.
pub nla_memcmp-Carries :
    (nla : Attr) (d bytes : List ℕ) → Carries nla d → (nla_memcmp nla bytes ≡ pos 0) ↔ (d ≡ bytes)
unfolding nla_memcmp
nla_memcmp-Carries nla d bytes (rest, len, e) = elim (Bool-cases (length d == length bytes)) [
  | inl same ↦
      let e' : length d ≡ length bytes = ground arith in
      let whole : take (length bytes) (nla_data nla) ≡ d =
        ap (take (length bytes)) e ∙ take-append_eq (length bytes) d rest (sym e') in
      let (there, back) = memcmp-eq d bytes e' in
      let compared = nla_memcmp-same nla bytes (len ∙ ap pos e') ∙ ap (λ p. memcmp p bytes) whole in
      (λ h. there (sym compared ∙ h), λ h. compared ∙ back h)
  | inr other ↦ (λ h. absurd (ground arith), λ h. absurd (ground (arith, ap length h)))
]
