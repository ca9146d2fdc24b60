-- ===== src/Attr/Payload.antt =====
-- lib/attr.c: the readers of an attribute's payload.
use libnl.Prelude.{
  ℕ, zero, ◌-◌, ◌^◌, Bool, true, false, Option, none, some, List, [], ◌∷◌, ◌++◌, ◌==◌, ltb, leb,
  ◌&&◌, if◌then◌else◌, take, replicate, min, length,
}
use libnl.Prelude.Int.{ℤ, pos, negsuc, minus, sub_ℕ}
use libnl.Prelude.Bytes.{byte_at, of_bytes}
use libnl.Attr.{Attr, nla_data, nla_len}

-- An int converted to size_t, of 64 bits.
abbrev pub to_size : ℤ → ℕ
to_size (pos n) = n
to_size (negsuc n) = 2 ^ 64 - 1 - n

-- The bytes that are copied, for a count that is not negative; their number is returned.
unfoldable pub nla_memcpy : Option Attr → ℕ → ℤ × List ℕ
nla_memcpy none count = (pos 0, [])
nla_memcpy (some src) count = elim (nla_len src) [
  | pos n ↦ (pos (min count n), take (min count n) (nla_data src))
  | negsuc n ↦ (negsuc n, [])
]

-- `srclen` without the NUL at the end, if there is one.
unfoldable pub text_length : Attr → ℕ
text_length nla =
    let srclen = to_size (nla_len nla) in
    if ltb 0 srclen && byte_at (nla_data nla) (srclen - 1) == 0 then srclen - 1 else srclen

-- The result, and the dstsize bytes at dst afterwards.
unfoldable pub nla_strlcpy : Attr → ℕ → ℕ × List ℕ
unfolding text_length
nla_strlcpy nla dstsize =
    let srclen = text_length nla in
    let len = if leb dstsize srclen then dstsize - 1 else srclen in
    (srclen, if ltb 0 dstsize then take len (nla_data nla) ++ replicate (dstsize - len) 0 else [])

-- memcmp: the difference of the first bytes that differ.
unfoldable pub memcmp : List ℕ → List ℕ → ℤ
memcmp (a ∷ p) (b ∷ q) = if a == b then memcmp p q else sub_ℕ a b
memcmp p q = pos 0

unfoldable pub nla_memcmp : Attr → List ℕ → ℤ
unfolding memcmp
nla_memcmp nla bytes = elim (minus (nla_len nla) (length bytes)) [
  | pos zero ↦ memcmp (take (length bytes) (nla_data nla)) bytes
  | d ↦ d
]

-- The readers of u8, u16 and u32, which do not look at the length.
unfoldable pub nla_get_uint : ℕ → Attr → ℕ
nla_get_uint w nla = of_bytes w (nla_data nla)

unfoldable pub nla_get_u64 : Option Attr → ℕ
nla_get_u64 none = 0
nla_get_u64 (some nla) = if leb 8 (to_size (nla_len nla)) then of_bytes 8 (nla_data nla) else 0

unfoldable pub nla_get_msecs : Option Attr → ℕ
unfolding nla_get_u64
nla_get_msecs nla = nla_get_u64 nla

unfoldable pub nla_get_flag : Option Attr → Bool
nla_get_flag none = false
nla_get_flag (some nla) = true
