-- ===== src/Attr.antt =====
-- lib/attr.c, the reading half: struct nlattr, its sizes, the walk over a stream of attributes,
-- validation against a policy, and the readers of payloads. A pointer into a message that is only
-- read is the list of the bytes from that place on.
pub mod Stream
pub mod Parse
pub mod Bounds
pub mod Payload
use libnl.Prelude.{
  ℕ, zero, suc, ◌+◌, ◌-◌, ◌*◌, ◌/◌, ◌%◌, ◌^◌, Bool, true, false, ◌&&◌, Option, none, some, List, [],
  ◌∷◌, ltb, leb, ◌==◌, if◌then◌else◌, length, get_or, set, take, drop, replicate, min,
}
use libnl.Prelude.Bytes.{align, byte_at, u16_at, of_bytes}
use libnl.Prelude.Int.{ℤ, pos, negsuc, pos_part, minus, sub_ℕ, leb_int, to_uint}
use libnl.Errno.{Errno, range, inval, Outcome, success, error, bug}

-- `const struct nlattr *`
abbrev pub Attr : Type 0
Attr = List ℕ

abbrev pub nla_hdrlen : ℕ
nla_hdrlen = 4

abbrev pub nla_attr_size : ℕ → ℕ
nla_attr_size payload = nla_hdrlen + payload

abbrev pub nla_total_size : ℕ → ℕ
nla_total_size payload = align (nla_attr_size payload)

abbrev pub nla_padlen : ℕ → ℕ
nla_padlen payload = nla_total_size payload - nla_attr_size payload

-- The two fields of the header, as stored.
abbrev pub len_field : Attr → ℕ
len_field nla = u16_at nla 0

abbrev pub type_field : Attr → ℕ
type_field nla = u16_at nla 2

-- NLA_TYPE_MASK clears the two flags in the upper bits.
unfoldable pub nla_type : Attr → ℕ
nla_type nla = type_field nla % 2 ^ 14

unfoldable pub nla_data : Attr → List ℕ
nla_data nla = drop nla_hdrlen nla

unfoldable pub nla_len : Attr → ℤ
nla_len nla = sub_ℕ (len_field nla) nla_hdrlen

unfoldable pub nla_ok : Attr → ℤ → Bool
nla_ok nla remaining =
    leb_int nla_hdrlen remaining
    && (leb nla_hdrlen (len_field nla) && leb_int (len_field nla) remaining)

-- The next attribute, and what `*remaining` becomes.
unfoldable pub nla_next : Attr → ℤ → Attr × ℤ
nla_next nla remaining =
    let totlen = align (len_field nla) in (drop totlen nla, minus remaining totlen)

-- struct nla_policy
pub record Policy : Type 0 where
  pub type : ℕ
  pub minlen : ℕ
  pub maxlen : ℕ

abbrev pub nla_unspec : ℕ
nla_unspec = 0

abbrev pub nla_string : ℕ
nla_string = 5

abbrev pub nla_type_max : ℕ
nla_type_max = 15

-- The table nla_attr_minlen. The entries that it does not name are 0.
unfoldable pub nla_attr_minlen : List ℕ
nla_attr_minlen = 0 ∷ 1 ∷ 2 ∷ 4 ∷ 8 ∷ 1 ∷ 0 ∷ 0 ∷ 0 ∷ 0 ∷ 0 ∷ 0 ∷ 0 ∷ 0 ∷ 0 ∷ 0 ∷ []

unspecified : Policy
unspecified = record { type = 0; minlen = 0; maxlen = 0 }

-- `minlen`, as computed from an entry of the policy.
unfoldable pub min_payload : Policy → ℕ
unfolding nla_attr_minlen
min_payload pt =
    if ltb 0 pt.minlen
    then pt.minlen
    else if pt.type == nla_unspec
    then 0
    else get_or nla_attr_minlen pt.type 0

-- `data[nla_len(nla) - 1]`
last_byte : Attr → ℕ
unfolding nla_data nla_len
last_byte nla = byte_at (nla_data nla) (pos_part (minus (nla_len nla) 1))

-- What validate_nla does with the policy's entry. The test against `minlen` is unsigned, the one
-- against `maxlen` signed.
unfoldable pub validate_entry : Attr → Policy → Outcome
unfolding min_payload last_byte nla_len
validate_entry nla pt =
    if ltb nla_type_max pt.type
    then bug
    else if ltb (to_uint (nla_len nla)) (min_payload pt)
    then error range
    else if ltb 0 pt.maxlen && ltb pt.maxlen (pos_part (nla_len nla))
    then error range
    else if pt.type == nla_string && ltb 0 (last_byte nla)
    then error inval
    else success

-- A type that is read from 16 bits is never negative.
unfoldable pub validate_nla : Attr → ℕ → List Policy → Outcome
unfolding nla_type validate_entry unspecified
validate_nla nla maxtype policy =
    if ltb maxtype (nla_type nla)
    then success
    else validate_entry nla (get_or policy (nla_type nla) unspecified)

-- The `if (policy)` of nla_parse.
unfoldable pub validate_if : Option (List Policy) → Attr → ℕ → Outcome
validate_if none nla maxtype = success
validate_if (some policy) nla maxtype = validate_nla nla maxtype policy

-- The table of attributes by type.
abbrev pub Table : Type 0
Table = List (Option Attr)

-- The loop of nla_parse; `none` means that the fuel ran out.
unfoldable pub parse_loop :
    ℕ → ℕ → Option (List Policy) → Table → Attr → ℤ → Option (Outcome × Table)
parse_loop zero maxtype policy tb nla rem = none
parse_loop (suc fuel) maxtype policy tb nla rem =
    let (nla', rem') = nla_next nla rem in
    let skip = parse_loop fuel maxtype policy tb nla' rem' in
    let store = parse_loop fuel maxtype policy (set tb (nla_type nla) (some nla)) nla' rem' in
    if nla_ok nla rem
    then if ltb maxtype (nla_type nla)
      then skip
      else elim (validate_if policy nla maxtype) [ success ↦ store | e ↦ some (e, tb) ]
    else some (success, tb)

-- Every attribute takes at least four bytes of `len`.
unfoldable pub nla_parse : ℕ → Attr → ℤ → Option (List Policy) → Option (Outcome × Table)
unfolding parse_loop
nla_parse maxtype head len policy =
    parse_loop (suc (pos_part len)) maxtype policy (replicate (suc maxtype) none) head len

unfoldable pub validate_loop : ℕ → ℕ → List Policy → Attr → ℤ → Option Outcome
validate_loop zero maxtype policy nla rem = none
validate_loop (suc fuel) maxtype policy nla rem =
    let (nla', rem') = nla_next nla rem in
    let rest = validate_loop fuel maxtype policy nla' rem' in
    if nla_ok nla rem
    then elim (validate_nla nla maxtype policy) [ success ↦ rest | e ↦ some e ]
    else some success

unfoldable pub nla_validate : Attr → ℤ → ℕ → List Policy → Option Outcome
unfolding validate_loop
nla_validate head len maxtype policy = validate_loop (suc (pos_part len)) maxtype policy head len

-- The inner option is the pointer that nla_find returns.
unfoldable pub find_loop : ℕ → ℕ → Attr → ℤ → Option (Option Attr)
find_loop zero attrtype nla rem = none
find_loop (suc fuel) attrtype nla rem =
    let (nla', rem') = nla_next nla rem in
    let rest = find_loop fuel attrtype nla' rem' in
    if nla_ok nla rem then if nla_type nla == attrtype then some (some nla) else rest else some none

unfoldable pub nla_find : Attr → ℤ → ℕ → Option (Option Attr)
unfolding find_loop
nla_find head len attrtype = find_loop (suc (pos_part len)) attrtype head len

unfoldable pub nla_parse_nested : ℕ → Attr → Option (List Policy) → Option (Outcome × Table)
unfolding nla_parse nla_data nla_len
nla_parse_nested maxtype nla policy = nla_parse maxtype (nla_data nla) (nla_len nla) policy

-- NLA_F_NESTED is the uppermost bit.
unfoldable pub nla_is_nested : Attr → Bool
nla_is_nested attr = type_field attr / 2 ^ 15 % 2 == 1
