-- ===== src/Object.antt =====
-- lib/object.c: cacheable objects. What an object type implements (struct nl_object_ops) is a record
-- of functions; the attributes of an object that only they read are of an arbitrary type.
pub mod Identity
pub mod Diff
pub mod Refs
use Prim.Native.Nat.{bit_and, bit_or}
use libnl.Prelude.{
  ℕ, ◌+◌, ◌-◌, ◌*◌, ◌/◌, ◌%◌, ◌^◌, Bool, true, false, not, ◌&&◌, ◌||◌, Option, none, some, ltb,
  ◌==◌, if◌then◌else◌,
}

-- `ce_ops` is the number of the type; two objects have the same pointer there if these are equal.
pub record Object (D : Type 0) : Type 0 where
  pub ce_ops : ℕ
  pub ce_msgtype : ℕ
  pub ce_mask : ℕ
  pub attrs : D

abbrev pub loose_comparison : ℕ
loose_comparison = 1

abbrev pub id_comparison : ℕ
id_comparison = 2

-- struct nl_object_ops: `none` is a NULL pointer.
pub record ObjectOps (D : Type 0) : Type 0 where
  pub oo_id_attrs : ℕ
  pub oo_id_attrs_get : Option (Object D → ℕ)
  pub oo_compare : Option (Object D → Object D → ℕ → ℕ → ℕ)
  pub oo_keygen : Option (Object D → ℕ → ℕ)

abbrev pub all_attrs : ℕ
all_attrs = 0xFFFF_FFFF

-- `x | (1 << 31)` of a 32-bit x.
abbrev pub set_bit_31 : ℕ → ℕ
set_bit_31 x = x % 2 ^ 31 + 2 ^ 31

-- The type's functions, by its number.
module _ {D : Type 0} (ops : ℕ → ObjectOps D) where
  -- The attributes that identify a pair of objects, before an undetermined set is replaced; `none`
  -- where the two objects differ in them.
  unfoldable pub required : Object D → Object D → Option ℕ
  required a b = elim (ops a.ce_ops).oo_id_attrs_get [
    | some get ↦ if get a == get b then some (get a) else none
    | none ↦
        some (if ltb 0 (ops a.ce_ops).oo_id_attrs then (ops a.ce_ops).oo_id_attrs else all_attrs)
  ]

  -- The rest of nl_object_identical, once the attributes are known; the masks have 64 bits, the
  -- attributes 32.
  unfoldable pub identical_in : Object D → Object D → ℕ → Bool
  identical_in a b attrs =
      let req = if attrs == all_attrs then bit_and a.ce_mask b.ce_mask % 2 ^ 32 else attrs in
      (bit_and a.ce_mask req == req && bit_and b.ce_mask req == req)
      && elim (ops a.ce_ops).oo_compare [
        | none ↦ false
        | some compare ↦ compare a b req id_comparison == 0
      ]

  unfoldable pub nl_object_identical : Object D → Object D → Bool
  unfolding required identical_in
  nl_object_identical a b =
      if a.ce_ops == b.ce_ops
      then elim (required a b) [ none ↦ false | some attrs ↦ identical_in a b attrs ]
      else false

  -- UINT64_MAX stands for a pair that cannot be compared; ~0 is UINT64_MAX too.
  unfoldable pub nl_object_diff64 : Object D → Object D → ℕ
  nl_object_diff64 a b =
      if a.ce_ops == b.ce_ops
      then elim (ops a.ce_ops).oo_compare [
        | none ↦ 2 ^ 64 - 1
        | some compare ↦ compare a b (2 ^ 64 - 1) 0 % 2 ^ 64
      ]
      else 2 ^ 64 - 1

  unfoldable pub nl_object_diff : Object D → Object D → ℕ
  nl_object_diff a b =
      let diff = nl_object_diff64 a b in
      if ltb 0 (diff / 2 ^ 32) then set_bit_31 (diff % 2 ^ 32) else diff % 2 ^ 32

  unfoldable pub nl_object_match_filter : Object D → Object D → Bool
  nl_object_match_filter obj filter =
      if obj.ce_ops == filter.ce_ops
      then elim (ops obj.ce_ops).oo_compare [
        | none ↦ false
        | some compare ↦ compare obj filter filter.ce_mask loose_comparison == 0
      ]
      else false

  unfoldable pub nl_object_keygen : Object D → ℕ → ℕ
  nl_object_keygen obj size = elim (ops obj.ce_ops).oo_keygen [
    | none ↦ 0
    | some keygen ↦ keygen obj size
  ]

  unfoldable pub nl_object_get_id_attrs : Object D → ℕ
  nl_object_get_id_attrs obj = elim (ops obj.ce_ops).oo_id_attrs_get [
    | none ↦ (ops obj.ce_ops).oo_id_attrs
    | some get ↦ get obj
  ]
