-- ===== src/Prelude/Int.antt =====
-- The C type `int` as the signed integers, under the library's names. `negsuc n` is -(n + 1).
use Prim.Native.Nat.{ℕ, suc, ◌+◌, ◌-◌, ◌^◌}
use mathlib.Core.Bool.{Bool, true, false}
use libnl.Prelude.Tests.{leb, if◌then◌else◌}

pub data ℤ : Type 0 where
  pos : ℕ → ℤ
  negsuc : ℕ → ℤ

abbrev pub pos_part : ℤ → ℕ
pos_part (pos n) = n
pos_part (negsuc n) = 0

abbrev pub neg_part : ℤ → ℕ
neg_part (pos n) = 0
neg_part (negsuc n) = suc n

-- a - b, as an integer.
abbrev pub sub_ℕ : ℕ → ℕ → ℤ
sub_ℕ a b = if leb b a then pos (a - b) else negsuc (b - a - 1)

-- z - n.
abbrev pub minus : ℤ → ℕ → ℤ
minus z n = sub_ℕ (pos_part z) (neg_part z + n)

-- n <= z, for an `int` z.
abbrev pub leb_int : ℕ → ℤ → Bool
leb_int n (pos m) = leb n m
leb_int n (negsuc m) = false

-- The `int` converted to a 32-bit `unsigned int`.
abbrev pub to_uint : ℤ → ℕ
to_uint (pos n) = n
to_uint (negsuc n) = 2 ^ 32 - 1 - n

-- z + n.
abbrev pub plus : ℤ → ℕ → ℤ
plus z n = sub_ℕ (pos_part z + n) (neg_part z)

-- z <= 0 and z < 0.
abbrev pub is_nonpos : ℤ → Bool
is_nonpos (pos n) = leb n 0
is_nonpos (negsuc n) = true

abbrev pub is_neg : ℤ → Bool
is_neg (pos n) = false
is_neg (negsuc n) = true
