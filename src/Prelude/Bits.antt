-- ===== src/Prelude/Bits.antt =====
-- `&` and `|`: masks of low bits, associativity, and bits that are there already.
use Prim.Native.Nat.{
  max, bit_or, bit_or-bitwise, ◌-◌, ◌<◌, ◌^◌, ◌+◌, ◌*◌, ℕ, zero, suc, ◌/◌, ◌%◌, ◌≤◌, min, bit_and,
  digits, bit_and-bitwise,
}
use mathlib.Core.Path.{sym, ap, ◌≡◌, refl, ◌∙◌}
use native.Mathlib.Nat.{pow-suc}
use native.Mathlib.Omega.{arith}

-- `a & mask` by its digits, with a fuel that the definition sets to `a`.
abbrev masked : ℕ → ℕ → ℕ → ℕ
masked fuel a mask = digits (λ b. zero) min fuel a mask

masked-zero : (fuel a : ℕ) → masked fuel a 0 ≡ 0
masked-zero zero a = refl
masked-zero (suc fuel) zero = refl
masked-zero (suc fuel) (suc a) = omega (arith, masked-zero fuel (suc a / 2))

masked_one : (fuel a : ℕ) → a ≤ fuel → masked fuel a 1 ≡ a % 2
masked_one zero zero h = refl
masked_one zero (suc a) h = absurd (omega arith)
masked_one (suc fuel) zero h = refl
masked_one (suc fuel) (suc a) h = omega (arith, masked-zero fuel (suc a / 2))

masked_three : (fuel a : ℕ) → a ≤ fuel → masked fuel a 3 ≡ a % 4
masked_three zero zero h = refl
masked_three zero (suc a) h = absurd (omega arith)
masked_three (suc fuel) zero h = refl
masked_three (suc fuel) (suc a) h = omega (arith, masked_one fuel (suc a / 2) (omega arith))

pub bit_and_three : (a : ℕ) → bit_and a 3 ≡ a % 4
bit_and_three a = bit_and-bitwise a 3 ∙ masked_three a a (omega arith)

masked_empty : (g b : ℕ) → masked g 0 b ≡ 0
masked_empty zero b = refl
masked_empty (suc g) b = refl

-- Enough fuel is as good as more.
masked_enough : (f g a b : ℕ) → a ≤ f → a ≤ g → masked f a b ≡ masked g a b
masked_enough zero g zero b h h' = sym (masked_empty g b)
masked_enough zero g (suc a) b h h' = absurd (omega arith)
masked_enough (suc f) g zero b h h' = sym (masked_empty g b)
masked_enough (suc f) zero (suc a) b h h' = absurd (omega arith)
masked_enough (suc f) (suc g) (suc a) b h h' =
    omega (arith, masked_enough f g (suc a / 2) (b / 2) (omega arith) (omega arith))

and_split : (a b : ℕ) → bit_and a b ≡ bit_and (a / 2) (b / 2) * 2 + min (a % 2) (b % 2)
and_split zero b = omega (arith, bit_and-bitwise 0 b, bit_and-bitwise 0 (b / 2))
and_split (suc a) b =
    let cut = masked_enough a (suc a / 2) (suc a / 2) (b / 2) (omega arith) (omega arith) in
    omega (arith, cut, bit_and-bitwise (suc a) b, bit_and-bitwise (suc a / 2) (b / 2))

and_assoc_below : (n a b c : ℕ) → a ≤ n → bit_and (bit_and a b) c ≡ bit_and a (bit_and b c)
and_assoc_below n zero b c h =
    ap (λ x. bit_and x c) (bit_and-bitwise 0 b)
    ∙ bit_and-bitwise 0 c
    ∙ sym (bit_and-bitwise 0 (bit_and b c))
and_assoc_below zero (suc a) b c h = absurd (omega arith)
and_assoc_below (suc n) (suc a) b c h =
    let ab = and_split (suc a) b in
    let bc = and_split b c in
    let rest = and_assoc_below n (suc a / 2) (b / 2) (c / 2) (omega arith) in
    let low : bit_and (suc a) b / 2 ≡ bit_and (suc a / 2) (b / 2) = omega (arith, ab) in
    let high : bit_and b c / 2 ≡ bit_and (b / 2) (c / 2) = omega (arith, bc) in
    omega (
      arith,
      and_split (bit_and (suc a) b) c,
      and_split (suc a) (bit_and b c),
      ap (λ x. bit_and x (c / 2)) low,
      ap (bit_and (suc a / 2)) high,
      rest,
      ab,
      bc,
    )

pub bit_and_assoc : (a b c : ℕ) → bit_and (bit_and a b) c ≡ bit_and a (bit_and b c)
bit_and_assoc a b c = and_assoc_below a a b c (omega arith)

times_two : (q p : ℕ) → q * (p * 2) ≡ 2 * (q * p)
times_two zero p = omega arith
times_two (suc q) p = omega (arith, times_two q p)

-- A number is a multiple of 2 ^ k and the part of it under the mask of k ones, which is smaller.
pub low_bits :
    (k x : ℕ)
    → (0 < 2 ^ k)
      × (bit_and x (2 ^ k - 1) < 2 ^ k)
      × ((q : ℕ) × (x ≡ q * 2 ^ k + bit_and x (2 ^ k - 1)))
low_bits zero x =
    let none : bit_and x 0 ≡ 0 = bit_and-bitwise x 0 ∙ masked-zero x x in
    (omega arith, omega (arith, none), (x, omega (arith, none)))
low_bits (suc k) x =
    let (positive, small, (q, e)) = low_bits k (x / 2) in
    let double = pow-suc 2 k in
    let mask : (2 ^ suc k - 1) / 2 ≡ 2 ^ k - 1 = omega (arith, double, positive) in
    let step = and_split x (2 ^ suc k - 1) in
    let high = ap (bit_and (x / 2)) mask in
    let odd : (2 ^ suc k - 1) % 2 ≡ 1 = omega (arith, double, positive) in
    let whole : bit_and x (2 ^ suc k - 1) ≡ bit_and (x / 2) (2 ^ k - 1) * 2 + x % 2 =
      omega (arith, step, high, odd) in
    let twice : q * 2 ^ suc k ≡ 2 * (q * 2 ^ k) = ap (λ p. q * p) double ∙ times_two q (2 ^ k) in
    (
      omega (arith, double, positive),
      omega (arith, whole, small, double),
      (q, omega (arith, whole, e, twice)),
    )

-- `a | b` by its digits, with a fuel that the definition sets to `a`.
abbrev joined : ℕ → ℕ → ℕ → ℕ
joined fuel a b = digits (λ b. b) max fuel a b

joined_empty : (g b : ℕ) → joined g 0 b ≡ b
joined_empty zero b = refl
joined_empty (suc g) b = refl

joined_enough : (f g a b : ℕ) → a ≤ f → a ≤ g → joined f a b ≡ joined g a b
joined_enough zero g zero b h h' = sym (joined_empty g b)
joined_enough zero g (suc a) b h h' = absurd (omega arith)
joined_enough (suc f) g zero b h h' = sym (joined_empty g b)
joined_enough (suc f) zero (suc a) b h h' = absurd (omega arith)
joined_enough (suc f) (suc g) (suc a) b h h' =
    omega (arith, joined_enough f g (suc a / 2) (b / 2) (omega arith) (omega arith))

or_split : (a b : ℕ) → bit_or a b ≡ bit_or (a / 2) (b / 2) * 2 + max (a % 2) (b % 2)
or_split zero b = omega (arith, bit_or-bitwise 0 b, bit_or-bitwise 0 (b / 2))
or_split (suc a) b =
    let cut = joined_enough a (suc a / 2) (suc a / 2) (b / 2) (omega arith) (omega arith) in
    omega (arith, cut, bit_or-bitwise (suc a) b, bit_or-bitwise (suc a / 2) (b / 2))

or_zero : (n a : ℕ) → a ≤ n → bit_or a 0 ≡ a
or_zero n zero h = bit_or-bitwise 0 0
or_zero zero (suc a) h = absurd (omega arith)
or_zero (suc n) (suc a) h = omega (arith, or_split (suc a) 0, or_zero n (suc a / 2) (omega arith))

or_below : (n a b : ℕ) → b ≤ n → (bit_and (bit_or a b) b ≡ b) × (bit_or (bit_or a b) b ≡ bit_or a b)
or_below n a zero h = (
  bit_and-bitwise (bit_or a 0) 0 ∙ masked-zero (bit_or a 0) (bit_or a 0),
  or_zero (bit_or a 0) (bit_or a 0) (omega arith),
)
or_below zero a (suc b) h = absurd (omega arith)
or_below (suc n) a (suc b) h =
    let o = or_split a (suc b) in
    let (kept, again) = or_below n (a / 2) (suc b / 2) (omega arith) in
    let low : bit_or a (suc b) / 2 ≡ bit_or (a / 2) (suc b / 2) = omega (arith, o) in
    let odd : bit_or a (suc b) % 2 ≡ max (a % 2) (suc b % 2) = omega (arith, o) in
    (
      omega (
        arith,
        and_split (bit_or a (suc b)) (suc b),
        ap (λ x. bit_and x (suc b / 2)) low,
        kept,
        odd,
      ),
      omega (
        arith,
        or_split (bit_or a (suc b)) (suc b),
        ap (λ x. bit_or x (suc b / 2)) low,
        again,
        odd,
        o,
      ),
    )

-- What was joined is there, and joining it once more changes nothing.
pub bit_and-bit_or : (a b : ℕ) → bit_and (bit_or a b) b ≡ b
bit_and-bit_or a b = (or_below b a b (omega arith)).0

pub bit_or_twice : (a b : ℕ) → bit_or (bit_or a b) b ≡ bit_or a b
bit_or_twice a b = (or_below b a b (omega arith)).1

joined-zero : (fuel a b : ℕ) → a ≤ fuel → joined fuel a b ≡ 0 → (a ≡ 0) × (b ≡ 0)
joined-zero zero zero b h e = (refl, e)
joined-zero zero (suc a) b h e = absurd (omega arith)
joined-zero (suc fuel) zero b h e = (refl, e)
joined-zero (suc fuel) (suc a) b h e =
    let (low, high) = joined-zero fuel (suc a / 2) (b / 2) (omega arith) (omega (arith, e)) in
    absurd (omega (arith, e, low))

pub bit_or-zero : (a b : ℕ) → bit_or a b ≡ 0 → (a ≡ 0) × (b ≡ 0)
bit_or-zero a b e = joined-zero a a b (omega arith) (sym (bit_or-bitwise a b) ∙ e)
