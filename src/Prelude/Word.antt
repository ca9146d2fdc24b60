-- ===== src/Prelude/Word.antt =====
-- Single bits of a number: `w >> n & 1`, `w | (1 << n)` and `w & ~(1 << n)`.
use Prim.Native.Nat.{ℕ, zero, suc, ◌+◌, ◌*◌, ◌/◌, ◌%◌, ◌^◌, ◌<◌, ◌≤◌}
use mathlib.Core.Path.{◌≡◌, ◌∙◌, ap}
use mathlib.Core.Bool.{Bool, true, false}
use libnl.Prelude.Tests.{◌==◌, if◌then◌else◌}
use native.Mathlib.Omega.{arith}
use native.Mathlib.Numerals.{unary_clauses}

abbrev pub bit : ℕ → ℕ → Bool
bit w zero = w % 2 == 1
bit w (suc n) = bit (w / 2) n

abbrev pub set_bit : ℕ → ℕ → ℕ
set_bit w zero = w / 2 * 2 + 1
set_bit w (suc n) = set_bit (w / 2) n * 2 + w % 2

abbrev pub clear_bit : ℕ → ℕ → ℕ
clear_bit w zero = w / 2 * 2
clear_bit w (suc n) = clear_bit (w / 2) n * 2 + w % 2

half : (a b : ℕ) → b < 2 → (a * 2 + b) / 2 ≡ a
half a b h = omega arith

even_half : (a : ℕ) → a * 2 / 2 ≡ a
even_half a = omega arith

pub bit-set_bit : (w n m : ℕ) → bit (set_bit w n) m ≡ (if n == m then true else bit w m)
bit-set_bit w zero zero = ground arith
bit-set_bit w zero (suc m) = ap (λ v. bit v m) (half (w / 2) 1 (omega arith)) ∙ ground arith
bit-set_bit w (suc n) zero = ground arith
bit-set_bit w (suc n) (suc m) =
    ap (λ v. bit v m) (half (set_bit (w / 2) n) (w % 2) (omega arith))
    ∙ ground (arith, bit-set_bit (w / 2) n m)

pub bit-clear_bit : (w n m : ℕ) → bit (clear_bit w n) m ≡ (if n == m then false else bit w m)
bit-clear_bit w zero zero = ground arith
bit-clear_bit w zero (suc m) = ap (λ v. bit v m) (even_half (w / 2)) ∙ ground arith
bit-clear_bit w (suc n) zero = ground arith
bit-clear_bit w (suc n) (suc m) =
    ap (λ v. bit v m) (half (clear_bit (w / 2) n) (w % 2) (omega arith))
    ∙ ground (arith, bit-clear_bit (w / 2) n m)

-- Twice a power of two.
double : (k : ℕ) → 2 ^ suc k ≡ 2 ^ k * 2
double k = simp unary_clauses (omega arith)

pub set_bit-lt : (k w n : ℕ) → n < k → w < 2 ^ k → set_bit w n < 2 ^ k
set_bit-lt zero w n l h = absurd (omega arith)
set_bit-lt (suc k) w zero l h = omega (arith, double k)
set_bit-lt (suc k) w (suc n) l h =
    omega (arith, double k, set_bit-lt k (w / 2) n (omega arith) (omega (arith, double k)))

pub clear_bit-le : (w n : ℕ) → clear_bit w n ≤ w
clear_bit-le w zero = omega arith
clear_bit-le w (suc n) = omega (arith, clear_bit-le (w / 2) n)

-- A number with k bits, all of them set.
pub all_bits : (k w : ℕ) → w < 2 ^ k → ((n : ℕ) → n < k → bit w n ≡ true) → w + 1 ≡ 2 ^ k
all_bits zero w h full = omega arith
all_bits (suc k) w h full =
    let odd = full 0 (omega arith) in
    let upper = all_bits k (w / 2) (omega (arith, double k)) (λ n l. full (suc n) (omega arith)) in
    ground (arith, double k, odd, upper)

-- All k bits of 2 ^ k - 1 are set.
pub bits_of_full : (k w n : ℕ) → w + 1 ≡ 2 ^ k → n < k → bit w n ≡ true
bits_of_full zero w n h l = absurd (omega arith)
bits_of_full (suc k) w zero h l = ground (arith, double k)
bits_of_full (suc k) w (suc n) h l =
    bits_of_full k (w / 2) n (omega (arith, double k)) (omega arith)
