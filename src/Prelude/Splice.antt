-- ===== src/Prelude/Splice.antt =====
-- `memcpy` and `memset` into a buffer: bytes that would fall behind the end are dropped.
use Prim.Native.Nat.{ℕ, zero, suc, ◌+◌, ◌≤◌}
use mathlib.Core.Path.{◌≡◌, refl, ap, ◌∙◌}
use mathlib.Core.List.{List, [], ◌∷◌, ◌++◌}
use native.Mathlib.Omega.{arith}
use libnl.Prelude.Lists.{length, take, drop}

module _ {ℓ} {A : Type ℓ} where
  abbrev pub splice : List A → ℕ → List A → List A
  splice [] i bs = []
  splice (x ∷ xs) zero [] = x ∷ xs
  splice (x ∷ xs) zero (b ∷ bs) = b ∷ splice xs zero bs
  splice (x ∷ xs) (suc i) bs = x ∷ splice xs i bs

  pub length-splice : (xs : List A) (i : ℕ) (bs : List A) → length (splice xs i bs) ≡ length xs
  length-splice [] i bs = refl
  length-splice (x ∷ xs) zero [] = refl
  length-splice (x ∷ xs) zero (b ∷ bs) = ap suc (length-splice xs zero bs)
  length-splice (x ∷ xs) (suc i) bs = ap suc (length-splice xs i bs)

  -- What stands below the place of the write stays.
  pub take-splice :
      (n : ℕ) (xs : List A) (i : ℕ) (bs : List A) → n ≤ i → take n (splice xs i bs) ≡ take n xs
  take-splice zero xs i bs h = refl
  take-splice (suc n) [] i bs h = refl
  take-splice (suc n) (x ∷ xs) zero bs h = absurd (omega arith)
  take-splice (suc n) (x ∷ xs) (suc i) bs h = ap (λ t. x ∷ t) (take-splice n xs i bs (omega arith))

  -- From the place of the write on stand the bytes written, and then the old ones.
  pub drop-splice :
      (xs : List A) (i k : ℕ) (bs : List A)
      → k ≡ i + length bs
      → k ≤ length xs
      → drop i (splice xs i bs) ≡ bs ++ drop k xs
  drop-splice [] zero k [] e h = rw (let z : k ≡ 0 = omega arith in z)
  drop-splice [] zero k (b ∷ bs) e h = absurd (omega arith)
  drop-splice [] (suc i) k bs e h = absurd (omega arith)
  drop-splice (x ∷ xs) zero k [] e h = rw (let z : k ≡ 0 = omega arith in z)
  drop-splice (x ∷ xs) zero zero (b ∷ bs) e h = absurd (omega arith)
  drop-splice (x ∷ xs) zero (suc k) (b ∷ bs) e h =
      ap (λ t. b ∷ t) (drop-splice xs zero k bs (omega arith) (omega arith))
  drop-splice (x ∷ xs) (suc i) zero bs e h = absurd (omega arith)
  drop-splice (x ∷ xs) (suc i) (suc k) bs e h = drop-splice xs i k bs (omega arith) (omega arith)

  -- Two writes side by side are one, in either order.
  pub splice-splice_after :
      (xs : List A) (i j : ℕ) (ls bs : List A)
      → j ≡ i + length ls
      → splice (splice xs i ls) j bs ≡ splice xs i (ls ++ bs)
  splice-splice_after [] i j ls bs e = refl
  splice-splice_after (x ∷ xs) zero j [] bs e = rw (let z : j ≡ 0 = omega arith in z)
  splice-splice_after (x ∷ xs) zero zero (a ∷ ls) bs e = absurd (omega arith)
  splice-splice_after (x ∷ xs) zero (suc j) (a ∷ ls) bs e =
      ap (λ t. a ∷ t) (splice-splice_after xs zero j ls bs (omega arith))
  splice-splice_after (x ∷ xs) (suc i) zero ls bs e = absurd (omega arith)
  splice-splice_after (x ∷ xs) (suc i) (suc j) ls bs e =
      ap (λ t. x ∷ t) (splice-splice_after xs i j ls bs (omega arith))

  pub splice_nothing : (xs : List A) (i : ℕ) → splice xs i [] ≡ xs
  splice_nothing [] i = refl
  splice_nothing (x ∷ xs) zero = refl
  splice_nothing (x ∷ xs) (suc i) = ap (λ t. x ∷ t) (splice_nothing xs i)

  pub splice-splice_before :
      (xs : List A) (i j : ℕ) (ls bs : List A)
      → j ≡ i + length ls
      → splice (splice xs j bs) i ls ≡ splice xs i (ls ++ bs)
  splice-splice_before [] i j ls bs e = refl
  splice-splice_before (x ∷ xs) zero j [] bs e =
      splice_nothing (splice (x ∷ xs) j bs) zero
      ∙ (let z : j ≡ 0 = omega arith in ap (λ t. splice (x ∷ xs) t bs) z)
  splice-splice_before (x ∷ xs) zero zero (a ∷ ls) bs e = absurd (omega arith)
  splice-splice_before (x ∷ xs) zero (suc j) (a ∷ ls) bs e =
      ap (λ t. a ∷ t) (splice-splice_before xs zero j ls bs (omega arith))
  splice-splice_before (x ∷ xs) (suc i) zero ls bs e = absurd (omega arith)
  splice-splice_before (x ∷ xs) (suc i) (suc j) ls bs e =
      ap (λ t. x ∷ t) (splice-splice_before xs i j ls bs (omega arith))

  pub drop-splice_above :
      (k i j : ℕ) (xs bs : List A) → i ≡ k + j → drop k (splice xs i bs) ≡ splice (drop k xs) j bs
  drop-splice_above zero i j xs bs e = rw (let z : i ≡ j = omega arith in z)
  drop-splice_above (suc k) i j [] bs e = refl
  drop-splice_above (suc k) zero j (x ∷ xs) bs e = absurd (omega arith)
  drop-splice_above (suc k) (suc i) j (x ∷ xs) bs e = drop-splice_above k i j xs bs (omega arith)

  pub splice-append :
      (xs ys bs : List A) → splice (xs ++ ys) (length xs) bs ≡ xs ++ splice ys zero bs
  splice-append [] ys bs = refl
  splice-append (x ∷ xs) ys bs = ap (λ t. x ∷ t) (splice-append xs ys bs)
