-- ===== src/Prelude/Lists.antt =====
-- Lists measured and indexed by native numbers, under the library's names.
use Prim.Native.Nat.{ℕ, zero, suc, ◌+◌, ◌-◌, ◌<◌, min}
use mathlib.Core.Path.{◌≡◌, refl, ap, sym, ◌∙◌}
use mathlib.Core.List.{List, [], ◌∷◌, ◌++◌}
use native.Mathlib.Omega.{arith}
use libnl.Prelude.Tests.{if◌then◌else◌, ◌==◌}

module _ {ℓ} {A : Type ℓ} where
  abbrev pub length : List A → ℕ
  length [] = 0
  length (x ∷ xs) = suc (length xs)

  abbrev pub get_or : List A → ℕ → A → A
  get_or [] i d = d
  get_or (x ∷ xs) zero d = x
  get_or (x ∷ xs) (suc i) d = get_or xs i d

  -- A write out of bounds changes nothing.
  abbrev pub set : List A → ℕ → A → List A
  set [] i v = []
  set (x ∷ xs) zero v = v ∷ xs
  set (x ∷ xs) (suc i) v = x ∷ set xs i v

  abbrev pub take : ℕ → List A → List A
  take zero xs = []
  take (suc n) [] = []
  take (suc n) (x ∷ xs) = x ∷ take n xs

  abbrev pub drop : ℕ → List A → List A
  drop zero xs = xs
  drop (suc n) [] = []
  drop (suc n) (x ∷ xs) = drop n xs

  abbrev pub replicate : ℕ → A → List A
  replicate zero a = []
  replicate (suc n) a = a ∷ replicate n a

  abbrev pub All {κ} : (A → Type κ) → List A → Type κ
  All P [] = Unit
  All P (x ∷ xs) = P x × All P xs

module _ {ℓ} {A : Type ℓ} where
  pub length-append : (xs ys : List A) → length (xs ++ ys) ≡ length xs + length ys
  length-append [] ys = omega arith
  length-append (x ∷ xs) ys = omega (arith, length-append xs ys)

  pub length-take : (n : ℕ) (xs : List A) → length (take n xs) ≡ min n (length xs)
  length-take zero xs = omega arith
  length-take (suc n) [] = omega arith
  length-take (suc n) (x ∷ xs) = omega (arith, length-take n xs)

  pub length-drop : (n : ℕ) (xs : List A) → length (drop n xs) ≡ length xs - n
  length-drop zero xs = omega arith
  length-drop (suc n) [] = omega arith
  length-drop (suc n) (x ∷ xs) = omega (arith, length-drop n xs)

  pub length-replicate : (n : ℕ) (a : A) → length (replicate n a) ≡ n
  length-replicate zero a = refl
  length-replicate (suc n) a = ap suc (length-replicate n a)

  pub length-set : (xs : List A) (i : ℕ) (v : A) → length (set xs i v) ≡ length xs
  length-set [] i v = refl
  length-set (x ∷ xs) zero v = refl
  length-set (x ∷ xs) (suc i) v = ap suc (length-set xs i v)

  pub get_or-replicate : (n i : ℕ) (a : A) → get_or (replicate n a) i a ≡ a
  get_or-replicate zero i a = refl
  get_or-replicate (suc n) zero a = refl
  get_or-replicate (suc n) (suc i) a = get_or-replicate n i a

  pub get_or-set :
      (xs : List A) (i j : ℕ) (v d : A)
      → i < length xs
      → get_or (set xs i v) j d ≡ (if i == j then v else get_or xs j d)
  get_or-set [] i j v d h = absurd (omega arith)
  get_or-set (x ∷ xs) zero zero v d h = refl
  get_or-set (x ∷ xs) zero (suc j) v d h = ground arith
  get_or-set (x ∷ xs) (suc i) zero v d h = ground arith
  get_or-set (x ∷ xs) (suc i) (suc j) v d h = ground (arith, get_or-set xs i j v d (omega arith))

  pub take-append-drop : (n : ℕ) (xs : List A) → take n xs ++ drop n xs ≡ xs
  take-append-drop zero xs = refl
  take-append-drop (suc n) [] = refl
  take-append-drop (suc n) (x ∷ xs) = ap (λ t. x ∷ t) (take-append-drop n xs)

  pub take-length : (n : ℕ) (xs : List A) → n ≡ length xs → take n xs ≡ xs
  take-length zero [] e = refl
  take-length zero (x ∷ xs) e = absurd (omega arith)
  take-length (suc n) [] e = refl
  take-length (suc n) (x ∷ xs) e = ap (λ t. x ∷ t) (take-length n xs (omega arith))

  pub take-append : (xs ys : List A) → take (length xs) (xs ++ ys) ≡ xs
  take-append [] ys = refl
  take-append (x ∷ xs) ys = ap (λ t. x ∷ t) (take-append xs ys)

  pub drop-append : (xs ys : List A) → drop (length xs) (xs ++ ys) ≡ ys
  drop-append [] ys = refl
  drop-append (x ∷ xs) ys = drop-append xs ys

  pub drop-drop : (n m k : ℕ) (xs : List A) → k ≡ m + n → drop n (drop m xs) ≡ drop k xs
  drop-drop n zero k xs e = ap (λ t. drop t xs) (omega arith)
  drop-drop zero (suc m) k [] e = ap (λ t. drop t []) (sym (let e' : k ≡ suc m = omega arith in e'))
  drop-drop (suc n) (suc m) zero [] e = refl
  drop-drop (suc n) (suc m) (suc k) [] e = refl
  drop-drop n (suc m) zero (x ∷ xs) e = absurd (omega arith)
  drop-drop n (suc m) (suc k) (x ∷ xs) e = drop-drop n m k xs (omega arith)

  -- Two prefixes of equal length and their rests.
  pub take-append_eq : (n : ℕ) (xs ys : List A) → n ≡ length xs → take n (xs ++ ys) ≡ xs
  take-append_eq n xs ys e = ap (λ t. take t (xs ++ ys)) e ∙ take-append xs ys

  pub drop-append_eq : (n : ℕ) (xs ys : List A) → n ≡ length xs → drop n (xs ++ ys) ≡ ys
  drop-append_eq n xs ys e = ap (λ t. drop t (xs ++ ys)) e ∙ drop-append xs ys

  pub take-drop : (j k i : ℕ) (xs : List A) → i ≡ k + j → take j (drop k xs) ≡ drop k (take i xs)
  take-drop j zero i xs e = ap (λ t. take t xs) (omega arith)
  take-drop j (suc k) zero xs e = absurd (omega arith)
  take-drop zero (suc k) (suc i) [] e = refl
  take-drop (suc j) (suc k) (suc i) [] e = refl
  take-drop j (suc k) (suc i) (x ∷ xs) e = take-drop j k i xs (omega arith)
