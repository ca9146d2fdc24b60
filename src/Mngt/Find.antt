-- ===== src/Mngt/Find.antt =====
-- The search through the list of the registered cache types of lib/cache_mngt.c.
use libnl.Prelude.{
  ℕ, ◌≡◌, refl, sym, ap, ◌∙◌, Bool, true, false, none, some, List, [], ◌∷◌, ◌==◌, ==_refl,
  if◌then◌else◌, same_text, Bool-cases, inl, inr, arith,
}
use libnl.Cache.{erase}
use libnl.Cache.Valid.{has}
use libnl.Mngt.{find}

pub same_text-eq : (a b : List ℕ) → same_text a b ≡ true → a ≡ b
same_text-eq [] [] h = refl
same_text-eq [] (b ∷ q) h = absurd (ground arith)
same_text-eq (a ∷ p) [] h = absurd (ground arith)
same_text-eq (a ∷ p) (b ∷ q) h =
    let first : a ≡ b = ground arith in
    ap (λ x. x ∷ p) first ∙ ap (λ x. b ∷ x) (same_text-eq p q (ground arith))

pub same_text_refl : (a : List ℕ) → same_text a a ≡ true
same_text_refl [] = refl
same_text_refl (a ∷ p) = ground (arith, same_text_refl p)

pub find_ext : (f g : ℕ → Bool) (l : List ℕ) → ((t : ℕ) → f t ≡ g t) → find f l ≡ find g l
find_ext f g [] e = refl
find_ext f g (t ∷ l) e = ground (arith, e t, find_ext f g l e)

-- What is found meets the test and stands in the list.
pub find-has :
    (f : ℕ → Bool) (l : List ℕ) (t : ℕ) → find f l ≡ some t → (f t ≡ true) × (has t l ≡ true)
find-has f [] t h = absurd (ground arith)
find-has f (u ∷ l) t h = elim (Bool-cases (f u)) [
  | inl meets ↦ let e : u ≡ t = ground arith in (ap f (sym e) ∙ meets, ground arith)
  | inr misses ↦ let (test, there) = find-has f l t (ground arith) in (test, ground arith)
]

pub find-none :
    (f : ℕ → Bool) (l : List ℕ) → ((t : ℕ) → has t l ≡ true → f t ≡ false) → find f l ≡ none
find-none f [] h = refl
find-none f (t ∷ l) h =
    let here = h t (ground (arith, ==_refl t)) in
    let rest = find-none f l (λ u there. h u (ground arith)) in ground arith

-- A type that does not meet the test may be taken out.
pub find-erase : (f : ℕ → Bool) (t : ℕ) (l : List ℕ) → f t ≡ false → find f (erase t l) ≡ find f l
find-erase f t [] misses = refl
find-erase f t (u ∷ l) misses = elim (Bool-cases (u == t)) [
  | inl same ↦ let e : u ≡ t = ground arith in ground (arith, ap f e)
  | inr other ↦ ground (arith, find-erase f t l misses)
]

-- The search for a type itself.
pub find_self : (t : ℕ) (l : List ℕ) → find (λ u. u == t) l ≡ (if has t l then some t else none)
find_self t [] = refl
find_self t (u ∷ l) = ground (arith, find_self t l)
