-- ===== src/Object/Diff.antt =====
-- ATTR_DIFF of include/netlink-private/object-api.h: the bit of an attribute in which two objects
-- differ. An attribute is one bit of the masks.
use Prim.Native.Nat.{bit_and, bit_or}
use libnl.Prelude.Bits.{bit_and_assoc, bit_or-zero}
use libnl.Prelude.{
  ◌++◌, subst, ◌≢◌, ℕ, ◌≡◌, refl, sym, ap, ◌∙◌, Bool, true, false, ◌&&◌, ◌||◌, not, List, [], ◌∷◌,
  ◌==◌, if◌then◌else◌, All, arith,
}

-- AVAILABLE of one object: the mask has the attribute.
abbrev pub has_attr : ℕ → ℕ → Bool
has_attr mask attr = not (bit_and mask attr == 0)

-- ATTR_MISMATCH: one object has the attribute and the other has not, or both have it and differ in it.
abbrev pub attr_mismatch : ℕ → ℕ → ℕ → Bool → Bool
attr_mismatch a b attr differs =
    if has_attr a attr then not (has_attr b attr) || differs else has_attr b attr

-- ATTR_DIFF
abbrev pub attr_diff : ℕ → ℕ → ℕ → ℕ → Bool → ℕ
attr_diff list attr a b differs =
    if has_attr list attr && attr_mismatch a b attr differs then attr else 0

-- The `diff |= ATTR_DIFF(...)` of a comparison one after the other, each with what differs.
unfoldable pub diffs : ℕ → ℕ → ℕ → List (ℕ × Bool) → ℕ
diffs list a b [] = 0
diffs list a b ((attr, differs) ∷ l) = bit_or (attr_diff list attr a b differs) (diffs list a b l)

diffs_cons :
    (list a b attr : ℕ) (d : Bool) (l : List (ℕ × Bool))
    → diffs list a b ((attr, d) ∷ l) ≡ 0
    → (attr_diff list attr a b d ≡ 0) × (diffs list a b l ≡ 0)
unfolding diffs
diffs_cons list a b attr d l h = bit_or-zero (attr_diff list attr a b d) (diffs list a b l) h

cons_diffs :
    (list a b attr : ℕ) (d : Bool) (l : List (ℕ × Bool))
    → attr_diff list attr a b d ≡ 0
    → diffs list a b l ≡ 0
    → diffs list a b ((attr, d) ∷ l) ≡ 0
unfolding diffs
cons_diffs list a b attr d l h h' = ap (λ x. bit_or x (diffs list a b l)) h ∙ ap (bit_or 0) h'

module _ (list : ℕ) where
  -- What the comparison of a with b finds equal, that of b with a does.
  abbrev pub Flips : List (ℕ × Bool) → List (ℕ × Bool) → Type 0
  Flips [] [] = Unit
  Flips ((attr, d) ∷ l) ((attr', e) ∷ m) =
      (attr ≡ attr') × (has_attr list attr ≡ true → d ≡ false → e ≡ false) × Flips l m
  Flips l m = ⊥

  pub Flips-diffs :
      (a b : ℕ) (l m : List (ℕ × Bool)) → Flips l m → diffs list a b l ≡ 0 → diffs list b a m ≡ 0
  unfolding diffs
  Flips-diffs a b [] [] f h = refl
  Flips-diffs a b [] (e ∷ m) f h = absurd f
  Flips-diffs a b (d ∷ l) [] f h = absurd f
  Flips-diffs a b ((attr, d) ∷ l) ((attr', e) ∷ m) (same, f, fs) h =
      let (first, rest) = diffs_cons list a b attr d l h in
      cons_diffs list b a attr' e m
        (ground
          (arith, f, ap (has_attr list) same, ap (has_attr a) same, ap (has_attr b) same, first))
        (Flips-diffs a b l m fs rest)

  attr_diff_joins :
      (attr a b c : ℕ) (d e f : Bool)
      → (has_attr list attr ≡ true → d ≡ false → e ≡ false → f ≡ false)
      → attr_diff list attr a b d ≡ 0
      → attr_diff list attr b c e ≡ 0
      → attr_diff list attr a c f ≡ 0
  attr_diff_joins attr a b c d e f j h h' = ground (arith, j)

  -- An attribute that is compared and that both objects have does not differ.
  pub attr_diff-equal :
      (attr a b : ℕ) (d : Bool)
      → has_attr list attr ≡ true
      → has_attr a attr ≡ true
      → attr ≢ 0
      → attr_diff list attr a b d ≡ 0
      → d ≡ false
  attr_diff-equal attr a b d listed there some h = ground arith

  pub diffs-All :
      (a b : ℕ) (l : List (ℕ × Bool))
      → diffs list a b l ≡ 0
      → All (λ e. attr_diff list e.0 a b e.1 ≡ 0) l
  diffs-All a b [] h = tt
  diffs-All a b ((attr, d) ∷ l) h =
      let (first, rest) = diffs_cons list a b attr d l h in (first, diffs-All a b l rest)

  abbrev pub Joins : List (ℕ × Bool) → List (ℕ × Bool) → List (ℕ × Bool) → Type 0
  Joins [] [] [] = Unit
  Joins ((attr, d) ∷ l) ((attr', e) ∷ m) ((attr'', f) ∷ n) =
      (attr ≡ attr')
      × (attr ≡ attr'')
      × (has_attr list attr ≡ true → d ≡ false → e ≡ false → f ≡ false)
      × Joins l m n
  Joins l m n = ⊥

  -- What the comparisons of a with b and of b with c find equal, that of a with c does.
  pub Joins-diffs :
      (a b c : ℕ) (l m n : List (ℕ × Bool))
      → Joins l m n
      → diffs list a b l ≡ 0
      → diffs list b c m ≡ 0
      → diffs list a c n ≡ 0
  unfolding diffs
  Joins-diffs a b c [] [] [] f h h' = refl
  Joins-diffs a b c [] [] (z ∷ n) f h h' = absurd f
  Joins-diffs a b c [] (y ∷ m) n f h h' = absurd f
  Joins-diffs a b c (x ∷ l) [] n f h h' = absurd f
  Joins-diffs a b c (x ∷ l) (y ∷ m) [] f h h' = absurd f
  Joins-diffs a b c ((attr, d) ∷ l) ((attr', e) ∷ m) ((attr'', f) ∷ n) (s, s', j, js) h h' =
      let (first, rest) = diffs_cons list a b attr d l h in
      let (first', rest') = diffs_cons list b c attr' e m h' in
      cons_diffs list a c attr'' f n
        (subst (λ x. attr_diff list x a c f ≡ 0) s'
          (attr_diff_joins attr a b c d e f j first
            (subst (λ x. attr_diff list x b c e ≡ 0) (sym s) first')))
        (Joins-diffs a b c l m n js rest rest')

  -- An attribute that is compared does not differ, if the first object has all that are compared.
  pub attr_diff-compared :
      (attr a b : ℕ) (d : Bool)
      → bit_and a list ≡ list
      → bit_and list attr ≡ attr
      → attr ≢ 0
      → attr_diff list attr a b d ≡ 0
      → d ≡ false
  attr_diff-compared attr a b d whole within some h =
      let there : bit_and a attr ≡ attr =
        ap (bit_and a) (sym within)
        ∙ sym (bit_and_assoc a list attr)
        ∙ ap (λ x. bit_and x attr) whole
        ∙ within in
      attr_diff-equal attr a b d (ground (arith, within)) (ground (arith, there)) some h

  -- A comparison that goes on over attributes that are not compared.
  pub diffs-unlisted :
      (a b : ℕ) (l m : List (ℕ × Bool))
      → All (λ e. has_attr list e.0 ≡ false) m
      → diffs list a b l ≡ 0
      → diffs list a b (l ++ m) ≡ 0
  unfolding diffs
  diffs-unlisted a b [] [] u h = refl
  diffs-unlisted a b [] ((attr, d) ∷ m) u h =
      cons_diffs list a b attr d m (ground (arith, u.0)) (diffs-unlisted a b [] m u.1 h)
  diffs-unlisted a b ((attr, d) ∷ l) m u h =
      let (first, rest) = diffs_cons list a b attr d l h in
      cons_diffs list a b attr d (l ++ m) first (diffs-unlisted a b l m u rest)

  pub diffs-first :
      (a b : ℕ) (l m : List (ℕ × Bool)) → diffs list a b (l ++ m) ≡ 0 → diffs list a b l ≡ 0
  unfolding diffs
  diffs-first a b [] m h = refl
  diffs-first a b ((attr, d) ∷ l) m h =
      let (first, rest) = diffs_cons list a b attr d (l ++ m) h in
      cons_diffs list a b attr d l first (diffs-first a b l m rest)

  -- An object does not differ from one with the same mask where all fields that are compared are the
  -- same.
  pub diffs-same :
      (a : ℕ) (l : List (ℕ × Bool))
      → All (λ e. has_attr list e.0 ≡ true → e.1 ≡ false) l
      → diffs list a a l ≡ 0
  unfolding diffs
  diffs-same a [] u = refl
  diffs-same a ((attr, d) ∷ l) u =
      cons_diffs list a a attr d l (ground (arith, u.0)) (diffs-same a l u.1)
