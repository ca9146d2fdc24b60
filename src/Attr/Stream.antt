-- ===== src/Attr/Stream.antt =====
-- What nla_for_each_attr visits: the walk by nla_ok and nla_next as an inductive relation, and its
-- end.
use libnl.Prelude.{
  ℕ, zero, suc, ◌+◌, ◌≤◌, ◌<◌, ◌≡◌, refl, ap, true, false, List, [], ◌∷◌, inl, inr, Bool-cases,
  arith,
}
use libnl.Prelude.Int.{ℤ, pos_part}
use libnl.Attr.{Attr, nla_ok, nla_next}

-- The attributes visited from a pointer with so many bytes remaining.
pub data Stream : Attr → ℤ → List Attr → Type 0 where
  stop : {nla : Attr} {rem : ℤ} → nla_ok nla rem ≡ false → Stream nla rem []
  visit :
      {nla : Attr} {rem : ℤ} {attrs : List Attr}
      → nla_ok nla rem ≡ true
      → Stream (nla_next nla rem).0 (nla_next nla rem).1 attrs
      → Stream nla rem (nla ∷ attrs)

-- Every step takes at least the four bytes of a header.
pub nla_next-lt :
    (nla : Attr) (rem : ℤ)
    → nla_ok nla rem ≡ true
    → pos_part (nla_next nla rem).1 + 4 ≤ pos_part rem
unfolding nla_ok nla_next
nla_next-lt nla rem h = ground arith

Stream-fuel :
    (fuel : ℕ) (nla : Attr) (rem : ℤ)
    → pos_part rem < fuel
    → (attrs : List Attr) × Stream nla rem attrs
Stream-fuel zero nla rem h = absurd (omega arith)
Stream-fuel (suc fuel) nla rem h = elim (Bool-cases (nla_ok nla rem)) [
  | inl more ↦
      let (attrs, s) =
        Stream-fuel fuel (nla_next nla rem).0 (nla_next nla rem).1
          (omega (arith, nla_next-lt nla rem more)) in
      (nla ∷ attrs, visit more s)
  | inr done ↦ ([], stop done)
]

-- The walk ends, whatever the bytes are.
pub Stream-total : (nla : Attr) (rem : ℤ) → (attrs : List Attr) × Stream nla rem attrs
Stream-total nla rem = Stream-fuel (suc (pos_part rem)) nla rem (omega arith)

pub Stream-unique :
    {nla : Attr} {rem : ℤ} {attrs bs : List Attr}
    → Stream nla rem attrs
    → Stream nla rem bs
    → attrs ≡ bs
Stream-unique (stop h) (stop k) = refl
Stream-unique (stop h) (visit k s) = cc
Stream-unique (visit h s) (stop k) = cc
Stream-unique (visit {nla = a} h s) (visit k t) = ap (λ r. a ∷ r) (Stream-unique s t)
