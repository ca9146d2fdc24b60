-- ===== src/Hashtable/Types.antt =====
-- The contract of the hash table filled by object types whose objects may say themselves which
-- attributes identify them (oo_id_attrs_get).
use Prim.Native.Nat.{bit_and}
use libnl.Prelude.{
  ◌⊎◌, inl, inr, ℕ, ◌<◌, ◌≡◌, ◌≢◌, sym, ap, ◌∙◌, Bool, true, ◌&&◌, none, some, ◌==◌, arith,
}
use libnl.Object.{
  Object, ObjectOps, all_attrs, id_comparison, required, identical_in, nl_object_identical,
  nl_object_keygen,
}
use libnl.Object.Refs.{Ptr}
use libnl.Hashtable.Lookup.{IsHash}
use libnl.Hashtable.Objects.{object_keys}

-- The objects of the type that meet P: on those with the same identifying attributes, the comparison
-- in these is an equivalence, and objects that have the attributes and agree in them have the same key.
pub record IsIdentified {D : Type 0} (o : ObjectOps D) (P : Object D → Type 0) : Type 0 where
  pub compare : Object D → Object D → ℕ → ℕ → ℕ
  pub key : Object D → ℕ → ℕ
  pub ids : Object D → ℕ
  pub has_compare : o.oo_compare ≡ some compare
  pub has_key : o.oo_keygen ≡ some key
  pub has_ids :
      (o.oo_id_attrs_get ≡ some ids)
      ⊎ ((o.oo_id_attrs_get ≡ none)
          × (o.oo_id_attrs ≢ 0)
          × ((x : Object D) → ids x ≡ o.oo_id_attrs))
  pub not_all_attrs : (x : Object D) → ids x ≢ all_attrs
  pub compare-refl : (x : Object D) → P x → compare x x (ids x) id_comparison ≡ 0
  pub compare-symm :
      (x y : Object D)
      → P x
      → P y
      → ids x ≡ ids y
      → compare x y (ids x) id_comparison ≡ 0
      → compare y x (ids y) id_comparison ≡ 0
  pub compare-trans :
      (x y z : Object D)
      → P x
      → P y
      → P z
      → ids x ≡ ids y
      → ids y ≡ ids z
      → compare x y (ids x) id_comparison ≡ 0
      → compare y z (ids y) id_comparison ≡ 0
      → compare x z (ids x) id_comparison ≡ 0
  pub key-compare :
      (x y : Object D) (n : ℕ)
      → P x
      → P y
      → ids x ≡ ids y
      → bit_and x.ce_mask (ids x) ≡ ids x
      → bit_and y.ce_mask (ids x) ≡ ids x
      → compare x y (ids x) id_comparison ≡ 0
      → key x n ≡ key y n
  pub key-lt : (x : Object D) (n : ℕ) → 0 < n → key x n < n

module _ {D : Type 0} (ops : ℕ → ObjectOps D) (t : ℕ) (P : Object D → Type 0)
    (type : IsIdentified (ops t) P) where
  -- The objects are identified by the same attributes, have them and do not differ in them.
  abbrev pub agree : Object D → Object D → Bool
  agree a b =
      (type.ids a == type.ids b)
      && ((bit_and a.ce_mask (type.ids a) == type.ids a
            && bit_and b.ce_mask (type.ids a) == type.ids a)
          && type.compare a b (type.ids a) id_comparison == 0)

  identical_in-agree :
      (a b : Object D)
      → a.ce_ops ≡ t
      → type.ids a ≡ type.ids b
      → identical_in ops a b (type.ids a) ≡ agree a b
  unfolding identical_in
  identical_in-agree a b ta same =
      let compares : (ops a.ce_ops).oo_compare ≡ some type.compare =
        ap (λ o. o.oo_compare) (ap ops ta) ∙ type.has_compare in
      ground (arith, compares, type.not_all_attrs a, same)

  pub nl_object_identical-agree :
      (a b : Object D) → a.ce_ops ≡ t → b.ce_ops ≡ t → nl_object_identical ops a b ≡ agree a b
  unfolding nl_object_identical required
  nl_object_identical-agree a b ta tb = elim type.has_ids [
    | inl get ↦
        let gets : (ops a.ce_ops).oo_id_attrs_get ≡ some type.ids =
          ap (λ o. o.oo_id_attrs_get) (ap ops ta) ∙ get in
        ground (arith, gets, identical_in-agree a b ta)
    | inr (get, some_attrs, fixed) ↦
        let gets : (ops a.ce_ops).oo_id_attrs_get ≡ none =
          ap (λ o. o.oo_id_attrs_get) (ap ops ta) ∙ get in
        let attrs : (ops a.ce_ops).oo_id_attrs ≡ (ops t).oo_id_attrs =
          ap (λ o. o.oo_id_attrs) (ap ops ta) in
        ground (
          arith,
          gets,
          attrs,
          fixed a,
          fixed b,
          identical_in-agree a b ta,
          ap (identical_in ops a b) {x = type.ids a} {y = (ops a.ce_ops).oo_id_attrs},
        )
  ]

  nl_object_keygen-key :
      (a : Object D) (n : ℕ) → a.ce_ops ≡ t → nl_object_keygen ops a n ≡ type.key a n
  unfolding nl_object_keygen
  nl_object_keygen-key a n ta =
      let keyed : (ops a.ce_ops).oo_keygen ≡ some type.key =
        ap (λ o. o.oo_keygen) (ap ops ta) ∙ type.has_key in
      ground (arith, keyed)

  agree_symm : (a b : Object D) → P a → P b → agree a b ≡ true → agree b a ≡ true
  agree_symm a b pa pb h =
      let same : type.ids a ≡ type.ids b = ground arith in
      let there = type.compare-symm a b pa pb same (ground arith) in ground (arith, there, same)

  agree_trans :
      (a b c : Object D) → P a → P b → P c → agree a b ≡ true → agree b c ≡ true → agree a c ≡ true
  agree_trans a b c pa pb pc h h' =
      let same : type.ids a ≡ type.ids b = ground arith in
      let same' : type.ids b ≡ type.ids c = ground arith in
      let there = type.compare-trans a b c pa pb pc same same' (ground arith) (ground arith) in
      ground (arith, there, same, same', ap (bit_and c.ce_mask) same)

  agree_key : (a b : Object D) (n : ℕ) → P a → P b → agree a b ≡ true → type.key a n ≡ type.key b n
  agree_key a b n pa pb h =
      type.key-compare a b n pa pb (ground arith) (ground arith) (ground arith) (ground arith)

  both : (x y : Bool) → (x ≡ true → y ≡ true) → (y ≡ true → x ≡ true) → x ≡ y
  both x y f g = ground (arith, f, g)

  -- A table of objects of one such type meets the contract that the operations of the table rest on:
  -- nl_object_identical is symmetric and transitive, identical objects have the same nl_object_keygen,
  -- and the key lies inside the table.
  pub identified_keys-IsHash :
      (heap : Ptr → Object D)
      → ((p : Ptr) → (heap p).ce_ops ≡ t)
      → ((p : Ptr) → P (heap p))
      → IsHash (object_keys ops heap)
  identified_keys-IsHash heap typed valid =
      let same = λ (p q : Ptr). nl_object_identical-agree (heap p) (heap q) (typed p) (typed q) in
      let key = λ (p : Ptr) (n : ℕ). nl_object_keygen-key (heap p) n (typed p) in
      record {
        symm = λ p q.
            same p q
            ∙ both (agree (heap p) (heap q)) (agree (heap q) (heap p))
                (agree_symm (heap p) (heap q) (valid p) (valid q))
                (agree_symm (heap q) (heap p) (valid q) (valid p))
            ∙ sym (same q p);
        trans = λ p q r h h'.
            same p r
            ∙ agree_trans (heap p) (heap q) (heap r) (valid p) (valid q) (valid r)
                (sym (same p q) ∙ h) (sym (same q r) ∙ h');
        key-identical = λ p q n h.
            key p n
            ∙ agree_key (heap p) (heap q) n (valid p) (valid q) (sym (same p q) ∙ h)
            ∙ sym (key q n);
        key-lt = λ p n h. omega (arith, key p n, type.key-lt (heap p) n h);
      }
