-- ===== src/Hashtable/Objects.antt =====
-- The contract of the hash table filled by the objects of lib/object.c.
use Prim.Native.Nat.{bit_and}
use libnl.Prelude.{ℕ, ◌<◌, ◌≡◌, ◌≢◌, sym, ap, ◌∙◌, Bool, true, ◌&&◌, none, some, ◌==◌, arith}
use libnl.Object.{
  Object, ObjectOps, all_attrs, id_comparison, required, identical_in, nl_object_identical,
  nl_object_keygen,
}
use libnl.Object.Refs.{Ptr}
use libnl.Hashtable.{Keys}
use libnl.Hashtable.Lookup.{IsHash}

-- An object type that can be hashed: it names the attributes that identify an object, its comparison
-- in these is symmetric and transitive, and its key depends on them alone and lies inside the table.
pub record IsHashable {D : Type 0} (o : ObjectOps D) : Type 0 where
  pub compare : Object D → Object D → ℕ → ℕ → ℕ
  pub key : Object D → ℕ → ℕ
  pub has_compare : o.oo_compare ≡ some compare
  pub has_key : o.oo_keygen ≡ some key
  pub fixed_attrs : o.oo_id_attrs_get ≡ none
  pub some_attrs : o.oo_id_attrs ≢ 0
  pub not_all_attrs : o.oo_id_attrs ≢ all_attrs
  pub compare-symm :
      (x y : Object D)
      → compare x y o.oo_id_attrs id_comparison ≡ compare y x o.oo_id_attrs id_comparison
  pub compare-trans :
      (x y z : Object D)
      → compare x y o.oo_id_attrs id_comparison ≡ 0
      → compare y z o.oo_id_attrs id_comparison ≡ 0
      → compare x z o.oo_id_attrs id_comparison ≡ 0
  pub key-compare :
      (x y : Object D) (n : ℕ) → compare x y o.oo_id_attrs id_comparison ≡ 0 → key x n ≡ key y n
  pub key-lt : (x : Object D) (n : ℕ) → 0 < n → key x n < n

-- The keys of a table whose references lead to these objects.
abbrev pub object_keys : {D : Type 0} → (ℕ → ObjectOps D) → (Ptr → Object D) → Keys
object_keys ops heap = record {
  keygen = λ p n. nl_object_keygen ops (heap p) n;
  identical = λ p q. nl_object_identical ops (heap p) (heap q);
}

module _ {D : Type 0} (ops : ℕ → ObjectOps D) (t : ℕ) (type : IsHashable (ops t)) where
  required_fixed : (a b : Object D) → a.ce_ops ≡ t → required ops a b ≡ some (ops t).oo_id_attrs
  unfolding required
  required_fixed a b ta =
      let at : ops a.ce_ops ≡ ops t = ap ops ta in
      let fixed : (ops a.ce_ops).oo_id_attrs_get ≡ none =
        ap (λ o. o.oo_id_attrs_get) at ∙ type.fixed_attrs in
      let ids : (ops a.ce_ops).oo_id_attrs ≡ (ops t).oo_id_attrs = ap (λ o. o.oo_id_attrs) at in
      ground (arith, fixed, ids, type.some_attrs)

  -- The two objects have the attributes, and do not differ in them.
  abbrev agree : Object D → Object D → Bool
  agree a b =
      (bit_and a.ce_mask (ops t).oo_id_attrs == (ops t).oo_id_attrs
        && bit_and b.ce_mask (ops t).oo_id_attrs == (ops t).oo_id_attrs)
      && type.compare a b (ops t).oo_id_attrs id_comparison == 0

  identical_in_fixed :
      (a b : Object D) → a.ce_ops ≡ t → identical_in ops a b (ops t).oo_id_attrs ≡ agree a b
  unfolding identical_in
  identical_in_fixed a b ta =
      let compares : (ops a.ce_ops).oo_compare ≡ some type.compare =
        ap (λ o. o.oo_compare) (ap ops ta) ∙ type.has_compare in
      ground (arith, compares, type.not_all_attrs)

  nl_object_identical_fixed :
      (a b : Object D) → a.ce_ops ≡ t → b.ce_ops ≡ t → nl_object_identical ops a b ≡ agree a b
  unfolding nl_object_identical
  nl_object_identical_fixed a b ta tb =
      ground (arith, required_fixed a b ta, identical_in_fixed a b ta)

  nl_object_keygen_fixed :
      (a : Object D) (n : ℕ) → a.ce_ops ≡ t → nl_object_keygen ops a n ≡ type.key a n
  unfolding nl_object_keygen
  nl_object_keygen_fixed a n ta =
      let keyed : (ops a.ce_ops).oo_keygen ≡ some type.key =
        ap (λ o. o.oo_keygen) (ap ops ta) ∙ type.has_key in
      ground (arith, keyed)

  agree_symm : (a b : Object D) → agree a b ≡ agree b a
  agree_symm a b = ground (arith, type.compare-symm a b)

  agree_trans : (a b c : Object D) → agree a b ≡ true → agree b c ≡ true → agree a c ≡ true
  agree_trans a b c h h' = ground (arith, type.compare-trans a b c)

  agree_key : (a b : Object D) (n : ℕ) → agree a b ≡ true → type.key a n ≡ type.key b n
  agree_key a b n h = ground (arith, type.key-compare a b n)

  -- A table of objects of one such type meets the contract that the operations of the table rest on:
  -- nl_object_identical is symmetric and transitive, identical objects have the same
  -- nl_object_keygen, and the key lies inside the table.
  pub object_keys-IsHash :
      (heap : Ptr → Object D) → ((p : Ptr) → (heap p).ce_ops ≡ t) → IsHash (object_keys ops heap)
  object_keys-IsHash heap typed =
      let same = λ (p q : Ptr). nl_object_identical_fixed (heap p) (heap q) (typed p) (typed q) in
      let key = λ (p : Ptr) (n : ℕ). nl_object_keygen_fixed (heap p) n (typed p) in
      record {
        symm = λ p q. same p q ∙ agree_symm (heap p) (heap q) ∙ sym (same q p);
        trans = λ p q r h h'.
            same p r
            ∙ agree_trans (heap p) (heap q) (heap r) (sym (same p q) ∙ h) (sym (same q r) ∙ h');
        key-identical =
            λ p q n h. key p n ∙ agree_key (heap p) (heap q) n (sym (same p q) ∙ h) ∙ sym (key q n);
        key-lt = λ p n h. omega (arith, key p n, type.key-lt (heap p) n h);
      }
