-- ===== src/Route/Links/Ops.antt =====
-- link_obj_ops fills the contract of the hash table.
use Prim.Native.Nat.{bit_and}
use libnl.Prelude.{
  ℕ, ◌%◌, ◌≡◌, refl, ap, ◌∙◌, Bool, true, false, Option, List, [], ◌∷◌, ◌++◌, ◌==◌, if◌then◌else◌,
  inr, arith, All,
}
use libnl.Prelude.Bytes.{to_bytes}
use libnl.Object.{Object, id_comparison}
use libnl.Object.Diff.{
  diffs-same, has_attr, diffs, Flips-diffs, Joins-diffs, diffs-All, diffs-first, diffs-unlisted,
}
use libnl.Hashtable.Types.{IsIdentified}
use libnl.Route.{same_number}
use libnl.Route.Links.{
  Link, link_base, link_rest, link_compare, link_hash_key, link_keygen, link_id_attrs, link_obj_ops,
  rtnl_link_af_data_compare, rtnl_link_info_data_compare,
}
use libnl.Route.Links.Contract.{flips, joins, same}

abbrev Unlisted : List (ℕ × Bool) → Type 0
Unlisted l = All (λ (e : ℕ × Bool). has_attr link_id_attrs e.0 ≡ false) l

if-Unlisted :
    (c : Bool) (l m : List (ℕ × Bool)) → Unlisted l → Unlisted m → Unlisted (if c then l else m)
if-Unlisted true l m u v = u
if-Unlisted false l m u v = v

module _ (af_ops : ℕ → Option (Option (Link → Link → Bool)))
    (io_compare : ℕ → Option (Link → Link → ℕ → Bool)) where
  rest-Unlisted : (a b : Link) → Unlisted (link_rest af_ops io_compare a b id_comparison)
  rest-Unlisted a b = (
    refl,
    if-Unlisted
        (if a.l_family == b.l_family
          then rtnl_link_af_data_compare af_ops io_compare a b a.l_family
          else false)
        ((0x4000000, true) ∷ [])
        ((0x40000, rtnl_link_info_data_compare af_ops io_compare a b id_comparison) ∷ []) (refl, tt)
        (refl, tt),
  )

  base_zero :
      (x y : Object Link)
      → link_compare af_ops io_compare x y link_id_attrs id_comparison ≡ 0
      → diffs link_id_attrs x.ce_mask y.ce_mask (link_base x.attrs y.attrs) ≡ 0
  unfolding link_compare
  base_zero x y h =
      diffs-first link_id_attrs x.ce_mask y.ce_mask (link_base x.attrs y.attrs)
        (link_rest af_ops io_compare x.attrs y.attrs id_comparison) h

  compare_zero :
      (x y : Object Link)
      → diffs link_id_attrs x.ce_mask y.ce_mask (link_base x.attrs y.attrs) ≡ 0
      → link_compare af_ops io_compare x y link_id_attrs id_comparison ≡ 0
  unfolding link_compare
  compare_zero x y h =
      diffs-unlisted link_id_attrs x.ce_mask y.ce_mask (link_base x.attrs y.attrs)
        (link_rest af_ops io_compare x.attrs y.attrs id_comparison) (rest-Unlisted x.attrs y.attrs)
        h

  link_key :
      (x y : Object Link)
      → bit_and x.ce_mask link_id_attrs ≡ link_id_attrs
      → link_compare af_ops io_compare x y link_id_attrs id_comparison ≡ 0
      → link_hash_key x.attrs ≡ link_hash_key y.attrs
  unfolding link_hash_key
  link_key x y whole h =
      let p =
        diffs-All link_id_attrs x.ce_mask y.ce_mask (link_base x.attrs y.attrs) (base_zero x y h) in
      let index =
        same_number link_id_attrs 0x800 x.ce_mask y.ce_mask whole refl (omega arith) x.attrs.l_index
          y.attrs.l_index p.0 in
      let family =
        same_number link_id_attrs 0x1000 x.ce_mask y.ce_mask whole refl (omega arith)
          x.attrs.l_family y.attrs.l_family p.1.1.1.1.1.1.1.0 in
      ap (λ i. to_bytes 4 i ++ to_bytes 4 x.attrs.l_family) index
      ∙ ap (λ f. to_bytes 4 y.attrs.l_index ++ to_bytes 4 f) family

  -- Links meet the contract of the hash table: that link_compare finds no difference in the index
  -- and the family is reflexive, symmetric and transitive, and links that have both and agree in them have the same link_keygen, which lies
  -- inside the table.
  pub link_obj_ops-IsIdentified :
      (nl_hash : List ℕ → ℕ) → IsIdentified (link_obj_ops af_ops io_compare nl_hash) (λ x. Unit {0})
  unfolding link_obj_ops link_keygen
  link_obj_ops-IsIdentified nl_hash = record {
    compare = link_compare af_ops io_compare;
    key = link_keygen nl_hash;
    ids = λ x. link_id_attrs;
    has_compare = refl;
    has_key = refl;
    has_ids = inr (refl, (λ h. absurd (omega (arith, h))), λ x. refl);
    not_all_attrs = λ x h. absurd (omega (arith, h));
    compare-refl = λ x vx.
        compare_zero x x
          (diffs-same link_id_attrs x.ce_mask (link_base x.attrs x.attrs) (same x.attrs));
    compare-symm = λ x y vx vy same h. compare_zero y x (
        Flips-diffs link_id_attrs x.ce_mask y.ce_mask (link_base x.attrs y.attrs)
          (link_base y.attrs x.attrs) (flips x.attrs y.attrs) (base_zero x y h));
    compare-trans = λ x y z vx vy vz same same' h h'. compare_zero x z (
        Joins-diffs link_id_attrs x.ce_mask y.ce_mask z.ce_mask (link_base x.attrs y.attrs)
          (link_base y.attrs z.attrs) (link_base x.attrs z.attrs) (joins x.attrs y.attrs z.attrs)
          (base_zero x y h) (base_zero y z h'));
    key-compare = λ x y n vx vy same mx my h. ap (λ k. nl_hash k % n) (link_key x y mx h);
    key-lt = λ x n h. omega (arith, h);
  }
