-- ===== src/Route/Neigh/Ops.antt =====
-- neigh_obj_ops fills the contract of the hash table.
use Prim.Native.Nat.{bit_and}
use libnl.Prelude.{subst, ℕ, ◌%◌, ◌≡◌, ◌≢◌, refl, sym, ap, ◌∙◌, Bool, true, false, List, inl, arith}
use libnl.Object.{Object, all_attrs, id_comparison}
use libnl.Object.Diff.{diffs-same, has_attr, diffs-All, Flips-diffs, Joins-diffs}
use libnl.Hashtable.Types.{IsIdentified}
use libnl.Route.Neigh.{
  neigh_attr_vlan, Neigh, neigh_diff, neigh_compare, neigh_keygen, neigh_id_attrs_get,
  neigh_obj_ops, neigh_hash_key,
}
use libnl.Route.Neigh.Contract.{
  IsNeigh, plain, ports, self, kind, flips, joins, same, self_attrs, self-within, self-vlan,
  plain_key, ports_key, self_key, bridge_family, same_vlan,
}

no_vlan : (d : Bool) → bit_and (self_attrs d false) 0x400 ≡ 0
no_vlan true = refl
no_vlan false = refl

self-not_all : (d v : Bool) → self_attrs d v ≢ all_attrs
self-not_all true true h = absurd (omega (arith, h))
self-not_all true false h = absurd (omega (arith, h))
self-not_all false true h = absurd (omega (arith, h))
self-not_all false false h = absurd (omega (arith, h))

pub not_all : (o : Object Neigh) → neigh_id_attrs_get o ≢ all_attrs
not_all o h = elim (kind o) [
  | plain p e ↦ absurd (omega (arith, e, h))
  | ports b p e ↦ absurd (omega (arith, e, h))
  | self b p d v f e ↦ self-not_all d v (sym e ∙ h)
]

-- Two ports of the bridge itself that are identified by the same attributes and agree in these have
-- the same VLAN, or none.
self_vlan :
    (x y : Object Neigh)
    → IsNeigh x
    → IsNeigh y
    → neigh_id_attrs_get x ≡ neigh_id_attrs_get y
    → (bit_and (neigh_id_attrs_get x) 0x400 ≡ 0x400 → x.attrs.n_vlan ≡ y.attrs.n_vlan)
    → (d v d' v' : Bool) → has_attr x.ce_mask neigh_attr_vlan ≡ v
    → has_attr y.ce_mask neigh_attr_vlan ≡ v'
    → neigh_id_attrs_get x ≡ self_attrs d v
    → neigh_id_attrs_get y ≡ self_attrs d' v'
    → x.attrs.n_vlan ≡ y.attrs.n_vlan
self_vlan x y vx vy same agrees d true d' v' f f' e e' =
    agrees (ap (λ l. bit_and l 0x400) e ∙ self-vlan d)
self_vlan x y (_, _, vx) (_, _, vy) same agrees d false d' false f f' e e' = vx f ∙ sym (vy f')
self_vlan x y vx vy same agrees d false d' true f f' e e' =
    absurd (omega (arith, no_vlan d, self-vlan d', ap (λ l. bit_and l 0x400) (sym e ∙ same ∙ e')))

neigh_key :
    (x y : Object Neigh)
    → IsNeigh x
    → IsNeigh y
    → neigh_id_attrs_get x ≡ neigh_id_attrs_get y
    → bit_and x.ce_mask (neigh_id_attrs_get x) ≡ neigh_id_attrs_get x
    → neigh_compare x y (neigh_id_attrs_get x) id_comparison ≡ 0
    → neigh_hash_key x.attrs ≡ neigh_hash_key y.attrs
unfolding neigh_compare
neigh_key x y vx vy same whole h =
    let list = neigh_id_attrs_get x in
    let p = diffs-All list x.ce_mask y.ce_mask (neigh_diff x.attrs y.attrs id_comparison) h in
    elim (kind x) [
      | plain px e ↦ plain_key list x y vx vy whole p px e
      | ports bx sx e ↦
          let family = bridge_family list x y vx vy whole p (ap (λ l. bit_and l 0x40) e) in
          elim (kind y) [
            | plain py e' ↦ absurd (ground (arith, family, bx, py))
            | ports by sy e' ↦ ports_key list x y vx vy whole p bx sx sy e
            | self by sy d v f e' ↦
                let (_, w20, _) = self-within d v in
                absurd (omega (arith, w20, ap (λ l. bit_and l 0x20) (sym e ∙ same ∙ e')))
          ]
      | self bx sx d v f e ↦
          let (w40, w20, _) = self-within d v in
          let family = bridge_family list x y vx vy whole p (ap (λ l. bit_and l 0x40) e ∙ w40) in
          elim (kind y) [
            | plain py e' ↦ absurd (ground (arith, family, bx, py))
            | ports by sy e' ↦
                absurd (omega (arith, w20, ap (λ l. bit_and l 0x20) (sym e ∙ same ∙ e')))
            | self by sy d' v' f' e' ↦
                self_key list x y vx vy whole p bx sx sy d v e
                  (self_vlan x y vx vy same (same_vlan list x y vx vy whole p) d v d' v' f f' e e')
          ]
    ]

-- Neighbours meet the contract of the hash table, bridge ports and others together: that neigh_compare
-- finds no difference in the attributes that neigh_id_attrs_get names is reflexive, and symmetric and
-- transitive on the neighbours for which it names the same, and neighbours that have these attributes and agree in them have the same neigh_keygen,
-- which lies inside the table. The addresses of the neighbours are well formed, and the number of the
-- VLAN is 0 where none is set.
pub neigh_obj_ops-IsIdentified :
    (nl_hash : List ℕ → ℕ) → IsIdentified (neigh_obj_ops nl_hash) IsNeigh
unfolding neigh_obj_ops neigh_compare neigh_keygen
neigh_obj_ops-IsIdentified nl_hash = record {
  compare = neigh_compare;
  key = neigh_keygen nl_hash;
  ids = neigh_id_attrs_get;
  has_compare = refl;
  has_key = refl;
  has_ids = inl refl;
  not_all_attrs = not_all;
  compare-refl = λ x vx.
      diffs-same (neigh_id_attrs_get x) x.ce_mask (neigh_diff x.attrs x.attrs id_comparison)
        (same (neigh_id_attrs_get x) x vx);
  compare-symm = λ x y vx vy same h.
      subst (λ list. neigh_compare y x list id_comparison ≡ 0) same
        (Flips-diffs (neigh_id_attrs_get x) x.ce_mask y.ce_mask
          (neigh_diff x.attrs y.attrs id_comparison) (neigh_diff y.attrs x.attrs id_comparison)
          (flips (neigh_id_attrs_get x) x y vx vy) h);
  compare-trans = λ x y z vx vy vz same same' h h'.
      Joins-diffs (neigh_id_attrs_get x) x.ce_mask y.ce_mask z.ce_mask
        (neigh_diff x.attrs y.attrs id_comparison) (neigh_diff y.attrs z.attrs id_comparison)
        (neigh_diff x.attrs z.attrs id_comparison) (joins (neigh_id_attrs_get x) x y z vx vy vz) h
        (subst (λ list. neigh_compare y z list id_comparison ≡ 0) (sym same) h');
  key-compare = λ x y n vx vy same mx my h. ap (λ k. nl_hash k % n) (neigh_key x y vx vy same mx h);
  key-lt = λ x n h. omega (arith, h);
}
