-- ===== src/Route/Neigh/Lost.antt =====
-- What rtnl_neigh_set_type does to the identity of a neighbour.
use Prim.Native.Nat.{bit_and}
use libnl.Prelude.{ℕ, ◌≡◌, ◌≢◌, sym, ap, ◌∙◌, Bool, true, false, List, arith}
use libnl.Object.{Object, nl_object_identical, required, identical_in}
use libnl.Route.Neigh.{Neigh, neigh_id_attrs_get, neigh_obj_ops, rtnl_neigh_set_type}
use libnl.Route.Neigh.Contract.{plain, ports, self, kind, self_attrs}
use libnl.Route.Neigh.Ops.{not_all}

self-lost : (d v : Bool) → bit_and 0x80 (self_attrs d v) ≢ self_attrs d v
self-lost true true h = absurd (omega (arith, h))
self-lost true false h = absurd (omega (arith, h))
self-lost false true h = absurd (omega (arith, h))
self-lost false false h = absurd (omega (arith, h))

-- The type is no attribute that identifies a neighbour.
type-lost : (o : Object Neigh) → bit_and 0x80 (neigh_id_attrs_get o) ≢ neigh_id_attrs_get o
type-lost o h = elim (kind o) [
  | plain p e ↦ absurd (omega (arith, h, e, ap (bit_and 0x80) e))
  | ports b p e ↦ absurd (omega (arith, h, e, ap (bit_and 0x80) e))
  | self b p d v f e ↦ self-lost d v (ap (bit_and 0x80) (sym e) ∙ h ∙ e)
]

-- Once the type of a neighbour is set, nl_object_identical says of it that it is identical to no
-- neighbour, not to itself either: all other attributes are taken from its mask. So a hash table does
-- not find it.
pub rtnl_neigh_set_type-lost :
    (nl_hash : List ℕ → ℕ) (o other : Object Neigh) (type : ℕ)
    → o.ce_ops ≡ other.ce_ops
    → nl_object_identical (λ _. neigh_obj_ops nl_hash) (rtnl_neigh_set_type o type) other ≡ false
unfolding rtnl_neigh_set_type nl_object_identical required identical_in neigh_obj_ops
rtnl_neigh_set_type-lost nl_hash o other type same =
    let o' = rtnl_neigh_set_type o type in ground (arith, type-lost o', not_all o')
