-- ===== src/Route/Neigh.antt =====
-- lib/route/neigh.c: neighbours. Their addresses are values; the references to these are not counted.
pub mod Contract
pub mod Ops
pub mod Lost
use Prim.Native.Nat.{bit_and, bit_or, bit_xor}
use libnl.Prelude.{
  ℕ, ◌+◌, ◌-◌, ◌%◌, ◌^◌, Bool, true, false, ◌&&◌, not, Option, none, some, List, [], ◌∷◌, ◌++◌,
  ◌==◌, if◌then◌else◌, take,
}
use libnl.Prelude.Bytes.{to_bytes}
use libnl.Errno.{Outcome, success, error, af_mismatch}
use libnl.Object.{Object, ObjectOps, loose_comparison}
use libnl.Object.Diff.{has_attr, diffs}
use libnl.Addr.{NlAddr, af_bridge, nl_addr_cmp}
use libnl.Route.{nonzero, binary_addr}

-- NEIGH_ATTR_FLAGS and so on.
abbrev pub neigh_attr_flags : ℕ
neigh_attr_flags = 0x1

abbrev pub neigh_attr_state : ℕ
neigh_attr_state = 0x2

abbrev pub neigh_attr_lladdr : ℕ
neigh_attr_lladdr = 0x4

abbrev pub neigh_attr_dst : ℕ
neigh_attr_dst = 0x8

abbrev pub neigh_attr_ifindex : ℕ
neigh_attr_ifindex = 0x20

abbrev pub neigh_attr_family : ℕ
neigh_attr_family = 0x40

abbrev pub neigh_attr_type : ℕ
neigh_attr_type = 0x80

abbrev pub neigh_attr_master : ℕ
neigh_attr_master = 0x200

abbrev pub neigh_attr_vlan : ℕ
neigh_attr_vlan = 0x400

pub record Neigh : Type 0 where
  pub n_family : ℕ
  pub n_ifindex : ℕ
  pub n_state : ℕ
  pub n_flags : ℕ
  pub n_type : ℕ
  pub n_lladdr : Option NlAddr
  pub n_dst : Option NlAddr
  pub n_state_mask : ℕ
  pub n_flag_mask : ℕ
  pub n_master : ℕ
  pub n_vlan : ℕ

abbrev pub ntf_self : ℕ
ntf_self = 0x02

-- What differs between two neighbours, attribute by attribute.
abbrev pub neigh_diff : Neigh → Neigh → ℕ → List (ℕ × Bool)
neigh_diff a b flags =
    (neigh_attr_ifindex, not (a.n_ifindex == b.n_ifindex))
    ∷ (neigh_attr_family, not (a.n_family == b.n_family))
    ∷ (neigh_attr_type, not (a.n_type == b.n_type))
    ∷ (neigh_attr_lladdr, nonzero (nl_addr_cmp a.n_lladdr b.n_lladdr))
    ∷ (neigh_attr_dst, nonzero (nl_addr_cmp a.n_dst b.n_dst))
    ∷ (neigh_attr_master, not (a.n_master == b.n_master))
    ∷ (neigh_attr_vlan, not (a.n_vlan == b.n_vlan))
    ∷ (if has_attr flags loose_comparison
        then (neigh_attr_state, not (bit_and (bit_xor a.n_state b.n_state) b.n_state_mask == 0))
          ∷ (neigh_attr_flags, not (bit_and (bit_xor a.n_flags b.n_flags) b.n_flag_mask == 0))
          ∷ []
        else (neigh_attr_state, not (a.n_state == b.n_state))
          ∷ (neigh_attr_flags, not (a.n_flags == b.n_flags))
          ∷ [])

unfoldable pub neigh_compare : Object Neigh → Object Neigh → ℕ → ℕ → ℕ
neigh_compare a b attrs flags = diffs attrs a.ce_mask b.ce_mask (neigh_diff a.attrs b.attrs flags)

abbrev pub is_bridge : Neigh → Bool
is_bridge n = n.n_family == af_bridge

abbrev pub is_self : Neigh → Bool
is_self n = has_attr n.n_flags ntf_self

-- The address in the key, and the bytes behind the fixed part.
abbrev pub key_addr : Neigh → Option NlAddr
key_addr n = if is_bridge n then n.n_lladdr else n.n_dst

abbrev pub key_ifindex : Neigh → ℕ
key_ifindex n = if is_bridge n then if is_self n then n.n_ifindex else n.n_master else n.n_ifindex

-- The bytes of struct neigh_hash_key, which is packed.
unfoldable pub neigh_hash_key : Neigh → List ℕ
neigh_hash_key n =
    to_bytes 4 n.n_family
    ++ to_bytes 4 (key_ifindex n)
    ++ to_bytes 2 (if is_bridge n then n.n_vlan else 0)
    ++ binary_addr (key_addr n)

unfoldable pub neigh_keygen : (List ℕ → ℕ) → Object Neigh → ℕ → ℕ
unfolding neigh_hash_key
neigh_keygen nl_hash n table_sz = nl_hash (neigh_hash_key n.attrs) % table_sz

abbrev pub neigh_id_attrs : ℕ
neigh_id_attrs = bit_or neigh_attr_ifindex (bit_or neigh_attr_dst neigh_attr_family)

unfoldable pub neigh_id_attrs_get : Object Neigh → ℕ
neigh_id_attrs_get n =
    if is_bridge n.attrs
    then if is_self n.attrs
      then bit_or (bit_or (bit_or neigh_attr_lladdr neigh_attr_family) neigh_attr_ifindex) (
          bit_or (if has_attr n.ce_mask neigh_attr_dst then neigh_attr_dst else 0)
            (if has_attr n.ce_mask neigh_attr_vlan then neigh_attr_vlan else 0))
      else bit_or (bit_or neigh_attr_lladdr neigh_attr_family)
          (bit_or neigh_attr_master neigh_attr_vlan)
    else neigh_id_attrs

unfoldable pub neigh_obj_ops : (List ℕ → ℕ) → ObjectOps Neigh
unfolding neigh_compare neigh_keygen neigh_id_attrs_get
neigh_obj_ops nl_hash = record {
  oo_id_attrs = neigh_id_attrs;
  oo_id_attrs_get = some neigh_id_attrs_get;
  oo_compare = some neigh_compare;
  oo_keygen = some (neigh_keygen nl_hash);
}

-- `ce_mask |= attr`
abbrev pub note : ℕ → Neigh → Object Neigh → Object Neigh
note attr n o = record o { ce_mask = bit_or o.ce_mask attr; attrs = n }

unfoldable pub rtnl_neigh_set_state : Object Neigh → ℕ → Object Neigh
rtnl_neigh_set_state o state =
    note neigh_attr_state
      (record (o.attrs) {
        n_state_mask = bit_or o.attrs.n_state_mask state;
        n_state = bit_or o.attrs.n_state state % 2 ^ 16;
      })
      o

unfoldable pub rtnl_neigh_unset_state : Object Neigh → ℕ → Object Neigh
rtnl_neigh_unset_state o state =
    note neigh_attr_state
      (record (o.attrs) {
        n_state_mask = bit_or o.attrs.n_state_mask state;
        n_state = bit_and o.attrs.n_state (2 ^ 32 - 1 - state);
      })
      o

unfoldable pub rtnl_neigh_set_flags : Object Neigh → ℕ → Object Neigh
rtnl_neigh_set_flags o flags =
    note neigh_attr_flags
      (record (o.attrs) {
        n_flag_mask = bit_or o.attrs.n_flag_mask flags;
        n_flags = bit_or o.attrs.n_flags flags % 2 ^ 8;
      })
      o

unfoldable pub rtnl_neigh_unset_flags : Object Neigh → ℕ → Object Neigh
rtnl_neigh_unset_flags o flags =
    note neigh_attr_flags
      (record (o.attrs) {
        n_flag_mask = bit_or o.attrs.n_flag_mask flags;
        n_flags = bit_and o.attrs.n_flags (2 ^ 32 - 1 - flags);
      })
      o

unfoldable pub rtnl_neigh_set_ifindex : Object Neigh → ℕ → Object Neigh
rtnl_neigh_set_ifindex o ifindex =
    note neigh_attr_ifindex (record (o.attrs) { n_ifindex = ifindex }) o

unfoldable pub rtnl_neigh_set_lladdr : Object Neigh → NlAddr → Object Neigh
rtnl_neigh_set_lladdr o addr = note neigh_attr_lladdr (record (o.attrs) { n_lladdr = some addr }) o

-- The family of the first address is taken over; another one must be of the same.
unfoldable pub rtnl_neigh_set_dst : Object Neigh → NlAddr → Outcome × Object Neigh
rtnl_neigh_set_dst o addr =
    if has_attr o.ce_mask neigh_attr_family
    then if addr.a_family == o.attrs.n_family
      then (success, note neigh_attr_dst (record (o.attrs) { n_dst = some addr }) o)
      else (error af_mismatch, o)
    else (
      success,
      note neigh_attr_dst (record (o.attrs) { n_family = addr.a_family; n_dst = some addr })
          (record o { ce_mask = bit_or o.ce_mask neigh_attr_family }),
    )

unfoldable pub rtnl_neigh_set_family : Object Neigh → ℕ → Object Neigh
rtnl_neigh_set_family o family = note neigh_attr_family (record (o.attrs) { n_family = family }) o

-- The mask is overwritten.
unfoldable pub rtnl_neigh_set_type : Object Neigh → ℕ → Object Neigh
rtnl_neigh_set_type o type = record o {
  ce_mask = neigh_attr_type;
  attrs = record (o.attrs) { n_type = type % 2 ^ 8 };
}

unfoldable pub rtnl_neigh_set_vlan : Object Neigh → ℕ → Object Neigh
rtnl_neigh_set_vlan o vlan = note neigh_attr_vlan (record (o.attrs) { n_vlan = vlan % 2 ^ 16 }) o

unfoldable pub rtnl_neigh_set_master : Object Neigh → ℕ → Object Neigh
rtnl_neigh_set_master o ifindex = note neigh_attr_master (record (o.attrs) { n_master = ifindex }) o

abbrev has_lladdr : Option NlAddr → NlAddr → Bool
has_lladdr none lladdr = false
has_lladdr (some a) lladdr = not (nonzero (nl_addr_cmp (some a) (some lladdr)))

-- The searches through the objects of a cache, without the reference that is taken to the result.
unfoldable pub rtnl_neigh_get : List Neigh → ℕ → NlAddr → Option Neigh
rtnl_neigh_get [] ifindex dst = none
rtnl_neigh_get (n ∷ l) ifindex dst =
    if n.n_ifindex == ifindex
      && (n.n_family == dst.a_family && not (nonzero (nl_addr_cmp n.n_dst (some dst))))
    then some n
    else rtnl_neigh_get l ifindex dst

unfoldable pub rtnl_neigh_get_by_vlan : List Neigh → ℕ → NlAddr → ℕ → Option Neigh
rtnl_neigh_get_by_vlan [] ifindex lladdr vlan = none
rtnl_neigh_get_by_vlan (n ∷ l) ifindex lladdr vlan =
    if n.n_ifindex == ifindex && (n.n_vlan == vlan && has_lladdr n.n_lladdr lladdr)
    then some n
    else rtnl_neigh_get_by_vlan l ifindex lladdr vlan
