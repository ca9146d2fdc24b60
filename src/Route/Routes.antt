-- ===== src/Route/Routes.antt =====
-- lib/route/route_obj.c: what identifies a route, its comparison and its key. Addresses are values.
pub mod Contract
pub mod Ops
pub mod Metrics
pub mod Same
use Prim.Native.Nat.{bit_and, bit_xor}
use libnl.Prelude.{
  ℕ, zero, suc, ◌-◌, ◌%◌, ◌^◌, Bool, true, false, ◌&&◌, ◌||◌, not, Option, some, List, [], ◌∷◌,
  ◌++◌, ◌==◌, if◌then◌else◌, get_or,
}
use libnl.Prelude.Bytes.{to_bytes}
use libnl.Object.{Object, ObjectOps, loose_comparison}
use libnl.Object.Diff.{has_attr, diffs}
use libnl.Addr.{NlAddr, af_mpls, nl_addr_cmp}
use libnl.Route.{nonzero, binary_addr}
use libnl.Route.Nexthop.{Nexthop, rtnl_route_nh_compare}

pub record Route : Type 0 where
  pub rt_family : ℕ
  pub rt_tos : ℕ
  pub rt_protocol : ℕ
  pub rt_scope : ℕ
  pub rt_type : ℕ
  pub rt_ttl_propagate : ℕ
  pub rt_flags : ℕ
  pub rt_dst : Option NlAddr
  pub rt_src : Option NlAddr
  pub rt_table : ℕ
  pub rt_iif : ℕ
  pub rt_prio : ℕ
  pub rt_metrics : List ℕ
  pub rt_metrics_mask : ℕ
  pub rt_nr_nh : ℕ
  pub rt_pref_src : Option NlAddr
  pub rt_nexthops : List Nexthop
  pub rt_flag_mask : ℕ

-- RTAX_MAX
abbrev pub rtax_max : ℕ
rtax_max = 17

abbrev pub route_attr_metrics : ℕ
route_attr_metrics = 0x4000

abbrev pub route_attr_flags : ℕ
route_attr_flags = 0x40

abbrev pub route_attr_multipath : ℕ
route_attr_multipath = 0x8000

abbrev pub has_metric : Route → ℕ → Bool
has_metric r i = not (bit_and r.rt_metrics_mask (2 ^ i) == 0)

abbrev metric_differs : Route → Route → ℕ → Bool
metric_differs a b i = not (get_or a.rt_metrics i 0 == get_or b.rt_metrics i 0)

-- The loops over the metrics, `n` of them from `i` on. In a loose comparison, one that b has not set
-- counts as a difference and one that a has not set is not compared.
abbrev pub loose_metrics : Route → Route → ℕ → ℕ → List (ℕ × Bool)
loose_metrics a b zero i = []
loose_metrics a b (suc n) i =
    let rest = loose_metrics a b n (suc i) in
    if has_metric a i && (not (has_metric b i) || metric_differs a b i)
    then (route_attr_metrics, true) ∷ rest
    else rest

abbrev pub strict_metrics : Route → Route → ℕ → ℕ → List (ℕ × Bool)
strict_metrics a b zero i = []
strict_metrics a b (suc n) i =
    (
      route_attr_metrics,
      if has_metric a i
          then not (has_metric b i) || metric_differs a b i
          else has_metric b i || metric_differs a b i,
    )
    ∷ strict_metrics a b n (suc i)

module _ (encap : ℕ → Option (List ℕ → List ℕ → Bool)) where
  -- A next hop of the list compares as equal to one.
  abbrev pub found_b : List Nexthop → Nexthop → Bool
  found_b [] a = false
  found_b (b ∷ l) a =
      if rtnl_route_nh_compare encap a b (2 ^ 32 - 1) false == 0 then true else found_b l a

  abbrev pub found_a : List Nexthop → Nexthop → ℕ → Bool → Bool
  found_a [] b attrs loose = false
  found_a (a ∷ l) b attrs loose =
      if rtnl_route_nh_compare encap a b attrs loose == 0 then true else found_a l b attrs loose

  abbrev pub all_in_b : List Nexthop → List Nexthop → Bool
  all_in_b [] l = true
  all_in_b (a ∷ r) l = if found_b l a then all_in_b r l else false

  abbrev pub all_in_a : List Nexthop → List Nexthop → Bool
  all_in_a [] l = true
  all_in_a (b ∷ r) l = if found_a l b (2 ^ 32 - 1) false then all_in_a r l else false

  abbrev all_loose : List Nexthop → List Nexthop → Bool
  all_loose [] l = true
  all_loose (b ∷ r) l = if found_a l b b.nh_mask true then all_loose r l else false

  -- The next hops match each other.
  abbrev pub same_nexthops : Route → Route → Bool
  same_nexthops a b =
      a.rt_nr_nh == b.rt_nr_nh
      && (all_in_b a.rt_nexthops b.rt_nexthops && all_in_a b.rt_nexthops a.rt_nexthops)

  -- The comparison up to the next hops, and from them on: without `goto nh_mismatch`, the metrics and
  -- the flags.
  abbrev pub base_diff : Route → Route → List (ℕ × Bool)
  base_diff a b =
      (0x01, not (a.rt_family == b.rt_family))
      ∷ (0x02, not (a.rt_tos == b.rt_tos))
      ∷ (0x04, not (a.rt_table == b.rt_table))
      ∷ (0x08, not (a.rt_protocol == b.rt_protocol))
      ∷ (0x10, not (a.rt_scope == b.rt_scope))
      ∷ (0x20, not (a.rt_type == b.rt_type))
      ∷ (0x1000, not (a.rt_prio == b.rt_prio))
      ∷ (0x80, nonzero (nl_addr_cmp a.rt_dst b.rt_dst))
      ∷ (0x100, nonzero (nl_addr_cmp a.rt_src b.rt_src))
      ∷ (0x200, not (a.rt_iif == b.rt_iif))
      ∷ (0x2000, nonzero (nl_addr_cmp a.rt_pref_src b.rt_pref_src))
      ∷ (0x040000, not (a.rt_ttl_propagate == b.rt_ttl_propagate))
      ∷ []

  abbrev pub rest_diff : Route → Route → ℕ → List (ℕ × Bool)
  rest_diff a b flags =
      if has_attr flags loose_comparison
      then if all_loose b.rt_nexthops a.rt_nexthops
        then loose_metrics a b (rtax_max - 1) 0
          ++ (route_attr_flags, not (bit_and (bit_xor a.rt_flags b.rt_flags) b.rt_flag_mask == 0))
            ∷ []
        else (route_attr_multipath, true) ∷ []
      else if same_nexthops a b
      then strict_metrics a b (rtax_max - 1) 0
        ++ (route_attr_flags, not (a.rt_flags == b.rt_flags)) ∷ []
      else (route_attr_multipath, true) ∷ []

  unfoldable pub route_compare : Object Route → Object Route → ℕ → ℕ → ℕ
  route_compare a b attrs flags =
      diffs attrs a.ce_mask b.ce_mask (base_diff a.attrs b.attrs ++ rest_diff a.attrs b.attrs flags)

-- The bytes of struct route_hash_key, which is packed.
unfoldable pub route_hash_key : Route → List ℕ
route_hash_key r =
    to_bytes 1 r.rt_family
    ++ to_bytes 1 r.rt_tos
    ++ to_bytes 4 r.rt_table
    ++ to_bytes 4 r.rt_prio
    ++ binary_addr r.rt_dst

unfoldable pub route_keygen : (List ℕ → ℕ) → Object Route → ℕ → ℕ
unfolding route_hash_key
route_keygen nl_hash r table_sz = nl_hash (route_hash_key r.attrs) % table_sz

-- FAMILY, TOS, TABLE, DST and PRIO.
abbrev pub route_id_attrs : ℕ
route_id_attrs = 0x1087

unfoldable pub route_id_attrs_get : Object Route → ℕ
route_id_attrs_get r =
    if r.attrs.rt_family == af_mpls
    then bit_and route_id_attrs (2 ^ 32 - 1 - 0x1000)
    else route_id_attrs

unfoldable pub route_obj_ops :
    (ℕ → Option (List ℕ → List ℕ → Bool)) → (List ℕ → ℕ) → ObjectOps Route
unfolding route_compare route_keygen route_id_attrs_get
route_obj_ops encap nl_hash = record {
  oo_id_attrs = route_id_attrs;
  oo_id_attrs_get = some route_id_attrs_get;
  oo_compare = some (route_compare encap);
  oo_keygen = some (route_keygen nl_hash);
}
