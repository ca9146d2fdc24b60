-- ===== src/Tests/Routes.antt =====
-- Concrete addresses, neighbours, links and routes.
use libnl.Prelude.{
  Bool, ℕ, ◌≡◌, ◌↔◌, refl, false, Option, none, some, List, [], ◌∷◌, length, replicate, arith,
}
use libnl.Prelude.Int.{pos}
use libnl.Errno.{success}
use libnl.Attr.{Attr}
use libnl.Msg.{nlmsg_find_attr}
use libnl.Msg.Buffer.{NlMsg}
use libnl.Object.{Object, ObjectOps, nl_object_identical, nl_object_diff64}
use libnl.Object.Refs.{Ptr}
use libnl.Hashtable.Lookup.{IsHash}
use libnl.Hashtable.Objects.{object_keys}
use libnl.Hashtable.Types.{IsIdentified, identified_keys-IsHash}
use libnl.Addr.{NlAddr, nl_addr_cmp, nl_addr_alloc_attr, nla_put_addr}
use libnl.Addr.Compare.{SameIf, nl_addr_cmp_lem}
use libnl.Addr.Carry.{nl_addr_alloc_attr-put}
use libnl.Route.Neigh.{Neigh, neigh_obj_ops, rtnl_neigh_set_type}
use libnl.Route.Neigh.Contract.{IsNeigh}
use libnl.Route.Neigh.Ops.{neigh_obj_ops-IsIdentified}
use libnl.Route.Neigh.Lost.{rtnl_neigh_set_type-lost}
use libnl.Route.Links.{Link, link_obj_ops}
use libnl.Route.Links.Ops.{link_obj_ops-IsIdentified}
use libnl.Route.Routes.{Route, route_obj_ops}
use libnl.Route.Routes.Contract.{IsRoute}
use libnl.Route.Routes.Ops.{route_obj_ops-IsIdentified}
use libnl.Route.Routes.Metrics.{
  rtnl_route_set_metric, rtnl_route_get_metric, nl_object_diff64-last_metric,
}
use libnl.Route.Routes.Same.{IsHop}
use libnl.Route.Nexthop.{Nexthop, nh_encap_compare}
use libnl.Tests.{sample}
use libnl.Tests.Values.{values-Holds}

-- 10.0.0.n, as a host and with a prefix of 8 bits.
abbrev host : ℕ → NlAddr
host n = record {
  a_family = 2;
  a_maxsize = 4;
  a_len = 4;
  a_prefixlen = 32;
  a_refcnt = pos 1;
  a_addr = 10 ∷ 0 ∷ 0 ∷ n ∷ [];
}

abbrev net : ℕ → NlAddr
net n = record (host n) { a_prefixlen = 8 }

nl_addr_cmp_lem_example :
    (nl_addr_cmp (some (host 1)) (some (net 1)) ≡ pos 0) ↔ SameIf (some (host 1)) (some (net 1))
nl_addr_cmp_lem_example =
    nl_addr_cmp_lem (some (host 1)) (some (net 1)) (omega arith, refl) (omega arith, refl)

nl_addr_alloc_attr-put_example :
    (m' : NlMsg) × (nla_put_addr sample 1 (host 1) ≡ (success, m'))
    × ((nla : Attr) × (nlmsg_find_attr m'.nm_nlh 4 1 ≡ some (some nla))
        × (nl_addr_cmp (some (nl_addr_alloc_attr nla 2)) (some (host 1)) ≡ pos 0))
nl_addr_alloc_attr-put_example =
    nl_addr_alloc_attr-put 1 (host 1) values-Holds (omega arith) refl (omega arith)
      (omega arith, refl) (omega arith) refl (omega arith)

-- A hash that is easy to compute.
abbrev sum : List ℕ → ℕ
sum [] = 0
sum (b ∷ l) = length l

-- The neighbours with the addresses 10.0.0.0, 10.0.0.1 and so on, on the interface 2.
abbrev neighbour : Ptr → Object Neigh
neighbour p = record {
  ce_ops = 0;
  ce_msgtype = 28;
  ce_mask = 0x68;
  attrs = record {
    n_family = 2;
    n_ifindex = 2;
    n_state = 2;
    n_flags = 0;
    n_type = 1;
    n_lladdr = none;
    n_dst = some (host p);
    n_state_mask = 0;
    n_flag_mask = 0;
    n_master = 0;
    n_vlan = 0;
  };
}

neighbour-IsNeigh : (p : Ptr) → IsNeigh (neighbour p)
neighbour-IsNeigh p = (tt, (omega arith, refl), λ h. refl)

abbrev neighbours : ℕ → ObjectOps Neigh
neighbours t = neigh_obj_ops sum

neigh_obj_ops-IsIdentified_example : IsIdentified (neigh_obj_ops sum) IsNeigh
neigh_obj_ops-IsIdentified_example = neigh_obj_ops-IsIdentified sum

identified_keys-IsHash_example : IsHash (object_keys neighbours neighbour)
identified_keys-IsHash_example =
    identified_keys-IsHash neighbours 0 IsNeigh (neigh_obj_ops-IsIdentified sum) neighbour
      (λ p. refl) neighbour-IsNeigh

rtnl_neigh_set_type-lost_example :
    nl_object_identical neighbours (rtnl_neigh_set_type (neighbour 1) 1) (neighbour 1) ≡ false
rtnl_neigh_set_type-lost_example = rtnl_neigh_set_type-lost sum (neighbour 1) (neighbour 1) 1 refl

-- No family and no type of links compares anything.
abbrev no_families : ℕ → Option (Option (Link → Link → Bool))
no_families f = none

abbrev no_types : ℕ → Option (Link → Link → ℕ → Bool)
no_types t = none

link_obj_ops-IsIdentified_example :
    IsIdentified (link_obj_ops no_families no_types sum) (λ x. Unit {0})
link_obj_ops-IsIdentified_example = link_obj_ops-IsIdentified no_families no_types sum

abbrev no_encap : ℕ → Option (List ℕ → List ℕ → Bool)
no_encap t = none

route_obj_ops-IsIdentified_example : IsIdentified (route_obj_ops no_encap sum) IsRoute
route_obj_ops-IsIdentified_example = route_obj_ops-IsIdentified no_encap sum

-- One next hop, 10.0.0.1 on the interface 2.
abbrev hop : Nexthop
hop = record {
  nh_mask = 0xC;
  rtnh_flags = 0;
  rtnh_flag_mask = 0;
  rtnh_weight = 0;
  rtnh_ifindex = 2;
  rtnh_gateway = some (host 1);
  rtnh_realms = 0;
  rtnh_newdst = none;
  rtnh_via = none;
  rtnh_encap = none;
}

-- The route to 10.0.0.0/8 over the next hop, with all metrics 0.
abbrev route : Object Route
route = record {
  ce_ops = 0;
  ce_msgtype = 24;
  ce_mask = 0x1087;
  attrs = record {
    rt_family = 2;
    rt_tos = 0;
    rt_protocol = 4;
    rt_scope = 0;
    rt_type = 1;
    rt_ttl_propagate = 0;
    rt_flags = 0;
    rt_dst = some (net 0);
    rt_src = none;
    rt_table = 254;
    rt_iif = 0;
    rt_prio = 0;
    rt_metrics = replicate 17 0;
    rt_metrics_mask = 0;
    rt_nr_nh = 1;
    rt_pref_src = none;
    rt_nexthops = hop ∷ [];
    rt_flag_mask = 0;
  };
}

route-IsRoute : IsRoute route
route-IsRoute = record {
  rt_dst = (omega arith, refl);
  rt_src = tt;
  rt_pref_src = tt;
  no_prio = λ h. refl;
}

hop-IsHop : IsHop no_encap hop
unfolding nh_encap_compare
hop-IsHop = record { gateway = (omega arith, refl); newdst = tt; via = tt; encapsulated = refl }

nl_object_diff64-last_metric_example :
    (a b : Object Route) × (rtnl_route_set_metric route 17 4 ≡ (success, a))
    × (rtnl_route_set_metric a 17 5 ≡ (success, b))
    × (rtnl_route_get_metric a 17 ≡ (success, 4))
    × (rtnl_route_get_metric b 17 ≡ (success, 5))
    × (nl_object_diff64 (λ t. route_obj_ops no_encap sum) a b ≡ 0)
nl_object_diff64-last_metric_example =
    nl_object_diff64-last_metric no_encap sum route 4 5 route-IsRoute refl (hop-IsHop, tt)
