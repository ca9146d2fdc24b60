-- ===== src/Route/Nexthop.antt =====
-- lib/route/nexthop.c and nexthop_encap.c: the comparison of the next hops of routes. What an
-- encapsulation compares is a function of its type.
use Prim.Native.Nat.{bit_and, bit_xor}
use libnl.Prelude.{
  same_ptr, ℕ, Bool, true, false, not, Option, none, some, List, [], ◌∷◌, ◌==◌, if◌then◌else◌,
}
use libnl.Object.Diff.{diffs}
use libnl.Addr.{NlAddr, nl_addr_cmp}
use libnl.Route.{nonzero}

-- `ops` is the number of the type, `none` where it is NULL.
pub record NhEncap : Type 0 where
  pub ops : Option ℕ
  pub priv : List ℕ

pub record Nexthop : Type 0 where
  pub nh_mask : ℕ
  pub rtnh_flags : ℕ
  pub rtnh_flag_mask : ℕ
  pub rtnh_weight : ℕ
  pub rtnh_ifindex : ℕ
  pub rtnh_gateway : Option NlAddr
  pub rtnh_realms : ℕ
  pub rtnh_newdst : Option NlAddr
  pub rtnh_via : Option NlAddr
  pub rtnh_encap : Option NhEncap

module _ (compare : ℕ → Option (List ℕ → List ℕ → Bool)) where
  compared_priv : Option ℕ → List ℕ → List ℕ → Bool
  compared_priv none p q = false
  compared_priv (some t) p q = elim (compare t) [ none ↦ false | some f ↦ f p q ]

  -- Whether two encapsulations differ.
  unfoldable pub nh_encap_compare : Option NhEncap → Option NhEncap → Bool
  unfolding compared_priv
  nh_encap_compare none none = false
  nh_encap_compare (some a) none = true
  nh_encap_compare none (some b) = true
  nh_encap_compare (some a) (some b) =
      if same_ptr a.ops b.ops then compared_priv a.ops a.priv b.priv else true

  unfoldable pub rtnl_route_nh_compare : Nexthop → Nexthop → ℕ → Bool → ℕ
  unfolding nh_encap_compare
  rtnl_route_nh_compare a b attrs loose = diffs attrs a.nh_mask b.nh_mask (
      (0x04, not (a.rtnh_ifindex == b.rtnh_ifindex))
      ∷ (0x02, not (a.rtnh_weight == b.rtnh_weight))
      ∷ (0x10, not (a.rtnh_realms == b.rtnh_realms))
      ∷ (0x08, nonzero (nl_addr_cmp a.rtnh_gateway b.rtnh_gateway))
      ∷ (0x20, nonzero (nl_addr_cmp a.rtnh_newdst b.rtnh_newdst))
      ∷ (0x40, nonzero (nl_addr_cmp a.rtnh_via b.rtnh_via))
      ∷ (0x80, nh_encap_compare a.rtnh_encap b.rtnh_encap)
      ∷ (
        0x01,
        if loose
            then not (bit_and (bit_xor a.rtnh_flags b.rtnh_flags) b.rtnh_flag_mask == 0)
            else not (a.rtnh_flags == b.rtnh_flags),
      )
      ∷ [])
