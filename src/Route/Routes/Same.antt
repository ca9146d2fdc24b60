-- ===== src/Route/Routes/Same.antt =====
-- route_compare finds no difference between a route and itself.
use libnl.Prelude.{
  ℕ, zero, suc, ◌-◌, ◌^◌, ◌≡◌, refl, ap, Bool, true, false, not, Option, List, [], ◌∷◌, ◌++◌, ◌==◌,
  ==_refl, All, get_or, arith,
}
use libnl.Object.{Object}
use libnl.Object.Diff.{has_attr, diffs, diffs-same}
use libnl.Addr.Compare.{IsAddrIf}
use libnl.Route.{number_same, cmp_same}
use libnl.Route.Nexthop.{NhEncap, Nexthop, nh_encap_compare, rtnl_route_nh_compare}
use libnl.Route.Routes.{
  Route, strict_metrics, all_in_a, all_in_b, same_nexthops, base_diff, rest_diff, route_attr_flags,
}
use libnl.Route.Routes.Contract.{IsRoute, base_same}

-- The comparison of the encapsulation finds no difference to itself.
abbrev pub IsEncap : (ℕ → Option (List ℕ → List ℕ → Bool)) → Option NhEncap → Type 0
IsEncap encap e = nh_encap_compare encap e e ≡ false

-- The addresses of a next hop are well formed, and so is its encapsulation.
pub record IsHop (encap : ℕ → Option (List ℕ → List ℕ → Bool)) (h : Nexthop) : Type 0 where
  pub gateway : IsAddrIf h.rtnh_gateway
  pub newdst : IsAddrIf h.rtnh_newdst
  pub via : IsAddrIf h.rtnh_via
  pub encapsulated : IsEncap encap h.rtnh_encap

append-All : {A : Type 0} (P : A → Type 0) (l m : List A) → All P l → All P m → All P (l ++ m)
append-All P [] m p q = q
append-All P (x ∷ l) m (p, ps) q = (p, append-All P l m ps q)

module _ (encap : ℕ → Option (List ℕ → List ℕ → Bool)) where
  hop_same :
      (h : Nexthop) (attrs : ℕ)
      → IsHop encap h
      → (rtnl_route_nh_compare encap h h attrs false == 0) ≡ true
  unfolding rtnl_route_nh_compare
  hop_same h attrs v =
      let same = diffs-same attrs h.nh_mask ((0x04, not (h.rtnh_ifindex == h.rtnh_ifindex)) ∷ _) (
        λ _. number_same h.rtnh_ifindex,
        (
          λ _. number_same h.rtnh_weight,
          (
            λ _. number_same h.rtnh_realms,
            (
              λ _. cmp_same h.rtnh_gateway v.gateway,
              (
                λ _. cmp_same h.rtnh_newdst v.newdst,
                (
                  λ _. cmp_same h.rtnh_via v.via,
                  (λ _. v.encapsulated, (λ _. number_same h.rtnh_flags, tt)),
                ),
              ),
            ),
          ),
        ),
      ) in
      ap (λ n. n == 0) same

  more_in_b :
      (r l : List Nexthop) (h : Nexthop)
      → all_in_b encap r l ≡ true
      → all_in_b encap r (h ∷ l) ≡ true
  more_in_b [] l h e = refl
  more_in_b (a ∷ r) l h e = ground (arith, more_in_b r l h)

  more_in_a :
      (r l : List Nexthop) (h : Nexthop)
      → all_in_a encap r l ≡ true
      → all_in_a encap r (h ∷ l) ≡ true
  more_in_a [] l h e = refl
  more_in_a (b ∷ r) l h e = ground (arith, more_in_a r l h)

  hops_same :
      (l : List Nexthop)
      → All (IsHop encap) l
      → (all_in_b encap l l ≡ true) × (all_in_a encap l l ≡ true)
  hops_same [] v = (refl, refl)
  hops_same (h ∷ l) (v, vs) =
      let (b, a) = hops_same l vs in
      (
        ground (arith, hop_same h (2 ^ 32 - 1) v, more_in_b l l h b),
        ground (arith, hop_same h (2 ^ 32 - 1) v, more_in_a l l h a),
      )

  nexthops_same : (r : Route) → All (IsHop encap) r.rt_nexthops → same_nexthops encap r r ≡ true
  nexthops_same r v =
      let (b, a) = hops_same r.rt_nexthops v in ground (arith, ==_refl r.rt_nr_nh, b, a)

  metrics_same :
      (list : ℕ) (r : Route) (n i : ℕ)
      → All (λ (e : ℕ × Bool). has_attr list e.0 ≡ true → e.1 ≡ false) (strict_metrics r r n i)
  metrics_same list r zero i = tt
  metrics_same list r (suc n) i =
      (λ _. ground (arith, ==_refl (get_or r.rt_metrics i 0)), metrics_same list r n (suc i))

  -- No attribute differs, whichever of them are compared.
  pub route_same :
      (list : ℕ) (o : Object Route)
      → IsRoute o
      → All (IsHop encap) o.attrs.rt_nexthops
      → diffs list o.ce_mask o.ce_mask
          (base_diff encap o.attrs o.attrs ++ rest_diff encap o.attrs o.attrs 0)
        ≡ 0
  route_same list o v hops =
      let r = o.attrs in
      let P = λ (e : ℕ × Bool). has_attr list e.0 ≡ true → e.1 ≡ false in
      let flags = (route_attr_flags, not (r.rt_flags == r.rt_flags)) ∷ [] in
      let rest : All P (rest_diff encap r r 0) = rw (nexthops_same r hops) (
        append-All P (strict_metrics r r 16 0) flags (metrics_same list r 16 0)
          (λ _. number_same r.rt_flags, tt)) in
      diffs-same list o.ce_mask (base_diff encap r r ++ rest_diff encap r r 0)
        (append-All P (base_diff encap r r) (rest_diff encap r r 0) (base_same encap list o v) rest)
