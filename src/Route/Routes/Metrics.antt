-- ===== src/Route/Routes/Metrics.antt =====
-- The metrics of a route, and which of them a comparison looks at.
use Prim.Native.Nat.{bit_or}
use libnl.Prelude.{
  All, ==_refl, length-set, ℕ, zero, suc, ◌+◌, ◌-◌, ◌^◌, ◌%◌, ◌≤◌, ◌≡◌, refl, ap, ◌∙◌, Bool, true,
  ◌||◌, not, Option, List, [], ◌∷◌, ◌++◌, ltb, ◌==◌, if◌then◌else◌, get_or, set, get_or-set, length,
  arith,
}
use libnl.Errno.{Outcome, success, error, range, obj_notfound}
use libnl.Object.{Object, nl_object_diff64}
use libnl.Prelude.Bits.{bit_or_twice, bit_and-bit_or}
use libnl.Route.Routes.Contract.{IsRoute}
use libnl.Route.Routes.Same.{IsHop, route_same}
use libnl.Object.Diff.{diffs}
use libnl.Route.Routes.{
  Route, rtax_max, strict_metrics, base_diff, route_compare, route_obj_ops, has_metric,
  same_nexthops, route_attr_flags, route_attr_multipath, route_attr_metrics,
}

-- A metric is given by its number, from 1 on; the mask has 32 bits. `rt_nmetrics` is left out: it only
-- counts them.
unfoldable pub rtnl_route_set_metric : Object Route → ℕ → ℕ → Outcome × Object Route
rtnl_route_set_metric o metric value =
    if ltb rtax_max metric || ltb metric 1 then (error range, o) else (
      success,
      record o {
        ce_mask = bit_or o.ce_mask route_attr_metrics;
        attrs = record (o.attrs) {
          rt_metrics = set o.attrs.rt_metrics (metric - 1) value;
          rt_metrics_mask = bit_or o.attrs.rt_metrics_mask (2 ^ (metric - 1));
        };
      },
    )

unfoldable pub rtnl_route_get_metric : Object Route → ℕ → Outcome × ℕ
rtnl_route_get_metric o metric =
    if ltb rtax_max metric || ltb metric 1
    then (error range, 0)
    else if has_metric o.attrs (metric - 1)
    then (success, get_or o.attrs.rt_metrics (metric - 1) 0)
    else (error obj_notfound, 0)

-- A route with another value of the last metric.
abbrev pub last_set : ℕ → Object Route → Object Route
last_set v o = record o { attrs = record (o.attrs) { rt_metrics = set o.attrs.rt_metrics 16 v } }

strict_same :
    (a : Route) (b : Object Route) (v n i : ℕ)
    → length b.attrs.rt_metrics ≡ 17
    → i + n ≤ 16
    → strict_metrics a (last_set v b).attrs n i ≡ strict_metrics a b.attrs n i
strict_same a b v zero i len h = refl
strict_same a b v (suc n) i len h =
    let here : get_or (set b.attrs.rt_metrics 16 v) i 0 ≡ get_or b.attrs.rt_metrics i 0 =
      get_or-set b.attrs.rt_metrics 16 i v 0 (omega (arith, len)) ∙ ground arith in
    let entry : ℕ → ℕ × Bool = λ g. (
      route_attr_metrics,
      if has_metric a i
          then not (has_metric b.attrs i) || not (get_or a.rt_metrics i 0 == g)
          else has_metric b.attrs i || not (get_or a.rt_metrics i 0 == g),
    ) in
    ap (λ g. entry g ∷ strict_metrics a (last_set v b).attrs n (suc i)) here
    ∙ ap (λ l. entry (get_or b.attrs.rt_metrics i 0) ∷ l)
        (strict_same a b v n (suc i) len (omega arith))

-- The last metric of the second route does not count.
diff64-last_set :
    (encap : ℕ → Option (List ℕ → List ℕ → Bool)) (nl_hash : List ℕ → ℕ) (a b : Object Route)
    (v : ℕ)
    → length b.attrs.rt_metrics ≡ rtax_max
    → nl_object_diff64 (λ _. route_obj_ops encap nl_hash) a (last_set v b)
      ≡ nl_object_diff64 (λ _. route_obj_ops encap nl_hash) a b
unfolding nl_object_diff64 route_obj_ops route_compare
diff64-last_set encap nl_hash a b v len =
    let flags = (route_attr_flags, not (a.attrs.rt_flags == b.attrs.rt_flags)) ∷ [] in
    let rest = λ (l : List (ℕ × Bool)).
      if same_nexthops encap a.attrs b.attrs
      then l ++ flags
      else (route_attr_multipath, true) ∷ [] in
    ap
      (λ l.
        if a.ce_ops == b.ce_ops
        then diffs (2 ^ 64 - 1) a.ce_mask b.ce_mask (base_diff encap a.attrs b.attrs ++ rest l)
          % 2 ^ 64
        else 2 ^ 64 - 1)
      (strict_same a.attrs b v 16 0 len (omega arith))

diff64_self :
    (encap : ℕ → Option (List ℕ → List ℕ → Bool)) (nl_hash : List ℕ → ℕ) (o : Object Route)
    → IsRoute o
    → All (IsHop encap) o.attrs.rt_nexthops
    → nl_object_diff64 (λ _. route_obj_ops encap nl_hash) o o ≡ 0
unfolding nl_object_diff64 route_obj_ops route_compare
diff64_self encap nl_hash o v hops =
    ground (arith, ==_refl o.ce_ops, route_same encap (2 ^ 64 - 1) o v hops)

-- The route after the last metric was set.
abbrev pub with_last : ℕ → Object Route → Object Route
with_last v o = record o {
  ce_mask = bit_or o.ce_mask route_attr_metrics;
  attrs = record (o.attrs) {
    rt_metrics = set o.attrs.rt_metrics 16 v;
    rt_metrics_mask = bit_or o.attrs.rt_metrics_mask (2 ^ 16);
  };
}

with_last-IsRoute : (v : ℕ) (o : Object Route) → IsRoute o → IsRoute (with_last v o)
with_last-IsRoute v o r = record {
  rt_dst = r.rt_dst;
  rt_src = r.rt_src;
  rt_pref_src = r.rt_pref_src;
  no_prio = r.no_prio;
}

-- Setting it once more changes its value alone.
with_last_twice :
    (u v : ℕ) (o : Object Route) → with_last v (with_last u o) ≡ last_set v (with_last u o)
with_last_twice u v o =
    let a = with_last u o in
    ap (λ (m : ℕ). record (with_last v a) { ce_mask = m })
      (bit_or_twice o.ce_mask route_attr_metrics)
    ∙ ap
        (λ (m : ℕ). record a {
          attrs = record (a.attrs) {
            rt_metrics = set a.attrs.rt_metrics 16 v;
            rt_metrics_mask = m;
          };
        })
        (bit_or_twice o.attrs.rt_metrics_mask (2 ^ 16))

get_metric-with_last :
    (v : ℕ) (o : Object Route)
    → length o.attrs.rt_metrics ≡ rtax_max
    → rtnl_route_get_metric (with_last v o) rtax_max ≡ (success, v)
unfolding rtnl_route_get_metric
get_metric-with_last v o len =
    let there = bit_and-bit_or o.attrs.rt_metrics_mask (2 ^ 16) in
    let value : get_or (set o.attrs.rt_metrics 16 v) 16 0 ≡ v =
      get_or-set o.attrs.rt_metrics 16 16 v 0 (omega (arith, len)) ∙ ground arith in
    ground (arith, there, value)

-- A route whose last metric, RTAX_MAX, is set to u, and the same route with this metric set to v
-- after that: rtnl_route_set_metric accepts both, rtnl_route_get_metric returns u of the one and v of
-- the other, and nl_object_diff64 finds no difference between the two, whatever u and v are, since the
-- loop over the metrics ends one short of RTAX_MAX. The route has room for RTAX_MAX metrics, its
-- addresses and those of its next hops are well formed, and the comparison of the encapsulation of a
-- next hop finds no difference to itself.
pub nl_object_diff64-last_metric :
    (encap : ℕ → Option (List ℕ → List ℕ → Bool)) (nl_hash : List ℕ → ℕ) (o : Object Route)
    (u v : ℕ)
    → IsRoute o
    → length o.attrs.rt_metrics ≡ rtax_max
    → All (IsHop encap) o.attrs.rt_nexthops
    → (a b : Object Route) × (rtnl_route_set_metric o rtax_max u ≡ (success, a))
      × (rtnl_route_set_metric a rtax_max v ≡ (success, b))
      × (rtnl_route_get_metric a rtax_max ≡ (success, u))
      × (rtnl_route_get_metric b rtax_max ≡ (success, v))
      × (nl_object_diff64 (λ _. route_obj_ops encap nl_hash) a b ≡ 0)
unfolding rtnl_route_set_metric
nl_object_diff64-last_metric encap nl_hash o u v r len hops =
    let a = with_last u o in
    let len_a : length a.attrs.rt_metrics ≡ rtax_max = length-set o.attrs.rt_metrics 16 u ∙ len in
    (
      a,
      with_last v a,
      refl,
      refl,
      get_metric-with_last u o len,
      get_metric-with_last v a len_a,
      ap (nl_object_diff64 (λ _. route_obj_ops encap nl_hash) a) (with_last_twice u v o)
          ∙ diff64-last_set encap nl_hash a a v len_a
          ∙ diff64_self encap nl_hash a (with_last-IsRoute u o r) hops,
    )
