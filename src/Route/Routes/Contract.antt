-- ===== src/Route/Routes/Contract.antt =====
-- When a route is well formed, and what the comparison of routes in the fields up to the next hops tells.
use libnl.Prelude.{false, All, ℕ, ◌≡◌, refl, Bool, true, Option, List, ◌==◌, arith}
use libnl.Object.{Object}
use libnl.Object.Diff.{has_attr, Flips, Joins}
use libnl.Addr.{af_mpls}
use libnl.Addr.Compare.{IsAddrIf}
use libnl.Route.{cmp_same, number_same, cmp_flips, cmp_joins}
use libnl.Route.Routes.{Route, base_diff}

-- The addresses are well formed, and an MPLS route has no priority.
pub record IsRoute (o : Object Route) : Type 0 where
  pub rt_dst : IsAddrIf o.attrs.rt_dst
  pub rt_src : IsAddrIf o.attrs.rt_src
  pub rt_pref_src : IsAddrIf o.attrs.rt_pref_src
  pub no_prio : (o.attrs.rt_family == af_mpls) ≡ true → o.attrs.rt_prio ≡ 0

-- No field of a route up to the next hops differs from itself.
pub base_same :
    (encap : ℕ → Option (List ℕ → List ℕ → Bool)) (list : ℕ) (x : Object Route)
    → IsRoute x
    → All
        (λ (e : ℕ × Bool). has_attr list e.0 ≡ true → e.1 ≡ false)
        (base_diff encap x.attrs x.attrs)
base_same encap list x v =
    let r = x.attrs in
    (
      λ _. number_same r.rt_family,
      (
        λ _. number_same r.rt_tos,
        (
          λ _. number_same r.rt_table,
          (
            λ _. number_same r.rt_protocol,
            (
              λ _. number_same r.rt_scope,
              (
                λ _. number_same r.rt_type,
                (
                  λ _. number_same r.rt_prio,
                  (
                    λ _. cmp_same r.rt_dst v.rt_dst,
                    (
                      λ _. cmp_same r.rt_src v.rt_src,
                      (
                        λ _. number_same r.rt_iif,
                        (
                          λ _. cmp_same r.rt_pref_src v.rt_pref_src,
                          (λ _. number_same r.rt_ttl_propagate, tt),
                        ),
                      ),
                    ),
                  ),
                ),
              ),
            ),
          ),
        ),
      ),
    )

module _ (encap : ℕ → Option (List ℕ → List ℕ → Bool)) (list : ℕ) where
  pub flips :
      (x y : Object Route)
      → IsRoute x
      → IsRoute y
      → Flips list (base_diff encap x.attrs y.attrs) (base_diff encap y.attrs x.attrs)
  flips x y vx vy = (
    refl,
    λ _ h. ground arith,
    (
      refl,
      λ _ h. ground arith,
      (
        refl,
        λ _ h. ground arith,
        (
          refl,
          λ _ h. ground arith,
          (
            refl,
            λ _ h. ground arith,
            (
              refl,
              λ _ h. ground arith,
              (
                refl,
                λ _ h. ground arith,
                (
                  refl,
                  λ _ h. cmp_flips x.attrs.rt_dst y.attrs.rt_dst vx.rt_dst vy.rt_dst h,
                  (
                    refl,
                    λ _ h. cmp_flips x.attrs.rt_src y.attrs.rt_src vx.rt_src vy.rt_src h,
                    (
                      refl,
                      λ _ h. ground arith,
                      (
                        refl,
                        λ _ h.
                            cmp_flips x.attrs.rt_pref_src y.attrs.rt_pref_src vx.rt_pref_src
                              vy.rt_pref_src h,
                        (refl, λ _ h. ground arith, tt),
                      ),
                    ),
                  ),
                ),
              ),
            ),
          ),
        ),
      ),
    ),
  )

  pub joins :
      (x y z : Object Route)
      → IsRoute x
      → IsRoute y
      → IsRoute z
      → Joins list
          (base_diff encap x.attrs y.attrs)
          (base_diff encap y.attrs z.attrs)
          (base_diff encap x.attrs z.attrs)
  joins x y z vx vy vz = (
    refl,
    refl,
    λ _ h h'. ground arith,
    (
      refl,
      refl,
      λ _ h h'. ground arith,
      (
        refl,
        refl,
        λ _ h h'. ground arith,
        (
          refl,
          refl,
          λ _ h h'. ground arith,
          (
            refl,
            refl,
            λ _ h h'. ground arith,
            (
              refl,
              refl,
              λ _ h h'. ground arith,
              (
                refl,
                refl,
                λ _ h h'. ground arith,
                (
                  refl,
                  refl,
                  λ _ h h'.
                      cmp_joins x.attrs.rt_dst y.attrs.rt_dst z.attrs.rt_dst vx.rt_dst vy.rt_dst
                        vz.rt_dst h h',
                  (
                    refl,
                    refl,
                    λ _ h h'.
                        cmp_joins x.attrs.rt_src y.attrs.rt_src z.attrs.rt_src vx.rt_src vy.rt_src
                          vz.rt_src h h',
                    (
                      refl,
                      refl,
                      λ _ h h'. ground arith,
                      (
                        refl,
                        refl,
                        λ _ h h'.
                            cmp_joins x.attrs.rt_pref_src y.attrs.rt_pref_src z.attrs.rt_pref_src
                              vx.rt_pref_src vy.rt_pref_src vz.rt_pref_src h h',
                        (refl, refl, λ _ h h'. ground arith, tt),
                      ),
                    ),
                  ),
                ),
              ),
            ),
          ),
        ),
      ),
    ),
  )
