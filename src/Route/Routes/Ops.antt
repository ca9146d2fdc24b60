-- ===== src/Route/Routes/Ops.antt =====
-- route_obj_ops fills the contract of the hash table.
use Prim.Native.Nat.{bit_and}
use libnl.Prelude.{
  ℕ, zero, suc, ◌%◌, ◌≡◌, ◌⊎◌, refl, sym, ap, subst, ◌∙◌, Bool, true, false, not, Option, List, [],
  ◌∷◌, ◌++◌, ◌==◌, if◌then◌else◌, Bool-cases, inl, inr, arith, All,
}
use libnl.Prelude.Bytes.{to_bytes}
use libnl.Object.{Object, id_comparison}
use libnl.Object.Diff.{
  diffs-same, has_attr, diffs, Flips-diffs, Joins-diffs, diffs-All, diffs-first, diffs-unlisted,
}
use libnl.Hashtable.Types.{IsIdentified}
use libnl.Addr.{af_mpls}
use libnl.Route.{same_number, same_addr, binary_addr}
use libnl.Route.Routes.{
  same_nexthops, route_attr_flags, route_attr_multipath, Route, base_diff, rest_diff,
  strict_metrics, route_compare, route_hash_key, route_keygen, route_id_attrs_get, route_obj_ops,
}
use libnl.Route.Routes.Contract.{base_same, IsRoute, flips, joins}

-- No attribute behind the next hops identifies a route.
abbrev IsId : ℕ → Type 0
IsId list = (list ≡ 0x1087) ⊎ (list ≡ 0x87)

unlisted :
    (list attr : ℕ)
    → IsId list
    → has_attr 0x1087 attr ≡ false
    → has_attr 0x87 attr ≡ false
    → has_attr list attr ≡ false
unlisted list attr (inl e) h h' = ap (λ l. has_attr l attr) e ∙ h
unlisted list attr (inr e) h h' = ap (λ l. has_attr l attr) e ∙ h'

has_within :
    (list attr : ℕ)
    → IsId list
    → bit_and 0x1087 attr ≡ attr
    → bit_and 0x87 attr ≡ attr
    → bit_and list attr ≡ attr
has_within list attr (inl e) h h' = ap (λ l. bit_and l attr) e ∙ h
has_within list attr (inr e) h h' = ap (λ l. bit_and l attr) e ∙ h'

abbrev Unlisted : ℕ → List (ℕ × Bool) → Type 0
Unlisted list l = All (λ (e : ℕ × Bool). has_attr list e.0 ≡ false) l

metrics-Unlisted :
    (list : ℕ) (a b : Route) (n i : ℕ) (l : List (ℕ × Bool))
    → IsId list
    → Unlisted list l
    → Unlisted list (strict_metrics a b n i ++ l)
metrics-Unlisted list a b zero i l id u = u
metrics-Unlisted list a b (suc n) i l id u =
    (unlisted list 0x4000 id refl refl, metrics-Unlisted list a b n (suc i) l id u)

if-Unlisted :
    (list : ℕ) (c : Bool) (l m : List (ℕ × Bool))
    → Unlisted list l
    → Unlisted list m
    → Unlisted list (if c then l else m)
if-Unlisted list true l m u v = u
if-Unlisted list false l m u v = v

module _ (encap : ℕ → Option (List ℕ → List ℕ → Bool)) where
  rest-Unlisted :
      (list : ℕ) (a b : Route) → IsId list → Unlisted list (rest_diff encap a b id_comparison)
  rest-Unlisted list a b id =
      let flags = (route_attr_flags, not (a.rt_flags == b.rt_flags)) ∷ [] in
      if-Unlisted list (same_nexthops encap a b) (strict_metrics a b 16 0 ++ flags)
        ((route_attr_multipath, true) ∷ [])
        (metrics-Unlisted list a b 16 0 flags id (unlisted list 0x40 id refl refl, tt))
        (unlisted list 0x8000 id refl refl, tt)

  ids : (o : Object Route) → IsId (route_id_attrs_get o)
  unfolding route_id_attrs_get
  ids o = elim (Bool-cases (o.attrs.rt_family == af_mpls)) [
    | inl mpls ↦ inr (ground (arith, mpls))
    | inr other ↦ inl (ground (arith, other))
  ]

  base_zero :
      (list : ℕ) (x y : Object Route)
      → route_compare encap x y list id_comparison ≡ 0
      → diffs list x.ce_mask y.ce_mask (base_diff encap x.attrs y.attrs) ≡ 0
  unfolding route_compare
  base_zero list x y h =
      diffs-first list x.ce_mask y.ce_mask (base_diff encap x.attrs y.attrs)
        (rest_diff encap x.attrs y.attrs id_comparison) h

  compare_zero :
      (list : ℕ) (x y : Object Route)
      → IsId list
      → diffs list x.ce_mask y.ce_mask (base_diff encap x.attrs y.attrs) ≡ 0
      → route_compare encap x y list id_comparison ≡ 0
  unfolding route_compare
  compare_zero list x y id h =
      diffs-unlisted list x.ce_mask y.ce_mask (base_diff encap x.attrs y.attrs)
        (rest_diff encap x.attrs y.attrs id_comparison) (rest-Unlisted list x.attrs y.attrs id) h

-- The key by its parts.
route_hash_key-parts :
    (x y : Route)
    → x.rt_family ≡ y.rt_family
    → x.rt_tos ≡ y.rt_tos
    → x.rt_table ≡ y.rt_table
    → x.rt_prio ≡ y.rt_prio
    → binary_addr x.rt_dst ≡ binary_addr y.rt_dst
    → route_hash_key x ≡ route_hash_key y
unfolding route_hash_key
route_hash_key-parts x y f t b p d =
    let key = λ (f t b p : ℕ) (d : List ℕ).
      to_bytes 1 f ++ to_bytes 1 t ++ to_bytes 4 b ++ to_bytes 4 p ++ d in
    ap (λ v. key v x.rt_tos x.rt_table x.rt_prio (binary_addr x.rt_dst)) f
    ∙ ap (λ v. key y.rt_family v x.rt_table x.rt_prio (binary_addr x.rt_dst)) t
    ∙ ap (λ v. key y.rt_family y.rt_tos v x.rt_prio (binary_addr x.rt_dst)) b
    ∙ ap (λ v. key y.rt_family y.rt_tos y.rt_table v (binary_addr x.rt_dst)) p
    ∙ ap (λ v. key y.rt_family y.rt_tos y.rt_table y.rt_prio v) d

route_key :
    (encap : ℕ → Option (List ℕ → List ℕ → Bool)) (x y : Object Route)
    → IsRoute x
    → IsRoute y
    → bit_and x.ce_mask (route_id_attrs_get x) ≡ route_id_attrs_get x
    → route_compare encap x y (route_id_attrs_get x) id_comparison ≡ 0
    → route_hash_key x.attrs ≡ route_hash_key y.attrs
unfolding route_id_attrs_get
route_key encap x y vx vy whole h =
    let list = route_id_attrs_get x in
    let p =
      diffs-All list x.ce_mask y.ce_mask (base_diff encap x.attrs y.attrs)
        (base_zero encap list x y h) in
    let id = ids encap x in
    let within = λ (attr : ℕ) (h : bit_and 0x1087 attr ≡ attr) (h' : bit_and 0x87 attr ≡ attr).
      has_within list attr id h h' in
    let family =
      same_number list 0x01 x.ce_mask y.ce_mask whole (within 0x01 refl refl) (omega arith)
        x.attrs.rt_family y.attrs.rt_family p.0 in
    route_hash_key-parts x.attrs y.attrs family
      (same_number list 0x02 x.ce_mask y.ce_mask whole (within 0x02 refl refl) (omega arith)
        x.attrs.rt_tos y.attrs.rt_tos p.1.0)
      (same_number list 0x04 x.ce_mask y.ce_mask whole (within 0x04 refl refl) (omega arith)
        x.attrs.rt_table y.attrs.rt_table p.1.1.0)
      (elim (Bool-cases (x.attrs.rt_family == af_mpls)) [
        | inl mpls ↦ vx.no_prio mpls ∙ sym (vy.no_prio (ap (λ f. f == af_mpls) (sym family) ∙ mpls))
        | inr other ↦
            same_number list 0x1000 x.ce_mask y.ce_mask whole (ground (arith, other)) (omega arith)
              x.attrs.rt_prio y.attrs.rt_prio p.1.1.1.1.1.1.0
      ])
      (same_addr list 0x80 x.ce_mask y.ce_mask whole (within 0x80 refl refl) (omega arith)
        x.attrs.rt_dst y.attrs.rt_dst vx.rt_dst vy.rt_dst p.1.1.1.1.1.1.1.0)

-- Routes meet the contract of the hash table, MPLS routes and others together: that route_compare finds
-- no difference in the attributes that route_id_attrs_get names is reflexive, and symmetric and
-- transitive on the routes for which it names the same, and routes that have these attributes and agree in them have the same route_keygen, which lies inside
-- the table. The addresses of the routes are well formed, and an MPLS route has the priority 0.
pub route_obj_ops-IsIdentified :
    (encap : ℕ → Option (List ℕ → List ℕ → Bool)) (nl_hash : List ℕ → ℕ)
    → IsIdentified (route_obj_ops encap nl_hash) IsRoute
unfolding route_obj_ops route_keygen
route_obj_ops-IsIdentified encap nl_hash = record {
  compare = route_compare encap;
  key = route_keygen nl_hash;
  ids = route_id_attrs_get;
  has_compare = refl;
  has_key = refl;
  has_ids = inl refl;
  not_all_attrs = λ x h. elim (ids encap x) [
    | inl e ↦ absurd (omega (arith, e, h))
    | inr e ↦ absurd (omega (arith, e, h))
  ];
  compare-refl = λ x vx. compare_zero encap (route_id_attrs_get x) x x (ids encap x) (
      diffs-same (route_id_attrs_get x) x.ce_mask (base_diff encap x.attrs x.attrs)
        (base_same encap (route_id_attrs_get x) x vx));
  compare-symm = λ x y vx vy same h.
      let list = route_id_attrs_get x in
      subst (λ l. route_compare encap y x l id_comparison ≡ 0) same
        (compare_zero encap list y x (ids encap x) (
          Flips-diffs list x.ce_mask y.ce_mask (base_diff encap x.attrs y.attrs)
            (base_diff encap y.attrs x.attrs) (flips encap list x y vx vy)
            (base_zero encap list x y h)));
  compare-trans = λ x y z vx vy vz same same' h h'.
      let list = route_id_attrs_get x in
      let back = subst (λ l. route_compare encap y z l id_comparison ≡ 0) (sym same) h' in
      compare_zero encap list x z (ids encap x) (
        Joins-diffs list x.ce_mask y.ce_mask z.ce_mask (base_diff encap x.attrs y.attrs)
          (base_diff encap y.attrs z.attrs) (base_diff encap x.attrs z.attrs)
          (joins encap list x y z vx vy vz) (base_zero encap list x y h)
          (base_zero encap list y z back));
  key-compare =
      λ x y n vx vy same mx my h. ap (λ k. nl_hash k % n) (route_key encap x y vx vy mx h);
  key-lt = λ x n h. omega (arith, h);
}
