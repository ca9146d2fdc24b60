-- ===== src/Route/Neigh/Contract.antt =====
-- Neighbours meet the contract of the hash table.
use Prim.Native.Nat.{bit_or, bit_and}
use libnl.Prelude.{
  ℕ, ◌≡◌, refl, sym, ap, ◌∙◌, Bool, true, false, ◌++◌, ◌==◌, if◌then◌else◌, Bool-cases, inl, inr,
  arith, All,
}
use libnl.Object.{Object, id_comparison}
use libnl.Object.Diff.{has_attr, attr_diff, Flips, Joins}
use libnl.Prelude.Bytes.{to_bytes}
use libnl.Addr.{af_bridge}
use libnl.Addr.Compare.{IsAddrIf}
use libnl.Route.{cmp_same, number_same, same_number, same_addr, binary_addr, cmp_flips, cmp_joins}
use libnl.Route.Neigh.{
  key_ifindex, key_addr, Neigh, neigh_diff, neigh_id_attrs_get, neigh_attr_vlan, is_bridge, is_self,
  neigh_hash_key,
}

-- The addresses are well formed, and a neighbour without a VLAN has the number 0 for it.
abbrev pub IsNeigh : Object Neigh → Type 0
IsNeigh o =
    IsAddrIf o.attrs.n_lladdr
    × IsAddrIf o.attrs.n_dst
    × (has_attr o.ce_mask neigh_attr_vlan ≡ false → o.attrs.n_vlan ≡ 0)

-- No field of a neighbour differs from itself.
pub same :
    (list : ℕ) (x : Object Neigh)
    → IsNeigh x
    → All
        (λ (e : ℕ × Bool). has_attr list e.0 ≡ true → e.1 ≡ false)
        (neigh_diff x.attrs x.attrs id_comparison)
same list x (xl, xd, _) =
    let n = x.attrs in
    (
      λ _. number_same n.n_ifindex,
      (
        λ _. number_same n.n_family,
        (
          λ _. number_same n.n_type,
          (
            λ _. cmp_same n.n_lladdr xl,
            (
              λ _. cmp_same n.n_dst xd,
              (
                λ _. number_same n.n_master,
                (
                  λ _. number_same n.n_vlan,
                  (λ _. number_same n.n_state, (λ _. number_same n.n_flags, tt)),
                ),
              ),
            ),
          ),
        ),
      ),
    )

pub flips :
    (list : ℕ) (x y : Object Neigh)
    → IsNeigh x
    → IsNeigh y
    → Flips list
        (neigh_diff x.attrs y.attrs id_comparison)
        (neigh_diff y.attrs x.attrs id_comparison)
flips list x y (xl, xd, _) (yl, yd, _) = (
  refl,
  λ _ h. ground arith,
  (
    refl,
    λ _ h. ground arith,
    (
      refl,
      λ _ h. ground arith,
      (
        refl,
        λ _ h. cmp_flips x.attrs.n_lladdr y.attrs.n_lladdr xl yl h,
        (
          refl,
          λ _ h. cmp_flips x.attrs.n_dst y.attrs.n_dst xd yd h,
          (
            refl,
            λ _ h. ground arith,
            (
              refl,
              λ _ h. ground arith,
              (refl, λ _ h. ground arith, (refl, λ _ h. ground arith, tt)),
            ),
          ),
        ),
      ),
    ),
  ),
)

pub joins :
    (list : ℕ) (x y z : Object Neigh)
    → IsNeigh x
    → IsNeigh y
    → IsNeigh z
    → Joins list
        (neigh_diff x.attrs y.attrs id_comparison)
        (neigh_diff y.attrs z.attrs id_comparison)
        (neigh_diff x.attrs z.attrs id_comparison)
joins list x y z (xl, xd, _) (yl, yd, _) (zl, zd, _) = (
  refl,
  refl,
  λ _ h h'. ground arith,
  (
    refl,
    refl,
    λ _ h h'. ground arith,
    (
      refl,
      refl,
      λ _ h h'. ground arith,
      (
        refl,
        refl,
        λ _ h h'. cmp_joins x.attrs.n_lladdr y.attrs.n_lladdr z.attrs.n_lladdr xl yl zl h h',
        (
          refl,
          refl,
          λ _ h h'. cmp_joins x.attrs.n_dst y.attrs.n_dst z.attrs.n_dst xd yd zd h h',
          (
            refl,
            refl,
            λ _ h h'. ground arith,
            (
              refl,
              refl,
              λ _ h h'. ground arith,
              (refl, refl, λ _ h h'. ground arith, (refl, refl, λ _ h h'. ground arith, tt)),
            ),
          ),
        ),
      ),
    ),
  ),
)

-- The masks that identify a port of a bridge of its own.
abbrev pub self_attrs : Bool → Bool → ℕ
self_attrs dst vlan = bit_or 0x64 (bit_or (if dst then 8 else 0) (if vlan then 0x400 else 0))

-- The attributes that identify a neighbour: one of three kinds.
pub data Kind (o : Object Neigh) : Type 0 where
  plain : is_bridge o.attrs ≡ false → neigh_id_attrs_get o ≡ 0x68 → Kind o
  ports : is_bridge o.attrs ≡ true → is_self o.attrs ≡ false → neigh_id_attrs_get o ≡ 0x644 → Kind o
  self :
      is_bridge o.attrs ≡ true
      → is_self o.attrs ≡ true
      → (dst vlan : Bool) → has_attr o.ce_mask neigh_attr_vlan ≡ vlan
      → neigh_id_attrs_get o ≡ self_attrs dst vlan
      → Kind o

pub kind : (o : Object Neigh) → Kind o
unfolding neigh_id_attrs_get
kind o = elim (Bool-cases (is_bridge o.attrs)) [
  | inr other ↦ plain other (ground arith)
  | inl bridge ↦ elim (Bool-cases (is_self o.attrs)) [
    | inr other ↦ ports bridge other (ground arith)
    | inl own ↦
        self bridge own (has_attr o.ce_mask 8) (has_attr o.ce_mask 0x400) refl (ground arith)
  ]
]

-- What two neighbours that are identified by the same attributes agree in.
abbrev Parts : ℕ → Object Neigh → Object Neigh → Type 0
Parts list x y =
    All (λ (e : ℕ × Bool). attr_diff list e.0 x.ce_mask y.ce_mask e.1 ≡ 0)
      (neigh_diff x.attrs y.attrs id_comparison)

neigh_hash_key-parts :
    (x y : Neigh)
    → x.n_family ≡ y.n_family
    → key_ifindex x ≡ key_ifindex y
    → (if is_bridge x then x.n_vlan else 0) ≡ (if is_bridge y then y.n_vlan else 0)
    → binary_addr (key_addr x) ≡ binary_addr (key_addr y)
    → neigh_hash_key x ≡ neigh_hash_key y
unfolding neigh_hash_key
neigh_hash_key-parts x y family ifindex vlan addr =
    ap
      (λ f.
        to_bytes 4 f
        ++ to_bytes 4 (key_ifindex x)
        ++ to_bytes 2 (if is_bridge x then x.n_vlan else 0)
        ++ binary_addr (key_addr x))
      family
    ∙ ap
        (λ i.
          to_bytes 4 y.n_family
          ++ to_bytes 4 i
          ++ to_bytes 2 (if is_bridge x then x.n_vlan else 0)
          ++ binary_addr (key_addr x))
        ifindex
    ∙ ap
        (λ v.
          to_bytes 4 y.n_family
          ++ to_bytes 4 (key_ifindex y)
          ++ to_bytes 2 v
          ++ binary_addr (key_addr x))
        vlan
    ∙ ap
        (λ l.
          to_bytes 4 y.n_family
          ++ to_bytes 4 (key_ifindex y)
          ++ to_bytes 2 (if is_bridge y then y.n_vlan else 0)
          ++ l)
        addr

pub self-within :
    (d v : Bool)
    → (bit_and (self_attrs d v) 0x40 ≡ 0x40)
      × (bit_and (self_attrs d v) 0x20 ≡ 0x20)
      × (bit_and (self_attrs d v) 0x04 ≡ 0x04)
self-within true true = (refl, refl, refl)
self-within true false = (refl, refl, refl)
self-within false true = (refl, refl, refl)
self-within false false = (refl, refl, refl)

pub self-vlan : (d : Bool) → bit_and (self_attrs d true) 0x400 ≡ 0x400
self-vlan true = refl
self-vlan false = refl

module _ (list : ℕ) (x y : Object Neigh) (vx : IsNeigh x) (vy : IsNeigh y)
    (whole : bit_and x.ce_mask list ≡ list) (p : Parts list x y) where
  -- The same family, which identifies every neighbour.
  same_family : bit_and list 0x40 ≡ 0x40 → x.attrs.n_family ≡ y.attrs.n_family
  same_family w =
      same_number list 0x40 x.ce_mask y.ce_mask whole w (omega arith) x.attrs.n_family
        y.attrs.n_family p.1.0

  pub plain_key :
      is_bridge x.attrs ≡ false → list ≡ 0x68 → neigh_hash_key x.attrs ≡ neigh_hash_key y.attrs
  plain_key px e =
      let (xl, xd, _) = vx in
      let (yl, yd, _) = vy in
      let family = same_family (ap (λ l. bit_and l 0x40) e) in
      let py : is_bridge y.attrs ≡ false = ap (λ f. f == af_bridge) (sym family) ∙ px in
      let ifindex : x.attrs.n_ifindex ≡ y.attrs.n_ifindex =
        same_number list 0x20 x.ce_mask y.ce_mask whole (ap (λ l. bit_and l 0x20) e) (omega arith)
          x.attrs.n_ifindex y.attrs.n_ifindex p.0 in
      let dst : binary_addr x.attrs.n_dst ≡ binary_addr y.attrs.n_dst =
        same_addr list 0x08 x.ce_mask y.ce_mask whole (ap (λ l. bit_and l 0x08) e) (omega arith)
          x.attrs.n_dst y.attrs.n_dst xd yd p.1.1.1.1.0 in
      neigh_hash_key-parts x.attrs y.attrs family (ground (arith, px, py, ifindex))
        (ground (arith, px, py)) (ground (arith, px, py, dst))

  -- The link-layer address, which identifies every port of a bridge.
  same_lladdr :
      bit_and list 0x04 ≡ 0x04 → binary_addr x.attrs.n_lladdr ≡ binary_addr y.attrs.n_lladdr
  same_lladdr w =
      let (xl, _, _) = vx in
      let (yl, _, _) = vy in
      same_addr list 0x04 x.ce_mask y.ce_mask whole w (omega arith) x.attrs.n_lladdr
        y.attrs.n_lladdr xl yl p.1.1.1.0

  pub same_vlan : bit_and list 0x400 ≡ 0x400 → x.attrs.n_vlan ≡ y.attrs.n_vlan
  same_vlan w =
      same_number list 0x400 x.ce_mask y.ce_mask whole w (omega arith) x.attrs.n_vlan y.attrs.n_vlan
        p.1.1.1.1.1.1.0

  pub ports_key :
      is_bridge x.attrs ≡ true
      → is_self x.attrs ≡ false
      → is_self y.attrs ≡ false
      → list ≡ 0x644
      → neigh_hash_key x.attrs ≡ neigh_hash_key y.attrs
  ports_key bx sx sy e =
      let family = same_family (ap (λ l. bit_and l 0x40) e) in
      let by : is_bridge y.attrs ≡ true = ap (λ f. f == af_bridge) (sym family) ∙ bx in
      let master : x.attrs.n_master ≡ y.attrs.n_master =
        same_number list 0x200 x.ce_mask y.ce_mask whole (ap (λ l. bit_and l 0x200) e) (omega arith)
          x.attrs.n_master y.attrs.n_master p.1.1.1.1.1.0 in
      neigh_hash_key-parts x.attrs y.attrs family (ground (arith, bx, by, sx, sy, master))
        (ground (arith, bx, by, same_vlan (ap (λ l. bit_and l 0x400) e)))
        (ground (arith, bx, by, same_lladdr (ap (λ l. bit_and l 0x04) e)))

  pub self_key :
      is_bridge x.attrs ≡ true
      → is_self x.attrs ≡ true
      → is_self y.attrs ≡ true
      → (d v : Bool) → list ≡ self_attrs d v
      → x.attrs.n_vlan ≡ y.attrs.n_vlan
      → neigh_hash_key x.attrs ≡ neigh_hash_key y.attrs
  self_key bx sx sy d v e vlan =
      let (w40, w20, w04) = self-within d v in
      let family = same_family (ap (λ l. bit_and l 0x40) e ∙ w40) in
      let by : is_bridge y.attrs ≡ true = ap (λ f. f == af_bridge) (sym family) ∙ bx in
      let ifindex : x.attrs.n_ifindex ≡ y.attrs.n_ifindex =
        same_number list 0x20 x.ce_mask y.ce_mask whole (ap (λ l. bit_and l 0x20) e ∙ w20)
          (omega arith) x.attrs.n_ifindex y.attrs.n_ifindex p.0 in
      neigh_hash_key-parts x.attrs y.attrs family (ground (arith, bx, by, sx, sy, ifindex))
        (ground (arith, bx, by, vlan))
        (ground (arith, bx, by, same_lladdr (ap (λ l. bit_and l 0x04) e ∙ w04)))

  pub bridge_family : bit_and list 0x40 ≡ 0x40 → is_bridge x.attrs ≡ is_bridge y.attrs
  bridge_family w = ap (λ f. f == af_bridge) (same_family w)
