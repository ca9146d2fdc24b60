-- ===== src/Route.antt =====
-- lib/route: the object types that are cached. nl_hash, whose code was taken from another project, is
-- a parameter, a function of the bytes of a key.
pub mod Links
pub mod Neigh
pub mod Nexthop
pub mod Routes
use Prim.Native.Nat.{bit_and}
use libnl.Prelude.{
  ◌≢◌, ◌==◌, not, ℕ, zero, suc, ◌≡◌, refl, ap, ◌∙◌, Bool, true, false, Option, none, some, List, [],
  take, arith,
}
use libnl.Prelude.Int.{ℤ, pos, negsuc}
use libnl.Addr.{NlAddr, nl_addr_cmp}
use libnl.Addr.Compare.{
  nl_addr_cmp_refl, IsAddrIf, nl_addr_cmp_lem, nl_addr_cmp_symm, nl_addr_cmp_trans,
}
use libnl.Object.Diff.{attr_diff, attr_diff-compared}

-- A comparison in C that is not 0.
abbrev pub nonzero : ℤ → Bool
nonzero (pos zero) = false
nonzero d = true

pub nonzero-false : (z : ℤ) → nonzero z ≡ false → z ≡ pos 0
nonzero-false (pos zero) h = refl
nonzero-false (pos (suc n)) h = absurd (ground arith)
nonzero-false (negsuc n) h = absurd (ground arith)

-- A number and an address do not differ from themselves.
pub number_same : (n : ℕ) → not (n == n) ≡ false
number_same n = ground arith

pub cmp_same : (a : Option NlAddr) → IsAddrIf a → nonzero (nl_addr_cmp a a) ≡ false
cmp_same a va = ap nonzero (nl_addr_cmp_refl a va)

-- Addresses that compare as equal do so the other way round, and with what the second equals.
pub cmp_flips :
    (a b : Option NlAddr)
    → IsAddrIf a
    → IsAddrIf b
    → nonzero (nl_addr_cmp a b) ≡ false
    → nonzero (nl_addr_cmp b a) ≡ false
cmp_flips a b va vb h = ap nonzero (nl_addr_cmp_symm a b va vb (nonzero-false (nl_addr_cmp a b) h))

pub cmp_joins :
    (a b c : Option NlAddr)
    → IsAddrIf a
    → IsAddrIf b
    → IsAddrIf c
    → nonzero (nl_addr_cmp a b) ≡ false
    → nonzero (nl_addr_cmp b c) ≡ false
    → nonzero (nl_addr_cmp a c) ≡ false
cmp_joins a b c va vb vc h h' = ap nonzero (
    nl_addr_cmp_trans a b c va vb vc (nonzero-false (nl_addr_cmp a b) h)
      (nonzero-false (nl_addr_cmp b c) h'))

-- Addresses that compare as equal have the same bytes.
abbrev pub binary_addr : Option NlAddr → List ℕ
binary_addr none = []
binary_addr (some addr) = take addr.a_len addr.a_addr

pub cmp_bytes :
    (a b : Option NlAddr)
    → IsAddrIf a
    → IsAddrIf b
    → nonzero (nl_addr_cmp a b) ≡ false
    → binary_addr a ≡ binary_addr b
cmp_bytes none none va vb h = refl
cmp_bytes none (some b) va vb h =
    absurd ((nl_addr_cmp_lem none (some b) va vb).0 (nonzero-false (nl_addr_cmp none (some b)) h))
cmp_bytes (some a) none va vb h =
    absurd ((nl_addr_cmp_lem (some a) none va vb).0 (nonzero-false (nl_addr_cmp (some a) none) h))
cmp_bytes (some a) (some b) va vb h =
    ((nl_addr_cmp_lem (some a) (some b) va vb).0
      (nonzero-false (nl_addr_cmp (some a) (some b)) h)).bytes

-- What is compared, if the first object has all the attributes that are compared, and no difference
-- is found: two numbers are the same, and so are the bytes of two addresses.
module _ (list attr a b : ℕ) (whole : bit_and a list ≡ list) (within : bit_and list attr ≡ attr)
    (some : attr ≢ 0) where
  pub same_number : (m n : ℕ) → attr_diff list attr a b (not (m == n)) ≡ 0 → m ≡ n
  same_number m n h =
      let e = attr_diff-compared list attr a b (not (m == n)) whole within some h in ground arith

  pub same_addr :
      (m n : Option NlAddr)
      → IsAddrIf m
      → IsAddrIf n
      → attr_diff list attr a b (nonzero (nl_addr_cmp m n)) ≡ 0
      → binary_addr m ≡ binary_addr n
  same_addr m n vm vn h =
      cmp_bytes m n vm vn
        (attr_diff-compared list attr a b (nonzero (nl_addr_cmp m n)) whole within some h)
