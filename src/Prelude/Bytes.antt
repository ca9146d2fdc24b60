-- ===== src/Prelude/Bytes.antt =====
-- Fields in memory, in the byte order of a little-endian host, and the 4-byte alignment of netlink.
use Prim.Native.Nat.{ℕ, zero, suc, ◌+◌, ◌*◌, ◌/◌, ◌%◌, ◌^◌, ◌<◌}
use mathlib.Core.Path.{◌≡◌, refl, ap, ◌∙◌}
use mathlib.Core.List.{List, [], ◌∷◌, ◌++◌}
use native.Mathlib.Nat.{pow-suc}
use native.Mathlib.Omega.{arith}
use libnl.Prelude.Lists.{length, get_or}

-- `(n + 3) & ~3`, the macros NLA_ALIGN and NLMSG_ALIGN.
abbrev pub align : ℕ → ℕ
align n = (n + 3) / 4 * 4

-- A read past the bytes gives 0.
abbrev pub byte_at : List ℕ → ℕ → ℕ
byte_at p i = get_or p i 0

-- The w bytes of a number, lowest first.
abbrev pub to_bytes : ℕ → ℕ → List ℕ
to_bytes zero n = []
to_bytes (suc w) n = n % 256 ∷ to_bytes w (n / 256)

-- The number that w bytes at a pointer stand for.
abbrev pub of_bytes : ℕ → List ℕ → ℕ
of_bytes zero p = 0
of_bytes (suc w) [] = 0
of_bytes (suc w) (b ∷ p) = b + 256 * of_bytes w p

abbrev pub u16_at : List ℕ → ℕ → ℕ
u16_at p i = byte_at p i + 256 * byte_at p (suc i)

pub length-to_bytes : (w n : ℕ) → length (to_bytes w n) ≡ w
length-to_bytes zero n = refl
length-to_bytes (suc w) n = ap suc (length-to_bytes w (n / 256))

-- Writing w bytes and reading them back keeps the number, if w bytes can hold it.
pub of_bytes-to_bytes :
    (w n m : ℕ) (rest : List ℕ) → m ≡ 256 ^ w → n < m → of_bytes w (to_bytes w n ++ rest) ≡ n
of_bytes-to_bytes zero n m rest e h = omega arith
of_bytes-to_bytes (suc w) n m rest e h =
    let e' : m ≡ 256 ^ w * 256 = e ∙ pow-suc 256 w in
    omega (arith, of_bytes-to_bytes w (n / 256) (256 ^ w) rest refl (omega arith))
