-- ===== src/Interface/Footer.antt =====
-- The footers of interface/footers.hpp: a checksum, `hash`, in the machine's byte order (little
-- endian on every supported target). The checksum functions are those of the ETL library, which is
-- not part of the repository: the algorithm is a parameter, of which only the width is known.
use libprotoserial.Prelude.{
  ℕ, zero, suc, ◌+◌, ◌*◌, ◌/◌, ◌%◌, ◌^◌, ◌<◌, ◌≡◌, refl, ap, List, [], ◌∷◌, length, arith,
}
use native.Mathlib.Nat.{pow-suc}

-- `value()` of an `etl::crc16` or `etl::crc32` over a range, an unsigned integer of `width` bytes.
pub record HashAlgorithm : Type 0 where
  pub width : ℕ
  pub value : List ℕ → ℕ
  pub value_bounded : (xs : List ℕ) → value xs < 256 ^ width
  pub width_small : width < 256

-- The bytes of an unsigned integer, and the integer of some bytes.
unfoldable pub le_bytes : ℕ → ℕ → List ℕ
le_bytes zero v = []
le_bytes (suc n) v = (v % 256) ∷ le_bytes n (v / 256)

unfoldable pub le_value : List ℕ → ℕ
le_value [] = 0
le_value (b ∷ bs) = b + 256 * le_value bs

pub length-le_bytes : (n v : ℕ) → length (le_bytes n v) ≡ n
unfolding le_bytes
length-le_bytes zero v = refl
length-le_bytes (suc n) v = ap suc (length-le_bytes n (v / 256))

-- The bytes of an integer that fits into them read back as that integer.
pub le_value-le_bytes : (n v : ℕ) → v < 256 ^ n → le_value (le_bytes n v) ≡ v
unfolding le_bytes le_value
le_value-le_bytes zero v h = omega arith
le_value-le_bytes (suc n) v h =
    let b : v / 256 < 256 ^ n = omega (arith, pow-suc 256 n) in
    omega (arith, le_value-le_bytes n (v / 256) b)
