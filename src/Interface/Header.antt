-- ===== src/Interface/Header.antt =====
-- `headers::interface_8b8b` of interface/headers.hpp: four bytes, the last a sum of the others.
use libprotoserial.Prelude.{
  ℕ, ◌+◌, ◌%◌, ◌≤◌, ◌<◌, ◌≡◌, ◌≢◌, List, [], ◌∷◌, Bool, true, false, ◌&&◌, not, ◌==◌, ltb, leb,
  arith, get_or, ◌*◌,
}
use libprotoserial.Interface.Fragment.{Fragment}
use libprotoserial.Bytes.{size}

pub record Header : Type 0 where
  pub destination : ℕ
  pub source : ℕ
  pub size : ℕ
  pub check : ℕ

abbrev pub header_size : ℕ
header_size = 4

-- The constructor from a fragment: the addresses and the size are cut to `uint8_t`.
unfoldable pub header_of : Fragment → Header
header_of p =
    let d = p.meta.destination % 256 in
    let s = p.meta.source % 256 in
    let n = size p.payload % 256 in
    record { destination = d; source = s; size = n; check = (d + s + n) % 256 }

-- `is_valid`; its parameter is a `uint8_t` too.
unfoldable pub is_valid : Header → ℕ → Bool
is_valid h max_size =
    (h.check == (h.destination + h.source + h.size) % 256)
    && ltb 0 h.size
    && leb h.size (max_size % 256)
    && not (h.destination == h.source)

-- The packed structure as bytes, and back.
abbrev pub encode : Header → List ℕ
encode h = h.destination ∷ h.source ∷ h.size ∷ h.check ∷ []

abbrev pub decode : List ℕ → Header
decode b = record {
  destination = get_or b 0 0;
  source = get_or b 1 0;
  size = get_or b 2 0;
  check = get_or b 3 0;
}

-- The header that is built for a fragment passes the receiver's check where the addresses
-- differ in their low bytes and the low byte of the size is from 1 up to that of the limit.
pub is_valid-header_of :
    (p : Fragment) (max_size : ℕ)
    → p.meta.destination % 256 ≢ p.meta.source % 256
    → 0 < size p.payload % 256
    → size p.payload % 256 ≤ max_size % 256
    → is_valid (header_of p) max_size ≡ true
unfolding is_valid header_of
is_valid-header_of p max_size differ some_bytes fits = ground arith

-- A limit that is a multiple of 256 is cut to 0, and no header passes.
pub is_valid_multiple : (h : Header) (k : ℕ) → is_valid h (256 * k) ≡ false
unfolding is_valid
is_valid_multiple h k = ground arith
