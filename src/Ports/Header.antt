-- ===== src/Ports/Header.antt =====
-- `headers::ports_8b` of ports/headers.hpp: the two ports cut to eight bits, and their sum.
use libprotoserial.Prelude.{
  ℕ, ◌+◌, ◌%◌, ◌≡◌, ◌≢◌, ◌↔◌, List, [], ◌∷◌, Bool, true, ◌&&◌, not, ◌==◌, get_or, arith,
}

pub record Header : Type 0 where
  pub destination : ℕ
  pub source : ℕ
  pub check : ℕ

abbrev pub header_size : ℕ
header_size = 3

unfoldable pub header : ℕ → ℕ → Header
header dst src =
    let d = dst % 256 in
    let s = src % 256 in record { destination = d; source = s; check = (d + s) % 256 }

unfoldable pub is_valid : Header → Bool
is_valid h =
    (h.check == (h.destination + h.source) % 256) && not (h.destination == 0) && not (h.source == 0)

abbrev pub encode : Header → List ℕ
encode h = h.destination ∷ h.source ∷ h.check ∷ []

abbrev pub decode : List ℕ → Header
decode b = record { destination = get_or b 0 0; source = get_or b 1 0; check = get_or b 2 0 }

-- A header is valid exactly when neither port is a multiple of 256.
pub is_valid-header :
    (dst src : ℕ) → (is_valid (header dst src) ≡ true) ↔ ((dst % 256 ≢ 0) × (src % 256 ≢ 0))
unfolding is_valid header
is_valid-header dst src = ground arith
