-- ===== src/Fragmentation/FragmentHeader.antt =====
-- `headers::fragment_8b8b` of fragmentation/headers.hpp: seven bytes, the last one their sum.
use libprotoserial.Prelude.{
  ℕ, ◌+◌, ◌%◌, ◌≡◌, ◌≢◌, ◌≤◌, ◌↔◌, List, [], ◌∷◌, Bool, true, ◌&&◌, not, ◌==◌, leb, get_or, arith,
}

pub data MessageType : Type 0 where
  init_message fragment_message fragment_ack fragment_req : MessageType

abbrev pub message_code : MessageType → ℕ
message_code init_message = 0
message_code fragment_message = 1
message_code fragment_ack = 2
message_code fragment_req = 3

-- The type is the byte itself, as a received header may hold any.
pub record Header : Type 0 where
  pub type : ℕ
  pub fragment : ℕ
  pub fragments_total : ℕ
  pub id : ℕ
  pub prev_id : ℕ
  pub status : ℕ
  pub check : ℕ

abbrev pub header_size : ℕ
header_size = 7

abbrev pub sum : Header → ℕ
sum h = (h.type + h.fragment + h.fragments_total + h.id + h.prev_id + h.status) % 256

unfoldable pub fragment_header : MessageType → ℕ → ℕ → ℕ → ℕ → Header
fragment_header t fragment total id prev_id =
    let h : Header = record {
      type = message_code t;
      fragment = fragment % 256;
      fragments_total = total % 256;
      id = id % 256;
      prev_id = prev_id % 256;
      status = 0;
      check = 0;
    } in
    record h { check = sum h }

unfoldable pub is_valid : Header → Bool
is_valid h =
    (h.check == sum h)
    && not (h.fragment == 0)
    && not (h.fragments_total == 0)
    && leb h.fragment h.fragments_total
    && not (h.id == 0)

abbrev pub encode : Header → List ℕ
encode h = h.type ∷ h.fragment ∷ h.fragments_total ∷ h.id ∷ h.prev_id ∷ h.status ∷ h.check ∷ []

abbrev pub decode : List ℕ → Header
decode b = record {
  type = get_or b 0 0;
  fragment = get_or b 1 0;
  fragments_total = get_or b 2 0;
  id = get_or b 3 0;
  prev_id = get_or b 4 0;
  status = get_or b 5 0;
  check = get_or b 6 0;
}

-- A header is valid exactly when its index counts from 1 to the number of fragments, in eight bits,
-- and the identifier is not the invalid one.
pub is_valid-fragment_header :
    (t : MessageType) (fragment total id prev_id : ℕ)
    → (is_valid (fragment_header t fragment total id prev_id) ≡ true)
      ↔ ((fragment % 256 ≢ 0) × (fragment % 256 ≤ total % 256) × (id % 256 ≢ 0))
unfolding is_valid fragment_header
is_valid-fragment_header t fragment total id prev_id = ground arith
