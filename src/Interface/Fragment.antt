-- ===== src/Interface/Fragment.antt =====
-- Fragments and interface identifiers: interface/fragment.hpp and interface/interface_id.hpp.
-- A time stamp is a number of ticks, and the object identifier that utils/object_id.hpp draws from
-- a global counter is a field.
use libprotoserial.Prelude.{
  ℕ, ◌≡◌, ◌↔◌, refl, Bool, true, ◌&&◌, not, ◌==◌, arith, ok, Result, ◌>>=◌,
}
use libprotoserial.Bytes.{Bytes, init, is_empty, equal}

pub data IdentifierType : Type 0 where
  none_type virtual_type loopback uart usbcdc : IdentifierType

-- The underlying `uint8_t` of the enumeration.
abbrev pub type_code : IdentifierType → ℕ
type_code none_type = 0
type_code virtual_type = 1
type_code loopback = 2
type_code uart = 3
type_code usbcdc = 4

pub record InterfaceId : Type 0 where
  pub identifier : IdentifierType
  pub inst : ℕ

abbrev pub no_interface : InterfaceId
no_interface = record { identifier = none_type; inst = 0 }

-- `interface_identifier::operator==`
unfoldable pub same_interface : InterfaceId → InterfaceId → Bool
same_interface a b = (type_code a.identifier == type_code b.identifier) && (a.inst == b.inst)

type_code_injective : (s t : IdentifierType) → type_code s ≡ type_code t → s ≡ t
type_code_injective s t h = ground arith

pub same_interface_iff : (a b : InterfaceId) → (same_interface a b ≡ true) ↔ (a ≡ b)
unfolding same_interface
same_interface_iff a b = ground (arith, type_code_injective a.identifier b.identifier)

pub record FragmentMetadata : Type 0 where
  pub object_id : ℕ
  pub timestamp_creation : ℕ
  pub interface_id : InterfaceId
  pub source : ℕ
  pub destination : ℕ

abbrev pub invalid_address : ℕ
invalid_address = 0

-- `create_response_fragment_metadata`, with the new object's identifier and the time.
unfoldable pub create_response_fragment_metadata : FragmentMetadata → ℕ → ℕ → FragmentMetadata
create_response_fragment_metadata m id now = record {
  object_id = id;
  timestamp_creation = now;
  interface_id = m.interface_id;
  source = m.destination;
  destination = m.source;
}

-- `m.is_response_fragment(other)`
unfoldable pub is_response_fragment : FragmentMetadata → FragmentMetadata → Bool
is_response_fragment m other =
    (other.source == m.destination) && same_interface m.interface_id other.interface_id

pub record Fragment : Type 0 where
  pub meta : FragmentMetadata
  pub payload : Bytes

-- `complete`: the interface fills its address in.
unfoldable pub complete : ℕ → InterfaceId → Fragment → Fragment
complete src iid f = record f { meta = record (f.meta) { source = src; interface_id = iid } }

-- `carries_information`, also the conversion to `bool`.
unfoldable pub carries_information : Fragment → Bool
carries_information f = not (is_empty f.payload) && not (f.meta.destination == invalid_address)

-- `create_response_fragment`
unfoldable pub create_response_fragment : Fragment → ℕ → ℕ → Fragment
create_response_fragment f id now = record {
  meta = create_response_fragment_metadata f.meta id now;
  payload = init;
}

-- `operator==` on fragments
unfoldable pub same_fragment : Fragment → Fragment → Result Bool
same_fragment l r = do
  same ← equal l.payload r.payload
  ok (
      same_interface l.meta.interface_id r.meta.interface_id
      && (l.meta.source == r.meta.source)
      && (l.meta.destination == r.meta.destination)
      && same)

-- The metadata that answers some metadata is recognised as its response.
pub is_response_fragment-create_response :
    (m : FragmentMetadata) (id now : ℕ)
    → is_response_fragment m (create_response_fragment_metadata m id now) ≡ true
unfolding is_response_fragment create_response_fragment_metadata
is_response_fragment-create_response m id now =
    ground (arith, (same_interface_iff m.interface_id m.interface_id).1 refl)
