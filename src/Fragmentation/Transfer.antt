-- ===== src/Fragmentation/Transfer.antt =====
-- Transfers of fragmentation/transfer.hpp: the metadata of a fragment with two identifiers of eight
-- bits, and data. `id_factory` of the source is one global object: it is passed along.
use libprotoserial.Prelude.{ℕ, ◌%◌, ◌≡◌, refl, Bool, true, ◌&&◌, ◌==◌, if◌then◌else◌, arith}
use libprotoserial.Bytes.{Bytes, init}
use libprotoserial.Interface.Fragment.{
  FragmentMetadata, InterfaceId, same_interface_iff, is_response_fragment,
}
use libprotoserial.Fragmentation.IdFactory.{IdFactory, new_id}

pub record TransferMetadata : Type 0 where
  pub fragment : FragmentMetadata
  pub id : ℕ
  pub prev_id : ℕ

abbrev pub invalid_id : ℕ
invalid_id = 0

-- `set_interface_id` gives the transfer an identifier unless it has one.
unfoldable pub set_interface_id :
    InterfaceId → TransferMetadata → IdFactory → TransferMetadata × IdFactory
set_interface_id iid m ids =
    let fragment = record (m.fragment) { interface_id = iid } in
    let (id, ids') = new_id iid ids in
    if m.id == invalid_id
    then (record m { fragment = fragment; id = id % 256 }, ids')
    else (record m { fragment = fragment }, ids)

-- `create_response_transfer_metadata`, with the new object's identifier and the time.
unfoldable pub create_response_transfer_metadata :
    TransferMetadata → ℕ → ℕ → IdFactory → TransferMetadata × IdFactory
create_response_transfer_metadata m object_id now ids =
    let (id, ids') = new_id m.fragment.interface_id ids in
    (
      record {
        fragment = record {
          object_id = object_id;
          timestamp_creation = now;
          interface_id = m.fragment.interface_id;
          source = m.fragment.destination;
          destination = m.fragment.source;
        };
        id = id % 256;
        prev_id = m.id;
      },
      ids',
    )

-- `m.is_response_transfer(other)`
unfoldable pub is_response_transfer : TransferMetadata → TransferMetadata → Bool
is_response_transfer m other =
    is_response_fragment m.fragment other.fragment && (m.id == other.prev_id)

pub record Transfer : Type 0 where
  pub meta : TransferMetadata
  pub payload : Bytes

-- `create_response_transfer`
unfoldable pub create_response_transfer : Transfer → ℕ → ℕ → IdFactory → Transfer × IdFactory
create_response_transfer t object_id now ids =
    let (m, ids') = create_response_transfer_metadata t.meta object_id now ids in
    (record { meta = m; payload = init }, ids')

-- A response is recognised as one by the side that sent the request.
pub is_response_transfer-create_response :
    (m : TransferMetadata) (object_id now : ℕ) (ids : IdFactory)
    → is_response_transfer m (create_response_transfer_metadata m object_id now ids).0 ≡ true
unfolding is_response_transfer create_response_transfer_metadata is_response_fragment
is_response_transfer-create_response m object_id now ids =
    ground (arith, (same_interface_iff m.fragment.interface_id m.fragment.interface_id).1 refl)
