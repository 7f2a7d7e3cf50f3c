-- ===== src/Ports/Packet.antt =====
-- Packets of ports/packet.hpp: a transfer's metadata with two ports, and data.
use libprotoserial.Prelude.{ℕ, ◌≡◌, Bool, true, ◌&&◌, not, ◌==◌, arith}
use libprotoserial.Bytes.{Bytes, init, is_empty}
use libprotoserial.Interface.Fragment.{invalid_address}
use libprotoserial.Fragmentation.IdFactory.{IdFactory}
use libprotoserial.Fragmentation.Transfer.{
  TransferMetadata, Transfer, invalid_id, create_response_transfer_metadata, is_response_transfer,
  is_response_transfer-create_response,
}

pub record PacketMetadata : Type 0 where
  pub transfer : TransferMetadata
  pub source_port : ℕ
  pub destination_port : ℕ

abbrev pub invalid_port : ℕ
invalid_port = 0

-- `create_response_packet_metadata`
unfoldable pub create_response_packet_metadata :
    PacketMetadata → ℕ → ℕ → IdFactory → PacketMetadata × IdFactory
create_response_packet_metadata m object_id now ids =
    let (t, ids') = create_response_transfer_metadata m.transfer object_id now ids in
    (
      record { transfer = t; source_port = m.destination_port; destination_port = m.source_port },
      ids',
    )

-- `m.is_response_packet(other)`
unfoldable pub is_response_packet : PacketMetadata → PacketMetadata → Bool
is_response_packet m other =
    is_response_transfer m.transfer other.transfer && (other.source_port == m.destination_port)

pub record Packet : Type 0 where
  pub meta : PacketMetadata
  pub payload : Bytes

-- Metadata under the identifier of a new object.
abbrev pub renewed : ℕ → TransferMetadata → TransferMetadata
renewed object_id m = record m { fragment = record (m.fragment) { object_id = object_id } }

-- The constructor from a transfer, a source and a destination port, with the identifier of the new
-- object.
unfoldable pub of_transfer : Transfer → ℕ → ℕ → ℕ → Packet
of_transfer t src_port dst_port object_id = record {
  meta = record {
    transfer = renewed object_id t.meta;
    source_port = src_port;
    destination_port = dst_port;
  };
  payload = t.payload;
}

-- `create_response_packet`
unfoldable pub create_response_packet : Packet → ℕ → ℕ → IdFactory → Packet × IdFactory
create_response_packet p object_id now ids =
    let (m, ids') = create_response_packet_metadata p.meta object_id now ids in
    (record { meta = m; payload = init }, ids')

unfoldable pub is_transmit_ready : Packet → Bool
is_transmit_ready p =
    not (is_empty p.payload)
    && not (p.meta.transfer.fragment.destination == invalid_address)
    && not (p.meta.transfer.id == invalid_id)
    && not (p.meta.destination_port == invalid_port)

-- The response to a packet is recognised as its response, and goes to the port and the address that
-- the packet came from.
pub is_response_packet-create_response :
    (m : PacketMetadata) (object_id now : ℕ) (ids : IdFactory)
    → let r = (create_response_packet_metadata m object_id now ids).0 in
      (is_response_packet m r ≡ true)
      × (r.destination_port ≡ m.source_port)
      × (r.transfer.fragment.destination ≡ m.transfer.fragment.source)
unfolding is_response_packet create_response_packet_metadata create_response_transfer_metadata
is_response_packet-create_response m object_id now ids =
    ground (arith, is_response_transfer-create_response m.transfer object_id now ids)
