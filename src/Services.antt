-- ===== src/Services.antt =====
-- `service_base` of services/common/service_base.hpp: a service is registered at a port, makes
-- packets, and transmits them through its endpoint. `object_id` and `now` are for a new object.
pub mod Echo
pub mod Command
use libprotoserial.Prelude.{ℕ, ◌+◌, Option, none, some, Result, ok, err, ◌>>=◌}
use libprotoserial.Bytes.{Bytes, sized}
use libprotoserial.Interface.Fragment.{InterfaceId, no_interface}
use libprotoserial.Fragmentation.IdFactory.{IdFactory}
use libprotoserial.Fragmentation.Transfer.{Transfer, set_interface_id}
use libprotoserial.Ports.Packet.{Packet}
use libprotoserial.Ports.Handler.{
  PreallocSize, Ports, register_service, get_free_port, get_minimum_prealloc,
}
use libprotoserial.Ports.Handler

pub record Service : Type 0 where
  pub port : ℕ
  pub prealloc : PreallocSize

-- The default constructor.
abbrev pub unbound : Service
unbound = record { port = 0; prealloc = record { front = 0; back = 0 } }

-- `bind_to` at a port, also what the other constructor does.
unfoldable pub bind_to : ℕ → Ports → Result (Service × Ports)
bind_to port l = do
  l' ← register_service port l
  ok (record { port = port; prealloc = get_minimum_prealloc l' }, l')

-- `bind_to` at a free port; nothing means that the search ran out of fuel.
unfoldable pub bind_to_free : Ports → Result (Option (Service × Ports))
unfolding bind_to
bind_to_free l = elim (get_free_port l) [
  | none ↦ ok none
  | some port ↦ bind_to port l >>= λ r. ok (some r)
]

-- `transmit`: the endpoint hands the packet to the ports handler under its own port.
pub transmit : ℕ → Service → Packet → Ports → Result (Option (InterfaceId × Transfer))
transmit object_id s p l = Handler.transmit object_id s.port p l

-- `create_packet` without and with the destination.
unfoldable pub create_packet : Service → ℕ → ℕ → ℕ → Packet
create_packet s object_id now max_data_size = record {
  meta = record {
    transfer = record {
      fragment = record {
        object_id = object_id;
        timestamp_creation = now;
        interface_id = no_interface;
        source = 0;
        destination = 0;
      };
      id = 0;
      prev_id = 0;
    };
    source_port = 0;
    destination_port = 0;
  };
  payload = sized s.prealloc.front max_data_size s.prealloc.back;
}

unfoldable pub create_packet_to :
    Service → ℕ → ℕ → ℕ → ℕ → InterfaceId → ℕ → IdFactory → Packet × IdFactory
unfolding create_packet
create_packet_to s object_id now max_data_size addr iid port ids =
    let p = create_packet s object_id now max_data_size in
    let t = p.meta.transfer in
    let there = record t { fragment = record (t.fragment) { destination = addr } } in
    let (t', ids') = set_interface_id iid there ids in
    (record p { meta = record (p.meta) { transfer = t'; destination_port = port } }, ids')
