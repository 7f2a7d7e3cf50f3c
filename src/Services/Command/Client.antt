-- ===== src/Services/Command/Client.antt =====
-- `command_client` of services/command_client.hpp. The callback of a command is never called, and
-- is left out.
use libprotoserial.Prelude.{
  ℕ, ◌+◌, ◌^◌, ◌<◌, ◌≡◌, ◌≢◌, refl, List, [], ◌∷◌, ◌++◌, true, Option, none, some, Result, ok, err,
  decode_failed, ◌>>=◌, arith, length, replicate,
}
use libprotoserial.Bytes.{shrink, window, sized}
use libprotoserial.Bytes.Layout.{Represents, sized_lem}
use libprotoserial.Bytes.Spec.{Gives, shrink-Represents, laid_out-Represents, size-Represents}
use libprotoserial.Bytes.Construct.{push_all, push_all-Represents}
use libprotoserial.Interface.Fragment.{InterfaceId}
use libprotoserial.Fragmentation.IdFactory.{IdFactory, new_id_low}
use libprotoserial.Fragmentation.Transfer.{Transfer, set_interface_id}
use libprotoserial.Ports.Packet.{Packet, renewed, is_transmit_ready}
use libprotoserial.Ports.Header.{header}
use libprotoserial.Ports.Header
use libprotoserial.Ports.Handler.{Ports, has_interface}
use libprotoserial.Ports.Handler.Register.{FirstFree}
use libprotoserial.Ports.Handler.Deliver.{transmit_lem}
use libprotoserial.Services.{Service, bind_to_free, create_packet_to, create_packet, transmit}
use libprotoserial.Services.Command.Json.{
  JsonLibrary, Encoder, to_json, cmd_key, args_key, port_key,
}
use libprotoserial.Services.Command.Balance.{bind_to_free-FirstFree}

-- A connection for each command that was sent, which nothing takes off the list.
pub record Client : Type 0 where
  pub service : Service
  pub connections : List Service

-- What `send_command` leaves, and the transfer that it hands to an interface, if any.
pub record Sent : Type 0 where
  pub client : Client
  pub ports : Ports
  pub transmitted : Option (InterfaceId × Transfer)
  pub ids : IdFactory

module _ (json : JsonLibrary) where
  open json use {Json, decode_cbor, encode_cbor, is_object, string, number, object}

  -- The query for a connection at a port.
  unfoldable pub query : List ℕ → Encoder json → ℕ → Json
  query cmd args port =
      object ((cmd_key, string cmd) ∷ (args_key, to_json json args) ∷ (port_key, number port) ∷ [])

  pub send_command :
      ℕ
      → ℕ
      → ℕ
      → IdFactory
      → ℕ
      → InterfaceId
      → ℕ
      → List ℕ
      → Encoder json
      → Client
      → Ports
      → Result (Option Sent)
  send_command object_id now object_id' ids addr iid port cmd args c l = bind_to_free l >>= λ r.
      elim r [
        | none ↦ ok none
        | some (conn, l') ↦
            let (req, ids') = create_packet_to c.service object_id now 128 addr iid port ids in
            shrink 0 128 req.payload >>= λ d.
            push_all (encode_cbor (query cmd args conn.port)) d >>= λ d'.
            transmit object_id' c.service (record req { payload = d' }) l' >>= λ t. ok (
              some (record {
                client = record c { connections = c.connections ++ (conn ∷ []) };
                ports = l';
                transmitted = t;
                ids = ids';
              }))
      ]

  -- `receive` reads the answer, and does nothing with it yet.
  unfoldable pub receive : Packet → Client → Result Client
  receive p c = window p.payload >>= λ raw. elim (decode_cbor raw) [
    | none ↦ err decode_failed
    | some j ↦ ok c
  ]

  -- The data of a created packet after it was shrunk: no bytes, with the room of the prealloc size.
  emptied : (f b : ℕ) → f + 128 + b < 2 ^ 31 → Gives (shrink 0 128 (sized f 128 b)) []
  emptied f b small =
      let zeros = replicate {A = ℕ} 128 0 in
      rw (sized_lem f 128 b (omega arith))
        (shrink-Represents 0 128 (laid_out-Represents f zeros b small) (omega arith))

  -- A command to an address and a port other than 0, over an interface that the handler knows, is
  -- transmitted as one transfer to that address whose data is the query, from the client's port;
  -- the query names a new connection's port, the first free one from 100 on, and is encoded in at
  -- least one byte and fewer than 2 ^ 31 - 3. The connection stays, and so does its registration.
  pub send_command_lem :
      (object_id now object_id' : ℕ) (ids : IdFactory) (addr : ℕ) (iid : InterfaceId) (port : ℕ)
      (cmd : List ℕ) (args : Encoder json) (c : Client) (l : Ports)
      → addr ≢ 0
      → port ≢ 0
      → has_interface iid l.interfaces ≡ true
      → c.service.prealloc.front + 128 + c.service.prealloc.back < 2 ^ 31
      → ((q : ℕ) → 0 < length (encode_cbor (query cmd args q)))
      → ((q : ℕ) → length (encode_cbor (query cmd args q)) + 3 < 2 ^ 31)
      → (conn : Service) × (t : Transfer) × (ids' : IdFactory) × (send_command object_id now
            object_id' ids addr iid port cmd args c l
          ≡ ok (
              some (record {
                client = record c { connections = c.connections ++ (conn ∷ []) };
                ports = record l { services = l.services ++ (conn.port ∷ []) };
                transmitted = some (iid, t);
                ids = ids';
              })))
        × FirstFree 100 l.services conn.port
        × (t.meta.fragment.destination ≡ addr)
        × Represents t.payload
            (Header.encode (header port c.service.port) ++ encode_cbor (query cmd args conn.port))
  unfolding send_command create_packet_to create_packet set_interface_id transmit
  send_command_lem object_id now object_id' ids addr iid port cmd args c l to_addr to_port known
        room some_bytes small =
      let (conn, e, free) = bind_to_free-FirstFree l in
      let l' : Ports = record l { services = l.services ++ (conn.port ∷ []) } in
      let bytes = encode_cbor (query cmd args conn.port) in
      let (d, e₁, r₁) = emptied c.service.prealloc.front c.service.prealloc.back room in
      let (d', e₂, r₂) = push_all-Represents bytes r₁ (omega (arith, small conn.port)) in
      let (req, ids') = create_packet_to c.service object_id now 128 addr iid port ids in
      let full = record req { payload = d' } in
      let ready : is_transmit_ready full ≡ true =
        unfold is_transmit_ready in
        ground (arith, size-Represents r₂, new_id_low iid ids, some_bytes conn.port) in
      let (b, e₃, r₃) =
        transmit_lem object_id' c.service.port full l' r₂ (small conn.port) ready known in
      (
        conn,
        record { meta = renewed object_id' full.meta.transfer; payload = b },
        ids',
        rw (e, e₁, e₂, e₃) refl,
        free,
        refl,
        r₃,
      )
