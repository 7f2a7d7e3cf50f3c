-- ===== src/Services/Echo.antt =====
-- `echo_service` of services/echo.hpp sends what it receives back.
use libprotoserial.Prelude.{
  ℕ, ◌+◌, ◌%◌, ◌^◌, ◌<◌, ◌≡◌, ◌≢◌, refl, List, ◌++◌, true, Option, some, Result, ok, ◌>>=◌, arith,
  length,
}
use libprotoserial.Bytes.Layout.{Represents}
use libprotoserial.Bytes.Spec.{size-Represents}
use libprotoserial.Bytes.Construct.{move_assign}
use libprotoserial.Interface.Fragment.{InterfaceId, is_response_fragment}
use libprotoserial.Fragmentation.IdFactory.{IdFactory, new_id_low}
use libprotoserial.Fragmentation.Transfer.{
  Transfer, create_response_transfer_metadata, is_response_transfer,
  is_response_transfer-create_response,
}
use libprotoserial.Ports.Packet.{
  Packet, of_transfer, renewed, create_response_packet, create_response_packet_metadata,
  is_transmit_ready,
}
use libprotoserial.Ports.Header.{header, encode}
use libprotoserial.Ports.Handler.{Ports, transfer_receive, has_service, has_interface}
use libprotoserial.Ports.Handler.Deliver.{transmit_lem, transfer_receive_lem}
use libprotoserial.Services.{Service, transmit}

-- `receive`: the response takes the packet's data.
pub receive :
    ℕ
    → ℕ
    → ℕ
    → IdFactory
    → Service
    → Packet
    → Ports
    → Result (Option (InterfaceId × Transfer) × IdFactory)
unfolding move_assign
receive object_id now object_id' ids s p l =
    let (resp, ids') = create_response_packet p object_id now ids in
    let answer = record resp { payload = (move_assign resp.payload p.payload).0 } in
    transmit object_id' s answer l >>= λ t. ok (t, ids')

header_low : (d s : ℕ) → header (d % 256) (s % 256) ≡ header d s
unfolding header
header_low d s =
    let d' : d % 256 % 256 ≡ d % 256 = omega arith in
    let s' : s % 256 % 256 ≡ s % 256 = omega arith in cc (d', s')

-- A transfer that carries a packet with data to an echo service comes back to its source over its
-- interface, if the handler knows that, as a response to it with the same data, from the port it
-- was sent to and to the port it came from. The ports' low bytes are not 0, the source has an
-- address, and the data has fewer than 2 ^ 31 - 3 bytes.
pub receive-transfer_receive :
    (j object_id now object_id' : ℕ) (ids : IdFactory) (s : Service) (l : Ports) (t : Transfer)
    (dst src : ℕ) (xs : List ℕ)
    → Represents t.payload (encode (header dst src) ++ xs)
    → dst % 256 ≢ 0
    → src % 256 ≢ 0
    → has_service (dst % 256) l.services ≡ true
    → s.port ≡ dst % 256
    → 0 < length xs
    → length xs + 3 < 2 ^ 31
    → t.meta.fragment.source ≢ 0
    → has_interface t.meta.fragment.interface_id l.interfaces ≡ true
    → (p : Packet) × (t' : Transfer) × (ids' : IdFactory) × (transfer_receive j t l
        ≡ ok (some (dst % 256, p)))
      × (receive object_id now object_id' ids s p l
          ≡ ok (some (t.meta.fragment.interface_id, t'), ids'))
      × (is_response_transfer t.meta t'.meta ≡ true)
      × (t'.meta.fragment.destination ≡ t.meta.fragment.source)
      × Represents t'.payload (encode (header src dst) ++ xs)
unfolding receive transmit of_transfer create_response_packet create_response_packet_metadata
    create_response_transfer_metadata is_response_transfer is_response_fragment
receive-transfer_receive j object_id now object_id' ids s l t dst src xs r d≢ s≢ known port
      some_bytes small from iface =
    let (d, e, rd) = transfer_receive_lem j dst src t l xs r d≢ s≢ known in
    let p = of_transfer (record { meta = t.meta; payload = d }) (src % 256) (dst % 256) j in
    let (resp, ids') = create_response_packet p object_id now ids in
    let answer = record resp { payload = d } in
    let ready : is_transmit_ready answer ≡ true =
      unfold is_transmit_ready in
      ground (arith, size-Represents rd, new_id_low t.meta.fragment.interface_id ids) in
    let (c, e', rc) = transmit_lem object_id' s.port answer l rd small ready iface in
    let back : header (src % 256) s.port ≡ header src dst = rw port (header_low src dst) in
    (
      p,
      record { meta = renewed object_id' answer.meta.transfer; payload = c },
      ids',
      e,
      rw e' refl,
      is_response_transfer-create_response t.meta object_id now ids,
      refl,
      rw back at rc,
    )
