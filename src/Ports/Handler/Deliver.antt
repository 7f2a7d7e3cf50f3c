-- ===== src/Ports/Handler/Deliver.antt =====
-- From `transmit` of ports/ports.hpp to the receive callback of another handler.
use libprotoserial.Prelude.{
  ℕ, ◌+◌, ◌%◌, ◌^◌, ◌<◌, ◌≡◌, ◌≢◌, refl, List, ◌++◌, true, ok, some, arith, length, leb,
}
use libprotoserial.Bytes.{Bytes, size}
use libprotoserial.Bytes.Layout.{Represents}
use libprotoserial.Bytes.Spec.{
  push_front-Represents, to_bytes-Represents, read_first-Represents, shrink_front-Represents,
  size-Represents,
}
use libprotoserial.Fragmentation.Transfer.{Transfer, TransferMetadata}
use libprotoserial.Ports.Packet.{Packet, of_transfer, renewed, is_transmit_ready}
use libprotoserial.Ports.Header.{header, encode, is_valid, is_valid-header}
use libprotoserial.Ports.Handler.{Ports, transmit, transfer_receive, has_service, has_interface}

pub transmit_lem :
    (i source : ℕ) (p : Packet) (sender : Ports) {xs : List ℕ}
    → Represents p.payload xs
    → length xs + 3 < 2 ^ 31
    → is_transmit_ready p ≡ true
    → has_interface p.meta.transfer.fragment.interface_id sender.interfaces ≡ true
    → (c : Bytes) × (transmit i source p sender
        ≡ ok (
            some (
              p.meta.transfer.fragment.interface_id,
              record { meta = renewed i p.meta.transfer; payload = c },
            )))
      × Represents c (encode (header p.meta.destination_port source) ++ xs)
unfolding transmit
transmit_lem i source p sender {xs} r small ready known =
    let h = header p.meta.destination_port source in
    let (hb, e, rh) = to_bytes-Represents (encode h) 0 (omega arith) in
    let (c, e', rc) = push_front-Represents r rh (omega arith) in
    (c, rw (ready, e, e', known) refl, rc)

-- A transfer that starts with a header of `transmit` is received on the low bytes of its ports.
pub transfer_receive_lem :
    (j dst src : ℕ) (t : Transfer) (receiver : Ports) (xs : List ℕ)
    → Represents t.payload (encode (header dst src) ++ xs)
    → dst % 256 ≢ 0
    → src % 256 ≢ 0
    → has_service (dst % 256) receiver.services ≡ true
    → (d : Bytes) × (transfer_receive j t receiver
        ≡ ok (
            some (
              dst % 256,
              of_transfer (record { meta = t.meta; payload = d }) (src % 256) (dst % 256) j,
            )))
      × Represents d xs
unfolding transfer_receive header
transfer_receive_lem j dst src t receiver xs r d≢ s≢ known =
    let raw = encode (header dst src) in
    let n : size t.payload ≡ 3 + length xs = omega (arith, size-Represents r) in
    let long : leb 3 (size t.payload) ≡ true = ground (arith, n) in
    let e = read_first-Represents raw xs r in
    let good : is_valid (header dst src) ≡ true = (is_valid-header dst src).1 (d≢, s≢) in
    let (d, e', rd) = shrink_front-Represents raw xs r in
    (d, rw (long, e, good, known, e') refl, rd)

-- A packet that is ready, from and to ports with low bytes other than 0, over an interface that
-- the sender knows, goes from `transmit`, through any transport that keeps the bytes of the
-- transfer, to the service at the low byte of its destination port, where there is one, with its
-- data.
pub transfer_receive-transmit :
    (i j source : ℕ) (p : Packet) (sender receiver : Ports) (m : TransferMetadata) {xs : List ℕ}
    → Represents p.payload xs
    → length xs + 3 < 2 ^ 31
    → is_transmit_ready p ≡ true
    → has_interface p.meta.transfer.fragment.interface_id sender.interfaces ≡ true
    → p.meta.destination_port % 256 ≢ 0
    → source % 256 ≢ 0
    → has_service (p.meta.destination_port % 256) receiver.services ≡ true
    → (c d : Bytes) × (transmit i source p sender
        ≡ ok (
            some (
              p.meta.transfer.fragment.interface_id,
              record { meta = renewed i p.meta.transfer; payload = c },
            )))
      × (transfer_receive j (record { meta = m; payload = c }) receiver
          ≡ ok (
              some (
                p.meta.destination_port % 256,
                of_transfer
                    (record { meta = m; payload = d })
                    (source % 256)
                    (p.meta.destination_port % 256)
                    j,
              )))
      × Represents d xs
transfer_receive-transmit i j source p sender receiver m {xs} r small ready iface d≢ s≢ known =
    let (c, e, rc) = transmit_lem i source p sender r small ready iface in
    let (d, e', rd) =
      transfer_receive_lem j p.meta.destination_port source (record { meta = m; payload = c })
        receiver xs rc d≢ s≢ known in
    (c, d, e, e', rd)
