-- ===== src/Stack.antt =====
-- The layers bound together: a ports handler of ports/ports.hpp and the bypass handler of
-- fragmentation/bypass_handler.hpp, by `register_interface` of the first and `bind_to` of
-- fragmentation/fragmentation.hpp, over a virtual interface. The other numbers are the identifiers
-- of new objects.
pub mod Delivery
mod Tests
use libprotoserial.Prelude.{ℕ, ◌+◌, Option, none, some, Result, ok, ◌>>=◌, if◌then◌else◌}
use libprotoserial.Interface.Fragment.{Fragment, same_interface}
use libprotoserial.Interface.Footer.{HashAlgorithm}
use libprotoserial.Interface.Header.{header_size}
use libprotoserial.Interface.Frame.{preamble_length}
use libprotoserial.Interface.Queue.{
  Event, receive, broadcast_receive, other_receive, transmit_began,
}
use libprotoserial.Interface.Receiver.{max_data_size}
use libprotoserial.Fragmentation.IdFactory.{IdFactory}
use libprotoserial.Fragmentation.Bypass.{Outcome, dropped, transmitted, do_receive, do_transmit}
use libprotoserial.Ports.Packet.{Packet}
use libprotoserial.Ports.Handler.{Ports, transfer_receive}
use libprotoserial.Ports.Handler
use libprotoserial.Devices.Virtual.{Virtual}
use libprotoserial.Devices.Virtual

pub record Stack : Type 0 where
  pub ports : Ports
  pub ids : IdFactory
  pub link : Virtual

-- `receive_callback` of an event of the interface, up to the service at a port. Only
-- `receive_event` is bound; `id` is for the transfer, and `id'` for the packet.
pub deliver : ℕ → ℕ → Event → Stack → Result (Option (ℕ × Packet) × Stack)
deliver id id' (receive f) s =
    let (t, ids) = do_receive f id s.ids in
    do r ← transfer_receive id' t s.ports; ok (r, record s { ids = ids })
deliver id id' (broadcast_receive f) s = ok (none, s)
deliver id id' (other_receive f) s = ok (none, s)
deliver id id' (transmit_began object_id) s = ok (none, s)

module _ (alg : HashAlgorithm) where
  -- What the bypass handler makes of the interface's `minimum_prealloc`.
  abbrev pub front_prealloc : ℕ
  front_prealloc = header_size + preamble_length

  -- What `transmit_event` and `transmit_complete_event` of the bypass handler lead to.
  pub hand_over : Outcome → Stack → Result Stack
  hand_over (dropped id) s = ok s
  hand_over (transmitted f) s = do
    link ← Virtual.transmit alg f s.link
    ok (record s { link = link })

  -- `transmit` from a port down to the interface's queue: `id` is for the transfer, and `id'` for
  -- the fragment. The event is emitted on the endpoint of the packet's interface, and only that of
  -- the link has a subscriber here.
  pub transmit : ℕ → ℕ → ℕ → Packet → Stack → Result Stack
  transmit id id' source p s = Handler.transmit id source p s.ports >>= λ r. elim r [
    | none ↦ ok s
    | some (iid, t) ↦
        if same_interface iid s.link.device.iface.interface_id
        then (do
          o ← do_transmit t (max_data_size alg s.link.device.parser) front_prealloc alg.width id'
          hand_over o s)
        else ok s
  ]
