-- ===== src/Devices.antt =====
-- What the device classes below interface/ share: an object of `buffered_parser_interface` of
-- interface/buffered.hpp is the base class's state with that of the receiver, and its `main_task`
-- is that of interface/interface.hpp.
pub mod Arrival
pub mod Turns
pub mod Loopback
pub mod Virtual
pub mod Linux
pub mod Uart
pub mod Rs485
pub mod UsbCdc
mod Tests
mod HardwareTests
use libprotoserial.Prelude.{
  ℕ, ◌+◌, ◌-◌, ◌^◌, ◌<◌, ◌≡◌, refl, List, [], ◌∷◌, Bool, false, Option, none, some, Result, ok,
  ◌>>=◌, length, arith,
}
use libprotoserial.Bytes.{Bytes}
use libprotoserial.Interface.Fragment.{Fragment, InterfaceId}
use libprotoserial.Interface.Footer.{HashAlgorithm}
use libprotoserial.Interface.Queue.{Interface, Event, Turn}
use libprotoserial.Interface.Queue
use libprotoserial.Interface.Ring.{
  RxBuffer, IsRing, put_single_received, rx_buffer_latest, rx_buffer_size,
}
use libprotoserial.Interface.Ring
use libprotoserial.Interface.Receiver.{Receiver, do_receive, loaded_bytes}

pub record Device : Type 0 where
  pub iface : Interface
  pub parser : Receiver

-- The constructor of `buffered_parser_interface`.
unfoldable pub create : InterfaceId → ℕ → ℕ → ℕ → ℕ → ℕ → Device
create iid address broadcast max_queue_size buffer_size max_fragment_size = record {
  iface = Queue.create iid address broadcast max_queue_size;
  parser = record {
    rx = Ring.create buffer_size;
    read = 0;
    last_byte_count = 0;
    max_fragment_size = max_fragment_size;
  };
}

-- `put_single_received`, for each of some bytes.
unfoldable pub put_all : List ℕ → RxBuffer → RxBuffer
put_all [] r = r
put_all (b ∷ bs) r = put_all bs (put_single_received b r)

abbrev pub with_rx : RxBuffer → Receiver → Receiver
with_rx r s = record s { rx = r }

-- The fragment of one call of `do_receive`, if any.
abbrev pub listed : Option Fragment → List Fragment
listed none = []
listed (some f) = f ∷ []

-- `interface::main_task`: what is received comes first. `can` and `send` are the answers of the
-- device's `can_transmit` and `do_transmit`, `id` and `now` are for a fragment that is received.
unfoldable pub main_task :
    HashAlgorithm → ℕ → ℕ → Bool → (Bytes → Bool) → Device → Result (Option (Device × List Event))
main_task alg id now can send d = do_receive alg d.iface.interface_id id now d.parser >>= λ r.
    elim r [
      | none ↦ ok none
      | some (parser, f, pending) ↦
          let t : Turn = record {
            received = listed f;
            loaded =
                loaded_bytes (rx_buffer_size d.parser.rx) d.parser.last_byte_count
                  d.parser.rx.byte_count;
            can_transmit = can;
            do_transmit = send;
          } in
          let (i, es) = Queue.main_task t d.iface in
          ok (some (record { iface = i; parser = parser }, es))
    ]
