-- ===== src/Devices/Turns.antt =====
-- What one call of `main_task` of interface/interface.hpp does to a device.
use libprotoserial.Prelude.{
  ℕ, ◌+◌, ◌%◌, ◌^◌, ◌≤◌, ◌<◌, ◌≡◌, ◌≢◌, refl, List, [], ◌∷◌, ◌++◌, Bool, true, false, none, some,
  Result, ok, length, arith,
}
use libprotoserial.Bytes.{Bytes, size}
use libprotoserial.Bytes.Layout.{Represents}
use libprotoserial.Bytes.Spec.{size-Represents}
use libprotoserial.Interface.Fragment.{Fragment, complete}
use libprotoserial.Interface.Footer.{HashAlgorithm}
use libprotoserial.Interface.Queue.{
  Interface, Event, receive, transmit_began, Serialized, put_received, transmit, is_accepted,
  is_writable, transmit_front,
}
use libprotoserial.Interface.Queue
use libprotoserial.Interface.Ring.{rx_buffer_size}
use libprotoserial.Interface.Receiver.{Receiver, do_receive, loaded_bytes}
use libprotoserial.Devices.{Device, main_task}

-- The base class after bytes were counted.
abbrev pub counted : Device → Interface
counted d = record (d.iface) {
  bytes_rxed =
      (d.iface.bytes_rxed
        + loaded_bytes (rx_buffer_size d.parser.rx) d.parser.last_byte_count d.parser.rx.byte_count)
      % 2 ^ 64;
}

module _ (alg : HashAlgorithm) (id now : ℕ) where
  -- A fragment is received while nothing waits.
  pub main_task-receives :
      (can : Bool) (send : Bytes → Bool) (d : Device) {parser : Receiver} {f : Fragment} {k : ℕ}
      → do_receive alg d.iface.interface_id id now d.parser ≡ ok (some (parser, some f, k))
      → d.iface.tx_queue ≡ []
      → main_task alg id now can send d
        ≡ ok (some (record { iface = counted d; parser = parser }, put_received d.iface f ∷ []))
  unfolding main_task Queue.main_task transmit_front
  main_task-receives can send d e empty = rw (e, empty) refl

  -- Nothing happens while nothing is received and nothing waits.
  pub main_task-rests :
      (can : Bool) (send : Bytes → Bool) (d : Device) {parser : Receiver} {k : ℕ}
      → do_receive alg d.iface.interface_id id now d.parser ≡ ok (some (parser, none, k))
      → d.iface.tx_queue ≡ []
      → main_task alg id now can send d
        ≡ ok (some (record { iface = counted d; parser = parser }, []))
  unfolding main_task Queue.main_task transmit_front
  main_task-rests true send d e empty = rw (e, empty) refl
  main_task-rests false send d e empty = rw (e, empty) refl

  -- The front is transmitted while nothing is received.
  pub main_task-transmits :
      (d : Device) {parser : Receiver} {k : ℕ} {s : Serialized} {rest : List Serialized}
      → do_receive alg d.iface.interface_id id now d.parser ≡ ok (some (parser, none, k))
      → d.iface.tx_queue ≡ s ∷ rest
      → main_task alg id now true (λ b. true) d
        ≡ ok (
            some (
              record {
                iface = record (counted d) {
                  tx_queue = rest;
                  bytes_txed = (d.iface.bytes_txed + size s.bytes) % 2 ^ 64;
                };
                parser = parser;
              },
              transmit_began s.id ∷ [],
            ))
  unfolding main_task Queue.main_task transmit_front
  main_task-transmits d e front = rw (e, front) refl

pub put_received_here :
    (i : Interface) (f : Fragment) → f.meta.destination ≡ i.address → put_received i f ≡ receive f
unfolding put_received
put_received_here i f e = ground arith

-- Where a received fragment goes depends on two settings alone.
pub put_received-settings :
    (i j : Interface) (f : Fragment)
    → i.address ≡ j.address
    → i.broadcast_address ≡ j.broadcast_address
    → put_received i f ≡ put_received j f
unfolding put_received
put_received-settings i j f a b = rw (a, b) refl

-- A fragment that passes the checks stands in the queue, serialized.
pub transmit-accepts :
    (serialize_fragment : Fragment → Result Bytes) (max : ℕ) (p : Fragment) (i : Interface)
    {xs : List ℕ} {b : Bytes}
    → Represents p.payload xs
    → serialize_fragment (complete i.address i.interface_id p) ≡ ok b
    → length i.tx_queue ≤ i.max_queue_size
    → p.meta.destination ≢ 0
    → 0 < length xs
    → length xs ≤ max
    → transmit serialize_fragment max p i
      ≡ ok
          (record i { tx_queue = i.tx_queue ++ (record { bytes = b; id = p.meta.object_id } ∷ []) })
unfolding transmit is_accepted is_writable
transmit-accepts serialize_fragment max p i {xs} {b} r e room target some_bytes fits =
    let n : size p.payload ≡ length xs = size-Represents r in
    let accepted : is_accepted max i p ≡ true = ground arith in rw (accepted, e) refl
