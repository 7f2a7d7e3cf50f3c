-- ===== src/Stack/Tests.antt =====
-- Two stacks with one packet of two bytes.
use libprotoserial.Prelude.{ℕ, ◌%◌, ◌≡◌, refl, List, [], ◌∷◌, some, ok, length, arith}
use libprotoserial.Bytes.{Bytes}
use libprotoserial.Bytes.Layout.{Represents, laid_out}
use libprotoserial.Bytes.Spec.{laid_out-Represents}
use libprotoserial.Interface.Fragment.{Fragment, InterfaceId, virtual_type, same_interface}
use libprotoserial.Interface.Header.{is_valid}
use libprotoserial.Interface.Footer.{HashAlgorithm}
use libprotoserial.Interface.Queue.{receive, transmit_began}
use libprotoserial.Interface.Queue
use libprotoserial.Interface.Receiver.{max_data_size}
use libprotoserial.Ports.Packet.{Packet, is_transmit_ready}
use libprotoserial.Ports.Handler.{has_service, has_interface}
use libprotoserial.Devices.{create}
use libprotoserial.Devices.Arrival.{create-IsIdle}
use libprotoserial.Devices.Virtual.{Virtual, process_and_get_serialized, put_serialized, main_task}
use libprotoserial.Devices.Virtual.Link.{IsQuiet}
use libprotoserial.Stack.{Stack, deliver, transmit}
use libprotoserial.Stack.Delivery.{Deliverable, deliver-transmit}

-- One byte that counts the bytes.
abbrev count : HashAlgorithm
count = record {
  width = 1;
  value = λ xs. length xs % 256;
  value_bounded = λ xs. omega arith;
  width_small = omega arith;
}

abbrev iid : InterfaceId
iid = record { identifier = virtual_type; inst = 0 }

-- A stack with a service at port 7, at an address.
abbrev stack : ℕ → Stack
stack address = record {
  ports = record {
    services = 7 ∷ [];
    interfaces = iid ∷ [];
    prealloc = record { front = 0; back = 0 };
  };
  ids = [];
  link = record { device = create iid address 255 4 32 20; serialized = [] };
}

stack-IsQuiet : (address : ℕ) → IsQuiet 32 (stack address).link
unfolding create Queue.create
stack-IsQuiet address = record {
  idle = create-IsIdle iid address 255 4 32 20 (omega arith);
  empty = refl;
  taken = refl;
}

abbrev two_bytes : List ℕ
two_bytes = 3 ∷ 4 ∷ []

abbrev packet : Packet
packet = record {
  meta = record {
    transfer = record {
      fragment = record {
        object_id = 1;
        timestamp_creation = 0;
        interface_id = iid;
        source = 0;
        destination = 2;
      };
      id = 1;
      prev_id = 0;
    };
    source_port = 0;
    destination_port = 7;
  };
  payload = laid_out 0 two_bytes 0;
}

packet-Deliverable : Deliverable count 32 9 packet two_bytes (stack 1) (stack 2)
unfolding create Queue.create max_data_size is_valid is_transmit_ready has_interface has_service
    same_interface
packet-Deliverable = record {
  content = laid_out-Represents 0 two_bytes 0 (omega arith);
  ready = refl;
  known = refl;
  own = refl;
  source_port = λ e. absurd (omega arith);
  destination_port = λ e. absurd (omega arith);
  served = refl;
  target = refl;
  address = omega arith;
  nonzero = λ e. absurd (omega arith);
  differ = λ e. absurd (omega arith);
  few = omega arith;
  accepted = omega arith;
  limit = omega arith;
  fits = omega arith;
  apart = refl;
}

deliver-transmit_example :
    (a : Stack) × (w : Bytes) × (link link₁ link₂ : Virtual) × (f : Fragment) × (q : Packet)
    × (b : Stack) × (transmit count 10 11 9 packet (stack 1) ≡ ok a)
    × (process_and_get_serialized count 12 13 a.link
        ≡ ok (some (link, transmit_began 11 ∷ [], some w)))
    × (put_serialized w (stack 2).link ≡ ok link₁)
    × (main_task count 14 15 link₁ ≡ ok (some (link₂, receive f ∷ [])))
    × (deliver 16 17 (receive f) (record (stack 2) { link = link₂ }) ≡ ok (some (7 % 256, q), b))
    × Represents q.payload two_bytes
    × (q.meta.source_port ≡ 9 % 256)
deliver-transmit_example =
    deliver-transmit count 10 11 12 13 14 15 16 17 9 packet two_bytes (stack 1) (stack 2)
      (stack-IsQuiet 1) (omega arith) (stack-IsQuiet 2) (omega arith) packet-Deliverable
