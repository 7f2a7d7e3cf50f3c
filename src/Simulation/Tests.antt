-- ===== src/Simulation/Tests.antt =====
-- The wire of testing/simulation.hpp with two endpoints.
use libprotoserial.Prelude.{
  ℕ, ◌+◌, ◌%◌, ◌≡◌, refl, List, [], ◌∷◌, ◌++◌, some, ok, get_elem?, length, replicate, arith,
}
use libprotoserial.Bytes.{Bytes}
use libprotoserial.Bytes.Layout.{Represents, laid_out}
use libprotoserial.Bytes.Spec.{laid_out-Represents}
use libprotoserial.Interface.Fragment.{Fragment, complete, virtual_type, no_interface}
use libprotoserial.Interface.Header.{is_valid, header_of}
use libprotoserial.Interface.Footer.{HashAlgorithm}
use libprotoserial.Interface.Queue
use libprotoserial.Interface.Queue.{transmit_began, put_received}
use libprotoserial.Interface.Receiver.{max_data_size}
use libprotoserial.Devices.{create}
use libprotoserial.Devices.Arrival.{create-IsIdle}
use libprotoserial.Devices.Virtual.{Virtual}
use libprotoserial.Devices.Virtual
use libprotoserial.Devices.Virtual.Link.{IsQuiet, Sendable}
use libprotoserial.Simulation.{Endpoint, Action, put_bytes, tick, run}
use libprotoserial.Simulation.Order.{Passed, addressed, run-Passed}
use libprotoserial.Simulation.Exchange.{end, thread_round, thread_round-run}

-- An endpoint that collects its bytes.
abbrev collector : Endpoint (List ℕ)
collector = record {
  receive_event = record { callback = λ b l. l ++ (b ∷ []); id = 1 } ∷ [];
  queue = [];
  owner = [];
}

abbrev actions : List Action
actions = put_bytes 0 (7 ∷ 8 ∷ []) ∷ tick ∷ put_bytes 1 (9 ∷ []) ∷ put_bytes 0 (5 ∷ []) ∷ tick ∷ []

run-Passed_example :
    (e : Endpoint (List ℕ)) × (out : List ℕ) × (get_elem?
        (run actions (collector ∷ collector ∷ []))
        1
      ≡ some e)
    × Passed collector e out (7 ∷ 8 ∷ 5 ∷ [])
unfolding addressed
run-Passed_example = run-Passed actions 1 (collector ∷ collector ∷ []) refl

-- One byte that counts the bytes.
abbrev count : HashAlgorithm
count = record {
  width = 1;
  value = λ xs. length xs % 256;
  value_bounded = λ xs. omega arith;
  width_small = omega arith;
}

abbrev fragment : Fragment
fragment = record {
  meta = record {
    object_id = 5;
    timestamp_creation = 6;
    interface_id = no_interface;
    source = 0;
    destination = 2;
  };
  payload = laid_out 0 (7 ∷ 8 ∷ []) 0;
}

-- The interface at an endpoint, whose address is the next number.
abbrev interface_at : ℕ → Virtual
interface_at i = record {
  device = create (record { identifier = virtual_type; inst = i }) (i + 1) 255 4 32 20;
  serialized = [];
}

interface_at-IsQuiet : (i : ℕ) → IsQuiet 32 (interface_at i)
unfolding create Queue.create
interface_at-IsQuiet i = record {
  idle =
      create-IsIdle (record { identifier = virtual_type; inst = i }) (i + 1) 255 4 32 20
        (omega arith);
  empty = refl;
  taken = refl;
}

fragment-Sendable : Sendable count 32 fragment (7 ∷ 8 ∷ []) (interface_at 0) (interface_at 1)
unfolding create Queue.create max_data_size is_valid header_of complete
fragment-Sendable = record {
  content = laid_out-Represents 0 (7 ∷ 8 ∷ []) 0 (omega arith);
  fits = omega arith;
  target = λ e. absurd (omega arith);
  differ = λ e. absurd (omega arith);
  some_bytes = omega arith;
  few = omega arith;
  accepted = omega arith;
  limit = omega arith;
  apart = refl;
}

thread_round-run_example :
    (a₁ a₂ b₂ : Virtual) × (es : List (Endpoint Virtual)) × (c : Bytes) × (Virtual.transmit count
        fragment
        (interface_at 0)
      ≡ ok a₁)
    × (thread_round count 0 10 11 (end a₁ [] ∷ end (interface_at 1) [] ∷ [])
        ≡ ok (some (es, transmit_began 5 ∷ [])))
    × (thread_round count 1 20 21 (run (replicate 9 tick) es)
        ≡ ok (
            some (
              end a₂ [] ∷ end b₂ [] ∷ [],
              put_received (interface_at 1).device.iface (record {
                meta = record {
                  object_id = 20;
                  timestamp_creation = 21;
                  interface_id = (interface_at 1).device.iface.interface_id;
                  source = (interface_at 0).device.iface.address % 256;
                  destination = 2 % 256;
                };
                payload = c;
              })
                  ∷ [],
            )))
    × Represents c (7 ∷ 8 ∷ [])
    × IsQuiet 32 a₂
    × IsQuiet 32 b₂
unfolding create Queue.create
thread_round-run_example =
    thread_round-run count 10 11 20 21 9 fragment (7 ∷ 8 ∷ []) (interface_at 0) (interface_at 1)
      (interface_at-IsQuiet 0) (omega arith) (interface_at-IsQuiet 1) (omega arith)
      fragment-Sendable refl (omega arith)
