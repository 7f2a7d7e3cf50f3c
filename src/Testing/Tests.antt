-- ===== src/Testing/Tests.antt =====
-- `test_interface` of testing/testers.hpp with two fragments.
use libprotoserial.Prelude.{◌%◌, ◌≡◌, refl, [], ◌∷◌, true, some, ok, length, arith}
use libprotoserial.Bytes.Layout.{laid_out}
use libprotoserial.Bytes.Spec.{laid_out-Represents}
use libprotoserial.Interface.Fragment.{Fragment, InterfaceId, complete, loopback, no_interface}
use libprotoserial.Interface.Header.{is_valid, header_of}
use libprotoserial.Interface.Footer.{HashAlgorithm}
use libprotoserial.Interface.Queue
use libprotoserial.Interface.Receiver.{max_data_size}
use libprotoserial.Devices.{Device, create}
use libprotoserial.Devices.Arrival.{IsIdle, create-IsIdle}
use libprotoserial.Devices.Loopback.Returns.{Returnable}
use libprotoserial.Testing.{Round, test_interface}
use libprotoserial.Testing.Passes.{test_interface_passes}

-- One byte that counts the bytes.
abbrev count : HashAlgorithm
count = record {
  width = 1;
  value = λ xs. length xs % 256;
  value_bounded = λ xs. omega arith;
  width_small = omega arith;
}

abbrev iid : InterfaceId
iid = record { identifier = loopback; inst = 0 }

abbrev looping : Device
looping = create iid 1 255 4 32 20

looping-IsIdle : IsIdle 32 looping.parser
looping-IsIdle = create-IsIdle iid 1 255 4 32 20 (omega arith)

-- A fragment of two bytes.
abbrev sent : Fragment
sent = record {
  meta = record {
    object_id = 5;
    timestamp_creation = 6;
    interface_id = no_interface;
    source = 0;
    destination = 2;
  };
  payload = laid_out 0 (7 ∷ 8 ∷ []) 0;
}

abbrev first : Round
first = record { tmp = sent; object_id = 9; times = ((10, 11), (12, 13), (14, 15)) }

abbrev second : Round
second = record { tmp = sent; object_id = 19; times = ((20, 21), (22, 23), (24, 25)) }

sent-Returnable : Returnable count 32 sent (7 ∷ 8 ∷ []) looping
unfolding create Queue.create max_data_size is_valid header_of complete
sent-Returnable = record {
  idle = looping-IsIdle;
  small = omega arith;
  empty = refl;
  content = laid_out-Represents 0 (7 ∷ 8 ∷ []) 0 (omega arith);
  own = omega arith;
  fits = omega arith;
  target = λ e. absurd (omega arith);
  differ = λ e. absurd (omega arith);
  some_bytes = omega arith;
  few = omega arith;
  limit = omega arith;
  apart = refl;
}

test_interface_passes_example :
    (d : Device) × (test_interface count
        (λ x. x)
        (first ∷ second ∷ [])
        looping
        (record { received = 0; good = true })
      ≡ ok (some (d, record { received = 2; good = true })))
    × IsIdle 32 d.parser
unfolding create Queue.create
test_interface_passes_example =
    test_interface_passes count 32 ((first, 7 ∷ 8 ∷ []) ∷ (second, 7 ∷ 8 ∷ []) ∷ []) looping
      looping-IsIdle refl ((sent-Returnable, omega arith), ((sent-Returnable, omega arith), tt))
      (omega arith)
