-- ===== src/Interface/Receiver/Tests.antt =====
-- The receive buffer and the receiver of interface/buffered.hpp on a few bytes.
use libprotoserial.Prelude.{
  ℕ, ◌<◌, ◌≡◌, refl, List, [], ◌∷◌, length, ok, Option, some, arith, false, ◌%◌,
}
use libprotoserial.Interface.Fragment.{Fragment, InterfaceId, uart}
use libprotoserial.Interface.Footer.{HashAlgorithm}
use libprotoserial.Interface.Ring.{RxBuffer, IsRing, next, find}
use libprotoserial.Interface.Receiver.{Receiver, do_receive}
use libprotoserial.Interface.Receiver.Ready.{IsReady, do_receive-returns}

-- One byte that counts the bytes.
abbrev count : HashAlgorithm
count = record {
  width = 1;
  value = λ xs. length xs % 256;
  value_bounded = λ xs. omega arith;
  width_small = omega arith;
}

abbrev iid : InterfaceId
iid = record { identifier = uart; inst = 1 }

-- Four received bytes in a buffer of five.
abbrev buffer : List ℕ
buffer = 0 ∷ 85 ∷ 85 ∷ 3 ∷ 4 ∷ []

abbrev ring : RxBuffer
ring = record { rx_buffer = buffer; write_it = 4; byte_count = 4; postpone_by_one = false }

ring-IsRing : IsRing 5 ring
ring-IsRing = record { sized = refl; inside = omega arith; counted = omega arith }

-- Where the first preamble is.
abbrev place : ℕ
place = 1

found : find buffer 5 0 4 85 ≡ some place
unfolding find next
found = refl

abbrev receiver : Receiver
receiver = record { rx = ring; read = 0; max_fragment_size = 64; last_byte_count = 0 }

receiver-IsReady : IsReady 5 receiver
receiver-IsReady = record { ring = ring-IsRing; within = omega arith }

do_receive-returns_example :
    (s : Receiver) × (f : Option Fragment) × (pending : ℕ) × (do_receive count iid 1 2 receiver
      ≡ ok (some (s, f, pending)))
    × IsReady 5 s
    × (pending < 5)
do_receive-returns_example =
    do_receive-returns count iid 1 2 receiver receiver-IsReady (omega arith)
