-- ===== src/Devices/Tests.antt =====
-- Devices of interface/ with one fragment of two bytes.
use libprotoserial.Prelude.{replicate, ℕ, ◌%◌, ◌≡◌, refl, List, [], ◌∷◌, some, ok, length, arith}
use libprotoserial.Bytes.{Bytes}
use libprotoserial.Bytes.Layout.{Represents, laid_out}
use libprotoserial.Bytes.Spec.{laid_out-Represents}
use libprotoserial.Interface.Fragment.{Fragment, complete, virtual_type, no_interface}
use libprotoserial.Interface.Header.{Header, is_valid, header_of}
use libprotoserial.Interface.Footer.{HashAlgorithm}
use libprotoserial.Interface.Frame.{preamble}
use libprotoserial.Interface.Frame.Serialize.{frame}
use libprotoserial.Interface.Frame.Parse.{fragment_of}
use libprotoserial.Interface.Queue
use libprotoserial.Interface.Queue.{Event, receive, transmit_began, put_received}
use libprotoserial.Interface.Receiver.{Receiver, do_receive, max_data_size}
use libprotoserial.Interface.Ring
use libprotoserial.Devices.{put_all, with_rx, create}
use libprotoserial.Interface.Ring.{rx_buffer_latest}
use libprotoserial.Interface.Ring.Contents.{Filled-IsRing}
use libprotoserial.Interface.Receiver.Ready.{IsReady}
use libprotoserial.Interface.Receiver.Framed.{IsFramed}
use libprotoserial.Interface.Receiver.Sound.{do_receive-IsFramed}
use libprotoserial.Devices.Arrival.{
  put_all-Filled, IsIdle, create-IsIdle, IsFindable, do_receive-put_all,
}
use libprotoserial.Devices.Virtual.{Virtual}
use libprotoserial.Devices.Virtual.Link.{IsQuiet, Sendable}
use libprotoserial.Devices.Virtual.Stream.{transmit_all, carry, AllReceived, carry-transmit_all}

-- One byte that counts the bytes.
abbrev count : HashAlgorithm
count = record {
  width = 1;
  value = λ xs. length xs % 256;
  value_bounded = λ xs. omega arith;
  width_small = omega arith;
}

abbrev two_bytes : List ℕ
two_bytes = 7 ∷ 8 ∷ []

abbrev fragment : Fragment
fragment = record {
  meta = record {
    object_id = 5;
    timestamp_creation = 6;
    interface_id = no_interface;
    source = 0;
    destination = 2;
  };
  payload = laid_out 0 two_bytes 0;
}

-- Two ends of a link, with the addresses 1 and 2.
abbrev end : ℕ → Virtual
end address = record {
  device = create (record { identifier = virtual_type; inst = 0 }) address 255 4 32 20;
  serialized = [];
}

end-IsQuiet : (address : ℕ) → IsQuiet 32 (end address)
unfolding create Queue.create
end-IsQuiet address = record {
  idle =
      create-IsIdle (record { identifier = virtual_type; inst = 0 }) address 255 4 32 20
        (omega arith);
  empty = refl;
  taken = refl;
}

ends-Sendable : Sendable count 32 fragment two_bytes (end 1) (end 2)
unfolding create Queue.create max_data_size is_valid header_of complete
ends-Sendable = record {
  content = laid_out-Represents 0 two_bytes 0 (omega arith);
  fits = omega arith;
  target = λ e. absurd (omega arith);
  differ = λ e. absurd (omega arith);
  some_bytes = omega arith;
  few = omega arith;
  accepted = omega arith;
  limit = omega arith;
  apart = refl;
}

abbrev header : Header
header = record { destination = 2; source = 1; size = 2; check = 5 }

header-IsFindable : IsFindable count 32 (max_data_size count (end 2).device.parser) header two_bytes
unfolding create max_data_size is_valid
header-IsFindable = record { fits = omega arith; whole = refl; good = refl; apart = refl }

-- The parser of the end 2 with a frame that came in.
abbrev loaded : Receiver
loaded =
    with_rx (put_all (preamble ∷ preamble ∷ frame count header two_bytes) (end 2).device.parser.rx)
      (end 2).device.parser

-- `do_receive` finds the frame.
abbrev Finds : Bytes → Receiver → Type 0
Finds d s =
    do_receive count no_interface 20 21 loaded
    ≡ ok (
        some (
          s,
          some (
              fragment_of count (max_data_size count (end 2).device.parser) no_interface 20 21
                header d),
          0,
        ))

do_receive-put_all_example :
    (d : Bytes) × (s : Receiver) × Finds d s
    × Represents d two_bytes
    × IsIdle 32 s
    × (s.max_fragment_size ≡ (end 2).device.parser.max_fragment_size)
do_receive-put_all_example =
    do_receive-put_all count no_interface 20 21 (end 2).device.parser header two_bytes
      (end-IsQuiet 2).idle (omega arith) header-IsFindable

-- What it gives.
finds : (d : Bytes) × (s : Receiver) × Finds d s
finds =
    let (d, s, e, _, _, _) =
      do_receive-put_all count no_interface 20 21 (end 2).device.parser header two_bytes
        (end-IsQuiet 2).idle (omega arith) header-IsFindable in
    (d, s, e)

loaded-IsReady : IsReady 32 loaded
unfolding create libprotoserial.Interface.Ring.create
loaded-IsReady = record {
  ring =
      Filled-IsRing
        (put_all-Filled (preamble ∷ preamble ∷ frame count header two_bytes)
          (end 2).device.parser.rx (end-IsQuiet 2).idle.ring refl)
        (end-IsQuiet 2).idle.ring;
  within = omega arith;
}

do_receive-IsFramed_example :
    IsFramed count no_interface 20 21 loaded.rx.rx_buffer
      (max_data_size count loaded)
      (rx_buffer_latest loaded.rx)
      finds.1.read
      (fragment_of count
        (max_data_size count (end 2).device.parser)
        no_interface
        20
        21
        header
        finds.0)
do_receive-IsFramed_example =
    do_receive-IsFramed count no_interface 20 21 loaded finds.1
      (fragment_of count (max_data_size count (end 2).device.parser) no_interface 20 21 header
        finds.0)
      0 loaded-IsReady (omega arith) finds.2

-- More bytes than the buffer has.
abbrev many : List ℕ
many = replicate 40 0

abbrev overrun_parser : Receiver
overrun_parser = with_rx (put_all many (end 2).device.parser.rx) (end 2).device.parser

abbrev sent : List (Fragment × List ℕ)
sent = (fragment, two_bytes) ∷ (fragment, two_bytes) ∷ []

abbrev times : List (ℕ × ℕ)
times = (20, 21) ∷ (30, 31) ∷ []

carry-transmit_all_example :
    (a₁ a₂ b : Virtual) × (es : List Event) × (transmit_all count (fragment ∷ fragment ∷ []) (end 1)
      ≡ ok a₁)
    × (carry count 10 11 times a₁ (end 2) ≡ ok (some (a₂, b, es)))
    × AllReceived count (end 1).device.iface.address (end 2).device.iface sent times es
    × IsQuiet 32 a₂
    × IsQuiet 32 b
unfolding create Queue.create
carry-transmit_all_example =
    carry-transmit_all count 32 32 10 11 sent times (end 1) (end 2) (end-IsQuiet 1) (omega arith)
      (end-IsQuiet 2) (omega arith) (ends-Sendable, (ends-Sendable, tt)) (omega arith) refl
