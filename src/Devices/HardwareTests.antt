-- ===== src/Devices/HardwareTests.antt =====
-- The drivers of interface/linux/, interface/stm32/ and interface/stm32_zst/ with one frame of two
-- bytes.
use libprotoserial.Prelude.{
  ◌+◌, ◌^◌, ℕ, ◌%◌, ◌≡◌, refl, List, [], ◌∷◌, true, false, some, ok, length, arith,
}
use libprotoserial.Bytes.{Bytes, init}
use libprotoserial.Bytes.Layout.{Represents, laid_out}
use libprotoserial.Bytes.Spec.{laid_out-Represents}
use libprotoserial.Interface.Fragment.{Fragment, InterfaceId, uart, no_interface}
use libprotoserial.Interface.Header.{Header, is_valid, header_of}
use libprotoserial.Interface.Footer.{HashAlgorithm, le_bytes}
use libprotoserial.Interface.Frame.{preamble}
use libprotoserial.Interface.Frame.Serialize.{frame}
use libprotoserial.Interface.Frame.Parse.{fragment_of}
use libprotoserial.Interface.Ring.{rx_buffer_latest, rx_buffer_future_write}
use libprotoserial.Interface.Ring
use libprotoserial.Interface.Receiver.{Receiver, do_receive, max_data_size}
use libprotoserial.Devices.{Device}
use libprotoserial.Devices
use libprotoserial.Devices.Arrival.{IsIdle, create-IsIdle, IsFindable}
use libprotoserial.Devices.Linux
use libprotoserial.Devices.Linux.{read_bytes, do_receive-read_bytes}
use libprotoserial.Devices.Uart.{Uart, do_transmit, next_receive, create}
use libprotoserial.Devices.Uart.Interrupts.{
  here, after, transmit_called, IsListening, Reachable-IsListening, receive_all,
  do_receive-receive_all,
}
use libprotoserial.Devices.UsbCdc
use libprotoserial.Devices.UsbCdc.{UsbCdc}
use libprotoserial.Devices.UsbCdc.Trip.{do_receive-serialize_fragment}

-- One byte that counts the bytes.
abbrev count : HashAlgorithm
count = record {
  width = 1;
  value = λ xs. length xs % 256;
  value_bounded = λ xs. omega arith;
  width_small = omega arith;
}

abbrev two_bytes : List ℕ
two_bytes = 7 ∷ 8 ∷ []

abbrev header : Header
header = record { destination = 2; source = 1; size = 2; check = 5 }

abbrev serial : InterfaceId
serial = record { identifier = uart; inst = 0 }

abbrev device : Device
device = Devices.create serial 2 255 4 32 20

device-IsIdle : IsIdle 32 device.parser
device-IsIdle = create-IsIdle serial 2 255 4 32 20 (omega arith)

header-IsFindable : IsFindable count 32 (max_data_size count device.parser) header two_bytes
unfolding Devices.create max_data_size is_valid
header-IsFindable = record { fits = omega arith; whole = refl; good = refl; apart = refl }

-- The nine bytes of the frame in a read of eight and one of one, and a read that is not made.
abbrev reads : List (List ℕ)
reads = (85 ∷ 85 ∷ 2 ∷ 1 ∷ 2 ∷ 5 ∷ 7 ∷ 8 ∷ []) ∷ (6 ∷ []) ∷ (9 ∷ []) ∷ []

reads_lem : read_bytes reads ≡ preamble ∷ preamble ∷ frame count header two_bytes
unfolding le_bytes
reads_lem = refl

do_receive-read_bytes_example :
    (d : Bytes) × (s : Receiver) × (Linux.do_receive count serial 20 21 reads device.parser
      ≡ ok (
          some (
            s,
            some (fragment_of count (max_data_size count device.parser) serial 20 21 header d),
            0,
          )))
    × Represents d two_bytes
    × IsIdle 32 s
do_receive-read_bytes_example =
    do_receive-read_bytes count serial 20 21 reads device.parser header two_bytes reads_lem
      device-IsIdle (omega arith) header-IsFindable

-- An UART that was constructed, and one that transmits.
abbrev started : Uart
started = create serial 2 255 4 20 32 1

abbrev buffer : Bytes
buffer = laid_out 0 two_bytes 0

abbrev busy : Uart
busy = record started { is_transmitting = true; tx_buffer = buffer }

Reachable-IsListening_example : IsListening 32 (do_transmit buffer started).1
Reachable-IsListening_example =
    Reachable-IsListening serial 2 255 4 20 32 1 (omega arith) (after here (transmit_called buffer))

-- The same UART after the main loop has seen the position that was handed out.
abbrev listening : Uart
listening = record started {
  device = record (started.device) {
    parser = record (started.device.parser) { last_byte_count = 1 };
  };
}

listening-IsListening : IsListening 32 listening
listening-IsListening =
    let v = Reachable-IsListening serial 2 255 4 20 32 1 (omega arith) here in
    record { ring = v.ring; later = v.later }

listening-at_end : listening.device.parser.read ≡ rx_buffer_latest listening.device.parser.rx
unfolding create next_receive Devices.create Ring.create rx_buffer_future_write rx_buffer_latest
listening-at_end = ground arith

listening-seen : listening.device.parser.last_byte_count ≡ listening.device.parser.rx.byte_count
unfolding create next_receive Devices.create Ring.create rx_buffer_future_write
listening-seen = ground arith

listening-IsFindable :
    IsFindable count 32 (max_data_size count listening.device.parser) header two_bytes
unfolding create next_receive Devices.create max_data_size is_valid
listening-IsFindable = record { fits = omega arith; whole = refl; good = refl; apart = refl }

do_receive-receive_all_example :
    (d : Bytes) × (s : Receiver) × (do_receive count serial 20 21
        (receive_all
          (preamble ∷ preamble ∷ frame count header two_bytes)
          21
          listening).device.parser
      ≡ ok (
          some (
            s,
            some (
                fragment_of count
                  (max_data_size count listening.device.parser)
                  serial
                  20
                  21
                  header
                  d),
            0,
          )))
    × Represents d two_bytes
do_receive-receive_all_example =
    do_receive-receive_all count serial 20 21 listening header two_bytes listening-IsListening
      (omega arith) listening-at_end listening-seen listening-IsFindable

abbrev usb : UsbCdc
usb = UsbCdc.create 0 2 255 4 20

abbrev fragment : Fragment
fragment = record {
  meta = record {
    object_id = 5;
    timestamp_creation = 6;
    interface_id = no_interface;
    source = 1;
    destination = 2;
  };
  payload = laid_out 0 two_bytes 0;
}

do_receive-serialize_fragment_example :
    (b d : Bytes) × (u : UsbCdc) × (UsbCdc.serialize_fragment count fragment ≡ ok b)
    × Represents b (preamble ∷ frame count (header_of fragment) two_bytes)
    × (UsbCdc.isr_rx_done (preamble ∷ frame count (header_of fragment) two_bytes) usb ≡ ok u)
    × (UsbCdc.do_receive count 20 21 u
        ≡ ok (
          some (record {
            meta = record {
              object_id = 20;
              timestamp_creation = 21;
              interface_id = usb.iface.interface_id;
              source = 1 % 256;
              destination = 2 % 256;
            };
            payload = d;
          }),
          0,
          record usb {
            iface = record (usb.iface) { bytes_rxed = (usb.iface.bytes_rxed + 8) % 2 ^ 64 };
            rx_buffer = init;
            rx_buffer_lock = false;
          },
        ))
    × Represents d two_bytes
unfolding UsbCdc.max_data_size UsbCdc.create
do_receive-serialize_fragment_example =
    do_receive-serialize_fragment count 20 21 fragment two_bytes usb
      (laid_out-Represents 0 two_bytes 0 (omega arith)) refl (λ e. absurd (omega arith))
      (λ e. absurd (omega arith)) (omega arith) (omega arith) (omega arith)
