-- ===== src/Devices/UsbCdc.antt =====
-- `usbcdc_interface` of interface/stm32_zst/usbcdc.hpp: a fragment comes in one piece, and one
-- preamble stands in front of the header.
pub mod Trip
use libprotoserial.Prelude.{
  ℕ, zero, suc, ◌+◌, ◌-◌, ◌%◌, ◌^◌, List, [], Bool, true, false, ◌||◌, ◌&&◌, not, Option, none,
  some, Result, ok, ◌>>=◌, ltb, ◌==◌, if◌then◌else◌,
}
use libprotoserial.Bytes.{
  Bytes, init, sized, at, size, is_empty, reserve, push_front, push_front_byte, push_back, shrink,
  to_bytes, capacity_front, capacity_back,
}
use libprotoserial.Bytes.Memory.{read_range, sub_size}
use libprotoserial.Bytes.Construct.{of_list}
use libprotoserial.Interface.Fragment.{Fragment, InterfaceId, usbcdc}
use libprotoserial.Interface.Header.{header_of, header_size, encode}
use libprotoserial.Interface.Footer.{HashAlgorithm, le_bytes}
use libprotoserial.Interface.Frame.{parse_fragment, preamble}
use libprotoserial.Interface.Queue.{Interface}
use libprotoserial.Interface.Queue

pub record UsbCdc : Type 0 where
  pub iface : Interface
  pub rx_buffer : Bytes
  pub max_fragment_size : ℕ
  pub rx_buffer_lock : Bool

-- The constructor; the callback that it registers is `isr_rx_done`.
unfoldable pub create : ℕ → ℕ → ℕ → ℕ → ℕ → UsbCdc
create instance_number address broadcast max_queue_size max_fragment_size = record {
  iface =
      Queue.create (record { identifier = usbcdc; inst = instance_number }) address broadcast
        max_queue_size;
  rx_buffer = init;
  max_fragment_size = max_fragment_size;
  rx_buffer_lock = false;
}

-- `isr_rx_done`: the data is copied, or dropped while `do_receive` takes the last one.
pub isr_rx_done : List ℕ → UsbCdc → Result UsbCdc
isr_rx_done received u =
    if u.rx_buffer_lock then ok u else (do b ← of_list received; ok (record u { rx_buffer = b }))

-- `do_transmit` gives the data to the library, whose answer is the result.
pub do_transmit : (Bytes → Bool) → Bytes → Bool
do_transmit transmit buff = transmit buff

-- The loop that takes preambles off the front, at most `k` of them.
pub strip : ℕ → Bytes → Result Bytes
strip zero c = ok c
strip (suc k) c =
    if is_empty c
    then ok c
    else (do b ← at c 0; if b == preamble then (do c' ← shrink 1 0 c; strip k c') else ok c)

-- `log_received_count`
pub log_received_count : ℕ → UsbCdc → UsbCdc
log_received_count n u = record u {
  iface = record (u.iface) { bytes_rxed = (u.iface.bytes_rxed + n) % 2 ^ 64 };
}

module _ (alg : HashAlgorithm) where
  open alg use {width, value}

  unfoldable pub max_data_size : UsbCdc → ℕ
  max_data_size u = sub_size u.max_fragment_size (header_size + width + 1)

  pub make_room : Bytes → Result Bytes
  make_room d =
      if ltb (capacity_back d) width || ltb (capacity_front d) (header_size + 1)
      then reserve (header_size + 1) width d
      else ok d

  pub serialize_fragment : Fragment → Result Bytes
  unfolding make_room
  serialize_fragment p = do
    d ← make_room p.payload
    header ← to_bytes (encode (header_of (record p { payload = d }))) 0
    d₁ ← push_front d header
    d₂ ← push_front_byte d₁ preamble
    covered ← read_range d₂.base (d₂.offset + 1) (size d₂ - 1)
    footer ← to_bytes (le_bytes width (value covered)) 0
    push_back d₂ footer

  -- `do_receive`, which takes the data out and counts its bytes: what is given to `put_received`,
  -- if anything, the number that it returns, and the state afterwards.
  pub do_receive : ℕ → ℕ → UsbCdc → Result (Option Fragment × ℕ × UsbCdc)
  unfolding log_received_count
  do_receive id now u =
      let taken = record u { rx_buffer = init; rx_buffer_lock = false } in
      if is_empty u.rx_buffer then ok (none, 0, taken) else (do
        let u' = log_received_count (size u.rx_buffer) taken
        c ← strip 3 u.rx_buffer
        if ltb (header_size + width) (size c)
            then (do
              f ← parse_fragment alg c (max_data_size u) u.iface.interface_id id now
              ok (f, 0, u'))
            else ok (none, 0, u'))
