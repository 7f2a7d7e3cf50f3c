-- ===== src/Devices/Uart/Interrupts.antt =====
-- The interrupts of interface/stm32/uart.hpp and interface/stm32_zst/uart.hpp between the calls of
-- the main loop.
use libprotoserial.Prelude.{
  ℕ, ◌^◌, ◌<◌, ◌≡◌, refl, ◌∙◌, List, [], ◌∷◌, true, some, ok, arith, Bool-cases, inl, inr,
}
use libprotoserial.Bytes.{Bytes}
use libprotoserial.Bytes.Layout.{Represents}
use libprotoserial.Interface.Fragment.{InterfaceId}
use libprotoserial.Interface.Header.{Header}
use libprotoserial.Interface.Footer.{HashAlgorithm}
use libprotoserial.Interface.Frame.{preamble}
use libprotoserial.Interface.Frame.Serialize.{frame}
use libprotoserial.Interface.Frame.Parse.{fragment_of}
use libprotoserial.Interface.Ring.{
  IsRing, create-IsRing, rx_buffer_latest, rx_buffer_future_write-IsRing,
}
use libprotoserial.Interface.Ring.Contents.{
  Filled, done, more, Appends, Filled-IsRing, rx_buffer_future_write-Appends,
  rx_buffer_future_write-postpone,
}
use libprotoserial.Interface.Receiver.{Receiver, do_receive, max_data_size}
use libprotoserial.Interface.Receiver.Arrival.{do_receive-Filled}
use libprotoserial.Devices
use libprotoserial.Devices.Arrival.{IsFindable}
use libprotoserial.Devices.Uart.{
  Uart, next_receive, isr_rx_done, hardware_write, isr_tx_done, do_transmit, create,
}

-- A byte comes in.
abbrev pub receive_byte : ℕ → ℕ → Uart → Uart
receive_byte b now u = isr_rx_done now (hardware_write b u)

-- What may happen next.
pub data Step : Uart → Uart → Type 0 where
  byte_received : (b now : ℕ) {u : Uart} → Step u (receive_byte b now u)
  transmit_called : (buff : Bytes) {u : Uart} → Step u (do_transmit buff u).1
  transmit_done : {u : Uart} → Step u (isr_tx_done u)

pub data Reachable (start : Uart) : Uart → Type 0 where
  here : Reachable start start
  after : {u v : Uart} → Reachable start u → Step u v → Reachable start v

-- The hardware has a position in the buffer of `n` bytes.
pub record IsListening (n : ℕ) (u : Uart) : Type 0 where
  pub ring : IsRing n u.device.parser.rx
  pub later : u.device.parser.rx.postpone_by_one ≡ true

receive_byte-Appends :
    {n : ℕ} (b now : ℕ) (u : Uart)
    → IsListening n u
    → Appends n b u.device.parser.rx (receive_byte b now u).device.parser.rx
unfolding isr_rx_done next_receive hardware_write
receive_byte-Appends b now u v = rx_buffer_future_write-Appends b v.ring v.later

receive_byte-IsListening :
    {n : ℕ} (b now : ℕ) (u : Uart) → IsListening n u → IsListening n (receive_byte b now u)
unfolding isr_rx_done next_receive hardware_write
receive_byte-IsListening b now u v = record {
  ring = (receive_byte-Appends b now u v).ring;
  later = rx_buffer_future_write-postpone _;
}

do_transmit-IsListening :
    {n : ℕ} (buff : Bytes) (u : Uart) → IsListening n u → IsListening n (do_transmit buff u).1
unfolding do_transmit
do_transmit-IsListening buff u v = elim (Bool-cases u.is_transmitting) [
  | inl busy ↦ rw busy (record { ring = v.ring; later = v.later })
  | inr free ↦ rw free (record { ring = v.ring; later = v.later })
]

Step-IsListening : {n : ℕ} {u v : Uart} → Step u v → IsListening n u → IsListening n v
unfolding isr_tx_done
Step-IsListening (byte_received b now {u}) h = receive_byte-IsListening b now u h
Step-IsListening (transmit_called buff {u}) h = do_transmit-IsListening buff u h
Step-IsListening transmit_done h = record { ring = h.ring; later = h.later }

-- From the constructor on, whatever bytes come in and transmissions begin and end, the hardware
-- writes to a position in the receive buffer, whose size stays.
pub Reachable-IsListening :
    (iid : InterfaceId) (address broadcast max_queue_size max_fragment_size buffer_size now : ℕ)
    {u : Uart}
    → 0 < buffer_size
    → Reachable (create iid address broadcast max_queue_size max_fragment_size buffer_size now) u
    → IsListening buffer_size u
unfolding create next_receive Devices.create
Reachable-IsListening iid address broadcast max_queue_size max_fragment_size buffer_size now h
      here =
    record {
      ring = rx_buffer_future_write-IsRing (create-IsRing buffer_size h);
      later = rx_buffer_future_write-postpone _;
    }
Reachable-IsListening iid address broadcast max_queue_size max_fragment_size buffer_size now h
      (after r s) =
    Step-IsListening s (
      Reachable-IsListening iid address broadcast max_queue_size max_fragment_size buffer_size now h
        r)

-- While the hardware transmits, no step changes its buffer.
pub Step-tx_buffer : {u v : Uart} → Step u v → u.is_transmitting ≡ true → v.tx_buffer ≡ u.tx_buffer
unfolding isr_rx_done next_receive hardware_write isr_tx_done do_transmit
Step-tx_buffer (byte_received b now) busy = refl
Step-tx_buffer (transmit_called buff) busy = rw busy refl
Step-tx_buffer transmit_done busy = refl

-- Some bytes come in, one after the other.
pub receive_all : List ℕ → ℕ → Uart → Uart
receive_all [] now u = u
receive_all (b ∷ bs) now u = receive_all bs now (receive_byte b now u)

receive_all-Filled :
    {n : ℕ} (l : List ℕ) (now : ℕ) (u : Uart)
    → IsListening n u
    → Filled n l u.device.parser.rx (receive_all l now u).device.parser.rx
unfolding receive_all
receive_all-Filled [] now u v = done
receive_all-Filled (b ∷ bs) now u v =
    more (receive_byte-Appends b now u v)
      (receive_all-Filled bs now (receive_byte b now u) (receive_byte-IsListening b now u v))

receive_byte-parser :
    (b now : ℕ) (u : Uart)
    → ((receive_byte b now u).device.parser.read ≡ u.device.parser.read)
      × ((receive_byte b now u).device.parser.last_byte_count ≡ u.device.parser.last_byte_count)
      × ((receive_byte b now u).device.parser.max_fragment_size ≡ u.device.parser.max_fragment_size)
unfolding isr_rx_done next_receive hardware_write
receive_byte-parser b now u = (refl, refl, refl)

-- The interrupts leave the parser's own state alone.
receive_all-parser :
    (l : List ℕ) (now : ℕ) (u : Uart)
    → ((receive_all l now u).device.parser.read ≡ u.device.parser.read)
      × ((receive_all l now u).device.parser.last_byte_count ≡ u.device.parser.last_byte_count)
      × ((receive_all l now u).device.parser.max_fragment_size ≡ u.device.parser.max_fragment_size)
unfolding receive_all
receive_all-parser [] now u = (refl, refl, refl)
receive_all-parser (b ∷ bs) now u =
    let (p, q, r) = receive_all-parser bs now (receive_byte b now u) in
    let (p', q', r') = receive_byte-parser b now u in (p ∙ p', q ∙ q', r ∙ r')

module _ (alg : HashAlgorithm) (iid : InterfaceId) (id now : ℕ) where
  -- The bytes of a frame that come in by interrupts, at a receiver that is listening and has dealt
  -- with everything else, are found by the next `do_receive`. The buffer of fewer than 2 ^ 31 bytes
  -- has room for the frame, the header is valid, and the second preamble does not start a valid
  -- header.
  pub do_receive-receive_all :
      {n : ℕ} (u : Uart) (h : Header) (xs : List ℕ)
      → IsListening n u
      → n < 2 ^ 31
      → u.device.parser.read ≡ rx_buffer_latest u.device.parser.rx
      → u.device.parser.last_byte_count ≡ u.device.parser.rx.byte_count
      → IsFindable alg n (max_data_size alg u.device.parser) h xs
      → (d : Bytes) × (s : Receiver) × (do_receive alg iid id now
            (receive_all (preamble ∷ preamble ∷ frame alg h xs) now u).device.parser
          ≡ ok (
              some
                (s, some (fragment_of alg (max_data_size alg u.device.parser) iid id now h d), 0)))
        × Represents d xs
  unfolding max_data_size
  do_receive-receive_all {n} u h xs v small at_end seen fits =
      let wire = preamble ∷ preamble ∷ frame alg h xs in
      let s = (receive_all wire now u).device.parser in
      let f = receive_all-Filled wire now u v in
      let ring = Filled-IsRing f v.ring in
      let same = ring.sized in
      let (reads, counts, limit) = receive_all-parser wire now u in
      let (d, e, q) =
        do_receive-Filled alg iid id now s u.device.parser.rx h xs (rw same v.ring) (omega arith)
          (rw same f) (rw same fits.fits) (reads ∙ at_end) (counts ∙ seen) fits.whole
          (rw limit fits.good) (rw limit fits.apart) in
      (d, record s { read = rx_buffer_latest s.rx; last_byte_count = s.rx.byte_count }, e, q)
