-- ===== src/Interface/Queue.antt =====
-- The base class of interface/interface.hpp: the transmit queue, the counters and the events.
-- `serialize_fragment`, `can_transmit`, `do_transmit` and `do_receive` are virtual there: the first
-- is a parameter, and a `Turn` says what the others do in one call of `main_task`.
pub mod Bound
pub mod Order
pub mod Drain
mod Tests
use libprotoserial.Prelude.{
  ℕ, ◌+◌, ◌-◌, ◌%◌, ◌^◌, List, [], ◌∷◌, ◌++◌, map, Bool, true, false, ◌&&◌, not, Result, ok, ◌>>=◌,
  leb, ◌==◌, if◌then◌else◌, length,
}
use libprotoserial.Bytes.{Bytes, size, is_empty}
use libprotoserial.Interface.Fragment.{Fragment, InterfaceId, complete}

-- A serialized fragment with the object identifier of the fragment.
pub record Serialized : Type 0 where
  pub bytes : Bytes
  pub id : ℕ

pub record Interface : Type 0 where
  pub tx_queue : List Serialized
  pub bytes_txed : ℕ
  pub bytes_rxed : ℕ
  pub max_queue_size : ℕ
  pub interface_id : InterfaceId
  pub address : ℕ
  pub broadcast_address : ℕ

-- The constructor.
unfoldable pub create : InterfaceId → ℕ → ℕ → ℕ → Interface
create iid address broadcast max_queue_size = record {
  tx_queue = [];
  bytes_txed = 0;
  bytes_rxed = 0;
  max_queue_size = max_queue_size;
  interface_id = iid;
  address = address;
  broadcast_address = broadcast;
}

pub data Event : Type 0 where
  receive broadcast_receive other_receive : Fragment → Event
  transmit_began : ℕ → Event

-- `put_received`: the event that a received fragment fires.
unfoldable pub put_received : Interface → Fragment → Event
put_received i p =
    if p.meta.destination == i.address
    then receive p
    else if p.meta.destination == i.broadcast_address
    then broadcast_receive p
    else other_receive p

unfoldable pub is_writable : Interface → Bool
is_writable i = leb (length i.tx_queue) i.max_queue_size

-- `writable_count`, an `uint`.
pub writable_count : Interface → ℕ
writable_count i = (i.max_queue_size + 2 ^ 32 - length i.tx_queue) % 2 ^ 32

-- The sanity checks of `transmit`.
unfoldable pub is_accepted : ℕ → Interface → Fragment → Bool
unfolding is_writable
is_accepted max_data_size i p =
    is_writable i
    && not (p.meta.destination == 0)
    && leb (size p.payload) max_data_size
    && not (is_empty p.payload)

module _ (serialize_fragment : Fragment → Result Bytes) (max_data_size : ℕ) where
  unfoldable pub transmit : Fragment → Interface → Result Interface
  transmit p i =
      if is_accepted max_data_size i p
      then (do
        bytes ← serialize_fragment (complete i.address i.interface_id p)
        let entry : Serialized = record { bytes = bytes; id = p.meta.object_id }
        ok (record i { tx_queue = i.tx_queue ++ (entry ∷ []) }))
      else ok i

-- What `do_receive` received and counted, and what the transmitter answered.
pub record Turn : Type 0 where
  pub received : List Fragment
  pub loaded : ℕ
  pub can_transmit : Bool
  pub do_transmit : Bytes → Bool

-- The transmit half of `main_task`; the front leaves the queue also where `do_transmit` fails.
unfoldable pub transmit_front : Turn → List Serialized → Interface → Interface × List Event
transmit_front t [] i = (i, [])
transmit_front t (s ∷ rest) i =
    if t.can_transmit
    then (
      record i { tx_queue = rest; bytes_txed = (i.bytes_txed + size s.bytes) % 2 ^ 64 },
      (if t.do_transmit s.bytes then transmit_began s.id ∷ [] else []),
    )
    else (i, [])

unfoldable pub main_task : Turn → Interface → Interface × List Event
unfolding transmit_front put_received
main_task t i =
    let i₁ = record i { bytes_rxed = (i.bytes_rxed + t.loaded) % 2 ^ 64 } in
    let (i₂, began) = transmit_front t i₁.tx_queue i₁ in
    (i₂, map (put_received i) t.received ++ began)

-- What happens to an interface: the layer above transmits, or the main task runs.
pub data Call : Type 0 where
  transmits : Fragment → Call
  runs : Turn → Call

module _ (serialize_fragment : Fragment → Result Bytes) (max_data_size : ℕ) where
  pub step : Call → Interface → Result (Interface × List Event)
  unfolding transmit main_task
  step (transmits p) i = do i' ← transmit serialize_fragment max_data_size p i; ok (i', [])
  step (runs t) i = ok (main_task t i)

  pub run : List Call → Interface → Result (Interface × List Event)
  unfolding step
  run [] i = ok (i, [])
  run (c ∷ cs) i = step c i >>= λ (i', es). run cs i' >>= λ (i'', fs). ok (i'', es ++ fs)
