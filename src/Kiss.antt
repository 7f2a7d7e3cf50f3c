-- ===== src/Kiss.antt =====
-- `kiss_protocol` of utils/kiss_protocol.hpp: packets with a type and an identifier above an
-- interface, repeated until they are acknowledged. The static identifier counter is a field, and
-- times are arguments.
pub mod Exchange
mod Tests
use libprotoserial.Prelude.{
  ℕ, zero, suc, ◌+◌, ◌-◌, ◌*◌, ◌%◌, ◌^◌, List, [], ◌∷◌, ◌++◌, Bool, true, false, ◌&&◌, not, Option,
  none, some, Result, ok, err, overrun, ◌>>=◌, ltb, leb, ◌==◌, if◌then◌else◌,
}
use libprotoserial.Bytes.{Bytes, init, size, at, put, sized, push_back, shrink, to_bytes}
use libprotoserial.Bytes.Memory.{add_size}
use libprotoserial.Interface.Fragment.{Fragment}
use libprotoserial.Ports.Handler.{PreallocSize}

-- `data_handle`
pub record DataHandle : Type 0 where
  pub type : ℕ
  pub id : ℕ
  pub payload : Bytes
  pub addr : ℕ
  pub retries : ℕ
  pub sent_at : ℕ

pub record Kiss : Type 0 where
  pub packet_list : List DataHandle
  pub retries_max : ℕ
  pub retry_holdoff : ℕ
  pub default_addr : ℕ
  pub ping_holdoff : ℕ
  pub last_transmitted : ℕ
  pub last_received : ℕ
  pub id_counter : ℕ
  pub prealloc : PreallocSize

-- A fragment for the interface to an address, and `receive_event`.
pub data Event : Type 0 where
  transmits : ℕ → Bytes → Event
  receives : ℕ → Bytes → Event

abbrev pub type_offset : ℕ
type_offset = 5

pub sent : ℕ → DataHandle → DataHandle
sent now p = record p { sent_at = now; retries = (p.retries + 1) % 2 ^ 32 }

pub transmit_expired : ℕ → ℕ → DataHandle → Bool
transmit_expired holdoff now p = leb (p.sent_at + holdoff) now

pub retries_exhausted : ℕ → DataHandle → Bool
retries_exhausted retries_max p = leb retries_max p.retries

-- The packets without those of an identifier.
pub acknowledge : ℕ → List DataHandle → List DataHandle
acknowledge id [] = []
acknowledge id (p ∷ ps) = if p.id == id then acknowledge id ps else p ∷ acknowledge id ps

pub receive : Fragment → ℕ → Kiss → Result (Kiss × List Event)
receive f now s =
    if leb 2 (size f.payload)
    then (do
      type ← at f.payload 0
      id ← at f.payload 1
      let s₁ = record s { last_received = now }
      if not (type == 0)
          then (do
            ack ← to_bytes (0 ∷ id ∷ []) 0
            let s₂ = record s₁ { last_transmitted = now }
            if leb type_offset type
                then (do
                  rest ← shrink 2 0 f.payload
                  ok (s₂, transmits f.meta.source ack ∷ receives (type - type_offset) rest ∷ []))
                else ok (s₂, transmits f.meta.source ack ∷ []))
          else ok (record s₁ { packet_list = acknowledge id s.packet_list }, []))
    else ok (s, [])

-- `transmit_packet`: the bytes of the fragment.
pub packet_bytes : PreallocSize → DataHandle → Result Bytes
packet_bytes alloc p = do
  d₁ ← put (sized alloc.front 2 (add_size alloc.back (size p.payload))) 0 p.type
  d₂ ← put d₁ 1 p.id
  push_back d₂ p.payload

-- The constructor of `data_handle` under the next identifier.
pub handle : ℕ → ℕ → Bytes → Kiss → DataHandle
handle now type payload s = record {
  type = type;
  id = (s.id_counter + 1) % 256;
  payload = payload;
  addr = s.default_addr;
  retries = 0;
  sent_at = now;
}

-- `emplace_back`, `transmit_packet` and `sent` for a new packet.
pub enqueue : ℕ → ℕ → Bytes → Kiss → Result (Kiss × List Event)
enqueue now type payload s = do
  let p = handle now type payload s
  frame ← packet_bytes s.prealloc p
  ok (
    record s {
      packet_list = s.packet_list ++ (sent now p ∷ []);
      last_transmitted = now;
      id_counter = p.id;
    },
    transmits p.addr frame ∷ [],
  )

pub transmit : ℕ → ℕ → Bytes → Kiss → Result (Kiss × List Event)
transmit now type payload s =
    if ltb (255 - type_offset) type then ok (s, []) else enqueue now (type + type_offset) payload s

-- The loop of `main_task`: the packets afterwards, and the one that is repeated, if any. After an
-- `erase` the iterator is advanced once more: the next packet is passed over, and behind the last
-- packet that leaves the list.
pub repeat_one : ℕ → Kiss → List DataHandle → Result (List DataHandle × Option DataHandle)
repeat_one now s [] = ok ([], none)
repeat_one now s (p ∷ []) =
    if transmit_expired s.retry_holdoff now p
    then (if retries_exhausted s.retries_max p then err overrun else ok (sent now p ∷ [], some p))
    else ok (p ∷ [], none)
repeat_one now s (p ∷ (q ∷ qs)) =
    let past = repeat_one now s qs in
    let rest = repeat_one now s (q ∷ qs) in
    if transmit_expired s.retry_holdoff now p
    then (if retries_exhausted s.retries_max p
        then (do r ← past; ok (q ∷ r.0, r.1))
        else ok (sent now p ∷ q ∷ qs, some p))
    else (do r ← rest; ok (p ∷ r.0, r.1))

pub main_task : ℕ → Kiss → Result (Kiss × List Event)
main_task now s = do
  r ← repeat_one now s s.packet_list
  elim r.1 [
    | some p ↦ packet_bytes s.prealloc p >>= λ frame.
        ok (record s { packet_list = r.0; last_transmitted = now }, transmits p.addr frame ∷ [])
    | none ↦
        let s₁ = record s { packet_list = r.0 } in
        if not (s.ping_holdoff == 0) && leb (s.last_transmitted + s.ping_holdoff) now
        then enqueue now 1 init s₁
        else ok (s₁, [])
  ]

pub is_peer_alive : ℕ → ℕ → Kiss → Bool
is_peer_alive now additional s =
    ltb now (s.last_received + (s.ping_holdoff + additional + s.retry_holdoff * s.retries_max))
