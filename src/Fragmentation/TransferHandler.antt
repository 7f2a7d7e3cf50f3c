-- ===== src/Fragmentation/TransferHandler.antt =====
-- `transfer_handler` of fragmentation/transfer_handler.hpp: a transfer that is cut into fragments,
-- or put together from them. A throw loses the state, as it ends the call.
pub mod Sizes
pub mod Status
mod Tests
use libprotoserial.Prelude.{
  ℕ, ◌+◌, ◌*◌, ◌/◌, ◌%◌, ◌^◌, min, List, [], ◌∷◌, Bool, true, false, ◌&&◌, ◌||◌, not, Option, none,
  some, Result, ok, err, out_of_range, ◌>>=◌, ltb, ◌==◌, if◌then◌else◌, length, get_or, set,
}
use libprotoserial.Bytes.{Bytes, size, sized, init, window, expand, shrink, push_front, to_bytes}
use libprotoserial.Bytes.Memory.{add_size, sub_size, read_range, write_range}
use libprotoserial.Interface.Fragment.{Fragment, same_interface}
use libprotoserial.Fragmentation.Transfer.{Transfer}
use libprotoserial.Fragmentation.FragmentHeader.{
  Header, fragment_header, header_size, encode, fragment_message,
}

pub data State : Type 0 where
  new_state sent_state next_state waiting_state retry_state : State

pub data Purpose : Type 0 where
  outgoing incoming : Purpose

abbrev pub mul_size : ℕ → ℕ → ℕ
mul_size a b = (a * b) % 2 ^ 64

pub record TransferHandler : Type 0 where
  pub transfer : Transfer
  pub fragment_status : List ℕ
  pub last_tx_time : ℕ
  pub last_rx_time : ℕ
  pub max_fragment_size : ℕ
  pub fragments_total : ℕ
  pub current_fragment : ℕ
  pub state : State
  pub purpose : Purpose
  pub transmitted_fragment_id : ℕ

-- The transmit constructor; the last argument is what the uninitialised field holds. `reserve`
-- gives the status vector room and no entries, and its count wraps at eight bits.
pub of_transfer : Transfer → ℕ → ℕ → TransferHandler
of_transfer t max garbage =
    let n = size t.payload in
    record {
      transfer = t;
      fragment_status = [];
      last_tx_time = 0;
      last_rx_time = 0;
      max_fragment_size = max;
      fragments_total = (n / max + (if n % max == 0 then 0 else 1)) % 256;
      current_fragment = 0;
      state = new_state;
      purpose = outgoing;
      transmitted_fragment_id = garbage;
    }

-- The receive constructor, with the identifier of the new object and the time.
pub of_fragment : Fragment → Header → ℕ → ℕ → ℕ → Result TransferHandler
of_fragment f h object_id now garbage = do
  let max = size f.payload
  whole ← expand 0 (mul_size (sub_size h.fragments_total 1) max) f.payload
  ok (record {
    transfer = record {
      meta = record {
        fragment = record (f.meta) { object_id = object_id };
        id = h.id;
        prev_id = h.prev_id;
      };
      payload = whole;
    };
    fragment_status = [];
    last_tx_time = 0;
    last_rx_time = now;
    max_fragment_size = max;
    fragments_total = h.fragments_total;
    current_fragment = 0;
    state = next_state;
    purpose = incoming;
    transmitted_fragment_id = garbage;
  })

pub is_incoming : TransferHandler → Bool
is_incoming h = is_in h.purpose
  where
    is_in : Purpose → Bool
    is_in incoming = true
    is_in outgoing = false

-- `(pos - 1) * max_fragment_size`, which wraps for the invalid index 0.
pub fragment_start : ℕ → TransferHandler → ℕ
fragment_start pos h = mul_size (sub_size pos 1) h.max_fragment_size

pub fragment_size : ℕ → TransferHandler → ℕ
fragment_size pos h =
    if ltb h.fragments_total pos
    then 0
    else sub_size
        (min (add_size (fragment_start pos h) h.max_fragment_size) (size h.transfer.payload))
        (fragment_start pos h)

-- `is_transmit_ready`
abbrev pub transmit_ready : State → Bool
transmit_ready new_state = true
transmit_ready sent_state = false
transmit_ready next_state = true
transmit_ready waiting_state = false
transmit_ready retry_state = true

abbrev pub is_retry : State → Bool
is_retry new_state = false
is_retry sent_state = false
is_retry next_state = false
is_retry waiting_state = false
is_retry retry_state = true

-- `prepare_for_transmit`; no handler where it returns false.
pub prepare_for_transmit : TransferHandler → Option TransferHandler
prepare_for_transmit h =
    if transmit_ready h.state
    then some (record h {
      current_fragment =
          if not (is_retry h.state) && ltb h.current_fragment h.fragments_total
          then h.current_fragment + 1
          else h.current_fragment;
      state = waiting_state;
    })
    else none

pub increment_fragment_status : ℕ → TransferHandler → Result TransferHandler
increment_fragment_status pos h =
    let i = sub_size pos 1 in
    if ltb i (length h.fragment_status)
    then ok (record h {
      fragment_status = set h.fragment_status i ((get_or h.fragment_status i 0 + 1) % 2 ^ 32);
    })
    else err out_of_range

-- The container of a fragment: its part of the data behind the header.
fragment_data : ℕ → ℕ → ℕ → TransferHandler → Result Bytes
fragment_data pos front back h = do
  let n = fragment_size pos h
  let b = sized (add_size front header_size) n back
  let p = h.transfer.payload
  xs ← read_range p.base (add_size p.offset (fragment_start pos h)) n
  base ← write_range b.base b.offset xs
  let m = h.transfer.meta
  let hd = fragment_header fragment_message h.current_fragment h.fragments_total m.id m.prev_id
  hb ← to_bytes (encode hd) 0
  push_front (record b { base = base }) hb

-- The rest of `get_fragment`, once the handler is prepared.
take_fragment :
    ℕ
    → ℕ
    → ℕ
    → ℕ
    → Option TransferHandler
    → TransferHandler
    → Result (Option Fragment × TransferHandler)
take_fragment pos front back object_id none h = ok (none, h)
take_fragment pos front back object_id (some prepared) h = do
  counted ← increment_fragment_status pos prepared
  payload ← fragment_data pos front back counted
  let meta = record (counted.transfer.meta.fragment) { object_id = object_id }
  ok (
    some (record { meta = meta; payload = payload }),
    record counted { transmitted_fragment_id = object_id },
  )

-- `get_fragment`, with the two parts of the prealloc size and the identifier of the new object.
pub get_fragment : ℕ → ℕ → ℕ → ℕ → TransferHandler → Result (Option Fragment × TransferHandler)
get_fragment pos front back object_id h =
    if is_incoming h
    then ok (none, h)
    else if fragment_size pos h == 0
    then ok (none, h)
    else take_fragment pos front back object_id (prepare_for_transmit h) h

pub get_current_fragment : ℕ → ℕ → ℕ → TransferHandler → Result (Option Fragment × TransferHandler)
get_current_fragment front back object_id h = get_fragment h.current_fragment front back object_id h

pub put_fragment : ℕ → Fragment → TransferHandler → Result (Bool × TransferHandler)
put_fragment pos f h =
    let most = fragment_size pos h in
    if not (is_incoming h) || (most == 0) || ltb most (size f.payload) then ok (false, h) else (do
      let p = h.transfer.payload
      xs ← window f.payload
      base ← write_range p.base (add_size p.offset (fragment_start pos h)) xs
      counted ←
          increment_fragment_status pos
            (record h { transfer = record (h.transfer) { payload = record p { base = base } } })
      let placed = record counted { current_fragment = pos }
      if pos == placed.fragments_total
          then (do
            cut ← shrink 0 (sub_size most (size f.payload)) placed.transfer.payload
            ok (true, record placed { transfer = record (placed.transfer) { payload = cut } }))
          else ok (true, placed))

abbrev pub is_sent : State → Bool
is_sent new_state = false
is_sent sent_state = true
is_sent next_state = false
is_sent waiting_state = false
is_sent retry_state = false

-- `is_fragment_transmitted`
abbrev pub is_waiting : State → Bool
is_waiting new_state = false
is_waiting sent_state = false
is_waiting next_state = false
is_waiting waiting_state = true
is_waiting retry_state = false

pub retransmit_request : ℕ → TransferHandler → Bool × TransferHandler
retransmit_request pos h =
    if not (is_sent h.state) || not (h.current_fragment == h.fragments_total)
    then (false, h)
    else if ltb h.fragments_total pos
    then (false, h)
    else (true, record h { state = retry_state; current_fragment = pos })

pub fragment_transmitted : ℕ → TransferHandler → Bool × TransferHandler
fragment_transmitted now h =
    if is_waiting h.state
    then (true, record h { state = sent_state; last_tx_time = now })
    else (false, h)

pub is_part_of : Fragment → Header → TransferHandler → Bool
is_part_of f hd h =
    let m = h.transfer.meta in
    (m.fragment.source == f.meta.source)
    && same_interface m.fragment.interface_id f.meta.interface_id
    && (m.id == hd.id)
    && (h.fragments_total == hd.fragments_total)

-- `is_request_of`, which `is_ack_of` calls.
pub is_request_of : Fragment → Header → TransferHandler → Bool
is_request_of f hd h =
    let m = h.transfer.meta in
    (m.fragment.destination == f.meta.source)
    && same_interface m.fragment.interface_id f.meta.interface_id
    && (m.id == hd.id)
    && (h.fragments_total == hd.fragments_total)
    && not (ltb h.fragments_total hd.fragment)
