-- ===== src/Interface/Receiver.antt =====
-- `buffered_parser_interface::do_receive` of interface/buffered.hpp: it looks for a preamble in the
-- receive buffer, and parses what stands behind it.
-- `iid`, `id` and `now` are what a parsed fragment is given, as in `parse_fragment`.
pub mod Framed
pub mod Total
pub mod Ready
pub mod Sound
pub mod Found
pub mod Rounds
pub mod Walk
pub mod Arrival
mod Tests
use libprotoserial.Prelude.{
  ℕ, zero, suc, ◌+◌, ◌-◌, ◌%◌, ◌^◌, List, [], ◌∷◌, Bool, true, false, Option, none, some, Result,
  ok, ◌>>=◌, leb, ltb, ◌==◌, if◌then◌else◌, length,
}
use libprotoserial.Bytes.{Bytes, sized, copy_from}
use libprotoserial.Bytes.Memory.{sub_size}
use libprotoserial.Interface.Fragment.{Fragment, InterfaceId}
use libprotoserial.Interface.Header.{Header, header_size, decode, is_valid}
use libprotoserial.Interface.Footer.{HashAlgorithm}
use libprotoserial.Interface.Frame.{parse_fragment, preamble, preamble_length}
use libprotoserial.Interface.Ring.{
  RxBuffer, rx_buffer_size, rx_buffer_latest, next, plus, distance, find, circular_copy,
}

-- `read` is the position up to which everything is dealt with.
pub record Receiver : Type 0 where
  pub rx : RxBuffer
  pub read : ℕ
  pub last_byte_count : ℕ
  pub max_fragment_size : ℕ

-- How a call leaves the loop: the read position and the fragment that was parsed, if any.
pub record Exit : Type 0 where
  pub stored : ℕ
  pub received : Option Fragment

-- The exit after a fragment at the preamble `p`: past it if it was parsed, else past the preamble.
pub exit_at : ℕ → ℕ → ℕ → Option Fragment → Exit
exit_at n p fragment_size none = record { stored = next n p; received = none }
exit_at n p fragment_size (some f) = record { stored = plus n p fragment_size; received = some f }

-- One round of the loop either goes on from a later position or leaves.
pub data Round : Type 0 where
  again : ℕ → Round
  leave : Exit → Round

-- The number of bytes since the last call. Where the counter wrapped, the source computes the truth
-- value of a comparison.
pub loaded_bytes : ℕ → ℕ → ℕ → ℕ
loaded_bytes size last count =
    if leb last count
    then count - last
    else if leb size ((2 ^ 32 - 1 - last + count) % 2 ^ 32)
    then 1
    else 0

module _ (alg : HashAlgorithm) where
  unfoldable pub max_data_size : Receiver → ℕ
  max_data_size s = sub_size s.max_fragment_size (header_size + alg.width + preamble_length)

module _ (alg : HashAlgorithm) (iid : InterfaceId) (id now : ℕ) where
  open alg use {width}

  -- The whole fragment is in the buffer: it is copied out and parsed.
  pub parse_at : List ℕ → ℕ → ℕ → ℕ → ℕ → Result Exit
  parse_at buf max p fragment_start fragment_size = do
    let fragment_end = plus (length buf) fragment_start fragment_size
    let n = distance (length buf) fragment_start fragment_end
    b ← copy_from (sized 0 n 0) (circular_copy buf n fragment_start fragment_end)
    f ← parse_fragment alg b max iid id now
    ok (exit_at (length buf) p fragment_size f)

  -- The header behind the preamble at `p` is in the buffer.
  pub with_header : List ℕ → ℕ → ℕ → ℕ → ℕ → Header → Result Round
  with_header buf max write p fragment_start h =
      if is_valid h max
      then (let fragment_size = h.size + width + header_size in
          if leb fragment_size (distance (length buf) fragment_start write + 1)
          then (do e ← parse_at buf max p fragment_start fragment_size; ok (leave e))
          else ok (leave (record { stored = p; received = none })))
      else ok (again fragment_start)

  pub at_preamble : List ℕ → ℕ → ℕ → ℕ → Result Round
  at_preamble buf max write p =
      let fragment_start = next (length buf) p in
      if leb header_size (distance (length buf) fragment_start write + 1)
      then with_header buf max write p fragment_start (
          decode (
            circular_copy buf header_size fragment_start
              (plus (length buf) fragment_start header_size)))
      else ok (leave (record { stored = p; received = none }))

  -- `stored` is the value of `_read`.
  pub round : List ℕ → ℕ → ℕ → ℕ → ℕ → Result Round
  round buf max write stored read =
      if read == write
      then ok (leave (record { stored = stored; received = none }))
      else elim (find buf (length buf) read write preamble) [
        | none ↦ ok (leave (record { stored = stored; received = none }))
        | some p ↦ at_preamble buf max write p
      ]

  -- The `while` loop; no exit means that the fuel ran out.
  pub rounds : ℕ → List ℕ → ℕ → ℕ → ℕ → ℕ → Result (Option Exit)
  rounds zero buf max write stored read = ok none
  rounds (suc k) buf max write stored read = round buf max write stored read >>= λ r. elim r [
    | again read' ↦ rounds k buf max write read' read'
    | leave e ↦ ok (some e)
  ]

  -- The read positions that the loop starts with: an overflow drops what was not read.
  pub start_read : Receiver → ℕ → ℕ
  start_read s write =
      if leb (rx_buffer_size s.rx)
        (loaded_bytes (rx_buffer_size s.rx) s.last_byte_count s.rx.byte_count)
      then write
      else s.read

  -- The receiver afterwards, the fragment, and the number of bytes that wait.
  pub do_receive : Receiver → Result (Option (Receiver × Option Fragment × ℕ))
  do_receive s = do
    let buf = s.rx.rx_buffer
    let write = rx_buffer_latest s.rx
    let read = start_read s write
    r ← rounds (length buf) buf (max_data_size alg s) write read read
    ok (elim r [
      | none ↦ none
      | some e ↦ some (
        record s { read = e.stored; last_byte_count = s.rx.byte_count },
        e.received,
        distance (length buf) e.stored write,
      )
    ])
