-- ===== src/Interface/Receiver/Ready.antt =====
-- `do_receive` of interface/buffered.hpp as a whole: it returns and keeps its positions, and what
-- it makes of a receive buffer that overflowed.
use libprotoserial.Prelude.{
  ℕ, zero, suc, none, true, ◌∙◌, ◌==◌, ◌-◌, ◌^◌, ◌≤◌, ◌<◌, ◌≡◌, refl, ◌⊎◌, inl, inr, List, Option,
  some, ok, length, arith, subst, dec_lt,
}
use libprotoserial.Interface.Fragment.{Fragment, InterfaceId}
use libprotoserial.Interface.Footer.{HashAlgorithm}
use libprotoserial.Interface.Ring.{
  IsRing, rx_buffer_latest, rx_buffer_latest-lt, distance, distance-lt,
}
use libprotoserial.Interface.Receiver.{
  Receiver, Exit, round, max_data_size, rounds, start_read, do_receive, loaded_bytes,
}
use libprotoserial.Interface.Ring.Contents.{distance_self}
use libprotoserial.Interface.Receiver.Total.{rounds-ends, Leaves}
use libprotoserial.Interface.Receiver.Framed.{AllFramed}

-- The positions of the receiver lie in its buffer of `n` bytes.
pub record IsReady (n : ℕ) (s : Receiver) : Type 0 where
  pub ring : IsRing n s.rx
  pub within : s.read < n

module _ (alg : HashAlgorithm) (iid : InterfaceId) (id now : ℕ) where
  start_read-lt :
      {n : ℕ} (s : Receiver) (w : ℕ) → IsReady n s → w < n → start_read alg iid id now s w < n
  unfolding start_read
  start_read-lt s w v h = ground arith

  -- Besides, a fragment that the call gives stands in the buffer.
  pub do_receive-AllFramed :
      {n : ℕ} (s : Receiver)
      → IsReady n s
      → n < 2 ^ 31
      → (s' : Receiver) × (f : Option Fragment) × (pending : ℕ) × (do_receive alg iid id now s
          ≡ ok (some (s', f, pending)))
        × IsReady n s'
        × (pending < n)
        × AllFramed alg iid id now s.rx.rx_buffer
            (max_data_size alg s)
            (rx_buffer_latest s.rx)
            s'.read
            f
  unfolding do_receive
  do_receive-AllFramed {n} s v small = finish (
      rounds-ends alg iid id now buf max small' (length buf) write read read (rw size read_in)
        (rw size read_in) (rw size write_in) (distance-lt (rw size read_in) (rw size write_in)))
    where
      buf : List ℕ
      buf = s.rx.rx_buffer

      size : length buf ≡ n
      size = v.ring.sized

      small' : length buf < 2 ^ 31
      small' = omega (arith, size)

      max : ℕ
      max = max_data_size alg s

      write : ℕ
      write = rx_buffer_latest s.rx

      write_in : write < n
      write_in = rx_buffer_latest-lt v.ring

      read : ℕ
      read = start_read alg iid id now s write

      read_in : read < n
      read_in = start_read-lt s write v write_in

      finish :
          (e : Exit) × (rounds alg iid id now (length buf) buf max write read read ≡ ok (some e))
            × Leaves alg iid id now buf max small' write e
          → (s' : Receiver) × (f : Option Fragment) × (pending : ℕ) × (do_receive alg iid id now s
              ≡ ok (some (s', f, pending)))
            × IsReady n s'
            × (pending < n)
            × AllFramed alg iid id now buf max write s'.read f
      finish (e, q, (h, framed)) = (
        record s { read = e.stored; last_byte_count = s.rx.byte_count },
        e.received,
        distance (length buf) e.stored write,
        rw q refl,
        record { ring = v.ring; within = omega (arith, size) },
        subst (λ k. distance (length buf) e.stored write < k) size
            (distance-lt h (rw size write_in)),
        framed,
      )

  -- From any contents of a buffer of less than 2 ^ 31 bytes, with positions that lie in it, the
  -- call returns, does not run out of its rounds, and leaves positions that lie in the buffer.
  pub do_receive-returns :
      {n : ℕ} (s : Receiver)
      → IsReady n s
      → n < 2 ^ 31
      → (s' : Receiver) × (f : Option Fragment) × (pending : ℕ) × (do_receive alg iid id now s
          ≡ ok (some (s', f, pending)))
        × IsReady n s'
        × (pending < n)
  do_receive-returns s v small =
      let (s', f, pending, e, v', h, _) = do_receive-AllFramed s v small in
      (s', f, pending, e, v', h)

  -- In a buffer of more than one byte an overflow is noticed by the count of bytes, except in
  -- the calls before which the counter wrapped around: then the read position stays, however
  -- many bytes came.
  pub start_read_lem :
      {n : ℕ} (s : Receiver) (w : ℕ)
      → IsReady n s
      → 1 < n
      → ((s.last_byte_count ≤ s.rx.byte_count)
          × (n ≤ s.rx.byte_count - s.last_byte_count)
          × (start_read alg iid id now s w ≡ w))
        ⊎ ((s.last_byte_count ≤ s.rx.byte_count)
            × (s.rx.byte_count - s.last_byte_count < n)
            × (start_read alg iid id now s w ≡ s.read))
        ⊎ ((s.rx.byte_count < s.last_byte_count) × (start_read alg iid id now s w ≡ s.read))
  unfolding start_read loaded_bytes
  start_read_lem {n} s w v h = elim (dec_lt s.rx.byte_count s.last_byte_count) [
    | yes p ↦ inr (inr (p, ground arith))
    | no p ↦ elim (dec_lt (s.rx.byte_count - s.last_byte_count) n) [
      | yes q ↦ inr (inl (omega arith, q, ground arith))
      | no q ↦ inl (omega arith, omega arith, ground arith)
    ]
  ]

  rounds-at_end :
      (k : ℕ) (buf : List ℕ) (max i : ℕ)
      → 0 < k
      → rounds alg iid id now k buf max i i i ≡ ok (some (record { stored = i; received = none }))
  unfolding rounds round
  rounds-at_end zero buf max i h = absurd (omega arith)
  rounds-at_end (suc k) buf max i h = let same : (i == i) ≡ true = ground arith in rw same refl

  -- Where everything was dealt with and nothing came in, nothing happens.
  pub do_receive-at_end :
      {n : ℕ} (s : Receiver)
      → IsReady n s
      → 1 < n
      → s.read ≡ rx_buffer_latest s.rx
      → s.last_byte_count ≡ s.rx.byte_count
      → do_receive alg iid id now s ≡ ok (some (s, none, 0))
  unfolding do_receive
  do_receive-at_end {n} s v long at_end seen =
      let start : start_read alg iid id now s (rx_buffer_latest s.rx) ≡ rx_buffer_latest s.rx =
        elim (start_read_lem s (rx_buffer_latest s.rx) v long) [
          | inl (a, b, e) ↦ e
          | inr (inl (a, b, e)) ↦ e ∙ at_end
          | inr (inr (a, e)) ↦ e ∙ at_end
        ] in
      let i = rx_buffer_latest s.rx in
      let leaves =
        rounds-at_end (length s.rx.rx_buffer) s.rx.rx_buffer (max_data_size alg s) i
          (omega (arith, v.ring.sized)) in
      rw (start, leaves, distance_self (length s.rx.rx_buffer) i) (cc (at_end, seen))
