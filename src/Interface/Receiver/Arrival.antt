-- ===== src/Interface/Receiver/Arrival.antt =====
-- `do_receive` of interface/buffered.hpp on a frame that has come in behind a buffer that was read.
use libprotoserial.Prelude.{
  ℕ, ◌+◌, ◌^◌, ◌<◌, ◌≡◌, inl, inr, refl, ◌∙◌, List, ◌∷◌, true, false, some, ok, length, arith,
}
use libprotoserial.Bytes.{Bytes}
use libprotoserial.Bytes.Layout.{Represents}
use libprotoserial.Interface.Fragment.{InterfaceId}
use libprotoserial.Interface.Header.{Header, is_valid}
use libprotoserial.Interface.Footer.{HashAlgorithm}
use libprotoserial.Interface.Frame.{preamble}
use libprotoserial.Interface.Frame.Serialize.{frame, length-frame}
use libprotoserial.Interface.Frame.Parse.{fragment_of}
use libprotoserial.Interface.Ring.{RxBuffer, IsRing, rx_buffer_latest, rx_buffer_latest-lt}
use libprotoserial.Interface.Ring.Contents.{
  Filled, Filled-Holds, Filled-latest, Filled-IsRing, Filled-byte_count, distance_self,
}
use libprotoserial.Interface.Receiver.{Receiver, max_data_size, start_read, do_receive}
use libprotoserial.Interface.Receiver.Ready.{IsReady, start_read_lem}
use libprotoserial.Interface.Receiver.Walk.{shifted, at_old}

module _ (alg : HashAlgorithm) (iid : InterfaceId) (id now : ℕ) where
  open alg use {width}

  -- The bytes that came in since the last call do not make it drop what was not read.
  start_read_short :
      (s : Receiver) {r : RxBuffer} {l : List ℕ}
      → IsRing (length s.rx.rx_buffer) r
      → length s.rx.rx_buffer < 2 ^ 31
      → Filled (length s.rx.rx_buffer) l r s.rx
      → length l < length s.rx.rx_buffer
      → 1 < length s.rx.rx_buffer
      → s.read ≡ rx_buffer_latest r
      → s.last_byte_count ≡ r.byte_count
      → start_read alg iid id now s (rx_buffer_latest s.rx) ≡ rx_buffer_latest r
  start_read_short s {r} {l} v small f short long at_end seen =
      let ring = Filled-IsRing f v in
      let ready : IsReady (length s.rx.rx_buffer) s = record {
        ring = ring;
        within = rw at_end (rx_buffer_latest-lt v);
      } in
      let count = Filled-byte_count f v (omega arith) in
      let below = ring.counted in
      elim (start_read_lem alg iid id now s (rx_buffer_latest s.rx) ready long) [
        | inl (a, b, e) ↦ absurd (elim count [ inl c ↦ omega arith | inr c ↦ omega arith ])
        | inr (inl (a, b, e)) ↦ e ∙ at_end
        | inr (inr (a, e)) ↦ e ∙ at_end
      ]

  -- A frame that came in behind a buffer in which everything was dealt with is found.
  pub do_receive-Filled :
      (s : Receiver) (r : RxBuffer) (h : Header) (xs : List ℕ)
      → IsRing (length s.rx.rx_buffer) r
      → length s.rx.rx_buffer < 2 ^ 31
      → Filled (length s.rx.rx_buffer) (preamble ∷ preamble ∷ frame alg h xs) r s.rx
      → 6 + length xs + width < length s.rx.rx_buffer
      → s.read ≡ rx_buffer_latest r
      → s.last_byte_count ≡ r.byte_count
      → h.size ≡ length xs
      → is_valid h (max_data_size alg s) ≡ true
      → is_valid (shifted h) (max_data_size alg s) ≡ false
      → (d : Bytes) × (do_receive alg iid id now s
          ≡ ok (
              some (
                record s { read = rx_buffer_latest s.rx; last_byte_count = s.rx.byte_count },
                some (fragment_of alg (max_data_size alg s) iid id now h d),
                0,
              )))
        × Represents d xs
  unfolding do_receive
  do_receive-Filled s r h xs v small f fits at_end seen whole good bad =
      let n = length s.rx.rx_buffer in
      let wire = preamble ∷ preamble ∷ frame alg h xs in
      let long = length-frame alg h xs in
      let short : length wire < n = omega arith in
      let ring = Filled-IsRing f v in
      let start = start_read_short s v small f short (omega arith) at_end seen in
      let hw = rx_buffer_latest-lt ring in
      let (d, e, q) =
        at_old alg iid id now s.rx.rx_buffer (max_data_size alg s) (rx_buffer_latest s.rx) hw small
          h xs whole good bad n (rx_buffer_latest r) (omega arith) (rx_buffer_latest-lt v) short
          (Filled-Holds f v (omega arith)) (Filled-latest f v short) in
      (d, rw (start, e, distance_self n (rx_buffer_latest s.rx)) refl, q)
