-- ===== src/Devices/Arrival.antt =====
-- A frame that comes in at a device whose receive buffer of interface/buffered.hpp was read.
use libprotoserial.Prelude.{
  ℕ, ◌+◌, ◌^◌, ◌<◌, ◌≡◌, refl, List, [], ◌∷◌, true, false, none, some, ok, length, arith,
}
use libprotoserial.Bytes.{Bytes}
use libprotoserial.Bytes.Layout.{Represents}
use libprotoserial.Interface.Fragment.{InterfaceId}
use libprotoserial.Interface.Header.{Header, is_valid}
use libprotoserial.Interface.Footer.{HashAlgorithm}
use libprotoserial.Interface.Frame.{preamble}
use libprotoserial.Interface.Frame.Serialize.{frame}
use libprotoserial.Interface.Frame.Parse.{fragment_of}
use libprotoserial.Interface.Ring
use libprotoserial.Interface.Ring.{
  RxBuffer, IsRing, put_single_received, rx_buffer_latest, rx_buffer_latest-lt, rx_buffer_size,
  put_single_received-IsRing, create-IsRing,
}
use libprotoserial.Interface.Ring.Contents.{
  Filled, done, more, put_single_received-Appends, Filled-IsRing, put_single_received-postpone,
}
use libprotoserial.Interface.Receiver.{Receiver, do_receive, max_data_size}
use libprotoserial.Interface.Receiver.Ready.{IsReady, do_receive-at_end}
use libprotoserial.Interface.Receiver.Walk.{shifted}
use libprotoserial.Interface.Receiver.Arrival.{do_receive-Filled}
use libprotoserial.Devices.{create, put_all, with_rx}

-- Everything in the buffer of `n` bytes was dealt with, and no position is handed out.
pub record IsIdle (n : ℕ) (s : Receiver) : Type 0 where
  pub ring : IsRing n s.rx
  pub now : s.rx.postpone_by_one ≡ false
  pub at_end : s.read ≡ rx_buffer_latest s.rx
  pub seen : s.last_byte_count ≡ s.rx.byte_count

pub put_all-Filled :
    {n : ℕ} (l : List ℕ) (r : RxBuffer)
    → IsRing n r
    → r.postpone_by_one ≡ false
    → Filled n l r (put_all l r)
unfolding put_all
put_all-Filled [] r v now = done
put_all-Filled (b ∷ bs) r v now = more (put_single_received-Appends b v now) (
    put_all-Filled bs (put_single_received b r) (put_single_received-IsRing b v)
      (put_single_received-postpone b r))

put_all-postpone :
    (l : List ℕ) (r : RxBuffer) → r.postpone_by_one ≡ false → (put_all l r).postpone_by_one ≡ false
unfolding put_all
put_all-postpone [] r now = now
put_all-postpone (b ∷ bs) r now =
    put_all-postpone bs (put_single_received b r) (put_single_received-postpone b r)

pub create-IsIdle :
    (iid : InterfaceId) (address broadcast max_queue_size buffer_size max_fragment_size : ℕ)
    → 0 < buffer_size
    → IsIdle buffer_size
        (create iid address broadcast max_queue_size buffer_size max_fragment_size).parser
unfolding create Ring.create rx_buffer_latest
create-IsIdle iid address broadcast max_queue_size buffer_size max_fragment_size h = record {
  ring = create-IsRing buffer_size h;
  now = refl;
  at_end = refl;
  seen = refl;
}

-- What a frame needs to be found: room in the buffer, a valid header of the right size, and a
-- second preamble that does not start a valid header by accident.
pub record IsFindable (alg : HashAlgorithm) (n max : ℕ) (h : Header) (xs : List ℕ) : Type 0 where
  pub fits : 6 + length xs + alg.width < n
  pub whole : h.size ≡ length xs
  pub good : is_valid h max ≡ true
  pub apart : is_valid (shifted h) max ≡ false

module _ (alg : HashAlgorithm) (iid : InterfaceId) (id now : ℕ) where
  -- The bytes of a frame, put one by one into the buffer of a receiver that has dealt with
  -- everything else, are found by its next `do_receive`, whatever is left in the buffer: the call
  -- gives the frame's fragment with nothing pending, and the receiver has dealt with everything
  -- again. The buffer has less than 2 ^ 31 bytes and room for the frame, the header is valid, and
  -- the second preamble does not start a valid header.
  pub do_receive-put_all :
      {n : ℕ} (s : Receiver) (h : Header) (xs : List ℕ)
      → IsIdle n s
      → n < 2 ^ 31
      → IsFindable alg n (max_data_size alg s) h xs
      → (d : Bytes) × (s' : Receiver) × (do_receive alg iid id now
            (with_rx (put_all (preamble ∷ preamble ∷ frame alg h xs) s.rx) s)
          ≡ ok (some (s', some (fragment_of alg (max_data_size alg s) iid id now h d), 0)))
        × Represents d xs
        × IsIdle n s'
        × (s'.max_fragment_size ≡ s.max_fragment_size)
  unfolding max_data_size
  do_receive-put_all {n} s h xs v small ok_frame =
      let wire = preamble ∷ preamble ∷ frame alg h xs in
      let r' = put_all wire s.rx in
      let f = put_all-Filled wire s.rx v.ring v.now in
      let ring = Filled-IsRing f v.ring in
      let same = ring.sized in
      let (d, e, q) =
        do_receive-Filled alg iid id now (with_rx r' s) s.rx h xs (rw same v.ring) (omega arith)
          (rw same f) (rw same ok_frame.fits) v.at_end v.seen ok_frame.whole ok_frame.good
          ok_frame.apart in
      (
        d,
        _,
        e,
        q,
        record { ring = ring; now = put_all-postpone wire s.rx v.now; at_end = refl; seen = refl },
        refl,
      )

  -- An idle receiver receives nothing.
  pub do_receive-IsIdle :
      {n : ℕ} (s : Receiver)
      → IsIdle n s
      → 1 < n
      → do_receive alg iid id now s ≡ ok (some (s, none, 0))
  do_receive-IsIdle s v long =
      let ready : IsReady _ s = record {
        ring = v.ring;
        within = rw v.at_end (rx_buffer_latest-lt v.ring);
      } in
      do_receive-at_end alg iid id now s ready long v.at_end v.seen
