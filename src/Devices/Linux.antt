-- ===== src/Devices/Linux.antt =====
-- `uart_interface` of interface/linux/uart.hpp: the reads and the writes are system calls. What the
-- calls of `read` give is an argument; a failed one gives no bytes.
pub mod Port
mod Tests
use libprotoserial.Prelude.{
  Bool-cases, inl, inr, ℕ, ◌<◌, ◌^◌, ◌≡◌, refl, ◌∙◌, sym, append-nil, List, [], ◌∷◌, ◌++◌, Bool,
  true, false, Option, some, Result, ok, ◌>>=◌, length, arith, ◌==◌, if◌then◌else◌,
}
use libprotoserial.Bytes.{Bytes, window}
use libprotoserial.Bytes.Layout.{Represents}
use libprotoserial.Interface.Fragment.{Fragment, InterfaceId}
use libprotoserial.Interface.Header.{Header}
use libprotoserial.Interface.Footer.{HashAlgorithm}
use libprotoserial.Interface.Frame.{preamble}
use libprotoserial.Interface.Frame.Serialize.{frame}
use libprotoserial.Interface.Frame.Parse.{fragment_of}
use libprotoserial.Interface.Ring.{RxBuffer}
use libprotoserial.Interface.Receiver.{Receiver, max_data_size}
use libprotoserial.Interface.Receiver
use libprotoserial.Devices.{put_all, with_rx}
use libprotoserial.Devices.Arrival.{IsIdle, IsFindable, do_receive-put_all}

-- `do_transmit`: the bytes of the write, whose result nobody looks at, and the answer.
pub do_transmit : Bytes → Result (List ℕ × Bool)
do_transmit buff = do l ← window buff; ok (l, true)

-- `do_single_receive`: it reads until a read does not fill the eight bytes of `read_buf`.
pub do_single_receive : List (List ℕ) → RxBuffer → RxBuffer
do_single_receive [] r = r
do_single_receive (read_buf ∷ more) r =
    let rest = do_single_receive more (put_all read_buf r) in
    if length read_buf == 8 then rest else put_all read_buf r

module _ (alg : HashAlgorithm) (iid : InterfaceId) (id now : ℕ) where
  -- `do_receive` with the reads that come first.
  pub do_receive : List (List ℕ) → Receiver → Result (Option (Receiver × Option Fragment × ℕ))
  do_receive reads s = Receiver.do_receive alg iid id now (with_rx (do_single_receive reads s.rx) s)

-- The bytes of all reads up to the first that does not fill the eight bytes.
abbrev pub read_bytes : List (List ℕ) → List ℕ
read_bytes [] = []
read_bytes (l ∷ ls) = if length l == 8 then l ++ read_bytes ls else l

put_all-append : (xs ys : List ℕ) (r : RxBuffer) → put_all (xs ++ ys) r ≡ put_all ys (put_all xs r)
unfolding put_all
put_all-append [] ys r = refl
put_all-append (x ∷ xs) ys r = put_all-append xs ys _

do_single_receive-put_all :
    (reads : List (List ℕ)) (r : RxBuffer)
    → do_single_receive reads r ≡ put_all (read_bytes reads) r
unfolding do_single_receive put_all
do_single_receive-put_all [] r = refl
do_single_receive-put_all (l ∷ ls) r =
    let rest = do_single_receive-put_all ls (put_all l r) in
    elim (Bool-cases (length l == 8)) [
      | inl full ↦ rw full (rest ∙ sym (put_all-append l (read_bytes ls) r))
      | inr last ↦ rw last refl
    ]

module _ (alg : HashAlgorithm) (iid : InterfaceId) (id now : ℕ) where
  -- Whatever the calls of `read` give: where the bytes up to the first read of other than eight
  -- bytes are those of a frame, a receiver that has dealt with everything else finds the frame in
  -- the call that reads them. The buffer of fewer than 2 ^ 31 bytes has room for the frame, the
  -- header is valid, and the second preamble does not start a valid header.
  pub do_receive-read_bytes :
      {n : ℕ} (reads : List (List ℕ)) (s : Receiver) (h : Header) (xs : List ℕ)
      → read_bytes reads ≡ preamble ∷ preamble ∷ frame alg h xs
      → IsIdle n s
      → n < 2 ^ 31
      → IsFindable alg n (max_data_size alg s) h xs
      → (d : Bytes) × (s' : Receiver) × (do_receive alg iid id now reads s
          ≡ ok (some (s', some (fragment_of alg (max_data_size alg s) iid id now h d), 0)))
        × Represents d xs
        × IsIdle n s'
  unfolding do_receive
  do_receive-read_bytes reads s h xs whole idle small fits =
      let (d, s', e, r, idle', _) = do_receive-put_all alg iid id now s h xs idle small fits in
      let read = do_single_receive-put_all reads s.rx in (d, s', rw (read, whole) e, r, idle')
