-- ===== src/Interface/Receiver/Found.antt =====
-- `do_receive` of interface/buffered.hpp finds a frame that is complete in the receive buffer.
use libprotoserial.Prelude.{
  ℕ, zero, suc, ◌+◌, ◌≤◌, ◌<◌, ◌≡◌, ◌≢◌, refl, List, ◌++◌, true, false, some, ok, leb, ◌==◌, length,
  get_or, arith,
}
use libprotoserial.Interface.Fragment.{InterfaceId}
use libprotoserial.Interface.Header.{Header, encode, is_valid}
use libprotoserial.Interface.Footer.{HashAlgorithm}
use libprotoserial.Interface.Frame.{preamble}
use libprotoserial.Interface.Ring.{next, distance, find, next-lt}
use libprotoserial.Interface.Ring.Contents.{Holds, Holds-front, circular_copy-Holds}
use libprotoserial.Interface.Receiver.{again, with_header, at_preamble, round}

find_here :
    (buf : List ℕ) (k start stop value : ℕ)
    → 0 < k
    → start ≢ stop
    → get_or buf start 0 ≡ value
    → find buf k start stop value ≡ some start
unfolding find
find_here buf zero start stop value pos d e = absurd (omega arith)
find_here buf (suc k) start stop value pos d e = ground arith

find_behind :
    (buf : List ℕ) (k start stop value : ℕ)
    → 1 < k
    → start ≢ stop
    → next (length buf) start ≢ stop
    → get_or buf start 0 ≢ value
    → get_or buf (next (length buf) start) 0 ≡ value
    → find buf k start stop value ≡ some (next (length buf) start)
unfolding find
find_behind buf zero start stop value pos d d' ne e = absurd (omega arith)
find_behind buf (suc k) start stop value pos d d' ne e =
    ground (arith, find_here buf k (next (length buf) start) stop value (omega arith) d' e)

module _ (alg : HashAlgorithm) (iid : InterfaceId) (id now : ℕ) where
  open alg use {width, value}

  module _ (buf : List ℕ) (max write : ℕ) (hw : write < length buf) where
    -- A round at a preamble, and at another byte in front of one.
    pub round_here :
        (stored read : ℕ)
        → read < length buf
        → read ≢ write
        → get_or buf read 0 ≡ preamble
        → round alg iid id now buf max write stored read
          ≡ at_preamble alg iid id now buf max write read
    unfolding round
    round_here stored read hr d e =
        let differ : (read == write) ≡ false = ground arith in
        rw (differ, find_here buf (length buf) read write preamble (omega arith) d e) refl

    pub round_behind :
        (stored read : ℕ)
        → 1 < length buf
        → read ≢ write
        → next (length buf) read ≢ write
        → get_or buf read 0 ≢ preamble
        → get_or buf (next (length buf) read) 0 ≡ preamble
        → round alg iid id now buf max write stored read
          ≡ at_preamble alg iid id now buf max write (next (length buf) read)
    unfolding round
    round_behind stored read long d d' ne e =
        let differ : (read == write) ≡ false = ground arith in
        rw (differ, find_behind buf (length buf) read write preamble long d d' ne e) refl

    -- A preamble in front of four bytes that are loaded is looked at with these as the header.
    pub at_preamble-Holds :
        (p : ℕ) (h : Header) (rest : List ℕ)
        → p < length buf
        → 4 < length buf
        → Holds (length buf) buf (next (length buf) p) (encode h ++ rest)
        → 4 ≤ distance (length buf) (next (length buf) p) write + 1
        → at_preamble alg iid id now buf max write p
          ≡ with_header alg iid id now buf max write p (next (length buf) p) h
    unfolding at_preamble
    at_preamble-Holds p h rest hp long held loaded =
        let start = next (length buf) p in
        let enough : leb 4 (distance (length buf) start write + 1) ≡ true = ground arith in
        let bytes =
          circular_copy-Holds buf start (encode h) (next-lt hp) long
            (Holds-front (length buf) buf start (encode h) rest held) in
        rw (enough, bytes) refl

    pub invalid_again :
        (p start : ℕ) (h : Header)
        → is_valid h max ≡ false
        → with_header alg iid id now buf max write p start h ≡ ok (again start)
    unfolding with_header
    invalid_again p start h bad = rw bad refl
