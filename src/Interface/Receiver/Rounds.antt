-- ===== src/Interface/Receiver/Rounds.antt =====
-- One round of `do_receive` of interface/buffered.hpp, at each of the two preambles of a frame.
use libprotoserial.Prelude.{
  ℕ, ◌+◌, ◌^◌, ◌≤◌, ◌<◌, ◌≡◌, ◌≢◌, refl, ap, sym, ◌∙◌, List, ◌++◌, true, false, Option, some, ok,
  leb, length, get_or, arith,
}
use libprotoserial.Bytes.{Bytes, sized}
use libprotoserial.Bytes.Layout.{Represents, laid_out}
use libprotoserial.Bytes.Spec.{laid_out-Represents}
use libprotoserial.Bytes.Copy.{copy_zeroed}
use libprotoserial.Interface.Fragment.{Fragment, InterfaceId}
use libprotoserial.Interface.Header.{Header, encode, is_valid}
use libprotoserial.Interface.Footer.{HashAlgorithm, le_bytes}
use libprotoserial.Interface.Frame.{parse_fragment, preamble}
use libprotoserial.Interface.Frame.Serialize.{frame, length-frame}
use libprotoserial.Interface.Frame.Parse.{fragment_of}
use libprotoserial.Interface.Frame.RoundTrip.{parse_frame}
use libprotoserial.Interface.Ring.{next, plus, distance, next-lt, distance-plus, distance-next}
use libprotoserial.Interface.Ring.Contents.{Holds, circular_copy-Holds}
use libprotoserial.Interface.Receiver.{exit_at, again, leave, parse_at, with_header, round}
use libprotoserial.Interface.Receiver.Found.{round_here, at_preamble-Holds, invalid_again}

pub plus-ne_self : {n i : ℕ} (k : ℕ) → i < n → 0 < k → k < n → i ≢ plus n i k
unfolding plus
plus-ne_self k h pos h' e = ground arith

module _ (alg : HashAlgorithm) (iid : InterfaceId) (id now : ℕ) where
  open alg use {width}

  module _ (buf : List ℕ) (max write : ℕ) (hw : write < length buf)
      (small : length buf < 2 ^ 31) where
    parse_at-Holds :
        (p start : ℕ) (l : List ℕ) (f : Option Fragment)
        → start < length buf
        → length l < length buf
        → Holds (length buf) buf start l
        → parse_fragment alg (laid_out 0 l 0) max iid id now ≡ ok f
        → parse_at alg iid id now buf max p start (length l)
          ≡ ok (exit_at (length buf) p (length l) f)
    unfolding parse_at
    parse_at-Holds p start l f hs short held e =
        let dist = distance-plus (length l) hs short in
        let bytes = circular_copy-Holds buf start l hs short held in
        let copied = copy_zeroed l (omega arith) in rw (dist, bytes, copied, e) refl

    -- A whole fragment that is parsed is left behind.
    with_header-Holds :
        (p start : ℕ) (h : Header) (l : List ℕ) (f : Fragment)
        → start < length buf
        → length l < length buf
        → Holds (length buf) buf start l
        → parse_fragment alg (laid_out 0 l 0) max iid id now ≡ ok (some f)
        → is_valid h max ≡ true
        → h.size + width + 4 ≡ length l
        → distance (length buf) start write + 1 ≡ length l
        → with_header alg iid id now buf max write p start h
          ≡ ok (leave (record { stored = plus (length buf) p (length l); received = some f }))
    unfolding with_header exit_at
    with_header-Holds p start h l f hs short held e good whole loaded =
        let parsed = parse_at-Holds p start l (some f) hs short held e in
        let full : leb (length l) (length l) ≡ true = ground arith in
        rw (good, whole, loaded, full, parsed) refl

    -- The round at the second preamble.
    pub deliver :
        (stored p : ℕ) (h : Header) (xs : List ℕ)
        → p < length buf
        → length (frame alg h xs) < length buf
        → get_or buf p 0 ≡ preamble
        → Holds (length buf) buf (next (length buf) p) (frame alg h xs)
        → write ≡ plus (length buf) p (length (frame alg h xs))
        → h.size ≡ length xs
        → is_valid h max ≡ true
        → (d : Bytes) × (round alg iid id now buf max write stored p
            ≡ ok (
                leave (record {
                  stored = write;
                  received = some (fragment_of alg max iid id now h d);
                })))
          × Represents d xs
    deliver stored p h xs hp short pre held there sized good =
        let long = length-frame alg h xs in
        let l = frame alg h xs in
        let n = length l in
        let start = next (length buf) p in
        let apart : p ≢ write = rw there (plus-ne_self n hp (omega arith) short) in
        let left : distance (length buf) start write + 1 ≡ n =
          distance-next hp hw apart ∙ rw there (distance-plus n hp short) in
        let here = round_here alg iid id now buf max write hw stored p hp apart pre in
        let behind = xs ++ le_bytes width (alg.value (encode h ++ xs)) in
        let look =
          at_preamble-Holds alg iid id now buf max write hw p h behind hp (omega arith) held
            (omega arith) in
        let (d, e, r) =
          parse_frame alg max iid id now h xs (laid_out-Represents 0 l 0 (omega arith)) good in
        let done =
          with_header-Holds p start h l (fragment_of alg max iid id now h d) (next-lt hp) short held
            e good (omega arith) left in
        (
          d,
          here
              ∙ look
              ∙ done
              ∙ ap
                  (λ i. ok (
                    leave (record {
                      stored = i;
                      received = some (fragment_of alg max iid id now h d);
                    })))
                  (sym there),
          r,
        )

    -- The round at the first preamble looks at a header that is shifted by one byte.
    pub go_on :
        (stored p : ℕ) (h : Header) (rest : List ℕ)
        → p < length buf
        → 4 < length buf
        → p ≢ write
        → get_or buf p 0 ≡ preamble
        → Holds (length buf) buf (next (length buf) p) (encode h ++ rest)
        → 4 ≤ distance (length buf) p write
        → is_valid h max ≡ false
        → round alg iid id now buf max write stored p ≡ ok (again (next (length buf) p))
    go_on stored p h rest hp long apart pre held loaded bad =
        let closer = distance-next hp hw apart in
        round_here alg iid id now buf max write hw stored p hp apart pre
        ∙ at_preamble-Holds alg iid id now buf max write hw p h rest hp long held (omega arith)
        ∙ invalid_again alg iid id now buf max write hw p (next (length buf) p) h bad
