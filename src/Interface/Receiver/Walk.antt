-- ===== src/Interface/Receiver/Walk.antt =====
-- The rounds of `do_receive` of interface/buffered.hpp up to a frame that stands behind a byte that
-- was dealt with.
use libprotoserial.Prelude.{
  ℕ, zero, suc, ◌^◌, ◌<◌, ◌≡◌, ◌≢◌, refl, sym, ◌∙◌, List, ◌∷◌, ◌++◌, true, false, some, ok, length,
  get_or, arith, ℕ_discrete,
}
use libprotoserial.Bytes.{Bytes}
use libprotoserial.Bytes.Layout.{Represents}
use libprotoserial.Interface.Fragment.{InterfaceId}
use libprotoserial.Interface.Header.{Header, encode, is_valid}
use libprotoserial.Interface.Footer.{HashAlgorithm, le_bytes}
use libprotoserial.Interface.Frame.{preamble}
use libprotoserial.Interface.Frame.Serialize.{frame, length-frame}
use libprotoserial.Interface.Frame.Parse.{fragment_of}
use libprotoserial.Interface.Ring.{next, plus, distance, next-lt, distance-plus, distance-next}
use libprotoserial.Interface.Ring.Contents.{Holds, plus-next}
use libprotoserial.Interface.Receiver.{Exit, again, leave, round, rounds}
use libprotoserial.Interface.Receiver.Found.{round_behind, at_preamble-Holds, invalid_again}
use libprotoserial.Interface.Receiver.Rounds.{plus-ne_self, deliver, go_on}

-- The header that is read in front of a frame's own one.
abbrev pub shifted : Header → Header
shifted h = record {
  destination = preamble;
  source = h.destination;
  size = h.source;
  check = h.size;
}

module _ (alg : HashAlgorithm) (iid : InterfaceId) (id now : ℕ) where
  open alg use {width}

  module _ (buf : List ℕ) (max write : ℕ) (hw : write < length buf)
      (small : length buf < 2 ^ 31) where
    rounds-again :
        (k stored p i : ℕ)
        → round alg iid id now buf max write stored p ≡ ok (again i)
        → rounds alg iid id now (suc k) buf max write stored p
          ≡ rounds alg iid id now k buf max write i i
    unfolding rounds
    rounds-again k stored p i e = rw e refl

    rounds-leave :
        (k stored p : ℕ) (x : Exit)
        → round alg iid id now buf max write stored p ≡ ok (leave x)
        → rounds alg iid id now (suc k) buf max write stored p ≡ ok (some x)
    unfolding rounds
    rounds-leave k stored p x e = rw e refl

    -- The fragment that is read, and the end of the loop behind it.
    abbrev pub Finds : ℕ → ℕ → Header → List ℕ → Type 0
    Finds k p h xs =
        (d : Bytes) × (rounds alg iid id now k buf max write p p
          ≡ ok (
              some
                (record { stored = write; received = some (fragment_of alg max iid id now h d) })))
        × Represents d xs

    module _ (h : Header) (xs : List ℕ) (sized : h.size ≡ length xs) (good : is_valid h max ≡ true)
        (bad : is_valid (shifted h) max ≡ false) where
      at_second :
          (k p : ℕ)
          → 0 < k
          → p < length buf
          → length (frame alg h xs) < length buf
          → Holds (length buf) buf p (preamble ∷ frame alg h xs)
          → write ≡ plus (length buf) p (length (frame alg h xs))
          → Finds k p h xs
      at_second zero p pos hp short held there = absurd (omega arith)
      at_second (suc k) p pos hp short held there =
          let (d, e, r) =
            deliver alg iid id now buf max write hw small p p h xs hp short held.0 held.1 there
              sized good in
          (d, rounds-leave k p p _ e, r)

      at_first :
          (k p : ℕ)
          → 1 < k
          → p < length buf
          → suc (length (frame alg h xs)) < length buf
          → Holds (length buf) buf p (preamble ∷ preamble ∷ frame alg h xs)
          → write ≡ plus (length buf) p (suc (length (frame alg h xs)))
          → Finds k p h xs
      at_first zero p pos hp short held there = absurd (omega arith)
      at_first (suc k) p pos hp short held there =
          let long = length-frame alg h xs in
          let size = length (frame alg h xs) in
          let apart : p ≢ write = rw there (plus-ne_self (suc size) hp (omega arith) short) in
          let dist = distance-plus (suc size) hp short in
          let e =
            go_on alg iid id now buf max write hw small p p (shifted h)
              (h.check ∷ (xs ++ le_bytes width (alg.value (encode h ++ xs)))) hp (omega arith) apart
              held.0 held.1 (rw there (omega arith)) bad in
          let (d, e', r) =
            at_second k (next (length buf) p) (omega arith) (next-lt hp) (omega arith) held.1
              (there ∙ sym (plus-next size hp short)) in
          (d, rounds-again k p p _ e ∙ e', r)

      -- The loop starts at a byte that was dealt with, whatever it is.
      pub at_old :
          (k q : ℕ)
          → 2 < k
          → q < length buf
          → suc (suc (length (frame alg h xs))) < length buf
          → Holds (length buf) buf (next (length buf) q) (preamble ∷ preamble ∷ frame alg h xs)
          → write ≡ plus (length buf) q (suc (suc (length (frame alg h xs))))
          → Finds k q h xs
      at_old zero q pos hq short held there = absurd (omega arith)
      at_old (suc k) q pos hq short held there =
          let long = length-frame alg h xs in
          let size = length (frame alg h xs) in
          let n = length buf in
          let i = next n q in
          let hi : i < n = next-lt hq in
          let far : write ≡ plus n i (suc size) = there ∙ sym (plus-next (suc size) hq short) in
          let apart : q ≢ write = rw there (plus-ne_self (suc (suc size)) hq (omega arith) short) in
          let dist = distance-plus (suc (suc size)) hq short in
          let short' : suc size < n = omega arith in
          elim (ℕ_discrete (get_or buf q 0) preamble) [
            | yes stale ↦
                let rest = h.size ∷ h.check ∷ (xs ++ le_bytes width (alg.value (encode h ++ xs))) in
                let odd : is_valid (shifted (shifted h)) max ≡ false =
                  unfold is_valid in ground arith in
                let e =
                  go_on alg iid id now buf max write hw small q q (shifted (shifted h)) rest hq
                    (omega arith) apart stale held (rw there (omega arith)) odd in
                let (d, e', r) = at_first k i (omega arith) hi short' held far in
                (d, rounds-again k q q i e ∙ e', r)
            | no fresh ↦
                let apart' : i ≢ write = rw far (plus-ne_self (suc size) hi (omega arith) short') in
                let rest = h.check ∷ (xs ++ le_bytes width (alg.value (encode h ++ xs))) in
                let closer = distance-next hi hw apart' in
                let reach : distance n i write ≡ suc size =
                  rw far (distance-plus (suc size) hi short') in
                let e =
                  round_behind alg iid id now buf max write hw q q (omega arith) apart apart' fresh
                    held.0
                  ∙ at_preamble-Holds alg iid id now buf max write hw i (shifted h) rest hi
                      (omega arith) held.1 (omega arith)
                  ∙ invalid_again alg iid id now buf max write hw i (next n i) (shifted h) bad in
                let (d, e', r) =
                  at_second k (next n i) (omega arith) (next-lt hi) (omega arith) held.1
                    (far ∙ sym (plus-next size hi short')) in
                (d, rounds-again k q q (next n i) e ∙ e', r)
          ]
