-- ===== src/Devices/Loopback.antt =====
-- `loopback_interface` of interface/testing/loopback.hpp: what it transmits comes back to itself
-- through a function `wire` on bytes, with the addresses swapped.
pub mod Returns
use libprotoserial.Prelude.{
  ℕ, ◌+◌, ◌-◌, ◌%◌, ◌^◌, ◌<◌, ◌≤◌, ◌≡◌, ◌≢◌, refl, List, [], ◌∷◌, ◌++◌, map, Bool, true, false,
  Option, none, some, Result, ok, ◌>>=◌, arith, length, ◌∙◌, ap, sym, ◌==◌,
}
use libprotoserial.Bytes.{Bytes, at, put, push_front, to_bytes, copy, window, size}
use libprotoserial.Bytes.Layout.{Represents}
use libprotoserial.Bytes.Spec.{
  Gives, push_front-Represents, to_bytes-Represents, size-Represents, copy-Represents,
  window-Represents,
}
use libprotoserial.Bytes.Entries.{at-entry, put-entry}
use libprotoserial.Interface.Fragment.{Fragment, InterfaceId}
use libprotoserial.Interface.Header.{Header, header_of, encode, is_valid}
use libprotoserial.Interface.Footer.{HashAlgorithm}
use libprotoserial.Interface.Frame.{make_room, enclose, preamble}
use libprotoserial.Interface.Frame.Serialize.{
  frame, make_room-Represents, enclose-Gives, header_of-payload,
}
use libprotoserial.Interface.Queue
use libprotoserial.Interface.Queue.{Interface, Event, Serialized}
use libprotoserial.Interface.Ring.{RxBuffer}
use libprotoserial.Interface.Receiver.{Receiver, max_data_size}
use libprotoserial.Devices.{Device, put_all, with_rx}
use libprotoserial.Devices

-- `serialize_fragment`, which swaps the first two bytes of the header.
module _ (alg : HashAlgorithm) where
  pub serialize_fragment : Fragment → Result Bytes
  serialize_fragment p = do
    d ← make_room alg p.payload
    header ← to_bytes (encode (header_of (record p { payload = d }))) 0
    d₁ ← push_front d header
    tmp ← at d₁ 0
    other ← at d₁ 1
    d₂ ← put d₁ 0 other
    d₃ ← put d₂ 1 tmp
    d₄ ← enclose alg d₃
    copy d₄

  abbrev pub swapped : Header → Header
  swapped h = record {
    destination = h.source;
    source = h.destination;
    size = h.size;
    check = h.check;
  }

  pub serialize_fragment-Gives :
      (p : Fragment) {xs : List ℕ}
      → Represents p.payload xs
      → length xs + 1000 < 2 ^ 31
      → Gives (serialize_fragment p) (preamble ∷ preamble ∷ frame alg (swapped (header_of p)) xs)
  unfolding serialize_fragment
  serialize_fragment-Gives p {xs} r small =
      let h = header_of p in
      let (d, e, rd) = make_room-Represents alg r small in
      let same : header_of (record p { payload = d }) ≡ header_of p =
        header_of-payload p d (rw (size-Represents rd, size-Represents r)) in
      let (hb, e₁, r₁) = to_bytes-Represents (encode h) 0 (omega arith) in
      let (d₁, e₂, r₂) = push_front-Represents rd r₁ (omega arith) in
      let tail = h.size ∷ h.check ∷ xs in
      let first = at-entry [] h.destination (h.source ∷ tail) r₂ in
      let second = at-entry (h.destination ∷ []) h.source tail r₂ in
      let (d₂, e₃, r₃) = put-entry [] h.destination h.source (h.source ∷ tail) r₂ in
      let (d₃, e₄, r₄) = put-entry (h.source ∷ []) h.source h.destination tail r₃ in
      let (d₄, e₅, r₅) = enclose-Gives alg r₄ (omega arith) in
      let (d₅, e₆, r₆) = copy-Represents r₅ in
      (d₅, rw (e, same, e₁, e₂, first, second, e₃, e₄, e₅) e₆, r₆)

  -- `do_transmit`: every byte goes over the wire into the own receive buffer.
  pub do_transmit : (ℕ → ℕ) → Bytes → RxBuffer → Result RxBuffer
  do_transmit wire buff r = do l ← window buff; ok (put_all (map wire l) r)

  pub transmit : Fragment → Device → Result Device
  transmit p d = do
    i ← Queue.transmit serialize_fragment (max_data_size alg d.parser) p d.iface
    ok (record d { iface = i })

  -- The receive buffer after the front of the queue, if any, was transmitted.
  unfoldable pub looped : (ℕ → ℕ) → List Serialized → RxBuffer → Result RxBuffer
  looped wire [] r = ok r
  looped wire (s ∷ rest) r = do_transmit wire s.bytes r

  -- `main_task`; `can_transmit` and `do_transmit` always answer `true`.
  pub main_task : (ℕ → ℕ) → ℕ → ℕ → Device → Result (Option (Device × List Event))
  main_task wire id now d = Devices.main_task alg id now true (λ b. true) d >>= λ r. elim r [
    | none ↦ ok none
    | some (d', es) ↦ looped wire d.iface.tx_queue d'.parser.rx >>= λ rx.
        ok (some (record d' { parser = with_rx rx d'.parser }, es))
  ]
