-- ===== src/Devices/UsbCdc/Trip.antt =====
-- A fragment from one `usbcdc_interface` of interface/stm32_zst/usbcdc.hpp to another.
use libprotoserial.Prelude.{
  ℕ, zero, suc, ◌+◌, ◌%◌, ◌^◌, ◌<◌, ◌≤◌, ◌≡◌, ◌≢◌, refl, ◌∙◌, sym, List, [], ◌∷◌, ◌++◌, true, false,
  ◌||◌, some, ok, ltb, ◌==◌, arith, length, Bool-cases, inl, inr,
}
use libprotoserial.Bytes.{
  Bytes, init, size, is_empty, push_front_byte, capacity_front, capacity_back, push_front,
}
use libprotoserial.Bytes.Layout.{Represents, laid_out}
use libprotoserial.Bytes.Grow.{push_front_byte-laid_out, push_front-laid_out}
use libprotoserial.Bytes.Spec.{
  Gives, push_front-Represents, push_back-Represents, reserve-Represents, to_bytes-Represents,
  read_rest-Represents, size-Represents, shrink_front-Represents, laid_out-Represents,
}
use libprotoserial.Bytes.Entries.{at-entry}
use libprotoserial.Bytes.Construct.{of_range-of_list}
use libprotoserial.Interface.Fragment.{Fragment}
use libprotoserial.Interface.Header.{Header, header_of, encode, is_valid, is_valid-header_of}
use libprotoserial.Interface.Footer.{HashAlgorithm, le_bytes, length-le_bytes}
use libprotoserial.Interface.Frame.{parse_fragment, preamble}
use libprotoserial.Interface.Frame.Serialize.{frame, length-frame, header_of-payload}
use libprotoserial.Interface.Frame.Parse.{fragment_of}
use libprotoserial.Interface.Frame.RoundTrip.{parse_frame}
use libprotoserial.Devices.UsbCdc.{
  UsbCdc, isr_rx_done, strip, max_data_size, make_room, serialize_fragment, do_receive,
  log_received_count,
}

push_front_byte-Represents :
    {c : Bytes} {xs : List ℕ} (v : ℕ)
    → Represents c xs
    → 1 + length xs < 2 ^ 31
    → Gives (push_front_byte c v) (v ∷ xs)
push_front_byte-Represents {c} {xs} v r h =
    let (d, e, rd) = push_front-Represents r (laid_out-Represents 0 (v ∷ []) 0 (omega arith)) h in
    let one = push_front_byte-laid_out r.front xs r.back v r.bounded h in
    let many = push_front-laid_out r.front xs r.back 0 (v ∷ []) 0 r.bounded h in
    let same : push_front_byte c v ≡ push_front c (laid_out 0 (v ∷ []) 0) =
      rw r.layout (one ∙ sym many) in
    (d, same ∙ e, rd)

-- A preamble is taken off, and a byte that is none ends the loop.
strip-preamble :
    (k : ℕ) {c : Bytes} (ys : List ℕ)
    → Represents c (preamble ∷ ys)
    → (c' : Bytes) × (strip (suc k) c ≡ strip k c') × Represents c' ys
unfolding strip
strip-preamble k {c} ys r =
    let some_bytes : is_empty c ≡ false = ground (arith, size-Represents r) in
    let first = at-entry [] preamble ys r in
    let (c', e, r') = shrink_front-Represents (preamble ∷ []) ys r in
    (c', rw (some_bytes, first, e) refl, r')

strip_other :
    (k : ℕ) {c : Bytes} (y : ℕ) (ys : List ℕ)
    → Represents c (y ∷ ys)
    → y ≢ preamble
    → strip k c ≡ ok c
unfolding strip
strip_other zero y ys r ne = refl
strip_other (suc k) {c} y ys r ne =
    let some_bytes : is_empty c ≡ false = ground (arith, size-Represents r) in
    let first = at-entry [] y ys r in
    let other : (y == preamble) ≡ false = ground arith in rw (some_bytes, first, other) refl

module _ (alg : HashAlgorithm) where
  open alg use {width, value}

  make_room-Represents :
      {c : Bytes} {xs : List ℕ}
      → Represents c xs
      → length xs + 1000 < 2 ^ 31
      → Gives (make_room alg c) xs
  unfolding make_room
  make_room-Represents {c} {xs} r h =
      let short = ltb (capacity_back c) width || ltb (capacity_front c) 5 in
      let (d, e, q, _, _) = reserve-Represents 5 width r (omega (arith, alg.width_small)) in
      elim (Bool-cases short) [
        | inl yes_short ↦ (d, rw yes_short e, q)
        | inr enough ↦ (c, rw enough refl, r)
      ]

  pub serialize_fragment-Gives :
      (p : Fragment) {xs : List ℕ}
      → Represents p.payload xs
      → length xs + 1000 < 2 ^ 31
      → Gives (serialize_fragment alg p) (preamble ∷ frame alg (header_of p) xs)
  unfolding serialize_fragment
  serialize_fragment-Gives p {xs} r h =
      let (d, e, rd) = make_room-Represents r h in
      let same : header_of (record p { payload = d }) ≡ header_of p =
        header_of-payload p d (rw (size-Represents rd, size-Represents r)) in
      let (hb, e₁, r₁) = to_bytes-Represents (encode (header_of p)) 0 (omega arith) in
      let (d₁, e₂, r₂) = push_front-Represents rd r₁ (omega arith) in
      let (d₂, e₃, r₃) = push_front_byte-Represents preamble r₂ (omega arith) in
      let covered = encode (header_of p) ++ xs in
      let read = read_rest-Represents (preamble ∷ []) covered r₃ in
      let long = length-le_bytes width (value covered) in
      let (fb, e₄, r₄) =
        to_bytes-Represents (le_bytes width (value covered)) 0 (omega (arith, alg.width_small)) in
      let (d₃, e₅, r₅) = push_back-Represents r₃ r₄ (omega (arith, alg.width_small)) in
      (d₃, rw (e, same, e₁, e₂, e₃, read, e₄) e₅, r₅)

  module _ (id now : ℕ) where
    -- The state behind a `do_receive` that took some bytes.
    abbrev pub emptied : ℕ → UsbCdc → UsbCdc
    emptied n u = record u {
      iface = record (u.iface) { bytes_rxed = (u.iface.bytes_rxed + n) % 2 ^ 64 };
      rx_buffer = init;
      rx_buffer_lock = false;
    }

    receive_frame :
        (u : UsbCdc) (h : Header) (xs : List ℕ)
        → Represents u.rx_buffer (preamble ∷ frame alg h xs)
        → is_valid h (max_data_size alg u) ≡ true
        → h.destination ≢ preamble
        → 0 < length xs
        → (d : Bytes) × (do_receive alg id now u
            ≡ ok (
              some (fragment_of alg (max_data_size alg u) u.iface.interface_id id now h d),
              0,
              emptied (length (preamble ∷ frame alg h xs)) u,
            ))
          × Represents d xs
    unfolding do_receive log_received_count
    receive_frame u h xs r good ne pos =
        let (c, e, rc) = strip-preamble 2 (frame alg h xs) r in
        let stop = strip_other 2 h.destination _ rc ne in
        let some_bytes : is_empty u.rx_buffer ≡ false = ground (arith, size-Represents r) in
        let long = length-frame alg h xs in
        let enough : ltb (4 + width) (size c) ≡ true = ground (arith, size-Represents rc) in
        let (d, e', rd) =
          parse_frame alg (max_data_size alg u) u.iface.interface_id id now h xs rc good in
        (d, finish c d some_bytes (e ∙ stop) enough e', rd)
      where
        finish :
            (c d : Bytes)
            → is_empty u.rx_buffer ≡ false
            → strip 3 u.rx_buffer ≡ ok c
            → ltb (4 + width) (size c) ≡ true
            → parse_fragment alg c (max_data_size alg u) u.iface.interface_id id now
              ≡ ok (some (fragment_of alg (max_data_size alg u) u.iface.interface_id id now h d))
            → do_receive alg id now u
              ≡ ok (
                some (fragment_of alg (max_data_size alg u) u.iface.interface_id id now h d),
                0,
                emptied (length (preamble ∷ frame alg h xs)) u,
              )
        finish c d some_bytes e enough e' =
            rw (some_bytes, e, enough, e', sym (size-Represents r)) refl

    -- A fragment goes from `serialize_fragment` through the interrupt of a receiver that is not at
    -- work to its next `do_receive`, which counts its bytes, with its data and the low bytes of its
    -- addresses, where these differ, that of the destination is not the preamble, and the data is
    -- not empty, within the limit, and the limit below 256.
    pub do_receive-serialize_fragment :
        (p : Fragment) (xs : List ℕ) (u : UsbCdc)
        → Represents p.payload xs
        → u.rx_buffer_lock ≡ false
        → p.meta.destination % 256 ≢ p.meta.source % 256
        → p.meta.destination % 256 ≢ preamble
        → 0 < length xs
        → length xs ≤ max_data_size alg u
        → max_data_size alg u < 256
        → (b d : Bytes) × (u' : UsbCdc) × (serialize_fragment alg p ≡ ok b)
          × Represents b (preamble ∷ frame alg (header_of p) xs)
          × (isr_rx_done (preamble ∷ frame alg (header_of p) xs) u ≡ ok u')
          × (do_receive alg id now u'
              ≡ ok (
                some (record {
                  meta = record {
                    object_id = id;
                    timestamp_creation = now;
                    interface_id = u.iface.interface_id;
                    source = p.meta.source % 256;
                    destination = p.meta.destination % 256;
                  };
                  payload = d;
                }),
                0,
                emptied (5 + length xs + width) u,
              ))
          × Represents d xs
    unfolding isr_rx_done max_data_size header_of
    do_receive-serialize_fragment p xs u r free differ ne pos few limit =
        let h = header_of p in
        let l = preamble ∷ frame alg h xs in
        let long = length-frame alg h xs in
        let fits : length xs + 1000 < 2 ^ 31 = omega arith in
        let (b, e, rb) = serialize_fragment-Gives p r fits in
        let short : length l < 2 ^ 31 = omega (arith, alg.width_small) in
        let (_, _, made) = of_range-of_list l short in
        let u' : UsbCdc = record u { rx_buffer = laid_out 0 l 0 } in
        let n : size p.payload ≡ length xs = size-Represents r in
        let good = is_valid-header_of p (max_data_size alg u) differ (omega arith) (omega arith) in
        let count : length l ≡ 5 + length xs + width = omega arith in
        let (d, e', rd) =
          receive_frame u' h xs (laid_out-Represents 0 l 0 (omega arith)) good ne pos in
        (b, d, u', e, rb, rw (free, made) refl, rw (← count) e', rd)
