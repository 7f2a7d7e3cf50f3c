-- ===== src/Interface/Frame/RoundTrip.antt =====
-- From `serialize_fragment` of interface/buffered.hpp back through `parse_fragment` of
-- interface/parsers.hpp.
use libprotoserial.Prelude.{
  ℕ, ◌+◌, ◌-◌, ◌%◌, ◌≤◌, ◌<◌, ◌≡◌, ◌≢◌, inl, inr, List, ◌∷◌, ◌++◌, Result, ok, ◌>>=◌, Option, some,
  arith, length, true, take, take_all,
}
use libprotoserial.Bytes.{Bytes, size, sub}
use libprotoserial.Bytes.Layout.{Represents}
use libprotoserial.Bytes.Spec.{sub-Represents, size-Represents}
use libprotoserial.Interface.Fragment.{Fragment, InterfaceId}
use libprotoserial.Interface.Header.{Header, header_of, encode, is_valid, is_valid-header_of}
use libprotoserial.Interface.Footer.{
  HashAlgorithm, le_bytes, le_value, le_value-le_bytes, length-le_bytes,
}
use libprotoserial.Interface.Frame.{serialize_fragment, parse_fragment, preamble, preamble_length}
use libprotoserial.Interface.Frame.Serialize.{serialize_fragment-Gives, frame}
use libprotoserial.Interface.Frame.Parse.{Parsed, parse_fragment-Parsed, fragment_of}

module _ (alg : HashAlgorithm) (max_data_size : ℕ) (iid : InterfaceId) (id now : ℕ) where
  open alg use {width, value}

  -- What the receiver does with the bytes behind the preambles.
  abbrev pub receive : Bytes → Result (Option Fragment)
  receive b = do
    buff ← sub b preamble_length (size b - preamble_length)
    parse_fragment alg buff max_data_size iid id now

  pub parse_frame :
      (h : Header) (xs : List ℕ) {buff : Bytes}
      → Represents buff (frame alg h xs)
      → is_valid h max_data_size ≡ true
      → (d : Bytes) × (parse_fragment alg buff max_data_size iid id now
          ≡ ok (some (fragment_of alg max_data_size iid id now h d)))
        × Represents d xs
  parse_frame h xs {buff} r good = pick (
      parse_fragment-Parsed alg max_data_size iid id now h xs ft
        (length-le_bytes width (value (encode h ++ xs))) r)
    where
      ft : List ℕ
      ft = le_bytes width (value (encode h ++ xs))

      sum : le_value ft ≡ value (encode h ++ xs)
      sum = le_value-le_bytes width (value (encode h ++ xs)) (alg.value_bounded (encode h ++ xs))

      pick :
          Parsed alg max_data_size iid id now h xs ft
            (parse_fragment alg buff max_data_size iid id now)
          → (d : Bytes) × (parse_fragment alg buff max_data_size iid id now
              ≡ ok (some (fragment_of alg max_data_size iid id now h d)))
            × Represents d xs
      pick (inl (inl bad, e)) = cc
      pick (inl (inr bad, e)) = absurd (bad sum)
      pick (inr (v, q, d, e, s)) = (d, e, s)

  -- Any container that exposes the wire's bytes is received.
  pub receive-frame :
      (h : Header) (xs : List ℕ) {b : Bytes}
      → Represents b (preamble ∷ preamble ∷ frame alg h xs)
      → is_valid h max_data_size ≡ true
      → (d : Bytes) × (receive b ≡ ok (some (fragment_of alg max_data_size iid id now h d)))
        × Represents d xs
  receive-frame h xs {b} rb good =
      let wire = frame alg h xs in
      let n : size b ≡ 2 + length wire = omega (arith, size-Represents rb) in
      let (c, e', rc) = sub-Represents 2 (size b - 2) rb (omega arith) in
      let all : take (size b - 2) wire ≡ wire = take_all (size b - 2) wire (omega arith) in
      let (d, e'', rd) = parse_frame h xs (rw all at rc) good in (d, rw e' e'', rd)

  -- A fragment that is put on the wire comes out of the receiver's parser with its data, and
  -- with the low bytes of its addresses, where these differ, the data is not empty and within
  -- the limit, and the limit is below 256.
  pub receive-serialize_fragment :
      (p : Fragment) (xs : List ℕ)
      → Represents p.payload xs
      → p.meta.destination % 256 ≢ p.meta.source % 256
      → 0 < length xs
      → length xs ≤ max_data_size
      → max_data_size < 256
      → (b d : Bytes) × (serialize_fragment alg p ≡ ok b)
        × (receive b
            ≡ ok (
                some (record {
                  meta = record {
                    object_id = id;
                    timestamp_creation = now;
                    interface_id = iid;
                    source = p.meta.source % 256;
                    destination = p.meta.destination % 256;
                  };
                  payload = d;
                })))
        × Represents d xs
  receive-serialize_fragment p xs r differ some_bytes fits small =
      let h = header_of p in
      let n : size p.payload ≡ length xs = size-Represents r in
      let wire = frame alg h xs in
      let (b, e, rb) = serialize_fragment-Gives alg p r (omega arith) in
      let good : is_valid h max_data_size ≡ true =
        is_valid-header_of p max_data_size differ (omega arith) (omega arith) in
      let (d, e', rd) = receive-frame h xs rb good in (b, d, e, unfold header_of in e', rd)
