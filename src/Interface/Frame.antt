-- ===== src/Interface/Frame.antt =====
-- A fragment as bytes on the wire, preamble, preamble, header, data, footer: `serialize_fragment`
-- of interface/buffered.hpp and `parse_fragment` of interface/parsers.hpp.
pub mod Serialize
pub mod Parse
pub mod RoundTrip
mod Tests
use libprotoserial.Prelude.{
  ℕ, ◌+◌, ◌-◌, List, [], ◌∷◌, ◌++◌, Bool, ◌||◌, Result, ok, ◌>>=◌, Option, none, some, ltb, ◌==◌,
  if◌then◌else◌, not,
}
use libprotoserial.Bytes.{
  Bytes, sized, set_all, reserve, push_front, push_back, shrink, to_bytes, window, size,
  capacity_front, capacity_back,
}
use libprotoserial.Bytes.Memory.{read_range, sub_size}
use libprotoserial.Interface.Fragment.{Fragment, InterfaceId}
use libprotoserial.Interface.Header.{header_of, header_size, encode, decode, is_valid}
use libprotoserial.Interface.Footer.{HashAlgorithm, le_bytes, le_value}

abbrev pub preamble : ℕ
preamble = 0x55

abbrev pub preamble_length : ℕ
preamble_length = 2

module _ (alg : HashAlgorithm) where
  open alg use {width, value}

  -- The reserve that `serialize_fragment` makes if the fragment lacks capacity.
  pub make_room : Bytes → Result Bytes
  make_room d =
      if ltb (capacity_back d) width || ltb (capacity_front d) (header_size + preamble_length)
      then reserve (header_size + preamble_length) width d
      else ok d

  -- The preamble in front of the header and the footer behind the data.
  pub enclose : Bytes → Result Bytes
  enclose d₁ = do
    pr ← set_all (sized 0 preamble_length 0) preamble
    d₂ ← push_front d₁ pr
    covered ← read_range d₂.base (d₂.offset + preamble_length) (size d₂ - preamble_length)
    footer ← to_bytes (le_bytes width (value covered)) 0
    push_back d₂ footer

  pub serialize_fragment : Fragment → Result Bytes
  serialize_fragment p = do
    d ← make_room p.payload
    header ← to_bytes (encode (header_of (record p { payload = d }))) 0
    d₁ ← push_front d header
    enclose d₁

  -- `max_data_size` and `iid` are what the interface answers, `id` is the new object's identifier
  -- and `now` its time of creation.
  pub parse_fragment : Bytes → ℕ → InterfaceId → ℕ → ℕ → Result (Option Fragment)
  parse_fragment buff max_data_size iid id now = do
    raw ← read_range buff.base buff.offset header_size
    let h = decode raw
    if not (is_valid h max_data_size) then ok none else (do
      parsed ← read_range buff.base (buff.offset + sub_size (size buff) width) width
      buff₁ ← shrink 0 width buff
      covered ← window buff₁
      if not (le_value parsed == value covered) then ok none else (do
        buff₂ ← shrink header_size 0 buff₁
        ok (
            some (record {
              meta = record {
                object_id = id;
                timestamp_creation = now;
                interface_id = iid;
                source = h.source;
                destination = h.destination;
              };
              payload = buff₂;
            }))))
