-- ===== src/Interface/Frame/Tests.antt =====
-- Frames of interface/buffered.hpp and interface/parsers.hpp under a small checksum.
use libprotoserial.Prelude.{ℕ, ◌%◌, ◌≡◌, refl, List, [], ◌∷◌, length, ok, some, arith}
use libprotoserial.Bytes.{Bytes}
use libprotoserial.Bytes.Layout.{Represents, laid_out}
use libprotoserial.Bytes.Spec.{laid_out-Represents}
use libprotoserial.Interface.Fragment.{Fragment, InterfaceId, loopback}
use libprotoserial.Interface.Header.{Header}
use libprotoserial.Interface.Footer.{HashAlgorithm}
use libprotoserial.Interface.Frame.{serialize_fragment, parse_fragment}
use libprotoserial.Interface.Frame.Parse.{Parsed, parse_fragment-Parsed}
use libprotoserial.Interface.Frame.RoundTrip.{receive, receive-serialize_fragment}

-- One byte that counts the bytes.
abbrev count : HashAlgorithm
count = record {
  width = 1;
  value = λ xs. length xs % 256;
  value_bounded = λ xs. omega arith;
  width_small = omega arith;
}

abbrev iid : InterfaceId
iid = record { identifier = loopback; inst = 0 }

abbrev data_bytes : List ℕ
data_bytes = 85 ∷ 7 ∷ []

-- From address 1 to address 258, whose low byte is 2.
abbrev sent : Fragment
sent = record {
  meta = record {
    object_id = 4;
    timestamp_creation = 10;
    interface_id = iid;
    source = 1;
    destination = 258;
  };
  payload = laid_out 6 data_bytes 1;
}

sent-Represents : Represents (laid_out 6 data_bytes 1) data_bytes
sent-Represents = laid_out-Represents 6 data_bytes 1 (omega arith)

receive-serialize_fragment_example :
    (b d : Bytes) × (serialize_fragment count sent ≡ ok b)
    × (receive count 60 iid 5 11 b
        ≡ ok (
            some (record {
              meta = record {
                object_id = 5;
                timestamp_creation = 11;
                interface_id = iid;
                source = 1 % 256;
                destination = 258 % 256;
              };
              payload = d;
            })))
    × Represents d data_bytes
receive-serialize_fragment_example =
    receive-serialize_fragment count 60 iid 5 11 sent data_bytes sent-Represents (ground arith)
      (omega arith) (omega arith) (omega arith)

-- A header with a good sum, and a footer that does not match.
abbrev hd : Header
hd = record { destination = 2; source = 1; size = 2; check = 5 }

abbrev wire : List ℕ
wire = 2 ∷ 1 ∷ 2 ∷ 5 ∷ 85 ∷ 7 ∷ 9 ∷ []

parse_fragment-Parsed_example :
    Parsed count 60 iid 5 11 hd data_bytes
      (9 ∷ [])
      (parse_fragment count (laid_out 0 wire 0) 60 iid 5 11)
parse_fragment-Parsed_example =
    parse_fragment-Parsed count 60 iid 5 11 hd data_bytes (9 ∷ []) refl
      (laid_out-Represents 0 wire 0 (omega arith))
