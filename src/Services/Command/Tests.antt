-- ===== src/Services/Command/Tests.antt =====
-- The services of services/ with a small encoding in the place of jsoncons.
use libprotoserial.Prelude.{ℕ, ◌%◌, ◌≡◌, refl, List, [], ◌∷◌, ◌++◌, true, some, ok, length, arith}
use libprotoserial.Bytes.Layout.{Represents, laid_out}
use libprotoserial.Bytes.Spec.{laid_out-Represents}
use libprotoserial.Interface.Fragment.{InterfaceId, uart, same_interface}
use libprotoserial.Fragmentation.IdFactory.{IdFactory}
use libprotoserial.Fragmentation.Transfer.{Transfer, is_response_transfer}
use libprotoserial.Ports.Packet.{Packet}
use libprotoserial.Ports.Header.{header, encode}
use libprotoserial.Ports.Handler.{Ports, PreallocSize, transfer_receive, has_service, has_interface}
use libprotoserial.Services.{Service}
use libprotoserial.Services.Echo
use libprotoserial.Services.Echo.{receive-transfer_receive}
use libprotoserial.Services.Command.Json.{JsonLibrary}
use libprotoserial.Services.Command.{Server, continue}
use libprotoserial.Services.Command.Run.{Incoming, run, IsTracking, AllAnswered, run-IsTracking}

-- Values: the number 0, and texts; an object is its last member, and is encoded in one byte.
abbrev small_json : JsonLibrary
small_json = record {
  Json = ℕ;
  decode_cbor = λ bytes. some (length bytes);
  encode_cbor = λ j. (j % 256) ∷ [];
  is_object = λ j. true;
  is_array = λ j. true;
  is_string = λ j. true;
  get = λ name j. some j;
  array_size = λ j. 1;
  index = λ i j. j;
  as_string = λ j. j ∷ [];
  string = λ text. length text;
  number = λ i. i;
  array = λ values. length values;
  object = λ members. length members;
}

abbrev iid : InterfaceId
iid = record { identifier = uart; inst = 0 }

abbrev no_prealloc : PreallocSize
no_prealloc = record { front = 3; back = 1 }

-- A handler of one interface with services at 5 and 100.
abbrev ports : Ports
ports = record { services = 5 ∷ 100 ∷ []; interfaces = iid ∷ []; prealloc = no_prealloc }

abbrev service : Service
service = record { port = 5; prealloc = no_prealloc }

-- The payload of a transfer from port 9 to port 5.
abbrev ping : List ℕ
ping = 7 ∷ 8 ∷ []

abbrev transfer : Transfer
transfer = record {
  meta = record {
    fragment = record {
      object_id = 3;
      timestamp_creation = 4;
      interface_id = iid;
      source = 77;
      destination = 1;
    };
    id = 6;
    prev_id = 0;
  };
  payload = laid_out 0 (5 ∷ 9 ∷ 14 ∷ ping) 0;
}

known : has_service 5 ports.services ≡ true
unfolding has_service
known = refl

known_interface : has_interface iid ports.interfaces ≡ true
unfolding has_interface same_interface
known_interface = refl

carried : Represents transfer.payload (encode (header 5 9) ++ ping)
unfolding header
carried = laid_out-Represents 0 (5 ∷ 9 ∷ 14 ∷ ping) 0 (omega arith)

receive-transfer_receive_example :
    (p : Packet) × (t' : Transfer) × (ids' : IdFactory) × (transfer_receive 10 transfer ports
      ≡ ok (some (5, p)))
    × (Echo.receive 11 12 13 [] service p ports ≡ ok (some (iid, t'), ids'))
    × (is_response_transfer transfer.meta t'.meta ≡ true)
    × (t'.meta.fragment.destination ≡ 77)
    × Represents t'.payload (encode (header 9 5) ++ ping)
receive-transfer_receive_example =
    receive-transfer_receive 10 11 12 13 [] service ports transfer 5 9 ping carried
      (λ e. absurd (omega arith)) (λ e. absurd (omega arith)) known refl (omega arith) (omega arith)
      (λ e. absurd (omega arith)) known_interface

-- A server whose only command goes on, and a query of one byte.
abbrev server : Server small_json
server = record {
  service = service;
  cmd_map = ((1 ∷ []), some (λ j. continue)) ∷ [];
  active_cmd = [];
}

abbrev question : Packet
question = record {
  meta = record { transfer = transfer.meta; source_port = 9; destination_port = 5 };
  payload = laid_out 0 (1 ∷ []) 0;
}

-- The question twice, at a handler where only the server is registered.
abbrev questions : List Incoming
questions =
    record { object_id = 20; now = 21; packet = question }
    ∷ record { object_id = 22; now = 23; packet = question }
    ∷ []

abbrev alone : Ports
alone = record { services = 5 ∷ []; interfaces = iid ∷ []; prealloc = no_prealloc }

question_bytes : Represents question.payload (1 ∷ [])
question_bytes = laid_out-Represents 0 (1 ∷ []) 0 (omega arith)

alone-IsTracking : IsTracking small_json (5 ∷ []) server alone
unfolding has_service
alone-IsTracking = record { ports = refl; distinct = (refl, (λ e. absurd (omega arith)), tt) }

run-IsTracking_example :
    (s : Server small_json) × (l : Ports) × (replies : List Packet) × (run small_json questions []
        server alone
      ≡ ok (some (s, l, replies)))
    × IsTracking small_json (5 ∷ []) s l
    × AllAnswered small_json questions replies
run-IsTracking_example =
    run-IsTracking small_json (5 ∷ []) questions [] server alone alone-IsTracking (
      ((1 ∷ []), 1, question_bytes, refl, λ j s l e. omega arith),
      λ got e. (((1 ∷ []), 1, question_bytes, refl, λ j s l e'. omega arith), λ got' e'. tt),
    )
