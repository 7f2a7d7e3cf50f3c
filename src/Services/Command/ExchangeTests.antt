-- ===== src/Services/Command/ExchangeTests.antt =====
-- A command of services/command_client.hpp that a server of services/command_server.hpp runs, with
-- JSON values that are lists of bytes in the place of jsoncons.
use libprotoserial.Prelude.{
  Result, err, ap, sym, subst, ◌∙◌, ◌^◌, ℕ, zero, suc, ◌%◌, ◌<◌, ◌≡◌, refl, List, [], ◌∷◌, ◌++◌,
  true, Option, none, some, ok, length, take, drop, take-append, drop-append, length-append,
  list_eq, if◌then◌else◌, arith,
}
use libprotoserial.Bytes.Layout.{Represents, laid_out}
use libprotoserial.Bytes.Spec.{laid_out-Represents}
use libprotoserial.Interface.Fragment.{InterfaceId, uart, same_interface}
use libprotoserial.Fragmentation.Transfer.{Transfer, TransferMetadata}
use libprotoserial.Ports.Packet.{Packet}
use libprotoserial.Ports.Handler.{Ports, PreallocSize, has_interface, has_service, transfer_receive}
use libprotoserial.Ports.Handler.Register.{FirstFree}
use libprotoserial.Services.{transmit}
use libprotoserial.Services.Command.Json.{JsonLibrary, to_json}
use libprotoserial.Services.Command.{
  Server, Received, receive, lookup, continue, status_member, query_of, asks,
}
use libprotoserial.Services.Command.Balance.{Balanced, IsShort, answer-asks, receive-Balanced}
use libprotoserial.Services.Command.Client.{Client, Sent, send_command, query}
use libprotoserial.Services.Command.Client
use libprotoserial.Services.Command.Exchange.{
  JsonLaws, member, Connected, answer_of, command_exchange, query_of-query,
}

-- Each member is its name and its value, with their lengths in front.
abbrev members : List (List ℕ × List ℕ) → List ℕ
members [] = []
members ((k, v) ∷ rest) = length k ∷ (k ++ (length v ∷ (v ++ members rest)))

-- The value behind a key, or what is found after it.
value_in : (List ℕ → Option (List ℕ)) → List ℕ → List ℕ → List ℕ → Option (List ℕ)
value_in later name key [] = none
value_in later name key (m ∷ r) = if list_eq key name then some (take m r) else later (drop m r)

find : ℕ → List ℕ → List ℕ → Option (List ℕ)
find zero name l = none
find (suc fuel) name [] = none
find (suc fuel) name (n ∷ l) = value_in (find fuel name) name (take n l) (drop n l)

abbrev list_json : JsonLibrary
list_json = record {
  Json = List ℕ;
  decode_cbor = λ bytes. some bytes;
  encode_cbor = λ j. j;
  is_object = λ j. true;
  is_array = λ j. true;
  is_string = λ j. true;
  get = λ name j. find (suc (length j)) name j;
  array_size = λ j. 0;
  index = λ i j. [];
  as_string = λ j. j;
  string = λ text. text;
  number = λ i. (i % 256) ∷ [];
  array = λ values. length values ∷ [];
  object = λ ms. members ms;
}

find-members :
    (fuel : ℕ) (name : List ℕ) (ms : List (List ℕ × List ℕ))
    → length (members ms) < fuel
    → find fuel name (members ms) ≡ member list_json name ms
unfolding find member value_in
find-members zero name ms h = absurd (omega arith)
find-members (suc fuel) name [] h = refl
find-members (suc fuel) name ((k, v) ∷ rest) h =
    let tail = v ++ members rest in
    let ih =
      find-members fuel name rest (
        omega (arith, length-append {0} k (length v ∷ tail), length-append {0} v (members rest))) in
    rw
      (
        drop-append (length k) k (length v ∷ tail) refl,
        take-append (length k) k (length v ∷ tail) refl,
        drop-append (length v) v (members rest) refl,
        take-append (length v) v (members rest) refl,
        ih,
      )
      refl

list_json-laws : JsonLaws list_json
list_json-laws = record {
  decode-encode = λ j. refl;
  object-is_object = λ ms. refl;
  get-object = λ name ms. find-members _ name ms (omega arith);
  string-is_string = λ text. refl;
  as_string-string = λ text. refl;
  array-is_array = λ vs. refl;
}

abbrev iid : InterfaceId
iid = record { identifier = uart; inst = 0 }

abbrev no_prealloc : PreallocSize
no_prealloc = record { front = 3; back = 1 }

-- The handlers of the client, at port 9, and of the server, at port 5.
abbrev near : Ports
near = record { services = 9 ∷ []; interfaces = iid ∷ []; prealloc = no_prealloc }

abbrev far : Ports
far = record { services = 5 ∷ []; interfaces = iid ∷ []; prealloc = no_prealloc }

abbrev client : Client
client = record { service = record { port = 9; prealloc = no_prealloc }; connections = [] }

-- The command "7" goes on.
abbrev server : Server list_json
server = record {
  service = record { port = 5; prealloc = no_prealloc };
  cmd_map = ((7 ∷ []), some (λ j. continue)) ∷ [];
  active_cmd = [];
}

abbrev query_meta : TransferMetadata
query_meta = record {
  fragment = record {
    object_id = 3;
    timestamp_creation = 4;
    interface_id = iid;
    source = 77;
    destination = 1;
  };
  id = 6;
  prev_id = 0;
}

known : has_interface iid (iid ∷ []) ≡ true
unfolding has_interface same_interface
known = refl

near-Connected : Connected list_json 5 client near server far query_meta
unfolding has_service
near-Connected = record {
  to_port = λ e. absurd (omega arith);
  from_port = λ e. absurd (omega arith);
  served = refl;
  listened = refl;
  server_port = λ e. absurd (omega arith);
  back_known = known;
  back_address = λ e. absurd (omega arith);
}

command_exchange_example :
    (sent : Sent) × (t : Transfer) × (q : Packet) × (r : Received list_json) × (t' : Transfer)
    × (p : Packet) × (free : ℕ) × (send_command list_json 20 21 22 [] 50 iid 5
          (7 ∷ [])
          []
          client
          near
        ≡ ok (some sent))
    × (sent.transmitted ≡ some (iid, t))
    × (transfer_receive 23 (record { meta = query_meta; payload = t.payload }) far
        ≡ ok (some (5, q)))
    × (receive list_json 24 25 [] q server far ≡ ok (some r))
    × (transmit 26 server.service r.reply r.ports ≡ ok (some (iid, t')))
    × (t'.meta.fragment.destination ≡ 77)
    × (transfer_receive 27 (record { meta = query_meta; payload = t'.payload }) sent.ports
        ≡ ok (some (9, p)))
    × Represents p.payload (answer_of list_json (7 ∷ []) (λ j. continue) [] free)
    × (Client.receive list_json p sent.client ≡ ok sent.client)
    × FirstFree 100 far.services free
    × Balanced list_json server far r.server r.ports
unfolding lookup list_eq query to_json status_member
command_exchange_example =
    command_exchange list_json 20 21 22 23 24 25 26 27 [] [] list_json-laws 50 iid 5 (7 ∷ []) []
      client near server far query_meta query_meta (λ e. absurd (omega arith)) known (omega arith)
      refl near-Connected (λ q. (omega arith, omega arith)) (λ q. (omega arith, omega arith))

-- A query for the command, and the packet that brings it from port 9.
abbrev asked : List ℕ
asked = query list_json (7 ∷ []) [] 100

abbrev question : Packet
question = record {
  meta = record { transfer = query_meta; source_port = 9; destination_port = 5 };
  payload = laid_out 0 asked 0;
}

asked-IsAsked : query_of list_json server asked ≡ asks (7 ∷ []) (some (λ j. continue)) (0 ∷ [])
unfolding lookup list_eq to_json
asked-IsAsked = query_of-query list_json (7 ∷ []) [] 100 server list_json-laws refl

-- The value of an answer.
abbrev value_of : Result (Option (List ℕ × Server list_json × Ports)) → List ℕ
value_of (ok (some (j, s, l))) = j
value_of (ok none) = []
value_of (err e) = []

asked-IsShort : IsShort list_json asked server far
unfolding status_member
asked-IsShort j s l e =
    let (port, s', l', e', _, _) =
      answer-asks list_json (7 ∷ []) (λ j. continue) (0 ∷ []) server far in
    let same : answer_of list_json (7 ∷ []) (λ j. continue) [] port ≡ j =
      ap value_of (sym e' ∙ (rw asked-IsAsked at e)) in
    subst (λ k. length k < 2 ^ 31) same (omega arith)

receive-Balanced_example :
    (r : Received list_json) × (receive list_json 20 21 [] question server far ≡ ok (some r))
    × (r.reply.meta.destination_port ≡ 9)
    × (r.reply.meta.transfer.fragment.destination ≡ 77)
    × Balanced list_json server far r.server r.ports
unfolding query to_json
receive-Balanced_example =
    receive-Balanced list_json 20 21 [] question server far asked asked
      (laid_out-Represents 0 asked 0 (omega arith)) refl asked-IsShort
