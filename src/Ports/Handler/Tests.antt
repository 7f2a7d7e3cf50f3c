-- ===== src/Ports/Handler/Tests.antt =====
-- `ports_handler` of ports/ports.hpp with two services.
use libprotoserial.Prelude.{
  Bool, List, none, ℕ, ◌≡◌, refl, [], ◌∷◌, true, ok, already_registered, invalid_port, some, arith,
  ◌==◌, ◌||◌,
}
use libprotoserial.Bytes.{Bytes}
use libprotoserial.Bytes.Layout.{Represents, laid_out}
use libprotoserial.Bytes.Spec.{laid_out-Represents}
use libprotoserial.Interface.Fragment.{InterfaceId, uart, same_interface}
use libprotoserial.Fragmentation.Transfer.{TransferMetadata}
use libprotoserial.Ports.Packet.{Packet, of_transfer, renewed, is_transmit_ready}
use libprotoserial.Ports.Handler.{
  Ports, has_service, has_interface, get_free_port, transmit, transfer_receive,
}
use libprotoserial.Ports.Handler.Register.{AllDistinct, FirstFree, get_free_port-FirstFree}
use libprotoserial.Ports.Handler.Table.{
  Call, register, unregister, act, specified, run, IsTable, run-IsTable,
}
use libprotoserial.Ports.Handler.Deliver.{transfer_receive-transmit}

abbrev iid : InterfaceId
iid = record { identifier = uart; inst = 0 }

abbrev ports : Ports
ports = record {
  services = 100 ∷ 44 ∷ [];
  interfaces = iid ∷ [];
  prealloc = record { front = 0; back = 0 };
}

ports-AllDistinct : AllDistinct (100 ∷ 44 ∷ [])
unfolding has_service
ports-AllDistinct = (refl, ground arith, (refl, ground arith, tt))

-- The ports of both services.
abbrev set : ℕ → Bool
set q = (q == 100) || (q == 44)

ports-IsTable : IsTable ports set
unfolding has_service
ports-IsTable = record { distinct = ports-AllDistinct; same = λ q. ground arith }

abbrev calls : List Call
calls =
    register 101
    ∷ register 0
    ∷ register 44
    ∷ unregister 100
    ∷ unregister 7
    ∷ register 100
    ∷ register 101
    ∷ []

-- What the calls throw.
calls_throw :
    (run specified calls set).0
    ≡ none
      ∷ some invalid_port
      ∷ some already_registered
      ∷ none
      ∷ none
      ∷ none
      ∷ some already_registered
      ∷ []
calls_throw = refl

run-IsTable_example :
    ((run act calls ports).0 ≡ (run specified calls set).0)
    × IsTable (run act calls ports).1 (run specified calls set).1
run-IsTable_example = run-IsTable calls ports set ports-IsTable

get_free_port-FirstFree_example :
    (r : ℕ) × (get_free_port ports ≡ some r) × FirstFree 100 (100 ∷ 44 ∷ []) r
get_free_port-FirstFree_example = get_free_port-FirstFree ports

abbrev transfer_meta : TransferMetadata
transfer_meta = record {
  fragment = record {
    object_id = 1;
    timestamp_creation = 0;
    interface_id = iid;
    source = 0;
    destination = 2;
  };
  id = 1;
  prev_id = 0;
}

-- To port 300, which arrives as 44.
abbrev packet : Packet
packet = record {
  meta = record { transfer = transfer_meta; source_port = 100; destination_port = 300 };
  payload = laid_out 3 (6 ∷ 7 ∷ []) 0;
}

packet_ready : is_transmit_ready packet ≡ true
unfolding is_transmit_ready
packet_ready = refl

iid_known : has_interface iid ports.interfaces ≡ true
unfolding has_interface same_interface
iid_known = refl

port_known : has_service 44 ports.services ≡ true
unfolding has_service
port_known = refl

transfer_receive-transmit_example :
    (c d : Bytes) × (transmit 5 100 packet ports
      ≡ ok (some (iid, record { meta = renewed 5 transfer_meta; payload = c })))
    × (transfer_receive 6 (record { meta = transfer_meta; payload = c }) ports
        ≡ ok (some (44, of_transfer (record { meta = transfer_meta; payload = d }) 100 44 6)))
    × Represents d (6 ∷ 7 ∷ [])
transfer_receive-transmit_example =
    transfer_receive-transmit 5 6 100 packet ports ports transfer_meta
      (laid_out-Represents 3 (6 ∷ 7 ∷ []) 0 (omega arith)) (omega arith) packet_ready iid_known
      (ground arith) (ground arith) port_known
