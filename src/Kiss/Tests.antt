-- ===== src/Kiss/Tests.antt =====
-- The protocol of utils/kiss_protocol.hpp between two devices.
use libprotoserial.Prelude.{
  true, ◌⊎◌, ◌==◌, if◌then◌else◌, ℕ, ◌+◌, ◌%◌, ◌≡◌, refl, List, [], ◌∷◌, ok, err, overrun, arith,
}
use libprotoserial.Bytes.{Bytes}
use libprotoserial.Bytes.Layout.{Represents, laid_out}
use libprotoserial.Bytes.Spec.{laid_out-Represents}
use libprotoserial.Interface.Fragment.{FragmentMetadata, uart}
use libprotoserial.Kiss.{Kiss, DataHandle, transmits, receives, transmit, receive, main_task}
use libprotoserial.Kiss.Exchange.{exchange, pending, packets_of, main_task_overruns}

abbrev meta : ℕ → FragmentMetadata
meta source = record {
  object_id = 1;
  timestamp_creation = 0;
  interface_id = record { identifier = uart; inst = 0 };
  source = source;
  destination = 9;
}

abbrev device : Kiss
device = record {
  packet_list = [];
  retries_max = 3;
  retry_holdoff = 10;
  default_addr = 2;
  ping_holdoff = 0;
  last_transmitted = 0;
  last_received = 0;
  id_counter = 255;
  prealloc = record { front = 6; back = 4 };
}

abbrev data_bytes : List ℕ
data_bytes = 7 ∷ 8 ∷ []

abbrev used_up : DataHandle
used_up = record {
  type = 5;
  id = 1;
  payload = laid_out 0 data_bytes 0;
  addr = 2;
  retries = 3;
  sent_at = 30;
}

-- A sender for which a packet waits already.
abbrev sender : Kiss
sender = record device { packet_list = used_up ∷ [] }

exchange_example :
    (s' s'' : Kiss) × (frame ack d : Bytes) × (p : DataHandle) × (transmit 20 3
        (laid_out 0 data_bytes 0)
        sender
      ≡ ok (s', transmits 2 frame ∷ []))
    × (s'.packet_list ≡ used_up ∷ p ∷ [])
    × (p.id ≡ (255 + 1) % 256)
    × (p.payload ≡ laid_out 0 data_bytes 0)
    × (p.type ≡ 3 + 5)
    × (receive (record { meta = meta 1; payload = frame }) 21 device
        ≡ ok (
          record device { last_received = 21; last_transmitted = 21 },
          transmits 1 ack ∷ receives 3 d ∷ [],
        ))
    × Represents d data_bytes
    × (receive (record { meta = meta 2; payload = ack }) 21 s' ≡ ok (s'', []))
    × ((other : ℕ)
        → packets_of other s''.packet_list
          ≡ (if other == (255 + 1) % 256 then [] else packets_of other (used_up ∷ [])))
    × ((pending ((255 + 1) % 256) (used_up ∷ []) ≡ true) ⊎ (s''.packet_list ≡ used_up ∷ []))
exchange_example =
    exchange 20 21 3 sender device (meta 1) (meta 2) (laid_out 0 data_bytes 0)
      (laid_out-Represents 0 data_bytes 0 (omega arith)) (omega arith) (omega arith)

main_task_overruns_lem : main_task 40 sender ≡ err overrun
main_task_overruns_lem = main_task_overruns 40 sender used_up refl (omega arith) (omega arith)
