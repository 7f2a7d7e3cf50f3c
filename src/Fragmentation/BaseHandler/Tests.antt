-- ===== src/Fragmentation/BaseHandler/Tests.antt =====
-- The handlers of fragmentation/base_handler.hpp and fragmentation/bypass_handler.hpp on two
-- transfers.
use libprotoserial.Prelude.{ℕ, ◌≡◌, List, [], ◌∷◌, Bool, true, none, some, ok, ◌==◌}
use libprotoserial.Bytes.Layout.{laid_out}
use libprotoserial.Interface.Fragment.{uart}
use libprotoserial.Fragmentation.Transfer.{Transfer}
use libprotoserial.Fragmentation.TransferHandler.{TransferHandler, of_transfer}
use libprotoserial.Fragmentation.BaseHandler.{select, do_main}
use libprotoserial.Fragmentation.BaseHandler.Choose.{Chosen, select-Chosen, do_main-hangs}

abbrev data_bytes : List ℕ
data_bytes = 7 ∷ 8 ∷ 9 ∷ []

abbrev transfer : ℕ → Transfer
transfer id = record {
  meta = record {
    fragment = record {
      object_id = id;
      timestamp_creation = 0;
      interface_id = record { identifier = uart; inst = 0 };
      source = 0;
      destination = 2;
    };
    id = id;
    prev_id = 0;
  };
  payload = laid_out 0 data_bytes 0;
}

abbrev handlers : List TransferHandler
handlers = of_transfer (transfer 4) 2 0 ∷ of_transfer (transfer 5) 2 0 ∷ []

abbrev has_id : ℕ → TransferHandler → Bool
has_id id h = h.transfer.meta.id == id

abbrev by_id : TransferHandler → ℕ
by_id h = h.transfer.meta.id

abbrev always : TransferHandler → Bool
always h = true

select-Chosen_example : Chosen by_id always handlers (select by_id always none handlers)
select-Chosen_example = select-Chosen by_id always handlers

do_main-hangs_example :
    (do_main by_id always 9 true 6 4 1 handlers ≡ ok none)
    × (do_main by_id always 10 true 6 4 1 [] ≡ ok (some ([], [])))
do_main-hangs_example =
    do_main-hangs by_id always 9 6 4 1 true (of_transfer (transfer 4) 2 0)
      (of_transfer (transfer 5) 2 0 ∷ [])
