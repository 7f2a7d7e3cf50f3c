-- ===== src/Interface/Queue/Tests.antt =====
-- The transmit queue of interface/interface.hpp on two fragments.
use libprotoserial.Prelude.{ℕ, ◌≡◌, refl, List, [], ◌∷◌, ◌++◌, Result, ok, arith, true}
use libprotoserial.Bytes.{Bytes}
use libprotoserial.Bytes.Layout.{laid_out}
use libprotoserial.Interface.Fragment.{Fragment, uart, complete}
use libprotoserial.Interface.Queue.{
  Interface, Serialized, transmit_began, Turn, Call, transmits, runs, transmit, run, step,
  main_task, transmit_front, Event, is_accepted, is_writable,
}
use libprotoserial.Interface.Queue.Bound.{IsBounded, run-IsBounded}
use libprotoserial.Interface.Queue.Drain.{run-AreReady, all_run}
use libprotoserial.Interface.Queue.Order.{queued, began, accepts_run, run_order}

abbrev plain : Fragment → Result Bytes
plain p = ok p.payload

abbrev message : ℕ → Fragment
message id = record {
  meta = record {
    object_id = id;
    timestamp_creation = 0;
    interface_id = record { identifier = uart; inst = 0 };
    source = 0;
    destination = 3;
  };
  payload = laid_out 0 (id ∷ []) 0;
}

abbrev turn : Turn
turn = record { received = []; loaded = 0; can_transmit = true; do_transmit = λ b. true }

abbrev calls : List Call
calls = transmits (message 1) ∷ transmits (message 2) ∷ runs turn ∷ []

-- An interface of address 7 for one fragment, and what the calls leave of it.
abbrev empty : Interface
empty = record {
  tx_queue = [];
  bytes_txed = 0;
  bytes_rxed = 0;
  max_queue_size = 1;
  interface_id = record { identifier = uart; inst = 0 };
  address = 7;
  broadcast_address = 255;
}

abbrev entry : ℕ → Serialized
entry id = record { bytes = laid_out 0 (id ∷ []) 0; id = id }

abbrev one_left : Interface
one_left = record empty { tx_queue = entry 2 ∷ []; bytes_txed = 1 }

run-calls : run plain 60 calls empty ≡ ok (one_left, transmit_began 1 ∷ [])
unfolding run step main_task transmit_front transmit is_accepted is_writable complete
run-calls = refl

run-IsBounded_example : IsBounded one_left
run-IsBounded_example = run-IsBounded plain 60 calls empty (omega arith) run-calls

run_order_example :
    began (transmit_began 1 ∷ []) ++ queued one_left
    ≡ queued empty ++ accepts_run plain 60 calls empty
run_order_example = run_order plain 60 calls empty (tt, (tt, ((λ b. refl), tt))) run-calls

abbrev full : Interface
full = record empty { tx_queue = entry 1 ∷ [] }

accepted : is_accepted 60 full (message 2) ≡ true
unfolding is_accepted is_writable
accepted = refl

one_more :
    transmit plain 60 (message 2) full ≡ ok (record full { tx_queue = entry 1 ∷ entry 2 ∷ [] })
unfolding transmit is_accepted is_writable complete
one_more = refl

run-AreReady_example :
    (i : Interface) × (es : List Event) × (run plain 60 (all_run (turn ∷ turn ∷ [])) one_left
      ≡ ok (i, es))
    × (i.tx_queue ≡ [])
run-AreReady_example =
    run-AreReady plain 60 (turn ∷ turn ∷ []) one_left (refl, (refl, tt)) (omega arith)
