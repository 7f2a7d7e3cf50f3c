-- ===== src/Interface/Queue/Drain.antt =====
-- The transmit queue of interface/interface.hpp empties in the turns of a ready transmitter.
use libprotoserial.Prelude.{
  ℕ, suc, ap, ◌≤◌, ◌≡◌, refl, List, [], ◌∷◌, ◌++◌, true, Result, ok, length, arith,
}
use libprotoserial.Interface.Fragment.{Fragment}
use libprotoserial.Bytes.{Bytes}
use libprotoserial.Interface.Queue.{
  Interface, Serialized, Event, Turn, Call, runs, main_task, transmit_front, step, run,
}

-- Turns in which the transmitter is ready.
abbrev pub AreReady : List Turn → Type 0
AreReady [] = Unit {0}
AreReady (t ∷ ts) = (t.can_transmit ≡ true) × AreReady ts

abbrev pub all_run : List Turn → List Call
all_run [] = []
all_run (t ∷ ts) = runs t ∷ all_run ts

-- A ready turn takes the front off the queue.
main_task-tail :
    (t : Turn) (i : Interface) (s : Serialized) (rest : List Serialized)
    → t.can_transmit ≡ true
    → i.tx_queue ≡ s ∷ rest
    → (main_task t i).0.tx_queue ≡ rest
unfolding main_task transmit_front
main_task-tail t i s rest ready front = rw (front, ready) refl

main_task-nothing : (t : Turn) (i : Interface) → i.tx_queue ≡ [] → (main_task t i).0.tx_queue ≡ []
unfolding main_task transmit_front
main_task-nothing t i empty = rw empty refl

main_task-length :
    (t : Turn) (i : Interface) (k : ℕ)
    → t.can_transmit ≡ true
    → length i.tx_queue ≤ suc k
    → length (main_task t i).0.tx_queue ≤ k
main_task-length t i k ready h = cases i.tx_queue refl
  where
    cases : (q : List Serialized) → i.tx_queue ≡ q → length (main_task t i).0.tx_queue ≤ k
    cases [] e = rw (main_task-nothing t i e) (omega arith)
    cases (s ∷ rest) e = rw (main_task-tail t i s rest ready e) (omega (arith, ap length e))

-- As many turns of a ready transmitter as there are fragments in the queue empty it, whatever they
-- receive and whatever `do_transmit` answers, and nothing fails.
pub run-AreReady :
    (serialize_fragment : Fragment → Result Bytes) (max_data_size : ℕ) (ts : List Turn)
    (i : Interface)
    → AreReady ts
    → length i.tx_queue ≤ length ts
    → (i' : Interface) × (es : List Event) × (run serialize_fragment max_data_size (all_run ts) i
        ≡ ok (i', es))
      × (i'.tx_queue ≡ [])
unfolding run step
run-AreReady serialize max [] i ready h = (i, [], refl, none_left i.tx_queue h)
  where
    none_left : (q : List Serialized) → length q ≤ 0 → q ≡ []
    none_left [] h = refl
    none_left (s ∷ rest) h = absurd (omega arith)
run-AreReady serialize max (t ∷ ts) i ready h =
    let (i', es, e, empty) =
      run-AreReady serialize max ts (main_task t i).0 ready.1
        (main_task-length t i (length ts) ready.0 h) in
    (i', (main_task t i).1 ++ es, rw e refl, empty)
