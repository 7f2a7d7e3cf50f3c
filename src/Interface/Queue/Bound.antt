-- ===== src/Interface/Queue/Bound.antt =====
-- How long the transmit queue of interface/interface.hpp grows.
use libprotoserial.Prelude.{
  ℕ, ◌+◌, ◌-◌, ◌^◌, ◌≤◌, ◌<◌, ◌≡◌, refl, List, [], ◌∷◌, ◌++◌, true, false, Result, ok, arith,
  length, length-append, >>=-eq-ok, ok-injective, Bool-cases, inl, inr, ◌⊎◌, ap,
}
use libprotoserial.Bytes.{Bytes}
use libprotoserial.Interface.Fragment.{Fragment, complete}
use libprotoserial.Interface.Queue.{
  Interface, Serialized, Turn, Call, transmits, runs, is_writable, is_accepted, transmit,
  transmit_front, main_task, step, run, writable_count, Event,
}

-- One more than the size that the constructor is given.
pub record IsBounded (i : Interface) : Type 0 where
  pub bound : length i.tx_queue ≤ i.max_queue_size + 1

pub transmit_front-IsBounded :
    (t : Turn) (i : Interface) (q : List Serialized)
    → q ≡ i.tx_queue
    → IsBounded i
    → IsBounded (transmit_front t q i).0
unfolding transmit_front
transmit_front-IsBounded t i [] e b = b
transmit_front-IsBounded t i (s ∷ rest) e b = ground arith

main_task-IsBounded : (t : Turn) (i : Interface) → IsBounded i → IsBounded (main_task t i).0
unfolding main_task
main_task-IsBounded t i b =
    transmit_front-IsBounded t (record i { bytes_rxed = _ }) i.tx_queue refl
      (record { bound = b.bound })

module _ (serialize_fragment : Fragment → Result Bytes) (max_data_size : ℕ) where
  -- The two outcomes of `transmit` that are no error.
  pub transmit_cases :
      (p : Fragment) (i : Interface) {i' : Interface}
      → transmit serialize_fragment max_data_size p i ≡ ok i'
      → ((is_accepted max_data_size i p ≡ false) × (i' ≡ i))
        ⊎ ((is_accepted max_data_size i p ≡ true)
            × (b : Bytes) × (i' ≡ record i {
              tx_queue = i.tx_queue ++ (record { bytes = b; id = p.meta.object_id } ∷ []);
            }))
  unfolding transmit
  transmit_cases p i e = elim (Bool-cases (is_accepted max_data_size i p)) [
    | inr refused ↦ inl (refused, ground arith)
    | inl accepted ↦
        let (b, _, q) =
          >>=-eq-ok (serialize_fragment (complete i.address i.interface_id p)) _
            (rw (transmit, accepted) at e) in
        inr (accepted, b, cc)
  ]

  transmit-IsBounded :
      (p : Fragment) (i : Interface) {i' : Interface}
      → IsBounded i
      → transmit serialize_fragment max_data_size p i ≡ ok i'
      → IsBounded i'
  unfolding is_accepted is_writable
  transmit-IsBounded p i {i'} b e = pick (transmit_cases p i e)
    where
      pick :
          ((is_accepted max_data_size i p ≡ false) × (i' ≡ i))
            ⊎ ((is_accepted max_data_size i p ≡ true)
                × (b : Bytes) × (i' ≡ record i {
                  tx_queue = i.tx_queue ++ (record { bytes = b; id = p.meta.object_id } ∷ []);
                }))
          → IsBounded i'
      pick (inl (_, q)) = rw q b
      pick (inr (accepted, d, q)) = rw q (record {
        bound =
            ground
              (arith, length-append i.tx_queue (record { bytes = d; id = p.meta.object_id } ∷ []));
      })

  step-IsBounded :
      (c : Call) (i : Interface) {i' : Interface} {es : List Event}
      → IsBounded i
      → step serialize_fragment max_data_size c i ≡ ok (i', es)
      → IsBounded i'
  unfolding step
  step-IsBounded (transmits p) i {i'} {es} b e =
      let (j, e', q) = >>=-eq-ok (transmit serialize_fragment max_data_size p i) _ e in
      let same : j ≡ i' = ap (λ (r : Interface × List Event). r.0) (ok-injective q) in
      transmit-IsBounded p i b (rw same at e')
  step-IsBounded (runs t) i {i'} {es} b e =
      let same : (main_task t i).0 ≡ i' =
        ap (λ (r : Interface × List Event). r.0) (ok-injective e) in
      rw (← same) (main_task-IsBounded t i b)

  -- Whatever is transmitted and whenever the main task runs, a queue that holds at most one
  -- fragment more than its limit, and a run that does not throw, leave such a queue.
  pub run-IsBounded :
      (cs : List Call) (i : Interface) {i' : Interface} {es : List Event}
      → IsBounded i
      → run serialize_fragment max_data_size cs i ≡ ok (i', es)
      → IsBounded i'
  unfolding run
  run-IsBounded [] i {i'} {es} b e =
      rw (← ap (λ (r : Interface × List Event). r.0) (ok-injective e)) b
  run-IsBounded (c ∷ cs) i {i'} {es} b e =
      let (r, e₁, q) = >>=-eq-ok (step serialize_fragment max_data_size c i) _ e in
      let (r', e₂, q') = >>=-eq-ok (run serialize_fragment max_data_size cs r.0) _ q in
      rw (← ap (λ (x : Interface × List Event). x.0) (ok-injective q'))
        (run-IsBounded cs r.0 (step-IsBounded c i b e₁) e₂)

  -- The limit itself is passed: a full queue takes one more fragment that is accepted, and
  -- `writable_count` wraps.
  pub transmit_at_limit :
      (p : Fragment) (i : Interface) {i' : Interface}
      → length i.tx_queue ≡ i.max_queue_size
      → i.max_queue_size < 2 ^ 32 - 1
      → is_accepted max_data_size i p ≡ true
      → transmit serialize_fragment max_data_size p i ≡ ok i'
      → (length i'.tx_queue ≡ i.max_queue_size + 1) × (writable_count i' ≡ 2 ^ 32 - 1)
  unfolding writable_count
  transmit_at_limit p i {i'} full small good e = pick (transmit_cases p i e)
    where
      pick :
          ((is_accepted max_data_size i p ≡ false) × (i' ≡ i))
            ⊎ ((is_accepted max_data_size i p ≡ true)
                × (b : Bytes) × (i' ≡ record i {
                  tx_queue = i.tx_queue ++ (record { bytes = b; id = p.meta.object_id } ∷ []);
                }))
          → (length i'.tx_queue ≡ i.max_queue_size + 1) × (writable_count i' ≡ 2 ^ 32 - 1)
      pick (inl (bad, _)) = cc
      pick (inr (_, d, q)) =
          let n = length-append i.tx_queue (record { bytes = d; id = p.meta.object_id } ∷ []) in
          rw q (omega arith, omega arith)
