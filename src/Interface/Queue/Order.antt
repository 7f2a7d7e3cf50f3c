-- ===== src/Interface/Queue/Order.antt =====
-- The transmit queue of interface/interface.hpp is a queue: what it takes leaves in order.
use libprotoserial.Prelude.{
  ℕ, ◌+◌, ◌%◌, ◌^◌, ◌≡◌, refl, ap, sym, ◌∙◌, List, [], ◌∷◌, ◌++◌, map, true, false, Result, ok, err,
  arith, append-nil, append_assoc, inl, inr, ◌⊎◌, >>=-eq-ok, ok-injective, if◌then◌else◌,
}
use mathlib.Core.List.{map-append}
use libprotoserial.Bytes.{Bytes}
use libprotoserial.Interface.Fragment.{Fragment}
use libprotoserial.Interface.Queue.{
  Interface, Serialized, Event, receive, broadcast_receive, other_receive, transmit_began, Turn,
  Call, transmits, runs, is_accepted, transmit, transmit_front, main_task, step, run, put_received,
}
use libprotoserial.Interface.Queue.Bound.{transmit_cases}

-- The identifiers of the fragments that wait.
abbrev pub queued : Interface → List ℕ
queued i = map (λ (s : Serialized). s.id) i.tx_queue

-- The identifiers whose transmission began.
abbrev pub began : List Event → List ℕ
began [] = []
began (transmit_began id ∷ es) = id ∷ began es
began (receive _ ∷ es) = began es
began (broadcast_receive _ ∷ es) = began es
began (other_receive _ ∷ es) = began es

-- The transmitter does not fail.
abbrev pub IsReliable : Call → Type 0
IsReliable (transmits p) = Unit {0}
IsReliable (runs t) = (b : Bytes) → t.do_transmit b ≡ true

abbrev pub AllReliable : List Call → Type 0
AllReliable [] = Unit {0}
AllReliable (c ∷ cs) = IsReliable c × AllReliable cs

began-append : (es fs : List Event) → began (es ++ fs) ≡ began es ++ began fs
began-append [] fs = refl
began-append (transmit_began id ∷ es) fs = ap (◌∷◌ id) (began-append es fs)
began-append (receive _ ∷ es) fs = began-append es fs
began-append (broadcast_receive _ ∷ es) fs = began-append es fs
began-append (other_receive _ ∷ es) fs = began-append es fs

-- Reception begins no transmission.
began_received : (i : Interface) (ps : List Fragment) → began (map (put_received i) ps) ≡ []
unfolding put_received
began_received i [] = refl
began_received i (p ∷ ps) = ground (arith, began_received i ps)

transmit_front_order :
    (t : Turn) (i : Interface) (q : List Serialized)
    → ((b : Bytes) → t.do_transmit b ≡ true)
    → q ≡ i.tx_queue
    → began (transmit_front t q i).1 ++ queued (transmit_front t q i).0 ≡ queued i
unfolding transmit_front
transmit_front_order t i [] h e = refl
transmit_front_order t i (s ∷ rest) h e = ground (arith, h s.bytes)

module _ (serialize_fragment : Fragment → Result Bytes) (max_data_size : ℕ) where
  -- The identifiers that a call, and a list of calls, put into the queue.
  abbrev pub accepts : Call → Interface → List ℕ
  accepts (transmits p) i = if is_accepted max_data_size i p then p.meta.object_id ∷ [] else []
  accepts (runs t) i = []

  pub accepts_run : List Call → Interface → List ℕ
  accepts_run [] i = []
  accepts_run (c ∷ cs) i = elim (step serialize_fragment max_data_size c i) [
    | ok (i', es) ↦ accepts c i ++ accepts_run cs i'
    | err e ↦ []
  ]

  accepts_run-nil : (i : Interface) → accepts_run [] i ≡ []
  unfolding accepts_run
  accepts_run-nil i = refl

  accepts_run-cons :
      (c : Call) (cs : List Call) (i : Interface) (r : Interface × List Event)
      → step serialize_fragment max_data_size c i ≡ ok r
      → accepts_run (c ∷ cs) i ≡ accepts c i ++ accepts_run cs r.0
  unfolding accepts_run
  accepts_run-cons c cs i r e = rw (e, accepts_run)

  transmit_order :
      (p : Fragment) (i : Interface) {i' : Interface}
      → transmit serialize_fragment max_data_size p i ≡ ok i'
      → queued i' ≡ queued i ++ accepts (transmits p) i
  transmit_order p i {i'} e = pick (transmit_cases serialize_fragment max_data_size p i e)
    where
      pick :
          ((is_accepted max_data_size i p ≡ false) × (i' ≡ i))
            ⊎ ((is_accepted max_data_size i p ≡ true)
                × (b : Bytes) × (i' ≡ record i {
                  tx_queue = i.tx_queue ++ (record { bytes = b; id = p.meta.object_id } ∷ []);
                }))
          → queued i' ≡ queued i ++ accepts (transmits p) i
      pick (inl (refused, q)) = rw (q, refused) (sym (append-nil (queued i)))
      pick (inr (accepted, b, q)) =
          rw (q, accepted)
            (map-append (λ (s : Serialized). s.id) i.tx_queue
              (record { bytes = b; id = p.meta.object_id } ∷ []))

  main_task_order :
      (t : Turn) (i : Interface)
      → ((b : Bytes) → t.do_transmit b ≡ true)
      → began (main_task t i).1 ++ queued (main_task t i).0 ≡ queued i
  unfolding main_task
  main_task_order t i h =
      let i₁ = record i { bytes_rxed = (i.bytes_rxed + t.loaded) % 2 ^ 64 } in
      let (i₂, es) = transmit_front t i.tx_queue i₁ in
      rw (began-append (map (put_received i) t.received) es, began_received i t.received)
        (transmit_front_order t i₁ i.tx_queue h refl)

  step_order :
      (c : Call) (i : Interface) {i' : Interface} {es : List Event}
      → IsReliable c
      → step serialize_fragment max_data_size c i ≡ ok (i', es)
      → began es ++ queued i' ≡ queued i ++ accepts c i
  unfolding step
  step_order (transmits p) i {i'} {es} h e =
      let (j, e', q) = >>=-eq-ok (transmit serialize_fragment max_data_size p i) _ e in
      let pair = ok-injective q in
      let same : j ≡ i' = ap (λ (r : Interface × List Event). r.0) pair in
      let quiet : [] ≡ es = ap (λ (r : Interface × List Event). r.1) pair in
      rw (← quiet, ← same) (transmit_order p i e')
  step_order (runs t) i {i'} {es} h e =
      let pair = ok-injective e in
      let same : (main_task t i).0 ≡ i' = ap (λ (r : Interface × List Event). r.0) pair in
      let events : (main_task t i).1 ≡ es = ap (λ (r : Interface × List Event). r.1) pair in
      rw (← events, ← same) (main_task_order t i h ∙ sym (append-nil (queued i)))

  -- With a transmitter that does not fail, and in a run that does not throw, the fragments that
  -- began to be transmitted, followed by those that still wait, are those that waited at first,
  -- followed by those accepted since, in order.
  pub run_order :
      (cs : List Call) (i : Interface) {i' : Interface} {es : List Event}
      → AllReliable cs
      → run serialize_fragment max_data_size cs i ≡ ok (i', es)
      → began es ++ queued i' ≡ queued i ++ accepts_run cs i
  unfolding run
  run_order [] i {i'} {es} h e =
      let pair = ok-injective e in
      let same : i ≡ i' = ap (λ (r : Interface × List Event). r.0) pair in
      let events : [] ≡ es = ap (λ (r : Interface × List Event). r.1) pair in
      rw (← events, ← same, accepts_run-nil i) (sym (append-nil (queued i)))
  run_order (c ∷ cs) i {i'} {es} h e =
      let (r, e₁, q) = >>=-eq-ok (step serialize_fragment max_data_size c i) _ e in
      let (r', e₂, q') = >>=-eq-ok (run serialize_fragment max_data_size cs r.0) _ q in
      let pair = ok-injective q' in
      let same : r'.0 ≡ i' = ap (λ (x : Interface × List Event). x.0) pair in
      let events : r.1 ++ r'.1 ≡ es = ap (λ (x : Interface × List Event). x.1) pair in
      let first = step_order c i h.0 e₁ in
      let rest = run_order cs r.0 h.1 e₂ in
      rw (
        ← same,
        ← events,
        began-append r.1 r'.1,
        append_assoc,
        rest,
        ← append_assoc,
        first,
        append_assoc,
        accepts_run-cons c cs i r e₁,
      )
