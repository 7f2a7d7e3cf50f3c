-- ===== src/Simulation/Exchange.antt =====
-- Two `virtual_interface` of interface/testing/virtual.hpp on a `fullduplex` wire of
-- testing/simulation.hpp, as the simulation in tests/tests.cpp connects them.
use libprotoserial.Prelude.{
  ℕ, zero, suc, ◌+◌, ◌%◌, ◌^◌, ◌<◌, ◌≤◌, ◌≡◌, refl, ap, ◌∙◌, List, [], ◌∷◌, Option, none, some,
  Result, ok, ◌>>=◌, get_elem?, length, replicate, arith,
}
use libprotoserial.Bytes.{Bytes}
use libprotoserial.Bytes.Layout.{Represents}
use libprotoserial.Bytes.Spec.{window-Represents}
use libprotoserial.Interface.Fragment.{Fragment, complete}
use libprotoserial.Interface.Header.{header_of}
use libprotoserial.Interface.Footer.{HashAlgorithm}
use libprotoserial.Interface.Frame.{preamble}
use libprotoserial.Interface.Frame.Serialize.{frame, length-frame}
use libprotoserial.Interface.Queue.{Event, transmit_began, put_received}
use libprotoserial.Observer.{Subject, emit}
use libprotoserial.Devices.{put_all, with_rx}
use libprotoserial.Devices.Virtual.{
  Virtual, transmit, process_and_get_serialized, put_single_serialized, put_serialized,
}
use libprotoserial.Devices.Virtual.Link.{
  IsQuiet, Sendable, wire_header, sent-IsFindable, transmit_out, takes_in, process-main_task,
}
use libprotoserial.Simulation.{
  Endpoint, tick, put, put_from, push_all, run, act, dispatch, dispatch_one, with_owner,
}

-- Every byte that an endpoint is handed goes to the interface.
abbrev pub listening : Subject ℕ Virtual
listening = record { callback = put_single_serialized; id = 1 } ∷ []

abbrev pub end : Virtual → List ℕ → Endpoint Virtual
end v l = record { receive_event = listening; queue = l; owner = v }

abbrev pub given : List ℕ → Virtual → Virtual
given l v = record v {
  device = record (v.device) { parser = with_rx (put_all l v.device.parser.rx) v.device.parser };
}

-- As many calls of `dispatch` as there are bytes hand them all out.
run-tick :
    (k : ℕ) (l : List ℕ) (a b : Virtual)
    → length l ≤ k
    → run (replicate k tick) (end a [] ∷ end b l ∷ []) ≡ end a [] ∷ end (given l b) [] ∷ []
unfolding run act dispatch dispatch_one put_all emit put_single_serialized
run-tick zero [] a b h = refl
run-tick zero (x ∷ l) a b h = absurd (omega arith)
run-tick (suc k) [] a b h = run-tick k [] a b (omega arith)
run-tick (suc k) (x ∷ l) a b h = run-tick k l a (put_single_serialized x b) (omega arith)

put_serialized_lem :
    {w : Bytes} {l : List ℕ} (b : Virtual) → Represents w l → put_serialized w b ≡ ok (given l b)
unfolding put_serialized
put_serialized_lem b r = rw (window-Represents r) refl

put_front :
    {w : Bytes} {l : List ℕ} (origin : ℕ) (a b : Virtual)
    → Represents w l
    → origin ≡ 0
    → put origin w (end a [] ∷ end b [] ∷ []) ≡ ok (end a [] ∷ end b l ∷ [])
unfolding put put_from push_all
put_front origin a b r own = rw (window-Represents r, own) refl

module _ (alg : HashAlgorithm) where
  -- One round of the thread of the interface at an endpoint, whose instance is its index; nothing
  -- means that there is no such endpoint, or that the main task ran out of rounds.
  pub thread_round :
      ℕ → ℕ → ℕ → List (Endpoint Virtual) → Result (Option (List (Endpoint Virtual) × List Event))
  thread_round i id now es = elim (get_elem? es i) [
    | none ↦ ok none
    | some e ↦ process_and_get_serialized alg id now e.owner >>= λ r. elim r [
      | none ↦ ok none
      | some (v, events, none) ↦ ok (some (with_owner i v es, events))
      | some (v, events, some b) ↦
          put v.device.iface.interface_id.inst b (with_owner i v es) >>= λ es'.
          ok (some (es', events))
    ]
  ]

  -- Two quiet interfaces on a wire that carries nothing, at the endpoints of their instances.
  module _ (id now id' now' : ℕ) where
    -- A fragment that a quiet interface transmits is announced in the next round of its thread, and
    -- received with its data by the next round of the other one's, once the wire has handed out as
    -- many bytes as the frame has; both are quiet again, and the wire carries nothing. The first
    -- interface has the instance 0; the fragment can be sent from it to the other one, whose buffer
    -- has fewer than 2 ^ 31 bytes.
    pub thread_round-run :
        {n m : ℕ} (k : ℕ) (p : Fragment) (xs : List ℕ) (a b : Virtual)
        → IsQuiet m a
        → 1 < m
        → IsQuiet n b
        → n < 2 ^ 31
        → Sendable alg n p xs a b
        → a.device.iface.interface_id.inst ≡ 0
        → 6 + length xs + alg.width ≤ k
        → (a₁ a₂ b₂ : Virtual) × (es : List (Endpoint Virtual)) × (c : Bytes) × (transmit alg p a
            ≡ ok a₁)
          × (thread_round 0 id now (end a₁ [] ∷ end b [] ∷ [])
              ≡ ok (some (es, transmit_began p.meta.object_id ∷ [])))
          × (thread_round 1 id' now' (run (replicate k tick) es)
              ≡ ok (
                  some (
                    end a₂ [] ∷ end b₂ [] ∷ [],
                    put_received b.device.iface (record {
                      meta = record {
                        object_id = id';
                        timestamp_creation = now';
                        interface_id = b.device.iface.interface_id;
                        source = a.device.iface.address % 256;
                        destination = p.meta.destination % 256;
                      };
                      payload = c;
                    })
                        ∷ [],
                  )))
          × Represents c xs
          × IsQuiet m a₂
          × IsQuiet n b₂
    unfolding thread_round with_owner header_of complete
    thread_round-run {n} k p xs a b va long vb small v own enough =
        let h = wire_header alg p a in
        let l = preamble ∷ preamble ∷ frame alg h xs in
        let (a₁, a₂, w, e₁, e₂, r, qa, named) =
          transmit_out alg id now id' now' p xs a b va long v in
        let (b₁, b₂, c, e₃, e₄, rc, qb, same, _) =
          takes_in alg id now id' now' b w h xs vb small (sent-IsFindable alg v) r in
        let put_there =
          put_front a₂.device.iface.interface_id.inst a₂ b r (ap (λ i. i.inst) named ∙ own) in
        let all : length l ≤ k = omega (arith, length-frame alg h xs) in
        let there : given l b ≡ b₁ = cc (put_serialized_lem b r, e₃) in
        let received = process-main_task alg id' now' id now b₁ e₄ qb.taken in
        (
          a₁,
          a₂,
          b₂,
          end a₂ [] ∷ end b l ∷ [],
          c,
          e₁,
          rw (e₂, put_there) refl,
          rw (run-tick k l a₂ b all, there, received, same) refl,
          rc,
          qa,
          qb,
        )
