-- ===== src/Devices/Virtual/Stream.antt =====
-- Several fragments that wait in one virtual interface of interface/testing/virtual.hpp, and are
-- carried over to another one by their user.
use libprotoserial.Prelude.{
  ℕ, ◌+◌, ◌%◌, ◌^◌, ◌<◌, ◌≤◌, ◌≡◌, refl, ap, sym, ◌∙◌, List, [], ◌∷◌, ◌++◌, append-nil,
  append_assoc, map, Option, none, some, Result, ok, ◌>>=◌, arith, length, length-append,
}
use libprotoserial.Bytes.{Bytes}
use libprotoserial.Bytes.Layout.{Represents}
use libprotoserial.Interface.Fragment.{Fragment, InterfaceId, complete}
use libprotoserial.Interface.Header.{header_of}
use libprotoserial.Interface.Footer.{HashAlgorithm}
use libprotoserial.Interface.Frame.{preamble, serialize_fragment}
use libprotoserial.Interface.Frame.Serialize.{frame, serialize_fragment-Gives}
use libprotoserial.Interface.Queue.{Interface, Event, Serialized, put_received}
use libprotoserial.Interface.Receiver.{max_data_size}
use libprotoserial.Devices.Arrival.{IsIdle}
use libprotoserial.Devices.Turns.{transmit-accepts, put_received-settings}
use libprotoserial.Devices.Virtual.{
  Virtual, transmit, main_task, process_and_get_serialized, put_serialized,
}
use libprotoserial.Devices.Virtual.Link.{
  IsQuiet, IsSame, Sendable, wire_header, sent-IsFindable, hands_out, takes_in,
}

-- A fragment as it comes in from an address.
abbrev pub arrived : ℕ → InterfaceId → ℕ → ℕ → Fragment → Bytes → Fragment
arrived src iid id now p c = record {
  meta = record {
    object_id = id;
    timestamp_creation = now;
    interface_id = iid;
    source = src % 256;
    destination = p.meta.destination % 256;
  };
  payload = c;
}

module _ (alg : HashAlgorithm) where
  -- One `transmit` after the other.
  pub transmit_all : List Fragment → Virtual → Result Virtual
  transmit_all [] a = ok a
  transmit_all (p ∷ ps) a = transmit alg p a >>= transmit_all ps

  -- The user's loop: what one interface hands out is given to the other one, whose main task runs.
  -- There is a round for each identifier and time of the second interface, and the result has its
  -- events.
  pub carry :
      ℕ → ℕ → List (ℕ × ℕ) → Virtual → Virtual → Result (Option (Virtual × Virtual × List Event))
  carry id now [] a b = ok (some (a, b, []))
  carry id now ((id', now') ∷ rest) a b = process_and_get_serialized alg id now a >>= λ r. elim r [
    | none ↦ ok none
    | some (a', es, none) ↦ carry id now rest a' b
    | some (a', es, some w) ↦ put_serialized w b >>= λ b₁. main_task alg id' now' b₁ >>= λ q.
        elim q [
          | none ↦ ok none
          | some (b₂, es') ↦ carry id now rest a' b₂ >>= λ last. elim last [
            | none ↦ ok none
            | some (a'', b'', es'') ↦ ok (some (a'', b'', es' ++ es''))
          ]
        ]
  ]

  abbrev pub AllSendable : ℕ → List (Fragment × List ℕ) → Virtual → Virtual → Type 0
  AllSendable n [] a b = Unit {0}
  AllSendable n ((p, xs) ∷ ps) a b = Sendable alg n p xs a b × AllSendable n ps a b

  -- The events of an interface that receives some fragments in order, from an address.
  abbrev pub AllReceived :
      ℕ → Interface → List (Fragment × List ℕ) → List (ℕ × ℕ) → List Event → Type 0
  AllReceived src i [] times es = es ≡ []
  AllReceived src i (s ∷ ps) [] es = ⊥
  AllReceived src i ((p, xs) ∷ ps) ((id, now) ∷ times) es =
      (c : Bytes) × (es' : List Event) × (es
        ≡ put_received i (arrived src i.interface_id id now p c) ∷ es')
      × Represents c xs
      × AllReceived src i ps times es'

  -- The frames of some fragments, as they wait in the queue.
  abbrev AreFrames : Virtual → List (Fragment × List ℕ) → List Serialized → Type 0
  AreFrames a [] q = q ≡ []
  AreFrames a ((p, xs) ∷ ps) q =
      (s : Serialized) × (rest : List Serialized) × (q ≡ s ∷ rest)
      × Represents s.bytes (preamble ∷ preamble ∷ frame alg (wire_header alg p a) xs)
      × AreFrames a ps rest

  abbrev with_queue : List Serialized → Virtual → Virtual
  with_queue q a = record a {
    device = record (a.device) { iface = record (a.device.iface) { tx_queue = q } };
  }

  transmit_all_lem :
      (n : ℕ) (ps : List (Fragment × List ℕ)) (q : List Serialized) (a b : Virtual)
      → AllSendable n ps a b
      → length q + length ps ≤ a.device.iface.max_queue_size + 1
      → (more : List Serialized) × (transmit_all (map (λ s. s.0) ps) (with_queue q a)
          ≡ ok (with_queue (q ++ more) a))
        × AreFrames a ps more
  unfolding transmit_all transmit complete
  transmit_all_lem n [] q a b v room = ([], rw (append-nil q) refl, refl)
  transmit_all_lem n ((p, xs) ∷ ps) q a b (v, vs) room =
      let i : Interface = record (a.device.iface) { tx_queue = q } in
      let (w, e, r) =
        serialize_fragment-Gives alg (complete i.address i.interface_id p) v.content
          (omega (arith, v.accepted, v.limit)) in
      let entry : Serialized = record { bytes = w; id = p.meta.object_id } in
      let taken =
        transmit-accepts (serialize_fragment alg) (max_data_size alg a.device.parser) p i v.content
          e (omega arith) v.target v.some_bytes v.few in
      let (more, e', frames) =
        transmit_all_lem n ps (q ++ (entry ∷ [])) a b vs
          (omega (arith, length-append {0} q (entry ∷ []))) in
      (
        entry ∷ more,
        rw taken (e' ∙ ap (λ l. ok (with_queue l a)) (append_assoc q (entry ∷ []) more)),
        (entry, more, refl, r, frames),
      )

  IsSame-append : {a b c : Virtual} → IsSame alg a b → IsSame alg b c → IsSame alg a c
  IsSame-append p q = record {
    address = q.address ∙ p.address;
    broadcast = q.broadcast ∙ p.broadcast;
    named = q.named ∙ p.named;
    limit = q.limit ∙ p.limit;
  }

  -- The rounds for the frames that wait at an interface `a` with the settings of `a₀`, towards an
  -- interface `b` with those of `b₀`.
  carry_lem :
      (m n id now : ℕ) (ps : List (Fragment × List ℕ)) (times : List (ℕ × ℕ)) (q : List Serialized)
      (a₀ b₀ a b : Virtual)
      → IsIdle m a.device.parser
      → 1 < m
      → a.device.iface.tx_queue ≡ q
      → a.serialized ≡ []
      → AreFrames a₀ ps q
      → IsQuiet n b
      → n < 2 ^ 31
      → AllSendable n ps a₀ b₀
      → IsSame alg b₀ b
      → length times ≡ length ps
      → (a' b' : Virtual) × (es : List Event) × (carry id now times a b ≡ ok (some (a', b', es)))
        × AllReceived a₀.device.iface.address b₀.device.iface ps times es
        × IsQuiet m a'
        × IsQuiet n b'
  unfolding carry header_of complete
  carry_lem m n id now [] [] q a₀ b₀ a b va long wait none_left frames vb small vs same whole =
      (a, b, [], refl, refl, record { idle = va; empty = wait ∙ frames; taken = none_left }, vb)
  carry_lem m n id now [] (t ∷ times) q a₀ b₀ a b va long wait none_left frames vb small vs same
        whole =
      absurd (omega arith)
  carry_lem m n id now (s ∷ ps) [] q a₀ b₀ a b va long wait none_left frames vb small vs same
        whole =
      absurd (omega arith)
  carry_lem m n id now ((p, xs) ∷ ps) ((id', now') ∷ times) q a₀ b₀ a b va long wait none_left
        (s, rest, front, r, frames) vb small (v, vs) same whole =
      let h = wire_header alg p a₀ in
      let (a', e₁, parser, wait', none_left', _) =
        hands_out alg id now id' now' a va long (wait ∙ front) none_left in
      let (b₁, b₂, c, e₂, e₃, rc, qb, iface, same') =
        takes_in alg id now id' now' b s.bytes h xs vb small (rw same.limit (sent-IsFindable alg v))
          r in
      let (a'', b'', es, e₄, received, qa, qb') =
        carry_lem m n id now ps times rest a₀ b₀ a' b₂ (rw parser va) long wait' none_left' frames
          qb small vs (IsSame-append same same') (omega arith) in
      let src = a₀.device.iface.address in
      let event =
        put_received-settings b₁.device.iface b₀.device.iface
          (arrived src b.device.iface.interface_id id' now' p c)
          (ap (λ i. i.address) iface ∙ same.address)
          (ap (λ i. i.broadcast_address) iface ∙ same.broadcast)
        ∙ ap (λ iid. put_received b₀.device.iface (arrived src iid id' now' p c)) same.named in
      (
        a'',
        b'',
        put_received b₁.device.iface (arrived src b.device.iface.interface_id id' now' p c) ∷ es,
        rw (e₁, e₂, e₃, e₄) refl,
        (c, es, ap (λ event. event ∷ es) event, rc, received),
        qa,
        qb',
      )

  -- The fragments that an interface takes at once are received in order by another one, each with
  -- its data and the low bytes of its addresses, in as many rounds of carrying over as there are
  -- fragments. Both interfaces are quiet at first and at last; each fragment can be sent from the
  -- one to the other, they are at most one more than the queue's limit, and the buffer has fewer
  -- than 2 ^ 31 bytes.
  pub carry-transmit_all :
      (m n id now : ℕ) (ps : List (Fragment × List ℕ)) (times : List (ℕ × ℕ)) (a b : Virtual)
      → IsQuiet m a
      → 1 < m
      → IsQuiet n b
      → n < 2 ^ 31
      → AllSendable n ps a b
      → length ps ≤ a.device.iface.max_queue_size + 1
      → length times ≡ length ps
      → (a₁ a₂ b' : Virtual) × (es : List Event) × (transmit_all (map (λ s. s.0) ps) a ≡ ok a₁)
        × (carry id now times a₁ b ≡ ok (some (a₂, b', es)))
        × AllReceived a.device.iface.address b.device.iface ps times es
        × IsQuiet m a₂
        × IsQuiet n b'
  carry-transmit_all m n id now ps times a b va long vb small v room whole =
      let (q, e, frames) = transmit_all_lem n ps [] a b v (omega arith) in
      let same : IsSame alg b b = record {
        address = refl;
        broadcast = refl;
        named = refl;
        limit = refl;
      } in
      let (a₂, b', es, e', received, qa, qb) =
        carry_lem m n id now ps times q a b (with_queue q a) b va.idle long refl va.taken frames vb
          small v same whole in
      let first : with_queue [] a ≡ a = ap (λ l. with_queue l a) (sym va.empty) in
      (with_queue q a, a₂, b', es, rw first at e, e', received, qa, qb)
