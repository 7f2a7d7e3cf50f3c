-- ===== src/Stack/Delivery.antt =====
-- A packet goes from a port of one stack to a port of another.
use libprotoserial.Prelude.{
  ℕ, ◌+◌, ◌%◌, ◌^◌, ◌<◌, ◌≤◌, ◌≡◌, ◌≢◌, inl, inr, refl, ap, sym, ◌∙◌, List, [], ◌∷◌, ◌++◌, true,
  false, some, ok, arith, length,
}
use libprotoserial.Bytes.{Bytes, size}
use libprotoserial.Bytes.Layout.{Represents}
use libprotoserial.Bytes.Spec.{size-Represents}
use libprotoserial.Interface.Fragment.{Fragment, complete, same_interface_iff}
use libprotoserial.Interface.Header.{is_valid, header_of}
use libprotoserial.Interface.Footer.{HashAlgorithm}
use libprotoserial.Interface.Frame.{preamble}
use libprotoserial.Interface.Queue.{receive, transmit_began}
use libprotoserial.Interface.Receiver.{max_data_size}
use libprotoserial.Fragmentation.Transfer.{Transfer}
use libprotoserial.Fragmentation.Bypass.{transmitted, do_transmit_lem, do_receive}
use libprotoserial.Ports.Packet.{Packet, of_transfer, renewed, is_transmit_ready}
use libprotoserial.Ports.Header.{header, encode}
use libprotoserial.Ports.Handler.{has_service, has_interface}
use libprotoserial.Ports.Handler.Deliver.{transmit_lem, transfer_receive_lem}
use libprotoserial.Devices.Virtual.{Virtual, process_and_get_serialized, put_serialized, main_task}
use libprotoserial.Devices.Turns.{put_received_here}
use libprotoserial.Devices.Virtual.Link.{
  IsQuiet, Sendable, put_serialized-process_and_get_serialized,
}
use libprotoserial.Stack.{Stack, deliver, transmit, hand_over}

module _ (alg : HashAlgorithm) where
  -- What a packet from a port of one stack needs to reach its port of another.
  pub record Deliverable (n source : ℕ) (p : Packet) (xs : List ℕ) (a b : Stack) : Type 0 where
    pub content : Represents p.payload xs
    pub ready : is_transmit_ready p ≡ true
    pub known : has_interface p.meta.transfer.fragment.interface_id a.ports.interfaces ≡ true
    pub own : p.meta.transfer.fragment.interface_id ≡ a.link.device.iface.interface_id
    pub source_port : source % 256 ≢ 0
    pub destination_port : p.meta.destination_port % 256 ≢ 0
    pub served : has_service (p.meta.destination_port % 256) b.ports.services ≡ true
    pub target : p.meta.transfer.fragment.destination ≡ b.link.device.iface.address
    pub address : b.link.device.iface.address < 256
    pub nonzero : b.link.device.iface.address ≢ 0
    pub differ : b.link.device.iface.address ≢ a.link.device.iface.address % 256
    pub few : length xs + 3 ≤ max_data_size alg a.link.device.parser
    pub accepted : length xs + 3 ≤ max_data_size alg b.link.device.parser
    pub limit : max_data_size alg b.link.device.parser < 256
    pub fits : 9 + length xs + alg.width < n
    pub apart :
        is_valid
          (record {
            destination = preamble;
            source = b.link.device.iface.address;
            size = a.link.device.iface.address % 256;
            check = length xs + 3;
          })
          (max_data_size alg b.link.device.parser)
        ≡ false

  -- The fragment that carries the packet can be sent.
  carried-Sendable :
      {n source : ℕ} {p : Packet} {xs : List ℕ} {a b : Stack} (f : Fragment)
      → Deliverable n source p xs a b
      → Represents f.payload (encode (header p.meta.destination_port source) ++ xs)
      → f.meta.destination ≡ p.meta.transfer.fragment.destination
      → Sendable alg n f (encode (header p.meta.destination_port source) ++ xs) a.link b.link
  unfolding header_of complete
  carried-Sendable {source} {p} {xs} {a} {b} f v r e =
      let there : f.meta.destination ≡ b.link.device.iface.address = e ∙ v.target in
      let low : b.link.device.iface.address % 256 ≡ b.link.device.iface.address =
        omega (arith, v.address) in
      let long : size f.payload % 256 ≡ length xs + 3 =
        omega (arith, size-Represents r, v.accepted, v.limit) in
      record {
        content = r;
        fits = omega (arith, v.fits);
        target = rw there v.nonzero;
        differ = rw (there, low) v.differ;
        some_bytes = omega arith;
        few = omega (arith, v.few);
        accepted = omega (arith, v.accepted);
        limit = v.limit;
        apart = rw (there, low, long) v.apart;
      }

  module _ (id id' id₂ now₂ id₃ now₃ id₄ id₅ : ℕ) where
    -- The upper half of the way: from the port to the queue's fragment, with the packet's header in
    -- front of its data.
    sends :
        {n : ℕ} (source : ℕ) (p : Packet) (xs : List ℕ) (a b : Stack)
        → Deliverable n source p xs a b
        → n < 2 ^ 31
        → (f : Fragment) × (transmit alg id id' source p a ≡ hand_over alg (transmitted f) a)
          × Represents f.payload (encode (header p.meta.destination_port source) ++ xs)
          × (f.meta.destination ≡ p.meta.transfer.fragment.destination)
          × (f.meta.object_id ≡ id')
    unfolding transmit
    sends source p xs a b v small =
        let few = v.few in
        let fits = v.fits in
        let (c, e, rc) = transmit_lem id source p a.ports v.content (omega arith) v.ready v.known in
        let t : Transfer = record { meta = renewed id p.meta.transfer; payload = c } in
        elim (do_transmit_lem t (max_data_size alg a.link.device.parser) 6 alg.width id' rc
          (omega arith)) [
            | inl (long, _) ↦ absurd (omega arith)
            | inr (_, d, e', rd) ↦ (
              record { meta = record (t.meta.fragment) { object_id = id' }; payload = d },
              rw (e, (same_interface_iff _ _).1 v.own, e') refl,
              rd,
              refl,
              refl,
            )
          ]

    -- The other half: from the event of the interface to the port.
    delivers :
        {n source : ℕ} (p : Packet) (xs : List ℕ) (a b : Stack) (f : Fragment) (k : Virtual)
        → Deliverable n source p xs a b
        → Represents f.payload (encode (header p.meta.destination_port source) ++ xs)
        → (q : Packet) × (b' : Stack) × (deliver id₄ id₅ (receive f) (record b { link = k })
            ≡ ok (some (p.meta.destination_port % 256, q), b'))
          × Represents q.payload xs
          × (q.meta.source_port ≡ source % 256)
    unfolding deliver do_receive of_transfer
    delivers {source} p xs a b f k v r =
        let (t, ids) = do_receive f id₄ b.ids in
        let (d, e, rd) =
          transfer_receive_lem id₅ p.meta.destination_port source t b.ports xs r v.destination_port
            v.source_port v.served in
        (
          of_transfer (record { meta = t.meta; payload = d }) (source % 256)
              (p.meta.destination_port % 256) id₅,
          record b { ids = ids; link = k },
          rw e refl,
          rd,
          refl,
        )

    -- A packet that is transmitted from a port of one stack, whose link carries nothing else, is
    -- announced and handed out as bytes by its interface, and from these bytes its data reach the
    -- low byte of the destination port at the other stack, from the low byte of the source port.
    -- The packet is ready, and its interface is known and that of the link; the ports' low bytes
    -- are not 0, and the destination's is registered; the destination is the other interface's
    -- address, between 1 and 255 and not the sender's low byte; data and header fit both limits,
    -- the receiver's is below 256, and its buffer has room; the second preamble does not start a
    -- valid header.
    pub deliver-transmit :
        {n m : ℕ} (source : ℕ) (p : Packet) (xs : List ℕ) (a b : Stack)
        → IsQuiet m a.link
        → 1 < m
        → IsQuiet n b.link
        → n < 2 ^ 31
        → Deliverable n source p xs a b
        → (a₁ : Stack) × (w : Bytes) × (link link₁ link₂ : Virtual) × (f : Fragment) × (q : Packet)
          × (b' : Stack) × (transmit alg id id' source p a ≡ ok a₁)
          × (process_and_get_serialized alg id₂ now₂ a₁.link
              ≡ ok (some (link, transmit_began id' ∷ [], some w)))
          × (put_serialized w b.link ≡ ok link₁)
          × (main_task alg id₃ now₃ link₁ ≡ ok (some (link₂, receive f ∷ [])))
          × (deliver id₄ id₅ (receive f) (record b { link = link₂ })
              ≡ ok (some (p.meta.destination_port % 256, q), b'))
          × Represents q.payload xs
          × (q.meta.source_port ≡ source % 256)
    unfolding hand_over
    deliver-transmit source p xs a b qa long qb small v =
        let (f, e, rf, there, named) = sends source p xs a b v small in
        let ys = encode (header p.meta.destination_port source) ++ xs in
        let ok_fragment = carried-Sendable f v rf there in
        let (l₁, l₂, k₁, k₂, w, c, e₁, e₂, e₃, e₄, rc, _, _, same) =
          put_serialized-process_and_get_serialized alg id₂ now₂ id₃ now₃ f ys a.link b.link qa long
            qb small ok_fragment in
        let g : Fragment = record {
          meta = record {
            object_id = id₃;
            timestamp_creation = now₃;
            interface_id = b.link.device.iface.interface_id;
            source = a.link.device.iface.address % 256;
            destination = f.meta.destination % 256;
          };
          payload = c;
        } in
        let low : f.meta.destination % 256 ≡ b.link.device.iface.address =
          omega (arith, there, v.target, v.address) in
        let here : g.meta.destination ≡ k₁.device.iface.address =
          low ∙ ap (λ i. i.address) (sym same) in
        let received =
          e₄
          ∙ ap (λ event. ok (some (k₂, event ∷ []))) (put_received_here k₁.device.iface g here) in
        let (q, b', e₅, rq, from) = delivers p xs a b g k₂ v rc in
        (
          record a { link = l₁ },
          w,
          l₂,
          k₁,
          k₂,
          g,
          q,
          b',
          rw (e, e₁) refl,
          rw named at e₂,
          e₃,
          received,
          e₅,
          rq,
          from,
        )
