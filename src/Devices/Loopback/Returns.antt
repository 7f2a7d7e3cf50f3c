-- ===== src/Devices/Loopback/Returns.antt =====
-- What a loopback interface of interface/testing/loopback.hpp transmits comes back to it.
use libprotoserial.Prelude.{
  ℕ, ◌+◌, ◌%◌, ◌^◌, ◌<◌, ◌≤◌, ◌≡◌, ◌≢◌, refl, List, [], ◌∷◌, ◌++◌, map, true, false, some, ok,
  arith, length, ◌∙◌, ap,
}
use libprotoserial.Bytes.{Bytes, size}
use libprotoserial.Bytes.Layout.{Represents}
use libprotoserial.Bytes.Spec.{size-Represents, window-Represents}
use libprotoserial.Interface.Fragment.{Fragment, complete}
use libprotoserial.Interface.Header.{Header, header_of, is_valid, is_valid-header_of}
use libprotoserial.Interface.Footer.{HashAlgorithm}
use libprotoserial.Interface.Frame.{preamble}
use libprotoserial.Interface.Frame.Serialize.{frame}
use libprotoserial.Interface.Queue.{Serialized, receive, transmit_began}
use libprotoserial.Interface.Ring.{RxBuffer}
use libprotoserial.Interface.Receiver.{Receiver, max_data_size, do_receive}
use libprotoserial.Interface.Receiver.Walk.{shifted}
use libprotoserial.Devices.{Device, put_all, with_rx}
use libprotoserial.Devices.Arrival.{IsIdle, IsFindable, do_receive-put_all, do_receive-IsIdle}
use libprotoserial.Devices.Turns.{
  counted, main_task-receives, main_task-transmits, main_task-rests, put_received_here,
  transmit-accepts,
}
use libprotoserial.Devices.Loopback.{
  do_transmit, looped, transmit, main_task, serialize_fragment, serialize_fragment-Gives, swapped,
}

map_same : (l : List ℕ) → map (λ b. b) l ≡ l
map_same [] = refl
map_same (x ∷ xs) = ap (λ l. x ∷ l) (map_same xs)

swapped-is_valid :
    (alg : HashAlgorithm) (h : Header) (max : ℕ) → is_valid (swapped alg h) max ≡ is_valid h max
unfolding is_valid
swapped-is_valid alg h max = ground arith

module _ (alg : HashAlgorithm) where
  -- What does not change while an interface is in use.
  pub record IsSame (d d' : Device) : Type 0 where
    pub address : d'.iface.address ≡ d.iface.address
    pub named : d'.iface.interface_id ≡ d.iface.interface_id
    pub room : d'.iface.max_queue_size ≡ d.iface.max_queue_size
    pub limit : max_data_size alg d'.parser ≡ max_data_size alg d.parser

  -- The header that comes back for a fragment.
  abbrev pub returned : Fragment → Device → Header
  returned p d = swapped alg (header_of (complete d.iface.address d.iface.interface_id p))

  -- What a fragment needs to come back: the queue takes it, and its frame can be found.
  pub record Returnable (n : ℕ) (p : Fragment) (xs : List ℕ) (d : Device) : Type 0 where
    pub idle : IsIdle n d.parser
    pub small : n < 2 ^ 31
    pub empty : d.iface.tx_queue ≡ []
    pub content : Represents p.payload xs
    pub own : d.iface.address < 256
    pub fits : 6 + length xs + alg.width < n
    pub target : p.meta.destination ≢ 0
    pub differ : p.meta.destination % 256 ≢ d.iface.address % 256
    pub some_bytes : 0 < length xs
    pub few : length xs ≤ max_data_size alg d.parser
    pub limit : max_data_size alg d.parser < 256
    pub apart : is_valid (shifted (returned p d)) (max_data_size alg d.parser) ≡ false

  returned-IsFindable :
      {n : ℕ} {p : Fragment} {xs : List ℕ} {d : Device}
      → Returnable n p xs d
      → IsFindable alg n (max_data_size alg d.parser) (returned p d) xs
  unfolding header_of complete
  returned-IsFindable {n} {p} {xs} {d} v =
      let long : size p.payload ≡ length xs = size-Represents v.content in
      let few = v.few in
      let limit = v.limit in
      let some_bytes = v.some_bytes in
      let max = max_data_size alg d.parser in
      let q = complete d.iface.address d.iface.interface_id p in
      let good = is_valid-header_of q max v.differ (omega arith) (omega arith) in
      record {
        fits = v.fits;
        whole = omega arith;
        good = swapped-is_valid alg (header_of q) max ∙ good;
        apart = v.apart;
      }

  -- The three calls, by what they give in turn.
  module _ (id now id' now' : ℕ) where
    do_transmit-Represents :
        {b : Bytes} {l : List ℕ} (r : RxBuffer)
        → Represents b l
        → do_transmit alg (λ x. x) b r ≡ ok (put_all l r)
    unfolding do_transmit
    do_transmit-Represents {b} {l} r v = rw (window-Represents v, map_same l) refl

    -- The interface after its front was taken off the queue and looped back.
    abbrev sent : Device → List ℕ → Bytes → Device
    sent d l b = record {
      iface = record (counted d) {
        tx_queue = [];
        bytes_txed = (d.iface.bytes_txed + size b) % 2 ^ 64;
      };
      parser = with_rx (put_all l d.parser.rx) d.parser;
    }

    sends :
        {n : ℕ} (d : Device) {s : Serialized} {l : List ℕ}
        → IsIdle n d.parser
        → 1 < n
        → d.iface.tx_queue ≡ s ∷ []
        → Represents s.bytes l
        → main_task alg (λ x. x) id now d ≡ ok (some (sent d l s.bytes, transmit_began s.id ∷ []))
    unfolding main_task looped
    sends d {s} {l} v long front r =
        let nothing = do_receive-IsIdle alg d.iface.interface_id id now d.parser v long in
        rw
          (
            main_task-transmits alg id now d nothing front,
            front,
            do_transmit-Represents d.parser.rx r,
          )
          refl

    receives :
        (d : Device) {s' : Receiver} {f : Fragment} {k : ℕ}
        → d.iface.tx_queue ≡ []
        → do_receive alg d.iface.interface_id id' now' d.parser ≡ ok (some (s', some f, k))
        → f.meta.destination ≡ d.iface.address
        → main_task alg (λ x. x) id' now' d
          ≡ ok (some (record { iface = counted d; parser = with_rx s'.rx s' }, receive f ∷ []))
    unfolding main_task looped
    receives d {f} empty e here =
        rw
          (
            main_task-receives alg id' now' true (λ b. true) d e empty,
            put_received_here d.iface f here,
            empty,
          )
          refl

    -- An idle interface does nothing.
    pub rests :
        {n : ℕ} (d : Device)
        → IsIdle n d.parser
        → 1 < n
        → d.iface.tx_queue ≡ []
        → main_task alg (λ x. x) id' now' d ≡ ok (some (record d { iface = counted d }, []))
    unfolding main_task looped
    rests d v long empty =
        let nothing = do_receive-IsIdle alg d.iface.interface_id id' now' d.parser v long in
        rw (main_task-rests alg id' now' true (λ b. true) d nothing empty, empty) refl

    -- A fragment that is transmitted by an idle loopback interface with an exact wire comes back in
    -- the second `main_task` as received, with its data, as if its destination had sent it, after
    -- the first one has announced the transmission, and the interface is idle again, with its
    -- settings. This needs a fragment that `transmit` takes, addresses that differ in their low
    -- byte, an own address below 256, a limit below 256, a buffer with room for the frame, and a
    -- frame whose second preamble does not start a valid header.
    pub main_task-transmit :
        {n : ℕ} (p : Fragment) (xs : List ℕ) (d : Device)
        → Returnable n p xs d
        → (d₁ d₂ d₃ : Device) × (b : Bytes) × (transmit alg p d ≡ ok d₁)
          × (main_task alg (λ x. x) id now d₁
              ≡ ok (some (d₂, transmit_began p.meta.object_id ∷ [])))
          × (main_task alg (λ x. x) id' now' d₂
              ≡ ok (
                  some (
                    d₃,
                    receive (record {
                      meta = record {
                        object_id = id';
                        timestamp_creation = now';
                        interface_id = d.iface.interface_id;
                        source = p.meta.destination % 256;
                        destination = d.iface.address % 256;
                      };
                      payload = b;
                    })
                        ∷ [],
                  )))
          × Represents b xs
          × IsIdle n d₃.parser
          × (d₃.iface.tx_queue ≡ [])
          × IsSame d d₃
    unfolding transmit header_of complete max_data_size
    main_task-transmit {n} p xs d v =
        let fits = v.fits in
        let small = v.small in
        let q = complete d.iface.address d.iface.interface_id p in
        let (b, e, r) = serialize_fragment-Gives alg q v.content (omega (arith, v.few, v.limit)) in
        let entry : Serialized = record { bytes = b; id = p.meta.object_id } in
        let d₁ : Device = record d {
          iface = record (d.iface) { tx_queue = d.iface.tx_queue ++ (entry ∷ []) };
        } in
        let front : d₁.iface.tx_queue ≡ entry ∷ [] = rw v.empty refl in
        let taken =
          transmit-accepts (serialize_fragment alg) (max_data_size alg d.parser) p d.iface v.content
            e (rw v.empty (omega arith)) v.target v.some_bytes v.few in
        let wire = preamble ∷ preamble ∷ frame alg (returned p d) xs in
        let (c, s', e', rc, idle, kept) =
          do_receive-put_all alg d.iface.interface_id id' now' d.parser (returned p d) xs v.idle
            small (returned-IsFindable v) in
        let there : d.iface.address % 256 ≡ d.iface.address = omega (arith, v.own) in
        let back_here = receives (sent d₁ wire b) refl e' there in
        (
          d₁,
          sent d₁ wire b,
          _,
          c,
          rw taken refl,
          sends d₁ v.idle (omega arith) front r,
          back_here,
          rc,
          record { ring = idle.ring; now = idle.now; at_end = idle.at_end; seen = idle.seen },
          refl,
          record { address = refl; named = refl; room = refl; limit = rw kept refl },
        )
