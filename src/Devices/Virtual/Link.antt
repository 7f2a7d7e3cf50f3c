-- ===== src/Devices/Virtual/Link.antt =====
-- Two virtual interfaces of interface/testing/virtual.hpp whose user carries the bytes over.
use libprotoserial.Prelude.{
  ℕ, ◌+◌, ◌%◌, ◌^◌, ◌<◌, ◌≤◌, ◌≡◌, ◌≢◌, refl, List, [], ◌∷◌, ◌++◌, true, false, none, some, ok,
  arith, length,
}
use libprotoserial.Bytes.{Bytes, size}
use libprotoserial.Bytes.Layout.{Represents}
use libprotoserial.Bytes.Spec.{size-Represents, window-Represents}
use libprotoserial.Interface.Fragment.{Fragment, complete}
use libprotoserial.Interface.Header.{Header, header_of, is_valid, is_valid-header_of}
use libprotoserial.Interface.Footer.{HashAlgorithm}
use libprotoserial.Interface.Frame.{preamble, serialize_fragment}
use libprotoserial.Interface.Frame.Serialize.{frame, serialize_fragment-Gives}
use libprotoserial.Interface.Frame.Parse.{fragment_of}
use libprotoserial.Interface.Queue.{Interface, Event, Serialized, transmit_began, put_received}
use libprotoserial.Interface.Receiver.{max_data_size}
use libprotoserial.Interface.Receiver.Walk.{shifted}
use libprotoserial.Devices.{Device, put_all, with_rx}
use libprotoserial.Devices.Arrival.{IsIdle, IsFindable, do_receive-put_all, do_receive-IsIdle}
use libprotoserial.Devices.Turns.{
  counted, main_task-receives, main_task-transmits, transmit-accepts,
}
use libprotoserial.Devices.Virtual.{
  Virtual, transmit, main_task, passed_on, get_serialized, has_serialized,
  process_and_get_serialized, put_serialized,
}

-- Nothing waits in the interface, and its receiver of `n` bytes has dealt with everything.
pub record IsQuiet (n : ℕ) (v : Virtual) : Type 0 where
  pub idle : IsIdle n v.device.parser
  pub empty : v.device.iface.tx_queue ≡ []
  pub taken : v.serialized ≡ []

module _ (alg : HashAlgorithm) where
  -- What does not change while an interface is in use.
  pub record IsSame (v v' : Virtual) : Type 0 where
    pub address : v'.device.iface.address ≡ v.device.iface.address
    pub broadcast : v'.device.iface.broadcast_address ≡ v.device.iface.broadcast_address
    pub named : v'.device.iface.interface_id ≡ v.device.iface.interface_id
    pub limit : max_data_size alg v'.device.parser ≡ max_data_size alg v.device.parser

  abbrev pub wire_header : Fragment → Virtual → Header
  wire_header p a = header_of (complete a.device.iface.address a.device.iface.interface_id p)

  -- What a fragment needs to be taken by the sender, and to be found by the receiver of `n` bytes.
  pub record Sendable (n : ℕ) (p : Fragment) (xs : List ℕ) (a b : Virtual) : Type 0 where
    pub content : Represents p.payload xs
    pub fits : 6 + length xs + alg.width < n
    pub target : p.meta.destination ≢ 0
    pub differ : p.meta.destination % 256 ≢ a.device.iface.address % 256
    pub some_bytes : 0 < length xs
    pub few : length xs ≤ max_data_size alg a.device.parser
    pub accepted : length xs ≤ max_data_size alg b.device.parser
    pub limit : max_data_size alg b.device.parser < 256
    pub apart : is_valid (shifted (wire_header p a)) (max_data_size alg b.device.parser) ≡ false

  pub sent-IsFindable :
      {n : ℕ} {p : Fragment} {xs : List ℕ} {a b : Virtual}
      → Sendable n p xs a b
      → IsFindable alg n (max_data_size alg b.device.parser) (wire_header p a) xs
  unfolding header_of complete
  sent-IsFindable {n} {p} {xs} {a} {b} v =
      let long : size p.payload ≡ length xs = size-Represents v.content in
      let few = v.accepted in
      let limit = v.limit in
      let some_bytes = v.some_bytes in
      let q = complete a.device.iface.address a.device.iface.interface_id p in
      record {
        fits = v.fits;
        whole = omega arith;
        good =
            is_valid-header_of q (max_data_size alg b.device.parser) v.differ (omega arith)
              (omega arith);
        apart = v.apart;
      }

  module _ (id now id' now' : ℕ) where
    -- A sender at which nothing comes in hands out the front of its queue.
    pub hands_out :
        {n : ℕ} (a : Virtual) {s : Serialized} {rest : List Serialized}
        → IsIdle n a.device.parser
        → 1 < n
        → a.device.iface.tx_queue ≡ s ∷ rest
        → a.serialized ≡ []
        → (a' : Virtual) × (process_and_get_serialized alg id now a
            ≡ ok (some (a', transmit_began s.id ∷ [], some s.bytes)))
          × (a'.device.parser ≡ a.device.parser)
          × (a'.device.iface.tx_queue ≡ rest)
          × (a'.serialized ≡ [])
          × (a'.device.iface.interface_id ≡ a.device.iface.interface_id)
    unfolding process_and_get_serialized main_task has_serialized get_serialized passed_on
    hands_out a {s} {rest} v long front none_yet =
        let nothing =
          do_receive-IsIdle alg a.device.iface.interface_id id now a.device.parser v long in
        let i : Interface = record (counted a.device) {
          tx_queue = rest;
          bytes_txed = (a.device.iface.bytes_txed + size s.bytes) % 2 ^ 64;
        } in
        (
          record { device = record { iface = i; parser = a.device.parser }; serialized = [] },
          rw (main_task-transmits alg id now a.device nothing front, front, none_yet) refl,
          refl,
          refl,
          refl,
          refl,
        )

    -- Where nothing was transmitted there is nothing to hand out.
    pub process-main_task :
        (v : Virtual) {v' : Virtual} {es : List Event}
        → main_task alg id now v ≡ ok (some (v', es))
        → v'.serialized ≡ []
        → process_and_get_serialized alg id now v ≡ ok (some (v', es, none))
    unfolding process_and_get_serialized has_serialized get_serialized
    process-main_task v e none_left = rw (e, none_left) refl

    -- A quiet receiver that is given a frame receives it.
    pub takes_in :
        {n : ℕ} (b : Virtual) (w : Bytes) (h : Header) (xs : List ℕ)
        → IsQuiet n b
        → n < 2 ^ 31
        → IsFindable alg n (max_data_size alg b.device.parser) h xs
        → Represents w (preamble ∷ preamble ∷ frame alg h xs)
        → (b₁ b₂ : Virtual) × (c : Bytes) × (put_serialized w b ≡ ok b₁)
          × (main_task alg id' now' b₁
              ≡ ok (
                  some (
                    b₂,
                    put_received b₁.device.iface (
                          fragment_of alg
                            (max_data_size alg b.device.parser)
                            b.device.iface.interface_id
                            id'
                            now'
                            h
                            c)
                        ∷ [],
                  )))
          × Represents c xs
          × IsQuiet n b₂
          × (b₁.device.iface ≡ b.device.iface)
          × IsSame b b₂
    unfolding put_serialized main_task passed_on max_data_size
    takes_in b w h xs v small ok_frame r =
        let (c, s', e, rc, idle, kept) =
          do_receive-put_all alg b.device.iface.interface_id id' now' b.device.parser h xs v.idle
            small ok_frame in
        let l = preamble ∷ preamble ∷ frame alg h xs in
        let d : Device = record (b.device) {
          parser = with_rx (put_all l b.device.parser.rx) b.device.parser;
        } in
        (
          record b { device = d },
          record b { device = record { iface = counted d; parser = s' } },
          c,
          rw (window-Represents r) refl,
          rw (main_task-receives alg id' now' true (λ x. true) d e v.empty, v.empty) refl,
          rc,
          record { idle = idle; empty = v.empty; taken = v.taken },
          refl,
          record { address = refl; broadcast = refl; named = refl; limit = rw kept refl },
        )

    -- A quiet sender takes a fragment, and hands its frame out.
    pub transmit_out :
        {n m : ℕ} (p : Fragment) (xs : List ℕ) (a b : Virtual)
        → IsQuiet m a
        → 1 < m
        → Sendable n p xs a b
        → (a₁ a₂ : Virtual) × (w : Bytes) × (transmit alg p a ≡ ok a₁)
          × (process_and_get_serialized alg id now a₁
              ≡ ok (some (a₂, transmit_began p.meta.object_id ∷ [], some w)))
          × Represents w (preamble ∷ preamble ∷ frame alg (wire_header p a) xs)
          × IsQuiet m a₂
          × (a₂.device.iface.interface_id ≡ a.device.iface.interface_id)
    unfolding transmit complete
    transmit_out p xs a b va long v =
        let q = complete a.device.iface.address a.device.iface.interface_id p in
        let (w, e, r) =
          serialize_fragment-Gives alg q v.content (omega (arith, v.accepted, v.limit)) in
        let entry : Serialized = record { bytes = w; id = p.meta.object_id } in
        let i : Interface = record (a.device.iface) {
          tx_queue = a.device.iface.tx_queue ++ (entry ∷ []);
        } in
        let a₁ : Virtual = record a { device = record (a.device) { iface = i } } in
        let front : i.tx_queue ≡ entry ∷ [] = rw va.empty refl in
        let taken =
          transmit-accepts (serialize_fragment alg) (max_data_size alg a.device.parser) p
            a.device.iface v.content e (rw va.empty (omega arith)) v.target v.some_bytes v.few in
        let (a₂, e₂, parser, empty, none_left, named) = hands_out a₁ va.idle long front va.taken in
        let quiet : IsQuiet _ a₂ = record {
          idle = rw parser va.idle;
          empty = empty;
          taken = none_left;
        } in
        (a₁, a₂, w, rw taken refl, e₂, r, quiet, named)

    -- A fragment that a quiet interface transmits is announced and handed out by its next
    -- `process_and_get_serialized`, and received from those bytes by the next `main_task` of a
    -- quiet peer with the data and the low bytes of the addresses, after which both are quiet
    -- again. This needs a fragment that the sender takes and of a size that the receiver accepts,
    -- below 256, addresses that differ in their low byte, a receive buffer with room for the frame,
    -- and a frame whose second preamble does not start a valid header.
    pub put_serialized-process_and_get_serialized :
        {n m : ℕ} (p : Fragment) (xs : List ℕ) (a b : Virtual)
        → IsQuiet m a
        → 1 < m
        → IsQuiet n b
        → n < 2 ^ 31
        → Sendable n p xs a b
        → (a₁ a₂ b₁ b₂ : Virtual) × (w c : Bytes) × (transmit alg p a ≡ ok a₁)
          × (process_and_get_serialized alg id now a₁
              ≡ ok (some (a₂, transmit_began p.meta.object_id ∷ [], some w)))
          × (put_serialized w b ≡ ok b₁)
          × (main_task alg id' now' b₁
              ≡ ok (
                  some (
                    b₂,
                    put_received b₁.device.iface (record {
                      meta = record {
                        object_id = id';
                        timestamp_creation = now';
                        interface_id = b.device.iface.interface_id;
                        source = a.device.iface.address % 256;
                        destination = p.meta.destination % 256;
                      };
                      payload = c;
                    })
                        ∷ [],
                  )))
          × Represents c xs
          × IsQuiet m a₂
          × IsQuiet n b₂
          × (b₁.device.iface ≡ b.device.iface)
    unfolding header_of complete
    put_serialized-process_and_get_serialized p xs a b va long vb small v =
        let (a₁, a₂, w, e₁, e₂, r, qa, _) = transmit_out p xs a b va long v in
        let (b₁, b₂, c, e₃, e₄, rc, qb, same, _) =
          takes_in b w (wire_header p a) xs vb small (sent-IsFindable v) r in
        (a₁, a₂, b₁, b₂, w, c, e₁, e₂, e₃, e₄, rc, qa, qb, same)
