-- ===== src/Kiss/Exchange.antt =====
-- A packet and its acknowledgement in utils/kiss_protocol.hpp.
use libprotoserial.Prelude.{
  ◌⊎◌, Bool-cases, append-nil, ℕ, ◌+◌, ◌-◌, ◌%◌, ◌^◌, ◌≤◌, ◌<◌, ◌≡◌, inl, inr, refl, List, [], ◌∷◌,
  ◌++◌, Bool, true, false, ok, err, overrun, ◌∙◌, leb, ltb, length, arith, ◌==◌, if◌then◌else◌,
}
use libprotoserial.Bytes.{Bytes, size, push_back, at}
use libprotoserial.Bytes.Memory.{add_size}
use libprotoserial.Bytes.Layout.{Represents, sized_lem, put-laid_out, laid_out}
use libprotoserial.Bytes.Spec.{
  Gives, push_back-Represents, to_bytes-Represents, shrink_front-Represents, size-Represents,
  at-Represents, laid_out-Represents,
}
use libprotoserial.Interface.Fragment.{Fragment, FragmentMetadata}
use libprotoserial.Ports.Handler.{PreallocSize}
use libprotoserial.Kiss.{
  Kiss, DataHandle, transmits, receives, acknowledge, receive, packet_bytes, transmit, enqueue,
  handle, sent, repeat_one, transmit_expired, retries_exhausted, main_task,
}

-- Is there a packet of this identifier?
pub pending : ℕ → List DataHandle → Bool
pending id [] = false
pending id (p ∷ ps) = if p.id == id then true else pending id ps

-- The packets of an identifier, in order.
unfoldable pub packets_of : ℕ → List DataHandle → List DataHandle
packets_of id [] = []
packets_of id (p ∷ ps) = if p.id == id then p ∷ packets_of id ps else packets_of id ps

packets_of-append :
    (id : ℕ) (ps qs : List DataHandle)
    → packets_of id (ps ++ qs) ≡ packets_of id ps ++ packets_of id qs
unfolding packets_of
packets_of-append id [] qs = refl
packets_of-append id (p ∷ ps) qs = ground (arith, packets_of-append id ps qs)

packets_of-acknowledge :
    (id other : ℕ) (ps : List DataHandle)
    → packets_of other (acknowledge id ps) ≡ (if other == id then [] else packets_of other ps)
unfolding packets_of acknowledge
packets_of-acknowledge id other [] = ground arith
packets_of-acknowledge id other (p ∷ ps) = ground (arith, packets_of-acknowledge id other ps)

-- A packet that was put behind the others and acknowledged is none of another identifier.
others :
    {id : ℕ} (ps : List DataHandle) (p : DataHandle) (other : ℕ)
    → p.id ≡ id
    → packets_of other (acknowledge id (ps ++ (p ∷ [])))
      ≡ (if other == id then [] else packets_of other ps)
unfolding packets_of
others {id} ps p other e =
    packets_of-acknowledge id other (ps ++ (p ∷ [])) ∙ elim (Bool-cases (other == id)) [
      | inl same ↦ rw same refl
      | inr apart ↦
          let differ : (p.id == other) ≡ false = ground (arith, e) in
          rw (apart, packets_of-append other ps (p ∷ []), differ) (append-nil (packets_of other ps))
    ]

-- The acknowledgement of a packet behind others of other identifiers gives these back.
acknowledge-append :
    (id : ℕ) (ps : List DataHandle) (p : DataHandle)
    → pending id ps ≡ false
    → p.id ≡ id
    → acknowledge id (ps ++ (p ∷ [])) ≡ ps
unfolding pending acknowledge
acknowledge-append id [] p none_such e = ground (arith, e)
acknowledge-append id (q ∷ qs) p none_such e = ground (arith, acknowledge-append id qs p)

acknowledge-pending : (id : ℕ) (ps : List DataHandle) → pending id (acknowledge id ps) ≡ false
unfolding pending acknowledge
acknowledge-pending id [] = refl
acknowledge-pending id (p ∷ ps) = ground (arith, acknowledge-pending id ps)

at_first : {c : Bytes} (x : ℕ) (xs : List ℕ) → Represents c (x ∷ xs) → at c 0 ≡ ok x
at_first x xs r = elim (at-Represents 0 r) [ inl (h, e) ↦ e | inr (h, e) ↦ absurd (omega arith) ]

at_second : {c : Bytes} (x y : ℕ) (xs : List ℕ) → Represents c (x ∷ (y ∷ xs)) → at c 1 ≡ ok y
at_second x y xs r = elim (at-Represents 1 r) [ inl (h, e) ↦ e | inr (h, e) ↦ absurd (omega arith) ]

-- A fragment with a user packet is acknowledged, and its data is passed on under the user's type.
pub receive_packet :
    (f : Fragment) (now : ℕ) (s : Kiss) (type id : ℕ) (xs : List ℕ)
    → Represents f.payload ((type + 5) ∷ (id ∷ xs))
    → (ack d : Bytes) × (receive f now s
        ≡ ok (
          record s { last_received = now; last_transmitted = now },
          transmits f.meta.source ack ∷ receives type d ∷ [],
        ))
      × Represents ack (0 ∷ (id ∷ []))
      × Represents d xs
unfolding receive
receive_packet f now s type id xs r =
    let n : size f.payload ≡ 2 + length xs = omega (arith, size-Represents r) in
    let long : leb 2 (size f.payload) ≡ true = ground (arith, n) in
    let user : leb 5 (type + 5) ≡ true = ground arith in
    let other : ((type + 5) == 0) ≡ false = ground arith in
    let back : type + 5 - 5 ≡ type = omega arith in
    let (ack, e, ra) = to_bytes-Represents (0 ∷ (id ∷ [])) 0 (omega arith) in
    let (d, e', rd) = shrink_front-Represents ((type + 5) ∷ (id ∷ [])) xs r in
    (
      ack,
      d,
      rw
          (
            long,
            at_first (type + 5) (id ∷ xs) r,
            at_second (type + 5) id xs r,
            other,
            e,
            user,
            e',
            back,
          )
          refl,
      ra,
      rd,
    )

-- An acknowledgement takes the packets of its identifier from the list, and nothing else changes
-- but the time.
pub receive_ack :
    (f : Fragment) (now : ℕ) (s : Kiss) (id : ℕ) (xs : List ℕ)
    → Represents f.payload (0 ∷ (id ∷ xs))
    → (receive f now s
        ≡ ok (record s { last_received = now; packet_list = acknowledge id s.packet_list }, []))
      × (pending id (acknowledge id s.packet_list) ≡ false)
unfolding receive
receive_ack f now s id xs r =
    let n : size f.payload ≡ 2 + length xs = omega (arith, size-Represents r) in
    let long : leb 2 (size f.payload) ≡ true = ground (arith, n) in
    (
      rw (long, at_first 0 (id ∷ xs) r, at_second 0 id xs r) refl,
      acknowledge-pending id s.packet_list,
    )

packet_bytes-Gives :
    (alloc : PreallocSize) (p : DataHandle) {xs : List ℕ}
    → Represents p.payload xs
    → alloc.front + alloc.back + length xs + 2 < 2 ^ 31
    → Gives (packet_bytes alloc p) (p.type ∷ (p.id ∷ xs))
unfolding packet_bytes
packet_bytes-Gives alloc p {xs} r small =
    let f = alloc.front in
    let n = size-Represents r in
    let b = alloc.back + length xs in
    let room : add_size alloc.back (size p.payload) ≡ b = omega (arith, n) in
    let start = sized_lem f 2 b (omega arith) in
    let typed = put-laid_out f [] 0 p.type (0 ∷ []) b 0 refl in
    let numbered = put-laid_out f (p.type ∷ []) 0 p.id [] b 1 refl in
    let rh = laid_out-Represents f (p.type ∷ (p.id ∷ [])) b (omega arith) in
    let (c, e, rc) = push_back-Represents rh r (omega arith) in
    let headed : packet_bytes alloc p ≡ push_back (laid_out f (p.type ∷ (p.id ∷ [])) b) p.payload =
      rw (room, start, typed, numbered) refl in
    (c, headed ∙ e, rc)

transmit_lem :
    (now type : ℕ) (s : Kiss) (payload : Bytes) {xs : List ℕ}
    → Represents payload xs
    → s.prealloc.front + s.prealloc.back + length xs + 2 < 2 ^ 31
    → type ≤ 250
    → (s' : Kiss) × (frame : Bytes) × (transmit now type payload s
        ≡ ok (s', transmits s.default_addr frame ∷ []))
      × Represents frame ((type + 5) ∷ ((s.id_counter + 1) % 256 ∷ xs))
      × (s'.packet_list ≡ s.packet_list ++ (sent now (handle now (type + 5) payload s) ∷ []))
unfolding transmit enqueue handle
transmit_lem now type s payload {xs} r small low =
    let allowed : ltb 250 type ≡ false = ground arith in
    let (c, e, rc) = packet_bytes-Gives s.prealloc (handle now (type + 5) payload s) r small in
    let p = handle now (type + 5) payload s in
    let s' = record s {
      packet_list = s.packet_list ++ (sent now p ∷ []);
      last_transmitted = now;
      id_counter = p.id;
    } in
    (s', c, rw (allowed, e) refl, rc, refl)

-- A user packet of a type up to 250, with data that fits, waits at the end of the sender's list
-- under the next identifier, and arrives through an interface that keeps its bytes with its data
-- and its type. The acknowledgement that answers it takes the packets of its identifier from the
-- list and leaves those of every other one; where no other packet had this identifier, the list is
-- as before.
pub exchange :
    (now later type : ℕ) (s r : Kiss) (m m' : FragmentMetadata) (payload : Bytes) {xs : List ℕ}
    → Represents payload xs
    → s.prealloc.front + s.prealloc.back + length xs + 2 < 2 ^ 31
    → type ≤ 250
    → (s' s'' : Kiss) × (frame ack d : Bytes) × (p : DataHandle) × (transmit now type payload s
        ≡ ok (s', transmits s.default_addr frame ∷ []))
      × (s'.packet_list ≡ s.packet_list ++ (p ∷ []))
      × (p.id ≡ (s.id_counter + 1) % 256)
      × (p.payload ≡ payload)
      × (p.type ≡ type + 5)
      × (receive (record { meta = m; payload = frame }) later r
          ≡ ok (
            record r { last_received = later; last_transmitted = later },
            transmits m.source ack ∷ receives type d ∷ [],
          ))
      × Represents d xs
      × (receive (record { meta = m'; payload = ack }) later s' ≡ ok (s'', []))
      × ((other : ℕ)
          → packets_of other s''.packet_list
            ≡ (if other == (s.id_counter + 1) % 256 then [] else packets_of other s.packet_list))
      × ((pending ((s.id_counter + 1) % 256) s.packet_list ≡ true)
          ⊎ (s''.packet_list ≡ s.packet_list))
unfolding sent handle
exchange now later type s r m m' payload {xs} rp small low =
    let id = (s.id_counter + 1) % 256 in
    let p = sent now (handle now (type + 5) payload s) in
    let (s', frame, e, rf, queued) = transmit_lem now type s payload rp small low in
    let (ack, d, e', ra, rd) =
      receive_packet (record { meta = m; payload = frame }) later r type id xs rf in
    let (e'', gone) = receive_ack (record { meta = m'; payload = ack }) later s' id [] ra in
    (
      s',
      record s' { last_received = later; packet_list = acknowledge id s'.packet_list },
      frame,
      ack,
      d,
      p,
      e,
      queued,
      refl,
      refl,
      refl,
      e',
      rd,
      e'',
      λ other. rw queued (others s.packet_list p other refl),
      elim (Bool-cases (pending id s.packet_list)) [
        | inl taken ↦ inl taken
        | inr fresh ↦ inr (rw queued (acknowledge-append id s.packet_list p fresh refl))
      ],
    )

-- Where the only packet of the list has expired and its retries are used up, the loop of
-- `main_task` leaves the list.
pub main_task_overruns :
    (now : ℕ) (s : Kiss) (p : DataHandle)
    → s.packet_list ≡ p ∷ []
    → p.sent_at + s.retry_holdoff ≤ now
    → s.retries_max ≤ p.retries
    → main_task now s ≡ err overrun
unfolding main_task repeat_one transmit_expired retries_exhausted
main_task_overruns now s p e late used =
    let expired : leb (p.sent_at + s.retry_holdoff) now ≡ true = ground arith in
    let exhausted : leb s.retries_max p.retries ≡ true = ground arith in
    rw (e, expired, exhausted) refl
