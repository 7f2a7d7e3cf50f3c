-- ===== src/Testing/Passes.antt =====
-- The expectations of `test_interface` of testing/testers.hpp hold on an idle loopback interface.
use libprotoserial.Prelude.{
  ℕ, suc, ◌+◌, ◌%◌, ◌^◌, ◌<◌, ◌==◌, ◌≡◌, refl, ap, sym, ◌∙◌, List, [], ◌∷◌, map, true, some, ok,
  arith, length, list_eq_iff,
}
use libprotoserial.Bytes.{Bytes, equal, size}
use libprotoserial.Bytes.Layout.{Represents}
use libprotoserial.Bytes.Spec.{copy-Represents, window-Represents, size-Represents}
use libprotoserial.Interface.Fragment.{Fragment, complete}
use libprotoserial.Interface.Header.{header_of}
use libprotoserial.Interface.Footer.{HashAlgorithm}
use libprotoserial.Interface.Queue.{Event, receive, transmit_began}
use libprotoserial.Devices.{Device}
use libprotoserial.Devices.Arrival.{IsIdle}
use libprotoserial.Devices.Turns.{counted}
use libprotoserial.Devices.Loopback.{main_task}
use libprotoserial.Devices.Loopback.Returns.{Returnable, IsSame, rests, main_task-transmit}
use libprotoserial.Testing.{Tally, Round, on_event, on_events, task, tasks, round, test_interface}

equal-Represents :
    {a b : Bytes} {xs : List ℕ} → Represents a xs → Represents b xs → equal a b ≡ ok true
unfolding equal
equal-Represents {xs} r s =
    rw (window-Represents r, window-Represents s) (ap ok ((list_eq_iff xs xs).1 refl))

-- A fragment that is received as sent is counted.
on_events-receive :
    (tmp p : Fragment) (t : Tally)
    → equal tmp.payload p.payload ≡ ok true
    → p.meta.source ≡ tmp.meta.destination
    → t.good ≡ true
    → t.received + 1 < 2 ^ 32
    → on_events tmp (receive p ∷ []) t ≡ ok (record { received = t.received + 1; good = true })
unfolding on_events on_event
on_events-receive tmp p t same back good few =
    let counts : (t.received + 1) % 2 ^ 32 ≡ t.received + 1 = omega arith in
    let there : (tmp.meta.destination == tmp.meta.destination) ≡ true = ground arith in
    rw (same, good, back, there, counts) refl

module _ (alg : HashAlgorithm) where
  IsSame-append : {a b c : Device} → IsSame alg a b → IsSame alg b c → IsSame alg a c
  IsSame-append p q = record {
    address = q.address ∙ p.address;
    named = q.named ∙ p.named;
    room = q.room ∙ p.room;
    limit = q.limit ∙ p.limit;
  }

  -- A copy of a fragment comes back as well, also later, when the interface is idle again.
  copy-Returnable :
      {n : ℕ} (p : Fragment) (xs : List ℕ) (d d' : Device) (c : Bytes) (i : ℕ)
      → Returnable alg n p xs d
      → IsIdle n d'.parser
      → d'.iface.tx_queue ≡ []
      → IsSame alg d d'
      → Represents c xs
      → Returnable alg n (record { meta = record (p.meta) { object_id = i }; payload = c }) xs d'
  unfolding header_of complete
  copy-Returnable p xs d d' c i v idle empty same r =
      let long : size c ≡ size p.payload = size-Represents r ∙ sym (size-Represents v.content) in
      record {
        idle = idle;
        small = v.small;
        empty = empty;
        content = r;
        own = rw same.address v.own;
        fits = v.fits;
        target = v.target;
        differ = rw same.address v.differ;
        some_bytes = v.some_bytes;
        few = rw same.limit v.few;
        limit = rw same.limit v.limit;
        apart = rw (same.limit, same.address, long) v.apart;
      }

  task_lem :
      (tmp : Fragment) (time : ℕ × ℕ) (d d' : Device) (es : List Event) (t t' : Tally)
      → main_task alg (λ x. x) time.0 time.1 d ≡ ok (some (d', es))
      → on_events tmp es t ≡ ok t'
      → task alg (λ x. x) tmp time d t ≡ ok (some (d', t'))
  unfolding task
  task_lem tmp time d d' es t t' e h = rw (e, h) refl

  -- The three calls, by what they give in turn.
  tasks_lem :
      (tmp f : Fragment) (object_id : ℕ) (first second third : ℕ × ℕ) (d₁ d₂ d₃ d₄ : Device)
      (t t' : Tally)
      → main_task alg (λ x. x) first.0 first.1 d₁ ≡ ok (some (d₂, transmit_began object_id ∷ []))
      → main_task alg (λ x. x) second.0 second.1 d₂ ≡ ok (some (d₃, receive f ∷ []))
      → main_task alg (λ x. x) third.0 third.1 d₃ ≡ ok (some (d₄, []))
      → on_events tmp (receive f ∷ []) t ≡ ok t'
      → tasks alg (λ x. x) tmp (first ∷ second ∷ third ∷ []) d₁ t ≡ ok (some (d₄, t'))
  unfolding tasks on_events on_event
  tasks_lem tmp f object_id first second third d₁ d₂ d₃ d₄ t t' e₁ e₂ e₃ e =
      rw
        (
          task_lem tmp first d₁ d₂ (transmit_began object_id ∷ []) t t e₁ refl,
          task_lem tmp second d₂ d₃ (receive f ∷ []) t t' e₂ e,
          task_lem tmp third d₃ d₄ [] t' t' e₃ refl,
        )
        refl

  round_lem :
      {n : ℕ} (r : Round) (xs : List ℕ) (d d' : Device) (t : Tally)
      → Returnable alg n r.tmp xs d
      → r.tmp.meta.destination < 256
      → IsIdle n d'.parser
      → d'.iface.tx_queue ≡ []
      → IsSame alg d d'
      → t.good ≡ true
      → t.received + 1 < 2 ^ 32
      → (d'' : Device) × (round alg (λ x. x) r d' t
          ≡ ok (some (d'', record { received = t.received + 1; good = true })))
        × IsIdle n d''.parser
        × (d''.iface.tx_queue ≡ [])
        × IsSame alg d d''
  unfolding round
  round_lem r xs d d' t v low idle empty same good few =
      let (first, second, third) = r.times in
      let fits = v.fits in
      let (c, e, rc) = copy-Represents v.content in
      let v' = copy-Returnable r.tmp xs d d' c r.object_id v idle empty same rc in
      let (d₁, d₂, d₃, b, e₁, e₂, e₃, rb, idle', empty', same') =
        main_task-transmit alg first.0 first.1 second.0 second.1 _ xs d' v' in
      let e₄ = rests alg 0 0 third.0 third.1 d₃ idle' (omega arith) empty' in
      let d₄ : Device = record d₃ { iface = counted d₃ } in
      let last : IsSame alg d₃ d₄ = record {
        address = refl;
        named = refl;
        room = refl;
        limit = refl;
      } in
      let f : Fragment = record {
        meta = record {
          object_id = second.0;
          timestamp_creation = second.1;
          interface_id = d'.iface.interface_id;
          source = r.tmp.meta.destination % 256;
          destination = d'.iface.address % 256;
        };
        payload = b;
      } in
      let counts =
        on_events-receive r.tmp f t (equal-Represents v.content rb) (omega arith) good few in
      let three =
        tasks_lem r.tmp f r.object_id first second third d₁ d₂ d₃ d₄ t _ e₂ e₃ e₄ counts in
      (d₄, rw (e, e₁) three, idle', empty', IsSame-append same (IsSame-append same' last))

  -- What the fragments need to come back one by one.
  abbrev pub AllReturnable : ℕ → List (Round × List ℕ) → Device → Type 0
  AllReturnable n [] d = Unit {0}
  AllReturnable n ((r, xs) ∷ rest) d =
      (Returnable alg n r.tmp xs d × (r.tmp.meta.destination < 256)) × AllReturnable n rest d

  passes :
      (n : ℕ) (rounds : List (Round × List ℕ)) (d d' : Device) (t : Tally)
      → AllReturnable n rounds d
      → IsIdle n d'.parser
      → d'.iface.tx_queue ≡ []
      → IsSame alg d d'
      → t.good ≡ true
      → t.received + length rounds < 2 ^ 32
      → (d'' : Device) × (test_interface alg (λ x. x) (map (λ r. r.0) rounds) d' t
          ≡ ok (some (d'', record { received = t.received + length rounds; good = true })))
        × IsIdle n d''.parser
  unfolding test_interface
  passes n [] d d' t v idle empty same good few =
      let none_more : t.received + 0 ≡ t.received = omega arith in
      (
        d',
        rw none_more (ap (λ g. ok (some (d', record { received = t.received; good = g }))) good),
        idle,
      )
  passes n ((r, xs) ∷ rest) d d' t ((v, low), vs) idle empty same good few =
      let (d₁, e, idle', empty', same') =
        round_lem r xs d d' t v low idle empty same good (omega arith) in
      let (d₂, e', idle'') =
        passes n rest d d₁ (record { received = t.received + 1; good = true }) vs idle' empty' same'
          refl (omega arith) in
      let all : t.received + 1 + length rest ≡ t.received + suc (length rest) = omega arith in
      (d₂, rw (e, e', all) refl, idle'')

  -- On an idle loopback interface with an exact wire, `test_interface` receives every fragment that
  -- it sends, as sent, with its expectations met, and the interface is idle again. Each fragment
  -- can come back to this interface, with a destination below 256, and they are fewer than 2 ^ 32.
  pub test_interface_passes :
      (n : ℕ) (rounds : List (Round × List ℕ)) (d : Device)
      → IsIdle n d.parser
      → d.iface.tx_queue ≡ []
      → AllReturnable n rounds d
      → length rounds < 2 ^ 32
      → (d' : Device) × (test_interface alg
            (λ x. x)
            (map (λ r. r.0) rounds)
            d
            (record { received = 0; good = true })
          ≡ ok (some (d', record { received = length rounds; good = true })))
        × IsIdle n d'.parser
  test_interface_passes n rounds d idle empty v few =
      let same : IsSame alg d d = record {
        address = refl;
        named = refl;
        room = refl;
        limit = refl;
      } in
      let (d', e, idle') =
        passes n rounds d d (record { received = 0; good = true }) v idle empty same refl
          (omega arith) in
      let all : 0 + length rounds ≡ length rounds = omega arith in (d', rw all at e, idle')
