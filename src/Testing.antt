-- ===== src/Testing.antt =====
-- `test_interface` of testing/testers.hpp, on a loopback interface: fragments are transmitted one
-- by one, each followed by three calls of `main_task`, and what is received is compared and
-- counted.
pub mod Passes
mod Tests
use libprotoserial.Prelude.{
  ℕ, ◌+◌, ◌%◌, ◌^◌, List, [], ◌∷◌, Bool, ◌&&◌, ◌==◌, Option, none, some, Result, ok, ◌>>=◌,
}
use libprotoserial.Bytes.{Bytes, copy, equal}
use libprotoserial.Interface.Fragment.{Fragment}
use libprotoserial.Interface.Footer.{HashAlgorithm}
use libprotoserial.Interface.Queue.{
  Event, receive, broadcast_receive, other_receive, transmit_began,
}
use libprotoserial.Devices.{Device}
use libprotoserial.Devices.Loopback.{transmit, main_task}

-- The number of received fragments, and whether all expectations held.
pub record Tally : Type 0 where
  pub received : ℕ
  pub good : Bool

-- The callback of `receive_event`, with the fragment `tmp` that was sent.
pub on_event : Fragment → Event → Tally → Result Tally
on_event tmp (receive p) t = do
  same ← equal tmp.payload p.payload
  ok (record {
    received = (t.received + 1) % 2 ^ 32;
    good = t.good && (same && (tmp.meta.destination == p.meta.source));
  })
on_event tmp (broadcast_receive p) t = ok t
on_event tmp (other_receive p) t = ok t
on_event tmp (transmit_began object_id) t = ok t

pub on_events : Fragment → List Event → Tally → Result Tally
unfolding on_event
on_events tmp [] t = ok t
on_events tmp (e ∷ es) t = on_event tmp e t >>= on_events tmp es

-- One fragment that is generated, with the identifier of its copy, and the identifiers and times of
-- the three calls.
pub record Round : Type 0 where
  pub tmp : Fragment
  pub object_id : ℕ
  pub times : (ℕ × ℕ) × (ℕ × ℕ) × (ℕ × ℕ)

module _ (alg : HashAlgorithm) (wire : ℕ → ℕ) where
  -- A call of `main_task` with the callbacks that it leads to; nothing means that it ran out of
  -- rounds.
  pub task : Fragment → ℕ × ℕ → Device → Tally → Result (Option (Device × Tally))
  unfolding on_events
  task tmp (id, now) d t = main_task alg wire id now d >>= λ r. elim r [
    | none ↦ ok none
    | some (d', es) ↦ do t' ← on_events tmp es t; ok (some (d', t'))
  ]

  pub tasks : Fragment → List (ℕ × ℕ) → Device → Tally → Result (Option (Device × Tally))
  unfolding task
  tasks tmp [] d t = ok (some (d, t))
  tasks tmp (time ∷ times) d t =
      task tmp time d t >>= λ r. elim r [ none ↦ ok none | some (d', t') ↦ tasks tmp times d' t' ]

  -- The copy of the fragment is transmitted, and the calls follow.
  pub round : Round → Device → Tally → Result (Option (Device × Tally))
  unfolding tasks
  round r d t = do
    payload ← copy r.tmp.payload
    d' ←
        transmit alg
          (record { meta = record (r.tmp.meta) { object_id = r.object_id }; payload = payload }) d
    let (first, second, third) = r.times
    tasks r.tmp (first ∷ second ∷ third ∷ []) d' t

  pub test_interface : List Round → Device → Tally → Result (Option (Device × Tally))
  unfolding round
  test_interface [] d t = ok (some (d, t))
  test_interface (r ∷ rs) d t =
      round r d t >>= λ q. elim q [ none ↦ ok none | some (d', t') ↦ test_interface rs d' t' ]
