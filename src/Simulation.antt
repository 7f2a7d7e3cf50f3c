-- ===== src/Simulation.antt =====
-- `wire` and `fullduplex` of testing/simulation.hpp: bytes that are put on the wire wait in a queue
-- for each other endpoint, and each call of `dispatch` hands out one byte of each queue. An
-- endpoint's subscribers act on an owner of their own. The mutex makes a call one step; the thread
-- that calls `dispatch`, and the owners' threads, are the order of the actions of a run.
pub mod Order
pub mod Exchange
mod Tests
use libprotoserial.Prelude.{
  ℕ, zero, suc, ◌+◌, List, [], ◌∷◌, ◌++◌, Option, none, some, Result, ok, ◌>>=◌, ◌==◌,
  if◌then◌else◌, get_elem?, set,
}
use libprotoserial.Bytes.{Bytes, window}
use libprotoserial.Observer.{Subject, emit}

-- The entries of `receive_events` and `_endpoints` at one index.
pub record Endpoint (S : Type 0) : Type 0 where
  pub receive_event : Subject ℕ S
  pub queue : List ℕ
  pub owner : S

-- What happens on the wire: bytes are put by an endpoint, or handed out.
pub data Action : Type 0 where
  put_bytes : ℕ → List ℕ → Action
  tick : Action

module _ {S : Type 0} where
  pub push_all : List ℕ → Endpoint S → Endpoint S
  push_all l e = record e { queue = e.queue ++ l }

  -- The loop of `put` from the endpoint `i` on.
  pub put_from : ℕ → ℕ → List ℕ → List (Endpoint S) → List (Endpoint S)
  unfolding push_all
  put_from i origin l [] = []
  put_from i origin l (e ∷ es) =
      (if i == origin then e else push_all l e) ∷ put_from (i + 1) origin l es

  -- Both functions `put`, of a byte and of a container.
  pub put_byte : ℕ → ℕ → List (Endpoint S) → List (Endpoint S)
  unfolding put_from
  put_byte origin b es = put_from 0 origin (b ∷ []) es

  pub put : ℕ → Bytes → List (Endpoint S) → Result (List (Endpoint S))
  unfolding put_from
  put origin b es = do l ← window b; ok (put_from 0 origin l es)

  -- What `dispatch` does with one endpoint.
  pub dispatch_one : Endpoint S → Endpoint S
  dispatch_one e = elim e.queue [
    | [] ↦ e
    | b ∷ q ↦ record e { queue = q; owner = emit b e.receive_event e.owner }
  ]

  pub dispatch : List (Endpoint S) → List (Endpoint S)
  unfolding dispatch_one
  dispatch [] = []
  dispatch (e ∷ es) = dispatch_one e ∷ dispatch es

  -- Something happens at an endpoint's owner.
  unfoldable pub with_owner : ℕ → S → List (Endpoint S) → List (Endpoint S)
  with_owner i s [] = []
  with_owner zero s (e ∷ es) = record e { owner = s } ∷ es
  with_owner (suc i) s (e ∷ es) = e ∷ with_owner i s es

  pub act : Action → List (Endpoint S) → List (Endpoint S)
  unfolding put_from dispatch
  act (put_bytes origin l) es = put_from 0 origin l es
  act tick es = dispatch es

  pub run : List Action → List (Endpoint S) → List (Endpoint S)
  unfolding act
  run [] es = es
  run (a ∷ rest) es = run rest (act a es)
