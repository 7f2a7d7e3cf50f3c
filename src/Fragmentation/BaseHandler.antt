-- ===== src/Fragmentation/BaseHandler.antt =====
-- `base_fragmentation_handler` of fragmentation/base_handler.hpp: the transfers in progress, what a
-- received fragment does to them, and the choice of the transfer to transmit.
pub mod Choose
mod Tests
use libprotoserial.Prelude.{
  ℕ, zero, suc, List, [], ◌∷◌, ◌++◌, Bool, true, false, ◌&&◌, ◌||◌, not, Option, none, some, Result,
  ok, err, ◌>>=◌, ltb, leb, ◌==◌, if◌then◌else◌,
}
use libprotoserial.Bytes.{Bytes, size, shrink}
use libprotoserial.Bytes.Memory.{read_range, sub_size}
use libprotoserial.Interface.Fragment.{Fragment, carries_information}
use libprotoserial.Fragmentation.Transfer.{Transfer}
use libprotoserial.Fragmentation.FragmentHeader.{
  Header, header_size, is_valid, decode, message_code, fragment_message, fragment_req, fragment_ack,
}
use libprotoserial.Fragmentation.TransferHandler.{
  TransferHandler, of_transfer, of_fragment, is_incoming, is_part_of, is_request_of, put_fragment,
  retransmit_request, fragment_transmitted, transmit_ready, is_waiting, get_current_fragment,
}

-- What a call tells its surroundings.
pub data Event : Type 0 where
  transmit_complete : ℕ → Event
  bordering_response : TransferHandler → ℕ → Event
  transmit_event : Fragment → Event

pub is_current_bordering : TransferHandler → Bool
is_current_bordering h = (h.current_fragment == 1) || (h.current_fragment == h.fragments_total)

-- `find_transfer`, as the transfers before the first that satisfies the predicate, it, and the
-- rest.
pub find_transfer :
    (TransferHandler → Bool)
    → List TransferHandler
    → Option (List TransferHandler × TransferHandler × List TransferHandler)
find_transfer pred [] = none
find_transfer pred (t ∷ ts) = if pred t then some ([], t, ts) else elim (find_transfer pred ts) [
  | none ↦ none
  | some (before, u, rest) ↦ some (t ∷ before, u, rest)
]

-- The three kinds of fragments. `object_id`, `now` and `garbage` go to the receive constructor.
receive_data :
    Fragment
    → Header
    → ℕ
    → ℕ
    → ℕ
    → List TransferHandler
    → Result (List TransferHandler × List Event)
receive_data f h object_id now garbage ts =
    if size f.payload == 0
    then ok (ts, [])
    else elim (find_transfer (λ t. is_incoming t && is_part_of f h t) ts) [
      | some (before, t, rest) ↦
          put_fragment h.fragment f t >>= λ (done, t'). ok (before ++ (t' ∷ rest), [])
      | none ↦
          if h.fragment == 1
          then (do t ← of_fragment f h object_id now garbage; ok (ts ++ (t ∷ []), []))
          else ok (ts, [])
    ]

bordering_events : TransferHandler → Header → List Event
bordering_events t h = if is_current_bordering t then bordering_response t h.type ∷ [] else []

receive_request : Fragment → Header → List TransferHandler → List TransferHandler × List Event
receive_request f h ts = elim (find_transfer (λ t. not (is_incoming t) && is_request_of f h t) ts) [
  | some (before, t, rest) ↦
      (before ++ ((retransmit_request h.fragment t).1 ∷ rest), bordering_events t h)
  | none ↦ (ts, [])
]

pub receive_ack : Fragment → Header → List TransferHandler → List TransferHandler × List Event
receive_ack f h ts = elim (find_transfer (λ t. not (is_incoming t) && is_request_of f h t) ts) [
  | some (before, t, rest) ↦ (
    before ++ rest,
    bordering_events t h ++ (transmit_complete t.transfer.meta.fragment.object_id ∷ []),
  )
  | none ↦ (ts, [])
]

-- `do_receive`
pub do_receive :
    Fragment → ℕ → ℕ → ℕ → List TransferHandler → Result (List TransferHandler × List Event)
do_receive f object_id now garbage ts =
    if carries_information f && leb header_size (size f.payload)
    then (do
      raw ← read_range f.payload.base f.payload.offset header_size
      let h = decode raw
      if is_valid h
          then (do
            rest ← shrink header_size 0 f.payload
            let f' = record f { payload = rest }
            if h.type == message_code fragment_message
                then receive_data f' h object_id now garbage ts
                else if h.type == message_code fragment_req
                then ok (receive_request f' h ts)
                else if h.type == message_code fragment_ack
                then ok (receive_ack f' h ts)
                else ok (ts, []))
          else ok (ts, []))
    else ok (ts, [])

-- `do_transmit`, with the interface's limit on a fragment's data.
pub do_transmit : Transfer → ℕ → ℕ → List TransferHandler → List TransferHandler
do_transmit t max_data_size garbage ts =
    ts ++ (of_transfer t (sub_size max_data_size header_size) garbage ∷ [])

pub transmit_began_callback : ℕ → ℕ → List TransferHandler → List TransferHandler
transmit_began_callback id now ts =
    elim (find_transfer (λ t. is_waiting t.state && (t.transmitted_fragment_id == id)) ts) [
      | some (before, t, rest) ↦ before ++ ((fragment_transmitted now t).1 ∷ rest)
      | none ↦ ts
    ]

-- The first loop of `do_main`; nothing means that the fuel ran out. The iterator stays where it is.
pub housekeeping : ℕ → List TransferHandler → Option (List TransferHandler)
housekeeping zero ts = none
housekeeping (suc k) [] = some []
housekeeping (suc k) (t ∷ ts) = housekeeping k (t ∷ ts)

-- What a subclass decides; the priorities, of type `int`, are counted from the least one.
module _ (priority : TransferHandler → ℕ) (is_peer_ready : TransferHandler → Bool) where
  unfoldable pub is_candidate : TransferHandler → Bool
  is_candidate t = not (is_incoming t) && transmit_ready t.state && is_peer_ready t

  -- One round of the second loop: a later transfer is preferred where its priority is higher.
  unfoldable pub prefer : Option TransferHandler → TransferHandler → Option TransferHandler
  prefer none t = if is_candidate t then some t else none
  prefer (some u) t = if is_candidate t && ltb (priority u) (priority t) then some t else some u

  unfoldable pub select : Option TransferHandler → List TransferHandler → Option TransferHandler
  select best [] = best
  select best (t ∷ ts) = select (prefer best t) ts

  -- The transfer that is chosen, in its place: the first candidate of the highest priority.
  pub to_transmit :
      List TransferHandler → Option (List TransferHandler × TransferHandler × List TransferHandler)
  unfolding is_candidate select find_transfer
  to_transmit ts = elim (select none ts) [
    | none ↦ none
    | some t ↦ find_transfer (λ u. is_candidate u && (priority u == priority t)) ts
  ]

  -- The second half of `do_main`, with the prealloc size and the identifier of a new object.
  pub transmit_one : ℕ → ℕ → ℕ → List TransferHandler → Result (List TransferHandler × List Event)
  unfolding to_transmit
  transmit_one front back object_id ts = elim (to_transmit ts) [
    | none ↦ ok (ts, [])
    | some (before, t, rest) ↦ get_current_fragment front back object_id t >>= λ (f, t'). elim f [
      | none ↦ ok (before ++ (t' ∷ rest), [])
      | some f ↦ ok (before ++ (t' ∷ rest), transmit_event f ∷ [])
    ]
  ]

  -- `do_main`; nothing means that the fuel of its first loop ran out. `allowed` is the answer of
  -- `is_fragment_transmit_allowed`.
  pub do_main :
      ℕ
      → Bool
      → ℕ
      → ℕ
      → ℕ
      → List TransferHandler
      → Result (Option (List TransferHandler × List Event))
  unfolding transmit_one
  do_main fuel allowed front back object_id ts = elim (housekeeping fuel ts) [
    | none ↦ ok none
    | some ts' ↦
        if not allowed
        then ok (some (ts', []))
        else (transmit_one front back object_id ts' >>= λ r. ok (some r))
  ]
