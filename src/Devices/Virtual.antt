-- ===== src/Devices/Virtual.antt =====
-- `virtual_interface` of interface/testing/virtual.hpp: an encoder and decoder of fragments, whose
-- wire is a queue of containers that its user takes from and gives to.
pub mod Link
pub mod Stream
use libprotoserial.Prelude.{
  ℕ, List, [], ◌∷◌, ◌++◌, Bool, true, false, if◌then◌else◌, Option, none, some, Result, ok, ◌>>=◌,
}
use libprotoserial.Bytes.{Bytes, init, window, move}
use libprotoserial.Interface.Fragment.{Fragment}
use libprotoserial.Interface.Footer.{HashAlgorithm}
use libprotoserial.Interface.Frame.{serialize_fragment}
use libprotoserial.Interface.Queue.{Interface, Event, Serialized}
use libprotoserial.Interface.Queue
use libprotoserial.Interface.Ring.{put_single_received}
use libprotoserial.Interface.Receiver.{max_data_size}
use libprotoserial.Devices.{Device, put_all, with_rx}
use libprotoserial.Devices

pub record Virtual : Type 0 where
  pub device : Device
  pub serialized : List Bytes

pub has_serialized : Virtual → Bool
has_serialized v = elim v.serialized [ [] ↦ false | b ∷ bs ↦ true ]

-- The front of the queue, or an empty container.
unfoldable pub get_serialized : Virtual → Bytes × Virtual
get_serialized v = elim v.serialized [ [] ↦ (init, v) | b ∷ bs ↦ (b, record v { serialized = bs }) ]

-- `do_transmit`, whose answer is `true`.
unfoldable pub do_transmit : Bytes → Virtual → Virtual
do_transmit buff v = record v { serialized = v.serialized ++ (buff ∷ []) }

unfoldable pub put_serialized : Bytes → Virtual → Result Virtual
put_serialized bytes v = do
  l ← window bytes
  ok (record v {
    device = record (v.device) { parser = with_rx (put_all l v.device.parser.rx) v.device.parser };
  })

unfoldable pub put_single_serialized : ℕ → Virtual → Virtual
put_single_serialized b v = record v {
  device = record (v.device) {
    parser = with_rx (put_single_received b v.device.parser.rx) v.device.parser;
  };
}

-- The effect of `do_transmit` on the front of the transmit queue.
unfoldable pub passed_on : List Serialized → Virtual → Virtual
unfolding do_transmit
passed_on [] v = v
passed_on (s ∷ rest) v = do_transmit s.bytes v

module _ (alg : HashAlgorithm) where
  pub transmit : Fragment → Virtual → Result Virtual
  transmit p v = do
    i ← Queue.transmit (serialize_fragment alg) (max_data_size alg v.device.parser) p v.device.iface
    ok (record v { device = record (v.device) { iface = i } })

  pub main_task : ℕ → ℕ → Virtual → Result (Option (Virtual × List Event))
  unfolding passed_on
  main_task id now v = Devices.main_task alg id now true (λ b. true) v.device >>= λ r. elim r [
    | none ↦ ok none
    | some (d, es) ↦ ok (some (passed_on v.device.iface.tx_queue (record v { device = d }), es))
  ]

  pub process_and_get_serialized :
      ℕ → ℕ → Virtual → Result (Option (Virtual × List Event × Option Bytes))
  unfolding has_serialized get_serialized main_task
  process_and_get_serialized id now v = main_task id now v >>= λ r. elim r [
    | none ↦ ok none
    | some (v', es) ↦
        let (b, v'') = get_serialized v' in
        ok (some (if has_serialized v' then (v'', es, some b) else (v', es, none)))
  ]
