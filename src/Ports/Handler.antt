-- ===== src/Ports/Handler.antt =====
-- `ports_handler` of ports/ports.hpp.
pub mod Register
pub mod Deliver
pub mod Release
pub mod Table
mod Tests
use libprotoserial.Prelude.{
  ℕ, zero, suc, ◌+◌, ◌%◌, ◌^◌, List, [], ◌∷◌, ◌++◌, Bool, true, false, Option, none, some, Result,
  ok, err, already_registered, invalid_port, ◌>>=◌, leb, ◌==◌, ◌||◌, if◌then◌else◌, length,
}
use libprotoserial.Bytes.{Bytes, size, shrink, push_front, to_bytes}
use libprotoserial.Bytes.Memory.{read_range}
use libprotoserial.Interface.Fragment.{InterfaceId, same_interface}
use libprotoserial.Fragmentation.Transfer.{Transfer}
use libprotoserial.Ports.Packet.{Packet, of_transfer, renewed, is_transmit_ready}
use libprotoserial.Ports.Header.{header, header_size, is_valid, encode, decode}

-- `prealloc_size` of data/prealloc_size.hpp.
pub record PreallocSize : Type 0 where
  pub front : ℕ
  pub back : ℕ

-- The registered ports and interfaces, oldest first.
pub record Ports : Type 0 where
  pub services : List ℕ
  pub interfaces : List InterfaceId
  pub prealloc : PreallocSize

unfoldable pub has_service : ℕ → List ℕ → Bool
has_service p [] = false
has_service p (q ∷ qs) = (q == p) || has_service p qs

unfoldable pub has_interface : InterfaceId → List InterfaceId → Bool
has_interface iid [] = false
has_interface iid (j ∷ js) = same_interface j iid || has_interface iid js

pub register_interface : InterfaceId → Ports → Result Ports
register_interface iid h =
    if has_interface iid h.interfaces
    then err already_registered
    else ok (record h { interfaces = h.interfaces ++ (iid ∷ []) })

pub register_service : ℕ → Ports → Result Ports
register_service p h =
    if p == 0
    then err invalid_port
    else if has_service p h.services
    then err already_registered
    else ok (record h { services = h.services ++ (p ∷ []) })

-- The list without the first service at a port.
pub remove_service : ℕ → List ℕ → List ℕ
remove_service p [] = []
remove_service p (q ∷ qs) = if q == p then qs else q ∷ remove_service p qs

pub unregister_service : ℕ → Ports → Ports
unregister_service p h = record h { services = remove_service p h.services }

-- `get_free_port`: the loop from a port on; no port means that the fuel ran out.
pub free_from : ℕ → ℕ → List ℕ → Option ℕ
free_from zero p services = none
free_from (suc k) p services =
    let rest = free_from k (p + 1) services in if has_service p services then rest else some p

pub get_free_port : Ports → Option ℕ
unfolding free_from
get_free_port h = free_from (suc (length h.services)) 100 h.services

-- `get_minimum_prealloc`
pub get_minimum_prealloc : Ports → PreallocSize
get_minimum_prealloc h = record { front = h.prealloc.front + header_size; back = h.prealloc.back }

-- `transfer_receive_callback`: the port that the packet is handed to, with the packet, under the
-- identifier of the new object.
pub transfer_receive : ℕ → Transfer → Ports → Result (Option (ℕ × Packet))
transfer_receive object_id t h =
    if leb header_size (size t.payload)
    then (do
      raw ← read_range t.payload.base t.payload.offset header_size
      let hd = decode raw
      if is_valid hd
          then (if has_service hd.destination h.services
              then (do
                rest ← shrink header_size 0 t.payload
                ok (
                    some (
                      hd.destination,
                      of_transfer (record t { payload = rest }) hd.source hd.destination object_id,
                    )))
              else ok none)
          else ok none)
    else ok none

-- `transmit` from a port: the transfer that is handed to the packet's interface, under the
-- identifier of the new object.
pub transmit : ℕ → ℕ → Packet → Ports → Result (Option (InterfaceId × Transfer))
transmit object_id source p h =
    if is_transmit_ready p
    then (do
      hb ← to_bytes (encode (header p.meta.destination_port source)) 0
      payload ← push_front p.payload hb
      let iid = p.meta.transfer.fragment.interface_id
      if has_interface iid h.interfaces
          then ok
              (some (iid, record { meta = renewed object_id p.meta.transfer; payload = payload }))
          else ok none)
    else ok none
