-- ===== src/Services/Command.antt =====
-- `command_server` of services/command_server.hpp. A command is what its `setup` makes of its
-- arguments: the commands are classes of the server's user.
pub mod Json
pub mod Client
pub mod Exchange
pub mod Run
pub mod Balance
mod Tests
mod ExchangeTests
use libprotoserial.Prelude.{
  ℕ, List, [], ◌∷◌, ◌++◌, Bool, true, false, ◌||◌, ◌&&◌, not, Option, none, some, Result, ok, err,
  decode_failed, ◌>>=◌, list_eq, if◌then◌else◌,
}
use libprotoserial.Bytes.{Bytes, window}
use libprotoserial.Bytes.Construct.{push_all}
use libprotoserial.Interface.Fragment.{InterfaceId}
use libprotoserial.Fragmentation.IdFactory.{IdFactory}
use libprotoserial.Fragmentation.Transfer.{Transfer}
use libprotoserial.Ports.Packet.{Packet, create_response_packet}
use libprotoserial.Ports.Handler.{Ports, unregister_service}
use libprotoserial.Services.{Service, bind_to_free}
use Json.{
  JsonLibrary, cmd_key, args_key, err_key, port_key, object_format, args_format, command_invalid,
  args_invalid, runtime_error,
}

pub data ExitStatus : Type 0 where
  done continue err_args err_runtime : ExitStatus

pub is_continue : ExitStatus → Bool
is_continue done = false
is_continue continue = true
is_continue err_args = false
is_continue err_runtime = false

module _ (json : JsonLibrary) where
  open json use {
    Json, decode_cbor, encode_cbor, is_object, is_array, is_string, get, as_string, string, number,
    object,
  }

  -- The virtual function `setup`.
  abbrev pub Setup : Type 0
  Setup = Json → ExitStatus

  -- An instance of a command with its endpoint.
  pub record Instance : Type 0 where
    pub service : Service
    pub setup : Setup
    pub is_running : Bool

  -- A factory gives a command, or the null pointer.
  pub record Server : Type 0 where
    pub service : Service
    pub cmd_map : List (List ℕ × Option Setup)
    pub active_cmd : List Instance

  pub insert_or_assign :
      List ℕ → Option Setup → List (List ℕ × Option Setup) → List (List ℕ × Option Setup)
  insert_or_assign name factory [] = (name, factory) ∷ []
  insert_or_assign name factory ((k, f) ∷ rest) =
      if list_eq k name then (k, factory) ∷ rest else (k, f) ∷ insert_or_assign name factory rest

  pub new_command : List ℕ → Option Setup → Server → Server
  unfolding insert_or_assign
  new_command name factory s = record s { cmd_map = insert_or_assign name factory s.cmd_map }

  pub lookup : List ℕ → List (List ℕ × Option Setup) → Option (Option Setup)
  lookup name [] = none
  lookup name ((k, f) ∷ rest) = if list_eq k name then some f else lookup name rest

  -- `command_base::start`; the query has the key.
  pub start : Instance → Json → ExitStatus × Instance
  unfolding is_continue
  start i args =
      let ret = i.setup args in (ret, if is_continue ret then record i { is_running = true } else i)

  -- What a query asks for, or the error that is sent back.
  pub data Query : Type 0 where
    refused : List ℕ → Query
    asks : List ℕ → Option Setup → Json → Query

  pub query_of : Server → Json → Query
  unfolding lookup
  query_of s j = if not (is_object j) then refused object_format else elim (get cmd_key j) [
    | none ↦ refused object_format
    | some cmd ↦ if not (is_string cmd) then refused object_format else elim (get args_key j) [
      | none ↦ refused args_format
      | some args ↦
          if not (is_array args)
          then refused args_format
          else elim (lookup (as_string cmd) s.cmd_map) [
            | none ↦ refused (command_invalid ++ as_string cmd)
            | some factory ↦ asks (as_string cmd) factory args
          ]
    ]
  ]

  -- A response with a value as its data, as `transmit_error` makes it too.
  pub respond : ℕ → ℕ → IdFactory → Packet → Json → Result (Packet × IdFactory)
  unfolding create_response_packet
  respond object_id now ids p jr = do
    let (resp, ids') = create_response_packet p object_id now ids
    payload ← push_all (encode_cbor jr) resp.payload
    ok (record resp { payload = payload }, ids')

  -- The member that the status adds to the response.
  pub status_member : ExitStatus → ℕ → List ℕ × Json
  status_member done port = (port_key, number port)
  status_member continue port = (port_key, number port)
  status_member err_args port = (err_key, string args_invalid)
  status_member err_runtime port = (err_key, string runtime_error)

  -- What `receive` leaves, and the packet that it transmits.
  pub record Received : Type 0 where
    pub server : Server
    pub ports : Ports
    pub reply : Packet
    pub ids : IdFactory

  -- The instance that was bound is started, and kept only if it goes on.
  pub run_command : Instance → Json → Server → Ports → (List ℕ × Json) × Server × Ports
  unfolding start status_member is_continue
  run_command i args s l =
      let (status, i') = start i args in
      (
        status_member status i.service.port,
        (if is_continue status then record s { active_cmd = s.active_cmd ++ (i' ∷ []) } else s),
        (if is_continue status then l else unregister_service i.service.port l),
      )

  -- A command's factory: the null pointer is answered with a runtime error.
  pub invoke :
      Option Setup → Json → Server → Ports → Result (Option ((List ℕ × Json) × Server × Ports))
  unfolding run_command status_member
  invoke none args s l = ok (some (status_member err_runtime 0, s, l))
  invoke (some setup) args s l = bind_to_free l >>= λ r. elim r [
    | none ↦ ok none
    | some (service, l') ↦
        let i : Instance = record { service = service; setup = setup; is_running = false } in
        ok (some (run_command i args s l'))
  ]

  -- What is done with a query, and the answer.
  pub answer : Query → Server → Ports → Result (Option (Json × Server × Ports))
  unfolding invoke
  answer (refused message) s l = ok (some (object ((err_key, string message) ∷ []), s, l))
  answer (asks cmd factory args) s l = invoke factory args s l >>= λ r. elim r [
    | none ↦ ok none
    | some (m, s', l') ↦ ok (some (object ((cmd_key, string cmd) ∷ m ∷ []), s', l'))
  ]

  -- `receive`; nothing means that the search for a port ran out of fuel.
  pub receive : ℕ → ℕ → IdFactory → Packet → Server → Ports → Result (Option Received)
  unfolding query_of answer respond
  receive object_id now ids p s l = window p.payload >>= λ raw. elim (decode_cbor raw) [
    | none ↦ err decode_failed
    | some j ↦ answer (query_of s j) s l >>= λ r. elim r [
      | none ↦ ok none
      | some (jr, s', l') ↦ respond object_id now ids p jr >>= λ (reply, ids').
          ok (some (record { server = s'; ports = l'; reply = reply; ids = ids' }))
    ]
  ]
