-- ===== src/Services/Command/Balance.antt =====
-- What `receive` of services/command_server.hpp leaves registered.
use libprotoserial.Prelude.{
  ℕ, ◌^◌, ◌<◌, ◌≡◌, ◌≢◌, ◌⊎◌, inl, inr, refl, List, [], ◌∷◌, ◌++◌, true, false, none, some, ok, err,
  decode_failed, arith, length, Bool-cases,
}
use libprotoserial.Bytes.Layout.{Represents}
use libprotoserial.Bytes.Spec.{window-Represents, laid_out-Represents}
use libprotoserial.Bytes.Construct.{push_all-Represents}
use libprotoserial.Fragmentation.IdFactory.{IdFactory, new_id_low}
use libprotoserial.Fragmentation.Transfer.{create_response_transfer_metadata}
use libprotoserial.Ports.Packet.{Packet, create_response_packet, create_response_packet_metadata}
use libprotoserial.Ports.Handler.{Ports, get_minimum_prealloc}
use libprotoserial.Ports.Handler.Register.{FirstFree, get_free_port-FirstFree}
use libprotoserial.Ports.Handler.Release.{register_free, unregister_free}
use libprotoserial.Services.{Service, bind_to, bind_to_free}
use libprotoserial.Services.Command.Json.{JsonLibrary, cmd_key}
use libprotoserial.Services.Command.{
  Server, Instance, Setup, Query, refused, asks, Received, is_continue, run_command, invoke, answer,
  query_of, respond, receive, start, status_member,
}

-- A bound service has the first free port, and is registered last.
pub bind_to_free-FirstFree :
    (l : Ports)
    → (s : Service) × (bind_to_free l
        ≡ ok (some (s, record l { services = l.services ++ (s.port ∷ []) })))
      × FirstFree 100 l.services s.port
unfolding bind_to_free bind_to
bind_to_free-FirstFree l =
    let (r, e, free) = get_free_port-FirstFree l in
    let l' = record l { services = l.services ++ (r ∷ []) } in
    let registered = register_free r l (λ z. absurd (omega (arith, free.0))) free.1 in
    (
      record { port = r; prealloc = get_minimum_prealloc l' },
      rw (bind_to_free, e, bind_to, registered) refl,
      free,
    )

module _ (json : JsonLibrary) where
  open json use {Json, decode_cbor, encode_cbor, object, string}

  -- The server and the handler are as before, or the command goes on at the first free port.
  abbrev pub Balanced : Server json → Ports → Server json → Ports → Type 0
  Balanced s l s' l' =
      ((s' ≡ s) × (l' ≡ l))
      ⊎ ((i : Instance json) × (i.is_running ≡ true)
          × FirstFree 100 l.services i.service.port
          × (s' ≡ record s { active_cmd = s.active_cmd ++ (i ∷ []) })
          × (l' ≡ record l { services = l.services ++ (i.service.port ∷ []) }))

  run_command-Balanced :
      (service : Service) (setup : Setup json) (args : Json) (s : Server json) (l : Ports)
      → FirstFree 100 l.services service.port
      → let r =
          run_command json
            (record { service = service; setup = setup; is_running = false })
            args
            s
            (record l { services = l.services ++ (service.port ∷ []) }) in
        Balanced s l r.1 r.2
  unfolding run_command start
  run_command-Balanced service setup args s l free = elim (Bool-cases (is_continue (setup args))) [
    | inl goes_on ↦ inr (
      record { service = service; setup = setup; is_running = true },
      refl,
      free,
      rw goes_on refl,
      rw goes_on refl,
    )
    | inr ends ↦ inl (rw ends refl, rw ends (unregister_free service.port l free.1))
  ]

  -- A registered command is run, and the answer has its status.
  pub answer-asks :
      (cmd : List ℕ) (setup : Setup json) (args : Json) (s : Server json) (l : Ports)
      → (port : ℕ) × (s' : Server json) × (l' : Ports) × (answer json
            (asks cmd (some setup) args)
            s
            l
          ≡ ok (
              some (
                object ((cmd_key, string cmd) ∷ status_member json (setup args) port ∷ []),
                s',
                l',
              )))
        × FirstFree 100 l.services port
        × Balanced s l s' l'
  unfolding answer invoke run_command start
  answer-asks cmd setup args s l =
      let (service, e, free) = bind_to_free-FirstFree l in
      let i : Instance json = record { service = service; setup = setup; is_running = false } in
      let r =
        run_command json i args s (record l { services = l.services ++ (service.port ∷ []) }) in
      (service.port, r.1, r.2, rw e refl, free, run_command-Balanced service setup args s l free)

  answer-Balanced :
      (q : Query json) (s : Server json) (l : Ports)
      → (jr : Json) × (s' : Server json) × (l' : Ports) × (answer json q s l
          ≡ ok (some (jr, s', l')))
        × Balanced s l s' l'
  unfolding answer invoke
  answer-Balanced (refused message) s l = (_, s, l, refl, inl (refl, refl))
  answer-Balanced (asks cmd none args) s l = (_, s, l, refl, inl (refl, refl))
  answer-Balanced (asks cmd (some setup) args) s l =
      let (port, s', l', e, _, balanced) = answer-asks cmd setup args s l in
      (_, s', l', e, balanced)

  pub respond-Represents :
      (object_id now : ℕ) (ids : IdFactory) (p : Packet) (jr : Json)
      → length (encode_cbor jr) < 2 ^ 31
      → (q : Packet) × (ids' : IdFactory) × (respond json object_id now ids p jr ≡ ok (q, ids'))
        × Represents q.payload (encode_cbor jr)
        × (q.meta.destination_port ≡ p.meta.source_port)
        × (q.meta.transfer.fragment.destination ≡ p.meta.transfer.fragment.source)
        × (q.meta.transfer.id ≢ 0)
        × (q.meta.transfer.fragment.interface_id ≡ p.meta.transfer.fragment.interface_id)
  unfolding respond create_response_packet create_response_packet_metadata
      create_response_transfer_metadata
  respond-Represents object_id now ids p jr small =
      let (c, e, r) =
        push_all-Represents (encode_cbor jr) (laid_out-Represents 0 [] 0 (omega arith))
          (omega arith) in
      let (resp, ids') = create_response_packet p object_id now ids in
      (
        record resp { payload = c },
        ids',
        rw e refl,
        r,
        refl,
        refl,
        new_id_low p.meta.transfer.fragment.interface_id ids,
        refl,
      )

  -- The answer to a query has an encoding of fewer than 2 ^ 31 bytes.
  abbrev pub IsShort : Json → Server json → Ports → Type 0
  IsShort j s l =
      (jr : Json) (s' : Server json) (l' : Ports)
      → answer json (query_of json s j) s l ≡ ok (some (jr, s', l'))
      → length (encode_cbor jr) < 2 ^ 31

  -- On data that decodes to a query whose answer has an encoding of fewer than 2 ^ 31 bytes, the
  -- server answers to the port and the address that the query came from. Then the server and the
  -- registered services are as before, also after a command that was run, unless a command was
  -- started that goes on: this one is the last of the active ones, and has the first free port from
  -- 100 on, registered last.
  pub receive-Balanced :
      (object_id now : ℕ) (ids : IdFactory) (p : Packet) (s : Server json) (l : Ports)
      (raw : List ℕ) (j : Json)
      → Represents p.payload raw
      → decode_cbor raw ≡ some j
      → IsShort j s l
      → (r : Received json) × (receive json object_id now ids p s l ≡ ok (some r))
        × (r.reply.meta.destination_port ≡ p.meta.source_port)
        × (r.reply.meta.transfer.fragment.destination ≡ p.meta.transfer.fragment.source)
        × Balanced s l r.server r.ports
  unfolding receive
  receive-Balanced object_id now ids p s l raw j v decoded small =
      let (jr, s', l', e, balanced) = answer-Balanced (query_of json s j) s l in
      let (reply, ids', e', r, port, address, _, _) =
        respond-Represents object_id now ids p jr (small jr s' l' e) in
      (
        record { server = s'; ports = l'; reply = reply; ids = ids' },
        rw (window-Represents v, decoded, e, e') refl,
        port,
        address,
        balanced,
      )

  -- Data that does not decode is an exception that leaves `receive`.
  pub receive_throws :
      (object_id now : ℕ) (ids : IdFactory) (p : Packet) (s : Server json) (l : Ports)
      (raw : List ℕ)
      → Represents p.payload raw
      → decode_cbor raw ≡ none
      → receive json object_id now ids p s l ≡ err decode_failed
  unfolding receive
  receive_throws object_id now ids p s l raw v bad = rw (window-Represents v, bad) refl
