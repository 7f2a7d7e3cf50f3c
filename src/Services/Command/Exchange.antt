-- ===== src/Services/Command/Exchange.antt =====
-- A command goes from services/command_client.hpp to services/command_server.hpp, and its answer
-- comes back, through the handlers of ports/ports.hpp on both sides.
use libprotoserial.Prelude.{
  ℕ, ◌+◌, ◌%◌, ◌^◌, ◌<◌, ◌≡◌, ◌≢◌, refl, ap, ◌∙◌, inl, inr, List, [], ◌∷◌, ◌++◌, true, Option, none,
  some, ok, arith, length, list_eq, if◌then◌else◌,
}
use libprotoserial.Bytes.Layout.{Represents}
use libprotoserial.Bytes.Spec.{size-Represents, window-Represents}
use libprotoserial.Interface.Fragment.{InterfaceId}
use libprotoserial.Fragmentation.IdFactory.{IdFactory}
use libprotoserial.Fragmentation.Transfer.{Transfer, TransferMetadata}
use libprotoserial.Ports.Packet.{Packet, of_transfer, is_transmit_ready, renewed}
use libprotoserial.Ports.Header.{header, encode}
use libprotoserial.Ports.Handler.{Ports, has_interface, has_service, transfer_receive}
use libprotoserial.Ports.Handler.Register.{FirstFree, has_service-append}
use libprotoserial.Ports.Handler.Deliver.{transmit_lem, transfer_receive_lem}
use libprotoserial.Services.{transmit}
use libprotoserial.Services.Command.Json.{JsonLibrary, Encoder, cmd_key, to_json}
use libprotoserial.Services.Command.{
  Server, Setup, Received, receive, lookup, query_of, asks, status_member,
}
use libprotoserial.Services.Command.Balance.{Balanced, answer-asks, respond-Represents}
use libprotoserial.Services.Command.Client.{Client, Sent, query, send_command, send_command_lem}
use libprotoserial.Services.Command.Client

module _ (json : JsonLibrary) where
  open json use {
    Json, decode_cbor, encode_cbor, is_object, is_array, is_string, get, as_string, string, number,
    array, object,
  }

  -- The first member of a name.
  unfoldable pub member : List ℕ → List (List ℕ × Json) → Option Json
  member name [] = none
  member name ((k, v) ∷ rest) = if list_eq k name then some v else member name rest

  -- What the library's documentation says of the values that the services make.
  pub record JsonLaws : Type 0 where
    pub decode-encode : (j : Json) → decode_cbor (encode_cbor j) ≡ some j
    pub object-is_object : (ms : List (List ℕ × Json)) → is_object (object ms) ≡ true
    pub get-object :
        (name : List ℕ) (ms : List (List ℕ × Json)) → get name (object ms) ≡ member name ms
    pub string-is_string : (text : List ℕ) → is_string (string text) ≡ true
    pub as_string-string : (text : List ℕ) → as_string (string text) ≡ text
    pub array-is_array : (vs : List Json) → is_array (array vs) ≡ true

  -- A client's query asks for its command, where the server has it.
  pub query_of-query :
      (cmd : List ℕ) (args : Encoder json) (port : ℕ) (s : Server json) {setup : Setup json}
      → JsonLaws
      → lookup json cmd s.cmd_map ≡ some (some setup)
      → query_of json s (query json cmd args port) ≡ asks cmd (some setup) (to_json json args)
  unfolding query_of query member list_eq to_json
  query_of-query cmd args port s v found = simp (
    v.object-is_object, v.get-object, v.string-is_string, v.array-is_array, v.as_string-string,
    found,
  )

  Balanced-interfaces :
      (s : Server json) (k : Ports) {s' : Server json} {k' : Ports}
      → Balanced json s k s' k'
      → k'.interfaces ≡ k.interfaces
  Balanced-interfaces s k (inl (a, b)) = ap (λ h. h.interfaces) b
  Balanced-interfaces s k (inr (i, a, b, c, d)) = ap (λ h. h.interfaces) d

  -- The answer to a command that was run, and bytes that a packet can carry.
  abbrev pub answer_of : List ℕ → Setup json → Encoder json → ℕ → Json
  answer_of cmd setup args port =
      object ((cmd_key, string cmd) ∷ status_member json (setup (to_json json args)) port ∷ [])

  abbrev pub Carriable : Json → Type 0
  Carriable j = (0 < length (encode_cbor j)) × (length (encode_cbor j) + 3 < 2 ^ 31)

  -- What the way to the server and back needs, for a command to a port from a client with a handler
  -- `l` to a server with a handler `k`, which sees the query's transfer with the metadata `m`.
  pub record Connected (port : ℕ) (c : Client) (l : Ports) (s : Server json) (k : Ports)
      (m : TransferMetadata) : Type 0 where
    pub to_port : port % 256 ≢ 0
    pub from_port : c.service.port % 256 ≢ 0
    pub served : has_service (port % 256) k.services ≡ true
    pub listened : has_service (c.service.port % 256) l.services ≡ true
    pub server_port : s.service.port % 256 ≢ 0
    pub back_known : has_interface m.fragment.interface_id k.interfaces ≡ true
    pub back_address : m.fragment.source ≢ 0

  module _ (object_id now object_id' j₁ object_id₂ now₂ j₂ j₃ : ℕ) (ids ids₂ : IdFactory)
      (laws : JsonLaws) where
    -- The server's half: the query comes in, the command runs, and the answer is transmitted.
    answers :
        (port conn_port : ℕ) (cmd : List ℕ) (args : Encoder json) {setup : Setup json} (c : Client)
        (l : Ports) (s : Server json) (k : Ports) (t : Transfer)
        → lookup json cmd s.cmd_map ≡ some (some setup)
        → Connected port c l s k t.meta
        → Represents t.payload
            (encode (header port c.service.port) ++ encode_cbor (query json cmd args conn_port))
        → ((q : ℕ) → Carriable (answer_of cmd setup args q))
        → (q : Packet) × (r : Received json) × (t' : Transfer) × (free : ℕ) × (transfer_receive j₁ t
              k
            ≡ ok (some (port % 256, q)))
          × (receive json object_id₂ now₂ ids₂ q s k ≡ ok (some r))
          × (transmit j₂ s.service r.reply r.ports ≡ ok (some (t.meta.fragment.interface_id, t')))
          × FirstFree 100 k.services free
          × Balanced json s k r.server r.ports
          × (t'.meta.fragment.destination ≡ t.meta.fragment.source)
          × Represents t'.payload (
              encode (header (c.service.port % 256) s.service.port)
              ++ encode_cbor (answer_of cmd setup args free))
    unfolding receive transmit of_transfer
    answers port conn_port cmd args {setup} c l s k t found v r carriable =
        let bytes = encode_cbor (query json cmd args conn_port) in
        let (d, e₁, r₁) =
          transfer_receive_lem j₁ port c.service.port t k bytes r v.to_port v.from_port v.served in
        let q =
          of_transfer (record { meta = t.meta; payload = d }) (c.service.port % 256) (port % 256)
            j₁ in
        let (free, s', k', e₂, first, balanced) =
          answer-asks json cmd setup (to_json json args) s k in
        let jr = answer_of cmd setup args free in
        let (some_bytes, small) = carriable free in
        let (reply, ids', e₃, r₃, to_client, to_address, fresh, same_iface) =
          respond-Represents json object_id₂ now₂ ids₂ q jr (omega arith) in
        let ready : is_transmit_ready reply ≡ true =
          unfold is_transmit_ready in
          ground (
            arith,
            size-Represents r₃,
            to_client,
            to_address,
            fresh,
            v.from_port,
            v.back_address,
          ) in
        let known : has_interface reply.meta.transfer.fragment.interface_id k'.interfaces ≡ true =
          rw (same_iface, Balanced-interfaces s k balanced) v.back_known in
        let (e, e₄, r₄) = transmit_lem j₂ s.service.port reply k' r₃ small ready known in
        let got : Received json = record { server = s'; ports = k'; reply = reply; ids = ids' } in
        let asked = query_of-query cmd args conn_port s laws found in
        let t' : Transfer = record { meta = renewed j₂ reply.meta.transfer; payload = e } in
        (
          q,
          got,
          t',
          free,
          e₁,
          rw
              (
                window-Represents r₁,
                laws.decode-encode (query json cmd args conn_port),
                asked,
                e₂,
                e₃,
              )
              refl,
          e₄ ∙ ap (λ i. ok (some (i, t'))) same_iface,
          first,
          balanced,
          to_address,
          rw to_client at r₄,
        )

    -- A command that a client sends to a server that has it, by a transport that keeps the bytes of
    -- a transfer, is run there, and its answer, carried back in the same way, comes in at the
    -- client's port, where it decodes: it names the command, with the first free port of the
    -- server's handler or the error that the command's status stands for. The server and its
    -- handler are then as `Balanced` says. The address and the ports' low bytes are not 0, both
    -- services are registered, both handlers know the interfaces, the query and the answer fit a
    -- packet, and the JSON library keeps its laws.
    pub command_exchange :
        (addr : ℕ) (iid : InterfaceId) (port : ℕ) (cmd : List ℕ) (args : Encoder json)
        {setup : Setup json} (c : Client) (l : Ports) (s : Server json) (k : Ports)
        (m m' : TransferMetadata)
        → addr ≢ 0
        → has_interface iid l.interfaces ≡ true
        → c.service.prealloc.front + 128 + c.service.prealloc.back < 2 ^ 31
        → lookup json cmd s.cmd_map ≡ some (some setup)
        → Connected port c l s k m
        → ((q : ℕ) → Carriable (query json cmd args q))
        → ((q : ℕ) → Carriable (answer_of cmd setup args q))
        → (sent : Sent) × (t : Transfer) × (q : Packet) × (r : Received json) × (t' : Transfer)
          × (p : Packet) × (free : ℕ) × (send_command json object_id now object_id' ids addr iid
                port cmd args c l
              ≡ ok (some sent))
          × (sent.transmitted ≡ some (iid, t))
          × (transfer_receive j₁ (record { meta = m; payload = t.payload }) k
              ≡ ok (some (port % 256, q)))
          × (receive json object_id₂ now₂ ids₂ q s k ≡ ok (some r))
          × (transmit j₂ s.service r.reply r.ports ≡ ok (some (m.fragment.interface_id, t')))
          × (t'.meta.fragment.destination ≡ m.fragment.source)
          × (transfer_receive j₃ (record { meta = m'; payload = t'.payload }) sent.ports
              ≡ ok (some (c.service.port % 256, p)))
          × Represents p.payload (encode_cbor (answer_of cmd setup args free))
          × (Client.receive json p sent.client ≡ ok sent.client)
          × FirstFree 100 k.services free
          × Balanced json s k r.server r.ports
    unfolding Client.receive of_transfer
    command_exchange addr iid port cmd args {setup} c l s k m m' to_addr known room found v asks_fit
          answers_fit =
        let zero_port : port ≢ 0 = λ e. v.to_port (omega arith) in
        let (conn, t, ids', e₁, first_conn, to, r₁) =
          send_command_lem json object_id now object_id' ids addr iid port cmd args c l to_addr
            zero_port known room (λ q. (asks_fit q).0) (λ q. (asks_fit q).1) in
        let t₁ : Transfer = record { meta = m; payload = t.payload } in
        let (q, r, t', free, e₂, e₃, e₄, first, balanced, back, r₂) =
          answers port conn.port cmd args c l s k t₁ found v r₁ answers_fit in
        let l' : Ports = record l { services = l.services ++ (conn.port ∷ []) } in
        let still : has_service (c.service.port % 256) l'.services ≡ true = ground (
          arith,
          v.listened,
          has_service-append (c.service.port % 256) l.services (conn.port ∷ []),
        ) in
        let back_port : c.service.port % 256 % 256 ≡ c.service.port % 256 = omega arith in
        let (d, e₅, r₃) =
          transfer_receive_lem j₃ (c.service.port % 256) s.service.port
            (record { meta = m'; payload = t'.payload }) l'
            (encode_cbor (answer_of cmd setup args free)) r₂ (rw back_port v.from_port)
            v.server_port (rw back_port still) in
        let p =
          of_transfer (record { meta = m'; payload = d }) (s.service.port % 256)
            (c.service.port % 256 % 256) j₃ in
        let received = e₅ ∙ ap (λ w. ok (some (w, p))) back_port in
        let decodes = laws.decode-encode (answer_of cmd setup args free) in
        (
          _,
          t,
          q,
          r,
          t',
          p,
          free,
          e₁,
          refl,
          e₂,
          e₃,
          e₄,
          back,
          received,
          r₃,
          rw (window-Represents r₃, decodes) refl,
          first,
          balanced,
        )
