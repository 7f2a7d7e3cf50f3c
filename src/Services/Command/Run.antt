-- ===== src/Services/Command/Run.antt =====
-- Several queries that come in at one `command_server` of services/command_server.hpp in turn.
use mathlib.Core.List.{map-append}
use libprotoserial.Prelude.{
  ℕ, ◌≡◌, refl, ap, sym, ◌∙◌, inl, inr, List, [], ◌∷◌, ◌++◌, map, append_assoc, Option, none, some,
  Result, ok, ◌>>=◌, arith,
}
use libprotoserial.Bytes.Layout.{Represents}
use libprotoserial.Fragmentation.IdFactory.{IdFactory}
use libprotoserial.Ports.Packet.{Packet}
use libprotoserial.Ports.Handler.{Ports}
use libprotoserial.Ports.Handler.Register.{AllDistinct, AllDistinct-append}
use libprotoserial.Services.Command.Json.{JsonLibrary}
use libprotoserial.Services.Command.{Server, Received, receive}
use libprotoserial.Services.Command.Balance.{Balanced, IsShort, receive-Balanced}

-- A packet that comes in, with the identifier and the time of the answer.
pub record Incoming : Type 0 where
  pub object_id : ℕ
  pub now : ℕ
  pub packet : Packet

module _ (json : JsonLibrary) where
  open json use {Json, decode_cbor, encode_cbor}

  -- One `receive` after the other: the state afterwards, and the packets that were transmitted.
  pub run :
      List Incoming
      → IdFactory
      → Server json
      → Ports
      → Result (Option (Server json × Ports × List Packet))
  run [] ids s l = ok (some (s, l, []))
  run (q ∷ qs) ids s l = receive json q.object_id q.now ids q.packet s l >>= λ r. elim r [
    | none ↦ ok none
    | some got ↦ run qs got.ids got.server got.ports >>= λ last. elim last [
      | none ↦ ok none
      | some (s', l', replies) ↦ ok (some (s', l', got.reply ∷ replies))
    ]
  ]

  -- Each packet decodes, and the answer to it is short, where the server and the handler are those
  -- that the packets before have left.
  abbrev pub AllAnswerable : List Incoming → IdFactory → Server json → Ports → Type 0
  AllAnswerable [] ids s l = Unit {0}
  AllAnswerable (q ∷ qs) ids s l =
      ((raw : List ℕ) × (j : Json) × Represents q.packet.payload raw
        × (decode_cbor raw ≡ some j)
        × IsShort json j s l)
      × ((got : Received json)
          → receive json q.object_id q.now ids q.packet s l ≡ ok (some got)
          → AllAnswerable qs got.ids got.server got.ports)

  -- One reply for each packet, to where it came from.
  abbrev pub AllAnswered : List Incoming → List Packet → Type 0
  AllAnswered [] replies = replies ≡ []
  AllAnswered (q ∷ qs) [] = ⊥
  AllAnswered (q ∷ qs) (p ∷ ps) =
      (p.meta.destination_port ≡ q.packet.meta.source_port)
      × (p.meta.transfer.fragment.destination ≡ q.packet.meta.transfer.fragment.source)
      × AllAnswered qs ps

  -- Besides the services `base`, the ports of the active commands are registered, no port twice.
  pub record IsTracking (base : List ℕ) (s : Server json) (l : Ports) : Type 0 where
    pub ports : l.services ≡ base ++ map (λ i. i.service.port) s.active_cmd
    pub distinct : AllDistinct l.services

  Balanced-IsTracking :
      (base : List ℕ) (s : Server json) (l : Ports) {s' : Server json} {l' : Ports}
      → IsTracking base s l
      → Balanced json s l s' l'
      → IsTracking base s' l'
  Balanced-IsTracking base s l v (inl (a, b)) = rw (a, b) v
  Balanced-IsTracking base s l v (inr (i, running, free, a, b)) =
      let added =
        append_assoc base (map (λ i. i.service.port) s.active_cmd) (i.service.port ∷ []) in
      rw (a, b)
        (record {
          ports =
              ap (λ k. k ++ (i.service.port ∷ [])) v.ports
              ∙ added
              ∙ ap (λ k. base ++ k) (sym (map-append (λ i. i.service.port) s.active_cmd (i ∷ [])));
          distinct =
              AllDistinct-append l.services i.service.port v.distinct free.1
                (λ e. absurd (omega (arith, free.0)));
        })

  -- Queries that decode, and whose answers have encodings of fewer than 2 ^ 31 bytes, are answered
  -- one by one, each to where it came from, and whatever status the commands give, besides the
  -- services that were there exactly the active commands are registered, no port twice, where this
  -- held at first.
  pub run-IsTracking :
      (base : List ℕ) (queries : List Incoming) (ids : IdFactory) (s : Server json) (l : Ports)
      → IsTracking base s l
      → AllAnswerable queries ids s l
      → (s' : Server json) × (l' : Ports) × (replies : List Packet) × (run queries ids s l
          ≡ ok (some (s', l', replies)))
        × IsTracking base s' l'
        × AllAnswered queries replies
  unfolding run
  run-IsTracking base [] ids s l v d = (s, l, [], refl, v, refl)
  run-IsTracking base (q ∷ qs) ids s l v ((raw, j, r, decoded, short), later) =
      let (got, e, port, address, balanced) =
        receive-Balanced json q.object_id q.now ids q.packet s l raw j r decoded short in
      let (s', l', replies, e', v', answered) =
        run-IsTracking base qs got.ids got.server got.ports
          (Balanced-IsTracking base s l v balanced) (later got e) in
      (s', l', got.reply ∷ replies, rw (e, e') refl, v', (port, address, answered))
