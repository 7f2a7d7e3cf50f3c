-- ===== src/Ports/Handler/Table.antt =====
-- The services of ports/ports.hpp as a set of ports, over any sequence of calls of
-- `register_service` and `unregister_service`.
use libprotoserial.Prelude.{
  ℕ, ◌≡◌, refl, inl, inr, List, [], ◌∷◌, Bool, true, false, Option, none, some, Result, ok, err,
  Error, already_registered, invalid_port, ◌==◌, ◌||◌, not, ◌&&◌, if◌then◌else◌, arith,
}
use libprotoserial.Ports.Handler.{Ports, has_service, register_service, unregister_service}
use libprotoserial.Ports.Handler.Register.{
  AllDistinct, register_service_lem, unregister_service_lem, AllDistinct-unregister_service,
}

pub data Call : Type 0 where
  register : ℕ → Call
  unregister : ℕ → Call

-- A call that throws leaves the handler as it is.
abbrev settle : Ports → Result Ports → Option Error × Ports
settle h (ok h') = (none, h')
settle h (err e) = (some e, h)

-- What a call throws, if anything, and the handler after it.
abbrev pub act : Call → Ports → Option Error × Ports
act (register p) h = settle h (register_service p h)
act (unregister p) h = (none, unregister_service p h)

-- The same of a set of ports.
abbrev pub specified : Call → (ℕ → Bool) → Option Error × (ℕ → Bool)
specified (register p) set =
    if p == 0
    then (some invalid_port, set)
    else if set p
    then (some already_registered, set)
    else (none, λ q. (q == p) || set q)
specified (unregister p) set = (none, λ q. not (q == p) && set q)

-- The calls one after the other.
abbrev pub run :
    {S : Type 0} → (Call → S → Option Error × S) → List Call → S → List (Option Error) × S
run step [] s = ([], s)
run step (c ∷ cs) s = ((step c s).0 ∷ (run step cs (step c s).1).0, (run step cs (step c s).1).1)

-- The handler has exactly the services of the set, none of them twice.
pub record IsTable (h : Ports) (set : ℕ → Bool) : Type 0 where
  pub distinct : AllDistinct h.services
  pub same : (q : ℕ) → has_service q h.services ≡ set q

-- One call throws what the set says, and goes on with the set.
abbrev Steps : Call → Ports → (ℕ → Bool) → Type 0
Steps c h set = ((act c h).0 ≡ (specified c set).0) × IsTable (act c h).1 (specified c set).1

act-IsTable : (c : Call) (h : Ports) (set : ℕ → Bool) → IsTable h set → Steps c h set
act-IsTable (register p) h set t = elim (register_service_lem p h t.distinct) [
  | inl (z, e) ↦ let none_such : (p == 0) ≡ true = ground arith in rw (e, none_such) (refl, t)
  | inr (inl (nz, taken, e)) ↦
      let differ : (p == 0) ≡ false = ground arith in
      let there : set p ≡ true = cc (t.same p) in rw (e, differ, there) (refl, t)
  | inr (inr (nz, free, h', e, d, added)) ↦
      let differ : (p == 0) ≡ false = ground arith in
      let missing : set p ≡ false = cc (t.same p) in
      rw (e, differ, missing)
        (refl, record { distinct = d; same = λ q. rw (added q, t.same q) refl })
]
act-IsTable (unregister p) h set t = (
  refl,
  record {
    distinct = AllDistinct-unregister_service p h t.distinct;
    same = λ q. rw (unregister_service_lem p q h t.distinct, t.same q) refl;
  },
)

-- Whatever is registered and unregistered, from a handler whose services are those of a set, none
-- of them twice: each call throws exactly what the same call of the set says, the invalid port and
-- a port that is in it being refused, and at last the services are again those of the set, none of
-- them twice.
pub run-IsTable :
    (cs : List Call) (h : Ports) (set : ℕ → Bool)
    → IsTable h set
    → ((run act cs h).0 ≡ (run specified cs set).0)
      × IsTable (run act cs h).1 (run specified cs set).1
run-IsTable [] h set t = (refl, t)
run-IsTable (c ∷ cs) h set t =
    let (e, t') = act-IsTable c h set t in
    let (es, t'') = run-IsTable cs (act c h).1 (specified c set).1 t' in (cc (e, es), t'')
