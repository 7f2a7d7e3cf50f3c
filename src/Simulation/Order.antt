-- ===== src/Simulation/Order.antt =====
-- What an endpoint of the wire of testing/simulation.hpp is handed, and in which order.
use libprotoserial.Prelude.{
  ℕ, zero, suc, ◌+◌, ◌≡◌, refl, ap, sym, ◌∙◌, List, [], ◌∷◌, ◌++◌, Bool, Bool-cases, inl, inr, true,
  false, append-nil, append_assoc, some, ◌==◌, if◌then◌else◌, get_elem?, arith,
}
use libprotoserial.Observer.{Subject, emit}
use libprotoserial.Simulation.{
  Endpoint, Action, put_bytes, tick, push_all, put_from, dispatch_one, dispatch, act, run,
}

-- The bytes of a run that are for an endpoint: those that others put.
unfoldable pub addressed : ℕ → List Action → List ℕ
addressed i [] = []
addressed i (put_bytes origin l ∷ rest) =
    if i == origin then addressed i rest else l ++ addressed i rest
addressed i (tick ∷ rest) = addressed i rest

addressed-cons :
    (i : ℕ) (a : Action) (rest : List Action)
    → addressed i (a ∷ rest) ≡ addressed i (a ∷ []) ++ addressed i rest
unfolding addressed
addressed-cons i (put_bytes origin l) rest = elim (Bool-cases (i == origin)) [
  | inl own ↦ rw own refl
  | inr other ↦ rw (other, append-nil l) refl
]
addressed-cons i tick rest = refl

module _ {S : Type 0} where
  -- The owner after bytes were emitted to its subscribers, one by one.
  pub emit_all : List ℕ → Subject ℕ S → S → S
  emit_all [] s owner = owner
  emit_all (b ∷ bs) s owner = emit_all bs s (emit b s owner)

  emit_all-append :
      (xs ys : List ℕ) (s : Subject ℕ S) (owner : S)
      → emit_all (xs ++ ys) s owner ≡ emit_all ys s (emit_all xs s owner)
  unfolding emit_all
  emit_all-append [] ys s owner = refl
  emit_all-append (x ∷ xs) ys s owner = emit_all-append xs ys s (emit x s owner)

  -- An endpoint was handed the bytes `out` on its way to another state, while `came` came in.
  pub record Passed (e e' : Endpoint S) (out came : List ℕ) : Type 0 where
    pub same : e'.receive_event ≡ e.receive_event
    pub handed : e'.owner ≡ emit_all out e.receive_event e.owner
    pub kept : out ++ e'.queue ≡ e.queue ++ came

  Passed-append :
      {e₁ e₂ e₃ : Endpoint S} {out₁ out₂ came₁ came₂ : List ℕ}
      → Passed e₁ e₂ out₁ came₁
      → Passed e₂ e₃ out₂ came₂
      → Passed e₁ e₃ (out₁ ++ out₂) (came₁ ++ came₂)
  Passed-append {e₁} {e₂} {e₃} {out₁} {out₂} {came₁} {came₂} p q = record {
    same = q.same ∙ p.same;
    handed =
        q.handed
        ∙ ap (λ s. emit_all out₂ s e₂.owner) p.same
        ∙ ap (emit_all out₂ e₁.receive_event) p.handed
        ∙ sym (emit_all-append out₁ out₂ e₁.receive_event e₁.owner);
    kept = simp (append_assoc, q.kept) (simp (← append_assoc, p.kept) (simp append_assoc refl));
  }

  put_one-Passed :
      (own : Bool) (l : List ℕ) (e : Endpoint S)
      → Passed e (if own then e else push_all l e) [] (if own then [] else l)
  unfolding push_all emit_all
  put_one-Passed true l e = record { same = refl; handed = refl; kept = sym (append-nil e.queue) }
  put_one-Passed false l e = record { same = refl; handed = refl; kept = refl }

  put_from-Passed :
      (k i origin : ℕ) (l : List ℕ) (es : List (Endpoint S)) {e : Endpoint S}
      → get_elem? es i ≡ some e
      → (e' : Endpoint S) × (get_elem? (put_from k origin l es) i ≡ some e')
        × Passed e e' [] (if k + i == origin then [] else l)
  unfolding put_from
  put_from-Passed k i origin l [] h = cc
  put_from-Passed k zero origin l (d ∷ es) {e} h =
      let same : e ≡ d = cc in
      let here : k + 0 ≡ k = omega arith in
      rw (same, here) (_, refl, put_one-Passed (k == origin) l d)
  put_from-Passed k (suc i) origin l (d ∷ es) {e} h =
      let here : k + suc i ≡ (k + 1) + i = omega arith in
      rw here (put_from-Passed (k + 1) i origin l es h)

  dispatch_one-Passed : (e : Endpoint S) → (out : List ℕ) × Passed e (dispatch_one e) out []
  unfolding dispatch_one emit_all
  dispatch_one-Passed e = handed e.queue refl
    where
      handed : (q : List ℕ) → e.queue ≡ q → (out : List ℕ) × Passed e (dispatch_one e) out []
      handed [] h = rw h ([], record { same = refl; handed = refl; kept = refl })
      handed (b ∷ q) h =
          rw h (b ∷ [], record { same = refl; handed = refl; kept = sym (append-nil (b ∷ q)) })

  dispatch-Passed :
      (i : ℕ) (es : List (Endpoint S)) {e : Endpoint S}
      → get_elem? es i ≡ some e
      → (e' : Endpoint S) × (out : List ℕ) × (get_elem? (dispatch es) i ≡ some e')
        × Passed e e' out []
  unfolding dispatch
  dispatch-Passed i [] h = cc
  dispatch-Passed zero (d ∷ es) {e} h =
      let same : e ≡ d = cc in let (out, p) = dispatch_one-Passed d in rw same (_, out, refl, p)
  dispatch-Passed (suc i) (d ∷ es) h = dispatch-Passed i es h

  act-Passed :
      (a : Action) (i : ℕ) (es : List (Endpoint S)) {e : Endpoint S}
      → get_elem? es i ≡ some e
      → (e' : Endpoint S) × (out : List ℕ) × (get_elem? (act a es) i ≡ some e')
        × Passed e e' out (addressed i (a ∷ []))
  unfolding act addressed
  act-Passed (put_bytes origin l) i es h =
      let (e', h', p) = put_from-Passed 0 i origin l es h in
      let here : 0 + i ≡ i = omega arith in (e', [], h', rw (append-nil l) (rw here at p))
  act-Passed tick i es h = dispatch-Passed i es h

  -- Whatever is put on the wire and whenever it is handed out, the bytes that an endpoint's
  -- subscribers were called with, followed by those that still wait for it, are those that waited
  -- at first, followed by those that the other endpoints have put since, in order.
  pub run-Passed :
      (actions : List Action) (i : ℕ) (es : List (Endpoint S)) {e : Endpoint S}
      → get_elem? es i ≡ some e
      → (e' : Endpoint S) × (out : List ℕ) × (get_elem? (run actions es) i ≡ some e')
        × Passed e e' out (addressed i actions)
  unfolding run addressed emit_all
  run-Passed [] i es {e} h =
      (e, [], h, record { same = refl; handed = refl; kept = sym (append-nil e.queue) })
  run-Passed (a ∷ rest) i es h =
      let (e₁, out₁, h₁, p₁) = act-Passed a i es h in
      let (e₂, out₂, h₂, p₂) = run-Passed rest i (act a es) h₁ in
      (e₂, out₁ ++ out₂, h₂, rw (addressed-cons i a rest) (Passed-append p₁ p₂))
