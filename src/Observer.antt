-- ===== src/Observer.antt =====
-- `subject` of utils/observer.hpp: callbacks that are called with what is emitted. A callback acts
-- on a state of its owners, and does not subscribe or unsubscribe while it is called. The counter
-- of a subject type, a static `unsigned int`, is passed along.
mod Tests
use libprotoserial.Prelude.{
  ℕ, ◌+◌, ◌%◌, ◌^◌, ◌≤◌, ◌<◌, ◌≡◌, ◌≢◌, refl, ap, ◌∙◌, List, [], ◌∷◌, ◌++◌, Bool, true, false, ◌==◌,
  if◌then◌else◌, arith, Bool-cases, inl, inr,
}

pub record Subscriber (A S : Type 0) : Type 0 where
  pub callback : A → S → S
  pub id : ℕ

-- The subscribers, oldest first.
abbrev pub Subject : Type 0 → Type 0 → Type 0
Subject A S = List (Subscriber A S)

module _ {A S : Type 0} where
  -- `subscribe`: the subject and the identifier, which is the counter's next value.
  pub subscribe : (A → S → S) → ℕ → Subject A S → Subject A S × ℕ
  subscribe fn id_count s =
      let id = (id_count + 1) % 2 ^ 32 in (s ++ (record { callback = fn; id = id } ∷ []), id)

  pub unsubscribe : ℕ → Subject A S → Subject A S
  unsubscribe id [] = []
  unsubscribe id (c ∷ cs) = if c.id == id then unsubscribe id cs else c ∷ unsubscribe id cs

  unfoldable pub emit : A → Subject A S → S → S
  emit arg [] state = state
  emit arg (c ∷ cs) state = emit arg cs (c.callback arg state)

  -- The identifiers given so far, while the counter has not wrapped around.
  abbrev pub AreBelow : ℕ → Subject A S → Type 0
  AreBelow id_count [] = Unit {0}
  AreBelow id_count (c ∷ cs) = (c.id ≤ id_count) × AreBelow id_count cs

  emit-append :
      (arg : A) (s : Subject A S) (c : Subscriber A S) (state : S)
      → emit arg (s ++ (c ∷ [])) state ≡ c.callback arg (emit arg s state)
  unfolding emit
  emit-append arg [] c state = refl
  emit-append arg (d ∷ s) c state = emit-append arg s c (d.callback arg state)

  unsubscribe-append :
      (id id_count : ℕ) (s : Subject A S) (c : Subscriber A S)
      → AreBelow id_count s
      → id_count < id
      → c.id ≡ id
      → unsubscribe id (s ++ (c ∷ [])) ≡ s
  unfolding unsubscribe
  unsubscribe-append id id_count [] c b h e =
      let same : (c.id == id) ≡ true = ground arith in rw same refl
  unsubscribe-append id id_count (d ∷ s) c b h e =
      let other : (d.id == id) ≡ false = ground (arith, b.0) in
      rw other (ap (λ l. d ∷ l) (unsubscribe-append id id_count s c b.1 h e))

  AreBelow-append :
      (id id_count : ℕ) (s : Subject A S) (c : Subscriber A S)
      → AreBelow id_count s
      → id_count ≤ id
      → c.id ≡ id
      → AreBelow id (s ++ (c ∷ []))
  AreBelow-append id id_count [] c b h e = (omega arith, tt)
  AreBelow-append id id_count (d ∷ s) c b h e =
      (omega (arith, b.0), AreBelow-append id id_count s c b.1 h e)

  -- Until the counter of identifiers wraps around, a new subscriber is called last, after those
  -- that are there, and to unsubscribe it leaves exactly these.
  pub unsubscribe-subscribe :
      (fn : A → S → S) (id_count : ℕ) (s : Subject A S)
      → AreBelow id_count s
      → id_count + 1 < 2 ^ 32
      → let (s', id) = subscribe fn id_count s in
        ((arg : A) (state : S) → emit arg s' state ≡ fn arg (emit arg s state))
        × (unsubscribe id s' ≡ s)
        × AreBelow id s'
  unfolding subscribe
  unsubscribe-subscribe fn id_count s b h =
      let id = (id_count + 1) % 2 ^ 32 in
      let next : id ≡ id_count + 1 = omega arith in
      let c : Subscriber A S = record { callback = fn; id = id } in
      (
        λ arg state. emit-append arg s c state,
        unsubscribe-append id id_count s c b (omega arith) refl,
        AreBelow-append id id_count s c b (omega arith) refl,
      )
