-- ===== src/Fragmentation/BaseHandler/Choose.antt =====
-- `find_transfer` and the choice of `do_main` in fragmentation/base_handler.hpp.
use libprotoserial.Prelude.{
  ℕ, zero, suc, ◌≤◌, ◌≡◌, ◌⊎◌, inl, inr, refl, ap, List, [], ◌∷◌, ◌++◌, Bool, true, false,
  Bool-cases, Option, some, none, arith, ok, ltb, ◌&&◌,
}
use libprotoserial.Fragmentation.TransferHandler.{TransferHandler}
use libprotoserial.Fragmentation.BaseHandler.{
  find_transfer, housekeeping, is_candidate, prefer, select, do_main, transmit_one, to_transmit,
}

-- No transfer of a list satisfies a predicate.
abbrev pub Fails : (TransferHandler → Bool) → List TransferHandler → Type 0
Fails pred [] = Unit {0}
Fails pred (t ∷ ts) = (pred t ≡ false) × Fails pred ts

abbrev pub Found :
    (TransferHandler → Bool)
    → List TransferHandler
    → Option (List TransferHandler × TransferHandler × List TransferHandler)
    → Type 0
Found pred ts none = Fails pred ts
Found pred ts (some (before, t, rest)) =
    (ts ≡ before ++ (t ∷ rest)) × (pred t ≡ true) × Fails pred before

-- `find_transfer` gives the first transfer that satisfies the predicate with what stands around it,
-- and none where no transfer does.
pub find_transfer-Found :
    (pred : TransferHandler → Bool) (ts : List TransferHandler)
    → Found pred ts (find_transfer pred ts)
unfolding find_transfer
find_transfer-Found pred [] = tt
find_transfer-Found pred (t ∷ ts) = elim (Bool-cases (pred t)) [
  | inl is_it ↦ rw is_it (refl, is_it, tt)
  | inr other ↦ rw other (later other (find_transfer pred ts) (find_transfer-Found pred ts))
]
  where
    later :
        pred t ≡ false
        → (o : Option (List TransferHandler × TransferHandler × List TransferHandler))
        → Found pred ts o
        → Found pred
            (t ∷ ts)
            (elim o [ none ↦ none | some (before, u, rest) ↦ some (t ∷ before, u, rest) ])
    later other none h = (other, h)
    later other (some (before, u, rest)) (e, p, f) = (ap (◌∷◌ t) e, p, (other, f))

-- The first loop of `do_main` does not end where there is a transfer, whatever the fuel.
pub housekeeping_hangs :
    (k : ℕ) (t : TransferHandler) (ts : List TransferHandler) → housekeeping k (t ∷ ts) ≡ none
unfolding housekeeping
housekeeping_hangs zero t ts = refl
housekeeping_hangs (suc k) t ts = housekeeping_hangs k t ts

module _ (priority : TransferHandler → ℕ) (is_peer_ready : TransferHandler → Bool) where
  abbrev candidate : TransferHandler → Bool
  candidate = is_candidate priority is_peer_ready

  -- No candidate has a priority above `n`.
  abbrev pub AllBelow : ℕ → List TransferHandler → Type 0
  AllBelow n [] = Unit {0}
  AllBelow n (t ∷ ts) = ((candidate t ≡ false) ⊎ (priority t ≤ n)) × AllBelow n ts

  abbrev pub Among : TransferHandler → List TransferHandler → Type 0
  Among t [] = ⊥
  Among t (u ∷ us) = (t ≡ u) ⊎ Among t us

  -- The choice among some transfers.
  abbrev pub Chosen : List TransferHandler → Option TransferHandler → Type 0
  Chosen ts none = Fails candidate ts
  Chosen ts (some t) = Among t ts × (candidate t ≡ true) × AllBelow (priority t) ts

  -- The same, against a transfer that was chosen before.
  select_from :
      (u : TransferHandler) (ts : List TransferHandler)
      → candidate u ≡ true
      → (w : TransferHandler) × (select priority is_peer_ready (some u) ts ≡ some w)
        × (candidate w ≡ true)
        × (priority u ≤ priority w)
        × AllBelow (priority w) ts
        × ((w ≡ u) ⊎ Among w ts)
  unfolding select prefer
  select_from u [] c = (u, refl, c, omega arith, tt, inl refl)
  select_from u (t ∷ ts) c = elim (Bool-cases (candidate t && ltb (priority u) (priority t))) [
    | inl better ↦
        let (w, e, cw, le, below, among) = select_from t ts (ground arith) in
        (
          w,
          rw better e,
          cw,
          ground arith,
          (inr le, below),
          elim among [ inl same ↦ inr (inl same) | inr there ↦ inr (inr there) ],
        )
    | inr worse ↦
        let (w, e, cw, le, below, among) = select_from u ts c in
        (
          w,
          rw worse e,
          cw,
          le,
          (ground arith, below),
          elim among [ inl same ↦ inl same | inr there ↦ inr (inr there) ],
        )
  ]

  skip :
      (t : TransferHandler) (ts : List TransferHandler)
      → candidate t ≡ false
      → (o : Option TransferHandler) → Chosen ts o
      → Chosen (t ∷ ts) o
  skip t ts other none h = (other, h)
  skip t ts other (some w) (among, cw, below) = (inr among, cw, (inl other, below))

  -- The second loop of `do_main`, by itself: the choice is a transfer of highest priority among the
  -- candidates, and none where there is no candidate.
  pub select-Chosen :
      (ts : List TransferHandler) → Chosen ts (select priority is_peer_ready none ts)
  unfolding select prefer
  select-Chosen [] = tt
  select-Chosen (t ∷ ts) = elim (Bool-cases (candidate t)) [
    | inl is_one ↦
        let (w, e, cw, le, below, among) = select_from t ts is_one in
        rw (is_one, e) (among, cw, (inr le, below))
    | inr other ↦
        rw other (skip t ts other (select priority is_peer_ready none ts) (select-Chosen ts))
  ]

  do_main_empty :
      (fuel front back object_id : ℕ) (allowed : Bool)
      → do_main priority is_peer_ready (suc fuel) allowed front back object_id []
        ≡ ok (some ([], []))
  unfolding do_main transmit_one to_transmit select housekeeping
  do_main_empty fuel front back object_id true = refl
  do_main_empty fuel front back object_id false = refl

  -- `do_main` does not end where there is a transfer, whatever the number of its rounds, and so
  -- transmits nothing; without one it ends after the first test, and does nothing.
  pub do_main-hangs :
      (fuel front back object_id : ℕ) (allowed : Bool) (t : TransferHandler)
      (ts : List TransferHandler)
      → (do_main priority is_peer_ready fuel allowed front back object_id (t ∷ ts) ≡ ok none)
        × (do_main priority is_peer_ready (suc fuel) allowed front back object_id []
            ≡ ok (some ([], [])))
  unfolding do_main
  do_main-hangs fuel front back object_id allowed t ts =
      (hangs (housekeeping_hangs fuel t ts), do_main_empty fuel front back object_id allowed)
    where
      hangs :
          housekeeping fuel (t ∷ ts) ≡ none
          → do_main priority is_peer_ready fuel allowed front back object_id (t ∷ ts) ≡ ok none
      hangs e = rw (do_main, e) refl
