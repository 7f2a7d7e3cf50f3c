-- ===== src/Fragmentation/TransferHandler/Sizes.antt =====
-- How `transfer_handler` cuts a transfer of fragmentation/transfer_handler.hpp: `fragment_size` and
-- the transmit constructor.
use native.Mathlib.Nat.{div-add-mod', mul-le-mul_right, mod-eq_of_lt, add-mul, mod-lt}
use libprotoserial.Prelude.{
  ◌⊎◌, ℕ, zero, suc, ◌+◌, ◌-◌, ◌*◌, ◌/◌, ◌%◌, ◌^◌, ◌≤◌, ◌<◌, ◌≡◌, min, refl, ap, ◌∙◌, arith,
  Bool-cases, false, ◌==◌, if◌then◌else◌, dec_lt, inl, inr, ltb,
}
use libprotoserial.Bytes.{size}
use libprotoserial.Bytes.Memory.{add_size, sub_size}
use libprotoserial.Fragmentation.Transfer.{Transfer}
use libprotoserial.Fragmentation.TransferHandler.{
  TransferHandler, of_transfer, fragment_size, fragment_start, mul_size,
}

-- The number of pieces of size `m` of `n`.
abbrev pieces : ℕ → ℕ → ℕ
pieces n m = n / m + (if n % m == 0 then 0 else 1)

-- It is rounded up: the pieces cover `n`, and one piece less does not.
pieces_rounded :
    (n m : ℕ)
    → ((pieces n m ≡ n / m) × (n / m * m ≡ n))
      ⊎ ((pieces n m ≡ n / m + 1) × (n / m * m < n) × (n / m * m + n % m ≡ n))
pieces_rounded n m = elim (Bool-cases (n % m == 0)) [
  | inl none_left ↦
      let e : n % m ≡ 0 = ground arith in
      inl (rw none_left (omega arith), omega (arith, div-add-mod' n m))
  | inr some_left ↦
      let e : 0 < n % m = ground arith in
      inr (rw some_left refl, omega (arith, div-add-mod' n m), div-add-mod' n m)
]

pieces_enough : (n m : ℕ) → 0 < m → n ≤ pieces n m * m
pieces_enough n m pos = elim (pieces_rounded n m) [
  | inl (e, f) ↦ rw e (omega (arith, f))
  | inr (e, lt, f) ↦ rw e (omega (arith, f, add-mul (n / m) 1 m, mod-lt n pos))
]

one_more : (k l : ℕ) → k < l → k + 1 ≤ l
one_more k l h = omega arith

no_more : (k l : ℕ) → k < l + 1 → k ≤ l
no_more k l h = omega arith

pieces_tight : (n m k : ℕ) → 0 < m → k < pieces n m → k * m < n
pieces_tight n m k pos h = elim (pieces_rounded n m) [
  | inl (e, f) ↦
      omega (arith, f, add-mul k 1 m, mul-le-mul_right m (one_more k (n / m) (omega arith)))
  | inr (e, lt, f) ↦ omega (arith, lt, mul-le-mul_right m (no_more k (n / m) (omega arith)))
]

-- The bytes of the fragments 1 to `k`.
pub total_size : ℕ → TransferHandler → ℕ
total_size zero h = 0
total_size (suc k) h = total_size k h + fragment_size (k + 1) h

few_pieces : (n max : ℕ) → 0 < max → n ≤ 255 * max → pieces n max ≤ 255
few_pieces n max pos few = elim (dec_lt 255 (pieces n max)) [
  | yes more ↦ absurd (omega (arith, pieces_tight n max 255 pos more))
  | no not_more ↦ omega arith
]

module _ (t : Transfer) (max garbage : ℕ) where
  abbrev n : ℕ
  n = size t.payload

  abbrev handler : TransferHandler
  handler = of_transfer t max garbage

  total_lem : 0 < max → n ≤ 255 * max → handler.fragments_total ≡ pieces n max
  unfolding of_transfer
  total_lem pos few =
      let e : pieces n max % 256 ≡ pieces n max = omega (arith, few_pieces n max pos few) in e

  -- The size of a fragment, where nothing wraps.
  fragment_size_of :
      (k : ℕ)
      → 0 < max
      → n + max < 2 ^ 64
      → n ≤ 255 * max
      → k < pieces n max
      → fragment_size (k + 1) handler ≡ min (k * max + max) n - k * max
  unfolding fragment_size of_transfer fragment_start
  fragment_size_of k pos small few h =
      let total = total_lem pos few in
      let start : sub_size (k + 1) 1 ≡ k = omega (arith, few_pieces n max pos few) in
      let low : k * max < n = pieces_tight n max k pos h in
      let exact : mul_size k max ≡ k * max = mod-eq_of_lt (omega (arith, low)) in
      let upto : add_size (k * max) max ≡ k * max + max = mod-eq_of_lt (omega (arith, low)) in
      let inside : ltb (pieces n max) (k + 1) ≡ false = ground arith in
      rw (total, start, exact, upto, inside) (last (k * max) low)
    where
      last : (s : ℕ) → s < n → sub_size (min (s + max) n) s ≡ min (s + max) n - s
      last s lt = ground arith

  total_size_of :
      (k : ℕ)
      → 0 < max
      → n + max < 2 ^ 64
      → n ≤ 255 * max
      → k ≤ pieces n max
      → total_size k handler ≡ min (k * max) n
  unfolding total_size
  total_size_of zero pos small few h = omega arith
  total_size_of (suc k) pos small few h =
      let before = total_size_of k pos small few (omega arith) in
      let this = fragment_size_of k pos small few (omega arith) in
      let low : k * max < n = pieces_tight n max k pos (omega arith) in
      omega (arith, before, this, low, add-mul k 1 max)

  -- The fragments that the transmit constructor plans for a transfer of at most 255 fragments of
  -- `max` bytes, where `max` is not 0 and nothing wraps, have the size of the transfer together.
  pub total_size_lem :
      0 < max → n + max < 2 ^ 64 → n ≤ 255 * max → total_size handler.fragments_total handler ≡ n
  total_size_lem pos small few = ap (λ k. total_size k handler) (total_lem pos few) ∙ whole
    where
      whole : total_size (pieces n max) handler ≡ n
      whole =
          omega (
            arith,
            total_size_of (pieces n max) pos small few (omega arith),
            pieces_enough n max pos,
          )

  outside : (p : ℕ) → handler.fragments_total < p → fragment_size p handler ≡ 0
  unfolding fragment_size
  outside p h = ground arith

  -- Under the same conditions the fragments 1 to the total have 1 to `max` bytes each, and the
  -- later indices have none.
  pub fragment_size-bounds :
      (p : ℕ)
      → 0 < p
      → 0 < max
      → n + max < 2 ^ 64
      → n ≤ 255 * max
      → ((p ≤ handler.fragments_total)
          × (0 < fragment_size p handler)
          × (fragment_size p handler ≤ max))
        ⊎ ((handler.fragments_total < p) × (fragment_size p handler ≡ 0))
  fragment_size-bounds zero low pos small few = absurd (omega arith)
  fragment_size-bounds (suc k) low pos small few = elim (dec_lt handler.fragments_total (suc k)) [
    | yes beyond ↦ inr (beyond, outside (suc k) beyond)
    | no not_beyond ↦
        let inside : k < pieces n max = omega (arith, total_lem pos few) in
        let this = fragment_size_of k pos small few inside in
        let some_left : k * max < n = pieces_tight n max k pos inside in
        let same : suc k ≡ k + 1 = omega arith in
        inl (omega arith, rw same (omega (arith, this)), rw same (omega (arith, this)))
  ]
