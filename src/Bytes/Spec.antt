-- ===== src/Bytes/Spec.antt =====
-- What the container promises: each operation as an operation on the list of exposed bytes.
use libprotoserial.Prelude.{
  ℕ, dec_lt, ◌+◌, ◌-◌, ◌^◌, ◌≤◌, ◌<◌, ◌≡◌, refl, inl, inr, List, [], ◌∷◌, ◌++◌, ok, err, overrun,
  arith, length, replicate, take, drop, length-append, length-take, length-drop, length-replicate,
  append-nil, leb, Bool-cases, ◌&&◌,
}
use libprotoserial.Bytes.{
  Bytes, capacity_front, capacity_back, adopt, reserve, expand, shrink, set_all, to_bytes,
  push_front, push_back, push_back_byte, put, sized,
}
use libprotoserial.Bytes.Memory.{write_one_outside}
use libprotoserial.Bytes.Layout.{
  Represents, laid_out, length-laid_out, length-zeros, sized_lem, fill_back,
}
use libprotoserial.Bytes.Grow.{
  pushed_front, pushed_back, reserve_fits, reserve_moves, expand_fits, expand_moves,
  push_front-laid_out, push_back-laid_out,
}
use libprotoserial.Bytes.Shrink.{shrink-laid_out, shrink_lem, shrink_all-laid_out}
use libprotoserial.Bytes.Copy.{to_bytes_lem}
pub use libprotoserial.Bytes.Views.{
  Gives, gives, laid_out-Represents, size-Represents, window-Represents, read_range-Represents,
  read_rest-Represents, read_first-Represents,
}
pub use libprotoserial.Bytes.Copies.{
  copy-Represents, at-Represents, copy_assign-Represents, copy_assign_throws, append-Represents,
  sub-Represents,
}

-- `push_front` puts the bytes of `other` in front of those exposed, whether or not it
-- reallocates, where both together are fewer than 2 ^ 31.
pub push_front-Represents :
    {c d : Bytes} {xs ys : List ℕ}
    → Represents c xs
    → Represents d ys
    → length ys + length xs < 2 ^ 31
    → Gives (push_front c d) (ys ++ xs)
push_front-Represents {c} {d} {xs} {ys} r s h = elim (Bool-cases (leb (length ys) r.front)) [
  | inl fits ↦
      gives (r.front - length ys) (ys ++ xs) r.back (rw (r.layout, s.layout, step, fits))
        (ground (arith, length-append ys xs, r.bounded))
  | inr moves ↦
      gives 0 (ys ++ xs) 0 (rw (r.layout, s.layout, step, moves))
        (ground (arith, length-append ys xs))
]
  where
    step :
        push_front (laid_out r.front xs r.back) (laid_out s.front ys s.back)
        ≡ ok (pushed_front r.front xs r.back ys)
    step = push_front-laid_out r.front xs r.back s.front ys s.back r.bounded h

-- `push_back` puts the bytes of `other` behind those exposed, whether or not it reallocates,
-- where both together are fewer than 2 ^ 31.
pub push_back-Represents :
    {c d : Bytes} {xs ys : List ℕ}
    → Represents c xs
    → Represents d ys
    → length xs + length ys < 2 ^ 31
    → Gives (push_back c d) (xs ++ ys)
push_back-Represents {c} {d} {xs} {ys} r s h = elim (Bool-cases (leb (length ys) r.back)) [
  | inl fits ↦
      gives r.front (xs ++ ys) (r.back - length ys) (rw (r.layout, s.layout, step, fits))
        (ground (arith, length-append xs ys, r.bounded))
  | inr moves ↦
      gives 0 (xs ++ ys) 0 (rw (r.layout, s.layout, step, moves))
        (ground (arith, length-append xs ys))
]
  where
    step :
        push_back (laid_out r.front xs r.back) (laid_out s.front ys s.back)
        ≡ ok (pushed_back r.front xs r.back ys)
    step = push_back-laid_out r.front xs r.back s.front ys s.back r.bounded h

-- `expand` exposes zeros on both sides of the bytes, where the new size is below 2 ^ 31.
pub expand-Represents :
    {c : Bytes} {xs : List ℕ} (f b : ℕ)
    → Represents c xs
    → f + length xs + b < 2 ^ 31
    → Gives (expand f b c) (replicate f 0 ++ (xs ++ replicate b 0))
expand-Represents {c} {xs} f b r h = elim (Bool-cases (leb f r.front && leb b r.back)) [
  | inl fits ↦
      let hf : f ≤ r.front = ground arith in
      let hb : b ≤ r.back = ground arith in
      gives (r.front - f) _ (r.back - b)
        (rw r.layout (expand_fits r.front xs r.back f b r.bounded hf hb))
        (omega (arith, length-laid_out f xs b, r.bounded))
  | inr moves ↦
      gives (f - f) _ (b - b) (rw r.layout (expand_moves r.front xs r.back f b r.bounded h moves))
        (omega (arith, length-laid_out f xs b))
]

-- `reserve` leaves the exposed bytes as they are, and at least the requested room on each side,
-- where room and bytes are below 2 ^ 31 together.
pub reserve-Represents :
    {c : Bytes} {xs : List ℕ} (f b : ℕ)
    → Represents c xs
    → f + length xs + b < 2 ^ 31
    → (c' : Bytes) × (reserve f b c ≡ ok c')
      × Represents c' xs
      × (f ≤ capacity_front c')
      × (b ≤ capacity_back c')
reserve-Represents {c} {xs} f b r h = elim (Bool-cases (leb f r.front && leb b r.back)) [
  | inl fits ↦
      let hf : f ≤ r.front = ground arith in
      let hb : b ≤ r.back = ground arith in
      let bound : r.front + length xs + r.back < 2 ^ 31 = r.bounded in
      (
        laid_out r.front xs r.back,
        rw r.layout (reserve_fits r.front xs r.back f b bound hf hb),
        laid_out-Represents r.front xs r.back bound,
        hf,
        omega arith,
      )
  | inr moves ↦ (
    laid_out f xs b,
    rw r.layout (reserve_moves r.front xs r.back f b r.bounded h moves),
    laid_out-Represents f xs b h,
    omega arith,
    omega arith,
  )
]

-- Where `shrink` is asked to drop more than there is, and less than 2 ^ 31, it drops everything.
pub shrink_all-Represents :
    {c : Bytes} {xs : List ℕ} (f b : ℕ)
    → Represents c xs
    → length xs < f + b
    → f + b < 2 ^ 31
    → Gives (shrink f b c) []
shrink_all-Represents {c} {xs} f b r h small =
    gives r.front [] (length xs + r.back)
      (rw r.layout (shrink_all-laid_out r.front xs r.back f b r.bounded h small))
      (omega (arith, r.bounded))

-- `shrink` drops `f` bytes in front and `b` behind, and everything where there are fewer, if it is
-- to drop fewer than 2 ^ 31.
pub shrink-Represents :
    {c : Bytes} {xs : List ℕ} (f b : ℕ)
    → Represents c xs
    → f + b < 2 ^ 31
    → Gives (shrink f b c) (take (length xs - f - b) (drop f xs))
shrink-Represents {c} {xs} f b r small = elim (dec_lt (length xs) (f + b)) [
  | yes more ↦
      let none_left : length xs - f - b ≡ 0 = omega arith in
      rw none_left (shrink_all-Represents f b r more small)
  | no h ↦
      let m = length xs - f - b in
      let fits : f + b ≤ length xs = omega arith in
      gives (r.front + f) (take m (drop f xs)) (b + r.back)
        (rw r.layout (shrink_lem r.front xs r.back f b r.bounded fits))
        (omega (arith, length-take m (drop f xs), length-drop f xs, r.bounded))
]

-- `shrink` on one side, by the parts that stay and go.
pub shrink_back-Represents :
    {c : Bytes} (xs ys : List ℕ) → Represents c (xs ++ ys) → Gives (shrink 0 (length ys) c) xs
shrink_back-Represents {c} xs ys r =
    gives (r.front + 0) xs (length ys + r.back)
      (rw r.layout (shrink-laid_out r.front [] xs ys r.back r.bounded))
      (omega (arith, length-append {0} xs ys, r.bounded))

pub shrink_front-Represents :
    {c : Bytes} (xs ys : List ℕ) → Represents c (xs ++ ys) → Gives (shrink (length xs) 0 c) ys
shrink_front-Represents {c} xs ys r =
    gives (r.front + length xs) ys (0 + r.back)
      (cc (
        r.layout,
        shrink-laid_out r.front xs ys [] r.back (rw (append-nil ys) r.bounded),
        append-nil ys,
      ))
      (omega (arith, length-append {0} xs ys, r.bounded))

pub sized-Represents : (n : ℕ) → n < 2 ^ 31 → Represents (sized 0 n 0) (replicate n 0)
sized-Represents n h =
    rw (sized_lem 0 n 0 (omega arith))
      (laid_out-Represents 0 (replicate n 0) 0 (omega (arith, length-zeros n)))

pub set_all-Represents :
    {c : Bytes} {xs : List ℕ} (v : ℕ)
    → Represents c xs
    → Gives (set_all c v) (replicate (length xs) v)
unfolding set_all
set_all-Represents {c} {xs} v r =
    gives r.front (replicate (length xs) v) r.back
      (rw r.layout (fill_back r.front [] xs r.back 0 v refl))
      (omega (arith, length-replicate {0} (length xs) v, r.bounded))

pub to_bytes-Represents :
    (raw : List ℕ) (k : ℕ) → length raw + k < 2 ^ 31 → Gives (to_bytes raw k) raw
to_bytes-Represents raw k h = gives 0 raw k (to_bytes_lem raw k h) (omega arith)

-- A container made from an existing array has no capacity, so the room behind it is taken to be
-- huge: a push then writes behind the array.
pub push_back_byte-adopt :
    (x : ℕ) (raw : List ℕ) (v : ℕ)
    → length (x ∷ raw) < 2 ^ 31
    → push_back_byte (adopt (x ∷ raw) (length (x ∷ raw))) v ≡ err overrun
unfolding push_back_byte expand reserve adopt put
push_back_byte-adopt x raw v h =
    ground (arith, write_one_outside (x ∷ raw) (0 + length (x ∷ raw)) v)
