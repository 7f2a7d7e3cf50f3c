-- ===== src/Bytes/Copies.antt =====
-- The operations of data/container.hpp that copy bytes or give one, on the list of exposed bytes.
use libprotoserial.Prelude.{
  ℕ, suc, dec_lt, split_at, ◌∙◌, ◌+◌, ◌^◌, ◌≤◌, ◌<◌, ◌≡◌, ap, ◌⊎◌, inl, inr, ◌≢◌, List, ◌++◌, ok,
  err, out_of_range, arith, length, take, drop, get_or, length-append, length-take, length-drop,
  take-append-drop,
}
use libprotoserial.Bytes.{Bytes, at, copy, copy_assign, sub, append}
use libprotoserial.Bytes.Layout.{Represents, laid_out}
use libprotoserial.Bytes.Copy.{
  copy-laid_out, at-laid_out, at_outside, sub-laid_out, append-laid_out, copy_assign-laid_out,
  copy_assign-laid_out_throws,
}
use libprotoserial.Bytes.Views.{Gives, gives}

-- A copy exposes the same bytes.
pub copy-Represents : {c : Bytes} {xs : List ℕ} → Represents c xs → Gives (copy c) xs
copy-Represents {c} {xs} r =
    gives 0 xs 0 (rw r.layout (copy-laid_out r.front xs r.back (omega (arith, r.bounded))))
      (omega (arith, r.bounded))

-- `at` reads the exposed bytes, and throws outside of them.
pub at-Represents :
    {c : Bytes} {xs : List ℕ} (i : ℕ)
    → Represents c xs
    → ((i < length xs) × (at c i ≡ ok (get_or xs i 0)))
      ⊎ ((length xs ≤ i) × (at c i ≡ err out_of_range))
at-Represents {c} {xs} i r = elim (dec_lt i (length xs)) [
  | yes p ↦
      let place : i ≡ length (take i xs) = omega (arith, length-take i xs) in
      let found : at (laid_out r.front xs r.back) i ≡ ok (get_or xs i 0) = cc (
        at-laid_out r.front (take i xs) (get_or xs i 0) (drop (suc i) xs) r.back i place,
        split_at i xs 0 p,
      ) in
      inl (p, rw r.layout found)
  | no p ↦ inr (omega arith, at_outside c i (rw r.layout (omega arith)))
]

-- An assignment copies the bytes, where the capacity of the target is not their number, or they are
-- as many as the exposed bytes of the target.
pub copy_assign-Represents :
    {c d : Bytes} {xs ys : List ℕ}
    → Represents c xs
    → Represents d ys
    → ((length ys ≢ c.cap) ⊎ (length ys ≡ length xs))
    → Gives (copy_assign c d) ys
copy_assign-Represents {c} {d} {xs} {ys} r s h =
    gives 0 ys 0
      (rw (r.layout, s.layout)
        (copy_assign-laid_out r.front xs r.back s.front ys s.back r.bounded s.bounded
          (rw r.layout at h)))
      (omega (arith, s.bounded))

-- Where the capacity of the target is the number of the bytes, and it exposes fewer, the range
-- check on the old size throws.
pub copy_assign_throws :
    {c d : Bytes} {xs ys : List ℕ}
    → Represents c xs
    → Represents d ys
    → length ys ≡ c.cap
    → length xs < length ys
    → copy_assign c d ≡ err out_of_range
copy_assign_throws {c} {d} {xs} {ys} r s full h =
    rw (r.layout, s.layout)
      (copy_assign-laid_out_throws r.front xs r.back s.front ys s.back (rw r.layout at full) h)

-- `append` (`operator+`) concatenates.
pub append-Represents :
    {c d : Bytes} {xs ys : List ℕ}
    → Represents c xs
    → Represents d ys
    → length xs + length ys < 2 ^ 31
    → Gives (append c d) (xs ++ ys)
append-Represents {c} {d} {xs} {ys} r s h =
    gives 0 (xs ++ ys) 0
      (rw (r.layout, s.layout) (append-laid_out r.front xs r.back s.front ys s.back h))
      (omega (arith, length-append {0} xs ys))

-- `sub` copies a part that lies within the exposed bytes.
pub sub-Represents :
    {c : Bytes} {xs : List ℕ} (start n : ℕ)
    → Represents c xs
    → start + n ≤ length xs
    → Gives (sub c start n) (take n (drop start xs))
sub-Represents {c} {xs} start n r h =
    let ys = take n (drop start xs) in
    let zs = drop n (drop start xs) in
    let whole : take start xs ++ (ys ++ zs) ≡ xs =
      ap (◌++◌ (take start xs)) (take-append-drop n (drop start xs)) ∙ take-append-drop start xs in
    let place : length (take start xs) ≡ start = omega (arith, length-take start xs) in
    let count : length ys ≡ n =
      omega (arith, length-take n (drop start xs), length-drop start xs) in
    let step : sub (laid_out r.front xs r.back) start n ≡ ok (laid_out 0 ys 0) = cc (
      sub-laid_out r.front (take start xs) ys zs r.back (omega (arith, r.bounded)),
      whole,
      place,
      count,
    ) in
    gives 0 ys 0 (rw r.layout step) (omega (arith, r.bounded))
