-- ===== src/Bytes/Shrink.antt =====
-- `shrink` on a container of known layout: it hides bytes and zeroes them, without reallocation.
use libprotoserial.Prelude.{
  ℕ, ◌+◌, ◌-◌, ◌^◌, ◌≤◌, ◌<◌, ◌≡◌, refl, ap, ◌∙◌, List, [], ◌∷◌, ◌++◌, ok, arith, length, replicate,
  take, drop, length-append, length-take, length-drop, append-nil, append_assoc, true, false, ◌&&◌,
  ◌==◌, ltb, replicate-append, take-append-drop,
}
use libprotoserial.Bytes.{shrink, shrink_front, shrink_back, set_all, set_range}
use libprotoserial.Bytes.Memory.{int_lt, add_size, sub_size}
use libprotoserial.Bytes.Layout.{laid_out, length-zeros, fill-laid_out, fill_back}

-- Zeroed bytes of the window that are handed over to the spare capacity.
hide_front :
    (a n : ℕ) (zs : List ℕ) (k : ℕ)
    → a + n + length zs + k < 2 ^ 31
    → record (laid_out a (replicate n 0 ++ zs) k) {
      offset = add_size a n;
      len = sub_size (length (replicate n 0 ++ zs)) n;
    }
      ≡ laid_out (a + n) zs k
hide_front a n zs k h = ground (arith, image, measure)
  where
    measure : length (replicate n 0 ++ zs) ≡ n + length zs
    measure = omega (arith, length-append {0} (replicate n 0) zs, length-zeros n)

    image : (laid_out a (replicate n 0 ++ zs) k).base ≡ replicate (a + n) 0 ++ (zs ++ replicate k 0)
    image = rw (← replicate-append {A = ℕ} a n 0) (simp append_assoc)

hide_back :
    (a : ℕ) (ys : List ℕ) (n k : ℕ)
    → a + n + length ys + k < 2 ^ 31
    → record (laid_out a (ys ++ replicate n 0) k) {
      len = sub_size (length (ys ++ replicate n 0)) n;
    }
      ≡ laid_out a ys (n + k)
hide_back a ys n k h = ground (arith, image, measure)
  where
    measure : length (ys ++ replicate n 0) ≡ n + length ys
    measure = omega (arith, length-append {0} ys (replicate n 0), length-zeros n)

    image : (laid_out a (ys ++ replicate n 0) k).base ≡ replicate a 0 ++ (ys ++ replicate (n + k) 0)
    image = rw (← replicate-append {A = ℕ} n k 0) (simp append_assoc)

-- The bytes `ys` in front of `zs` are hidden.
shrink_front-laid_out :
    (a : ℕ) (ys zs : List ℕ) (k : ℕ)
    → a + length (ys ++ zs) + k < 2 ^ 31
    → shrink_front (length ys) (laid_out a (ys ++ zs) k) ≡ ok (laid_out (a + length ys) zs k)
unfolding shrink_front set_range
shrink_front-laid_out a [] zs k h = ground arith
shrink_front-laid_out a (y ∷ ys) zs k h =
    let n = length (y ∷ ys) in
    let bound : a + n + length zs + k < 2 ^ 31 = omega (arith, length-append {0} (y ∷ ys) zs) in
    let pos : ltb 0 n ≡ true = ground arith in
    let rounds : add_size n 0 - 0 ≡ n = omega arith in
    rw (pos, rounds, fill-laid_out a [] (y ∷ ys) zs k 0 0 refl) (ap ok (hide_front a n zs k bound))

-- The bytes `zs` behind `ys` are hidden.
shrink_back-laid_out :
    (a : ℕ) (ys zs : List ℕ) (k : ℕ)
    → a + length (ys ++ zs) + k < 2 ^ 31
    → shrink_back (length zs) (laid_out a (ys ++ zs) k) ≡ ok (laid_out a ys (length zs + k))
unfolding shrink_back set_range
shrink_back-laid_out a ys [] k h = ground (arith, append-nil ys)
shrink_back-laid_out a ys (z ∷ zs) k h =
    let n = length (z ∷ zs) in
    let e : length (ys ++ (z ∷ zs)) ≡ length ys + n = length-append ys (z ∷ zs) in
    let start : sub_size (length (ys ++ (z ∷ zs))) n ≡ length ys = omega arith in
    let pos : ltb 0 n ≡ true = ground arith in
    let rounds : add_size n (length ys) - length ys ≡ n = omega arith in
    let bound : a + n + length ys + k < 2 ^ 31 = omega arith in
    rw (pos, start, rounds, fill_back a ys (z ∷ zs) k (length ys) 0 refl)
      (ap ok (hide_back a ys n k bound))

-- More bytes hidden than there are: the window is zeroed and closed.
close :
    (a : ℕ) (xs : List ℕ) (k : ℕ)
    → record (laid_out a (replicate (length xs) 0) k) { len = 0 } ≡ laid_out a [] (length xs + k)
close a xs k = ground (arith, length-zeros (length xs), replicate-append {A = ℕ} (length xs) k 0)

module _ (a : ℕ) (xs : List ℕ) (k f b : ℕ) (h : a + length xs + k < 2 ^ 31) where
  pub shrink_all-laid_out :
      length xs < f + b
      → f + b < 2 ^ 31
      → shrink f b (laid_out a xs k) ≡ ok (laid_out a [] (length xs + k))
  unfolding shrink set_all
  shrink_all-laid_out long small =
      let some_bytes : (f == 0 && b == 0) ≡ false = ground arith in
      let over : int_lt (length xs) (add_size f b) ≡ true = ground arith in
      rw (some_bytes, over, fill_back a [] xs k 0 0 refl) (ap ok (close a xs k))

shrink_parts :
    (a : ℕ) (ys ms zs : List ℕ) (k : ℕ)
    → a + length (ys ++ (ms ++ zs)) + k < 2 ^ 31
    → (length ys == 0 && length zs == 0) ≡ false
    → shrink (length ys) (length zs) (laid_out a (ys ++ (ms ++ zs)) k)
      ≡ ok (laid_out (a + length ys) ms (length zs + k))
unfolding shrink
shrink_parts a ys ms zs k h e =
    let total : length (ys ++ (ms ++ zs)) ≡ length ys + length (ms ++ zs) =
      length-append ys (ms ++ zs) in
    let inner : length (ms ++ zs) ≡ length ms + length zs = length-append ms zs in
    let left : length (ys ++ ms) ≡ length ys + length ms = length-append ys ms in
    let under : int_lt (length (ys ++ (ms ++ zs))) (add_size (length ys) (length zs)) ≡ false =
      ground arith in
    rw
      (
        e,
        under,
        ← append_assoc ys ms zs,
        shrink_back-laid_out a (ys ++ ms) zs k (rw (append_assoc ys ms zs) h),
      )
      (shrink_front-laid_out a ys ms (length zs + k) (omega arith))

-- Otherwise `ys` in front and `zs` behind are hidden.
pub shrink-laid_out :
    (a : ℕ) (ys ms zs : List ℕ) (k : ℕ)
    → a + length (ys ++ (ms ++ zs)) + k < 2 ^ 31
    → shrink (length ys) (length zs) (laid_out a (ys ++ (ms ++ zs)) k)
      ≡ ok (laid_out (a + length ys) ms (length zs + k))
unfolding shrink
shrink-laid_out a [] ms [] k h = ground (arith, append-nil ms)
shrink-laid_out a (y ∷ ys) ms zs k h = shrink_parts a (y ∷ ys) ms zs k h (ground arith)
shrink-laid_out a [] ms (z ∷ zs) k h = shrink_parts a [] ms (z ∷ zs) k h (ground arith)

-- Both bounds at once, by position.
pub shrink_lem :
    (a : ℕ) (xs : List ℕ) (k f b : ℕ)
    → a + length xs + k < 2 ^ 31
    → f + b ≤ length xs
    → shrink f b (laid_out a xs k)
      ≡ ok (laid_out (a + f) (take (length xs - f - b) (drop f xs)) (b + k))
shrink_lem a xs k f b h fits =
    let m = length xs - f - b in
    let ys = take f xs in
    let ms = take m (drop f xs) in
    let zs = drop m (drop f xs) in
    let whole : ys ++ (ms ++ zs) ≡ xs =
      ap (◌++◌ (take f xs)) (take-append-drop m (drop f xs)) ∙ take-append-drop f xs in
    let front : length ys ≡ f = omega (arith, length-take f xs) in
    let back : length zs ≡ b = omega (arith, length-drop m (drop f xs), length-drop f xs) in
    cc (shrink-laid_out a ys ms zs k (rw whole h), whole, front, back)
