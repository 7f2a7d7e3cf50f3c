-- ===== src/Bytes/Layout.antt =====
-- The shape that every container keeps: zeros in front of and behind the exposed bytes.
use libprotoserial.Prelude.{
  ℕ, ◌+◌, ◌-◌, ◌^◌, ◌≤◌, ◌<◌, ◌≡◌, refl, sym, subst, List, [], ◌∷◌, ◌++◌, ok, ◌>>=◌, arith, length,
  replicate, length-append, length-replicate, replicate-append, append-nil, append_assoc,
}
use libprotoserial.Bytes.{Bytes, window, sized, put, fill}
use libprotoserial.Bytes.Memory.{
  write_range, read_range-middle, write_range-middle, write_one, write_one-middle, has_data_of_pos,
}

-- An allocation that exposes `xs` behind `a` and before `b` spare bytes, all zero.
abbrev pub laid_out : ℕ → List ℕ → ℕ → Bytes
laid_out a xs b = record {
  base = replicate a 0 ++ (xs ++ replicate b 0);
  len = length xs;
  cap = a + length xs + b;
  offset = a;
}

-- `c` exposes exactly `xs`. Sizes stay in the range of `int`, to which `shrink` casts them.
pub record Represents (c : Bytes) (xs : List ℕ) : Type 0 where
  pub front : ℕ
  pub back : ℕ
  pub layout : c ≡ laid_out front xs back
  pub bounded : front + length xs + back < 2 ^ 31

pub length-zeros : (n : ℕ) → length (replicate {A = ℕ} n 0) ≡ n
length-zeros n = length-replicate n 0

pub length-laid_out :
    (a : ℕ) (xs : List ℕ) (b : ℕ) → length (laid_out a xs b).base ≡ a + length xs + b
length-laid_out a xs b = omega (
  arith,
  length-append {0} (replicate a 0) (xs ++ replicate b 0),
  length-append {0} xs (replicate b 0),
  length-zeros a,
  length-zeros b,
)

pub window-laid_out : (a : ℕ) (xs : List ℕ) (b : ℕ) → window (laid_out a xs b) ≡ ok xs
window-laid_out a xs b =
    read_range-middle (replicate a 0) xs (replicate b 0) a (length xs) (sym (length-zeros a)) refl

-- Overwriting the exposed bytes.
pub write_range-laid_out :
    (a : ℕ) (xs ys : List ℕ) (b : ℕ)
    → length ys ≡ length xs
    → write_range (laid_out a xs b).base a ys ≡ ok (laid_out a ys b).base
write_range-laid_out a xs ys b h =
    write_range-middle (replicate a 0) xs (replicate b 0) ys a (sym (length-zeros a)) h

-- Three parts: the exposed bytes are split into `xs`, `ys` and `zs`.
pub write_range-part :
    (a : ℕ) (xs ys zs ws : List ℕ) (b : ℕ)
    → length ws ≡ length ys
    → write_range (laid_out a (xs ++ (ys ++ zs)) b).base (a + length xs) ws
      ≡ ok (laid_out a (xs ++ (ws ++ zs)) b).base
write_range-part a xs ys zs ws b h = simp (append_assoc) (
    simp (← append_assoc (replicate a 0) xs) (
      write_range-middle (replicate a 0 ++ xs) ys (zs ++ replicate b 0) ws (a + length xs)
        (omega (arith, length-append {0} (replicate a 0) xs, length-zeros a)) h))

-- The same, with the container that the write leaves.
pub overwrite :
    (a : ℕ) (xs ys zs ws : List ℕ) (b p : ℕ)
    → p ≡ a + length xs
    → length ws ≡ length ys
    → (write_range (laid_out a (xs ++ (ys ++ zs)) b).base p ws >>= λ base'.
        ok (record (laid_out a (xs ++ (ys ++ zs)) b) { base = base' }))
      ≡ ok (laid_out a (xs ++ (ws ++ zs)) b)
overwrite a xs ys zs ws b p hp h =
    rw (hp, write_range-part a xs ys zs ws b h)
      (ground (
        arith,
        length-append xs (ys ++ zs),
        length-append ys zs,
        length-append xs (ws ++ zs),
        length-append ws zs,
      ))

pub write_range-back :
    (a : ℕ) (xs ys ws : List ℕ) (b : ℕ)
    → length ws ≡ length ys
    → write_range (laid_out a (xs ++ ys) b).base (a + length xs) ws
      ≡ ok (laid_out a (xs ++ ws) b).base
write_range-back a xs ys ws b h = simp append_assoc (
    simp (← append_assoc (replicate a 0) xs) (
      write_range-middle (replicate a 0 ++ xs) ys (replicate b 0) ws (a + length xs)
        (omega (arith, length-append {0} (replicate a 0) xs, length-zeros a)) h))

pub overwrite_back :
    (a : ℕ) (xs ys ws : List ℕ) (b p : ℕ)
    → p ≡ a + length xs
    → length ws ≡ length ys
    → (write_range (laid_out a (xs ++ ys) b).base p ws >>= λ base'.
        ok (record (laid_out a (xs ++ ys) b) { base = base' }))
      ≡ ok (laid_out a (xs ++ ws) b)
overwrite_back a xs ys ws b p hp h =
    subst
      (λ t.
        (write_range (laid_out a (xs ++ t) b).base p ws >>= λ base'.
        ok (record (laid_out a (xs ++ t) b) { base = base' }))
        ≡ ok (laid_out a (xs ++ ws) b))
      (append-nil ys)
      (subst
        (λ t.
          (write_range (laid_out a (xs ++ (ys ++ [])) b).base p ws >>= λ base'.
          ok (record (laid_out a (xs ++ (ys ++ [])) b) { base = base' }))
          ≡ ok (laid_out a (xs ++ t) b))
        (append-nil ws) (overwrite a xs ys [] ws b p hp h))

pub zeros_split :
    (f n b : ℕ)
    → replicate {A = ℕ} (f + n + b) 0 ≡ replicate f 0 ++ (replicate n 0 ++ replicate b 0)
zeros_split f n b =
    ground (arith, replicate-append {A = ℕ} n b 0, replicate-append {A = ℕ} f (n + b) 0)

pub zeros_front : (m n : ℕ) → n ≤ m → replicate {A = ℕ} m 0 ≡ replicate (m - n) 0 ++ replicate n 0
zeros_front m n h = ground (arith, replicate-append {A = ℕ} (m - n) n 0)

pub zeros_back : (m n : ℕ) → n ≤ m → replicate {A = ℕ} m 0 ≡ replicate n 0 ++ replicate (m - n) 0
zeros_back m n h = ground (arith, replicate-append {A = ℕ} n (m - n) 0)

-- A zeroed allocation exposes zeros.
pub sized_lem : (a n b : ℕ) → a + n + b < 2 ^ 64 → sized a n b ≡ laid_out a (replicate n 0) b
unfolding sized
sized_lem a n b h = ground (arith, length-zeros n, zeros_split a n b)

-- A checked assignment inside of the window.
pub put-laid_out :
    (a : ℕ) (xs : List ℕ) (y v : ℕ) (zs : List ℕ) (b i : ℕ)
    → i ≡ length xs
    → put (laid_out a (xs ++ (y ∷ zs)) b) i v ≡ ok (laid_out a (xs ++ (v ∷ zs)) b)
unfolding put
put-laid_out a xs y v zs b i h = ground (
  arith,
  write,
  length-append xs (y ∷ zs),
  length-append xs (v ∷ zs),
  has_data_of_pos (laid_out a (xs ++ (y ∷ zs)) b).base,
  length-laid_out a (xs ++ (y ∷ zs)) b,
)
  where
    write :
        write_one (laid_out a (xs ++ (y ∷ zs)) b).base (a + i) v
        ≡ ok (laid_out a (xs ++ (v ∷ zs)) b).base
    write = simp (append_assoc) (
        simp (← append_assoc (replicate a 0) xs) (
          write_one-middle (replicate a 0 ++ xs) (zs ++ replicate b 0) y v (a + i)
            (omega (arith, length-append {0} (replicate a 0) xs, length-zeros a))))

-- The loop of assignments replaces its range by the value.
pub fill-laid_out :
    (a : ℕ) (xs ys zs : List ℕ) (b i v : ℕ)
    → i ≡ length xs
    → fill (laid_out a (xs ++ (ys ++ zs)) b) i (length ys) v
      ≡ ok (laid_out a (xs ++ (replicate (length ys) v ++ zs)) b)
unfolding fill
fill-laid_out a xs [] zs b i v h = refl
fill-laid_out a xs (y ∷ ys) zs b i v h = rw (put-laid_out a xs y v (ys ++ zs) b i h) (
    simp append_assoc (
      simp append_assoc at (
        fill-laid_out a (xs ++ (v ∷ [])) ys zs b (i + 1) v
          (omega (arith, length-append {0} xs (v ∷ []))))))

pub fill_back :
    (a : ℕ) (xs ys : List ℕ) (b i v : ℕ)
    → i ≡ length xs
    → fill (laid_out a (xs ++ ys) b) i (length ys) v
      ≡ ok (laid_out a (xs ++ replicate (length ys) v) b)
fill_back a xs ys b i v h =
    subst
      (λ t.
        fill (laid_out a (xs ++ t) b) i (length ys) v
        ≡ ok (laid_out a (xs ++ replicate (length ys) v) b))
      (append-nil ys)
      (subst
        (λ t. fill (laid_out a (xs ++ (ys ++ [])) b) i (length ys) v ≡ ok (laid_out a (xs ++ t) b))
        (append-nil (replicate (length ys) v)) (fill-laid_out a xs ys [] b i v h))
