-- ===== src/Bytes/Grow.antt =====
-- `reserve`, `expand` and the pushes on a container of known layout.
use libprotoserial.Prelude.{
  ℕ, ◌+◌, ◌-◌, ◌^◌, ◌≤◌, ◌<◌, ◌≡◌, refl, ap, sym, ◌∙◌, List, [], ◌∷◌, ◌++◌, ok, arith, length,
  replicate, length-append, append-nil, append_assoc, false, ◌&&◌, leb, if◌then◌else◌, Bool-cases,
  inl, inr,
}
use libprotoserial.Bytes.{
  Bytes, reserve, reallocate, expand, push_front, push_back, push_front_byte, push_back_byte,
}
use libprotoserial.Bytes.Memory.{add_size, sub_size}
use libprotoserial.Bytes.Layout.{
  laid_out, zeros_split, zeros_front, zeros_back, overwrite, overwrite_back, write_range-laid_out,
  length-zeros, length-laid_out, window-laid_out, put-laid_out,
}

-- The new allocation of `reserve`, whether or not there was an old one.
reallocate_lem :
    (buf : List ℕ) (a : ℕ) (xs : List ℕ) (k f b : ℕ)
    → buf ≡ (laid_out a xs k).base
    → reallocate buf a (length xs) f (f + length xs + b) ≡ ok (laid_out f xs b).base
unfolding reallocate
reallocate_lem [] a [] k f b e = ap ok (ap (λ n. replicate {A = ℕ} n 0) refl ∙ zeros_split f 0 b)
reallocate_lem [] a (x ∷ xs) k f b e =
    absurd (omega (arith, ap length e, length-laid_out a (x ∷ xs) k))
reallocate_lem (y ∷ r) a xs k f b e =
    rw (e, window-laid_out a xs k, zeros_split f (length xs) b)
      (write_range-laid_out f (replicate (length xs) 0) xs b (sym (length-zeros (length xs))))

-- Zeros of the spare capacity become exposed.
exposed :
    (a : ℕ) (xs : List ℕ) (k f b : ℕ)
    → a + length xs + k < 2 ^ 31
    → f ≤ a
    → b ≤ k
    → record (laid_out a xs k) { offset = sub_size a f; len = add_size (add_size (length xs) f) b }
      ≡ laid_out (a - f) (replicate f 0 ++ (xs ++ replicate b 0)) (k - b)
exposed a xs k f b h hf hb = ground (arith, image, measure)
  where
    measure : length (replicate f 0 ++ (xs ++ replicate b 0)) ≡ f + length xs + b
    measure = length-laid_out f xs b

    image :
        (laid_out a xs k).base
        ≡ replicate (a - f) 0 ++ ((replicate f 0 ++ (xs ++ replicate b 0)) ++ replicate (k - b) 0)
    image = rw (zeros_front a f hf, zeros_back k b hb) (simp append_assoc)

module _ (a : ℕ) (xs : List ℕ) (k : ℕ) where
  -- Enough room on both sides: nothing changes.
  pub reserve_fits :
      (f b : ℕ)
      → a + length xs + k < 2 ^ 31
      → f ≤ a
      → b ≤ k
      → reserve f b (laid_out a xs k) ≡ ok (laid_out a xs k)
  unfolding reserve
  reserve_fits f b h hf hb = ground arith

  pub reserve_moves :
      (f b : ℕ)
      → a + length xs + k < 2 ^ 31
      → f + length xs + b < 2 ^ 31
      → (leb f a && leb b k) ≡ false
      → reserve f b (laid_out a xs k) ≡ ok (laid_out f xs b)
  unfolding reserve
  reserve_moves f b h h' e = ground (arith, reallocate_lem (laid_out a xs k).base a xs k f b refl)

  pub expand_fits :
      (f b : ℕ)
      → a + length xs + k < 2 ^ 31
      → f ≤ a
      → b ≤ k
      → expand f b (laid_out a xs k)
        ≡ ok (laid_out (a - f) (replicate f 0 ++ (xs ++ replicate b 0)) (k - b))
  unfolding expand
  expand_fits f b h hf hb = rw (reserve_fits f b h hf hb) (ap ok (exposed a xs k f b h hf hb))

  pub expand_moves :
      (f b : ℕ)
      → a + length xs + k < 2 ^ 31
      → f + length xs + b < 2 ^ 31
      → (leb f a && leb b k) ≡ false
      → expand f b (laid_out a xs k)
        ≡ ok (laid_out (f - f) (replicate f 0 ++ (xs ++ replicate b 0)) (b - b))
  unfolding expand
  expand_moves f b h h' e =
      rw (reserve_moves f b h h' e) (ap ok (exposed f xs b f b h' (omega arith) (omega arith)))

  -- One-sided growth: into the spare capacity where that is enough, else into a new allocation.
  pub expand_front :
      (n : ℕ)
      → a + length xs + k < 2 ^ 31
      → n + length xs < 2 ^ 31
      → expand n 0 (laid_out a xs k)
        ≡ ok (
            if leb n a
            then laid_out (a - n) (replicate n 0 ++ xs) k
            else laid_out 0 (replicate n 0 ++ xs) 0)
  expand_front n h h' = elim (Bool-cases (leb n a)) [
    | inl fits ↦
        rw (fits, expand_fits n 0 h (ground arith) (omega arith)) (ground (arith, append-nil xs))
    | inr moves ↦
        rw (moves, expand_moves n 0 h (omega arith) (ground arith)) (ground (arith, append-nil xs))
  ]

  pub expand_back :
      (n : ℕ)
      → a + length xs + k < 2 ^ 31
      → length xs + n < 2 ^ 31
      → expand 0 n (laid_out a xs k)
        ≡ ok (
            if leb n k
            then laid_out a (xs ++ replicate n 0) (k - n)
            else laid_out 0 (xs ++ replicate n 0) 0)
  expand_back n h h' = elim (Bool-cases (leb n k)) [
    | inl fits ↦ rw (fits, expand_fits 0 n h (omega arith) (ground arith)) (ground arith)
    | inr moves ↦ rw (moves, expand_moves 0 n h (omega arith) (ground arith)) (ground arith)
  ]

-- What a push leaves when the container had room for the bytes, or had to be moved.
abbrev pub pushed_front : ℕ → List ℕ → ℕ → List ℕ → Bytes
pushed_front a xs k ys =
    if leb (length ys) a then laid_out (a - length ys) (ys ++ xs) k else laid_out 0 (ys ++ xs) 0

abbrev pub pushed_back : ℕ → List ℕ → ℕ → List ℕ → Bytes
pushed_back a xs k ys =
    if leb (length ys) k then laid_out a (xs ++ ys) (k - length ys) else laid_out 0 (xs ++ ys) 0

module _ (a : ℕ) (xs : List ℕ) (k : ℕ) (a' : ℕ) (ys : List ℕ) (k' : ℕ) where
  pub push_front-laid_out :
      a + length xs + k < 2 ^ 31
      → length ys + length xs < 2 ^ 31
      → push_front (laid_out a xs k) (laid_out a' ys k') ≡ ok (pushed_front a xs k ys)
  unfolding push_front
  push_front-laid_out h h' = elim (Bool-cases (leb (length ys) a)) [
    | inl fits ↦
        rw (expand_front a xs k (length ys) h h', fits, window-laid_out a' ys k')
          (overwrite (a - length ys) [] (replicate (length ys) 0) xs ys k (a - length ys)
            (omega arith) (sym (length-zeros (length ys))))
    | inr moves ↦
        rw (expand_front a xs k (length ys) h h', moves, window-laid_out a' ys k')
          (overwrite 0 [] (replicate (length ys) 0) xs ys 0 0 (omega arith)
            (sym (length-zeros (length ys))))
  ]

  pub push_back-laid_out :
      a + length xs + k < 2 ^ 31
      → length xs + length ys < 2 ^ 31
      → push_back (laid_out a xs k) (laid_out a' ys k') ≡ ok (pushed_back a xs k ys)
  unfolding push_back
  push_back-laid_out h h' = elim (Bool-cases (leb (length ys) k)) [
    | inl fits ↦
        rw (expand_back a xs k (length ys) h h', fits, window-laid_out a' ys k')
          (overwrite_back a xs (replicate (length ys) 0) ys (k - length ys) _
            (omega
              (arith, length-append {0} xs (replicate (length ys) 0), length-zeros (length ys)))
            (sym (length-zeros (length ys))))
    | inr moves ↦
        rw (expand_back a xs k (length ys) h h', moves, window-laid_out a' ys k')
          (overwrite_back 0 xs (replicate (length ys) 0) ys 0 _
            (omega
              (arith, length-append {0} xs (replicate (length ys) 0), length-zeros (length ys)))
            (sym (length-zeros (length ys))))
  ]

module _ (a : ℕ) (xs : List ℕ) (k v : ℕ) (h : a + length xs + k < 2 ^ 31) where
  pub push_front_byte-laid_out :
      1 + length xs < 2 ^ 31
      → push_front_byte (laid_out a xs k) v ≡ ok (pushed_front a xs k (v ∷ []))
  unfolding push_front_byte
  push_front_byte-laid_out h' = elim (Bool-cases (leb 1 a)) [
    | inl fits ↦ rw (expand_front a xs k 1 h h', fits) (put-laid_out (a - 1) [] 0 v xs k 0 refl)
    | inr moves ↦ rw (expand_front a xs k 1 h h', moves) (put-laid_out 0 [] 0 v xs 0 0 refl)
  ]

  pub push_back_byte-laid_out :
      length xs + 1 < 2 ^ 31 → push_back_byte (laid_out a xs k) v ≡ ok (pushed_back a xs k (v ∷ []))
  unfolding push_back_byte
  push_back_byte-laid_out h' = elim (Bool-cases (leb 1 k)) [
    | inl fits ↦
        rw (expand_back a xs k 1 h h', fits)
          (put-laid_out a xs 0 v [] (k - 1) _ (omega (arith, length-append {0} xs (0 ∷ []))))
    | inr moves ↦
        rw (expand_back a xs k 1 h h', moves)
          (put-laid_out 0 xs 0 v [] 0 _ (omega (arith, length-append {0} xs (0 ∷ []))))
  ]
