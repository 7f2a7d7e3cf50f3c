-- ===== src/Bytes/Copy.antt =====
-- Copies and element access on containers of known layout.
use libprotoserial.Prelude.{
  ℕ, ◌+◌, ◌^◌, ◌≤◌, ◌<◌, ◌≡◌, refl, sym, List, [], ◌∷◌, ◌++◌, ok, err, out_of_range, arith, length,
  replicate, length-append, append_assoc, replicate-append, true, ◌==◌, ◌≢◌, ◌⊎◌, inl, inr,
  Bool-cases, list_eq,
}
use libprotoserial.Bytes.{
  Bytes, at, copy_from, copy, copy_assign, sized, sub, equal, append, to_bytes,
}
use libprotoserial.Bytes.Memory.{
  add_size, read_range, read_one, read_range-middle, read_one-middle, has_data_of_pos,
}
use libprotoserial.Bytes.Layout.{
  laid_out, length-zeros, length-laid_out, window-laid_out, write_range-laid_out, sized_lem,
  overwrite_back, write_range-part, write_range-back,
}

-- As many bytes as are exposed replace the exposed ones.
pub copy_from-laid_out :
    (a : ℕ) (xs ys : List ℕ) (b : ℕ)
    → length ys ≡ length xs
    → copy_from (laid_out a xs b) ys ≡ ok (laid_out a ys b)
unfolding copy_from
copy_from-laid_out a [] [] b h = refl
copy_from-laid_out a (x ∷ xs) [] b h = absurd (omega arith)
copy_from-laid_out a xs (y ∷ ys) b h = ground (
  arith,
  write_range-laid_out a xs (y ∷ ys) b h,
  has_data_of_pos (laid_out a xs b).base,
  length-laid_out a xs b,
)

-- More bytes than are exposed do not pass the range check.
pub copy_from_long :
    (c : Bytes) (ys : List ℕ) → c.len < length ys → copy_from c ys ≡ err out_of_range
unfolding copy_from
copy_from_long c [] h = absurd (omega arith)
copy_from_long c (y ∷ ys) h = ground arith

pub copy_zeroed :
    (ys : List ℕ) → length ys < 2 ^ 31 → copy_from (sized 0 (length ys) 0) ys ≡ ok (laid_out 0 ys 0)
copy_zeroed ys h =
    rw (sized_lem 0 (length ys) 0 (omega arith))
      (copy_from-laid_out 0 (replicate (length ys) 0) ys 0 (sym (length-zeros (length ys))))

pub copy-laid_out :
    (a : ℕ) (xs : List ℕ) (b : ℕ)
    → length xs < 2 ^ 31
    → copy (laid_out a xs b) ≡ ok (laid_out 0 xs 0)
unfolding copy
copy-laid_out a xs b h = rw (window-laid_out a xs b) (copy_zeroed xs h)

pub at-laid_out :
    (a : ℕ) (xs : List ℕ) (y : ℕ) (zs : List ℕ) (b i : ℕ)
    → i ≡ length xs
    → at (laid_out a (xs ++ (y ∷ zs)) b) i ≡ ok y
unfolding at
at-laid_out a xs y zs b i h = ground (
  arith,
  read,
  length-append xs (y ∷ zs),
  has_data_of_pos (laid_out a (xs ++ (y ∷ zs)) b).base,
  length-laid_out a (xs ++ (y ∷ zs)) b,
)
  where
    read : read_one (laid_out a (xs ++ (y ∷ zs)) b).base (a + i) ≡ ok y
    read = simp append_assoc (
        simp (← append_assoc (replicate a 0) xs) (
          read_one-middle (replicate a 0 ++ xs) (zs ++ replicate b 0) y (a + i)
            (omega (arith, length-append {0} (replicate a 0) xs, length-zeros a))))

pub at_outside : (c : Bytes) (i : ℕ) → c.len ≤ i → at c i ≡ err out_of_range
unfolding at
at_outside c i h = ground arith

-- A raw read of a part of the exposed bytes.
pub read_range-part :
    (a : ℕ) (xs ys zs : List ℕ) (b : ℕ)
    → read_range (laid_out a (xs ++ (ys ++ zs)) b).base (a + length xs) (length ys) ≡ ok ys
read_range-part a xs ys zs b = simp append_assoc (
    simp (← append_assoc (replicate a 0) xs) (
      read_range-middle (replicate a 0 ++ xs) ys (zs ++ replicate b 0) (a + length xs) (length ys)
        (omega (arith, length-append {0} (replicate a 0) xs, length-zeros a)) refl))

-- `sub` of a part of the exposed bytes.
pub sub-laid_out :
    (a : ℕ) (xs ys zs : List ℕ) (b : ℕ)
    → length ys < 2 ^ 31
    → sub (laid_out a (xs ++ (ys ++ zs)) b) (length xs) (length ys) ≡ ok (laid_out 0 ys 0)
unfolding sub
sub-laid_out a xs ys zs b h =
    rw (read_range-part a xs ys zs b, sized_lem 0 (length ys) 0 (omega arith))
      (overwrite_back 0 [] (replicate (length ys) 0) ys 0 0 (omega arith)
        (sym (length-zeros (length ys))))

pub equal-laid_out :
    (a : ℕ) (xs : List ℕ) (b a' : ℕ) (ys : List ℕ) (b' : ℕ)
    → equal (laid_out a xs b) (laid_out a' ys b') ≡ ok (list_eq xs ys)
unfolding equal
equal-laid_out a xs b a' ys b' = rw (window-laid_out a xs b, window-laid_out a' ys b')

pub to_bytes_lem :
    (raw : List ℕ) (k : ℕ) → length raw + k < 2 ^ 31 → to_bytes raw k ≡ ok (laid_out 0 raw k)
unfolding to_bytes
to_bytes_lem raw k h = rw (sized_lem 0 (length raw) k (omega arith)) (
    overwrite_back 0 [] (replicate (length raw) 0) raw k 0 (omega arith)
      (sym (length-zeros (length raw))))

pub append-laid_out :
    (a : ℕ) (xs : List ℕ) (b a' : ℕ) (ys : List ℕ) (b' : ℕ)
    → length xs + length ys < 2 ^ 31
    → append (laid_out a xs b) (laid_out a' ys b') ≡ ok (laid_out 0 (xs ++ ys) 0)
unfolding append
append-laid_out a xs b a' ys b' h =
    rw
      (
        window-laid_out a xs b,
        window-laid_out a' ys b',
        total,
        sized_lem 0 (length xs + length ys) 0 (omega arith),
        ← replicate-append {A = ℕ} (length xs) (length ys) 0,
        write_range-part 0 [] (replicate (length xs) 0) (replicate (length ys) 0) xs 0
            (sym (length-zeros (length xs))),
      )
      (ground (
        arith,
        write_range-back 0 xs (replicate (length ys) 0) ys 0 (sym (length-zeros (length ys))),
        length-append {A = ℕ} (replicate (length xs) 0) (replicate (length ys) 0),
        length-append xs ys,
        length-zeros (length xs),
        length-zeros (length ys),
      ))
  where
    total : add_size (length xs) (length ys) ≡ length xs + length ys
    total = omega arith

pub copy_assign-laid_out :
    (a : ℕ) (xs : List ℕ) (b a' : ℕ) (ys : List ℕ) (b' : ℕ)
    → a + length xs + b < 2 ^ 31
    → a' + length ys + b' < 2 ^ 31
    → ((length ys ≢ a + length xs + b) ⊎ (length ys ≡ length xs))
    → copy_assign (laid_out a xs b) (laid_out a' ys b') ≡ ok (laid_out 0 ys 0)
unfolding copy_assign
copy_assign-laid_out a xs b a' ys b' h h' fits =
    elim (Bool-cases (length ys == a + length xs + b)) [
      | inl same ↦
          let za : a ≡ 0 = ground arith in
          let zb : b ≡ 0 = ground arith in
          let e : length ys ≡ length xs = ground arith in
          rw (window-laid_out a' ys b', same, za, zb) (copy_from-laid_out 0 xs ys 0 e)
      | inr other ↦ rw (window-laid_out a' ys b', other) (copy_zeroed ys (omega arith))
    ]

pub copy_assign-laid_out_throws :
    (a : ℕ) (xs : List ℕ) (b a' : ℕ) (ys : List ℕ) (b' : ℕ)
    → length ys ≡ a + length xs + b
    → length xs < length ys
    → copy_assign (laid_out a xs b) (laid_out a' ys b') ≡ err out_of_range
unfolding copy_assign
copy_assign-laid_out_throws a xs b a' ys b' full h =
    let same : (length ys == a + length xs + b) ≡ true = ground arith in
    rw (window-laid_out a' ys b', same)
      (copy_from_long (record (laid_out a xs b) { offset = 0 }) ys h)
