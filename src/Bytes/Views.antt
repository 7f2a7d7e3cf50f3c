-- ===== src/Bytes/Views.antt =====
-- What a container of data/container.hpp exposes, and raw reads of it.
use libprotoserial.Prelude.{
  ℕ, ◌+◌, ◌-◌, ◌^◌, ◌<◌, ◌≡◌, refl, List, [], ◌++◌, Result, ok, arith, length, length-append,
  append-nil,
}
use libprotoserial.Bytes.{Bytes, size, window}
use libprotoserial.Bytes.Memory.{read_range}
use libprotoserial.Bytes.Layout.{Represents, laid_out, window-laid_out}
use libprotoserial.Bytes.Copy.{read_range-part}

-- The call ends without an error, in a container that exposes `xs`.
abbrev pub Gives : Result Bytes → List ℕ → Type 0
Gives r xs = (c : Bytes) × (r ≡ ok c) × Represents c xs

pub laid_out-Represents :
    (a : ℕ) (xs : List ℕ) (b : ℕ) → a + length xs + b < 2 ^ 31 → Represents (laid_out a xs b) xs
laid_out-Represents a xs b h = record { front = a; back = b; layout = refl; bounded = h }

pub gives :
    {r : Result Bytes} (a : ℕ) (xs : List ℕ) (b : ℕ)
    → r ≡ ok (laid_out a xs b)
    → a + length xs + b < 2 ^ 31
    → Gives r xs
gives a xs b e h = (laid_out a xs b, e, laid_out-Represents a xs b h)

pub size-Represents : {c : Bytes} {xs : List ℕ} → Represents c xs → size c ≡ length xs
size-Represents r = rw r.layout

pub window-Represents : {c : Bytes} {xs : List ℕ} → Represents c xs → window c ≡ ok xs
window-Represents {c} {xs} r = rw r.layout (window-laid_out r.front xs r.back)

-- A raw read of a part of the exposed bytes.
pub read_range-Represents :
    {c : Bytes} (xs ys zs : List ℕ) (i n : ℕ)
    → Represents c (xs ++ (ys ++ zs))
    → i ≡ length xs
    → n ≡ length ys
    → read_range c.base (c.offset + i) n ≡ ok ys
read_range-Represents {c} xs ys zs i n r hi hn =
    rw (r.layout, hi, hn) (read_range-part r.front xs ys zs r.back)

-- A raw read from some place on to the end.
pub read_rest-Represents :
    {c : Bytes} (xs ys : List ℕ)
    → Represents c (xs ++ ys)
    → read_range c.base (c.offset + length xs) (size c - length xs) ≡ ok ys
read_rest-Represents {c} xs ys r =
    read_range-Represents {c = c} xs ys [] (length xs) (size c - length xs) (rw (append-nil ys) r)
      refl (omega (arith, size-Represents r, length-append {0} xs ys))

pub read_first-Represents :
    {c : Bytes} (xs ys : List ℕ)
    → Represents c (xs ++ ys)
    → read_range c.base c.offset (length xs) ≡ ok xs
read_first-Represents {c} xs ys r =
    cc (read_range-Represents {c = c} [] xs ys 0 _ r refl refl, zero_back)
  where
    zero_back : c.offset + 0 ≡ c.offset
    zero_back = omega arith
