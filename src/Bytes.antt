-- ===== src/Bytes.antt =====
-- The byte container of include/libprotoserial/data/container.hpp: an allocation, of which a
-- window of `len` bytes from `offset` on is exposed. The bytes in front of and behind the window
-- are spare capacity for the headers and footers that the layers add.
-- A throw of `out_of_range` and an access outside of the allocation are errors as values.
pub mod Memory
pub mod Layout
pub mod Grow
pub mod Shrink
pub mod Copy
pub mod Views
pub mod Copies
pub mod Spec
pub mod Entries
pub mod Construct
mod Tests
use libprotoserial.Prelude.{
  ℕ, zero, suc, ◌+◌, ◌-◌, ◌%◌, ◌^◌, List, [], ◌∷◌, ◌++◌, Bool, true, false, ◌&&◌, Result, ok, err,
  Error, out_of_range, ◌>>=◌, ltb, leb, ◌==◌, if◌then◌else◌, replicate, set, length, list_eq,
}
use Memory.{add_size, sub_size, int_lt, has_data, read_range, write_range, read_one, write_one}

-- `base` is the array that `_data` points to, `[]` for the null pointer.
pub record Bytes : Type 0 where
  pub base : List ℕ
  pub len : ℕ
  pub cap : ℕ
  pub offset : ℕ

-- `_init`: the default constructor, and what a moved-from container is left as.
abbrev pub init : Bytes
init = record { base = []; len = 0; cap = 0; offset = 0 }

-- `bytes(front, length, back)`: a zeroed allocation; `alloc` leaves the null pointer for no bytes.
pub sized : ℕ → ℕ → ℕ → Bytes
sized front n back =
    let cap = add_size (add_size front n) back in
    record { base = replicate cap 0; len = n; cap = cap; offset = front }

-- `bytes(pointer, length)`: takes an array over, and leaves the capacity at 0.
pub adopt : List ℕ → ℕ → Bytes
adopt raw n = record { base = raw; len = n; cap = 0; offset = 0 }

abbrev pub size : Bytes → ℕ
size c = c.len

abbrev pub is_empty : Bytes → Bool
is_empty c = size c == 0

abbrev pub capacity_front : Bytes → ℕ
capacity_front c = c.offset

abbrev pub capacity_back : Bytes → ℕ
capacity_back c = sub_size (sub_size c.cap c.offset) c.len

abbrev pub range_ok : Bytes → ℕ → Bool
range_ok c i = ltb i c.len && has_data c.base

-- `at`, as a read and as the target of an assignment.
pub at : Bytes → ℕ → Result ℕ
at c i = if range_ok c i then read_one c.base (c.offset + i) else err out_of_range

pub put : Bytes → ℕ → ℕ → Result Bytes
put c i v =
    if range_ok c i
    then (do base' ← write_one c.base (c.offset + i) v; ok (record c { base = base' }))
    else err out_of_range

-- The bytes of [begin(), end()).
abbrev pub window : Bytes → Result (List ℕ)
window c = read_range c.base c.offset c.len

-- `copy_from`; the source is null only where it has no bytes.
pub copy_from : Bytes → List ℕ → Result Bytes
copy_from c [] = ok c
copy_from c (x ∷ xs) =
    if range_ok c (length xs)
    then (do base' ← write_range c.base c.offset (x ∷ xs); ok (record c { base = base' }))
    else err out_of_range

-- The copy constructor, and `operator=`.
pub copy : Bytes → Result Bytes
copy other = do xs ← window other; copy_from (sized 0 (size other) 0) xs

pub copy_assign : Bytes → Bytes → Result Bytes
copy_assign c other = do
  xs ← window other
  copy_from (if size other == c.cap then record c { offset = 0 } else sized 0 (size other) 0) xs

-- The move constructor: the new container, and what is left of the old one.
pub move : Bytes → Bytes × Bytes
move other = (other, init)

-- `reserve` into a new allocation: the old one is copied unless it is null.
reallocate : List ℕ → ℕ → ℕ → ℕ → ℕ → Result (List ℕ)
reallocate [] offset n front cap = ok (replicate cap 0)
reallocate (x ∷ xs) offset n front cap = do
  old ← read_range (x ∷ xs) offset n
  write_range (replicate cap 0) front old

pub reserve : ℕ → ℕ → Bytes → Result Bytes
reserve front back c = if leb front c.offset && leb back (capacity_back c) then ok c else (do
  let cap' = add_size (add_size front c.len) back
  base' ← reallocate c.base c.offset c.len front cap'
  ok (record c { base = base'; cap = cap'; offset = front }))

pub expand : ℕ → ℕ → Bytes → Result Bytes
expand front back c = do
  c' ← reserve front back c
  ok (record c' { offset = sub_size c'.offset front; len = add_size (add_size c'.len front) back })

-- `set(value)` and `set(start, length, value)`: a loop of checked assignments.
pub fill : Bytes → ℕ → ℕ → ℕ → Result Bytes
fill c i zero v = ok c
fill c i (suc n) v = do c' ← put c i v; fill c' (i + 1) n v

pub set_all : Bytes → ℕ → Result Bytes
set_all c v = fill c 0 c.len v

pub set_range : Bytes → ℕ → ℕ → ℕ → Result Bytes
set_range c start n v = fill c start (add_size n start - start) v

shrink_back : ℕ → Bytes → Result Bytes
shrink_back back c =
    if ltb 0 back
    then (do
      c' ← set_range c (sub_size c.len back) back 0
      ok (record c' { len = sub_size c'.len back }))
    else ok c

shrink_front : ℕ → Bytes → Result Bytes
shrink_front front c =
    if ltb 0 front
    then (do
      c' ← set_range c 0 front 0
      ok (record c' { offset = add_size c'.offset front; len = sub_size c'.len front }))
    else ok c

pub shrink : ℕ → ℕ → Bytes → Result Bytes
shrink front back c =
    if front == 0 && back == 0
    then ok c
    else if int_lt c.len (add_size front back)
    then (do c' ← set_all c 0; ok (record c' { len = 0 }))
    else (do c' ← shrink_back back c; shrink_front front c')

pub push_front : Bytes → Bytes → Result Bytes
push_front c other = do
  c' ← expand (size other) 0 c
  xs ← window other
  base' ← write_range c'.base c'.offset xs
  ok (record c' { base = base' })

pub push_back : Bytes → Bytes → Result Bytes
push_back c other = do
  c' ← expand 0 (size other) c
  xs ← window other
  base' ← write_range c'.base (c'.offset + c'.len - size other) xs
  ok (record c' { base = base' })

pub push_front_byte : Bytes → ℕ → Result Bytes
push_front_byte c b = do c' ← expand 1 0 c; put c' 0 b

pub push_back_byte : Bytes → ℕ → Result Bytes
push_back_byte c b = do c' ← expand 0 1 c; put c' (sub_size (size c') 1) b

-- `sub(start, length)`: reads the allocation with no range check.
pub sub : Bytes → ℕ → ℕ → Result Bytes
sub c start n = do
  xs ← read_range c.base (c.offset + start) n
  base' ← write_range (sized 0 n 0).base 0 xs
  ok (record (sized 0 n 0) { base = base' })

-- `operator==` and `operator+`.
unfoldable pub equal : Bytes → Bytes → Result Bool
equal l r = do xs ← window l; ys ← window r; ok (list_eq xs ys)

pub append : Bytes → Bytes → Result Bytes
append l r = do
  xs ← window l
  ys ← window r
  let b = sized 0 (add_size (size l) (size r)) 0
  base₁ ← write_range b.base 0 xs
  base₂ ← write_range base₁ (size l) ys
  ok (record b { base = base₂ })

-- `to_bytes`: a container with the object representation `raw` of a value.
pub to_bytes : List ℕ → ℕ → Result Bytes
to_bytes raw additional = do
  let b = sized 0 (length raw) additional
  base' ← write_range b.base b.offset raw
  ok (record b { base = base' })
