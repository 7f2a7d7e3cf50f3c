-- ===== src/Bytes/Memory.antt =====
-- Raw memory, and the machine integers of include/libprotoserial/data/container.hpp: `size_t` has
-- 64 bits and `int` has 32.
use libprotoserial.Prelude.{
  ℕ, ◌+◌, ◌-◌, ◌%◌, ◌^◌, ◌<◌, ◌≡◌, refl, List, [], ◌∷◌, ◌++◌, Bool, true, false, Result, ok, err,
  overrun, ltb, leb, if◌then◌else◌, get_or, get_or-append, set, take, drop, length, arith,
  length-append, take-append, drop-append, set-append, ◌≤◌, drop-drop,
}

abbrev pub add_size : ℕ → ℕ → ℕ
add_size a b = (a + b) % 2 ^ 64

abbrev pub sub_size : ℕ → ℕ → ℕ
sub_size a b = (a + 2 ^ 64 - b) % 2 ^ 64

-- `(int)a < (int)b`: the order of two's complement is that of the patterns shifted by 2 ^ 31.
abbrev pub int_lt : ℕ → ℕ → Bool
int_lt a b = ltb ((a + 2 ^ 31) % 2 ^ 32) ((b + 2 ^ 31) % 2 ^ 32)

abbrev pub has_data : List ℕ → Bool
has_data [] = false
has_data (x ∷ xs) = true

-- `std::copy` and `memcpy` out of and into an allocation.
pub read_range : List ℕ → ℕ → ℕ → Result (List ℕ)
read_range buf i n = if leb (i + n) (length buf) then ok (take n (drop i buf)) else err overrun

pub write_range : List ℕ → ℕ → List ℕ → Result (List ℕ)
write_range buf i xs =
    if leb (i + length xs) (length buf)
    then ok (take i buf ++ (xs ++ drop (i + length xs) buf))
    else err overrun

pub read_one : List ℕ → ℕ → Result ℕ
read_one buf i = if ltb i (length buf) then ok (get_or buf i 0) else err overrun

pub write_one : List ℕ → ℕ → ℕ → Result (List ℕ)
write_one buf i v = if ltb i (length buf) then ok (set buf i v) else err overrun

-- A read of the middle part.
pub read_range-middle :
    (pre mid post : List ℕ) (i n : ℕ)
    → i ≡ length pre
    → n ≡ length mid
    → read_range (pre ++ (mid ++ post)) i n ≡ ok mid
unfolding read_range
read_range-middle pre mid post i n hi hn = ground (
  arith,
  length-append pre (mid ++ post),
  length-append mid post,
  drop-append i pre (mid ++ post) hi,
  take-append n mid post hn,
)

-- A write over the middle part.
pub write_range-middle :
    (pre mid post xs : List ℕ) (i : ℕ)
    → i ≡ length pre
    → length xs ≡ length mid
    → write_range (pre ++ (mid ++ post)) i xs ≡ ok (pre ++ (xs ++ post))
unfolding write_range
write_range-middle pre mid post xs i hi hx = ground (
  arith,
  length-append pre (mid ++ post),
  length-append mid post,
  take-append i pre (mid ++ post) hi,
  drop-append i pre (mid ++ post) hi,
  drop-drop (length xs) i (pre ++ (mid ++ post)),
  drop-append (length xs) mid post hx,
)

pub read_one-middle :
    (pre post : List ℕ) (y i : ℕ) → i ≡ length pre → read_one (pre ++ (y ∷ post)) i ≡ ok y
unfolding read_one
read_one-middle pre post y i h =
    ground (arith, length-append pre (y ∷ post), get_or-append pre post y 0 i h)

pub write_one-middle :
    (pre post : List ℕ) (y v i : ℕ)
    → i ≡ length pre
    → write_one (pre ++ (y ∷ post)) i v ≡ ok (pre ++ (v ∷ post))
unfolding write_one
write_one-middle pre post y v i h =
    ground (arith, length-append pre (y ∷ post), set-append pre post y v i h)

pub has_data_of_pos : (buf : List ℕ) → 0 < length buf → has_data buf ≡ true
has_data_of_pos [] h = absurd (omega arith)
has_data_of_pos (x ∷ xs) h = refl

pub write_one_outside : (buf : List ℕ) (i v : ℕ) → length buf ≤ i → write_one buf i v ≡ err overrun
unfolding write_one
write_one_outside buf i v h = ground arith
