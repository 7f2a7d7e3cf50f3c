-- ===== src/Bytes/Construct.antt =====
-- The constructors of data/container.hpp from other sequences, and the operations that give the
-- storage up.
use libprotoserial.Prelude.{
  ℕ, zero, suc, ◌+◌, ◌^◌, ◌<◌, ◌≡◌, refl, ap, sym, true, ◌∙◌, List, [], ◌∷◌, ◌++◌, append_assoc,
  append-nil, Result, ok, err, ltb, out_of_range, ◌>>=◌, length, length-append, replicate, arith,
  if◌then◌else◌,
}
use libprotoserial.Bytes.{Bytes, init, sized, copy_from, range_ok, push_back_byte}
use libprotoserial.Bytes.Memory.{
  read_range, write_range, write_range-middle, has_data, has_data_of_pos,
}
use libprotoserial.Bytes.Layout.{Represents, laid_out, sized_lem, length-zeros, length-laid_out}
use libprotoserial.Bytes.Grow.{push_back_byte-laid_out}
use libprotoserial.Bytes.Copy.{copy_zeroed}
use libprotoserial.Bytes.Spec.{Gives, read_first-Represents}
use libprotoserial.Bytes.Entries.{push_back_byte-Represents}

-- Bytes that come one by one, through `std::back_inserter`.
pub push_all : List ℕ → Bytes → Result Bytes
push_all [] c = ok c
push_all (b ∷ bs) c = do c' ← push_back_byte c b; push_all bs c'

-- From an initializer list, whose bytes are written through `begin()`.
pub of_list : List ℕ → Result Bytes
of_list values = do
  let c = sized 0 (length values) 0
  base' ← write_range c.base c.offset values
  ok (record c { base = base' })

-- From a range of iterators, and from a string.
pub of_range : List ℕ → Result Bytes
unfolding push_all
of_range l = push_all l init

pub of_string : List ℕ → Result Bytes
of_string from = copy_from (sized 0 (length from) 0) from

-- `operator=` that moves: the container afterwards, and what is left of the other one.
unfoldable pub move_assign : Bytes → Bytes → Bytes × Bytes
move_assign c other = (other, init)

abbrev pub clear : Bytes → Bytes
clear c = init

-- `release`: the pointer that is given up, and what is left.
pub release : Bytes → List ℕ × Bytes
release c = (c.base, init)

-- `copy_to` a place that is not null.
pub copy_to : Bytes → ℕ → Result (List ℕ)
copy_to c zero = ok []
copy_to c (suc k) = if range_ok c k then read_range c.base c.offset (suc k) else err out_of_range

pub push_all-Represents :
    (ys : List ℕ) {c : Bytes} {xs : List ℕ}
    → Represents c xs
    → length xs + length ys < 2 ^ 31
    → Gives (push_all ys c) (xs ++ ys)
unfolding push_all
push_all-Represents [] {c} {xs} r h = (c, refl, rw (append-nil xs) r)
push_all-Represents (y ∷ ys) {c} {xs} r h =
    let (c₁, e₁, r₁) = push_back_byte-Represents y r (omega arith) in
    let (c₂, e₂, r₂) = push_all-Represents ys r₁ (omega (arith, length-append {0} xs (y ∷ []))) in
    (c₂, rw e₁ e₂, simp append_assoc at r₂)

-- Without room every byte moves the container into one that just fits.
push_all-full :
    (ys xs : List ℕ)
    → length xs + length ys < 2 ^ 31
    → push_all ys (laid_out 0 xs 0) ≡ ok (laid_out 0 (xs ++ ys) 0)
unfolding push_all
push_all-full [] xs h = ap (λ l. ok (laid_out 0 l 0)) (sym (append-nil xs))
push_all-full (y ∷ ys) xs h =
    let one = push_back_byte-laid_out 0 xs 0 y (omega arith) (omega arith) in
    let rest = push_all-full ys (xs ++ (y ∷ [])) (omega (arith, length-append {0} xs (y ∷ []))) in
    rw one (rest ∙ rw (append_assoc xs (y ∷ []) ys) refl)

-- An initializer list, a range and a string of the same bytes, fewer than 2 ^ 31, give the same
-- container: it holds the bytes, and has no capacity besides.
pub of_range-of_list :
    (l : List ℕ)
    → length l < 2 ^ 31
    → (of_range l ≡ of_list l) × (of_string l ≡ of_list l) × (of_list l ≡ ok (laid_out 0 l 0))
unfolding of_range of_list of_string
of_range-of_list l h =
    let made = sized_lem 0 (length l) 0 (omega arith) in
    let zeros = replicate {A = ℕ} (length l) 0 in
    let listed : of_list l ≡ ok (laid_out 0 l 0) = rw made (
      rw (write_range-middle [] zeros [] l 0 refl (sym (length-zeros (length l))))
        (cc (length-zeros (length l)))) in
    (push_all-full l [] (omega arith) ∙ sym listed, copy_zeroed l h ∙ sym listed, listed)

-- `copy_to` gives the first bytes that are exposed, and throws for more than there are.
pub copy_to-Represents :
    {c : Bytes} (xs ys : List ℕ) → Represents c (xs ++ ys) → copy_to c (length xs) ≡ ok xs
unfolding copy_to
copy_to-Represents [] ys r = refl
copy_to-Represents {c} (x ∷ xs) ys r =
    let l = (x ∷ xs) ++ ys in
    let long = length-laid_out r.front l r.back in
    let some_data : has_data (laid_out r.front l r.back).base ≡ true =
      has_data_of_pos (laid_out r.front l r.back).base (omega arith) in
    let within : ltb (length xs) (length l) ≡ true = ground (arith, length-append (x ∷ xs) ys) in
    let fits : range_ok c (length xs) ≡ true = rw (r.layout, within) some_data in
    rw fits (read_first-Represents (x ∷ xs) ys r)
