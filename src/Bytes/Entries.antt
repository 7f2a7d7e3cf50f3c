-- ===== src/Bytes/Entries.antt =====
-- Single entries of a container of data/container.hpp: checked reads and assignments.
use libprotoserial.Prelude.{
  ℕ, ◌+◌, ◌<◌, ◌^◌, ◌≡◌, refl, List, [], ◌∷◌, ◌++◌, length, ok, arith, length-append, sym, ◌∙◌,
}
use libprotoserial.Bytes.{Bytes, at, put, push_back, push_back_byte}
use libprotoserial.Bytes.Grow.{push_back-laid_out, push_back_byte-laid_out}
use libprotoserial.Bytes.Layout.{Represents, laid_out, put-laid_out}
use libprotoserial.Bytes.Copy.{at-laid_out}
use libprotoserial.Bytes.Spec.{Gives, laid_out-Represents, push_back-Represents}

pub at-entry :
    {c : Bytes} (xs : List ℕ) (y : ℕ) (zs : List ℕ)
    → Represents c (xs ++ (y ∷ zs))
    → at c (length xs) ≡ ok y
at-entry {c} xs y zs r = rw r.layout (at-laid_out r.front xs y zs r.back (length xs) refl)

pub put-entry :
    {c : Bytes} (xs : List ℕ) (y v : ℕ) (zs : List ℕ)
    → Represents c (xs ++ (y ∷ zs))
    → Gives (put c (length xs) v) (xs ++ (v ∷ zs))
put-entry {c} xs y v zs r =
    let bound = r.bounded in
    let long = length-append xs (y ∷ zs) in
    let long' = length-append xs (v ∷ zs) in
    let done : put c (length xs) v ≡ ok (laid_out r.front (xs ++ (v ∷ zs)) r.back) =
      rw r.layout (put-laid_out r.front xs y v zs r.back (length xs) refl) in
    (
      laid_out r.front (xs ++ (v ∷ zs)) r.back,
      done,
      laid_out-Represents r.front (xs ++ (v ∷ zs)) r.back (omega arith),
    )

-- A byte that is pushed back is a container of one byte that is pushed back.
pub push_back_byte-push_back :
    {c : Bytes} {xs : List ℕ} (v : ℕ)
    → Represents c xs
    → length xs + 1 < 2 ^ 31
    → push_back_byte c v ≡ push_back c (laid_out 0 (v ∷ []) 0)
push_back_byte-push_back {c} {xs} v r h =
    let one = push_back_byte-laid_out r.front xs r.back v r.bounded h in
    let many = push_back-laid_out r.front xs r.back 0 (v ∷ []) 0 r.bounded h in
    rw r.layout (one ∙ sym many)

pub push_back_byte-Represents :
    {c : Bytes} {xs : List ℕ} (v : ℕ)
    → Represents c xs
    → length xs + 1 < 2 ^ 31
    → Gives (push_back_byte c v) (xs ++ (v ∷ []))
push_back_byte-Represents {c} {xs} v r h =
    let (d, e, rd) = push_back-Represents r (laid_out-Represents 0 (v ∷ []) 0 (omega arith)) h in
    (d, push_back_byte-push_back v r h ∙ e, rd)
