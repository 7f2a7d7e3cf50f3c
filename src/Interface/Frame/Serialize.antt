-- ===== src/Interface/Frame/Serialize.antt =====
-- What `serialize_fragment` of interface/buffered.hpp produces.
use libprotoserial.Prelude.{
  ℕ, ◌+◌, ◌^◌, ◌<◌, ◌≡◌, refl, List, [], ◌∷◌, ◌++◌, arith, length, length-append, ◌≡◌, Bool-cases,
  inl, inr, ltb, ◌||◌,
}
use libprotoserial.Bytes.{Bytes, size, capacity_back, capacity_front}
use libprotoserial.Bytes.Layout.{Represents}
use libprotoserial.Bytes.Spec.{
  Gives, push_front-Represents, push_back-Represents, reserve-Represents, to_bytes-Represents,
  set_all-Represents, read_rest-Represents, size-Represents, sized-Represents,
}
use libprotoserial.Interface.Fragment.{Fragment}
use libprotoserial.Interface.Header.{Header, header_of, encode}
use libprotoserial.Interface.Footer.{HashAlgorithm, le_bytes, length-le_bytes}
use libprotoserial.Interface.Frame.{
  serialize_fragment, make_room, enclose, preamble, preamble_length,
}

pub header_of-payload :
    (p : Fragment) (d : Bytes)
    → size d ≡ size p.payload
    → header_of (record p { payload = d }) ≡ header_of p
unfolding header_of
header_of-payload p d h = cc

module _ (alg : HashAlgorithm) where
  open alg use {width, value}

  -- Header, data and footer.
  abbrev pub frame : Header → List ℕ → List ℕ
  frame h xs = (encode h ++ xs) ++ le_bytes width (value (encode h ++ xs))

  pub make_room-Represents :
      {c : Bytes} {xs : List ℕ}
      → Represents c xs
      → length xs + 1000 < 2 ^ 31
      → Gives (make_room alg c) xs
  unfolding make_room
  make_room-Represents {c} {xs} r h =
      let short = ltb (capacity_back c) width || ltb (capacity_front c) 6 in
      let (d, e, q, _, _) = reserve-Represents 6 width r (omega (arith, alg.width_small)) in
      elim (Bool-cases short) [
        | inl yes_short ↦ (d, rw yes_short e, q)
        | inr enough ↦ (c, rw enough refl, r)
      ]

  pub enclose-Gives :
      {c : Bytes} {ys : List ℕ}
      → Represents c ys
      → length ys + 900 < 2 ^ 31
      → Gives (enclose alg c) (preamble ∷ preamble ∷ (ys ++ le_bytes width (value ys)))
  unfolding enclose
  enclose-Gives {c} {ys} r h =
      let (pr, e₃, r₃) =
        set_all-Represents preamble (sized-Represents preamble_length (omega arith)) in
      let (d₂, e₄, r₄) = push_front-Represents r r₃ (omega arith) in
      let read = read_rest-Represents (preamble ∷ preamble ∷ []) ys r₄ in
      let (fb, e₅, r₅) =
        to_bytes-Represents (le_bytes width (value ys)) 0
          (omega (arith, length-le_bytes width (value ys), alg.width_small)) in
      let (d₃, e₆, r₆) =
        push_back-Represents r₄ r₅
          (omega (arith, length-le_bytes width (value ys), alg.width_small)) in
      (d₃, rw (e₃, e₄, read, e₅) e₆, r₆)

  -- The frame of the fragment's header and data, behind two preambles, where the data has fewer
  -- than 2 ^ 31 - 1000 bytes.
  pub serialize_fragment-Gives :
      (p : Fragment) {xs : List ℕ}
      → Represents p.payload xs
      → length xs + 1000 < 2 ^ 31
      → Gives (serialize_fragment alg p) (preamble ∷ preamble ∷ frame (header_of p) xs)
  unfolding serialize_fragment
  serialize_fragment-Gives p {xs} r h =
      let (d, e, rd) = make_room-Represents r h in
      let same : header_of (record p { payload = d }) ≡ header_of p =
        header_of-payload p d (rw (size-Represents rd, size-Represents r)) in
      let (hb, e₁, r₁) = to_bytes-Represents (encode (header_of p)) 0 (omega arith) in
      let (d₁, e₂, r₂) = push_front-Represents rd r₁ (omega arith) in
      let (d₃, e₃, r₃) = enclose-Gives r₂ (omega arith) in (d₃, rw (e, same, e₁, e₂) e₃, r₃)

pub length-frame :
    (alg : HashAlgorithm) (h : Header) (xs : List ℕ)
    → length (frame alg h xs) ≡ 4 + length xs + alg.width
length-frame alg h xs =
    let v = alg.value (encode h ++ xs) in
    omega (arith, length-append {0} xs (le_bytes alg.width v), length-le_bytes alg.width v)
