-- ===== src/Interface/Frame/Parse.antt =====
-- `parse_fragment` of interface/parsers.hpp: what it accepts, and that it always returns.
use libprotoserial.Prelude.{
  ℕ, ◌+◌, ◌≡◌, ◌≢◌, ◌⊎◌, inl, inr, refl, List, [], ◌++◌, Result, ok, Option, none, some, true,
  false, arith, length, length-append, Bool-cases, ◌==◌, append-nil, sym,
}
use libprotoserial.Bytes.{Bytes, size}
use libprotoserial.Bytes.Memory.{sub_size, read_range}
use libprotoserial.Bytes.Layout.{Represents}
use libprotoserial.Bytes.Spec.{
  read_first-Represents, read_range-Represents, shrink_back-Represents, shrink_front-Represents,
  size-Represents, window-Represents,
}
use libprotoserial.Interface.Fragment.{Fragment, InterfaceId}
use libprotoserial.Interface.Header.{Header, encode, is_valid}
use libprotoserial.Interface.Footer.{HashAlgorithm, le_value}
use libprotoserial.Interface.Frame.{parse_fragment}

module _ (alg : HashAlgorithm) (max_data_size : ℕ) (iid : InterfaceId) (id now : ℕ) where
  open alg use {width, value}

  -- The fragment that a header and some data stand for.
  abbrev pub fragment_of : Header → Bytes → Fragment
  fragment_of h d = record {
    meta = record {
      object_id = id;
      timestamp_creation = now;
      interface_id = iid;
      source = h.source;
      destination = h.destination;
    };
    payload = d;
  }

  -- The two outcomes on a header `h`, data `xs` and a footer `ft`.
  abbrev pub Parsed : Header → List ℕ → List ℕ → Result (Option Fragment) → Type 0
  Parsed h xs ft r =
      (((is_valid h max_data_size ≡ false) ⊎ (le_value ft ≢ value (encode h ++ xs)))
        × (r ≡ ok none))
      ⊎ ((is_valid h max_data_size ≡ true)
          × (le_value ft ≡ value (encode h ++ xs))
          × (d : Bytes) × (r ≡ ok (some (fragment_of h d)))
          × Represents d xs)

  module _ (h : Header) (xs ft : List ℕ) (fits : length ft ≡ width) {buff : Bytes} where
    footer_place :
        Represents buff (encode h ++ (xs ++ ft))
        → sub_size (size buff) width ≡ length (encode h ++ xs)
    footer_place r = omega (arith, size-Represents r, length-append {0} xs ft, r.bounded)

    -- On any buffer of at least a header and a footer the parser returns, and gives a fragment
    -- exactly when the header is valid and the footer holds the checksum of what stands before it.
    pub parse_fragment-Parsed :
        Represents buff (encode h ++ (xs ++ ft))
        → Parsed h xs ft (parse_fragment alg buff max_data_size iid id now)
    unfolding parse_fragment
    parse_fragment-Parsed r = elim (Bool-cases (is_valid h max_data_size)) [
      | inr bad ↦ inl (inl bad, rw (head, bad) refl)
      | inl good ↦
          let (d₁, e₁, r₁) = shrink_back-Represents covered ft r' in
          let (d₂, e₂, r₂) = shrink_front-Represents (encode h) xs r₁ in
          elim (Bool-cases (le_value ft == value covered)) [
            | inl same ↦ inr (
              good,
              ground arith,
              d₂,
              rw (head, good, foot, (rw fits at e₁), window-Represents r₁, same, e₂) refl,
              r₂,
            )
            | inr other ↦ inl (
              inr (ground arith),
              rw (head, good, foot, (rw fits at e₁), window-Represents r₁, other) refl,
            )
          ]
    ]
      where
        covered : List ℕ
        covered = encode h ++ xs

        r' : Represents buff (covered ++ ft)
        r' = r

        head : read_range buff.base buff.offset 4 ≡ ok (encode h)
        head = read_first-Represents (encode h) (xs ++ ft) r

        foot : read_range buff.base (buff.offset + sub_size (size buff) width) width ≡ ok ft
        foot =
            read_range-Represents {c = buff} covered ft [] _ width (rw (append-nil ft) r')
              (footer_place r) (sym fits)
