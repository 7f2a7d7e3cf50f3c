-- ===== src/Interface/Receiver/Framed.antt =====
-- What a fragment that `do_receive` of interface/buffered.hpp gives has to do with the receive
-- buffer.
use libprotoserial.Prelude.{
  ℕ, ◌+◌, ◌≤◌, ◌<◌, ◌≡◌, ◌≢◌, inl, inr, refl, List, [], ◌∷◌, ◌++◌, Option, none, some, true, ok,
  length, take, drop, get_or, arith, length-drop, take-append-drop, length-append, ap,
}
use libprotoserial.Bytes.{Bytes}
use libprotoserial.Bytes.Layout.{Represents}
use libprotoserial.Interface.Fragment.{Fragment, InterfaceId}
use libprotoserial.Interface.Header.{Header, encode, decode, is_valid}
use libprotoserial.Interface.Footer.{HashAlgorithm, le_value}
use libprotoserial.Interface.Frame.{parse_fragment, preamble}
use libprotoserial.Interface.Frame.Parse.{Parsed, parse_fragment-Parsed, fragment_of}
use libprotoserial.Interface.Ring.{next, plus, distance, circular_copy}

-- Four bytes at least are those of their header, and some more.
encode-decode : (l : List ℕ) → 4 ≤ length l → encode (decode l) ++ drop 4 l ≡ l
encode-decode [] h = absurd (omega arith)
encode-decode (a ∷ []) h = absurd (omega arith)
encode-decode (a ∷ b ∷ []) h = absurd (omega arith)
encode-decode (a ∷ b ∷ c ∷ []) h = absurd (omega arith)
encode-decode (a ∷ b ∷ c ∷ d ∷ r) h = refl

module _ (alg : HashAlgorithm) (iid : InterfaceId) (id now : ℕ) where
  open alg use {width, value}

  -- The bytes `l` are a valid header, as many bytes of data as it says and a footer with the
  -- checksum of both, and the fragment has the addresses of the header and the data.
  pub record IsEncoded (max : ℕ) (l : List ℕ) (f : Fragment) : Type 0 where
    pub header : Header
    pub contents : List ℕ
    pub footer : List ℕ
    pub payload : Bytes
    pub whole : encode header ++ (contents ++ footer) ≡ l
    pub valid : is_valid header max ≡ true
    pub counted : length contents ≡ header.size
    pub closed : length footer ≡ width
    pub checked : le_value footer ≡ value (encode header ++ contents)
    pub given : f ≡ fragment_of alg max iid id now header payload
    pub carried : Represents payload contents

  -- The fragment stands in the receive buffer behind a preamble that is not the place to write to
  -- next, all of it is loaded, and the read position `stored` is at its last byte.
  pub record IsFramed (buf : List ℕ) (max write stored : ℕ) (f : Fragment) : Type 0 where
    pub place : ℕ
    pub count : ℕ
    pub inside : place < length buf
    pub apart : place ≢ write
    pub marked : get_or buf place 0 ≡ preamble
    pub short : count < length buf
    pub loaded : count ≤ distance (length buf) (next (length buf) place) write + 1
    pub encoded :
        IsEncoded max
          (circular_copy buf count
            (next (length buf) place)
            (plus (length buf) (next (length buf) place) count))
          f
    pub dealt : stored ≡ plus (length buf) place count

  abbrev pub AllEncoded : ℕ → List ℕ → Option Fragment → Type 0
  AllEncoded max l none = Unit {0}
  AllEncoded max l (some f) = IsEncoded max l f

  abbrev pub AllFramed : List ℕ → ℕ → ℕ → ℕ → Option Fragment → Type 0
  AllFramed buf max write stored none = Unit {0}
  AllFramed buf max write stored (some f) = IsFramed buf max write stored f

  -- The parser returns on every buffer of the size that its header asks for.
  pub parse_fragment-AllEncoded :
      (l : List ℕ) (max : ℕ) {b : Bytes}
      → Represents b l
      → length l ≡ get_or l 2 0 + width + 4
      → (f : Option Fragment) × (parse_fragment alg b max iid id now ≡ ok f) × AllEncoded max l f
  parse_fragment-AllEncoded l max {b} r long =
      pick (parse_fragment-Parsed alg max iid id now h xs ft fits (rw whole r))
    where
      m : ℕ
      m = get_or l 2 0

      h : Header
      h = decode l

      xs : List ℕ
      xs = take m (drop 4 l)

      ft : List ℕ
      ft = drop m (drop 4 l)

      fits : length ft ≡ width
      fits = omega (arith, length-drop m (drop 4 l), length-drop 4 l)

      joined : xs ++ ft ≡ drop 4 l
      joined = take-append-drop m (drop 4 l)

      counts : length xs ≡ m
      counts = omega (arith, fits, length-append {0} xs ft, ap length joined, length-drop 4 l)

      whole : encode h ++ (xs ++ ft) ≡ l
      whole = rw joined (encode-decode l (omega arith))

      pick :
          Parsed alg max iid id now h xs ft (parse_fragment alg b max iid id now)
          → (f : Option Fragment) × (parse_fragment alg b max iid id now ≡ ok f)
            × AllEncoded max l f
      pick (inl (_, e)) = (none, e, tt)
      pick (inr (good, same, d, e, q)) = (
        some (fragment_of alg max iid id now h d),
        e,
        record {
          header = h;
          contents = xs;
          footer = ft;
          payload = d;
          whole = whole;
          valid = good;
          counted = counts;
          closed = fits;
          checked = same;
          given = refl;
          carried = q;
        },
      )
