-- ===== src/Interface/Receiver/Total.antt =====
-- `do_receive` of interface/buffered.hpp ends, whatever is in the buffer.
use libprotoserial.Prelude.{
  leb→le, get_or, ℕ, zero, suc, ◌+◌, ◌^◌, ◌≤◌, ◌<◌, ◌≡◌, ◌≢◌, ◌⊎◌, inl, inr, refl, List, Option,
  none, some, Result, ok, leb, ◌==◌, length, arith, Bool-cases, Option-cases, sym, subst, subst,
}
use libprotoserial.Bytes.{sized, copy_from}
use libprotoserial.Bytes.Layout.{laid_out}
use libprotoserial.Bytes.Spec.{laid_out-Represents}
use libprotoserial.Bytes.Copy.{copy_zeroed}
use libprotoserial.Interface.Fragment.{Fragment, InterfaceId}
use libprotoserial.Interface.Header.{Header, decode, is_valid}
use libprotoserial.Interface.Footer.{HashAlgorithm}
use libprotoserial.Interface.Frame.{parse_fragment, preamble}
use libprotoserial.Interface.Ring.Contents.{get_or-circular_copy}
use libprotoserial.Interface.Receiver.Framed.{AllFramed, AllEncoded, parse_fragment-AllEncoded}
use libprotoserial.Interface.Ring.{
  next, plus, distance, find, find_lem, circular_copy, length-circular_copy, next-lt, plus-lt,
  distance-plus, distance-lt, distance-next,
}
use libprotoserial.Interface.Receiver.{
  Exit, exit_at, Round, again, leave, parse_at, with_header, at_preamble, round, rounds,
}

module _ (alg : HashAlgorithm) (iid : InterfaceId) (id now : ℕ) where
  open alg use {width}

  module _ (buf : List ℕ) (max : ℕ) (small : length buf < 2 ^ 31) where
    -- A call leaves at a position of the buffer, with a fragment that stands there if with any.
    abbrev pub Leaves : ℕ → Exit → Type 0
    Leaves write e =
        (e.stored < length buf) × AllFramed alg iid id now buf max write e.stored e.received

    -- A round leaves so, or goes on nearer to the end.
    abbrev Advances : ℕ → ℕ → Result Round → Type 0
    Advances write d r =
        ((e : Exit) × (r ≡ ok (leave e)) × Leaves write e)
        ⊎ ((i : ℕ) × (r ≡ ok (again i)) × (i < length buf) × (distance (length buf) i write < d))

    -- All of a fragment behind a preamble is loaded.
    parse_at-Leaves :
        (p write size : ℕ)
        → p < length buf
        → p ≢ write
        → get_or buf p 0 ≡ preamble
        → size ≤ distance (length buf) (next (length buf) p) write + 1
        → size ≡ get_or buf (plus (length buf) (next (length buf) p) 2) 0 + width + 4
        → size < length buf
        → (e : Exit) × (parse_at alg iid id now buf max p (next (length buf) p) size ≡ ok e)
          × Leaves write e
    unfolding parse_at exit_at
    parse_at-Leaves p write size hp ne mark here long short = finish (
        parse_fragment-AllEncoded alg iid id now l max
          (laid_out-Represents 0 l 0 (omega (arith, count))) asked)
      where
        start : ℕ
        start = next (length buf) p

        hs : start < length buf
        hs = next-lt hp

        stop : ℕ
        stop = plus (length buf) start size

        l : List ℕ
        l = circular_copy buf size start stop

        dist : distance (length buf) start stop ≡ size
        dist = distance-plus size hs short

        count : length l ≡ size
        count = length-circular_copy buf size start stop hs (plus-lt size hs short) (sym dist)

        asked : length l ≡ get_or l 2 0 + width + 4
        asked =
            rw (get_or-circular_copy buf size 2 start (omega arith) hs short) (omega (arith, count))

        copied : copy_from (sized 0 size 0) l ≡ ok (laid_out 0 l 0)
        copied =
            subst (λ k. copy_from (sized 0 k 0) l ≡ ok (laid_out 0 l 0)) count
              (copy_zeroed l (omega (arith, count)))

        framed :
            (f : Option Fragment)
            → AllEncoded alg iid id now max l f
            → Leaves write (exit_at (length buf) p size f)
        framed none _ = (next-lt hp, tt)
        framed (some f) c = (
          plus-lt size hp short,
          record {
            place = p;
            count = size;
            inside = hp;
            apart = ne;
            marked = mark;
            short = short;
            loaded = here;
            encoded = c;
            dealt = refl;
          },
        )

        finish :
            (f : Option Fragment) × (parse_fragment alg (laid_out 0 l 0) max iid id now ≡ ok f)
              × AllEncoded alg iid id now max l f
            → (e : Exit) × (parse_at alg iid id now buf max p start size ≡ ok e) × Leaves write e
        finish (f, e, c) = (exit_at (length buf) p size f, rw (dist, copied, e), framed f c)

    with_header-Advances :
        (write p d : ℕ) (h : Header)
        → p < length buf
        → get_or buf p 0 ≡ preamble
        → h.size ≡ get_or buf (plus (length buf) (next (length buf) p) 2) 0
        → write < length buf
        → p ≢ write
        → distance (length buf) p write ≤ d
        → Advances write d (with_header alg iid id now buf max write p (next (length buf) p) h)
    unfolding with_header
    with_header-Advances write p d h hp mark asks hw ne hd =
        let start = next (length buf) p in
        let closer : distance (length buf) start write + 1 ≡ distance (length buf) p write =
          distance-next hp hw ne in
        let near : distance (length buf) start write < d = omega arith in
        let room : distance (length buf) p write < length buf = distance-lt hp hw in
        let size = h.size + width + 4 in
        elim (Bool-cases (is_valid h max)) [
          | inr bad ↦ inr (start, rw bad, next-lt hp, near)
          | inl good ↦ elim (Bool-cases (leb size (distance (length buf) start write + 1))) [
            | inr wait ↦ inl (record { stored = p; received = none }, rw (good, wait), (hp, tt))
            | inl full ↦
                let (x, q, hx) =
                  parse_at-Leaves p write size hp ne mark (ground arith) (omega (arith, asks))
                    (ground arith) in
                inl (x, rw (good, full, q), hx)
          ]
        ]

    round-Advances :
        (write stored read : ℕ)
        → stored < length buf
        → read < length buf
        → write < length buf
        → Advances write
            (distance (length buf) read write)
            (round alg iid id now buf max write stored read)
    unfolding round at_preamble
    round-Advances write stored read hst hr hw = elim (Bool-cases (read == write)) [
      | inl same ↦ inl (record { stored = stored; received = none }, rw same, (hst, tt))
      | inr differ ↦ elim (Option-cases (find buf (length buf) read write preamble)) [
        | inl lost ↦ inl (record { stored = stored; received = none }, rw (differ, lost), (hst, tt))
        | inr (p, found) ↦
            let (hp, ne, mark, le) = find_lem buf (length buf) read write preamble hr hw found in
            let start = next (length buf) p in
            let h = decode (circular_copy buf 4 start (plus (length buf) start 4)) in
            elim (Bool-cases (leb 4 (distance (length buf) start write + 1))) [
              | inr wait ↦
                  inl (record { stored = p; received = none }, rw (differ, found, wait), (hp, tt))
              | inl enough ↦
                  let loaded = leb→le 4 (distance (length buf) start write + 1) enough in
                  let room : 4 < length buf =
                    omega (arith, distance-lt hp hw, distance-next hp hw ne) in
                  let asks = get_or-circular_copy buf 4 2 start (omega arith) (next-lt hp) room in
                  let r =
                    with_header-Advances write p (distance (length buf) read write) h hp mark asks
                      hw ne le in
                  rw (differ, found, enough) r
            ]
      ]
    ]

    pub rounds-ends :
        (k write stored read : ℕ)
        → stored < length buf
        → read < length buf
        → write < length buf
        → distance (length buf) read write < k
        → (e : Exit) × (rounds alg iid id now k buf max write stored read ≡ ok (some e))
          × Leaves write e
    unfolding rounds
    rounds-ends zero write stored read hst hr hw hk = absurd (omega arith)
    rounds-ends (suc k) write stored read hst hr hw hk =
        pick (round-Advances write stored read hst hr hw)
          (λ i hi near. rounds-ends k write i i hi hi hw (omega arith))
      where
        pick :
            Advances write
              (distance (length buf) read write)
              (round alg iid id now buf max write stored read)
            → ((i : ℕ)
                → i < length buf
                → distance (length buf) i write < distance (length buf) read write
                → (e : Exit) × (rounds alg iid id now k buf max write i i ≡ ok (some e))
                  × Leaves write e)
            → (e : Exit) × (rounds alg iid id now (suc k) buf max write stored read ≡ ok (some e))
              × Leaves write e
        pick (inl (e, q, h)) go = (e, rw q, h)
        pick (inr (i, q, hi, near)) go = let (e, q', h) = go i hi near in (e, rw q q', h)
