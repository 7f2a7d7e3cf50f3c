-- ===== src/Interface/Ring/Contents.antt =====
-- What the receive buffer of interface/buffered.hpp holds after some bytes came in.
use libprotoserial.Prelude.{
  ℕ, suc, ◌+◌, ◌%◌, ◌^◌, ◌≤◌, ◌<◌, ◌≡◌, ◌≢◌, refl, ap, sym, ◌∙◌, List, [], ◌∷◌, ◌++◌, true, false,
  zero, ◌==◌, length, get_or, get_or-set_self, get_or-set_ne, set, arith, inl, inr, ◌⊎◌, length-set,
}
use libprotoserial.Interface.Ring.{
  RxBuffer, IsRing, rx_buffer_advance, put_single_received, put_single_received-IsRing,
  rx_buffer_future_write, rx_buffer_future_write-IsRing, rx_buffer_latest, rx_buffer_latest-lt,
  next, plus, distance, next-lt, distance-next, circular_copy,
}

-- The bytes from a position on.
abbrev pub Holds : ℕ → List ℕ → ℕ → List ℕ → Type 0
Holds n buf i [] = Unit {0}
Holds n buf i (x ∷ xs) = (get_or buf i 0 ≡ x) × Holds n buf (next n i) xs

pub Holds-front :
    (n : ℕ) (buf : List ℕ) (i : ℕ) (xs ys : List ℕ) → Holds n buf i (xs ++ ys) → Holds n buf i xs
Holds-front n buf i [] ys h = tt
Holds-front n buf i (x ∷ xs) ys h = (h.0, Holds-front n buf (next n i) xs ys h.1)

plus-zero : {n i : ℕ} → i < n → i ≡ plus n i 0
unfolding plus
plus-zero h = ground arith

pub plus-next : {n i : ℕ} (k : ℕ) → i < n → suc k < n → plus n (next n i) k ≡ plus n i (suc k)
unfolding plus next
plus-next k h h' = ground arith

plus-ne : {n i : ℕ} (k : ℕ) → i < n → suc k < n → (i == plus n i (suc k)) ≡ false
unfolding plus
plus-ne k h h' = ground arith

-- A circular copy reads what is held.
pub circular_copy-Holds :
    (buf : List ℕ) (i : ℕ) (xs : List ℕ)
    → i < length buf
    → length xs < length buf
    → Holds (length buf) buf i xs
    → circular_copy buf (length xs) i (plus (length buf) i (length xs)) ≡ xs
unfolding circular_copy
circular_copy-Holds buf i [] h small held = refl
circular_copy-Holds buf i (x ∷ xs) h small held =
    let rest = circular_copy-Holds buf (next (length buf) i) xs (next-lt h) (omega arith) held.1 in
    let place = plus-next (length xs) h small in
    let apart = plus-ne (length xs) h small in rw apart (cc (held.0, rest, place))

-- A byte of a circular copy is the one that many positions behind its begin.
pub get_or-circular_copy :
    (buf : List ℕ) (k j i : ℕ)
    → j < k
    → i < length buf
    → k < length buf
    → get_or (circular_copy buf k i (plus (length buf) i k)) j 0
      ≡ get_or buf (plus (length buf) i j) 0
unfolding circular_copy
get_or-circular_copy buf zero j i hj hi hk = absurd (omega arith)
get_or-circular_copy buf (suc k) zero i hj hi hk =
    let apart = plus-ne k hi hk in let here = plus-zero hi in rw apart (cc here)
get_or-circular_copy buf (suc k) (suc j) i hj hi hk =
    let apart = plus-ne k hi hk in
    let place = plus-next k hi hk in
    let place' = plus-next j hi (omega arith) in
    let rest =
      get_or-circular_copy buf k j (next (length buf) i) (omega arith) (next-lt hi) (omega arith) in
    rw apart (cc (rest, place, place'))

-- One byte more: it stands behind the latest one, and is the latest one.
pub record Appends (n b : ℕ) (r r' : RxBuffer) : Type 0 where
  pub written : r'.rx_buffer ≡ set r.rx_buffer (next n (rx_buffer_latest r)) b
  pub latest : rx_buffer_latest r' ≡ next n (rx_buffer_latest r)
  pub ring : IsRing n r'
  pub counted : r'.byte_count ≡ (r.byte_count + 1) % 2 ^ 32

-- Some bytes more, one after the other.
pub data Filled (n : ℕ) : List ℕ → RxBuffer → RxBuffer → Type 0 where
  done : {r : RxBuffer} → Filled n [] r r
  more :
      {b : ℕ} {bs : List ℕ} {r r' r'' : RxBuffer}
      → Appends n b r r'
      → Filled n bs r' r''
      → Filled n (b ∷ bs) r r''

pub distance_self : (n i : ℕ) → distance n i i ≡ 0
unfolding distance
distance_self n i = ground arith

distance-next_self : {n i : ℕ} → i < n → distance n (next n i) i + 1 ≡ n
unfolding distance next
distance-next_self h = ground arith

-- Bytes that are not reached stay.
pub Filled-keeps :
    {n : ℕ} {xs : List ℕ} {r r' : RxBuffer} (p : ℕ)
    → Filled n xs r r'
    → IsRing n r
    → p < n
    → length xs ≤ distance n (next n (rx_buffer_latest r)) p
    → get_or r'.rx_buffer p 0 ≡ get_or r.rx_buffer p 0
Filled-keeps p done v h far = refl
Filled-keeps {n} {r} p (more {b} {bs} {r'} a f) v h far =
    let w = next n (rx_buffer_latest r) in
    let w_in : w < n = next-lt (rx_buffer_latest-lt v) in
    let apart : w ≢ p =
      λ e. absurd (omega (arith, far, ap (λ i. distance n w i) (sym e), distance_self n w)) in
    let nearer : distance n (next n w) p + 1 ≡ distance n w p = distance-next w_in h apart in
    let still : length bs ≤ distance n (next n (rx_buffer_latest r')) p =
      rw a.latest (omega arith) in
    Filled-keeps p f a.ring h still
    ∙ ap (λ l. get_or l p 0) a.written
    ∙ get_or-set_ne r.rx_buffer w p b 0 apart

-- What came in is held behind the byte that was the latest one before.
pub Filled-Holds :
    {n : ℕ} {xs : List ℕ} {r r' : RxBuffer}
    → Filled n xs r r'
    → IsRing n r
    → length xs ≤ n
    → Holds n r'.rx_buffer (next n (rx_buffer_latest r)) xs
Filled-Holds done v h = tt
Filled-Holds {n} {r} {r'} (more {b} {bs} {r' = s} a f) v h =
    let w = next n (rx_buffer_latest r) in
    let w_in : w < n = next-lt (rx_buffer_latest-lt v) in
    let around : distance n (next n w) w + 1 ≡ n = distance-next_self w_in in
    let far : length bs ≤ distance n (next n (rx_buffer_latest s)) w = rw a.latest (omega arith) in
    let kept = Filled-keeps w f a.ring w_in far in
    let put : get_or s.rx_buffer w 0 ≡ b =
      rw a.written (get_or-set_self r.rx_buffer w b 0 (omega (arith, v.sized))) in
    let rest : Holds n r'.rx_buffer (next n w) bs =
      rw a.latest at (Filled-Holds f a.ring (omega arith)) in
    (kept ∙ put, rest)

-- The latest byte is the last one, so many bytes further; the byte in front of them stays, and the
-- counter has moved as far, unless it wrapped around.
pub Filled-latest :
    {n : ℕ} {xs : List ℕ} {r r' : RxBuffer}
    → Filled n xs r r'
    → IsRing n r
    → length xs < n
    → rx_buffer_latest r' ≡ plus n (rx_buffer_latest r) (length xs)
Filled-latest {n} {r} done v h = plus-zero (rx_buffer_latest-lt v)
Filled-latest {n} {r} (more {b} {bs} {r'} a f) v h =
    let q_in = rx_buffer_latest-lt v in
    Filled-latest f a.ring (omega arith)
    ∙ ap (λ q. plus n q (length bs)) a.latest
    ∙ plus-next (length bs) q_in h

pub Filled-IsRing :
    {n : ℕ} {xs : List ℕ} {r r' : RxBuffer} → Filled n xs r r' → IsRing n r → IsRing n r'
Filled-IsRing done v = v
Filled-IsRing (more a f) v = Filled-IsRing f a.ring

pub Filled-byte_count :
    {n : ℕ} {xs : List ℕ} {r r' : RxBuffer}
    → Filled n xs r r'
    → IsRing n r
    → length xs < 2 ^ 31
    → (r'.byte_count ≡ r.byte_count + length xs)
      ⊎ (r'.byte_count + 2 ^ 32 ≡ r.byte_count + length xs)
Filled-byte_count done v h = inl (omega arith)
Filled-byte_count (more a f) v h = elim (Filled-byte_count f a.ring (omega arith)) [
  | inl e ↦ ground (arith, a.counted)
  | inr e ↦ ground (arith, a.counted)
]

-- A received byte is one byte more, where no position is handed out.
pub put_single_received-Appends :
    {n : ℕ} (b : ℕ) {r : RxBuffer}
    → IsRing n r
    → r.postpone_by_one ≡ false
    → Appends n b r (put_single_received b r)
unfolding put_single_received rx_buffer_latest next
put_single_received-Appends {n} b {r} v now = record {
  written = ground (arith, v.sized);
  latest = ground (arith, v.sized);
  ring = put_single_received-IsRing b v;
  counted = refl;
}

pub put_single_received-postpone :
    (b : ℕ) (r : RxBuffer) → (put_single_received b r).postpone_by_one ≡ false
unfolding put_single_received rx_buffer_advance
put_single_received-postpone b r = refl

-- An interrupt's byte: it stands at the position that was handed out, and the next one is handed
-- out.
pub rx_buffer_future_write-Appends :
    {n : ℕ} (b : ℕ) {r : RxBuffer}
    → IsRing n r
    → r.postpone_by_one ≡ true
    → Appends n b r
        (rx_buffer_future_write (record r { rx_buffer = set r.rx_buffer r.write_it b })).1
unfolding rx_buffer_future_write rx_buffer_latest next
rx_buffer_future_write-Appends {n} b {r} v later = record {
  written = ground (arith, v.sized);
  latest = ground (arith, v.sized, length-set r.rx_buffer r.write_it b);
  ring =
      rx_buffer_future_write-IsRing {r = record r { rx_buffer = set r.rx_buffer r.write_it b }}
        (record {
          sized = length-set r.rx_buffer r.write_it b ∙ v.sized;
          inside = v.inside;
          counted = v.counted;
        });
  counted = refl;
}

pub rx_buffer_future_write-postpone :
    (r : RxBuffer) → (rx_buffer_future_write r).1.postpone_by_one ≡ true
unfolding rx_buffer_future_write rx_buffer_advance
rx_buffer_future_write-postpone r = refl
