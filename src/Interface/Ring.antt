-- ===== src/Interface/Ring.antt =====
-- The receive buffer of `buffered_interface` in interface/buffered.hpp, which the interrupt fills,
-- and the iterator that wraps around in it. A position is an offset from the buffer's begin.
pub mod Contents
use libprotoserial.Prelude.{
  ℕ, zero, suc, ◌+◌, ◌-◌, ◌%◌, ◌^◌, ◌≤◌, ◌<◌, ◌≡◌, ◌≢◌, refl, inl, inr, List, [], ◌∷◌, Bool, true,
  false, Option, none, some, leb, ◌==◌, if◌then◌else◌, length, get_or, set, replicate, length-set,
  get_or-set_self, length-replicate, ap, arith, Bool-cases,
}

pub record RxBuffer : Type 0 where
  pub rx_buffer : List ℕ
  pub write_it : ℕ
  pub byte_count : ℕ
  pub postpone_by_one : Bool

unfoldable pub create : ℕ → RxBuffer
create buffer_size = record {
  rx_buffer = replicate buffer_size 0;
  write_it = 0;
  byte_count = 0;
  postpone_by_one = false;
}

abbrev pub rx_buffer_size : RxBuffer → ℕ
rx_buffer_size r = length r.rx_buffer

pub rx_buffer_advance : RxBuffer → RxBuffer
rx_buffer_advance r =
    let w = r.write_it + 1 in
    record r {
      write_it = if leb (rx_buffer_size r) w then 0 else w;
      byte_count = (r.byte_count + 1) % 2 ^ 32;
    }

pub put_single_received : ℕ → RxBuffer → RxBuffer
unfolding rx_buffer_advance
put_single_received b r =
    let r' = rx_buffer_advance (record r { postpone_by_one = false }) in
    record r' { rx_buffer = set r'.rx_buffer r'.write_it b }

-- The position that is handed out to be written, and the buffer afterwards.
unfoldable pub rx_buffer_future_write : RxBuffer → ℕ × RxBuffer
unfolding rx_buffer_advance
rx_buffer_future_write r =
    let r' = rx_buffer_advance (record r { postpone_by_one = true }) in (r'.write_it, r')

-- The last byte written: the one before, where the last position is only handed out.
unfoldable pub rx_buffer_latest : RxBuffer → ℕ
rx_buffer_latest r =
    if r.postpone_by_one
    then (if r.write_it == 0 then rx_buffer_size r - 1 else r.write_it - 1)
    else r.write_it

-- `circular_iterator`: `++`, `+`, and the distance from the lagging to the leading one.
module _ (n : ℕ) where
  unfoldable pub next : ℕ → ℕ
  next i = if leb n (i + 1) then 0 else i + 1

  unfoldable pub plus : ℕ → ℕ → ℕ
  plus i shift = if leb n (i + shift) then i + shift - n else i + shift

  unfoldable pub distance : ℕ → ℕ → ℕ
  distance lagging leading =
      if leb lagging leading then leading - lagging else leading + n - lagging

-- `parsers::find`: the first position from `start` on, and before `stop`, that holds the value.
-- A round costs fuel; a buffer's size is enough.
unfoldable pub find : List ℕ → ℕ → ℕ → ℕ → ℕ → Option ℕ
find buf zero start stop value = none
find buf (suc k) start stop value =
    let rest = find buf k (next (length buf) start) stop value in
    if start == stop then none else if get_or buf start 0 == value then some start else rest

-- The loops that copy at most `k` bytes from `it` on, up to `stop`.
pub circular_copy : List ℕ → ℕ → ℕ → ℕ → List ℕ
circular_copy buf zero it stop = []
circular_copy buf (suc k) it stop =
    let rest = circular_copy buf k (next (length buf) it) stop in
    if it == stop then [] else get_or buf it 0 ∷ rest

-- The write position stays inside of the buffer, whose size does not change.
pub record IsRing (n : ℕ) (r : RxBuffer) : Type 0 where
  pub sized : length r.rx_buffer ≡ n
  pub inside : r.write_it < n
  pub counted : r.byte_count < 2 ^ 32

pub create-IsRing : (n : ℕ) → 0 < n → IsRing n (create n)
unfolding create
create-IsRing n h = record { sized = length-replicate n 0; inside = h; counted = omega arith }

-- A received byte leaves the write position in the buffer, of an unchanged size.
pub put_single_received-IsRing :
    {n : ℕ} (b : ℕ) {r : RxBuffer} → IsRing n r → IsRing n (put_single_received b r)
unfolding put_single_received
put_single_received-IsRing {n} b {r} v = ground (
  arith,
  length-set r.rx_buffer (if leb (rx_buffer_size r) (r.write_it + 1) then 0 else r.write_it + 1) b,
)

pub rx_buffer_future_write-IsRing :
    {n : ℕ} {r : RxBuffer} → IsRing n r → IsRing n (rx_buffer_future_write r).1
unfolding rx_buffer_future_write
rx_buffer_future_write-IsRing v = ground arith

pub rx_buffer_latest-lt : {n : ℕ} {r : RxBuffer} → IsRing n r → rx_buffer_latest r < n
unfolding rx_buffer_latest
rx_buffer_latest-lt v = ground arith

-- A byte that is put is the latest one, also after a position that was handed out.
pub rx_buffer_latest-put :
    {n : ℕ} (b : ℕ) {r : RxBuffer}
    → IsRing n r
    → get_or (put_single_received b r).rx_buffer (rx_buffer_latest (put_single_received b r)) 0 ≡ b
unfolding put_single_received rx_buffer_latest
rx_buffer_latest-put b {r} v =
    let w = if leb (length r.rx_buffer) (r.write_it + 1) then 0 else r.write_it + 1 in
    get_or-set_self r.rx_buffer w b 0 (ground arith)

-- Steps and distances in a ring of `n`.
pub next-lt : {n i : ℕ} → i < n → next n i < n
unfolding next
next-lt h = ground arith

pub distance-lt : {n i j : ℕ} → i < n → j < n → distance n i j < n
unfolding distance
distance-lt h h' = ground arith

pub distance-next :
    {n i j : ℕ} → i < n → j < n → i ≢ j → distance n (next n i) j + 1 ≡ distance n i j
unfolding distance next
distance-next h h' d = ground arith

-- What `find` finds lies between its bounds, and holds the value.
pub find_lem :
    (buf : List ℕ) (k start stop value : ℕ) {p : ℕ}
    → start < length buf
    → stop < length buf
    → find buf k start stop value ≡ some p
    → (p < length buf)
      × (p ≢ stop)
      × (get_or buf p 0 ≡ value)
      × (distance (length buf) p stop ≤ distance (length buf) start stop)
unfolding find
find_lem buf zero start stop value h h' e = cc
find_lem buf (suc k) start stop value {p} h h' e = elim (Bool-cases (start == stop)) [
  | inl same ↦ cc (rw (find, same) at e)
  | inr differ ↦ elim (Bool-cases (get_or buf start 0 == value)) [
    | inl here ↦
        let held : some start ≡ some p = rw (find, differ, here) at e in
        let place : start ≡ p = cc in rw (← place) (h, ground arith, ground arith, omega arith)
    | inr later ↦
        let (a, b, c, d) =
          find_lem buf k (next (length buf) start) stop value (next-lt h) h'
            (rw (find, differ, later) at e) in
        (a, b, c, omega (arith, distance-next h h' (ground arith)))
  ]
]

pub length-circular_copy-le :
    (buf : List ℕ) (k it stop : ℕ) → length (circular_copy buf k it stop) ≤ k
unfolding circular_copy
length-circular_copy-le buf zero it stop = omega arith
length-circular_copy-le buf (suc k) it stop =
    ground (arith, length-circular_copy-le buf k (next (length buf) it) stop)

pub plus-lt : {n i : ℕ} (s : ℕ) → i < n → s < n → plus n i s < n
unfolding plus
plus-lt s h h' = ground arith

pub distance-plus : {n i : ℕ} (s : ℕ) → i < n → s < n → distance n i (plus n i s) ≡ s
unfolding distance plus
distance-plus s h h' = ground arith

distance-pos : {n i j : ℕ} → i < n → j < n → i ≢ j → 0 < distance n i j
unfolding distance
distance-pos h h' d = ground arith

distance_self : (n i : ℕ) → distance n i i ≡ 0
unfolding distance
distance_self n i = ground arith

-- A copy of the bytes between two positions has as many bytes as there are.
pub length-circular_copy :
    (buf : List ℕ) (k it stop : ℕ)
    → it < length buf
    → stop < length buf
    → k ≡ distance (length buf) it stop
    → length (circular_copy buf k it stop) ≡ k
unfolding circular_copy
length-circular_copy buf zero it stop h h' e = refl
length-circular_copy buf (suc k) it stop h h' e = elim (Bool-cases (it == stop)) [
  | inl same ↦
      let q : it ≡ stop = ground arith in
      let z : distance (length buf) it stop ≡ 0 = rw q (distance_self (length buf) stop) in
      absurd (omega arith)
  | inr differ ↦
      let d = distance-next h h' (ground arith) in
      rw (circular_copy, differ)
        (ap suc
          (length-circular_copy buf k (next (length buf) it) stop (next-lt h) h' (omega arith)))
]
