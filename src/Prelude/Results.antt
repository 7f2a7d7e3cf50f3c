-- ===== src/Prelude/Results.antt =====
-- The outcome of code that may throw or leave its memory.
use mathlib.Core.Path.{◌≡◌, refl}

-- `out_of_range` and the two registration errors are the exceptions of the source; `overrun` is a
-- raw read or write outside of an allocation, and a call through an iterator that is not valid;
-- `decode_failed` is the exception of a decoder, and `open_failed` that of a port.
pub data Error : Type 0 where
  out_of_range overrun already_registered invalid_port decode_failed open_failed : Error

pub data Result {κ} (X : Type κ) : Type κ where
  err : Error → Result X
  ok : X → Result X

-- What follows a step is run on its value.
infixl 5 ◌>>=◌
abbrev pub ◌>>=◌ {κ μ} : {X : Type κ} {Y : Type μ} → Result X → (X → Result Y) → Result Y
err failure >>= rest = err failure
ok value >>= rest = rest value

-- A step of a successful run succeeded.
pub >>=-eq-ok {κ μ} :
    {X : Type κ} {Y : Type μ} (step : Result X) (rest : X → Result Y) {y : Y}
    → (step >>= rest) ≡ ok y
    → (x : X) × (step ≡ ok x) × (rest x ≡ ok y)
>>=-eq-ok (err failure) rest h = cc
>>=-eq-ok (ok value) rest h = (value, refl, h)

pub ok-injective {κ} : {X : Type κ} {x y : X} → ok x ≡ ok y → x ≡ y
ok-injective h = cc
