-- ===== src/Fragmentation/TransferHandler/Status.antt =====
-- What the calls of `transfer_handler` of fragmentation/transfer_handler.hpp do to its state, and
-- its status vector, which the constructors leave empty.
use libprotoserial.Prelude.{
  ℕ, ◌≡◌, ◌⊎◌, inl, inr, refl, [], Bool, false, Bool-cases, Option, some, none, Result, ok, err,
  out_of_range, >>=-eq-ok, ok-injective, Error, not, ◌||◌, sym, arith, ap, ◌∙◌, ◌==◌, ltb,
}
use libprotoserial.Bytes.{window, size, expand}
use libprotoserial.Bytes.Memory.{write_range}
use libprotoserial.Interface.Fragment.{Fragment}
use libprotoserial.Fragmentation.Transfer.{Transfer}
use libprotoserial.Fragmentation.FragmentHeader.{Header}
use libprotoserial.Fragmentation.TransferHandler.{
  TransferHandler, of_transfer, of_fragment, get_fragment, put_fragment, take_fragment,
  prepare_for_transmit, transmit_ready, is_incoming, fragment_size, increment_fragment_status,
  retransmit_request, fragment_transmitted,
}

increment_throws :
    (pos : ℕ) (h : TransferHandler)
    → h.fragment_status ≡ []
    → increment_fragment_status pos h ≡ err out_of_range
unfolding increment_fragment_status
increment_throws pos h e = rw e (ground arith)

take_throws :
    (pos front back object_id : ℕ) (p h : TransferHandler)
    → p.fragment_status ≡ []
    → take_fragment pos front back object_id (some p) h ≡ err out_of_range
unfolding take_fragment
take_throws pos front back object_id p h e = rw (increment_throws pos p e) refl

get_throws :
    (pos front back object_id : ℕ) (h : TransferHandler)
    → h.fragment_status ≡ []
    → (get_fragment pos front back object_id h ≡ ok (none, h))
      ⊎ (get_fragment pos front back object_id h ≡ err out_of_range)
unfolding get_fragment take_fragment prepare_for_transmit
get_throws pos front back object_id h e = elim (Bool-cases (is_incoming h)) [
  | inl is_in ↦ inl (rw is_in refl)
  | inr is_out ↦ elim (Bool-cases (fragment_size pos h == 0)) [
    | inl nothing ↦ inl (rw (is_out, nothing) refl)
    | inr something ↦ elim (Bool-cases (transmit_ready h.state)) [
      | inl ready ↦ inr (rw (is_out, something, ready) (take_throws pos front back object_id _ h e))
      | inr not_ready ↦ inl (rw (is_out, something, not_ready) refl)
    ]
  ]
]

-- The handlers that the calls lead to.
pub data Reached : TransferHandler → Type 0 where
  sending : (t : Transfer) (max garbage : ℕ) → Reached (of_transfer t max garbage)
  receiving :
      (f : Fragment) (hd : Header) (object_id now garbage : ℕ) (h : TransferHandler)
      → of_fragment f hd object_id now garbage ≡ ok h
      → Reached h
  got :
      (pos front back object_id : ℕ) (o : Option Fragment) (h h' : TransferHandler)
      → Reached h
      → get_fragment pos front back object_id h ≡ ok (o, h')
      → Reached h'
  put :
      (pos : ℕ) (f : Fragment) (b : Bool) (h h' : TransferHandler)
      → Reached h
      → put_fragment pos f h ≡ ok (b, h')
      → Reached h'
  requested : (pos : ℕ) (h : TransferHandler) → Reached h → Reached (retransmit_request pos h).1
  transmitted : (now : ℕ) (h : TransferHandler) → Reached h → Reached (fragment_transmitted now h).1

put_throws :
    (pos : ℕ) (f : Fragment) (h : TransferHandler) (b : Bool) (h' : TransferHandler)
    → h.fragment_status ≡ []
    → put_fragment pos f h ≡ ok (b, h')
    → (b ≡ false) × (h' ≡ h)
unfolding put_fragment
put_throws pos f h b h' e q = elim (Bool-cases refused) [
  | inl is_refused ↦
      let pair : (false, h) ≡ (b, h') = ok-injective (rw is_refused at q) in
      (sym (ap (λ z. z.0) pair), sym (ap (λ z. z.1) pair))
  | inr taken ↦
      let (xs, e₁, q₁) = >>=-eq-ok (window f.payload) _ (rw taken at q) in
      let (base, e₂, q₂) = >>=-eq-ok (write_range _ _ xs) _ q₁ in
      let (counted, e₃, q₃) = >>=-eq-ok (increment_fragment_status pos _) _ q₂ in
      absurd (not_both (increment_throws pos _ e) e₃)
]
  where
    refused : Bool
    refused =
        not (is_incoming h)
        || (fragment_size pos h == 0)
        || ltb (fragment_size pos h) (size f.payload)

    not_both : {A : Type 0} {r : Result A} {x : Error} {a : A} → r ≡ err x → r ≡ ok a → ⊥
    not_both h k = cc

Reached-status : (h : TransferHandler) → Reached h → h.fragment_status ≡ []
unfolding of_transfer of_fragment retransmit_request fragment_transmitted
Reached-status _ (sending t max garbage) = refl
Reached-status _ (receiving f hd object_id now garbage h e) =
    let (whole, e', q) = >>=-eq-ok (expand 0 _ f.payload) _ e in
    ap TransferHandler.fragment_status (sym (ok-injective q))
Reached-status _ (got pos front back object_id o h h' r e) =
    elim (get_throws pos front back object_id h (Reached-status h r)) [
      | inl same ↦ cc (same, e, Reached-status h r)
      | inr throws ↦ cc (throws, e)
    ]
Reached-status _ (put pos f b h h' r e) =
    ap TransferHandler.fragment_status (put_throws pos f h b h' (Reached-status h r) e).1
    ∙ Reached-status h r
Reached-status _ (requested pos h r) = ground (arith, Reached-status h r)
Reached-status _ (transmitted now h r) = ground (arith, Reached-status h r)

-- In every handler that the calls lead to, `get_fragment` throws or gives no fragment: the
-- entries of the status vector are missing.
pub get_fragment_throws :
    (h : TransferHandler) (pos front back object_id : ℕ)
    → Reached h
    → (get_fragment pos front back object_id h ≡ ok (none, h))
      ⊎ (get_fragment pos front back object_id h ≡ err out_of_range)
get_fragment_throws h pos front back object_id r =
    get_throws pos front back object_id h (Reached-status h r)
