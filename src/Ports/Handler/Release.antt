-- ===== src/Ports/Handler/Release.antt =====
-- A service of ports/ports.hpp that is registered at a free port and removed again.
use libprotoserial.Prelude.{ℕ, ◌≡◌, ◌≢◌, List, [], ◌∷◌, ◌++◌, false, ok, arith, ap}
use libprotoserial.Ports.Handler.{
  Ports, has_service, remove_service, register_service, unregister_service,
}

pub register_free :
    (p : ℕ) (h : Ports)
    → p ≢ 0
    → has_service p h.services ≡ false
    → register_service p h ≡ ok (record h { services = h.services ++ (p ∷ []) })
unfolding register_service
register_free p h ne free = ground (arith, free)

remove-append :
    (p : ℕ) (xs : List ℕ) → has_service p xs ≡ false → remove_service p (xs ++ (p ∷ [])) ≡ xs
unfolding has_service remove_service
remove-append p [] free = ground arith
remove-append p (x ∷ xs) free = ground (arith, remove-append p xs)

-- Removing the service that was registered last leaves the handler as it was.
pub unregister_free :
    (p : ℕ) (h : Ports)
    → has_service p h.services ≡ false
    → unregister_service p (record h { services = h.services ++ (p ∷ []) }) ≡ h
unfolding unregister_service
unregister_free p h free = ap (λ l. record h { services = l }) (remove-append p h.services free)
