-- ===== src/Observer/Tests.antt =====
-- A subject of utils/observer.hpp whose callbacks append to a list.
use libprotoserial.Prelude.{ℕ, ◌≡◌, List, [], ◌∷◌, ◌++◌, arith}
use libprotoserial.Observer.{Subject, AreBelow, subscribe, unsubscribe, emit, unsubscribe-subscribe}

abbrev log : ℕ → List ℕ → List ℕ
log arg state = state ++ (arg ∷ [])

abbrev loggers : Subject ℕ (List ℕ)
loggers = record { callback = log; id = 1 } ∷ []

unsubscribe-subscribe_example :
    let (s, id) = subscribe log 1 loggers in
    ((arg : ℕ) (state : List ℕ) → emit arg s state ≡ log arg (emit arg loggers state))
    × (unsubscribe id s ≡ loggers)
    × AreBelow id s
unsubscribe-subscribe_example = unsubscribe-subscribe log 1 loggers (omega arith, tt) (omega arith)
