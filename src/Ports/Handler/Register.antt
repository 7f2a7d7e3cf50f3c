-- ===== src/Ports/Handler/Register.antt =====
-- Registration of services in ports/ports.hpp, and the search for a free port.
use libprotoserial.Prelude.{
  ℕ, zero, suc, ◌+◌, ◌≤◌, ◌<◌, ◌≡◌, ◌≢◌, refl, ap, ◌⊎◌, inl, inr, List, [], ◌∷◌, ◌++◌, true, false,
  some, ok, err, already_registered, invalid_port, ◌==◌, ◌||◌, not, ◌&&◌, length, arith, Bool-cases,
  sym, ◌∙◌, dec_lt,
}
use libprotoserial.Ports.Handler.{
  Ports, has_service, remove_service, register_service, unregister_service, free_from,
  get_free_port,
}

-- No port is registered twice, and none is the invalid port.
abbrev pub AllDistinct : List ℕ → Type 0
AllDistinct [] = Unit {0}
AllDistinct (p ∷ ps) = (has_service p ps ≡ false) × (p ≢ 0) × AllDistinct ps

pub has_service-append :
    (q : ℕ) (xs ys : List ℕ) → has_service q (xs ++ ys) ≡ (has_service q xs || has_service q ys)
unfolding has_service
has_service-append q [] ys = refl
has_service-append q (x ∷ xs) ys = ground (arith, has_service-append q xs ys)

pub AllDistinct-append :
    (xs : List ℕ) (p : ℕ)
    → AllDistinct xs
    → has_service p xs ≡ false
    → p ≢ 0
    → AllDistinct (xs ++ (p ∷ []))
unfolding has_service
AllDistinct-append [] p d h ne = (refl, ne, tt)
AllDistinct-append (x ∷ xs) p d h ne = (
  ground (arith, d, has_service-append x xs (p ∷ [])),
  d.1,
  AllDistinct-append xs p d.2 (ground arith) ne,
)

-- What remains registered without a port, where no port is registered twice.
pub has_service-remove :
    (p q : ℕ) (xs : List ℕ)
    → AllDistinct xs
    → has_service q (remove_service p xs) ≡ (not (q == p) && has_service q xs)
unfolding has_service remove_service
has_service-remove p q [] d = ground arith
has_service-remove p q (x ∷ xs) d = ground (arith, d, has_service-remove p q xs d.2)

has_service-remove_ne :
    (p q : ℕ) (xs : List ℕ) → q ≢ p → has_service q (remove_service p xs) ≡ has_service q xs
unfolding has_service remove_service
has_service-remove_ne p q [] ne = refl
has_service-remove_ne p q (x ∷ xs) ne = ground (arith, has_service-remove_ne p q xs ne)

length-remove :
    (p : ℕ) (xs : List ℕ) → has_service p xs ≡ true → length (remove_service p xs) + 1 ≡ length xs
unfolding has_service remove_service
length-remove p [] h = cc
length-remove p (x ∷ xs) h = ground (arith, length-remove p xs)

-- Where no port is registered twice, a registration fails on the invalid port and on a port that
-- is taken, and otherwise adds that port alone; the ports stay distinct.
pub register_service_lem :
    (p : ℕ) (h : Ports)
    → AllDistinct h.services
    → ((p ≡ 0) × (register_service p h ≡ err invalid_port))
      ⊎ ((p ≢ 0)
          × (has_service p h.services ≡ true)
          × (register_service p h ≡ err already_registered))
      ⊎ ((p ≢ 0)
          × (has_service p h.services ≡ false)
          × (h' : Ports) × (register_service p h ≡ ok h')
          × AllDistinct h'.services
          × ((q : ℕ) → has_service q h'.services ≡ ((q == p) || has_service q h.services)))
unfolding register_service has_service
register_service_lem p h d = elim (Bool-cases (p == 0)) [
  | inl z ↦ inl (ground arith, ground arith)
  | inr nz ↦ elim (Bool-cases (has_service p h.services)) [
    | inl taken ↦ inr (inl (ground arith, taken, ground arith))
    | inr free ↦
        let ne : p ≢ 0 = ground arith in
        inr (
          inr (
            ne,
            free,
            record h { services = h.services ++ (p ∷ []) },
            rw (nz, free) refl,
            AllDistinct-append h.services p d free ne,
            λ q. added q,
          ))
  ]
]
  where
    added :
        (q : ℕ) → has_service q (h.services ++ (p ∷ [])) ≡ ((q == p) || has_service q h.services)
    added q = ground (arith, has_service-append q h.services (p ∷ []))

-- Where no port is registered twice, removing a port frees it and no other one.
pub unregister_service_lem :
    (p q : ℕ) (h : Ports)
    → AllDistinct h.services
    → has_service q (unregister_service p h).services ≡ (not (q == p) && has_service q h.services)
unfolding unregister_service
unregister_service_lem p q h d = has_service-remove p q h.services d

AllDistinct-remove : (p : ℕ) (xs : List ℕ) → AllDistinct xs → AllDistinct (remove_service p xs)
unfolding remove_service has_service
AllDistinct-remove p [] d = tt
AllDistinct-remove p (x ∷ xs) d = elim (Bool-cases (x == p)) [
  | inl same ↦ rw same d.2
  | inr other ↦
      rw other (ground (arith, d, has_service-remove p x xs d.2), d.1, AllDistinct-remove p xs d.2)
]

pub AllDistinct-unregister_service :
    (p : ℕ) (h : Ports) → AllDistinct h.services → AllDistinct (unregister_service p h).services
unfolding unregister_service
AllDistinct-unregister_service p h d = AllDistinct-remove p h.services d

free_from-ext :
    (k p : ℕ) (xs ys : List ℕ)
    → ((q : ℕ) → p ≤ q → has_service q xs ≡ has_service q ys)
    → free_from k p xs ≡ free_from k p ys
unfolding free_from
free_from-ext zero p xs ys h = refl
free_from-ext (suc k) p xs ys h =
    ground (arith, h p (omega arith), free_from-ext k (p + 1) xs ys (λ q hq. h q (omega arith)))

-- The first free port from `p` on.
abbrev pub FirstFree : ℕ → List ℕ → ℕ → Type 0
FirstFree p services r =
    (p ≤ r)
    × (has_service r services ≡ false)
    × ((q : ℕ) → p ≤ q → q < r → has_service q services ≡ true)

-- More rounds than there are services are enough.
free_from-FirstFree :
    (k p : ℕ) (services : List ℕ)
    → length services < k
    → (r : ℕ) × (free_from k p services ≡ some r) × FirstFree p services r
unfolding free_from
free_from-FirstFree zero p services h = absurd (omega arith)
free_from-FirstFree (suc k) p services h = elim (Bool-cases (has_service p services)) [
  | inr free ↦ (p, rw free refl, (omega arith, free, λ q a b. absurd (omega arith)))
  | inl taken ↦
      let others = remove_service p services in
      let (r, e, ff) =
        free_from-FirstFree k (p + 1) others (omega (arith, length-remove p services taken)) in
      let same : free_from k (p + 1) others ≡ free_from k (p + 1) services =
        free_from-ext k (p + 1) others services
          (λ q hq. has_service-remove_ne p q services (omega arith)) in
      let there : (q : ℕ) → p + 1 ≤ q → has_service q others ≡ has_service q services =
        λ q hq. has_service-remove_ne p q services (omega arith) in
      (
        r,
        rw taken (sym same ∙ e),
        (
          omega (arith, ff.0),
          sym (there r ff.0) ∙ ff.1,
          λ q a b. elim (dec_lt p q) [
            | yes lt ↦ sym (there q (omega arith)) ∙ ff.2 q (omega arith) b
            | no nlt ↦ let e' : q ≡ p = omega arith in ap (λ z. has_service z services) e' ∙ taken
          ],
        ),
      )
]

-- The search ends, and gives the first free port from 100 on.
pub get_free_port-FirstFree :
    (h : Ports) → (r : ℕ) × (get_free_port h ≡ some r) × FirstFree 100 h.services r
unfolding get_free_port
get_free_port-FirstFree h =
    free_from-FirstFree (suc (length h.services)) 100 h.services (omega arith)
