-- ===== src/Fragmentation/IdFactory.antt =====
-- `id_factory` of fragmentation/id_factory.hpp: a counter for each interface, never 0 in its low
-- byte, to which the transfer identifiers are cut.
use libprotoserial.Prelude.{
  subst, get_elem?, true, false, some, sym, ◌∙◌, ℕ, zero, suc, ◌+◌, ◌%◌, ◌^◌, ◌<◌, ◌≡◌, ◌≢◌, refl,
  ap, List, [], ◌∷◌, ◌==◌, if◌then◌else◌, arith, Bool-cases, inl, inr,
}
use libprotoserial.Interface.Fragment.{InterfaceId, same_interface, same_interface_iff}

-- The mappers, oldest first.
abbrev pub IdFactory : Type 0
IdFactory = List (InterfaceId × ℕ)

unfoldable pub increment_id : ℕ → ℕ
increment_id id_counter =
    let c = (id_counter + 1) % 2 ^ 32 in if c % 256 == 0 then (c + 1) % 2 ^ 32 else c

-- The new identifier, and the factory afterwards.
unfoldable pub new_id : InterfaceId → IdFactory → ℕ × IdFactory
unfolding increment_id
new_id iid [] = (increment_id 0, (iid, increment_id 0) ∷ [])
new_id iid ((j, c) ∷ ms) =
    let (id, ms') = new_id iid ms in
    if same_interface j iid then (increment_id c, (j, increment_id c) ∷ ms) else (id, (j, c) ∷ ms')

-- The last identifier of an interface; 0 if there is none.
pub last_id : InterfaceId → IdFactory → ℕ
last_id iid [] = 0
last_id iid ((j, c) ∷ ms) = if same_interface j iid then c else last_id iid ms

new_id_parts :
    (iid j : InterfaceId) (ms : IdFactory)
    → ((new_id iid ms).0 ≡ increment_id (last_id iid ms))
      × (last_id iid (new_id iid ms).1 ≡ increment_id (last_id iid ms))
      × (j ≢ iid → last_id j (new_id iid ms).1 ≡ last_id j ms)
unfolding new_id last_id
new_id_parts iid j [] =
    let same = (same_interface_iff iid iid).1 refl in
    (refl, rw same, λ d. ground (arith, same_interface_iff iid j))
new_id_parts iid j ((k, c) ∷ ms) =
    let (a, b, d) = new_id_parts iid j ms in
    (
      ground (arith, a),
      ground (arith, b),
      λ ne. ground (arith, d ne, same_interface_iff k iid, same_interface_iff k j),
    )

-- An identifier is the successor of the last one of its interface, and the other interfaces keep
-- theirs.
pub new_id_lem :
    (iid j : InterfaceId) (ms : IdFactory)
    → ((new_id iid ms).0 ≡ increment_id (last_id iid ms))
      × (last_id j (new_id iid ms).1
          ≡ (if same_interface j iid then increment_id (last_id iid ms) else last_id j ms))
new_id_lem iid j ms =
    let (a, b, d) = new_id_parts iid j ms in
    (
      a,
      elim (Bool-cases (same_interface j iid)) [
        | inl same ↦ let e : j ≡ iid = (same_interface_iff j iid).0 same in rw same (rw e b)
        | inr other ↦
            let ne : j ≢ iid = ground (arith, other, same_interface_iff j iid) in rw other (d ne)
      ],
    )

-- The low byte runs through 1 to 255 and begins again.
pub low_byte-increment_id : (c : ℕ) → increment_id c % 256 ≡ (c % 256) % 255 + 1
unfolding increment_id
low_byte-increment_id c = ground arith

-- `k` identifiers later.
pub after : ℕ → ℕ → ℕ
after zero c = c
after (suc k) c = increment_id (after k c)

pub low_byte-after : (k c : ℕ) → after (suc k) c % 256 ≡ (c % 256 + k) % 255 + 1
unfolding after
low_byte-after zero c = omega (arith, low_byte-increment_id c)
low_byte-after (suc k) c =
    omega (arith, low_byte-increment_id (after (suc k) c), low_byte-after k c)

after_distinct :
    (i j c : ℕ)
    → i < j
    → j < i + 255
    → (after (suc i) c % 256 ≢ 0) × (after (suc i) c % 256 ≢ after (suc j) c % 256)
after_distinct i j c h h' =
    let p = low_byte-after i c in let q = low_byte-after j c in (omega arith, omega arith)

after-increment_id : (k c : ℕ) → after (suc k) c ≡ after k (increment_id c)
unfolding after
after-increment_id zero c = refl
after-increment_id (suc k) c = ap increment_id (after-increment_id k c)

-- One `new_id` after the other, each for an interface.
abbrev pub issue : List InterfaceId → IdFactory → List (InterfaceId × ℕ)
issue [] ids = []
issue (iid ∷ iids) ids = (iid, (new_id iid ids).0) ∷ issue iids (new_id iid ids).1

-- The identifiers that one interface got, in order.
unfoldable pub of_interface : InterfaceId → List (InterfaceId × ℕ) → List ℕ
of_interface iid [] = []
of_interface iid ((j, id) ∷ rest) =
    if same_interface j iid then id ∷ of_interface iid rest else of_interface iid rest

issue-after :
    (iid : InterfaceId) (iids : List InterfaceId) (ids : IdFactory) (i : ℕ) {a : ℕ}
    → get_elem? (of_interface iid (issue iids ids)) i ≡ some a
    → a ≡ after (suc i) (last_id iid ids)
unfolding of_interface after
issue-after iid [] ids i e = cc
issue-after iid (j ∷ iids) ids i {a} e = elim (Bool-cases (same_interface j iid)) [
  | inl same ↦
      let own : j ≡ iid = (same_interface_iff j iid).0 same in
      asked i ((same_interface_iff iid iid).1 refl)
        (subst
          (λ k.
            get_elem? ((new_id k ids).0 ∷ of_interface iid (issue iids (new_id k ids).1)) i
            ≡ some a)
          own (rw same at e))
        (λ k e'. issue-after iid iids (new_id iid ids).1 k e')
  | inr other ↦
      let apart : same_interface iid j ≡ false =
        ground (arith, other, same_interface_iff j iid, same_interface_iff iid j) in
      let kept : last_id iid (new_id j ids).1 ≡ last_id iid ids =
        rw apart at (new_id_lem j iid ids).1 in
      rw (← kept) (issue-after iid iids (new_id j ids).1 i (rw other at e))
]
  where
    asked :
        (k : ℕ)
        → same_interface iid iid ≡ true
        → get_elem? ((new_id iid ids).0 ∷ of_interface iid (issue iids (new_id iid ids).1)) k
          ≡ some a
        → ((m : ℕ)
            → get_elem? (of_interface iid (issue iids (new_id iid ids).1)) m ≡ some a
            → a ≡ after (suc m) (last_id iid (new_id iid ids).1))
        → a ≡ after (suc k) (last_id iid ids)
    asked zero same e later = let first = (new_id_lem iid iid ids).0 in cc (e, first)
    asked (suc k) same e later =
        let moved : last_id iid (new_id iid ids).1 ≡ increment_id (last_id iid ids) =
          rw same at (new_id_lem iid iid ids).1 in
        later k e ∙ ap (after (suc k)) moved ∙ sym (after-increment_id (suc k) (last_id iid ids))

-- Whatever interfaces ask for identifiers, no identifier is 0 in its low byte, and of 255
-- identifiers in a row of one interface no two are equal there.
pub issue_distinct :
    (iid : InterfaceId) (iids : List InterfaceId) (ids : IdFactory) (i j : ℕ) {a b : ℕ}
    → get_elem? (of_interface iid (issue iids ids)) i ≡ some a
    → get_elem? (of_interface iid (issue iids ids)) j ≡ some b
    → i < j
    → j < i + 255
    → (a % 256 ≢ 0) × (a % 256 ≢ b % 256)
issue_distinct iid iids ids i j e e' h h' =
    rw (issue-after iid iids ids i e, issue-after iid iids ids j e')
      (after_distinct i j (last_id iid ids) h h')

-- An identifier that is cut to eight bits is not the invalid one.
pub new_id_low : (iid : InterfaceId) (ids : IdFactory) → (new_id iid ids).0 % 256 ≢ 0
new_id_low iid ids e =
    let (a, _) = new_id_lem iid iid ids in
    let low = low_byte-increment_id (last_id iid ids) in absurd (omega (arith, ap (λ i. i % 256) a))
