-- ===== src/IndexQueue/Erase.antt =====
-- src/pool/prefetch/state.rs: the neighbours in a list once a member is out of it.
use dios.Common.{ℕ, ◌≡◌, ◌≢◌, Option, some, List, [], ◌∷◌, arith, refl, ℕ_discrete}
use dios.Common.Count.{erase}
use dios.IndexQueue.Order.{
  head, last_after, before, after, Once, Once-tail, Once-head, last-member, after-member,
  head-before, before-first,
}

-- A removal, seen from the members that stay.
pub head-erase_first :
    (xs : List ℕ) (x : ℕ) → Once xs → head xs ≡ some x → head (erase x xs) ≡ after xs x
head-erase_first [] x once e = ground (arith, e)
head-erase_first (y ∷ xs) x once e = ground (arith, e)

pub head-erase_other : (xs : List ℕ) (x : ℕ) → head xs ≢ some x → head (erase x xs) ≡ head xs
head-erase_other [] x e = refl
head-erase_other (y ∷ xs) x e =
    let apart : y ≢ x = λ s. e (ground (arith, s)) in ground (arith, apart)

before-change :
    (p q : Option ℕ) (xs : List ℕ) (i : ℕ) → head xs ≢ some i → before p xs i ≡ before q xs i
before-change p q [] i e = refl
before-change p q (y ∷ xs) i e =
    let apart : y ≢ i = λ s. e (ground (arith, s)) in ground (arith, apart)

pub before-erase_next :
    (p : Option ℕ) (xs : List ℕ) (x i : ℕ)
    → Once xs
    → x ≢ i
    → p ≢ some x
    → before p xs i ≡ some x
    → before p (erase x xs) i ≡ before p xs x
before-erase_next p [] x i once ne np e = ground (arith, e)
before-erase_next p (y ∷ xs) x i once ne np e = elim (ℕ_discrete y i) [
  | yes same ↦ absurd (np (ground (arith, e, same)))
  | no apart ↦ elim (ℕ_discrete x y) [
    | yes mine ↦
        let on : before (some y) xs i ≡ some y = ground (arith, e, apart, mine) in
        ground (arith, mine, before-first p xs i (head-before y xs i (Once-head y xs once) on))
    | no other ↦
        let np' : some y ≢ some x = λ s. ground (arith, s, other) in
        ground (
          arith,
          other,
          apart,
          before-erase_next (some y) xs x i (Once-tail y xs once) ne np' (ground (arith, e, apart)),
        )
  ]
]

pub before-erase_other :
    (p : Option ℕ) (xs : List ℕ) (x i : ℕ)
    → x ≢ i
    → before p xs i ≢ some x
    → before p (erase x xs) i ≡ before p xs i
before-erase_other p [] x i ne e = refl
before-erase_other p (y ∷ xs) x i ne e = elim (ℕ_discrete x y) [
  | yes mine ↦
      let not_head : head xs ≢ some i =
        λ s. e (ground (arith, ne, mine, before-first (some y) xs i s)) in
      ground (arith, mine, ne, before-change p (some y) xs i not_head)
  | no other ↦ elim (ℕ_discrete y i) [
    | yes same ↦ ground (arith, other, same)
    | no apart ↦
        let e' : before (some y) xs i ≢ some x = λ s. e (ground (arith, s, apart)) in
        ground (arith, other, apart, before-erase_other (some y) xs x i ne e')
  ]
]

pub after-erase_previous :
    (xs : List ℕ) (x i : ℕ)
    → Once xs
    → x ≢ i
    → after xs i ≡ some x
    → after (erase x xs) i ≡ after xs x
after-erase_previous [] x i once ne e = ground (arith, e)
after-erase_previous (y ∷ xs) x i once ne e = elim (ℕ_discrete x y) [
  | yes mine ↦
      let member = after-member xs i x (ground (arith, e, mine, ne)) in
      absurd (ground (arith, Once-head y xs once, mine, member))
  | no other ↦ elim (ℕ_discrete y i) [
    | yes same ↦
        let first : head xs ≡ some x = ground (arith, e, same) in
        ground (arith, other, same, head-erase_first xs x (Once-tail y xs once) first)
    | no apart ↦ ground (
      arith,
      other,
      apart,
      after-erase_previous xs x i (Once-tail y xs once) ne (ground (arith, e, apart)),
    )
  ]
]

pub after-erase_other :
    (xs : List ℕ) (x i : ℕ) → x ≢ i → after xs i ≢ some x → after (erase x xs) i ≡ after xs i
after-erase_other [] x i ne e = refl
after-erase_other (y ∷ xs) x i ne e = elim (ℕ_discrete x y) [
  | yes mine ↦ ground (arith, mine, ne)
  | no other ↦ elim (ℕ_discrete y i) [
    | yes same ↦
        let first : head xs ≢ some x = λ s. e (ground (arith, s, same)) in
        ground (arith, other, same, head-erase_other xs x first)
    | no apart ↦
        let e' : after xs i ≢ some x = λ s. e (ground (arith, s, apart)) in
        ground (arith, other, apart, after-erase_other xs x i ne e')
  ]
]

pub last-erase_last :
    (p : Option ℕ) (xs : List ℕ) (x : ℕ)
    → Once xs
    → p ≢ some x
    → last_after p xs ≡ some x
    → last_after p (erase x xs) ≡ before p xs x
last-erase_last p [] x once np e = absurd (np e)
last-erase_last p (y ∷ []) x once np e = ground (arith, e)
last-erase_last p (y ∷ z ∷ xs) x once np e = elim (ℕ_discrete x y) [
  | yes mine ↦ elim (ℕ_discrete z x) [
    | yes again ↦ absurd (ground (arith, Once-head y (z ∷ xs) once, mine, again))
    | no ne ↦
        let member = last-member z xs x e ne in
        absurd (ground (arith, Once-head y (z ∷ xs) once, mine, member))
  ]
  | no other ↦
      let np' : some y ≢ some x = λ s. ground (arith, s, other) in
      let deep = last-erase_last (some y) (z ∷ xs) x (Once-tail y (z ∷ xs) once) np' e in
      ground (arith, other, deep)
]

pub last-erase_other :
    (p : Option ℕ) (xs : List ℕ) (x : ℕ)
    → last_after p xs ≢ some x
    → last_after p (erase x xs) ≡ last_after p xs
last-erase_other p [] x e = refl
last-erase_other p (y ∷ []) x e =
    let apart : x ≢ y = λ s. e (ground (arith, s)) in ground (arith, apart)
last-erase_other p (y ∷ z ∷ xs) x e = elim (ℕ_discrete x y) [
  | yes mine ↦ ground (arith, mine)
  | no other ↦ ground (arith, other, last-erase_other (some y) (z ∷ xs) x e)
]
