-- ===== src/IndexQueue/Order.antt =====
-- src/pool/prefetch/state.rs: the neighbours of a member in a list, as `IndexQueue` links them.
use dios.Common.{
  ℕ, suc, ◌≡◌, ◌≢◌, ◌≤◌, ◌<◌, if◌then◌else◌, ◌==◌, Option, none, some, List, [], ◌∷◌, ◌++◌, arith,
  refl, ℕ_discrete,
}
use dios.Common.Count.{count}

abbrev pub head : List ℕ → Option ℕ
head [] = none
head (x ∷ xs) = some x

-- The last of the list, after `p`.
abbrev pub last_after : Option ℕ → List ℕ → Option ℕ
last_after p [] = p
last_after p (x ∷ xs) = last_after (some x) xs

-- What stands before `i` in a list that follows `p`, and what stands after it.
abbrev pub before : Option ℕ → List ℕ → ℕ → Option ℕ
before p [] i = none
before p (x ∷ xs) i = if x == i then p else before (some x) xs i

abbrev pub after : List ℕ → ℕ → Option ℕ
after [] i = none
after (x ∷ xs) i = if x == i then head xs else after xs i

-- Each element once.
abbrev pub Once : List ℕ → Type 0
Once xs = (i : ℕ) → count i xs ≤ 1

pub Once-tail : (x : ℕ) (xs : List ℕ) → Once (x ∷ xs) → Once xs
Once-tail x xs once i = ground (arith, once i)

pub Once-head : (x : ℕ) (xs : List ℕ) → Once (x ∷ xs) → count x xs ≡ 0
Once-head x xs once = ground (arith, once x)

pub before-absent : (p : Option ℕ) (xs : List ℕ) (i : ℕ) → count i xs ≡ 0 → before p xs i ≡ none
before-absent p [] i e = refl
before-absent p (x ∷ xs) i e = ground (arith, before-absent (some x) xs i (ground (arith, e)))

pub after-absent : (xs : List ℕ) (i : ℕ) → count i xs ≡ 0 → after xs i ≡ none
after-absent [] i e = refl
after-absent (x ∷ xs) i e = ground (arith, after-absent xs i (ground (arith, e)))

-- An append at the end.
pub before-push :
    (p : Option ℕ) (xs : List ℕ) (x i : ℕ)
    → count x xs ≡ 0
    → before p (xs ++ x ∷ []) i ≡ (if x == i then last_after p xs else before p xs i)
before-push p [] x i e = refl
before-push p (y ∷ xs) x i e = ground (arith, e, before-push (some y) xs x i (ground (arith, e)))

pub last_after-push : (p : Option ℕ) (xs : List ℕ) (x : ℕ) → last_after p (xs ++ x ∷ []) ≡ some x
last_after-push p [] x = refl
last_after-push p (y ∷ xs) x = last_after-push (some y) xs x

-- A neighbour is a member.
pub last-member :
    (y : ℕ) (xs : List ℕ) (i : ℕ) → last_after (some y) xs ≡ some i → y ≢ i → 0 < count i xs
last-member y [] i e ne = ground (arith, e, ne)
last-member y (x ∷ xs) i e ne = elim (ℕ_discrete x i) [
  | yes same ↦ ground (arith, same)
  | no apart ↦ ground (arith, last-member x xs i e apart)
]

pub after-member : (xs : List ℕ) (i x : ℕ) → after xs i ≡ some x → 0 < count x xs
after-member [] i x e = ground (arith, e)
after-member (y ∷ []) i x e = ground (arith, e)
after-member (y ∷ z ∷ xs) i x e = ground (arith, e, after-member (z ∷ xs) i x)

pub before-member :
    (p : Option ℕ) (xs : List ℕ) (i a : ℕ) → before p xs i ≡ some a → p ≢ some a → 0 < count a xs
before-member p [] i a e ne = ground (arith, e)
before-member p (y ∷ xs) i a e ne = elim (ℕ_discrete y i) [
  | yes same ↦ absurd (ne (ground (arith, e, same)))
  | no apart ↦ elim (ℕ_discrete y a) [
    | yes here ↦ ground (arith, here)
    | no there ↦ ground (
      arith,
      before-member (some y) xs i a (ground (arith, e, apart)) (λ s. ground (arith, s, there)),
    )
  ]
]

-- Before and after are inverse.
pub before-after :
    (p : Option ℕ) (xs : List ℕ) (i x : ℕ) → Once xs → after xs i ≡ some x → before p xs x ≡ some i
before-after p [] i x once e = ground (arith, e)
before-after p (y ∷ []) i x once e = ground (arith, e)
before-after p (y ∷ z ∷ xs) i x once e = elim (ℕ_discrete y i) [
  | yes same ↦ ground (arith, e, same, Once-head y (z ∷ xs) once)
  | no apart ↦
      let on : after (z ∷ xs) i ≡ some x = ground (arith, e, apart) in
      let deep = before-after (some y) (z ∷ xs) i x (Once-tail y (z ∷ xs) once) on in
      let member = after-member (z ∷ xs) i x on in
      let y_x : y ≢ x = λ s. ground (arith, Once-head y (z ∷ xs) once, member, s) in
      ground (arith, y_x, deep)
]

pub head-before :
    (y : ℕ) (xs : List ℕ) (x : ℕ)
    → count y xs ≡ 0
    → before (some y) xs x ≡ some y
    → head xs ≡ some x
head-before y [] x e b = ground (arith, b)
head-before y (z ∷ zs) x e b = elim (ℕ_discrete z x) [
  | yes same ↦ ground (arith, same)
  | no apart ↦
      let z_y : z ≢ y = λ s. ground (arith, e, s) in
      let member =
        before-member (some z) zs x y (ground (arith, b, apart)) (λ s. ground (arith, s, z_y)) in
      absurd (ground (arith, e, member))
]

pub after-before :
    (p : Option ℕ) (xs : List ℕ) (x a : ℕ)
    → Once xs
    → before p xs x ≡ some a
    → p ≢ some a
    → after xs a ≡ some x
after-before p [] x a once e ne = ground (arith, e)
after-before p (y ∷ xs) x a once e ne = elim (ℕ_discrete y x) [
  | yes same ↦ absurd (ne (ground (arith, e, same)))
  | no apart ↦
      let on : before (some y) xs x ≡ some a = ground (arith, e, apart) in
      elim (ℕ_discrete y a) [
        | yes here ↦
            ground
              (arith, here, head-before y xs x (Once-head y xs once) (ground (arith, on, here)))
        | no there ↦ ground (
          arith,
          there,
          after-before (some y) xs x a (Once-tail y xs once) on (λ s. ground (arith, s, there)),
        )
      ]
]

-- An append at the end, seen from the members.
pub after-push_last :
    (y : ℕ) (xs : List ℕ) (x i : ℕ)
    → Once (y ∷ xs)
    → last_after (some y) xs ≡ some i
    → after (y ∷ xs ++ x ∷ []) i ≡ some x
after-push_last y [] x i once e = ground (arith, e)
after-push_last y (z ∷ xs) x i once e = elim (ℕ_discrete y i) [
  | no apart ↦ ground (arith, apart, after-push_last z xs x i (Once-tail y (z ∷ xs) once) e)
  | yes same ↦ elim (ℕ_discrete z i) [
    | yes too ↦ absurd (ground (arith, Once-head y (z ∷ xs) once, same, too))
    | no ne ↦ absurd (ground (arith, Once-head y (z ∷ xs) once, same, last-member z xs i e ne))
  ]
]

pub after-push_inner :
    (y : ℕ) (xs : List ℕ) (x i : ℕ)
    → x ≢ i
    → last_after (some y) xs ≢ some i
    → after (y ∷ xs ++ x ∷ []) i ≡ after (y ∷ xs) i
after-push_inner y [] x i ne e =
    let apart : y ≢ i = λ s. e (ground (arith, s)) in ground (arith, ne, apart)
after-push_inner y (z ∷ xs) x i ne e = ground (arith, after-push_inner z xs x i ne e)

pub before-first : (p : Option ℕ) (xs : List ℕ) (i : ℕ) → head xs ≡ some i → before p xs i ≡ p
before-first p [] i e = ground (arith, e)
before-first p (y ∷ xs) i e = ground (arith, e)

-- The first member is the one with nothing before it.
pub head-none : (xs : List ℕ) (x : ℕ) → 0 < count x xs → before none xs x ≡ none → head xs ≡ some x
head-none [] x member e = absurd (omega arith)
head-none (y ∷ xs) x member e = elim (ℕ_discrete y x) [
  | yes same ↦ ground (arith, same)
  | no apart ↦
      let deep : 0 < count x xs = ground (arith, apart, member) in
      absurd (ground (arith, apart, e, before-some y xs x deep))
]
  where
    before-some :
        (y : ℕ) (xs : List ℕ) (x : ℕ) → 0 < count x xs → (a : ℕ) × (before (some y) xs x ≡ some a)
    before-some y [] x member = absurd (omega arith)
    before-some y (z ∷ xs) x member = elim (ℕ_discrete z x) [
      | yes same ↦ (y, ground (arith, same))
      | no apart ↦
          let (a, at) = before-some z xs x (ground (arith, apart, member)) in
          (a, ground (arith, apart, at))
    ]

-- The last member is the one with nothing after it.
pub last-none :
    (p : Option ℕ) (xs : List ℕ) (x : ℕ)
    → 0 < count x xs
    → after xs x ≡ none
    → last_after p xs ≡ some x
last-none p [] x member e = absurd (omega arith)
last-none p (y ∷ []) x member e = ground (arith, member)
last-none p (y ∷ z ∷ xs) x member e = elim (ℕ_discrete y x) [
  | yes same ↦ absurd (ground (arith, e, same))
  | no apart ↦
      last-none (some y) (z ∷ xs) x (ground (arith, apart, member)) (ground (arith, apart, e))
]

pub after-last :
    (p : Option ℕ) (xs : List ℕ) (x : ℕ)
    → Once xs
    → p ≢ some x
    → last_after p xs ≡ some x
    → after xs x ≡ none
after-last p [] x once np e = absurd (np e)
after-last p (y ∷ []) x once np e = ground arith
after-last p (y ∷ z ∷ xs) x once np e = elim (ℕ_discrete y x) [
  | yes same ↦ elim (ℕ_discrete z x) [
    | yes again ↦ absurd (ground (arith, Once-head y (z ∷ xs) once, same, again))
    | no ne ↦
        let member = last-member z xs x e ne in
        absurd (ground (arith, Once-head y (z ∷ xs) once, same, member))
  ]
  | no apart ↦
      let np' : some y ≢ some x = λ s. ground (arith, s, apart) in
      ground (arith, apart, after-last (some y) (z ∷ xs) x (Once-tail y (z ∷ xs) once) np' e)
]

-- No member comes after itself, and nothing comes before the first.
pub after_self : (xs : List ℕ) (x : ℕ) → Once xs → after xs x ≢ some x
after_self [] x once e = ground (arith, e)
after_self (y ∷ xs) x once e = elim (ℕ_discrete y x) [
  | yes same ↦ ground (arith, e, same, not_first xs x (Once-head y xs once))
  | no apart ↦ after_self xs x (Once-tail y xs once) (ground (arith, e, apart))
]
  where
    not_first : (xs : List ℕ) (x : ℕ) → count y xs ≡ 0 → head xs ≡ some x → y ≢ x
    not_first [] x none_of_it e same = ground (arith, e)
    not_first (z ∷ xs) x none_of_it e same = ground (arith, e, same, none_of_it)

pub count-push :
    (i : ℕ) (xs : List ℕ) (x : ℕ)
    → count i (xs ++ x ∷ []) ≡ (if i == x then suc (count i xs) else count i xs)
count-push i [] x = refl
count-push i (y ∷ xs) x = ground (arith, count-push i xs x)

pub last_after-some : (y : ℕ) (xs : List ℕ) → (l : ℕ) × (last_after (some y) xs ≡ some l)
last_after-some y [] = (y, refl)
last_after-some y (z ∷ xs) = last_after-some z xs
