-- ===== src/Interests/Counts.antt =====
-- src/pool/miss.rs: the waiters of a slot, counted by the capabilities that name it.
use dios.Common.{
  ℕ, suc, ◌+◌, ◌≡◌, ◌≢◌, ◌<◌, if◌then◌else◌, ◌&&◌, ◌⊎◌, inl, inr, ap, refl, ◌==◌, some, List, [],
  ◌∷◌, ◌++◌, length, get_elem?, set, arith, sym, subst, ◌∙◌, ℕ_discrete, lt_of_get_elem?,
  get_elem?-set_self, get_elem?-set_ne,
}
use dios.Interests.{MissInterest, MissInterests}

-- A waiter's capability: the slot and the generation that it waits for.
abbrev pub Capability : Type 0
Capability = ℕ × ℕ

-- How many capabilities name the slot.
abbrev pub holders : ℕ → List Capability → ℕ
holders slot [] = 0
holders slot (c ∷ held) = if c.0 == slot then suc (holders slot held) else holders slot held

-- How many of the capabilities are the given one.
abbrev pub copies : Capability → List Capability → ℕ
copies c [] = 0
copies c (d ∷ held) = if (d.0 == c.0) && (d.1 == c.1) then suc (copies c held) else copies c held

-- A capability is among those held, or no copy of it is.
pub copies-cases :
    (slot generation : ℕ) (held : List Capability)
    → ((earlier later : List Capability) × (held ≡ earlier ++ (slot, generation) ∷ later))
      ⊎ (copies (slot, generation) held ≡ 0)
copies-cases slot generation [] = inr refl
copies-cases slot generation (d ∷ held) = elim (copies-cases slot generation held) [
  | inl (earlier, later, parts) ↦ inl (d ∷ earlier, later, ap (λ rest. d ∷ rest) parts)
  | inr none_later ↦ elim (ℕ_discrete d.0 slot) [
    | yes same ↦ elim (ℕ_discrete d.1 generation) [
      | yes too ↦ inl (
        [],
        held,
        subst (λ s. d ∷ held ≡ (s, generation) ∷ held) same
            (subst (λ g. d ∷ held ≡ (d.0, g) ∷ held) too refl),
      )
      | no ne ↦ inr (ground (arith, ne, none_later))
    ]
    | no ne ↦ inr (ground (arith, ne, none_later))
  ]
]

pub holders-append :
    (slot : ℕ) (xs ys : List Capability)
    → holders slot (xs ++ ys) ≡ holders slot xs + holders slot ys
holders-append slot [] ys = omega arith
holders-append slot (c ∷ xs) ys = ground (arith, holders-append slot xs ys)

-- The slot of a capability has the capability's generation.
abbrev pub IsCurrent : MissInterests → Capability → Type 0
IsCurrent interests c =
    (i : MissInterest) × (get_elem? interests c.0 ≡ some i) × (i.generation ≡ c.1)

abbrev pub AllCurrent : MissInterests → List Capability → Type 0
AllCurrent interests [] = Unit {0}
AllCurrent interests (c ∷ held) = IsCurrent interests c × AllCurrent interests held

-- A slot whose current capability nobody holds has no holder.
pub holders-unheld :
    (interests : MissInterests) (slot : ℕ) (i : MissInterest) (held : List Capability)
    → get_elem? interests slot ≡ some i
    → copies (slot, i.generation) held ≡ 0
    → AllCurrent interests held
    → holders slot held ≡ 0
holders-unheld interests slot i [] at unheld all = refl
holders-unheld interests slot i (c ∷ held) at unheld ((k, here, generation), all) =
    elim (ℕ_discrete c.0 slot) [
      | yes same ↦
          let mine : some k ≡ some i =
            sym here ∙ subst (λ s. get_elem? interests s ≡ some i) (sym same) at in
          absurd (ground (arith, mine, same, generation, unheld))
      | no ne ↦
          ground
            (arith, ne, holders-unheld interests slot i held at (ground (arith, ne, unheld)) all)
    ]

pub record IsCounted (interests : MissInterests) (held : List Capability) : Type 0 where
  pub counts :
      (slot : ℕ) (i : MissInterest)
      → get_elem? interests slot ≡ some i
      → i.waiters ≡ holders slot held
  pub current : AllCurrent interests held

-- A write that keeps the slot's generation keeps every capability current.
pub kept_current :
    (interests : MissInterests) (slot : ℕ) (i j : MissInterest) (held : List Capability)
    → get_elem? interests slot ≡ some i
    → j.generation ≡ i.generation
    → AllCurrent interests held
    → AllCurrent (set interests slot j) held
kept_current interests slot i j [] at same all = tt
kept_current interests slot i j (c ∷ held) at same ((k, here, generation), all) = (
  elim (ℕ_discrete slot c.0) [
    | yes here_too ↦ (
      j,
      subst (λ s. get_elem? (set interests slot j) s ≡ some j) here_too
          (get_elem?-set_self interests slot j (lt_of_get_elem? interests slot at)),
      ground (arith, at, here, here_too, same, generation),
    )
    | no ne ↦ (k, get_elem?-set_ne interests slot c.0 j ne ∙ here, generation)
  ],
  kept_current interests slot i j held at same all,
)

-- So does any write to a slot that no capability names.
pub unheld_current :
    (interests : MissInterests) (slot : ℕ) (j : MissInterest) (held : List Capability)
    → holders slot held ≡ 0
    → AllCurrent interests held
    → AllCurrent (set interests slot j) held
unheld_current interests slot j [] none_held all = tt
unheld_current interests slot j (c ∷ held) none_held ((k, here, generation), all) = (
  (
    k,
    get_elem?-set_ne interests slot c.0 j (λ same. ground (arith, none_held, same)) ∙ here,
    generation,
  ),
  unheld_current interests slot j held (ground (arith, none_held)) all,
)

pub AllCurrent-drop :
    (interests : MissInterests) (xs ys : List Capability) (c : Capability)
    → AllCurrent interests (xs ++ c ∷ ys)
    → IsCurrent interests c × AllCurrent interests (xs ++ ys)
AllCurrent-drop interests [] ys c all = all
AllCurrent-drop interests (x ∷ xs) ys c (here, all) =
    let (mine, rest) = AllCurrent-drop interests xs ys c all in (mine, (here, rest))

-- A write of the right count keeps the counts.
pub counted_write :
    (interests : MissInterests) (slot : ℕ) (j : MissInterest) (held held' : List Capability)
    → slot < length interests
    → ((s : ℕ) (i : MissInterest) → get_elem? interests s ≡ some i → i.waiters ≡ holders s held)
    → j.waiters ≡ holders slot held'
    → ((s : ℕ) → s ≢ slot → holders s held' ≡ holders s held)
    → (s : ℕ) (i : MissInterest) → get_elem? (set interests slot j) s ≡ some i
    → i.waiters ≡ holders s held'
counted_write interests slot j held held' inside counts mine others s i at =
    elim (ℕ_discrete slot s) [
      | yes same ↦
          let here =
            subst (λ t. get_elem? (set interests slot j) t ≡ some j) same
              (get_elem?-set_self interests slot j inside) in
          subst (λ t. i.waiters ≡ holders t held') same (ground (arith, here, at, mine))
      | no ne ↦
          let old = sym (get_elem?-set_ne interests slot s j ne) ∙ at in
          counts s i old ∙ sym (others s (λ e. ne (sym e)))
    ]
