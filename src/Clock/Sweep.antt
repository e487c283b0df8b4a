-- ===== src/Clock/Sweep.antt =====
-- src/pool/clock.rs, the sweep's loop: which bits it clears and where it stops.
use dios.Common.{
  ℕ, zero, suc, ◌+◌, ◌%◌, ◌≡◌, ◌≤◌, ◌<◌, ◌⊎◌, inl, inr, Bool, true, false, some, List, length,
  get_elem?, set, ok, arith, refl, get_elem?-set_self, get_elem?-set_ne, length-set, ◌∙◌, sym,
  ℕ_discrete, dec_lt, get_elem?_lt, ap, subst, Bool-cases,
}
use dios.Common.Cyclic.{add-mod_ne, add-mod_lt, add-mod_suc}
use native.Mathlib.Nat.{add-mod_right}
use dios.Clock.{sweep}

-- The bits with the `k` slots from `h` on cleared.
abbrev pub clear_run : List Bool → ℕ → ℕ → List Bool
clear_run bits h zero = bits
clear_run bits h (suc k) = set (clear_run bits h k) ((h + k) % length bits) false

length-clear_run : (bits : List Bool) (h k : ℕ) → length (clear_run bits h k) ≡ length bits
length-clear_run bits h zero = refl
length-clear_run bits h (suc k) =
    length-set (clear_run bits h k) ((h + k) % length bits) false ∙ length-clear_run bits h k

-- A slot that the run has not reached keeps its bit.
clear_run_beyond :
    (bits : List Bool) (h k m : ℕ)
    → h < length bits
    → k ≤ m
    → m < length bits
    → get_elem? (clear_run bits h k) ((h + m) % length bits)
      ≡ get_elem? bits ((h + m) % length bits)
clear_run_beyond bits h zero m p q r = refl
clear_run_beyond bits h (suc k) m p q r =
    get_elem?-set_ne (clear_run bits h k) ((h + k) % length bits) ((h + m) % length bits) false
      (add-mod_ne h k m (length bits) p (omega arith) r (omega arith))
    ∙ clear_run_beyond bits h k m p (omega arith) r

-- A slot that the run has passed has a clear bit.
pub clear_run_within :
    (bits : List Bool) (h k j : ℕ)
    → h < length bits
    → k ≤ length bits
    → j < k
    → get_elem? (clear_run bits h k) ((h + j) % length bits) ≡ some false
clear_run_within bits h zero j p q r = absurd (omega arith)
clear_run_within bits h (suc k) j p q r = elim (ℕ_discrete j k) [
  | yes e ↦ rw e (
      get_elem?-set_self (clear_run bits h k) ((h + k) % length bits) false (
        subst (λ n. (h + k) % length bits < n) (sym (length-clear_run bits h k))
          (add-mod_lt h k (length bits) p (omega arith))))
  | no ne ↦
      get_elem?-set_ne (clear_run bits h k) ((h + k) % length bits) ((h + j) % length bits) false
        (add-mod_ne h k j (length bits) p (omega arith) (omega arith) (omega arith))
      ∙ clear_run_within bits h k j p (omega arith) (omega arith)
]

-- Where a sweep over `bits` from `h` stops: it passed `d` referenced frames, and the next one is
-- clear or the sweep has gone round.
pub record Stop (bits : List Bool) (h : ℕ) : Type 0 where
  pub d : ℕ
  pub within : d ≤ length bits
  pub passed : (j : ℕ) → j < d → get_elem? bits ((h + j) % length bits) ≡ some true
  pub stopped : d < length bits → get_elem? bits ((h + d) % length bits) ≡ some false

abbrev pub victim_at : (bits : List Bool) (h : ℕ) → ℕ → ℕ
victim_at bits h d = (h + d) % length bits

module _ (bits : List Bool) (h : ℕ) (inside : h < length bits) where
  abbrev Result : (s : Stop bits h) → ℕ → ℕ → Type 0
  Result s fuel k =
      sweep fuel (clear_run bits h k) (victim_at bits h k) (length bits)
      ≡ ok (clear_run bits h s.d, victim_at bits h s.d, (victim_at bits h s.d + 1) % length bits)

  -- The bit that the hand meets after `k` slots.
  met :
      (k : ℕ)
      → k ≤ length bits
      → ((k < length bits)
          × (get_elem? (clear_run bits h k) (victim_at bits h k)
              ≡ get_elem? bits (victim_at bits h k)))
        ⊎ ((k ≡ length bits) × (get_elem? (clear_run bits h k) (victim_at bits h k) ≡ some false))
  met k q = elim (dec_lt k (length bits)) [
    | yes lt ↦ inl (lt, clear_run_beyond bits h k k inside (omega arith) lt)
    | no ge ↦
        let full : k ≡ length bits = omega arith in
        let home : victim_at bits h k ≡ (h + 0) % length bits =
          rw full (add-mod_right h (length bits) ∙ ap (λ n. n % length bits) (omega arith)) in
        inr (full, rw home (clear_run_within bits h k 0 inside q (omega arith)))
  ]

  extended :
      (k : ℕ)
      → ((j : ℕ) → j < k → get_elem? bits (victim_at bits h j) ≡ some true)
      → get_elem? bits (victim_at bits h k) ≡ some true
      → (j : ℕ) → j < suc k
      → get_elem? bits (victim_at bits h j) ≡ some true
  extended k so_far at j p = elim (ℕ_discrete j k) [
    | yes e ↦ rw e at
    | no ne ↦ so_far j (omega arith)
  ]

  -- A round at a referenced slot is the rest of the sweep from the next slot on.
  onward :
      (fuel k : ℕ)
      → get_elem? (clear_run bits h k) (victim_at bits h k) ≡ some true
      → (s : Stop bits h) × Result s fuel (suc k)
      → (s : Stop bits h) × Result s (suc fuel) k
  unfolding sweep
  onward fuel k set_bit (s, r) = (s, rw (set_bit, add-mod_suc h k (length bits)) r)

  -- With rounds left for the slots not yet passed and one more, the loop reaches its stop.
  pub sweeps :
      (fuel k : ℕ)
      → k ≤ length bits
      → fuel + k ≡ suc (length bits)
      → ((j : ℕ) → j < k → get_elem? bits (victim_at bits h j) ≡ some true)
      → (s : Stop bits h) × Result s fuel k
  unfolding sweep
  sweeps zero k q f so_far = absurd (omega arith)
  sweeps (suc fuel) k q f so_far = elim (met k q) [
    | inr (full, clear) ↦ (
      record { d = k; within = q; passed = so_far; stopped = λ lt. absurd (omega arith) },
      rw clear refl,
    )
    | inl (lt, kept) ↦
        let (bit, at) =
          get_elem?_lt bits (victim_at bits h k) (add-mod_lt h k (length bits) inside lt) in
        elim (Bool-cases bit) [
          | inl e ↦
              let is_set = at ∙ ap some e in
              onward fuel k (kept ∙ is_set)
                (sweeps fuel (suc k) (omega arith) (omega arith) (extended k so_far is_set))
          | inr e ↦
              let is_clear = at ∙ ap some e in
              (
                record { d = k; within = q; passed = so_far; stopped = λ _. is_clear },
                rw (kept ∙ is_clear) refl,
              )
        ]
  ]
