-- ===== src/Epoch/Queue.antt =====
-- src/pool/epoch.rs, `EvictQueue::drain_matured`: which frames a pass processes.
use dios.Common.{
  ℕ, ◌+◌, ◌≡◌, ◌≤◌, ◌<◌, inl, inr, if◌then◌else◌, ltb, List, [], ◌∷◌, ◌++◌, refl, arith, u64_max,
  Bool-cases, append-nil, append_assoc,
}
use dios.Epoch.{FrameOutcome, freed_count, drain_matured, saturating_add}

-- Tags enter in non-decreasing order, and are epochs that the counter has had.
abbrev pub IsSorted : ℕ → List (ℕ × ℕ) → Type 0
IsSorted least [] = Unit
IsSorted least ((f, tag) ∷ rest) = (least ≤ tag) × IsSorted tag rest

-- The entries that have aged two epochs, and the others.
abbrev pub matured : ℕ → List (ℕ × ℕ) → List (ℕ × ℕ)
matured epoch [] = []
matured epoch ((f, tag) ∷ rest) =
    if ltb epoch (tag + 2) then matured epoch rest else (f, tag) ∷ matured epoch rest

abbrev pub young : ℕ → List (ℕ × ℕ) → List (ℕ × ℕ)
young epoch [] = []
young epoch ((f, tag) ∷ rest) =
    if ltb epoch (tag + 2) then (f, tag) ∷ young epoch rest else young epoch rest

-- A closure that records what it is given.
abbrev pub logging : (ℕ → ℕ → FrameOutcome) → ℕ → ℕ → List (ℕ × ℕ) → FrameOutcome × List (ℕ × ℕ)
logging outcome f tag log = (outcome f tag, log ++ ((f, tag) ∷ []))

abbrev pub count_freed : (ℕ → ℕ → FrameOutcome) → List (ℕ × ℕ) → ℕ
count_freed outcome [] = 0
count_freed outcome ((f, tag) ∷ rest) = freed_count (outcome f tag) + count_freed outcome rest

later_young :
    (epoch least : ℕ) (queue : List (ℕ × ℕ))
    → IsSorted least queue
    → epoch < least + 2
    → (matured epoch queue ≡ []) × (young epoch queue ≡ queue)
later_young epoch least [] s h = (refl, refl)
later_young epoch least ((f, tag) ∷ rest) s h = ground (arith, later_young epoch tag rest s.1)

saturates :
    (epoch tag : ℕ)
    → epoch < u64_max
    → ltb epoch (saturating_add u64_max tag 2) ≡ ltb epoch (tag + 2)
saturates epoch tag h = ground arith

-- On a queue with tags in non-decreasing order, one pass gives the closure exactly the entries that
-- have aged two epochs, in queue order, leaves exactly the others in their order, and counts
-- those that the closure freed.
pub drain_matured_lem :
    (outcome : ℕ → ℕ → FrameOutcome) (epoch least : ℕ) (queue log : List (ℕ × ℕ))
    → epoch < u64_max
    → IsSorted least queue
    → drain_matured (logging outcome) epoch queue log
      ≡ (young epoch queue, log ++ matured epoch queue, count_freed outcome (matured epoch queue))
unfolding drain_matured
drain_matured_lem outcome epoch least [] log h s = rw append-nil
drain_matured_lem outcome epoch least ((f, tag) ∷ rest) log h s =
    elim (Bool-cases (ltb epoch (tag + 2))) [
      | inl keep ↦
          rw (saturates epoch tag h, keep)
            (ground (arith, later_young epoch tag rest s.1, append-nil log))
      | inr drop ↦
          rw (saturates epoch tag h, drop)
            (rw (drain_matured_lem outcome epoch tag rest (log ++ ((f, tag) ∷ [])) h s.1)
              (ground (arith, append_assoc log ((f, tag) ∷ []) (matured epoch rest))))
    ]
