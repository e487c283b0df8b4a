-- ===== src/WriteArena.antt =====
-- src/pool/write_arena.rs: the staging slots of the write plane and their leases. A swap of a free bit
-- is one step. The gate that wakes waiters is left out.
mod Tests
use dios.Common.{
  ℕ, zero, suc, ◌+◌, ◌-◌, ◌*◌, ◌≡◌, ◌≤◌, ◌<◌, ◌⊎◌, inl, inr, Bool, true, false, not, ◌||◌,
  if◌then◌else◌, ◌==◌, ltb, leb, Option, none, some, List, [], ◌∷◌, length, get_elem?, set,
  replicate, Checked, ok, panic, assert, expect, ◌>>=◌, ◌>>◌, arith, refl, ap, Bool-cases, set-set,
  get_elem?-set_self, lt_of_get_elem?, Option-cases,
}

pub record ArenaState : Type 0 where
  pub free : List Bool
  pub granule : ℕ
  pub owner : ℕ

-- `is_power_of_two` is the caller's test of the granule.
unfoldable pub preallocated : (ℕ → Bool) → ℕ → ℕ → ℕ → Checked ArenaState
preallocated is_power_of_two slot_count granule owner = do
  assert (ltb 0 slot_count)
  assert (is_power_of_two granule)
  ok (record { free = replicate slot_count true; granule = granule; owner = owner })

-- The loop of `alloc_within` from `index` on: the slot taken, and the bits after it.
unfoldable pub alloc_from : ℕ → ℕ → List Bool → Option ℕ × List Bool
alloc_from limit index [] = (none, [])
alloc_from limit index (cell ∷ cells) =
    let rest = alloc_from limit (suc index) cells in
    if leb limit index
    then (none, cell ∷ cells)
    else if cell
    then (some index, false ∷ cells)
    else (rest.0, false ∷ rest.1)

unfoldable pub alloc_within : ArenaState → ℕ → Option ℕ × ArenaState
unfolding alloc_from
alloc_within a limit =
    let taken = alloc_from limit 0 a.free in (taken.0, record a { free = taken.1 })

unfoldable pub alloc : ArenaState → Option ℕ × ArenaState
unfolding alloc_within
alloc a = alloc_within a (length a.free)

unfoldable pub assert_owner : ArenaState → ℕ → Checked (Unit {0})
assert_owner a owner = assert (a.owner == owner)

-- `region`, as an offset from the arena's base.
unfoldable pub region : ArenaState → ℕ → ℕ → ℕ → Checked ℕ
region a slot source_offset len = do
  assert (ltb slot (length a.free))
  assert (leb source_offset a.granule)
  assert (leb len (a.granule - source_offset))
  assert (leb (slot * a.granule + source_offset + len) (length a.free * a.granule))
  ok (slot * a.granule + source_offset)

unfoldable pub release_slot : ArenaState → ℕ → Checked ArenaState
release_slot a slot = do
  was_free ← expect (get_elem? a.free slot)
  assert (not was_free)
  ok (record a { free = set a.free slot true })

-- What a search for a free slot below `limit` finds from `index` on.
alloc_from_cases :
    (limit index : ℕ) (cells : List Bool)
    → ((k : ℕ) × (alloc_from limit index cells ≡ (some (index + k), set cells k false))
        × (get_elem? cells k ≡ some true)
        × (index + k < limit)
        × ((j : ℕ) → j < k → get_elem? cells j ≡ some false))
      ⊎ ((alloc_from limit index cells ≡ (none, cells))
          × ((j : ℕ) → index + j < limit → j < length cells → get_elem? cells j ≡ some false))
unfolding alloc_from
alloc_from_cases limit index [] = inr (refl, λ j p q. absurd (omega arith))
alloc_from_cases limit index (cell ∷ cells) = elim (Bool-cases (leb limit index)) [
  | inl past ↦ inr (ground (arith, past), λ j p q. absurd (ground (arith, past)))
  | inr below ↦ elim (Bool-cases cell) [
    | inl is_free ↦ inl (
      0,
      ground (arith, below, is_free),
      ground (arith, is_free),
      ground (arith, below),
      λ j p. absurd (omega arith),
    )
    | inr leased ↦ elim (alloc_from_cases limit (suc index) cells) [
      | inl (k, e, at, lt, before) ↦ inl (
        suc k,
        ground (arith, below, leased, e),
        at,
        omega (arith, lt),
        first_leased cell cells k leased before,
      )
      | inr (e, all) ↦
          inr (ground (arith, below, leased, e), all_leased index cell cells leased all)
    ]
  ]
]
  where
    first_leased :
        (cell : Bool) (cells : List Bool) (k : ℕ)
        → cell ≡ false
        → ((j : ℕ) → j < k → get_elem? cells j ≡ some false)
        → (j : ℕ) → j < suc k
        → get_elem? (cell ∷ cells) j ≡ some false
    first_leased cell cells k leased before zero p = ap some leased
    first_leased cell cells k leased before (suc j) p = before j (omega arith)

    all_leased :
        (index : ℕ) (cell : Bool) (cells : List Bool)
        → cell ≡ false
        → ((j : ℕ) → suc index + j < limit → j < length cells → get_elem? cells j ≡ some false)
        → (j : ℕ) → index + j < limit
        → j < suc (length cells)
        → get_elem? (cell ∷ cells) j ≡ some false
    all_leased index cell cells leased all zero p q = ap some leased
    all_leased index cell cells leased all (suc j) p q = all j (omega arith) (omega arith)

set-same :
    (cells : List Bool) (k : ℕ) {b : Bool} → get_elem? cells k ≡ some b → set cells k b ≡ cells
set-same [] k e = refl
set-same (cell ∷ cells) zero e = ground (arith, e)
set-same (cell ∷ cells) (suc k) e = ap (λ rest. cell ∷ rest) (set-same cells k e)

-- A lease is of the first slot that is free below the limit: that slot was free, every slot before
-- it is leased, and giving it back restores the arena. Where there is no lease, every slot below the
-- limit is leased and the arena is as it was.
pub alloc_within_lem :
    (a : ArenaState) (limit : ℕ)
    → ((k : ℕ) × (taken : ArenaState) × (alloc_within a limit ≡ (some k, taken))
        × (k < limit)
        × (get_elem? a.free k ≡ some true)
        × ((j : ℕ) → j < k → get_elem? a.free j ≡ some false)
        × (release_slot taken k ≡ ok a))
      ⊎ ((alloc_within a limit ≡ (none, a))
          × ((j : ℕ) → j < limit → j < length a.free → get_elem? a.free j ≡ some false))
unfolding alloc_within release_slot
alloc_within_lem a limit = elim (alloc_from_cases limit 0 a.free) [
  | inl (k, e, at, lt, before) ↦ inl (
    k,
    record a { free = set a.free k false },
    ground (arith, e),
    omega (arith, lt),
    at,
    before,
    ground (
      arith,
      get_elem?-set_self a.free k false (lt_of_get_elem? a.free k at),
      set-set a.free k false true,
      set-same a.free k at,
    ),
  )
  | inr (e, all) ↦ inr (ground (arith, e), λ j p q. all j (omega arith) q)
]
