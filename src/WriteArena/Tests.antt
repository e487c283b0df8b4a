-- ===== src/WriteArena/Tests.antt =====
-- src/pool/write_arena.rs, at an arena of three slots.
use dios.Common.{ℕ, ◌≡◌, ◌<◌, ◌⊎◌, some, none, [], ◌∷◌, length, get_elem?, ok, true, false}
use dios.WriteArena.{ArenaState, alloc_within, release_slot, alloc_within_lem}

abbrev one_leased : ArenaState
one_leased = record { free = false ∷ true ∷ true ∷ []; granule = 4096; owner = 1 }

alloc_within_lem_example :
    ((k : ℕ) × (taken : ArenaState) × (alloc_within one_leased 2 ≡ (some k, taken))
      × (k < 2)
      × (get_elem? one_leased.free k ≡ some true)
      × ((j : ℕ) → j < k → get_elem? one_leased.free j ≡ some false)
      × (release_slot taken k ≡ ok one_leased))
    ⊎ ((alloc_within one_leased 2 ≡ (none, one_leased))
        × ((j : ℕ) → j < 2 → j < length one_leased.free → get_elem? one_leased.free j ≡ some false))
alloc_within_lem_example = alloc_within_lem one_leased 2
