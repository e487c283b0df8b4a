-- ===== src/Interests.antt =====
-- src/pool/miss.rs: the generations and the waiter counts of the miss slots. Each operation is one
-- step on the slots.
pub mod Counts
pub mod Held
mod Tests
use dios.Common.{
  ℕ, ◌+◌, ◌-◌, Bool, true, false, ◌&&◌, if◌then◌else◌, ◌==◌, Option, none, some, List, get_elem?,
  set, replicate, Checked, ok, assert, expect, checked_add, checked_sub, u32_max, u64_max, ◌>>=◌,
  ◌>>◌,
}

pub record MissInterest : Type 0 where
  pub generation : ℕ
  pub waiters : ℕ

pub data InitialInterest : Type 0 where
  speculative : InitialInterest
  demand : InitialInterest

abbrev pub initial_waiters : InitialInterest → ℕ
initial_waiters speculative = 0
initial_waiters demand = 1

abbrev pub MissInterests : Type 0
MissInterests = List MissInterest

abbrev pub vacant_interests : ℕ → MissInterests
vacant_interests capacity = replicate capacity (record { generation = 0; waiters = 0 })

-- The slot's new generation, and the slots after it.
unfoldable pub begin_initial : MissInterests → ℕ → InitialInterest → Checked (ℕ × MissInterests)
begin_initial interests slot initial = do
  interest ← expect (get_elem? interests slot)
  assert (interest.waiters == 0)
  generation ← expect (checked_add u64_max interest.generation 1)
  ok (
    generation,
    set interests slot (record { generation = generation; waiters = initial_waiters initial }),
  )

unfoldable pub join_interest : MissInterests → ℕ → ℕ → Checked MissInterests
join_interest interests slot generation = do
  interest ← expect (get_elem? interests slot)
  assert (interest.generation == generation)
  waiters ← expect (checked_add u32_max interest.waiters 1)
  ok (set interests slot (record interest { waiters = waiters }))

-- The waiters that are left, and the slots after it.
unfoldable pub release_interest : MissInterests → ℕ → ℕ → Checked (ℕ × MissInterests)
release_interest interests slot generation = do
  interest ← expect (get_elem? interests slot)
  assert (interest.generation == generation)
  waiters ← expect (checked_sub interest.waiters 1)
  ok (waiters, set interests slot (record interest { waiters = waiters }))

unfoldable pub waiters : MissInterests → ℕ → ℕ → Checked (Option ℕ)
waiters interests slot generation = do
  interest ← expect (get_elem? interests slot)
  ok (if interest.generation == generation then some interest.waiters else none)
