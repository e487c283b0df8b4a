-- ===== src/Driver/Slab.antt =====
-- src/driver.rs: the completion slab that holds the operations in flight, and the tokens that name
-- them. A method on `&mut self` returns the slab after it.
pub mod Effects
pub mod Tokens
pub mod Places
use dios.Common.{
  ℕ, zero, suc, ◌+◌, ◌*◌, ◌%◌, ◌^◌, Bool, true, false, ◌&&◌, if◌then◌else◌, ◌==◌, ltb, Option, none,
  some, List, [], ◌∷◌, get_elem?, set, replicate, Checked, ok, assert, expect, u32_max, ◌>>=◌, ◌>>◌,
}

-- `OpToken::new`: `(generation << 32) | slot`, of two `u32` words.
unfoldable pub new_token : ℕ → ℕ → ℕ
new_token slot generation = generation * 2 ^ 32 + slot

-- `OpToken::slot`, the low word.
unfoldable pub token_slot : ℕ → ℕ
token_slot token = token % 2 ^ 32

abbrev pub is_some {ℓ} : {A : Type ℓ} → Option A → Bool
is_some none = false
is_some (some _) = true

abbrev pub is_none {ℓ} : {A : Type ℓ} → Option A → Bool
is_none none = true
is_none (some _) = false

pub record SlabSlot (T : Type 0) : Type 0 where
  pub generation : ℕ
  pub payload : Option T

-- The end of the vector `free` is the head of the list.
pub record CompletionSlab (T : Type 0) : Type 0 where
  pub slots : List (SlabSlot T)
  pub free : List ℕ

-- The slots from `first` on, as the loop over `(0..capacity).rev()` leaves them.
abbrev pub free_from : ℕ → ℕ → List ℕ
free_from first zero = []
free_from first (suc n) = first ∷ free_from (suc first) n

module _ {T : Type 0} where
  abbrev pub empty_slot : SlabSlot T
  empty_slot = record { generation = 0; payload = none }

  unfoldable pub with_capacity : ℕ → CompletionSlab T
  with_capacity capacity = record {
    slots = replicate capacity empty_slot;
    free = free_from 0 capacity;
  }

  unfoldable pub contains : CompletionSlab T → ℕ → Checked Bool
  unfolding new_token token_slot
  contains slab token = do
    entry ← expect (get_elem? slab.slots (token_slot token))
    ok (is_some entry.payload && new_token (token_slot token) entry.generation == token)

  unfoldable pub token : CompletionSlab T → ℕ → Checked ℕ
  unfolding new_token
  token slab slot = do
    entry ← expect (get_elem? slab.slots slot)
    ok (new_token slot entry.generation)

  unfoldable pub reserve : CompletionSlab T → Option ℕ × CompletionSlab T
  reserve slab = elim slab.free [
    | [] ↦ (none, slab)
    | slot ∷ rest ↦ (some slot, record slab { free = rest })
  ]

  unfoldable pub fill : CompletionSlab T → ℕ → T → Checked (ℕ × CompletionSlab T)
  unfolding new_token
  fill slab slot payload = do
    entry ← expect (get_elem? slab.slots slot)
    assert (is_none entry.payload)
    assert (ltb entry.generation u32_max)
    let filled : SlabSlot T = record { generation = entry.generation + 1; payload = some payload }
    ok (new_token slot (entry.generation + 1), record slab { slots = set slab.slots slot filled })

  unfoldable pub peek : CompletionSlab T → ℕ → Checked T
  peek slab slot = do entry ← expect (get_elem? slab.slots slot); expect entry.payload

  -- The write of a new payload through the reference that `peek_mut` gives.
  unfoldable pub poke : CompletionSlab T → ℕ → (T → T) → Checked (CompletionSlab T)
  poke slab slot change = do
    entry ← expect (get_elem? slab.slots slot)
    payload ← expect entry.payload
    ok (record slab {
      slots = set slab.slots slot (record entry { payload = some (change payload) });
    })

  unfoldable pub reclaim : CompletionSlab T → ℕ → Checked ((ℕ × T) × CompletionSlab T)
  unfolding new_token
  reclaim slab slot = do
    entry ← expect (get_elem? slab.slots slot)
    payload ← expect entry.payload
    ok (
      (new_token slot entry.generation, payload),
      record slab {
        slots = set slab.slots slot (record entry { payload = none });
        free = slot ∷ slab.free;
      },
    )
