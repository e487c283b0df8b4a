-- ===== src/Ids.antt =====
-- src/driver.rs and src/pool/mod.rs: the identities that the components pass to one another.
use dios.Common.{Checked, ok, assert, ◌>>◌, ℕ, ◌≡◌, Bool, ◌&&◌, ◌==◌, ◌↔◌, arith}

-- A file of a driver: its slot in the file table, and the generation of that slot.
pub record FileId : Type 0 where
  pub driver : ℕ
  pub slot : ℕ
  pub generation : ℕ

-- A granule of a file.
pub record PageId : Type 0 where
  pub file : FileId
  pub granule_idx : ℕ

abbrev pub file_eq : FileId → FileId → Bool
file_eq a b = a.driver == b.driver && (a.slot == b.slot && a.generation == b.generation)

-- Whether two identities of one driver name the same slot; of two drivers, a panic.
unfoldable pub aliases_slot : FileId → FileId → Checked Bool
aliases_slot a b = assert (a.driver == b.driver) >> ok (a.slot == b.slot)

abbrev pub page_eq : PageId → PageId → Bool
page_eq a b = file_eq a.file b.file && a.granule_idx == b.granule_idx

pub file_eq_iff : (a b : FileId) → (file_eq a b ≡ Bool.true) ↔ (a ≡ b)
file_eq_iff a b = ground arith

pub page_eq_iff : (a b : PageId) → (page_eq a b ≡ Bool.true) ↔ (a ≡ b)
page_eq_iff a b = ground (arith, file_eq_iff a.file b.file)
