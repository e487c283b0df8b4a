-- ===== src/FileSlots/Tests.antt =====
-- src/pool/file_slots.rs, at two slots of one file.
use dios.Common.{ℕ, ◌≡◌, some, none, [], ◌∷◌, ok, refl, get_elem?}
use dios.FileSlots.{FileSlots, insert, remove, for_file_from}
use dios.FileSlots.Links.{for_file_from-insert}

abbrev only_file : ℕ → ℕ
only_file value = 0

abbrev one_member : FileSlots ℕ
one_member = record {
  slots =
      record { previous = 1; next = 1; value = some 7 }
      ∷ record { previous = 0; next = 0; value = none }
      ∷ [];
  heads = 1 ∷ [];
}

abbrev two_members : FileSlots ℕ
two_members = record {
  slots =
      record { previous = 2; next = 1; value = some 7 }
      ∷ record { previous = 2; next = 1; value = some 8 }
      ∷ [];
  heads = 2 ∷ [];
}

inserts_second : insert only_file one_member 1 8 ≡ ok two_members
unfolding insert
inserts_second = refl

removes_first :
    remove only_file two_members 0
    ≡ ok (record {
      slots =
          record { previous = 0; next = 0; value = some 7 }
          ∷ record { previous = 2; next = 2; value = some 8 }
          ∷ [];
      heads = 2 ∷ [];
    })
unfolding remove
removes_first = refl

one_listed : for_file_from only_file 2 one_member 0 1 ≡ ok ((0, 7) ∷ [])
unfolding for_file_from
one_listed = refl

for_file_from-insert_example :
    (get_elem? two_members.heads 0 ≡ some 2)
    × (for_file_from only_file 3 two_members 0 2 ≡ ok ((1, 8) ∷ (0, 7) ∷ []))
for_file_from-insert_example =
    for_file_from-insert only_file 2 one_member two_members 1 8 1 ((0, 7) ∷ []) inserts_second refl
      one_listed
