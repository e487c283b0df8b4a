-- ===== src/Table/Tests.antt =====
-- src/pool/table.rs, at a table of two slots.
use dios.Common.{
  ◌≤◌, sym, ap, subst, ◌∙◌, Checked, panic, ◌≡◌, some, none, [], ◌∷◌, ok, arith, refl,
}
use dios.Ids.{PageId}
use dios.Table.{PageTable, page_hash, insert_shared, lookup, remove_shared, try_with_frame_count}
use dios.Table.Spec.{
  Frames, update, Represents, vacant-replicate, lookup-Represents, insert_shared-Represents,
  remove_shared-Represents, try_with_frame_count-Represents,
}
use dios.Table.Probe.{lookup-insert_shared}

abbrev first_page : PageId
first_page = record { file = record { driver = 1; slot = 0; generation = 1 }; granule_idx = 5 }

abbrev vacant_table : PageTable
vacant_table = record { slots = none ∷ none ∷ []; capacity = 2; len = 0 }

abbrev filled_table : PageTable
filled_table = record { slots = some (first_page, 7) ∷ none ∷ []; capacity = 2; len = 1 }

inserts : insert_shared vacant_table first_page 7 ≡ ok filled_table
unfolding insert_shared page_hash
inserts = refl

removes : remove_shared filled_table first_page ≡ ok (some 7, vacant_table)
unfolding remove_shared page_hash
removes = refl

lookup-insert_shared_example : lookup filled_table first_page ≡ ok (some 7)
lookup-insert_shared_example =
    lookup-insert_shared vacant_table filled_table first_page 7
      (record { cells = refl; some_cell = omega arith }) inserts

abbrev no_pages : Frames
no_pages page = none

abbrev one_page : Frames
one_page = update no_pages first_page (some 7)

vacant_table-Represents : Represents vacant_table no_pages
vacant_table-Represents = record {
  shape = record {
    cells = refl;
    some_cell = omega arith;
    count = refl;
    probe = record {
      probed = λ i e h j p near. absurd (vacant-replicate 2 i e h);
      unique = λ i j e e' h h' same. absurd (vacant-replicate 2 i e h);
    };
  };
  agrees = λ page frame. (
    (λ (i, h). absurd (vacant-replicate 2 i (page, frame) h)),
    (λ is. absurd (ground (arith, is))),
  );
}

insert_shared-Represents_example :
    (t' : PageTable) × (insert_shared vacant_table first_page 7 ≡ ok t')
    × (t'.capacity ≡ 2)
    × Represents t' one_page
insert_shared-Represents_example =
    insert_shared-Represents vacant_table no_pages first_page 7 vacant_table-Represents
      (omega arith)

unfoldable ok_table : Checked PageTable → PageTable
ok_table (ok t) = t
ok_table panic = vacant_table

filled_table-Represents : Represents filled_table one_page
unfolding ok_table
filled_table-Represents =
    let (t', runs, _, r) =
      insert_shared-Represents vacant_table no_pages first_page 7 vacant_table-Represents
        (omega arith) in
    subst (λ t. Represents t one_page) (ap ok_table (sym runs ∙ inserts)) r

lookup-Represents_example : lookup filled_table first_page ≡ ok (some 7)
lookup-Represents_example =
    lookup-Represents filled_table one_page first_page filled_table-Represents

remove_shared-Represents_example :
    (t' : PageTable) × (remove_shared filled_table first_page ≡ ok (some 7, t'))
    × (t'.capacity ≡ 2)
    × Represents t' (update one_page first_page none)
remove_shared-Represents_example =
    remove_shared-Represents filled_table one_page first_page filled_table-Represents (omega arith)

try_with_frame_count-Represents_example :
    (t : PageTable) × (try_with_frame_count 3 ≡ ok t) × (6 ≤ t.capacity) × Represents t no_pages
try_with_frame_count-Represents_example =
    try_with_frame_count-Represents 3 (omega arith) (omega arith)
