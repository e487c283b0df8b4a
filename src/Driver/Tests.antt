-- ===== src/Driver/Tests.antt =====
-- src/driver.rs, at concrete operations.
use dios.Common.{◌≤◌, ℕ, ◌≡◌, ◌+◌, ◌*◌, ◌^◌, Bool, some, none, List, [], ◌∷◌, map, ok, arith, refl}
use dios.Common.Count.{count}
use dios.Ids.{FileId}
use dios.Driver.Slab.{CompletionSlab, with_capacity, reserve, fill, reclaim, contains, new_token}
use dios.Driver.Slab.Effects.{Step, Steps}
use dios.Driver.Slab.Tokens.{contains-reclaim}
use dios.Driver.Slab.Places.{System, Act, Acts, start, occupied, Acts-IsBalanced}
use dios.Driver.Files.{FileTable, opened, closed, open_file, is_live, is_closed}
use dios.Driver.Files.Effects
use dios.Driver.Files.{total_inflight}
use dios.Driver.Admission.{Shared, reserved, admit, commit}
use dios.Driver.Admission.Capacity.{total_inflight-commit}
use dios.Driver.Files.Closed.{is_closed-Steps, open_file-is_live}
use dios.Driver.Files.Retire.{close_down, close_down_lem}
use dios.Driver.Retry.{
  write, full, done, interrupted, would_block, OpContext, Outcome, execute, Attempt,
}
use dios.Driver.Retry.Eager.{execute_lem, EndsRight}
use dios.Driver.Retry.Ring.{ring_run-execute, ring_run, raw_of, entry_of}

-- A slab of two slots whose slot 1 holds an operation of generation 3.
abbrev busy : CompletionSlab ℕ
busy = record {
  slots =
      record { generation = 5; payload = none } ∷ record { generation = 3; payload = some 7 } ∷ [];
  free = 0 ∷ [];
}

abbrev idle : CompletionSlab ℕ
idle = record {
  slots =
      record { generation = 5; payload = none } ∷ record { generation = 3; payload = none } ∷ [];
  free = 1 ∷ 0 ∷ [];
}

abbrev popped : CompletionSlab ℕ
popped = record idle { free = 0 ∷ [] }

abbrev refilled : CompletionSlab ℕ
refilled = record {
  slots =
      record { generation = 5; payload = none } ∷ record { generation = 4; payload = some 8 } ∷ [];
  free = 0 ∷ [];
}

reclaim_busy : reclaim busy 1 ≡ ok ((3 * 2 ^ 32 + 1, 7), idle)
unfolding reclaim new_token
reclaim_busy = refl

refills : Steps idle refilled
unfolding reserve fill new_token
refills =
    Steps.then_step (Steps.then_step Steps.done (Step.reserves 1 {s' = popped} refl))
      (Step.fills 1 8 (4 * 2 ^ 32 + 1) refl)

contains-reclaim_example : contains refilled (3 * 2 ^ 32 + 1) ≡ ok Bool.false
contains-reclaim_example =
    contains-reclaim busy idle refilled 1 (3 * 2 ^ 32 + 1, 7) (omega arith) reclaim_busy refills

abbrev one_held : System ℕ
one_held = record {
  slab = record {
    slots =
        record { generation = 0; payload = none } ∷ record { generation = 0; payload = none } ∷ [];
    free = 1 ∷ [];
  };
  held = 0 ∷ [];
}

abbrev one_filled : System ℕ
one_filled = record {
  slab = record {
    slots =
        record { generation = 1; payload = some 9 }
        ∷ record { generation = 0; payload = none }
        ∷ [];
    free = 1 ∷ [];
  };
  held = [];
}

one_act : Acts (start 2) one_filled
unfolding with_capacity reserve fill new_token
one_act =
    Acts.then_act (Acts.then_act Acts.done (Act.reserves 0 refl))
      (Act.fills 0 9 (2 ^ 32) (omega arith) refl)

Acts-IsBalanced_example :
    (count 0 one_filled.slab.free + count 0 one_filled.held + occupied one_filled.slab.slots 0 ≡ 1)
Acts-IsBalanced_example = Acts-IsBalanced 2 one_filled one_act 0

abbrev first_file : FileId
first_file = record { driver = 1; slot = 0; generation = 1 }

abbrev closed_table : FileTable
closed_table = record { slots = record { generation = 1; state = closed; inflight = 0 } ∷ [] }

abbrev reopened_table : FileTable
reopened_table = record { slots = record { generation = 2; state = opened; inflight = 0 } ∷ [] }

abbrev second_file : FileId
second_file = record first_file { generation = 2 }

opens_again : open_file closed_table 1 ≡ ok (some second_file, reopened_table)
unfolding open_file
opens_again = refl

closed_first : is_closed closed_table first_file ≡ ok Bool.true
unfolding is_closed
closed_first = refl

is_closed-Steps_example :
    (is_closed reopened_table first_file ≡ ok Bool.true)
    × (is_live reopened_table first_file ≡ ok Bool.false)
is_closed-Steps_example =
    is_closed-Steps closed_table reopened_table first_file
      (Effects.Steps.then_step Effects.Steps.done
        (Effects.Step.opens 1 (some second_file) opens_again))
      closed_first

open_file-is_live_example :
    (is_live reopened_table second_file ≡ ok Bool.true)
    × (is_live closed_table second_file ≡ ok Bool.false)
    × (is_closed closed_table second_file ≡ ok Bool.false)
    × ((other : FileId)
        → is_live closed_table other ≡ ok Bool.true
        → is_live reopened_table other ≡ ok Bool.true)
open_file-is_live_example = open_file-is_live closed_table reopened_table 1 second_file opens_again

abbrev loaded_table : FileTable
loaded_table = record { slots = record { generation = 1; state = opened; inflight = 2 } ∷ [] }

close_down_example :
    close_down 2 loaded_table first_file ≡ ok (Bool.false ∷ Bool.false ∷ Bool.true ∷ [], Bool.true)
close_down_example = close_down_lem 2 loaded_table first_file refl

-- A write of two bytes, interrupted once and cut short once.
abbrev two_bytes : OpContext
two_bytes = record {
  fd = first_file;
  file_offset = 4096;
  destination_offset = 0;
  requested_len = 2;
  write_buf = 5 ∷ 6 ∷ [];
  sync_mode = full;
}

abbrev answers : List Attempt
answers = interrupted ∷ done 1 ∷ done 1 ∷ would_block ∷ done 0 ∷ []

execute_lem_example : (o : Outcome) × EndsRight (execute 1 write two_bytes) write 2 0 answers o
execute_lem_example =
    execute_lem 1 write two_bytes answers
      (record { file = omega arith; destination = omega arith; buffer = λ _. refl })
      (omega arith, (omega arith, (omega arith, tt))) (omega arith)

ring_run-execute_example :
    ring_run 1 (entry_of write 0 two_bytes) (map raw_of answers) ≡ execute 1 write two_bytes answers
ring_run-execute_example =
    ring_run-execute 1 write two_bytes answers
      (record { file = omega arith; destination = omega arith; buffer = λ _. refl }) refl
      (omega arith, (omega arith, (omega arith, tt))) tt

-- A core of one file and two slots, with one completion kept back.
abbrev resting : Shared FileId ℕ
resting = record {
  slab = with_capacity 2;
  files = record { slots = record { generation = 1; state = opened; inflight = 0 } ∷ [] };
  ready = [];
  completion_backlog = 9 ∷ [];
  deferred = [];
}

abbrev slot_taken : Shared FileId ℕ
slot_taken = record resting { slab = record { slots = (with_capacity 2).slots; free = 1 ∷ [] } }

abbrev one_queued : Shared FileId ℕ
one_queued = record resting {
  slab = record {
    slots =
        record { generation = 1; payload = some first_file }
        ∷ record { generation = 0; payload = none }
        ∷ [];
    free = 1 ∷ [];
  };
  files = record { slots = record { generation = 1; state = opened; inflight = 1 } ∷ [] };
  ready = 0 ∷ [];
}

abbrev unbound : ℕ → FileId → FileId
unbound token entry = entry

abbrev itself : FileId → FileId
itself entry = entry

abbrev last_place : ℕ → ℕ
last_place ready = ready

admits : admit 1 2 resting first_file ≡ ok (reserved 0, slot_taken)
unfolding admit with_capacity
admits = refl

commits : commit last_place unbound itself slot_taken 0 first_file ≡ ok (2 ^ 32, one_queued)
unfolding commit with_capacity new_token
commits = refl

total_inflight-commit_example :
    (first_file.driver ≡ 1)
    × (is_live resting.files first_file ≡ ok Bool.true)
    × ((n : ℕ) × (total_inflight resting.files.slots ≡ ok n)
        × (total_inflight one_queued.files.slots ≡ ok (n + 1))
        × (n + 1 + 1 ≤ 2))
total_inflight-commit_example =
    total_inflight-commit last_place unbound itself 1 2 resting slot_taken one_queued 0 first_file
      (2 ^ 32) (omega arith) admits commits
