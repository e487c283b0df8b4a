-- ===== src/Driver/Retry.antt =====
-- src/driver.rs: the retry policy of one operation, as the eager core runs it (`execute`) and as the
-- ring core does (`ring_progress`). What the backend answers is a sequence, an argument here. The
-- token of a frame passes through unread and is left out of the context.
pub mod Eager
pub mod Ring
use dios.Common.{
  ℕ, zero, suc, ◌+◌, ◌-◌, Bool, true, false, not, ◌&&◌, ◌||◌, if◌then◌else◌, ◌==◌, ltb, leb, Option,
  none, some, List, [], ◌∷◌, length, drop, Checked, ok, panic, assert, expect, checked_add, u32_max,
  u64_max, ◌>>=◌, ◌>>◌,
}
use dios.Ids.{FileId}

pub data OpKind : Type 0 where
  read write fsync : OpKind

abbrev pub is_read : OpKind → Bool
is_read read = true
is_read _ = false

abbrev pub is_write : OpKind → Bool
is_write write = true
is_write _ = false

pub data SyncMode : Type 0 where
  data_only full : SyncMode

-- One answer of an eager backend.
pub data Attempt : Type 0 where
  done failed : ℕ → Attempt
  interrupted would_block : Attempt

-- `Result<u32, i32>`: the bytes, or the number of the error.
pub data Outcome : Type 0 where
  transferred errno : ℕ → Outcome

abbrev pub eintr : ℕ
eintr = 4

abbrev pub eio : ℕ
eio = 5

abbrev pub eagain : ℕ
eagain = 11

abbrev pub i32_max : ℕ
i32_max = 2147483647

pub record OpContext : Type 0 where
  pub fd : FileId
  pub file_offset : ℕ
  pub destination_offset : ℕ
  pub requested_len : ℕ
  pub write_buf : List ℕ
  pub sync_mode : SyncMode

-- `OpContext::write`
unfoldable pub write_context : FileId → ℕ → ℕ → List ℕ → OpContext
write_context fd file_offset source_offset write_buf = record {
  fd = fd;
  file_offset = file_offset;
  destination_offset = source_offset;
  requested_len = length write_buf;
  write_buf = write_buf;
  sync_mode = full;
}

unfoldable pub advance_write : OpContext → ℕ → Checked OpContext
unfolding write_context
advance_write c bytes = do
  assert (ltb 0 bytes)
  assert (ltb bytes c.requested_len)
  file_offset ← expect (checked_add u64_max c.file_offset bytes)
  source_offset ← expect (checked_add u32_max c.destination_offset bytes)
  ok (write_context c.fd file_offset source_offset (drop bytes c.write_buf))

-- The loop of `execute`, over the answers that the backend gives; no outcome yet where the answers
-- run out.
unfoldable pub execute_loop :
    ℕ → OpKind → ℕ → ℕ → OpContext → List Attempt → Checked (Option Outcome)
unfolding advance_write
execute_loop retry_bound kind logical_len retries next [] = ok none
execute_loop retry_bound kind logical_len retries next (done bytes ∷ answers) =
    let again = execute_loop retry_bound kind logical_len (retries + 1) next answers in
    assert (leb bytes next.requested_len)
    >> (if not (is_write kind)
        then ok (some (transferred bytes))
        else if bytes == next.requested_len
        then ok (some (transferred logical_len))
        else if ltb 0 bytes
        then (advance_write next bytes >>= λ tail.
            execute_loop retry_bound kind logical_len retries tail answers)
        else if leb retry_bound retries
        then ok (some (errno eio))
        else again)
execute_loop retry_bound kind logical_len retries next (failed number ∷ answers) =
    ok (some (errno number))
execute_loop retry_bound kind logical_len retries next (interrupted ∷ answers) =
    let again = execute_loop retry_bound kind logical_len (retries + 1) next answers in
    if leb retry_bound retries then ok (some (errno eintr)) else again
execute_loop retry_bound kind logical_len retries next (would_block ∷ answers) =
    let again = execute_loop retry_bound kind logical_len (retries + 1) next answers in
    if not (is_read kind)
    then ok (some (errno eagain))
    else if leb retry_bound retries
    then ok (some (errno eagain))
    else again

unfoldable pub execute : ℕ → OpKind → OpContext → List Attempt → Checked (Option Outcome)
unfolding execute_loop
execute retry_bound kind context answers =
    execute_loop retry_bound kind context.requested_len 0 context answers

-- A completion's raw result, an `i32`.
pub data ℤ : Type 0 where
  pos negsuc : ℕ → ℤ

-- The fields of `OpEntry` that the ring's progress reads and writes.
pub record OpEntry : Type 0 where
  pub kind : OpKind
  pub file_offset : ℕ
  pub destination_offset : ℕ
  pub requested_len : ℕ
  pub retries : ℕ

pub data RingProgress : Type 0 where
  resubmit : RingProgress
  terminal : Outcome → RingProgress

-- `-raw` for a negative `raw`, which overflows at the smallest `i32`.
abbrev pub negated : ℕ → Checked ℕ
negated n = assert (leb (n + 1) i32_max) >> ok (n + 1)

unfoldable pub ring_result : ℤ → Checked Outcome
ring_result (pos n) = ok (transferred n)
ring_result (negsuc n) = negated n >>= λ number. ok (errno number)

unfoldable pub ring_should_retry : OpKind → ℤ → ℕ → ℕ → Checked Bool
ring_should_retry kind (pos n) retries retry_bound = ok false
ring_should_retry kind (negsuc n) retries retry_bound =
    if leb retry_bound retries
    then ok false
    else (do number ← negated n; ok (number == eintr || (number == eagain && is_read kind)))

abbrev pub retried : OpEntry → OpEntry
retried entry = record entry { retries = entry.retries + 1 }

-- What follows where no transient is retried.
settle : OpEntry → ℤ → ℕ → Checked (RingProgress × OpEntry)
unfolding ring_result
settle entry (negsuc n) retry_bound = ring_result (negsuc n) >>= λ r. ok (terminal r, entry)
settle entry (pos bytes) retry_bound =
    if not (is_write entry.kind)
    then ok (terminal (transferred bytes), entry)
    else assert (leb bytes entry.requested_len)
      >> (if bytes == entry.requested_len
          then (do
            total ← expect (checked_add u32_max entry.destination_offset bytes)
            ok (terminal (transferred total), entry))
          else if bytes == 0
          then (if leb retry_bound entry.retries
              then ok (terminal (errno eio), entry)
              else ok (resubmit, retried entry))
          else (do
            file_offset ← expect (checked_add u64_max entry.file_offset bytes)
            destination_offset ← expect (checked_add u32_max entry.destination_offset bytes)
            ok (
              resubmit,
              record entry {
                file_offset = file_offset;
                destination_offset = destination_offset;
                requested_len = entry.requested_len - bytes;
              },
            )))

unfoldable pub ring_progress : OpEntry → ℤ → ℕ → Checked (RingProgress × OpEntry)
unfolding settle ring_should_retry
ring_progress entry raw retry_bound = do
  retry ← ring_should_retry entry.kind raw entry.retries retry_bound
  if retry then ok (resubmit, retried entry) else settle entry raw retry_bound
