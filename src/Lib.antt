-- ===== src/Lib.antt =====
-- Verification library of dios, a direct-I/O read pool over an asynchronous driver.
--
-- The program. The driver (src/driver.rs) takes reads, writes and barriers on files, holds each one
-- in a completion slab from its submission to its completion, and runs it on an eager backend or on
-- a ring. The pool (src/pool/) keeps pages of files in an arena of frames: a miss claims a free
-- frame, the driver fills it, the poll caller publishes it, readers pin it without a lock, and CLOCK
-- chooses which frame to evict. A frame that is evicted is used again only after every reader that
-- could still see it has let go, which the epochs arrange.
--
-- The files.
--   Common        helpers: Boolean tests, lists indexed by native numbers, ring positions, counts,
--                 and `Checked`, the result of code that may panic.
--   Ids           FileId (src/driver.rs) and PageId (src/pool/mod.rs).
--   FrameState    src/pool/frames.rs: the residency states, and the word that packs a state with
--                 the frame's generation.
--   Frames        src/pool/frames.rs: the arena. Arena has the step relation of its operations,
--                 System adds the write tokens in the hands of callers.
--   Epoch         src/pool/epoch.rs: reader slots, the epoch's advance and the evict queue. World
--                 is the interleaving of readers that pin, commit, abort and release with the one
--                 poll caller that publishes, evicts, scans the slots one at a time, moves the
--                 epoch and drains the queue.
--   Clock         src/pool/clock.rs: the reference bits, the hand and the speculation markers. Race
--                 is the interleaving of readers that observe a frame whose marker is set.
--   Driver.Slab   src/driver.rs: CompletionSlab and OpToken.
--   Driver.Files  src/driver.rs: FileTable, the states and generations of the registered files.
--   Driver.Retry  src/driver.rs: `execute` with `OpContext::advance_write`, and `ring_progress`.
--   Driver.Admission
--                 src/driver.rs: the state under the submit mutex, `admit`, `commit` and the backlog.
--   Pattern       src/pool/prefetch/pattern.rs: what a reader's demands say of the pages to read
--                 ahead, and its life over demands, predictions and promotions.
--   Table         src/pool/table.rs: the page table, an open-addressed map with backward shifts.
--   Interests     src/pool/miss.rs: the generations and the waiters of the miss slots.
--   Miss          src/pool/miss.rs: the reads in flight, one for each missing page, and their
--                 index.
--   IndexQueue    src/pool/prefetch/state.rs: a queue of distinct indices in an array of links.
--   Prefetch      src/pool/prefetch/state.rs: the ledger of the speculative frames, over the patterns,
--                 the queues, the CLOCK markers and the free frames.
--   FreeFrames    src/pool/frames.rs: the stack of free frames.
--   WriteArena    src/pool/write_arena.rs: the leases of the staging slots.
--   FileSlots     src/pool/file_slots.rs: fixed slots in an intrusive list for each file.
--
-- How the code is modelled. A function keeps its name; a method that stores into `self` returns the
-- new value. `assert!`, `expect`, an index out of range and an overflow of a checked build are
-- `panic` of `Checked`, and a debug assertion counts as an assertion. A word is a native number
-- whose range is written out. Where threads meet (Frames.Arena, Epoch.World, Clock.Race) an atomic
-- access is one step, and the steps of different threads interleave; elsewhere an operation runs by
-- itself. Memory orderings weaker than that are not modelled.
--
-- Bounds and fuel. The CLOCK sweep has the rounds that the code gives it, the frame count and one
-- more, and always stops within them. The eager loop recurses on the answers of the backend, of
-- which the retry bound, the bytes asked for and one more are enough. A probe of the page table and
-- the shift after a removal have as many rounds as the table has slots, which a table with a vacant
-- slot never uses up, and a new table has two slots for each frame. The loops of the ledger have the
-- rounds that the code gives them; for the queued cleanups the ledger's capacity is enough.
--
-- Not modelled: system calls and the kernel's ring, the mapping and locking of memory, copies of
-- bytes, blocking waits and their clocks, diagnostics of the benches, test doubles, and the parts of
-- the pool and the driver that no file above names.
pub mod Common
pub mod Ids
pub mod FrameState
pub mod Frames
pub mod Epoch
pub mod Clock
pub mod Driver
pub mod Pattern
pub mod Table
pub mod FreeFrames
pub mod WriteArena
pub mod FileSlots
pub mod Interests
pub mod Miss
pub mod IndexQueue
pub mod Prefetch
