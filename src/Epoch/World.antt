-- ===== src/Epoch/World.antt =====
-- src/pool/epoch.rs and src/pool/mod.rs: readers, evictions and the poll caller, interleaved one
-- atomic access at a time.
--
-- A reader pins in four accesses, as `pin_owned` and `pin_with_resident_hint` of src/pool/mod.rs do:
-- it loads the global epoch, publishes it (`begin_pin`), finds a frame resident, and counts its
-- guard (`commit_pin`) or gives up (`abort_pin`). The poll caller reads the readers' slots one
-- by one (`advance_epoch`), with any steps of the readers between, and reclaims under the control
-- lock. Accesses are sequentially consistent: that is what the two `SeqCst` fences of the source are
-- for.
--
-- The changes of a frame's state and the push on the queue are written out, as the effects of
-- `FrameState::advance` and `EvictQueue::push`. Frames whose reuse is deferred by a retained read,
-- which src/pool/mod.rs releases later on, are left out.
use dios.Common.{
  ℕ, suc, ◌≡◌, ◌<◌, Bool, true, false, if◌then◌else◌, ◌==◌, Option, none, some, List, [], ◌∷◌, ◌++◌,
  ok, u64_max,
}
use dios.FrameState.{FrameState, free, in_flight, resident, evicting}
use dios.Epoch.{
  ReaderSlot, begin_pin, commit_pin, abort_pin, release_guard, permits_advance, FrameOutcome, freed,
  drain_matured,
}

abbrev pub update {ℓ} : {A : Type ℓ} → (ℕ → A) → ℕ → A → ℕ → A
update f k a j = if k == j then a else f j

-- Where a reader's thread stands in a pin.
pub data Stage : Type 0 where
  idle : Stage
  loaded : ℕ → Stage
  begun : Bool → Stage
  found : Bool → ℕ → Stage

-- `scanned` is how many slots an advance that is under way has read; `published` records the global
-- epoch at a reader's last publication and is read by no step.
pub record World : Type 0 where
  pub epoch : ℕ
  pub readers : ℕ
  pub slots : ℕ → ReaderSlot
  pub stages : ℕ → Stage
  pub guards : ℕ → List ℕ
  pub published : ℕ → ℕ
  pub frames : ℕ → FrameState
  pub queue : List (ℕ × ℕ)
  pub scanned : Option ℕ

-- The closure of `advance_and_reclaim` with no frame retained: it frees the frame.
abbrev pub free_frame : ℕ → ℕ → (ℕ → FrameState) → FrameOutcome × (ℕ → FrameState)
free_frame frame tag frames = (freed, update frames frame free)

-- The world with all that belongs to reader `k` given anew.
abbrev pub with_reader : World → ℕ → ReaderSlot → Stage → List ℕ → ℕ → World
with_reader w k slot stage guards p = record w {
  slots = update w.slots k slot;
  stages = update w.stages k stage;
  guards = update w.guards k guards;
  published = update w.published k p;
}

pub data Step (w : World) : World → Type 0 where
  loads :
      (k : ℕ)
      → k < w.readers
      → w.stages k ≡ idle
      → Step w (with_reader w k (w.slots k) (loaded w.epoch) (w.guards k) (w.published k))
  begins :
      (k e : ℕ) (first : Bool) (slot : ReaderSlot)
      → w.stages k ≡ loaded e
      → begin_pin (w.slots k) e ≡ ok (first, slot)
      → Step w (
          with_reader w k slot
            (begun first)
            (w.guards k)
            (if first then w.epoch else w.published k))
  finds :
      (k frame : ℕ) (first : Bool)
      → w.stages k ≡ begun first
      → w.frames frame ≡ resident
      → Step w (with_reader w k (w.slots k) (found first frame) (w.guards k) (w.published k))
  commits :
      (k frame : ℕ) (first : Bool) (slot : ReaderSlot)
      → w.stages k ≡ found first frame
      → commit_pin (w.slots k) first ≡ ok slot
      → Step w (with_reader w k slot idle (frame ∷ w.guards k) (w.published k))
  aborts :
      (k : ℕ) (first : Bool) (slot : ReaderSlot)
      → w.stages k ≡ begun first
      → abort_pin (w.slots k) first ≡ ok slot
      → Step w (with_reader w k slot idle (w.guards k) (w.published k))
  releases :
      (k frame : ℕ) (before after : List ℕ) (slot : ReaderSlot)
      → w.stages k ≡ idle
      → w.guards k ≡ before ++ (frame ∷ after)
      → release_guard (w.slots k) ≡ ok slot
      → Step w (with_reader w k slot idle (before ++ after) (w.published k))
  -- Under the control lock a resident frame is unmapped, marked and queued with the epoch in force.
  evicts :
      (frame : ℕ)
      → w.frames frame ≡ resident
      → Step w (record w {
        frames = update w.frames frame evicting;
        queue = w.queue ++ ((frame, w.epoch) ∷ []);
      })
  claims :
      (frame : ℕ)
      → w.frames frame ≡ free
      → Step w (record w { frames = update w.frames frame in_flight })
  publishes :
      (frame : ℕ)
      → w.frames frame ≡ in_flight
      → Step w (record w { frames = update w.frames frame resident })
  abandons :
      (frame : ℕ)
      → w.frames frame ≡ in_flight
      → Step w (record w { frames = update w.frames frame free })
  starts : w.scanned ≡ none → Step w (record w { scanned = some 0 })
  scans :
      (j : ℕ)
      → w.scanned ≡ some j
      → j < w.readers
      → permits_advance (w.slots j) w.epoch ≡ ok true
      → Step w (record w { scanned = some (suc j) })
  refuses :
      (j : ℕ)
      → w.scanned ≡ some j
      → j < w.readers
      → permits_advance (w.slots j) w.epoch ≡ ok false
      → Step w (record w { scanned = none })
  -- The counter stays below the sentinel, which takes 2 ^ 64 advances to reach.
  advances :
      suc w.epoch < u64_max
      → w.scanned ≡ some w.readers
      → Step w (record w { epoch = suc w.epoch; scanned = none })
  reclaims :
      (left : List (ℕ × ℕ)) (frames : ℕ → FrameState) (n : ℕ)
      → w.scanned ≡ none
      → drain_matured free_frame w.epoch w.queue w.frames ≡ (left, frames, n)
      → Step w (record w { frames = frames; queue = left })

pub data Reach (w : World) : World → Type 0 where
  here : Reach w w
  next : {u v : World} → Reach w u → Step u v → Reach w v
