-- ===== src/Epoch/Tests.antt =====
-- src/pool/epoch.rs: a pin against an eviction, and the theorems at it.
use dios.Common.{
  ℕ, List, ok, u64_max, ◌>>=◌, inl, inr, ◌+◌, ◌≡◌, ◌≤◌, ◌⊎◌, Bool, true, refl, [], ◌∷◌, arith,
}
use dios.FrameState.{resident, evicting}
use dios.Epoch.{
  ReaderSlot, vacant, begin_pin, commit_pin, abort_pin, release_guard, advance_epoch, FrameOutcome,
  freed, drain_matured,
}
use dios.Epoch.Queue.{logging, drain_matured_lem}
use dios.Epoch.Slots.{
  IsSettled, NoneBehind, release_guard-commit_pin, abort_pin-begin_pin, advance_epoch_lem,
}
use dios.Epoch.World.{World, Step, Reach, here, next}
use dios.Epoch.Grace.{initial, guarded_frame_shown, guard_holds_epoch}

abbrev start : World
start = initial 1 2

abbrev pinned_slot : ReaderSlot
pinned_slot = record {
  occupied = Bool.false;
  local_epoch = 0;
  guard_count = 1;
  peak_guards_per_reader = 2;
  index = 4294967295;
}

abbrev published_slot : ReaderSlot
published_slot = record pinned_slot { guard_count = 0 }

-- Frame 0 becomes resident, reader 0 pins it, and it is evicted under the guard.
evicted_under_guard : (w : World) × Reach start w × (w.guards 0 ≡ 0 ∷ [])
unfolding vacant begin_pin commit_pin
evicted_under_guard = (
  _,
  next
      (next
        (next
          (next
            (next (next (next here (Step.claims 0 refl)) (Step.publishes 0 refl))
              (Step.loads 0 (omega arith) refl))
            (Step.begins 0 0 true published_slot refl refl))
          (Step.finds 0 0 true refl refl))
        (Step.commits 0 0 true pinned_slot refl refl))
      (Step.evicts 0 refl),
  refl,
)

guarded_frame_shown_example :
    (evicted_under_guard.0.frames 0 ≡ resident) ⊎ (evicted_under_guard.0.frames 0 ≡ evicting)
guarded_frame_shown_example =
    guarded_frame_shown 1 2 evicted_under_guard.0 0 0 [] [] evicted_under_guard.1
      evicted_under_guard.2

guard_holds_epoch_example :
    (evicted_under_guard.0.published 0 ≤ evicted_under_guard.0.epoch)
    × (evicted_under_guard.0.epoch ≤ evicted_under_guard.0.published 0 + 1)
unfolding evicted_under_guard
guard_holds_epoch_example =
    guard_holds_epoch 1 2 evicted_under_guard.0 0 evicted_under_guard.1 (λ e. cc)

abbrev queued : List (ℕ × ℕ)
queued = (4, 1) ∷ (5, 2) ∷ (6, 4) ∷ []

abbrev frees_all : ℕ → ℕ → FrameOutcome
frees_all f tag = freed

drain_matured_lem_example :
    drain_matured (logging frees_all) 4 queued [] ≡ ((6, 4) ∷ [], (4, 1) ∷ (5, 2) ∷ [], 2)
drain_matured_lem_example =
    drain_matured_lem frees_all 4 0 queued [] (omega arith)
      (omega arith, (omega arith, (omega arith, tt)))

abbrev settled : ReaderSlot
settled = record {
  occupied = Bool.true;
  local_epoch = u64_max;
  guard_count = 0;
  peak_guards_per_reader = 2;
  index = 0;
}

settled-IsSettled : IsSettled settled
settled-IsSettled = record {
  bounded = omega arith;
  peak = omega arith;
  idle = λ _. refl;
  busy = λ p. absurd (omega arith);
}

release_guard-commit_pin_example :
    (first : Bool) × (begun committed : ReaderSlot) × (begin_pin settled 7 ≡ ok (first, begun))
    × (begun.local_epoch ≡ 7)
    × (begun.guard_count ≡ 0)
    × (commit_pin begun first ≡ ok committed)
    × (committed.guard_count ≡ 1)
    × (committed.local_epoch ≡ begun.local_epoch)
    × (release_guard committed ≡ ok settled)
release_guard-commit_pin_example =
    release_guard-commit_pin settled 7 settled-IsSettled (λ e. omega arith) (omega arith)

abort_pin-begin_pin_example : (begin_pin settled 7 >>= λ b. abort_pin b.1 b.0) ≡ ok settled
abort_pin-begin_pin_example = abort_pin-begin_pin settled 7 settled-IsSettled (λ e. omega arith)

abbrev readers : List ReaderSlot
readers = settled ∷ record settled { local_epoch = 7; guard_count = 1 } ∷ []

advance_epoch_lem_example :
    ((advance_epoch 7 readers ≡ ok 8) × NoneBehind 7 readers)
    ⊎ ((advance_epoch 7 readers ≡ ok 7) × ¬ NoneBehind 7 readers)
advance_epoch_lem_example =
    advance_epoch_lem 7 readers (omega arith) (inl refl, (inr (omega arith), tt))
