-- ===== src/Epoch/Invariant.antt =====
-- src/pool/epoch.rs: what holds of each reader and of the eviction queue between any two accesses,
-- and that draining the queue spares the frames that a reader protects.
use dios.Common.{
  ℕ, ◌+◌, ◌≡◌, ◌≢◌, ◌≤◌, ◌<◌, ◌⊎◌, inl, inr, false, if◌then◌else◌, ◌==◌, Option, none, some, List,
  [], ◌∷◌, length, arith, u64_max, ltb, refl, Bool-cases, ◌∙◌,
}
use dios.FrameState.{FrameState, free, resident, evicting}
use dios.Epoch.{ReaderSlot, quiescent, drain_matured, saturating_add}
use dios.Epoch.World.{World, Stage, idle, loaded, begun, found, update, free_frame}

-- A pin is under way and its epoch is published.
abbrev pub InPin : Stage → Type 0
InPin idle = ⊥
InPin (loaded e) = ⊥
InPin (begun first) = Unit
InPin (found first frame) = Unit

abbrev pub Busy : Stage → Type 0
Busy idle = ⊥
Busy (loaded e) = Unit
Busy (begun first) = Unit
Busy (found first frame) = Unit

-- The reader has a guard, or is about to take one.
abbrev pub IsActive : ReaderSlot → Stage → Type 0
IsActive slot stage = (0 < slot.guard_count) ⊎ InPin stage

-- Every queue entry of `f` has a tag of at least `p`.
abbrev pub Tagged : ℕ → ℕ → List (ℕ × ℕ) → Type 0
Tagged f p [] = Unit
Tagged f p ((g, tag) ∷ rest) = (g ≡ f → p ≤ tag) × Tagged f p rest

abbrev pub evicting_bit : FrameState → ℕ
evicting_bit evicting = 1
evicting_bit _ = 0

abbrev pub entries : ℕ → List (ℕ × ℕ) → ℕ
entries f [] = 0
entries f ((g, tag) ∷ rest) = (if g == f then 1 else 0) + entries f rest

abbrev pub IsShown : FrameState → Type 0
IsShown s = (s ≡ resident) ⊎ (s ≡ evicting)

-- Frame `f` cannot be reused under a reader that published at epoch `p`.
abbrev pub Safe : ℕ → (ℕ → FrameState) → List (ℕ × ℕ) → ℕ → Type 0
Safe p frames queue f = IsShown (frames f) × Tagged f p queue

abbrev pub AllSafe : ℕ → (ℕ → FrameState) → List (ℕ × ℕ) → List ℕ → Type 0
AllSafe p frames queue [] = Unit
AllSafe p frames queue (f ∷ fs) = Safe p frames queue f × AllSafe p frames queue fs

abbrev pub FoundSafe : ℕ → (ℕ → FrameState) → List (ℕ × ℕ) → Stage → Type 0
FoundSafe p frames queue idle = Unit
FoundSafe p frames queue (loaded e) = Unit
FoundSafe p frames queue (begun first) = Unit
FoundSafe p frames queue (found first f) = Safe p frames queue f

abbrev pub FirstOk : ReaderSlot → Stage → Type 0
FirstOk slot idle = Unit
FirstOk slot (loaded e) = Unit
FirstOk slot (begun first) = first ≡ (slot.guard_count == 0)
FirstOk slot (found first f) = first ≡ (slot.guard_count == 0)

abbrev pub LoadedOk : ℕ → Stage → Type 0
LoadedOk epoch idle = Unit
LoadedOk epoch (loaded e) = e ≤ epoch
LoadedOk epoch (begun first) = Unit
LoadedOk epoch (found first f) = Unit

-- An advance that has read slot `k` found an active reader at the epoch in force.
abbrev pub ScannedOk : ℕ → ℕ → ℕ → Option ℕ → Type 0
ScannedOk epoch p k none = Unit
ScannedOk epoch p k (some j) = k < j → epoch ≡ p

-- Reader `k`, with its slot, stage and guards, last published at epoch `p`.
pub record ReaderInv (epoch readers k : ℕ) (slot : ReaderSlot) (stage : Stage) (guards : List ℕ)
    (p : ℕ) (frames : ℕ → FrameState) (queue : List (ℕ × ℕ)) (scanned : Option ℕ) : Type 0 where
  pub counted : slot.guard_count ≡ length guards
  pub inside : (0 < slot.guard_count) ⊎ Busy stage → k < readers
  pub first_ok : FirstOk slot stage
  pub loaded_ok : LoadedOk epoch stage
  pub past : p ≤ epoch
  pub local : IsActive slot stage → slot.local_epoch ≤ p
  pub real : IsActive slot stage → slot.local_epoch ≢ quiescent
  pub recent : IsActive slot stage → epoch ≤ p + 1
  pub scanned_ok : IsActive slot stage → ScannedOk epoch p k scanned
  pub guards_safe : AllSafe p frames queue guards
  pub found_safe : FoundSafe p frames queue stage

pub record WorldInv (w : World) : Type 0 where
  pub counter : w.epoch < u64_max
  pub queued : (f : ℕ) → entries f w.queue ≡ evicting_bit (w.frames f)
  pub reader :
      (k : ℕ)
      → ReaderInv w.epoch w.readers k
          (w.slots k)
          (w.stages k)
          (w.guards k)
          (w.published k)
          w.frames
          w.queue
          w.scanned

-- Draining keeps the tags that are left.
pub drain-Tagged :
    (f p e : ℕ) (queue : List (ℕ × ℕ)) (frames : ℕ → FrameState)
    → Tagged f p queue
    → Tagged f p (drain_matured free_frame e queue frames).0
unfolding drain_matured
drain-Tagged f p e [] frames t = tt
drain-Tagged f p e ((g, tag) ∷ rest) frames t =
    elim (Bool-cases (ltb e (saturating_add u64_max tag 2))) [
      | inl keep ↦ rw keep t
      | inr drop ↦ rw drop (drain-Tagged f p e rest (update frames g free) t.1)
    ]

-- Draining frees no frame that a reader published within one epoch of now protects.
pub drain-frames :
    (f p e : ℕ) (queue : List (ℕ × ℕ)) (frames : ℕ → FrameState)
    → e < u64_max
    → e ≤ p + 1
    → Tagged f p queue
    → (drain_matured free_frame e queue frames).1 f ≡ frames f
unfolding drain_matured
drain-frames f p e [] frames c r t = refl
drain-frames f p e ((g, tag) ∷ rest) frames c r t =
    elim (Bool-cases (ltb e (saturating_add u64_max tag 2))) [
      | inl keep ↦ rw keep
      | inr drop ↦
          rw drop (
            drain-frames f p e rest (update frames g free) c r t.1
            ∙ other g tag (frames f) t.0 drop)
    ]
  where
    other :
        (g tag : ℕ) (s : FrameState)
        → (g ≡ f → p ≤ tag)
        → ltb e (saturating_add u64_max tag 2) ≡ false
        → (if g == f then free else s) ≡ s
    other g tag s older drop = ground arith

-- Every evicting frame stands in the queue once, before and after.
pub drain-entries :
    (f e : ℕ) (queue : List (ℕ × ℕ)) (frames : ℕ → FrameState)
    → entries f queue ≡ evicting_bit (frames f)
    → let (left, after, n) = drain_matured free_frame e queue frames in
      entries f left ≡ evicting_bit (after f)
unfolding drain_matured
drain-entries f e [] frames q = q
drain-entries f e ((g, tag) ∷ rest) frames q =
    elim (Bool-cases (ltb e (saturating_add u64_max tag 2))) [
      | inl keep ↦ rw keep q
      | inr drop ↦ rw drop (drain-entries f e rest (update frames g free) (one q))
    ]
  where
    one :
        (if g == f then 1 else 0) + entries f rest ≡ evicting_bit (frames f)
        → entries f rest ≡ evicting_bit (if g == f then free else frames f)
    one q = ground arith
