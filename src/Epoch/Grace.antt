-- ===== src/Epoch/Grace.antt =====
-- src/pool/epoch.rs: the grace period. No access of a reader or of the poll caller breaks the
-- invariant, so a frame under a live guard is never reused.
use dios.Common.{
  ℕ, ◌+◌, ◌≡◌, ◌≢◌, ◌≤◌, ◌<◌, ◌⊎◌, inl, inr, ◌==◌, none, List, [], ◌∷◌, ◌++◌, length, arith, refl,
  Bool-cases, subst, ==_iff,
}
use dios.FrameState.{free, in_flight, resident, evicting}
use dios.Epoch.{ReaderSlot, vacant}
use dios.Epoch.World.{World, Stage, idle, with_reader, Step, Reach, here, next}
use dios.Epoch.Accesses.{
  loads-Now, begins-Now, finds-Now, commits-Now, aborts-Now, releases-Now, AllSafe-split,
}
use dios.Epoch.Reclaim.{moves-Inv, evicts-Inv, reclaims-Inv}
use dios.Epoch.Scan.{starts-Inv, stops-Inv, scans-Inv, advances-Inv}
use dios.Epoch.Invariant.{ReaderInv, WorldInv}

-- What `ReaderInv` says of reader `j` in world `w`.
abbrev At : World → ℕ → Type 0
At w j =
    ReaderInv w.epoch w.readers j (w.slots j) (w.stages j) (w.guards j) (w.published j) w.frames
      w.queue w.scanned

-- A step of reader `k` touches nothing of the others.
with_reader-At :
    (w : World) (k : ℕ) (slot : ReaderSlot) (stage : Stage) (guards : List ℕ) (p : ℕ)
    → WorldInv w
    → ReaderInv w.epoch w.readers k slot stage guards p w.frames w.queue w.scanned
    → WorldInv (with_reader w k slot stage guards p)
with_reader-At w k slot stage guards p v h = record {
  counter = v.counter;
  queued = v.queued;
  reader = λ j. elim (Bool-cases (k == j)) [
    | inl same ↦ rw same (
        subst (λ i. ReaderInv w.epoch w.readers i slot stage guards p w.frames w.queue w.scanned)
          ((==_iff k j).0 same) h)
    | inr other ↦ rw other (v.reader j)
  ];
}

Step-Inv : {w w' : World} → WorldInv w → Step w w' → WorldInv w'
Step-Inv {w} v (Step.loads k h e) =
    with_reader-At w k _ _ _ _ v (loads-Now _ _ k _ _ _ _ _ _ h (rw e at (v.reader k)))
Step-Inv {w} v (Step.begins k e first slot at b) =
    with_reader-At w k _ _ _ _ v
      (begins-Now _ _ k _ _ _ _ _ _ e first slot (rw at at (v.reader k)) b)
Step-Inv {w} v (Step.finds k f first at is) =
    with_reader-At w k _ _ _ _ v
      (finds-Now _ _ k _ _ _ _ _ _ f first (rw at at (v.reader k)) is (ground (arith, v.queued f)))
Step-Inv {w} v (Step.commits k f first slot at c) =
    with_reader-At w k _ _ _ _ v
      (commits-Now _ _ k _ _ _ _ _ _ f first slot (rw at at (v.reader k)) c)
Step-Inv {w} v (Step.aborts k first slot at c) =
    with_reader-At w k _ _ _ _ v (aborts-Now _ _ k _ _ _ _ _ _ first slot (rw at at (v.reader k)) c)
Step-Inv {w} v (Step.releases k f before after slot at split c) =
    with_reader-At w k _ _ _ _ v
      (releases-Now _ _ k _ _ _ _ _ _ f before after slot (rw at at (v.reader k)) split c)
Step-Inv {w} v (Step.evicts frame is) = evicts-Inv w v frame is
Step-Inv {w} v (Step.claims frame is) = moves-Inv w v frame free in_flight is (ground arith) refl
Step-Inv {w} v (Step.publishes frame is) =
    moves-Inv w v frame in_flight resident is (ground arith) refl
Step-Inv {w} v (Step.abandons frame is) = moves-Inv w v frame in_flight free is (ground arith) refl
Step-Inv {w} v (Step.starts _) = starts-Inv w v
Step-Inv {w} v (Step.scans j at _ e) = scans-Inv w v j at e
Step-Inv {w} v (Step.refuses j _ _ _) = stops-Inv w v
Step-Inv {w} v (Step.advances c at) = advances-Inv w v c at
Step-Inv {w} v (Step.reclaims left frames n _ e) = reclaims-Inv w v left frames n e

Reach-Inv : {w w' : World} → WorldInv w → Reach w w' → WorldInv w'
Reach-Inv v here = v
Reach-Inv v (next r s) = Step-Inv (Reach-Inv v r) s

-- A pool of `readers` vacant slots and of free frames.
abbrev pub initial : ℕ → ℕ → World
initial readers peak = record {
  epoch = 0;
  readers = readers;
  slots = λ _. vacant peak;
  stages = λ _. idle;
  guards = λ _. [];
  published = λ _. 0;
  frames = λ _. free;
  queue = [];
  scanned = none;
}

initial-Inv : (readers peak : ℕ) → WorldInv (initial readers peak)
unfolding vacant
initial-Inv readers peak = record {
  counter = omega arith;
  queued = λ f. refl;
  reader = λ k. ground arith;
}

-- A frame under a live guard is never reused: however the readers' and the poll caller's accesses
-- interleave, a frame that a reader's guard names is resident or evicting, never free and never in
-- flight.
pub guarded_frame_shown :
    (readers peak : ℕ) (w : World) (k frame : ℕ) (before after : List ℕ)
    → Reach (initial readers peak) w
    → w.guards k ≡ before ++ (frame ∷ after)
    → (w.frames frame ≡ resident) ⊎ (w.frames frame ≡ evicting)
guarded_frame_shown readers peak w k frame before after r held =
    let inv = (Reach-Inv (initial-Inv readers peak) r).reader k in
    (AllSafe-split (w.published k) w.frames w.queue before after frame
      (rw held at inv.guards_safe)).0.0

-- While a reader holds a guard, the epoch in force is at most one past the one at its publication,
-- so an eviction since then cannot mature.
pub guard_holds_epoch :
    (readers peak : ℕ) (w : World) (k : ℕ)
    → Reach (initial readers peak) w
    → w.guards k ≢ []
    → (w.published k ≤ w.epoch) × (w.epoch ≤ w.published k + 1)
guard_holds_epoch readers peak w k r some_guard =
    let inv = (Reach-Inv (initial-Inv readers peak) r).reader k in
    (inv.past, inv.recent (inl (held (w.guards k) some_guard inv.counted)))
  where
    held :
        (gs : List ℕ) → gs ≢ [] → (w.slots k).guard_count ≡ length gs → 0 < (w.slots k).guard_count
    held [] ne e = absurd (ne refl)
    held (g ∷ gs) ne e = omega arith
