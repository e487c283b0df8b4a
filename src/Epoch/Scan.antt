-- ===== src/Epoch/Scan.antt =====
-- src/pool/epoch.rs, `advance_epoch`: reading the readers' slots one by one keeps the invariant.
use dios.Common.{
  ℕ, suc, ◌+◌, ◌≡◌, ◌≢◌, ◌≤◌, ◌<◌, ◌⊎◌, inl, inr, true, Option, none, some, List, arith, u64_max,
  subst, ok, sym, ℕ_discrete,
}
use dios.FrameState.{FrameState}
use dios.Epoch.{ReaderSlot, quiescent, permits_advance}
use dios.Epoch.World.{World, Stage, idle, loaded, begun, found}
use dios.Epoch.Invariant.{ReaderInv, WorldInv, Busy, LoadedOk, ScannedOk, IsActive}

-- The advance's own accesses: what changes is how many slots it has read, and the epoch.
module _ (epoch epoch' readers k : ℕ) (slot : ReaderSlot) (stage : Stage) (gs : List ℕ) (p : ℕ)
    (frames : ℕ → FrameState) (queue : List (ℕ × ℕ)) (scanned scanned' : Option ℕ) where
  ReaderInv-scan :
      ReaderInv epoch readers k slot stage gs p frames queue scanned
      → epoch ≤ epoch'
      → (IsActive slot stage → epoch' ≤ p + 1)
      → (IsActive slot stage → ScannedOk epoch' p k scanned')
      → ReaderInv epoch' readers k slot stage gs p frames queue scanned'
  ReaderInv-scan r up recent ok' = record {
    counted = r.counted;
    inside = r.inside;
    first_ok = r.first_ok;
    loaded_ok = later stage r.loaded_ok;
    past = omega (arith, r.past);
    local = r.local;
    real = r.real;
    recent = recent;
    scanned_ok = ok';
    guards_safe = r.guards_safe;
    found_safe = r.found_safe;
  }
    where
      later : (st : Stage) → LoadedOk epoch st → LoadedOk epoch' st
      later idle h = tt
      later (loaded e) h = omega arith
      later (begun first) h = tt
      later (found first f) h = tt

permits_at :
    (slot : ReaderSlot) (epoch p : ℕ)
    → permits_advance slot epoch ≡ ok true
    → slot.local_epoch ≤ p
    → p ≤ epoch
    → slot.local_epoch ≢ quiescent
    → epoch ≡ p
unfolding permits_advance
permits_at slot epoch p e a b c = ground arith

active_inside :
    (slot : ReaderSlot) {k readers : ℕ} (stage : Stage)
    → ((0 < slot.guard_count) ⊎ Busy stage → k < readers)
    → IsActive slot stage
    → k < readers
active_inside slot idle h (inl g) = h (inl g)
active_inside slot idle h (inr p) = absurd p
active_inside slot (loaded e) h (inl g) = h (inl g)
active_inside slot (loaded e) h (inr p) = absurd p
active_inside slot (begun first) h a = h (inr tt)
active_inside slot (found first f) h a = h (inr tt)

module _ (w : World) (v : WorldInv w) where
  pub starts-Inv : WorldInv (record w { scanned = some 0 })
  starts-Inv = record {
    counter = v.counter;
    queued = v.queued;
    reader = λ k.
        ReaderInv-scan _ w.epoch _ k _ _ _ _ _ _ _ (some 0) (v.reader k) (omega arith)
          (v.reader k).recent (λ a h. absurd (omega arith));
  }

  pub stops-Inv : WorldInv (record w { scanned = none })
  stops-Inv = record {
    counter = v.counter;
    queued = v.queued;
    reader = λ k.
        ReaderInv-scan _ w.epoch _ k _ _ _ _ _ _ _ none (v.reader k) (omega arith)
          (v.reader k).recent (λ a. tt);
  }

  pub scans-Inv :
      (j : ℕ)
      → w.scanned ≡ some j
      → permits_advance (w.slots j) w.epoch ≡ ok true
      → WorldInv (record w { scanned = some (suc j) })
  scans-Inv j at yes_j = record {
    counter = v.counter;
    queued = v.queued;
    reader = λ k.
        ReaderInv-scan _ w.epoch _ k _ _ _ _ _ _ _ (some (suc j)) (v.reader k) (omega arith)
          (v.reader k).recent
          (λ a h. elim (ℕ_discrete k j) [
            | yes e ↦
                let r = v.reader k in
                permits_at (w.slots k) w.epoch (w.published k)
                  (subst (λ i. permits_advance (w.slots i) w.epoch ≡ ok true) (sym e) yes_j)
                  (r.local a) r.past (r.real a)
            | no ne ↦
                subst (ScannedOk w.epoch (w.published k) k) at ((v.reader k).scanned_ok a)
                  (omega arith)
          ]);
  }

  pub advances-Inv :
      suc w.epoch < u64_max
      → w.scanned ≡ some w.readers
      → WorldInv (record w { epoch = suc w.epoch; scanned = none })
  advances-Inv c at = record {
    counter = c;
    queued = v.queued;
    reader = λ k.
        ReaderInv-scan _ (suc w.epoch) _ k _ _ _ _ _ _ _ none (v.reader k) (omega arith)
          (λ a.
            let same : w.epoch ≡ w.published k =
              subst (ScannedOk w.epoch (w.published k) k) at ((v.reader k).scanned_ok a)
                (active_inside (w.slots k) (w.stages k) (v.reader k).inside a) in
            omega (arith, same))
          (λ a. tt);
  }
