-- ===== src/Epoch/Reclaim.antt =====
-- src/pool/epoch.rs and src/pool/mod.rs: evictions, refills and reclamation keep the invariant.
use dios.Common.{
  ℕ, ◌+◌, ◌≡◌, ◌≤◌, inl, inr, if◌then◌else◌, ◌==◌, Option, List, [], ◌∷◌, ◌++◌, length, arith, refl,
  Bool-cases, ◌∙◌, subst, ap, ==_iff, sym,
}
use dios.FrameState.{FrameState, resident, evicting}
use dios.Epoch.{ReaderSlot, drain_matured}
use dios.Epoch.World.{World, Stage, idle, loaded, begun, found, update, free_frame}
use dios.Epoch.Invariant.{
  ReaderInv, WorldInv, Safe, AllSafe, FoundSafe, InPin, Tagged, IsActive, IsShown, entries,
  evicting_bit, drain-Tagged, drain-frames, drain-entries,
}

-- A reader's invariant moves along with frames and queue if safety does.
module _ (epoch readers k : ℕ) (slot : ReaderSlot) (stage : Stage) (gs : List ℕ) (p : ℕ)
    (frames frames' : ℕ → FrameState) (queue queue' : List (ℕ × ℕ)) (scanned : Option ℕ) where
  AllSafe-map :
      (fs : List ℕ)
      → ((f : ℕ) → Safe p frames queue f → Safe p frames' queue' f)
      → AllSafe p frames queue fs
      → AllSafe p frames' queue' fs
  AllSafe-map [] h s = tt
  AllSafe-map (f ∷ fs) h s = (h f s.0, AllSafe-map fs h s.1)

  FoundSafe-map :
      (st : Stage)
      → ((f : ℕ) → Safe p frames queue f → Safe p frames' queue' f)
      → FoundSafe p frames queue st
      → FoundSafe p frames' queue' st
  FoundSafe-map idle h s = tt
  FoundSafe-map (loaded e) h s = tt
  FoundSafe-map (begun first) h s = tt
  FoundSafe-map (found first f) h s = h f s

  pub ReaderInv-frames :
      ReaderInv epoch readers k slot stage gs p frames queue scanned
      → (IsActive slot stage → (f : ℕ) → Safe p frames queue f → Safe p frames' queue' f)
      → ReaderInv epoch readers k slot stage gs p frames' queue' scanned
  ReaderInv-frames r h = record {
    counted = r.counted;
    inside = r.inside;
    first_ok = r.first_ok;
    loaded_ok = r.loaded_ok;
    past = r.past;
    local = r.local;
    real = r.real;
    recent = r.recent;
    scanned_ok = r.scanned_ok;
    guards_safe = held gs r.counted r.guards_safe;
    found_safe = pinned stage (λ i. h (inr i)) r.found_safe;
  }
    where
      held :
          (fs : List ℕ)
          → slot.guard_count ≡ length fs
          → AllSafe p frames queue fs
          → AllSafe p frames' queue' fs
      held [] e s = tt
      held (f ∷ fs) e s = AllSafe-map (f ∷ fs) (h (inl (omega arith))) s

      pinned :
          (st : Stage)
          → (InPin st → (f : ℕ) → Safe p frames queue f → Safe p frames' queue' f)
          → FoundSafe p frames queue st
          → FoundSafe p frames' queue' st
      pinned idle h s = tt
      pinned (loaded e) h s = tt
      pinned (begun first) h s = tt
      pinned (found first f) h s = h tt f s

Safe-frame :
    (p epoch : ℕ) (frames : ℕ → FrameState) (queue : List (ℕ × ℕ)) (g : ℕ) (s : FrameState) (f : ℕ)
    → (IsShown (frames g) → IsShown s)
    → Safe p frames queue f
    → Safe p (update frames g s) queue f
Safe-frame p epoch frames queue g s f h safe = (
  elim (Bool-cases (g == f)) [
    | inl same ↦ rw same (h (subst (λ i. IsShown (frames i)) (sym ((==_iff g f).0 same)) safe.0))
    | inr other ↦ rw other safe.0
  ],
  safe.1,
)

Tagged-append :
    (f p : ℕ) (queue : List (ℕ × ℕ)) (g tag : ℕ)
    → p ≤ tag
    → Tagged f p queue
    → Tagged f p (queue ++ ((g, tag) ∷ []))
Tagged-append f p [] g tag h t = (λ _. h, tt)
Tagged-append f p ((x, y) ∷ rest) g tag h t = (t.0, Tagged-append f p rest g tag h t.1)

entries_append :
    (f : ℕ) (queue : List (ℕ × ℕ)) (g tag : ℕ)
    → entries f (queue ++ ((g, tag) ∷ [])) ≡ (if g == f then 1 else 0) + entries f queue
entries_append f [] g tag = refl
entries_append f ((x, y) ∷ rest) g tag = omega (arith, entries_append f rest g tag)

module _ (w : World) (v : WorldInv w) where
  -- A frame that no reader can hold moves to a state that is not evicting.
  pub moves-Inv :
      (frame : ℕ) (s s' : FrameState)
      → w.frames frame ≡ s
      → (IsShown s → IsShown s')
      → evicting_bit s ≡ evicting_bit s'
      → WorldInv (record w { frames = update w.frames frame s' })
  moves-Inv frame s s' is shown bit = record {
    counter = v.counter;
    queued = λ f. elim (Bool-cases (frame == f)) [
      | inl same ↦
          rw same
            (v.queued f ∙ ap evicting_bit (ap w.frames (sym ((==_iff frame f).0 same)) ∙ is) ∙ bit)
      | inr other ↦ rw other (v.queued f)
    ];
    reader = λ k.
        ReaderInv-frames w.epoch w.readers k (w.slots k) (w.stages k) (w.guards k) (w.published k)
          w.frames (update w.frames frame s') w.queue w.queue w.scanned (v.reader k)
          (λ _ f.
            Safe-frame (w.published k) w.epoch w.frames w.queue frame s' f
              (λ i. shown (subst IsShown is i)));
  }

  pub evicts-Inv :
      (frame : ℕ)
      → w.frames frame ≡ resident
      → WorldInv (record w {
        frames = update w.frames frame evicting;
        queue = w.queue ++ ((frame, w.epoch) ∷ []);
      })
  evicts-Inv frame is = record {
    counter = v.counter;
    queued = λ f. elim (Bool-cases (frame == f)) [
      | inl same ↦ rw same (
          rw (entries_append f w.queue frame w.epoch)
            (ground (arith, v.queued f, ap w.frames (sym ((==_iff frame f).0 same)) ∙ is)))
      | inr other ↦
          rw other (rw (entries_append f w.queue frame w.epoch) (ground (arith, v.queued f)))
    ];
    reader = λ k.
        ReaderInv-frames w.epoch w.readers k (w.slots k) (w.stages k) (w.guards k) (w.published k)
          w.frames (update w.frames frame evicting) w.queue (w.queue ++ ((frame, w.epoch) ∷ []))
          w.scanned (v.reader k)
          (λ _ f safe. (
            (Safe-frame (w.published k) w.epoch w.frames w.queue frame evicting f (λ _. inr refl)
                safe).0,
            Tagged-append f (w.published k) w.queue frame w.epoch (v.reader k).past safe.1,
          ));
  }

  pub reclaims-Inv :
      (left : List (ℕ × ℕ)) (frames : ℕ → FrameState) (n : ℕ)
      → drain_matured free_frame w.epoch w.queue w.frames ≡ (left, frames, n)
      → WorldInv (record w { frames = frames; queue = left })
  reclaims-Inv left frames n e =
      let d = drain_matured free_frame w.epoch w.queue w.frames in
      let l : d.0 ≡ left = ap (λ x. x.0) e in
      let fr : d.1 ≡ frames = ap (λ x. x.1) e in
      rw (← l, ← fr)
        (record {
          counter = v.counter;
          queued = λ f. drain-entries f w.epoch w.queue w.frames (v.queued f);
          reader = λ k.
              ReaderInv-frames w.epoch w.readers k (w.slots k) (w.stages k) (w.guards k)
                (w.published k) w.frames d.1 w.queue d.0 w.scanned (v.reader k)
                (λ a f safe. (
                  subst IsShown
                      (sym (
                        drain-frames f (w.published k) w.epoch w.queue w.frames v.counter
                          ((v.reader k).recent a) safe.1))
                      safe.0,
                  drain-Tagged f (w.published k) w.epoch w.queue w.frames safe.1,
                ));
        })
