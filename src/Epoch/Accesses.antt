-- ===== src/Epoch/Accesses.antt =====
-- src/pool/epoch.rs: each access of a reader keeps that reader's part of the invariant.
use dios.Common.{
  ℕ, ◌≡◌, ◌<◌, inl, inr, Bool, true, false, if◌then◌else◌, Option, none, some, List, [], ◌∷◌, ◌++◌,
  length, arith, refl, ok, length-append,
}
use dios.FrameState.{FrameState, resident}
use dios.Epoch.{ReaderSlot, begin_pin, commit_pin, abort_pin, release_guard}
use dios.Epoch.World.{Stage, idle, loaded, begun, found}
use dios.Epoch.Invariant.{ReaderInv, Safe, AllSafe, ScannedOk, Tagged, entries}

AllSafe-nil :
    (p : ℕ) (frames : ℕ → FrameState) (queue : List (ℕ × ℕ)) (gs : List ℕ)
    → length gs ≡ 0
    → AllSafe p frames queue gs
AllSafe-nil p frames queue [] h = tt
AllSafe-nil p frames queue (g ∷ gs) h = absurd (omega arith)

pub AllSafe-split :
    (p : ℕ) (frames : ℕ → FrameState) (queue : List (ℕ × ℕ)) (before after : List ℕ) (f : ℕ)
    → AllSafe p frames queue (before ++ (f ∷ after))
    → Safe p frames queue f × AllSafe p frames queue (before ++ after)
AllSafe-split p frames queue [] after f h = h
AllSafe-split p frames queue (g ∷ before) after f h =
    let rest = AllSafe-split p frames queue before after f h.1 in (rest.0, (h.0, rest.1))

Tagged-of_none : (f p : ℕ) (queue : List (ℕ × ℕ)) → entries f queue ≡ 0 → Tagged f p queue
Tagged-of_none f p [] h = tt
Tagged-of_none f p ((g, tag) ∷ rest) h =
    (λ e. absurd (ground arith), Tagged-of_none f p rest (ground arith))

module _ (epoch readers k : ℕ) (slot : ReaderSlot) (gs : List ℕ) (p : ℕ) (frames : ℕ → FrameState)
    (queue : List (ℕ × ℕ)) (scanned : Option ℕ) where
  -- The reader's own part of the invariant, for a slot, a stage, guards and a publication.
  abbrev Now : ReaderSlot → Stage → List ℕ → ℕ → Type 0
  Now s stage guards q = ReaderInv epoch readers k s stage guards q frames queue scanned

  pub loads-Now : k < readers → Now slot idle gs p → Now slot (loaded epoch) gs p
  loads-Now h r = ground arith

  pub begins-Now :
      (e : ℕ) (first : Bool) (slot' : ReaderSlot)
      → Now slot (loaded e) gs p
      → begin_pin slot e ≡ ok (first, slot')
      → Now slot' (begun first) gs (if first then epoch else p)
  unfolding begin_pin
  begins-Now e true slot' r b = record {
    counted = ground (arith, r.counted);
    inside = λ _. r.inside (inr tt);
    first_ok = ground arith;
    loaded_ok = tt;
    past = omega arith;
    local = λ _. ground (arith, r.loaded_ok);
    real = λ _. ground arith;
    recent = λ _. omega arith;
    scanned_ok = λ _. now scanned;
    guards_safe = AllSafe-nil epoch frames queue gs (ground (arith, r.counted));
    found_safe = tt;
  }
    where
      now : (x : Option ℕ) → ScannedOk epoch epoch k x
      now none = tt
      now (some j) = λ _. refl
  begins-Now e false slot' r b = ground (arith, r.local, r.real, r.recent, r.scanned_ok, r.inside)

  pub finds-Now :
      (f : ℕ) (first : Bool)
      → Now slot (begun first) gs p
      → frames f ≡ resident
      → entries f queue ≡ 0
      → Now slot (found first f) gs p
  finds-Now f first r shown none_queued = record {
    counted = r.counted;
    inside = r.inside;
    first_ok = r.first_ok;
    loaded_ok = tt;
    past = r.past;
    local = r.local;
    real = r.real;
    recent = r.recent;
    scanned_ok = r.scanned_ok;
    guards_safe = r.guards_safe;
    found_safe = (inl shown, Tagged-of_none f p queue none_queued);
  }

  pub commits-Now :
      (f : ℕ) (first : Bool) (slot' : ReaderSlot)
      → Now slot (found first f) gs p
      → commit_pin slot first ≡ ok slot'
      → Now slot' idle (f ∷ gs) p
  unfolding commit_pin
  commits-Now f first slot' r c = record {
    counted = ground (arith, r.counted);
    inside = λ _. r.inside (inr tt);
    first_ok = tt;
    loaded_ok = tt;
    past = r.past;
    local = λ _. ground (arith, r.local (inr tt));
    real = λ _. ground (arith, r.real (inr tt));
    recent = λ _. r.recent (inr tt);
    scanned_ok = λ _. r.scanned_ok (inr tt);
    guards_safe = (r.found_safe, r.guards_safe);
    found_safe = tt;
  }

  pub aborts-Now :
      (first : Bool) (slot' : ReaderSlot)
      → Now slot (begun first) gs p
      → abort_pin slot first ≡ ok slot'
      → Now slot' idle gs p
  unfolding abort_pin
  aborts-Now first slot' r c = record {
    counted = ground (arith, r.counted);
    inside = λ _. r.inside (inr tt);
    first_ok = tt;
    loaded_ok = tt;
    past = r.past;
    local = λ a. ground (arith, r.local (inr tt), r.first_ok, a);
    real = λ a. ground (arith, r.real (inr tt), r.first_ok, a);
    recent = λ _. r.recent (inr tt);
    scanned_ok = λ _. r.scanned_ok (inr tt);
    guards_safe = r.guards_safe;
    found_safe = tt;
  }

  pub releases-Now :
      (f : ℕ) (before after : List ℕ) (slot' : ReaderSlot)
      → Now slot idle gs p
      → gs ≡ before ++ (f ∷ after)
      → release_guard slot ≡ ok slot'
      → Now slot' idle (before ++ after) p
  unfolding release_guard
  releases-Now f before after slot' r split c =
      let held : 0 < slot.guard_count = ground arith in
      record {
        counted =
            ground (arith, r.counted, length-append before after, length-append before (f ∷ after));
        inside = λ _. r.inside (inl held);
        first_ok = tt;
        loaded_ok = tt;
        past = r.past;
        local = λ a. ground (arith, r.local (inl held), a);
        real = λ a. ground (arith, r.real (inl held), a);
        recent = λ _. r.recent (inl held);
        scanned_ok = λ _. r.scanned_ok (inl held);
        guards_safe = (AllSafe-split p frames queue before after f (rw split at r.guards_safe)).1;
        found_safe = tt;
      }
