-- ===== src/Driver/Slab/Places.antt =====
-- src/driver.rs: where each slot of the slab is: on the free stack, with a submitter that reserved
-- it, or with an operation in flight.
use dios.Common.{
  ℕ, zero, suc, ◌+◌, ◌≡◌, ◌<◌, none, some, List, [], ◌∷◌, length, get_elem?, set, replicate, ok,
  arith, refl, lt_of_get_elem?, ◌==◌, if◌then◌else◌, ltb, leb, ◌&&◌,
}
use dios.Common.Count.{count, erase, count-erase}
use dios.Driver.Slab.{
  SlabSlot, CompletionSlab, is_some, with_capacity, free_from, empty_slot, reserve, fill, poke,
  reclaim,
}
use dios.Driver.Slab.Effects.{fill-eq-ok, poke-eq-ok, reclaim-eq-ok, reserve-eq-some}

-- A slab, and the slots that submitters hold between `reserve` and `fill`.
pub record System (T : Type 0) : Type 0 where
  pub slab : CompletionSlab T
  pub held : List ℕ

count-free_from :
    (first n i : ℕ)
    → count i (free_from first n) ≡ (if leb first i && ltb i (first + n) then 1 else 0)
count-free_from first zero i = ground arith
count-free_from first (suc n) i = ground (arith, count-free_from (suc first) n i)

module _ {T : Type 0} where
  -- The core's use of the slab: only a reserved slot is filled.
  pub data Act : System T → System T → Type 0 where
    reserves :
        {x : System T} (slot : ℕ) {slab : CompletionSlab T}
        → reserve x.slab ≡ (some slot, slab)
        → Act x (record { slab = slab; held = slot ∷ x.held })
    fills :
        {x : System T} (slot : ℕ) (payload : T) (t : ℕ) {slab : CompletionSlab T}
        → 0 < count slot x.held
        → fill x.slab slot payload ≡ ok (t, slab)
        → Act x (record { slab = slab; held = erase slot x.held })
    pokes :
        {x : System T} (slot : ℕ) (change : T → T) {slab : CompletionSlab T}
        → poke x.slab slot change ≡ ok slab
        → Act x (record { slab = slab; held = x.held })
    reclaims :
        {x : System T} (slot : ℕ) (out : ℕ × T) {slab : CompletionSlab T}
        → reclaim x.slab slot ≡ ok (out, slab)
        → Act x (record { slab = slab; held = x.held })

  abbrev pub start : ℕ → System T
  start capacity = record { slab = with_capacity capacity; held = [] }

  pub data Acts : System T → System T → Type 0 where
    done : {x : System T} → Acts x x
    then_act : {x y z : System T} → Acts x y → Act y z → Acts x z

  abbrev pub occupied : List (SlabSlot T) → ℕ → ℕ
  occupied [] i = 0
  occupied (e ∷ slots) zero = if is_some e.payload then 1 else 0
  occupied (e ∷ slots) (suc i) = occupied slots i

  -- Every slot of the slab is in exactly one place, and no other number is in any.
  abbrev pub IsBalanced : ℕ → System T → Type 0
  IsBalanced capacity x =
      (i : ℕ)
      → count i x.slab.free + count i x.held + occupied x.slab.slots i
        ≡ (if ltb i capacity then 1 else 0)

  occupied-set :
      (slots : List (SlabSlot T)) (k i : ℕ) (e : SlabSlot T)
      → k < length slots
      → occupied (set slots k e) i
        ≡ (if k == i then (if is_some e.payload then 1 else 0) else occupied slots i)
  occupied-set [] k i e p = absurd (omega arith)
  occupied-set (x ∷ slots) zero zero e p = ground arith
  occupied-set (x ∷ slots) zero (suc i) e p = ground arith
  occupied-set (x ∷ slots) (suc k) zero e p = ground arith
  occupied-set (x ∷ slots) (suc k) (suc i) e p =
      ground (arith, occupied-set slots k i e (omega arith))

  occupied_at :
      (slots : List (SlabSlot T)) (k : ℕ) (e : SlabSlot T)
      → get_elem? slots k ≡ some e
      → occupied slots k ≡ (if is_some e.payload then 1 else 0)
  occupied_at [] k e p = ground arith
  occupied_at (x ∷ slots) zero e p = ground (arith, p)
  occupied_at (x ∷ slots) (suc k) e p = occupied_at slots k e p

  IsBalanced-Act :
      (capacity : ℕ) {x y : System T} → Act x y → IsBalanced capacity x → IsBalanced capacity y
  IsBalanced-Act capacity {x} (Act.reserves slot h) b i =
      let (rest, popped, after) = reserve-eq-some x.slab h in rw after (ground (arith, b i, popped))
  IsBalanced-Act capacity {x} (Act.fills slot payload t mine h) b i =
      let (e, at, empty, _, _, after) = fill-eq-ok x.slab slot payload h in
      rw after (
        ground (
          arith,
          b i,
          count-erase i slot x.held,
          occupied_at x.slab.slots slot e at,
          occupied-set x.slab.slots slot i
              (record { generation = e.generation + 1; payload = some payload })
              (lt_of_get_elem? x.slab.slots slot at),
          empty,
        ))
  IsBalanced-Act capacity {x} (Act.pokes slot change h) b i =
      let (e, p, at, full, after) = poke-eq-ok x.slab slot change h in
      rw after (
        ground (
          arith,
          b i,
          occupied_at x.slab.slots slot e at,
          occupied-set x.slab.slots slot i
              (record { generation = e.generation; payload = some (change p) })
              (lt_of_get_elem? x.slab.slots slot at),
          full,
        ))
  IsBalanced-Act capacity {x} (Act.reclaims slot out h) b i =
      let (e, at, full, _, after) = reclaim-eq-ok x.slab slot h in
      rw after (
        ground (
          arith,
          b i,
          occupied_at x.slab.slots slot e at,
          occupied-set x.slab.slots slot i (record { generation = e.generation; payload = none })
              (lt_of_get_elem? x.slab.slots slot at),
          full,
        ))

  occupied-vacant :
      (slots : List (SlabSlot T)) (n i : ℕ) → slots ≡ replicate n empty_slot → occupied slots i ≡ 0
  occupied-vacant slots n i e = rw e (go n i)
    where
      go : (n i : ℕ) → occupied (replicate n (empty_slot {T = T})) i ≡ 0
      go zero i = refl
      go (suc n) zero = refl
      go (suc n) (suc i) = go n i

  IsBalanced-Acts :
      (capacity : ℕ) {x y : System T} → Acts x y → IsBalanced capacity x → IsBalanced capacity y
  IsBalanced-Acts capacity Acts.done b = b
  IsBalanced-Acts capacity (Acts.then_act before last) b =
      IsBalanced-Act capacity last (IsBalanced-Acts capacity before b)

  -- From a fresh slab, every sequence of operations in which only a reserved slot is filled keeps
  -- each slot in exactly one place: free, reserved by one submitter, or in flight. None is lost,
  -- and none is handed out twice.
  pub Acts-IsBalanced :
      (capacity : ℕ) (x : System T) → Acts (start capacity) x → IsBalanced capacity x
  unfolding with_capacity
  Acts-IsBalanced capacity x acts = IsBalanced-Acts capacity acts (λ i. ground (
    arith,
    count-free_from 0 capacity i,
    occupied-vacant (replicate capacity empty_slot) capacity i refl,
  ))
