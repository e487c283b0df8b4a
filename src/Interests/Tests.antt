-- ===== src/Interests/Tests.antt =====
-- src/pool/miss.rs, at one miss slot with two waiters.
use dios.Common.{◌⊎◌, ◌++◌, List, panic, ◌≡◌, [], ◌∷◌, ok, refl}
use dios.Interests.{
  MissInterests, demand, vacant_interests, begin_initial, join_interest, release_interest,
}
use dios.Interests.Counts.{Capability, copies, holders}
use dios.Interests.Held.{
  Reached, fresh, begun, joined, release_interest-Reached, begin_initial-Reached,
}

abbrev one_waiter : MissInterests
one_waiter = record { generation = 1; waiters = 1 } ∷ []

abbrev two_waiters : MissInterests
two_waiters = record { generation = 1; waiters = 2 } ∷ []

begins : begin_initial (vacant_interests 1) 0 demand ≡ ok (1, one_waiter)
unfolding begin_initial
begins = refl

joins : join_interest one_waiter 0 1 ≡ ok two_waiters
unfolding join_interest
joins = refl

one_waiter-Reached : Reached 1 one_waiter ((0, 1) ∷ [])
one_waiter-Reached = begun 0 1 fresh begins

two_waiters-Reached : Reached 1 two_waiters ((0, 1) ∷ (0, 1) ∷ [])
two_waiters-Reached = joined 0 1 one_waiter-Reached joins

release_interest-Reached_example :
    ((earlier later : List Capability) × (after : MissInterests) × ((0, 1) ∷ (0, 1) ∷ []
        ≡ earlier ++ (0, 1) ∷ later)
      × (release_interest two_waiters 0 1 ≡ ok (holders 0 (earlier ++ later), after))
      × Reached 1 after (earlier ++ later))
    ⊎ ((copies (0, 1) ((0, 1) ∷ (0, 1) ∷ []) ≡ 0) × (release_interest two_waiters 0 1 ≡ panic))
release_interest-Reached_example =
    release_interest-Reached 1 two_waiters ((0, 1) ∷ (0, 1) ∷ []) 0 1 two_waiters-Reached

begin_initial-Reached_example : holders 0 [] ≡ 0
begin_initial-Reached_example =
    begin_initial-Reached 1 (vacant_interests 1) one_waiter [] 0 1 demand fresh begins
