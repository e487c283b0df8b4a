-- ===== src/Pattern/Tests.antt =====
-- src/pool/prefetch/pattern.rs, at a scan of one file.
use dios.Common.{ℕ, ◌+◌, ◌≡◌, ◌≤◌, ◌<◌, some, [], ◌∷◌, refl}
use dios.Ids.{PageId}
use dios.Pattern.{
  Pattern, following, streaming, fresh, reset, observe, issued, request, automatic, last_of,
}
use dios.Pattern.Window.{System, Logged, Act, Acts, start, request-Logged}

abbrev page_at : ℕ → PageId
page_at granule = record {
  file = record { driver = 1; slot = 0; generation = 1 };
  granule_idx = granule;
}

abbrev one_seen : Pattern
one_seen = record { state = following (page_at 0) 1; incarnation = 1 }

abbrev two_seen : Pattern
two_seen = record { state = following (page_at 1) 2; incarnation = 1 }

abbrev three_seen : Pattern
three_seen = record { state = streaming (page_at 2) 3 4; incarnation = 1 }

abbrev one_issued : Pattern
one_issued = record { state = streaming (page_at 2) 4 4; incarnation = 1 }

abbrev scanned : System
scanned = record { pattern = one_issued; log = (page_at 3, 1) ∷ [] }

scan : Acts 8 start scanned
unfolding fresh reset observe issued request
scan =
    Acts.then_act
      (Acts.then_act
        (Acts.then_act (Acts.then_act Acts.done (Act.observes (page_at 0) one_seen refl))
          (Act.observes (page_at 1) two_seen refl))
        (Act.observes (page_at 2) three_seen refl))
      (Act.issues 0 (page_at 3) (automatic 0 1) one_issued refl refl)

asks_next : request one_issued 0 ≡ some (page_at 4, automatic 0 1)
unfolding request
asks_next = refl

request-Logged_example :
    ((demand : PageId) × (last_of scanned.pattern.state ≡ some demand)
      × ((page_at 4).file ≡ demand.file)
      × (demand.granule_idx < 4)
      × (4 ≤ demand.granule_idx + 8))
    × ¬ Logged (page_at 4) 1 scanned.log
request-Logged_example = request-Logged 8 scanned 0 (page_at 4) (automatic 0 1) scan asks_next
