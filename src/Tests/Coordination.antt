-- ===== src/Tests/Coordination.antt =====
-- coordination/memory: two owners of one key.
use keelith.Prelude.{◌<◌, true, List, [], ◌∷◌, some, ◌≡◌, ◌≢◌, refl, arith}
use keelith.Prelude.Text.{Text, text_eq}
use keelith.Prelude.Maps.{lookup, insert, delete}
use keelith.Prelude.Int.{pos}
use keelith.Prelude.Results.{ok}
use keelith.Prelude.Contexts.{live}
use keelith.Coordination.{
  Lease, new_coordinator, valid_key, fence_of, new_lease, try_acquire, release, Call, acquires,
  releases, history,
}
use keelith.Prelude.Text.{codes}
use keelith.Coordination.Exclusion.{acquire-excludes, release-hands_over, freed}
use keelith.Coordination.Fences.{acquire-fences_grow}

abbrev key : Text
key = codes "shard-1"

key-valid : valid_key key ≡ true
unfolding valid_key
key-valid = refl

abbrev first : Lease
first = record { id = 0; key = key; fence = 1 }

acquired : (try_acquire live key (pos 5) new_coordinator).1 ≡ ok (some first)
unfolding try_acquire lookup
acquired = refl

-- Another key is taken, and its lease released.
abbrev traffic : List Call
traffic =
    acquires live (codes "shard-2") (pos 5)
    ∷ releases live (record { id = 1; key = codes "shard-2"; fence = 1 })
    ∷ acquires live key (pos 5)
    ∷ []

acquire-excludes_example :
    (try_acquire live key
      (pos 9)
      (history traffic (try_acquire live key (pos 5) new_coordinator).0)).1
    ≢ ok (some first)
acquire-excludes_example =
    acquire-excludes live key (pos 5) new_coordinator tt acquired traffic (tt, (refl, (tt, tt)))
      live (pos 9) first

release-hands_over_example :
    (try_acquire live key
      (pos 9)
      (freed first traffic (try_acquire live key (pos 5) new_coordinator).0)).1
    ≡ ok (
        some (new_lease key (freed first traffic (try_acquire live key (pos 5) new_coordinator).0)))
release-hands_over_example =
    release-hands_over live key (pos 5) new_coordinator tt acquired traffic (tt, (refl, (tt, tt)))
      (pos 9) (refl, key-valid)

abbrev handover : List Call
handover = releases live first ∷ []

abbrev second : Lease
second = record { id = 1; key = key; fence = 2 }

acquired_again :
    (try_acquire live key
      (pos 5)
      (history handover (try_acquire live key (pos 5) new_coordinator).0)).1
    ≡ ok (some second)
unfolding try_acquire lookup history release insert delete fence_of text_eq
acquired_again = refl

new_fence : fence_of key new_coordinator ≡ 0
unfolding fence_of lookup
new_fence = refl

acquire-fences_grow_example : (0 < first.fence) × (first.fence < second.fence)
acquire-fences_grow_example =
    acquire-fences_grow live key (pos 5) new_coordinator handover live (pos 5)
      (omega (arith, new_fence)) acquired acquired_again
