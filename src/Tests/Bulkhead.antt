-- ===== src/Tests/Bulkhead.antt =====
-- governance/bulkhead: three callers of a dependency with one slot and a queue of two.
use keelith.Prelude.{true, List, [], ◌∷◌, none, ◌≡◌, refl}
use keelith.Prelude.Int.{pos}
use keelith.Prelude.Contexts.{live}
use keelith.Governance.Bulkhead
use keelith.Governance.Bulkhead.{
  BulkheadPolicy, Step, acquires, wakes, releases, ready, timeout, new_world, serve, step,
}
use keelith.Governance.Bulkhead.Listed.{NoneLost}
use keelith.Governance.Bulkhead.Served.{calls-IsValid}
use keelith.Governance.Bulkhead.Entries.{IsValid, held_in}
use keelith.Governance.Bulkhead.Busy.{serve-Busy}
use keelith.Governance.Bulkhead.Refill.{Busy}
use keelith.Governance.Bulkhead.Queue.{QueuesAtMost, serve-QueuesAtMost}
use keelith.Governance.Bulkhead.Order.{Fair, serve-Fair}

abbrev one_slot : BulkheadPolicy
one_slot = record {
  enabled = true;
  max_concurrency = pos 1;
  max_queue = pos 2;
  queue_timeout = pos 1000;
}

-- The first caller gets the slot, two wait, and a fourth is refused.
abbrev morning : List Step
morning =
    acquires live one_slot
    ∷ acquires live one_slot
    ∷ acquires live one_slot
    ∷ acquires live one_slot
    ∷ []

morning_queue : (serve morning new_world).bulkhead.waiters ≡ 0 ∷ 1 ∷ []
unfolding serve Bulkhead.acquire
morning_queue = refl

abbrev evening : List Step
evening =
    acquires live one_slot
    ∷ acquires live one_slot
    ∷ acquires live one_slot
    ∷ releases 0
    ∷ wakes (ready none) 0
    ∷ wakes timeout 1
    ∷ []

evening_held : held_in (serve evening new_world).permits ≡ 1
unfolding serve held_in Bulkhead.acquire Bulkhead.release
evening_held = refl

calls-IsValid_example : IsValid 1 (serve evening new_world) × NoneLost (serve evening new_world)
calls-IsValid_example = calls-IsValid 1 evening (refl, (refl, (refl, (tt, (tt, (tt, tt))))))

serve-Busy_example : Busy (serve morning new_world).bulkhead
serve-Busy_example = serve-Busy 1 morning (refl, (refl, (refl, (refl, tt))))

serve-Fair_example :
    Fair (serve morning new_world).bulkhead (step (releases 0) (serve morning new_world)).bulkhead
serve-Fair_example = serve-Fair 1 morning (releases 0) (refl, (refl, (refl, (refl, tt)))) tt

serve-QueuesAtMost_example : QueuesAtMost 2 (serve morning new_world).bulkhead
serve-QueuesAtMost_example = serve-QueuesAtMost 2 morning (refl, (refl, (refl, (refl, tt))))
