-- ===== src/Tests/Governance.antt =====
-- governance/breaker: runs of one breaker.
use keelith.Prelude.{ℕ, true, false, List, [], ◌∷◌, Option, none, some, ◌≡◌, refl, arith}
use keelith.Prelude.Int.{pos}
use keelith.Prelude.Floats.{finite, ratio_reaches}
use keelith.Governance.Failure.{Chain}
use keelith.Governance.Breaker.{
  State, state_open, state_half_open, BreakerPolicy, Breaker, allow, complete, instance_failure,
  valid_policy, new_breaker,
}
use keelith.Governance.Breaker.World.{Step, allows, completes, serve, new_world, IsValid}
use keelith.Governance.Breaker.Probes.{serve-IsValid}
use keelith.Governance.Breaker.Recovery.{Recovered, Unmoved, calls, open_holds, open_recovers}
use keelith.Governance.Breaker.Healthy.{Healthy, serve-Healthy}

-- Half of the requests of a second, two probes.
abbrev half : BreakerPolicy
half = record {
  enabled = true;
  failure_ratio = finite (pos 1) 1;
  window = pos 1000;
  min_requests = pos 2;
  open_timeout = pos 100;
  half_open_probes = pos 2;
}

abbrev lost : Option Chain
lost = some (record {
  marked = true;
  is_canceled = false;
  is_deadline_exceeded = false;
  application = false;
  network = none;
})

-- Two of three requests fail, then a probe is admitted and a late permit returns.
abbrev outage : List Step
outage =
    allows 1 half
    ∷ allows 2 half
    ∷ allows 3 half
    ∷ completes 0 4 lost
    ∷ completes 0 5 lost
    ∷ allows 200 half
    ∷ completes 1 201 lost
    ∷ []

abbrev outcome : Breaker → State × ℕ × ℕ
outcome b = (b.state, b.open_until, b.probes_in_flight)

outage_probes : outcome (serve outage new_world).breaker ≡ (state_half_open, 105, 1)
unfolding serve valid_policy complete allow ratio_reaches
outage_probes = refl

serve-IsValid_example : IsValid 2 (serve outage new_world)
serve-IsValid_example =
    serve-IsValid 2 outage (refl, (refl, (refl, (tt, (tt, (refl, (tt, tt))))))) (omega arith)

-- The first five calls open the breaker until the time 105.
abbrev opening : List Step
opening =
    allows 1 half ∷ allows 2 half ∷ allows 3 half ∷ completes 0 4 lost ∷ completes 0 5 lost ∷ []

opening-IsValid : IsValid 2 (serve opening new_world)
opening-IsValid = serve-IsValid 2 opening (refl, (refl, (refl, (tt, (tt, tt))))) (omega arith)

opening_until : (serve opening new_world).breaker.open_until ≡ 105
unfolding serve valid_policy complete allow ratio_reaches
opening_until = refl

opening_open : (serve opening new_world).breaker.state ≡ state_open
unfolding serve valid_policy complete allow ratio_reaches
opening_open = refl

abbrev waiting : List Step
waiting = allows 104 half ∷ completes 0 104 none ∷ allows 50 half ∷ []

open_holds_example : Unmoved (serve opening new_world) (serve waiting (serve opening new_world))
open_holds_example =
    open_holds waiting (serve opening new_world) opening-IsValid opening_open
      (omega (arith, opening_until), (tt, (omega (arith, opening_until), tt)))

abbrev opened : Breaker
opened = record new_breaker { state = state_open; open_until = 105; generation = 1 }

half-valid : valid_policy half ≡ true
unfolding valid_policy
half-valid = refl

none-passes : instance_failure none ≡ false
unfolding instance_failure
none-passes = refl

open_recovers_example : Recovered (calls 2 105 half none opened)
open_recovers_example =
    open_recovers 1 105 half none opened (refl, half-valid, refl) none-passes refl (omega arith)

abbrev good_day : List Step
good_day = allows 1 half ∷ allows 2 half ∷ completes 1 3 none ∷ completes 0 2000 none ∷ []

serve-Healthy_example : Healthy (serve good_day new_world)
serve-Healthy_example = serve-Healthy good_day (tt, (tt, (none-passes, (none-passes, tt))))
