-- ===== src/Governance/Breaker/Healthy.antt =====
-- governance/breaker/breaker.go: a breaker whose invocations do not fail.
use keelith.Prelude.{
  ℕ, ◌==◌, Bool, true, false, ◌&&◌, List, [], ◌∷◌, Option, none, some, ◌≡◌, refl, inl, inr, arith,
  All, get_elem?, Bool-cases,
}
use keelith.Prelude.Int.{ℤ, pos, negsuc}
use keelith.Prelude.Words.{add_u64}
use keelith.Prelude.Floats.{
  Float, nan, positive_infinity, negative_infinity, finite, not_positive, ratio_reaches,
}
use keelith.Governance.Failure.{Chain}
use keelith.Governance.Breaker.{
  State, state_closed, state_open, state_half_open, state_eq, BreakerPolicy, Breaker, Permit, admit,
  allow, count_request, complete, count, instance_failure, valid_policy, roll_window,
}
use keelith.Governance.Breaker.World.{
  World, Step, allows, completes, step, serve, new_world, remove_at-All, All-get, handed, finished,
}

-- A step that reports no transport or timeout failure.
abbrev pub Succeeds : Step → Type 0
Succeeds (allows now config) = Unit
Succeeds (completes i now e) = instance_failure e ≡ false

-- A valid ratio is not reached without a failure.
ratio-unreached : (r : ℕ) (x : Float) → not_positive x ≡ false → ratio_reaches 0 r x ≡ false
unfolding not_positive ratio_reaches
ratio-unreached r nan h = refl
ratio-unreached r positive_infinity h = refl
ratio-unreached r negative_infinity h = cc
ratio-unreached r (finite (pos n) e) h = h
ratio-unreached r (finite (negsuc n) e) h = cc

valid_policy-ratio :
    (c : BreakerPolicy) → valid_policy c ≡ true → not_positive c.failure_ratio ≡ false
unfolding valid_policy
valid_policy-ratio c h = ground arith

abbrev Closed : Breaker → Type 0
Closed b = (b.state ≡ state_closed) × (b.failures ≡ 0)

abbrev Judged : Permit → Type 0
Judged p = valid_policy p.config ≡ true

abbrev pub Healthy : World → Type 0
Healthy w = Closed w.breaker × All Judged w.permits

roll_window-Closed : (now : ℕ) (w : ℤ) (b : Breaker) → Closed b → Closed (roll_window now w b)
unfolding roll_window
roll_window-Closed now w b h = ground arith

count_request-Closed :
    (now : ℕ) (config : BreakerPolicy) (b : Breaker)
    → valid_policy config ≡ true
    → Closed b
    → Closed (count_request now config false b)
unfolding count_request
count_request-Closed now config b good h = ground (
  arith,
  ratio-unreached (add_u64 b.requests 1) config.failure_ratio (valid_policy-ratio config good),
)

count-Closed :
    (now : ℕ) (config : BreakerPolicy) (failed : Bool) (s : State) (b : Breaker)
    → valid_policy config ≡ true
    → failed ≡ false
    → s ≡ state_closed
    → Closed b
    → Closed (count now config failed s b)
count-Closed now config true s b good ended at h = cc
count-Closed now config false state_closed b good ended at h =
    count_request-Closed now config (roll_window now config.window b) good
      (roll_window-Closed now config.window b h)
count-Closed now config false state_open b good ended at h = h
count-Closed now config false state_half_open b good ended at h = cc

complete-Closed :
    (now : ℕ) (p : Permit) (e : Option Chain) (b : Breaker)
    → Judged p
    → instance_failure e ≡ false
    → Closed b
    → Closed (complete now p e b)
unfolding complete
complete-Closed now p e b good ended h =
    elim (Bool-cases (p.generation == b.generation && state_eq p.state b.state)) [
      | inl m ↦ rw m (count-Closed now p.config (instance_failure e) b.state b good ended h.0 h)
      | inr m ↦ rw m h
    ]

allow-Healthy :
    (now : ℕ) (config : BreakerPolicy) (b : Breaker) (ps : List Permit)
    → Closed b
    → All Judged ps
    → let r = allow now config b in Closed r.0 × All Judged (handed r.1 ps)
unfolding allow admit
allow-Healthy now config b ps h judged = ground arith

finished-Healthy :
    (i now : ℕ) (e : Option Chain) (w : World) (o : Option Permit)
    → get_elem? w.permits i ≡ o
    → instance_failure e ≡ false
    → Healthy w
    → Healthy (finished i now e w o)
finished-Healthy i now e w none f ended h = h
finished-Healthy i now e w (some p) f ended h = (
  complete-Closed now p e w.breaker (All-get Judged i w.permits f h.1) ended h.0,
  remove_at-All Judged i w.permits h.1,
)

step-Healthy : (x : Step) (w : World) → Succeeds x → Healthy w → Healthy (step x w)
unfolding step
step-Healthy (allows now config) w succeeds h = allow-Healthy now config w.breaker w.permits h.0 h.1
step-Healthy (completes i now e) w succeeds h =
    finished-Healthy i now e w (get_elem? w.permits i) refl succeeds h

serve_from-Healthy :
    (xs : List Step) (w : World) → All Succeeds xs → Healthy w → Healthy (serve xs w)
unfolding serve
serve_from-Healthy [] w succeeds h = h
serve_from-Healthy (x ∷ xs) w succeeds h =
    serve_from-Healthy xs (step x w) succeeds.1 (step-Healthy x w succeeds.0 h)

-- A new breaker stays closed and counts no failure, whatever the policies are, as long as no permit
-- is completed with a transport or timeout failure.
pub serve-Healthy : (xs : List Step) → All Succeeds xs → Healthy (serve xs new_world)
serve-Healthy xs succeeds = serve_from-Healthy xs new_world succeeds ((refl, refl), tt)
