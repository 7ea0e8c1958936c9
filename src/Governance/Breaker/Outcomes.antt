-- ===== src/Governance/Breaker/Outcomes.antt =====
-- governance/breaker/breaker.go: what completing a permit does to the breaker's counters.
use keelith.Prelude.{
  ℕ, suc, ◌-◌, ◌<◌, ◌==◌, ltb, Bool, true, false, ◌&&◌, ◌||◌, if◌then◌else◌, Option, ◌≡◌, refl, ◌∙◌,
  ◌⊎◌, inl, inr, arith, Bool-cases,
}
use keelith.Prelude.Int.{ℤ, le_nat}
use keelith.Prelude.Words.{max_u64}
use keelith.Governance.Failure.{Chain}
use keelith.Governance.Breaker.{
  State, state_closed, state_open, state_half_open, state_eq, BreakerPolicy, Breaker, Permit,
  roll_window, open_circuit, close_circuit, count_request, count_probe, count, counted, trips,
  returned, succeeded, complete, instance_failure,
}
use keelith.Governance.Breaker.World.{weight}

-- What completing a permit does to the breaker: it gives one probe back at most, or it starts a
-- new generation without probes.
abbrev pub Kept : ℕ → Breaker → Breaker → Type 0
Kept k b c =
    (c.state ≡ b.state)
    × (c.generation ≡ b.generation)
    × (c.probes_in_flight ≡ b.probes_in_flight - k)

abbrev pub Renewed : Breaker → Breaker → Type 0
Renewed b c =
    (state_eq c.state state_half_open ≡ false)
    × (c.generation ≡ suc b.generation)
    × (c.probes_in_flight ≡ 0)

abbrev pub Outcome : ℕ → Breaker → Breaker → Type 0
Outcome k b c = Kept k b c ⊎ Renewed b c

if-Outcome :
    (k : ℕ) (t : Bool) (b x y : Breaker)
    → Outcome k b x
    → Outcome k b y
    → Outcome k b (if t then x else y)
if-Outcome k true b x y h g = h
if-Outcome k false b x y h g = g

pub roll_window-Kept : (now : ℕ) (w : ℤ) (b : Breaker) → Kept 0 b (roll_window now w b)
unfolding roll_window
roll_window-Kept now w b =
    elim (Bool-cases
      (b.window_start == 0 || (le_nat w (now - b.window_start) || ltb now b.window_start))) [
        | inl e ↦ rw e (refl, refl, omega arith)
        | inr e ↦ rw e (refl, refl, omega arith)
      ]

open_circuit-Renewed :
    (now : ℕ) (d : ℤ) (b : Breaker) → b.generation < max_u64 → Renewed b (open_circuit now d b)
unfolding open_circuit
open_circuit-Renewed now d b l = (refl, omega arith, refl)

close_circuit-Renewed :
    (now : ℕ) (b : Breaker) → b.generation < max_u64 → Renewed b (close_circuit now b)
unfolding close_circuit
close_circuit-Renewed now b l = (refl, omega arith, refl)

count_request-Outcome :
    (now : ℕ) (config : BreakerPolicy) (failed : Bool) (b : Breaker)
    → b.generation < max_u64
    → Outcome 0 b (count_request now config failed b)
unfolding count_request
count_request-Outcome now config failed b l =
    let c = counted failed b in
    let opened = open_circuit now config.open_timeout c in
    if-Outcome 0 (trips config c) b opened c
      (inr (open_circuit-Renewed now config.open_timeout c l)) (inl (refl, refl, omega arith))

count_probe-Outcome :
    (now : ℕ) (config : BreakerPolicy) (failed : Bool) (b : Breaker)
    → b.generation < max_u64
    → Outcome 1 b (count_probe now config failed b)
unfolding count_probe
count_probe-Outcome now config failed b l =
    let opened = open_circuit now config.open_timeout (returned b) in
    let closed = close_circuit now (succeeded b) in
    let done = le_nat config.half_open_probes (suc b.probe_successes) in
    let rest = if done then closed else succeeded b in
    if-Outcome 1 failed b opened rest
      (inr (open_circuit-Renewed now config.open_timeout (returned b) l))
      (if-Outcome 1 done b closed (succeeded b) (inr (close_circuit-Renewed now (succeeded b) l))
        (inl (refl, refl, refl)))

-- How many probes a completion in this state gives back.
abbrev pub given : State → ℕ
given state_half_open = 1
given _ = 0

count-Outcome :
    (now : ℕ) (config : BreakerPolicy) (failed : Bool) (s : State) (b : Breaker)
    → b.generation < max_u64
    → Outcome (given s) b (count now config failed s b)
count-Outcome now config failed state_closed b l =
    let kept = roll_window-Kept now config.window b in
    let rolled : Breaker = roll_window now config.window b in
    elim (count_request-Outcome now config failed rolled (omega (arith, kept.1))) [
      | inl (a, g, q) ↦ inl (a ∙ kept.0, g ∙ kept.1, omega (arith, q, kept.2))
      | inr (a, g, q) ↦ inr (a, omega (arith, g, kept.1), q)
    ]
count-Outcome now config failed state_open b l = inl (refl, refl, omega arith)
count-Outcome now config failed state_half_open b l = count_probe-Outcome now config failed b l

-- A permit that matches the breaker's state is a probe if that state is half-open.
pub weight_matching :
    (g : ℕ) (p : Permit) (s : State)
    → (p.generation == g && state_eq p.state s) ≡ true
    → weight g p ≡ given s
weight_matching g p s e = ground arith

unmatched :
    (n g : ℕ) (p : Permit) (s : State)
    → (state_eq s state_half_open ≡ false → n ≡ 0)
    → (p.generation == g && state_eq p.state s) ≡ false
    → n ≡ n - weight g p
unmatched n g p s idle m = ground arith

pub complete-Outcome :
    (now : ℕ) (p : Permit) (e : Option Chain) (b : Breaker)
    → (state_eq b.state state_half_open ≡ false → b.probes_in_flight ≡ 0)
    → b.generation < max_u64
    → Outcome (weight b.generation p) b (complete now p e b)
unfolding complete
complete-Outcome now p e b idle l =
    elim (Bool-cases (p.generation == b.generation && state_eq p.state b.state)) [
      | inl m ↦
          rw (m, weight_matching b.generation p b.state m)
            (count-Outcome now p.config (instance_failure e) b.state b l)
      | inr m ↦ rw m (inl (refl, refl, unmatched b.probes_in_flight b.generation p b.state idle m))
    ]
