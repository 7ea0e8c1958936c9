-- ===== src/Governance/Breaker.antt =====
-- governance/breaker/breaker.go: one circuit breaker as a state machine. The clock's time is an
-- argument, in nanoseconds since the zero time; an atomic step is what the mutex guards.
use keelith.Prelude.{
  ℕ, ◌+◌, ◌-◌, ◌==◌, leb, ltb, not, Bool, true, false, ◌&&◌, ◌||◌, if◌then◌else◌, Option, none,
  some, suc,
}
use keelith.Prelude.Int.{ℤ, is_pos, to_nat, le_nat}
use keelith.Prelude.Words.{add_u64}
use keelith.Prelude.Floats.{Float, not_positive, above_one, ratio_reaches}
use keelith.Prelude.Results.{Result, ok, err}
use keelith.Governance.Failure.{Kind, transport, timeout, Chain, classify}
pub mod World
pub mod Outcomes
pub mod Probes
pub mod Recovery
pub mod Healthy

pub data State : Type 0 where
  state_closed : State
  state_open : State
  state_half_open : State

abbrev pub state_eq : State → State → Bool
state_eq state_closed state_closed = true
state_eq state_open state_open = true
state_eq state_half_open state_half_open = true
state_eq _ _ = false

pub data Error : Type 0 where
  open_error : Error
  invalid_policy : Error

-- policy.BreakerPolicy
pub record BreakerPolicy : Type 0 where
  pub enabled : Bool
  pub failure_ratio : Float
  pub window : ℤ
  pub min_requests : ℤ
  pub open_timeout : ℤ
  pub half_open_probes : ℤ

-- The counts probes_in_flight and probe_successes start at 0 and are not lowered below it.
pub record Breaker : Type 0 where
  pub state : State
  pub window_start : ℕ
  pub requests : ℕ
  pub failures : ℕ
  pub open_until : ℕ
  pub probes_in_flight : ℕ
  pub probe_successes : ℕ
  pub generation : ℕ

-- The permit of an enabled breaker.
pub record Permit : Type 0 where
  pub config : BreakerPolicy
  pub state : State
  pub generation : ℕ

abbrev pub new_breaker : Breaker
new_breaker = record {
  state = state_closed;
  window_start = 0;
  requests = 0;
  failures = 0;
  open_until = 0;
  probes_in_flight = 0;
  probe_successes = 0;
  generation = 0;
}

-- validate
unfoldable pub valid_policy : BreakerPolicy → Bool
unfolding not_positive above_one
valid_policy c = not (
    not_positive c.failure_ratio
    || (above_one c.failure_ratio
        || (not (is_pos c.window)
            || (not (is_pos c.min_requests)
                || (not (is_pos c.open_timeout) || not (is_pos c.half_open_probes))))))

-- rollWindow, of a positive window.
unfoldable pub roll_window : ℕ → ℤ → Breaker → Breaker
roll_window now window b =
    if b.window_start == 0 || (le_nat window (now - b.window_start) || ltb now b.window_start)
    then record b { window_start = now; requests = 0; failures = 0 }
    else b

-- The breaker's open, of a positive duration.
unfoldable pub open_circuit : ℕ → ℤ → Breaker → Breaker
open_circuit now duration b = record b {
  state = state_open;
  open_until = now + to_nat duration;
  probes_in_flight = 0;
  probe_successes = 0;
  generation = add_u64 b.generation 1;
}

-- The breaker's close.
unfoldable pub close_circuit : ℕ → Breaker → Breaker
close_circuit now b = record b {
  state = state_closed;
  window_start = now;
  requests = 0;
  failures = 0;
  open_until = 0;
  probes_in_flight = 0;
  probe_successes = 0;
  generation = add_u64 b.generation 1;
}

-- instanceFailure
unfoldable pub instance_failure : Option Chain → Bool
unfolding classify
instance_failure e = elim (classify e) [ transport ↦ true | timeout ↦ true | _ ↦ false ]

abbrev pub permit_of : BreakerPolicy → Breaker → Permit
permit_of config b = record { config = config; state = b.state; generation = b.generation }

-- Allow, of a half-open breaker.
unfoldable pub admit_probe : BreakerPolicy → Breaker → Breaker × Result Error (Option Permit)
admit_probe config b =
    if le_nat config.half_open_probes b.probes_in_flight
    then (b, err open_error)
    else (record b { probes_in_flight = suc b.probes_in_flight }, ok (some (permit_of config b)))

-- The half-open state that Allow enters once the deadline has passed.
abbrev pub half_open : Breaker → Breaker
half_open b = record b { state = state_half_open; probes_in_flight = 0; probe_successes = 0 }

-- The switch of Allow and what follows it.
unfoldable pub admit : ℕ → BreakerPolicy → State → Breaker → Breaker × Result Error (Option Permit)
unfolding roll_window admit_probe
admit now config state_closed b =
    let rolled = roll_window now config.window b in (rolled, ok (some (permit_of config rolled)))
admit now config state_open b =
    if ltb now b.open_until then (b, err open_error) else admit_probe config (half_open b)
admit now config state_half_open b = admit_probe config b

-- Allow. A disabled policy gives the empty permit.
unfoldable pub allow : ℕ → BreakerPolicy → Breaker → Breaker × Result Error (Option Permit)
unfolding admit valid_policy
allow now config b =
    if config.enabled
    then (if valid_policy config then admit now config b.state b else (b, err invalid_policy))
    else (b, ok none)

-- The counters after one more request.
abbrev pub counted : Bool → Breaker → Breaker
counted failed b = record b {
  requests = add_u64 b.requests 1;
  failures = if failed then add_u64 b.failures 1 else b.failures;
}

-- The test that opens a closed breaker.
abbrev pub trips : BreakerPolicy → Breaker → Bool
trips config b =
    le_nat config.min_requests b.requests
    && ratio_reaches b.failures b.requests config.failure_ratio

-- The closed case of complete, of a window that is rolled already.
unfoldable pub count_request : ℕ → BreakerPolicy → Bool → Breaker → Breaker
unfolding open_circuit
count_request now config failed b =
    let c = counted failed b in if trips config c then open_circuit now config.open_timeout c else c

abbrev pub returned : Breaker → Breaker
returned b = record b { probes_in_flight = b.probes_in_flight - 1 }

abbrev pub succeeded : Breaker → Breaker
succeeded b = record (returned b) { probe_successes = suc b.probe_successes }

-- The half-open case of complete.
unfoldable pub count_probe : ℕ → BreakerPolicy → Bool → Breaker → Breaker
unfolding open_circuit close_circuit
count_probe now config failed b =
    if failed
    then open_circuit now config.open_timeout (returned b)
    else if le_nat config.half_open_probes (suc b.probe_successes)
    then close_circuit now (succeeded b)
    else succeeded b

abbrev pub count : ℕ → BreakerPolicy → Bool → State → Breaker → Breaker
count now config failed state_closed b =
    count_request now config failed (roll_window now config.window b)
count now config failed state_open b = b
count now config failed state_half_open b = count_probe now config failed b

-- complete
unfoldable pub complete : ℕ → Permit → Option Chain → Breaker → Breaker
unfolding roll_window count_request count_probe instance_failure
complete now p e b =
    if p.generation == b.generation && state_eq p.state b.state
    then count now p.config (instance_failure e) b.state b
    else b
