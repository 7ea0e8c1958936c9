-- ===== src/Governance/Breaker/Recovery.antt =====
-- governance/breaker/breaker.go: an opened breaker, until its deadline and after it.
use keelith.Prelude.{
  ℕ, zero, suc, ◌+◌, ◌≤◌, ◌<◌, leb, true, false, List, [], ◌∷◌, if◌then◌else◌, Option, none, some,
  ◌≡◌, refl, sym, ap, ◌∙◌, subst, arith, All, length, get_elem?,
}
use keelith.Prelude.Int.{pos}
use keelith.Prelude.Results.{Result, ok, err}
use keelith.Governance.Failure.{Chain}
use keelith.Governance.Breaker.{
  state_closed, state_open, state_half_open, state_eq, BreakerPolicy, Breaker, Permit, admit_probe,
  admit, allow, count_probe, complete, instance_failure, valid_policy, Error, close_circuit,
  permit_of,
}
use keelith.Governance.Breaker.World.{
  World, Step, allows, completes, step, serve, remove_at, remove_at-All, All-get, IsValid, handed,
  finished,
}

-- A call of Allow before a deadline. Done is free.
abbrev pub Before : ℕ → Step → Type 0
Before deadline (allows now config) = now < deadline
Before deadline (completes i now e) = Unit

abbrev Issued : World → Type 0
Issued w = All (λ p. state_eq p.state state_open ≡ false) w.permits

-- The breaker stays as it is, and permits are only given back.
abbrev pub Unmoved : World → World → Type 0
Unmoved w v = (v.breaker ≡ w.breaker) × (length v.permits ≤ length w.permits)

length-remove_at : (i : ℕ) (ps : List Permit) → length (remove_at i ps) ≤ length ps
unfolding remove_at
length-remove_at i [] = omega arith
length-remove_at zero (p ∷ ps) = omega arith
length-remove_at (suc i) (p ∷ ps) = omega (arith, length-remove_at i ps)

allow_rejects :
    (now : ℕ) (config : BreakerPolicy) (b : Breaker) (ps : List Permit)
    → b.state ≡ state_open
    → now < b.open_until
    → ((allow now config b).0 ≡ b) × (handed (allow now config b).1 ps ≡ ps)
unfolding allow admit
allow_rejects now config b ps s l = ground (arith)

complete_ignores :
    (now : ℕ) (p : Permit) (e : Option Chain) (b : Breaker)
    → b.state ≡ state_open
    → state_eq p.state state_open ≡ false
    → complete now p e b ≡ b
unfolding complete
complete_ignores now p e b s h = ground (arith)

finished-Unmoved :
    (i now : ℕ) (e : Option Chain) (w : World) (o : Option Permit)
    → get_elem? w.permits i ≡ o
    → w.breaker.state ≡ state_open
    → Issued w
    → Unmoved w (finished i now e w o) × Issued (finished i now e w o)
finished-Unmoved i now e w none f s issued = ((refl, omega arith), issued)
finished-Unmoved i now e w (some p) f s issued = (
  (
    complete_ignores now p e w.breaker s
        (All-get (λ q. state_eq q.state state_open ≡ false) i w.permits f issued),
    length-remove_at i w.permits,
  ),
  remove_at-All (λ q. state_eq q.state state_open ≡ false) i w.permits issued,
)

step-Unmoved :
    (x : Step) (w : World)
    → w.breaker.state ≡ state_open
    → Before w.breaker.open_until x
    → Issued w
    → Unmoved w (step x w) × Issued (step x w)
unfolding step
step-Unmoved (allows now config) w s l issued =
    let r = allow_rejects now config w.breaker w.permits s l in
    ((r.0, rw r.1 (omega arith)), rw r.1 issued)
step-Unmoved (completes i now e) w s l issued =
    finished-Unmoved i now e w (get_elem? w.permits i) refl s issued

serve-Unmoved :
    (xs : List Step) (w : World)
    → w.breaker.state ≡ state_open
    → All (Before w.breaker.open_until) xs
    → Issued w
    → Unmoved w (serve xs w)
unfolding serve
serve-Unmoved [] w s l issued = (refl, omega arith)
serve-Unmoved (x ∷ xs) w s l issued =
    let moved = step-Unmoved x w s l.0 issued in
    let rest = serve-Unmoved xs (step x w) (rw moved.0.0 s) (rw moved.0.0 l.1) moved.1 in
    (rest.0 ∙ moved.0.0, omega (arith, rest.1, moved.0.1))

-- From a valid world whose breaker is open, every history of calls in which Allow is called only
-- before the deadline leaves the breaker as it is, whatever the permits still held report, and
-- leaves no more permits held than before.
pub open_holds :
    {n : ℕ} (xs : List Step) (w : World)
    → IsValid n w
    → w.breaker.state ≡ state_open
    → All (Before w.breaker.open_until) xs
    → Unmoved w (serve xs w)
open_holds xs w v s l = serve-Unmoved xs w s l v.issued

-- What is left of Allow's result once the call has ended with the error e.
abbrev ended : ℕ → Option Chain → Breaker × Result Error (Option Permit) → Breaker
ended now e (b, err _) = b
ended now e (b, ok none) = b
ended now e (b, ok (some p)) = complete now p e b

-- One call through the breaker.
unfoldable pub call : ℕ → BreakerPolicy → Option Chain → Breaker → Breaker
call now config e b = ended now e (allow now config b)

unfoldable pub calls : ℕ → ℕ → BreakerPolicy → Option Chain → Breaker → Breaker
unfolding call
calls zero now config e b = b
calls (suc k) now config e b = calls k now config e (call now config e b)

-- A half-open breaker with so many probes in flight after k successes.
abbrev probing : ℕ → ℕ → Breaker → Breaker
probing m k b = record b { state = state_half_open; probes_in_flight = m; probe_successes = k }

-- What the policy says for a recovery with n probes.
abbrev pub Probes : ℕ → BreakerPolicy → Type 0
Probes n config =
    (config.enabled ≡ true) × (valid_policy config ≡ true) × (config.half_open_probes ≡ pos n)

allow-probing :
    (n k now : ℕ) (config : BreakerPolicy) (b : Breaker)
    → Probes n config
    → 0 < n
    → allow now config (probing 0 k b)
      ≡ (probing 1 k b, ok (some (permit_of config (probing 1 k b))))
unfolding allow admit admit_probe
allow-probing n k now config b (on, good, probes) l = ground arith

allow_expired :
    (n now : ℕ) (config : BreakerPolicy) (b : Breaker)
    → Probes n config
    → 0 < n
    → b.state ≡ state_open
    → b.open_until ≤ now
    → allow now config b ≡ (probing 1 0 b, ok (some (permit_of config (probing 1 0 b))))
unfolding allow admit admit_probe
allow_expired n now config b (on, good, probes) l s d = ground arith

complete-probing :
    (n k now : ℕ) (config : BreakerPolicy) (e : Option Chain) (b : Breaker)
    → config.half_open_probes ≡ pos n
    → instance_failure e ≡ false
    → complete now (permit_of config (probing 1 k b)) e (probing 1 k b)
      ≡ (if leb n (suc k) then close_circuit now (probing 0 (suc k) b) else probing 0 (suc k) b)
unfolding complete count_probe
complete-probing n k now config e b probes good = ground (arith)

-- The breaker after the success number k + 1 of n.
abbrev after_probe : ℕ → ℕ → ℕ → Breaker → Breaker
after_probe n k now b =
    if leb n (suc k) then close_circuit now (probing 0 (suc k) b) else probing 0 (suc k) b

leb-true : (a b : ℕ) → a ≤ b → leb a b ≡ true
leb-true a b l = ground arith

leb-false : (a b : ℕ) → b < a → leb a b ≡ false
leb-false a b l = ground arith

call-probing :
    (n k now : ℕ) (config : BreakerPolicy) (e : Option Chain) (b c : Breaker)
    → config.half_open_probes ≡ pos n
    → instance_failure e ≡ false
    → allow now config c ≡ (probing 1 k b, ok (some (permit_of config (probing 1 k b))))
    → call now config e c ≡ after_probe n k now b
unfolding call
call-probing n k now config e b c probes good a =
    ap (ended now e) a ∙ complete-probing n k now config e b probes good

abbrev pub Recovered : Breaker → Type 0
Recovered b = (b.state ≡ state_closed) × (b.requests ≡ 0) × (b.probes_in_flight ≡ 0)

-- The remaining calls, after a success that was not the last or that closed the breaker.
after_probe-Recovered :
    (m n k now : ℕ) (config : BreakerPolicy) (e : Option Chain) (b : Breaker)
    → Probes n config
    → instance_failure e ≡ false
    → k + suc m ≡ n
    → Recovered (calls m now config e (after_probe n k now b))
unfolding calls close_circuit
after_probe-Recovered zero n k now config e b p good l =
    rw (leb-true n (suc k) (omega arith)) (refl, refl, refl)
after_probe-Recovered (suc m) n k now config e b p good l =
    let next : Breaker = probing 0 (suc k) b in
    let admitted = allow-probing n (suc k) now config b p (omega arith) in
    let called = call-probing n (suc k) now config e b next p.2 good admitted in
    let rest = after_probe-Recovered m n (suc k) now config e b p good (omega arith) in
    rw (leb-false n (suc k) (omega arith))
      (subst (λ x. Recovered (calls m now config e x)) (sym called) rest)

-- From an open breaker whose deadline has passed, as many calls that end without a transport or
-- timeout failure as the policy asks for probes close it again, with no request counted and no
-- probe in flight. The policy is enabled and valid, and one caller makes the calls at one time.
pub open_recovers :
    (n now : ℕ) (config : BreakerPolicy) (e : Option Chain) (b : Breaker)
    → Probes (suc n) config
    → instance_failure e ≡ false
    → b.state ≡ state_open
    → b.open_until ≤ now
    → Recovered (calls (suc n) now config e b)
unfolding calls
open_recovers n now config e b p good s d =
    let admitted = allow_expired (suc n) now config b p (omega arith) s d in
    let called = call-probing (suc n) 0 now config e b b p.2 good admitted in
    let rest = after_probe-Recovered n (suc n) 0 now config e b p good (omega arith) in
    subst (λ x. Recovered (calls n now config e x)) (sym called) rest
