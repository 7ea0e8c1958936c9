-- ===== src/Governance/Breaker/Probes.antt =====
-- governance/breaker/breaker.go: the counter of probes in flight over a history of calls.
use keelith.Prelude.{
  ℕ, suc, ◌+◌, ◌≤◌, ◌<◌, ltb, Bool, true, false, List, [], ◌∷◌, if◌then◌else◌, Option, none, some,
  ◌≡◌, refl, sym, ap, ◌∙◌, inl, inr, arith, All, length, get_elem?, Bool-cases,
}
use keelith.Prelude.Int.{le_nat}
use keelith.Prelude.Words.{u64_mod, max_u64}
use keelith.Prelude.Results.{Result, ok, err}
use keelith.Governance.Failure.{Chain}
use keelith.Governance.Breaker.{
  State, state_closed, state_open, state_half_open, state_eq, BreakerPolicy, Breaker, Permit,
  roll_window, admit_probe, admit, allow, permit_of, half_open, complete, valid_policy, Error,
  invalid_policy,
}
use keelith.Governance.Breaker.World.{
  allows, completes, World, Step, remove_at, handed, finished, step, serve, new_world, weight,
  probes_held, IsValid, probes_held-later, probes_held-remove_at, remove_at-All, All-later,
}
use keelith.Governance.Breaker.Outcomes.{
  Kept, roll_window-Kept, given, weight_matching, complete-Outcome,
}

complete-IsValid :
    (n now i : ℕ) (p : Permit) (e : Option Chain) (w : World)
    → IsValid n w
    → w.breaker.generation < max_u64
    → get_elem? w.permits i ≡ some p
    → IsValid n (record { breaker = complete now p e w.breaker; permits = remove_at i w.permits })
complete-IsValid n now i p e w v l found =
    let g = w.breaker.generation in
    let removed = probes_held-remove_at g i w.permits found in
    let kept = remove_at-All (λ q. q.generation ≤ g) i w.permits v.past in
    let issued = remove_at-All (λ q. state_eq q.state state_open ≡ false) i w.permits v.issued in
    elim (complete-Outcome now p e w.breaker v.idle l) [
      | inl (s, h, q) ↦ record {
        exact = rw (h, q) (omega (arith, removed, v.exact));
        idle = λ k. omega (arith, q, v.idle (sym (ap (λ t. state_eq t state_half_open) s) ∙ k));
        past = rw h kept;
        bounded = omega (arith, q, v.bounded);
        issued = issued;
      }
      | inr (s, h, q) ↦ record {
        exact =
            rw (h, q)
              (sym (probes_held-later g (suc g) (remove_at i w.permits) kept (omega arith)));
        idle = λ k. q;
        past = rw h (All-later g (suc g) (remove_at i w.permits) (omega arith) kept);
        bounded = omega (arith, q);
        issued = issued;
      }
    ]

-- What a call of Allow asks of its policy: no more than n probes.
abbrev Limited : ℕ → Step → Type 0
Limited n (allows now config) = le_nat config.half_open_probes n ≡ true
Limited n (completes i now e) = Unit

abbrev with_permits : Breaker → List Permit → World
with_permits b ps = record { breaker = b; permits = ps }

-- The world after Allow's result.
abbrev given_out : Breaker × Result Error (Option Permit) → List Permit → World
given_out r ps = with_permits r.0 (handed r.1 ps)

Kept-IsValid :
    (n : ℕ) (b c : Breaker) (ps : List Permit)
    → Kept 0 b c
    → IsValid n (with_permits b ps)
    → IsValid n (with_permits c ps)
Kept-IsValid n b c ps (s, g, q) v = record {
  exact = rw (g, q) (omega (arith, v.exact));
  idle = λ k. omega (arith, q, v.idle (sym (ap (λ t. state_eq t state_half_open) s) ∙ k));
  past = rw g v.past;
  bounded = omega (arith, q, v.bounded);
  issued = v.issued;
}

permit-weight :
    (config : BreakerPolicy) (b : Breaker) (s : State)
    → b.state ≡ s
    → weight b.generation (permit_of config b) ≡ given s
permit-weight config b s e = weight_matching b.generation (permit_of config b) s (ground arith)

closed_permit-IsValid :
    (n : ℕ) (config : BreakerPolicy) (b : Breaker) (ps : List Permit)
    → b.state ≡ state_closed
    → IsValid n (with_permits b ps)
    → IsValid n (with_permits b (permit_of config b ∷ ps))
unfolding probes_held
closed_permit-IsValid n config b ps s v = record {
  exact = omega (arith, v.exact, permit-weight config b state_closed s);
  idle = v.idle;
  past = (omega arith, v.past);
  bounded = v.bounded;
  issued = (ap (λ t. state_eq t state_open) s, v.issued);
}

admit_probe-IsValid :
    (n : ℕ) (config : BreakerPolicy) (b : Breaker) (ps : List Permit)
    → b.state ≡ state_half_open
    → le_nat config.half_open_probes n ≡ true
    → IsValid n (with_permits b ps)
    → IsValid n (given_out (admit_probe config b) ps)
unfolding admit_probe probes_held
admit_probe-IsValid n config b ps s limited v =
    elim (Bool-cases (le_nat config.half_open_probes b.probes_in_flight)) [
      | inl e ↦ rw e v
      | inr e ↦ rw e (record {
        exact = omega (arith, v.exact, permit-weight config b state_half_open s);
        idle = λ k. absurd (ground arith);
        past = (omega arith, v.past);
        bounded = ground arith;
        issued = (ap (λ t. state_eq t state_open) s, v.issued);
      })
    ]

half_open-IsValid :
    (n : ℕ) (b : Breaker) (ps : List Permit)
    → b.state ≡ state_open
    → IsValid n (with_permits b ps)
    → IsValid n (with_permits (half_open b) ps)
half_open-IsValid n b ps s v = record {
  exact = sym (v.idle (rw s refl)) ∙ v.exact;
  idle = λ k. refl;
  past = v.past;
  bounded = omega arith;
  issued = v.issued;
}

admit-IsValid :
    (n now : ℕ) (config : BreakerPolicy) (s : State) (b : Breaker) (ps : List Permit)
    → b.state ≡ s
    → le_nat config.half_open_probes n ≡ true
    → IsValid n (with_permits b ps)
    → IsValid n (given_out (admit now config s b) ps)
unfolding admit
admit-IsValid n now config state_closed b ps s limited v =
    let kept = roll_window-Kept now config.window b in
    let rolled = roll_window now config.window b in
    closed_permit-IsValid n config rolled ps (kept.0 ∙ s) (Kept-IsValid n b rolled ps kept v)
admit-IsValid n now config state_open b ps s limited v = elim (Bool-cases (ltb now b.open_until)) [
  | inl e ↦ rw e v
  | inr e ↦
      rw e
        (admit_probe-IsValid n config (half_open b) ps refl limited (half_open-IsValid n b ps s v))
]
admit-IsValid n now config state_half_open b ps s limited v =
    admit_probe-IsValid n config b ps s limited v

if-IsValid :
    (n : ℕ) (t : Bool) (q r : Breaker × Result Error (Option Permit)) (ps : List Permit)
    → IsValid n (given_out q ps)
    → IsValid n (given_out r ps)
    → IsValid n (given_out (if t then q else r) ps)
if-IsValid n true q r ps h g = h
if-IsValid n false q r ps h g = g

allow-IsValid :
    (n now : ℕ) (config : BreakerPolicy) (b : Breaker) (ps : List Permit)
    → le_nat config.half_open_probes n ≡ true
    → IsValid n (with_permits b ps)
    → IsValid n (given_out (allow now config b) ps)
unfolding allow
allow-IsValid n now config b ps limited v =
    let admitted = admit now config b.state b in
    let judged = if valid_policy config then admitted else (b, err invalid_policy) in
    if-IsValid n config.enabled judged (b, ok none) ps
      (if-IsValid n (valid_policy config) admitted (b, err invalid_policy) ps
        (admit-IsValid n now config b.state b ps refl limited v) v)
      v

allow-generation :
    (now : ℕ) (config : BreakerPolicy) (b : Breaker)
    → (allow now config b).0.generation ≡ b.generation
unfolding allow admit admit_probe roll_window
allow-generation now config b = ground arith

-- The world is valid, of the generation g or the next.
abbrev Stepped : ℕ → ℕ → World → Type 0
Stepped n g w = IsValid n w × (w.breaker.generation ≤ suc g)

finished-Stepped :
    (n i now : ℕ) (e : Option Chain) (w : World) (o : Option Permit)
    → get_elem? w.permits i ≡ o
    → w.breaker.generation < max_u64
    → IsValid n w
    → Stepped n w.breaker.generation (finished i now e w o)
finished-Stepped n i now e w none f l v = (v, omega arith)
finished-Stepped n i now e w (some p) f l v = (
  complete-IsValid n now i p e w v l f,
  (elim (complete-Outcome now p e w.breaker v.idle l) [
    | inl k ↦ omega (arith, k.1)
    | inr k ↦ omega (arith, k.1)
  ]),
)

step-Stepped :
    (n : ℕ) (x : Step) (w : World)
    → Limited n x
    → w.breaker.generation < max_u64
    → IsValid n w
    → Stepped n w.breaker.generation (step x w)
unfolding step
step-Stepped n (allows now config) w limited l v = (
  allow-IsValid n now config w.breaker w.permits limited v,
  omega (arith, allow-generation now config w.breaker),
)
step-Stepped n (completes i now e) w limited l v =
    finished-Stepped n i now e w (get_elem? w.permits i) refl l v

serve_from-IsValid :
    (n : ℕ) (xs : List Step) (w : World)
    → All (Limited n) xs
    → w.breaker.generation + length xs < u64_mod
    → IsValid n w
    → IsValid n (serve xs w)
unfolding serve
serve_from-IsValid n [] w limited l v = v
serve_from-IsValid n (x ∷ xs) w limited l v =
    let next = step-Stepped n x w limited.0 (omega arith) v in
    serve_from-IsValid n xs (step x w) limited.1 (omega (arith, next.1)) next.0

-- After fewer than 2 ^ 64 calls of Allow and Done on a new breaker, by policies of which none asks
-- for more than n probes, the counter of probes in flight is the number of permits of the current
-- generation that were admitted in the half-open state and are still held: at most n. Outside the
-- half-open state there are none, and no permit is ahead of the breaker's generation or was issued
-- in the open state.
pub serve-IsValid :
    (n : ℕ) (xs : List Step)
    → All (Limited n) xs
    → length xs < u64_mod
    → IsValid n (serve xs new_world)
unfolding probes_held
serve-IsValid n xs limited l =
    serve_from-IsValid n xs new_world limited (omega arith)
      (record { exact = refl; idle = λ k. refl; past = tt; bounded = omega arith; issued = tt })
