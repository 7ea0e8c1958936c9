-- ===== src/Governance/Breaker/World.antt =====
-- governance/breaker/breaker.go: a breaker together with the permits that its callers still hold.
-- Permit.Done runs once, so a permit is gone when it is completed.
use mathlib.Core.Option.{some-injective}
use keelith.Prelude.{
  ℕ, zero, suc, ◌+◌, ◌≤◌, ◌<◌, ◌==◌, false, ◌&&◌, List, [], ◌∷◌, if◌then◌else◌, Option, none, some,
  ◌≡◌, refl, subst, arith, All, get_elem?,
}
use keelith.Prelude.Results.{Result, ok, err}
use keelith.Governance.Failure.{Chain}
use keelith.Governance.Breaker.{
  state_open, state_half_open, state_eq, BreakerPolicy, Breaker, Permit, new_breaker, allow,
  complete, Error,
}

pub record World : Type 0 where
  pub breaker : Breaker
  pub permits : List Permit

pub data Step : Type 0 where
  allows : ℕ → BreakerPolicy → Step
  completes : ℕ → ℕ → Option Chain → Step

unfoldable pub remove_at : ℕ → List Permit → List Permit
remove_at i [] = []
remove_at zero (p ∷ ps) = ps
remove_at (suc i) (p ∷ ps) = p ∷ remove_at i ps

abbrev pub handed : Result Error (Option Permit) → List Permit → List Permit
handed (ok (some p)) ps = p ∷ ps
handed (ok none) ps = ps
handed (err _) ps = ps

-- Done of the permit that was found, if it is still held.
abbrev pub finished : ℕ → ℕ → Option Chain → World → Option Permit → World
finished i now e w none = w
finished i now e w (some p) = record {
  breaker = complete now p e w.breaker;
  permits = remove_at i w.permits;
}

unfoldable pub step : Step → World → World
unfolding remove_at
step (allows now config) w =
    let r = allow now config w.breaker in record { breaker = r.0; permits = handed r.1 w.permits }
step (completes i now e) w = finished i now e w (get_elem? w.permits i)

unfoldable pub serve : List Step → World → World
unfolding step
serve [] w = w
serve (x ∷ xs) w = serve xs (step x w)

abbrev pub new_world : World
new_world = record { breaker = new_breaker; permits = [] }

-- A probe of the generation g, as a number.
abbrev pub weight : ℕ → Permit → ℕ
weight g p = if p.generation == g && state_eq p.state state_half_open then 1 else 0

-- How many probes of the generation g are still held.
unfoldable pub probes_held : ℕ → List Permit → ℕ
probes_held g [] = 0
probes_held g (p ∷ ps) = weight g p + probes_held g ps

pub record IsValid (n : ℕ) (w : World) : Type 0 where
  pub exact : w.breaker.probes_in_flight ≡ probes_held w.breaker.generation w.permits
  pub idle : state_eq w.breaker.state state_half_open ≡ false → w.breaker.probes_in_flight ≡ 0
  pub past : All (λ p. p.generation ≤ w.breaker.generation) w.permits
  pub bounded : w.breaker.probes_in_flight ≤ n
  pub issued : All (λ p. state_eq p.state state_open ≡ false) w.permits

pub probes_held-later :
    (g h : ℕ) (ps : List Permit) → All (λ p. p.generation ≤ g) ps → g < h → probes_held h ps ≡ 0
unfolding probes_held
probes_held-later g h [] a l = refl
probes_held-later g h (p ∷ ps) a l = ground (arith, probes_held-later g h ps a.1 l, a.0)

pub probes_held-remove_at :
    (g i : ℕ) (ps : List Permit) {p : Permit}
    → get_elem? ps i ≡ some p
    → probes_held g ps ≡ weight g p + probes_held g (remove_at i ps)
unfolding probes_held remove_at
probes_held-remove_at g i [] e = cc
probes_held-remove_at g zero (q ∷ ps) {p} e = ground (arith)
probes_held-remove_at g (suc i) (q ∷ ps) {p} e = omega (arith, probes_held-remove_at g i ps e)

pub remove_at-All {κ} :
    (P : Permit → Type κ) (i : ℕ) (ps : List Permit) → All P ps → All P (remove_at i ps)
unfolding remove_at
remove_at-All P i [] a = tt
remove_at-All P zero (p ∷ ps) a = a.1
remove_at-All P (suc i) (p ∷ ps) a = (a.0, remove_at-All P i ps a.1)

pub All-later :
    (g h : ℕ) (ps : List Permit)
    → g ≤ h
    → All (λ p. p.generation ≤ g) ps
    → All (λ p. p.generation ≤ h) ps
All-later g h [] l a = tt
All-later g h (p ∷ ps) l a = (omega (arith, a.0), All-later g h ps l a.1)

pub All-get {κ} :
    (P : Permit → Type κ) (i : ℕ) (ps : List Permit) {p : Permit}
    → get_elem? ps i ≡ some p
    → All P ps
    → P p
All-get P i [] f a = cc
All-get P zero (q ∷ ps) {p} f a = subst P (some-injective q p f) a.0
All-get P (suc i) (q ∷ ps) f a = All-get P i ps f a.1
