-- ===== src/Saga/Engine/Trace.antt =====
-- saga/engine.go: the handlers that a run has called, and what they say of its record.
use keelith.Prelude.{
  ℕ, zero, suc, ◌-◌, ◌≤◌, ◌<◌, Bool, true, false, List, [], ◌∷◌, length, if◌then◌else◌, Option,
  none, some, get_elem?, ◌≡◌, refl, sym, ap, ◌∙◌, subst, arith, ltb→lt,
}
use keelith.Prelude.Int.{ℤ, pos, negsuc, is_neg, lt_nat, to_nat, succ, pred}
use keelith.Saga.{
  Status, running, compensating, completed, compensated, failed, invalid_status, Phase, action,
  compensation, Step, Invocation,
}
use keelith.Saga.Engine.{Outcome, succeeds}

-- The step indices of the handlers of a phase that succeeded, the last one first.
pub succeeded_at : Phase → Outcome → ℤ → List ℤ → List ℤ
succeeded_at action succeeds index rest = index ∷ rest
succeeded_at _ _ index rest = rest

pub undone_at : Phase → Outcome → ℤ → List ℤ → List ℤ
undone_at compensation succeeds index rest = index ∷ rest
undone_at _ _ index rest = rest

unfoldable pub actions_done : List (Invocation × Outcome) → List ℤ
unfolding succeeded_at
actions_done [] = []
actions_done ((i, o) ∷ calls) = succeeded_at i.phase o i.step_index (actions_done calls)

unfoldable pub compensations_done : List (Invocation × Outcome) → List ℤ
unfolding undone_at
compensations_done [] = []
compensations_done ((i, o) ∷ calls) = undone_at i.phase o i.step_index (compensations_done calls)

-- k - 1, …, 1, 0
unfoldable pub down : ℕ → List ℤ
down zero = []
down (suc k) = pos k ∷ down k

abbrev pub compensates : Option Step → Bool
compensates none = false
compensates (some s) = s.has_compensate

abbrev pub has_compensation : List Step → ℕ → Bool
has_compensation steps i = compensates (get_elem? steps i)

-- Of the m steps from j on, those that have a compensation, in order.
unfoldable pub compensable : List Step → ℕ → ℕ → List ℤ
compensable steps j zero = []
compensable steps j (suc m) =
    let rest = compensable steps (suc j) m in
    if has_compensation steps j then pos j ∷ rest else rest

compensable-suc :
    (steps : List Step) (j k : ℕ)
    → j < k
    → compensable steps j (k - j) ≡ (
        if has_compensation steps j
        then pos j ∷ compensable steps (suc j) (k - suc j)
        else compensable steps (suc j) (k - suc j))
unfolding compensable
compensable-suc steps j k l = let e : k - j ≡ suc (k - suc j) = omega arith in rw e refl

-- What has been called when the run returns. The record of a running saga can be one action behind,
-- that of a compensating one a compensation.
abbrev pub Called : List Step → Status → ℤ → ℤ → List ℤ → List ℤ → Type 0
Called steps completed next index done undone = (done ≡ down (length steps)) × (undone ≡ [])
Called steps compensated next index done undone =
    (to_nat next ≤ length steps)
    × (done ≡ down (to_nat next))
    × (undone ≡ compensable steps 0 (to_nat next))
Called steps running next index done undone =
    (k : ℕ) × (to_nat next ≤ k)
    × (k ≤ suc (to_nat next))
    × (k ≤ length steps)
    × (done ≡ down k)
    × (undone ≡ [])
Called steps compensating next index done undone =
    (j : ℕ) × (to_nat index ≤ j)
    × (j ≤ to_nat (succ index))
    × (j ≤ to_nat next)
    × (to_nat next ≤ length steps)
    × (done ≡ down (to_nat next))
    × (undone ≡ compensable steps j (to_nat next - j))
Called steps _ next index done undone =
    (to_nat (succ index) ≤ to_nat next)
    × (to_nat next ≤ length steps)
    × (done ≡ down (to_nat next))
    × (undone ≡ compensable steps (to_nat (succ index)) (to_nat next - to_nat (succ index)))

-- What has been called at the top of the loop.
abbrev pub Traced : List Step → Status → ℤ → ℤ → List ℤ → List ℤ → Type 0
Traced steps running next index done undone =
    (next ≡ pos (to_nat next))
    × (to_nat next ≤ length steps)
    × (done ≡ down (to_nat next))
    × (undone ≡ [])
Traced steps compensating next index done undone =
    (next ≡ pos (to_nat next))
    × (to_nat next ≤ length steps)
    × (to_nat (succ index) ≤ to_nat next)
    × (done ≡ down (to_nat next))
    × (undone ≡ compensable steps (to_nat (succ index)) (to_nat next - to_nat (succ index)))
Traced steps s next index done undone = Called steps s next index done undone

pub Traced-status :
    (steps : List Step) {s t : Status} (next index : ℤ) (done undone : List ℤ)
    → s ≡ t
    → Traced steps s next index done undone
    → Traced steps t next index done undone
Traced-status steps next index done undone e h =
    subst (λ x. Traced steps x next index done undone) e h

pub advance-Traced :
    (steps : List Step) (next index : ℤ) (done undone : List ℤ)
    → to_nat next < length steps
    → Traced steps running next index done undone
    → Traced steps running (succ next) index (next ∷ done) undone
unfolding down
advance-Traced steps (pos k) index done undone l (e, n, d, u) =
    (refl, omega arith, ap (λ r. pos k ∷ r) d, u)
advance-Traced steps (negsuc k) index done undone l (e, n, d, u) = cc

pub turn-Traced :
    (steps : List Step) (next index : ℤ) (done undone : List ℤ)
    → Traced steps running next index done undone
    → Traced steps compensating next (pred next) done undone
unfolding compensable
turn-Traced steps (pos zero) index done undone (e, n, d, u) = (refl, n, omega arith, d, u)
turn-Traced steps (pos (suc k)) index done undone (e, n, d, u) =
    let none_left : suc k - suc k ≡ 0 = omega arith in (refl, n, omega arith, d, rw none_left u)
turn-Traced steps (negsuc k) index done undone (e, n, d, u) = cc

succ-pred : (z : ℤ) → succ (pred z) ≡ z
succ-pred (pos zero) = refl
succ-pred (pos (suc n)) = refl
succ-pred (negsuc n) = refl

compensable-all : (steps : List Step) (k : ℕ) → compensable steps 0 (k - 0) ≡ compensable steps 0 k
compensable-all steps k = let e : k - 0 ≡ k = omega arith in rw e refl

-- One step back: its compensation is the last one that has succeeded, if it has one.
back-Traced :
    (steps : List Step) (next : ℤ) (i : ℕ) (done undone : List ℤ)
    → Traced steps compensating next (pos i) done undone
    → Traced steps compensating next
        (pred (pos i))
        done
        (if has_compensation steps i then pos i ∷ undone else undone)
back-Traced steps next i done undone (e, n, l, d, u) =
    rw (succ-pred (pos i))
      (e, n, omega arith, d, rw u (sym (compensable-suc steps i (to_nat next) (omega arith))))

pub back_at :
    (steps : List Step) {s : Status} (next index : ℤ) (i : ℕ) (done undone : List ℤ) (step : Step)
    → s ≡ compensating
    → index ≡ pos i
    → get_elem? steps i ≡ some step
    → Traced steps s next index done undone
    → Traced steps s next (pred index) done (if step.has_compensate then index ∷ undone else undone)
back_at steps {s} next index i done undone step e p f t =
    let here : has_compensation steps i ≡ step.has_compensate = ap compensates f in
    let turned : Traced steps compensating next (pos i) done undone =
      subst (λ z. Traced steps compensating next z done undone) p
        (Traced-status steps next index done undone e t) in
    rw (e, p)
      (subst
        (λ h.
          Traced steps compensating next (pred (pos i)) done (if h then pos i ∷ undone else undone))
        here (back-Traced steps next i done undone turned))

pub finish-Traced :
    (steps : List Step) (next index : ℤ) (done undone : List ℤ)
    → is_neg index ≡ true
    → Traced steps compensating next index done undone
    → Traced steps compensated next index done undone
finish-Traced steps next (pos i) done undone h t = cc
finish-Traced steps next (negsuc zero) done undone h (e, n, l, d, u) =
    (n, d, u ∙ compensable-all steps (to_nat next))
finish-Traced steps next (negsuc (suc i)) done undone h (e, n, l, d, u) =
    (n, d, u ∙ compensable-all steps (to_nat next))

pub non_negative : (z : ℤ) → is_neg z ≡ false → (n : ℕ) × (z ≡ pos n)
non_negative (pos n) h = (n, refl)
non_negative (negsuc n) h = cc

pub below_steps :
    (steps : List Step) (next index : ℤ) (done undone : List ℤ)
    → lt_nat next (length steps) ≡ true
    → Traced steps running next index done undone
    → to_nat next < length steps
below_steps steps (pos k) index done undone l t = ltb→lt k (length steps) l
below_steps steps (negsuc k) index done undone l (e, n, d, u) = cc

pub all_done :
    (steps : List Step) (next index : ℤ) (done undone : List ℤ)
    → lt_nat next (length steps) ≡ false
    → Traced steps running next index done undone
    → Called steps completed next index done undone
all_done steps (pos k) index done undone l (e, n, d, u) =
    let same : k ≡ length steps = ground arith in (d ∙ ap down same, u)
all_done steps (negsuc k) index done undone l (e, n, d, u) = cc

index_below : (z : ℤ) → to_nat z ≤ to_nat (succ z)
index_below (pos n) = omega arith
index_below (negsuc zero) = omega arith
index_below (negsuc (suc n)) = omega arith

pub Traced-Called :
    (steps : List Step) (s : Status) (next index : ℤ) (done undone : List ℤ)
    → Traced steps s next index done undone
    → Called steps s next index done undone
Traced-Called steps running next index done undone (e, n, d, u) =
    (to_nat next, omega arith, omega arith, n, d, u)
Traced-Called steps compensating next index done undone (e, n, l, d, u) =
    (to_nat (succ index), index_below index, omega arith, l, n, d, u)
Traced-Called steps completed next index done undone t = t
Traced-Called steps compensated next index done undone t = t
Traced-Called steps failed next index done undone t = t
Traced-Called steps invalid_status next index done undone t = t

-- The action of the next step has succeeded, and the record is behind.
pub ahead-Called :
    (steps : List Step) (next index : ℤ) (done undone : List ℤ)
    → to_nat next < length steps
    → Traced steps running next index done undone
    → Called steps running next index (next ∷ done) undone
unfolding down
ahead-Called steps (pos k) index done undone l (e, n, d, u) =
    (suc k, omega arith, omega arith, omega (arith, l), ap (λ r. pos k ∷ r) d, u)
ahead-Called steps (negsuc k) index done undone l (e, n, d, u) = cc

-- The compensation of the step i has succeeded, and the record is behind.
pub behind-Called :
    (steps : List Step) (next : ℤ) (i : ℕ) (done undone : List ℤ)
    → Traced steps compensating next (pred (pos i)) done undone
    → Called steps compensating next (pos i) done undone
behind-Called steps next zero done undone (e, n, l, d, u) =
    (0, omega arith, omega arith, omega arith, n, d, u)
behind-Called steps next (suc i) done undone (e, n, l, d, u) =
    (suc i, omega arith, omega arith, omega (arith, l), n, d, u)

-- A compensation that is given up.
pub failed-Called :
    (steps : List Step) (next index : ℤ) (done undone : List ℤ)
    → Traced steps compensating next index done undone
    → Called steps failed next index done undone
failed-Called steps next index done undone (e, n, l, d, u) = (l, n, d, u)
