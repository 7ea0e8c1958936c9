-- ===== src/Saga/Engine/Termination.antt =====
-- saga/engine.go: the loop of Run ends.
use keelith.Prelude.{
  ℕ, ◌+◌, ◌-◌, ◌*◌, ◌≤◌, ◌<◌, true, false, List, [], ◌∷◌, length, Option, none, some, get_elem?,
  ◌≡◌, refl, inl, inr, arith, Bool-cases, Option-cases,
}
use keelith.Prelude.Int.{ℤ, pos, negsuc, is_neg, lt_nat, to_nat, succ}
use keelith.Prelude.Results.{ok}
use keelith.Saga.{
  Status, running, compensating, completed, compensated, failed, invalid_status, Step, Record,
  Error, valid_record, well_formed,
}
use keelith.Saga.Repository.{RepositoryOf}
use keelith.Saga.Engine.{
  Outcome, succeeds, fails, fails_ended, Event, Run, Pass, again, returns, Config, started,
  position,
}
use keelith.Saga.Engine.Passes.{
  after_action, run_action, complete, at_step, pass_running, after_compensation, compensate,
  finish_compensation, pass_compensating, pass_live, pass, loop, onward,
}
use keelith.Saga.Engine.Saving.{saving-rule}

-- How many passes are left at most, of a definition with n steps.
measure : ℕ → Status → ℤ → ℤ → ℕ
measure n running next index = n - to_nat next + n + 3
measure n compensating next index = to_nat (succ index) + 2
measure n _ next index = 1

non_negative : (z : ℤ) → is_neg z ≡ false → (n : ℕ) × (z ≡ pos n)
non_negative (pos n) h = (n, refl)
non_negative (negsuc n) h = cc

measure-positive : (n : ℕ) (s : Status) (next index : ℤ) → ¬ (measure n s next index ≤ 0)
unfolding measure
measure-positive n s next index l = ground arith

measure_bound :
    (n : ℕ) (s : Status) (next index : ℤ)
    → lt_nat index n ≡ true
    → measure n s next index ≤ 2 * n + 3
unfolding measure
measure_bound n s next index l = ground arith

valid_record-next : (r : Record) → valid_record r ≡ true → is_neg r.next_step ≡ false
unfolding valid_record well_formed
valid_record-next r e = ground arith

module _ {S : Type 0} (repository : RepositoryOf S) (c : Config) (fence : ℕ) where
  abbrev measure_of : Record → ℕ
  measure_of r = measure (length c.definition.steps) r.status r.next_step r.compensation_index

  -- A pass that goes on has fewer than m passes left.
  abbrev Lowers : ℕ → Pass S → Type 0
  Lowers m (again v) = (is_neg v.current.next_step ≡ false) × (measure_of v.current < m)
  Lowers m (returns v e) = Unit

  at_step-Lowers :
      (m : ℕ) (body : Step → Run S → Pass S) (o : Option Step) (w : Run S)
      → ((step : Step) → Lowers m (body step w))
      → Lowers m (at_step repository c fence body o w)
  at_step-Lowers m body none w h = tt
  at_step-Lowers m body (some step) w h = h step

  after_action-Lowers :
      (ev : Event) (o : Outcome) (w : Run S) (k : ℕ)
      → w.current.status ≡ running
      → w.current.next_step ≡ pos k
      → k < length c.definition.steps
      → Lowers (measure_of w.current) (after_action repository c fence ev o w)
  unfolding after_action measure
  after_action-Lowers ev (fails_ended e) w k s p l = tt
  after_action-Lowers ev (fails e) w k s p l =
      saving-rule repository c fence (Lowers (measure_of w.current)) ev.second ev.second_now _ _ _ _
        (λ x. ground arith) (λ e. tt)
  after_action-Lowers ev succeeds w k s p l =
      saving-rule repository c fence (Lowers (measure_of w.current)) ev.second ev.second_now _ _ _ _
        (λ x. ground arith) (λ e. tt)

  run_action-Lowers :
      (ev : Event) (step : Step) (w : Run S) (k : ℕ)
      → w.current.status ≡ running
      → w.current.next_step ≡ pos k
      → k < length c.definition.steps
      → Lowers (measure_of w.current) (run_action repository c fence ev step w)
  unfolding run_action
  run_action-Lowers ev step w k s p l =
      saving-rule repository c fence (Lowers (measure_of w.current)) ev.first ev.first_now _ _ _ _
        (λ x. after_action-Lowers ev ev.outcome _ k s p l) (λ e. tt)

  complete-Lowers :
      (ev : Event) (w : Run S)
      → w.current.status ≡ running
      → is_neg w.current.next_step ≡ false
      → Lowers (measure_of w.current) (complete repository c fence ev w)
  unfolding complete measure
  complete-Lowers ev w s p =
      saving-rule repository c fence (Lowers (measure_of w.current)) ev.first ev.first_now _ _ _ _
        (λ x. ground arith) (λ e. tt)

  pass_running-Lowers :
      (ev : Event) (w : Run S)
      → w.current.status ≡ running
      → is_neg w.current.next_step ≡ false
      → Lowers (measure_of w.current) (pass_running repository c fence ev w)
  unfolding pass_running
  pass_running-Lowers ev w s p =
      let (k, e) = non_negative w.current.next_step p in
      elim (Bool-cases (lt_nat w.current.next_step (length c.definition.steps))) [
        | inl l ↦ rw l (
            at_step-Lowers (measure_of w.current) (run_action repository c fence ev)
              (get_elem? c.definition.steps (to_nat w.current.next_step)) w
              (λ step. run_action-Lowers ev step w k s e (ground arith)))
        | inr l ↦ rw l (complete-Lowers ev w s p)
      ]

  -- The compensating passes, at an index that is not negative.
  after_compensation-Lowers :
      (ev : Event) (o : Outcome) (w : Run S) (i : ℕ)
      → w.current.status ≡ compensating
      → is_neg w.current.next_step ≡ false
      → w.current.compensation_index ≡ pos i
      → Lowers (measure_of w.current) (after_compensation repository c fence ev o w)
  unfolding after_compensation measure
  after_compensation-Lowers ev (fails_ended e) w i s n p = tt
  after_compensation-Lowers ev (fails e) w i s n p =
      saving-rule repository c fence (Lowers (measure_of w.current)) ev.second ev.second_now _ _ _ _
        (λ x. ground arith) (λ e. tt)
  after_compensation-Lowers ev succeeds w i s n p =
      saving-rule repository c fence (Lowers (measure_of w.current)) ev.second ev.second_now _ _ _ _
        (λ x. ground arith) (λ e. tt)

  compensate-Lowers :
      (ev : Event) (step : Step) (w : Run S) (i : ℕ)
      → w.current.status ≡ compensating
      → is_neg w.current.next_step ≡ false
      → w.current.compensation_index ≡ pos i
      → Lowers (measure_of w.current) (compensate repository c fence ev step w)
  unfolding compensate measure
  compensate-Lowers ev step w i s n p = elim (Bool-cases step.has_compensate) [
    | inl h ↦ rw h (
        saving-rule repository c fence (Lowers (measure_of w.current)) ev.first ev.first_now _ _ _ _
          (λ x. after_compensation-Lowers ev ev.outcome _ i s n p) (λ e. tt))
    | inr h ↦ rw h (
        saving-rule repository c fence (Lowers (measure_of w.current)) ev.first ev.first_now _ _ _ _
          (λ x. ground arith) (λ e. tt))
  ]

  finish_compensation-Lowers :
      (ev : Event) (w : Run S)
      → w.current.status ≡ compensating
      → is_neg w.current.next_step ≡ false
      → Lowers (measure_of w.current) (finish_compensation repository c fence ev w)
  unfolding finish_compensation measure
  finish_compensation-Lowers ev w s n =
      saving-rule repository c fence (Lowers (measure_of w.current)) ev.first ev.first_now _ _ _ _
        (λ x. ground arith) (λ e. tt)

  pass_compensating-Lowers :
      (ev : Event) (w : Run S)
      → w.current.status ≡ compensating
      → is_neg w.current.next_step ≡ false
      → Lowers (measure_of w.current) (pass_compensating repository c fence ev w)
  unfolding pass_compensating
  pass_compensating-Lowers ev w s n = elim (Bool-cases (is_neg w.current.compensation_index)) [
    | inl h ↦ rw h (finish_compensation-Lowers ev w s n)
    | inr h ↦
        let (i, e) = non_negative w.current.compensation_index h in
        rw h (
          at_step-Lowers (measure_of w.current) (compensate repository c fence ev)
            (get_elem? c.definition.steps (to_nat w.current.compensation_index)) w
            (λ step. compensate-Lowers ev step w i s n e))
  ]

  pass_live-Lowers :
      (ev : Event) (s : Status) (w : Run S)
      → w.current.status ≡ s
      → is_neg w.current.next_step ≡ false
      → Lowers (measure_of w.current) (pass_live repository c fence ev s w)
  unfolding pass_live
  pass_live-Lowers ev completed w e n = tt
  pass_live-Lowers ev compensated w e n = tt
  pass_live-Lowers ev failed w e n = tt
  pass_live-Lowers ev invalid_status w e n = tt
  pass_live-Lowers ev running w e n = pass_running-Lowers ev w e n
  pass_live-Lowers ev compensating w e n = pass_compensating-Lowers ev w e n

  pass-Lowers :
      (ev : Event) (w : Run S)
      → is_neg w.current.next_step ≡ false
      → Lowers (measure_of w.current) (pass repository c fence ev w)
  unfolding pass
  pass-Lowers ev w n = elim (Option-cases ev.ended) [
    | inl e ↦ rw e (pass_live-Lowers ev w.current.status w refl n)
    | inr (x, e) ↦ rw e tt
  ]

  -- The loop has returned.
  abbrev pub Ends : Pass S → Type 0
  Ends p = (v : Run S) × (e : Option Error) × (p ≡ returns v e)

  onward-Ends :
      (m : ℕ) (next : Run S → Pass S) (p : Pass S)
      → Lowers m p
      → ((v : Run S)
          → is_neg v.current.next_step ≡ false
          → measure_of v.current < m
          → Ends (next v))
      → Ends (onward repository c fence next p)
  onward-Ends m next (again v) l h = h v l.0 l.1
  onward-Ends m next (returns v e) l h = (v, e, refl)

  loop-Ends :
      (evs : List Event) (w : Run S)
      → is_neg w.current.next_step ≡ false
      → measure_of w.current ≤ length evs
      → Ends (loop repository c fence evs w)
  unfolding loop
  loop-Ends [] w n l = absurd (
      measure-positive (length c.definition.steps) w.current.status w.current.next_step
        w.current.compensation_index l)
  loop-Ends (ev ∷ evs) w n l =
      onward-Ends (measure_of w.current) (loop repository c fence evs)
        (pass repository c fence ev w) (pass-Lowers ev w n)
        (λ v p q. loop-Ends evs v p (omega (arith, q)))

  position-bounds :
      (r : Record)
      → position c r ≡ ok tt
      → (is_neg r.next_step ≡ false)
        × (lt_nat r.compensation_index (length c.definition.steps) ≡ true)
  unfolding position
  position-bounds r e =
      let v : valid_record r ≡ true = ground arith in (valid_record-next r v, ground arith)

  position-measure :
      (r : Record) → position c r ≡ ok tt → measure_of r ≤ 2 * length c.definition.steps + 3
  position-measure r e =
      measure_bound (length c.definition.steps) r.status r.next_step r.compensation_index
        (position-bounds r e).1

  -- The loop of Run ends after at most 2n + 3 passes, for a definition with n steps and a record
  -- that loadOrCreate accepts: whatever the handlers, the context, the clock and the repository
  -- do, it has returned by then.
  pub run-Ends :
      (evs : List Event) (s : S) (r : Record)
      → position c r ≡ ok tt
      → 2 * length c.definition.steps + 3 ≤ length evs
      → Ends (loop repository c fence evs (started s r))
  run-Ends evs s r e l =
      loop-Ends evs (started s r) (position-bounds r e).0 (omega (arith, position-measure r e, l))
