-- ===== src/Saga/Engine/Passes.antt =====
-- saga/engine.go: the passes of the loop in Engine.Run.
use keelith.Prelude.{
  ℕ, suc, not, List, [], ◌∷◌, length, if◌then◌else◌, Option, none, some, get_elem?,
}
use keelith.Prelude.Int.{ℤ, pos, is_neg, lt_nat, to_nat, succ, pred}
use keelith.Prelude.Words.{add_u64}
use keelith.Prelude.Results.{Result, ok, err}
use keelith.Prelude.Contexts.{Context}
use keelith.Saga.{
  Status, running, compensating, completed, compensated, failed, invalid_status, Phase, action,
  compensation, Step, Record, Error, invalid_option, compensated_error, failed_error, cause,
  handler_error, failed_with, index_panic,
}
use keelith.Saga.Repository.{RepositoryOf}
use keelith.Saga.Engine.{
  Outcome, succeeds, fails, fails_ended, Event, Run, Pass, again, returns, zero_record, Config,
  failure_reason, invocation_of,
}

module _ {S : Type 0} (repository : RepositoryOf S) (c : Config) (fence : ℕ) where
  abbrev pub missed : Run S → Run S
  missed w = record w {
    counters = record w.counters { repository_failures = add_u64 w.counters.repository_failures 1 };
  }

  -- What Run does after the engine's save.
  abbrev pub settle :
      (Run S → Pass S) → (Run S → Error → Pass S) → Run S → Result Error (S × Record) → Pass S
  settle next lost w (ok (s, saved)) = next (record w { store = s; current = saved })
  settle next lost w (err e) = lost (missed w) e

  -- save, of the record r.
  unfoldable pub saving :
      Context → ℕ → Record → (Run S → Pass S) → (Run S → Error → Pass S) → Run S → Pass S
  saving ctx now r next lost w =
      settle next lost w
        (repository.save ctx (record r { updated_at = now }) r.revision fence w.store)

  -- `return result, err`
  abbrev pub gives_up : Run S → Error → Pass S
  gives_up w e = returns w (some e)

  -- `continue`, and the end of the loop's body.
  abbrev pub reports : Run S → Pass S
  reports w = again (record w { reported = w.current })

  abbrev pub called : Step → ℤ → Phase → Outcome → Run S → Run S
  called step index phase o w = record w {
    calls = (invocation_of w.current step index phase fence, o) ∷ w.calls;
  }

  -- A failed action: the compensation starts behind it.
  unfoldable pub start_compensation : Event → ℕ → Run S → Pass S
  unfolding failure_reason
  start_compensation ev e w =
      saving ev.second ev.second_now
        (record w.current {
          status = compensating;
          compensation_index = pred w.current.next_step;
          attempt = pos 0;
          failure_reason = failure_reason c e;
          cause_reason = failure_reason c e;
        })
        (λ v. again (record v {
          counters = record v.counters { compensated_runs = add_u64 v.counters.compensated_runs 1 };
        }))
        gives_up
        (record w {
          counters = record w.counters { action_failures = add_u64 w.counters.action_failures 1 };
        })

  unfoldable pub after_action : Event → Outcome → Run S → Pass S
  unfolding start_compensation
  after_action ev (fails_ended e) w = returns w (some (cause e))
  after_action ev (fails e) w = start_compensation ev e w
  after_action ev succeeds w =
      saving ev.second ev.second_now
        (record w.current {
          next_step = succ w.current.next_step;
          attempt = pos 0;
          failure_reason = [];
        })
        reports gives_up (record w { actions = suc w.actions })

  unfoldable pub run_action : Event → Step → Run S → Pass S
  unfolding after_action
  run_action ev step w =
      saving ev.first ev.first_now (record w.current { attempt = succ w.current.attempt })
        (λ v. after_action ev ev.outcome (called step v.current.next_step action ev.outcome v))
        gives_up w

  -- The pass of a running saga whose steps are all done.
  unfoldable pub complete : Event → Run S → Pass S
  complete ev w =
      saving ev.first ev.first_now (record w.current { status = completed; attempt = pos 0 })
        (λ v. again (record v {
          counters = record v.counters { completed_runs = add_u64 v.counters.completed_runs 1 };
        }))
        gives_up w

  abbrev pub at_step : (Step → Run S → Pass S) → Option Step → Run S → Pass S
  at_step body none w = returns w (some index_panic)
  at_step body (some step) w = body step w

  unfoldable pub pass_running : Event → Run S → Pass S
  unfolding run_action complete
  pass_running ev w =
      if lt_nat w.current.next_step (length c.definition.steps)
      then at_step (run_action ev) (get_elem? c.definition.steps (to_nat w.current.next_step)) w
      else complete ev w

  -- A failed compensation ends the run, for good once its attempts are used up.
  unfoldable pub give_up_compensation : Event → ℕ → Run S → Pass S
  unfolding failure_reason
  give_up_compensation ev e w =
      let spent = not (lt_nat w.current.attempt c.max_compensation_attempts) in
      saving ev.second ev.second_now
        (record w.current {
          failure_reason = failure_reason c e;
          status = if spent then failed else w.current.status;
        })
        (λ v.
          if spent
          then returns
              (record v {
                reported = v.current;
                counters = record v.counters {
                  terminal_failures = add_u64 v.counters.terminal_failures 1;
                };
              })
              (some (failed_with e))
          else returns (record v { reported = v.current }) (some (handler_error e)))
        (λ v saving_error. returns (record v { reported = zero_record }) (some saving_error))
        (record w {
          counters = record w.counters {
            compensation_failures = add_u64 w.counters.compensation_failures 1;
          };
        })

  unfoldable pub after_compensation : Event → Outcome → Run S → Pass S
  unfolding give_up_compensation
  after_compensation ev (fails_ended e) w = returns w (some (cause e))
  after_compensation ev (fails e) w = give_up_compensation ev e w
  after_compensation ev succeeds w =
      saving ev.second ev.second_now
        (record w.current {
          compensation_index = pred w.current.compensation_index;
          attempt = pos 0;
          failure_reason = w.current.cause_reason;
        })
        reports gives_up (record w { undone = suc w.undone })

  -- The pass at a step that has been reached backwards.
  unfoldable pub compensate : Event → Step → Run S → Pass S
  unfolding after_compensation
  compensate ev step w =
      if step.has_compensate
      then saving ev.first ev.first_now (record w.current { attempt = succ w.current.attempt })
          (λ v.
            after_compensation ev ev.outcome
              (called step v.current.compensation_index compensation ev.outcome v))
          gives_up w
      else saving ev.first ev.first_now
          (record w.current {
            compensation_index = pred w.current.compensation_index;
            attempt = pos 0;
          })
          again gives_up w

  unfoldable pub finish_compensation : Event → Run S → Pass S
  finish_compensation ev w =
      saving ev.first ev.first_now (record w.current { status = compensated; attempt = pos 0 })
        again gives_up w

  unfoldable pub pass_compensating : Event → Run S → Pass S
  unfolding compensate finish_compensation
  pass_compensating ev w =
      if is_neg w.current.compensation_index
      then finish_compensation ev w
      else at_step (compensate ev)
          (get_elem? c.definition.steps (to_nat w.current.compensation_index)) w

  -- The switch over the record's status.
  unfoldable pub pass_live : Event → Status → Run S → Pass S
  unfolding pass_running pass_compensating
  pass_live ev completed w = returns (record w { reported = w.current }) none
  pass_live ev compensated w = returns (record w { reported = w.current }) (some compensated_error)
  pass_live ev failed w = returns (record w { reported = w.current }) (some failed_error)
  pass_live ev running w = pass_running ev w
  pass_live ev compensating w = pass_compensating ev w
  pass_live ev invalid_status w = returns w (some invalid_option)

  -- The context had ended at the top of the loop.
  abbrev pub lost_context : ℕ → Run S → Pass S
  lost_context e w =
      returns
        (if c.is_lease_lost e
          then record w {
            counters = record w.counters { lease_losses = add_u64 w.counters.lease_losses 1 };
          }
          else w)
        (some (cause e))

  -- One pass of the loop.
  unfoldable pub pass : Event → Run S → Pass S
  unfolding pass_live
  pass ev w = elim ev.ended [ none ↦ pass_live ev w.current.status w | some e ↦ lost_context e w ]

  -- The next pass, if this one did not return.
  abbrev pub onward : (Run S → Pass S) → Pass S → Pass S
  onward next (again v) = next v
  onward next (returns v e) = returns v e

  -- The loop: `again` when the events have run out before it returned.
  unfoldable pub loop : List Event → Run S → Pass S
  unfolding pass
  loop [] w = again w
  loop (ev ∷ evs) w = onward (loop evs) (pass ev w)
