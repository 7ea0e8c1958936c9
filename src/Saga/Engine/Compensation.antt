-- ===== src/Saga/Engine/Compensation.antt =====
-- saga/engine.go: which handlers a run of a new instance has called.
use keelith.Prelude.{ℕ}
use keelith.Prelude.Text.{Text}
use keelith.Saga.Repository.{RepositoryOf}
use keelith.Saga.Engine.{Run, Pass, again, returns, Config}
use keelith.Saga.Engine.Trace.{actions_done, compensations_done, Called, Traced}

module _ {S : Type 0} (repository : RepositoryOf S) (c : Config) (fence : ℕ) where
  abbrev TracedRun : Run S → Type 0
  TracedRun w =
      Traced c.definition.steps w.current.status w.current.next_step w.current.compensation_index
        (actions_done w.calls) (compensations_done w.calls)

  abbrev pub CalledRun : Run S → Type 0
  CalledRun w =
      Called c.definition.steps w.current.status w.current.next_step w.current.compensation_index
        (actions_done w.calls) (compensations_done w.calls)

  abbrev Keeps : Pass S → Type 0
  Keeps (again v) = TracedRun v
  Keeps (returns v e) = CalledRun v
