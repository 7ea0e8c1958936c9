-- ===== src/Saga/Engine/Saving.antt =====
-- saga/engine.go: what holds after the engine's save, whatever the repository answers.
use keelith.Prelude.{ℕ, sym, subst, inl, inr}
use keelith.Prelude.Results.{Result-cases}
use keelith.Prelude.Contexts.{Context}
use keelith.Saga.{Record, Error}
use keelith.Saga.Repository.{RepositoryOf, revised}
use keelith.Saga.Engine.{Run, Pass, Config}
use keelith.Saga.Engine.Passes.{missed, saving}

module _ {S : Type 0} (repository : RepositoryOf S) (c : Config) (fence : ℕ) where
  abbrev pub saved_record : ℕ → Record → Record
  saved_record now r = revised (record r { updated_at = now }) r.revision

  -- A property of a pass that saves: it holds if it holds of what follows a success and an error.
  pub saving-rule {κ} :
      (Q : Pass S → Type κ) (ctx : Context) (now : ℕ) (r : Record) (next : Run S → Pass S)
      (lost : Run S → Error → Pass S) (w : Run S)
      → ((s : S) → Q (next (record w { store = s; current = saved_record now r })))
      → ((e : Error) → Q (lost (missed repository c fence w) e))
      → Q (saving repository c fence ctx now r next lost w)
  unfolding saving
  saving-rule Q ctx now r next lost w good bad =
      elim (Result-cases
        (repository.save ctx (record r { updated_at = now }) r.revision fence w.store)) [
          | inl ((s, x), e) ↦ rw e (
              subst (λ y. Q (next (record w { store = s; current = y })))
                (sym (
                  repository.saved ctx (record r { updated_at = now }) r.revision fence w.store s x
                    e))
                (good s))
          | inr (x, e) ↦ rw e (bad x)
        ]
