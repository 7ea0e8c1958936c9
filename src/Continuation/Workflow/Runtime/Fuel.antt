-- ===== src/Continuation/Workflow/Runtime/Fuel.antt =====
-- programmable/continuation/workflow_runtime.go: the loop of reconcile has fuel enough.
use keelith.Prelude.{
  ℕ, zero, suc, ◌==◌, ◌≤◌, ◌<◌, ◌≡◌, refl, inl, inr, ◌⊎◌, arith, Bool-cases, Option, List, [], ◌∷◌,
}
use keelith.Prelude.Text.{Text}
use keelith.Prelude.Results.{Result, ok, err, >>=-eq_ok, ◌>>=◌}
use keelith.Continuation.Model.{WorkflowState, Status}
use keelith.Continuation.Workflow.Definition.{WorkflowError, Definition}
use keelith.Continuation.Workflow.Plan.{Command, plan}
use keelith.Continuation.Workflow.Runtime.{ChildRuntime, Execution, NodeResult, Work}
use keelith.Continuation.Workflow.Runtime.Reconcile.{execute, execute_all, act}

>>=_cong {ℓ κ μ} :
    {E : Type ℓ} {A : Type κ} {B : Type μ} (r : Result E A) {f g : A → Result E B}
    → ((a : A) → r ≡ ok a → f a ≡ g a)
    → (r >>= f) ≡ (r >>= g)
>>=_cong (ok a) h = h a refl
>>=_cong (err e) h = refl

commands_cong :
    (cs : List Command) (none_left : Result WorkflowError Work)
    {f g : Command → List Command → Result WorkflowError Work}
    → ((c : Command) (rest : List Command) → f c rest ≡ g c rest)
    → (elim cs [ [] ↦ none_left | c ∷ rest ↦ f c rest ])
      ≡ (elim cs [ [] ↦ none_left | c ∷ rest ↦ g c rest ])
commands_cong [] none_left h = refl
commands_cong (c ∷ cs) none_left h = h c cs

module _ (sha256 : Text → Text) (children : Option ChildRuntime)
    (handlers : Text → Option (Execution → Option NodeResult))
    (marshal : Text → Text → Status → Option Text) where
  -- The commands take no more actions than are left.
  execute_all-left :
      (left : ℕ) (parent : Text) (cs : List Command) (work : Work) (next : ℕ × Work)
      → execute_all sha256 children handlers marshal left parent cs work ≡ ok next
      → next.0 ≤ left
  unfolding execute_all
  execute_all-left left parent [] work next e = ground (arith, e)
  execute_all-left zero parent (c ∷ cs) work next e = ground (arith, e)
  execute_all-left (suc left) parent (c ∷ cs) work next e =
      let (middle, g, rest) =
        >>=-eq_ok (execute sha256 children handlers marshal parent c work)
          (execute_all sha256 children handlers marshal left parent cs) e in
      omega (arith, execute_all-left left parent cs middle next rest)

  -- A command takes an action.
  execute_all-fewer :
      (left : ℕ) (parent : Text) (c : Command) (cs : List Command) (work : Work) (next : ℕ × Work)
      → execute_all sha256 children handlers marshal left parent (c ∷ cs) work ≡ ok next
      → left ≡ 0 ⊎ next.0 < left
  unfolding execute_all
  execute_all-fewer zero parent c cs work next e = inl refl
  execute_all-fewer (suc left) parent c cs work next e =
      let (middle, g, rest) =
        >>=-eq_ok (execute sha256 children handlers marshal parent c work)
          (execute_all sha256 children handlers marshal left parent cs) e in
      inr (omega (arith, execute_all-left left parent cs middle next rest))

  -- Any fuel from the number of actions left on gives the same.
  act_enough :
      (fuel more : ℕ) (d : Definition) (w : WorkflowState) (parent : Text) (left : ℕ) (work : Work)
      → left ≤ fuel
      → left ≤ more
      → act sha256 children handlers marshal fuel d w parent (left, work)
        ≡ act sha256 children handlers marshal more d w parent (left, work)
  unfolding act
  act_enough zero zero d w parent left work l m = refl
  act_enough zero (suc more) d w parent left work l m =
      let none_left : left ≡ 0 = omega (arith, l) in rw none_left refl
  act_enough (suc fuel) zero d w parent left work l m =
      let none_left : left ≡ 0 = omega (arith, m) in rw none_left refl
  act_enough (suc fuel) (suc more) d w parent left work l m = elim (Bool-cases (left == 0)) [
    | inl e ↦ rw e refl
    | inr e ↦
        let nonzero : 0 < left = ground (arith, e) in
        rw e (
          >>=_cong (plan sha256 d (record w { nodes = work.nodes }) parent) (λ cs p.
            commands_cong cs (ok work) (λ c rest.
              >>=_cong (execute_all sha256 children handlers marshal left parent (c ∷ rest) work)
                (λ r k.
                  let fewer = execute_all-fewer left parent c rest work r k in
                  act_enough fuel more d w parent r.0 r.1 (ground (arith, fewer, nonzero, l))
                    (ground (arith, fewer, nonzero, m))))))
  ]
