-- ===== src/Continuation/Workflow/Runtime/Reconciled.antt =====
-- programmable/continuation/workflow_runtime.go: the state that reconcile hands to Apply is a
-- successor of the one that it was given.
use keelith.Prelude.{
  ℕ, ◌≤◌, not, true, ◌≡◌, ◌≢◌, sym, subst, arith, Option, some, length, all, ==_refl,
}
use keelith.Prelude.Text.{Text, text_eq_refl}
use keelith.Prelude.Maps.{Map, keys}
use keelith.Prelude.Counts.{occurs}
use keelith.Prelude.Results.{ok, >>=-eq_ok}
use keelith.Continuation.Model.{NodeState, WorkflowState, Status}
use keelith.Continuation.Workflow.{invalid_node, workflow_successor, workflow_state_ok}
use keelith.Continuation.Workflow.Definition.{DefinitionSpec, Definition, checked}
use keelith.Continuation.Workflow.Creation.{FingerprintWire, new_definition, build}
use keelith.Continuation.Workflow.Topology.{ids}
use keelith.Continuation.Workflow.Order.{Sorts, new_definition-Sorts, checked-nodes}
use keelith.Continuation.Workflow.Edges.{check_nodes-IsGraph}
use keelith.Continuation.Workflow.Plan.{skip_non_terminal}
use keelith.Continuation.Workflow.Runtime.{ChildRuntime, Execution, NodeResult, Work}
use keelith.Continuation.Workflow.Runtime.Reconcile.{advance_nodes}
use keelith.Continuation.Workflow.Runtime.Moves.{is_fresh}
use keelith.Continuation.Workflow.Runtime.Follows.{Follows, skip_non_terminal-Follows}
use keelith.Continuation.Workflow.Runtime.Successor.{Follows-refl}
use keelith.Continuation.Workflow.Runtime.Loops.{advance_nodes-Follows}

Follows-workflow_state_ok :
    (w : WorkflowState) (m : Map NodeState)
    → workflow_state_ok w ≡ true
    → Follows w.nodes m
    → workflow_state_ok (record w { nodes = m }) ≡ true
unfolding workflow_state_ok
Follows-workflow_state_ok w m v h = ground (arith, v, h.same_length, h.valid)

workflow_state_ok-nodes :
    (w : WorkflowState)
    → workflow_state_ok w ≡ true
    → (w.started_at ≢ 0)
      × (all (λ (e : Text × NodeState). not (invalid_node e.0 e.1)) w.nodes ≡ true)
unfolding workflow_state_ok
workflow_state_ok-nodes w v = (ground (arith, v), ground (arith, v))

Follows-workflow_successor :
    (w : WorkflowState) (m : Map NodeState)
    → workflow_state_ok w ≡ true
    → Follows w.nodes m
    → workflow_successor (some w) (record w { nodes = m }) ≡ true
unfolding workflow_successor
Follows-workflow_successor w m v h =
    rw
      (
        v,
        Follows-workflow_state_ok w m v h,
        text_eq_refl w.version,
        text_eq_refl w.fingerprint,
        ==_refl w.started_at,
        sym h.same_length,
        ==_refl (length m),
      )
      h.successors

definition-distinct :
    (marshal : FingerprintWire → Option Text) (sha256 : Text → Text) (spec : DefinitionSpec)
    (d : Definition)
    → new_definition marshal sha256 spec ≡ ok d
    → (x : Text) → occurs x (ids d.nodes) ≤ 1
unfolding new_definition
definition-distinct marshal sha256 spec d e x =
    let (c, f, rest) = >>=-eq_ok (checked spec) (build marshal sha256 spec) e in
    let (same_nodes, good) = checked-nodes spec c f in
    let (o, a, same_ids) =
      subst (λ ns. Sorts ns d.nodes) (sym same_nodes)
        (new_definition-Sorts marshal sha256 spec d e) in
    let g = check_nodes-IsGraph c.0 c.1 good in omega (arith, same_ids x, g.distinct x)

module _ (marshal_wire : FingerprintWire → Option Text) (sha256 : Text → Text)
    (children : Option ChildRuntime) (handlers : Text → Option (Execution → Option NodeResult))
    (marshal : Text → Text → Status → Option Text) where
  -- Reconciliation stays within the state machine of the nodes. Take a definition that
  -- NewWorkflowDefinition has returned and a valid state, in which no identity stands twice and a
  -- pending node has no attempt, no child and no timer. Whatever the handlers and the children
  -- answer, when reconcile reaches the outcome without an error, validateWorkflowSuccessor accepts
  -- its nodes, and also accepts them after skipNonTerminalWorkflowNodes; and again a pending node
  -- has no attempt, no child and no timer.
  pub workflow_successor-advance_nodes :
      (spec : DefinitionSpec) (d : Definition) (w : WorkflowState) (parent : Text)
      (max_node_actions wake : ℕ) (next : Work)
      → new_definition marshal_wire sha256 spec ≡ ok d
      → workflow_state_ok w ≡ true
      → ((x : Text) → occurs x (keys w.nodes) ≤ 1)
      → all (λ (e : Text × NodeState). is_fresh e.1) w.nodes ≡ true
      → advance_nodes sha256 children handlers marshal max_node_actions d w parent wake ≡ ok next
      → (workflow_successor (some w) (record w { nodes = next.nodes }) ≡ true)
        × (workflow_successor (some w) (record w { nodes = skip_non_terminal next.nodes }) ≡ true)
        × (all (λ (e : Text × NodeState). is_fresh e.1) next.nodes ≡ true)
  workflow_successor-advance_nodes spec d w parent max_node_actions wake next e v distinct f g =
      let (begun, valid) = workflow_state_ok-nodes w v in
      let follows =
        advance_nodes-Follows sha256 children handlers marshal w.nodes max_node_actions d w parent
          wake next begun (definition-distinct marshal_wire sha256 spec d e) distinct
          (Follows-refl w.nodes distinct valid f) g in
      (
        Follows-workflow_successor w next.nodes v follows,
        Follows-workflow_successor w (skip_non_terminal next.nodes) v
            (skip_non_terminal-Follows w.nodes next.nodes follows),
        follows.fresh,
      )
