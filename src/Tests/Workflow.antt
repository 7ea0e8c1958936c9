-- ===== src/Tests/Workflow.antt =====
-- programmable/continuation/workflow.go, workflow_runtime.go: a node and a join behind it, and two nodes
-- in a cycle.
use keelith.Prelude.{
  ℕ, none, ◌≤◌, if◌then◌else◌, inl, inr, subst, all, Bool-cases, List, [], ◌∷◌, map, ◌++◌, Option,
  some, ◌≡◌, refl, ◌↔◌, true, arith,
}
use keelith.Prelude.Text.{Text, codes, text_eq, text_eq_iff}
use keelith.Prelude.Int.{pos}
use keelith.Prelude.Maps.{Map, lookup, insert, keys}
use keelith.Prelude.Counts.{occurs, same}
use keelith.Prelude.Results.{err}
use keelith.Continuation.Identity.{valid_operation}
use keelith.Continuation.Model.{
  node_machine, node_join, node_succeeded, node_pending, Status, normalize_ready_at, NodeKind,
  NodeState, WorkflowState,
}
use keelith.Prelude.Sort.{sort}
use keelith.Continuation.Workflow.{workflow_successor, valid_node_kind, node_kind_eq}
use keelith.Continuation.Workflow.Definition.{
  roots, indegrees, add_dependents, join_all, no_join, JoinPolicy, no_failure_policy, NodeSpec,
  DefinitionSpec, Definition, index_nodes, normalize_node, checked, workflow_cycle,
}
use keelith.Continuation.Workflow.Creation.{FingerprintWire, new_definition}
use keelith.Continuation.Workflow.Order.{Sorts, new_definition-Sorts, new_definition-cycle}
use keelith.Continuation.Workflow.Plan.{definition_outcome, plan, skip_non_terminal}
use keelith.Continuation.Workflow.Runtime.{Execution, NodeResult, Work}
use keelith.Continuation.Workflow.Runtime.Reconcile.{advance_nodes}
use keelith.Continuation.Workflow.Runtime.Moves.{is_fresh}
use keelith.Continuation.Workflow.Runtime.Reconciled.{workflow_successor-advance_nodes}
use keelith.Continuation.Workflow.Plan.Progress.{Calm}
use keelith.Continuation.Workflow.Plan.Done.{plan-nil_terminal}

abbrev node_of : Text → NodeKind → Text → List Text → JoinPolicy → NodeSpec
node_of id kind operation depends_on join = record {
  id = id;
  kind = kind;
  operation = operation;
  depends_on = depends_on;
  join = join;
  failure_policy = no_failure_policy;
  delay = pos 0;
}

-- The join stands first in the specification.
abbrev two_nodes : DefinitionSpec
two_nodes = record {
  operation = codes "/shop/Order";
  version = codes "v1";
  nodes =
      node_of (codes "done") node_join [] (codes "work" ∷ []) join_all
      ∷ node_of (codes "work") node_machine (codes "/shop/Run") [] no_join
      ∷ [];
}

-- Stand-ins for json.Marshal and sha256.
abbrev no_wire : FingerprintWire → Option Text
no_wire wire = some []

abbrev zeros : Text → Text
zeros s =
    let four = 0 ∷ 0 ∷ 0 ∷ 0 ∷ [] in
    let eight = four ++ four in eight ++ (eight ++ (eight ++ eight))

abbrev sorted_nodes : List NodeSpec
sorted_nodes = map normalize_node (
    node_of (codes "work") node_machine (codes "/shop/Run") [] no_join
    ∷ node_of (codes "done") node_join [] (codes "work" ∷ []) join_all
    ∷ [])

abbrev work_flow : Definition
work_flow = record {
  operation = codes "/shop/Order";
  version = codes "v1";
  fingerprint = codes "0000000000000000000000000000000000000000000000000000000000000000";
  nodes = sorted_nodes;
  by_id = index_nodes 0 sorted_nodes [];
}

new_definition-Sorts_example : Sorts (map normalize_node two_nodes.nodes) work_flow.nodes
unfolding new_definition index_nodes valid_operation insert valid_node_kind lookup text_eq sort
    roots indegrees add_dependents
new_definition-Sorts_example = new_definition-Sorts no_wire zeros two_nodes work_flow refl

-- Each of two nodes depends on the other.
abbrev cycle : DefinitionSpec
cycle = record {
  operation = codes "/shop/Order";
  version = codes "v1";
  nodes =
      node_of (codes "a") node_machine (codes "/shop/Run") (codes "b" ∷ []) no_join
      ∷ node_of (codes "b") node_machine (codes "/shop/Run") (codes "a" ∷ []) no_join
      ∷ [];
}

abbrev cycle_nodes : List NodeSpec × Map ℕ
cycle_nodes = (map normalize_node cycle.nodes, index_nodes 0 cycle.nodes [])

new_definition-cycle_example :
    (new_definition no_wire zeros cycle ≡ err workflow_cycle)
    ↔ (¬ ((order : List NodeSpec) × Sorts cycle_nodes.0 order))
unfolding checked index_nodes valid_operation insert valid_node_kind lookup text_eq
new_definition-cycle_example = new_definition-cycle no_wire zeros cycle cycle_nodes refl

-- The condition of the theorem is met, and the error is returned.
cycle_refused : new_definition no_wire zeros cycle ≡ err workflow_cycle
unfolding new_definition valid_operation insert valid_node_kind lookup text_eq sort roots indegrees
cycle_refused = refl

abbrev done_node : Text → NodeKind → NodeState
done_node id kind = record {
  id = id;
  kind = kind;
  status = node_succeeded;
  attempt = 1;
  child_call_id = [];
  ready_at = 0;
  failure_class = [];
}

abbrev done_state : WorkflowState
done_state = record {
  version = codes "v1";
  fingerprint = work_flow.fingerprint;
  started_at = 1000000000;
  nodes =
      (codes "work", done_node (codes "work") node_machine)
      ∷ (codes "done", done_node (codes "done") node_join)
      ∷ [];
}

done_state-Calm : Calm done_state
unfolding lookup
done_state-Calm id n e = ground (arith, e)

plan-nil_terminal_example : (definition_outcome work_flow done_state).0 ≡ true
unfolding new_definition index_nodes valid_operation insert valid_node_kind lookup text_eq sort
    roots indegrees add_dependents plan normalize_ready_at node_kind_eq
plan-nil_terminal_example =
    plan-nil_terminal no_wire zeros two_nodes work_flow done_state (codes "p") refl done_state-Calm
      refl

-- The machine and then the join succeed in one reconciliation.
abbrev run_handler : Text → Option (Execution → Option NodeResult)
run_handler operation =
    if text_eq operation (codes "/shop/Run")
    then some (λ execution. some (record { status = node_succeeded; failure_class = [] }))
    else none

abbrev no_payload : Text → Text → Status → Option Text
no_payload node child status = none

abbrev new_state : WorkflowState
new_state = record {
  version = codes "v1";
  fingerprint = work_flow.fingerprint;
  started_at = 1000000000;
  nodes =
      (
        codes "work",
        record (done_node (codes "work") node_machine) { status = node_pending; attempt = 0 },
      )
      ∷ (
        codes "done",
        record (done_node (codes "done") node_join) { status = node_pending; attempt = 0 },
      )
      ∷ [];
}

abbrev worked : Work
worked = record {
  nodes =
      (codes "work", done_node (codes "work") node_machine)
      ∷ (codes "done", record (done_node (codes "done") node_join) { attempt = 0 })
      ∷ [];
  frames = [];
}

new_state-distinct : (x : Text) → occurs x (keys new_state.nodes) ≤ 1
unfolding occurs text_eq same
new_state-distinct x = elim (Bool-cases (text_eq (codes "work") x)) [
  | inl e ↦
      subst (λ y. occurs y (keys new_state.nodes) ≤ 1) ((text_eq_iff (codes "work") x).0 e)
        (omega arith)
  | inr e ↦ rw e (ground arith)
]

workflow_successor-advance_nodes_example :
    (workflow_successor (some new_state) (record new_state { nodes = worked.nodes }) ≡ true)
    × (workflow_successor
          (some new_state)
          (record new_state { nodes = skip_non_terminal worked.nodes })
        ≡ true)
    × (all (λ (e : Text × NodeState). is_fresh e.1) worked.nodes ≡ true)
unfolding new_definition index_nodes valid_operation insert valid_node_kind lookup text_eq sort
    roots indegrees add_dependents plan normalize_ready_at node_kind_eq advance_nodes
workflow_successor-advance_nodes_example =
    workflow_successor-advance_nodes no_wire zeros none run_handler no_payload two_nodes work_flow
      new_state (codes "p") 10 0 worked refl refl new_state-distinct refl refl
