-- ===== src/Continuation/Workflow/Plan.antt =====
-- programmable/continuation/workflow.go: joins, the outcome of a workflow and the planner, which
-- turns the state of a workflow into commands. sha256 is an argument.
use keelith.Prelude.{
  ℕ, zero, suc, ◌+◌, ◌%◌, ◌==◌, ltb, not, Bool, true, false, ◌&&◌, ◌||◌, List, [], ◌∷◌, ◌++◌, map,
  length, all, if◌then◌else◌, Option, none, some,
}
use keelith.Prelude.Text.{Text, text_eq, codes, is_empty}
use keelith.Prelude.Maps.{Map, lookup}
use keelith.Prelude.Int.{ℤ, to_nat}
use keelith.Prelude.Results.{Result, ok, err, require, reject_if, ◌>>◌, ◌>>=◌}
use keelith.Continuation.Identity.{valid_identity}
use keelith.Continuation.Model.{
  NodeKind, node_machine, node_timer, node_child, node_join, other_node_kind, NodeStatus,
  node_pending, node_running, node_waiting, node_succeeded, node_failed, node_skipped,
  other_node_status, NodeState, WorkflowState, normalize_ready_at, plain, invalid_identity,
}
use keelith.Continuation.Apply.{big_endian, digest_part}
use keelith.Continuation.Workflow.{
  is_terminal_node, is_failed, is_succeeded, node_kind_eq, workflow_state_ok,
}
use keelith.Continuation.Workflow.Definition.{
  JoinPolicy, join_all, join_any, no_join, other_join, valid_join, FailurePolicy, fail_fast,
  continue_on_failure, no_failure_policy, other_failure_policy, WorkflowError, malformed_workflow,
  definition_mismatch, call_error, NodeSpec, Definition, contains,
}
use keelith.Continuation.Workflow.Creation.{hex}
pub mod Progress
pub mod Done

abbrev pub is_skipped : NodeStatus → Bool
is_skipped node_skipped = true
is_skipped _ = false

abbrev pub is_pending : NodeStatus → Bool
is_pending node_pending = true
is_pending _ = false

-- A counter of the loop of EvaluateWorkflowJoin.
unfoldable pub tally : (NodeStatus → Bool) → List NodeStatus → ℕ
tally p [] = 0
tally p (s ∷ ss) = (if p s then 1 else 0) + tally p ss

abbrev join_counts : JoinPolicy → ℕ → ℕ → ℕ → ℕ → NodeStatus × Bool
join_counts join_all total succeeded failed terminal =
    if ltb 0 failed
    then (node_failed, true)
    else (if succeeded == total then (node_succeeded, true) else (node_pending, false))
join_counts join_any total succeeded failed terminal =
    if ltb 0 succeeded
    then (node_succeeded, true)
    else (if terminal == total then (node_failed, true) else (node_pending, false))
join_counts _ total succeeded failed terminal = (node_pending, false)

-- EvaluateWorkflowJoin
unfoldable pub evaluate_join : JoinPolicy → List NodeStatus → NodeStatus × Bool
unfolding valid_join tally is_terminal_node
evaluate_join policy states =
    if not (valid_join policy) || length states == 0
    then (node_failed, true)
    else join_counts policy (length states) (tally is_succeeded states)
        (tally (λ s. is_failed s || is_skipped s) states) (tally is_terminal_node states)

-- The status of a missing node is the empty string.
abbrev pub status_in : Option NodeState → NodeStatus
status_in none = other_node_status []
status_in (some n) = n.status

abbrev pub status_of : Map NodeState → Text → NodeStatus
status_of m id = status_in (lookup id m)

-- dependent: the nodes that others depend on.
unfoldable pub has_dependent : List NodeSpec → Text → Bool
unfolding contains
has_dependent [] id = false
has_dependent (n ∷ ns) id = contains id n.depends_on || has_dependent ns id

-- The loop of workflowDefinitionOutcome over the nodes, with the failure and the sinks so far.
unfoldable pub outcome_loop : List NodeSpec → Map NodeState → List NodeSpec → Bool → ℕ → Bool × Bool
unfolding has_dependent is_terminal_node
outcome_loop nodes m [] failed sinks = (ltb 0 sinks, failed)
outcome_loop nodes m (n ∷ ns) failed sinks =
    let next = outcome_loop nodes m ns failed sinks in
    let sink = outcome_loop nodes m ns (failed || is_failed (status_of m n.id)) (sinks + 1) in
    if has_dependent nodes n.id
    then next
    else (if is_terminal_node (status_of m n.id) then sink else (false, false))

-- workflowDefinitionOutcome
unfoldable pub definition_outcome : Definition → WorkflowState → Bool × Bool
unfolding outcome_loop
definition_outcome d w = outcome_loop d.nodes w.nodes d.nodes false 0

abbrev pub skip_node : NodeState → NodeState
skip_node n = if is_terminal_node n.status then n else record n { status = node_skipped }

-- skipNonTerminalWorkflowNodes
unfoldable pub skip_non_terminal : Map NodeState → Map NodeState
unfolding is_terminal_node
skip_non_terminal [] = []
skip_non_terminal ((id, n) ∷ m) = (id, skip_node n) ∷ skip_non_terminal m

-- workflowCommand; none is the empty complete status.
pub record Command : Type 0 where
  pub node_id : Text
  pub kind : NodeKind
  pub operation : Text
  pub attempt : ℕ  -- uint32
  pub child_call_id : Text
  pub ready_at : ℕ
  pub complete_status : Option NodeStatus

-- NewCallID
abbrev pub new_call_id : Text → Result WorkflowError Text
new_call_id value = require (valid_identity value) (call_error (plain invalid_identity)) >> ok value

-- A command that completes a node without running it.
abbrev pub completes : NodeSpec → NodeStatus → Command
completes n status = record {
  node_id = n.id;
  kind = n.kind;
  operation = [];
  attempt = 0;
  child_call_id = [];
  ready_at = 0;
  complete_status = some status;
}

abbrev pub starts : NodeSpec → ℕ → Command
starts n attempt = record {
  node_id = n.id;
  kind = n.kind;
  operation = n.operation;
  attempt = attempt;
  child_call_id = [];
  ready_at = 0;
  complete_status = none;
}

abbrev pub join_command : NodeSpec → NodeStatus × Bool → Option Command
join_command n (status, true) = some (completes n status)
join_command n (status, false) = none

abbrev pub is_fail_fast : FailurePolicy → Bool
is_fail_fast fail_fast = true
is_fail_fast _ = false

abbrev pub is_continue : FailurePolicy → Bool
is_continue continue_on_failure = true
is_continue _ = false

abbrev pub is_join : NodeKind → Bool
is_join node_join = true
is_join _ = false

abbrev pub added : Option Command → List Command → List Command
added none cs = cs
added (some c) cs = c ∷ cs

module _ (sha256 : Text → Text) where
  -- DeriveChildCallID
  unfoldable pub derive_child_call_id : Text → Text → ℕ → Result WorkflowError Text
  unfolding digest_part big_endian hex
  derive_child_call_id parent node_id attempt = do
    reject_if (not (valid_identity parent) || (not (valid_identity node_id) || attempt == 0))
        malformed_workflow
    new_call_id (
        codes "wf-child-"
        ++ hex (
            sha256 (
              digest_part (codes "keelith-workflow-child-v1")
              ++ (digest_part parent
                  ++ (digest_part node_id ++ digest_part (big_endian 4 attempt))))))

  -- The last switch of planWorkflowForParent, by the kind of the node.
  unfoldable pub start_command :
      WorkflowState → Text → NodeSpec → ℕ → NodeKind → Result WorkflowError (Option Command)
  unfolding derive_child_call_id
  start_command w parent n attempt node_timer = ok (
      some (record (starts n attempt) {
        ready_at = normalize_ready_at (w.started_at + to_nat n.delay);
      }))
  start_command w parent n attempt node_child = derive_child_call_id parent n.id attempt >>= λ id.
      ok (some (record (starts n attempt) { child_call_id = id }))
  start_command w parent n attempt node_machine = ok (some (starts n attempt))
  start_command w parent n attempt node_join = ok (some (starts n attempt))
  start_command w parent n attempt (other_node_kind s) = ok (some (starts n attempt))

  -- The body of the loop for a pending node, with the statuses of its dependencies.
  unfoldable pub plan_pending :
      WorkflowState → Text → NodeSpec → ℕ → List NodeStatus → Result WorkflowError (Option Command)
  unfolding evaluate_join start_command is_terminal_node
  plan_pending w parent n attempt dependencies =
      let all_succeeded = all is_succeeded dependencies in
      let all_terminal = all is_terminal_node dependencies in
      let failed_dependency = not (all (λ s. not (is_failed s)) dependencies) in
      if is_join n.kind
      then ok (join_command n (evaluate_join n.join dependencies))
      else (if failed_dependency && is_fail_fast n.failure_policy
          then ok (some (completes n node_failed))
          else (if ltb 0 (length n.depends_on)
                && not all_succeeded
                && (not (is_continue n.failure_policy) || not all_terminal)
              then ok none
              else start_command w parent n ((attempt + 1) % 4294967296) n.kind))

  -- The body of the loop of planWorkflowForParent.
  unfoldable pub plan_node :
      WorkflowState → Text → NodeSpec → Option NodeState → Result WorkflowError (Option Command)
  unfolding plan_pending
  plan_node w parent spec none = err definition_mismatch
  plan_node w parent spec (some node) =
      let planned =
        plan_pending w parent spec node.attempt (map (status_of w.nodes) spec.depends_on) in
      if not (node_kind_eq node.kind spec.kind)
      then err definition_mismatch
      else (if not (is_pending node.status) then ok none else planned)

  unfoldable pub plan_nodes :
      WorkflowState → Text → List NodeSpec → Result WorkflowError (List Command)
  unfolding plan_node
  plan_nodes w parent [] = ok []
  plan_nodes w parent (n ∷ ns) = do
    c ← plan_node w parent n (lookup n.id w.nodes)
    cs ← plan_nodes w parent ns
    ok (added c cs)

  -- planWorkflowForParent
  unfoldable pub plan : Definition → WorkflowState → Text → Result WorkflowError (List Command)
  unfolding plan_nodes workflow_state_ok
  plan d w parent = do
    reject_if
        (not (workflow_state_ok w)
          || (not (text_eq w.version d.version)
              || (not (text_eq w.fingerprint d.fingerprint)
                  || not (length w.nodes == length d.nodes))))
        definition_mismatch
    plan_nodes w parent d.nodes
