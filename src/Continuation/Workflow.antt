-- ===== src/Continuation/Workflow.antt =====
-- programmable/continuation/workflow.go: the durable state of a workflow's nodes, its validation and
-- the transitions of one node.
use keelith.Prelude.{
  ℕ, ◌+◌, ◌%◌, ◌==◌, leb, ltb, not, Bool, true, false, ◌&&◌, ◌||◌, length, all, Option, none, some,
}
use keelith.Prelude.Text.{Text, text_eq, is_empty}
use keelith.Prelude.Maps.{lookup}
use keelith.Continuation.Identity.{valid_identity}
use keelith.Continuation.Model.{
  NodeKind, node_machine, node_timer, node_child, node_join, other_node_kind, NodeStatus,
  node_pending, node_running, node_waiting, node_succeeded, node_failed, node_skipped,
  other_node_status, NodeState, WorkflowState, normalize_ready_at,
}
pub mod Definition
pub mod Creation
pub mod Topology
pub mod Turns
pub mod Edges
pub mod Start
pub mod Order
pub mod Plan
pub mod Runtime

abbrev pub max_workflow_nodes : ℕ
max_workflow_nodes = 10000

abbrev pub max_workflow_failure_size : ℕ
max_workflow_failure_size = 128

unfoldable pub valid_node_kind : NodeKind → Bool
valid_node_kind (other_node_kind _) = false
valid_node_kind _ = true

unfoldable pub valid_node_status : NodeStatus → Bool
valid_node_status (other_node_status _) = false
valid_node_status _ = true

unfoldable pub is_terminal_node : NodeStatus → Bool
is_terminal_node node_succeeded = true
is_terminal_node node_failed = true
is_terminal_node node_skipped = true
is_terminal_node _ = false

abbrev pub is_timer : NodeKind → Bool
is_timer node_timer = true
is_timer _ = false

abbrev pub is_child : NodeKind → Bool
is_child node_child = true
is_child _ = false

abbrev pub is_waiting : NodeStatus → Bool
is_waiting node_waiting = true
is_waiting _ = false

abbrev pub is_failed : NodeStatus → Bool
is_failed node_failed = true
is_failed _ = false

abbrev pub is_succeeded : NodeStatus → Bool
is_succeeded node_succeeded = true
is_succeeded _ = false

unfoldable pub node_kind_eq : NodeKind → NodeKind → Bool
node_kind_eq node_machine node_machine = true
node_kind_eq node_timer node_timer = true
node_kind_eq node_child node_child = true
node_kind_eq node_join node_join = true
node_kind_eq (other_node_kind s) (other_node_kind t) = text_eq s t
node_kind_eq _ _ = false

-- The test of one node in validateWorkflowState.
unfoldable pub invalid_node : Text → NodeState → Bool
unfolding valid_node_kind valid_node_status
invalid_node id n =
    not (text_eq id n.id)
    || (not (valid_identity id)
        || (not (valid_node_kind n.kind)
            || (not (valid_node_status n.status)
                || (ltb 1000000 n.attempt
                    || (ltb max_workflow_failure_size (length n.failure_class)
                        || (not (is_empty n.failure_class) && not (valid_identity n.failure_class)
                            || (not (n.ready_at == 0)
                                  && not (n.ready_at == normalize_ready_at n.ready_at)
                                || (not (is_empty n.child_call_id)
                                      && not (valid_identity n.child_call_id)
                                    || (not (is_timer n.kind) && not (n.ready_at == 0)
                                        || (not (is_child n.kind) && not (is_empty n.child_call_id)
                                            || (is_waiting n.status
                                                  && is_timer n.kind
                                                  && n.ready_at == 0
                                                || (is_waiting n.status
                                                      && is_child n.kind
                                                      && is_empty n.child_call_id
                                                    || not (is_failed n.status)
                                                      && not (is_empty n.failure_class)))))))))))))

abbrev is_hex_digit : ℕ → Bool
is_hex_digit c = leb b'0' c && leb c b'9' || (leb b'a' c && leb c b'f' || leb b'A' c && leb c b'F')

-- validateWorkflowState of a non-nil state. A fingerprint of 64 bytes has an even length, so
-- hex.DecodeString fails only on a byte that is no hexadecimal digit.
unfoldable pub workflow_state_ok : WorkflowState → Bool
unfolding invalid_node
workflow_state_ok w =
    not (
      not (valid_identity w.version)
      || (not (length w.fingerprint == 64)
          || (w.started_at == 0
              || (not (w.started_at == normalize_ready_at w.started_at)
                  || (length w.nodes == 0 || ltb max_workflow_nodes (length w.nodes))))))
    && (all is_hex_digit w.fingerprint
        && all (λ (entry : Text × NodeState). not (invalid_node entry.0 entry.1)) w.nodes)

-- validateWorkflowState
unfoldable pub valid_workflow : Option WorkflowState → Bool
unfolding workflow_state_ok
valid_workflow none = true
valid_workflow (some w) = workflow_state_ok w

-- allowedWorkflowNodeTransition
unfoldable pub allowed_node_transition : NodeStatus → NodeStatus → Bool
allowed_node_transition node_succeeded node_succeeded = true
allowed_node_transition node_failed node_failed = true
allowed_node_transition node_skipped node_skipped = true
allowed_node_transition node_pending node_pending = true
allowed_node_transition node_pending node_running = true
allowed_node_transition node_pending node_waiting = true
allowed_node_transition node_pending node_succeeded = true
allowed_node_transition node_pending node_failed = true
allowed_node_transition node_pending node_skipped = true
allowed_node_transition node_running node_running = true
allowed_node_transition node_running node_waiting = true
allowed_node_transition node_running node_succeeded = true
allowed_node_transition node_running node_failed = true
allowed_node_transition node_running node_skipped = true
allowed_node_transition node_waiting node_waiting = true
allowed_node_transition node_waiting node_succeeded = true
allowed_node_transition node_waiting node_failed = true
allowed_node_transition node_waiting node_skipped = true
allowed_node_transition _ _ = false

-- The test of one node in validateWorkflowSuccessor.
unfoldable pub node_successor : NodeState → Option NodeState → Bool
unfolding node_kind_eq allowed_node_transition
node_successor previous none = false
node_successor previous (some candidate) = not (
    not (text_eq candidate.id previous.id)
    || (not (node_kind_eq candidate.kind previous.kind)
        || (ltb candidate.attempt previous.attempt
            || (ltb ((previous.attempt + 1) % 4294967296) candidate.attempt
                || (not (is_empty previous.child_call_id)
                      && not (text_eq candidate.child_call_id previous.child_call_id)
                    || (not (previous.ready_at == 0)
                          && not (candidate.ready_at == previous.ready_at)
                        || not (allowed_node_transition previous.status candidate.status)))))))

-- validateWorkflowSuccessor
unfoldable pub workflow_successor : Option WorkflowState → WorkflowState → Bool
unfolding workflow_state_ok node_successor
workflow_successor none next = false
workflow_successor (some current) next =
    workflow_state_ok current
    && (workflow_state_ok next
        && (text_eq current.version next.version
            && (text_eq current.fingerprint next.fingerprint
                && (current.started_at == next.started_at
                    && (length current.nodes == length next.nodes
                        && all
                            (λ (entry : Text × NodeState).
                              node_successor entry.1 (lookup entry.0 next.nodes))
                            current.nodes)))))
