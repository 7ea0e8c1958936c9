-- ===== src/Continuation/Workflow/Runtime.antt =====
-- programmable/continuation/workflow_runtime.go and workflow.go: what the reconciliation of a
-- workflow does to one node.
use keelith.Prelude.{
  ℕ, zero, suc, ◌+◌, ◌==◌, ltb, not, Bool, true, false, ◌&&◌, ◌||◌, List, [], ◌∷◌, ◌++◌, length,
  if◌then◌else◌, Option, none, some,
}
use keelith.Prelude.Text.{Text, text_eq, codes, is_empty}
use keelith.Prelude.Maps.{Map, lookup, insert}
use keelith.Prelude.Results.{Result, ok, err, require, reject_if, ◌>>◌, ◌>>=◌}
use keelith.Continuation.Identity.{valid_identity}
use keelith.Continuation.Model.{
  Status, completed, failed, canceled, suspended, cancel_requested, is_terminal, Frame,
  frame_canceled, frame_completed, frame_failed, frame_workflow_child, NodeKind, node_machine,
  node_timer, node_child, node_join, other_node_kind, NodeStatus, node_pending, node_running,
  node_waiting, node_succeeded, node_failed, node_skipped, other_node_status, NodeState,
  WorkflowState, Snapshot, Transition, Error, state_error, plain, ErrorKind, already_exists,
  not_found, new_frame, new_snapshot_with_input, normalize_ready_at, move,
}
use keelith.Continuation.Apply.{apply, big_endian, digest_part, validate_snapshot}
use keelith.Continuation.Workflow.{
  is_failed, is_succeeded, is_waiting, is_timer, is_child, max_workflow_failure_size,
}
use keelith.Continuation.Workflow.Definition.{
  WorkflowError, malformed_workflow, definition_mismatch, handler_not_found, call_error, NodeSpec,
  Definition,
}
use keelith.Continuation.Workflow.Creation.{hex}
use keelith.Continuation.Workflow.Plan.{Command, plan, definition_outcome, skip_non_terminal}
pub mod Moves
pub mod Ends
pub mod Changes
pub mod Follows
pub mod Commands
pub mod Fits
pub mod Acts
pub mod Successor
pub mod Loops
pub mod Reconciled
pub mod Fuel
pub mod Reconcile

-- newWorkflowSnapshotState
abbrev pending_node : NodeSpec → NodeState
pending_node n = record {
  id = n.id;
  kind = n.kind;
  status = node_pending;
  attempt = 0;
  child_call_id = [];
  ready_at = 0;
  failure_class = [];
}

unfoldable pub pending_nodes : List NodeSpec → Map NodeState → Map NodeState
pending_nodes [] m = m
pending_nodes (n ∷ ns) m = pending_nodes ns (insert n.id (pending_node n) m)

abbrev pub new_workflow_state : Definition → ℕ → WorkflowState
new_workflow_state d started_at = record {
  version = d.version;
  fingerprint = d.fingerprint;
  started_at = normalize_ready_at started_at;
  nodes = pending_nodes d.nodes [];
}

abbrev pub called {ℓ} : {A : Type ℓ} → Result Error A → Result WorkflowError A
called (ok x) = ok x
called (err e) = err (call_error e)

-- newWorkflowSnapshot
unfoldable pub new_workflow_snapshot : Text → Definition → Text → ℕ → Result WorkflowError Snapshot
unfolding pending_nodes
new_workflow_snapshot call_id d input started_at = do
  reject_if (started_at == 0) malformed_workflow
  s ← called (new_snapshot_with_input call_id d.operation input)
  let next = record s { workflow = some (new_workflow_state d started_at) }
  called (validate_snapshot next)
  ok next

abbrev is_suspended_status : Status → Bool
is_suspended_status suspended = true
is_suspended_status _ = false

-- moveWorkflow
abbrev pub move_workflow : Status → ℕ → WorkflowState → ℕ → List Frame → Transition
move_workflow status fence w ready_at frames =
    let moved = record (move status fence frames) { workflow = some w } in
    if is_suspended_status status && not (ready_at == 0)
    then record moved { ready_at = normalize_ready_at ready_at; timer = true }
    else moved

-- WorkflowExecution and WorkflowNodeResult
pub record Execution : Type 0 where
  pub parent_call_id : Text
  pub node_id : Text
  pub attempt : ℕ  -- uint32
  pub operation : Text
  pub execution_id : Text

pub record NodeResult : Type 0 where
  pub status : NodeStatus
  pub failure_class : Text

-- WorkflowChildRuntime: what StartCall returns, and the status in the snapshot of an attachment.
pub record ChildRuntime : Type 0 where
  pub start_call : Text → Text → Result Error (Unit {0})
  pub attach : Text → Result Error Status

-- errors.Is(err, ErrAlreadyExists) and errors.Is(err, ErrNotFound)
abbrev is_already_exists : Error → Bool
is_already_exists (plain already_exists) = true
is_already_exists (state_error already_exists _ _) = true
is_already_exists _ = false

abbrev pub is_not_found : Error → Bool
is_not_found (plain not_found) = true
is_not_found (state_error not_found _ _) = true
is_not_found _ = false

-- validateWorkflowNodeResult
unfoldable pub valid_node_result : NodeResult → Bool
valid_node_result r = not (
    not (is_succeeded r.status) && not (is_failed r.status)
    || (ltb max_workflow_failure_size (length r.failure_class)
        || (not (is_empty r.failure_class) && not (valid_identity r.failure_class)
            || is_succeeded r.status && not (is_empty r.failure_class))))

-- The nodes and the frames that reconcile collects.
pub record Work : Type 0 where
  pub nodes : Map NodeState
  pub frames : List Frame

-- A missing node is the zero value.
abbrev pub node_in : Option NodeState → NodeState
node_in (some n) = n
node_in none = record {
  id = [];
  kind = other_node_kind [];
  status = other_node_status [];
  attempt = 0;
  child_call_id = [];
  ready_at = 0;
  failure_class = [];
}

abbrev pub node_at : Text → Map NodeState → NodeState
node_at id m = node_in (lookup id m)

abbrev pub write_node : NodeState → Work → Work
write_node n work = record work { nodes = insert n.id n work.nodes }

abbrev pub is_completed : Status → Bool
is_completed completed = true
is_completed _ = false

-- The node of a child that has ended.
unfoldable pub ended : Status → NodeState → NodeState
ended status n =
    if is_completed status
    then record n { status = node_succeeded }
    else record n { status = node_failed; failure_class = codes "CHILD_TERMINAL_FAILURE" }

abbrev pub encoded : Option Text → Result WorkflowError Text
encoded none = err malformed_workflow
encoded (some payload) = ok payload

-- The first part of executeCommand, for a command with a complete status.
unfoldable pub complete_node : NodeStatus → NodeState → NodeState
complete_node status n =
    if is_failed status
    then record n { status = status; failure_class = codes "DEPENDENCY_FAILED" }
    else record n { status = status }

-- The switch behind handler.Execute; none is an error of the handler.
unfoldable pub handled : NodeState → Option NodeResult → Result WorkflowError NodeState
unfolding valid_node_result
handled n none = ok (record n { status = node_failed; failure_class = codes "HANDLER_ERROR" })
handled n (some r) = do
  require (valid_node_result r) malformed_workflow
  ok (record n { status = r.status; failure_class = r.failure_class })

unfoldable pub start_result : Result Error (Unit {0}) → Result WorkflowError (Unit {0})
start_result (ok tt) = ok tt
start_result (err e) = if is_already_exists e then ok tt else err (call_error e)

-- The timers that are due when reconcile begins.
unfoldable pub wake_node : ℕ → NodeState → NodeState
wake_node wake n =
    if is_timer n.kind && is_waiting n.status && (not (wake == 0) && not (ltb wake n.ready_at))
    then record n { status = node_succeeded }
    else n

unfoldable pub wake_timers : ℕ → Map NodeState → Map NodeState
unfolding wake_node
wake_timers wake [] = []
wake_timers wake ((id, n) ∷ m) = (id, wake_node wake n) ∷ wake_timers wake m

-- nextWakeAt: the poll time, or an earlier timer.
unfoldable pub earliest : ℕ → Map NodeState → ℕ
earliest wake [] = wake
earliest wake ((id, n) ∷ m) =
    earliest
      (if is_timer n.kind && is_waiting n.status && (wake == 0 || ltb n.ready_at wake)
        then n.ready_at
        else wake)
      m

abbrev pub next_wake_at : ℕ → ℕ → Map NodeState → ℕ
next_wake_at now poll_interval m = earliest (normalize_ready_at (now + poll_interval)) m
