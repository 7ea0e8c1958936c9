-- ===== src/Continuation/Workflow/Runtime/Reconcile.antt =====
-- programmable/continuation/workflow_runtime.go: reconcile, which runs the commands of the planner.
-- The handlers, the child calls, the clock, json.Marshal and sha256 are arguments.
use keelith.Prelude.{
  ℕ, zero, suc, ◌==◌, not, Bool, true, false, ◌&&◌, List, [], ◌∷◌, ◌++◌, if◌then◌else◌, Option,
  none, some,
}
use keelith.Prelude.Text.{Text, text_eq, codes}
use keelith.Prelude.Maps.{Map, insert}
use keelith.Prelude.Results.{Result, ok, err, ◌>>◌, ◌>>=◌}
use keelith.Continuation.Model.{
  Status, completed, failed, canceled, suspended, cancel_requested, is_terminal, frame_canceled,
  frame_completed, frame_failed, frame_workflow_child, NodeKind, node_machine, node_timer,
  node_child, node_join, other_node_kind, NodeStatus, node_running, node_waiting, NodeState,
  WorkflowState, Snapshot, Error, new_frame,
}
use keelith.Continuation.Apply.{apply, big_endian, digest_part}
use keelith.Continuation.Workflow.{is_waiting, is_child}
use keelith.Continuation.Workflow.Definition.{
  WorkflowError, malformed_workflow, definition_mismatch, handler_not_found, call_error, Definition,
}
use keelith.Continuation.Workflow.Creation.{hex}
use keelith.Continuation.Workflow.Plan.{Command, plan, definition_outcome, skip_non_terminal}
use keelith.Continuation.Workflow.Runtime.{
  called, move_workflow, Execution, NodeResult, ChildRuntime, is_not_found, Work, node_at,
  write_node, ended, encoded, complete_node, handled, start_result, wake_timers, earliest,
  next_wake_at,
}

module _ (sha256 : Text → Text) (children : Option ChildRuntime)
    (handlers : Text → Option (Execution → Option NodeResult))
    (marshal : Text → Text → Status → Option Text) where
  -- refreshChild behind Attach. Its early returns behind the write are errors, with which reconcile
  -- drops the nodes.
  unfoldable pub attached : Text → Result Error Status → Work → Result WorkflowError Work
  unfolding ended
  attached id (err e) work = if is_not_found e then ok work else err (call_error e)
  attached id (ok status) work =
      let n = node_at id work.nodes in
      if not (is_terminal status) then ok work else (do
        payload ← encoded (marshal id n.child_call_id status)
        frame ← called (new_frame frame_workflow_child payload)
        ok (record {
          nodes = insert id (ended status n) work.nodes;
          frames = work.frames ++ (frame ∷ []);
        }))

  -- refreshChild
  unfoldable pub refresh_child : Option ChildRuntime → Text → Work → Result WorkflowError Work
  unfolding attached
  refresh_child none id work = err handler_not_found
  refresh_child (some c) id work = attached id (c.attach (node_at id work.nodes).child_call_id) work

  -- refreshWaitingChildren, over the nodes at its begin.
  unfoldable pub refresh_waiting : Map NodeState → Work → Result WorkflowError Work
  unfolding refresh_child
  refresh_waiting [] work = ok work
  refresh_waiting ((id, n) ∷ m) work =
      (if is_child n.kind && is_waiting n.status then refresh_child children id work else ok work)
      >>= refresh_waiting m

  -- workflowExecutionID
  unfoldable pub execution_id : Text → Text → ℕ → Text
  unfolding digest_part big_endian hex
  execution_id parent node_id attempt = hex (
      sha256 (
        digest_part (codes "keelith-workflow-execution-v1")
        ++ (digest_part parent ++ (digest_part node_id ++ digest_part (big_endian 4 attempt)))))

  -- The child and the machine of executeCommand, for the node with its new attempt.
  unfoldable pub start_child :
      Option ChildRuntime → Command → NodeState → Work → Result WorkflowError Work
  unfolding refresh_child start_result
  start_child none c n work = err handler_not_found
  start_child (some r) c n work = do
    start_result (r.start_call c.child_call_id c.operation)
    refresh_child (some r) n.id
        (write_node (record n { status = node_waiting; child_call_id = c.child_call_id }) work)

  unfoldable pub run_machine :
      Text
      → Command
      → NodeState
      → Option (Execution → Option NodeResult)
      → Work
      → Result WorkflowError Work
  unfolding handled execution_id
  run_machine parent c n none work = err handler_not_found
  run_machine parent c n (some execute) work = do
    next ←
        handled (record n { status = node_running })
          (execute (record {
            parent_call_id = parent;
            node_id = n.id;
            attempt = c.attempt;
            operation = c.operation;
            execution_id = execution_id parent n.id c.attempt;
          }))
    ok (write_node next work)

  -- The switch of executeCommand by the kind of the command.
  unfoldable pub run_node : Text → Command → NodeState → NodeKind → Work → Result WorkflowError Work
  unfolding start_child run_machine
  run_node parent c n node_timer work =
      ok (write_node (record n { status = node_waiting; ready_at = c.ready_at }) work)
  run_node parent c n node_child work = start_child children c n work
  run_node parent c n node_machine work = run_machine parent c n (handlers c.operation) work
  run_node parent c n node_join work = err malformed_workflow
  run_node parent c n (other_node_kind s) work = err malformed_workflow

  -- executeCommand
  unfoldable pub execute_on :
      Text → Command → NodeState → Option NodeStatus → Work → Result WorkflowError Work
  unfolding complete_node run_node
  execute_on parent c n (some status) work = ok (write_node (complete_node status n) work)
  execute_on parent c n none work = run_node parent c (record n { attempt = c.attempt }) c.kind work

  abbrev pub execute : Text → Command → Work → Result WorkflowError Work
  execute parent c work = execute_on parent c (node_at c.node_id work.nodes) c.complete_status work

  -- The inner loop of reconcile, with the number of actions left: the work and what is left.
  unfoldable pub execute_all : ℕ → Text → List Command → Work → Result WorkflowError (ℕ × Work)
  unfolding execute_on
  execute_all left parent [] work = ok (left, work)
  execute_all zero parent (c ∷ cs) work = ok (0, work)
  execute_all (suc left) parent (c ∷ cs) work = execute parent c work >>= execute_all left parent cs

  -- The loop of reconcile over the planner, on fuel. A turn that goes on takes an action, so that
  -- the number of actions left is fuel enough.
  unfoldable pub act : ℕ → Definition → WorkflowState → Text → ℕ × Work → Result WorkflowError Work
  unfolding plan execute_all
  act zero d w parent (left, work) = ok work
  act (suc fuel) d w parent (left, work) =
      if left == 0
      then ok work
      else plan sha256 d (record w { nodes = work.nodes }) parent >>= λ cs. elim cs [
        | [] ↦ ok work
        | c ∷ more ↦ execute_all left parent (c ∷ more) work >>= act fuel d w parent
      ]

  -- reconcile up to the outcome.
  unfoldable pub advance_nodes :
      ℕ → Definition → WorkflowState → Text → ℕ → Result WorkflowError Work
  unfolding refresh_waiting wake_timers act
  advance_nodes max_node_actions d w parent wake = do
    refreshed ← refresh_waiting w.nodes (record { nodes = w.nodes; frames = [] })
    act max_node_actions d w parent
        (max_node_actions, record refreshed { nodes = wake_timers wake refreshed.nodes })

  -- reconcile from the outcome on.
  unfoldable pub settle :
      Snapshot → Definition → WorkflowState → ℕ → ℕ → Work → Result WorkflowError Snapshot
  unfolding definition_outcome skip_non_terminal earliest
  settle current d w now poll_interval work =
      let next = record w { nodes = work.nodes } in
      let (terminal, failure) = definition_outcome d next in
      if terminal
      then (do
        frame ← called (new_frame (if failure then frame_failed else frame_completed) [])
        called (
            apply sha256 current (
              move_workflow (if failure then failed else completed) current.fence
                (record w { nodes = skip_non_terminal work.nodes }) 0
                (work.frames ++ (frame ∷ [])))))
      else called (
          apply sha256 current (
            move_workflow suspended current.fence next (next_wake_at now poll_interval work.nodes)
              work.frames))

  abbrev is_cancel_requested : Status → Bool
  is_cancel_requested cancel_requested = true
  is_cancel_requested _ = false

  abbrev matching : Option Definition → WorkflowState → Result WorkflowError Definition
  matching none w = err definition_mismatch
  matching (some d) w =
      if text_eq d.fingerprint w.fingerprint then ok d else err definition_mismatch

  -- reconcile of a snapshot whose cancellation is requested.
  unfoldable pub cancel_nodes : Snapshot → WorkflowState → Result WorkflowError Snapshot
  unfolding skip_non_terminal
  cancel_nodes current w = do
    frame ← called (new_frame frame_canceled [])
    called (
        apply sha256 current (
          move_workflow canceled current.fence (record w { nodes = skip_non_terminal w.nodes }) 0
            (frame ∷ [])))

  -- reconcile of a snapshot with the workflow w, of which RunOnce has made sure, with what the
  -- registry resolves and the times of the wake-up and of the clock.
  unfoldable pub reconcile :
      ℕ → ℕ → Option Definition → Snapshot → WorkflowState → ℕ → ℕ → Result WorkflowError Snapshot
  unfolding advance_nodes settle cancel_nodes
  reconcile max_node_actions poll_interval resolved current w wake now =
      matching resolved w >>= λ d.
      (if is_cancel_requested current.status
        then cancel_nodes current w
        else (advance_nodes max_node_actions d w current.call_id wake
            >>= settle current d w now poll_interval))
