-- ===== src/Continuation/Workflow/Runtime/Acts.antt =====
-- programmable/continuation/workflow_runtime.go: what reconcile makes of the nodes follows the nodes
-- that it was given.

use keelith.Prelude.{
  ◌+◌, ◌%◌, not, true, false, ◌||◌, ◌≡◌, refl, sym, ap, ◌∙◌, subst, inl, inr, arith, Bool-cases,
  Option, some, none, [], ◌∷◌, ◌++◌,
}
use keelith.Prelude.Text.{Text, text_eq, text_eq_iff}
use keelith.Prelude.Maps.{Map, lookup, insert, lookup-insert, lookup-insert_self}
use keelith.Prelude.Results.{Result, ok, err, >>=-eq_ok, ◌>>=◌, >>-eq_ok}
use keelith.Continuation.Identity.{valid_identity}
use keelith.Continuation.Model.{
  NodeState, NodeStatus, node_pending, node_waiting, node_running, NodeKind, node_machine,
  node_timer, node_child, node_join, other_node_kind, Status, Error, is_terminal, Frame, new_frame,
  frame_workflow_child,
}
use keelith.Continuation.Workflow.{is_waiting, invalid_node}
use keelith.Continuation.Workflow.Definition.{WorkflowError}
use keelith.Continuation.Workflow.Plan.{Command, is_pending}
use keelith.Continuation.Workflow.Runtime.{
  ChildRuntime, Execution, NodeResult, Work, write_node, node_at, node_in, called, encoded, ended,
  complete_node, handled, start_result,
}
use keelith.Continuation.Workflow.Runtime.Reconcile.{
  attached, refresh_child, start_child, run_machine, run_node, execute_on, execution_id,
}
use keelith.Continuation.Workflow.Runtime.Moves.{IsMove, is_unused, is_fresh}
use keelith.Continuation.Workflow.Runtime.Changes.{
  complete_node-IsMove, ended-IsMove, handled-IsMove, timer-IsMove, child-IsMove,
}
use keelith.Continuation.Workflow.Runtime.Follows.{Follows, insert-Follows, all-lookup}
use keelith.Continuation.Workflow.Runtime.Commands.{Fits, Starts}

-- A change of the node with one identity that keeps the nodes behind those of the state.
abbrev pub Only : Text → Map NodeState → Map NodeState → Map NodeState → Type 0
Only id nodes m next =
    Follows nodes next × ((k : Text) → text_eq id k ≡ false → lookup k next ≡ lookup k m)

found-valid :
    (nodes m : Map NodeState) (id : Text) (n : NodeState)
    → Follows nodes m
    → lookup id m ≡ some n
    → invalid_node id n ≡ false
found-valid nodes m id n h f =
    let valid =
      all-lookup (λ (e : Text × NodeState). not (invalid_node e.0 e.1)) id n m h.valid f in
    ground (arith, valid)

valid-id : (id : Text) (n : NodeState) → invalid_node id n ≡ false → n.id ≡ id
unfolding invalid_node
valid-id id n v = sym ((text_eq_iff id n.id).0 (ground (arith, v)))

insert-Only :
    (nodes m : Map NodeState) (id : Text) (n next : NodeState)
    → Follows nodes m
    → lookup id m ≡ some n
    → IsMove n next
    → Only id nodes m (insert id next m)
insert-Only nodes m id n next h f move =
    (insert-Follows nodes m id n next h f move, λ k e. rw (lookup-insert id k next m, e) refl)

write-Only :
    (nodes : Map NodeState) (work : Work) (id : Text) (n next : NodeState)
    → Follows nodes work.nodes
    → lookup id work.nodes ≡ some n
    → IsMove n next
    → Only id nodes work.nodes (write_node next work).nodes
write-Only nodes work id n next h f move =
    let same_id = move.same_id ∙ valid-id id n (found-valid nodes work.nodes id n h f) in
    subst (λ k. Only id nodes work.nodes (insert k next work.nodes)) (sym same_id)
      (insert-Only nodes work.nodes id n next h f move)

pub ok_work-injective : (x y : Work) → ◌≡◌ {A = Result WorkflowError Work} (ok x) (ok y) → x ≡ y
ok_work-injective x y e = ground (arith, e)

module _ (sha256 : Text → Text) (children : Option ChildRuntime)
    (handlers : Text → Option (Execution → Option NodeResult))
    (marshal : Text → Text → Status → Option Text) (nodes : Map NodeState) where
  attached-Only :
      (id : Text) (answer : Result Error Status) (work next : Work) (n : NodeState)
      → Follows nodes work.nodes
      → lookup id work.nodes ≡ some n
      → is_waiting n.status ≡ true
      → attached sha256 children handlers marshal id answer work ≡ ok next
      → Only id nodes work.nodes next.nodes
  unfolding attached
  attached-Only id (err x) work next n h f p e =
      subst (λ (y : Work). Only id nodes work.nodes y.nodes)
        (ok_work-injective work next (ground (arith, e))) (h, λ k g. refl)
  attached-Only id (ok status) work next n h f p e = elim (Bool-cases (is_terminal status)) [
    | inl t ↦
        let node = node_at id work.nodes in
        let is_node : node ≡ n = ap node_in f in
        let behind : Frame → Result WorkflowError Work = λ frame. ok (record {
          nodes = insert id (ended status node) work.nodes;
          frames = work.frames ++ (frame ∷ []);
        }) in
        let reply : (encoded (marshal id node.child_call_id status) >>= λ payload.
        called (new_frame frame_workflow_child payload) >>= behind)
            ≡ ok next =
          ground (arith, e, t) in
        let (payload, g, rest) =
          >>=-eq_ok (encoded (marshal id node.child_call_id status))
            (λ payload. called (new_frame frame_workflow_child payload) >>= behind) reply in
        let (frame, k, last) =
          >>=-eq_ok (called (new_frame frame_workflow_child payload)) behind rest in
        let move = ended-IsMove n status p id (found-valid nodes work.nodes id n h f) in
        subst (λ (y : Work). Only id nodes work.nodes y.nodes)
          (ok_work-injective
            (record {
              nodes = insert id (ended status node) work.nodes;
              frames = work.frames ++ (frame ∷ []);
            })
            next last)
          (subst (λ x. Only id nodes work.nodes (insert id (ended status x) work.nodes))
            (sym is_node) (insert-Only nodes work.nodes id n (ended status n) h f move))
    | inr t ↦
        subst (λ (y : Work). Only id nodes work.nodes y.nodes)
          (ok_work-injective work next (ground (arith, e, t))) (h, λ k g. refl)
  ]

  pub refresh_child-Only :
      (r : Option ChildRuntime) (id : Text) (work next : Work) (n : NodeState)
      → Follows nodes work.nodes
      → lookup id work.nodes ≡ some n
      → is_waiting n.status ≡ true
      → refresh_child sha256 children handlers marshal r id work ≡ ok next
      → Only id nodes work.nodes next.nodes
  unfolding refresh_child
  refresh_child-Only none id work next n h f p e = absurd (ground (arith, e))
  refresh_child-Only (some c) id work next n h f p e =
      attached-Only id (c.attach (node_at id work.nodes).child_call_id) work next n h f p e

  start_child-Only :
      (r : Option ChildRuntime) (c : Command) (work next : Work) (n : NodeState)
      → Follows nodes work.nodes
      → lookup c.node_id work.nodes ≡ some n
      → n.status ≡ node_pending
      → is_unused n ≡ true
      → c.attempt ≡ 1
      → n.kind ≡ node_child
      → valid_identity c.child_call_id ≡ true
      → start_child sha256 children handlers marshal r c (record n { attempt = c.attempt }) work
        ≡ ok next
      → Only c.node_id nodes work.nodes next.nodes
  unfolding start_child
  start_child-Only none c work next n h f p u one k v e = absurd (ground (arith, e))
  start_child-Only (some r) c work next n h f p u one k v e =
      let changed = record n {
        attempt = c.attempt;
        status = node_waiting;
        child_call_id = c.child_call_id;
      } in
      let move =
        subst
          (λ a.
            IsMove n
              (record n { attempt = a; status = node_waiting; child_call_id = c.child_call_id }))
          (sym one) (child-IsMove n c.child_call_id p u k v) in
      let (good, rest) =
        >>-eq_ok (start_result (r.start_call c.child_call_id c.operation))
          (refresh_child sha256 children handlers marshal (some r) n.id (write_node changed work))
          e in
      let begun = write-Only nodes work c.node_id n changed h f move in
      let same_id = valid-id c.node_id n (found-valid nodes work.nodes c.node_id n h f) in
      let over =
        refresh_child-Only (some r) n.id (write_node changed work) next changed begun.0
          (lookup-insert_self n.id changed work.nodes) refl rest in
      (over.0, λ j g. over.1 j (subst (λ i. text_eq i j ≡ false) (sym same_id) g) ∙ begun.1 j g)

  run_machine-Only :
      (parent : Text) (c : Command) (handler : Option (Execution → Option NodeResult))
      (work next : Work) (n : NodeState)
      → Follows nodes work.nodes
      → lookup c.node_id work.nodes ≡ some n
      → n.status ≡ node_pending
      → is_unused n ≡ true
      → c.attempt ≡ 1
      → run_machine sha256 children handlers marshal parent c
          (record n { attempt = c.attempt })
          handler
          work
        ≡ ok next
      → Only c.node_id nodes work.nodes next.nodes
  unfolding run_machine
  run_machine-Only parent c none work next n h f p u one e = absurd (ground (arith, e))
  run_machine-Only parent c (some execute) work next n h f p u one e =
      let answer = execute (record {
        parent_call_id = parent;
        node_id = n.id;
        attempt = c.attempt;
        operation = c.operation;
        execution_id = execution_id sha256 children handlers marshal parent n.id c.attempt;
      }) in
      let (changed, g, last) =
        >>=-eq_ok (handled (record n { attempt = c.attempt; status = node_running }) answer)
          (λ x. ok (write_node x work)) e in
      let first =
        subst (λ a. handled (record n { attempt = a; status = node_running }) answer ≡ ok changed)
          one g in
      subst (λ (y : Work). Only c.node_id nodes work.nodes y.nodes)
        (ok_work-injective (write_node changed work) next last)
        (write-Only nodes work c.node_id n changed h f (handled-IsMove n changed answer p u first))

  run_node-Only :
      (parent : Text) (c : Command) (kind : NodeKind) (work next : Work) (n : NodeState)
      → Follows nodes work.nodes
      → lookup c.node_id work.nodes ≡ some n
      → n.status ≡ node_pending
      → is_unused n ≡ true
      → c.attempt ≡ 1
      → n.kind ≡ kind
      → c.kind ≡ kind
      → Starts c n
      → run_node sha256 children handlers marshal parent c
          (record n { attempt = c.attempt })
          kind
          work
        ≡ ok next
      → Only c.node_id nodes work.nodes next.nodes
  unfolding run_node
  run_node-Only parent c node_timer work next n h f p u one k ck s e =
      let (nonzero, normal) = s.timer ck in
      let move =
        subst
          (λ a. IsMove n (record n { attempt = a; status = node_waiting; ready_at = c.ready_at }))
          (sym one) (timer-IsMove n c.ready_at p u k nonzero normal) in
      let changed = record n {
        attempt = c.attempt;
        status = node_waiting;
        ready_at = c.ready_at;
      } in
      subst (λ (y : Work). Only c.node_id nodes work.nodes y.nodes)
        (ok_work-injective (write_node changed work) next e)
        (write-Only nodes work c.node_id n changed h f move)
  run_node-Only parent c node_child work next n h f p u one k ck s e =
      start_child-Only children c work next n h f p u one k (s.child ck) e
  run_node-Only parent c node_machine work next n h f p u one k ck s e =
      run_machine-Only parent c (handlers c.operation) work next n h f p u one e
  run_node-Only parent c node_join work next n h f p u one k ck s e = absurd (ground (arith, e))
  run_node-Only parent c (other_node_kind x) work next n h f p u one k ck s e =
      absurd (ground (arith, e))

  pub execute_on-Only :
      (parent : Text) (c : Command) (status : Option NodeStatus) (work next : Work)
      → (fit : Fits work.nodes c) → Follows nodes work.nodes
      → c.complete_status ≡ status
      → execute_on sha256 children handlers marshal parent c fit.node status work ≡ ok next
      → Only c.node_id nodes work.nodes next.nodes
  unfolding execute_on
  execute_on-Only parent c (some s) work next fit h k e =
      let valid = found-valid nodes work.nodes c.node_id fit.node h fit.found in
      let move = complete_node-IsMove fit.node s fit.pending (fit.ends s k) c.node_id valid in
      let changed = complete_node s fit.node in
      subst (λ (y : Work). Only c.node_id nodes work.nodes y.nodes)
        (ok_work-injective (write_node changed work) next e)
        (write-Only nodes work c.node_id fit.node changed h fit.found move)
  execute_on-Only parent c none work next fit h k e =
      let fresh =
        all-lookup (λ (x : Text × NodeState). is_fresh x.1) c.node_id fit.node work.nodes h.fresh
          fit.found in
      let unused : is_unused fit.node ≡ true =
        subst (λ x. (not (is_pending x) || is_unused fit.node) ≡ true) fit.pending fresh in
      let starts = fit.starts k in
      let none_before : fit.node.attempt ≡ 0 = ground (arith, unused) in
      let first : c.attempt ≡ 1 = starts.attempt ∙ ap (λ a. (a + 1) % 4294967296) none_before in
      run_node-Only parent c c.kind work next fit.node h fit.found fit.pending unused first
        fit.same_kind refl starts e
