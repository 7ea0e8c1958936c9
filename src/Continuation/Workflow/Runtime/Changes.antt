-- ===== src/Continuation/Workflow/Runtime/Changes.antt =====
-- programmable/continuation/workflow_runtime.go: every change of a node by a command, a child or a
-- timer is a move.
use keelith.Prelude.{
  ℕ, ◌==◌, ltb, not, true, false, ◌&&◌, ◌≡◌, ◌≢◌, refl, ap, subst, inl, inr, ◌⊎◌, arith, Bool-cases,
  Option, some, none,
}
use keelith.Prelude.Text.{Text, codes}
use keelith.Prelude.Results.{ok, >>-eq_ok, require}
use keelith.Continuation.Identity.{valid_identity}
use keelith.Continuation.Model.{
  NodeStatus, node_pending, node_running, node_waiting, node_succeeded, node_failed, node_skipped,
  NodeState, node_timer, node_child, Status, normalize_ready_at,
}
use keelith.Continuation.Workflow.{
  is_terminal_node, invalid_node, valid_node_status, is_timer, is_child, is_waiting, is_failed,
}
use keelith.Continuation.Workflow.Definition.{malformed_workflow}
use keelith.Continuation.Workflow.Plan.{skip_node}
use keelith.Continuation.Workflow.Plan.Progress.{is_decided, decided-terminal}
use keelith.Continuation.Workflow.Runtime.{
  NodeResult, ended, complete_node, handled, wake_node, is_completed, valid_node_result,
}
use keelith.Continuation.Workflow.Runtime.Moves.{IsMove, is_unused, is_open}
use keelith.Continuation.Workflow.Runtime.Ends.{
  ok-injective, open-blank, valid_identity-nonempty, ends-IsMove,
}

pub complete_node-IsMove :
    (n : NodeState) (status : NodeStatus)
    → n.status ≡ node_pending
    → is_decided status ≡ true
    → (id : Text) → invalid_node id n ≡ false
    → IsMove n (complete_node status n)
unfolding complete_node valid_identity
complete_node-IsMove n status p d id v =
    let o : is_open n.status ≡ true = rw p refl in
    let blank = open-blank n id v o in
    elim (Bool-cases (is_failed status)) [
      | inl f ↦ rw f (
          ends-IsMove n n.attempt status (codes "DEPENDENCY_FAILED") o (decided-terminal status d)
            (inl refl) (rw f refl))
      | inr f ↦ rw f (
          ends-IsMove n n.attempt status n.failure_class o (decided-terminal status d) (inl refl)
            (rw blank refl))
    ]

waiting-open : (s : NodeStatus) → is_waiting s ≡ true → is_open s ≡ true
waiting-open node_waiting e = refl
waiting-open s e = ground (arith, e)

pub ended-IsMove :
    (n : NodeState) (status : Status)
    → is_waiting n.status ≡ true
    → (id : Text) → invalid_node id n ≡ false
    → IsMove n (ended status n)
unfolding ended valid_identity is_terminal_node
ended-IsMove n status p id v =
    let o = waiting-open n.status p in
    let blank = open-blank n id v o in
    elim (Bool-cases (is_completed status)) [
      | inl f ↦
          rw f (
            ends-IsMove n n.attempt node_succeeded n.failure_class o refl (inl refl)
              (rw blank refl))
      | inr f ↦ rw f (
          ends-IsMove n n.attempt node_failed (codes "CHILD_TERMINAL_FAILURE") o refl (inl refl)
            refl)
    ]

pub wake_node-IsMove :
    (wake : ℕ) (n : NodeState) (id : Text)
    → invalid_node id n ≡ false
    → (wake_node wake n ≡ n) ⊎ IsMove n (wake_node wake n)
unfolding wake_node is_terminal_node
wake_node-IsMove wake n id v =
    elim (Bool-cases
      (is_timer n.kind && is_waiting n.status && (not (wake == 0) && not (ltb wake n.ready_at)))) [
        | inl f ↦
            let o = waiting-open n.status (ground (arith, f)) in
            inr (
              rw f (
                ends-IsMove n n.attempt node_succeeded n.failure_class o refl (inl refl)
                  (rw (open-blank n id v o) refl)))
        | inr f ↦ inl (rw f refl)
      ]

not_open_terminal :
    (s : NodeStatus) → valid_node_status s ≡ true → is_terminal_node s ≡ false → is_open s ≡ true
unfolding valid_node_status is_terminal_node
not_open_terminal node_pending e f = refl
not_open_terminal s e f = ground (arith, e, f)

pub skip_node-IsMove :
    (n : NodeState) (id : Text)
    → invalid_node id n ≡ false
    → (skip_node n ≡ n) ⊎ IsMove n (skip_node n)
unfolding is_terminal_node invalid_node
skip_node-IsMove n id v = elim (Bool-cases (is_terminal_node n.status)) [
  | inl f ↦ inl (rw f refl)
  | inr f ↦
      let o = not_open_terminal n.status (ground (arith, v)) f in
      inr (
        rw f (
          ends-IsMove n n.attempt node_skipped n.failure_class o refl (inl refl)
            (rw (open-blank n id v o) refl)))
]

pub handled-IsMove :
    (n next : NodeState) (r : Option NodeResult)
    → n.status ≡ node_pending
    → is_unused n ≡ true
    → handled (record n { attempt = 1; status = node_running }) r ≡ ok next
    → IsMove n next
unfolding handled valid_node_result valid_identity is_terminal_node
handled-IsMove n next none p u h =
    subst (IsMove n) (ok-injective h)
      (ends-IsMove n 1 node_failed (codes "HANDLER_ERROR") (rw p refl) refl (inr (u, refl)) refl)
handled-IsMove n next (some r) p u h =
    let (good, last) =
      >>-eq_ok (require (valid_node_result r) malformed_workflow)
        (ok (record n { attempt = 1; status = r.status; failure_class = r.failure_class })) h in
    subst (IsMove n) (ok-injective last) (
      ends-IsMove n 1 r.status r.failure_class (rw p refl)
        (decided-terminal r.status (ground (arith, good))) (inr (u, refl)) (ground (arith, good)))

pub timer-IsMove :
    (n : NodeState) (ready_at : ℕ)
    → n.status ≡ node_pending
    → is_unused n ≡ true
    → n.kind ≡ node_timer
    → ready_at ≢ 0
    → ready_at ≡ normalize_ready_at ready_at
    → IsMove n (record n { attempt = 1; status = node_waiting; ready_at = ready_at })
unfolding invalid_node
timer-IsMove n ready_at p u k z r = record {
  same_id = refl;
  same_kind = refl;
  comes = rw p refl;
  goes = inr (p, refl);
  kept = inr (u, refl);
  stays_valid = λ id v.
      ground (arith, v, u, z, r, ap is_timer k, ap is_child k, open-blank n id v (rw p refl));
}

pub child-IsMove :
    (n : NodeState) (child : Text)
    → n.status ≡ node_pending
    → is_unused n ≡ true
    → n.kind ≡ node_child
    → valid_identity child ≡ true
    → IsMove n (record n { attempt = 1; status = node_waiting; child_call_id = child })
unfolding invalid_node
child-IsMove n child p u k c = record {
  same_id = refl;
  same_kind = refl;
  comes = rw p refl;
  goes = inr (p, refl);
  kept = inr (u, refl);
  stays_valid = λ id v. ground (
    arith,
    v,
    u,
    c,
    valid_identity-nonempty child c,
    ap is_timer k,
    ap is_child k,
    open-blank n id v (rw p refl),
  );
}
