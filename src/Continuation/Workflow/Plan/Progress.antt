-- ===== src/Continuation/Workflow/Plan/Progress.antt =====
-- programmable/continuation/workflow.go: a workflow in which nothing runs and nothing is planned is
-- done.
use keelith.Prelude.{
  ℕ, ◌+◌, ◌%◌, not, Bool, true, false, ◌||◌, List, [], ◌∷◌, ◌++◌, map, length, all, if◌then◌else◌,
  Option, none, some, ◌≡◌, refl, ap, ◌∙◌, subst, inl, inr, ◌⊎◌, arith, Bool-cases, Option-cases,
  All,
}
use keelith.Prelude.Text.{Text}
use keelith.Prelude.Maps.{Map, lookup}
use keelith.Prelude.Results.{ok, ◌>>=◌, >>=-eq_ok}
use keelith.Continuation.Model.{
  NodeKind, node_machine, node_timer, node_child, node_join, other_node_kind, NodeStatus,
  node_pending, node_running, node_waiting, node_succeeded, node_failed, node_skipped,
  other_node_status, NodeState, WorkflowState,
}
use keelith.Continuation.Workflow.{is_terminal_node, is_failed, is_succeeded}
use keelith.Continuation.Workflow.Definition.{
  JoinPolicy, join_all, join_any, no_join, other_join, FailurePolicy, fail_fast,
  continue_on_failure, no_failure_policy, other_failure_policy, valid_failure_policy, NodeSpec,
  contains,
}
use keelith.Continuation.Workflow.Topology.{undone, Ordered}
use keelith.Continuation.Workflow.Order.{contains-snoc_cases}
use keelith.Continuation.Workflow.Plan.{
  tally, is_skipped, start_command, join_command, completes, evaluate_join, status_of, Command,
  is_pending, is_continue, is_fail_fast, is_join, plan_pending, plan_node, plan_nodes, added,
}

-- A node that has succeeded or failed.
abbrev pub is_decided : NodeStatus → Bool
is_decided s = is_succeeded s || is_failed s

pub decided-terminal : (s : NodeStatus) → is_decided s ≡ true → is_terminal_node s ≡ true
unfolding is_terminal_node
decided-terminal node_succeeded e = refl
decided-terminal node_failed e = refl
decided-terminal node_pending e = absurd (ground arith)
decided-terminal node_running e = absurd (ground arith)
decided-terminal node_waiting e = absurd (ground arith)
decided-terminal node_skipped e = refl
decided-terminal (other_node_status s) e = absurd (ground arith)

all-decided_terminal :
    (ss : List NodeStatus) → all is_decided ss ≡ true → all is_terminal_node ss ≡ true
all-decided_terminal [] e = refl
all-decided_terminal (s ∷ ss) e = ground (arith, e, decided-terminal s, all-decided_terminal ss)

weight-decided :
    (s : NodeStatus)
    → is_decided s ≡ true
    → (if is_succeeded s then 1 else 0) + (if is_failed s || is_skipped s then 1 else 0) ≡ 1
weight-decided node_succeeded e = omega arith
weight-decided node_failed e = omega arith
weight-decided node_pending e = absurd (ground arith)
weight-decided node_running e = absurd (ground arith)
weight-decided node_waiting e = absurd (ground arith)
weight-decided node_skipped e = absurd (ground arith)
weight-decided (other_node_status s) e = absurd (ground arith)

tally-decided :
    (ss : List NodeStatus)
    → all is_decided ss ≡ true
    → tally is_succeeded ss + tally (λ s. is_failed s || is_skipped s) ss ≡ length ss
unfolding tally
tally-decided [] e = omega arith
tally-decided (s ∷ ss) e =
    let one = weight-decided s (ground (arith, e)) in
    let rest = tally-decided ss (ground (arith, e)) in omega (arith, one, rest)

tally-terminal :
    (ss : List NodeStatus) → all is_terminal_node ss ≡ true → tally is_terminal_node ss ≡ length ss
unfolding tally
tally-terminal [] e = refl
tally-terminal (s ∷ ss) e = ground (arith, e, tally-terminal ss)

evaluate_join-decided :
    (policy : JoinPolicy) (ss : List NodeStatus)
    → all is_decided ss ≡ true
    → (evaluate_join policy ss).1 ≡ true
unfolding evaluate_join
evaluate_join-decided join_all ss e = ground (arith, tally-decided ss e)
evaluate_join-decided join_any ss e = ground (arith, tally-terminal ss (all-decided_terminal ss e))
evaluate_join-decided no_join ss e = ground arith
evaluate_join-decided (other_join s) ss e = ground arith

-- Without a failure all decided nodes have succeeded.
all-decided_succeeded :
    (ss : List NodeStatus)
    → all is_decided ss ≡ true
    → all (λ s. not (is_failed s)) ss ≡ true
    → all is_succeeded ss ≡ true
all-decided_succeeded [] e f = refl
all-decided_succeeded (s ∷ ss) e f = ground (arith, e, f, all-decided_succeeded ss)

policy-cases :
    (p : FailurePolicy)
    → valid_failure_policy p ≡ true
    → (is_fail_fast p ≡ true) ⊎ (is_continue p ≡ true)
policy-cases fail_fast e = inl refl
policy-cases continue_on_failure e = inr refl
policy-cases no_failure_policy e = absurd (ground (arith, e))
policy-cases (other_failure_policy s) e = absurd (ground (arith, e))

added-nil : (c : Option Command) (cs : List Command) → added c cs ≡ [] → (c ≡ none) × (cs ≡ [])
added-nil none cs e = (refl, e)
added-nil (some c) cs e = absurd (ground (arith, e))

join_command-some :
    (n : NodeSpec) (r : NodeStatus × Bool) → r.1 ≡ true → join_command n r ≡ some (completes n r.0)
join_command-some n (s, true) e = refl
join_command-some n (s, false) e = absurd (ground (arith, e))

module _ (sha256 : Text → Text) (w : WorkflowState) (parent : Text) where
  start_command-some :
      (n : NodeSpec) (attempt : ℕ) (kind : NodeKind)
      → ¬ (start_command sha256 w parent n attempt kind ≡ ok none)
  unfolding start_command
  start_command-some n attempt node_timer g = ground (arith, g)
  start_command-some n attempt node_child g = ground (arith, g)
  start_command-some n attempt node_machine g = ground (arith, g)
  start_command-some n attempt node_join g = ground (arith, g)
  start_command-some n attempt (other_node_kind s) g = ground (arith, g)

  -- A pending node whose dependencies are decided gets a command.
  plan_pending-some :
      (n : NodeSpec) (attempt : ℕ) (ss : List NodeStatus)
      → all is_decided ss ≡ true
      → valid_failure_policy n.failure_policy ≡ true
      → ¬ (plan_pending sha256 w parent n attempt ss ≡ ok none)
  unfolding plan_pending
  plan_pending-some n attempt ss e f g = elim (Bool-cases (is_join n.kind)) [
    | inl joins ↦
        let decided =
          join_command-some n (evaluate_join n.join ss) (evaluate_join-decided n.join ss e) in
        ground (arith, g, joins, decided)
    | inr other ↦ elim (Bool-cases (all (λ s. not (is_failed s)) ss)) [
      | inl fine ↦
          let succeeded = all-decided_succeeded ss e fine in
          let started = start_command-some n ((attempt + 1) % 4294967296) n.kind in
          ground (arith, g, other, fine, succeeded, started)
      | inr broken ↦
          let terminal = all-decided_terminal ss e in
          let started = start_command-some n ((attempt + 1) % 4294967296) n.kind in
          let policy = policy-cases n.failure_policy f in
          ground (arith, g, other, broken, terminal, started, policy)
    ]
  ]

  pub plan_nodes-nil :
      (ns : List NodeSpec)
      → plan_nodes sha256 w parent ns ≡ ok []
      → All (λ n. plan_node sha256 w parent n (lookup n.id w.nodes) ≡ ok none) ns
  unfolding plan_nodes
  plan_nodes-nil [] e = tt
  plan_nodes-nil (n ∷ ns) e =
      let (c, f, rest) =
        >>=-eq_ok (plan_node sha256 w parent n (lookup n.id w.nodes))
          (λ c. plan_nodes sha256 w parent ns >>= λ cs. ok (added c cs)) e in
      let (cs, g, last) = >>=-eq_ok (plan_nodes sha256 w parent ns) (λ cs. ok (added c cs)) rest in
      let (no_command, no_more) = added-nil c cs (ground (arith, last)) in
      (f ∙ ap ok no_command, plan_nodes-nil ns (g ∙ ap ok no_more))

-- Nothing runs, waits or was skipped.
abbrev pub Calm : WorkflowState → Type 0
Calm w =
    (id : Text) (n : NodeState)
    → lookup id w.nodes ≡ some n
    → (is_pending n.status || is_decided n.status) ≡ true

done-decided :
    (done xs : List Text) (m : Map NodeState)
    → ((x : Text) → contains x done ≡ true → is_decided (status_of m x) ≡ true)
    → undone done xs ≡ 0
    → all is_decided (map (status_of m) xs) ≡ true
unfolding undone
done-decided done [] m h e = refl
done-decided done (x ∷ xs) m h e = ground (arith, h x, done-decided done xs m h, e)

module _ (sha256 : Text → Text) (w : WorkflowState) (parent : Text) (calm : Calm w) where
  plan_node-decided :
      (n : NodeSpec)
      → valid_failure_policy n.failure_policy ≡ true
      → all is_decided (map (status_of w.nodes) n.depends_on) ≡ true
      → plan_node sha256 w parent n (lookup n.id w.nodes) ≡ ok none
      → is_decided (status_of w.nodes n.id) ≡ true
  unfolding plan_node
  plan_node-decided n v e f = elim (Option-cases (lookup n.id w.nodes)) [
    | inl missing ↦ absurd (ground (arith, f, missing))
    | inr (node, here) ↦
        let planned =
          plan_pending-some sha256 w parent n node.attempt (map (status_of w.nodes) n.depends_on) e
            v in
        rw here (ground (arith, f, here, planned, calm n.id node here))
  ]

  pub order-decided :
      (done : List Text) (ns : List NodeSpec)
      → Ordered done ns
      → All (λ n. valid_failure_policy n.failure_policy ≡ true) ns
      → All (λ n. plan_node sha256 w parent n (lookup n.id w.nodes) ≡ ok none) ns
      → ((x : Text) → contains x done ≡ true → is_decided (status_of w.nodes x) ≡ true)
      → All (λ n. is_decided (status_of w.nodes n.id) ≡ true) ns
  unfolding Ordered
  order-decided done [] o v f h = tt
  order-decided done (n ∷ ns) o v f h =
      let here = plan_node-decided n v.0 (done-decided done n.depends_on w.nodes h o.0) f.0 in
      (
        here,
        order-decided (done ++ (n.id ∷ [])) ns o.1 v.1 f.1 (λ x c.
            elim (contains-snoc_cases x n.id done c) [
              | inl k ↦ h x k
              | inr k ↦ subst (λ y. is_decided (status_of w.nodes y) ≡ true) k here
            ]),
      )
