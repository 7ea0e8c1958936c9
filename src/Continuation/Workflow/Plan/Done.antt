-- ===== src/Continuation/Workflow/Plan/Done.antt =====
-- programmable/continuation/workflow.go: a workflow with nothing to run and nothing to plan is terminal.
use keelith.Prelude.{
  ℕ, zero, suc, ◌+◌, ◌≤◌, ◌<◌, Bool, true, false, ◌||◌, List, [], ◌∷◌, ◌++◌, map, length, get_elem?,
  Option, some, ◌≡◌, sym, ap, ◌∙◌, subst, inl, inr, ◌⊎◌, arith, Bool-cases, List-cases, All,
}
use keelith.Prelude.Text.{Text, text_eq, text_eq_iff}
use keelith.Prelude.Maps.{Map, insert}
use keelith.Prelude.Results.{ok, >>=-eq_ok}
use keelith.Continuation.Model.{NodeState, WorkflowState}
use keelith.Continuation.Workflow.{is_failed}
use keelith.Continuation.Workflow.Definition.{
  valid_failure_policy, NodeSpec, DefinitionSpec, Definition, contains, checked, check_nodes,
  normalize_node,
}
use keelith.Continuation.Workflow.Creation.{FingerprintWire, new_definition, build}
use keelith.Continuation.Workflow.Topology.{ids, undone, Ordered, NodeAt}
use keelith.Continuation.Workflow.Order.{
  Sorts, new_definition-Sorts, checked-nodes, contains-snoc_cases,
}
use keelith.Continuation.Workflow.Plan.{
  status_of, has_dependent, outcome_loop, definition_outcome, plan_nodes, plan,
}
use mathlib.Core.Option.{some-injective}
use keelith.Prelude.Counts.{occurs, same, same_self}
use keelith.Continuation.Workflow.Edges.{check_nodes-IsGraph, check_nodes-tail}
use keelith.Continuation.Workflow.Plan.Progress.{
  is_decided, decided-terminal, Calm, order-decided, plan_nodes-nil,
}

-- The last of the nodes n ∷ ns.
unfoldable last_of : NodeSpec → List NodeSpec → NodeSpec
last_of n [] = n
last_of n (m ∷ ms) = last_of m ms

last_of-occurs : (n : NodeSpec) (ns : List NodeSpec) → 0 < occurs (last_of n ns).id (ids (n ∷ ns))
unfolding occurs last_of
last_of-occurs n [] = omega (arith, same_self n.id)
last_of-occurs n (m ∷ ms) = omega (arith, last_of-occurs m ms)

undone-contains :
    (x : Text) (done xs : List Text)
    → undone done xs ≡ 0
    → contains x xs ≡ true
    → contains x done ≡ true
unfolding undone contains
undone-contains x done [] e c = absurd (ground (arith, c))
undone-contains x done (y ∷ ys) e c = elim (Bool-cases (text_eq y x)) [
  | inl k ↦ subst (λ z. contains z done ≡ true) ((text_eq_iff y x).0 k) (ground (arith, e))
  | inr k ↦ undone-contains x done ys (ground (arith, e)) (ground (arith, c, k))
]

-- What a node of an ordered list depends on is not its last node, unless that stands there twice.
depended-early :
    (done : List Text) (n : NodeSpec) (ns : List NodeSpec)
    → Ordered done (n ∷ ns)
    → has_dependent (n ∷ ns) (last_of n ns).id ≡ true
    → (contains (last_of n ns).id done ≡ true) ⊎ (2 ≤ occurs (last_of n ns).id (ids (n ∷ ns)))
unfolding Ordered has_dependent last_of occurs
depended-early done n [] o c = inl (undone-contains n.id done n.depends_on o.0 (ground (arith, c)))
depended-early done n (m ∷ ms) o c =
    let x = (last_of m ms).id in
    elim (Bool-cases (contains x n.depends_on)) [
      | inl k ↦ inl (undone-contains x done n.depends_on o.0 k)
      | inr k ↦ elim (depended-early (done ++ (n.id ∷ [])) m ms o.1 (ground (arith, c, k))) [
        | inl f ↦ elim (contains-snoc_cases x n.id done f) [
          | inl g ↦ inl g
          | inr g ↦ inr (omega (arith, last_of-occurs m ms, ap (λ y. same y x) g, same_self x))
        ]
        | inr f ↦ inr (omega (arith, f))
      ]
    ]

-- Nothing depends on the last node of an ordered list without repetition.
last_of-sink :
    (n : NodeSpec) (ns : List NodeSpec)
    → Ordered [] (n ∷ ns)
    → ((x : Text) → occurs x (ids (n ∷ ns)) ≤ 1)
    → has_dependent (n ∷ ns) (last_of n ns).id ≡ false
unfolding contains
last_of-sink n ns o once = elim (Bool-cases (has_dependent (n ∷ ns) (last_of n ns).id)) [
  | inl c ↦ elim (depended-early [] n ns o c) [
    | inl f ↦ absurd (ground (arith, f))
    | inr f ↦ absurd (omega (arith, f, once (last_of n ns).id))
  ]
  | inr c ↦ c
]

module _ (nodes : List NodeSpec) (m : Map NodeState) where
  outcome-counted :
      (ns : List NodeSpec) (failed : Bool) (sinks : ℕ)
      → All (λ n. is_decided (status_of m n.id) ≡ true) ns
      → 0 < sinks
      → (outcome_loop nodes m ns failed sinks).0 ≡ true
  unfolding outcome_loop
  outcome-counted [] failed sinks h l = ground (arith, l)
  outcome-counted (n ∷ ns) failed sinks h l =
      let terminal = decided-terminal (status_of m n.id) h.0 in
      let next = outcome-counted ns failed sinks h.1 l in
      let sink =
        outcome-counted ns (failed || is_failed (status_of m n.id)) (sinks + 1) h.1 (omega arith) in
      ground (arith, terminal, next, sink)

  outcome-sink :
      (n : NodeSpec) (ns : List NodeSpec) (failed : Bool) (sinks : ℕ)
      → All (λ k. is_decided (status_of m k.id) ≡ true) (n ∷ ns)
      → has_dependent nodes (last_of n ns).id ≡ false
      → (outcome_loop nodes m (n ∷ ns) failed sinks).0 ≡ true
  unfolding outcome_loop last_of
  outcome-sink n [] failed sinks h e =
      let terminal = decided-terminal (status_of m n.id) h.0 in ground (arith, terminal, e)
  outcome-sink n (k ∷ ks) failed sinks h e =
      let terminal = decided-terminal (status_of m n.id) h.0 in
      let next = outcome-sink k ks failed sinks h.1 e in
      let sink =
        outcome-counted (k ∷ ks) (failed || is_failed (status_of m n.id)) (sinks + 1) h.1
          (omega arith) in
      ground (arith, terminal, next, sink)

check_nodes-policy :
    (index edges : ℕ) (by_id m : Map ℕ) (ns : List NodeSpec)
    → check_nodes index by_id edges ns ≡ ok m
    → (i : ℕ) (n : NodeSpec) → get_elem? ns i ≡ some n
    → valid_failure_policy n.failure_policy ≡ true
unfolding check_nodes
check_nodes-policy index edges by_id m [] e i n at = absurd (ground (arith, at))
check_nodes-policy index edges by_id m (k ∷ ns) e zero n at =
    subst (λ (q : NodeSpec). valid_failure_policy q.failure_policy ≡ true) (some-injective k n at)
      (ground (arith, e))
check_nodes-policy index edges by_id m (k ∷ ns) e (suc i) n at =
    let (new, rest) = check_nodes-tail index edges by_id m k ns e in
    check_nodes-policy (suc index) (edges + length k.depends_on) (insert k.id index by_id) m ns rest
      i n at

all-policies :
    (nodes order : List NodeSpec) (by_id : Map ℕ)
    → check_nodes 0 [] 0 nodes ≡ ok by_id
    → All (NodeAt nodes) order
    → All (λ n. valid_failure_policy n.failure_policy ≡ true) order
all-policies nodes [] by_id e h = tt
all-policies nodes (n ∷ order) by_id e h =
    (check_nodes-policy 0 0 [] by_id nodes e h.0.0 n h.0.1, all-policies nodes order by_id e h.1)

checked-nonempty :
    (spec : DefinitionSpec) (c : List NodeSpec × Map ℕ)
    → checked spec ≡ ok c
    → (n : NodeSpec) × (ns : List NodeSpec) × (c.0 ≡ n ∷ ns)
unfolding checked
checked-nonempty spec c e = elim (List-cases spec.nodes) [
  | inl empty ↦ absurd (ground (arith, e, empty))
  | inr (n, ns, f) ↦ (
    normalize_node n,
    map normalize_node ns,
    (checked-nodes spec c e).0 ∙ ap (map normalize_node) f,
  )
]

contains-nil : (x : Text) → ¬ (contains x [] ≡ true)
unfolding contains
contains-nil x e = ground (arith, e)

-- The outcome of a sorted list of decided nodes.
sorted-terminal :
    (d : Definition) (w : WorkflowState) (n : NodeSpec) (ns : List NodeSpec)
    → d.nodes ≡ n ∷ ns
    → Ordered [] (n ∷ ns)
    → ((x : Text) → occurs x (ids (n ∷ ns)) ≤ 1)
    → All (λ k. is_decided (status_of w.nodes k.id) ≡ true) (n ∷ ns)
    → (definition_outcome d w).0 ≡ true
unfolding definition_outcome
sorted-terminal d w n ns e o once h =
    subst (λ ks. (outcome_loop ks w.nodes ks false 0).0 ≡ true) (sym e)
      (outcome-sink (n ∷ ns) w.nodes n ns false 0 h (last_of-sink n ns o once))

Sorts-nonempty :
    (nodes order : List NodeSpec) (n : NodeSpec) (ns : List NodeSpec)
    → nodes ≡ n ∷ ns
    → Sorts nodes order
    → ¬ (order ≡ [])
unfolding occurs
Sorts-nonempty nodes order n ns e (o, a, same_ids) f =
    let count : occurs n.id [] ≡ occurs n.id (ids (n ∷ ns)) =
      ap (λ ks. occurs n.id (ids ks)) (sym f) ∙ same_ids n.id ∙ ap (λ ks. occurs n.id (ids ks)) e in
    absurd (omega (arith, count, same_self n.id))

module _ (marshal : FingerprintWire → Option Text) (sha256 : Text → Text) where
  planned-nodes :
      (d : Definition) (w : WorkflowState) (parent : Text)
      → plan sha256 d w parent ≡ ok []
      → plan_nodes sha256 w parent d.nodes ≡ ok []
  unfolding plan
  planned-nodes d w parent e = ground (arith, e)

  -- Planning makes progress. Take a definition that NewWorkflowDefinition has returned and a state
  -- of the workflow in which each node is pending, has succeeded or has failed. If the planner
  -- returns no command and no error, then the outcome of the workflow is terminal.
  pub plan-nil_terminal :
      (spec : DefinitionSpec) (d : Definition) (w : WorkflowState) (parent : Text)
      → new_definition marshal sha256 spec ≡ ok d
      → Calm w
      → plan sha256 d w parent ≡ ok []
      → (definition_outcome d w).0 ≡ true
  unfolding new_definition
  plan-nil_terminal spec d w parent e calm idle =
      let (c, f, rest) = >>=-eq_ok (checked spec) (build marshal sha256 spec) e in
      let (same_nodes, good) = checked-nodes spec c f in
      let (first, others, begins) = checked-nonempty spec c f in
      let sorts : Sorts c.0 d.nodes =
        subst (λ ns. Sorts ns d.nodes) (sym same_nodes)
          (new_definition-Sorts marshal sha256 spec d e) in
      elim (List-cases d.nodes) [
        | inl empty ↦ absurd (Sorts-nonempty c.0 d.nodes first others begins sorts empty)
        | inr (n, ns, is_cons) ↦
            let (o, a, same_ids) = subst (Sorts c.0) is_cons sorts in
            let g = check_nodes-IsGraph c.0 c.1 good in
            let once : (x : Text) → occurs x (ids (n ∷ ns)) ≤ 1 =
              λ x. omega (arith, same_ids x, g.distinct x) in
            let idle_nodes = plan_nodes-nil sha256 w parent (n ∷ ns) (
              subst (λ ks. plan_nodes sha256 w parent ks ≡ ok []) is_cons
                (planned-nodes d w parent idle)) in
            let none_done : (x : Text)
                → contains x [] ≡ true
                → is_decided (status_of w.nodes x) ≡ true =
              λ x k. absurd (contains-nil x k) in
            let decided =
              order-decided sha256 w parent calm [] (n ∷ ns) o
                (all-policies c.0 (n ∷ ns) c.1 good a) idle_nodes none_done in
            sorted-terminal d w n ns is_cons o once decided
      ]
