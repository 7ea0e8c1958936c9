-- ===== src/Continuation/Workflow/Order.antt =====
-- programmable/continuation/workflow.go: NewWorkflowDefinition sorts the nodes topologically, and
-- refuses exactly the cyclic definitions.

use keelith.Prelude.{
  ℕ, ◌<◌, ◌==◌, ltb, true, List, [], ◌∷◌, ◌++◌, map, length, Option, ltb→lt, ==_refl, ◌↔◌, ◌≡◌,
  refl, sym, ap, subst, inl, inr, ◌⊎◌, arith, Bool-cases, All,
}
use keelith.Prelude.Text.{Text, text_eq, text_eq_iff}
use keelith.Prelude.Maps.{Map}
use keelith.Prelude.Counts.{same, occurs, same_other, occurs-append, Within, Within-length}
use keelith.Continuation.Workflow.Definition.{NodeSpec, contains, Visit}
use keelith.Continuation.Workflow.Topology.{ids, undone, Ordered, contains-snoc, NodeAt, IsVisit}
use keelith.Prelude.Counts.{Within-full}
use keelith.Prelude.Results.{ok, err, Result-cases, >>=-eq_ok}
use keelith.Continuation.Workflow.Definition.{
  workflow_cycle, DefinitionSpec, Definition, add_dependents, first_visit, last_visit, topological,
  checked, check_nodes, normalize_node,
}
use keelith.Continuation.Workflow.Creation.{
  FingerprintWire, workflow_fingerprint, build, new_definition,
}
use keelith.Continuation.Workflow.Turns.{visit_ends, length-ids, IsVisit-Within}
use keelith.Continuation.Workflow.Edges.{check_nodes-IsGraph}
use keelith.Continuation.Workflow.Start.{first_visit-IsVisit}

-- The loop's last variables.
last_visit-IsVisit :
    (nodes : List NodeSpec) (by_id : Map ℕ)
    → check_nodes 0 [] 0 nodes ≡ ok by_id
    → IsVisit nodes [] (last_visit nodes by_id) × ((last_visit nodes by_id).ready ≡ [])
unfolding last_visit
last_visit-IsVisit nodes by_id e =
    let g = check_nodes-IsGraph nodes by_id e in
    visit_ends nodes by_id (add_dependents nodes []) (first_visit nodes) refl g
      (first_visit-IsVisit nodes g.distinct)

-- A topological order of some nodes: the same identities equally often, each node one of them, and
-- behind all its dependencies.
abbrev pub Sorts : List NodeSpec → List NodeSpec → Type 0
Sorts nodes order =
    Ordered [] order
    × All (NodeAt nodes) order
    × ((x : Text) → occurs x (ids order) ≡ occurs x (ids nodes))

undone-fewer :
    (done more xs : List Text)
    → ((x : Text) → contains x done ≡ true → contains x more ≡ true)
    → undone done xs ≡ 0
    → undone more xs ≡ 0
unfolding undone
undone-fewer done more [] h e = refl
undone-fewer done more (x ∷ xs) h e = ground (arith, h x, undone-fewer done more xs h, e)

pub occurs-contains : (x : Text) (xs : List Text) → 0 < occurs x xs → contains x xs ≡ true
unfolding occurs contains same
occurs-contains x [] l = absurd (omega arith)
occurs-contains x (y ∷ ys) l = ground (arith, occurs-contains x ys, l)

pub contains-snoc_cases :
    (x id : Text) (done : List Text)
    → contains x (done ++ (id ∷ [])) ≡ true
    → (contains x done ≡ true) ⊎ (id ≡ x)
contains-snoc_cases x id done e = elim (Bool-cases (contains x done)) [
  | inl f ↦ inl f
  | inr f ↦ inr ((text_eq_iff id x).0 (ground (arith, contains-snoc x id done, e, f)))
]

module _ (nodes : List NodeSpec) (v : Visit) (valid : IsVisit nodes [] v)
    (ends : v.ready ≡ []) where
  -- A node whose dependencies are all in the result is in the result.
  free-visited :
      (n : NodeSpec)
      → NodeAt nodes n
      → undone (ids v.result) n.depends_on ≡ 0
      → 0 < occurs n.id (ids v.result)
  unfolding occurs
  free-visited n at e = ground (arith, valid.once n at, ap (occurs n.id) ends, e)

  -- All nodes of a topological order are in the result.
  order-visited :
      (done : List Text) (order : List NodeSpec)
      → Ordered done order
      → All (NodeAt nodes) order
      → ((x : Text) → contains x done ≡ true → contains x (ids v.result) ≡ true)
      → (x : Text) → 0 < occurs x (ids order)
      → 0 < occurs x (ids v.result)
  unfolding Ordered occurs
  order-visited done [] o a h x l = absurd (omega arith)
  order-visited done (n ∷ order) o a h x l =
      let here = free-visited n a.0 (undone-fewer done (ids v.result) n.depends_on h o.0) in
      elim (Bool-cases (text_eq n.id x)) [
        | inl e ↦ subst (λ y. 0 < occurs y (ids v.result)) ((text_eq_iff n.id x).0 e) here
        | inr e ↦
            order-visited (done ++ (n.id ∷ [])) order o.1 a.1
              (λ y c. elim (contains-snoc_cases y n.id done c) [
                | inl f ↦ h y f
                | inr f ↦
                    subst (λ z. contains z (ids v.result) ≡ true) f
                      (occurs-contains n.id (ids v.result) here)
              ])
              x (omega (arith, l, same_other n.id x e))
      ]

result-Within :
    (nodes : List NodeSpec) (by_id : Map ℕ) (v : Visit)
    → IsVisit nodes [] v
    → Within (ids v.result) (ids nodes)
result-Within nodes by_id v h x = omega (
  arith,
  IsVisit-Within nodes by_id (add_dependents nodes []) v h x,
  occurs-append x (ids v.result) v.ready,
)

-- What topologicalWorkflowNodes returns for checked nodes is a topological order.
topological-Sorts :
    (nodes sorted : List NodeSpec) (by_id : Map ℕ)
    → check_nodes 0 [] 0 nodes ≡ ok by_id
    → topological nodes by_id ≡ ok sorted
    → Sorts nodes sorted
unfolding topological
topological-Sorts nodes sorted by_id e t =
    let v = last_visit nodes by_id in
    let (valid, ends) = last_visit-IsVisit nodes by_id e in
    let is_sorted : v.result ≡ sorted = ground (arith, t) in
    let long : length v.result ≡ length nodes = ground (arith, t) in
    let within = result-Within nodes by_id v valid in
    let full =
      Within-full (ids v.result) (ids nodes) within
        (omega (arith, long, length-ids v.result, length-ids nodes)) in
    subst (Sorts nodes) is_sorted (valid.ordered, valid.taken, λ x. omega (arith, within x, full x))

-- When there is a topological order, topologicalWorkflowNodes returns one.
topological_complete :
    (nodes order : List NodeSpec) (by_id : Map ℕ)
    → check_nodes 0 [] 0 nodes ≡ ok by_id
    → Sorts nodes order
    → topological nodes by_id ≡ ok (last_visit nodes by_id).result
unfolding topological contains
topological_complete nodes order by_id e (o, a, all_in) =
    let v = last_visit nodes by_id in
    let (valid, ends) = last_visit-IsVisit nodes by_id e in
    let g = check_nodes-IsGraph nodes by_id e in
    let visited =
      order-visited nodes v valid ends [] order o a (λ x c. absurd (ground (arith, c))) in
    let more : Within (ids nodes) (ids v.result) = λ x.
      elim (Bool-cases (ltb 0 (occurs x (ids nodes)))) [
        | inl l ↦ omega (
          arith,
          g.distinct x,
          visited x (omega (arith, all_in x, ltb→lt 0 (occurs x (ids nodes)) l)),
        )
        | inr l ↦ ground (arith, l)
      ] in
    let long : length v.result ≡ length nodes = omega (
      arith,
      Within-length (ids nodes) (ids v.result) more,
      Within-length (ids v.result) (ids nodes) (result-Within nodes by_id v valid),
      length-ids v.result,
      length-ids nodes,
    ) in
    rw (topological, long, ==_refl (length nodes)) refl

pub checked-nodes :
    (spec : DefinitionSpec) (c : List NodeSpec × Map ℕ)
    → checked spec ≡ ok c
    → (c.0 ≡ map normalize_node spec.nodes) × (check_nodes 0 [] 0 c.0 ≡ ok c.1)
unfolding checked
checked-nodes spec c e = elim (Result-cases (check_nodes 0 [] 0 (map normalize_node spec.nodes))) [
  | inl (m, f) ↦
      let both : c ≡ (map normalize_node spec.nodes, m) = ground (arith, e, f) in
      (ap (λ x. x.0) both, rw both f)
  | inr (x, f) ↦ absurd (ground (arith, e, f))
]

topological-cases :
    (nodes : List NodeSpec) (by_id : Map ℕ)
    → ((sorted : List NodeSpec) × (topological nodes by_id ≡ ok sorted))
      ⊎ (topological nodes by_id ≡ err workflow_cycle)
unfolding topological
topological-cases nodes by_id =
    elim (Bool-cases (length (last_visit nodes by_id).result == length nodes)) [
      | inl e ↦ inl ((last_visit nodes by_id).result, rw (topological, e) refl)
      | inr e ↦ inr (rw (topological, e) refl)
    ]

module _ (marshal : FingerprintWire → Option Text) (sha256 : Text → Text) where
  built-nodes :
      (spec : DefinitionSpec) (c : List NodeSpec × Map ℕ) (d : Definition) (sorted : List NodeSpec)
      → build marshal sha256 spec c ≡ ok d
      → topological c.0 c.1 ≡ ok sorted
      → d.nodes ≡ sorted
  unfolding build
  built-nodes spec c d sorted e t =
      elim (Result-cases (workflow_fingerprint marshal sha256 spec.operation spec.version c.0)) [
        | inl (digest, f) ↦ ground (arith, e, t, f)
        | inr (x, f) ↦ absurd (ground (arith, e, t, f))
      ]

  no_cycle :
      (spec : DefinitionSpec) (c : List NodeSpec × Map ℕ) (sorted : List NodeSpec)
      → checked spec ≡ ok c
      → topological c.0 c.1 ≡ ok sorted
      → ¬ (new_definition marshal sha256 spec ≡ err workflow_cycle)
  unfolding new_definition build workflow_fingerprint
  no_cycle spec c sorted e t cycle = ground (arith, e, t, cycle)

  -- A definition is sorted: when NewWorkflowDefinition returns no error, the nodes of the
  -- definition are the given ones, with their failure policies normalized, each exactly once, and
  -- every node stands behind all nodes that it depends on.
  pub new_definition-Sorts :
      (spec : DefinitionSpec) (d : Definition)
      → new_definition marshal sha256 spec ≡ ok d
      → Sorts (map normalize_node spec.nodes) d.nodes
  unfolding new_definition build
  new_definition-Sorts spec d e =
      let (c, f, rest) = >>=-eq_ok (checked spec) (build marshal sha256 spec) e in
      let (same_nodes, good) = checked-nodes spec c f in
      elim (topological-cases c.0 c.1) [
        | inl (sorted, t) ↦
            let result : d.nodes ≡ sorted = built-nodes spec c d sorted rest t in
            subst (λ ns. Sorts ns d.nodes) same_nodes
              (subst (Sorts c.0) (sym result) (topological-Sorts c.0 sorted c.1 good t))
        | inr t ↦ absurd (ground (arith, rest, t))
      ]

  -- The error for a cycle is exact. For a specification that passes the checks of
  -- NewWorkflowDefinition before the order, with the nodes and their indexes as c, the result is
  -- ErrWorkflowCycle if and only if the nodes have no topological order.
  pub new_definition-cycle :
      (spec : DefinitionSpec) (c : List NodeSpec × Map ℕ)
      → checked spec ≡ ok c
      → (new_definition marshal sha256 spec ≡ err workflow_cycle)
        ↔ (¬ ((order : List NodeSpec) × Sorts c.0 order))
  unfolding new_definition build workflow_fingerprint
  new_definition-cycle spec c e =
      let (same_nodes, good) = checked-nodes spec c e in
      (
        λ cycle (order, sorts).
            let complete = topological_complete c.0 order c.1 good sorts in
            no_cycle spec c (last_visit c.0 c.1).result e complete cycle,
        λ none_sorts. elim (topological-cases c.0 c.1) [
          | inl (sorted, t) ↦ absurd (none_sorts (sorted, topological-Sorts c.0 sorted c.1 good t))
          | inr t ↦ rw (new_definition, e, build, t) refl
        ],
      )
