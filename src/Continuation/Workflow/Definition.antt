-- ===== src/Continuation/Workflow/Definition.antt =====
-- programmable/continuation/workflow.go: the definition of a workflow, a graph of nodes, with its
-- validation and its deterministic topological order.
use keelith.Prelude.{
  ℕ, zero, suc, ◌+◌, ◌==◌, ltb, not, Bool, true, false, ◌&&◌, ◌||◌, List, [], ◌∷◌, ◌++◌, map,
  length, all, get_elem?, is_some, if◌then◌else◌, Option, none, some,
}
use keelith.Prelude.Text.{Text, text_eq, is_empty}
use keelith.Prelude.Maps.{Map, lookup, insert}
use keelith.Prelude.Int.{ℤ, pos, negsuc, is_pos, le_nat, pred}
use keelith.Prelude.Sort.{sort}
use keelith.Prelude.Results.{Result, ok, err, require, reject_if, ◌>>◌, ◌>>=◌}
use keelith.Continuation.Identity.{valid_identity, valid_operation}
use keelith.Continuation.Model.{
  NodeKind, node_machine, node_timer, node_child, node_join, other_node_kind, Error,
}
use keelith.Continuation.Workflow.{valid_node_kind, max_workflow_nodes}

-- Strings with named constants: the first of the unnamed ones is the empty string.
pub data JoinPolicy : Type 0 where
  join_all join_any no_join : JoinPolicy
  other_join : Text → JoinPolicy

pub data FailurePolicy : Type 0 where
  fail_fast continue_on_failure no_failure_policy : FailurePolicy
  other_failure_policy : Text → FailurePolicy

-- `call_error` is an error of the rest of the package.
pub data WorkflowError : Type 0 where
  malformed_workflow workflow_cycle definition_mismatch handler_not_found : WorkflowError
  call_error : Error → WorkflowError

abbrev pub max_workflow_edges : ℕ
max_workflow_edges = 100000

abbrev pub max_workflow_timer_delay : ℕ
max_workflow_timer_delay = 31536000000000000

-- WorkflowJoinPolicy.valid
unfoldable pub valid_join : JoinPolicy → Bool
valid_join join_all = true
valid_join join_any = true
valid_join _ = false

abbrev pub has_no_join : JoinPolicy → Bool
has_no_join no_join = true
has_no_join _ = false

-- WorkflowFailurePolicy.normalized and valid
abbrev pub normalized : FailurePolicy → FailurePolicy
normalized no_failure_policy = fail_fast
normalized p = p

abbrev pub valid_failure_policy : FailurePolicy → Bool
valid_failure_policy fail_fast = true
valid_failure_policy continue_on_failure = true
valid_failure_policy _ = false

-- WorkflowNodeSpec
pub record NodeSpec : Type 0 where
  pub id : Text
  pub kind : NodeKind
  pub operation : Text
  pub depends_on : List Text
  pub join : JoinPolicy
  pub failure_policy : FailurePolicy
  pub delay : ℤ

-- WorkflowDefinitionSpec
pub record DefinitionSpec : Type 0 where
  pub operation : Text
  pub version : Text
  pub nodes : List NodeSpec

-- WorkflowDefinition
pub record Definition : Type 0 where
  pub operation : Text
  pub version : Text
  pub fingerprint : Text
  pub nodes : List NodeSpec
  pub by_id : Map ℕ

abbrev pub is_zero : ℤ → Bool
is_zero (pos n) = n == 0
is_zero (negsuc _) = false

-- validWorkflowNodeShape
unfoldable pub valid_shape : NodeSpec → Bool
unfolding valid_join
valid_shape n = elim n.kind [
  | node_machine ↦ valid_operation n.operation && is_zero n.delay && has_no_join n.join
  | node_child ↦ valid_operation n.operation && is_zero n.delay && has_no_join n.join
  | node_timer ↦
      is_empty n.operation
      && is_pos n.delay
      && le_nat n.delay max_workflow_timer_delay
      && has_no_join n.join
  | node_join ↦
      is_empty n.operation && is_zero n.delay && ltb 0 (length n.depends_on) && valid_join n.join
  | other_node_kind s ↦ false
]

-- Whether a string stands in a list, as in the set of the dependencies seen.
unfoldable pub contains : Text → List Text → Bool
contains x [] = false
contains x (y ∷ ys) = text_eq y x || contains x ys

-- The loop of NewWorkflowDefinition over the dependencies of one node.
unfoldable pub valid_dependencies : Text → List Text → List Text → Bool
unfolding contains
valid_dependencies id seen [] = true
valid_dependencies id seen (d ∷ ds) =
    not (not (valid_identity d) || text_eq d id)
    && (not (contains d seen) && valid_dependencies id (d ∷ seen) ds)

-- The first loop of NewWorkflowDefinition, with the index of the node, the map of the indexes and
-- the number of edges so far.
unfoldable pub check_nodes : ℕ → Map ℕ → ℕ → List NodeSpec → Result WorkflowError (Map ℕ)
unfolding valid_shape valid_dependencies
check_nodes index by_id edges [] = ok by_id
check_nodes index by_id edges (n ∷ ns) = do
  reject_if
      (not (valid_identity n.id)
        || (not (valid_node_kind n.kind) || not (valid_failure_policy n.failure_policy)))
      malformed_workflow
  reject_if (is_some (lookup n.id by_id)) malformed_workflow
  reject_if (ltb max_workflow_edges (edges + length n.depends_on) || not (valid_shape n))
      malformed_workflow
  require (valid_dependencies n.id [] n.depends_on) malformed_workflow
  check_nodes (suc index) (insert n.id index by_id) (edges + length n.depends_on) ns

-- A missing entry of indegree or byID is zero.
abbrev pub degree_in : Option ℤ → ℤ
degree_in none = pos 0
degree_in (some d) = d

abbrev pub index_in : Option ℕ → ℕ
index_in none = 0
index_in (some i) = i

-- indegree
unfoldable pub indegrees : List NodeSpec → Map ℤ → Map ℤ
indegrees [] m = m
indegrees (n ∷ ns) m = indegrees ns (insert n.id (pos (length n.depends_on)) m)

abbrev pub dependents_in : Option (List Text) → List Text
dependents_in none = []
dependents_in (some ds) = ds

-- dependents: the loop over the dependencies of one node, and over the nodes.
unfoldable pub add_dependent : Text → List Text → Map (List Text) → Map (List Text)
add_dependent id [] m = m
add_dependent id (d ∷ ds) m =
    add_dependent id ds (insert d (dependents_in (lookup d m) ++ (id ∷ [])) m)

unfoldable pub add_dependents : List NodeSpec → Map (List Text) → Map (List Text)
unfolding add_dependent
add_dependents [] m = m
add_dependents (n ∷ ns) m = add_dependents ns (add_dependent n.id n.depends_on m)

-- The identities without a dependency, in the order of the map.
unfoldable pub roots : Map ℤ → List Text
roots [] = []
roots ((id, degree) ∷ m) = let rest = roots m in if is_zero degree then id ∷ rest else rest

-- The variables of the loop of topologicalWorkflowNodes.
pub record Visit : Type 0 where
  pub ready : List Text
  pub indegree : Map ℤ
  pub result : List NodeSpec

abbrev pub degree_of : Text → Map ℤ → ℤ
degree_of id m = degree_in (lookup id m)

-- The loop over the dependents of a node.
unfoldable pub release_all : List Text → Visit → Visit
release_all [] v = v
release_all (d ∷ ds) v =
    let degree = pred (degree_of d v.indegree) in
    let indegree = insert d degree v.indegree in
    release_all ds (record v {
      indegree = indegree;
      ready = if is_zero degree then sort (v.ready ++ (d ∷ [])) else v.ready;
    })

abbrev pub appended : Option NodeSpec → List NodeSpec → List NodeSpec
appended none ns = ns
appended (some n) ns = ns ++ (n ∷ [])

-- One turn of the loop, for the node that leaves the front of `ready`. Its index is one of `nodes`.
unfoldable pub take_ready :
    List NodeSpec → Map ℕ → Map (List Text) → Text → List Text → Visit → Visit
unfolding release_all
take_ready nodes by_id dependents id rest v =
    release_all (dependents_in (lookup id dependents)) (record v {
      ready = rest;
      result = appended (get_elem? nodes (index_in (lookup id by_id))) v.result;
    })

-- The loop of topologicalWorkflowNodes, on fuel.
unfoldable pub visit : ℕ → List NodeSpec → Map ℕ → Map (List Text) → Visit → Visit
unfolding take_ready
visit zero nodes by_id dependents v = v
visit (suc fuel) nodes by_id dependents v = elim v.ready [
  | [] ↦ v
  | id ∷ rest ↦ visit fuel nodes by_id dependents (take_ready nodes by_id dependents id rest v)
]

abbrev pub first_visit : List NodeSpec → Visit
first_visit nodes = record {
  ready = sort (roots (indegrees nodes []));
  indegree = indegrees nodes [];
  result = [];
}

-- The state behind the loop: every turn takes a node of its own, so their number is fuel enough.
unfoldable pub last_visit : List NodeSpec → Map ℕ → Visit
unfolding visit
last_visit nodes by_id =
    visit (length nodes) nodes by_id (add_dependents nodes []) (first_visit nodes)

-- topologicalWorkflowNodes
unfoldable pub topological : List NodeSpec → Map ℕ → Result WorkflowError (List NodeSpec)
unfolding last_visit
topological nodes by_id =
    let result = (last_visit nodes by_id).result in
    if length result == length nodes then ok result else err workflow_cycle

-- canonicalByID
unfoldable pub index_nodes : ℕ → List NodeSpec → Map ℕ → Map ℕ
index_nodes index [] m = m
index_nodes index (n ∷ ns) m = index_nodes (suc index) ns (insert n.id index m)

abbrev pub normalize_node : NodeSpec → NodeSpec
normalize_node n = record n { failure_policy = normalized n.failure_policy }

-- The checks of NewWorkflowDefinition before the order, and the nodes with their indexes.
unfoldable pub checked : DefinitionSpec → Result WorkflowError (List NodeSpec × Map ℕ)
unfolding check_nodes
checked spec =
    let nodes = map normalize_node spec.nodes in
    do
      reject_if
          (not (valid_operation spec.operation)
            || (not (valid_identity spec.version)
                || (length spec.nodes == 0 || ltb max_workflow_nodes (length spec.nodes))))
          malformed_workflow
      by_id ← check_nodes 0 [] 0 nodes
      require (all (λ (n : NodeSpec). all (λ d. is_some (lookup d by_id)) n.depends_on) nodes)
          malformed_workflow
      ok (nodes, by_id)
