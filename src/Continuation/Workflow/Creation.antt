-- ===== src/Continuation/Workflow/Creation.antt =====
-- programmable/continuation/workflow.go: the fingerprint of a definition, and NewWorkflowDefinition.
-- json.Marshal and sha256 are arguments.
use keelith.Prelude.{
  ℕ, ◌+◌, ◌-◌, ◌/◌, ◌%◌, ltb, List, [], ◌∷◌, map, if◌then◌else◌, Option, none, some,
}
use keelith.Prelude.Text.{Text, text_lt}
use keelith.Prelude.Int.{ℤ}
use keelith.Prelude.Maps.{Map}
use keelith.Prelude.Sort.{sort}
use keelith.Prelude.Results.{Result, ok, err, ◌>>=◌}
use keelith.Continuation.Model.{NodeKind}
use keelith.Continuation.Workflow.Definition.{
  JoinPolicy, FailurePolicy, WorkflowError, malformed_workflow, NodeSpec, DefinitionSpec,
  Definition, checked, topological, index_nodes,
}

-- fingerprintNode and the wire form of workflowFingerprint
pub record FingerprintNode : Type 0 where
  pub id : Text
  pub kind : NodeKind
  pub operation : Text
  pub depends_on : List Text
  pub join : JoinPolicy
  pub failure_policy : FailurePolicy
  pub delay_nanos : ℤ

pub record FingerprintWire : Type 0 where
  pub operation : Text
  pub version : Text
  pub nodes : List FingerprintNode

-- sort.Slice by the identities.
unfoldable pub place_node : NodeSpec → List NodeSpec → List NodeSpec
place_node n [] = n ∷ []
place_node n (m ∷ ms) =
    let rest = place_node n ms in if text_lt m.id n.id then m ∷ rest else n ∷ m ∷ ms

unfoldable pub sort_nodes : List NodeSpec → List NodeSpec
unfolding place_node
sort_nodes [] = []
sort_nodes (n ∷ ns) = place_node n (sort_nodes ns)

abbrev pub fingerprint_node : NodeSpec → FingerprintNode
fingerprint_node n = record {
  id = n.id;
  kind = n.kind;
  operation = n.operation;
  depends_on = sort n.depends_on;
  join = n.join;
  failure_policy = n.failure_policy;
  delay_nanos = n.delay;
}

-- hex.EncodeToString
abbrev hex_digit : ℕ → ℕ
hex_digit d = if ltb d 10 then b'0' + d else b'a' + d - 10

unfoldable pub hex : Text → Text
hex [] = []
hex (c ∷ cs) = hex_digit (c / 16) ∷ hex_digit (c % 16) ∷ hex cs

abbrev pub encoded_digest : (Text → Text) → Option Text → Result WorkflowError Text
encoded_digest sha256 none = err malformed_workflow
encoded_digest sha256 (some encoded) = ok (hex (sha256 encoded))

module _ (marshal : FingerprintWire → Option Text) (sha256 : Text → Text) where
  -- workflowFingerprint
  unfoldable pub workflow_fingerprint : Text → Text → List NodeSpec → Result WorkflowError Text
  unfolding sort_nodes hex
  workflow_fingerprint operation version nodes = encoded_digest sha256 (
      marshal (record {
        operation = operation;
        version = version;
        nodes = map fingerprint_node (sort_nodes nodes);
      }))

  -- NewWorkflowDefinition behind its checks
  unfoldable pub build : DefinitionSpec → List NodeSpec × Map ℕ → Result WorkflowError Definition
  unfolding topological workflow_fingerprint
  build spec c = do
    sorted ← topological c.0 c.1
    digest ← workflow_fingerprint spec.operation spec.version c.0
    ok (record {
      operation = spec.operation;
      version = spec.version;
      fingerprint = digest;
      nodes = sorted;
      by_id = index_nodes 0 sorted [];
    })

  -- NewWorkflowDefinition
  unfoldable pub new_definition : DefinitionSpec → Result WorkflowError Definition
  unfolding checked build
  new_definition spec = checked spec >>= build spec
