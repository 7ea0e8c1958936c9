-- ===== src/Continuation/Workflow/Runtime/Commands.antt =====
-- programmable/continuation/workflow.go: what the planner gives a node, by the kind of the node.
use mathlib.Core.Option.{some-injective}
use keelith.Prelude.{
  ℕ, ◌+◌, ◌%◌, Bool, true, false, ◌≡◌, ◌≢◌, refl, ap, subst, arith, Option, some, none, List,
}
use keelith.Prelude.Text.{Text, text_eq_iff}
use keelith.Prelude.Maps.{Map, lookup}
use keelith.Prelude.Results.{Result, ok, >>-eq_ok, require, require-eq_ok}
use keelith.Continuation.Identity.{valid_identity}
use keelith.Continuation.Model.{
  NodeState, NodeStatus, node_pending, NodeKind, node_machine, node_timer, node_child, node_join,
  other_node_kind, normalize_ready_at, plain, invalid_identity,
}
use keelith.Continuation.Workflow.{node_kind_eq}
use keelith.Continuation.Workflow.Definition.{
  NodeSpec, JoinPolicy, join_all, WorkflowError, call_error,
}
use keelith.Continuation.Workflow.Plan.{
  Command, is_pending, evaluate_join, join_command, completes, starts, new_call_id,
}
use keelith.Continuation.Workflow.Plan.Progress.{is_decided}

-- The kinds of a command and of a node agree, and the command has what its kind needs.
pub record Starts (c : Command) (n : NodeState) : Type 0 where
  pub attempt : c.attempt ≡ (n.attempt + 1) % 4294967296
  pub timer : c.kind ≡ node_timer → (c.ready_at ≢ 0) × (c.ready_at ≡ normalize_ready_at c.ready_at)
  pub child : c.kind ≡ node_child → valid_identity c.child_call_id ≡ true

pub record Fits (m : Map NodeState) (c : Command) : Type 0 where
  pub node : NodeState
  pub found : lookup c.node_id m ≡ some node
  pub pending : node.status ≡ node_pending
  pub same_kind : node.kind ≡ c.kind
  pub ends : (s : NodeStatus) → c.complete_status ≡ some s → is_decided s ≡ true
  pub starts : c.complete_status ≡ none → Starts c node

pub node_kind_eq_sound : (a b : NodeKind) → node_kind_eq a b ≡ true → a ≡ b
unfolding node_kind_eq
node_kind_eq_sound node_machine node_machine e = refl
node_kind_eq_sound (other_node_kind s) (other_node_kind t) e =
    ap other_node_kind ((text_eq_iff s t).0 e)
node_kind_eq_sound node_timer node_timer e = refl
node_kind_eq_sound node_child node_child e = refl
node_kind_eq_sound node_join node_join e = refl
node_kind_eq_sound a b e = absurd (ground (arith, e))

pub is_pending_sound : (s : NodeStatus) → is_pending s ≡ true → s ≡ node_pending
is_pending_sound node_pending e = refl
is_pending_sound s e = absurd (ground (arith, e))

pub evaluate_join-ends :
    (policy : JoinPolicy) (ss : List NodeStatus)
    → (evaluate_join policy ss).1 ≡ true
    → is_decided (evaluate_join policy ss).0 ≡ true
unfolding evaluate_join
evaluate_join-ends join_all ss e = ground (arith, e)
evaluate_join-ends p ss e = ground (arith, e)

-- What the planner gives a pending node, as a function of the node.
unfoldable pub IsPlan : NodeSpec → ℕ → Command → Type 0
IsPlan n attempt c =
    (c.node_id ≡ n.id)
    × (c.kind ≡ n.kind)
    × ((s : NodeStatus) → c.complete_status ≡ some s → is_decided s ≡ true)
    × (c.complete_status ≡ none
        → (c.attempt ≡ attempt)
          × (c.kind ≡ node_timer → (c.ready_at ≢ 0) × (c.ready_at ≡ normalize_ready_at c.ready_at))
          × (c.kind ≡ node_child → valid_identity c.child_call_id ≡ true))

pub completes-IsPlan :
    (n : NodeSpec) (attempt : ℕ) (s : NodeStatus)
    → is_decided s ≡ true
    → IsPlan n attempt (completes n s)
unfolding IsPlan
completes-IsPlan n attempt s d = (
  refl,
  refl,
  λ t e. subst (λ x. is_decided x ≡ true) (some-injective s t e) d,
  λ e. absurd (ground (arith, e)),
)

pub new_call_id-valid : (v id : Text) → new_call_id v ≡ ok id → valid_identity id ≡ true
new_call_id-valid v id e =
    let (good, last) =
      >>-eq_ok (require (valid_identity v) (call_error (plain invalid_identity))) (ok v) e in
    let same_id : v ≡ id = ground (arith, last) in
    subst (λ x. valid_identity x ≡ true) same_id
      (require-eq_ok (valid_identity v) (call_error (plain invalid_identity)) good)

pub normalized-nonzero : (t : ℕ) → t ≢ 0 → normalize_ready_at t ≢ 0
unfolding normalize_ready_at
normalized-nonzero t z e = z (ground (arith, e))

pub starts-IsPlan :
    (n : NodeSpec) (attempt : ℕ)
    → n.kind ≢ node_timer
    → n.kind ≢ node_child
    → IsPlan n attempt (starts n attempt)
unfolding IsPlan
starts-IsPlan n attempt no_timer no_child = (
  refl,
  refl,
  λ s e. absurd (ground (arith, e)),
  λ e. (refl, λ k. absurd (no_timer k), λ k. absurd (no_child k)),
)

pub join_command-IsPlan :
    (n : NodeSpec) (attempt : ℕ) (r : NodeStatus × Bool) (c : Command)
    → (r.1 ≡ true → is_decided r.0 ≡ true)
    → join_command n r ≡ some c
    → IsPlan n attempt c
join_command-IsPlan n attempt (s, true) c d e =
    subst (IsPlan n attempt) (some-injective (completes n s) c e)
      (completes-IsPlan n attempt s (d refl))
join_command-IsPlan n attempt (s, false) c d e = absurd (ground (arith, e))

pub ok_some-injective :
    (b c : Command)
    → ◌≡◌ {A = Result WorkflowError (Option Command)} (ok (some b)) (ok (some c))
    → b ≡ c
ok_some-injective b c e = ground (arith, e)
