-- ===== src/Continuation/Workflow/Runtime/Ends.antt =====
-- programmable/continuation/workflow.go: a node that ends stays valid.
use keelith.Prelude.{
  ℕ, ◌==◌, ltb, not, Bool, true, false, ◌&&◌, ◌||◌, ◌≡◌, refl, ap, inl, inr, ◌⊎◌, arith, List-cases,
  [], ◌∷◌, length,
}
use keelith.Prelude.Text.{Text, text_eq, is_empty}
use keelith.Prelude.Results.{Result, ok}
use keelith.Continuation.Identity.{valid_identity}
use keelith.Continuation.Model.{
  NodeStatus, node_pending, node_succeeded, NodeState, normalize_ready_at,
}
use keelith.Continuation.Workflow.{
  is_terminal_node, invalid_node, valid_node_kind, valid_node_status, is_timer, is_child,
  is_waiting, is_failed,
}
use keelith.Continuation.Workflow.Definition.{WorkflowError}
use keelith.Continuation.Workflow.Runtime.Moves.{IsMove, is_unused, is_open}

pub ok-injective :
    {x y : NodeState} → ◌≡◌ {A = Result WorkflowError NodeState} (ok x) (ok y) → x ≡ y
ok-injective {x} {y} e = ground (arith, e)

open_not_failed : (s : NodeStatus) → is_open s ≡ true → is_failed s ≡ false
open_not_failed node_pending e = refl
open_not_failed s e = ground (arith, e)

terminal-parts :
    (s : NodeStatus)
    → is_terminal_node s ≡ true
    → (valid_node_status s && not (is_waiting s)) ≡ true
unfolding valid_node_status is_terminal_node
terminal-parts node_succeeded e = refl
terminal-parts s e = ground (arith, e)

pub open-blank :
    (n : NodeState) (id : Text)
    → invalid_node id n ≡ false
    → is_open n.status ≡ true
    → is_empty n.failure_class ≡ true
unfolding invalid_node
open-blank n id v o = ground (arith, v, open_not_failed n.status o)

pub valid_identity-nonempty : (s : Text) → valid_identity s ≡ true → is_empty s ≡ false
unfolding valid_identity
valid_identity-nonempty [] e = absurd (ground (arith, e))
valid_identity-nonempty (c ∷ s) e = refl

-- The tests of a node that its status, attempt and failure class do not enter.
fixed_parts : Text → NodeState → Bool
fixed_parts id n =
    not (text_eq id n.id)
    || (not (valid_identity id)
        || (not (valid_node_kind n.kind)
            || (not (n.ready_at == 0) && not (n.ready_at == normalize_ready_at n.ready_at)
                || (not (is_empty n.child_call_id) && not (valid_identity n.child_call_id)
                    || (not (is_timer n.kind) && not (n.ready_at == 0)
                        || not (is_child n.kind) && not (is_empty n.child_call_id))))))

invalid_node-fixed :
    (id : Text) (n : NodeState) → invalid_node id n ≡ false → fixed_parts id n ≡ false
unfolding invalid_node fixed_parts
invalid_node-fixed id n v = ground (arith, v)

attempt_small :
    (n : NodeState) (attempt : ℕ) (id : Text)
    → (attempt ≡ n.attempt) ⊎ ((is_unused n ≡ true) × (attempt ≡ 1))
    → invalid_node id n ≡ false
    → ltb 1000000 attempt ≡ false
unfolding invalid_node
attempt_small n attempt id (inl e) v = rw e (ground (arith, v))
attempt_small n attempt id (inr (u, e)) v = rw e refl

ends-valid :
    (n : NodeState) (attempt : ℕ) (status : NodeStatus) (reason id : Text)
    → is_terminal_node status ≡ true
    → ltb 1000000 attempt ≡ false
    → (is_empty reason
        || is_failed status && (valid_identity reason && not (ltb 128 (length reason))))
      ≡ true
    → fixed_parts id n ≡ false
    → invalid_node id (record n { attempt = attempt; status = status; failure_class = reason })
      ≡ false
unfolding invalid_node fixed_parts
ends-valid n attempt status reason id d a r v =
    let valid : valid_node_status status ≡ true = ground (arith, terminal-parts status d) in
    let still : is_waiting status ≡ false = ground (arith, terminal-parts status d) in
    elim (List-cases reason) [
      | inl empty ↦ rw (valid, still, a, empty) (ground (arith, v))
      | inr (c, cs, full) ↦
          let fails : is_failed status ≡ true = ground (arith, r, ap is_empty full) in
          let identity : valid_identity reason ≡ true = ground (arith, r, ap is_empty full) in
          let short : ltb 128 (length reason) ≡ false = ground (arith, r, ap is_empty full) in
          rw (valid, still, a, fails, identity, short, ap is_empty full) (ground (arith, v))
    ]

-- A node that ends with a status and a failure class, in an attempt of its own or its first one.
pub ends-IsMove :
    (n : NodeState) (attempt : ℕ) (status : NodeStatus) (reason : Text)
    → is_open n.status ≡ true
    → is_terminal_node status ≡ true
    → (attempt ≡ n.attempt) ⊎ ((is_unused n ≡ true) × (attempt ≡ 1))
    → (is_empty reason
        || is_failed status && (valid_identity reason && not (ltb 128 (length reason))))
      ≡ true
    → IsMove n (record n { attempt = attempt; status = status; failure_class = reason })
unfolding invalid_node
ends-IsMove n attempt status reason o d a r = record {
  same_id = refl;
  same_kind = refl;
  comes = o;
  goes = inl (d);
  kept = elim a [ inl same_attempt ↦ inl (same_attempt, refl, refl) | inr first ↦ inr first ];
  stays_valid = λ id v.
      ends-valid n attempt status reason id d (attempt_small n attempt id a v) r
        (invalid_node-fixed id n v);
}
