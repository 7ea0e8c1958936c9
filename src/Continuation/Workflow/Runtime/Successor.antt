-- ===== src/Continuation/Workflow/Runtime/Successor.antt =====
-- programmable/continuation/workflow.go: a valid state follows itself, and a change of one node does
-- not touch what is known of the others.
use keelith.Prelude.{
  ◌≤◌, ltb, not, true, false, ◌≡◌, refl, ◌∙◌, arith, some, List, [], ◌∷◌, all, All, map,
}
use keelith.Prelude.Text.{Text, text_eq, text_eq_iff, text_eq_refl}
use keelith.Prelude.Maps.{Map, lookup, keys}
use keelith.Prelude.Counts.{occurs, same, same_self}
use keelith.Continuation.Model.{
  NodeState, NodeStatus, node_pending, NodeKind, node_machine, other_node_kind,
}
use keelith.Continuation.Workflow.{
  invalid_node, node_successor, allowed_node_transition, valid_node_status, node_kind_eq,
}
use keelith.Continuation.Workflow.Plan.{Command}
use keelith.Continuation.Workflow.Runtime.Moves.{is_fresh}
use keelith.Continuation.Workflow.Runtime.Follows.{Follows}
use keelith.Continuation.Workflow.Runtime.Commands.{Fits}

absent : (x y : Text) → same y x ≡ 0 → text_eq x y ≡ false
unfolding same
absent x y e = ground (arith, e, text_eq_iff x y, text_eq_iff y x)

-- A change of one node does not touch the commands for other nodes.
pub Fits-kept :
    (id : Text) (m next : Map NodeState) (cs : List Command)
    → ((k : Text) → text_eq id k ≡ false → lookup k next ≡ lookup k m)
    → occurs id (map (λ (c : Command). c.node_id) cs) ≡ 0
    → All (Fits m) cs
    → All (Fits next) cs
unfolding occurs
Fits-kept id m next [] kept none_there h = tt
Fits-kept id m next (c ∷ cs) kept none_there h =
    let fit = h.0 in
    (
      record {
        node = fit.node;
        found = kept c.node_id (absent id c.node_id (omega (arith, none_there))) ∙ fit.found;
        pending = fit.pending;
        same_kind = fit.same_kind;
        ends = fit.ends;
        starts = fit.starts;
      },
      Fits-kept id m next cs kept (omega (arith, none_there)) h.1,
    )

-- The map finds the entries of a list.
abbrev pub AllFound : Map NodeState → Map NodeState → Type 0
AllFound m es = All (λ (e : Text × NodeState). lookup e.0 m ≡ some e.1) es

pub AllFound-kept :
    (id : Text) (m next es : Map NodeState)
    → ((k : Text) → text_eq id k ≡ false → lookup k next ≡ lookup k m)
    → occurs id (keys es) ≡ 0
    → AllFound m es
    → AllFound next es
unfolding occurs
AllFound-kept id m next [] kept none_there h = tt
AllFound-kept id m next ((k, n) ∷ es) kept none_there h = (
  kept k (absent id k (omega (arith, none_there))) ∙ h.0,
  AllFound-kept id m next es kept (omega (arith, none_there)) h.1,
)

pub distinct-AllFound : (m : Map NodeState) → ((x : Text) → occurs x (keys m) ≤ 1) → AllFound m m
unfolding occurs lookup
distinct-AllFound [] once = tt
distinct-AllFound ((k, n) ∷ m) once =
    let tail = distinct-AllFound m (λ x. omega (arith, once x)) in
    (
      rw (text_eq_refl k) refl,
      AllFound-kept k m ((k, n) ∷ m) m (λ j e. rw e refl) (omega (arith, once k, same_self k)) tail,
    )

allowed_refl : (s : NodeStatus) → valid_node_status s ≡ true → allowed_node_transition s s ≡ true
unfolding allowed_node_transition valid_node_status
allowed_refl node_pending e = refl
allowed_refl s e = ground (arith, e)

node_kind_eq_refl : (k : NodeKind) → node_kind_eq k k ≡ true
unfolding node_kind_eq
node_kind_eq_refl node_machine = refl
node_kind_eq_refl (other_node_kind s) = text_eq_refl s
node_kind_eq_refl k = ground arith

node_successor_refl :
    (id : Text) (n : NodeState) → invalid_node id n ≡ false → node_successor n (some n) ≡ true
unfolding node_successor invalid_node
node_successor_refl id n v =
    let valid : valid_node_status n.status ≡ true = ground (arith, v) in
    let few : ltb 1000000 n.attempt ≡ false = ground (arith, v) in
    rw
      (
        text_eq_refl n.id,
        node_kind_eq_refl n.kind,
        text_eq_refl n.child_call_id,
        allowed_refl n.status valid,
      )
      (ground (arith, few))

successors_refl :
    (m es : Map NodeState)
    → AllFound m es
    → all (λ (e : Text × NodeState). not (invalid_node e.0 e.1)) es ≡ true
    → all (λ (e : Text × NodeState). node_successor e.1 (lookup e.0 m)) es ≡ true
successors_refl m [] f v = refl
successors_refl m ((k, n) ∷ es) f v =
    let here = node_successor_refl k n (ground (arith, v)) in
    rw (f.0, here) (successors_refl m es f.1 (ground (arith, v)))

pub Follows-refl :
    (m : Map NodeState)
    → ((x : Text) → occurs x (keys m) ≤ 1)
    → all (λ (e : Text × NodeState). not (invalid_node e.0 e.1)) m ≡ true
    → all (λ (e : Text × NodeState). is_fresh e.1) m ≡ true
    → Follows m m
Follows-refl m once v f = record {
  same_length = refl;
  successors = successors_refl m m (distinct-AllFound m once) v;
  valid = v;
  fresh = f;
}
