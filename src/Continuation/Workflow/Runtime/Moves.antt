-- ===== src/Continuation/Workflow/Runtime/Moves.antt =====
-- programmable/continuation/workflow.go: chains of transitions of one node.
use keelith.Prelude.{
  ◌==◌, not, Bool, true, false, ◌&&◌, ◌||◌, ◌≡◌, refl, ap, subst, inl, inr, ◌⊎◌, arith, some,
}
use keelith.Prelude.Text.{Text, text_eq, text_eq_iff, is_empty}
use keelith.Continuation.Model.{
  NodeStatus, node_pending, node_running, node_waiting, node_succeeded, NodeState,
}
use keelith.Continuation.Workflow.{
  is_terminal_node, allowed_node_transition, invalid_node, node_successor, node_kind_eq,
}
use keelith.Continuation.Workflow.Plan.{is_pending}

abbrev pub is_open : NodeStatus → Bool
is_open node_pending = true
is_open node_running = true
is_open node_waiting = true
is_open _ = false

pub open_back :
    (p m : NodeStatus) → allowed_node_transition p m ≡ true → is_open m ≡ true → is_open p ≡ true
unfolding allowed_node_transition
open_back node_pending node_pending e f = refl
open_back p m e f = ground (arith, e, f)

pub open_ends :
    (p s : NodeStatus)
    → is_open p ≡ true
    → is_terminal_node s ≡ true
    → allowed_node_transition p s ≡ true
unfolding allowed_node_transition is_terminal_node
open_ends node_pending node_pending e f = refl
open_ends p s e f = ground (arith, e, f)

pub pending_before :
    (p s : NodeStatus)
    → allowed_node_transition p node_pending ≡ true
    → allowed_node_transition node_pending s ≡ true
    → allowed_node_transition p s ≡ true
unfolding allowed_node_transition
pending_before node_pending s e f = f
pending_before p s e f = absurd (ground (arith, e))

-- A node that has not been started.
abbrev pub is_unused : NodeState → Bool
is_unused n = n.attempt == 0 && (is_empty n.child_call_id && n.ready_at == 0)

-- A node has been started or is unused.
abbrev pub is_fresh : NodeState → Bool
is_fresh n = not (is_pending n.status) || is_unused n

-- A change of one node: it ends or begins to wait, and its first attempt starts when it is unused.
pub record IsMove (n next : NodeState) : Type 0 where
  pub same_id : next.id ≡ n.id
  pub same_kind : next.kind ≡ n.kind
  pub comes : is_open n.status ≡ true
  pub goes :
      (is_terminal_node next.status ≡ true)
      ⊎ ((n.status ≡ node_pending) × (next.status ≡ node_waiting))
  pub kept :
      ((next.attempt ≡ n.attempt)
        × (next.child_call_id ≡ n.child_call_id)
        × (next.ready_at ≡ n.ready_at))
      ⊎ ((is_unused n ≡ true) × (next.attempt ≡ 1))
  pub stays_valid : (id : Text) → invalid_node id n ≡ false → invalid_node id next ≡ false

ends_not_pending : (s : NodeStatus) → is_terminal_node s ≡ true → is_pending s ≡ false
unfolding is_terminal_node
ends_not_pending node_succeeded e = refl
ends_not_pending s e = ground (arith, e)

empty_same : (a b : Text) → text_eq a b ≡ true → is_empty a ≡ is_empty b
empty_same a b e = ap is_empty ((text_eq_iff a b).0 e)

pub IsMove-fresh : (n next : NodeState) → IsMove n next → is_fresh next ≡ true
unfolding is_terminal_node
IsMove-fresh n next m = elim (m.goes) [
  | inl ends ↦ ground (arith, ends_not_pending next.status ends)
  | inr (pending, waiting) ↦ rw waiting refl
]

IsMove-allowed :
    (previous n next : NodeState)
    → allowed_node_transition previous.status n.status ≡ true
    → IsMove n next
    → allowed_node_transition previous.status next.status ≡ true
unfolding allowed_node_transition
IsMove-allowed previous n next e m = elim (m.goes) [
  | inl ends ↦
      open_ends previous.status next.status (open_back previous.status n.status e m.comes) ends
  | inr (pending, waiting) ↦
      pending_before previous.status next.status
        (subst (λ s. allowed_node_transition previous.status s ≡ true) pending e) (rw waiting refl)
]

pub node_successor-IsMove :
    (previous n next : NodeState)
    → node_successor previous (some n) ≡ true
    → IsMove n next
    → node_successor previous (some next) ≡ true
unfolding node_successor
node_successor-IsMove previous n next e m =
    let allowed : allowed_node_transition previous.status next.status ≡ true =
      IsMove-allowed previous n next (ground (arith, e)) m in
    let id = ap (λ x. text_eq x previous.id) m.same_id in
    let kind = ap (λ k. node_kind_eq k previous.kind) m.same_kind in
    elim (m.kept) [
      | inl (attempt, child, ready) ↦
          let same_child = ap (λ c. text_eq c previous.child_call_id) child in
          ground (arith, e, allowed, id, kind, attempt, same_child, ready)
      | inr (unused, first) ↦
          let empty = empty_same n.child_call_id previous.child_call_id in
          ground (arith, e, allowed, id, kind, unused, first, empty)
    ]
