-- ===== src/Continuation/Workflow/Runtime/Follows.antt =====
-- programmable/continuation/workflow.go: nodes that follow those of a state, so that
-- validateWorkflowSuccessor accepts them.
use mathlib.Core.Option.{some-injective}
use keelith.Prelude.{
  ℕ, not, Bool, true, false, ◌≡◌, refl, sym, ap, ◌∙◌, subst, inl, inr, ◌⊎◌, arith, Bool-cases, some,
  [], ◌∷◌, length, all, Option-cases,
}
use keelith.Prelude.Text.{Text, text_eq, text_eq_iff}
use keelith.Prelude.Maps.{Map, lookup, insert, lookup-insert}
use keelith.Continuation.Model.{NodeState}
use keelith.Continuation.Workflow.{invalid_node, node_successor}
use keelith.Continuation.Workflow.Plan.{skip_node, skip_non_terminal}
use keelith.Continuation.Workflow.Runtime.{wake_node, wake_timers}
use keelith.Continuation.Workflow.Runtime.Moves.{
  IsMove, is_fresh, IsMove-fresh, node_successor-IsMove,
}
use keelith.Continuation.Workflow.Runtime.Changes.{wake_node-IsMove, skip_node-IsMove}

pub record Follows (nodes m : Map NodeState) : Type 0 where
  pub same_length : length m ≡ length nodes
  pub successors : all (λ (e : Text × NodeState). node_successor e.1 (lookup e.0 m)) nodes ≡ true
  pub valid : all (λ (e : Text × NodeState). not (invalid_node e.0 e.1)) m ≡ true
  pub fresh : all (λ (e : Text × NodeState). is_fresh e.1) m ≡ true

module _ (p : Text × NodeState → Bool) where
  pub all-lookup :
      (k : Text) (v : NodeState) (m : Map NodeState)
      → all p m ≡ true
      → lookup k m ≡ some v
      → p (k, v) ≡ true
  unfolding lookup
  all-lookup k v [] a e = absurd (ground (arith, e))
  all-lookup k v ((j, x) ∷ m) a e = elim (Bool-cases (text_eq j k)) [
    | inl f ↦
        let same_node = some-injective x v (ground (arith, e, f)) in
        let here = subst (λ y. p (j, y) ≡ true) same_node (ground (arith, a)) in
        subst (λ z. p (z, v) ≡ true) ((text_eq_iff j k).0 f) here
    | inr f ↦ all-lookup k v m (ground (arith, a)) (ground (arith, e, f))
  ]

  all-insert :
      (k : Text) (v : NodeState) (m : Map NodeState)
      → all p m ≡ true
      → p (k, v) ≡ true
      → all p (insert k v m) ≡ true
  unfolding insert
  all-insert k v [] a e = ground (arith, e)
  all-insert k v ((j, x) ∷ m) a e = elim (Bool-cases (text_eq j k)) [
    | inl f ↦
        let here = subst (λ z. p (z, v) ≡ true) (sym ((text_eq_iff j k).0 f)) e in
        rw f (ground (arith, here, a))
    | inr f ↦ ground (arith, f, a, all-insert k v m, e)
  ]

insert-length :
    (k : Text) (v x : NodeState) (m : Map NodeState)
    → lookup k m ≡ some v
    → length (insert k x m) ≡ length m
unfolding lookup insert
insert-length k v x [] e = absurd (ground (arith, e))
insert-length k v x ((j, y) ∷ m) e = ground (arith, e, insert-length k v x m)

successors-insert :
    (id : Text) (n next : NodeState) (m nodes : Map NodeState)
    → lookup id m ≡ some n
    → IsMove n next
    → all (λ (e : Text × NodeState). node_successor e.1 (lookup e.0 m)) nodes ≡ true
    → all (λ (e : Text × NodeState). node_successor e.1 (lookup e.0 (insert id next m))) nodes
      ≡ true
successors-insert id n next m [] f move a = refl
successors-insert id n next m ((k, previous) ∷ nodes) f move a =
    let rest = successors-insert id n next m nodes f move (ground (arith, a)) in
    elim (Bool-cases (text_eq id k)) [
      | inl e ↦
          let found = subst (λ j. lookup j m ≡ some n) ((text_eq_iff id k).0 e) f in
          let before : node_successor previous (lookup k m) ≡ true = ground (arith, a) in
          let after =
            node_successor-IsMove previous n next
              (subst (λ o. node_successor previous o ≡ true) found before) move in
          rw (lookup-insert id k next m, e) (ground (arith, after, rest))
      | inr e ↦ rw (lookup-insert id k next m, e) (ground (arith, a, rest))
    ]

-- A move of a node keeps the nodes behind those of the state.
pub insert-Follows :
    (nodes m : Map NodeState) (id : Text) (n next : NodeState)
    → Follows nodes m
    → lookup id m ≡ some n
    → IsMove n next
    → Follows nodes (insert id next m)
insert-Follows nodes m id n next h f move =
    let before =
      all-lookup (λ (e : Text × NodeState). not (invalid_node e.0 e.1)) id n m h.valid f in
    let after = move.stays_valid id (ground (arith, before)) in
    record {
      same_length = insert-length id n next m f ∙ h.same_length;
      successors = successors-insert id n next m nodes f move h.successors;
      valid =
          all-insert (λ (e : Text × NodeState). not (invalid_node e.0 e.1)) id next m h.valid
            (rw after refl);
      fresh =
          all-insert (λ (e : Text × NodeState). is_fresh e.1) id next m h.fresh
            (IsMove-fresh n next move);
    }

-- A change of every node.
each : (NodeState → NodeState) → Map NodeState → Map NodeState
each f [] = []
each f ((id, n) ∷ m) = (id, f n) ∷ each f m

module _ (change : NodeState → NodeState)
    (moves : (n : NodeState) (id : Text)
      → invalid_node id n ≡ false
      → (change n ≡ n) ⊎ IsMove n (change n)) where
  each-length : (m : Map NodeState) → length (each change m) ≡ length m
  unfolding each
  each-length [] = refl
  each-length (e ∷ m) = omega (arith, each-length m)

  lookup-each :
      (k : Text) (m : Map NodeState) (n : NodeState)
      → lookup k m ≡ some n
      → lookup k (each change m) ≡ some (change n)
  unfolding lookup each
  lookup-each k [] n e = absurd (ground (arith, e))
  lookup-each k ((j, x) ∷ m) n e = elim (Bool-cases (text_eq j k)) [
    | inl f ↦
        let same_node = some-injective x n (ground (arith, e, f)) in
        rw f (ap (λ y. some (change y)) same_node)
    | inr f ↦ rw f (lookup-each k m n (ground (arith, e, f)))
  ]

  each-valid :
      (m : Map NodeState)
      → all (λ (e : Text × NodeState). not (invalid_node e.0 e.1)) m ≡ true
      → all (λ (e : Text × NodeState). not (invalid_node e.0 e.1)) (each change m) ≡ true
  unfolding each
  each-valid [] h = refl
  each-valid ((id, n) ∷ m) h =
      let valid : invalid_node id n ≡ false = ground (arith, h) in
      let rest = each-valid m (ground (arith, h)) in
      elim (moves n id valid) [
        | inl e ↦ rw (e, valid) rest
        | inr e ↦ rw (e.stays_valid id valid) rest
      ]

  each-fresh :
      (m : Map NodeState)
      → all (λ (e : Text × NodeState). not (invalid_node e.0 e.1)) m ≡ true
      → all (λ (e : Text × NodeState). is_fresh e.1) m ≡ true
      → all (λ (e : Text × NodeState). is_fresh e.1) (each change m) ≡ true
  unfolding each
  each-fresh [] h f = refl
  each-fresh ((id, n) ∷ m) h f =
      let rest = each-fresh m (ground (arith, h)) (ground (arith, f)) in
      elim (moves n id (ground (arith, h))) [
        | inl e ↦ rw e (ground (arith, f, rest))
        | inr e ↦ ground (arith, IsMove-fresh n (change n) e, rest)
      ]

  each-successors :
      (nodes m : Map NodeState)
      → all (λ (e : Text × NodeState). not (invalid_node e.0 e.1)) m ≡ true
      → all (λ (e : Text × NodeState). node_successor e.1 (lookup e.0 m)) nodes ≡ true
      → all (λ (e : Text × NodeState). node_successor e.1 (lookup e.0 (each change m))) nodes ≡ true
  unfolding node_successor
  each-successors [] m h a = refl
  each-successors ((k, previous) ∷ nodes) m h a =
      let rest = each-successors nodes m h (ground (arith, a)) in
      let here : node_successor previous (lookup k m) ≡ true = ground (arith, a) in
      elim (Option-cases (lookup k m)) [
        | inl e ↦ absurd (ground (arith, here, e))
        | inr (n, e) ↦
            let valid =
              all-lookup (λ (x : Text × NodeState). not (invalid_node x.0 x.1)) k n m h e in
            let before = subst (λ o. node_successor previous o ≡ true) e here in
            elim (moves n k (ground (arith, valid))) [
              | inl f ↦ rw (lookup-each k m n e, f) (ground (arith, before, rest))
              | inr f ↦
                  rw (lookup-each k m n e)
                    (ground (arith, node_successor-IsMove previous n (change n) before f, rest))
            ]
      ]

  each-Follows : (nodes m : Map NodeState) → Follows nodes m → Follows nodes (each change m)
  each-Follows nodes m h = record {
    same_length = each-length m ∙ h.same_length;
    successors = each-successors nodes m h.valid h.successors;
    valid = each-valid m h.valid;
    fresh = each-fresh m h.valid h.fresh;
  }

wake_timers-each : (wake : ℕ) (m : Map NodeState) → wake_timers wake m ≡ each (wake_node wake) m
unfolding wake_timers each
wake_timers-each wake [] = refl
wake_timers-each wake ((id, n) ∷ m) = ap (◌∷◌ (id, wake_node wake n)) (wake_timers-each wake m)

skip_non_terminal-each : (m : Map NodeState) → skip_non_terminal m ≡ each skip_node m
unfolding skip_non_terminal each
skip_non_terminal-each [] = refl
skip_non_terminal-each ((id, n) ∷ m) = ap (◌∷◌ (id, skip_node n)) (skip_non_terminal-each m)

pub wake_timers-Follows :
    (wake : ℕ) (nodes m : Map NodeState) → Follows nodes m → Follows nodes (wake_timers wake m)
wake_timers-Follows wake nodes m h =
    subst (Follows nodes) (sym (wake_timers-each wake m))
      (each-Follows (wake_node wake) (wake_node-IsMove wake) nodes m h)

pub skip_non_terminal-Follows :
    (nodes m : Map NodeState) → Follows nodes m → Follows nodes (skip_non_terminal m)
skip_non_terminal-Follows nodes m h =
    subst (Follows nodes) (sym (skip_non_terminal-each m))
      (each-Follows skip_node skip_node-IsMove nodes m h)
