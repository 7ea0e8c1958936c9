-- ===== src/Continuation/Workflow/Edges.antt =====
-- programmable/continuation/workflow.go: the maps that NewWorkflowDefinition and
-- topologicalWorkflowNodes build.
use mathlib.Core.Option.{some-injective}
use keelith.Prelude.{
  ℕ, zero, suc, ◌+◌, ◌≤◌, ◌<◌, ltb, List, [], ◌∷◌, ◌++◌, length, get_elem?, if◌then◌else◌, none,
  some, ◌≡◌, refl, sym, ap, ◌∙◌, subst, inl, inr, arith, Bool-cases, Option-cases,
}
use keelith.Prelude.Text.{Text, text_eq, text_eq_iff, text_eq_refl}
use keelith.Prelude.Maps.{Map, lookup, insert, lookup-insert, lookup-insert_self}
use keelith.Prelude.Counts.{same, occurs, same_self, same_other, occurs-append}
use keelith.Continuation.Workflow.Definition.{
  NodeSpec, check_nodes, add_dependent, add_dependents, dependents_in,
}
use keelith.Continuation.Workflow.Topology.{ids, IsId}
use keelith.Prelude.{is_some}
use keelith.Prelude.Results.{ok}
use keelith.Continuation.Workflow.Turns.{IsGraph, occurs-get}

pub occurs-IsId : (nodes : List NodeSpec) (x : Text) → 0 < occurs x (ids nodes) → IsId nodes x
unfolding occurs
occurs-IsId [] x l = absurd (omega arith)
occurs-IsId (m ∷ nodes) x l = elim (Bool-cases (text_eq m.id x)) [
  | inl e ↦ (m, (0, refl), (text_eq_iff m.id x).0 e)
  | inr e ↦
      let (n, (i, at), is_x) = occurs-IsId nodes x (omega (arith, l, same_other m.id x e)) in
      (n, (suc i, at), is_x)
]

-- What the first loop of NewWorkflowDefinition has found out.
present : Text → Map ℕ → ℕ
present x m = if is_some (lookup x m) then 1 else 0

pub check_nodes-tail :
    (index edges : ℕ) (by_id m : Map ℕ) (n : NodeSpec) (ns : List NodeSpec)
    → check_nodes index by_id edges (n ∷ ns) ≡ ok m
    → (lookup n.id by_id ≡ none)
      × (check_nodes (suc index) (insert n.id index by_id) (edges + length n.depends_on) ns ≡ ok m)
unfolding check_nodes
check_nodes-tail index edges by_id m n ns e = elim (Option-cases (lookup n.id by_id)) [
  | inl new ↦ (new, ground (arith, e, new))
  | inr (j, old) ↦ absurd (ground (arith, e, old))
]

check_nodes-distinct :
    (index edges : ℕ) (by_id m : Map ℕ) (ns : List NodeSpec)
    → check_nodes index by_id edges ns ≡ ok m
    → (x : Text) → occurs x (ids ns) + present x by_id ≤ 1
unfolding occurs present
check_nodes-distinct index edges by_id m [] e x = ground arith
check_nodes-distinct index edges by_id m (n ∷ ns) e x =
    let (new, rest) = check_nodes-tail index edges by_id m n ns e in
    let tail =
      check_nodes-distinct (suc index) (edges + length n.depends_on) (insert n.id index by_id) m ns
        rest x in
    elim (Bool-cases (text_eq n.id x)) [
      | inl d ↦
          let is_x = (text_eq_iff n.id x).0 d in
          let absent : lookup x by_id ≡ none = subst (λ y. lookup y by_id ≡ none) is_x new in
          ground (
            arith,
            tail,
            lookup-insert n.id x index by_id,
            d,
            absent,
            ap (same n.id) (sym is_x),
            same_self n.id,
          )
      | inr d ↦ ground (arith, tail, lookup-insert n.id x index by_id, d, same_other n.id x d)
    ]

check_nodes-keeps :
    (index edges : ℕ) (by_id m : Map ℕ) (ns : List NodeSpec)
    → check_nodes index by_id edges ns ≡ ok m
    → (x : Text) (j : ℕ) → lookup x by_id ≡ some j
    → lookup x m ≡ some j
unfolding check_nodes
check_nodes-keeps index edges by_id m [] e x j f = ground (arith, e, f)
check_nodes-keeps index edges by_id m (n ∷ ns) e x j f =
    let (new, rest) = check_nodes-tail index edges by_id m n ns e in
    check_nodes-keeps (suc index) (edges + length n.depends_on) (insert n.id index by_id) m ns rest
      x j (ground (arith, lookup-insert n.id x index by_id, text_eq_iff n.id x, new, f))

check_nodes-indexed :
    (index edges : ℕ) (by_id m : Map ℕ) (ns : List NodeSpec)
    → check_nodes index by_id edges ns ≡ ok m
    → (i : ℕ) (n : NodeSpec) → get_elem? ns i ≡ some n
    → lookup n.id m ≡ some (index + i)
check_nodes-indexed index edges by_id m [] e i n at = absurd (ground (arith, at))
check_nodes-indexed index edges by_id m (k ∷ ns) e zero n at =
    let (new, rest) = check_nodes-tail index edges by_id m k ns e in
    let is_n = some-injective k n at in
    subst (λ (q : NodeSpec). lookup q.id m ≡ some (index + 0)) is_n
      (check_nodes-keeps (suc index) (edges + length k.depends_on) (insert k.id index by_id) m ns
          rest k.id index (lookup-insert_self k.id index by_id)
        ∙ ap some (omega arith))
check_nodes-indexed index edges by_id m (k ∷ ns) e (suc i) n at =
    let (new, rest) = check_nodes-tail index edges by_id m k ns e in
    check_nodes-indexed (suc index) (edges + length k.depends_on) (insert k.id index by_id) m ns
      rest i n at
    ∙ ap some (omega arith)

-- How often x is a dependent of id because of some nodes.
unfoldable pub needs : Text → Text → List NodeSpec → ℕ
needs x id [] = 0
needs x id (n ∷ ns) = (if text_eq n.id x then occurs id n.depends_on else 0) + needs x id ns

push-occurs :
    (x id nid d : Text) (m : Map (List Text))
    → occurs x (dependents_in (lookup id (insert d (dependents_in (lookup d m) ++ (nid ∷ [])) m)))
      ≡ occurs x (dependents_in (lookup id m)) + (if text_eq d id then same nid x else 0)
unfolding occurs
push-occurs x id nid d m =
    let more = dependents_in (lookup d m) ++ (nid ∷ []) in
    elim (Bool-cases (text_eq d id)) [
      | inl e ↦
          let is_id = (text_eq_iff d id).0 e in
          let before = ap (λ y. occurs x (dependents_in (lookup y m))) is_id in
          let added = occurs-append x (dependents_in (lookup d m)) (nid ∷ []) in
          rw (lookup-insert d id more m, e) (omega (arith, before, added))
      | inr e ↦ rw (lookup-insert d id more m, e) (omega arith)
    ]

add_dependent-occurs :
    (x id nid : Text) (ds : List Text) (m : Map (List Text))
    → occurs x (dependents_in (lookup id (add_dependent nid ds m)))
      ≡ occurs x (dependents_in (lookup id m)) + (if text_eq nid x then occurs id ds else 0)
unfolding add_dependent occurs same
add_dependent-occurs x id nid [] m = ground arith
add_dependent-occurs x id nid (d ∷ ds) m =
    let more = dependents_in (lookup d m) ++ (nid ∷ []) in
    ground (arith, add_dependent-occurs x id nid ds (insert d more m), push-occurs x id nid d m)

add_dependents-occurs :
    (x id : Text) (ns : List NodeSpec) (m : Map (List Text))
    → occurs x (dependents_in (lookup id (add_dependents ns m)))
      ≡ occurs x (dependents_in (lookup id m)) + needs x id ns
unfolding add_dependents needs
add_dependents-occurs x id [] m = omega arith
add_dependents-occurs x id (n ∷ ns) m = omega (
  arith,
  add_dependents-occurs x id ns (add_dependent n.id n.depends_on m),
  add_dependent-occurs x id n.id n.depends_on m,
)

needs-none : (x id : Text) (ns : List NodeSpec) → occurs x (ids ns) ≡ 0 → needs x id ns ≡ 0
unfolding needs occurs same
needs-none x id [] e = refl
needs-none x id (n ∷ ns) e = ground (arith, needs-none x id ns, e)

pub occurs-get-none :
    (k n : NodeSpec) (ns : List NodeSpec)
    → some k ≡ some n
    → occurs n.id (ids (k ∷ ns)) ≤ 1
    → occurs n.id (ids ns) ≡ 0
unfolding occurs
occurs-get-none k n ns e l =
    let one : same k.id n.id ≡ 1 = rw (some-injective k n e) (same_self n.id) in
    omega (arith, l, one)

needs-get :
    (id : Text) (ns : List NodeSpec) (i : ℕ) (n : NodeSpec)
    → get_elem? ns i ≡ some n
    → occurs n.id (ids ns) ≤ 1
    → needs n.id id ns ≡ occurs id n.depends_on
unfolding needs occurs same
needs-get id [] i n at l = absurd (ground (arith, at))
needs-get id (k ∷ ns) zero n at l =
    let rest = occurs-get-none k n ns at l in
    subst
      (λ (q : NodeSpec).
        (if text_eq q.id n.id then occurs id q.depends_on else 0) + needs n.id id ns
        ≡ occurs id n.depends_on)
      (sym (some-injective k n at))
      (rw (text_eq_refl n.id) (omega (arith, needs-none n.id id ns rest)))
needs-get id (k ∷ ns) (suc i) n at l =
    ground (arith, needs-get id ns i n at, occurs-get ns i n at, l)

needs-IsId : (x id : Text) (ns : List NodeSpec) → 0 < needs x id ns → IsId ns x
unfolding needs
needs-IsId x id ns l = occurs-IsId ns x (elim (Bool-cases (ltb 0 (occurs x (ids ns)))) [
  | inl m ↦ ground (arith, m)
  | inr m ↦ absurd (omega (arith, l, needs-none x id ns (ground (arith, m))))
])

-- The checked nodes with the maps of the code.
pub check_nodes-IsGraph :
    (nodes : List NodeSpec) (by_id : Map ℕ)
    → check_nodes 0 [] 0 nodes ≡ ok by_id
    → IsGraph nodes by_id (add_dependents nodes [])
unfolding lookup occurs
check_nodes-IsGraph nodes by_id e =
    let distinct : (x : Text) → occurs x (ids nodes) ≤ 1 =
      λ x. omega (arith, check_nodes-distinct 0 0 [] by_id nodes e x) in
    let listed : (x id : Text)
        → occurs x (dependents_in (lookup id (add_dependents nodes []))) ≡ needs x id nodes =
      λ x id. add_dependents-occurs x id nodes [] ∙ omega arith in
    record {
      distinct = distinct;
      indexed = λ i n at. check_nodes-indexed 0 0 [] by_id nodes e i n at ∙ ap some (omega arith);
      listed = λ n (i, at) id. listed n.id id ∙ needs-get id nodes i n at (distinct n.id);
      listed_known = λ id x l. needs-IsId x id nodes (omega (arith, listed x id, l));
    }
