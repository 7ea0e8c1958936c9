-- ===== src/Continuation/Workflow/Start.antt =====
-- programmable/continuation/workflow.go: the variables of topologicalWorkflowNodes before its loop.
use mathlib.Core.Option.{some-injective}
use mathlib.Core.List.{append-nil, append_assoc}
use keelith.Prelude.{
  ℕ, zero, suc, ◌+◌, ◌≤◌, ltb, List, [], ◌∷◌, ◌++◌, length, get_elem?, if◌then◌else◌, none, some,
  ◌≡◌, refl, sym, ap, ◌∙◌, subst, inl, inr, arith, Bool-cases, Option-cases,
}
use keelith.Prelude.Text.{Text, text_eq, text_eq_iff, text_eq_refl}
use keelith.Prelude.Maps.{Map, lookup, insert, lookup-insert}
use keelith.Prelude.Int.{ℤ, pos}
use keelith.Prelude.Counts.{same, occurs, same_self, occurs-sort}
use keelith.Continuation.Workflow.Definition.{
  NodeSpec, contains, degree_in, degree_of, indegrees, roots, first_visit,
}
use keelith.Continuation.Workflow.Topology.{ids, undone, Ordered, opened, IsVisit}
use keelith.Prelude.{is_some}
use keelith.Continuation.Workflow.Turns.{occurs-get}
use keelith.Continuation.Workflow.Edges.{occurs-IsId, occurs-get-none}

-- indegree as a list, when no identity stands twice.
unfoldable entries : List NodeSpec → Map ℤ
entries [] = []
entries (n ∷ ns) = (n.id, pos (length n.depends_on)) ∷ entries ns

insert-new : (k : Text) (g : ℤ) (m : Map ℤ) → lookup k m ≡ none → insert k g m ≡ m ++ ((k, g) ∷ [])
unfolding lookup insert
insert-new k g [] e = refl
insert-new k g ((j, h) ∷ m) e = elim (Bool-cases (text_eq j k)) [
  | inl d ↦ absurd (ground (arith, e, d))
  | inr d ↦ rw (insert, d) (ap (λ r. (j, h) ∷ r) (insert-new k g m (ground (arith, e, d))))
]

fresh_tail :
    (k : Text) (g : ℤ) (m : Map ℤ) (x : Text) (rest : ℕ)
    → lookup k m ≡ none
    → same k x + rest + (if is_some (lookup x m) then 1 else 0) ≤ 1
    → rest + (if is_some (lookup x (insert k g m)) then 1 else 0) ≤ 1
fresh_tail k g m x rest e l = elim (Bool-cases (text_eq k x)) [
  | inl d ↦
      let is_x = (text_eq_iff k x).0 d in
      let one : same k x ≡ 1 = rw is_x (same_self x) in
      rw (lookup-insert k x g m, d) (omega (arith, l, one))
  | inr d ↦ rw (lookup-insert k x g m, d) (omega (arith, l))
]

indegrees-entries :
    (ns : List NodeSpec) (m : Map ℤ)
    → ((x : Text) → occurs x (ids ns) + (if is_some (lookup x m) then 1 else 0) ≤ 1)
    → indegrees ns m ≡ m ++ entries ns
unfolding indegrees entries occurs
indegrees-entries [] m h = sym (append-nil m)
indegrees-entries (n ∷ ns) m h =
    let g = pos (length n.depends_on) in
    let new : lookup n.id m ≡ none = elim (Option-cases (lookup n.id m)) [
      | inl e ↦ e
      | inr (j, e) ↦ absurd (ground (arith, h n.id, same_self n.id, e))
    ] in
    let rest =
      indegrees-entries ns (insert n.id g m)
        (λ x. fresh_tail n.id g m x (occurs x (ids ns)) new (h x)) in
    rest
    ∙ ap (λ r. r ++ entries ns) (insert-new n.id g m new)
    ∙ append_assoc m ((n.id, g) ∷ []) (entries ns)

roots-entries-none :
    (x : Text) (ns : List NodeSpec) → occurs x (ids ns) ≡ 0 → occurs x (roots (entries ns)) ≡ 0
unfolding roots entries occurs
roots-entries-none x [] e = refl
roots-entries-none x (n ∷ ns) e = ground (arith, roots-entries-none x ns, e)

roots-entries :
    (ns : List NodeSpec) (i : ℕ) (n : NodeSpec)
    → get_elem? ns i ≡ some n
    → occurs n.id (ids ns) ≤ 1
    → occurs n.id (roots (entries ns)) ≡ opened (length n.depends_on)
unfolding roots entries occurs
roots-entries [] i n at l = absurd (ground (arith, at))
roots-entries (k ∷ ns) zero n at l =
    let rest = roots-entries-none n.id ns (occurs-get-none k n ns at l) in
    let is_n = some-injective k n at in
    ground (
      arith,
      rest,
      is_n,
      ap (λ (q : NodeSpec). same q.id n.id) is_n,
      same_self n.id,
      ap (λ (q : NodeSpec). length q.depends_on) is_n,
    )
roots-entries (k ∷ ns) (suc i) n at l =
    ground (arith, roots-entries ns i n at, occurs-get ns i n at, l)

lookup-entries :
    (ns : List NodeSpec) (i : ℕ) (n : NodeSpec)
    → get_elem? ns i ≡ some n
    → occurs n.id (ids ns) ≤ 1
    → lookup n.id (entries ns) ≡ some (pos (length n.depends_on))
unfolding lookup entries occurs same
lookup-entries [] i n at l = absurd (ground (arith, at))
lookup-entries (k ∷ ns) zero n at l =
    let is_n = some-injective k n at in
    subst
      (λ (q : NodeSpec).
        (if text_eq q.id n.id then some (pos (length q.depends_on)) else lookup n.id (entries ns))
        ≡ some (pos (length n.depends_on)))
      (sym is_n) (rw (text_eq_refl n.id) refl)
lookup-entries (k ∷ ns) (suc i) n at l =
    ground (arith, lookup-entries ns i n at, occurs-get ns i n at, l)

undone-all : (xs : List Text) → undone [] xs ≡ length xs
unfolding undone contains
undone-all [] = refl
undone-all (x ∷ xs) = omega (arith, undone-all xs)

pub first_visit-IsVisit :
    (nodes : List NodeSpec)
    → ((x : Text) → occurs x (ids nodes) ≤ 1)
    → IsVisit nodes [] (first_visit nodes)
unfolding occurs Ordered lookup
first_visit-IsVisit nodes distinct =
    let built : indegrees nodes [] ≡ entries nodes =
      indegrees-entries nodes [] (λ x. omega (arith, distinct x)) in
    record {
      once = λ n (i, at).
          let all_undone = undone-all n.depends_on in
          let sorted = occurs-sort n.id (roots (indegrees nodes [])) in
          let shown = ap (λ m. occurs n.id (roots m)) built in
          let here = roots-entries nodes i n at (distinct n.id) in
          omega arith ∙ sorted ∙ shown ∙ here ∙ ap opened (omega arith);
      degree = λ n (i, at).
          let all_undone = undone-all n.depends_on in
          ap (λ m. degree_of n.id m) built
          ∙ ap degree_in (lookup-entries nodes i n at (distinct n.id))
          ∙ ap (λ k. pos k) (omega arith);
      ready_known = λ x l.
          let sorted = occurs-sort x (roots (indegrees nodes [])) in
          let shown = ap (λ m. occurs x (roots m)) built in
          occurs-IsId nodes x (elim (Bool-cases (ltb 0 (occurs x (ids nodes)))) [
            | inl m ↦ ground (arith, m)
            | inr m ↦
                absurd
                  (omega (arith, l, sorted, shown, roots-entries-none x nodes (ground (arith, m))))
          ]);
      result_known = λ x l. absurd (omega (arith, l));
      ordered = tt;
      taken = tt;
    }
