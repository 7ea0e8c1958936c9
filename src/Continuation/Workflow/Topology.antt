-- ===== src/Continuation/Workflow/Topology.antt =====
-- programmable/continuation/workflow.go: what the loop of topologicalWorkflowNodes keeps.

use mathlib.Core.List.{append-nil, append_assoc}
use keelith.Prelude.{
  ℕ, suc, ◌+◌, ◌<◌, ◌==◌, true, false, ◌||◌, List, [], ◌∷◌, ◌++◌, get_elem?, if◌then◌else◌, some,
  ◌≡◌, refl, sym, ap, ◌∙◌, subst, inl, inr, arith, Bool-cases, All,
}
use keelith.Prelude.Text.{Text, text_eq, text_eq_iff}
use keelith.Prelude.Maps.{Map, insert, lookup-insert}
use keelith.Prelude.Int.{ℤ, pos, pred}
use keelith.Prelude.Sort.{sort}
use keelith.Prelude.Counts.{same, occurs, same_self, same_other, occurs-append, occurs-sort}
use keelith.Continuation.Workflow.Definition.{
  NodeSpec, contains, is_zero, degree_of, Visit, release_all,
}

abbrev pub ids : List NodeSpec → List Text
ids [] = []
ids (n ∷ ns) = n.id ∷ ids ns

pub ids-append : (ns ms : List NodeSpec) → ids (ns ++ ms) ≡ ids ns ++ ids ms
ids-append [] ms = refl
ids-append (n ∷ ns) ms = ap (λ xs. n.id ∷ xs) (ids-append ns ms)

-- How many dependencies are not among the done ones.
unfoldable pub undone : List Text → List Text → ℕ
undone done [] = 0
undone done (x ∷ xs) = (if contains x done then 0 else 1) + undone done xs

-- Behind the done nodes, every node stands after its dependencies.
unfoldable pub Ordered : List Text → List NodeSpec → Type 0
Ordered done [] = Unit {0}
Ordered done (n ∷ ns) = (undone done n.depends_on ≡ 0) × Ordered (done ++ (n.id ∷ [])) ns

pub Ordered-snoc :
    (done : List Text) (ns : List NodeSpec) (n : NodeSpec)
    → Ordered done ns
    → undone (done ++ ids ns) n.depends_on ≡ 0
    → Ordered done (ns ++ (n ∷ []))
unfolding Ordered
Ordered-snoc done [] n o u = (subst (λ xs. undone xs n.depends_on ≡ 0) (append-nil done) u, tt)
Ordered-snoc done (m ∷ ns) n o u = (
  o.0,
  Ordered-snoc (done ++ (m.id ∷ [])) ns n o.1
      (subst (λ xs. undone xs n.depends_on ≡ 0) (sym (append_assoc done (m.id ∷ []) (ids ns))) u),
)

pub contains-snoc :
    (x id : Text) (done : List Text)
    → contains x (done ++ (id ∷ [])) ≡ (contains x done || text_eq id x)
unfolding contains
contains-snoc x id [] = ground arith
contains-snoc x id (y ∷ done) = ground (arith, contains-snoc x id done)

pub contains-occurs : (x : Text) (xs : List Text) → occurs x xs ≡ 0 → contains x xs ≡ false
unfolding contains occurs same
contains-occurs x [] e = refl
contains-occurs x (y ∷ ys) e = ground (arith, contains-occurs x ys, e)

pub undone-snoc :
    (id : Text) (done xs : List Text)
    → contains id done ≡ false
    → undone done xs ≡ undone (done ++ (id ∷ [])) xs + occurs id xs
unfolding undone occurs same
undone-snoc id done [] e = refl
undone-snoc id done (x ∷ xs) e = ground (
  arith,
  contains-snoc x id done,
  undone-snoc id done xs e,
  text_eq_iff id x,
  text_eq_iff x id,
  e,
)

-- A node of a list, by its position.
abbrev pub NodeAt : List NodeSpec → NodeSpec → Type 0
NodeAt nodes n = (i : ℕ) × (get_elem? nodes i ≡ some n)

abbrev pub IsId : List NodeSpec → Text → Type 0
IsId nodes x = (n : NodeSpec) × NodeAt nodes n × (n.id ≡ x)

abbrev pub opened : ℕ → ℕ
opened k = if k == 0 then 1 else 0

released-occurs :
    (x d : Text) (g : ℤ) (ready : List Text)
    → occurs x (if is_zero g then sort (ready ++ (d ∷ [])) else ready)
      ≡ occurs x ready + (if is_zero g then same d x else 0)
unfolding occurs
released-occurs x d g ready = elim (Bool-cases (is_zero g)) [
  | inl e ↦ rw e (occurs-sort x (ready ++ (d ∷ [])) ∙ omega (arith, occurs-append x ready (d ∷ [])))
  | inr e ↦ rw e (omega arith)
]

pred-pos : (u o : ℕ) → pred (pos (u + (1 + o))) ≡ pos (u + o)
pred-pos u o = let e : u + (1 + o) ≡ suc (u + o) = omega arith in rw e refl

-- The variables after one dependent is released.
abbrev pub release_one : Text → Visit → Visit
release_one d v =
    let degree = pred (degree_of d v.indegree) in
    record v {
      indegree = insert d degree v.indegree;
      ready = if is_zero degree then sort (v.ready ++ (d ∷ [])) else v.ready;
    }

module _ (nodes : List NodeSpec) where
  -- What holds of the loop's variables when the dependents ds of the last node taken are still to
  -- be released: each node is in the result or ready once when it waits for nothing more, and not
  -- at all before; its degree is the number of the dependencies it waits for.
  pub record IsVisit (ds : List Text) (v : Visit) : Type 0 where
    pub once :
        (n : NodeSpec)
        → NodeAt nodes n
        → occurs n.id (ids v.result) + occurs n.id v.ready
          ≡ opened (undone (ids v.result) n.depends_on + occurs n.id ds)
    pub degree :
        (n : NodeSpec)
        → NodeAt nodes n
        → degree_of n.id v.indegree ≡ pos (undone (ids v.result) n.depends_on + occurs n.id ds)
    pub ready_known : (x : Text) → 0 < occurs x v.ready → IsId nodes x
    pub result_known : (x : Text) → 0 < occurs x (ids v.result) → IsId nodes x
    pub ordered : Ordered [] v.result
    pub taken : All (NodeAt nodes) v.result

  degree_after :
      (d : Text) (m : Map ℤ) (x : Text) (g : ℤ)
      → degree_of x (insert d g m) ≡ (if text_eq d x then g else degree_of x m)
  degree_after d m x g = ground (arith, lookup-insert d x g m)

  -- The degree of a dependent that is released.
  degree_down :
      (d : Text) (ds : List Text) (v : Visit) (n : NodeSpec)
      → NodeAt nodes n
      → IsVisit (d ∷ ds) v
      → text_eq d n.id ≡ true
      → pred (degree_of d v.indegree) ≡ pos (undone (ids v.result) n.depends_on + occurs n.id ds)
  unfolding occurs
  degree_down d ds v n at h e =
      let is_n = (text_eq_iff d n.id).0 e in
      let one : same d n.id ≡ 1 = rw is_n (same_self n.id) in
      let was : degree_of d v.indegree
          ≡ pos (undone (ids v.result) n.depends_on + (1 + occurs n.id ds)) =
        subst
          (λ x.
            degree_of x v.indegree
            ≡ pos (undone (ids v.result) n.depends_on + (1 + occurs n.id ds)))
          (sym is_n)
          (h.degree n at
            ∙ ap (λ k. pos (undone (ids v.result) n.depends_on + (k + occurs n.id ds))) one) in
      ap pred was ∙ pred-pos (undone (ids v.result) n.depends_on) (occurs n.id ds)

  release_one-once :
      (d : Text) (ds : List Text) (v : Visit) (n : NodeSpec)
      → NodeAt nodes n
      → IsVisit (d ∷ ds) v
      → occurs n.id (ids v.result) + occurs n.id (release_one d v).ready
        ≡ opened (undone (ids v.result) n.depends_on + occurs n.id ds)
  unfolding occurs
  release_one-once d ds v n at h = elim (Bool-cases (text_eq d n.id)) [
    | inl e ↦
        let is_n = (text_eq_iff d n.id).0 e in
        let one : same d n.id ≡ 1 = rw is_n (same_self n.id) in
        let down = degree_down d ds v n at h e in
        let zero_degree = ap is_zero down in
        ground (
          arith,
          h.once n at,
          one,
          zero_degree,
          released-occurs n.id d (pred (degree_of d v.indegree)) v.ready,
        )
    | inr e ↦ ground (
      arith,
      h.once n at,
      same_other d n.id e,
      released-occurs n.id d (pred (degree_of d v.indegree)) v.ready,
    )
  ]

  release_one-IsVisit :
      (d : Text) (ds : List Text) (v : Visit)
      → IsId nodes d
      → IsVisit (d ∷ ds) v
      → IsVisit ds (release_one d v)
  unfolding occurs
  release_one-IsVisit d ds v k h = record {
    once = λ n at. release_one-once d ds v n at h;
    degree = λ n at. elim (Bool-cases (text_eq d n.id)) [
      | inl e ↦
          degree_after d v.indegree n.id (pred (degree_of d v.indegree))
          ∙ rw e (degree_down d ds v n at h e)
      | inr e ↦
          degree_after d v.indegree n.id (pred (degree_of d v.indegree))
          ∙ rw e (ground (arith, h.degree n at, same_other d n.id e))
    ];
    ready_known = λ x l. elim (Bool-cases (text_eq d x)) [
      | inl e ↦ subst (IsId nodes) ((text_eq_iff d x).0 e) k
      | inr e ↦ h.ready_known x (
          ground (
            arith,
            l,
            same_other d x e,
            released-occurs x d (pred (degree_of d v.indegree)) v.ready,
          ))
    ];
    result_known = h.result_known;
    ordered = h.ordered;
    taken = h.taken;
  }

  pub release_all-IsVisit :
      (ds : List Text) (v : Visit)
      → ((x : Text) → 0 < occurs x ds → IsId nodes x)
      → IsVisit ds v
      → IsVisit [] (release_all ds v)
  unfolding release_all occurs
  release_all-IsVisit [] v k h = h
  release_all-IsVisit (d ∷ ds) v k h =
      release_all-IsVisit ds (release_one d v) (λ x l. k x (omega (arith, l)))
        (release_one-IsVisit d ds v (k d (omega (arith, same_self d))) h)
