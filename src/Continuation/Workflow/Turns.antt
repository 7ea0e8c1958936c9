-- ===== src/Continuation/Workflow/Turns.antt =====
-- programmable/continuation/workflow.go: the turns of the loop of topologicalWorkflowNodes.
use mathlib.Core.Option.{some-injective}
use keelith.Prelude.{
  ℕ, zero, suc, ◌+◌, ◌≤◌, ◌<◌, ltb, List, [], ◌∷◌, ◌++◌, length, get_elem?, some, ◌≡◌, refl, ap,
  ◌∙◌, subst, inl, inr, ◌⊎◌, arith, Bool-cases, All, length-append, List-cases,
}
use keelith.Prelude.Text.{Text, text_eq, text_eq_iff}
use keelith.Prelude.Maps.{Map, lookup}
use keelith.Prelude.Int.{pos}
use keelith.Prelude.Counts.{
  same, occurs, same_self, same_other, occurs-append, Within, Within-length,
}
use keelith.Continuation.Workflow.Definition.{
  NodeSpec, index_in, Visit, release_all, take_ready, visit, dependents_in,
}
use keelith.Continuation.Workflow.Topology.{
  ids, ids-append, undone, Ordered-snoc, contains-occurs, undone-snoc, NodeAt, IsId, opened,
  IsVisit, release_one, release_all-IsVisit,
}

-- What the loop needs of its maps.
pub record IsGraph (nodes : List NodeSpec) (by_id : Map ℕ) (dependents : Map (List Text))
    : Type 0 where
  pub distinct : (x : Text) → occurs x (ids nodes) ≤ 1
  pub indexed : (i : ℕ) (n : NodeSpec) → get_elem? nodes i ≡ some n → lookup n.id by_id ≡ some i
  pub listed :
      (n : NodeSpec)
      → NodeAt nodes n
      → (id : Text) → occurs n.id (dependents_in (lookup id dependents)) ≡ occurs id n.depends_on
  pub listed_known :
      (id x : Text) → 0 < occurs x (dependents_in (lookup id dependents)) → IsId nodes x

pub length-ids : (ns : List NodeSpec) → length (ids ns) ≡ length ns
length-ids [] = refl
length-ids (n ∷ ns) = ap suc (length-ids ns)

pub occurs-get :
    (nodes : List NodeSpec) (i : ℕ) (n : NodeSpec)
    → get_elem? nodes i ≡ some n
    → 0 < occurs n.id (ids nodes)
unfolding occurs
occurs-get [] i n e = absurd (ground (arith, e))
occurs-get (m ∷ nodes) zero n e =
    let is_n = some-injective m n e in
    let one : same m.id n.id ≡ 1 = rw is_n (same_self n.id) in omega (arith, one)
occurs-get (m ∷ nodes) (suc i) n e = omega (arith, occurs-get nodes i n e)

module _ (nodes : List NodeSpec) (by_id : Map ℕ) (dependents : Map (List Text)) where
  All-snoc :
      (ns : List NodeSpec) (n : NodeSpec)
      → All (NodeAt nodes) ns
      → NodeAt nodes n
      → All (NodeAt nodes) (ns ++ (n ∷ []))
  All-snoc [] n h k = (k, tt)
  All-snoc (m ∷ ns) n h k = (h.0, All-snoc ns n h.1 k)

  known-bounded :
      (v : Visit) (x : Text)
      → IsVisit nodes [] v
      → IsId nodes x
      → occurs x (ids v.result) + occurs x v.ready ≤ occurs x (ids nodes)
  known-bounded v x h (n, (i, at), e) =
      subst (λ y. occurs y (ids v.result) + occurs y v.ready ≤ occurs y (ids nodes)) e
        (ground (arith, h.once n (i, at), occurs-get nodes i n at))

  -- The visited nodes are nodes, and each is visited once.
  pub IsVisit-Within :
      (v : Visit) → IsVisit nodes [] v → Within (ids v.result ++ v.ready) (ids nodes)
  unfolding occurs
  IsVisit-Within v h x =
      let both = occurs-append x (ids v.result) v.ready in
      elim (Bool-cases (ltb 0 (occurs x (ids v.result)))) [
        | inl l ↦ omega (arith, both, known-bounded v x h (h.result_known x (ground (arith, l))))
        | inr l ↦ elim (Bool-cases (ltb 0 (occurs x v.ready))) [
          | inl m ↦ omega (arith, both, known-bounded v x h (h.ready_known x (ground (arith, m))))
          | inr m ↦ ground (arith, both, l, m)
        ]
      ]

  -- The node that leaves the front of ready.
  front :
      (v : Visit) (id : Text) (rest : List Text)
      → v.ready ≡ id ∷ rest
      → IsGraph nodes by_id dependents
      → IsVisit nodes [] v
      → (n : NodeSpec) × NodeAt nodes n
        × (n.id ≡ id)
        × (get_elem? nodes (index_in (lookup id by_id)) ≡ some n)
        × (undone (ids v.result) n.depends_on ≡ 0)
        × (occurs id (ids v.result) ≡ 0)
  unfolding occurs
  front v id rest e g h =
      let shown : occurs id v.ready ≡ same id id + occurs id rest = ap (occurs id) e in
      let (n, (i, at), is_id) = h.ready_known id (omega (arith, shown, same_self id)) in
      let found : lookup id by_id ≡ some i =
        subst (λ x. lookup x by_id ≡ some i) is_id (g.indexed i n at) in
      let counts : occurs id (ids v.result) + occurs id v.ready
          ≡ opened (undone (ids v.result) n.depends_on + 0) =
        subst
          (λ x.
            occurs x (ids v.result) + occurs x v.ready
            ≡ opened (undone (ids v.result) n.depends_on + 0))
          is_id (h.once n (i, at)) in
      (
        n,
        (i, at),
        is_id,
        rw found at,
        ground (arith, counts, shown, same_self id),
        ground (arith, counts, shown, same_self id),
      )

  -- The variables when the front node has moved to the result.
  moved-IsVisit :
      (v : Visit) (id : Text) (rest : List Text) (n : NodeSpec)
      → v.ready ≡ id ∷ rest
      → n.id ≡ id
      → NodeAt nodes n
      → undone (ids v.result) n.depends_on ≡ 0
      → occurs id (ids v.result) ≡ 0
      → IsGraph nodes by_id dependents
      → IsVisit nodes [] v
      → IsVisit nodes
          (dependents_in (lookup id dependents))
          (record v { ready = rest; result = v.result ++ (n ∷ []) })
  unfolding occurs
  moved-IsVisit v id rest n e is_id at free new g h =
      let done = ids v.result in
      let longer : ids (v.result ++ (n ∷ [])) ≡ done ++ (id ∷ []) =
        ids-append v.result (n ∷ []) ∙ ap (λ x. done ++ (x ∷ [])) is_id in
      let fewer : (m : NodeSpec)
          → NodeAt nodes m
          → undone done m.depends_on + 0
            ≡ undone (done ++ (id ∷ [])) m.depends_on
              + occurs m.id (dependents_in (lookup id dependents)) =
        λ m there. omega (
          arith,
          undone-snoc id done m.depends_on (contains-occurs id done new),
          g.listed m there id,
        ) in
      let shown : (x : Text) → occurs x v.ready ≡ same id x + occurs x rest =
        λ x. ap (occurs x) e in
      record {
        once = λ m there. rw longer (
            omega (arith, occurs-append m.id done (id ∷ []), shown m.id)
            ∙ h.once m there
            ∙ ap opened (fewer m there));
        degree = λ m there. rw longer (h.degree m there ∙ ap (λ k. pos k) (fewer m there));
        ready_known = λ x l. h.ready_known x (omega (arith, shown x, l));
        result_known = λ x l. elim (Bool-cases (text_eq id x)) [
          | inl d ↦ (n, at, is_id ∙ (text_eq_iff id x).0 d)
          | inr d ↦ h.result_known x (
              omega
                (arith, l, ap (occurs x) longer, occurs-append x done (id ∷ []), same_other id x d))
        ];
        ordered = Ordered-snoc [] v.result n h.ordered free;
        taken = All-snoc v.result n h.taken at;
      }

  release_all-result : (ds : List Text) (v : Visit) → (release_all ds v).result ≡ v.result
  unfolding release_all
  release_all-result [] v = refl
  release_all-result (d ∷ ds) v = release_all-result ds (release_one d v)

  take_ready-IsVisit :
      (v : Visit) (id : Text) (rest : List Text)
      → v.ready ≡ id ∷ rest
      → IsGraph nodes by_id dependents
      → IsVisit nodes [] v
      → IsVisit nodes [] (take_ready nodes by_id dependents id rest v)
        × (length (take_ready nodes by_id dependents id rest v).result ≡ suc (length v.result))
  unfolding take_ready occurs
  take_ready-IsVisit v id rest e g h =
      let (n, at, is_id, got, free, new) = front v id rest e g h in
      let ds = dependents_in (lookup id dependents) in
      let moved = record v { ready = rest; result = v.result ++ (n ∷ []) } in
      let more = length-append v.result (n ∷ []) in
      rw got (
        release_all-IsVisit nodes ds moved (g.listed_known id)
            (moved-IsVisit v id rest n e is_id at free new g h),
        ap length (release_all-result ds moved) ∙ omega (arith, more),
      )

  visit-IsVisit :
      (fuel : ℕ) (v : Visit)
      → IsGraph nodes by_id dependents
      → IsVisit nodes [] v
      → IsVisit nodes [] (visit fuel nodes by_id dependents v)
        × (((visit fuel nodes by_id dependents v).ready ≡ [])
            ⊎ (length (visit fuel nodes by_id dependents v).result ≡ length v.result + fuel))
  unfolding visit
  visit-IsVisit zero v g h = (h, inr (omega arith))
  visit-IsVisit (suc fuel) v g h = elim (List-cases v.ready) [
    | inl e ↦ rw (visit, e) (h, inl e)
    | inr (id, rest, e) ↦
        let next = take_ready nodes by_id dependents id rest v in
        let (valid, longer) = take_ready-IsVisit v id rest e g h in
        let (last, ends) = visit-IsVisit fuel next g valid in
        rw (visit, e) (last, (elim ends [ inl l ↦ inl l | inr l ↦ inr (omega (arith, l, longer)) ]))
  ]

  -- With as much fuel as nodes the loop ends: nothing is ready any more.
  pub visit_ends :
      (v : Visit)
      → v.result ≡ []
      → IsGraph nodes by_id dependents
      → IsVisit nodes [] v
      → IsVisit nodes [] (visit (length nodes) nodes by_id dependents v)
        × ((visit (length nodes) nodes by_id dependents v).ready ≡ [])
  visit_ends v none_yet g h =
      let last = visit (length nodes) nodes by_id dependents v in
      let (valid, ends) = visit-IsVisit (length nodes) v g h in
      let within =
        Within-length (ids last.result ++ last.ready) (ids nodes) (IsVisit-Within last valid) in
      let total = length-append (ids last.result) last.ready in
      (
        valid,
        (elim ends [
          | inl e ↦ e
          | inr e ↦ elim (List-cases last.ready) [
            | inl f ↦ f
            | inr (id, rest, f) ↦ absurd (
                omega (
                  arith,
                  within,
                  total,
                  e,
                  ap length f,
                  ap (λ (ns : List NodeSpec). length ns) none_yet,
                  length-ids last.result,
                  length-ids nodes,
                ))
          ]
        ]),
      )
