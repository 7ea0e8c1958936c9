-- ===== src/Continuation/Workflow/Runtime/Fits.antt =====
-- programmable/continuation/workflow.go: a command of the planner fits the pending node that it is
-- for.

use keelith.Prelude.{
  ℕ, ◌+◌, ◌==◌, ◌≤◌, ◌%◌, not, true, ◌&&◌, ◌||◌, ◌≡◌, ◌≢◌, refl, sym, ap, ◌∙◌, subst, inl, inr,
  arith, Bool-cases, Option, some, none, List, [], ◌∷◌, ◌++◌, all, All, Option-cases, map,
}
use keelith.Prelude.Text.{Text, codes}
use keelith.Prelude.Maps.{lookup}
use keelith.Prelude.Int.{to_nat}
use keelith.Prelude.Counts.{occurs, same}
use keelith.Prelude.Results.{ok, >>=-eq_ok, ◌>>=◌, >>-eq_ok, reject_if}
use keelith.Continuation.Identity.{valid_identity}
use keelith.Continuation.Model.{
  NodeStatus, node_failed, WorkflowState, NodeKind, node_machine, node_timer, node_child, node_join,
  other_node_kind, normalize_ready_at,
}
use keelith.Continuation.Apply.Validity.{normalize_ready_at_idem}
use keelith.Continuation.Apply.{digest_part, big_endian}
use keelith.Continuation.Workflow.Creation.{hex}
use keelith.Continuation.Workflow.{is_failed}
use keelith.Continuation.Workflow.Definition.{NodeSpec, malformed_workflow}
use keelith.Continuation.Workflow.Topology.{ids}
use keelith.Continuation.Workflow.Plan.{
  Command, is_fail_fast, is_join, plan_node, plan_nodes, plan_pending, start_command, evaluate_join,
  completes, starts, added, derive_child_call_id, status_of, new_call_id,
}
use keelith.Continuation.Workflow.Runtime.Commands.{
  node_kind_eq_sound, is_pending_sound, evaluate_join-ends, IsPlan, completes-IsPlan,
  new_call_id-valid, normalized-nonzero, starts-IsPlan, join_command-IsPlan, ok_some-injective,
  Fits,
}

module _ (sha256 : Text → Text) (w : WorkflowState) (parent : Text) (begun : w.started_at ≢ 0) where
  derive_child_call_id-valid :
      (id child : Text) (attempt : ℕ)
      → derive_child_call_id sha256 parent id attempt ≡ ok child
      → valid_identity child ≡ true
  unfolding derive_child_call_id
  derive_child_call_id-valid id child attempt e =
      let value =
        codes "wf-child-"
        ++ hex (
            sha256 (
              digest_part (codes "keelith-workflow-child-v1")
              ++ (digest_part parent ++ (digest_part id ++ digest_part (big_endian 4 attempt))))) in
      let (good, last) =
        >>-eq_ok
          (reject_if (not (valid_identity parent) || (not (valid_identity id) || attempt == 0))
            malformed_workflow)
          (new_call_id value) e in
      new_call_id-valid value child last

  start_kind-IsPlan :
      (n : NodeSpec) (attempt : ℕ) (c : Command) (kind : NodeKind)
      → n.kind ≡ kind
      → start_command sha256 w parent n attempt kind ≡ ok (some c)
      → IsPlan n attempt c
  unfolding start_command IsPlan
  start_kind-IsPlan n attempt c node_timer k e =
      let t = w.started_at + to_nat n.delay in
      subst (IsPlan n attempt)
        (ok_some-injective (record (starts n attempt) { ready_at = normalize_ready_at t }) c e)
        (
          refl,
          refl,
          λ s f. absurd (ground (arith, f)),
          λ f. (
            refl,
            λ g. (
              normalized-nonzero t (λ z. begun (omega (arith, z))),
              sym (normalize_ready_at_idem t),
            ),
            λ g. absurd (ground (arith, g, k)),
          ),
        )
  start_kind-IsPlan n attempt c node_child k e =
      let (id, f, last) =
        >>=-eq_ok (derive_child_call_id sha256 parent n.id attempt)
          (λ id. ok (some (record (starts n attempt) { child_call_id = id }))) e in
      subst (IsPlan n attempt)
        (ok_some-injective (record (starts n attempt) { child_call_id = id }) c last)
        (
          refl,
          refl,
          λ s g. absurd (ground (arith, g)),
          λ g. (
            refl,
            λ h. absurd (ground (arith, h, k)),
            λ h. derive_child_call_id-valid n.id id attempt f,
          ),
        )
  start_kind-IsPlan n attempt c node_machine k e =
      subst (IsPlan n attempt) (ok_some-injective (starts n attempt) c e)
        (starts-IsPlan n attempt (λ f. ground (arith, f, k)) (λ f. ground (arith, f, k)))
  start_kind-IsPlan n attempt c node_join k e =
      subst (IsPlan n attempt) (ok_some-injective (starts n attempt) c e)
        (starts-IsPlan n attempt (λ f. ground (arith, f, k)) (λ f. ground (arith, f, k)))
  start_kind-IsPlan n attempt c (other_node_kind s) k e =
      subst (IsPlan n attempt) (ok_some-injective (starts n attempt) c e)
        (starts-IsPlan n attempt (λ f. ground (arith, f, k)) (λ f. ground (arith, f, k)))

  start_command-IsPlan :
      (n : NodeSpec) (attempt : ℕ) (c : Command)
      → start_command sha256 w parent n attempt n.kind ≡ ok (some c)
      → IsPlan n attempt c
  start_command-IsPlan n attempt c e = start_kind-IsPlan n attempt c n.kind refl e

  plan_pending-IsPlan :
      (n : NodeSpec) (attempt : ℕ) (ss : List NodeStatus) (c : Command)
      → plan_pending sha256 w parent n attempt ss ≡ ok (some c)
      → IsPlan n ((attempt + 1) % 4294967296) c
  unfolding plan_pending
  plan_pending-IsPlan n attempt ss c e =
      let next = (attempt + 1) % 4294967296 in
      elim (Bool-cases (is_join n.kind)) [
        | inl joins ↦
            join_command-IsPlan n next (evaluate_join n.join ss) c (evaluate_join-ends n.join ss)
              (ground (arith, e, joins))
        | inr other ↦
            elim (Bool-cases
              (not (all (λ s. not (is_failed s)) ss) && is_fail_fast n.failure_policy)) [
                | inl fails ↦
                    subst (IsPlan n next)
                      (ok_some-injective (completes n node_failed) c
                        (ground (arith, e, other, fails)))
                      (completes-IsPlan n next node_failed refl)
                | inr runs ↦ start_command-IsPlan n next c (ground (arith, e, other, runs))
              ]
      ]

  plan_node-Fits :
      (n : NodeSpec) (c : Command)
      → plan_node sha256 w parent n (lookup n.id w.nodes) ≡ ok (some c)
      → Fits w.nodes c × (c.node_id ≡ n.id)
  unfolding plan_node IsPlan
  plan_node-Fits n c e = elim (Option-cases (lookup n.id w.nodes)) [
    | inl f ↦ absurd (ground (arith, e, f))
    | inr (node, f) ↦
        let given = subst (λ o. plan_node sha256 w parent n o ≡ ok (some c)) f e in
        let kind = node_kind_eq_sound node.kind n.kind (ground (arith, given)) in
        let pending = is_pending_sound node.status (ground (arith, given)) in
        let (same_id, same_kind, ends, starts) =
          plan_pending-IsPlan n node.attempt (map (status_of w.nodes) n.depends_on) c
            (ground (arith, given)) in
        (
          record {
            node = node;
            found = ap (λ x. lookup x w.nodes) same_id ∙ f;
            pending = pending;
            same_kind = kind ∙ sym same_kind;
            ends = ends;
            starts = λ g.
                let (attempt, timer, child) = starts g in
                record { attempt = attempt; timer = timer; child = child };
          },
          same_id,
        )
  ]

  -- The commands of a planned list, by the identities of its nodes.
  abbrev pub Planned : List NodeSpec → List Command → Type 0
  Planned ns cs =
      All (Fits w.nodes) cs
      × ((x : Text) → occurs x (map (λ (c : Command). c.node_id) cs) ≤ occurs x (ids ns))

  added-Fits :
      (n : NodeSpec) (ns : List NodeSpec) (o : Option Command) (ds cs : List Command)
      → All (Fits w.nodes) ds
      → ((x : Text) → occurs x (map (λ (c : Command). c.node_id) ds) ≤ occurs x (ids ns))
      → ((c : Command) → o ≡ some c → Fits w.nodes c × (c.node_id ≡ n.id))
      → added o ds ≡ cs
      → Planned (n ∷ ns) cs
  unfolding occurs
  added-Fits n ns none ds cs fits few here e =
      subst (Planned (n ∷ ns)) e (fits, λ x. omega (arith, few x))
  added-Fits n ns (some c) ds cs fits few here e =
      let (fit, same_id) = here c refl in
      subst (Planned (n ∷ ns)) e
        ((fit, fits), λ x. omega (arith, few x, ap (λ y. same y x) same_id))

  pub plan_nodes-Fits :
      (ns : List NodeSpec) (cs : List Command)
      → plan_nodes sha256 w parent ns ≡ ok cs
      → Planned ns cs
  unfolding plan_nodes occurs
  plan_nodes-Fits [] cs e =
      let empty : ◌≡◌ {A = List Command} [] cs = ground (arith, e) in
      subst (Planned []) empty (tt, λ x. omega arith)
  plan_nodes-Fits (n ∷ ns) cs e =
      let (o, f, rest) =
        >>=-eq_ok (plan_node sha256 w parent n (lookup n.id w.nodes))
          (λ c. plan_nodes sha256 w parent ns >>= λ ds. ok (added c ds)) e in
      let (ds, g, last) = >>=-eq_ok (plan_nodes sha256 w parent ns) (λ ds. ok (added o ds)) rest in
      let (fits, few) = plan_nodes-Fits ns ds g in
      added-Fits n ns o ds cs fits few (λ c k. plan_node-Fits n c (f ∙ ap ok k))
        (ground (arith, last))
