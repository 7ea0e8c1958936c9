-- ===== src/Continuation/Workflow/Runtime/Loops.antt =====
-- programmable/continuation/workflow_runtime.go: the loops of reconcile keep the nodes behind those
-- that it was given.
use keelith.Prelude.{
  if◌then◌else◌, ℕ, zero, suc, ◌==◌, ◌≤◌, ◌&&◌, ◌≡◌, ◌≢◌, refl, ap, subst, inl, inr, arith,
  Bool-cases, Option, List, [], ◌∷◌, All, List-cases, map,
}
use keelith.Prelude.Text.{Text}
use keelith.Prelude.Maps.{Map, keys}
use keelith.Prelude.Counts.{occurs, same_self}
use keelith.Prelude.Results.{Result, ok, >>=-eq_ok, ◌>>=◌}
use keelith.Continuation.Model.{NodeState, WorkflowState, Status}
use keelith.Continuation.Workflow.{is_child, is_waiting}
use keelith.Continuation.Workflow.Definition.{WorkflowError, Definition}
use keelith.Continuation.Workflow.Topology.{ids}
use keelith.Continuation.Workflow.Plan.{Command, plan, plan_nodes}
use keelith.Continuation.Workflow.Runtime.{
  ChildRuntime, Execution, NodeResult, Work, node_in, wake_timers,
}
use keelith.Continuation.Workflow.Runtime.Reconcile.{
  refresh_child, refresh_waiting, execute_on, execute, execute_all, act, advance_nodes,
}
use keelith.Continuation.Workflow.Runtime.Follows.{Follows, wake_timers-Follows}
use keelith.Continuation.Workflow.Runtime.Fits.{plan_nodes-Fits}
use keelith.Continuation.Workflow.Runtime.Commands.{Fits}
use keelith.Continuation.Workflow.Runtime.Acts.{
  Only, ok_work-injective, execute_on-Only, refresh_child-Only,
}
use keelith.Continuation.Workflow.Runtime.Successor.{
  Fits-kept, AllFound, AllFound-kept, distinct-AllFound,
}

ok_pair-injective :
    (x y : ℕ × Work) → ◌≡◌ {A = Result WorkflowError (ℕ × Work)} (ok x) (ok y) → x ≡ y
ok_pair-injective x y e = ground (arith, e)

planned-nodes :
    (sha256 : Text → Text) (d : Definition) (w : WorkflowState) (parent : Text) (cs : List Command)
    → plan sha256 d w parent ≡ ok cs
    → plan_nodes sha256 w parent d.nodes ≡ ok cs
unfolding plan
planned-nodes sha256 d w parent cs e = ground (arith, e)

module _ (sha256 : Text → Text) (children : Option ChildRuntime)
    (handlers : Text → Option (Execution → Option NodeResult))
    (marshal : Text → Text → Status → Option Text) (nodes : Map NodeState) where
  refresh_waiting-Follows :
      (es : Map NodeState) (work next : Work)
      → Follows nodes work.nodes
      → AllFound work.nodes es
      → ((x : Text) → occurs x (keys es) ≤ 1)
      → refresh_waiting sha256 children handlers marshal es work ≡ ok next
      → Follows nodes next.nodes
  unfolding refresh_waiting occurs
  refresh_waiting-Follows [] work next h f once e =
      subst (λ (y : Work). Follows nodes y.nodes) (ok_work-injective work next e) h
  refresh_waiting-Follows ((id, n) ∷ es) work next h f once e =
      let (middle, g, rest) =
        >>=-eq_ok
          (if is_child n.kind && is_waiting n.status
            then refresh_child sha256 children handlers marshal children id work
            else ok work)
          (refresh_waiting sha256 children handlers marshal es) e in
      let only : Only id nodes work.nodes middle.nodes =
        elim (Bool-cases (is_child n.kind && is_waiting n.status)) [
          | inl c ↦
              refresh_child-Only sha256 children handlers marshal nodes children id work middle n h
                f.0 (ground (arith, c)) (ground (arith, g, c))
          | inr c ↦
              subst (λ (y : Work). Only id nodes work.nodes y.nodes)
                (ok_work-injective work middle (ground (arith, g, c))) (h, λ k u. refl)
        ] in
      refresh_waiting-Follows es middle next only.0
        (AllFound-kept id work.nodes middle.nodes es only.1 (omega (arith, once id, same_self id))
          f.1)
        (λ x. omega (arith, once x)) rest

  execute_all-Follows :
      (left : ℕ) (parent : Text) (cs : List Command) (work : Work) (next : ℕ × Work)
      → Follows nodes work.nodes
      → All (Fits work.nodes) cs
      → ((x : Text) → occurs x (map (λ (c : Command). c.node_id) cs) ≤ 1)
      → execute_all sha256 children handlers marshal left parent cs work ≡ ok next
      → Follows nodes next.1.nodes
  unfolding execute_all occurs
  execute_all-Follows left parent [] work next h f once e =
      subst (λ (y : ℕ × Work). Follows nodes y.1.nodes) (ok_pair-injective (left, work) next e) h
  execute_all-Follows zero parent (c ∷ cs) work next h f once e =
      subst (λ (y : ℕ × Work). Follows nodes y.1.nodes) (ok_pair-injective (0, work) next e) h
  execute_all-Follows (suc left) parent (c ∷ cs) work next h f once e =
      let fit = f.0 in
      let (middle, g, rest) =
        >>=-eq_ok (execute sha256 children handlers marshal parent c work)
          (execute_all sha256 children handlers marshal left parent cs) e in
      let on_node =
        subst
          (λ n.
            execute_on sha256 children handlers marshal parent c n c.complete_status work
            ≡ ok middle)
          (ap node_in fit.found) g in
      let only =
        execute_on-Only sha256 children handlers marshal nodes parent c c.complete_status work
          middle fit h refl on_node in
      execute_all-Follows left parent cs middle next only.0
        (Fits-kept c.node_id work.nodes middle.nodes cs only.1
          (omega (arith, once c.node_id, same_self c.node_id)) f.1)
        (λ x. omega (arith, once x)) rest

  act-Follows :
      (fuel : ℕ) (d : Definition) (w : WorkflowState) (parent : Text) (left : ℕ) (work next : Work)
      → w.started_at ≢ 0
      → ((x : Text) → occurs x (ids d.nodes) ≤ 1)
      → Follows nodes work.nodes
      → act sha256 children handlers marshal fuel d w parent (left, work) ≡ ok next
      → Follows nodes next.nodes
  unfolding act
  act-Follows zero d w parent left work next z once h e =
      subst (λ (y : Work). Follows nodes y.nodes) (ok_work-injective work next e) h
  act-Follows (suc fuel) d w parent left work next z once h e = elim (Bool-cases (left == 0)) [
    | inl none_left ↦
        subst (λ (y : Work). Follows nodes y.nodes)
          (ok_work-injective work next (ground (arith, e, none_left))) h
    | inr some_left ↦
        let now = record w { nodes = work.nodes } in
        let go : List Command → Result WorkflowError Work = λ cs. elim cs [
          | [] ↦ ok work
          | c ∷ more ↦
              execute_all sha256 children handlers marshal left parent (c ∷ more) work
              >>= act sha256 children handlers marshal fuel d w parent
        ] in
        let planning : (plan sha256 d now parent >>= go) ≡ ok next = ground (arith, e, some_left) in
        let (cs, g, rest) = >>=-eq_ok (plan sha256 d now parent) go planning in
        let (fits, few) =
          plan_nodes-Fits sha256 now parent z d.nodes cs (planned-nodes sha256 d now parent cs g) in
        elim (List-cases cs) [
          | inl empty ↦
              subst (λ (y : Work). Follows nodes y.nodes)
                (ok_work-injective work next (subst (λ ds. go ds ≡ ok next) empty rest)) h
          | inr (c, more, is_cons) ↦
              let ((count, middle), k, last) =
                >>=-eq_ok (execute_all sha256 children handlers marshal left parent (c ∷ more) work)
                  (act sha256 children handlers marshal fuel d w parent)
                  (subst (λ ds. go ds ≡ ok next) is_cons rest) in
              let follows =
                execute_all-Follows left parent (c ∷ more) work (count, middle) h
                  (subst (All (Fits work.nodes)) is_cons fits)
                  (λ x. omega (
                    arith,
                    few x,
                    once x,
                    ap (λ ds. occurs x (map (λ (b : Command). b.node_id) ds)) is_cons,
                  ))
                  k in
              act-Follows fuel d w parent count middle next z once follows last
        ]
  ]

  pub advance_nodes-Follows :
      (max_node_actions : ℕ) (d : Definition) (w : WorkflowState) (parent : Text) (wake : ℕ)
      (next : Work)
      → w.started_at ≢ 0
      → ((x : Text) → occurs x (ids d.nodes) ≤ 1)
      → ((x : Text) → occurs x (keys w.nodes) ≤ 1)
      → Follows nodes w.nodes
      → advance_nodes sha256 children handlers marshal max_node_actions d w parent wake ≡ ok next
      → Follows nodes next.nodes
  unfolding advance_nodes
  advance_nodes-Follows max_node_actions d w parent wake next z once distinct h e =
      let begin : Work = record { nodes = w.nodes; frames = [] } in
      let awake : Work → Result WorkflowError Work = λ refreshed.
        act sha256 children handlers marshal max_node_actions d w parent
          (max_node_actions, record refreshed { nodes = wake_timers wake refreshed.nodes }) in
      let (refreshed, g, rest) =
        >>=-eq_ok (refresh_waiting sha256 children handlers marshal w.nodes begin) awake e in
      let follows =
        refresh_waiting-Follows w.nodes begin refreshed h (distinct-AllFound w.nodes distinct)
          distinct g in
      act-Follows max_node_actions d w parent max_node_actions
        (record refreshed { nodes = wake_timers wake refreshed.nodes }) next z once
        (wake_timers-Follows wake nodes refreshed.nodes follows) rest
