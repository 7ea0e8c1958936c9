-- ===== src/Continuation/Apply/Laws.antt =====
-- What Apply does to the history of a call (programmable/continuation/state.go).
use keelith.Continuation.Apply.{next_fence}
use keelith.Continuation.Model.{no_command}
use keelith.Prelude.{
  ◌+◌, ◌≤◌, ◌<◌, true, false, ◌++◌, length, none, some, ◌≡◌, ap, ◌⊎◌, inl, inr, arith,
}
use keelith.Prelude.Text.{Text}
use keelith.Prelude.Maps.{lookup, lookup-insert_self}
use keelith.Prelude.Words.{u64_mod}
use keelith.Prelude.Results.{ok}
use keelith.Continuation.Model.{is_terminal, Snapshot, Transition}
use keelith.Continuation.Apply.{
  allowed_transition, is_command, workflow_request, command_record, repeated, known_command, apply,
}
use keelith.Continuation.Apply.Frames.{append_frames-length, numbered, append_frames-numbered}
use keelith.Continuation.Apply.Steps.{Repeats, apply-Applies, command_record_eq_refl}
use keelith.Continuation.Apply.Validity.{InRange, apply-valid}

-- The next snapshot continues the history of the current one.
pub record Extends (s : Snapshot) (t : Transition) (next : Snapshot) : Type 0 where
  pub moving : is_terminal s.status ≡ false
  pub allowed : allowed_transition s.status t.status t.command ≡ true
  pub moved : next.status ≡ t.status
  pub same_call : (next.call_id ≡ s.call_id) × (next.operation ≡ s.operation)
  pub revised : next.revision ≡ s.revision + 1
  pub fence_kept : s.fence ≤ next.fence
  pub fence_set : next.fence ≡ next_fence s t
  pub history : next.frames ≡ s.frames ++ numbered s.sequence t.frames
  pub counted : next.sequence ≡ s.sequence + length t.frames

module _ (sha256 : Text → Text) (s : Snapshot) (t : Transition) (next : Snapshot) where
  -- A successful Apply either finds the command recorded and changes nothing, or it starts from a
  -- status that is not terminal, follows an allowed edge to the requested status, raises the
  -- revision by one, keeps the call and the operation, never lowers the fence, and appends the given
  -- frames behind the old ones: with their kinds and payloads, in their order, and with the
  -- sequences that follow the last one. The counters of the current snapshot are uint64 values.
  pub apply-Extends :
      InRange s → apply sha256 s t ≡ ok next → Repeats sha256 s t next ⊎ Extends s t next
  apply-Extends r h = elim (apply-Applies sha256 s t next h).outcome [
    | inl same ↦ inl same
    | inr step ↦ inr (record {
      moving = step.moving;
      allowed = step.allowed;
      moved = ap (λ (n : Snapshot). n.status) step.result;
      same_call = (
        ap (λ (n : Snapshot). n.call_id) step.result,
        ap (λ (n : Snapshot). n.operation) step.result,
      );
      revised = rw step.result (omega (arith, step.room, r.revision_fits));
      fence_kept = rw step.result step.fence_kept;
      fence_set = ap (λ (n : Snapshot). n.fence) step.result;
      history = rw step.result (
          ap (λ fs. s.frames ++ fs)
            (append_frames-numbered _ _ _ step.appended r.sequence_fits step.runs));
      counted =
          rw step.result
            (omega (arith, append_frames-length _ _ _ step.appended r.sequence_fits step.runs));
    })
  ]

  -- No transition changes a snapshot of a terminal status.
  pub terminal_absorbs : is_terminal s.status ≡ true → apply sha256 s t ≡ ok next → next ≡ s
  terminal_absorbs d h = elim (apply-Applies sha256 s t next h).outcome [
    | inl same ↦ same.unchanged
    | inr step ↦ absurd (ground (arith, d, step.moving))
  ]

  recorded_afterwards :
      apply sha256 s t ≡ ok next
      → is_command t.command ≡ true
      → lookup t.command_id next.commands ≡ some (command_record sha256 t)
  recorded_afterwards h c = elim (apply-Applies sha256 s t next h).outcome [
    | inl same ↦ rw same.unchanged same.recorded
    | inr step ↦
        rw (step.result, c) (lookup-insert_self t.command_id (command_record sha256 t) s.commands)
  ]

  -- A command without workflow data and timer that Apply accepted once is accepted again on the
  -- result and changes nothing more, so that a lost response can be retried.
  pub apply_idempotent :
      InRange s
      → t.fence < u64_mod
      → is_command t.command ≡ true
      → t.workflow ≡ none
      → apply sha256 s t ≡ ok next
      → apply sha256 next t ≡ ok next
  unfolding apply known_command repeated workflow_request
  apply_idempotent r f c w h =
      let tests = apply-Applies sha256 s t next h in
      rw (
        (apply-valid sha256 s t next r f h).0,
        tests.status_ok,
        tests.timer_ok,
        w,
        c,
        tests.id_ok c,
        recorded_afterwards h c,
        repeated,
        command_record_eq_refl (command_record sha256 t),
      )

  -- A transition that is no command and is accepted continues the history.
  pub move-Extends :
      InRange s → t.command ≡ no_command → apply sha256 s t ≡ ok next → Extends s t next
  move-Extends r c h = elim (apply-Extends r h) [
    | inl same ↦ absurd (ground (arith, same.is_a_command))
    | inr e ↦ e
  ]
