-- ===== src/Continuation/Apply/Validity.antt =====
-- Apply keeps a snapshot valid (programmable/continuation/state.go).
use keelith.Prelude.{
  ℕ, ◌+◌, ◌≤◌, ◌<◌, true, false, List, [], ◌∷◌, ◌++◌, length, Option, none, some, ◌≡◌, refl, sym,
  subst, ◌≢◌, inl, inr, arith, Bool-cases, length-append,
}
use keelith.Prelude.Text.{Text}
use keelith.Prelude.Maps.{Map, insert}
use keelith.Prelude.Words.{u64_mod}
use keelith.Prelude.Results.{ok}
use keelith.Continuation.Identity.{valid_identity, valid_operation}
use keelith.Continuation.Model.{
  Status, valid_status, Frame, CommandKind, no_command, command_signal, command_cancel,
  other_command, CommandRecord, Snapshot, Transition, state_error, normalize_ready_at,
  WorkflowState,
}
use keelith.Continuation.Workflow.{valid_workflow, workflow_successor}
use keelith.Continuation.Apply.{
  allowed_transition, is_command, is_recorded_kind, bad_initial, bad_window, frames_ok, commands_ok,
  bad_ready_at, validate_snapshot, append_frames, next_workflow, workflow_request, command_record,
  successor, apply,
}
use keelith.Continuation.Apply.Frames.{frames_ok-append, append_frames-length, append_frames-ok}
use keelith.Continuation.Apply.Steps.{Advances, Applies, apply-Applies}

-- What the tests of validateSnapshot say, one by one.
pub record Parts (s : Snapshot) : Type 0 where
  pub call_ok : valid_identity s.call_id ≡ true
  pub operation_ok : valid_operation s.operation ≡ true
  pub status_ok : valid_status s.status ≡ true
  pub workflow_ok : valid_workflow s.workflow ≡ true
  pub timer_ok : bad_ready_at s ≡ false
  pub revised : s.revision ≢ 0
  pub window_ok : bad_window s ≡ false
  pub initial_ok : s.revision ≡ 1 → bad_initial s ≡ false
  pub frames_valid : frames_ok s.frame_floor 0 s.frames ≡ true
  pub commands_valid : commands_ok s.commands ≡ true

pub validate_snapshot-Parts : (s : Snapshot) → validate_snapshot s ≡ ok tt → Parts s
unfolding validate_snapshot
validate_snapshot-Parts s h = record {
  call_ok = ground arith;
  operation_ok = ground arith;
  status_ok = ground arith;
  workflow_ok = ground arith;
  timer_ok = ground arith;
  revised = ground arith;
  window_ok = ground arith;
  initial_ok = ground arith;
  frames_valid = ground arith;
  commands_valid = ground arith;
}

pub Parts-validate_snapshot : (s : Snapshot) → Parts s → validate_snapshot s ≡ ok tt
unfolding validate_snapshot
Parts-validate_snapshot s p = ground (arith, p.initial_ok)

-- The fields of a uint64 type are below 2 ^ 64.
pub record InRange (s : Snapshot) : Type 0 where
  pub revision_fits : s.revision < u64_mod
  pub fence_fits : s.fence < u64_mod
  pub sequence_fits : s.sequence < u64_mod
  pub floor_fits : s.frame_floor < u64_mod
  pub frames_fit : length s.frames < u64_mod

pub normalize_ready_at_idem :
    (t : ℕ) → normalize_ready_at (normalize_ready_at t) ≡ normalize_ready_at t
unfolding normalize_ready_at
normalize_ready_at_idem t = ground arith

commands_ok-insert :
    (id : Text) (r : CommandRecord) (m : Map CommandRecord)
    → valid_identity id ≡ true
    → is_recorded_kind r.kind ≡ true
    → commands_ok m ≡ true
    → commands_ok (insert id r m) ≡ true
unfolding commands_ok insert
commands_ok-insert id r [] v k h = ground arith
commands_ok-insert id r ((j, q) ∷ m) v k h = ground (arith, commands_ok-insert id r m v k)

-- The retained frames are exactly those from the floor to the last sequence.
pub window-length :
    (s : Snapshot)
    → InRange s
    → bad_window s ≡ false
    → (1 ≤ s.frame_floor) × (s.frame_floor + length s.frames ≡ s.sequence + 1)
unfolding bad_window
window-length s r h = ground arith

pub window_of_length :
    (s : Snapshot)
    → InRange s
    → 1 ≤ s.frame_floor
    → s.frame_floor + length s.frames ≡ s.sequence + 1
    → bad_window s ≡ false
unfolding bad_window
window_of_length s r p e = ground arith

is_recorded_kind_of_allowed :
    (from to : Status) (c : CommandKind)
    → allowed_transition from to c ≡ true
    → is_command c ≡ true
    → is_recorded_kind c ≡ true
unfolding allowed_transition
is_recorded_kind_of_allowed from to no_command a c = cc
is_recorded_kind_of_allowed from to command_signal a c = refl
is_recorded_kind_of_allowed from to command_cancel a c = refl
is_recorded_kind_of_allowed from to (other_command x) a c = cc

workflow_request-valid :
    (current next : Option WorkflowState)
    → valid_workflow current ≡ true
    → workflow_request current next ≡ true
    → valid_workflow (next_workflow current next) ≡ true
unfolding workflow_request valid_workflow workflow_successor
workflow_request-valid current none v h = v
workflow_request-valid none (some w) v h = cc
workflow_request-valid (some c) (some w) v h = ground arith

module _ (sha256 : Text → Text) (s : Snapshot) (t : Transition) (next : Snapshot) where
  successor-InRange :
      (appended : ℕ × List Frame)
      → InRange s
      → t.fence < u64_mod
      → bad_window s ≡ false
      → append_frames (λ kind. state_error kind s.status t.status) s.sequence t.frames ≡ ok appended
      → InRange (successor sha256 s t appended)
        × (1 ≤ s.frame_floor)
        × (s.frame_floor + length (s.frames ++ appended.1) ≡ appended.0 + 1)
  successor-InRange appended r f w runs =
      let (n, l, fits) = append_frames-length _ s.sequence t.frames appended r.sequence_fits runs in
      let (p, e) = window-length s r w in
      (
        record {
          revision_fits = omega arith;
          fence_fits = ground arith;
          sequence_fits = fits;
          floor_fits = r.floor_fits;
          frames_fit = omega (arith, length-append s.frames appended.1);
        },
        p,
        omega (arith, length-append s.frames appended.1),
      )

  successor-Parts :
      (appended : ℕ × List Frame)
      → InRange s
      → t.fence < u64_mod
      → Applies sha256 s t next
      → Parts s
      → Advances sha256 s t next (λ kind. state_error kind s.status t.status)
      → append_frames (λ kind. state_error kind s.status t.status) s.sequence t.frames ≡ ok appended
      → Parts (successor sha256 s t appended)
  successor-Parts appended r f tests parts moved runs =
      let (fits, p, e) = successor-InRange appended r f parts.window_ok runs in
      record {
        call_ok = parts.call_ok;
        operation_ok = parts.operation_ok;
        status_ok = tests.status_ok;
        workflow_ok =
            workflow_request-valid s.workflow t.workflow parts.workflow_ok tests.workflow_ok;
        timer_ok = ground (arith, normalize_ready_at_idem t.ready_at);
        revised = omega (arith, moved.room, r.revision_fits);
        window_ok = window_of_length (successor sha256 s t appended) fits p e;
        initial_ok = λ h. absurd (omega (arith, h, moved.room, r.revision_fits, parts.revised));
        frames_valid = frames_ok-append s.frame_floor 0 s.frames appended.1 parts.frames_valid (
            append_frames-ok _ s.frame_floor (0 + length s.frames) s.sequence t.frames appended
              r.sequence_fits p (omega (arith, window-length s r parts.window_ok)) runs);
        commands_valid = elim (Bool-cases (is_command t.command)) [
          | inl c ↦ rw c (
              commands_ok-insert t.command_id (command_record sha256 t) s.commands (tests.id_ok c)
                (is_recorded_kind_of_allowed s.status t.status t.command moved.allowed c)
                parts.commands_valid)
          | inr n ↦ rw n parts.commands_valid
        ];
      }

  -- A snapshot that Apply returns passes validateSnapshot, and its counters are uint64 values,
  -- whenever the counters of the current snapshot and the fence of the transition are.
  pub apply-valid :
      InRange s
      → t.fence < u64_mod
      → apply sha256 s t ≡ ok next
      → (validate_snapshot next ≡ ok tt) × InRange next
  apply-valid r f h = elim tests.outcome [
    | inl same ↦ (rw same.unchanged tests.was_valid, subst InRange (sym same.unchanged) r)
    | inr moved ↦ (
      rw moved.result (
          Parts-validate_snapshot _
            (successor-Parts moved.appended r f tests parts moved moved.runs)),
      subst InRange (sym moved.result)
          (successor-InRange moved.appended r f parts.window_ok moved.runs).0,
    )
  ]
    where
      tests : Applies sha256 s t next
      tests = apply-Applies sha256 s t next h

      parts : Parts s
      parts = validate_snapshot-Parts s tests.was_valid
