-- ===== src/Continuation/Retention.antt =====
-- programmable/continuation/retention.go: pruning the frames below a floor.
use keelith.Prelude.{
  ℕ, ◌+◌, ◌-◌, ◌*◌, ◌/◌, ◌%◌, ◌^◌, ◌≤◌, ◌<◌, ◌==◌, leb, ltb, not, Bool, true, false, ◌&&◌, ◌||◌,
  List, [], ◌∷◌, ◌++◌, length, all, zero, suc, if◌then◌else◌, Option, none, some, is_some, ◌≡◌,
  refl, sym, ap, ◌∙◌, subst, ◌≢◌, ◌↔◌, ◌⊎◌, inl, inr, arith, Bool-cases, Option-cases, and-left,
  and-right, length-append, ==_iff, map, take, drop, All, keep,
}
use keelith.Prelude.Text.{Text, codes, text_eq, text_eq_iff, text_eq_refl, is_empty}
use keelith.Prelude.Maps.{
  Map, lookup, insert, delete, lookup-insert, lookup-insert_self, lookup-delete, lookup-delete_self,
  Every, insert-Every, delete-Every, keys,
}
use keelith.Prelude.Words.{u64_mod, max_u64, add_u64, sub_u64}
use keelith.Prelude.Results.{
  Result, ok, err, reject_if, require, ◌>>◌, ◌>>=◌, require-eq_ok, reject_if-eq_ok, >>-eq_ok,
  >>=-eq_ok, is_ok, Result-cases,
}
use keelith.Prelude.Contexts.{Context, nil_context, live, ended}
use keelith.Prelude.Int.{ℤ, pos, negsuc, is_pos, is_neg, to_nat, lt_nat, le_nat}
use keelith.Continuation.Identity.{valid_identity, valid_operation, valid_lease_owner}
use keelith.Continuation.Model.{
  Status, accepted, running, waiting, suspended, cancel_requested, completed, failed, canceled,
  expired, other_status, is_terminal, valid_status, is_suspended, is_running, is_accepted,
  is_expired, FrameKind, frame_accepted, frame_signal, frame_cancel_requested, frame_expired,
  frame_event, valid_kind, is_frame_accepted, kind_text, max_payload_bytes, Frame, CommandKind,
  no_command, command_signal, command_cancel, other_command, CommandRecord, command_record_eq,
  Snapshot, Transition, ErrorKind, invalid_identity, invalid_frame, bad_transition, terminal,
  bad_revision, bad_fence, bad_sequence, command_conflict, invalid_timer, invalid_workflow,
  invalid_store, not_found, already_exists, conflict, stale_fence, not_ready, lease_held,
  lease_lost, invalid_retention, Error, state_error, plain, timer_not_ready, cause,
  normalize_ready_at, WorkflowState, NodeState, NodeStatus, NodeKind, new_frame, new_snapshot,
  new_snapshot_with_input, timer_due, timer_not_ready_error, move, signal, cancel, sleep_until,
}
use keelith.Continuation.Workflow.{valid_workflow, workflow_successor, workflow_state_ok}
use keelith.Continuation.Apply.{
  allowed_move, allowed_transition, is_command, is_recorded_kind, initial_frames, bad_initial,
  bad_window, frames_ok, commands_ok, bad_ready_at, fault, validate_snapshot, append_frames,
  next_fence, next_workflow, next_ready_at, bad_request_timer, workflow_request, command_record,
  next_commands, successor, repeated, known_command, advance, apply, digest_input, digest_frames,
  digest_part, big_endian,
}
pub mod Laws

-- The floors that PruneSnapshot accepts.
abbrev pub bad_floor : Snapshot → ℕ → Bool
bad_floor s floor =
    floor == 0
    || (s.sequence == max_u64 && ltb s.sequence floor
        || ltb s.sequence max_u64 && ltb (add_u64 s.sequence 1) floor)

-- The snapshot without its first frames.
abbrev pub cut : Snapshot → ℕ → Snapshot
cut s floor = record s { frame_floor = floor; frames = drop (floor - s.frame_floor) s.frames }

-- An error of validateSnapshot is reported as ErrInvalidRetention.
unfoldable pub revalidate : Snapshot → Result Error (Unit {0})
revalidate s = require (is_ok (validate_snapshot s)) (plain invalid_retention)

-- The offset does not wrap, since the floor has been found above the old one.
unfoldable pub prune_snapshot : Snapshot → ℕ → Result Error Snapshot
unfolding revalidate
prune_snapshot s floor = do
  revalidate s
  reject_if (bad_floor s floor) (plain invalid_retention)
  if leb floor s.frame_floor
      then ok s
      else reject_if (ltb (length s.frames) (floor - s.frame_floor)) (plain invalid_retention)
        >> (revalidate (cut s floor) >> ok (cut s floor))
