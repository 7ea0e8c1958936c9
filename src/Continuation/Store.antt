-- ===== src/Continuation/Store.antt =====
-- programmable/continuation/memory/store.go: the state of the process-local store, and the
-- validation of what its calls are given. A method runs under the store's lock, so a call is one
-- step: a function from the store to the store after it and the result. The reading of the clock
-- is an argument of each call that reads it. A nil receiver is not modelled.
use keelith.Prelude.{
  ℕ, ◌+◌, ◌-◌, ◌*◌, ◌/◌, ◌%◌, ◌^◌, ◌≤◌, ◌<◌, ◌==◌, leb, ltb, not, Bool, true, false, ◌&&◌, ◌||◌,
  List, [], ◌∷◌, ◌++◌, length, all, zero, suc, if◌then◌else◌, Option, none, some, is_some, ◌≡◌,
  refl, sym, ap, ◌∙◌, subst, ◌≢◌, ◌↔◌, ◌⊎◌, inl, inr, arith, Bool-cases, Option-cases, and-left,
  and-right, length-append, ==_iff, map, take, drop, All, keep,
}
use keelith.Prelude.Text.{Text, codes, text_eq, text_eq_iff, text_eq_refl, is_empty}
use keelith.Prelude.Maps.{
  Map, lookup, insert, delete, lookup-insert, lookup-insert_self, lookup-delete, lookup-delete_self,
  Every, insert-Every, delete-Every, keys,
}
use keelith.Prelude.Words.{u64_mod, max_u64, add_u64, sub_u64}
use keelith.Prelude.Results.{
  Result, ok, err, reject_if, require, ◌>>◌, ◌>>=◌, require-eq_ok, reject_if-eq_ok, >>-eq_ok,
  >>=-eq_ok, is_ok, Result-cases,
}
use keelith.Prelude.Contexts.{Context, nil_context, live, ended}
use keelith.Prelude.Int.{ℤ, pos, negsuc, is_pos, is_neg, to_nat, lt_nat, le_nat}
use keelith.Continuation.Identity.{valid_identity, valid_operation, valid_lease_owner}
use keelith.Continuation.Model.{
  Status, accepted, running, waiting, suspended, cancel_requested, completed, failed, canceled,
  expired, other_status, is_terminal, valid_status, is_suspended, is_running, is_accepted,
  is_expired, FrameKind, frame_accepted, frame_signal, frame_cancel_requested, frame_expired,
  frame_event, valid_kind, is_frame_accepted, kind_text, max_payload_bytes, Frame, CommandKind,
  no_command, command_signal, command_cancel, other_command, CommandRecord, command_record_eq,
  Snapshot, Transition, ErrorKind, invalid_identity, invalid_frame, bad_transition, terminal,
  bad_revision, bad_fence, bad_sequence, command_conflict, invalid_timer, invalid_workflow,
  invalid_store, not_found, already_exists, conflict, stale_fence, not_ready, lease_held,
  lease_lost, invalid_retention, Error, state_error, plain, timer_not_ready, cause,
  normalize_ready_at, WorkflowState, NodeState, NodeStatus, NodeKind, new_frame, new_snapshot,
  new_snapshot_with_input, timer_due, timer_not_ready_error, move, signal, cancel, sleep_until,
}
use keelith.Continuation.Workflow.{valid_workflow, workflow_successor, workflow_state_ok}
use keelith.Continuation.Apply.{
  allowed_move, allowed_transition, is_command, is_recorded_kind, initial_frames, bad_initial,
  bad_window, frames_ok, commands_ok, bad_ready_at, fault, validate_snapshot, append_frames,
  next_fence, next_workflow, next_ready_at, bad_request_timer, workflow_request, command_record,
  next_commands, successor, repeated, known_command, advance, apply, digest_input, digest_frames,
  digest_part, big_endian,
}
pub mod Calls
pub mod Leases
pub mod Admin
pub mod Takeover
pub mod Validity
pub mod Steps
pub mod StepsValid
pub mod LeasesValid
pub mod History
pub mod Fences
pub mod FenceSteps
pub mod FenceHistory
pub mod Fencing
pub mod Ready
pub mod Retry

pub record LeaseRecord : Type 0 where
  pub owner : Text
  pub deadline : ℕ
  pub revision : ℕ  -- uint64
  pub fence : ℕ  -- uint64
  pub previous_revision : ℕ  -- uint64

-- What a lookup of a missing lease gives.
abbrev pub zero_lease : LeaseRecord
zero_lease = record { owner = []; deadline = 0; revision = 0; fence = 0; previous_revision = 0 }

pub record Store : Type 0 where
  pub records : Map Snapshot
  pub leases : Map LeaseRecord
  pub expires : Map ℕ

-- New
abbrev pub new_store : Store
new_store = record { records = []; leases = []; expires = [] }

-- A method that writes only once it has succeeded: the new store and the value, or the error of a
-- call that has changed nothing.
abbrev pub M : Type 0 → Type 0
M A = Store → Result Error (Store × A)

-- The store after such a call, and what it returned.
abbrev pub settle : {A : Type 0} → Store → Result Error (Store × A) → Store × Result Error A
settle s (ok (s', a)) = (s', ok a)
settle s (err e) = (s, err e)

abbrev pub is_nil : Context → Bool
is_nil nil_context = true
is_nil _ = false

-- `if cause := context.Cause(ctx); cause != nil { return cause }`
abbrev pub check_cause : Context → Result Error (Unit {0})
check_cause (ended c) = err (cause c)
check_cause _ = ok tt

-- The tests that every method makes first.
abbrev pub enter : Context → Bool → ErrorKind → Result Error (Unit {0})
enter ctx bad kind = reject_if (is_nil ctx || bad) (plain kind) >> check_cause ctx

abbrev pub found {ℓ} : {A : Type ℓ} → Option A → ErrorKind → Result Error A
found none kind = err (plain kind)
found (some a) kind = ok a

pub record CommitRequest : Type 0 where
  pub expected_revision : ℕ
  pub fence : ℕ
  pub lease_owner : Text
  pub expires_at : ℕ
  pub snapshot : Snapshot

pub record CommandRequest : Type 0 where
  pub call_id : Text
  pub expected_revision : ℕ
  pub command_id : Text
  pub payload : Text

pub record ClaimRequest : Type 0 where
  pub call_id : Text
  pub expected_revision : ℕ
  pub owner_id : Text
  pub lease_duration : ℤ

pub record LeaseRequest : Type 0 where
  pub call_id : Text
  pub revision : ℕ
  pub fence : ℕ
  pub owner_id : Text
  pub lease_duration : ℤ

pub record Lease : Type 0 where
  pub snapshot : Snapshot
  pub owner_id : Text
  pub deadline : ℕ

-- 24 hours in nanoseconds.
abbrev pub max_lease_duration : ℕ
max_lease_duration = 86400000000000

abbrev bad_duration : ℤ → Bool
bad_duration d = not (is_pos d) || not (le_nat d max_lease_duration)

-- ClaimRequest.Validate
unfoldable pub bad_claim : ClaimRequest → Bool
bad_claim r =
    not (valid_identity r.call_id)
    || (r.expected_revision == 0
        || (not (valid_lease_owner r.owner_id) || bad_duration r.lease_duration))

-- LeaseRequest.Validate
unfoldable pub bad_lease_request : Bool → LeaseRequest → Bool
bad_lease_request renew r =
    not (valid_identity r.call_id)
    || (r.revision == 0
        || (r.fence == 0
            || (not (valid_lease_owner r.owner_id) || renew && bad_duration r.lease_duration)))

unfoldable pub initial_snapshot : Snapshot → Bool
unfolding initial_frames
initial_snapshot s =
    not (is_empty s.call_id)
    && (not (is_empty s.operation)
        && (is_accepted s.status
            && (s.revision == 1 && (s.fence == 0 && initial_frames s.sequence s.frames))))

unfoldable pub ready : Status → Bool
ready accepted = true
ready running = true
ready suspended = true
ready cancel_requested = true
ready _ = false

-- equalFrame
unfoldable pub frame_eq : Frame → Frame → Bool
frame_eq a b =
    a.sequence == b.sequence
    && (text_eq (kind_text a.kind) (kind_text b.kind) && text_eq a.payload b.payload)

-- The loops of validSuccessor: the old frames are a prefix of the new ones, and what follows
-- carries its one-based index.
unfoldable pub continues : ℕ → List Frame → List Frame → Bool
unfolding frame_eq
continues index [] [] = true
continues index [] (f ∷ fs) = f.sequence == suc index && continues (suc index) [] fs
continues index (c ∷ cs) [] = false
continues index (c ∷ cs) (f ∷ fs) = frame_eq c f && continues (suc index) cs fs

unfoldable pub valid_successor : Snapshot → Snapshot → ℕ → Bool
unfolding continues
valid_successor current next fence =
    text_eq next.call_id current.call_id
    && (text_eq next.operation current.operation
        && (next.revision == add_u64 current.revision 1
            && (next.fence == fence
                && (leb current.sequence next.sequence && continues 0 current.frames next.frames))))

abbrev pub is_cancel_requested : Status → Bool
is_cancel_requested cancel_requested = true
is_cancel_requested _ = false

-- The status under which a ready call is acquired.
abbrev pub owned_status : Status → Status
owned_status s = if is_cancel_requested s then cancel_requested else running

-- lease.deadline.After(now) of a recorded lease.
abbrev pub active : ℕ → Option LeaseRecord → Bool
active now none = false
active now (some l) = ltb now l.deadline
