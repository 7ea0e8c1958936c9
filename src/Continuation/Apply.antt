-- ===== src/Continuation/Apply.antt =====
-- programmable/continuation/state.go: Apply and the validation of a snapshot. sha256 is an argument
-- of the definitions, and the bytes that it is given are modelled.
use keelith.Prelude.{
  ℕ, ◌+◌, ◌-◌, ◌*◌, ◌/◌, ◌%◌, ◌^◌, ◌==◌, leb, ltb, not, Bool, true, false, ◌&&◌, ◌||◌, List, [],
  ◌∷◌, ◌++◌, length, all, zero, suc, if◌then◌else◌, Option, none, some, is_some,
}
use keelith.Prelude.Text.{Text, codes, text_eq}
use keelith.Prelude.Maps.{Map, lookup, insert}
use keelith.Prelude.Words.{u64_mod, max_u64, add_u64, sub_u64}
use keelith.Prelude.Results.{Result, ok, err, reject_if, require, ◌>>◌, ◌>>=◌}
use keelith.Continuation.Identity.{valid_identity, valid_operation}
use keelith.Continuation.Model.{
  Status, accepted, running, waiting, suspended, cancel_requested, completed, failed, canceled,
  expired, is_terminal, valid_status, is_suspended, is_running, is_accepted, valid_kind,
  is_frame_accepted, kind_text, max_payload_bytes, Frame, CommandKind, no_command, command_signal,
  command_cancel, other_command, CommandRecord, command_record_eq, Snapshot, Transition, ErrorKind,
  invalid_identity, invalid_frame, bad_transition, terminal, bad_revision, bad_fence, bad_sequence,
  command_conflict, invalid_timer, invalid_workflow, Error, state_error, normalize_ready_at,
  WorkflowState,
}
use keelith.Continuation.Workflow.{valid_workflow, workflow_successor}
pub mod Frames
pub mod Steps
pub mod Validity
pub mod Laws
pub mod Digest

-- The transitions of an executor.
unfoldable pub allowed_move : Status → Status → Bool
allowed_move accepted running = true
allowed_move accepted failed = true
allowed_move accepted expired = true
allowed_move running running = true
allowed_move running waiting = true
allowed_move running suspended = true
allowed_move running completed = true
allowed_move running failed = true
allowed_move running expired = true
allowed_move waiting failed = true
allowed_move waiting expired = true
allowed_move suspended accepted = true
allowed_move suspended running = true
allowed_move suspended failed = true
allowed_move suspended expired = true
allowed_move cancel_requested cancel_requested = true
allowed_move cancel_requested canceled = true
allowed_move cancel_requested failed = true
allowed_move cancel_requested expired = true
allowed_move _ _ = false

unfoldable pub allowed_signal : Status → Status → Bool
allowed_signal waiting accepted = true
allowed_signal _ _ = false

unfoldable pub allowed_cancel : Status → Status → Bool
allowed_cancel accepted cancel_requested = true
allowed_cancel running cancel_requested = true
allowed_cancel waiting cancel_requested = true
allowed_cancel suspended cancel_requested = true
allowed_cancel _ _ = false

unfoldable pub allowed_transition : Status → Status → CommandKind → Bool
unfolding allowed_move allowed_signal allowed_cancel
allowed_transition from to command_signal = allowed_signal from to
allowed_transition from to command_cancel = allowed_cancel from to
allowed_transition from to no_command = allowed_move from to
allowed_transition from to (other_command _) = false

abbrev pub is_recorded_kind : CommandKind → Bool
is_recorded_kind command_signal = true
is_recorded_kind command_cancel = true
is_recorded_kind _ = false

abbrev pub is_command : CommandKind → Bool
is_command no_command = false
is_command _ = true

-- The revision-one clause of validateSnapshot.
unfoldable pub initial_frames : ℕ → List Frame → Bool
initial_frames sequence [] = sequence == 0
initial_frames sequence (f ∷ []) = sequence == 1 && (f.sequence == 1 && is_frame_accepted f.kind)
initial_frames sequence (_ ∷ _ ∷ _) = false

unfoldable pub bad_initial : Snapshot → Bool
unfolding initial_frames
bad_initial s =
    not (is_accepted s.status)
    || (not (s.fence == 0)
        || (not (s.frame_floor == 1)
            || (not (length s.commands == 0) || not (initial_frames s.sequence s.frames))))

-- The bounds of the retained frames.
unfoldable pub bad_window : Snapshot → Bool
bad_window s =
    s.frame_floor == 0
    || (ltb s.sequence s.frame_floor && not (s.frame_floor == add_u64 s.sequence 1)
        || not (add_u64 (sub_u64 s.sequence s.frame_floor) 1 == length s.frames))

-- The loop over the frames, from an index on.
unfoldable pub frames_ok : ℕ → ℕ → List Frame → Bool
frames_ok floor index [] = true
frames_ok floor index (f ∷ fs) =
    f.sequence == add_u64 floor index
    && (valid_kind f.kind
        && (not (is_frame_accepted f.kind && not (f.sequence == 1))
            && (leb (length f.payload) max_payload_bytes && frames_ok floor (suc index) fs)))

unfoldable pub commands_ok : Map CommandRecord → Bool
commands_ok [] = true
commands_ok ((id, record_of) ∷ m) =
    valid_identity id && (is_recorded_kind record_of.kind && commands_ok m)

abbrev pub bad_ready_at : Snapshot → Bool
bad_ready_at s =
    not (s.ready_at == 0)
    && (not (is_suspended s.status) || not (s.ready_at == normalize_ready_at s.ready_at))

abbrev pub fault : Snapshot → ErrorKind → Error
fault s kind = state_error kind s.status s.status

unfoldable pub validate_snapshot : Snapshot → Result Error (Unit {0})
unfolding bad_initial bad_window
validate_snapshot s = do
  reject_if
      (not (valid_identity s.call_id)
        || (not (valid_operation s.operation) || not (valid_status s.status)))
      (fault s invalid_identity)
  require (valid_workflow s.workflow) (fault s invalid_workflow)
  reject_if (bad_ready_at s) (fault s invalid_timer)
  reject_if (s.revision == 0 || bad_window s) (fault s bad_revision)
  reject_if (s.revision == 1 && bad_initial s) (fault s bad_revision)
  require (frames_ok s.frame_floor 0 s.frames) (fault s bad_sequence)
  require (commands_ok s.commands) (fault s invalid_identity)

-- binary.BigEndian.PutUint64, the low `n` bytes of a number.
unfoldable pub big_endian : ℕ → ℕ → Text
big_endian zero v = []
big_endian (suc n) v = (v / 256 ^ n % 256) ∷ big_endian n v

-- writeDigestPart
unfoldable pub digest_part : Text → Text
unfolding big_endian
digest_part value = big_endian 8 (length value) ++ value

unfoldable pub digest_frames : List Frame → Text
unfolding digest_part
digest_frames [] = []
digest_frames (f ∷ fs) =
    digest_part (kind_text f.kind) ++ (digest_part f.payload ++ digest_frames fs)

-- What commandDigest hashes.
unfoldable pub digest_input : List Frame → Text
unfolding digest_frames
digest_input frames = digest_part (codes "continuation-command-v1") ++ digest_frames frames

-- The loop that gives sequences to the new frames: the last sequence and the frames.
unfoldable pub append_frames : (ErrorKind → Error) → ℕ → List Frame → Result Error (ℕ × List Frame)
append_frames fail sequence [] = ok (sequence, [])
append_frames fail sequence (f ∷ fs) = do
  require (f.sequence == 0) (fail bad_sequence)
  reject_if
      (not (valid_kind f.kind)
        || (is_frame_accepted f.kind || ltb max_payload_bytes (length f.payload)))
      (fail invalid_frame)
  reject_if (sequence == max_u64) (fail bad_sequence)
  let next = add_u64 sequence 1
  rest ← append_frames fail next fs
  ok (rest.0, record f { sequence = next } ∷ rest.1)

-- A zero fence keeps the current one.
abbrev pub next_fence : Snapshot → Transition → ℕ
next_fence s t = if t.fence == 0 then s.fence else t.fence

abbrev pub next_workflow : Option WorkflowState → Option WorkflowState → Option WorkflowState
next_workflow current none = current
next_workflow current (some w) = some w

abbrev pub next_ready_at : Transition → ℕ
next_ready_at t = if is_suspended t.status then normalize_ready_at t.ready_at else 0

abbrev pub bad_request_timer : Transition → Bool
bad_request_timer t =
    t.timer && t.ready_at == 0 || not (t.ready_at == 0) && not (is_suspended t.status)

unfoldable pub workflow_request : Option WorkflowState → Option WorkflowState → Bool
workflow_request current none = true
workflow_request current (some next) = workflow_successor current next

module _ (sha256 : Text → Text) where
  abbrev pub command_record : Transition → CommandRecord
  command_record t = record { kind = t.command; digest = sha256 (digest_input t.frames) }

  abbrev pub next_commands : Snapshot → Transition → Map CommandRecord
  next_commands s t =
      if is_command t.command then insert t.command_id (command_record t) s.commands else s.commands

  -- The snapshot that Apply returns, of the last sequence and the frames appended.
  abbrev pub successor : Snapshot → Transition → ℕ × List Frame → Snapshot
  successor s t appended = record s {
    status = t.status;
    ready_at = next_ready_at t;
    revision = add_u64 s.revision 1;
    fence = next_fence s t;
    sequence = appended.0;
    frames = s.frames ++ appended.1;
    commands = next_commands s t;
    workflow = next_workflow s.workflow t.workflow;
  }

  -- A command that is recorded already: true if it is the same one.
  unfoldable pub repeated :
      (ErrorKind → Error) → Option CommandRecord → Transition → Result Error Bool
  repeated fail none t = ok false
  repeated fail (some previous) t =
      if command_record_eq previous (command_record t) then ok true else err (fail command_conflict)

  unfoldable pub known_command : (ErrorKind → Error) → Snapshot → Transition → Result Error Bool
  unfolding repeated
  known_command fail s t =
      if is_command t.command
      then require (valid_identity t.command_id) (fail invalid_identity)
        >> repeated fail (lookup t.command_id s.commands) t
      else ok false

  -- Apply from the terminal test on.
  unfoldable pub advance : (ErrorKind → Error) → Snapshot → Transition → Result Error Snapshot
  unfolding append_frames
  advance fail s t = do
    reject_if (is_terminal s.status) (fail terminal)
    require (allowed_transition s.status t.status t.command) (fail bad_transition)
    reject_if (s.revision == max_u64) (fail bad_revision)
    reject_if (ltb (next_fence s t) s.fence || is_running t.status && next_fence s t == 0)
        (fail bad_fence)
    appended ← append_frames fail s.sequence t.frames
    ok (successor s t appended)

  unfoldable pub apply : Snapshot → Transition → Result Error Snapshot
  apply s t = do
    validate_snapshot s
    require (valid_status t.status) (state_error bad_transition s.status t.status)
    reject_if (bad_request_timer t) (state_error invalid_timer s.status t.status)
    require (workflow_request s.workflow t.workflow)
        (state_error invalid_workflow s.status t.status)
    duplicate ← known_command (λ kind. state_error kind s.status t.status) s t
    if duplicate then ok s else advance (λ kind. state_error kind s.status t.status) s t
