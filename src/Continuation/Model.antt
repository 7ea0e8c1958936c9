-- ===== src/Continuation/Model.antt =====
-- programmable/continuation/model.go, decision.go, input.go, timer.go and store.go: the data of a
-- continuable call. A copy of a frame or a snapshot is the value itself. A time is the number of
-- nanoseconds since Go's zero time, so that 0 is the zero time.
use keelith.Prelude.{
  ℕ, ◌+◌, ◌-◌, ◌%◌, ◌==◌, ltb, not, Bool, true, false, ◌&&◌, ◌||◌, List, [], ◌∷◌, length,
  if◌then◌else◌, Option, none, some,
}
use keelith.Prelude.Text.{Text, codes, text_eq}
use keelith.Prelude.Maps.{Map}
use keelith.Prelude.Results.{Result, ok, reject_if, require, ◌>>◌, ◌>>=◌}
use keelith.Continuation.Identity.{valid_identity, valid_operation}

-- A string type with named constants: `other_status` is any other string.
pub data Status : Type 0 where
  accepted running waiting suspended cancel_requested : Status
  completed failed canceled expired : Status
  other_status : Text → Status

unfoldable pub is_terminal : Status → Bool
is_terminal completed = true
is_terminal failed = true
is_terminal canceled = true
is_terminal expired = true
is_terminal _ = false

unfoldable pub valid_status : Status → Bool
valid_status (other_status _) = false
valid_status _ = true

abbrev pub is_suspended : Status → Bool
is_suspended suspended = true
is_suspended _ = false

abbrev pub is_running : Status → Bool
is_running running = true
is_running _ = false

abbrev pub is_accepted : Status → Bool
is_accepted accepted = true
is_accepted _ = false

abbrev pub is_expired : Status → Bool
is_expired expired = true
is_expired _ = false

pub data FrameKind : Type 0 where
  frame_accepted frame_event frame_waiting frame_signal frame_suspended : FrameKind
  frame_cancel_requested frame_completed frame_failed frame_canceled : FrameKind
  frame_expired frame_workflow_child : FrameKind
  other_frame : Text → FrameKind

unfoldable pub valid_kind : FrameKind → Bool
valid_kind (other_frame _) = false
valid_kind _ = true

abbrev pub is_frame_accepted : FrameKind → Bool
is_frame_accepted frame_accepted = true
is_frame_accepted _ = false

-- The string of a kind.
unfoldable pub kind_text : FrameKind → Text
kind_text frame_accepted = codes "accepted"
kind_text frame_event = codes "event"
kind_text frame_waiting = codes "waiting"
kind_text frame_signal = codes "signal"
kind_text frame_suspended = codes "suspended"
kind_text frame_cancel_requested = codes "cancel_requested"
kind_text frame_completed = codes "completed"
kind_text frame_failed = codes "failed"
kind_text frame_canceled = codes "canceled"
kind_text frame_expired = codes "expired"
kind_text frame_workflow_child = codes "workflow_child"
kind_text (other_frame s) = s

abbrev pub max_payload_bytes : ℕ
max_payload_bytes = 1048576

pub record Frame : Type 0 where
  pub sequence : ℕ  -- uint64
  pub kind : FrameKind
  pub payload : Text

-- The command of a transition: no_command is the empty string.
pub data CommandKind : Type 0 where
  no_command command_signal command_cancel : CommandKind
  other_command : Text → CommandKind

unfoldable pub command_kind_eq : CommandKind → CommandKind → Bool
command_kind_eq no_command no_command = true
command_kind_eq command_signal command_signal = true
command_kind_eq command_cancel command_cancel = true
command_kind_eq (other_command s) (other_command t) = text_eq s t
command_kind_eq _ _ = false

pub record CommandRecord : Type 0 where
  pub kind : CommandKind
  pub digest : Text

unfoldable pub command_record_eq : CommandRecord → CommandRecord → Bool
unfolding command_kind_eq
command_record_eq r q = command_kind_eq r.kind q.kind && text_eq r.digest q.digest

pub data NodeKind : Type 0 where
  node_machine node_timer node_child node_join : NodeKind
  other_node_kind : Text → NodeKind

pub data NodeStatus : Type 0 where
  node_pending node_running node_waiting node_succeeded node_failed node_skipped : NodeStatus
  other_node_status : Text → NodeStatus

pub record NodeState : Type 0 where
  pub id : Text
  pub kind : NodeKind
  pub status : NodeStatus
  pub attempt : ℕ  -- uint32
  pub child_call_id : Text
  pub ready_at : ℕ
  pub failure_class : Text

pub record WorkflowState : Type 0 where
  pub version : Text
  pub fingerprint : Text
  pub started_at : ℕ
  pub nodes : Map NodeState

pub record Snapshot : Type 0 where
  pub call_id : Text
  pub operation : Text
  pub status : Status
  pub ready_at : ℕ
  pub revision : ℕ  -- uint64
  pub fence : ℕ  -- uint64
  pub sequence : ℕ  -- uint64
  pub frame_floor : ℕ  -- uint64
  pub frames : List Frame
  pub commands : Map CommandRecord
  pub workflow : Option WorkflowState

pub record Transition : Type 0 where
  pub status : Status
  pub fence : ℕ  -- uint64
  pub frames : List Frame
  pub ready_at : ℕ
  pub timer : Bool
  pub workflow : Option WorkflowState
  pub command_id : Text
  pub command : CommandKind

-- The stable categories of errors, those that StateError wraps first.
pub data ErrorKind : Type 0 where
  invalid_identity invalid_frame bad_transition terminal bad_revision bad_fence : ErrorKind
  bad_sequence command_conflict invalid_timer invalid_workflow : ErrorKind
  invalid_store not_found already_exists conflict stale_fence not_ready : ErrorKind
  lease_held lease_lost invalid_retention : ErrorKind

-- `plain` leaves out the text that fmt.Errorf adds; `cause` is what context.Cause returned.
pub data Error : Type 0 where
  state_error : ErrorKind → Status → Status → Error
  plain : ErrorKind → Error
  timer_not_ready : ℕ → Error
  cause : ℕ → Error

unfoldable pub new_frame : FrameKind → Text → Result Error Frame
unfolding valid_kind
new_frame k payload = do
  reject_if (not (valid_kind k) || ltb max_payload_bytes (length payload)) (plain invalid_frame)
  ok (record { sequence = 0; kind = k; payload = payload })

unfoldable pub new_snapshot : Text → Text → Result Error Snapshot
new_snapshot call_id operation = do
  reject_if (not (valid_identity call_id) || not (valid_operation operation))
      (plain invalid_identity)
  ok (record {
    call_id = call_id;
    operation = operation;
    status = accepted;
    ready_at = 0;
    revision = 1;
    fence = 0;
    sequence = 0;
    frame_floor = 1;
    frames = [];
    commands = [];
    workflow = none;
  })

unfoldable pub new_snapshot_with_input : Text → Text → Text → Result Error Snapshot
unfolding new_snapshot new_frame
new_snapshot_with_input call_id operation input = do
  snapshot ← new_snapshot call_id operation
  frame ← new_frame frame_accepted input
  ok (record snapshot { sequence = 1; frames = record frame { sequence = 1 } ∷ [] })

-- Input: none where Go returns nil.
unfoldable pub input : List Frame → Option Text
input [] = none
input (f ∷ _) =
    if not (f.sequence == 1) || not (is_frame_accepted f.kind) then none else some f.payload

-- normalizeReadyAt: up to the next microsecond.
unfoldable pub normalize_ready_at : ℕ → ℕ
normalize_ready_at t =
    if t == 0
    then 0
    else let truncated = t - t % 1000 in if truncated == t then t else truncated + 1000

unfoldable pub timer_due : Snapshot → ℕ → Bool
timer_due s now = s.ready_at == 0 || not (ltb now s.ready_at)

-- TimerNotReady
unfoldable pub timer_not_ready_error : Snapshot → ℕ → Result Error (Unit {0})
unfolding timer_due
timer_not_ready_error s now = require (timer_due s now) (timer_not_ready s.ready_at)

abbrev pub move : Status → ℕ → List Frame → Transition
move status fence frames = record {
  status = status;
  fence = fence;
  frames = frames;
  ready_at = 0;
  timer = false;
  workflow = none;
  command_id = [];
  command = no_command;
}

-- Continue
abbrev pub continue_with : List Frame → Transition
continue_with frames = move running 0 frames

abbrev pub signal : Text → List Frame → Transition
signal id frames = record {
  status = accepted;
  fence = 0;
  frames = frames;
  ready_at = 0;
  timer = false;
  workflow = none;
  command_id = id;
  command = command_signal;
}

abbrev pub cancel : Text → List Frame → Transition
cancel id frames = record {
  status = cancel_requested;
  fence = 0;
  frames = frames;
  ready_at = 0;
  timer = false;
  workflow = none;
  command_id = id;
  command = command_cancel;
}

unfoldable pub sleep_until : ℕ → List Frame → Transition
sleep_until ready_at frames = record {
  status = suspended;
  fence = 0;
  frames = frames;
  ready_at = normalize_ready_at ready_at;
  timer = true;
  workflow = none;
  command_id = [];
  command = no_command;
}
