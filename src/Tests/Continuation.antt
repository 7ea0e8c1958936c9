-- ===== src/Tests/Continuation.antt =====
-- programmable/continuation: one call from its start to a signal and a pruning.
use keelith.Prelude.{ℕ, true, [], ◌∷◌, none, ◌≡◌, refl, ◌⊎◌, arith}
use keelith.Prelude.Text.{Text, codes, text_eq}
use keelith.Prelude.Maps.{lookup, insert}
use keelith.Prelude.Results.{ok, is_ok}
use keelith.Continuation.Identity.{valid_identity, valid_operation}
use keelith.Continuation.Model.{
  accepted, running, waiting, canceled, is_terminal, valid_status, frame_signal, frame_event,
  valid_kind, kind_text, Frame, command_record_eq, Snapshot, Transition, normalize_ready_at,
  new_snapshot, move, signal, cancel,
}
use keelith.Continuation.Workflow.{valid_workflow}
use keelith.Continuation.Apply.{
  allowed_transition, bad_initial, bad_window, frames_ok, commands_ok, validate_snapshot,
  append_frames, workflow_request, command_record, repeated, known_command, advance, apply,
  digest_input,
}
use keelith.Continuation.Apply.Steps.{Repeats}
use keelith.Continuation.Apply.Validity.{InRange, apply-valid}
use keelith.Continuation.Apply.Laws.{Extends, apply-Extends, terminal_absorbs, apply_idempotent}
use keelith.Continuation.Apply.Digest.{covered, digest_input_injective}
use keelith.Continuation.Retention.{prune_snapshot}
use keelith.Continuation.Retention.Laws.{prune_snapshot-retained, prune_snapshot-total}

-- A stand-in for the hash.
abbrev pub plain_hash : Text → Text
plain_hash s = s

abbrev pub fresh : Snapshot
fresh = record {
  call_id = codes "c1";
  operation = codes "/calls/Run";
  status = accepted;
  ready_at = 0;
  revision = 1;
  fence = 0;
  sequence = 0;
  frame_floor = 1;
  frames = [];
  commands = [];
  workflow = none;
}

fresh_is_new : new_snapshot (codes "c1") (codes "/calls/Run") ≡ ok fresh
unfolding new_snapshot valid_identity valid_operation
fresh_is_new = refl

abbrev pub event : ℕ → Frame
event n = record { sequence = n; kind = frame_event; payload = codes "x" }

abbrev start : Transition
start = move running 1 (event 0 ∷ [])

abbrev pub started : Snapshot
started = record fresh {
  status = running;
  revision = 2;
  fence = 1;
  sequence = 1;
  frames = event 1 ∷ [];
}

pub fresh-InRange : InRange fresh
fresh-InRange = omega arith

pub started-InRange : InRange started
started-InRange = omega arith

fresh-start : apply plain_hash fresh start ≡ ok started
unfolding apply validate_snapshot valid_identity valid_operation valid_status valid_workflow
    bad_initial bad_window frames_ok commands_ok workflow_request known_command advance
    append_frames is_terminal allowed_transition normalize_ready_at valid_kind
fresh-start = refl

apply-valid_example : (validate_snapshot started ≡ ok tt) × InRange started
apply-valid_example =
    apply-valid plain_hash fresh start started fresh-InRange (omega arith) fresh-start

apply-Extends_example : Repeats plain_hash fresh start started ⊎ Extends fresh start started
apply-Extends_example = apply-Extends plain_hash fresh start started fresh-InRange fresh-start

abbrev stop : Transition
stop = cancel (codes "k1") []

abbrev finished : Snapshot
finished = record started {
  status = canceled;
  revision = 4;
  commands = (codes "k1", command_record plain_hash stop) ∷ [];
}

finished-stop : apply plain_hash finished stop ≡ ok finished
unfolding apply validate_snapshot valid_identity valid_operation valid_status valid_workflow
    bad_initial bad_window frames_ok commands_ok workflow_request known_command repeated
    command_record_eq advance append_frames is_terminal allowed_transition normalize_ready_at
    valid_kind lookup insert text_eq digest_input kind_text
finished-stop = refl

terminal_absorbs_example : ◌≡◌ {A = Snapshot} finished finished
unfolding is_terminal
terminal_absorbs_example = terminal_absorbs plain_hash finished stop finished refl finished-stop

abbrev pub awaiting : Snapshot
awaiting = record started { status = waiting; revision = 3 }

abbrev pub wake : Transition
wake = signal (codes "k2") (record { sequence = 0; kind = frame_signal; payload = codes "go" } ∷ [])

abbrev pub woken : Snapshot
woken = record awaiting {
  status = accepted;
  revision = 4;
  sequence = 2;
  frames = event 1 ∷ record { sequence = 2; kind = frame_signal; payload = codes "go" } ∷ [];
  commands = (codes "k2", command_record plain_hash wake) ∷ [];
}

pub awaiting-InRange : InRange awaiting
awaiting-InRange = omega arith

pub awaiting-wake : apply plain_hash awaiting wake ≡ ok woken
unfolding apply validate_snapshot valid_identity valid_operation valid_status valid_workflow
    bad_initial bad_window frames_ok commands_ok workflow_request known_command repeated
    command_record_eq advance append_frames is_terminal allowed_transition normalize_ready_at
    valid_kind lookup insert text_eq digest_input kind_text
awaiting-wake = refl

apply_idempotent_example : apply plain_hash woken wake ≡ ok woken
apply_idempotent_example =
    apply_idempotent plain_hash awaiting wake woken awaiting-InRange (omega arith) refl refl
      awaiting-wake

digest_input_injective_example : covered (event 1 ∷ []) ≡ covered (event 2 ∷ [])
unfolding kind_text digest_input
digest_input_injective_example =
    digest_input_injective (event 1 ∷ []) (event 2 ∷ []) (omega arith) (omega arith) refl

abbrev long : Snapshot
long = record finished { sequence = 3; frames = event 1 ∷ event 2 ∷ event 3 ∷ [] }

long-InRange : InRange long
long-InRange = omega arith

abbrev short : Snapshot
short = record long { frame_floor = 3; frames = event 3 ∷ [] }

long-prune : prune_snapshot long 3 ≡ ok short
unfolding prune_snapshot apply validate_snapshot valid_identity valid_operation valid_status
    valid_workflow bad_initial bad_window frames_ok commands_ok workflow_request known_command
    repeated command_record_eq advance append_frames is_terminal allowed_transition
    normalize_ready_at valid_kind lookup insert text_eq digest_input kind_text
long-prune = refl

prune_snapshot-retained_example : short ≡ record long { frame_floor = 3; frames = event 3 ∷ [] }
prune_snapshot-retained_example = prune_snapshot-retained long 3 short long-InRange long-prune

long_valid : validate_snapshot long ≡ ok tt
unfolding apply validate_snapshot valid_identity valid_operation valid_status valid_workflow
    bad_initial bad_window frames_ok commands_ok workflow_request known_command repeated
    command_record_eq advance append_frames is_terminal allowed_transition normalize_ready_at
    valid_kind lookup insert text_eq digest_input kind_text
long_valid = refl

prune_snapshot-total_example : is_ok (prune_snapshot long 4) ≡ true
prune_snapshot-total_example =
    prune_snapshot-total long 4 long-InRange (omega arith) long_valid (omega arith) (omega arith)
      (omega arith)
