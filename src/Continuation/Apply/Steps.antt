-- ===== src/Continuation/Apply/Steps.antt =====
-- What a successful Apply has tested and returned (programmable/continuation/state.go).
use keelith.Prelude.{
  ℕ, ◌≤◌, Bool, true, false, List, Option, none, some, ◌≡◌, refl, ap, ◌∙◌, ◌≢◌, ◌⊎◌, inl, inr,
  arith,
}
use keelith.Prelude.Text.{Text, text_eq_iff, text_eq_refl}
use keelith.Prelude.Maps.{lookup}
use keelith.Prelude.Words.{max_u64}
use keelith.Prelude.Results.{ok, Result-cases}
use keelith.Continuation.Identity.{valid_identity}
use keelith.Continuation.Model.{
  is_terminal, valid_status, is_running, Frame, CommandKind, no_command, command_signal,
  command_cancel, other_command, CommandRecord, command_kind_eq, command_record_eq, Snapshot,
  Transition, ErrorKind, Error, state_error,
}
use keelith.Continuation.Apply.{
  allowed_transition, is_command, validate_snapshot, append_frames, next_fence, bad_request_timer,
  workflow_request, command_record, successor, repeated, known_command, advance, apply,
}

command_kind_eq-eq : (a b : CommandKind) → command_kind_eq a b ≡ true → a ≡ b
unfolding command_kind_eq
command_kind_eq-eq no_command no_command h = refl
command_kind_eq-eq command_signal command_signal h = refl
command_kind_eq-eq command_cancel command_cancel h = refl
command_kind_eq-eq (other_command a) (other_command b) h = ap other_command ((text_eq_iff a b).0 h)
command_kind_eq-eq no_command command_signal h = cc
command_kind_eq-eq no_command command_cancel h = cc
command_kind_eq-eq no_command (other_command b) h = cc
command_kind_eq-eq command_signal no_command h = cc
command_kind_eq-eq command_signal command_cancel h = cc
command_kind_eq-eq command_signal (other_command b) h = cc
command_kind_eq-eq command_cancel no_command h = cc
command_kind_eq-eq command_cancel command_signal h = cc
command_kind_eq-eq command_cancel (other_command b) h = cc
command_kind_eq-eq (other_command a) no_command h = cc
command_kind_eq-eq (other_command a) command_signal h = cc
command_kind_eq-eq (other_command a) command_cancel h = cc

pub command_record_eq-eq : (a b : CommandRecord) → command_record_eq a b ≡ true → a ≡ b
unfolding command_record_eq
command_record_eq-eq a b h =
    ground (arith, command_kind_eq-eq a.kind b.kind, text_eq_iff a.digest b.digest)

command_kind_eq_refl : (a : CommandKind) → command_kind_eq a a ≡ true
unfolding command_kind_eq
command_kind_eq_refl no_command = refl
command_kind_eq_refl command_signal = refl
command_kind_eq_refl command_cancel = refl
command_kind_eq_refl (other_command a) = text_eq_refl a

pub command_record_eq_refl : (a : CommandRecord) → command_record_eq a a ≡ true
unfolding command_record_eq
command_record_eq_refl a = rw (command_kind_eq_refl a.kind, text_eq_refl a.digest)

module _ (sha256 : Text → Text) (s : Snapshot) (t : Transition) (next : Snapshot) where
  -- The tests that a move to another revision has passed.
  pub record Advances (fail : ErrorKind → Error) : Type 0 where
    pub moving : is_terminal s.status ≡ false
    pub allowed : allowed_transition s.status t.status t.command ≡ true
    pub room : s.revision ≢ max_u64
    pub fence_kept : s.fence ≤ next_fence s t
    pub fence_owned : is_running t.status ≡ true → next_fence s t ≢ 0
    pub appended : ℕ × List Frame
    pub runs : append_frames fail s.sequence t.frames ≡ ok appended
    pub result : next ≡ successor sha256 s t appended

  pub advance-Advances :
      (fail : ErrorKind → Error) → advance sha256 fail s t ≡ ok next → Advances fail
  unfolding advance
  advance-Advances fail h = elim (Result-cases (append_frames fail s.sequence t.frames)) [
    | inl (appended, runs) ↦ record {
      moving = ground arith;
      allowed = ground arith;
      room = ground arith;
      fence_kept = ground arith;
      fence_owned = ground arith;
      appended = appended;
      runs = runs;
      result = ground arith;
    }
    | inr (e, stops) ↦ absurd (ground arith)
  ]

  -- A command that was accepted before leaves the snapshot as it is.
  pub record Repeats : Type 0 where
    pub unchanged : next ≡ s
    pub is_a_command : is_command t.command ≡ true
    pub recorded : lookup t.command_id s.commands ≡ some (command_record sha256 t)

  known-Repeats :
      (fail : ErrorKind → Error) (known : Option CommandRecord)
      → lookup t.command_id s.commands ≡ known
      → next ≡ s
      → is_command t.command ≡ true
      → repeated sha256 fail known t ≡ ok true
      → Repeats
  unfolding repeated
  known-Repeats fail none e u c h = absurd (ground arith)
  known-Repeats fail (some previous) e u c h = record {
    unchanged = u;
    is_a_command = c;
    recorded = e ∙ ap some (command_record_eq-eq previous (command_record sha256 t) (ground arith));
  }

  abbrev failing : ErrorKind → Error
  failing kind = state_error kind s.status t.status

  known_command-Repeats : next ≡ s → known_command sha256 failing s t ≡ ok true → Repeats
  unfolding known_command
  known_command-Repeats u h =
      known-Repeats failing (lookup t.command_id s.commands) refl u (ground arith) (ground arith)

  known_command-valid_identity :
      (known : Bool)
      → known_command sha256 failing s t ≡ ok known
      → is_command t.command ≡ true
      → valid_identity t.command_id ≡ true
  unfolding known_command
  known_command-valid_identity known h c = ground arith

  pub record Applies : Type 0 where
    pub was_valid : validate_snapshot s ≡ ok tt
    pub status_ok : valid_status t.status ≡ true
    pub timer_ok : bad_request_timer t ≡ false
    pub workflow_ok : workflow_request s.workflow t.workflow ≡ true
    pub id_ok : is_command t.command ≡ true → valid_identity t.command_id ≡ true
    pub outcome : Repeats ⊎ Advances failing

  pub apply-Applies : apply sha256 s t ≡ ok next → Applies
  unfolding apply
  apply-Applies h = elim (Result-cases (known_command sha256 failing s t)) [
    | inl (true, e) ↦ applied true e (inl (known_command-Repeats (ground arith) e))
    | inl (false, e) ↦ applied false e (inr (advance-Advances failing (ground arith)))
    | inr (e, stops) ↦ absurd (ground arith)
  ]
    where
      applied :
          (known : Bool)
          → known_command sha256 failing s t ≡ ok known
          → Repeats ⊎ Advances failing
          → Applies
      applied known e o = record {
        was_valid = ground arith;
        status_ok = ground arith;
        timer_ok = ground arith;
        workflow_ok = ground arith;
        id_ok = known_command-valid_identity known e;
        outcome = o;
      }
