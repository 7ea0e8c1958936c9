-- ===== src/Tests/Store.antt =====
-- programmable/continuation/memory: claims, commits and commands on one store.
use keelith.Prelude.{◌≤◌, true, false, List, [], ◌∷◌, length, ◌≡◌, refl, ap, arith, All, inr}
use keelith.Prelude.Text.{Text, codes, text_eq}
use keelith.Prelude.Maps.{lookup, insert, delete}
use keelith.Prelude.Results.{ok, err, is_ok}
use keelith.Prelude.Contexts.{live}
use keelith.Prelude.Int.{pos}
use keelith.Continuation.Identity.{valid_identity, valid_operation, valid_lease_owner}
use keelith.Continuation.Model.{
  running, waiting, cancel_requested, is_terminal, valid_status, frame_cancel_requested, valid_kind,
  kind_text, command_record_eq, Snapshot, lease_held, plain, normalize_ready_at, new_frame,
  timer_due, timer_not_ready_error, cancel,
}
use keelith.Continuation.Workflow.{valid_workflow}
use keelith.Continuation.Apply.{
  allowed_transition, bad_initial, bad_window, frames_ok, commands_ok, validate_snapshot,
  append_frames, workflow_request, command_record, repeated, known_command, advance, apply,
  digest_input,
}
use keelith.Continuation.Store.{
  LeaseRecord, Store, new_store, CommitRequest, CommandRequest, ClaimRequest, Lease, bad_claim,
  initial_snapshot, ready, frame_eq, continues, valid_successor,
}
use keelith.Continuation.Store.Calls.{
  create, take_over, owns, committed, transition, listed, fetch, list_ready, run_command,
  submit_signal, request_cancel,
}
use keelith.Continuation.Store.Leases.{
  granted, new_lease, claimed_store, take_lease, claim_current, claim,
}
use keelith.Continuation.Store.Takeover.{Sound}
use keelith.Prelude.Sort.{sort}
use keelith.Continuation.Store.Validity.{IsValid, new_store-IsValid, put_free}
use keelith.Continuation.Store.Steps.{creates, claims, cancels, Call, after, run}
use keelith.Continuation.Store.History.{run-IsValid}
use keelith.Continuation.Store.LeasesValid.{claim-keeps}
use keelith.Continuation.Store.Fencing.{
  transition-owner, claim-fences_off, claim-excludes, claim_idempotent,
}
use keelith.Continuation.Store.Ready.{Offered, list_ready-Offered, offered_claimable}
use keelith.Continuation.Store.Retry.{submit_signal_idempotent, request_cancel_idempotent}
use keelith.Tests.Continuation.{
  plain_hash, fresh, fresh-InRange, event, awaiting, awaiting-InRange, woken,
}

fresh-Sound : Sound fresh
unfolding apply validate_snapshot valid_identity valid_operation valid_status valid_workflow
    bad_initial bad_window frames_ok commands_ok workflow_request known_command repeated
    command_record_eq advance append_frames is_terminal allowed_transition normalize_ready_at
    valid_kind lookup insert text_eq digest_input kind_text
fresh-Sound = record { valid = refl; in_range = fresh-InRange }

abbrev claim_request : Text → ClaimRequest
claim_request owner = record {
  call_id = codes "c1";
  expected_revision = 1;
  owner_id = owner;
  lease_duration = pos 10;
}

abbrev one_call : Store
one_call = record { records = (codes "c1", fresh) ∷ []; leases = []; expires = [] }

abbrev cancel_request : CommandRequest
cancel_request = record {
  call_id = codes "c1";
  expected_revision = 1;
  command_id = codes "k1";
  payload = codes "stop";
}

abbrev history : List Call
history =
    record { now = 1; ctx = live; operation = creates fresh }
    ∷ record { now = 5; ctx = live; operation = claims (claim_request (codes "w1")) }
    ∷ []

run-IsValid_example : IsValid (run plain_hash history new_store)
run-IsValid_example = run-IsValid plain_hash history (fresh-Sound, (tt, tt))

one_call-IsValid : IsValid one_call
unfolding apply validate_snapshot valid_identity valid_operation valid_status valid_workflow
    bad_initial bad_window frames_ok commands_ok workflow_request known_command repeated
    command_record_eq advance append_frames is_terminal allowed_transition normalize_ready_at
    valid_kind lookup insert text_eq digest_input kind_text run after create initial_snapshot
one_call-IsValid =
    run-IsValid plain_hash (record { now = 1; ctx = live; operation = creates fresh } ∷ [])
      (fresh-Sound, tt)

abbrev owned : Snapshot
owned = record fresh { status = running; revision = 2; fence = 1 }

abbrev held : Store
held =
    claimed_store (codes "c1") owned (new_lease 5 (claim_request (codes "w1")) fresh owned) one_call

abbrev held_lease : LeaseRecord
held_lease = new_lease 5 (claim_request (codes "w1")) fresh owned

abbrev lease : Lease
lease = granted owned held_lease

claimed : claim plain_hash 5 live (claim_request (codes "w1")) one_call ≡ ok (held, lease)
unfolding apply validate_snapshot valid_identity valid_operation valid_status valid_workflow
    bad_initial bad_window frames_ok commands_ok workflow_request known_command repeated
    command_record_eq advance append_frames is_terminal allowed_transition normalize_ready_at
    valid_kind lookup insert text_eq digest_input kind_text claim claim_current take_lease take_over
    bad_claim valid_lease_owner ready timer_due timer_not_ready_error
claimed = refl

abbrev commit : CommitRequest
commit = record {
  expected_revision = 2;
  fence = 1;
  lease_owner = codes "w1";
  expires_at = 0;
  snapshot = record owned { status = waiting; revision = 3; sequence = 1; frames = event 1 ∷ [] };
}

committed_ok : transition 7 live commit held ≡ ok (committed commit held, commit.snapshot)
unfolding apply validate_snapshot valid_identity valid_operation valid_status valid_workflow
    bad_initial bad_window frames_ok commands_ok workflow_request known_command repeated
    command_record_eq advance append_frames is_terminal allowed_transition normalize_ready_at
    valid_kind lookup insert text_eq digest_input kind_text transition owns committed
    valid_successor continues frame_eq
committed_ok = refl

transition-owner_example :
    (commit.lease_owner ≡ held_lease.owner)
    × (commit.expected_revision ≡ held_lease.revision)
    × (commit.fence ≡ held_lease.fence)
unfolding lookup insert text_eq
transition-owner_example =
    transition-owner 7 live commit held (committed commit held) commit.snapshot held_lease refl
      (omega arith) committed_ok

-- The second executor comes when the lease of the first is over.
abbrev second_claim : ClaimRequest
second_claim = record (claim_request (codes "w2")) { expected_revision = 2 }

abbrev owned_again : Snapshot
owned_again = record owned { revision = 3; fence = 2 }

abbrev held_again : Store
held_again =
    claimed_store (codes "c1") owned_again (new_lease 20 second_claim owned owned_again) held

abbrev lease_again : Lease
lease_again = granted owned_again (new_lease 20 second_claim owned owned_again)

claimed_again : claim plain_hash 20 live second_claim held ≡ ok (held_again, lease_again)
unfolding apply validate_snapshot valid_identity valid_operation valid_status valid_workflow
    bad_initial bad_window frames_ok commands_ok workflow_request known_command repeated
    command_record_eq advance append_frames is_terminal allowed_transition normalize_ready_at
    valid_kind lookup insert text_eq digest_input kind_text claim claim_current take_lease take_over
    bad_claim valid_lease_owner ready timer_due timer_not_ready_error
claimed_again = refl

-- Between the claim and the late commit the call is asked to stop, which drops the lease.
abbrev meanwhile : List Call
meanwhile =
    record {
      now = 22;
      ctx = live;
      operation = cancels (record cancel_request { expected_revision = 3 });
    }
    ∷ []

-- The commit of the first owner, without the name of its lease.
abbrev late : CommitRequest
late = record commit { lease_owner = [] }

-- Before the second claim the store takes it.
late_ok : transition 17 live late held ≡ ok (committed late held, late.snapshot)
unfolding apply validate_snapshot valid_identity valid_operation valid_status valid_workflow
    bad_initial bad_window frames_ok commands_ok workflow_request known_command repeated
    command_record_eq advance append_frames is_terminal allowed_transition normalize_ready_at
    valid_kind lookup insert text_eq digest_input kind_text transition owns committed
    valid_successor continues frame_eq
late_ok = refl

held-IsValid : IsValid held
held-IsValid =
    claim-keeps plain_hash 5 live (claim_request (codes "w1")) one_call held lease one_call-IsValid
      claimed

-- After the second claim it is refused, also when no lease is in its way.
claim-fences_off_example :
    is_ok (transition 25 live late (run plain_hash meanwhile held_again)) ≡ false
unfolding lookup text_eq insert
claim-fences_off_example =
    claim-fences_off plain_hash 20 25 live live second_claim meanwhile late held held_again
      lease_again owned held-IsValid refl claimed_again ((tt, refl), tt) refl (inr (refl, refl))

claim-excludes_example :
    claim plain_hash 9 live (claim_request (codes "other")) held ≡ err (plain lease_held)
unfolding lookup text_eq bad_claim valid_identity valid_lease_owner
claim-excludes_example =
    claim-excludes plain_hash 5 9 live (claim_request (codes "w1")) (claim_request (codes "other"))
      one_call held lease fresh one_call-IsValid refl refl claimed refl
      (λ e. absurd (omega (arith, ap length e))) refl (omega arith)

claim_idempotent_example :
    claim plain_hash 9 live (claim_request (codes "w1")) held ≡ ok (held, lease)
unfolding lookup text_eq bad_claim valid_identity valid_lease_owner
claim_idempotent_example =
    claim_idempotent plain_hash 5 9 live (claim_request (codes "w1")) one_call held lease fresh
      one_call-IsValid refl refl claimed refl refl (omega arith)

listing : list_ready 5 live (pos 3) one_call ≡ ok (one_call, fresh ∷ [])
unfolding list_ready listed fetch lookup text_eq ready timer_due sort
listing = refl

list_ready-Offered_example : (one_call ≡ one_call) × (1 ≤ 3) × All (Offered 5 one_call) (fresh ∷ [])
list_ready-Offered_example =
    list_ready-Offered 5 live (pos 3) one_call one_call (fresh ∷ []) listing

fresh_offered : Offered 5 one_call fresh
unfolding lookup text_eq ready timer_due
fresh_offered = record {
  id = codes "c1";
  recorded = refl;
  is_ready = refl;
  is_due = refl;
  is_free = refl;
}

offered_claimable_example :
    is_ok (claim plain_hash 5 live (claim_request (codes "w1")) one_call) ≡ true
unfolding bad_claim valid_identity valid_lease_owner fresh_offered
offered_claimable_example =
    offered_claimable plain_hash 5 one_call fresh (claim_request (codes "w1")) one_call-IsValid
      fresh_offered refl refl refl (omega arith) (omega arith)

abbrev parked : Store
parked = record { records = (codes "c1", awaiting) ∷ []; leases = []; expires = [] }

parked-IsValid : IsValid parked
unfolding apply validate_snapshot valid_identity valid_operation valid_status valid_workflow
    bad_initial bad_window frames_ok commands_ok workflow_request known_command repeated
    command_record_eq advance append_frames is_terminal allowed_transition normalize_ready_at
    valid_kind lookup insert text_eq digest_input kind_text
parked-IsValid =
    put_free new_store-IsValid (codes "c1") awaiting
      (record { valid = refl; in_range = awaiting-InRange }) refl refl

abbrev signal_request : CommandRequest
signal_request = record {
  call_id = codes "c1";
  expected_revision = 3;
  command_id = codes "k2";
  payload = codes "go";
}

abbrev resumed : Store
resumed = record { records = (codes "c1", woken) ∷ []; leases = []; expires = [] }

signalled : submit_signal plain_hash live signal_request parked ≡ ok (resumed, woken)
unfolding apply validate_snapshot valid_identity valid_operation valid_status valid_workflow
    bad_initial bad_window frames_ok commands_ok workflow_request known_command repeated
    command_record_eq advance append_frames is_terminal allowed_transition normalize_ready_at
    valid_kind lookup insert text_eq digest_input kind_text submit_signal run_command new_frame
    delete
signalled = refl

submit_signal_idempotent_example :
    submit_signal plain_hash live signal_request resumed ≡ ok (resumed, woken)
submit_signal_idempotent_example =
    submit_signal_idempotent plain_hash live signal_request parked resumed woken parked-IsValid
      signalled

abbrev canceling : Snapshot
canceling = record fresh {
  status = cancel_requested;
  revision = 2;
  sequence = 1;
  frames = record { sequence = 1; kind = frame_cancel_requested; payload = codes "stop" } ∷ [];
  commands =
      (
        codes "k1",
        command_record plain_hash (
            cancel (codes "k1") (
              record { sequence = 0; kind = frame_cancel_requested; payload = codes "stop" } ∷ [])),
      )
      ∷ [];
}

abbrev canceled_store : Store
canceled_store = record { records = (codes "c1", canceling) ∷ []; leases = []; expires = [] }

cancel_accepted :
    request_cancel plain_hash live cancel_request one_call ≡ ok (canceled_store, canceling)
unfolding apply validate_snapshot valid_identity valid_operation valid_status valid_workflow
    bad_initial bad_window frames_ok commands_ok workflow_request known_command repeated
    command_record_eq advance append_frames is_terminal allowed_transition normalize_ready_at
    valid_kind lookup insert text_eq digest_input kind_text request_cancel run_command new_frame
    delete
cancel_accepted = refl

request_cancel_idempotent_example :
    request_cancel plain_hash live cancel_request canceled_store ≡ ok (canceled_store, canceling)
request_cancel_idempotent_example =
    request_cancel_idempotent plain_hash live cancel_request one_call canceled_store canceling
      one_call-IsValid cancel_accepted
