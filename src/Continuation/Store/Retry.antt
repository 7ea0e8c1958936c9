-- ===== src/Continuation/Store/Retry.antt =====
-- Commands can be retried (programmable/continuation/memory/store.go).
use keelith.Prelude.{
  ◌<◌, true, false, [], ◌∷◌, none, some, ◌≡◌, refl, sym, ap, ◌∙◌, ◌≢◌, inl, inr, arith,
  Option-cases,
}
use keelith.Prelude.Text.{Text, is_empty}
use keelith.Prelude.Maps.{lookup, insert, delete, lookup-insert_self}
use keelith.Prelude.Words.{u64_mod}
use keelith.Prelude.Results.{ok, Result-cases}
use keelith.Prelude.Contexts.{Context, live}
use keelith.Continuation.Model.{
  frame_signal, frame_cancel_requested, Snapshot, Transition, new_frame, signal, cancel,
}
use keelith.Continuation.Apply.{is_command, apply}
use keelith.Continuation.Store.{Store, CommandRequest}
use keelith.Continuation.Store.Calls.{run_command, submit_signal, request_cancel}
use keelith.Continuation.Store.Takeover.{Sound}
use keelith.Continuation.Apply.Laws.{apply-Extends}
use keelith.Continuation.Apply.Laws.{apply_idempotent}
use keelith.Continuation.Store.Validity.{IsValid}

-- The store after a successful command holds the snapshot that it returned.
run_command-stored :
    (sha256 : Text → Text) (ctx : Context) (r : CommandRequest) (t : Transition) (s s' : Store)
    (a : Snapshot)
    → t.fence < u64_mod
    → IsValid s
    → run_command sha256 ctx r t s ≡ ok (s', a)
    → (lookup r.call_id s'.records ≡ some a)
      × ((c : Snapshot) × Sound c × (apply sha256 c t ≡ ok a))
      × (is_empty r.call_id ≡ false)
      × (r.expected_revision ≢ 0)
unfolding run_command
run_command-stored sha256 ctx r t s s' a f v e = elim (Option-cases (lookup r.call_id s.records)) [
  | inl missing ↦ absurd (ground arith)
  | inr (c, there) ↦ elim (Result-cases (apply sha256 c t)) [
    | inl (next, applied) ↦
        let (sound, keyed) = v.recorded r.call_id c there in
        elim (apply-Extends sha256 c t next sound.in_range applied) [
          | inl same ↦
              let still : (s' ≡ s) × (a ≡ c) = ground (arith, same.unchanged) in
              (
                rw (still.0, still.1) there,
                (c, sound, applied ∙ ap ok (same.unchanged ∙ sym still.1)),
                ground arith,
                ground arith,
              )
          | inr moved ↦
              let made : s' ≡ record s {
                records = insert r.call_id next s.records;
                leases = delete r.call_id s.leases;
              } =
                ground (arith, moved.revised) in
              let given : a ≡ next = ground (arith, moved.revised) in
              (
                rw (made, given) (lookup-insert_self r.call_id next s.records),
                (c, sound, applied ∙ ap ok (sym given)),
                ground arith,
                ground arith,
              )
        ]
    | inr (x, stops) ↦ absurd (ground arith)
  ]
]

run_command_idempotent :
    (sha256 : Text → Text) (ctx : Context) (r : CommandRequest) (t : Transition) (s s' : Store)
    (a : Snapshot)
    → t.fence < u64_mod
    → is_command t.command ≡ true
    → t.workflow ≡ none
    → IsValid s
    → run_command sha256 ctx r t s ≡ ok (s', a)
    → run_command sha256 live r t s' ≡ ok (s', a)
unfolding run_command
run_command_idempotent sha256 ctx r t s s' a f c w v e =
    let (stored, (before, sound, applied), named, positive) =
      run_command-stored sha256 ctx r t s s' a f v e in
    let again : apply sha256 a t ≡ ok a =
      apply_idempotent sha256 before t a sound.in_range f c w applied in
    rw (stored, again, named) (ground arith)

-- SubmitSignal can be retried after its answer was lost: the same request, with its original
-- expected revision, returns the same snapshot and changes nothing, even though the revision has
-- moved on. The store was valid, and the context of the retry is live.
pub submit_signal_idempotent :
    (sha256 : Text → Text) (ctx : Context) (r : CommandRequest) (s s' : Store) (a : Snapshot)
    → IsValid s
    → submit_signal sha256 ctx r s ≡ ok (s', a)
    → submit_signal sha256 live r s' ≡ ok (s', a)
unfolding submit_signal
submit_signal_idempotent sha256 ctx r s s' a v e =
    elim (Result-cases (new_frame frame_signal r.payload)) [
      | inl (f, made) ↦
          rw (made, submit_signal)
            (run_command_idempotent sha256 ctx r (signal r.command_id (f ∷ [])) s s' a (omega arith)
              refl refl v (rw (made, submit_signal) at e))
      | inr (x, stops) ↦ absurd (ground arith)
    ]

-- RequestCancel can be retried in the same way: the same request returns the same snapshot and
-- changes nothing. The store was valid, and the context of the retry is live.
pub request_cancel_idempotent :
    (sha256 : Text → Text) (ctx : Context) (r : CommandRequest) (s s' : Store) (a : Snapshot)
    → IsValid s
    → request_cancel sha256 ctx r s ≡ ok (s', a)
    → request_cancel sha256 live r s' ≡ ok (s', a)
unfolding request_cancel
request_cancel_idempotent sha256 ctx r s s' a v e =
    elim (Result-cases (new_frame frame_cancel_requested r.payload)) [
      | inl (f, made) ↦
          rw (made, request_cancel)
            (run_command_idempotent sha256 ctx r (cancel r.command_id (f ∷ [])) s s' a (omega arith)
              refl refl v (rw (made, request_cancel) at e))
      | inr (x, stops) ↦ absurd (ground arith)
    ]
