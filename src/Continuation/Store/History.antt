-- ===== src/Continuation/Store/History.antt =====
-- Every history of calls keeps the store valid (programmable/continuation/memory).
use keelith.Prelude.{ℕ, List, [], ◌∷◌, All}
use keelith.Prelude.Text.{Text}
use keelith.Prelude.Contexts.{Context}
use keelith.Continuation.Store.{Store, new_store}
use keelith.Continuation.Store.Calls.{create, transition, submit_signal, request_cancel}
use keelith.Continuation.Store.Leases.{claim, renew, release}
use keelith.Continuation.Store.Admin.{prune_frames, expire, delete_expired}
use keelith.Continuation.Store.Validity.{IsValid, new_store-IsValid}
use keelith.Continuation.Store.Steps.{
  Operation, creates, acquires, transitions, signals, cancels, claims, renews, releases, prunes,
  expires_call, deletes, Call, after, run, Given, settle-cases,
}
use keelith.Continuation.Store.StepsValid.{
  create-keeps, transition-keeps, prune_frames-keeps, acquire-keeps,
}
use keelith.Continuation.Store.LeasesValid.{
  submit_signal-keeps, request_cancel-keeps, claim-keeps, renew-keeps, release-keeps, expire-keeps,
  delete_expired-keeps,
}

-- Any call, successful or not, that is given valid snapshots keeps the store valid: each record
-- passes validateSnapshot, has uint64 counters and stands under its call's identity, and each
-- lease names a recorded call with that call's current revision and fence.
pub after-IsValid :
    (sha256 : Text → Text) (now : ℕ) (ctx : Context) (op : Operation) (s : Store)
    → Given op
    → IsValid s
    → IsValid (after sha256 now ctx op s)
unfolding after
after-IsValid h now ctx (creates c) s g v =
    settle-cases IsValid s (create ctx c s) v (λ s' a e. create-keeps ctx c s s' a g v e)
after-IsValid h now ctx (acquires id revision) s g v = acquire-keeps h now ctx id revision s v
after-IsValid h now ctx (transitions r) s g v =
    settle-cases IsValid s (transition now ctx r s) v
      (λ s' a e. transition-keeps now ctx r s s' a g v e)
after-IsValid h now ctx (signals r) s g v =
    settle-cases IsValid s (submit_signal h ctx r s) v
      (λ s' a e. submit_signal-keeps h ctx r s s' a v e)
after-IsValid h now ctx (cancels r) s g v =
    settle-cases IsValid s (request_cancel h ctx r s) v
      (λ s' a e. request_cancel-keeps h ctx r s s' a v e)
after-IsValid h now ctx (claims r) s g v =
    settle-cases IsValid s (claim h now ctx r s) v (λ s' a e. claim-keeps h now ctx r s s' a v e)
after-IsValid h now ctx (renews r) s g v =
    settle-cases IsValid s (renew now ctx r s) v (λ s' a e. renew-keeps now ctx r s s' a v e)
after-IsValid h now ctx (releases r) s g v =
    settle-cases IsValid s (release ctx r s) v (λ s' a e. release-keeps ctx r s s' a v e)
after-IsValid h now ctx (prunes id floor) s g v =
    settle-cases IsValid s (prune_frames ctx id floor s) v
      (λ s' a e. prune_frames-keeps ctx id floor s s' a v e)
after-IsValid h now ctx (expires_call r) s g v =
    settle-cases IsValid s (expire h ctx r s) v (λ s' a e. expire-keeps h ctx r s s' a v e)
after-IsValid h now ctx (deletes before limit) s g v =
    settle-cases IsValid s (delete_expired ctx before limit s) v
      (λ s' n e. delete_expired-keeps ctx before limit s s' n v e)

run_from-IsValid :
    (sha256 : Text → Text) (cs : List Call) (s : Store)
    → All (λ (c : Call). Given c.operation) cs
    → IsValid s
    → IsValid (run sha256 cs s)
unfolding run
run_from-IsValid h [] s g v = v
run_from-IsValid h (c ∷ cs) s g v =
    run_from-IsValid h cs (after h c.now c.ctx c.operation s) g.1
      (after-IsValid h c.now c.ctx c.operation s g.0 v)

-- After every history of calls on a new store that are given valid snapshots, the store is valid:
-- each record passes validateSnapshot, has uint64 counters and stands under its call's identity,
-- and each lease names a recorded call with that call's current revision and fence.
pub run-IsValid :
    (sha256 : Text → Text) (cs : List Call)
    → All (λ (c : Call). Given c.operation) cs
    → IsValid (run sha256 cs new_store)
run-IsValid h cs g = run_from-IsValid h cs new_store g new_store-IsValid
