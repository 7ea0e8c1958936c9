-- ===== src/Continuation/Store/FenceHistory.antt =====
-- Fences over every history of calls (programmable/continuation/memory).
use keelith.Prelude.{
  ℕ, ◌≤◌, ◌==◌, Bool, true, false, List, [], ◌∷◌, some, ◌≡◌, inl, inr, arith, Bool-cases,
  Option-cases, All,
}
use keelith.Prelude.Text.{Text}
use keelith.Prelude.Maps.{lookup, insert}
use keelith.Prelude.Results.{ok, Result-cases}
use keelith.Prelude.Contexts.{Context}
use keelith.Continuation.Model.{
  expired, is_expired, frame_signal, frame_cancel_requested, frame_expired, Frame, Snapshot,
  Transition, new_frame, move, signal, cancel,
}
use keelith.Continuation.Apply.{apply}
use keelith.Continuation.Store.{Store, CommandRequest, ClaimRequest, Lease}
use keelith.Continuation.Store.Calls.{
  create, transition, run_command, submit_signal, request_cancel,
}
use keelith.Continuation.Store.Leases.{claim, renew, release}
use keelith.Continuation.Store.Admin.{ExpireRequest, expire_current, expire, prune_frames}
use keelith.Continuation.Store.Takeover.{Sound}
use keelith.Continuation.Store.Validity.{IsValid}
use keelith.Continuation.Store.Steps.{
  Operation, creates, acquires, transitions, signals, cancels, claims, renews, releases, prunes,
  expires_call, deletes, Call, after, run, Given, settle-cases,
}
use keelith.Continuation.Store.History.{after-IsValid}
use keelith.Continuation.Store.Fences.{AtLeast, put_over-AtLeast, apply-fence, claim-Granted}
use keelith.Continuation.Store.FenceSteps.{
  create-AtLeast, transition-AtLeast, prune_frames-AtLeast, acquire-AtLeast,
}

-- DeleteExpired, after which a call of the same identity may be created anew.
abbrev pub is_deletion : Operation → Bool
is_deletion (deletes before limit) = true
is_deletion _ = false

module _ (id : Text) (n : ℕ) (sha256 : Text → Text) where
  abbrev Low : Store → Type 0
  Low s = AtLeast id n s.records

  run_command-AtLeast :
      (ctx : Context) (r : CommandRequest) (t : Transition) (s s' : Store) (a : Snapshot)
      → IsValid s
      → AtLeast id n s.records
      → run_command sha256 ctx r t s ≡ ok (s', a)
      → AtLeast id n s'.records
  unfolding run_command
  run_command-AtLeast ctx r t s s' a v low e = elim (Option-cases (lookup r.call_id s.records)) [
    | inl missing ↦ absurd (ground arith)
    | inr (c, there) ↦ elim (Result-cases (apply sha256 c t)) [
      | inl (next, applied) ↦
          let f : c.fence ≤ next.fence =
            apply-fence sha256 c t next (v.recorded r.call_id c there).0 applied in
          elim (Bool-cases (next.revision == c.revision)) [
            | inl still ↦ let made : s'.records ≡ s.records = ground arith in rw made low
            | inr moved ↦
                let made : s'.records ≡ insert r.call_id next s.records = ground arith in
                rw made (put_over-AtLeast id n r.call_id c next s.records low there f)
          ]
      | inr (x, stops) ↦ absurd (ground arith)
    ]
  ]

  submit_signal-AtLeast :
      (ctx : Context) (r : CommandRequest) (s s' : Store) (a : Snapshot)
      → IsValid s
      → AtLeast id n s.records
      → submit_signal sha256 ctx r s ≡ ok (s', a)
      → AtLeast id n s'.records
  unfolding submit_signal
  submit_signal-AtLeast ctx r s s' a v low e =
      elim (Result-cases (new_frame frame_signal r.payload)) [
        | inl (f, made) ↦
            run_command-AtLeast ctx r (signal r.command_id (f ∷ [])) s s' a v low
              (rw (made, submit_signal) at e)
        | inr (x, stops) ↦ absurd (ground arith)
      ]

  request_cancel-AtLeast :
      (ctx : Context) (r : CommandRequest) (s s' : Store) (a : Snapshot)
      → IsValid s
      → AtLeast id n s.records
      → request_cancel sha256 ctx r s ≡ ok (s', a)
      → AtLeast id n s'.records
  unfolding request_cancel
  request_cancel-AtLeast ctx r s s' a v low e =
      elim (Result-cases (new_frame frame_cancel_requested r.payload)) [
        | inl (f, made) ↦
            run_command-AtLeast ctx r (cancel r.command_id (f ∷ [])) s s' a v low
              (rw (made, request_cancel) at e)
        | inr (x, stops) ↦ absurd (ground arith)
      ]

  claim-AtLeast :
      (now : ℕ) (ctx : Context) (r : ClaimRequest) (s s' : Store) (a : Lease)
      → IsValid s
      → AtLeast id n s.records
      → claim sha256 now ctx r s ≡ ok (s', a)
      → AtLeast id n s'.records
  unfolding claim
  claim-AtLeast now ctx r s s' a v low e = elim (Option-cases (lookup r.call_id s.records)) [
    | inl missing ↦ absurd (ground arith)
    | inr (c, there) ↦
        elim (claim-Granted sha256 now r c s s' a ctx (v.recorded r.call_id c there).0 there e) [
          | inl (same, given) ↦ rw same low
          | inr (made, f) ↦
              rw made (
                put_over-AtLeast id n r.call_id c a.snapshot s.records low there (omega (arith, f)))
        ]
  ]

  expire_current-AtLeast :
      (r : ExpireRequest) (c : Snapshot) (s s' : Store) (a : Snapshot)
      → Sound c
      → lookup r.call_id s.records ≡ some c
      → AtLeast id n s.records
      → expire_current sha256 r c s ≡ ok (s', a)
      → AtLeast id n s'.records
  unfolding expire_current new_frame
  expire_current-AtLeast r c s s' a sound there low e =
      let f : Frame = record { sequence = 0; kind = frame_expired; payload = [] } in
      let t : Transition = move expired c.fence (f ∷ []) in
      elim (Result-cases (apply sha256 c (move expired c.fence (f ∷ [])))) [
        | inl (next, applied) ↦
            let made : s'.records ≡ insert r.call_id next s.records = ground arith in
            rw made (
              put_over-AtLeast id n r.call_id c next s.records low there
                (apply-fence sha256 c t next sound applied))
        | inr (x, stops) ↦ absurd (ground arith)
      ]

  expire-AtLeast :
      (ctx : Context) (r : ExpireRequest) (s s' : Store) (a : Snapshot)
      → IsValid s
      → AtLeast id n s.records
      → expire sha256 ctx r s ≡ ok (s', a)
      → AtLeast id n s'.records
  unfolding expire
  expire-AtLeast ctx r s s' a v low e = elim (Option-cases (lookup r.call_id s.records)) [
    | inl missing ↦ absurd (ground arith)
    | inr (c, there) ↦ elim (Bool-cases (is_expired c.status)) [
      | inl over ↦ let made : s'.records ≡ s.records = ground arith in rw made low
      | inr open_call ↦
          expire_current-AtLeast r c s s' a (v.recorded r.call_id c there).0 there low
            (ground arith)
    ]
  ]

  -- No call but DeleteExpired, successful or not, removes a call or lowers its fence.
  after-AtLeast :
      (now : ℕ) (ctx : Context) (op : Operation) (s : Store)
      → is_deletion op ≡ false
      → IsValid s
      → AtLeast id n s.records
      → AtLeast id n (after sha256 now ctx op s).records
  unfolding after renew release
  after-AtLeast now ctx (creates c) s d v low =
      settle-cases Low s (create ctx c s) low (λ s' a e. create-AtLeast id n ctx c s s' a low e)
  after-AtLeast now ctx (acquires k revision) s d v low =
      acquire-AtLeast id n sha256 now ctx k revision s v low
  after-AtLeast now ctx (transitions r) s d v low =
      settle-cases Low s (transition now ctx r s) low
        (λ s' a e. transition-AtLeast id n now ctx r s s' a low e)
  after-AtLeast now ctx (signals r) s d v low =
      settle-cases Low s (submit_signal sha256 ctx r s) low
        (λ s' a e. submit_signal-AtLeast ctx r s s' a v low e)
  after-AtLeast now ctx (cancels r) s d v low =
      settle-cases Low s (request_cancel sha256 ctx r s) low
        (λ s' a e. request_cancel-AtLeast ctx r s s' a v low e)
  after-AtLeast now ctx (claims r) s d v low =
      settle-cases Low s (claim sha256 now ctx r s) low
        (λ s' a e. claim-AtLeast now ctx r s s' a v low e)
  after-AtLeast now ctx (renews r) s d v low =
      settle-cases Low s (renew now ctx r s) low
        (λ s' a e. let made : s'.records ≡ s.records = ground arith in rw made low)
  after-AtLeast now ctx (releases r) s d v low =
      settle-cases Low s (release ctx r s) low
        (λ s' a e. let made : s'.records ≡ s.records = ground arith in rw made low)
  after-AtLeast now ctx (prunes k floor) s d v low =
      settle-cases Low s (prune_frames ctx k floor s) low
        (λ s' a e. prune_frames-AtLeast id n ctx k floor s s' a v low e)
  after-AtLeast now ctx (expires_call r) s d v low =
      settle-cases Low s (expire sha256 ctx r s) low (λ s' a e. expire-AtLeast ctx r s s' a v low e)
  after-AtLeast now ctx (deletes before limit) s d v low = cc

  pub run-AtLeast :
      (cs : List Call) (s : Store)
      → All (λ (c : Call). Given c.operation × (is_deletion c.operation ≡ false)) cs
      → IsValid s
      → AtLeast id n s.records
      → AtLeast id n (run sha256 cs s).records
  unfolding run
  run-AtLeast [] s g v low = low
  run-AtLeast (c ∷ cs) s ((given, kept), g) v low =
      run-AtLeast cs (after sha256 c.now c.ctx c.operation s) g
        (after-IsValid sha256 c.now c.ctx c.operation s given v)
        (after-AtLeast c.now c.ctx c.operation s kept v low)
