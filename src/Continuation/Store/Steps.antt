-- ===== src/Continuation/Store/Steps.antt =====
-- The calls that change the store, as steps (programmable/continuation/memory).
use keelith.Prelude.{ℕ, List, [], ◌∷◌, ◌≡◌, refl}
use keelith.Prelude.Text.{Text}
use keelith.Prelude.Results.{Result, ok, err}
use keelith.Prelude.Contexts.{Context}
use keelith.Prelude.Int.{ℤ}
use keelith.Continuation.Model.{Snapshot, Error}
use keelith.Continuation.Store.{
  Store, settle, CommitRequest, CommandRequest, ClaimRequest, LeaseRequest,
}
use keelith.Continuation.Store.Calls.{create, acquire, transition, submit_signal, request_cancel}
use keelith.Continuation.Store.Leases.{claim, renew, release}
use keelith.Continuation.Store.Admin.{prune_frames, ExpireRequest, expire, delete_expired}
use keelith.Continuation.Store.Takeover.{Sound}

pub data Operation : Type 0 where
  creates : Snapshot → Operation
  acquires : Text → ℕ → Operation
  transitions : CommitRequest → Operation
  signals cancels : CommandRequest → Operation
  claims : ClaimRequest → Operation
  renews releases : LeaseRequest → Operation
  prunes : Text → ℕ → Operation
  expires_call : ExpireRequest → Operation
  deletes : ℕ → ℤ → Operation

-- One call: the clock's reading, the context and the operation.
pub record Call : Type 0 where
  pub now : ℕ
  pub ctx : Context
  pub operation : Operation

module _ (sha256 : Text → Text) where
  -- The store after a call, whatever the call returned.
  unfoldable pub after : ℕ → Context → Operation → Store → Store
  after now ctx (creates c) s = (settle s (create ctx c s)).0
  after now ctx (acquires id revision) s = (acquire sha256 now ctx id revision s).0
  after now ctx (transitions r) s = (settle s (transition now ctx r s)).0
  after now ctx (signals r) s = (settle s (submit_signal sha256 ctx r s)).0
  after now ctx (cancels r) s = (settle s (request_cancel sha256 ctx r s)).0
  after now ctx (claims r) s = (settle s (claim sha256 now ctx r s)).0
  after now ctx (renews r) s = (settle s (renew now ctx r s)).0
  after now ctx (releases r) s = (settle s (release ctx r s)).0
  after now ctx (prunes id floor) s = (settle s (prune_frames ctx id floor s)).0
  after now ctx (expires_call r) s = (settle s (expire sha256 ctx r s)).0
  after now ctx (deletes before limit) s = (settle s (delete_expired ctx before limit s)).0

  unfoldable pub run : List Call → Store → Store
  run [] s = s
  run (c ∷ cs) s = run cs (after c.now c.ctx c.operation s)

-- A snapshot value has passed the constructors of the continuation package, which are the only
-- ones that can make one.
abbrev pub Given : Operation → Type 0
Given (creates c) = Sound c
Given (transitions r) = Sound r.snapshot
Given _ = Unit {0}

-- What every successful outcome has, the store has after the call.
pub settle-cases {κ} :
    (P : Store → Type κ) {A : Type 0} (s : Store) (m : Result Error (Store × A))
    → P s
    → ((s' : Store) (a : A) → m ≡ ok (s', a) → P s')
    → P (settle s m).0
settle-cases P s (ok (s', a)) p f = f s' a refl
settle-cases P s (err e) p f = p
