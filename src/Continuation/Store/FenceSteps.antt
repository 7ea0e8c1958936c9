-- ===== src/Continuation/Store/FenceSteps.antt =====
-- The calls of an owner and of retention do not lower a fence (programmable/continuation/memory).
use keelith.Prelude.{ℕ, none, some, ◌≡◌, inl, inr, arith, Bool-cases, Option-cases}
use keelith.Prelude.Text.{Text}
use keelith.Prelude.Maps.{lookup, insert}
use keelith.Prelude.Results.{ok, Result-cases}
use keelith.Prelude.Contexts.{Context}
use keelith.Continuation.Model.{Snapshot}
use keelith.Continuation.Retention.{prune_snapshot}
use keelith.Continuation.Store.{Store, CommitRequest, valid_successor, active}
use keelith.Continuation.Store.Calls.{
  create, take_over, acquire_current, drop_expired, expected, acquire, committed, transition,
}
use keelith.Continuation.Store.Admin.{prune_frames}
use keelith.Continuation.Store.Takeover.{Sound, Taken, take_over-Taken}
use keelith.Continuation.Store.Validity.{IsValid}
use keelith.Continuation.Store.StepsValid.{
  prune_snapshot-Sound, expected-record, drop_expired-records,
}
use keelith.Continuation.Store.Fences.{AtLeast, put-AtLeast, put_over-AtLeast}

module _ (id : Text) (n : ℕ) where
  pub create-AtLeast :
      (ctx : Context) (c : Snapshot) (s s' : Store) (a : Snapshot)
      → AtLeast id n s.records
      → create ctx c s ≡ ok (s', a)
      → AtLeast id n s'.records
  unfolding create
  create-AtLeast ctx c s s' a low e =
      let free : lookup c.call_id s.records ≡ none = ground arith in
      let made : s'.records ≡ insert c.call_id c s.records = ground arith in
      rw made (
        put-AtLeast id n c.call_id c s.records low
          (λ d there. absurd (ground (arith, there, free))))

  pub transition-AtLeast :
      (now : ℕ) (ctx : Context) (r : CommitRequest) (s s' : Store) (a : Snapshot)
      → AtLeast id n s.records
      → transition now ctx r s ≡ ok (s', a)
      → AtLeast id n s'.records
  unfolding transition committed valid_successor
  transition-AtLeast now ctx r s s' a low e =
      elim (Option-cases (lookup r.snapshot.call_id s.records)) [
        | inl missing ↦ absurd (ground arith)
        | inr (c, there) ↦
            let made : s'.records ≡ insert r.snapshot.call_id r.snapshot s.records = ground arith in
            rw made (
              put_over-AtLeast id n r.snapshot.call_id c r.snapshot s.records low there
                (ground arith))
      ]

  pub prune_frames-AtLeast :
      (ctx : Context) (k : Text) (floor : ℕ) (s s' : Store) (a : Snapshot)
      → IsValid s
      → AtLeast id n s.records
      → prune_frames ctx k floor s ≡ ok (s', a)
      → AtLeast id n s'.records
  unfolding prune_frames
  prune_frames-AtLeast ctx k floor s s' a v low e = elim (Option-cases (lookup k s.records)) [
    | inl missing ↦ absurd (ground arith)
    | inr (c, there) ↦ elim (Result-cases (prune_snapshot c floor)) [
      | inl (p, pruned) ↦
          let made : s'.records ≡ insert k p s.records = ground arith in
          let (psound, same, r, f) =
            prune_snapshot-Sound c floor p (v.recorded k c there).0 pruned in
          rw made (put_over-AtLeast id n k c p s.records low there (omega (arith, f)))
      | inr (x, stops) ↦ absurd (ground arith)
    ]
  ]

  module _ (sha256 : Text → Text) where
    pub acquire-AtLeast :
        (now : ℕ) (ctx : Context) (k : Text) (revision : ℕ) (s : Store)
        → IsValid s
        → AtLeast id n s.records
        → AtLeast id n (acquire sha256 now ctx k revision s).0.records
    unfolding acquire acquire_current
    acquire-AtLeast now ctx k revision s v low = elim (Result-cases (expected ctx k revision s)) [
      | inl (c, e) ↦
          let there : lookup k s.records ≡ some c = expected-record ctx k revision s c e in
          let sound : Sound c = (v.recorded k c there).0 in
          let dropped : Store = drop_expired now k s in
          let kept : dropped.records ≡ s.records = drop_expired-records now k s in
          elim (Result-cases (take_over sha256 c now)) [
            | inl (next, took) ↦
                let t : Taken c next now = take_over-Taken sha256 c next now sound took in
                let raised : AtLeast id n (insert k next s.records) =
                  put_over-AtLeast id n k c next s.records low there
                    (omega (arith, t.fence_next)) in
                elim (Bool-cases (active now (lookup k dropped.leases))) [
                  | inl held ↦ rw (e, acquire, held, kept) low
                  | inr free ↦ rw (e, acquire, free, took, kept) raised
                ]
            | inr (x, stops) ↦ elim (Bool-cases (active now (lookup k dropped.leases))) [
              | inl held ↦ rw (e, acquire, held, kept) low
              | inr free ↦ rw (e, acquire, free, stops, kept) low
            ]
          ]
      | inr (x, e) ↦ rw (e, acquire) low
    ]
