-- ===== src/Continuation/Store/Fences.antt =====
-- Fences never go back while a call is recorded (programmable/continuation/memory).
use keelith.Prelude.{
  ℕ, ◌+◌, ◌≤◌, ltb, Option, none, some, ◌≡◌, ap, ◌∙◌, ◌⊎◌, inl, inr, arith, Bool-cases,
}
use keelith.Prelude.Text.{Text, text_eq, text_eq_iff}
use keelith.Prelude.Maps.{Map, lookup, insert, lookup-insert}
use keelith.Prelude.Results.{ok, Result-cases}
use keelith.Prelude.Contexts.{Context}
use keelith.Continuation.Model.{Snapshot, Transition}
use keelith.Continuation.Apply.{apply}
use keelith.Continuation.Apply.Laws.{apply-Extends}
use keelith.Continuation.Store.{LeaseRecord, Store, ClaimRequest, Lease}
use keelith.Continuation.Store.Calls.{take_over}
use keelith.Continuation.Store.Leases.{reclaim, take_lease, claim_current, claim}
use keelith.Continuation.Store.Takeover.{Sound, Taken, take_over-Taken}

-- A call is recorded with at least this fence.
abbrev pub AtLeast : Text → ℕ → Map Snapshot → Type 0
AtLeast id n records = (c : Snapshot) × (lookup id records ≡ some c) × (n ≤ c.fence)

-- A write that does not lower the fence of the call it writes.
pub put-AtLeast :
    (id : Text) (n : ℕ) (k : Text) (next : Snapshot) (m : Map Snapshot)
    → AtLeast id n m
    → ((c : Snapshot) → lookup k m ≡ some c → c.fence ≤ next.fence)
    → AtLeast id n (insert k next m)
put-AtLeast id n k next m (c, there, low) f = elim (Bool-cases (text_eq k id)) [
  | inl same ↦
      let found : lookup k m ≡ some c =
        ap (λ (i : Text). lookup i m) ((text_eq_iff k id).0 same) ∙ there in
      (next, rw (lookup-insert k id next m, same), omega (arith, low, f c found))
  | inr other ↦ (c, rw (lookup-insert k id next m, other) there, low)
]

-- The same where the record before the write is known.
pub put_over-AtLeast :
    (id : Text) (n : ℕ) (k : Text) (c next : Snapshot) (m : Map Snapshot)
    → AtLeast id n m
    → lookup k m ≡ some c
    → c.fence ≤ next.fence
    → AtLeast id n (insert k next m)
put_over-AtLeast id n k c next m low there f =
    put-AtLeast id n k next m low (λ d e. ground (arith, there, e, f))

pub apply-fence :
    (sha256 : Text → Text) (c : Snapshot) (t : Transition) (next : Snapshot)
    → Sound c
    → apply sha256 c t ≡ ok next
    → c.fence ≤ next.fence
apply-fence h c t next sound e = elim (apply-Extends h c t next sound.in_range e) [
  | inl same ↦ rw same.unchanged (omega arith)
  | inr step ↦ step.fence_kept
]

module _ (sha256 : Text → Text) (now : ℕ) (r : ClaimRequest) (c : Snapshot) (s s' : Store)
    (a : Lease) where
  -- The store is unchanged and the lease is for the recorded call, or the call is recorded under
  -- the next fence.
  abbrev pub Granted : Type 0
  Granted =
      ((s' ≡ s) × (a.snapshot ≡ c))
      ⊎ ((s'.records ≡ insert r.call_id a.snapshot s.records) × (a.snapshot.fence ≡ c.fence + 1))

  take_lease-Granted : Sound c → take_lease sha256 now r c s ≡ ok (s', a) → Granted
  unfolding take_lease
  take_lease-Granted sound e = elim (Result-cases (take_over sha256 c now)) [
    | inl (next, took) ↦
        let t : Taken c next now = take_over-Taken sha256 c next now sound took in
        inr (ground arith, ground (arith, t.fence_next))
    | inr (x, stops) ↦ absurd (ground arith)
  ]

  claim_current-Granted :
      (l : Option LeaseRecord) → Sound c → claim_current sha256 now r c l s ≡ ok (s', a) → Granted
  unfolding claim_current reclaim
  claim_current-Granted none sound e = take_lease-Granted sound e
  claim_current-Granted (some l) sound e = elim (Bool-cases (ltb now l.deadline)) [
    | inl held ↦ inl (ground arith, ground arith)
    | inr over ↦ take_lease-Granted sound (rw (over, claim_current) at e)
  ]

  pub claim-Granted :
      (ctx : Context)
      → Sound c
      → lookup r.call_id s.records ≡ some c
      → claim sha256 now ctx r s ≡ ok (s', a)
      → Granted
  unfolding claim
  claim-Granted ctx sound there e =
      claim_current-Granted (lookup r.call_id s.leases) sound (ground arith)
