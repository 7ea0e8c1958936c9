-- ===== src/Continuation/Store/Fencing.antt =====
-- Fencing: whose commits the store takes (programmable/continuation/memory/store.go).
use keelith.Prelude.{ℕ, ◌+◌, ◌<◌, false, List, All, ◌⊎◌, some, ◌≡◌, refl, ◌≢◌, inl, inr, arith}
use keelith.Prelude.Text.{Text, text_eq_iff, text_eq_refl}
use keelith.Prelude.Maps.{lookup, lookup-insert_self}
use keelith.Prelude.Results.{ok, err, is_ok, Result-cases}
use keelith.Prelude.Contexts.{Context, live}
use keelith.Prelude.Int.{to_nat}
use keelith.Continuation.Model.{Snapshot, lease_held, plain}
use keelith.Continuation.Store.{
  LeaseRecord, Store, CommitRequest, ClaimRequest, Lease, bad_claim, active,
}
use keelith.Continuation.Store.Calls.{take_over, owns, transition}
use keelith.Continuation.Store.Leases.{
  granted, reclaim, new_lease, claimed_store, take_lease, claim_current, claim,
}
use keelith.Continuation.Store.Takeover.{Sound, Taken, take_over-Taken}
use keelith.Continuation.Store.Validity.{IsValid}
use keelith.Continuation.Store.Steps.{Call, run, Given}
use keelith.Continuation.Store.LeasesValid.{claim-keeps}
use keelith.Continuation.Store.Fences.{AtLeast, claim-Granted}
use keelith.Continuation.Store.FenceHistory.{is_deletion, run-AtLeast}

-- While a lease is active, a commit that succeeds carries the lease's owner, revision and fence.
pub transition-owner :
    (now : ℕ) (ctx : Context) (r : CommitRequest) (s s' : Store) (a : Snapshot) (l : LeaseRecord)
    → lookup r.snapshot.call_id s.leases ≡ some l
    → now < l.deadline
    → transition now ctx r s ≡ ok (s', a)
    → (r.lease_owner ≡ l.owner) × (r.expected_revision ≡ l.revision) × (r.fence ≡ l.fence)
unfolding transition owns
transition-owner now ctx r s s' a l held soon e = ground (arith, text_eq_iff l.owner r.lease_owner)

take_lease-fence :
    (sha256 : Text → Text) (now : ℕ) (r : ClaimRequest) (c : Snapshot) (s s' : Store) (a : Lease)
    → Sound c
    → take_lease sha256 now r c s ≡ ok (s', a)
    → (a.snapshot.fence ≡ c.fence + 1)
      × (a.snapshot.revision ≡ c.revision + 1)
      × (a.owner_id ≡ r.owner_id)
      × (s' ≡ claimed_store r.call_id a.snapshot (new_lease now r c a.snapshot) s)
      × (a.deadline ≡ now + to_nat r.lease_duration)
unfolding take_lease
take_lease-fence sha256 now r c s s' a sound e = elim (Result-cases (take_over sha256 c now)) [
  | inl (next, taken) ↦
      let t : Taken c next now = take_over-Taken sha256 c next now sound taken in
      let made : s' ≡ claimed_store r.call_id next (new_lease now r c next) s = ground arith in
      let given : a ≡ granted next (new_lease now r c next) = ground arith in
      rw (given, made) (t.fence_next, t.revision_next, refl, refl, refl)
  | inr (x, stops) ↦ absurd (ground arith)
]

-- A claim where no lease is active.
pub claim_fresh :
    (sha256 : Text → Text) (now : ℕ) (ctx : Context) (r : ClaimRequest) (s s' : Store) (a : Lease)
    (c : Snapshot)
    → IsValid s
    → lookup r.call_id s.records ≡ some c
    → active now (lookup r.call_id s.leases) ≡ false
    → claim sha256 now ctx r s ≡ ok (s', a)
    → (a.snapshot.fence ≡ c.fence + 1)
      × (a.snapshot.revision ≡ c.revision + 1)
      × (a.owner_id ≡ r.owner_id)
      × (s' ≡ claimed_store r.call_id a.snapshot (new_lease now r c a.snapshot) s)
      × (a.deadline ≡ now + to_nat r.lease_duration)
unfolding claim claim_current
claim_fresh sha256 now ctx r s s' a c v there free e =
    take_lease-fence sha256 now r c s s' a (v.recorded r.call_id c there).0 (ground arith)

-- The fence that a claim grants is recorded.
claim-records :
    (sha256 : Text → Text) (now : ℕ) (ctx : Context) (r : ClaimRequest) (s s' : Store) (a : Lease)
    (c : Snapshot)
    → IsValid s
    → lookup r.call_id s.records ≡ some c
    → claim sha256 now ctx r s ≡ ok (s', a)
    → AtLeast r.call_id a.snapshot.fence s'.records
claim-records sha256 now ctx r s s' a c v there e =
    elim (claim-Granted sha256 now r c s s' a ctx (v.recorded r.call_id c there).0 there e) [
      | inl (same, given) ↦ rw (same, given) (c, there, omega arith)
      | inr (made, fence) ↦
          rw made (a.snapshot, lookup-insert_self r.call_id a.snapshot s.records, omega arith)
    ]

transition-below :
    (now : ℕ) (ctx : Context) (id : Text) (n : ℕ) (q : CommitRequest) (s : Store)
    → q.snapshot.call_id ≡ id
    → AtLeast id n s.records
    → q.fence < n
    → is_ok (transition now ctx q s) ≡ false
unfolding transition
transition-below now ctx id n q s same (c, there, low) old =
    let stored : lookup q.snapshot.call_id s.records ≡ some c = rw same there in
    ground (arith, stored, low, old)

-- A claim that succeeds fences off the earlier owners for good: after any later calls but
-- DeleteExpired, successful or not, at any times, a commit on the call fails if its fence is lower
-- than the one that the claim granted, whatever its owner. If no lease was active before the claim,
-- the fence that the call had then is refused in this way; a claim that repeats an active lease
-- grants the fence the call has. The store was valid, the call was recorded before the claim, and
-- the later calls are given valid snapshots.
pub claim-fences_off :
    (sha256 : Text → Text) (now later : ℕ) (ctx ctx' : Context) (r : ClaimRequest) (cs : List Call)
    (q : CommitRequest) (s s' : Store) (a : Lease) (c : Snapshot)
    → IsValid s
    → lookup r.call_id s.records ≡ some c
    → claim sha256 now ctx r s ≡ ok (s', a)
    → All (λ (k : Call). Given k.operation × (is_deletion k.operation ≡ false)) cs
    → q.snapshot.call_id ≡ r.call_id
    → (q.fence < a.snapshot.fence)
      ⊎ ((active now (lookup r.call_id s.leases) ≡ false) × (q.fence ≡ c.fence))
    → is_ok (transition later ctx' q (run sha256 cs s')) ≡ false
claim-fences_off sha256 now later ctx ctx' r cs q s s' a c v there e given same old =
    let lower : q.fence < a.snapshot.fence = elim old [
      | inl below ↦ below
      | inr (free, before) ↦
          omega (arith, before, (claim_fresh sha256 now ctx r s s' a c v there free e).0)
    ] in
    transition-below later ctx' r.call_id a.snapshot.fence q (run sha256 cs s') same
      (run-AtLeast r.call_id a.snapshot.fence sha256 cs s' given
        (claim-keeps sha256 now ctx r s s' a v e)
        (claim-records sha256 now ctx r s s' a c v there e))
      lower

-- While the lease of a claim lasts, no other executor gets the call: another owner's claim is
-- refused with ErrLeaseHeld and leaves the store alone. The store was valid, no lease was active
-- before the claim, and the other request is well formed and its context live.
pub claim-excludes :
    (sha256 : Text → Text) (now later : ℕ) (ctx : Context) (r q : ClaimRequest) (s s' : Store)
    (a : Lease) (c : Snapshot)
    → IsValid s
    → lookup r.call_id s.records ≡ some c
    → active now (lookup r.call_id s.leases) ≡ false
    → claim sha256 now ctx r s ≡ ok (s', a)
    → q.call_id ≡ r.call_id
    → q.owner_id ≢ r.owner_id
    → bad_claim q ≡ false
    → later < a.deadline
    → claim sha256 later live q s' ≡ err (plain lease_held)
unfolding claim claim_current reclaim
claim-excludes sha256 now later ctx r q s s' a c v there free e same other good soon =
    let (fence, revision, owner, made, until) =
      claim_fresh sha256 now ctx r s s' a c v there free e in
    let stored : lookup q.call_id s'.records ≡ some a.snapshot =
      rw (same, made) (lookup-insert_self r.call_id a.snapshot s.records) in
    let held : lookup q.call_id s'.leases ≡ some (new_lease now r c a.snapshot) =
      rw (same, made) (lookup-insert_self r.call_id (new_lease now r c a.snapshot) s.leases) in
    rw (stored, held, claim, good) (ground (arith, text_eq_iff r.owner_id q.owner_id, until))

-- The answer to a claim can be asked for again: while the lease lasts, the same request gives the
-- same lease and leaves the store alone. The store was valid, no lease was active before, and the
-- request is well formed and its context live.
pub claim_idempotent :
    (sha256 : Text → Text) (now later : ℕ) (ctx : Context) (r : ClaimRequest) (s s' : Store)
    (a : Lease) (c : Snapshot)
    → IsValid s
    → lookup r.call_id s.records ≡ some c
    → active now (lookup r.call_id s.leases) ≡ false
    → claim sha256 now ctx r s ≡ ok (s', a)
    → c.revision ≡ r.expected_revision
    → bad_claim r ≡ false
    → later < a.deadline
    → claim sha256 later live r s' ≡ ok (s', a)
unfolding claim claim_current reclaim
claim_idempotent sha256 now later ctx r s s' a c v there free e expect good soon =
    let (fence, revision, owner, made, until) =
      claim_fresh sha256 now ctx r s s' a c v there free e in
    let stored : lookup r.call_id s'.records ≡ some a.snapshot =
      rw made (lookup-insert_self r.call_id a.snapshot s.records) in
    let held : lookup r.call_id s'.leases ≡ some (new_lease now r c a.snapshot) =
      rw made (lookup-insert_self r.call_id (new_lease now r c a.snapshot) s.leases) in
    rw (stored, held, claim, good) (ground (arith, text_eq_refl r.owner_id, until, owner, expect))
