-- ===== src/Continuation/Store/Leases.antt =====
-- programmable/continuation/memory/store.go: the calls of continuation.LeaseStore.
use keelith.Prelude.{ℕ, ◌+◌, ◌==◌, ltb, Bool, true, false, ◌&&◌, if◌then◌else◌, Option, none, some}
use keelith.Prelude.Text.{Text, text_eq}
use keelith.Prelude.Maps.{lookup, insert, delete}
use keelith.Prelude.Results.{Result, ok, require, ◌>>◌, ◌>>=◌}
use keelith.Prelude.Contexts.{Context}
use keelith.Prelude.Int.{to_nat}
use keelith.Continuation.Model.{
  Snapshot, invalid_store, not_found, conflict, lease_held, lease_lost, Error, plain,
}
use keelith.Continuation.Store.{
  LeaseRecord, Store, M, enter, found, ClaimRequest, LeaseRequest, Lease, bad_claim,
  bad_lease_request,
}
use keelith.Continuation.Store.Calls.{take_over}

abbrev pub granted : Snapshot → LeaseRecord → Lease
granted current l = record { snapshot = current; owner_id = l.owner; deadline = l.deadline }

-- Claim under a lease that has not expired.
unfoldable pub reclaim :
    ClaimRequest → Snapshot → LeaseRecord → Store → Result Error (Store × Lease)
reclaim r current l s = do
  require (text_eq l.owner r.owner_id && l.previous_revision == r.expected_revision)
      (plain lease_held)
  ok (s, granted current l)

-- The lease that Claim records.
abbrev pub new_lease : ℕ → ClaimRequest → Snapshot → Snapshot → LeaseRecord
new_lease now r current next = record {
  owner = r.owner_id;
  deadline = now + to_nat r.lease_duration;
  revision = next.revision;
  fence = next.fence;
  previous_revision = current.revision;
}

-- The store after a claim.
abbrev pub claimed_store : Text → Snapshot → LeaseRecord → Store → Store
claimed_store id next l s = record s {
  records = insert id next s.records;
  leases = insert id l s.leases;
}

module _ (sha256 : Text → Text) where
  -- Claim where no lease is active.
  unfoldable pub take_lease : ℕ → ClaimRequest → Snapshot → Store → Result Error (Store × Lease)
  unfolding take_over
  take_lease now r current s = do
    require (current.revision == r.expected_revision) (plain conflict)
    next ← take_over sha256 current now
    let l = new_lease now r current next
    ok (claimed_store r.call_id next l s, granted next l)

  -- Claim from the lease on.
  unfoldable pub claim_current :
      ℕ → ClaimRequest → Snapshot → Option LeaseRecord → Store → Result Error (Store × Lease)
  claim_current now r current none s = take_lease now r current s
  claim_current now r current (some l) s =
      if ltb now l.deadline then reclaim r current l s else take_lease now r current s

  -- Claim
  unfoldable pub claim : ℕ → Context → ClaimRequest → M Lease
  claim now ctx r s = do
    enter ctx (bad_claim r) invalid_store
    current ← found (lookup r.call_id s.records) not_found
    claim_current now r current (lookup r.call_id s.leases) s

-- The lease that a LeaseRequest names.
abbrev pub matches : LeaseRequest → LeaseRecord → Bool
matches r l = text_eq l.owner r.owner_id && (l.revision == r.revision && l.fence == r.fence)

unfoldable pub renewable : ℕ → LeaseRequest → Option LeaseRecord → Bool
renewable now r none = false
renewable now r (some l) = matches r l && ltb now l.deadline

unfoldable pub releasable : LeaseRequest → Option LeaseRecord → Bool
releasable r none = false
releasable r (some l) = matches r l

-- Renew
unfoldable pub renew : ℕ → Context → LeaseRequest → M Lease
unfolding renewable
renew now ctx r s = do
  enter ctx (bad_lease_request true r) invalid_store
  current ← found (lookup r.call_id s.records) not_found
  require (renewable now r (lookup r.call_id s.leases)) (plain lease_lost)
  held ← found (lookup r.call_id s.leases) lease_lost
  let l = record held { deadline = now + to_nat r.lease_duration }
  ok (record s { leases = insert r.call_id l s.leases }, granted current l)

-- Release
unfoldable pub release : Context → LeaseRequest → M (Unit {0})
unfolding releasable
release ctx r s = do
  enter ctx (bad_lease_request false r) invalid_store
  current ← found (lookup r.call_id s.records) not_found
  require (releasable r (lookup r.call_id s.leases)) (plain lease_lost)
  ok (record s { leases = delete r.call_id s.leases }, tt)
