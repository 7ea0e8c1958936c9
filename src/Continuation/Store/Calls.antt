-- ===== src/Continuation/Store/Calls.antt =====
-- programmable/continuation/memory/store.go: the calls of continuation.Store.
use keelith.Prelude.{
  ℕ, ◌==◌, ltb, not, Bool, false, ◌&&◌, ◌||◌, List, [], ◌∷◌, if◌then◌else◌, Option, none, some,
  is_some, take, keep,
}
use keelith.Prelude.Text.{Text, text_eq, is_empty}
use keelith.Prelude.Maps.{Map, lookup, insert, delete, keys}
use keelith.Prelude.Words.{max_u64, add_u64}
use keelith.Prelude.Results.{Result, ok, err, reject_if, require, ◌>>◌, ◌>>=◌}
use keelith.Prelude.Contexts.{Context}
use keelith.Prelude.Int.{ℤ, is_pos, to_nat, le_nat}
use keelith.Continuation.Model.{
  is_terminal, is_running, frame_signal, frame_cancel_requested, Snapshot, Transition,
  invalid_store, not_found, already_exists, conflict, stale_fence, not_ready, lease_held,
  lease_lost, Error, plain, new_frame, timer_due, timer_not_ready_error, move, signal, cancel,
}
use keelith.Continuation.Apply.{apply}
use keelith.Prelude.Sort.{sort}
use keelith.Continuation.Store.{
  LeaseRecord, zero_lease, Store, M, settle, enter, found, CommitRequest, CommandRequest,
  initial_snapshot, ready, valid_successor, owned_status, active,
}

-- Create
unfoldable pub create : Context → Snapshot → M Snapshot
create ctx snapshot s = do
  enter ctx (not (initial_snapshot snapshot)) invalid_store
  reject_if (is_some (lookup snapshot.call_id s.records)) (plain already_exists)
  ok (record s { records = insert snapshot.call_id snapshot s.records }, snapshot)

-- Load
unfoldable pub load : Context → Text → M Snapshot
load ctx id s = do
  enter ctx (is_empty id) invalid_store
  snapshot ← found (lookup id s.records) not_found
  ok (s, snapshot)

-- An expired lease is dropped, whatever happens next.
abbrev pub drop_expired : ℕ → Text → Store → Store
drop_expired now id s =
    if active now (lookup id s.leases) then s else record s { leases = delete id s.leases }

-- The record that Acquire works on.
abbrev pub expected : Context → Text → ℕ → Store → Result Error Snapshot
expected ctx id revision s = do
  enter ctx (is_empty id || revision == 0) invalid_store
  current ← found (lookup id s.records) not_found
  require (current.revision == revision) (plain conflict)
  ok current

-- What Transition needs of the lease.
unfoldable pub owns : ℕ → CommitRequest → Option LeaseRecord → Bool
owns now r none = is_empty r.lease_owner
owns now r (some l) =
    if is_empty r.lease_owner
    then not (ltb now l.deadline)
    else text_eq l.owner r.lease_owner
      && (l.revision == r.expected_revision && (l.fence == r.fence && ltb now l.deadline))

abbrev lease_or_zero : Option LeaseRecord → LeaseRecord
lease_or_zero none = zero_lease
lease_or_zero (some l) = l

-- The store after a commit: the record, its retention deadline and its lease.
unfoldable pub committed : CommitRequest → Store → Store
committed r s =
    let id = r.snapshot.call_id in
    record {
      records = insert id r.snapshot s.records;
      expires =
          if is_terminal r.snapshot.status && not (r.expires_at == 0)
          then insert id r.expires_at s.expires
          else delete id s.expires;
      leases =
          if is_running r.snapshot.status
          then insert id
              (record (lease_or_zero (lookup id s.leases)) {
                revision = r.snapshot.revision;
                fence = r.snapshot.fence;
              })
              s.leases
          else delete id s.leases;
    }

-- Transition
unfoldable pub transition : ℕ → Context → CommitRequest → M Snapshot
unfolding owns committed
transition now ctx r s = do
  enter ctx
      (r.expected_revision == 0
        || (r.fence == 0
            || (is_empty r.snapshot.call_id
                || not (r.expires_at == 0) && not (is_terminal r.snapshot.status))))
      invalid_store
  current ← found (lookup r.snapshot.call_id s.records) not_found
  require (owns now r (lookup r.snapshot.call_id s.leases)) (plain lease_lost)
  require (r.fence == current.fence) (plain stale_fence)
  require (r.expected_revision == current.revision) (plain conflict)
  require (valid_successor current r.snapshot r.fence) (plain invalid_store)
  ok (committed r s, r.snapshot)

-- The calls that ListReady collects.
unfoldable pub listed : ℕ → Store → Text → Bool
listed now s id = elim (lookup id s.records) [
  | none ↦ false
  | some c ↦ ready c.status && (timer_due c now && not (active now (lookup id s.leases)))
]

-- result[index] = s.records[key], of keys that the records have.
unfoldable pub fetch : Map Snapshot → List Text → List Snapshot
fetch m [] = []
fetch m (k ∷ ks) = elim (lookup k m) [ none ↦ fetch m ks | some c ↦ c ∷ fetch m ks ]

abbrev pub page : ℤ → List Text → List Text
page limit ks = take (to_nat limit) (sort ks)

-- ListReady. The range over the records visits each key.
unfoldable pub list_ready : ℕ → Context → ℤ → M (List Snapshot)
unfolding listed fetch
list_ready now ctx limit s = do
  enter ctx (not (is_pos limit) || not (le_nat limit 10000)) invalid_store
  ok (s, fetch s.records (page limit (keep (listed now s) (keys s.records))))

module _ (sha256 : Text → Text) where
  -- Acquire and Claim from the readiness test on: the call under the next fence.
  unfoldable pub take_over : Snapshot → ℕ → Result Error Snapshot
  take_over current now = do
    require (ready current.status) (plain not_ready)
    timer_not_ready_error current now
    reject_if (current.fence == max_u64) (plain stale_fence)
    apply sha256 current (move (owned_status current.status) (add_u64 current.fence 1) [])

  -- Acquire from the lease on, of a store from which an expired lease is gone already.
  unfoldable pub acquire_current : Text → Snapshot → ℕ → Store → Store × Result Error Snapshot
  unfolding take_over
  acquire_current id current now s = settle s (do
    reject_if (active now (lookup id s.leases)) (plain lease_held)
    next ← take_over current now
    ok (record s { records = insert id next s.records }, next))

  -- Acquire
  unfoldable pub acquire : ℕ → Context → Text → ℕ → Store → Store × Result Error Snapshot
  unfolding acquire_current
  acquire now ctx id revision s = elim (expected ctx id revision s) [
    | ok current ↦ acquire_current id current now (drop_expired now id s)
    | err e ↦ (s, err e)
  ]

  -- command, from the decided transition on.
  unfoldable pub run_command : Context → CommandRequest → Transition → M Snapshot
  run_command ctx r t s = do
    enter ctx (is_empty r.call_id || r.expected_revision == 0) invalid_store
    current ← found (lookup r.call_id s.records) not_found
    next ← apply sha256 current t
    if next.revision == current.revision
        then ok (s, current)
        else require (r.expected_revision == current.revision) (plain conflict)
          >> ok (
            record s {
              records = insert r.call_id next s.records;
              leases = delete r.call_id s.leases;
            },
            next,
          )

  -- SubmitSignal
  unfoldable pub submit_signal : Context → CommandRequest → M Snapshot
  submit_signal ctx r s = elim (new_frame frame_signal r.payload) [
    | ok frame ↦ run_command ctx r (signal r.command_id (frame ∷ [])) s
    | err e ↦ err e
  ]

  -- RequestCancel
  unfoldable pub request_cancel : Context → CommandRequest → M Snapshot
  request_cancel ctx r s = elim (new_frame frame_cancel_requested r.payload) [
    | ok frame ↦ run_command ctx r (cancel r.command_id (frame ∷ [])) s
    | err e ↦ err e
  ]
