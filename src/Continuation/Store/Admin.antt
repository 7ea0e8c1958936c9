-- ===== src/Continuation/Store/Admin.antt =====
-- programmable/continuation/memory/admin.go and restore.go, with NewCallSummary of
-- programmable/continuation/admin.go.
use keelith.Prelude.{
  ℕ, ◌==◌, leb, not, Bool, false, ◌&&◌, ◌||◌, List, [], ◌∷◌, length, if◌then◌else◌, Option, none,
  some, is_some, keep,
}
use keelith.Prelude.Text.{Text, is_empty}
use keelith.Prelude.Maps.{Map, lookup, insert, delete, keys}
use keelith.Prelude.Results.{Result, ok, reject_if, require, ◌>>◌, ◌>>=◌, is_ok}
use keelith.Prelude.Contexts.{Context}
use keelith.Prelude.Int.{ℤ, is_pos, le_nat}
use keelith.Continuation.Model.{
  Status, expired, is_terminal, is_expired, frame_expired, Snapshot, terminal, invalid_store,
  not_found, already_exists, conflict, not_ready, invalid_retention, Error, plain, WorkflowState,
  NodeState, new_frame, move,
}
use keelith.Continuation.Apply.{validate_snapshot, apply}
use keelith.Continuation.Store.{Store, M, enter, found}
use keelith.Prelude.Text.{text_lt}
use keelith.Continuation.Workflow.{is_failed}
use keelith.Continuation.Retention.{prune_snapshot}
use keelith.Continuation.Store.Calls.{page}

pub record CallSummary : Type 0 where
  pub call_id : Text
  pub operation : Text
  pub status : Status
  pub revision : ℕ
  pub fence : ℕ
  pub sequence : ℕ
  pub frame_floor : ℕ
  pub expires_at : ℕ
  pub workflow_version : Text
  pub workflow_fingerprint : Text
  pub workflow_nodes : ℕ
  pub workflow_failed : ℕ

-- The counters of a workflow; a call without one has zeros and empty strings.
abbrev version_of : Option WorkflowState → Text
version_of none = []
version_of (some w) = w.version

abbrev fingerprint_of : Option WorkflowState → Text
fingerprint_of none = []
fingerprint_of (some w) = w.fingerprint

abbrev nodes_of : Option WorkflowState → Map NodeState
nodes_of none = []
nodes_of (some w) = w.nodes

unfoldable pub failed_nodes : Map NodeState → ℕ
failed_nodes m = length (keep (λ (entry : Text × NodeState). is_failed entry.1.status) m)

unfoldable pub new_call_summary : Snapshot → ℕ → Result Error CallSummary
unfolding failed_nodes
new_call_summary s expires_at = do
  require (is_ok (validate_snapshot s)) (plain invalid_retention)
  ok (record {
    call_id = s.call_id;
    operation = s.operation;
    status = s.status;
    revision = s.revision;
    fence = s.fence;
    sequence = s.sequence;
    frame_floor = s.frame_floor;
    expires_at = expires_at;
    workflow_version = version_of s.workflow;
    workflow_fingerprint = fingerprint_of s.workflow;
    workflow_nodes = length (nodes_of s.workflow);
    workflow_failed = failed_nodes (nodes_of s.workflow);
  })

-- s.expires[key], which is the zero time where it is missing.
abbrev pub expiry : Text → Store → ℕ
expiry id s = elim (lookup id s.expires) [ none ↦ 0 | some t ↦ t ]

abbrev bad_limit : ℤ → Bool
bad_limit limit = not (is_pos limit) || not (le_nat limit 1000)

unfoldable pub summaries : Store → List Text → Result Error (List CallSummary)
summaries s [] = ok []
summaries s (k ∷ ks) = do
  current ← found (lookup k s.records) invalid_retention
  summary ← new_call_summary current (expiry k s)
  rest ← summaries s ks
  ok (summary ∷ rest)

-- ListCalls of a ListRequest's After and Limit.
unfoldable pub list_calls : Context → Text → ℤ → M (List CallSummary)
unfolding summaries
list_calls ctx after limit s = do
  enter ctx (bad_limit limit) invalid_retention
  result ← summaries s (page limit (keep (text_lt after) (keys s.records)))
  ok (s, result)

-- GetCall
unfoldable pub get_call : Context → Text → M CallSummary
unfolding new_call_summary
get_call ctx id s = do
  enter ctx (is_empty id) invalid_retention
  current ← found (lookup id s.records) not_found
  summary ← new_call_summary current (expiry id s)
  ok (s, summary)

-- PruneFrames
unfoldable pub prune_frames : Context → Text → ℕ → M Snapshot
prune_frames ctx id floor s = do
  enter ctx (is_empty id) invalid_retention
  current ← found (lookup id s.records) not_found
  require (is_terminal current.status) (plain not_ready)
  pruned ← prune_snapshot current floor
  ok (record s { records = insert id pruned s.records }, pruned)

pub record ExpireRequest : Type 0 where
  pub call_id : Text
  pub expected_revision : ℕ
  pub expires_at : ℕ

-- The store after an expiry.
abbrev pub expired_store : ExpireRequest → Snapshot → Store → Store
expired_store r next s = record {
  records = insert r.call_id next s.records;
  leases = delete r.call_id s.leases;
  expires = insert r.call_id r.expires_at s.expires;
}

module _ (sha256 : Text → Text) where
  -- Expire of a call that is not expired already.
  unfoldable pub expire_current : ExpireRequest → Snapshot → Store → Result Error (Store × Snapshot)
  expire_current r current s = do
    reject_if (is_terminal current.status) (plain terminal)
    require (current.revision == r.expected_revision) (plain conflict)
    frame ← new_frame frame_expired []
    next ← apply sha256 current (move expired current.fence (frame ∷ []))
    ok (expired_store r next s, next)

  -- Expire
  unfoldable pub expire : Context → ExpireRequest → M Snapshot
  expire ctx r s = do
    enter ctx (is_empty r.call_id || (r.expected_revision == 0 || r.expires_at == 0))
        invalid_retention
    current ← found (lookup r.call_id s.records) not_found
    if is_expired current.status then ok (s, current) else expire_current r current s

-- The calls that DeleteExpired collects.
unfoldable pub elapsed : ℕ → Store → Text → Bool
elapsed before s id = elim (lookup id s.records) [
  | none ↦ false
  | some c ↦ is_terminal c.status && leb (expiry id s) before
]

unfoldable pub delete_all : List Text → Store → Store
delete_all [] s = s
delete_all (k ∷ ks) s = delete_all ks (record {
  records = delete k s.records;
  leases = delete k s.leases;
  expires = delete k s.expires;
})

-- DeleteExpired. The range over the deadlines visits each key.
unfoldable pub delete_expired : Context → ℕ → ℤ → M ℕ
delete_expired ctx before limit s = do
  enter ctx (before == 0 || bad_limit limit) invalid_retention
  let victims = page limit (keep (elapsed before s) (keys s.expires))
  ok (delete_all victims s, length victims)

-- NewFromSnapshots: the records of the snapshots, in order.
unfoldable pub restore : Map Snapshot → List Snapshot → Result Error (Map Snapshot)
restore m [] = ok m
restore m (c ∷ cs) = do
  require (is_ok (validate_snapshot c)) (plain invalid_store)
  reject_if (is_some (lookup c.call_id m)) (plain already_exists)
  restore (insert c.call_id c m) cs
