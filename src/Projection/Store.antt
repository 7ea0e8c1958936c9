-- ===== src/Projection/Store.antt =====
-- programmable/projection/memory/store.go: the process-local projection store and its snapshot
-- transactions. The mutexes make each call one step; the clock's reading is an argument. sha256 is
-- an argument, and the bytes that it is given are modelled.
use keelith.Prelude.{
  ℕ, ◌+◌, ◌%◌, ◌==◌, not, Bool, true, false, ◌&&◌, ◌||◌, List, [], ◌∷◌, ◌++◌, length, if◌then◌else◌,
  Option, none, some,
}
use keelith.Prelude.Text.{Text, text_eq}
use keelith.Prelude.Maps.{Map, lookup, insert, delete}
use keelith.Prelude.Words.{u64_mod, add_u64}
use keelith.Prelude.Results.{Result, ok, err, reject_if, require, ◌>>◌, ◌>>=◌}
use keelith.Prelude.Contexts.{Context, nil_context, live, ended}
use keelith.Continuation.Apply.{big_endian}
use keelith.Projection.{
  Error, nil_context_error, cause, invalid_projection_id, invalid_schema, invalid_cursor,
  invalid_mutation, invalid_delta, cursor_mismatch, schema_mismatch, projection_not_found,
  snapshot_closed, snapshot_conflict, replay_conflict, zero_source_time, Schema, MutationKind,
  mutation_upsert, mutation_delete, other_mutation, Mutation, upsert, DeltaBatch, Checkpoint,
  valid_projection_id, valid_schema, valid_cursor, valid_mutation, valid_batch, valid_identity,
}
pub mod Deltas
pub mod Staging
pub mod Snapshots

pub record Generation : Type 0 where
  pub schema : Schema
  pub cursor : Text
  pub generation : ℕ
  pub source_time : ℕ
  pub applied_at : ℕ
  pub values : Map Text
  pub last_delta : Option Text

pub record Store : Type 0 where
  pub states : Map Generation

-- New
abbrev pub new_store : Store
new_store = record { states = [] }

pub record SnapshotTxn : Type 0 where
  pub schema : Schema
  pub base_generation : ℕ
  pub values : Map Text
  pub closed : Bool

-- validateContext
abbrev pub validate_context : Context → Result Error (Unit {0})
validate_context nil_context = err nil_context_error
validate_context (ended n) = err (cause n)
validate_context live = ok tt

-- compatibleSchema
unfoldable pub compatible_schema : Schema → Schema → Result Error (Unit {0})
compatible_schema expected actual =
    require
      (text_eq expected.fingerprint actual.fingerprint
        && text_eq expected.key_fingerprint actual.key_fingerprint)
      schema_mismatch

abbrev pub compatible_with : Option Generation → Schema → Result Error (Unit {0})
compatible_with none schema = ok tt
compatible_with (some g) schema = compatible_schema g.schema schema

abbrev pub generation_in : Option Generation → ℕ
generation_in none = 0
generation_in (some g) = g.generation

-- BeginSnapshot
unfoldable pub begin_snapshot : Context → Schema → Store → Result Error SnapshotTxn
unfolding compatible_schema
begin_snapshot ctx schema s = do
  validate_context ctx
  require (valid_schema schema) invalid_schema
  compatible_with (lookup schema.id s.states) schema
  ok (record {
    schema = schema;
    base_generation = generation_in (lookup schema.id s.states);
    values = [];
    closed = false;
  })

-- A mutation of the staged or the copied values.
unfoldable pub mutate : MutationKind → Text → Text → Map Text → Result Error (Map Text)
mutate mutation_upsert key value m = ok (insert key value m)
mutate mutation_delete key value m = ok (delete key m)
mutate (other_mutation n) key value m = err invalid_mutation

-- Stage
unfoldable pub stage : Mutation → SnapshotTxn → Result Error SnapshotTxn
unfolding mutate
stage m t = do
  require (valid_mutation m) invalid_mutation
  reject_if t.closed snapshot_closed
  values ← mutate m.kind m.key m.value t.values
  ok (record t { values = values })

abbrev pub closed_txn : SnapshotTxn → SnapshotTxn
closed_txn t = record t { values = []; closed = true }

abbrev pub committed_state : ℕ → Text → ℕ → SnapshotTxn → Generation
committed_state now cursor source_time t = record {
  schema = t.schema;
  cursor = cursor;
  generation = add_u64 t.base_generation 1;
  source_time = source_time;
  applied_at = now;
  values = t.values;
  last_delta = none;
}

-- Commit, behind its checks: of the transaction, the store and the error, none for nil.
abbrev pub commit_checked : ℕ → Text → ℕ → SnapshotTxn → Store → SnapshotTxn × Store × Option Error
commit_checked now cursor source_time t s =
    if generation_in (lookup t.schema.id s.states) == t.base_generation
    then (
      closed_txn t,
      record s { states = insert t.schema.id (committed_state now cursor source_time t) s.states },
      none,
    )
    else (record t { closed = true }, s, some snapshot_conflict)

-- The checks of Commit that change nothing.
unfoldable pub commit_checks : Context → Text → ℕ → SnapshotTxn → Store → Result Error (Unit {0})
unfolding compatible_schema
commit_checks ctx cursor source_time t s = do
  validate_context ctx
  require (valid_cursor cursor) invalid_cursor
  reject_if (source_time == 0) zero_source_time
  reject_if t.closed snapshot_closed
  compatible_with (lookup t.schema.id s.states) t.schema

-- Commit
unfoldable pub commit :
    ℕ → Context → Text → ℕ → SnapshotTxn → Store → SnapshotTxn × Store × Option Error
commit now ctx cursor source_time t s = elim (commit_checks ctx cursor source_time t s) [
  | ok _ ↦ commit_checked now cursor source_time t s
  | err e ↦ (t, s, some e)
]

-- Abort
abbrev pub abort : SnapshotTxn → SnapshotTxn
abort t = closed_txn t

-- The loop of ApplyDelta over the mutations.
unfoldable pub mutate_all : List Mutation → Map Text → Result Error (Map Text)
unfolding mutate
mutate_all [] m = ok m
mutate_all (x ∷ xs) m = do next ← mutate x.kind x.key x.value m; mutate_all xs next

-- writeDigestBytes and writeDigestString
abbrev pub digest_bytes : Text → Text
digest_bytes value = big_endian 8 (length value) ++ value

abbrev pub kind_number : MutationKind → ℕ
kind_number mutation_upsert = 1
kind_number mutation_delete = 2
kind_number (other_mutation n) = n

unfoldable pub digest_mutations : List Mutation → Text
digest_mutations [] = []
digest_mutations (m ∷ ms) =
    big_endian 8 (kind_number m.kind)
    ++ (digest_bytes m.key ++ (digest_bytes m.value ++ digest_mutations ms))

-- uint64(t.UnixNano()), of the nanoseconds since the zero time.
abbrev pub unix_nano : ℕ → ℕ
unix_nano t = (t + 11651379494838206464) % u64_mod

-- What deltaDigest hashes.
unfoldable pub delta_input : DeltaBatch → Text
unfolding digest_mutations
delta_input b =
    digest_bytes b.schema.id
    ++ (digest_bytes b.schema.fingerprint
        ++ (digest_bytes b.schema.key_fingerprint
            ++ (digest_bytes b.previous
                ++ (digest_bytes b.cursor
                    ++ (big_endian 8 (unix_nano b.source_time) ++ digest_mutations b.mutations)))))

abbrev pub found : Option Generation → Result Error Generation
found none = err projection_not_found
found (some g) = ok g

abbrev pub same_delta : Option Text → Text → Bool
same_delta none digest = false
same_delta (some d) digest = text_eq d digest

module _ (sha256 : Text → Text) where
  abbrev pub advanced : ℕ → DeltaBatch → Generation → Map Text → Generation
  advanced now b g values = record {
    schema = b.schema;
    cursor = b.cursor;
    generation = add_u64 g.generation 1;
    source_time = b.source_time;
    applied_at = now;
    values = values;
    last_delta = some (sha256 (delta_input b));
  }

  -- A delta whose cursor is the current one: the last delta again, or another one.
  abbrev pub replayed : DeltaBatch → Generation → Store → Result Error Store
  replayed b g s =
      require (same_delta g.last_delta (sha256 (delta_input b))) replay_conflict >> ok s

  abbrev pub advance : ℕ → DeltaBatch → Generation → Store → Result Error Store
  advance now b g s = do
    require (text_eq g.cursor b.previous) (cursor_mismatch g.cursor b.previous)
    values ← mutate_all b.mutations g.values
    ok (record s { states = insert b.schema.id (advanced now b g values) s.states })

  -- ApplyDelta. On an error the store is as before.
  unfoldable pub apply_delta : ℕ → Context → DeltaBatch → Store → Result Error Store
  unfolding compatible_schema mutate_all
  apply_delta now ctx b s = do
    validate_context ctx
    require (valid_batch b) invalid_delta
    g ← found (lookup b.schema.id s.states)
    compatible_schema g.schema b.schema
    if text_eq g.cursor b.cursor then replayed b g s else advance now b g s

abbrev pub value_in : Text → Option Generation → Option Text
value_in key none = none
value_in key (some g) = lookup key g.values

-- Get; none is the false result.
unfoldable pub get : Context → Text → Text → Store → Result Error (Option Text)
get ctx id key s = do
  validate_context ctx
  require (valid_projection_id id) invalid_projection_id
  require (valid_mutation (upsert key [])) invalid_mutation
  ok (value_in key (lookup id s.states))

abbrev checkpoint_in : Option Generation → Option Checkpoint
checkpoint_in none = none
checkpoint_in (some g) = some (record {
  schema = g.schema;
  cursor = g.cursor;
  generation = g.generation;
  source_time = g.source_time;
  applied_at = g.applied_at;
})

-- Checkpoint
unfoldable pub checkpoint : Context → Text → Store → Result Error (Option Checkpoint)
checkpoint ctx id s = do
  validate_context ctx
  require (valid_projection_id id) invalid_projection_id
  ok (checkpoint_in (lookup id s.states))
