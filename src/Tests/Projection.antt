-- ===== src/Tests/Projection.antt =====
-- programmable/projection: deltas of a projection of two rows, and a snapshot of it.
use keelith.Prelude.{ℕ, false, List, [], ◌∷◌, none, some, ◌≡◌, refl, arith}
use keelith.Prelude.Text.{Text, text_eq, codes}
use keelith.Prelude.Maps.{lookup, insert, delete}
use keelith.Prelude.Contexts.{live, ended}
use keelith.Prelude.Results.{ok}
use keelith.Projection.{Schema, Mutation, upsert, tombstone, DeltaBatch, valid_schema, valid_batch}
use keelith.Projection.{valid_mutation, valid_identity}
use keelith.Continuation.Apply.{big_endian}
use keelith.Projection.Store
use keelith.Projection.Store.{
  Generation, Store, SnapshotTxn, begin_snapshot, commit, apply_delta, new_store,
}
use keelith.Projection.Store.Deltas.{
  apply_deltas, Replayed, DeltaCall, apply_deltas-Replayed, apply_delta-retry,
}
use keelith.Projection.Store.Snapshots.{commit-isolated, history, Change, deltas, commits, Written}
use keelith.Projection.Store.Staging.{stage_all}

abbrev sixty_four : ℕ → Text
sixty_four c =
    c ∷ c ∷ c ∷ c ∷ c ∷ c ∷ c ∷ c ∷ c ∷ c ∷ c ∷ c ∷ c ∷ c ∷ c ∷ c ∷ c ∷ c ∷ c ∷ c ∷ c ∷ c ∷ c ∷ c
    ∷ c ∷ c ∷ c ∷ c ∷ c ∷ c ∷ c ∷ c ∷ c ∷ c ∷ c ∷ c ∷ c ∷ c ∷ c ∷ c ∷ c ∷ c ∷ c ∷ c ∷ c ∷ c ∷ c ∷ c
    ∷ c ∷ c ∷ c ∷ c ∷ c ∷ c ∷ c ∷ c ∷ c ∷ c ∷ c ∷ c ∷ c ∷ c ∷ c ∷ c ∷ []

abbrev orders : Schema
orders = record {
  id = codes "orders";
  fingerprint = sixty_four 97;
  key_fingerprint = sixty_four 98;
  compatible = [];
}

-- A stand-in for sha256.
abbrev hash : Text → Text
hash bytes = bytes

abbrev snapshot_rows : List Mutation
snapshot_rows =
    upsert (codes "o1") (codes "open") ∷ upsert [] [] ∷ upsert (codes "o2") (codes "paid") ∷ []

abbrev begun : SnapshotTxn
begun = record { schema = orders; base_generation = 0; values = []; closed = false }

abbrev filled : Store
filled = (commit 9 live (codes "c1") 5 (stage_all snapshot_rows begun) new_store).1

abbrev orders_now : Generation
orders_now = record {
  schema = orders;
  cursor = codes "c1";
  generation = 1;
  source_time = 5;
  applied_at = 9;
  values = insert (codes "o2") (codes "paid") (insert (codes "o1") (codes "open") []);
  last_delta = none;
}

abbrev delta : Text → Text → Mutation → DeltaBatch
delta previous cursor m = record {
  schema = orders;
  previous = previous;
  cursor = cursor;
  source_time = 6;
  mutations = m ∷ [];
}

abbrev calls : List DeltaCall
calls =
    (10, live, delta (codes "c1") (codes "c2") (tombstone (codes "o1")))
    ∷ (11, ended 1, delta (codes "c2") (codes "c3") (tombstone (codes "o2")))
    ∷ (12, live, delta (codes "c1") (codes "c2") (tombstone (codes "o1")))
    ∷ (13, live, delta (codes "c2") (codes "c4") (upsert (codes "o3") (codes "open")))
    ∷ []

filled-orders : lookup (codes "orders") filled.states ≡ some orders_now
unfolding commit stage_all Store.stage valid_mutation Store.mutate lookup insert Store.commit_checks
    valid_identity text_eq
filled-orders = refl

apply_deltas-Replayed_example :
    (h : Generation) × (lookup (codes "orders") (apply_deltas hash calls filled).states ≡ some h)
    × Replayed calls orders_now h
apply_deltas-Replayed_example =
    apply_deltas-Replayed hash calls filled (codes "orders") orders_now filled-orders

calls_run :
    Store.get live (codes "orders") (codes "o3") (apply_deltas hash calls filled)
    ≡ ok (some (codes "open"))
unfolding apply_deltas apply_delta valid_batch valid_schema commit stage_all Store.stage
    valid_mutation Store.mutate lookup insert delete Store.commit_checks valid_identity text_eq
    Store.get Store.delta_input big_endian
calls_run = refl

abbrev advanced_once : Store
advanced_once =
    apply_deltas hash ((10, live, delta (codes "c1") (codes "c2") (tombstone (codes "o1"))) ∷ [])
      filled

begun-begins : begin_snapshot live orders new_store ≡ ok begun
unfolding begin_snapshot valid_schema lookup valid_identity
begun-begins = refl

-- Another projection's snapshot is committed in between.
abbrev payments : SnapshotTxn
payments = record begun { schema = record orders { id = codes "payments" } }

abbrev between : List Change
between =
    commits 7 live (codes "p1") 5 payments
    ∷ deltas 8 live (delta (codes "c1") (codes "c2") (tombstone (codes "o1")))
    ∷ []

abbrev after_between : Store
after_between = history hash between new_store

committed :
    (commit 9 live
      (codes "c1")
      5
      (stage_all snapshot_rows begun)
      (history hash between new_store)).2
    ≡ none
unfolding history apply_delta commit stage_all Store.stage valid_mutation Store.mutate lookup insert
    Store.commit_checks valid_identity text_eq valid_batch
committed = refl

commit-isolated_example :
    (lookup (codes "orders") after_between.states ≡ none)
    × (h : Generation) × (lookup
          (codes "orders")
          (commit 9 live (codes "c1") 5 (stage_all snapshot_rows begun) after_between).1.states
        ≡ some h)
    × Written (codes "c1") 0 snapshot_rows h
unfolding lookup history
commit-isolated_example =
    commit-isolated hash live orders new_store begun snapshot_rows between 9 live (codes "c1") 5
      begun-begins (omega arith) committed

once :
    apply_delta hash 10 live (delta (codes "c1") (codes "c2") (tombstone (codes "o1"))) filled
    ≡ ok advanced_once
unfolding apply_deltas apply_delta valid_batch valid_schema commit stage_all Store.stage
    valid_mutation Store.mutate lookup insert delete Store.commit_checks valid_identity text_eq
    Store.get Store.delta_input big_endian
once = refl

apply_delta-retry_example :
    apply_delta hash 11 live
      (delta (codes "c1") (codes "c2") (tombstone (codes "o1")))
      advanced_once
    ≡ ok advanced_once
apply_delta-retry_example =
    apply_delta-retry hash 10 11 live (delta (codes "c1") (codes "c2") (tombstone (codes "o1")))
      filled advanced_once once
