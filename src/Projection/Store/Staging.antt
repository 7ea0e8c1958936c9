-- ===== src/Projection/Store/Staging.antt =====
-- programmable/projection/memory/store.go: the rows that a snapshot transaction stages.
use keelith.Prelude.{
  true, false, List, [], ◌∷◌, none, ◌≡◌, refl, ◌∙◌, inl, inr, arith, Bool-cases, keep,
}
use keelith.Prelude.Text.{Text}
use keelith.Prelude.Maps.{Map, lookup, insert, delete}
use keelith.Prelude.Results.{Result, ok, err}
use keelith.Projection.{
  Error, MutationKind, mutation_upsert, mutation_delete, other_mutation, Mutation, valid_mutation,
  valid_payload,
}
use keelith.Projection.Store.{SnapshotTxn, stage, mutate}
use keelith.Projection.Store.Deltas.{
  View, change, change_all, view_of, mutate-change, change_all-ext,
}

-- A list of Stage calls, whose errors are ignored.
abbrev pub staged : SnapshotTxn → Result Error SnapshotTxn → SnapshotTxn
staged t (ok u) = u
staged t (err e) = t

unfoldable pub stage_all : List Mutation → SnapshotTxn → SnapshotTxn
stage_all [] t = t
stage_all (m ∷ ms) t = stage_all ms (staged t (stage m t))

abbrev pub no_rows : View
no_rows k = none

pub lookup-none : (k : Text) → view_of [] k ≡ none
unfolding lookup
lookup-none k = refl

-- An open transaction that differs from t in its rows alone.
abbrev Open : SnapshotTxn → SnapshotTxn → Type 0
Open t u = (u.closed ≡ false) × (u.schema ≡ t.schema) × (u.base_generation ≡ t.base_generation)

mutate-valid :
    (kind : MutationKind) (k x : Text) (v : Map Text)
    → valid_payload kind x ≡ true
    → (w : Map Text) × (mutate kind k x v ≡ ok w)
unfolding mutate
mutate-valid mutation_upsert k x v e = (insert k x v, refl)
mutate-valid mutation_delete k x v e = (delete k v, refl)
mutate-valid (other_mutation n) k x v e = absurd (ground arith)

valid_mutation-payload :
    (m : Mutation) → valid_mutation m ≡ true → valid_payload m.kind m.value ≡ true
unfolding valid_mutation
valid_mutation-payload m e = ground arith

stage-valid :
    (m : Mutation) (t : SnapshotTxn)
    → t.closed ≡ false
    → valid_mutation m ≡ true
    → (w : Map Text) × (stage m t ≡ ok (record t { values = w }))
      × (mutate m.kind m.key m.value t.values ≡ ok w)
unfolding stage
stage-valid m t c e =
    let (w, f) = mutate-valid m.kind m.key m.value t.values (valid_mutation-payload m e) in
    (w, ground (arith, f), f)

stage-invalid :
    (m : Mutation) (t : SnapshotTxn) → valid_mutation m ≡ false → staged t (stage m t) ≡ t
unfolding stage
stage-invalid m t e = ground arith

-- The rows of an open transaction after some Stage calls are its rows with the valid mutations done.
pub stage_all-change :
    (ms : List Mutation) (t : SnapshotTxn)
    → t.closed ≡ false
    → Open t (stage_all ms t)
      × ((k : Text)
          → view_of (stage_all ms t).values k
            ≡ change_all (keep valid_mutation ms) (view_of t.values) k)
unfolding stage_all change_all
stage_all-change [] t c = ((c, refl, refl), λ k. refl)
stage_all-change (m ∷ ms) t c = elim (Bool-cases (valid_mutation m)) [
  | inl e ↦
      let (w, f, g) = stage-valid m t c e in
      let kept : keep valid_mutation (m ∷ ms) ≡ m ∷ keep valid_mutation ms = ground (arith, e) in
      let (same, rows) = stage_all-change ms (record t { values = w }) c in
      rw (stage_all, f, kept)
        (
          same,
          λ k.
              rows k
              ∙ change_all-ext (keep valid_mutation ms) (view_of w) (change m (view_of t.values))
                  (mutate-change m t.values w g) k,
        )
  | inr e ↦
      let kept : keep valid_mutation (m ∷ ms) ≡ keep valid_mutation ms = ground (arith, e) in
      rw (stage_all, stage-invalid m t e, kept) (stage_all-change ms t c)
]
