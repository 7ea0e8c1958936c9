-- ===== src/Projection/Store/Snapshots.antt =====
-- programmable/projection/memory/store.go: what a snapshot transaction stages, and what its commit
-- does when other calls came between.
use keelith.Prelude.{
  ℕ, ◌+◌, ◌<◌, ◌==◌, false, List, [], ◌∷◌, length, none, some, ◌≡◌, refl, ap, ◌∙◌, subst, inl, inr,
  ◌⊎◌, arith, Bool-cases, keep, ==_iff,
}
use keelith.Prelude.Text.{Text, text_eq, text_eq_iff}
use keelith.Prelude.Maps.{lookup, insert, lookup-insert, lookup-insert_self}
use keelith.Prelude.Words.{u64_mod, add_u64}
use keelith.Prelude.Results.{Result, ok, err, Result-cases}
use keelith.Prelude.Contexts.{Context}
use keelith.Projection.{Error, Schema, Mutation, DeltaBatch, valid_mutation}
use keelith.Projection.Store.{
  Generation, Store, SnapshotTxn, begin_snapshot, commit, commit_checks, commit_checked,
  committed_state, generation_in, mutate_all, apply_delta, advance, advanced,
}
use keelith.Projection.Store.Deltas.{
  change_all, view_of, change_all-ext, advance-other, apply_delta-cases,
}
use keelith.Projection.Store.Staging.{stage_all, no_rows, lookup-none, stage_all-change}

-- A call that may change the store: a delta, or the commit of any transaction.
pub data Change : Type 0 where
  deltas : ℕ → Context → DeltaBatch → Change
  commits : ℕ → Context → Text → ℕ → SnapshotTxn → Change

abbrev settled : Store → Result Error Store → Store
settled s (ok s') = s'
settled s (err e) = s

-- The projection that a snapshot has written: its cursor, the next generation, and the rows that
-- its valid mutations give from none.
abbrev pub Written : Text → ℕ → List Mutation → Generation → Type 0
Written cursor base ms h =
    (h.cursor ≡ cursor)
    × (h.generation ≡ base + 1)
    × ((k : Text) → view_of h.values k ≡ change_all (keep valid_mutation ms) no_rows k)

module _ (sha256 : Text → Text) where
  abbrev pub after : Change → Store → Store
  after (deltas now ctx b) s = settled s (apply_delta sha256 now ctx b s)
  after (commits now ctx cursor source_time t) s = (commit now ctx cursor source_time t s).1

  unfoldable pub history : List Change → Store → Store
  history [] s = s
  history (x ∷ xs) s = history xs (after x s)

  -- A projection is as before, or its generation is the next one.
  abbrev Grown : Text → Store → Store → Type 0
  Grown id s s' =
      (lookup id s'.states ≡ lookup id s.states)
      ⊎ (generation_in (lookup id s'.states) ≡ generation_in (lookup id s.states) + 1)

  advance-Grown :
      (now : ℕ) (b : DeltaBatch) (g : Generation) (s s' : Store) (id : Text)
      → lookup b.schema.id s.states ≡ some g
      → advance sha256 now b g s ≡ ok s'
      → generation_in (lookup id s.states) + 1 < u64_mod
      → Grown id s s'
  advance-Grown now b g s s' id f e u = elim (Bool-cases (text_eq b.schema.id id)) [
    | inl i ↦ elim (Result-cases (mutate_all b.mutations g.values)) [
      | inl (values, m) ↦
          let here = (text_eq_iff b.schema.id id).0 i in
          let left : s'
              ≡ record s { states = insert b.schema.id (advanced sha256 now b g values) s.states } =
            ground (arith, m) in
          let mine : lookup id s.states ≡ some g = subst (λ j. lookup j s.states ≡ some g) here f in
          let next : generation_in (lookup id s'.states) ≡ add_u64 g.generation 1 =
            rw (left, lookup-insert b.schema.id id (advanced sha256 now b g values) s.states, i)
              refl in
          inr (next ∙ ground (arith, mine, u))
      | inr (x, m) ↦ absurd (ground (arith, m))
    ]
    | inr i ↦ inl (advance-other sha256 now b g s s' id e i)
  ]

  commit_checked-Grown :
      (now : ℕ) (cursor : Text) (source_time : ℕ) (t : SnapshotTxn) (s : Store) (id : Text)
      → generation_in (lookup id s.states) + 1 < u64_mod
      → Grown id s (commit_checked now cursor source_time t s).1
  commit_checked-Grown now cursor source_time t s id u =
      elim (Bool-cases (text_eq t.schema.id id)) [
        | inl i ↦
            elim (Bool-cases (generation_in (lookup t.schema.id s.states) == t.base_generation)) [
              | inl g ↦
                  let here = (text_eq_iff t.schema.id id).0 i in
                  let base : generation_in (lookup id s.states) ≡ t.base_generation =
                    subst (λ j. generation_in (lookup j s.states) ≡ t.base_generation) here
                      ((==_iff (generation_in (lookup t.schema.id s.states)) t.base_generation).0
                        g) in
                  let next : generation_in
                        (lookup id (commit_checked now cursor source_time t s).1.states)
                      ≡ add_u64 t.base_generation 1 =
                    rw
                      (
                        g,
                        lookup-insert t.schema.id id (committed_state now cursor source_time t)
                            s.states,
                        i,
                      )
                      refl in
                  inr (next ∙ ground (arith, base, u))
              | inr g ↦ inl (rw g refl)
            ]
        | inr i ↦ inl (
            ground (
              arith,
              i,
              lookup-insert t.schema.id id (committed_state now cursor source_time t) s.states,
            ))
      ]

  commit-Grown :
      (now : ℕ) (ctx : Context) (cursor : Text) (source_time : ℕ) (t : SnapshotTxn) (s : Store)
      (id : Text)
      → generation_in (lookup id s.states) + 1 < u64_mod
      → Grown id s (commit now ctx cursor source_time t s).1
  unfolding commit
  commit-Grown now ctx cursor source_time t s id u =
      elim (Result-cases (commit_checks ctx cursor source_time t s)) [
        | inl (x, f) ↦ rw (commit, f) (commit_checked-Grown now cursor source_time t s id u)
        | inr (x, f) ↦ rw (commit, f) (inl refl)
      ]

  after-Grown :
      (x : Change) (s : Store) (id : Text)
      → generation_in (lookup id s.states) + 1 < u64_mod
      → Grown id s (after x s)
  after-Grown (deltas now ctx b) s id u = elim (Result-cases (apply_delta sha256 now ctx b s)) [
    | inl (s', e) ↦
        let (g, f, moved) = apply_delta-cases sha256 now ctx b s s' e in
        rw e (elim moved [
          | inl same ↦ inl (ap (λ x. lookup id x.states) same)
          | inr a ↦ advance-Grown now b g s s' id f a u
        ])
    | inr (x, e) ↦ rw e (inl refl)
  ]
  after-Grown (commits now ctx cursor source_time t) s id u =
      commit-Grown now ctx cursor source_time t s id u

  -- A history leaves a projection as it is or raises its generation.
  history-grows :
      (xs : List Change) (s : Store) (id : Text)
      → generation_in (lookup id s.states) + length xs < u64_mod
      → (lookup id (history xs s).states ≡ lookup id s.states)
        ⊎ (generation_in (lookup id s.states) < generation_in (lookup id (history xs s).states))
  unfolding history
  history-grows [] s id u = inl refl
  history-grows (x ∷ xs) s id u = elim (after-Grown x s id (omega arith)) [
    | inl same ↦
        subst
          (λ o.
            (lookup id (history xs (after x s)).states ≡ o)
            ⊎ (generation_in o < generation_in (lookup id (history xs (after x s)).states)))
          same (history-grows xs (after x s) id (rw same (omega arith)))
    | inr more ↦ elim (history-grows xs (after x s) id (rw more (omega arith))) [
      | inl later ↦ let equal = ap generation_in later in inr (omega arith)
      | inr later ↦ inr (omega arith)
    ]
  ]

  abbrev begun : Schema → Store → SnapshotTxn
  begun schema s = record {
    schema = schema;
    base_generation = generation_in (lookup schema.id s.states);
    values = [];
    closed = false;
  }

  begin_snapshot-eq_ok :
      (ctx : Context) (schema : Schema) (s : Store) (t : SnapshotTxn)
      → begin_snapshot ctx schema s ≡ ok t
      → (t.closed ≡ false)
        × (t.schema ≡ schema)
        × (t.base_generation ≡ generation_in (lookup schema.id s.states))
        × (t.values ≡ [])
  unfolding begin_snapshot
  begin_snapshot-eq_ok ctx schema s t e =
      let same : t ≡ begun schema s = ground (arith, e) in
      (
        ap (λ x. x.closed) same,
        ap (λ x. x.schema) same,
        ap (λ x. x.base_generation) same,
        ap (λ x. x.values) same,
      )

  commit-eq_none :
      (now : ℕ) (ctx : Context) (cursor : Text) (source_time : ℕ) (t : SnapshotTxn) (s : Store)
      → (commit now ctx cursor source_time t s).2 ≡ none
      → (generation_in (lookup t.schema.id s.states) ≡ t.base_generation)
        × (lookup t.schema.id (commit now ctx cursor source_time t s).1.states
            ≡ some (committed_state now cursor source_time t))
  unfolding commit
  commit-eq_none now ctx cursor source_time t s e =
      elim (Result-cases (commit_checks ctx cursor source_time t s)) [
        | inl (x, f) ↦
            elim (Bool-cases (generation_in (lookup t.schema.id s.states) == t.base_generation)) [
              | inl g ↦ (
                (==_iff (generation_in (lookup t.schema.id s.states)) t.base_generation).0 g,
                rw (commit, f, g)
                    (lookup-insert_self t.schema.id (committed_state now cursor source_time t)
                      s.states),
              )
              | inr g ↦ absurd (ground (arith, e, f, g))
            ]
        | inr (x, f) ↦ absurd (ground (arith, e, f))
      ]

  -- A snapshot transaction is isolated: let it begin in the store s, stage any mutations, and let any
  -- history of deltas and commits of other transactions pass, fewer than the generations that are
  -- left in a uint64. When Commit then returns no error, the projection is in the store exactly as it
  -- was in s, and after the commit it has the cursor of the commit, the next generation, and as its
  -- rows what the valid mutations staged give, in their order, from no rows.
  pub commit-isolated :
      (ctx : Context) (schema : Schema) (s : Store) (t : SnapshotTxn) (ms : List Mutation)
      (xs : List Change) (now : ℕ) (later : Context) (cursor : Text) (source_time : ℕ)
      → begin_snapshot ctx schema s ≡ ok t
      → generation_in (lookup schema.id s.states) + length xs + 1 < u64_mod
      → (commit now later cursor source_time (stage_all ms t) (history xs s)).2 ≡ none
      → (lookup schema.id (history xs s).states ≡ lookup schema.id s.states)
        × (h : Generation) × (lookup schema.id
              (commit now later cursor source_time (stage_all ms t) (history xs s)).1.states
            ≡ some h)
        × Written cursor (generation_in (lookup schema.id s.states)) ms h
  commit-isolated ctx schema s t ms xs now later cursor source_time b u e =
      let (still, of_schema, base, none_yet) = begin_snapshot-eq_ok ctx schema s t b in
      let ((c, same_schema, same_base), rows) = stage_all-change ms t still in
      let (equal, left) =
        commit-eq_none now later cursor source_time (stage_all ms t) (history xs s) e in
      let named : (stage_all ms t).schema.id ≡ schema.id =
        ap (λ x. x.id) (same_schema ∙ of_schema) in
      let kept : generation_in (lookup schema.id (history xs s).states)
          ≡ generation_in (lookup schema.id s.states) =
        subst
          (λ j. generation_in (lookup j (history xs s).states) ≡ (stage_all ms t).base_generation)
          named equal
        ∙ same_base
        ∙ base in
      (
        (elim (history-grows xs s schema.id (omega arith)) [
          | inl same ↦ same
          | inr more ↦ absurd (omega arith)
        ]),
        committed_state now cursor source_time (stage_all ms t),
        subst
            (λ j.
              lookup j
                (commit now later cursor source_time (stage_all ms t) (history xs s)).1.states
              ≡ some (committed_state now cursor source_time (stage_all ms t)))
            named left,
        (
          refl,
          let from : (stage_all ms t).base_generation ≡ generation_in (lookup schema.id s.states) =
                same_base ∙ base in
              ground (arith, from, u),
          λ k.
              rows k
              ∙ change_all-ext (keep valid_mutation ms) (view_of t.values) no_rows
                  (λ j. ap (λ m. view_of m j) none_yet ∙ lookup-none j) k,
        ),
      )
