-- ===== src/Projection/Store/Deltas.antt =====
-- programmable/projection/memory/store.go: deltas as changes of a view from keys to values.
use mathlib.Core.Option.{some-injective}
use keelith.Prelude.{
  ℕ, true, false, List, [], ◌∷◌, if◌then◌else◌, Option, none, some, ◌≡◌, refl, sym, ap, ◌∙◌, subst,
  inl, inr, ◌⊎◌, arith, Bool-cases, Option-cases,
}
use keelith.Prelude.Text.{Text, text_eq, text_eq_iff, text_eq_refl}
use keelith.Prelude.Maps.{Map, lookup, insert, lookup-insert, lookup-delete, lookup-insert_self}
use keelith.Prelude.Results.{Result, ok, err, Result-cases, >>=-eq_ok}
use keelith.Prelude.Contexts.{Context, live}
use keelith.Projection.{
  Error, MutationKind, mutation_upsert, mutation_delete, other_mutation, Mutation, DeltaBatch,
}
use keelith.Projection.Store.{
  Generation, Store, compatible_schema, mutate, mutate_all, apply_delta, advance, advanced,
  delta_input,
}

-- What a consumer sees of a projection.
abbrev pub View : Type 0
View = Text → Option Text

abbrev put : MutationKind → Text → Option Text → Option Text
put mutation_upsert value old = some value
put mutation_delete value old = none
put (other_mutation n) value old = old

abbrev pub change : Mutation → View → View
change m v k = if text_eq m.key k then put m.kind m.value (v k) else v k

unfoldable pub change_all : List Mutation → View → View
change_all [] v = v
change_all (m ∷ ms) v = change_all ms (change m v)

abbrev pub view_of : Map Text → View
view_of m k = lookup k m

pub mutate-change :
    (x : Mutation) (m m' : Map Text)
    → mutate x.kind x.key x.value m ≡ ok m'
    → (k : Text) → view_of m' k ≡ change x (view_of m) k
unfolding mutate
mutate-change x m m' e k = ground (arith, lookup-insert x.key k x.value m, lookup-delete x.key k m)

pub change_all-ext :
    (ms : List Mutation) (v w : View)
    → ((k : Text) → v k ≡ w k)
    → (k : Text) → change_all ms v k ≡ change_all ms w k
unfolding change_all
change_all-ext [] v w h k = h k
change_all-ext (m ∷ ms) v w h k = change_all-ext ms (change m v) (change m w) (λ j. rw (h j) refl) k

mutate_all-change :
    (ms : List Mutation) (m m' : Map Text)
    → mutate_all ms m ≡ ok m'
    → (k : Text) → view_of m' k ≡ change_all ms (view_of m) k
unfolding mutate_all change_all
mutate_all-change [] m m' e k = ground arith
mutate_all-change (x ∷ xs) m m' e k =
    let (next, f, g) = >>=-eq_ok (mutate x.kind x.key x.value m) (mutate_all xs) e in
    mutate_all-change xs next m' g k
    ∙ change_all-ext xs (view_of next) (change x (view_of m)) (mutate-change x m next f) k

-- The rows after a log of deltas, and the cursors that the log goes through.
unfoldable pub replay : List DeltaBatch → View → View
replay [] v = v
replay (b ∷ bs) v = replay bs (change_all b.mutations v)

unfoldable pub Chain : Text → List DeltaBatch → Text → Type 0
Chain from [] to = from ≡ to
Chain from (b ∷ bs) to = (b.previous ≡ from) × Chain b.cursor bs to

-- A call of ApplyDelta: its time, its context and its delta.
abbrev pub DeltaCall : Type 0
DeltaCall = ℕ × Context × DeltaBatch

-- The log holds deltas of the calls, in the order of the calls and each call at most once.
pub data Picks : List DeltaBatch → List DeltaCall → Type 0 where
  nothing : Picks [] []
  skips :
      {log : List DeltaBatch} {calls : List DeltaCall} (call : DeltaCall)
      → Picks log calls
      → Picks log (call ∷ calls)
  takes :
      {log : List DeltaBatch} {calls : List DeltaCall} (now : ℕ) (ctx : Context) (b : DeltaBatch)
      → Picks log calls
      → Picks (b ∷ log) ((now, ctx, b) ∷ calls)

replay-ext :
    (log : List DeltaBatch) (v w : View)
    → ((k : Text) → v k ≡ w k)
    → (k : Text) → replay log v k ≡ replay log w k
unfolding replay
replay-ext [] v w h k = h k
replay-ext (b ∷ log) v w h k =
    replay-ext log (change_all b.mutations v) (change_all b.mutations w)
      (change_all-ext b.mutations v w h) k

-- What a projection is after some calls: the generation h, reached from g along a log of them.
abbrev pub Replayed : List DeltaCall → Generation → Generation → Type 0
Replayed calls g h =
    (log : List DeltaBatch) × Picks log calls
    × Chain g.cursor log h.cursor
    × ((k : Text) → view_of h.values k ≡ replay log (view_of g.values) k)

module _ (sha256 : Text → Text) where
  -- What a call of ApplyDelta has done to the projection id.
  abbrev Advances : Text → DeltaBatch → Generation → Store → Type 0
  Advances id b g s' =
      (h : Generation) × (lookup id s'.states ≡ some h)
      × (b.previous ≡ g.cursor)
      × (h.cursor ≡ b.cursor)
      × ((k : Text) → view_of h.values k ≡ change_all b.mutations (view_of g.values) k)

  advance-Advances :
      (now : ℕ) (b : DeltaBatch) (g : Generation) (s s' : Store)
      → advance sha256 now b g s ≡ ok s'
      → Advances b.schema.id b g s'
  advance-Advances now b g s s' e = elim (Result-cases (mutate_all b.mutations g.values)) [
    | inl (values, f) ↦
        let left : s'
            ≡ record s { states = insert b.schema.id (advanced sha256 now b g values) s.states } =
          ground (arith, f) in
        let continues : text_eq g.cursor b.previous ≡ true = ground arith in
        (
          advanced sha256 now b g values,
          rw left (lookup-insert_self b.schema.id (advanced sha256 now b g values) s.states),
          sym ((text_eq_iff g.cursor b.previous).0 continues),
          refl,
          mutate_all-change b.mutations g.values values f,
        )
    | inr (x, f) ↦ absurd (ground (arith, f))
  ]

  -- A delta of another projection leaves this one alone.
  pub advance-other :
      (now : ℕ) (b : DeltaBatch) (g : Generation) (s s' : Store) (id : Text)
      → advance sha256 now b g s ≡ ok s'
      → text_eq b.schema.id id ≡ false
      → lookup id s'.states ≡ lookup id s.states
  advance-other now b g s s' id e d = elim (Result-cases (mutate_all b.mutations g.values)) [
    | inl (values, f) ↦
        let left : s'
            ≡ record s { states = insert b.schema.id (advanced sha256 now b g values) s.states } =
          ground (arith, f) in
        rw (left, lookup-insert b.schema.id id (advanced sha256 now b g values) s.states, d) refl
    | inr (x, f) ↦ absurd (ground (arith, f))
  ]

  -- A call of ApplyDelta that succeeds finds the projection, and does nothing or advances it.
  pub apply_delta-cases :
      (now : ℕ) (ctx : Context) (b : DeltaBatch) (s s' : Store)
      → apply_delta sha256 now ctx b s ≡ ok s'
      → (g : Generation) × (lookup b.schema.id s.states ≡ some g)
        × ((s' ≡ s) ⊎ (advance sha256 now b g s ≡ ok s'))
  unfolding apply_delta
  apply_delta-cases now ctx b s s' e = elim (Option-cases (lookup b.schema.id s.states)) [
    | inl f ↦ absurd (ground (arith, f))
    | inr (g, f) ↦ (
      g,
      f,
      (elim (Bool-cases (text_eq g.cursor b.cursor)) [
        | inl c ↦ inl (ground (arith, f, c))
        | inr c ↦ inr (ground (arith, f, c))
      ]),
    )
  ]

  -- A delta that was applied can be sent again: when ApplyDelta returns no error, the same delta on
  -- the store that it leaves, at any later time and in a live context, returns no error and changes
  -- nothing.
  pub apply_delta-retry :
      (now later : ℕ) (ctx : Context) (b : DeltaBatch) (s s' : Store)
      → apply_delta sha256 now ctx b s ≡ ok s'
      → apply_delta sha256 later live b s' ≡ ok s'
  unfolding apply_delta compatible_schema
  apply_delta-retry now later ctx b s s' e = elim (Option-cases (lookup b.schema.id s.states)) [
    | inl f ↦ absurd (ground (arith, f))
    | inr (g, f) ↦ elim (Bool-cases (text_eq g.cursor b.cursor)) [
      | inl c ↦ let same : s' ≡ s = ground (arith, e, f, c) in rw same (ground (arith, e, f, c))
      | inr c ↦ elim (Result-cases (mutate_all b.mutations g.values)) [
        | inl (values, m) ↦
            let left : s' ≡ record s {
              states = insert b.schema.id (advanced sha256 now b g values) s.states;
            } =
              ground (arith, e, f, c, m) in
            let here : lookup b.schema.id s'.states ≡ some (advanced sha256 now b g values) =
              rw left (lookup-insert_self b.schema.id (advanced sha256 now b g values) s.states) in
            ground (
              arith,
              e,
              here,
              text_eq_refl b.cursor,
              text_eq_refl (sha256 (delta_input b)),
              text_eq_refl b.schema.fingerprint,
              text_eq_refl b.schema.key_fingerprint,
            )
        | inr (x, m) ↦ absurd (ground (arith, e, f, c, m))
      ]
    ]
  ]

  -- Either the projection is as before, or the delta is one of its own and has advanced it.
  abbrev Outcome : Text → DeltaBatch → Generation → Store → Type 0
  Outcome id b g s' = (lookup id s'.states ≡ some g) ⊎ Advances id b g s'

  apply_delta-Outcome :
      (now : ℕ) (ctx : Context) (b : DeltaBatch) (s s' : Store) (id : Text) (g : Generation)
      → apply_delta sha256 now ctx b s ≡ ok s'
      → lookup id s.states ≡ some g
      → Outcome id b g s'
  apply_delta-Outcome now ctx b s s' id g e f =
      let (h, own, done) = apply_delta-cases now ctx b s s' e in
      elim done [
        | inl same ↦ inl (rw same f)
        | inr moved ↦ elim (Bool-cases (text_eq b.schema.id id)) [
          | inl i ↦
              let here = (text_eq_iff b.schema.id id).0 i in
              let is_g : h ≡ g =
                some-injective h g (sym own ∙ ap (λ j. lookup j s.states) here ∙ f) in
              inr (
                subst (λ j. Advances j b g s') here
                  (subst (λ x. Advances b.schema.id b x s') is_g
                    (advance-Advances now b h s s' moved)))
          | inr i ↦ inl (advance-other now b h s s' id moved i ∙ f)
        ]
      ]

  -- The store after a list of calls of ApplyDelta, at their times and contexts.
  abbrev settled : Store → Result Error Store → Store
  settled s (ok s') = s'
  settled s (err e) = s

  unfoldable pub apply_deltas : List DeltaCall → Store → Store
  apply_deltas [] s = s
  apply_deltas ((now, ctx, b) ∷ calls) s =
      apply_deltas calls (settled s (apply_delta sha256 now ctx b s))

  settled-Outcome :
      (now : ℕ) (ctx : Context) (b : DeltaBatch) (s : Store) (id : Text) (g : Generation)
      → lookup id s.states ≡ some g
      → Outcome id b g (settled s (apply_delta sha256 now ctx b s))
  settled-Outcome now ctx b s id g f = elim (Result-cases (apply_delta sha256 now ctx b s)) [
    | inl (s', e) ↦ rw e (apply_delta-Outcome now ctx b s s' id g e f)
    | inr (x, e) ↦ rw e (inl f)
  ]

  -- ApplyDelta refines the replay of a log: after every list of calls, whichever of them fail or
  -- repeat a delta, there is a log of deltas of these calls, in their order, whose cursors lead from
  -- the old cursor of the projection to the new one without a gap, and the visible rows are the old
  -- rows with the changes of that log applied in its order.
  pub apply_deltas-Replayed :
      (calls : List DeltaCall) (s : Store) (id : Text) (g : Generation)
      → lookup id s.states ≡ some g
      → (h : Generation) × (lookup id (apply_deltas calls s).states ≡ some h) × Replayed calls g h
  unfolding apply_deltas replay Chain
  apply_deltas-Replayed [] s id g f = (g, f, ([], nothing, refl, λ k. refl))
  apply_deltas-Replayed ((now, ctx, b) ∷ calls) s id g f =
      let t = settled s (apply_delta sha256 now ctx b s) in
      elim (settled-Outcome now ctx b s id g f) [
        | inl same ↦
            let (h, left, (log, picks, chain, seen)) = apply_deltas-Replayed calls t id g same in
            (h, left, (log, skips (now, ctx, b) picks, chain, seen))
        | inr (x, e, before, cursor, rows) ↦
            let (h, left, (log, picks, chain, seen)) = apply_deltas-Replayed calls t id x e in
            (
              h,
              left,
              (
                b ∷ log,
                takes now ctx b picks,
                (before, subst (λ c. Chain c log h.cursor) cursor chain),
                λ k.
                    seen k
                    ∙ replay-ext log (view_of x.values) (change_all b.mutations (view_of g.values))
                        rows k,
              ),
            )
      ]
