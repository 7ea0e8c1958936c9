-- ===== src/Saga/Repository/Fencing.antt =====
-- saga/memory/repository.go: revisions and fences over a history of calls.
use keelith.Prelude.{
  ℕ, ◌+◌, ◌≤◌, ◌<◌, true, false, List, [], ◌∷◌, if◌then◌else◌, Option, none, some, is_some, ◌≡◌,
  refl, sym, subst, inl, inr, ◌⊎◌, arith,
}
use keelith.Prelude.Text.{Text, text_eq, text_eq_iff, text_eq_refl}
use keelith.Prelude.Maps.{lookup, lookup-insert}
use keelith.Prelude.Words.{u64_mod}
use keelith.Prelude.Results.{Result, ok, err, Result-cases, is_ok}
use keelith.Prelude.Contexts.{Context}
use keelith.Saga.{Record, valid_record, well_formed, Error}
use keelith.Saga.Repository.{Repository, fence_of, create, save, stored, revised}

pub data Call : Type 0 where
  creates : Context → Record → ℕ → Call
  saves : Context → Record → ℕ → ℕ → Call

-- The repository after a call: as before, if the call failed.
abbrev pub settled : Repository → Result Error (Repository × Record) → Repository
settled s (ok (s', r)) = s'
settled s (err e) = s

abbrev pub after : Call → Repository → Repository
after (creates ctx r fence) s = settled s (create ctx r fence s)
after (saves ctx r expected fence) s = settled s (save ctx r expected fence s)

unfoldable pub history : List Call → Repository → Repository
history [] s = s
history (x ∷ xs) s = history xs (after x s)

-- The revision of an instance, zero where there is none.
abbrev pub revision_in : Option Record → ℕ
revision_in none = 0
revision_in (some r) = r.revision

abbrev pub revision_of : Text → Repository → ℕ
revision_of id s = revision_in (lookup id s.records)

-- An instance whose fence is at least n and whose revision is at least m; it stays.
pub record Reached (id : Text) (n m : ℕ) (s : Repository) : Type 0 where
  pub exists : is_some (lookup id s.records) ≡ true
  pub fence : n ≤ fence_of id s
  pub revision : m ≤ revision_of id s
  pub range : revision_of id s < u64_mod

valid_record-revision : (r : Record) → valid_record r ≡ true → 0 < r.revision
unfolding valid_record well_formed
valid_record-revision r v = ground arith

stored-fence :
    (r : Record) (f : ℕ) (id : Text) (s : Repository)
    → fence_of id (stored r f s) ≡ (if text_eq r.id id then f else fence_of id s)
unfolding fence_of
stored-fence r f id s = ground (arith, lookup-insert r.id id f s.fences)

stored-record :
    (r : Record) (f : ℕ) (id : Text) (s : Repository)
    → lookup id (stored r f s).records ≡ (if text_eq r.id id then some r else lookup id s.records)
stored-record r f id s = lookup-insert r.id id r s.records

create-Reached :
    (ctx : Context) (r : Record) (f : ℕ) (id : Text) (n m : ℕ) (s : Repository)
    → Reached id n m s
    → Reached id n m (settled s (create ctx r f s))
unfolding create
create-Reached ctx r f id n m s h = ground (
  arith,
  h.exists,
  stored-fence (record r { revision = 1 }) f id s,
  stored-record (record r { revision = 1 }) f id s,
  text_eq_iff r.id id,
)

-- What a Save that succeeded has found and left.
record Saved (r : Record) (e f : ℕ) (s s' : Repository) : Type 0 where
  left : s' ≡ stored (revised r e) f s
  present : is_some (lookup r.id s.records) ≡ true
  unfenced : fence_of r.id s ≤ f
  expected : revision_of r.id s ≡ e
  valid : valid_record (revised r e) ≡ true

save-Saved :
    (ctx : Context) (r : Record) (e f : ℕ) (s s' : Repository) (r' : Record)
    → save ctx r e f s ≡ ok (s', r')
    → Saved r e f s s'
unfolding save
save-Saved ctx r e f s s' r' h = record {
  left = ground arith;
  present = ground arith;
  unfenced = ground arith;
  expected = ground arith;
  valid = ground arith;
}

Saved-Reached :
    (r : Record) (e f : ℕ) (id : Text) (n m : ℕ) (s s' : Repository)
    → Saved r e f s s'
    → Reached id n m s
    → Reached id n m s'
Saved-Reached r e f id n m s s' v h =
    let positive = valid_record-revision (revised r e) v.valid in
    rw v.left (
      ground (
        arith,
        h.exists,
        v.unfenced,
        v.expected,
        positive,
        stored-fence (revised r e) f id s,
        stored-record (revised r e) f id s,
        text_eq_iff r.id id,
      ))

save-Reached :
    (ctx : Context) (r : Record) (e f : ℕ) (id : Text) (n m : ℕ) (s : Repository)
    → Reached id n m s
    → Reached id n m (settled s (save ctx r e f s))
save-Reached ctx r e f id n m s h = elim (Result-cases (save ctx r e f s)) [
  | inl ((s', r'), x) ↦ rw x (Saved-Reached r e f id n m s s' (save-Saved ctx r e f s s' r' x) h)
  | inr (y, x) ↦ rw x h
]

history-Reached :
    (xs : List Call) (id : Text) (n m : ℕ) (s : Repository)
    → Reached id n m s
    → Reached id n m (history xs s)
unfolding history
history-Reached [] id n m s h = h
history-Reached (creates ctx r f ∷ xs) id n m s h =
    history-Reached xs id n m (after (creates ctx r f) s) (create-Reached ctx r f id n m s h)
history-Reached (saves ctx r e f ∷ xs) id n m s h =
    history-Reached xs id n m (after (saves ctx r e f) s) (save-Reached ctx r e f id n m s h)

-- After a Save that succeeded.
Saved-Reached_self :
    (r : Record) (e f : ℕ) (s s' : Repository)
    → e + 1 < u64_mod
    → Saved r e f s s'
    → Reached r.id f (e + 1) s'
Saved-Reached_self r e f s s' l v = rw v.left (
    ground (
      arith,
      stored-fence (revised r e) f r.id s,
      stored-record (revised r e) f r.id s,
      text_eq_refl r.id,
    ))

-- After a Save under a fence, and after every history of calls behind it, no Save of the instance
-- succeeds that has a smaller fence or that expects the old revision, or an older one: an owner
-- that has lost the instance changes nothing more, and no update overwrites another unseen. The
-- revision does not exceed uint64.
pub save-excludes :
    (ctx : Context) (r : Record) (e f : ℕ) (s s' : Repository) {r' : Record}
    → e + 1 < u64_mod
    → save ctx r e f s ≡ ok (s', r')
    → (xs : List Call) → (late : Context) (q : Record) (old g : ℕ) → q.id ≡ r.id
    → (g < f) ⊎ (old ≤ e)
    → is_ok (save late q old g (history xs s')) ≡ false
save-excludes ctx r e f s s' {r'} l saved xs late q old g same stale =
    let first = Saved-Reached_self r e f s s' l (save-Saved ctx r e f s s' r' saved) in
    let later = history-Reached xs r.id f (e + 1) s' first in
    elim (Result-cases (save late q old g (history xs s'))) [
      | inl ((t, q'), x) ↦
          let v = save-Saved late q old g (history xs s') t q' x in
          let here = subst (λ i. Reached i f (e + 1) (history xs s')) (sym same) later in
          elim stale [
            | inl a ↦ absurd (omega (arith, a, v.unfenced, here.fence))
            | inr a ↦ absurd (omega (arith, a, v.expected, here.revision))
          ]
      | inr (y, x) ↦ rw x refl
    ]
