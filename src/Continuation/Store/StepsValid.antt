-- ===== src/Continuation/Store/StepsValid.antt =====
-- Every call keeps the store valid (programmable/continuation/memory).
use keelith.Prelude.{
  ℕ, ◌-◌, ◌<◌, leb, true, none, some, ◌≡◌, refl, sym, ◌∙◌, subst, ◌⊎◌, inl, inr, arith, Bool-cases,
  Option-cases, length-drop,
}
use keelith.Prelude.Text.{Text}
use keelith.Prelude.Maps.{lookup, insert, lookup-delete_self}
use keelith.Prelude.Words.{u64_mod}
use keelith.Prelude.Results.{Result, ok, err, is_ok, Result-cases}
use keelith.Prelude.Contexts.{Context}
use keelith.Continuation.Model.{is_running, Snapshot, Error}
use keelith.Continuation.Apply.{validate_snapshot}
use keelith.Continuation.Store.{Store, CommitRequest, active}
use keelith.Continuation.Store.Calls.{
  create, take_over, acquire_current, drop_expired, expected, acquire, committed, transition,
}
use keelith.Continuation.Store.Admin.{prune_frames}
use keelith.Continuation.Retention.{prune_snapshot, cut}
use keelith.Continuation.Store.Takeover.{Sound, Taken, take_over-Taken}
use keelith.Continuation.Store.Validity.{
  IsValid, put_unleased, put_leased, put_free, put_same, unlease,
}
use keelith.Continuation.Store.Steps.{run}

-- A call that has no record has no lease.
no_lease :
    (s : Store) (id : Text) → IsValid s → lookup id s.records ≡ none → lookup id s.leases ≡ none
no_lease s id v e = elim (Option-cases (lookup id s.leases)) [
  | inl free ↦ free
  | inr (l, held) ↦ let (c, there, r, f) = v.leased id l held in absurd (ground (arith, there, e))
]

pub create-keeps :
    (ctx : Context) (c : Snapshot) (s s' : Store) (a : Snapshot)
    → Sound c
    → IsValid s
    → create ctx c s ≡ ok (s', a)
    → IsValid s'
unfolding create
create-keeps ctx c s s' a sound v e =
    let free : lookup c.call_id s.records ≡ none = ground arith in
    let made : s' ≡ record s { records = insert c.call_id c s.records } = ground arith in
    subst IsValid (sym made) (put_free v c.call_id c sound refl (no_lease s c.call_id v free))

committed-IsValid :
    (r : CommitRequest) (s : Store) → Sound r.snapshot → IsValid s → IsValid (committed r s)
unfolding committed
committed-IsValid r s sound v = elim (Bool-cases (is_running r.snapshot.status)) [
  | inl run ↦ rw run (put_leased v r.snapshot.call_id r.snapshot sound refl _ refl refl)
  | inr other ↦ rw other (put_unleased v r.snapshot.call_id r.snapshot sound refl)
]

pub transition-keeps :
    (now : ℕ) (ctx : Context) (r : CommitRequest) (s s' : Store) (a : Snapshot)
    → Sound r.snapshot
    → IsValid s
    → transition now ctx r s ≡ ok (s', a)
    → IsValid s'
unfolding transition
transition-keeps now ctx r s s' a sound v e =
    elim (Option-cases (lookup r.snapshot.call_id s.records)) [
      | inl missing ↦ absurd (ground arith)
      | inr (c, there) ↦
          let made : s' ≡ committed r s = ground arith in
          subst IsValid (sym made) (committed-IsValid r s sound v)
    ]

cut-Sound :
    (c : Snapshot) (floor : ℕ)
    → Sound c
    → floor < u64_mod
    → validate_snapshot (cut c floor) ≡ ok tt
    → Sound (cut c floor)
cut-Sound c floor sound f v = record {
  valid = v;
  in_range = record {
    revision_fits = sound.in_range.revision_fits;
    fence_fits = sound.in_range.fence_fits;
    sequence_fits = sound.in_range.sequence_fits;
    floor_fits = f;
    frames_fit =
        omega (arith, sound.in_range.frames_fit, length-drop (floor - c.frame_floor) c.frames);
  };
}

is_ok-eq : (r : Result Error (Unit {0})) → is_ok r ≡ true → r ≡ ok tt
is_ok-eq (ok tt) h = refl
is_ok-eq (err e) h = cc

pub prune_snapshot-Sound :
    (c : Snapshot) (floor : ℕ) (p : Snapshot)
    → Sound c
    → prune_snapshot c floor ≡ ok p
    → Sound p × (p.call_id ≡ c.call_id) × (p.revision ≡ c.revision) × (p.fence ≡ c.fence)
unfolding prune_snapshot
prune_snapshot-Sound c floor p sound h = elim (Bool-cases (leb floor c.frame_floor)) [
  | inl low ↦
      let same : p ≡ c = ground arith in
      (
        subst Sound (sym same) sound,
        ground (arith, same),
        ground (arith, same),
        ground (arith, same),
      )
  | inr high ↦
      let made : p ≡ cut c floor = ground arith in
      let valid : validate_snapshot (cut c floor) ≡ ok tt = is_ok-eq _ (ground arith) in
      let fits : floor < u64_mod = ground (arith, sound.in_range.sequence_fits) in
      (
        subst Sound (sym made) (cut-Sound c floor sound fits valid),
        ground (arith, made),
        ground (arith, made),
        ground (arith, made),
      )
]

pub prune_frames-keeps :
    (ctx : Context) (id : Text) (floor : ℕ) (s s' : Store) (a : Snapshot)
    → IsValid s
    → prune_frames ctx id floor s ≡ ok (s', a)
    → IsValid s'
unfolding prune_frames
prune_frames-keeps ctx id floor s s' a v e = elim (Option-cases (lookup id s.records)) [
  | inl missing ↦ absurd (ground arith)
  | inr (c, there) ↦ elim (Result-cases (prune_snapshot c floor)) [
    | inl (p, pruned) ↦
        let made : s' ≡ record s { records = insert id p s.records } = ground arith in
        let (sound, keyed) = v.recorded id c there in
        let (psound, same, r, f) = prune_snapshot-Sound c floor p sound pruned in
        subst IsValid (sym made) (put_same v id p psound (same ∙ keyed) c there r f)
    | inr (x, stops) ↦ absurd (ground arith)
  ]
]

acquire_current-keeps :
    (sha256 : Text → Text) (id : Text) (c : Snapshot) (now : ℕ) (s : Store)
    → lookup id s.records ≡ some c
    → IsValid s
    → (active now (lookup id s.leases) ≡ true) ⊎ (lookup id s.leases ≡ none)
    → IsValid (acquire_current sha256 id c now s).0
unfolding acquire_current
acquire_current-keeps sha256 id c now s there v (inl held) = rw held v
acquire_current-keeps sha256 id c now s there v (inr free) =
    elim (Result-cases (take_over sha256 c now)) [
      | inl (next, e) ↦
          let (sound, keyed) = v.recorded id c there in
          let t : Taken c next now = take_over-Taken sha256 c next now sound e in
          rw (free, e) (put_free v id next t.sound (t.same_call ∙ keyed) free)
      | inr (x, e) ↦ rw (free, e) v
    ]

drop_expired-IsValid :
    (now : ℕ) (id : Text) (s : Store) → IsValid s → IsValid (drop_expired now id s)
drop_expired-IsValid now id s v = elim (Bool-cases (active now (lookup id s.leases))) [
  | inl held ↦ rw held v
  | inr over ↦ rw over (unlease v id)
]

drop_expired-lease :
    (now : ℕ) (id : Text) (s : Store)
    → (active now (lookup id (drop_expired now id s).leases) ≡ true)
      ⊎ (lookup id (drop_expired now id s).leases ≡ none)
drop_expired-lease now id s = elim (Bool-cases (active now (lookup id s.leases))) [
  | inl held ↦ inl (rw held held)
  | inr over ↦ inr (rw over (lookup-delete_self id s.leases))
]

pub drop_expired-records :
    (now : ℕ) (id : Text) (s : Store) → (drop_expired now id s).records ≡ s.records
drop_expired-records now id s = ground arith

pub expected-record :
    (ctx : Context) (id : Text) (revision : ℕ) (s : Store) (c : Snapshot)
    → expected ctx id revision s ≡ ok c
    → lookup id s.records ≡ some c
expected-record ctx id revision s c e = ground arith

pub acquire-keeps :
    (sha256 : Text → Text) (now : ℕ) (ctx : Context) (id : Text) (revision : ℕ) (s : Store)
    → IsValid s
    → IsValid (acquire sha256 now ctx id revision s).0
unfolding acquire
acquire-keeps sha256 now ctx id revision s v = elim (Result-cases (expected ctx id revision s)) [
  | inl (c, e) ↦
      rw (e, acquire)
        (acquire_current-keeps sha256 id c now (drop_expired now id s)
          (rw (drop_expired-records now id s) (expected-record ctx id revision s c e))
          (drop_expired-IsValid now id s v) (drop_expired-lease now id s))
  | inr (x, e) ↦ rw (e, acquire) v
]
