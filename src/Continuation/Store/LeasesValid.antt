-- ===== src/Continuation/Store/LeasesValid.antt =====
-- The command, lease and retention calls keep the store valid (programmable/continuation/memory).
use keelith.Prelude.{
  ℕ, ◌+◌, ◌<◌, ◌==◌, ltb, List, [], ◌∷◌, Option, none, some, ◌≡◌, refl, sym, ◌∙◌, subst, inl, inr,
  arith, Bool-cases, Option-cases, keep,
}
use keelith.Prelude.Text.{Text}
use keelith.Prelude.Maps.{lookup, insert, delete, keys}
use keelith.Prelude.Words.{u64_mod}
use keelith.Prelude.Results.{ok, Result-cases}
use keelith.Prelude.Contexts.{Context}
use keelith.Prelude.Int.{ℤ, to_nat}
use keelith.Continuation.Model.{
  expired, is_expired, frame_signal, frame_cancel_requested, frame_expired, Frame, Snapshot,
  Transition, new_frame, move, signal, cancel,
}
use keelith.Continuation.Apply.{apply}
use keelith.Continuation.Store.{
  LeaseRecord, Store, CommandRequest, ClaimRequest, LeaseRequest, Lease,
}
use keelith.Continuation.Store.Calls.{take_over, page, run_command, submit_signal, request_cancel}
use keelith.Continuation.Store.Leases.{
  reclaim, new_lease, claimed_store, take_lease, claim_current, claim, renew, release,
}
use keelith.Continuation.Store.Admin.{
  ExpireRequest, expired_store, expire_current, expire, elapsed, delete_all, delete_expired,
}
use keelith.Continuation.Store.Takeover.{apply-Sound, Taken, take_over-Taken}
use keelith.Continuation.Store.Validity.{IsValid, put_unleased, put_leased, unlease, relet, remove}

run_command-keeps :
    (sha256 : Text → Text) (ctx : Context) (r : CommandRequest) (t : Transition) (s s' : Store)
    (a : Snapshot)
    → t.fence < u64_mod
    → IsValid s
    → run_command sha256 ctx r t s ≡ ok (s', a)
    → IsValid s'
unfolding run_command
run_command-keeps sha256 ctx r t s s' a f v e = elim (Option-cases (lookup r.call_id s.records)) [
  | inl missing ↦ absurd (ground arith)
  | inr (c, there) ↦ elim (Result-cases (apply sha256 c t)) [
    | inl (next, applied) ↦
        let (sound, keyed) = v.recorded r.call_id c there in
        let (nsound, same) = apply-Sound sha256 c t next sound f applied in
        elim (Bool-cases (next.revision == c.revision)) [
          | inl still ↦ let made : s' ≡ s = ground arith in subst IsValid (sym made) v
          | inr moved ↦
              let made : s' ≡ record s {
                records = insert r.call_id next s.records;
                leases = delete r.call_id s.leases;
              } =
                ground arith in
              subst IsValid (sym made) (put_unleased v r.call_id next nsound (same ∙ keyed))
        ]
    | inr (x, stops) ↦ absurd (ground arith)
  ]
]

pub submit_signal-keeps :
    (sha256 : Text → Text) (ctx : Context) (r : CommandRequest) (s s' : Store) (a : Snapshot)
    → IsValid s
    → submit_signal sha256 ctx r s ≡ ok (s', a)
    → IsValid s'
unfolding submit_signal
submit_signal-keeps sha256 ctx r s s' a v e =
    elim (Result-cases (new_frame frame_signal r.payload)) [
      | inl (f, made) ↦
          run_command-keeps sha256 ctx r (signal r.command_id (f ∷ [])) s s' a (omega arith) v
            (rw (made, submit_signal) at e)
      | inr (x, stops) ↦ absurd (ground arith)
    ]

pub request_cancel-keeps :
    (sha256 : Text → Text) (ctx : Context) (r : CommandRequest) (s s' : Store) (a : Snapshot)
    → IsValid s
    → request_cancel sha256 ctx r s ≡ ok (s', a)
    → IsValid s'
unfolding request_cancel
request_cancel-keeps sha256 ctx r s s' a v e =
    elim (Result-cases (new_frame frame_cancel_requested r.payload)) [
      | inl (f, made) ↦
          run_command-keeps sha256 ctx r (cancel r.command_id (f ∷ [])) s s' a (omega arith) v
            (rw (made, request_cancel) at e)
      | inr (x, stops) ↦ absurd (ground arith)
    ]

take_lease-keeps :
    (sha256 : Text → Text) (now : ℕ) (r : ClaimRequest) (c : Snapshot) (s s' : Store) (a : Lease)
    → lookup r.call_id s.records ≡ some c
    → IsValid s
    → take_lease sha256 now r c s ≡ ok (s', a)
    → IsValid s'
unfolding take_lease
take_lease-keeps sha256 now r c s s' a there v e = elim (Result-cases (take_over sha256 c now)) [
  | inl (next, taken) ↦
      let (sound, keyed) = v.recorded r.call_id c there in
      let t : Taken c next now = take_over-Taken sha256 c next now sound taken in
      let made : s' ≡ claimed_store r.call_id next (new_lease now r c next) s = ground arith in
      subst IsValid (sym made) (
        put_leased v r.call_id next t.sound (t.same_call ∙ keyed) (new_lease now r c next) refl
          refl)
  | inr (x, stops) ↦ absurd (ground arith)
]

claim_current-keeps :
    (sha256 : Text → Text) (now : ℕ) (r : ClaimRequest) (c : Snapshot) (l : Option LeaseRecord)
    (s s' : Store) (a : Lease)
    → lookup r.call_id s.records ≡ some c
    → IsValid s
    → claim_current sha256 now r c l s ≡ ok (s', a)
    → IsValid s'
unfolding claim_current reclaim
claim_current-keeps sha256 now r c none s s' a there v e =
    take_lease-keeps sha256 now r c s s' a there v e
claim_current-keeps sha256 now r c (some l) s s' a there v e =
    elim (Bool-cases (ltb now l.deadline)) [
      | inl held ↦ let made : s' ≡ s = ground arith in subst IsValid (sym made) v
      | inr over ↦ take_lease-keeps sha256 now r c s s' a there v (rw (over, claim_current) at e)
    ]

pub claim-keeps :
    (sha256 : Text → Text) (now : ℕ) (ctx : Context) (r : ClaimRequest) (s s' : Store) (a : Lease)
    → IsValid s
    → claim sha256 now ctx r s ≡ ok (s', a)
    → IsValid s'
unfolding claim
claim-keeps sha256 now ctx r s s' a v e = elim (Option-cases (lookup r.call_id s.records)) [
  | inl missing ↦ absurd (ground arith)
  | inr (c, there) ↦
      claim_current-keeps sha256 now r c (lookup r.call_id s.leases) s s' a there v (ground arith)
]

pub renew-keeps :
    (now : ℕ) (ctx : Context) (r : LeaseRequest) (s s' : Store) (a : Lease)
    → IsValid s
    → renew now ctx r s ≡ ok (s', a)
    → IsValid s'
unfolding renew
renew-keeps now ctx r s s' a v e = elim (Option-cases (lookup r.call_id s.leases)) [
  | inl missing ↦ absurd (ground arith)
  | inr (l, held) ↦
      let l' : LeaseRecord = record l { deadline = now + to_nat r.lease_duration } in
      let made : s' ≡ record s { leases = insert r.call_id l' s.leases } = ground arith in
      let (c, there, same, fence) = v.leased r.call_id l held in
      subst IsValid (sym made) (relet v r.call_id l' (c, there, same, fence))
]

pub release-keeps :
    (ctx : Context) (r : LeaseRequest) (s s' : Store) (a : Unit {0})
    → IsValid s
    → release ctx r s ≡ ok (s', a)
    → IsValid s'
unfolding release
release-keeps ctx r s s' a v e =
    let made : s' ≡ record s { leases = delete r.call_id s.leases } = ground arith in
    subst IsValid (sym made) (unlease v r.call_id)

expire_current-keeps :
    (sha256 : Text → Text) (r : ExpireRequest) (c : Snapshot) (s s' : Store) (a : Snapshot)
    → lookup r.call_id s.records ≡ some c
    → IsValid s
    → expire_current sha256 r c s ≡ ok (s', a)
    → IsValid s'
unfolding expire_current new_frame
expire_current-keeps sha256 r c s s' a there v e =
    let f : Frame = record { sequence = 0; kind = frame_expired; payload = [] } in
    elim (Result-cases (apply sha256 c (move expired c.fence (f ∷ [])))) [
      | inl (next, applied) ↦
          let (sound, keyed) = v.recorded r.call_id c there in
          let (nsound, same) =
            apply-Sound sha256 c (move expired c.fence (f ∷ [])) next sound
              sound.in_range.fence_fits applied in
          let made : s' ≡ expired_store r next s = ground arith in
          subst IsValid (sym made) (put_unleased v r.call_id next nsound (same ∙ keyed))
      | inr (x, stops) ↦ absurd (ground arith)
    ]

pub expire-keeps :
    (sha256 : Text → Text) (ctx : Context) (r : ExpireRequest) (s s' : Store) (a : Snapshot)
    → IsValid s
    → expire sha256 ctx r s ≡ ok (s', a)
    → IsValid s'
unfolding expire
expire-keeps sha256 ctx r s s' a v e = elim (Option-cases (lookup r.call_id s.records)) [
  | inl missing ↦ absurd (ground arith)
  | inr (c, there) ↦ elim (Bool-cases (is_expired c.status)) [
    | inl over ↦ let made : s' ≡ s = ground arith in subst IsValid (sym made) v
    | inr open_call ↦ expire_current-keeps sha256 r c s s' a there v (ground arith)
  ]
]

delete_all-IsValid : (ks : List Text) (s : Store) → IsValid s → IsValid (delete_all ks s)
unfolding delete_all
delete_all-IsValid [] s v = v
delete_all-IsValid (k ∷ ks) s v = delete_all-IsValid ks _ (remove v k)

pub delete_expired-keeps :
    (ctx : Context) (before : ℕ) (limit : ℤ) (s s' : Store) (n : ℕ)
    → IsValid s
    → delete_expired ctx before limit s ≡ ok (s', n)
    → IsValid s'
unfolding delete_expired
delete_expired-keeps ctx before limit s s' n v e =
    let victims : List Text = page limit (keep (elapsed before s) (keys s.expires)) in
    let made : s' ≡ delete_all victims s = ground arith in
    subst IsValid (sym made) (delete_all-IsValid victims s v)
