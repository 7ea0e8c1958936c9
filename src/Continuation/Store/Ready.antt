-- ===== src/Continuation/Store/Ready.antt =====
-- What ListReady offers can be claimed (programmable/continuation/memory/store.go).
use keelith.Prelude.{
  ℕ, ◌≤◌, ◌<◌, true, false, List, [], ◌∷◌, length, some, ◌≡◌, refl, ◌≢◌, inl, inr, arith,
  Option-cases, All, keep,
}
use keelith.Prelude.Text.{Text}
use keelith.Prelude.Maps.{Map, lookup, keys}
use keelith.Prelude.Words.{max_u64, add_u64}
use keelith.Prelude.Results.{ok, is_ok}
use keelith.Prelude.Contexts.{Context, live}
use keelith.Prelude.Int.{ℤ, to_nat}
use keelith.Continuation.Model.{
  Status, accepted, running, waiting, suspended, cancel_requested, completed, failed, canceled,
  expired, other_status, is_terminal, valid_status, no_command, Snapshot, timer_due,
  timer_not_ready_error, move,
}
use keelith.Continuation.Apply.{
  allowed_transition, validate_snapshot, append_frames, workflow_request, known_command, advance,
  apply,
}
use keelith.Continuation.Store.{Store, ClaimRequest, bad_claim, ready, owned_status, active}
use keelith.Continuation.Store.Calls.{take_over, listed, fetch, page, list_ready}
use keelith.Continuation.Store.Leases.{take_lease, claim_current, claim}
use keelith.Continuation.Store.Takeover.{Sound}
use keelith.Prelude.{All-take, keep-All, length-take}
use keelith.Prelude.Sort.{sort, sort-All}
use keelith.Continuation.Store.Validity.{IsValid}

-- A recorded call that is ready, whose timer is due and that no executor holds.
pub record Offered (now : ℕ) (s : Store) (c : Snapshot) : Type 0 where
  pub id : Text
  pub recorded : lookup id s.records ≡ some c
  pub is_ready : ready c.status ≡ true
  pub is_due : timer_due c now ≡ true
  pub is_free : active now (lookup id s.leases) ≡ false

listed-Offered :
    (now : ℕ) (s : Store) (id : Text) (c : Snapshot)
    → lookup id s.records ≡ some c
    → listed now s id ≡ true
    → Offered now s c
unfolding listed
listed-Offered now s id c there h = record {
  id = id;
  recorded = there;
  is_ready = ground arith;
  is_due = ground arith;
  is_free = ground arith;
}

fetch-Offered :
    (now : ℕ) (s : Store) (ks : List Text)
    → All (λ (k : Text). listed now s k ≡ true) ks
    → All (Offered now s) (fetch s.records ks)
unfolding fetch
fetch-Offered now s [] h = tt
fetch-Offered now s (k ∷ ks) h = elim (Option-cases (lookup k s.records)) [
  | inl missing ↦ rw (missing, fetch) (fetch-Offered now s ks h.1)
  | inr (c, there) ↦
      rw (there, fetch) (listed-Offered now s k c there h.0, fetch-Offered now s ks h.1)
]

length-fetch : (m : Map Snapshot) (ks : List Text) → length (fetch m ks) ≤ length ks
unfolding fetch
length-fetch m [] = omega arith
length-fetch m (k ∷ ks) = elim (Option-cases (lookup k m)) [
  | inl missing ↦ rw (missing, fetch) (omega (arith, length-fetch m ks))
  | inr (c, there) ↦ rw (there, fetch) (omega (arith, length-fetch m ks))
]

-- ListReady changes nothing and returns at most `limit` snapshots, each of a recorded call that is
-- ready, whose timer is due and that no lease holds at that time.
pub list_ready-Offered :
    (now : ℕ) (ctx : Context) (limit : ℤ) (s s' : Store) (out : List Snapshot)
    → list_ready now ctx limit s ≡ ok (s', out)
    → (s' ≡ s) × (length out ≤ to_nat limit) × All (Offered now s) out
unfolding list_ready
list_ready-Offered now ctx limit s s' out e =
    let chosen : List Text = keep (listed now s) (keys s.records) in
    let made : out ≡ fetch s.records (page limit chosen) = ground arith in
    (
      ground arith,
      rw made (
          omega (
            arith,
            length-fetch s.records (page limit chosen),
            length-take (to_nat limit) (sort chosen),
          )),
      rw made (
          fetch-Offered now s (page limit chosen) (
            All-take _ (to_nat limit) (sort chosen)
              (sort-All _ chosen (keep-All (listed now s) (keys s.records))))),
    )

ready_moves :
    (st : Status)
    → ready st ≡ true
    → (is_terminal st ≡ false)
      × (valid_status (owned_status st) ≡ true)
      × (allowed_transition st (owned_status st) no_command ≡ true)
unfolding ready is_terminal valid_status allowed_transition
ready_moves accepted h = (refl, refl, refl)
ready_moves running h = (refl, refl, refl)
ready_moves suspended h = (refl, refl, refl)
ready_moves cancel_requested h = (refl, refl, refl)
ready_moves waiting h = cc
ready_moves completed h = cc
ready_moves failed h = cc
ready_moves canceled h = cc
ready_moves expired h = cc
ready_moves (other_status x) h = cc

apply-move_total :
    (sha256 : Text → Text) (c : Snapshot) (st : Status) (fence : ℕ)
    → validate_snapshot c ≡ ok tt
    → valid_status st ≡ true
    → is_terminal c.status ≡ false
    → allowed_transition c.status st no_command ≡ true
    → c.revision ≢ max_u64
    → c.fence < fence
    → is_ok (apply sha256 c (move st fence [])) ≡ true
unfolding apply known_command advance append_frames workflow_request
apply-move_total sha256 c st fence v ok_status open_call allowed room newer =
    rw (v, ok_status) (ground arith)

take_over_total :
    (sha256 : Text → Text) (c : Snapshot) (now : ℕ)
    → Sound c
    → ready c.status ≡ true
    → timer_due c now ≡ true
    → c.fence ≢ max_u64
    → c.revision ≢ max_u64
    → is_ok (take_over sha256 c now) ≡ true
unfolding take_over timer_not_ready_error
take_over_total sha256 c now sound r due f room =
    let (moving, ok_status, allowed) = ready_moves c.status r in
    let done =
      apply-move_total sha256 c (owned_status c.status) (add_u64 c.fence 1) sound.valid ok_status
        moving allowed room (omega (arith, f, sound.in_range.fence_fits)) in
    rw (r, due) (ground (arith, done))

-- Every call that is ready, due and held by nobody can be claimed at that time: a well-formed
-- claim of its revision succeeds, as long as the call's revision and fence are not exhausted. The
-- store is valid and the context live.
pub offered_claimable :
    (sha256 : Text → Text) (now : ℕ) (s : Store) (c : Snapshot) (r : ClaimRequest)
    → IsValid s
    → (o : Offered now s c) → r.call_id ≡ o.id
    → r.expected_revision ≡ c.revision
    → bad_claim r ≡ false
    → c.fence ≢ max_u64
    → c.revision ≢ max_u64
    → is_ok (claim sha256 now live r s) ≡ true
unfolding claim claim_current take_lease
offered_claimable sha256 now s c r v o same expect good f room =
    let done =
      take_over_total sha256 c now (v.recorded o.id c o.recorded).0 o.is_ready o.is_due f room in
    let there : lookup r.call_id s.records ≡ some c = rw same o.recorded in
    let free : active now (lookup r.call_id s.leases) ≡ false = rw same o.is_free in
    rw (there, claim, good) (ground (arith, done, free, expect))
