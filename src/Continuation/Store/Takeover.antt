-- ===== src/Continuation/Store/Takeover.antt =====
-- What taking over a call does to it (programmable/continuation/memory/store.go).
use keelith.Prelude.{ℕ, ◌+◌, ◌<◌, true, [], ◌≡◌, refl, ap, ◌∙◌, ◌≢◌, inl, inr, arith}
use keelith.Prelude.Text.{Text}
use keelith.Prelude.Words.{u64_mod, max_u64, add_u64}
use keelith.Prelude.Results.{ok}
use keelith.Continuation.Model.{Snapshot, Transition, timer_due, timer_not_ready_error, move}
use keelith.Continuation.Apply.{validate_snapshot, apply}
use keelith.Continuation.Store.{ready, owned_status}
use keelith.Continuation.Apply.Laws.{Extends, move-Extends, apply-Extends}
use keelith.Continuation.Apply.Validity.{InRange, apply-valid}
use keelith.Continuation.Store.Calls.{take_over}

-- A valid snapshot with uint64 counters.
pub record Sound (c : Snapshot) : Type 0 where
  pub valid : validate_snapshot c ≡ ok tt
  pub in_range : InRange c

-- The successful takeover of a call.
pub record Taken (current next : Snapshot) (now : ℕ) : Type 0 where
  pub was_ready : ready current.status ≡ true
  pub was_due : timer_due current now ≡ true
  pub sound : Sound next
  pub same_call : next.call_id ≡ current.call_id
  pub status_set : next.status ≡ owned_status current.status
  pub revision_next : next.revision ≡ current.revision + 1
  pub fence_next : next.fence ≡ current.fence + 1

take_over-tests :
    (sha256 : Text → Text) (current next : Snapshot) (now : ℕ)
    → take_over sha256 current now ≡ ok next
    → (ready current.status ≡ true)
      × (timer_due current now ≡ true)
      × (current.fence ≢ max_u64)
      × (apply sha256 current (move (owned_status current.status) (add_u64 current.fence 1) [])
          ≡ ok next)
unfolding take_over timer_not_ready_error
take_over-tests sha256 current next now h = (ground arith, ground arith, ground arith, ground arith)

pub take_over-Taken :
    (sha256 : Text → Text) (current next : Snapshot) (now : ℕ)
    → Sound current
    → take_over sha256 current now ≡ ok next
    → Taken current next now
take_over-Taken sha256 current next now sound h =
    let (r, due, room, applied) = take_over-tests sha256 current next now h in
    let t : Transition = move (owned_status current.status) (add_u64 current.fence 1) [] in
    let step : Extends current t next =
      move-Extends sha256 current t next sound.in_range refl applied in
    let (v, fits) = apply-valid sha256 current t next sound.in_range (omega arith) applied in
    record {
      was_ready = r;
      was_due = due;
      sound = record { valid = v; in_range = fits };
      same_call = step.same_call.0;
      status_set = step.moved;
      revision_next = step.revised;
      fence_next = step.fence_set ∙ ground (arith, room, sound.in_range.fence_fits);
    }

pub apply-Sound :
    (sha256 : Text → Text) (c : Snapshot) (t : Transition) (next : Snapshot)
    → Sound c
    → t.fence < u64_mod
    → apply sha256 c t ≡ ok next
    → Sound next × (next.call_id ≡ c.call_id)
apply-Sound sha256 c t next sound f h =
    let (v, fits) = apply-valid sha256 c t next sound.in_range f h in
    (
      record { valid = v; in_range = fits },
      elim (apply-Extends sha256 c t next sound.in_range h) [
        | inl same ↦ ap (λ (n : Snapshot). n.call_id) same.unchanged
        | inr e ↦ e.same_call.0
      ],
    )
