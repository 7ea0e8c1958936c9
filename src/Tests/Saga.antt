-- ===== src/Tests/Saga.antt =====
-- saga: a saga of three steps whose last action fails, and two owners of one instance.
use keelith.Prelude.{ℕ, Bool, true, false, List, [], ◌∷◌, none, some, ◌≡◌, refl, inl, arith}
use keelith.Prelude.Text.{Text, text_eq, codes}
use keelith.Prelude.Int.{ℤ, pos}
use keelith.Prelude.Results.{ok}
use keelith.Saga.{Status, compensated, Step, Definition, Record, valid_record, well_formed}
use keelith.Saga.Repository.{RepositoryOf, revised}
use keelith.Saga.Engine.{
  Outcome, succeeds, fails, Event, Run, Pass, again, returns, Config, started, first_record,
  position,
}
use keelith.Saga.Engine.Passes.{saving, loop}
use keelith.Prelude.Maps.{lookup, insert, delete}
use keelith.Coordination
use keelith.Coordination.{Lease}
use keelith.Prelude.Contexts.{live}
use keelith.Prelude.Results.{is_ok}
use keelith.Saga.{valid_identity}
use keelith.Saga.Repository
use keelith.Saga.Repository.{Repository, memory, save}
use keelith.Saga.Repository.Fencing
use keelith.Saga.Repository.Fencing.{save-excludes}
use keelith.Saga.Engine.Termination.{Ends, run-Ends}
use keelith.Saga.Engine.Trace.{actions_done, compensations_done}
use keelith.Saga.Ownership.{old_owner-excluded}
use keelith.Coordination.{try_acquire, new_coordinator}

abbrev step_of : Text → Bool → Step
step_of name undoable = record { name = name; has_action = true; has_compensate = undoable }

abbrev order : Definition
order = record {
  name = codes "order";
  version = codes "v1";
  steps =
      step_of (codes "reserve") true
      ∷ step_of (codes "notify") false
      ∷ step_of (codes "charge") true
      ∷ [];
}

abbrev config : Config
config = record {
  definition = order;
  max_compensation_attempts = 3;
  classify = λ e. codes "business";
  is_lease_lost = λ e. false;
}

abbrev ends_with : Outcome → Event
ends_with o = record {
  ended = none;
  first = live;
  first_now = 5;
  outcome = o;
  second = live;
  second_now = 6;
}

-- reserve and notify succeed, charge fails; the rest succeeds.
abbrev afternoon : List Event
afternoon =
    ends_with succeeds
    ∷ ends_with succeeds
    ∷ ends_with (fails 7)
    ∷ ends_with succeeds
    ∷ ends_with succeeds
    ∷ ends_with succeeds
    ∷ ends_with succeeds
    ∷ ends_with succeeds
    ∷ ends_with succeeds
    ∷ []

abbrev id : Text
id = codes "o1"

abbrev first : Record
first = record (first_record order id 1) { revision = 1 }

abbrev created : Repository
created = record { records = (id, first) ∷ []; fences = (id, 4) ∷ [] }

abbrev compensated_calls : Pass Repository → Status × List ℤ × List ℤ
compensated_calls (again v) = (v.current.status, actions_done v.calls, compensations_done v.calls)
compensated_calls (returns v e) =
    (v.current.status, actions_done v.calls, compensations_done v.calls)

afternoon_compensates :
    compensated_calls (loop memory config 4 afternoon (started created first))
    ≡ (compensated, pos 1 ∷ pos 0 ∷ [], pos 0 ∷ [])
unfolding loop saving save valid_record well_formed valid_identity text_eq lookup insert
    actions_done compensations_done Repository.fence_of
afternoon_compensates = refl

position_ok : position config first ≡ ok tt
unfolding position valid_record well_formed valid_identity text_eq
position_ok = refl

run-Ends_example : Ends memory config 4 (loop memory config 4 afternoon (started created first))
run-Ends_example = run-Ends memory config 4 afternoon created first position_ok (omega arith)

abbrev reached : Pass Repository → Run Repository
reached (again v) = v
reached (returns v e) = v

abbrev taken : Record
taken = record first { attempt = pos 1; updated_at = 9 }

saved_once :
    save live taken 1 5 created
    ≡ ok (Repository.stored (revised taken 1) 5 created, revised taken 1)
unfolding save valid_record well_formed valid_identity text_eq lookup insert Repository.fence_of
saved_once = refl

abbrev noise : List Fencing.Call
noise = Fencing.saves live taken 1 6 ∷ Fencing.saves live taken 2 6 ∷ []

save-excludes_example :
    is_ok
      (save live first 3 4 (Fencing.history noise (Repository.stored (revised taken 1) 5 created)))
    ≡ false
save-excludes_example =
    save-excludes live taken 1 5 created (Repository.stored (revised taken 1) 5 created)
      (omega arith) saved_once noise live first 3 4 refl (inl (omega arith))

abbrev owner_key : Text
owner_key = codes "saga/order/o1"

abbrev lease_of : ℕ → ℕ → Lease
lease_of n f = record { id = n; key = owner_key; fence = f }

first_lease : (try_acquire live owner_key (pos 30) new_coordinator).1 ≡ ok (some (lease_of 0 1))
unfolding try_acquire lookup
first_lease = refl

abbrev handed_over : List Coordination.Call
handed_over = Coordination.releases live (lease_of 0 1) ∷ []

second_lease :
    (try_acquire live owner_key
      (pos 30)
      (Coordination.history handed_over (try_acquire live owner_key (pos 30) new_coordinator).0)).1
    ≡ ok (some (lease_of 1 2))
unfolding try_acquire lookup Coordination.history Coordination.release insert delete
    Coordination.fence_of text_eq
second_lease = refl

no_fence : Coordination.fence_of owner_key new_coordinator ≡ 0
unfolding Coordination.fence_of lookup
no_fence = refl

-- The repository under the first owner's fence.
abbrev under_first : Repository
under_first = record { records = (id, first) ∷ []; fences = (id, 1) ∷ [] }

saved_second :
    save live taken 1 2 under_first
    ≡ ok (Repository.stored (revised taken 1) 2 under_first, revised taken 1)
unfolding save valid_record well_formed valid_identity text_eq lookup insert Repository.fence_of
saved_second = refl

old_owner-excluded_example :
    is_ok
      (save live first 2 1 (Fencing.history [] (Repository.stored (revised taken 1) 2 under_first)))
    ≡ false
old_owner-excluded_example =
    old_owner-excluded live owner_key (pos 30) new_coordinator handed_over live (pos 30)
      (omega (arith, no_fence)) first_lease second_lease live taken 1 under_first
      (Repository.stored (revised taken 1) 2 under_first) (omega arith) saved_second [] live first 2
      refl
