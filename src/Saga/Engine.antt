-- ===== src/Saga/Engine.antt =====
-- saga/engine.go: the loop of Engine.Run over one instance, from the loaded record on. The handlers
-- and the context are the environment: each pass of the loop is given one Event, which says what
-- the context and the clock are at its calls and how the handler that it invokes ends.
use keelith.Prelude.{
  ℕ, suc, ◌==◌, ltb, not, Bool, true, false, ◌&&◌, ◌||◌, List, [], ◌∷◌, length, if◌then◌else◌,
  Option, none, some, get_elem?,
}
use keelith.Prelude.Text.{Text, text_eq, codes}
use keelith.Prelude.Int.{ℤ, pos, negsuc, is_neg, lt_nat, le_nat, to_nat, succ, pred}
use keelith.Prelude.Words.{add_u64}
use keelith.Prelude.Results.{Result, ok, err, reject_if, require, ◌>>◌, ◌>>=◌}
use keelith.Prelude.Contexts.{Context}
use keelith.Saga.{
  Status, running, compensating, completed, compensated, failed, invalid_status, Phase, action,
  compensation, Step, Definition, Record, Invocation, Error, invalid_option, not_found,
  definition_mismatch, compensated_error, failed_error, cause, handler_error, failed_with,
  index_panic, valid_identity, valid_record, max_identity_bytes,
}
use keelith.Saga.Repository.{RepositoryOf}
pub mod Passes
pub mod Saving
pub mod Termination
pub mod Trace
pub mod Compensation

-- How a handler ends, invoke's panic and time limit included. In the last case the context of the
-- run has ended with a cause.
pub data Outcome : Type 0 where
  succeeds : Outcome
  fails : ℕ → Outcome
  fails_ended : ℕ → Outcome

pub record Event : Type 0 where
  pub ended : Option ℕ
  pub first : Context
  pub first_now : ℕ
  pub outcome : Outcome
  pub second : Context
  pub second_now : ℕ

pub record Counters : Type 0 where
  pub completed_runs : ℕ
  pub compensated_runs : ℕ
  pub terminal_failures : ℕ
  pub action_failures : ℕ
  pub compensation_failures : ℕ
  pub repository_failures : ℕ
  pub lease_losses : ℕ

abbrev pub zero_counters : Counters
zero_counters = record {
  completed_runs = 0;
  compensated_runs = 0;
  terminal_failures = 0;
  action_failures = 0;
  compensation_failures = 0;
  repository_failures = 0;
  lease_losses = 0;
}

-- The variables of Run: the repository, the record, the fields of the result, the counters that
-- change in the loop, and the handlers called so far, the last one first.
pub record Run (S : Type 0) : Type 0 where
  pub store : S
  pub current : Record
  pub reported : Record
  pub actions : ℕ
  pub undone : ℕ
  pub counters : Counters
  pub calls : List (Invocation × Outcome)

-- A pass of the loop goes on or returns; none is the nil error.
pub data Pass (S : Type 0) : Type 0 where
  again : Run S → Pass S
  returns : Run S → Option Error → Pass S

abbrev pub zero_record : Record
zero_record = record {
  id = [];
  definition = [];
  version = [];
  status = invalid_status;
  next_step = pos 0;
  compensation_index = pos 0;
  attempt = pos 0;
  cause_reason = [];
  failure_reason = [];
  revision = 0;
  updated_at = 0;
}

-- The record of a new instance.
abbrev pub first_record : Definition → Text → ℕ → Record
first_record d id now = record {
  id = id;
  definition = d.name;
  version = d.version;
  status = running;
  next_step = pos 0;
  compensation_index = negsuc 0;
  attempt = pos 0;
  cause_reason = [];
  failure_reason = [];
  revision = 0;
  updated_at = now;
}

-- What New has fixed: the definition, the budget of a compensation, the classifier and the test
-- for a lost lease among the causes of a context.
pub record Config : Type 0 where
  pub definition : Definition
  pub max_compensation_attempts : ℕ
  pub classify : ℕ → Text
  pub is_lease_lost : ℕ → Bool

-- failureReason
unfoldable pub failure_reason : Config → ℕ → Text
unfolding valid_identity
failure_reason c e =
    if valid_identity (c.classify e) max_identity_bytes then c.classify e else codes "internal"

abbrev pub invocation_of : Record → Step → ℤ → Phase → ℕ → Invocation
invocation_of r step index phase fence = record {
  saga_id = r.id;
  step = step.name;
  step_index = index;
  phase = phase;
  attempt = r.attempt;
  fence = fence;
}

-- The tests of loadOrCreate on the record that it has.
unfoldable pub position : Config → Record → Result Error (Unit {0})
unfolding valid_record
position c r = do
  require (text_eq r.definition c.definition.name && text_eq r.version c.definition.version)
      definition_mismatch
  require (valid_record r) invalid_option
  reject_if
      (not (le_nat r.next_step (length c.definition.steps))
        || not (lt_nat r.compensation_index (length c.definition.steps)))
      invalid_option

module _ {S : Type 0} (repository : RepositoryOf S) (c : Config) (fence : ℕ) where
  abbrev load_result : Context → ℕ → Text → S → Result Error Record → Result Error (S × Record)
  load_result ctx now id s (ok r) = ok (s, r)
  load_result ctx now id s (err not_found) =
      repository.create ctx (first_record c.definition id now) fence s
  load_result ctx now id s (err e) = err e

  -- loadOrCreate, without its counter of errors.
  unfoldable pub load_or_create : Context → ℕ → Text → S → Result Error (S × Record)
  load_or_create ctx now id s = do
    loaded ← load_result ctx now id s (repository.load ctx id s)
    position c loaded.1
    ok loaded

-- The variables of Run when the loop starts.
abbrev pub started : {S : Type 0} → S → Record → Run S
started s r = record {
  store = s;
  current = r;
  reported = r;
  actions = 0;
  undone = 0;
  counters = zero_counters;
  calls = [];
}
