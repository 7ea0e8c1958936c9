-- ===== src/Saga.antt =====
-- saga/saga.go: the durable record of a saga instance and the definition that it runs. Repository
-- is the process-local repository, Engine the loop that executes a definition.
use keelith.Prelude.{ℕ, ◌==◌, ltb, not, Bool, true, false, ◌&&◌, ◌||◌, List, [], ◌∷◌, length, all}
use keelith.Prelude.Text.{Text, text_eq, is_empty, is_trimmed, valid_utf8, runes, is_control}
use keelith.Prelude.Int.{ℤ, pos, negsuc, is_neg}
use keelith.Prelude.Results.{Result, ok, err, reject_if}
pub mod Repository
pub mod Engine
pub mod Ownership

pub data Error : Type 0 where
  invalid_option : Error
  not_found : Error
  already_exists : Error
  revision_conflict : Error
  stale_owner : Error
  contended : Error
  definition_mismatch : Error
  compensated_error : Error
  failed_error : Error
  cause : ℕ → Error
  handler_error : ℕ → Error
  failed_with : ℕ → Error
  index_panic : Error

-- Any other text in the place of a status is invalid_status.
pub data Status : Type 0 where
  running : Status
  compensating : Status
  completed : Status
  compensated : Status
  failed : Status
  invalid_status : Status

pub data Phase : Type 0 where
  action : Phase
  compensation : Phase

-- A handler is user code; only whether a step has a compensation matters to the engine.
pub record Step : Type 0 where
  pub name : Text
  pub has_action : Bool
  pub has_compensate : Bool

pub record Definition : Type 0 where
  pub name : Text
  pub version : Text
  pub steps : List Step

pub record Record : Type 0 where
  pub id : Text
  pub definition : Text
  pub version : Text
  pub status : Status
  pub next_step : ℤ
  pub compensation_index : ℤ
  pub attempt : ℤ
  pub cause_reason : Text
  pub failure_reason : Text
  pub revision : ℕ
  pub updated_at : ℕ

pub record Invocation : Type 0 where
  pub saga_id : Text
  pub step : Text
  pub step_index : ℤ
  pub phase : Phase
  pub attempt : ℤ
  pub fence : ℕ

abbrev pub max_identity_bytes : ℕ
max_identity_bytes = 256

abbrev pub max_steps : ℕ
max_steps = 128

-- validIdentity
unfoldable pub valid_identity : Text → ℕ → Bool
unfolding is_trimmed valid_utf8 runes
valid_identity value maximum =
    not (
      is_empty value
      || (ltb maximum (length value) || (not (is_trimmed value) || not (valid_utf8 value))))
    && all (λ r. not (is_control r.point)) (runes value)

abbrev pub is_known : Status → Bool
is_known invalid_status = false
is_known _ = true

-- Terminal
unfoldable pub is_terminal : Status → Bool
is_terminal completed = true
is_terminal compensated = true
is_terminal failed = true
is_terminal _ = false

abbrev pub optional_identity : Text → Bool
optional_identity value = is_empty value || valid_identity value max_identity_bytes

abbrev pub below_minus_one : ℤ → Bool
below_minus_one (pos _) = false
below_minus_one (negsuc n) = not (n == 0)

-- The tests of Record.Validate before the status.
unfoldable pub well_formed : Record → Bool
well_formed r = not (
    not (valid_identity r.id max_identity_bytes)
    || (not (valid_identity r.definition max_identity_bytes)
        || (not (valid_identity r.version max_identity_bytes)
            || (r.revision == 0
                || (is_neg r.next_step
                    || (below_minus_one r.compensation_index
                        || (is_neg r.attempt
                            || (not (optional_identity r.cause_reason)
                                || (not (optional_identity r.failure_reason)
                                    || r.updated_at == 0)))))))))

-- Record.Validate
unfoldable pub valid_record : Record → Bool
unfolding well_formed
valid_record r = well_formed r && is_known r.status

abbrev pub named : Text → List Text → Bool
named name [] = false
named name (other ∷ seen) = text_eq other name || named name seen

-- The loop of Definition.Validate over the steps, with the names seen.
unfoldable pub valid_steps : List Text → List Step → Bool
unfolding valid_identity
valid_steps seen [] = true
valid_steps seen (s ∷ ss) =
    (valid_identity s.name max_identity_bytes && s.has_action)
    && (not (named s.name seen) && valid_steps (s.name ∷ seen) ss)

-- Definition.Validate
unfoldable pub valid_definition : Definition → Bool
unfolding valid_steps
valid_definition d =
    not (
      not (valid_identity d.name max_identity_bytes)
      || (not (valid_identity d.version max_identity_bytes)
          || (length d.steps == 0 || ltb max_steps (length d.steps))))
    && valid_steps [] d.steps
