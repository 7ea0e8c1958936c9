-- ===== src/Projection.antt =====
-- programmable/projection/model.go: schemas, mutations and delta batches of a projection. Store is
-- the process-local projection store.
use keelith.Prelude.{
  ℕ, ◌+◌, ◌==◌, ltb, leb, not, Bool, true, false, ◌&&◌, ◌||◌, List, [], ◌∷◌, length, all,
  if◌then◌else◌, Option, none, some,
}
use keelith.Prelude.Text.{
  Text, text_eq, text_lt, is_empty, is_trimmed, valid_utf8, runes, is_control,
}
pub mod Store

-- The outermost error of each chain; a cursor mismatch names the expected and the given cursor.
pub data Error : Type 0 where
  nil_context_error : Error
  cause : ℕ → Error
  invalid_projection_id : Error
  invalid_schema : Error
  invalid_cursor : Error
  invalid_mutation : Error
  invalid_delta : Error
  cursor_mismatch : Text → Text → Error
  schema_mismatch : Error
  projection_not_found : Error
  snapshot_closed : Error
  snapshot_conflict : Error
  replay_conflict : Error
  zero_source_time : Error

-- `compatible` is the part of the fingerprint set that is in use.
pub record Schema : Type 0 where
  pub id : Text
  pub fingerprint : Text
  pub key_fingerprint : Text
  pub compatible : List Text

pub data MutationKind : Type 0 where
  mutation_upsert : MutationKind
  mutation_delete : MutationKind
  other_mutation : ℕ → MutationKind

pub record Mutation : Type 0 where
  pub kind : MutationKind
  pub key : Text
  pub value : Text

-- Upsert and Delete
abbrev pub upsert : Text → Text → Mutation
upsert key value = record { kind = mutation_upsert; key = key; value = value }

abbrev pub tombstone : Text → Mutation
tombstone key = record { kind = mutation_delete; key = key; value = [] }

pub record DeltaBatch : Type 0 where
  pub schema : Schema
  pub previous : Text
  pub cursor : Text
  pub source_time : ℕ
  pub mutations : List Mutation

pub record Checkpoint : Type 0 where
  pub schema : Schema
  pub cursor : Text
  pub generation : ℕ
  pub source_time : ℕ
  pub applied_at : ℕ

abbrev pub max_projection_id_bytes : ℕ
max_projection_id_bytes = 256

abbrev pub max_cursor_bytes : ℕ
max_cursor_bytes = 512

abbrev pub max_key_bytes : ℕ
max_key_bytes = 4096

abbrev pub max_value_bytes : ℕ
max_value_bytes = 16777216

abbrev pub max_delta_mutations : ℕ
max_delta_mutations = 10000

abbrev pub max_delta_bytes : ℕ
max_delta_bytes = 33554432

abbrev pub max_compatible_schemas : ℕ
max_compatible_schemas = 16

-- validIdentity
unfoldable pub valid_identity : Text → ℕ → Bool
unfolding is_trimmed valid_utf8 runes
valid_identity value max_bytes =
    not (
      is_empty value
      || (ltb max_bytes (length value) || (not (valid_utf8 value) || not (is_trimmed value))))
    && all (λ r. not (is_control r.point)) (runes value)

abbrev pub is_hex : ℕ → Bool
is_hex r = leb 48 r && leb r 57 || leb 97 r && leb r 102

-- validFingerprint
unfoldable pub valid_fingerprint : Text → Bool
unfolding runes
valid_fingerprint value = length value == 64 && all (λ r. is_hex r.point) (runes value)

-- ProjectionID.Validate and Cursor.Validate
abbrev pub valid_projection_id : Text → Bool
valid_projection_id id = valid_identity id max_projection_id_bytes

abbrev pub valid_cursor : Text → Bool
valid_cursor cursor = valid_identity cursor max_cursor_bytes

abbrev not_above : Option Text → Text → Bool
not_above none fingerprint = false
not_above (some previous) fingerprint = not (text_lt previous fingerprint)

-- The loop of Schema.Validate over the compatible fingerprints, with the one before.
unfoldable pub valid_compatible : Text → Option Text → List Text → Bool
unfolding valid_fingerprint
valid_compatible current previous [] = true
valid_compatible current previous (f ∷ fs) =
    not (not (valid_fingerprint f) || (text_eq f current || not_above previous f))
    && valid_compatible current (some f) fs

-- Schema.Validate
unfoldable pub valid_schema : Schema → Bool
unfolding valid_compatible
valid_schema s =
    valid_projection_id s.id
    && (valid_fingerprint s.fingerprint
        && (valid_fingerprint s.key_fingerprint
            && (not (ltb max_compatible_schemas (length s.compatible))
                && valid_compatible s.fingerprint none s.compatible)))

abbrev pub valid_payload : MutationKind → Text → Bool
valid_payload mutation_upsert value = leb (length value) max_value_bytes
valid_payload mutation_delete value = length value == 0
valid_payload (other_mutation n) value = false

-- Mutation.Validate
unfoldable pub valid_mutation : Mutation → Bool
valid_mutation m =
    not (length m.key == 0 || ltb max_key_bytes (length m.key)) && valid_payload m.kind m.value

-- The loop of DeltaBatch.Validate over the mutations, with the bytes counted.
unfoldable pub valid_mutations : ℕ → List Mutation → Bool
unfolding valid_mutation
valid_mutations total [] = true
valid_mutations total (m ∷ ms) =
    let next = total + length m.key + length m.value in
    valid_mutation m && (leb next max_delta_bytes && valid_mutations next ms)

-- DeltaBatch.Validate
unfoldable pub valid_batch : DeltaBatch → Bool
unfolding valid_schema valid_mutations
valid_batch b =
    valid_schema b.schema
    && (valid_cursor b.previous
        && (valid_cursor b.cursor
            && (not (text_eq b.cursor b.previous)
                && (not (b.source_time == 0)
                    && (not
                          (length b.mutations == 0 || ltb max_delta_mutations (length b.mutations))
                        && valid_mutations 0 b.mutations)))))
