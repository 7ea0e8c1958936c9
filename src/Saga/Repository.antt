-- ===== src/Saga/Repository.antt =====
-- saga/memory/repository.go: the process-local repository, and the interface saga.Repository that
-- it implements. The mutex makes each call one step.
use keelith.Prelude.{
  ℕ, ◌==◌, ltb, not, Bool, true, false, ◌&&◌, ◌||◌, List, [], ◌∷◌, if◌then◌else◌, Option, none,
  some, is_some, ◌≡◌, refl, arith,
}
use keelith.Prelude.Text.{Text, text_eq}
use keelith.Prelude.Maps.{Map, lookup, insert}
use keelith.Prelude.Words.{add_u64}
use keelith.Prelude.Results.{Result, ok, err, reject_if, require, ◌>>◌, ◌>>=◌}
use keelith.Prelude.Contexts.{Context, nil_context, live, ended}
use keelith.Saga.{
  Record, valid_record, Error, invalid_option, not_found, already_exists, revision_conflict,
  stale_owner, definition_mismatch, cause,
}
pub mod Fencing

pub record Repository : Type 0 where
  pub records : Map Record
  pub fences : Map ℕ

-- New
abbrev pub new_repository : Repository
new_repository = record { records = []; fences = [] }

-- The tests of an argument and of the context that every method starts with.
abbrev pub enter : Context → Bool → Result Error (Unit {0})
enter nil_context bad = err invalid_option
enter (ended n) bad = if bad then err invalid_option else err (cause n)
enter live bad = reject_if bad invalid_option

abbrev pub found : Option Record → Result Error Record
found none = err not_found
found (some r) = ok r

-- Load
unfoldable pub load : Context → Text → Repository → Result Error Record
load ctx id s = enter ctx false >> found (lookup id s.records)

-- r.fences[id], zero where there is none.
unfoldable pub fence_of : Text → Repository → ℕ
fence_of id s = elim (lookup id s.fences) [ none ↦ 0 | some f ↦ f ]

abbrev pub stored : Record → ℕ → Repository → Repository
stored r fence s = record { records = insert r.id r s.records; fences = insert r.id fence s.fences }

-- Create. On an error the repository is as before.
unfoldable pub create : Context → Record → ℕ → Repository → Result Error (Repository × Record)
create ctx r fence s = do
  enter ctx (fence == 0)
  let first = record r { revision = 1 }
  require (valid_record first) invalid_option
  reject_if (is_some (lookup r.id s.records)) already_exists
  ok (stored first fence s, first)

abbrev pub same_definition : Record → Record → Bool
same_definition a b = text_eq a.definition b.definition && text_eq a.version b.version

-- The record that Save stores.
abbrev pub revised : Record → ℕ → Record
revised r expected = record r { revision = add_u64 expected 1 }

-- Save. On an error the repository is as before.
unfoldable pub save : Context → Record → ℕ → ℕ → Repository → Result Error (Repository × Record)
save ctx r expected fence s = do
  enter ctx (expected == 0 || fence == 0)
  current ← found (lookup r.id s.records)
  reject_if (ltb fence (fence_of r.id s)) stale_owner
  require (current.revision == expected) revision_conflict
  require (same_definition current r) definition_mismatch
  require (valid_record (revised r expected)) invalid_option
  ok (stored (revised r expected) fence s, revised r expected)

-- What the engine is given: saga.Repository, over any state, with what it relies on.
pub record RepositoryOf (S : Type 0) : Type 0 where
  pub load : Context → Text → S → Result Error Record
  pub create : Context → Record → ℕ → S → Result Error (S × Record)
  pub save : Context → Record → ℕ → ℕ → S → Result Error (S × Record)
  pub created :
      (ctx : Context) (r : Record) (fence : ℕ) (s s' : S) (r' : Record)
      → create ctx r fence s ≡ ok (s', r')
      → r' ≡ record r { revision = 1 }
  pub saved :
      (ctx : Context) (r : Record) (expected fence : ℕ) (s s' : S) (r' : Record)
      → save ctx r expected fence s ≡ ok (s', r')
      → r' ≡ revised r expected

pub create-created :
    (ctx : Context) (r : Record) (fence : ℕ) (s s' : Repository) (r' : Record)
    → create ctx r fence s ≡ ok (s', r')
    → r' ≡ record r { revision = 1 }
unfolding create
create-created ctx r fence s s' r' e = ground arith

pub save-saved :
    (ctx : Context) (r : Record) (expected fence : ℕ) (s s' : Repository) (r' : Record)
    → save ctx r expected fence s ≡ ok (s', r')
    → r' ≡ revised r expected
unfolding save
save-saved ctx r expected fence s s' r' e = ground arith

-- The process-local repository implements the interface.
abbrev pub memory : RepositoryOf Repository
memory = record {
  load = load;
  create = create;
  save = save;
  created = create-created;
  saved = save-saved;
}
