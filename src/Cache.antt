-- ===== src/Cache.antt =====
-- cache/memory/memory.go: the process-local cache backend with its invalidation versions. The mutex
-- makes each call one step; the clock's reading and the cause of the context, none for a live one,
-- are arguments.
use keelith.Prelude.{
  ℕ, ◌+◌, ◌==◌, ltb, not, Bool, true, false, ◌&&◌, ◌||◌, List, [], ◌∷◌, if◌then◌else◌, Option, none,
  some,
}
use keelith.Prelude.Text.{Text, text_eq}
use keelith.Prelude.Maps.{Map, lookup, insert, delete}
use keelith.Prelude.Int.{ℤ, is_pos, to_nat}
use keelith.Prelude.Results.{Result, ok, err}
pub mod Versions
pub mod Expiry

pub data Error : Type 0 where
  miss : Error
  invalid_option : Error
  cause : ℕ → Error

-- The zero time stands for no expiration.
pub record Entry : Type 0 where
  pub value : Text
  pub expires_at : ℕ

pub record Store : Type 0 where
  pub entries : Map Entry
  pub versions : Map ℕ

-- NewWithClock
abbrev pub new_store : Store
new_store = record { entries = []; versions = [] }

-- s.versions[key], zero where there is none.
abbrev pub version_in : Option ℕ → ℕ
version_in none = 0
version_in (some v) = v

abbrev pub version_of : Text → Store → ℕ
version_of key s = version_in (lookup key s.versions)

-- The result for an entry, and whether it has expired.
abbrev pub has_expired : ℕ → Entry → Bool
has_expired now e = not (e.expires_at == 0) && not (ltb now e.expires_at)

abbrev pub get_entry : ℕ → Text → Option Entry → Store → Store × Result Error Text
get_entry now key none s = (s, err miss)
get_entry now key (some e) s =
    if has_expired now e
    then (record s { entries = delete key s.entries }, err miss)
    else (s, ok e.value)

-- Get
unfoldable pub get : Option ℕ → ℕ → Text → Store → Store × Result Error Text
get (some n) now key s = (s, err (cause n))
get none now key s = get_entry now key (lookup key s.entries) s

abbrev pub expiry : ℕ → ℤ → ℕ
expiry now ttl = if is_pos ttl then now + to_nat ttl else 0

abbrev pub put : ℕ → Text → Text → ℤ → Store → Store
put now key value ttl s = record s {
  entries = insert key (record { value = value; expires_at = expiry now ttl }) s.entries;
}

-- Set
unfoldable pub set : Option ℕ → ℕ → Text → Text → ℤ → Store → Store × Option Error
set (some n) now key value ttl s = (s, some (cause n))
set none now key value ttl s = (put now key value ttl s, none)

abbrev pub delete_one : Text → Option Entry → Store × ℕ → Store × ℕ
delete_one key none r = r
delete_one key (some e) r = (record r.0 { entries = delete key r.0.entries }, r.1 + 1)

-- The loop of Delete, with the number deleted so far.
unfoldable pub delete_all : List Text → Store × ℕ → Store × ℕ
delete_all [] r = r
delete_all (key ∷ keys) r = delete_all keys (delete_one key (lookup key r.0.entries) r)

-- Delete
unfoldable pub delete_keys : Option ℕ → List Text → Store → Store × Result Error ℕ
unfolding delete_all
delete_keys (some n) keys s = (s, err (cause n))
delete_keys none keys s = let r = delete_all keys (s, 0) in (r.0, ok r.1)

-- CurrentVersion
unfoldable pub current_version : Option ℕ → Text → Store → Result Error ℕ
current_version (some n) key s = err (cause n)
current_version none key s = ok (version_of key s)

-- SetIfVersion
unfoldable pub set_if_version :
    Option ℕ → ℕ → Text → Text → ℤ → ℕ → Store → Store × Result Error Bool
set_if_version (some n) now key value ttl expected s = (s, err (cause n))
set_if_version none now key value ttl expected s =
    if not (version_of key s == expected) then (s, ok false) else (put now key value ttl s, ok true)

pub data InvalidationState : Type 0 where
  invalidation_applied : InvalidationState
  invalidation_current : InvalidationState
  invalidation_stale : InvalidationState

-- ApplyInvalidation
unfoldable pub apply_invalidation :
    Option ℕ → Text → ℕ → Store → Store × Result Error InvalidationState
apply_invalidation (some n) key version s = (s, err (cause n))
apply_invalidation none key version s =
    if version == 0
    then (s, err invalid_option)
    else (if ltb (version_of key s) version
        then (
          record s { versions = insert key version s.versions; entries = delete key s.entries },
          ok invalidation_applied,
        )
        else (if version == version_of key s
            then (s, ok invalidation_current)
            else (s, ok invalidation_stale)))

pub data Call : Type 0 where
  gets : Option ℕ → ℕ → Text → Call
  sets : Option ℕ → ℕ → Text → Text → ℤ → Call
  deletes : Option ℕ → List Text → Call
  sets_if : Option ℕ → ℕ → Text → Text → ℤ → ℕ → Call
  invalidates : Option ℕ → Text → ℕ → Call

abbrev pub after : Call → Store → Store
after (gets ctx now key) s = (get ctx now key s).0
after (sets ctx now key value ttl) s = (set ctx now key value ttl s).0
after (deletes ctx keys) s = (delete_keys ctx keys s).0
after (sets_if ctx now key value ttl v) s = (set_if_version ctx now key value ttl v s).0
after (invalidates ctx key v) s = (apply_invalidation ctx key v s).0

unfoldable pub history : List Call → Store → Store
history [] s = s
history (x ∷ xs) s = history xs (after x s)
