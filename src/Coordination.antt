-- ===== src/Coordination.antt =====
-- coordination/memory/memory.go: the process-local coordinator of exclusive lease keys. A lease is
-- a pointer in the source; here it has an identity, and the coordinator also holds the identities
-- whose sync.Once has run. The mutex makes each call one step.
use keelith.Prelude.{
  ℕ, suc, ◌+◌, ◌≤◌, ◌<◌, ◌==◌, leb, ltb, not, Bool, true, false, ◌&&◌, ◌||◌, List, [], ◌∷◌, length,
  all, if◌then◌else◌, Option, none, some, is_some,
}
use keelith.Prelude.Text.{Text, is_empty, valid_utf8, is_trimmed, is_control, runes}
use keelith.Prelude.Maps.{Map, lookup, insert, delete}
use keelith.Prelude.Words.{add_u64}
use keelith.Prelude.Int.{ℤ, is_pos}
use keelith.Prelude.Results.{Result, ok, err}
use keelith.Prelude.Contexts.{Context, nil_context, live, ended}
pub mod Exclusion
pub mod Fences
pub mod Current

pub data Error : Type 0 where
  invalid_option : Error
  cause : ℕ → Error

pub record Lease : Type 0 where
  pub id : ℕ
  pub key : Text
  pub fence : ℕ

pub record Coordinator : Type 0 where
  pub leases : Map Lease
  pub fences : Map ℕ
  pub acquired : ℕ
  pub rejected : ℕ
  pub released : ℕ
  pub next_id : ℕ
  pub finished : List ℕ

-- New
abbrev pub new_coordinator : Coordinator
new_coordinator = record {
  leases = [];
  fences = [];
  acquired = 0;
  rejected = 0;
  released = 0;
  next_id = 0;
  finished = [];
}

-- validKey
unfoldable pub valid_key : Text → Bool
unfolding is_trimmed valid_utf8 runes
valid_key value =
    not (
      is_empty value
      || (ltb 512 (length value) || (not (is_trimmed value) || not (valid_utf8 value))))
    && all (λ r. not (is_control r.point)) (runes value)

-- c.fences[key], zero where there is none.
unfoldable pub fence_of : Text → Coordinator → ℕ
fence_of key c = elim (lookup key c.fences) [ none ↦ 0 | some n ↦ n ]

abbrev pub new_lease : Text → Coordinator → Lease
new_lease key c = record { id = c.next_id; key = key; fence = add_u64 (fence_of key c) 1 }

-- The coordinator with a new lease of a free key.
unfoldable pub grant : Text → Coordinator → Coordinator
unfolding fence_of
grant key c = record c {
  leases = insert key (new_lease key c) c.leases;
  fences = insert key (new_lease key c).fence c.fences;
  acquired = add_u64 c.acquired 1;
  next_id = suc c.next_id;
}

-- TryAcquire under the mutex. No lease is the false result.
unfoldable pub acquire_key : Text → Coordinator → Coordinator × Result Error (Option Lease)
unfolding grant
acquire_key key c =
    if is_some (lookup key c.leases)
    then (record c { rejected = add_u64 c.rejected 1 }, ok none)
    else (grant key c, ok (some (new_lease key c)))

-- TryAcquire, of a context that has ended or not.
abbrev acquire_live : Context → Text → Coordinator → Coordinator × Result Error (Option Lease)
acquire_live nil_context key c = (c, err invalid_option)
acquire_live (ended n) key c = (c, err (cause n))
acquire_live live key c = acquire_key key c

-- TryAcquire
unfoldable pub try_acquire :
    Context → Text → ℤ → Coordinator → Coordinator × Result Error (Option Lease)
unfolding acquire_key valid_key
try_acquire ctx key ttl c =
    if not (is_pos ttl) || not (valid_key key)
    then (c, err invalid_option)
    else acquire_live ctx key c

-- l.coordinator.leases[l.key] == l
unfoldable pub is_current : Lease → Option Lease → Bool
is_current l none = false
is_current l (some held) = held.id == l.id

abbrev pub mem : ℕ → List ℕ → Bool
mem n [] = false
mem n (m ∷ ms) = m == n || mem n ms

-- What Release does once.
unfoldable pub free : Lease → Coordinator → Coordinator
unfolding is_current
free l c =
    let once : Coordinator = record c { finished = l.id ∷ c.finished } in
    if is_current l (lookup l.key c.leases)
    then record once { leases = delete l.key c.leases; released = add_u64 c.released 1 }
    else once

-- Release. The error of a process-local lease is never set.
unfoldable pub release : Context → Lease → Coordinator → Coordinator × Result Error (Unit {0})
unfolding free
release nil_context l c = (c, err invalid_option)
release (ended n) l c = (c, err (cause n))
release live l c = if mem l.id c.finished then (c, ok tt) else (free l c, ok tt)

pub data Call : Type 0 where
  acquires : Context → Text → ℤ → Call
  releases : Context → Lease → Call

abbrev after : Call → Coordinator → Coordinator
after (acquires ctx key ttl) c = (try_acquire ctx key ttl c).0
after (releases ctx l) c = (release ctx l c).0

unfoldable pub history : List Call → Coordinator → Coordinator
history [] c = c
history (x ∷ xs) c = history xs (after x c)
