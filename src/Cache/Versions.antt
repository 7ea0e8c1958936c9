-- ===== src/Cache/Versions.antt =====
-- cache/memory/memory.go: versions only grow, so an invalidation beats the loads that began before it.
use keelith.Prelude.{
  ℕ, ◌+◌, ◌≤◌, ◌<◌, ◌==◌, false, List, [], ◌∷◌, Option, none, some, ◌≡◌, refl, inl, inr, arith,
  Option-cases,
}
use keelith.Prelude.Text.{Text, text_eq_iff}
use keelith.Prelude.Maps.{lookup, delete, lookup-insert, lookup-insert_self}
use keelith.Prelude.Int.{ℤ}
use keelith.Prelude.Results.{ok}
use keelith.Cache.{
  Store, version_of, get, set, delete_all, delete_keys, set_if_version, invalidation_applied,
  apply_invalidation, current_version, Call, gets, sets, deletes, sets_if, invalidates, after,
  history,
}

delete_all-versions :
    (keys : List Text) (s : Store) (n : ℕ) → (delete_all keys (s, n)).0.versions ≡ s.versions
unfolding delete_all
delete_all-versions [] s n = refl
delete_all-versions (key ∷ keys) s n = elim (Option-cases (lookup key s.entries)) [
  | inl e ↦ rw (delete_all, e) (delete_all-versions keys s n)
  | inr (x, e) ↦
      rw (delete_all, e)
        (delete_all-versions keys (record s { entries = delete key s.entries }) (n + 1))
]

get-versions :
    (ctx : Option ℕ) (now : ℕ) (key : Text) (s : Store)
    → (get ctx now key s).0.versions ≡ s.versions
unfolding get
get-versions (some n) now key s = refl
get-versions none now key s = ground arith

-- A call leaves each version or raises it.
after-version : (k : Text) (x : Call) (s : Store) → version_of k s ≤ version_of k (after x s)
unfolding set delete_keys set_if_version apply_invalidation
after-version k (gets ctx now key) s = rw (get-versions ctx now key s) (omega arith)
after-version k (sets (some n) now key value ttl) s = omega arith
after-version k (sets none now key value ttl) s = omega arith
after-version k (deletes (some n) keys) s = omega arith
after-version k (deletes none keys) s = rw (delete_all-versions keys s 0) (omega arith)
after-version k (sets_if (some n) now key value ttl v) s = omega arith
after-version k (sets_if none now key value ttl v) s = ground arith
after-version k (invalidates (some n) key v) s = omega arith
after-version k (invalidates none key v) s =
    ground (arith, lookup-insert key k v s.versions, text_eq_iff key k)

history-version :
    (k : Text) (xs : List Call) (s : Store) → version_of k s ≤ version_of k (history xs s)
unfolding history
history-version k [] s = omega arith
history-version k (x ∷ xs) s = omega (arith, after-version k x s, history-version k xs (after x s))

apply_invalidation-applied :
    (ctx : Option ℕ) (key : Text) (v : ℕ) (s : Store)
    → (apply_invalidation ctx key v s).1 ≡ ok invalidation_applied
    → version_of key s < version_of key (apply_invalidation ctx key v s).0
unfolding apply_invalidation
apply_invalidation-applied (some n) key v s e = absurd (ground (arith, e))
apply_invalidation-applied none key v s e = ground (arith, e, lookup-insert_self key v s.versions)

-- An invalidation is not undone by a load that began before it. Let a load read the version of a
-- key, let an invalidation of the key be applied after that, and let any calls pass between
-- the read and the invalidation and after it. When the load then calls SetIfVersion with the version that it read, in a live context,
-- nothing is stored and the result is false.
pub stale_load-suppressed :
    (key value : Text) (ctx : Option ℕ) (read : ℕ) (s : Store) (xs ys : List Call) (v : ℕ) (now : ℕ)
    (ttl : ℤ)
    → current_version none key s ≡ ok read
    → (apply_invalidation ctx key v (history xs s)).1 ≡ ok invalidation_applied
    → set_if_version none now key value ttl read
        (history ys (apply_invalidation ctx key v (history xs s)).0)
      ≡ (history ys (apply_invalidation ctx key v (history xs s)).0, ok false)
unfolding current_version set_if_version
stale_load-suppressed key value ctx read s xs ys v now ttl e f =
    let t = (apply_invalidation ctx key v (history xs s)).0 in
    let had : version_of key s ≡ read = ground (arith, e) in
    let more = apply_invalidation-applied ctx key v (history xs s) f in
    let before = history-version key xs s in
    let later = history-version key ys t in
    let changed : (version_of key (history ys t) == read) ≡ false =
      ground (arith, had, more, before, later) in
    rw (set_if_version, changed) refl
