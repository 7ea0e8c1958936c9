-- ===== src/Cache/Expiry.antt =====
-- cache/memory/memory.go: what Get returns for a value that was stored.
use keelith.Prelude.{
  ℕ, ◌+◌, ◌==◌, ltb, not, false, ◌&&◌, List, [], ◌∷◌, if◌then◌else◌, Option, none, some, ◌≡◌, refl,
  ◌∙◌, inl, inr, arith, Bool-cases, Option-cases, All,
}
use keelith.Prelude.Text.{Text, text_eq}
use keelith.Prelude.Maps.{lookup, delete, lookup-insert, lookup-insert_self, lookup-delete}
use keelith.Prelude.Int.{ℤ, pos, negsuc, is_pos, to_nat}
use keelith.Prelude.Results.{ok, err}
use keelith.Cache.{
  miss, Entry, Store, version_of, get, has_expired, set, put, expiry, delete_all, delete_keys,
  set_if_version, apply_invalidation, Call, gets, sets, deletes, sets_if, invalidates, after,
  history,
}

-- A call whose keys are other keys.
abbrev pub Elsewhere : Text → Call → Type 0
Elsewhere k (gets ctx now key) = text_eq key k ≡ false
Elsewhere k (sets ctx now key value ttl) = text_eq key k ≡ false
Elsewhere k (deletes ctx keys) = All (λ key. text_eq key k ≡ false) keys
Elsewhere k (sets_if ctx now key value ttl v) = text_eq key k ≡ false
Elsewhere k (invalidates ctx key v) = text_eq key k ≡ false

abbrev entry_of : Text → Store → Option Entry
entry_of k s = lookup k s.entries

delete_all-entry :
    (k : Text) (keys : List Text) (s : Store) (n : ℕ)
    → All (λ key. text_eq key k ≡ false) keys
    → entry_of k (delete_all keys (s, n)).0 ≡ entry_of k s
unfolding delete_all
delete_all-entry k [] s n a = refl
delete_all-entry k (key ∷ keys) s n a = elim (Option-cases (lookup key s.entries)) [
  | inl e ↦ rw (delete_all, e) (delete_all-entry k keys s n a.1)
  | inr (x, e) ↦
      let one : lookup k (delete key s.entries) ≡ lookup k s.entries =
        ground (arith, lookup-delete key k s.entries, a.0) in
      rw (delete_all, e)
        (delete_all-entry k keys (record s { entries = delete key s.entries }) (n + 1) a.1 ∙ one)
]

get-entry :
    (k : Text) (ctx : Option ℕ) (now : ℕ) (key : Text) (s : Store)
    → text_eq key k ≡ false
    → entry_of k (get ctx now key s).0 ≡ entry_of k s
unfolding get
get-entry k (some n) now key s d = refl
get-entry k none now key s d = elim (Option-cases (lookup key s.entries)) [
  | inl e ↦ rw e refl
  | inr (x, e) ↦ rw e (ground (arith, lookup-delete key k s.entries, d))
]

put-entry :
    (k : Text) (now : ℕ) (key value : Text) (ttl : ℤ) (s : Store)
    → text_eq key k ≡ false
    → entry_of k (put now key value ttl s) ≡ entry_of k s
put-entry k now key value ttl s d =
    rw (lookup-insert key k (record { value = value; expires_at = expiry now ttl }) s.entries, d)
      refl

set_if_version-entry :
    (k : Text) (now : ℕ) (key value : Text) (ttl : ℤ) (v : ℕ) (s : Store)
    → text_eq key k ≡ false
    → entry_of k (set_if_version none now key value ttl v s).0 ≡ entry_of k s
unfolding set_if_version
set_if_version-entry k now key value ttl v s d = elim (Bool-cases (version_of key s == v)) [
  | inl e ↦ rw (set_if_version, e) (put-entry k now key value ttl s d)
  | inr e ↦ rw (set_if_version, e) refl
]

after-entry :
    (k : Text) (x : Call) (s : Store) → Elsewhere k x → entry_of k (after x s) ≡ entry_of k s
unfolding set delete_keys set_if_version apply_invalidation
after-entry k (gets ctx now key) s d = get-entry k ctx now key s d
after-entry k (sets (some n) now key value ttl) s d = refl
after-entry k (sets none now key value ttl) s d = put-entry k now key value ttl s d
after-entry k (deletes (some n) keys) s d = refl
after-entry k (deletes none keys) s d = delete_all-entry k keys s 0 d
after-entry k (sets_if (some n) now key value ttl v) s d = refl
after-entry k (sets_if none now key value ttl v) s d =
    set_if_version-entry k now key value ttl v s d
after-entry k (invalidates (some n) key v) s d = refl
after-entry k (invalidates none key v) s d = ground (arith, lookup-delete key k s.entries, d)

history-entry :
    (k : Text) (xs : List Call) (s : Store)
    → All (Elsewhere k) xs
    → entry_of k (history xs s) ≡ entry_of k s
unfolding history
history-entry k [] s a = refl
history-entry k (x ∷ xs) s a = history-entry k xs (after x s) a.1 ∙ after-entry k x s a.0

expiry-expired :
    (now later : ℕ) (value : Text) (ttl : ℤ)
    → has_expired later (record { value = value; expires_at = expiry now ttl })
      ≡ (is_pos ttl && not (ltb later (now + to_nat ttl)))
expiry-expired now later value (pos n) = ground arith
expiry-expired now later value (negsuc n) = ground arith

-- A stored value is found until it expires. After Set of a key in a live context, and any calls
-- whose keys are other keys, Get of the key in a live context returns the value, or a miss exactly
-- when the time to live was positive and has passed by then.
pub get-set :
    (key value : Text) (ttl : ℤ) (now later : ℕ) (s : Store) (xs : List Call)
    → All (Elsewhere key) xs
    → (get none later key (history xs (set none now key value ttl s).0)).1
      ≡ (if is_pos ttl && not (ltb later (now + to_nat ttl)) then err miss else ok value)
unfolding get set
get-set key value ttl now later s xs a =
    let stored : Entry = record { value = value; expires_at = expiry now ttl } in
    let there : lookup key (history xs (put now key value ttl s)).entries ≡ some stored =
      history-entry key xs (put now key value ttl s) a ∙ lookup-insert_self key stored s.entries in
    rw (get, set, there) (ground (arith, expiry-expired now later value ttl))
