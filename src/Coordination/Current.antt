-- ===== src/Coordination/Current.antt =====
-- coordination/memory/memory.go: which lease a key has.
use keelith.Prelude.{List, [], ◌∷◌, ◌≡◌, arith}
use keelith.Prelude.Text.{Text, text_eq_iff}
use keelith.Prelude.Maps.{lookup, lookup-insert, lookup-delete}
use keelith.Prelude.Int.{ℤ}
use keelith.Prelude.Contexts.{Context}
use keelith.Coordination.{
  Lease, Coordinator, new_coordinator, fence_of, new_lease, acquire_key, try_acquire, release, Call,
  acquires, releases, history, after,
}
use keelith.Prelude.Maps.{Every}

-- Every key's lease is of that key and has the last fence that the key was given.
abbrev pub AllCurrent : Coordinator → Type 0
AllCurrent c = Every (λ k l. (l.key ≡ k) × (l.fence ≡ fence_of k c)) c.leases

acquire_key-AllCurrent :
    (key : Text) (c : Coordinator) → AllCurrent c → AllCurrent (acquire_key key c).0
unfolding acquire_key fence_of
acquire_key-AllCurrent key c h k l e = ground (
  arith,
  h k l,
  lookup-insert key k (new_lease key c) c.leases,
  lookup-insert key k (new_lease key c).fence c.fences,
  text_eq_iff key k,
  e,
)

try_acquire-AllCurrent :
    (ctx : Context) (key : Text) (ttl : ℤ) (c : Coordinator)
    → AllCurrent c
    → AllCurrent (try_acquire ctx key ttl c).0
unfolding try_acquire
try_acquire-AllCurrent ctx key ttl c h k l e =
    ground (arith, h k l, acquire_key-AllCurrent key c h k l, e)

release-AllCurrent :
    (ctx : Context) (m : Lease) (c : Coordinator) → AllCurrent c → AllCurrent (release ctx m c).0
unfolding release fence_of
release-AllCurrent ctx m c h k l e = ground (arith, h k l, lookup-delete m.key k c.leases, e)

history_from-AllCurrent :
    (xs : List Call) (c : Coordinator) → AllCurrent c → AllCurrent (history xs c)
unfolding history
history_from-AllCurrent [] c h = h
history_from-AllCurrent (acquires ctx key ttl ∷ xs) c h =
    history_from-AllCurrent xs (after (acquires ctx key ttl) c)
      (try_acquire-AllCurrent ctx key ttl c h)
history_from-AllCurrent (releases ctx m ∷ xs) c h =
    history_from-AllCurrent xs (after (releases ctx m) c) (release-AllCurrent ctx m c h)

-- After every history of calls on a new coordinator, the lease that stands under a key is a lease
-- of that key and carries the last fence that the key was given.
pub history-AllCurrent : (xs : List Call) → AllCurrent (history xs new_coordinator)
unfolding lookup
history-AllCurrent xs = history_from-AllCurrent xs new_coordinator (λ k l e. cc)
