-- ===== src/Coordination/Fences.antt =====
-- coordination/memory/memory.go: the fences of a key.
use keelith.Prelude.{◌+◌, ◌≤◌, ◌<◌, List, [], ◌∷◌, length, some, ◌≡◌, arith}
use keelith.Prelude.Text.{Text, text_eq_iff}
use keelith.Prelude.Maps.{lookup-insert, lookup-insert_self}
use keelith.Prelude.Words.{u64_mod}
use keelith.Prelude.Int.{ℤ}
use keelith.Prelude.Results.{ok}
use keelith.Prelude.Contexts.{Context}
use keelith.Coordination.{
  Lease, Coordinator, fence_of, new_lease, acquire_key, try_acquire, release, Call, acquires,
  releases, history, after,
}

acquire_key-fence :
    (key other : Text) (c : Coordinator)
    → fence_of other c + 1 < u64_mod
    → (fence_of other c ≤ fence_of other (acquire_key key c).0)
      × (fence_of other (acquire_key key c).0 ≤ fence_of other c + 1)
unfolding acquire_key fence_of
acquire_key-fence key other c l =
    ground (arith, lookup-insert key other (new_lease key c).fence c.fences, text_eq_iff key other)

try_acquire-fence :
    (ctx : Context) (key other : Text) (ttl : ℤ) (c : Coordinator)
    → fence_of other c + 1 < u64_mod
    → (fence_of other c ≤ fence_of other (try_acquire ctx key ttl c).0)
      × (fence_of other (try_acquire ctx key ttl c).0 ≤ fence_of other c + 1)
unfolding try_acquire
try_acquire-fence ctx key other ttl c l = ground (arith, acquire_key-fence key other c l)

release-fence :
    (ctx : Context) (l : Lease) (other : Text) (c : Coordinator)
    → fence_of other (release ctx l c).0 ≡ fence_of other c
unfolding release fence_of
release-fence ctx l other c = ground arith

history-fence :
    (xs : List Call) (key : Text) (c : Coordinator)
    → fence_of key c + length xs < u64_mod
    → (fence_of key c ≤ fence_of key (history xs c))
      × (fence_of key (history xs c) ≤ fence_of key c + length xs)
unfolding history
history-fence [] key c l = (omega arith, omega arith)
history-fence (acquires ctx other ttl ∷ xs) key c l =
    let next = after (acquires ctx other ttl) c in
    let first = try_acquire-fence ctx other key ttl c (omega arith) in
    let rest = history-fence xs key next (omega (arith, first.1)) in
    (omega (arith, first.0, rest.0), omega (arith, first.1, rest.1))
history-fence (releases ctx l ∷ xs) key c bound =
    let next = after (releases ctx l) c in
    let first = release-fence ctx l key c in
    let rest = history-fence xs key next (omega (arith, first)) in
    (omega (arith, first, rest.0), omega (arith, first, rest.1))

-- The fence of a lease is one above the fence of its key before, which it becomes.
acquired-fence :
    (ctx : Context) (key : Text) (ttl : ℤ) (c : Coordinator) {l : Lease}
    → fence_of key c + 1 < u64_mod
    → (try_acquire ctx key ttl c).1 ≡ ok (some l)
    → (l.fence ≡ fence_of key c + 1) × (fence_of key (try_acquire ctx key ttl c).0 ≡ l.fence)
unfolding try_acquire acquire_key fence_of
acquired-fence ctx key ttl c {l} bound got =
    ground (arith, lookup-insert_self key (new_lease key c).fence c.fences)

-- Of two leases of a key that TryAcquire returned one after the other, with any history of calls
-- between them, the later one has the greater fence, and the first one a positive fence. The
-- key's fence and the number of calls are small enough that uint64 does not wrap around.
pub acquire-fences_grow :
    (ctx : Context) (key : Text) (ttl : ℤ) (c : Coordinator) {l m : Lease}
    → (xs : List Call) (other : Context) (t : ℤ) → fence_of key c + length xs + 2 < u64_mod
    → (try_acquire ctx key ttl c).1 ≡ ok (some l)
    → (try_acquire other key t (history xs (try_acquire ctx key ttl c).0)).1 ≡ ok (some m)
    → (0 < l.fence) × (l.fence < m.fence)
acquire-fences_grow ctx key ttl c {l} {m} xs other t bound got later =
    let first = acquired-fence ctx key ttl c (omega arith) got in
    let between =
      history-fence xs key (try_acquire ctx key ttl c).0 (omega (arith, first.0, first.1)) in
    let last =
      acquired-fence other key t (history xs (try_acquire ctx key ttl c).0)
        (omega (arith, first.0, first.1, between.1)) later in
    (omega (arith, first.0), omega (arith, first.1, between.0, last.0))
