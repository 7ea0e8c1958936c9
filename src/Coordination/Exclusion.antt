-- ===== src/Coordination/Exclusion.antt =====
-- coordination/memory/memory.go: a lease excludes every other owner of its key until its release.
use keelith.Prelude.{
  ℕ, ◌<◌, ◌==◌, true, false, List, [], ◌∷◌, All, none, some, ◌≡◌, ◌≢◌, refl, subst, arith, ==_refl,
}
use keelith.Prelude.Text.{Text, text_eq_iff}
use keelith.Prelude.Maps.{
  lookup, lookup-insert, lookup-delete, lookup-insert_self, lookup-delete_self,
}
use keelith.Prelude.Int.{ℤ, is_pos}
use keelith.Prelude.Results.{ok}
use keelith.Prelude.Contexts.{Context, live}
use keelith.Coordination.{
  Lease, Coordinator, valid_key, new_lease, acquire_key, try_acquire, mem, release, Call, acquires,
  releases, history, after,
}

-- Every sync.Once that has run is of a lease that was handed out.
abbrev pub Fresh : Coordinator → Type 0
Fresh c = All (λ n. n < c.next_id) c.finished

-- The lease l is the current one of its key and is not released.
abbrev pub Holds : Lease → Coordinator → Type 0
Holds l c = (lookup l.key c.leases ≡ some l) × (mem l.id c.finished ≡ false)

-- A call other than the release of l.
abbrev pub Spares : Lease → Call → Type 0
Spares l (acquires ctx key ttl) = Unit
Spares l (releases ctx m) = (m.id == l.id) ≡ false

mem-fresh : (n : ℕ) (ms : List ℕ) → All (λ m. m < n) ms → mem n ms ≡ false
mem-fresh n [] h = refl
mem-fresh n (m ∷ ms) h = ground (arith, mem-fresh n ms h.1, h.0)

acquire_key-Holds :
    (key : Text) (l : Lease) (c : Coordinator) → Holds l c → Holds l (acquire_key key c).0
unfolding acquire_key
acquire_key-Holds key l c h =
    ground
      (arith, lookup-insert key l.key (new_lease key c) c.leases, text_eq_iff key l.key, h.0, h.1)

try_acquire-Holds :
    (ctx : Context) (key : Text) (ttl : ℤ) (l : Lease) (c : Coordinator)
    → Holds l c
    → Holds l (try_acquire ctx key ttl c).0
unfolding try_acquire
try_acquire-Holds ctx key ttl l c h = ground (arith, acquire_key-Holds key l c h)

release-Holds :
    (ctx : Context) (m l : Lease) (c : Coordinator)
    → (m.id == l.id) ≡ false
    → Holds l c
    → Holds l (release ctx m c).0
unfolding release
release-Holds ctx m l c other h =
    ground (arith, lookup-delete m.key l.key c.leases, text_eq_iff m.key l.key, h.0, h.1)

history-Holds :
    (xs : List Call) (l : Lease) (c : Coordinator)
    → All (Spares l) xs
    → Holds l c
    → Holds l (history xs c)
unfolding history
history-Holds [] l c spared h = h
history-Holds (acquires ctx key ttl ∷ xs) l c spared h =
    history-Holds xs l (after (acquires ctx key ttl) c) spared.1
      (try_acquire-Holds ctx key ttl l c h)
history-Holds (releases ctx m ∷ xs) l c spared h =
    history-Holds xs l (after (releases ctx m) c) spared.1 (release-Holds ctx m l c spared.0 h)

-- The lease that TryAcquire returned is the current one of its key.
acquired-Holds :
    (ctx : Context) (key : Text) (ttl : ℤ) (c : Coordinator) {l : Lease}
    → Fresh c
    → (try_acquire ctx key ttl c).1 ≡ ok (some l)
    → Holds l (try_acquire ctx key ttl c).0 × (l.key ≡ key)
unfolding try_acquire acquire_key
acquired-Holds ctx key ttl c {l} fresh got =
    ground (
      arith,
      lookup-insert_self key (new_lease key c) c.leases,
      mem-fresh c.next_id c.finished fresh,
    )

try_acquire-held :
    (ctx : Context) (ttl : ℤ) (l m : Lease) (c : Coordinator)
    → Holds l c
    → (try_acquire ctx l.key ttl c).1 ≢ ok (some m)
unfolding try_acquire acquire_key
try_acquire-held ctx ttl l m c h got = ground (arith, h.0)

-- Once TryAcquire has returned a lease, after every history of calls that does not release that
-- lease, TryAcquire of its key returns no lease, whoever asks. Before the first call no lease was
-- released but those handed out.
pub acquire-excludes :
    (ctx : Context) (key : Text) (ttl : ℤ) (c : Coordinator) {l : Lease}
    → Fresh c
    → (try_acquire ctx key ttl c).1 ≡ ok (some l)
    → (xs : List Call) → All (Spares l) xs
    → (other : Context) (t : ℤ) (m : Lease)
    → (try_acquire other key t (history xs (try_acquire ctx key ttl c).0)).1 ≢ ok (some m)
acquire-excludes ctx key ttl c {l} fresh got xs spared other t m =
    let first = acquired-Holds ctx key ttl c fresh got in
    let kept = history-Holds xs l (try_acquire ctx key ttl c).0 spared first.0 in
    subst (λ k. (try_acquire other k t (history xs (try_acquire ctx key ttl c).0)).1 ≢ ok (some m))
      first.1 (try_acquire-held other t l m (history xs (try_acquire ctx key ttl c).0) kept)

released-free :
    (l : Lease) (c : Coordinator) → Holds l c → lookup l.key (release live l c).0.leases ≡ none
unfolding release
released-free l c h = ground (arith, lookup-delete_self l.key c.leases, ==_refl l.id, h.0, h.1)

-- What TryAcquire asks of its arguments.
abbrev pub Asks : Text → ℤ → Type 0
Asks key ttl = (is_pos ttl ≡ true) × (valid_key key ≡ true)

free-acquired :
    (key : Text) (ttl : ℤ) (c : Coordinator)
    → Asks key ttl
    → lookup key c.leases ≡ none
    → (try_acquire live key ttl c).1 ≡ ok (some (new_lease key c))
unfolding try_acquire acquire_key
free-acquired key ttl c asks f = ground (arith, f, asks.0, asks.1)

-- The coordinator after a history of calls and the release of l.
abbrev pub freed : Lease → List Call → Coordinator → Coordinator
freed l xs c = (release live l (history xs c)).0

-- Once TryAcquire has returned a lease, after every history of calls that does not release that
-- lease, its release by a live context hands the key over: the next TryAcquire of the key in a live
-- context, with a positive ttl and a valid key, returns a new lease. Before the first call no lease
-- was released but those handed out.
pub release-hands_over :
    (ctx : Context) (key : Text) (ttl : ℤ) (c : Coordinator) {l : Lease}
    → Fresh c
    → (try_acquire ctx key ttl c).1 ≡ ok (some l)
    → (xs : List Call) → All (Spares l) xs
    → (t : ℤ) → Asks key t
    → (try_acquire live key t (freed l xs (try_acquire ctx key ttl c).0)).1
      ≡ ok (some (new_lease key (freed l xs (try_acquire ctx key ttl c).0)))
release-hands_over ctx key ttl c {l} fresh got xs spared t asks =
    let first = acquired-Holds ctx key ttl c fresh got in
    let kept = history-Holds xs l (try_acquire ctx key ttl c).0 spared first.0 in
    free-acquired key t (freed l xs (try_acquire ctx key ttl c).0) asks (
      subst (λ k. lookup k (freed l xs (try_acquire ctx key ttl c).0).leases ≡ none) first.1
        (released-free l (history xs (try_acquire ctx key ttl c).0) kept))
