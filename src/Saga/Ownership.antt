-- ===== src/Saga/Ownership.antt =====
-- saga/engine.go and coordination/memory: an instance that changes its owner.
use keelith.Prelude.{ℕ, ◌+◌, ◌<◌, false, List, length, some, ◌≡◌, inl}
use keelith.Prelude.Text.{Text}
use keelith.Prelude.Words.{u64_mod}
use keelith.Prelude.Results.{ok}
use keelith.Prelude.Contexts.{Context}
use keelith.Saga.{Record}
use keelith.Saga.Repository.{save}
use keelith.Prelude.Results.{is_ok}
use keelith.Prelude.Int.{ℤ}
use keelith.Saga.Repository.{Repository}
use keelith.Saga.Repository.Fencing
use keelith.Saga.Repository.Fencing.{save-excludes}
use keelith.Coordination
use keelith.Coordination.{Coordinator, Lease, try_acquire}
use keelith.Coordination.Fences.{acquire-fences_grow}

-- Two owners of one key, one after the other: once the second has saved the instance under the
-- fence of its lease, the first one can save it no more, whatever has happened at the coordinator
-- between their leases and at the repository since. The fences and revisions stay within uint64.
pub old_owner-excluded :
    (ctx : Context) (key : Text) (ttl : ℤ) (c : Coordinator) {first second : Lease}
    → (between : List Coordination.Call) (other : Context) (t : ℤ)
    → Coordination.fence_of key c + length between + 2 < u64_mod
    → (try_acquire ctx key ttl c).1 ≡ ok (some first)
    → (try_acquire other key t (Coordination.history between (try_acquire ctx key ttl c).0)).1
      ≡ ok (some second)
    → (mine : Context) (r : Record) (e : ℕ) (s s' : Repository) {r' : Record} → e + 1 < u64_mod
    → save mine r e second.fence s ≡ ok (s', r')
    → (xs : List Fencing.Call) → (late : Context) (q : Record) (old : ℕ) → q.id ≡ r.id
    → is_ok (save late q old first.fence (Fencing.history xs s')) ≡ false
old_owner-excluded ctx key ttl c {first} {second} between other t bound got later mine r e s s' {r'}
      l saved xs late q old same =
    let grows = acquire-fences_grow ctx key ttl c between other t bound got later in
    save-excludes mine r e second.fence s s' l saved xs late q old first.fence same (inl grows.1)
