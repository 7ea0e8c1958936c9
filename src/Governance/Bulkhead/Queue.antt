-- ===== src/Governance/Bulkhead/Queue.antt =====
-- governance/bulkhead/bulkhead.go: the queue is bounded.
use keelith.Prelude.{
  ℕ, zero, suc, ◌-◌, ◌≤◌, ◌<◌, ◌==◌, ltb, not, Bool, true, false, ◌&&◌, ◌||◌, List, [], ◌∷◌, length,
  ◌≡◌, refl, sym, subst, inl, inr, arith, Bool-cases, All, none, some, length-append,
}
use keelith.Prelude.Int.{le_nat}
use keelith.Prelude.Contexts.{Context, nil_context, live, ended}
use keelith.Governance.Bulkhead.{
  BulkheadPolicy, WaiterState, waiter_queued, waiter_granted, waiter_canceled, is_queued, Bulkhead,
  Permit, valid_policy, is_zero, grant_first, grant_next, grant_all, enqueue, enter, configured,
  acquire, release, release_permit, remove, missed, canceled, cancel_in, cancel_granted, Wake,
  ready, context_done, timeout, wake, World, new_world, Step, acquires, wakes, releases, entered,
  awakened, can_wake, release_at, step, serve,
}
use keelith.Governance.Bulkhead.Slots.{room}
use keelith.Governance.Bulkhead.Order.{grant_next-cases}

-- At most m callers are queued, and never more were.
abbrev pub QueuesAtMost : ℕ → Bulkhead → Type 0
QueuesAtMost m b = (length b.waiters ≤ m) × (b.queue_high_water ≤ m)

-- The queue has not become longer.
abbrev Shorter : List ℕ → Bulkhead → Bulkhead → Type 0
Shorter ws b b' = (length b'.waiters ≤ length ws) × (b'.queue_high_water ≡ b.queue_high_water)

grant_first-Shorter : (ws : List ℕ) (b : Bulkhead) → Shorter ws b (grant_first ws b)
unfolding grant_first
grant_first-Shorter [] b = (omega arith, refl)
grant_first-Shorter (i ∷ rest) b = elim (Bool-cases (is_queued (b.state_of i))) [
  | inl e ↦ rw (grant_first, e) (omega arith, refl)
  | inr e ↦
      let (fewer, same) = grant_first-Shorter rest b in
      rw (grant_first, e) (omega (arith, fewer), same)
]

grant_next-Shorter : (b : Bulkhead) → Shorter b.waiters b (grant_next b)
grant_next-Shorter b = elim (grant_next-cases b) [
  | inl e ↦ subst (λ x. Shorter b.waiters b x) (sym e) (omega arith, refl)
  | inr e ↦ subst (λ x. Shorter b.waiters b x) (sym e) (grant_first-Shorter b.waiters b)
]

grant_next-QueuesAtMost : (m : ℕ) (b : Bulkhead) → QueuesAtMost m b → QueuesAtMost m (grant_next b)
grant_next-QueuesAtMost m b h =
    let (fewer, same) = grant_next-Shorter b in
    (omega (arith, fewer, h.0), omega (arith, same, h.1))

grant_all-QueuesAtMost :
    (fuel m : ℕ) (b : Bulkhead) → QueuesAtMost m b → QueuesAtMost m (grant_all fuel b)
unfolding grant_all
grant_all-QueuesAtMost zero m b h = h
grant_all-QueuesAtMost (suc fuel) m b h =
    elim (Bool-cases (not (le_nat b.max_concurrency b.inflight) && ltb 0 (length b.waiters))) [
      | inl e ↦
          rw (grant_all, e)
            (grant_all-QueuesAtMost fuel m (grant_next b) (grant_next-QueuesAtMost m b h))
      | inr e ↦ rw (grant_all, e) h
    ]

enqueue-QueuesAtMost :
    (m : ℕ) (b : Bulkhead) → length b.waiters < m → QueuesAtMost m b → QueuesAtMost m (enqueue b)
enqueue-QueuesAtMost m b l h =
    let more = length-append b.waiters (b.allocated ∷ []) in
    (omega (arith, more), ground (arith, h.1, l))

enter-QueuesAtMost :
    (m : ℕ) (c : BulkheadPolicy) (b : Bulkhead) (w : World)
    → le_nat c.max_queue m ≡ true
    → QueuesAtMost m b
    → QueuesAtMost m (entered (enter c b).0 (enter c b).1 w).bulkhead
unfolding enter
enter-QueuesAtMost m c b w l h =
    elim (Bool-cases (not (le_nat c.max_concurrency b.inflight) && length b.waiters == 0)) [
      | inl free ↦ rw (enter, free) h
      | inr busy ↦
          elim (Bool-cases (is_zero c.max_queue || le_nat c.max_queue (length b.waiters))) [
            | inl no_place ↦ rw (enter, busy, no_place) h
            | inr place ↦
                rw (enter, busy, place)
                  (enqueue-QueuesAtMost m b
                    (room c.max_queue (length b.waiters) m l (ground (arith, place))) h)
          ]
    ]

-- Steps whose policies allow at most m queued calls.
abbrev pub QueueWithin : ℕ → Step → Type 0
QueueWithin m (acquires ctx c) = le_nat c.max_queue m ≡ true
QueueWithin m (wakes x i) = Unit {0}
QueueWithin m (releases i) = Unit {0}

acquires-QueuesAtMost :
    (m : ℕ) (ctx : Context) (c : BulkheadPolicy) (w : World)
    → le_nat c.max_queue m ≡ true
    → QueuesAtMost m w.bulkhead
    → QueuesAtMost m (step (acquires ctx c) w).bulkhead
unfolding step acquire
acquires-QueuesAtMost m nil_context c w l h = h
acquires-QueuesAtMost m (ended k) c w l h = h
acquires-QueuesAtMost m live c w l h = elim (Bool-cases c.enabled) [
  | inl on ↦ elim (Bool-cases (valid_policy c)) [
    | inl good ↦
        let b = configured c w.bulkhead in
        rw (step, acquire, on, good)
          (enter-QueuesAtMost m c (grant_all (length w.bulkhead.waiters) b) w l
            (grant_all-QueuesAtMost (length w.bulkhead.waiters) m b h))
    | inr bad ↦ rw (step, acquire, on, bad) h
  ]
  | inr off ↦ rw (step, acquire, off) h
]

length-remove : (i : ℕ) (js : List ℕ) → length (remove i js) ≤ length js
unfolding remove
length-remove i [] = omega arith
length-remove i (j ∷ js) = ground (arith, length-remove i js)

missed-QueuesAtMost :
    (t : Bool) (m : ℕ) (b : Bulkhead) → QueuesAtMost m b → QueuesAtMost m (missed t b)
missed-QueuesAtMost true m b h = h
missed-QueuesAtMost false m b h = h

cancel_in-QueuesAtMost :
    (m i : ℕ) (t : Bool) (b : Bulkhead) (s : WaiterState)
    → QueuesAtMost m b
    → QueuesAtMost m (cancel_in s i t b)
cancel_in-QueuesAtMost m i t b waiter_queued h =
    let left = record (canceled i b) { waiters = remove i b.waiters } in
    grant_next-QueuesAtMost m (missed t left)
      (missed-QueuesAtMost t m left (omega (arith, length-remove i b.waiters, h.0), h.1))
cancel_in-QueuesAtMost m i t b waiter_granted h =
    let left = record (canceled i b) { inflight = b.inflight - 1 } in
    grant_next-QueuesAtMost m (missed t left) (missed-QueuesAtMost t m left h)
cancel_in-QueuesAtMost m i t b waiter_canceled h = h

wake-QueuesAtMost :
    (m : ℕ) (x : Wake) (i : ℕ) (w : World)
    → QueuesAtMost m w.bulkhead
    → QueuesAtMost m (awakened i (wake x i w.bulkhead).0 (wake x i w.bulkhead).1 w).bulkhead
unfolding cancel_granted
wake-QueuesAtMost m (ready none) i w h = h
wake-QueuesAtMost m (ready (some k)) i w h =
    cancel_in-QueuesAtMost m i false w.bulkhead (w.bulkhead.state_of i) h
wake-QueuesAtMost m (context_done k) i w h =
    cancel_in-QueuesAtMost m i false w.bulkhead (w.bulkhead.state_of i) h
wake-QueuesAtMost m timeout i w h =
    cancel_in-QueuesAtMost m i true w.bulkhead (w.bulkhead.state_of i) h

release_permit-QueuesAtMost :
    (m : ℕ) (p : Permit) (b : Bulkhead) → QueuesAtMost m b → QueuesAtMost m (release_permit p b).1
unfolding release
release_permit-QueuesAtMost m p b h = elim (Bool-cases (not p.bound || p.released)) [
  | inl done ↦ rw done h
  | inr held ↦ rw held (grant_next-QueuesAtMost m (record b { inflight = b.inflight - 1 }) h)
]

release_at-QueuesAtMost :
    (m i : ℕ) (ps : List Permit) (b : Bulkhead)
    → QueuesAtMost m b
    → QueuesAtMost m (release_at i ps b).1
unfolding release_at
release_at-QueuesAtMost m i [] b h = h
release_at-QueuesAtMost m zero (p ∷ ps) b h = release_permit-QueuesAtMost m p b h
release_at-QueuesAtMost m (suc i) (p ∷ ps) b h = release_at-QueuesAtMost m i ps b h

step-QueuesAtMost :
    (m : ℕ) (x : Step) (w : World)
    → QueueWithin m x
    → QueuesAtMost m w.bulkhead
    → QueuesAtMost m (step x w).bulkhead
unfolding step
step-QueuesAtMost m (acquires ctx c) w l h = acquires-QueuesAtMost m ctx c w l h
step-QueuesAtMost m (wakes x i) w l h =
    elim (Bool-cases (w.selecting i && can_wake x (w.bulkhead.state_of i))) [
      | inl e ↦ rw (step, e) (wake-QueuesAtMost m x i w h)
      | inr e ↦ rw (step, e) h
    ]
step-QueuesAtMost m (releases i) w l h = release_at-QueuesAtMost m i w.permits w.bulkhead h

serve_from-QueuesAtMost :
    (m : ℕ) (xs : List Step) (w : World)
    → All (QueueWithin m) xs
    → QueuesAtMost m w.bulkhead
    → QueuesAtMost m (serve xs w).bulkhead
unfolding serve
serve_from-QueuesAtMost m [] w l h = h
serve_from-QueuesAtMost m (x ∷ xs) w l h =
    serve_from-QueuesAtMost m xs (step x w) l.1 (step-QueuesAtMost m x w l.0 h)

-- The queue is bounded. When all policies of a run of a new bulkhead allow at most m queued calls,
-- then after every sequence of calls, ends of selects and releases at most m callers are queued, and
-- the high-water mark of the queue is at most m.
pub serve-QueuesAtMost :
    (m : ℕ) (xs : List Step) → All (QueueWithin m) xs → QueuesAtMost m (serve xs new_world).bulkhead
serve-QueuesAtMost m xs l = serve_from-QueuesAtMost m xs new_world l (omega arith, omega arith)
