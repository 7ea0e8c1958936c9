-- ===== src/Governance/Bulkhead/Listed.antt =====
-- governance/bulkhead/bulkhead.go: no caller is lost: who is in its select and has not been granted
-- is in the queue.
use keelith.Prelude.{
  ℕ, zero, suc, ◌-◌, ◌==◌, ltb, not, Bool, true, false, ◌&&◌, ◌||◌, List, [], ◌∷◌, ◌++◌, length,
  ◌≡◌, subst, inl, inr, arith, Bool-cases, none, some,
}
use keelith.Prelude.Int.{le_nat}
use keelith.Prelude.Contexts.{Context, nil_context, live, ended}
use keelith.Governance.Bulkhead.{
  WaiterState, waiter_queued, waiter_granted, waiter_canceled, is_queued, is_granted, is_zero,
  BulkheadPolicy, Bulkhead, Permit, valid_policy, set, grant_first, grant_next, grant_all, enqueue,
  entered, enter, configured, acquire, release, release_permit, remove, missed, canceled, cancel_in,
  cancel_granted, Wake, ready, context_done, timeout, wake, World, new_world, Step, acquires, wakes,
  releases, awakened, can_wake, release_at, step, serve,
}

unfoldable pub listed : ℕ → List ℕ → Bool
listed j [] = false
listed j (i ∷ is) = i == j || listed j is

-- Every caller in its select that has not been granted is queued and in the list.
abbrev pub Keeps : (ℕ → Bool) → (ℕ → WaiterState) → List ℕ → Type 0
Keeps selecting state_of is =
    (j : ℕ)
    → selecting j ≡ true
    → is_granted (state_of j) ≡ false
    → (is_queued (state_of j) && listed j is) ≡ true

abbrev pub AllListed : (ℕ → Bool) → Bulkhead → Type 0
AllListed selecting b = Keeps selecting b.state_of b.waiters

listed-append : (j k : ℕ) (is : List ℕ) → listed j (is ++ (k ∷ [])) ≡ (listed j is || k == j)
unfolding listed
listed-append j k [] = ground arith
listed-append j k (i ∷ is) = ground (arith, listed-append j k is)

listed-remove :
    (i j : ℕ) (is : List ℕ) → (i == j) ≡ false → listed j is ≡ true → listed j (remove i is) ≡ true
unfolding listed remove
listed-remove i j [] e h = h
listed-remove i j (k ∷ is) e h = ground (arith, e, h, listed-remove i j is)

module _ (sel : ℕ → Bool) where
  grant_first-AllListed :
      (is : List ℕ) (b : Bulkhead) → Keeps sel b.state_of is → AllListed sel (grant_first is b)
  unfolding grant_first listed
  grant_first-AllListed [] b h = h
  grant_first-AllListed (i ∷ is) b h = elim (Bool-cases (is_queued (b.state_of i))) [
    | inl q ↦ rw q (λ j s g. elim (Bool-cases (i == j)) [
      | inl e ↦ absurd (ground (arith, g, e))
      | inr e ↦ let old = h j s (ground (arith, g, e)) in rw e (ground (arith, old, e))
    ])
    | inr q ↦ rw q (
        grant_first-AllListed is b (λ j s g. elim (Bool-cases (i == j)) [
          | inl e ↦
              let is_j : i ≡ j = ground (arith, e) in
              let old = h j s g in
              let not_queued = subst (λ k. is_queued (b.state_of k) ≡ false) is_j q in
              absurd (ground (arith, old, not_queued))
          | inr e ↦ let old = h j s g in ground (arith, old, e)
        ]))
  ]

  grant_next-AllListed : (b : Bulkhead) → AllListed sel b → AllListed sel (grant_next b)
  unfolding grant_next
  grant_next-AllListed b h =
      elim (Bool-cases (le_nat b.max_concurrency 0 || le_nat b.max_concurrency b.inflight)) [
        | inl e ↦ rw e h
        | inr e ↦ rw e (grant_first-AllListed b.waiters b h)
      ]

  grant_all-AllListed : (n : ℕ) (b : Bulkhead) → AllListed sel b → AllListed sel (grant_all n b)
  unfolding grant_all
  grant_all-AllListed zero b h = h
  grant_all-AllListed (suc n) b h =
      elim (Bool-cases (not (le_nat b.max_concurrency b.inflight) && ltb 0 (length b.waiters))) [
        | inl e ↦ rw e (grant_all-AllListed n (grant_next b) (grant_next-AllListed b h))
        | inr e ↦ rw e h
      ]

  release_permit-AllListed :
      (p : Permit) (b : Bulkhead) → AllListed sel b → AllListed sel (release_permit p b).1
  unfolding release
  release_permit-AllListed p b h = elim (Bool-cases (not p.bound || p.released)) [
    | inl e ↦ rw e h
    | inr e ↦ rw e (grant_next-AllListed (record b { inflight = b.inflight - 1 }) h)
  ]

  release_at-AllListed :
      (i : ℕ) (ps : List Permit) (b : Bulkhead)
      → AllListed sel b
      → AllListed sel (release_at i ps b).1
  unfolding release_at
  release_at-AllListed i [] b h = h
  release_at-AllListed zero (p ∷ ps) b h = release_permit-AllListed p b h
  release_at-AllListed (suc i) (p ∷ ps) b h = release_at-AllListed i ps b h

  enqueue-AllListed :
      (b : Bulkhead) → AllListed sel b → AllListed (set b.allocated true sel) (enqueue b)
  enqueue-AllListed b h j s g = elim (Bool-cases (b.allocated == j)) [
    | inl e ↦ rw (e, listed-append j b.allocated b.waiters) (ground (arith, e))
    | inr e ↦
        let old = h j (ground (arith, s, e)) (ground (arith, g, e)) in
        rw (e, listed-append j b.allocated b.waiters) (ground (arith, old, e))
  ]

  missed-AllListed : (t : Bool) (b : Bulkhead) → AllListed sel b → AllListed sel (missed t b)
  missed-AllListed true b h = h
  missed-AllListed false b h = h

-- A caller leaves its select.
leaves-AllListed :
    (sel : ℕ → Bool) (i : ℕ) (b : Bulkhead) → AllListed sel b → AllListed (set i false sel) b
leaves-AllListed sel i b h j s g = elim (Bool-cases (i == j)) [
  | inl e ↦ absurd (ground (arith, s, e))
  | inr e ↦ h j (ground (arith, s, e)) g
]

cancel_in-AllListed :
    (sel : ℕ → Bool) (state : WaiterState) (i : ℕ) (t : Bool) (b : Bulkhead)
    → AllListed sel b
    → AllListed (set i false sel) (cancel_in state i t b)
cancel_in-AllListed sel waiter_queued i t b h =
    let left = record (canceled i b) { waiters = remove i b.waiters } in
    grant_next-AllListed (set i false sel) (missed t left) (
      missed-AllListed (set i false sel) t left (λ j s g. elim (Bool-cases (i == j)) [
        | inl e ↦ absurd (ground (arith, s, e))
        | inr e ↦
            let old = h j (ground (arith, s, e)) (ground (arith, g, e)) in
            rw e (ground (arith, old, listed-remove i j b.waiters e))
      ]))
cancel_in-AllListed sel waiter_granted i t b h =
    let left = record (canceled i b) { inflight = b.inflight - 1 } in
    grant_next-AllListed (set i false sel) (missed t left) (
      missed-AllListed (set i false sel) t left (λ j s g. elim (Bool-cases (i == j)) [
        | inl e ↦ absurd (ground (arith, s, e))
        | inr e ↦
            let old = h j (ground (arith, s, e)) (ground (arith, g, e)) in
            rw e (ground (arith, old))
      ]))
cancel_in-AllListed sel waiter_canceled i t b h = leaves-AllListed sel i b h

cancel_granted-AllListed :
    (sel : ℕ → Bool) (i : ℕ) (t : Bool) (b : Bulkhead)
    → AllListed sel b
    → AllListed (set i false sel) (cancel_granted i t b)
unfolding cancel_granted
cancel_granted-AllListed sel i t b h = cancel_in-AllListed sel (b.state_of i) i t b h

enter-AllListed :
    (c : BulkheadPolicy) (b : Bulkhead) (w : World)
    → AllListed w.selecting b
    → AllListed
        (entered (enter c b).0 (enter c b).1 w).selecting
        (entered (enter c b).0 (enter c b).1 w).bulkhead
unfolding enter
enter-AllListed c b w h =
    elim (Bool-cases (not (le_nat c.max_concurrency b.inflight) && length b.waiters == 0)) [
      | inl free ↦ rw (enter, free) h
      | inr busy ↦
          elim (Bool-cases (is_zero c.max_queue || le_nat c.max_queue (length b.waiters))) [
            | inl no_place ↦ rw (enter, busy, no_place) h
            | inr place ↦ rw (enter, busy, place) (enqueue-AllListed w.selecting b h)
          ]
    ]

-- All callers of a world are listed.
abbrev pub NoneLost : World → Type 0
NoneLost w = AllListed w.selecting w.bulkhead

acquires-NoneLost :
    (ctx : Context) (c : BulkheadPolicy) (w : World)
    → NoneLost w
    → NoneLost (step (acquires ctx c) w)
unfolding step acquire
acquires-NoneLost nil_context c w h = h
acquires-NoneLost (ended k) c w h = h
acquires-NoneLost live c w h = elim (Bool-cases c.enabled) [
  | inl on ↦ elim (Bool-cases (valid_policy c)) [
    | inl good ↦
        let b = configured c w.bulkhead in
        rw (step, acquire, on, good)
          (enter-AllListed c (grant_all (length w.bulkhead.waiters) b) w
            (grant_all-AllListed w.selecting (length w.bulkhead.waiters) b h))
    | inr bad ↦ rw (step, acquire, on, bad) h
  ]
  | inr off ↦ rw (step, acquire, off) h
]

wake-NoneLost :
    (x : Wake) (i : ℕ) (w : World)
    → NoneLost w
    → NoneLost (awakened i (wake x i w.bulkhead).0 (wake x i w.bulkhead).1 w)
wake-NoneLost (ready none) i w h = leaves-AllListed w.selecting i w.bulkhead h
wake-NoneLost (ready (some k)) i w h = cancel_granted-AllListed w.selecting i false w.bulkhead h
wake-NoneLost (context_done k) i w h = cancel_granted-AllListed w.selecting i false w.bulkhead h
wake-NoneLost timeout i w h = cancel_granted-AllListed w.selecting i true w.bulkhead h

step-NoneLost : (x : Step) (w : World) → NoneLost w → NoneLost (step x w)
unfolding step
step-NoneLost (acquires ctx c) w h = acquires-NoneLost ctx c w h
step-NoneLost (wakes x i) w h =
    elim (Bool-cases (w.selecting i && can_wake x (w.bulkhead.state_of i))) [
      | inl e ↦ rw (step, e) (wake-NoneLost x i w h)
      | inr e ↦ rw (step, e) h
    ]
step-NoneLost (releases i) w h = release_at-AllListed w.selecting i w.permits w.bulkhead h

pub serve-NoneLost : (xs : List Step) (w : World) → NoneLost w → NoneLost (serve xs w)
unfolding serve
serve-NoneLost [] w h = h
serve-NoneLost (x ∷ xs) w h = serve-NoneLost xs (step x w) (step-NoneLost x w h)

pub new_world-NoneLost : NoneLost new_world
new_world-NoneLost j s g = absurd (ground (arith, s))
