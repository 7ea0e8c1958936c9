-- ===== src/Governance/Bulkhead/Slots.antt =====
-- governance/bulkhead/bulkhead.go: every slot in use belongs to one caller.
use keelith.Prelude.{
  ℕ, zero, suc, ◌+◌, ◌-◌, ◌≤◌, ◌<◌, ◌==◌, ltb, not, Bool, true, false, ◌&&◌, List, [], ◌∷◌, length,
  ◌≡◌, refl, subst, inl, inr, arith, Bool-cases, All, ==_refl,
}
use keelith.Prelude.Int.{ℤ, pos, negsuc, le_nat}
use keelith.Governance.Bulkhead.{
  WaiterState, waiter_queued, waiter_granted, waiter_canceled, is_queued, is_granted, Bulkhead, set,
  grant, grant_first, grant_next, grant_all, release, missed,
}

abbrev pub bit : Bool → ℕ
bit true = 1
bit false = 0

-- How many numbers below a bound pass a test.
unfoldable pub count : ℕ → (ℕ → Bool) → ℕ
count zero p = 0
count (suc n) p = bit (p n) + count n p

pub count-same : (n : ℕ) (p q : ℕ → Bool) → ((j : ℕ) → j < n → p j ≡ q j) → count n p ≡ count n q
unfolding count
count-same zero p q h = refl
count-same (suc n) p q h =
    let here = h n (omega arith) in
    let rest = count-same n p q (λ j l. h j (omega arith)) in rw (here, rest) refl

-- A test that changes at one number below the bound.
pub count-change :
    (n i : ℕ) (p q : ℕ → Bool)
    → i < n
    → ((j : ℕ) → (i == j) ≡ false → q j ≡ p j)
    → count n q + bit (p i) ≡ count n p + bit (q i)
unfolding count
count-change zero i p q l h = absurd (omega arith)
count-change (suc n) i p q l h = elim (Bool-cases (i == n)) [
  | inl e ↦
      let is_n : i ≡ n = ground (arith, e) in
      let rest : count n q ≡ count n p = count-same n q p (λ j m. h j (ground (arith, is_n))) in
      rw (is_n, rest) (omega arith)
  | inr e ↦ let rest = count-change n i p q (ground (arith, e)) h in rw (h n e) (omega arith)
]

-- Whether the caller of a waiter has a slot that it does not know of yet.
abbrev pub owns : (ℕ → Bool) → Bulkhead → ℕ → Bool
owns selecting b j = selecting j && is_granted (b.state_of j)

abbrev pub Above : ℕ → List ℕ → Type 0
Above i js = All (λ j. i < j) js

unfoldable pub Ascending : List ℕ → Type 0
Ascending [] = Unit {0}
Ascending (i ∷ is) = Above i is × Ascending is

abbrev pub Waits : (ℕ → Bool) → Bulkhead → ℕ → Type 0
Waits selecting b i = (i < b.allocated) × (selecting i ≡ true) × (is_queued (b.state_of i) ≡ true)

-- A bulkhead whose callers hold some permits: the slots in use are those of the held permits and of
-- the granted callers in their select, the waiters are queued callers in the order of their arrival,
-- and the limits n of the policies bound the slots in use.
pub record IsSound (n : ℕ) (selecting : ℕ → Bool) (held : ℕ) (b : Bulkhead) : Type 0 where
  pub exact : b.inflight ≡ held + count b.allocated (owns selecting b)
  pub known : (j : ℕ) → selecting j ≡ true → j < b.allocated
  pub queue : All (Waits selecting b) b.waiters
  pub ascending : Ascending b.waiters
  pub limited : le_nat b.max_concurrency n ≡ true
  pub bounded : b.inflight ≤ n

-- The other waiters when one gets another state.
pub set-Waits :
    (sel : ℕ → Bool) (b : Bulkhead) (i : ℕ) (s : WaiterState) (js : List ℕ)
    → Above i js
    → All (Waits sel b) js
    → All (λ j. (j < b.allocated) × (sel j ≡ true) × (is_queued (set i s b.state_of j) ≡ true)) js
set-Waits sel b i s [] a q = tt
set-Waits sel b i s (j ∷ js) a q =
    let apart : (i == j) ≡ false = ground (arith, a.0) in
    ((q.0.0, q.0.1, rw apart q.0.2), set-Waits sel b i s js a.1 q.1)

pub queued-granted : (s : WaiterState) → is_queued s ≡ true → is_granted s ≡ false
queued-granted waiter_queued e = refl
queued-granted waiter_granted e = absurd (ground arith)
queued-granted waiter_canceled e = refl

pub grant-IsSound :
    (n : ℕ) (sel : ℕ → Bool) (held : ℕ) (b : Bulkhead) (i : ℕ) (rest : List ℕ)
    → b.waiters ≡ i ∷ rest
    → b.inflight < n
    → IsSound n sel held b
    → IsSound n sel held (grant i rest b)
unfolding Ascending
grant-IsSound n sel held b i rest e l h =
    let q = subst (λ xs. All (Waits sel b) xs) e h.queue in
    let a = subst Ascending e h.ascending in
    let was : owns sel b i ≡ false = rw (q.0.1, queued-granted (b.state_of i) q.0.2) refl in
    let now : owns sel (grant i rest b) i ≡ true = rw (q.0.1, ==_refl i) refl in
    let other : (j : ℕ) → (i == j) ≡ false → owns sel (grant i rest b) j ≡ owns sel b j =
      λ j d. rw d refl in
    let more = count-change b.allocated i (owns sel b) (owns sel (grant i rest b)) q.0.0 other in
    record {
      exact = ground (arith, h.exact, more, was, now);
      known = h.known;
      queue = set-Waits sel b i waiter_granted rest a.0 q.1;
      ascending = a.1;
      limited = h.limited;
      bounded = omega arith;
    }

pub grant_first-IsSound :
    (n : ℕ) (sel : ℕ → Bool) (held : ℕ) (b : Bulkhead) (ws : List ℕ)
    → b.waiters ≡ ws
    → b.inflight < n
    → IsSound n sel held b
    → IsSound n sel held (grant_first ws b)
unfolding grant_first Ascending
grant_first-IsSound n sel held b [] e l h = record {
  exact = h.exact;
  known = h.known;
  queue = tt;
  ascending = tt;
  limited = h.limited;
  bounded = h.bounded;
}
grant_first-IsSound n sel held b (i ∷ rest) e l h =
    let q = subst (λ xs. All (Waits sel b) xs) e h.queue in
    rw q.0.2 (grant-IsSound n sel held b i rest e l h)

-- A slot is free below the limit.
pub room : (m : ℤ) (k n : ℕ) → le_nat m n ≡ true → le_nat m k ≡ false → k < n
room (pos m) k n e f = ground arith
room (negsuc m) k n e f = absurd (ground arith)

pub grant_next-IsSound :
    (n : ℕ) (sel : ℕ → Bool) (held : ℕ) (b : Bulkhead)
    → IsSound n sel held b
    → IsSound n sel held (grant_next b)
unfolding grant_next
grant_next-IsSound n sel held b h = elim (Bool-cases (le_nat b.max_concurrency 0)) [
  | inl z ↦ rw (grant_next, z) h
  | inr z ↦ elim (Bool-cases (le_nat b.max_concurrency b.inflight)) [
    | inl f ↦ rw (grant_next, z, f) h
    | inr f ↦
        rw (grant_next, z, f)
          (grant_first-IsSound n sel held b b.waiters refl
            (room b.max_concurrency b.inflight n h.limited f) h)
  ]
]

pub grant_all-IsSound :
    (fuel n : ℕ) (sel : ℕ → Bool) (held : ℕ) (b : Bulkhead)
    → IsSound n sel held b
    → IsSound n sel held (grant_all fuel b)
unfolding grant_all
grant_all-IsSound zero n sel held b h = h
grant_all-IsSound (suc fuel) n sel held b h =
    elim (Bool-cases (not (le_nat b.max_concurrency b.inflight) && ltb 0 (length b.waiters))) [
      | inl e ↦
          rw (grant_all, e)
            (grant_all-IsSound fuel n sel held (grant_next b) (grant_next-IsSound n sel held b h))
      | inr e ↦ rw (grant_all, e) h
    ]

-- One slot fewer in use, and one permit fewer held.
pub fewer-IsSound :
    (n : ℕ) (sel : ℕ → Bool) (held : ℕ) (b : Bulkhead)
    → IsSound n sel (suc held) b
    → IsSound n sel held (record b { inflight = b.inflight - 1 })
fewer-IsSound n sel held b h =
    let exact = h.exact in
    let bounded = h.bounded in
    record {
      exact = omega arith;
      known = h.known;
      queue = h.queue;
      ascending = h.ascending;
      limited = h.limited;
      bounded = omega arith;
    }

pub release-IsSound :
    (n : ℕ) (sel : ℕ → Bool) (held : ℕ) (b : Bulkhead)
    → IsSound n sel (suc held) b
    → IsSound n sel held (release b)
unfolding release
release-IsSound n sel held b h =
    grant_next-IsSound n sel held (record b { inflight = b.inflight - 1 })
      (fewer-IsSound n sel held b h)

pub missed-IsSound :
    (n : ℕ) (sel : ℕ → Bool) (held : ℕ) (t : Bool) (b : Bulkhead)
    → IsSound n sel held b
    → IsSound n sel held (missed t b)
missed-IsSound n sel held true b h = record {
  exact = h.exact;
  known = h.known;
  queue = h.queue;
  ascending = h.ascending;
  limited = h.limited;
  bounded = h.bounded;
}
missed-IsSound n sel held false b h = record {
  exact = h.exact;
  known = h.known;
  queue = h.queue;
  ascending = h.ascending;
  limited = h.limited;
  bounded = h.bounded;
}
