-- ===== src/Governance/Bulkhead/Entries.antt =====
-- governance/bulkhead/bulkhead.go: a caller that enters or is granted has one slot.
use keelith.Prelude.{
  ℕ, ◌+◌, ◌<◌, ◌==◌, not, Bool, true, false, ◌&&◌, ◌||◌, List, [], ◌∷◌, ◌++◌, length, ◌≡◌, refl, ap,
  ◌∙◌, subst, inl, inr, arith, Bool-cases, All, ==_refl, ==_iff,
}
use keelith.Prelude.Int.{le_nat}
use keelith.Prelude.Words.{add_u64}
use keelith.Governance.Bulkhead.{is_zero}
use keelith.Governance.Bulkhead.{
  BulkheadPolicy, WaiterState, waiter_queued, waiter_granted, waiter_canceled, is_queued,
  is_granted, Bulkhead, Permit, set, enqueue, enter, configured, World, entered,
}
use keelith.Governance.Bulkhead.Slots.{
  bit, count, count-same, count-change, owns, Above, Ascending, Waits, IsSound, room,
}
use keelith.Governance.Bulkhead.Cancel.{left-known, apart-Waits, selected-Waits}

-- The permits held: those with a bulkhead that have not been released.
unfoldable pub held_in : List Permit → ℕ
held_in [] = 0
held_in (p ∷ ps) = bit (p.bound && not p.released) + held_in ps

abbrev pub IsValid : ℕ → World → Type 0
IsValid n w = IsSound n w.selecting (held_in w.permits) w.bulkhead

granted-queued : (s : WaiterState) → is_granted s ≡ true → is_queued s ≡ false
granted-queued waiter_queued e = absurd (ground arith)
granted-queued waiter_granted e = refl
granted-queued waiter_canceled e = refl

pub counted :
    (n : ℕ) (sel : ℕ → Bool) (k m : ℕ) (b : Bulkhead)
    → k ≡ m
    → IsSound n sel k b
    → IsSound n sel m b
counted n sel k m b e h = subst (λ x. IsSound n sel x b) e h

-- A granted caller leaves its select with a permit.
pub ready-IsSound :
    (n : ℕ) (sel : ℕ → Bool) (held : ℕ) (b : Bulkhead) (i : ℕ)
    → is_granted (b.state_of i) ≡ true
    → sel i ≡ true
    → IsSound n sel held b
    → IsSound n (set i false sel) (1 + held) b
ready-IsSound n sel held b i e f h =
    let was : owns sel b i ≡ true = rw (f, e) refl in
    let now : owns (set i false sel) b i ≡ false = rw (==_refl i) refl in
    let less =
      count-change b.allocated i (owns sel b) (owns (set i false sel) b) (h.known i f)
        (λ j d. rw d refl) in
    record {
      exact = ground (arith, h.exact, less, was, now);
      known = left-known sel i b.allocated h.known;
      queue =
          selected-Waits sel b i b.waiters
            (apart-Waits sel b i b.waiters (granted-queued (b.state_of i) e) h.queue);
      ascending = h.ascending;
      limited = h.limited;
      bounded = h.bounded;
    }

append-Waits :
    (sel : ℕ → Bool) (b : Bulkhead) (js : List ℕ)
    → All (Waits sel b) js
    → All (Waits (set b.allocated true sel) (enqueue b)) (js ++ (b.allocated ∷ []))
append-Waits sel b [] q =
    ((omega arith, rw (==_refl b.allocated) refl, rw (==_refl b.allocated) refl), tt)
append-Waits sel b (j ∷ js) q =
    let apart : (b.allocated == j) ≡ false = ground (arith, q.0.0) in
    ((ground (arith, q.0.0), rw apart q.0.1, rw apart q.0.2), append-Waits sel b js q.1)

pub append-Above : (k m : ℕ) (js : List ℕ) → Above k js → k < m → Above k (js ++ (m ∷ []))
append-Above k m [] a l = (l, tt)
append-Above k m (j ∷ js) a l = (a.0, append-Above k m js a.1 l)

append-Ascending :
    (sel : ℕ → Bool) (b : Bulkhead) (js : List ℕ)
    → All (Waits sel b) js
    → Ascending js
    → Ascending (js ++ (b.allocated ∷ []))
unfolding Ascending
append-Ascending sel b [] q a = (tt, tt)
append-Ascending sel b (j ∷ js) q a =
    (append-Above j b.allocated js a.0 q.0.0, append-Ascending sel b js q.1 a.1)

enqueue-IsSound :
    (n : ℕ) (sel : ℕ → Bool) (held : ℕ) (b : Bulkhead)
    → IsSound n sel held b
    → IsSound n (set b.allocated true sel) held (enqueue b)
unfolding count
enqueue-IsSound n sel held b h =
    let same =
      count-same b.allocated (owns sel b) (owns (set b.allocated true sel) (enqueue b))
        (λ j l. let apart : (b.allocated == j) ≡ false = ground (arith, l) in rw apart refl) in
    record {
      exact =
          let exact = h.exact ∙ ap (λ c. held + c) same in rw (==_refl b.allocated) (omega arith);
      known = λ j e. elim (Bool-cases (b.allocated == j)) [
        | inl d ↦ let is_j = (==_iff b.allocated j).0 d in omega arith
        | inr d ↦ let old = h.known j (ground (arith, d, e)) in omega arith
      ];
      queue = append-Waits sel b b.waiters h.queue;
      ascending = append-Ascending sel b b.waiters h.queue h.ascending;
      limited = h.limited;
      bounded = h.bounded;
    }

-- One more slot in use, for a new permit.
pub admit-IsSound :
    (n : ℕ) (sel : ℕ → Bool) (held k : ℕ) (b : Bulkhead)
    → b.inflight < n
    → IsSound n sel held b
    → IsSound n sel (1 + held) (record b { inflight = b.inflight + 1; accepted = k })
admit-IsSound n sel held k b l h =
    let exact = h.exact in
    record {
      exact = omega arith;
      known = h.known;
      queue = h.queue;
      ascending = h.ascending;
      limited = h.limited;
      bounded = omega arith;
    }

refuse-IsSound :
    (n : ℕ) (sel : ℕ → Bool) (held k : ℕ) (b : Bulkhead)
    → IsSound n sel held b
    → IsSound n sel held (record b { rejected = k })
refuse-IsSound n sel held k b h = record {
  exact = h.exact;
  known = h.known;
  queue = h.queue;
  ascending = h.ascending;
  limited = h.limited;
  bounded = h.bounded;
}

pub configured-IsSound :
    (n : ℕ) (sel : ℕ → Bool) (held : ℕ) (c : BulkheadPolicy) (b : Bulkhead)
    → le_nat c.max_concurrency n ≡ true
    → IsSound n sel held b
    → IsSound n sel held (configured c b)
configured-IsSound n sel held c b l h = record {
  exact = h.exact;
  known = h.known;
  queue = h.queue;
  ascending = h.ascending;
  limited = l;
  bounded = h.bounded;
}

pub enter-IsValid :
    (n : ℕ) (c : BulkheadPolicy) (b : Bulkhead) (w : World)
    → le_nat c.max_concurrency n ≡ true
    → IsSound n w.selecting (held_in w.permits) b
    → IsValid n (entered (enter c b).0 (enter c b).1 w)
unfolding enter held_in
enter-IsValid n c b w l h =
    elim (Bool-cases (not (le_nat c.max_concurrency b.inflight) && length b.waiters == 0)) [
      | inl free ↦
          rw (enter, free)
            (admit-IsSound n w.selecting (held_in w.permits) (add_u64 b.accepted 1) b
              (room c.max_concurrency b.inflight n l (ground (arith, free))) h)
      | inr busy ↦
          elim (Bool-cases (is_zero c.max_queue || le_nat c.max_queue (length b.waiters))) [
            | inl no_place ↦
                rw (enter, busy, no_place)
                  (refuse-IsSound n w.selecting (held_in w.permits) (add_u64 b.rejected 1) b h)
            | inr place ↦
                rw (enter, busy, place) (enqueue-IsSound n w.selecting (held_in w.permits) b h)
          ]
    ]
