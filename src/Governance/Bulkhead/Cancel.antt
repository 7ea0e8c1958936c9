-- ===== src/Governance/Bulkhead/Cancel.antt =====
-- governance/bulkhead/bulkhead.go: cancelGranted keeps the slots in order.
use keelith.Prelude.{
  ℕ, ◌+◌, ◌-◌, ◌<◌, ◌==◌, Bool, true, false, List, [], ◌∷◌, ◌≡◌, refl, sym, ap, ◌∙◌, subst, inl,
  inr, arith, Bool-cases, All, ==_refl, ==_iff,
}
use keelith.Governance.Bulkhead.{
  WaiterState, waiter_queued, waiter_granted, waiter_canceled, is_queued, is_granted, Bulkhead, set,
  remove, missed, canceled, cancel_in, cancel_granted,
}
use keelith.Governance.Bulkhead.Slots.{
  count-same, count-change, owns, Above, Ascending, Waits, IsSound, grant_next-IsSound,
  missed-IsSound,
}

pub left-known :
    (sel : ℕ → Bool) (i m : ℕ)
    → ((j : ℕ) → sel j ≡ true → j < m)
    → (j : ℕ) → set i false sel j ≡ true
    → j < m
left-known sel i m h j e = elim (Bool-cases (i == j)) [
  | inl d ↦ absurd (ground (arith, d))
  | inr d ↦ h j (ground (arith, d))
]

-- The other waiters when the caller of i leaves its select.
left-Waits :
    (sel : ℕ → Bool) (b : Bulkhead) (i j : ℕ)
    → (i == j) ≡ false
    → Waits sel b j
    → Waits (set i false sel) (canceled i b) j
left-Waits sel b i j d w = (w.0, rw d w.1, rw d w.2)

canceled-Waits :
    (sel : ℕ → Bool) (b : Bulkhead) (i : ℕ) (js : List ℕ)
    → Above i js
    → All (Waits sel b) js
    → All (Waits (set i false sel) (canceled i b)) js
canceled-Waits sel b i [] a q = tt
canceled-Waits sel b i (j ∷ js) a q =
    (left-Waits sel b i j (ground (arith, a.0)) q.0, canceled-Waits sel b i js a.1 q.1)

remove-Waits :
    (sel : ℕ → Bool) (b : Bulkhead) (i : ℕ) (js : List ℕ)
    → Ascending js
    → All (Waits sel b) js
    → All (Waits (set i false sel) (canceled i b)) (remove i js)
unfolding remove Ascending
remove-Waits sel b i [] a q = tt
remove-Waits sel b i (j ∷ js) a q = elim (Bool-cases (i == j)) [
  | inl d ↦
      let same : i ≡ j = (==_iff i j).0 d in
      rw (remove, d) (canceled-Waits sel b i js (subst (λ x. Above x js) (sym same) a.0) q.1)
  | inr d ↦ rw (remove, d) (left-Waits sel b i j d q.0, remove-Waits sel b i js a.1 q.1)
]

remove-Above : (i k : ℕ) (js : List ℕ) → Above k js → Above k (remove i js)
unfolding remove
remove-Above i k [] a = tt
remove-Above i k (j ∷ js) a = elim (Bool-cases (i == j)) [
  | inl d ↦ rw (remove, d) a.1
  | inr d ↦ rw (remove, d) (a.0, remove-Above i k js a.1)
]

remove-Ascending : (i : ℕ) (js : List ℕ) → Ascending js → Ascending (remove i js)
unfolding remove Ascending
remove-Ascending i [] a = tt
remove-Ascending i (j ∷ js) a = elim (Bool-cases (i == j)) [
  | inl d ↦ rw (remove, d) a.1
  | inr d ↦ rw (remove, d) (remove-Above i j js a.0, remove-Ascending i js a.1)
]

pub apart-Waits :
    (sel : ℕ → Bool) (b : Bulkhead) (i : ℕ) (js : List ℕ)
    → is_queued (b.state_of i) ≡ false
    → All (Waits sel b) js
    → All (λ j. ((i == j) ≡ false) × Waits sel b j) js
apart-Waits sel b i [] e q = tt
apart-Waits sel b i (j ∷ js) e q = (
  (
    (elim (Bool-cases (i == j)) [
      | inl d ↦
          let same = ap is_queued (ap b.state_of ((==_iff i j).0 d)) in
          absurd (ground (arith, same, e, q.0.2))
      | inr d ↦ d
    ]),
    q.0,
  ),
  apart-Waits sel b i js e q.1,
)

All-left :
    (sel : ℕ → Bool) (b : Bulkhead) (i : ℕ) (js : List ℕ)
    → All (λ j. ((i == j) ≡ false) × Waits sel b j) js
    → All (Waits (set i false sel) (canceled i b)) js
All-left sel b i [] q = tt
All-left sel b i (j ∷ js) q = (left-Waits sel b i j q.0.0 q.0.1, All-left sel b i js q.1)

pub cancel_queued-IsSound :
    (n : ℕ) (sel : ℕ → Bool) (held : ℕ) (b : Bulkhead) (i : ℕ)
    → b.state_of i ≡ waiter_queued
    → IsSound n sel held b
    → IsSound n (set i false sel) held (record (canceled i b) { waiters = remove i b.waiters })
cancel_queued-IsSound n sel held b i e h =
    let same = count-same b.allocated (owns sel b) (owns (set i false sel) (canceled i b)) (λ j l.
      elim (Bool-cases (i == j)) [
        | inl d ↦
            let was : is_granted (b.state_of j) ≡ false =
              ap is_granted (sym (ap b.state_of ((==_iff i j).0 d)) ∙ e) in
            ground (arith, was, d)
        | inr d ↦ ground (arith, d)
      ]) in
    record {
      exact = h.exact ∙ ap (λ c. held + c) same;
      known = left-known sel i b.allocated h.known;
      queue = remove-Waits sel b i b.waiters h.ascending h.queue;
      ascending = remove-Ascending i b.waiters h.ascending;
      limited = h.limited;
      bounded = h.bounded;
    }

pub cancel_slot-IsSound :
    (n : ℕ) (sel : ℕ → Bool) (held : ℕ) (b : Bulkhead) (i : ℕ)
    → b.state_of i ≡ waiter_granted
    → sel i ≡ true
    → IsSound n sel held b
    → IsSound n (set i false sel) held (record (canceled i b) { inflight = b.inflight - 1 })
cancel_slot-IsSound n sel held b i e f h =
    let was : owns sel b i ≡ true = rw (f, e) refl in
    let now : owns (set i false sel) (canceled i b) i ≡ false = rw (==_refl i) refl in
    let less =
      count-change b.allocated i (owns sel b) (owns (set i false sel) (canceled i b)) (h.known i f)
        (λ j d. rw d refl) in
    let bounded = h.bounded in
    record {
      exact = ground (arith, h.exact, less, was, now);
      known = left-known sel i b.allocated h.known;
      queue = All-left sel b i b.waiters (apart-Waits sel b i b.waiters (ap is_queued e) h.queue);
      ascending = h.ascending;
      limited = h.limited;
      bounded = omega arith;
    }

-- The queue when the caller of another waiter leaves its select.
pub selected-Waits :
    (sel : ℕ → Bool) (b : Bulkhead) (i : ℕ) (js : List ℕ)
    → All (λ j. ((i == j) ≡ false) × Waits sel b j) js
    → All (Waits (set i false sel) b) js
selected-Waits sel b i [] q = tt
selected-Waits sel b i (j ∷ js) q =
    ((q.0.1.0, rw q.0.0 q.0.1.1, q.0.1.2), selected-Waits sel b i js q.1)

pub cancel_other-IsSound :
    (n : ℕ) (sel : ℕ → Bool) (held : ℕ) (b : Bulkhead) (i : ℕ)
    → b.state_of i ≡ waiter_canceled
    → IsSound n sel held b
    → IsSound n (set i false sel) held b
cancel_other-IsSound n sel held b i e h =
    let same = count-same b.allocated (owns sel b) (owns (set i false sel) b) (λ j l.
      elim (Bool-cases (i == j)) [
        | inl d ↦
            let was : is_granted (b.state_of j) ≡ false =
              ap is_granted (sym (ap b.state_of ((==_iff i j).0 d)) ∙ e) in
            ground (arith, was, d)
        | inr d ↦ ground (arith, d)
      ]) in
    record {
      exact = h.exact ∙ ap (λ c. held + c) same;
      known = left-known sel i b.allocated h.known;
      queue =
          selected-Waits sel b i b.waiters (apart-Waits sel b i b.waiters (ap is_queued e) h.queue);
      ascending = h.ascending;
      limited = h.limited;
      bounded = h.bounded;
    }

cancel_in-IsSound :
    (n : ℕ) (sel : ℕ → Bool) (held i : ℕ) (t : Bool) (b : Bulkhead) (s : WaiterState)
    → b.state_of i ≡ s
    → sel i ≡ true
    → IsSound n sel held b
    → IsSound n (set i false sel) held (cancel_in s i t b)
cancel_in-IsSound n sel held i t b waiter_queued e f h =
    let left = record (canceled i b) { waiters = remove i b.waiters } in
    grant_next-IsSound n (set i false sel) held (missed t left)
      (missed-IsSound n (set i false sel) held t left (cancel_queued-IsSound n sel held b i e h))
cancel_in-IsSound n sel held i t b waiter_granted e f h =
    let left = record (canceled i b) { inflight = b.inflight - 1 } in
    grant_next-IsSound n (set i false sel) held (missed t left)
      (missed-IsSound n (set i false sel) held t left (cancel_slot-IsSound n sel held b i e f h))
cancel_in-IsSound n sel held i t b waiter_canceled e f h = cancel_other-IsSound n sel held b i e h

pub cancel_granted-IsSound :
    (n : ℕ) (sel : ℕ → Bool) (held i : ℕ) (t : Bool) (b : Bulkhead)
    → sel i ≡ true
    → IsSound n sel held b
    → IsSound n (set i false sel) held (cancel_granted i t b)
unfolding cancel_granted
cancel_granted-IsSound n sel held i t b f h =
    cancel_in-IsSound n sel held i t b (b.state_of i) refl f h
