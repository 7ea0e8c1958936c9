-- ===== src/Governance/Bulkhead/Order.antt =====
-- governance/bulkhead/bulkhead.go: grants follow the order of arrival.
use keelith.Prelude.{
  ℕ, zero, suc, ◌+◌, ◌-◌, ◌<◌, ◌==◌, ltb, not, Bool, true, false, ◌&&◌, ◌||◌, List, [], ◌∷◌, length,
  ◌≡◌, refl, sym, ap, ◌∙◌, subst, inl, inr, ◌⊎◌, arith, Bool-cases, All, none, some, ==_iff,
  and-left,
}
use keelith.Prelude.Int.{le_nat}
use keelith.Prelude.Contexts.{Context, nil_context, live, ended}
use keelith.Governance.Bulkhead.{is_zero}
use keelith.Governance.Bulkhead.{
  BulkheadPolicy, WaiterState, waiter_queued, waiter_granted, waiter_canceled, is_queued,
  is_granted, Bulkhead, Permit, valid_policy, set, grant_first, grant_next, grant_all, enqueue,
  enter, configured, acquire, release, release_permit, remove, missed, canceled, cancel_in,
  cancel_granted, Wake, ready, context_done, timeout, wake, World, new_world, Step, acquires, wakes,
  releases, entered, awakened, can_wake, release_at, step, serve,
}
use keelith.Governance.Bulkhead.Slots.{
  bit, Above, Ascending, Waits, IsSound, grant_next-IsSound, fewer-IsSound, missed-IsSound,
}
use keelith.Governance.Bulkhead.Cancel.{cancel_queued-IsSound, cancel_slot-IsSound}
use keelith.Governance.Bulkhead.Served.{Within, calls-IsValid}
use keelith.Governance.Bulkhead.Entries.{
  append-Above, held_in, IsValid, counted, configured-IsSound,
}

-- Whoever has been granted between b and b' arrived before everyone who is left waiting.
abbrev pub Fair : Bulkhead → Bulkhead → Type 0
Fair b b' =
    (j : ℕ)
    → is_granted (b.state_of j) ≡ false
    → is_granted (b'.state_of j) ≡ true
    → (j < b'.allocated) × Above j b'.waiters

-- Nobody has been granted.
Fair-same : (b b' : Bulkhead) → ((j : ℕ) → b'.state_of j ≡ b.state_of j) → Fair b b'
Fair-same b b' h j f g = absurd (ground (arith, ap is_granted (h j), f, g))

-- A grant leaves fewer waiters and the same allocations.
abbrev Fewer : Bulkhead → Bulkhead → Type 0
Fewer b b' = (b'.allocated ≡ b.allocated) × ((j : ℕ) → Above j b.waiters → Above j b'.waiters)

Fair-trans : (b b' b'' : Bulkhead) → Fair b b' → Fewer b' b'' → Fair b' b'' → Fair b b''
Fair-trans b b' b'' s t u j f g = elim (Bool-cases (is_granted (b'.state_of j))) [
  | inl e ↦ let (below, before) = s j f e in (subst (λ k. j < k) (sym t.0) below, t.1 j before)
  | inr e ↦ u j e g
]

grant_first-Fair :
    (n : ℕ) (sel : ℕ → Bool) (held : ℕ) (b : Bulkhead) (ws : List ℕ)
    → b.waiters ≡ ws
    → IsSound n sel held b
    → Fair b (grant_first ws b)
unfolding grant_first Ascending
grant_first-Fair n sel held b [] e h = λ j f g. absurd (ground (arith, f, g))
grant_first-Fair n sel held b (i ∷ rest) e h =
    let q = subst (λ xs. All (Waits sel b) xs) e h.queue in
    let a = subst Ascending e h.ascending in
    rw (grant_first, q.0.2)
      (λ j f g. elim (Bool-cases (i == j)) [
        | inl d ↦
            let same = (==_iff i j).0 d in
            (subst (λ k. k < b.allocated) same q.0.0, subst (λ k. Above k rest) same a.0)
        | inr d ↦ absurd (ground (arith, d, f, g))
      ])

grant_first-Fewer :
    (ws : List ℕ) (b : Bulkhead)
    → ((grant_first ws b).allocated ≡ b.allocated)
      × ((j : ℕ) → Above j ws → Above j (grant_first ws b).waiters)
unfolding grant_first
grant_first-Fewer [] b = (refl, λ j a. tt)
grant_first-Fewer (i ∷ rest) b = elim (Bool-cases (is_queued (b.state_of i))) [
  | inl e ↦ rw (grant_first, e) (refl, λ j a. a.1)
  | inr e ↦
      let (same, later) = grant_first-Fewer rest b in rw (grant_first, e) (same, λ j a. later j a.1)
]

-- grantNextLocked either does nothing or grants.
pub grant_next-cases :
    (b : Bulkhead) → (grant_next b ≡ b) ⊎ (grant_next b ≡ grant_first b.waiters b)
unfolding grant_next
grant_next-cases b =
    elim (Bool-cases (le_nat b.max_concurrency 0 || le_nat b.max_concurrency b.inflight)) [
      | inl e ↦ inl (rw (grant_next, e) refl)
      | inr e ↦ inr (rw (grant_next, e) refl)
    ]

grant_next-Fair :
    (n : ℕ) (sel : ℕ → Bool) (held : ℕ) (b : Bulkhead)
    → IsSound n sel held b
    → Fair b (grant_next b)
grant_next-Fair n sel held b h = elim (grant_next-cases b) [
  | inl e ↦ Fair-same b (grant_next b) (λ j. ap (λ x. x.state_of j) e)
  | inr e ↦ subst (λ x. Fair b x) (sym e) (grant_first-Fair n sel held b b.waiters refl h)
]

grant_next-Fewer : (b : Bulkhead) → Fewer b (grant_next b)
grant_next-Fewer b = elim (grant_next-cases b) [
  | inl e ↦ subst (λ x. Fewer b x) (sym e) (refl, λ j a. a)
  | inr e ↦ subst (λ x. Fewer b x) (sym e) (grant_first-Fewer b.waiters b)
]

grant_all-Fewer : (fuel : ℕ) (b : Bulkhead) → Fewer b (grant_all fuel b)
unfolding grant_all
grant_all-Fewer zero b = (refl, λ j a. a)
grant_all-Fewer (suc fuel) b =
    elim (Bool-cases (not (le_nat b.max_concurrency b.inflight) && ltb 0 (length b.waiters))) [
      | inl e ↦
          let first = grant_next-Fewer b in
          let rest = grant_all-Fewer fuel (grant_next b) in
          rw (grant_all, e) (rest.0 ∙ first.0, λ j a. rest.1 j (first.1 j a))
      | inr e ↦ rw (grant_all, e) (refl, λ j a. a)
    ]

grant_all-Fair :
    (fuel n : ℕ) (sel : ℕ → Bool) (held : ℕ) (b : Bulkhead)
    → IsSound n sel held b
    → Fair b (grant_all fuel b)
unfolding grant_all
grant_all-Fair zero n sel held b h = Fair-same b b (λ j. refl)
grant_all-Fair (suc fuel) n sel held b h =
    elim (Bool-cases (not (le_nat b.max_concurrency b.inflight) && ltb 0 (length b.waiters))) [
      | inl e ↦
          rw (grant_all, e)
            (Fair-trans b (grant_next b) (grant_all fuel (grant_next b))
              (grant_next-Fair n sel held b h) (grant_all-Fewer fuel (grant_next b))
              (grant_all-Fair fuel n sel held (grant_next b) (grant_next-IsSound n sel held b h)))
      | inr e ↦ rw (grant_all, e) (Fair-same b b (λ j. refl))
    ]

enqueue-Fair : (b b' : Bulkhead) → Fair b b' → Fair b (enqueue b')
enqueue-Fair b b' s j f g = elim (Bool-cases (b'.allocated == j)) [
  | inl d ↦ absurd (ground (arith, d, g))
  | inr d ↦
      let (below, before) = s j f (ground (arith, d, g)) in
      (omega (arith, below), append-Above j b'.allocated b'.waiters before below)
]

enter-Fair :
    (c : BulkheadPolicy) (b b' : Bulkhead) (w : World)
    → Fair b b'
    → Fair b (entered (enter c b').0 (enter c b').1 w).bulkhead
unfolding enter
enter-Fair c b b' w s =
    elim (Bool-cases (not (le_nat c.max_concurrency b'.inflight) && length b'.waiters == 0)) [
      | inl free ↦ rw (enter, free) s
      | inr busy ↦
          elim (Bool-cases (is_zero c.max_queue || le_nat c.max_queue (length b'.waiters))) [
            | inl no_place ↦ rw (enter, busy, no_place) s
            | inr place ↦ rw (enter, busy, place) (enqueue-Fair b b' s)
          ]
    ]

acquires-Fair :
    (n : ℕ) (ctx : Context) (c : BulkheadPolicy) (w : World)
    → le_nat c.max_concurrency n ≡ true
    → IsValid n w
    → Fair w.bulkhead (step (acquires ctx c) w).bulkhead
unfolding step acquire
acquires-Fair n nil_context c w l h = Fair-same w.bulkhead w.bulkhead (λ j. refl)
acquires-Fair n (ended k) c w l h = Fair-same w.bulkhead w.bulkhead (λ j. refl)
acquires-Fair n live c w l h = elim (Bool-cases c.enabled) [
  | inl on ↦ elim (Bool-cases (valid_policy c)) [
    | inl good ↦
        let b = configured c w.bulkhead in
        rw (step, acquire, on, good)
          (enter-Fair c w.bulkhead (grant_all (length w.bulkhead.waiters) b) w (
            grant_all-Fair (length w.bulkhead.waiters) n w.selecting (held_in w.permits) b
              (configured-IsSound n w.selecting (held_in w.permits) c w.bulkhead l h)))
    | inr bad ↦ rw (step, acquire, on, bad) (Fair-same w.bulkhead w.bulkhead (λ j. refl))
  ]
  | inr off ↦ rw (step, acquire, off) (Fair-same w.bulkhead w.bulkhead (λ j. refl))
]

missed-Fair :
    (t : Bool) (i : ℕ) (b : Bulkhead) (left : Bulkhead)
    → ((j : ℕ) → left.state_of j ≡ (canceled i b).state_of j)
    → Fair b (missed t left)
missed-Fair true i b left h j f g = absurd (ground (arith, ap is_granted (h j), f, g))
missed-Fair false i b left h j f g = absurd (ground (arith, ap is_granted (h j), f, g))

cancel_in-Fair :
    (n : ℕ) (sel : ℕ → Bool) (held i : ℕ) (t : Bool) (b : Bulkhead) (s : WaiterState)
    → b.state_of i ≡ s
    → sel i ≡ true
    → IsSound n sel held b
    → Fair b (cancel_in s i t b)
cancel_in-Fair n sel held i t b waiter_queued e f h =
    let left = record (canceled i b) { waiters = remove i b.waiters } in
    Fair-trans b (missed t left) (grant_next (missed t left)) (missed-Fair t i b left (λ j. refl))
      (grant_next-Fewer (missed t left))
      (grant_next-Fair n (set i false sel) held (missed t left)
        (missed-IsSound n (set i false sel) held t left (cancel_queued-IsSound n sel held b i e h)))
cancel_in-Fair n sel held i t b waiter_granted e f h =
    let left = record (canceled i b) { inflight = b.inflight - 1 } in
    Fair-trans b (missed t left) (grant_next (missed t left)) (missed-Fair t i b left (λ j. refl))
      (grant_next-Fewer (missed t left))
      (grant_next-Fair n (set i false sel) held (missed t left)
        (missed-IsSound n (set i false sel) held t left (cancel_slot-IsSound n sel held b i e f h)))
cancel_in-Fair n sel held i t b waiter_canceled e f h = Fair-same b b (λ j. refl)

wake-Fair :
    (n : ℕ) (x : Wake) (i : ℕ) (w : World)
    → w.selecting i ≡ true
    → IsValid n w
    → Fair w.bulkhead (awakened i (wake x i w.bulkhead).0 (wake x i w.bulkhead).1 w).bulkhead
unfolding cancel_granted
wake-Fair n (ready none) i w f h = Fair-same w.bulkhead w.bulkhead (λ j. refl)
wake-Fair n (ready (some k)) i w f h =
    cancel_in-Fair n w.selecting (held_in w.permits) i false w.bulkhead (w.bulkhead.state_of i) refl
      f h
wake-Fair n (context_done k) i w f h =
    cancel_in-Fair n w.selecting (held_in w.permits) i false w.bulkhead (w.bulkhead.state_of i) refl
      f h
wake-Fair n timeout i w f h =
    cancel_in-Fair n w.selecting (held_in w.permits) i true w.bulkhead (w.bulkhead.state_of i) refl
      f h

release_permit-Fair :
    (n : ℕ) (sel : ℕ → Bool) (rest : ℕ) (p : Permit) (b : Bulkhead)
    → IsSound n sel (bit (p.bound && not p.released) + rest) b
    → Fair b (release_permit p b).1
unfolding release
release_permit-Fair n sel rest p b h = elim (Bool-cases (not p.bound || p.released)) [
  | inl done ↦ rw done (Fair-same b b (λ j. refl))
  | inr held ↦
      let one : bit (p.bound && not p.released) ≡ 1 = ground (arith, held) in
      rw held (
        grant_next-Fair n sel rest (record b { inflight = b.inflight - 1 })
          (fewer-IsSound n sel rest b (
            counted n sel (bit (p.bound && not p.released) + rest) (suc rest) b (omega (arith, one))
              h)))
]

release_at-Fair :
    (n : ℕ) (sel : ℕ → Bool) (extra i : ℕ) (ps : List Permit) (b : Bulkhead)
    → IsSound n sel (extra + held_in ps) b
    → Fair b (release_at i ps b).1
unfolding release_at held_in
release_at-Fair n sel extra i [] b h = Fair-same b b (λ j. refl)
release_at-Fair n sel extra zero (p ∷ ps) b h =
    let was = bit (p.bound && not p.released) in
    release_permit-Fair n sel (extra + held_in ps) p b
      (counted n sel (extra + (was + held_in ps)) (was + (extra + held_in ps)) b (omega arith) h)
release_at-Fair n sel extra (suc i) (p ∷ ps) b h =
    let k = bit (p.bound && not p.released) in
    release_at-Fair n sel (extra + k) i ps b
      (counted n sel (extra + (k + held_in ps)) (extra + k + held_in ps) b (omega arith) h)

step-Fair :
    (n : ℕ) (x : Step) (w : World) → Within n x → IsValid n w → Fair w.bulkhead (step x w).bulkhead
unfolding step
step-Fair n (acquires ctx c) w l h = acquires-Fair n ctx c w l h
step-Fair n (wakes x i) w l h =
    elim (Bool-cases (w.selecting i && can_wake x (w.bulkhead.state_of i))) [
      | inl e ↦
          rw (step, e)
            (wake-Fair n x i w (and-left (w.selecting i) (can_wake x (w.bulkhead.state_of i)) e) h)
      | inr e ↦ rw (step, e) (Fair-same w.bulkhead w.bulkhead (λ j. refl))
    ]
step-Fair n (releases i) w l h =
    release_at-Fair n w.selecting 0 i w.permits w.bulkhead
      (counted n w.selecting (held_in w.permits) (0 + held_in w.permits) w.bulkhead (omega arith) h)

-- Waiting is first in, first out. Let all policies of a run of a new bulkhead, and of one more step,
-- allow at most n concurrent calls. Every caller that the last step grants a slot in the queue
-- arrived before every caller that is still queued after that step.
pub serve-Fair :
    (n : ℕ) (xs : List Step) (x : Step)
    → All (Within n) xs
    → Within n x
    → Fair (serve xs new_world).bulkhead (step x (serve xs new_world)).bulkhead
serve-Fair n xs x l m = step-Fair n x (serve xs new_world) m (calls-IsValid n xs l).0
