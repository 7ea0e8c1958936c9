-- ===== src/Governance/Bulkhead/Busy.antt =====
-- governance/bulkhead/bulkhead.go: no slot stays free while a caller waits for one.
use keelith.Prelude.{
  ℕ, zero, suc, ◌+◌, ◌-◌, ◌==◌, not, Bool, true, false, ◌&&◌, ◌||◌, List, [], ◌∷◌, length, ◌≡◌,
  refl, ap, inl, inr, arith, Bool-cases, All, none, some, and-left,
}
use keelith.Prelude.Int.{le_nat}
use keelith.Prelude.Contexts.{Context, nil_context, live, ended}
use keelith.Governance.Bulkhead.{is_zero}
use keelith.Governance.Bulkhead.{
  BulkheadPolicy, WaiterState, waiter_queued, waiter_granted, waiter_canceled, Bulkhead, Permit,
  valid_policy, set, grant_all, enter, configured, acquire, release, release_permit, remove, missed,
  canceled, cancel_in, cancel_granted, Wake, ready, context_done, timeout, wake, World, new_world,
  Step, acquires, wakes, releases, entered, awakened, can_wake, release_at, step, serve,
}
use keelith.Governance.Bulkhead.Slots.{bit, IsSound, fewer-IsSound, missed-IsSound}
use keelith.Governance.Bulkhead.Cancel.{cancel_queued-IsSound, cancel_slot-IsSound}
use keelith.Governance.Bulkhead.Served.{Within, step-IsValid, new_world-IsValid}
use keelith.Governance.Bulkhead.Entries.{held_in, IsValid, counted, configured-IsSound}
use keelith.Governance.Bulkhead.Refill.{
  Busy, Nearly, le_nat_mono, grant_next-Busy, length-zero, grant_all-Busy, grant_all-max,
}

waits_when_full :
    (c : BulkheadPolicy) (b : Bulkhead)
    → b.max_concurrency ≡ c.max_concurrency
    → (not (le_nat c.max_concurrency b.inflight) && length b.waiters == 0) ≡ false
    → Busy b
    → le_nat b.max_concurrency b.inflight ≡ true
waits_when_full c b e busy (inl none_wait) = ground (arith, e, busy, none_wait)
waits_when_full c b e busy (inr m) = m

enter-Busy :
    (c : BulkheadPolicy) (b : Bulkhead) (w : World)
    → b.max_concurrency ≡ c.max_concurrency
    → Busy b
    → Busy (entered (enter c b).0 (enter c b).1 w).bulkhead
unfolding enter
enter-Busy c b w e h =
    elim (Bool-cases (not (le_nat c.max_concurrency b.inflight) && length b.waiters == 0)) [
      | inl free ↦ rw (enter, free) (inl (length-zero b.waiters (ground (arith, free))))
      | inr busy ↦
          elim (Bool-cases (is_zero c.max_queue || le_nat c.max_queue (length b.waiters))) [
            | inl no_place ↦ rw (enter, busy, no_place) h
            | inr place ↦ rw (enter, busy, place) (inr (waits_when_full c b e busy h))
          ]
    ]

acquires-Busy :
    (n : ℕ) (ctx : Context) (c : BulkheadPolicy) (w : World)
    → le_nat c.max_concurrency n ≡ true
    → IsValid n w
    → Busy w.bulkhead
    → Busy (step (acquires ctx c) w).bulkhead
unfolding step acquire
acquires-Busy n nil_context c w l h m = m
acquires-Busy n (ended k) c w l h m = m
acquires-Busy n live c w l h m = elim (Bool-cases c.enabled) [
  | inl on ↦ elim (Bool-cases (valid_policy c)) [
    | inl good ↦
        let b = configured c w.bulkhead in
        rw (step, acquire, on, good)
          (enter-Busy c (grant_all (length w.bulkhead.waiters) b) w
            (grant_all-max (length w.bulkhead.waiters) b)
            (grant_all-Busy (length w.bulkhead.waiters) n w.selecting (held_in w.permits) b
              (omega arith)
              (configured-IsSound n w.selecting (held_in w.permits) c w.bulkhead l h)))
    | inr bad ↦ rw (step, acquire, on, bad) m
  ]
  | inr off ↦ rw (step, acquire, off) m
]

missed-Nearly : (t : Bool) (b : Bulkhead) → Nearly b → Nearly (missed t b)
missed-Nearly true b m = m
missed-Nearly false b m = m

fewer-Nearly : (b : Bulkhead) → Busy b → Nearly (record b { inflight = b.inflight - 1 })
fewer-Nearly b (inl e) = inl e
fewer-Nearly b (inr e) =
    inr (le_nat_mono b.max_concurrency b.inflight (b.inflight - 1 + 1) (omega arith) e)

remove-Nearly : (i : ℕ) (b : Bulkhead) → Busy b → Nearly (record b { waiters = remove i b.waiters })
unfolding remove
remove-Nearly i b (inl e) = inl (ap (remove i) e)
remove-Nearly i b (inr e) =
    inr (le_nat_mono b.max_concurrency b.inflight (b.inflight + 1) (omega arith) e)

cancel_in-Busy :
    (n : ℕ) (sel : ℕ → Bool) (held i : ℕ) (t : Bool) (b : Bulkhead) (s : WaiterState)
    → b.state_of i ≡ s
    → sel i ≡ true
    → IsSound n sel held b
    → Busy b
    → Busy (cancel_in s i t b)
cancel_in-Busy n sel held i t b waiter_queued e f h m =
    let left = record (canceled i b) { waiters = remove i b.waiters } in
    grant_next-Busy n (set i false sel) held (missed t left)
      (missed-IsSound n (set i false sel) held t left (cancel_queued-IsSound n sel held b i e h))
      (missed-Nearly t left (remove-Nearly i b m))
cancel_in-Busy n sel held i t b waiter_granted e f h m =
    let left = record (canceled i b) { inflight = b.inflight - 1 } in
    grant_next-Busy n (set i false sel) held (missed t left)
      (missed-IsSound n (set i false sel) held t left (cancel_slot-IsSound n sel held b i e f h))
      (missed-Nearly t left (fewer-Nearly b m))
cancel_in-Busy n sel held i t b waiter_canceled e f h m = m

wake-Busy :
    (n : ℕ) (x : Wake) (i : ℕ) (w : World)
    → w.selecting i ≡ true
    → IsValid n w
    → Busy w.bulkhead
    → Busy (awakened i (wake x i w.bulkhead).0 (wake x i w.bulkhead).1 w).bulkhead
unfolding cancel_granted
wake-Busy n (ready none) i w f h m = m
wake-Busy n (ready (some k)) i w f h m =
    cancel_in-Busy n w.selecting (held_in w.permits) i false w.bulkhead (w.bulkhead.state_of i) refl
      f h m
wake-Busy n (context_done k) i w f h m =
    cancel_in-Busy n w.selecting (held_in w.permits) i false w.bulkhead (w.bulkhead.state_of i) refl
      f h m
wake-Busy n timeout i w f h m =
    cancel_in-Busy n w.selecting (held_in w.permits) i true w.bulkhead (w.bulkhead.state_of i) refl
      f h m

release-Busy :
    (n : ℕ) (sel : ℕ → Bool) (held : ℕ) (b : Bulkhead)
    → IsSound n sel (suc held) b
    → Busy b
    → Busy (release b)
unfolding release
release-Busy n sel held b h m =
    grant_next-Busy n sel held (record b { inflight = b.inflight - 1 })
      (fewer-IsSound n sel held b h) (fewer-Nearly b m)

release_permit-Busy :
    (n : ℕ) (sel : ℕ → Bool) (rest : ℕ) (p : Permit) (b : Bulkhead)
    → IsSound n sel (bit (p.bound && not p.released) + rest) b
    → Busy b
    → Busy (release_permit p b).1
release_permit-Busy n sel rest p b h m = elim (Bool-cases (not p.bound || p.released)) [
  | inl done ↦ rw done m
  | inr held ↦
      let one : bit (p.bound && not p.released) ≡ 1 = ground (arith, held) in
      rw held (
        release-Busy n sel rest b
          (counted n sel (bit (p.bound && not p.released) + rest) (suc rest) b (omega (arith, one))
            h)
          m)
]

release_at-Busy :
    (n : ℕ) (sel : ℕ → Bool) (extra i : ℕ) (ps : List Permit) (b : Bulkhead)
    → IsSound n sel (extra + held_in ps) b
    → Busy b
    → Busy (release_at i ps b).1
unfolding release_at held_in
release_at-Busy n sel extra i [] b h m = m
release_at-Busy n sel extra zero (p ∷ ps) b h m =
    let was = bit (p.bound && not p.released) in
    release_permit-Busy n sel (extra + held_in ps) p b
      (counted n sel (extra + (was + held_in ps)) (was + (extra + held_in ps)) b (omega arith) h) m
release_at-Busy n sel extra (suc i) (p ∷ ps) b h m =
    let k = bit (p.bound && not p.released) in
    release_at-Busy n sel (extra + k) i ps b
      (counted n sel (extra + (k + held_in ps)) (extra + k + held_in ps) b (omega arith) h) m

step-Busy :
    (n : ℕ) (x : Step) (w : World)
    → Within n x
    → IsValid n w
    → Busy w.bulkhead
    → Busy (step x w).bulkhead
unfolding step
step-Busy n (acquires ctx c) w l h m = acquires-Busy n ctx c w l h m
step-Busy n (wakes x i) w l h m =
    elim (Bool-cases (w.selecting i && can_wake x (w.bulkhead.state_of i))) [
      | inl e ↦
          rw (step, e)
            (wake-Busy n x i w (and-left (w.selecting i) (can_wake x (w.bulkhead.state_of i)) e) h
              m)
      | inr e ↦ rw (step, e) m
    ]
step-Busy n (releases i) w l h m =
    release_at-Busy n w.selecting 0 i w.permits w.bulkhead
      (counted n w.selecting (held_in w.permits) (0 + held_in w.permits) w.bulkhead (omega arith) h)
      m

serve_from-Busy :
    (n : ℕ) (xs : List Step) (w : World)
    → All (Within n) xs
    → IsValid n w
    → Busy w.bulkhead
    → Busy (serve xs w).bulkhead
unfolding serve
serve_from-Busy n [] w l h m = m
serve_from-Busy n (x ∷ xs) w l h m =
    serve_from-Busy n xs (step x w) l.1 (step-IsValid n x w l.0 h) (step-Busy n x w l.0 h m)

-- No slot stays free while a caller waits. When all policies of a run of a new bulkhead allow at
-- most n concurrent calls, then after every sequence of calls, ends of selects and releases either
-- no caller is queued or the slots in use reach the limit of the last policy that was set.
pub serve-Busy : (n : ℕ) (xs : List Step) → All (Within n) xs → Busy (serve xs new_world).bulkhead
serve-Busy n xs l = serve_from-Busy n xs new_world l (new_world-IsValid n) (inl refl)
