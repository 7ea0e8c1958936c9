-- ===== src/Governance/Bulkhead/Served.antt =====
-- governance/bulkhead/bulkhead.go: a bulkhead and all its callers.
use keelith.Prelude.{
  ℕ, zero, suc, ◌+◌, not, Bool, true, false, ◌&&◌, ◌||◌, List, [], ◌∷◌, length, ◌≡◌, refl, inl, inr,
  arith, Bool-cases, All, none, some, and-left, and-right,
}
use keelith.Prelude.Int.{le_nat}
use keelith.Prelude.Contexts.{Context, nil_context, live, ended}
use keelith.Governance.Bulkhead.{
  BulkheadPolicy, Bulkhead, Permit, valid_policy, grant_all, configured, acquire, release,
  release_permit, Wake, ready, context_done, timeout, wake, World, new_world, Step, acquires, wakes,
  releases, awakened, can_wake, release_at, step, serve,
}
use keelith.Governance.Bulkhead.Slots.{
  bit, count, Ascending, IsSound, grant_all-IsSound, release-IsSound,
}
use keelith.Governance.Bulkhead.Listed.{NoneLost, new_world-NoneLost, serve-NoneLost}
use keelith.Governance.Bulkhead.Cancel.{cancel_granted-IsSound}
use keelith.Governance.Bulkhead.Entries.{
  held_in, IsValid, counted, ready-IsSound, configured-IsSound, enter-IsValid,
}

-- Steps whose policies allow at most n concurrent calls.
abbrev pub Within : ℕ → Step → Type 0
Within n (acquires ctx c) = le_nat c.max_concurrency n ≡ true
Within n (wakes x i) = Unit {0}
Within n (releases i) = Unit {0}

acquires-IsValid :
    (n : ℕ) (ctx : Context) (c : BulkheadPolicy) (w : World)
    → le_nat c.max_concurrency n ≡ true
    → IsValid n w
    → IsValid n (step (acquires ctx c) w)
unfolding step acquire held_in
acquires-IsValid n nil_context c w l h = h
acquires-IsValid n (ended k) c w l h = h
acquires-IsValid n live c w l h = elim (Bool-cases c.enabled) [
  | inl on ↦ elim (Bool-cases (valid_policy c)) [
    | inl good ↦
        let b = configured c w.bulkhead in
        let granted =
          grant_all-IsSound (length w.bulkhead.waiters) n w.selecting (held_in w.permits) b
            (configured-IsSound n w.selecting (held_in w.permits) c w.bulkhead l h) in
        rw (step, acquire, on, good)
          (enter-IsValid n c (grant_all (length w.bulkhead.waiters) b) w l granted)
    | inr bad ↦ rw (step, acquire, on, bad) h
  ]
  | inr off ↦
      rw (step, acquire, off)
        (counted n w.selecting (held_in w.permits) (0 + held_in w.permits) w.bulkhead (omega arith)
          h)
]

wake-IsValid :
    (n : ℕ) (x : Wake) (i : ℕ) (w : World)
    → w.selecting i ≡ true
    → can_wake x (w.bulkhead.state_of i) ≡ true
    → IsValid n w
    → IsValid n (awakened i (wake x i w.bulkhead).0 (wake x i w.bulkhead).1 w)
unfolding held_in
wake-IsValid n (ready none) i w e f h =
    ready-IsSound n w.selecting (held_in w.permits) w.bulkhead i f e h
wake-IsValid n (ready (some k)) i w e f h =
    cancel_granted-IsSound n w.selecting (held_in w.permits) i false w.bulkhead e h
wake-IsValid n (context_done k) i w e f h =
    cancel_granted-IsSound n w.selecting (held_in w.permits) i false w.bulkhead e h
wake-IsValid n timeout i w e f h =
    cancel_granted-IsSound n w.selecting (held_in w.permits) i true w.bulkhead e h

release_permit-IsSound :
    (n : ℕ) (sel : ℕ → Bool) (rest : ℕ) (p : Permit) (b : Bulkhead)
    → IsSound n sel (bit (p.bound && not p.released) + rest) b
    → IsSound n sel
        (bit ((release_permit p b).0.bound && not (release_permit p b).0.released) + rest)
        (release_permit p b).1
release_permit-IsSound n sel rest p b h = elim (Bool-cases (not p.bound || p.released)) [
  | inl done ↦ rw done h
  | inr held ↦
      let one : bit (p.bound && not p.released) ≡ 1 = ground (arith, held) in
      let none_left : bit (p.bound && false) ≡ 0 = ground arith in
      rw (held, none_left)
        (counted n sel rest (0 + rest) (release b) (omega arith) (
          release-IsSound n sel rest b (
            counted n sel (bit (p.bound && not p.released) + rest) (suc rest) b (omega (arith, one))
              h)))
]

release_at-IsSound :
    (n : ℕ) (sel : ℕ → Bool) (extra i : ℕ) (ps : List Permit) (b : Bulkhead)
    → IsSound n sel (extra + held_in ps) b
    → IsSound n sel (extra + held_in (release_at i ps b).0) (release_at i ps b).1
unfolding release_at held_in
release_at-IsSound n sel extra i [] b h = h
release_at-IsSound n sel extra zero (p ∷ ps) b h =
    let left = release_permit p b in
    let was = bit (p.bound && not p.released) in
    let now = bit (left.0.bound && not left.0.released) in
    counted n sel (now + (extra + held_in ps)) (extra + (now + held_in ps)) left.1 (omega arith) (
      release_permit-IsSound n sel (extra + held_in ps) p b
        (counted n sel (extra + (was + held_in ps)) (was + (extra + held_in ps)) b (omega arith) h))
release_at-IsSound n sel extra (suc i) (p ∷ ps) b h =
    let k = bit (p.bound && not p.released) in
    let left = release_at i ps b in
    counted n sel (extra + k + held_in left.0) (extra + (k + held_in left.0)) left.1 (omega arith) (
      release_at-IsSound n sel (extra + k) i ps b
        (counted n sel (extra + (k + held_in ps)) (extra + k + held_in ps) b (omega arith) h))

pub step-IsValid : (n : ℕ) (x : Step) (w : World) → Within n x → IsValid n w → IsValid n (step x w)
unfolding step
step-IsValid n (acquires ctx c) w l h = acquires-IsValid n ctx c w l h
step-IsValid n (wakes x i) w l h =
    elim (Bool-cases (w.selecting i && can_wake x (w.bulkhead.state_of i))) [
      | inl e ↦
          rw (step, e)
            (wake-IsValid n x i w (and-left (w.selecting i) (can_wake x (w.bulkhead.state_of i)) e)
              (and-right (w.selecting i) (can_wake x (w.bulkhead.state_of i)) e) h)
      | inr e ↦ rw (step, e) h
    ]
step-IsValid n (releases i) w l h =
    let left = release_at i w.permits w.bulkhead in
    counted n w.selecting (0 + held_in left.0) (held_in left.0) left.1 (omega arith) (
      release_at-IsSound n w.selecting 0 i w.permits w.bulkhead (
        counted n w.selecting (held_in w.permits) (0 + held_in w.permits) w.bulkhead (omega arith)
          h))

serve_from-IsValid :
    (n : ℕ) (xs : List Step) (w : World) → All (Within n) xs → IsValid n w → IsValid n (serve xs w)
unfolding serve
serve_from-IsValid n [] w l h = h
serve_from-IsValid n (x ∷ xs) w l h =
    serve_from-IsValid n xs (step x w) l.1 (step-IsValid n x w l.0 h)

pub new_world-IsValid : (n : ℕ) → IsValid n new_world
unfolding held_in count Ascending
new_world-IsValid n = record {
  exact = refl;
  known = λ j e. absurd (ground arith);
  queue = tt;
  ascending = tt;
  limited = ground arith;
  bounded = omega arith;
}

-- Slots are counted exactly and no caller is lost: let all policies of a run of a new bulkhead
-- allow at most n concurrent calls, though the policies may differ. Then after every sequence of
-- calls, ends of selects and releases, the slots in use are the permits held plus the callers that
-- were granted in the queue and have not noticed, at most n in all; the waiters are callers in their
-- select that have not been granted, in the order of their arrival; and every caller in its select
-- that has not been granted is one of the waiters.
pub calls-IsValid :
    (n : ℕ) (xs : List Step)
    → All (Within n) xs
    → IsValid n (serve xs new_world) × NoneLost (serve xs new_world)
calls-IsValid n xs l = (
  serve_from-IsValid n xs new_world l (new_world-IsValid n),
  serve-NoneLost xs new_world new_world-NoneLost,
)
