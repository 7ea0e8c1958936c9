-- ===== src/Governance/Bulkhead/Refill.antt =====
-- governance/bulkhead/bulkhead.go: a grant fills the slots that are free.
use keelith.Prelude.{
  ℕ, zero, suc, ◌+◌, ◌-◌, ◌≤◌, ltb, not, Bool, true, false, ◌&&◌, List, [], ◌∷◌, length, ◌≡◌, refl,
  sym, ap, ◌∙◌, subst, inl, inr, ◌⊎◌, arith, Bool-cases, All,
}
use keelith.Prelude.Int.{ℤ, pos, negsuc, le_nat}
use keelith.Governance.Bulkhead.{is_queued, Bulkhead, grant_first, grant_next, grant_all}
use keelith.Governance.Bulkhead.Slots.{Waits, IsSound, grant_next-IsSound}

-- No caller waits, or the slots are used up.
abbrev pub Busy : Bulkhead → Type 0
Busy b = (b.waiters ≡ []) ⊎ (le_nat b.max_concurrency b.inflight ≡ true)

-- One grant from being busy.
abbrev pub Nearly : Bulkhead → Type 0
Nearly b = (b.waiters ≡ []) ⊎ (le_nat b.max_concurrency (b.inflight + 1) ≡ true)

pub le_nat_mono : (m : ℤ) (j k : ℕ) → j ≤ k → le_nat m j ≡ true → le_nat m k ≡ true
le_nat_mono (pos m) j k l e = ground arith
le_nat_mono (negsuc m) j k l e = refl

Busy-Nearly : (b : Bulkhead) → Busy b → Nearly b
Busy-Nearly b (inl e) = inl e
Busy-Nearly b (inr e) =
    inr (le_nat_mono b.max_concurrency b.inflight (b.inflight + 1) (omega arith) e)

grant_first-Busy :
    (n : ℕ) (sel : ℕ → Bool) (held : ℕ) (b : Bulkhead) (ws : List ℕ)
    → b.waiters ≡ ws
    → IsSound n sel held b
    → Nearly b
    → Busy (grant_first ws b)
unfolding grant_first
grant_first-Busy n sel held b [] e h m = inl refl
grant_first-Busy n sel held b (i ∷ rest) e h (inl none_left) =
    absurd (ground (arith, ap length (sym e ∙ none_left)))
grant_first-Busy n sel held b (i ∷ rest) e h (inr m) =
    let q = subst (λ xs. All (Waits sel b) xs) e h.queue in rw (grant_first, q.0.2) (inr m)

pub grant_next-Busy :
    (n : ℕ) (sel : ℕ → Bool) (held : ℕ) (b : Bulkhead)
    → IsSound n sel held b
    → Nearly b
    → Busy (grant_next b)
unfolding grant_next
grant_next-Busy n sel held b h m = elim (Bool-cases (le_nat b.max_concurrency 0)) [
  | inl z ↦ rw (grant_next, z) (inr (le_nat_mono b.max_concurrency 0 b.inflight (omega arith) z))
  | inr z ↦ elim (Bool-cases (le_nat b.max_concurrency b.inflight)) [
    | inl f ↦ rw (grant_next, z, f) (inr f)
    | inr f ↦ rw (grant_next, z, f) (grant_first-Busy n sel held b b.waiters refl h m)
  ]
]

-- A grant with a free slot takes a waiter.
grant_first-shorter :
    (n : ℕ) (sel : ℕ → Bool) (held : ℕ) (b : Bulkhead) (ws : List ℕ)
    → b.waiters ≡ ws
    → IsSound n sel held b
    → length (grant_first ws b).waiters ≡ length ws - 1
unfolding grant_first
grant_first-shorter n sel held b [] e h = refl
grant_first-shorter n sel held b (i ∷ rest) e h =
    let q = subst (λ xs. All (Waits sel b) xs) e h.queue in rw (grant_first, q.0.2) (omega arith)

grant_next-shorter :
    (n : ℕ) (sel : ℕ → Bool) (held : ℕ) (b : Bulkhead)
    → IsSound n sel held b
    → le_nat b.max_concurrency b.inflight ≡ false
    → length (grant_next b).waiters ≡ length b.waiters - 1
unfolding grant_next
grant_next-shorter n sel held b h f =
    let z : le_nat b.max_concurrency 0 ≡ false = elim (Bool-cases (le_nat b.max_concurrency 0)) [
      | inl z ↦
          absurd (ground (arith, f, le_nat_mono b.max_concurrency 0 b.inflight (omega arith) z))
      | inr z ↦ z
    ] in
    rw (grant_next, z, f) (grant_first-shorter n sel held b b.waiters refl h)

pub length-zero : {A : Type 0} (xs : List A) → length xs ≡ 0 → xs ≡ []
length-zero [] e = refl
length-zero (x ∷ xs) e = absurd (omega arith)

pub grant_all-Busy :
    (fuel n : ℕ) (sel : ℕ → Bool) (held : ℕ) (b : Bulkhead)
    → length b.waiters ≤ fuel
    → IsSound n sel held b
    → Busy (grant_all fuel b)
unfolding grant_all
grant_all-Busy zero n sel held b l h = inl (length-zero b.waiters (omega arith))
grant_all-Busy (suc fuel) n sel held b l h =
    elim (Bool-cases (not (le_nat b.max_concurrency b.inflight) && ltb 0 (length b.waiters))) [
      | inl e ↦
          let f : le_nat b.max_concurrency b.inflight ≡ false = ground (arith, e) in
          let shorter = grant_next-shorter n sel held b h f in
          rw (grant_all, e)
            (grant_all-Busy fuel n sel held (grant_next b) (omega arith)
              (grant_next-IsSound n sel held b h))
      | inr e ↦
          rw (grant_all, e)
            (elim (Bool-cases (le_nat b.max_concurrency b.inflight)) [
              | inl f ↦ inr f
              | inr f ↦ inl (length-zero b.waiters (ground (arith, e, f)))
            ])
    ]

-- A grant leaves the limit.
grant_first-max :
    (ws : List ℕ) (b : Bulkhead) → (grant_first ws b).max_concurrency ≡ b.max_concurrency
unfolding grant_first
grant_first-max [] b = refl
grant_first-max (i ∷ rest) b = elim (Bool-cases (is_queued (b.state_of i))) [
  | inl e ↦ rw (grant_first, e) refl
  | inr e ↦ rw (grant_first, e) (grant_first-max rest b)
]

grant_next-max : (b : Bulkhead) → (grant_next b).max_concurrency ≡ b.max_concurrency
unfolding grant_next
grant_next-max b = ground (arith, grant_first-max b.waiters b)

pub grant_all-max :
    (fuel : ℕ) (b : Bulkhead) → (grant_all fuel b).max_concurrency ≡ b.max_concurrency
unfolding grant_all
grant_all-max zero b = refl
grant_all-max (suc fuel) b = ground (arith, grant_all-max fuel (grant_next b), grant_next-max b)
