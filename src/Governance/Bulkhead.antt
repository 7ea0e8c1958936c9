-- ===== src/Governance/Bulkhead.antt =====
-- governance/bulkhead/bulkhead.go: one bulkhead. Its mutex makes each locked part of a method one
-- step: Acquire is the part up to its select and the parts that end each case of the select. A waiter
-- is the number of its allocation, and the states of all waiters are a field of the bulkhead.
use keelith.Prelude.{
  ℕ, zero, suc, ◌+◌, ◌-◌, ◌==◌, ltb, leb, not, Bool, true, false, ◌&&◌, ◌||◌, List, [], ◌∷◌, ◌++◌,
  length, if◌then◌else◌, Option, none, some,
}
use keelith.Prelude.Int.{ℤ, pos, negsuc, is_pos, is_neg, le_nat}
use keelith.Prelude.Words.{add_u64}
use keelith.Prelude.Results.{Result, ok, err}
use keelith.Prelude.Contexts.{Context, nil_context, live, ended}
pub mod Slots
pub mod Cancel
pub mod Entries
pub mod Listed
pub mod Served
pub mod Refill
pub mod Busy
pub mod Order
pub mod Queue

pub data Error : Type 0 where
  full : Error
  queue_timeout_error : Error
  invalid_option : Error
  invalid_policy : Error
  cause : ℕ → Error

pub record BulkheadPolicy : Type 0 where
  pub enabled : Bool
  pub max_concurrency : ℤ
  pub max_queue : ℤ
  pub queue_timeout : ℤ

pub data WaiterState : Type 0 where
  waiter_queued : WaiterState
  waiter_granted : WaiterState
  waiter_canceled : WaiterState

abbrev pub is_queued : WaiterState → Bool
is_queued waiter_queued = true
is_queued waiter_granted = false
is_queued waiter_canceled = false

abbrev pub is_granted : WaiterState → Bool
is_granted waiter_queued = false
is_granted waiter_granted = true
is_granted waiter_canceled = false

pub record Bulkhead : Type 0 where
  pub max_concurrency : ℤ
  pub max_queue : ℤ
  pub inflight : ℕ
  pub waiters : List ℕ
  pub allocated : ℕ
  pub state_of : ℕ → WaiterState
  pub queue_high_water : ℕ
  pub accepted : ℕ
  pub rejected : ℕ
  pub queue_timeouts : ℕ
  pub queue_cancellations : ℕ

-- NewBulkhead
abbrev pub new_bulkhead : Bulkhead
new_bulkhead = record {
  max_concurrency = pos 0;
  max_queue = pos 0;
  inflight = 0;
  waiters = [];
  allocated = 0;
  state_of = λ i. waiter_queued;
  queue_high_water = 0;
  accepted = 0;
  rejected = 0;
  queue_timeouts = 0;
  queue_cancellations = 0;
}

-- `bound` tells whether the permit has a bulkhead, `released` whether its once has run.
pub record Permit : Type 0 where
  pub bound : Bool
  pub released : Bool

abbrev pub is_zero : ℤ → Bool
is_zero (pos n) = n == 0
is_zero (negsuc _) = false

-- validate
unfoldable pub valid_policy : BulkheadPolicy → Bool
valid_policy c = not (
    le_nat c.max_concurrency 0
    || (is_neg c.max_queue
        || (is_neg c.queue_timeout
            || (is_pos c.max_queue && le_nat c.queue_timeout 0
                || is_zero c.max_queue && is_pos c.queue_timeout))))

abbrev pub set {ℓ} : {A : Type ℓ} → ℕ → A → (ℕ → A) → ℕ → A
set i x f j = if i == j then x else f j

abbrev pub grant : ℕ → List ℕ → Bulkhead → Bulkhead
grant i rest b = record b {
  waiters = rest;
  state_of = set i waiter_granted b.state_of;
  inflight = b.inflight + 1;
  accepted = add_u64 b.accepted 1;
}

-- The loop of grantNextLocked over the waiters.
unfoldable pub grant_first : List ℕ → Bulkhead → Bulkhead
grant_first [] b = record b { waiters = [] }
grant_first (i ∷ rest) b =
    let later = grant_first rest b in if is_queued (b.state_of i) then grant i rest b else later

-- grantNextLocked
unfoldable pub grant_next : Bulkhead → Bulkhead
unfolding grant_first
grant_next b =
    if le_nat b.max_concurrency 0 || le_nat b.max_concurrency b.inflight
    then b
    else grant_first b.waiters b

-- The loop of Acquire that grants; each turn takes at least one waiter, so their number is fuel
-- enough.
unfoldable pub grant_all : ℕ → Bulkhead → Bulkhead
unfolding grant_next
grant_all zero b = b
grant_all (suc n) b =
    let rest = grant_all n (grant_next b) in
    if not (le_nat b.max_concurrency b.inflight) && ltb 0 (length b.waiters) then rest else b

-- What the locked part of Acquire ends with.
pub data Entry : Type 0 where
  refused : Error → Entry
  admitted : Permit → Entry
  queues : ℕ → Entry

abbrev pub held_permit : Permit
held_permit = record { bound = true; released = false }

abbrev pub higher : ℕ → ℕ → ℕ
higher a b = if ltb a b then b else a

abbrev pub enqueue : Bulkhead → Bulkhead
enqueue b = record b {
  waiters = b.waiters ++ (b.allocated ∷ []);
  allocated = suc b.allocated;
  state_of = set b.allocated waiter_queued b.state_of;
  queue_high_water = higher b.queue_high_water (length b.waiters + 1);
}

-- Acquire behind its checks, with the slots granted that the new policy allows.
unfoldable pub enter : BulkheadPolicy → Bulkhead → Bulkhead × Entry
enter c b =
    if not (le_nat c.max_concurrency b.inflight) && length b.waiters == 0
    then (
      record b { inflight = b.inflight + 1; accepted = add_u64 b.accepted 1 },
      admitted held_permit,
    )
    else (if is_zero c.max_queue || le_nat c.max_queue (length b.waiters)
        then (record b { rejected = add_u64 b.rejected 1 }, refused full)
        else (enqueue b, queues b.allocated))

abbrev pub configured : BulkheadPolicy → Bulkhead → Bulkhead
configured c b = record b { max_concurrency = c.max_concurrency; max_queue = c.max_queue }

-- Acquire, up to its select.
unfoldable pub acquire : Context → BulkheadPolicy → Bulkhead → Bulkhead × Entry
unfolding valid_policy grant_all enter
acquire nil_context c b = (b, refused invalid_option)
acquire (ended n) c b = (b, refused (cause n))
acquire live c b =
    if not c.enabled
    then (b, admitted (record { bound = false; released = false }))
    else (if not (valid_policy c)
        then (b, refused invalid_policy)
        else enter c (grant_all (length b.waiters) (configured c b)))

-- release
unfoldable pub release : Bulkhead → Bulkhead
unfolding grant_next
release b = grant_next (record b { inflight = b.inflight - 1 })

-- Permit.Release
abbrev pub release_permit : Permit → Bulkhead → Permit × Bulkhead
release_permit p b =
    if not p.bound || p.released then (p, b) else (record p { released = true }, release b)

-- removeWaiterLocked
unfoldable pub remove : ℕ → List ℕ → List ℕ
remove i [] = []
remove i (j ∷ js) = if i == j then js else j ∷ remove i js

abbrev pub missed : Bool → Bulkhead → Bulkhead
missed true b = record b { queue_timeouts = add_u64 b.queue_timeouts 1 }
missed false b = record b { queue_cancellations = add_u64 b.queue_cancellations 1 }

abbrev pub canceled : ℕ → Bulkhead → Bulkhead
canceled i b = record b { state_of = set i waiter_canceled b.state_of }

-- cancelGranted, whose result no caller uses.
abbrev pub cancel_in : WaiterState → ℕ → Bool → Bulkhead → Bulkhead
cancel_in waiter_queued i timed_out b =
    grant_next (missed timed_out (record (canceled i b) { waiters = remove i b.waiters }))
cancel_in waiter_granted i timed_out b =
    grant_next (missed timed_out (record (canceled i b) { inflight = b.inflight - 1 }))
cancel_in waiter_canceled i timed_out b = b

unfoldable pub cancel_granted : ℕ → Bool → Bulkhead → Bulkhead
unfolding grant_next remove
cancel_granted i timed_out b = cancel_in (b.state_of i) i timed_out b

-- The case of the select that a queued caller takes, a ready channel with the cause that the context
-- has by then.
pub data Wake : Type 0 where
  ready : Option ℕ → Wake
  context_done : ℕ → Wake
  timeout : Wake

abbrev pub wake : Wake → ℕ → Bulkhead → Bulkhead × Result Error Permit
wake (ready none) i b = (b, ok held_permit)
wake (ready (some n)) i b = (cancel_granted i false b, err (cause n))
wake (context_done n) i b = (cancel_granted i false b, err (cause n))
wake timeout i b = (cancel_granted i true b, err queue_timeout_error)

-- A bulkhead with its callers: which waiters' callers are in their select, and the permits handed
-- out so far.
pub record World : Type 0 where
  pub bulkhead : Bulkhead
  pub selecting : ℕ → Bool
  pub permits : List Permit

abbrev pub new_world : World
new_world = record { bulkhead = new_bulkhead; selecting = λ i. false; permits = [] }

pub data Step : Type 0 where
  acquires : Context → BulkheadPolicy → Step
  wakes : Wake → ℕ → Step
  releases : ℕ → Step

abbrev pub entered : Bulkhead → Entry → World → World
entered b (refused e) w = record w { bulkhead = b }
entered b (admitted p) w = record w { bulkhead = b; permits = p ∷ w.permits }
entered b (queues i) w = record w { bulkhead = b; selecting = set i true w.selecting }

abbrev pub awakened : ℕ → Bulkhead → Result Error Permit → World → World
awakened i b (ok p) w = record w {
  bulkhead = b;
  selecting = set i false w.selecting;
  permits = p ∷ w.permits;
}
awakened i b (err e) w = record w { bulkhead = b; selecting = set i false w.selecting }

-- A ready channel is closed when its waiter is granted.
abbrev pub can_wake : Wake → WaiterState → Bool
can_wake (ready ended_by) s = is_granted s
can_wake (context_done n) s = true
can_wake timeout s = true

-- The release of the permit at a position, if there is one.
unfoldable pub release_at : ℕ → List Permit → Bulkhead → List Permit × Bulkhead
release_at i [] b = ([], b)
release_at zero (p ∷ ps) b = let r = release_permit p b in (r.0 ∷ ps, r.1)
release_at (suc i) (p ∷ ps) b = let r = release_at i ps b in (p ∷ r.0, r.1)

unfoldable pub step : Step → World → World
unfolding acquire cancel_granted release_at
step (acquires ctx c) w = let r = acquire ctx c w.bulkhead in entered r.0 r.1 w
step (wakes x i) w =
    if w.selecting i && can_wake x (w.bulkhead.state_of i)
    then (let r = wake x i w.bulkhead in awakened i r.0 r.1 w)
    else w
step (releases i) w =
    let r = release_at i w.permits w.bulkhead in record w { permits = r.0; bulkhead = r.1 }

unfoldable pub serve : List Step → World → World
unfolding step
serve [] w = w
serve (x ∷ xs) w = serve xs (step x w)
