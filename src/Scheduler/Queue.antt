-- ===== src/Scheduler/Queue.antt =====
-- Admit and its queue in server/internal/scheduler/scheduler.go: a request waits until a claim
-- succeeds, its context or its wait ends, or the server drains.
pub mod Waiting
pub mod Admission
pub mod Depth
use playwright_distributed.Scheduler.Settings.{Options}
use playwright_distributed.Base.{
  Fault, canceled, deadline_exceeded, Error, no_capacity, queue_full, wait_timeout, worker_full,
  fault, uncertain_commit, Result, ok, err, ℕ, zero, suc, ◌+◌, Bool, true, false, Option, none,
  some, List, [], ◌∷◌, ◌++◌, leb, if◌then◌else◌,
}
use playwright_distributed.Db.Models.{Session}

-- The errors of the request's context and of the wait, and whether the lifecycle context is done.
pub record Signals : Type 0 where
  pub ctx_err : Option Fault
  pub lifecycle_done : Bool
  pub wait_err : Option Fault

abbrev pub wait_error : Fault → Error
wait_error deadline_exceeded = wait_timeout
wait_error f = fault f

abbrev pub queue_wait_error : Signals → Option Error
queue_wait_error s = elim s.ctx_err [
  | some f ↦ some (fault f)
  | none ↦ elim s.lifecycle_done [
    | true ↦ some Error.draining
    | false ↦ elim s.wait_err [ none ↦ none | some f ↦ some (wait_error f) ]
  ]
]

-- Which case of the select ends a wait. The wait's context is done with an error.
pub data Wakeup : Type 0 where
  wait_done : Option Fault → Bool → Fault → Wakeup
  drained woken polled : Wakeup

-- What one turn of the loop meets: the signals before the claim and after it, and the wakeup.
pub record Round : Type 0 where
  pub before : Signals
  pub after : Signals
  pub wakeup : Wakeup

-- The loop returns, or goes on with the excluded workers.
pub data Turn : Type 0 where
  returns : Result Session → Turn
  goes_on : List ℕ → Turn

abbrev pub is_context : Error → Bool
is_context (fault canceled) = true
is_context (fault deadline_exceeded) = true
is_context e = false

pub woken_by : Wakeup → Turn
woken_by (wait_done ctx_err lifecycle_done f) =
    elim (queue_wait_error
      (record { ctx_err = ctx_err; lifecycle_done = lifecycle_done; wait_err = some f })) [
        | some e ↦ returns (err e)
        | none ↦ goes_on []
      ]
woken_by drained = returns (err Error.draining)
woken_by woken = goes_on []
woken_by polled = goes_on []

pub claim_failed : Error → Round → Turn
unfolding woken_by
claim_failed e r = elim (queue_wait_error r.after) [
  | some stop ↦ returns (err stop)
  | none ↦ if is_context e then returns (err e) else woken_by r.wakeup
]

pub after_claim : Result Session → List ℕ → Round → Turn
unfolding claim_failed
after_claim (ok s) excluded r = returns (ok s)
after_claim (err (worker_full id)) excluded r = goes_on (excluded ++ (id ∷ []))
after_claim (err (uncertain_commit f)) excluded r = returns (err (uncertain_commit f))
after_claim (err e) excluded r = claim_failed e r

unfoldable pub take_turn : Result Session → List ℕ → Round → Turn
unfolding after_claim
take_turn attempt excluded r = elim (queue_wait_error r.before) [
  | some stop ↦ returns (err stop)
  | none ↦ after_claim attempt excluded r
]

-- The loop, for `fuel` turns at most; none is a loop that still waits.
unfoldable pub wait_in_queue :
    (ℕ → List ℕ → Result Session) → (ℕ → Round) → ℕ → ℕ → List ℕ → Option (Result Session)
unfolding take_turn
wait_in_queue once rounds zero i excluded = none
wait_in_queue once rounds (suc fuel) i excluded =
    elim (take_turn (once i excluded) excluded (rounds i)) [
      | returns r ↦ some r
      | goes_on seen ↦ wait_in_queue once rounds fuel (suc i) seen
    ]

abbrev pub enter_queue : ℕ → ℕ → Option ℕ
enter_queue max_queue_size queued = if leb max_queue_size queued then none else some (queued + 1)

-- What Admit meets besides its claims: isDraining before and after the first claim, and the number of
-- requests in the queue.
pub record Arrival : Type 0 where
  pub draining_before : Bool
  pub draining_after : Bool
  pub queued : ℕ

pub join_queue : ℕ → Arrival → Option (Result Session) → Option (Result Session)
join_queue max_queue_size a waited =
    if a.draining_after
    then some (err Error.draining)
    else elim (enter_queue max_queue_size a.queued) [
      | none ↦ some (err queue_full)
      | some n ↦ waited
    ]

pub after_first :
    Options → Arrival → Result Session → Option (Result Session) → Option (Result Session)
unfolding join_queue
after_first o a (ok s) waited = some (ok s)
after_first o a (err no_capacity) waited = join_queue o.max_queue_size a waited
after_first o a (err e) waited = some (err e)

-- Admit, by the result of its first call of Claim.
unfoldable pub admit :
    Options
    → Arrival
    → Result Session
    → (ℕ → List ℕ → Result Session)
    → (ℕ → Round)
    → ℕ
    → Option (Result Session)
unfolding after_first
admit o a first once rounds fuel =
    if a.draining_before
    then some (err Error.draining)
    else after_first o a first (wait_in_queue once rounds fuel 0 [])
