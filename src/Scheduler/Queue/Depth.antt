-- ===== src/Scheduler/Queue/Depth.antt =====
-- The count of queued requests in server/internal/scheduler/scheduler.go: enterQueue, leaveQueue and
-- QueueDepth, each a critical section of queueMu, in the admissions of any number of requests at once.
pub mod Count
use mathlib.Core.Option
use playwright_distributed.Base.{
  Error, no_capacity, queue_full, Result, ok, err, ℕ, zero, suc, Bool, Option, none, some, List, [],
  ◌∷◌, if◌then◌else◌, get_elem?, set,
}
use playwright_distributed.Db.Models.{Session}
use playwright_distributed.Scheduler.Queue.{Round, Turn, returns, goes_on, take_turn, enter_queue}

-- A request in Admit: before its first call of Claim, in the queue with the workers that it has found
-- full, or answered.
pub data Place : Type 0 where
  claiming : Place
  queued_with : List ℕ → Place
  answered_with : Result Session → Place

pub record QueueState : Type 0 where
  pub queued : ℕ
  pub requests : List Place

-- None is a count that would fall below 0.
abbrev pub leave_queue : ℕ → Option ℕ
leave_queue zero = none
leave_queue (suc n) = some n

abbrev pub queue_depth : QueueState → ℕ
queue_depth q = q.queued

pub entered : ℕ → Option ℕ → Place × ℕ
entered n none = (answered_with (err queue_full), n)
entered n (some m) = (queued_with [], m)

-- Admit after the first call of Claim, by its result and by isDraining.
pub after_claiming : ℕ → Result Session → Bool → ℕ → Place × ℕ
unfolding entered
after_claiming max_queue_size (ok s) draining_after n = (answered_with (ok s), n)
after_claiming max_queue_size (err no_capacity) draining_after n =
    if draining_after
    then (answered_with (err Error.draining), n)
    else entered n (enter_queue max_queue_size n)
after_claiming max_queue_size (err e) draining_after n = (answered_with (err e), n)

-- The deferred leaveQueue runs when the loop returns.
pub after_turn : Turn → ℕ → Option (Place × ℕ)
after_turn (returns r) n = Option.map (λ m. (answered_with r, m)) (leave_queue n)
after_turn (goes_on seen) n = some (queued_with seen, n)

-- A request arrives; one has the result of its first claim; one takes a turn in the queue.
pub data QueueMove : Type 0 where
  comes : QueueMove
  claims_first : ℕ → Result Session → Bool → QueueMove
  takes_turn : ℕ → Result Session → Round → QueueMove

pub put_back : ℕ → QueueState → Option (Place × ℕ) → Option QueueState
put_back i q none = none
put_back i q (some (place, n)) = some (record { queued = n; requests = set q.requests i place })

-- A move that the request's place does not allow changes nothing.
pub first_claimed : ℕ → ℕ → Result Session → Bool → QueueState → Option Place → Option QueueState
unfolding put_back after_claiming
first_claimed max_queue_size i result draining_after q (some claiming) =
    put_back i q (some (after_claiming max_queue_size result draining_after q.queued))
first_claimed max_queue_size i result draining_after q place = some q

pub turn_taken : ℕ → Result Session → Round → QueueState → Option Place → Option QueueState
unfolding put_back after_turn
turn_taken i attempt round q (some (queued_with seen)) =
    put_back i q (after_turn (take_turn attempt seen round) q.queued)
turn_taken i attempt round q place = some q

unfoldable pub move_queue : ℕ → QueueMove → QueueState → Option QueueState
unfolding first_claimed turn_taken
move_queue max_queue_size comes q = some (record q { requests = claiming ∷ q.requests })
move_queue max_queue_size (claims_first i result draining_after) q =
    first_claimed max_queue_size i result draining_after q (get_elem? q.requests i)
move_queue max_queue_size (takes_turn i attempt round) q =
    turn_taken i attempt round q (get_elem? q.requests i)

unfoldable pub run_queue : ℕ → List QueueMove → QueueState → Option QueueState
unfolding move_queue
run_queue max_queue_size [] q = some q
run_queue max_queue_size (move ∷ moves) q = elim (move_queue max_queue_size move q) [
  | none ↦ none
  | some q' ↦ run_queue max_queue_size moves q'
]

abbrev pub empty_queue : QueueState
empty_queue = record { queued = 0; requests = [] }
