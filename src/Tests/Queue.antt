-- ===== src/Tests/Queue.antt =====
-- Admissions to a full store.
use playwright_distributed.Base.{
  Fault, deadline_exceeded, no_capacity, queue_full, wait_timeout, worker_full, Result, err, ℕ, ◌≤◌,
  ◌≡◌, refl, ◌≢◌, false, Option, none, some, List, [], ◌∷◌, leb, if◌then◌else◌, count,
}
use playwright_distributed.Tests.Data.{options}
use playwright_distributed.Scheduler.Queue.Depth.{
  queued_with, answered_with, QueueState, queue_depth, QueueMove, comes, claims_first, takes_turn,
  move_queue, run_queue, empty_queue,
}
use playwright_distributed.Scheduler.Queue.Depth.Count.{is_queued, run_queue_lem}
use playwright_distributed.Scheduler.Queue.{
  Signals, polled, Round, take_turn, wait_in_queue, Arrival, admit,
}
use playwright_distributed.Scheduler.Retry.{claim_from, claim}
use playwright_distributed.Db.Models.{Session}
use playwright_distributed.Scheduler.Queue.Admission.{admit_answers}

abbrev none_free : ℕ → List ℕ → Result Session
none_free attempt excluded = err no_capacity

abbrev elapsed : ℕ → Option Fault
elapsed attempt = none

abbrev calm : Signals
calm = record { ctx_err = none; lifecycle_done = false; wait_err = none }

-- The third turn finds that the wait has ended.
abbrev rounds : ℕ → Round
rounds i = record {
  before = if leb i 1 then calm else record calm { wait_err = some deadline_exceeded };
  after = calm;
  wakeup = polled;
}

abbrev arrival : Arrival
arrival = record { draining_before = false; draining_after = false; queued = 1 }

abbrev timeout_result : Result Session
timeout_result = err wait_timeout

timed_out : admit options arrival (claim none_free elapsed) none_free rounds 3 ≡ some timeout_result
unfolding admit wait_in_queue claim claim_from
timed_out = refl

admit_answers_example :
    (r : Result Session) × ((admit options arrival (claim none_free elapsed) none_free rounds 3
        ≡ some r)
      × ((r ≢ err no_capacity) × ((id : ℕ) → r ≢ err (worker_full id))))
admit_answers_example =
    admit_answers options arrival none_free elapsed none_free rounds 2 wait_timeout refl

-- Two requests queue, a third finds the queue full, and the first leaves it.
abbrev queue_moves : List QueueMove
queue_moves =
    comes
    ∷ claims_first 0 (err no_capacity) false
    ∷ comes
    ∷ claims_first 0 (err no_capacity) false
    ∷ comes
    ∷ claims_first 0 (err no_capacity) false
    ∷ takes_turn 2 (err (worker_full 4)) (rounds 0)
    ∷ takes_turn 2 (err no_capacity) (rounds 2)
    ∷ []

abbrev one_left : QueueState
one_left = record {
  queued = 1;
  requests =
      answered_with (err queue_full) ∷ queued_with [] ∷ answered_with (err wait_timeout) ∷ [];
}

queue_moves_end : run_queue 2 queue_moves empty_queue ≡ some one_left
unfolding run_queue move_queue take_turn
queue_moves_end = refl

run_queue_lem_example :
    (q : QueueState) × ((run_queue 2 queue_moves empty_queue ≡ some q)
      × ((queue_depth q ≡ count is_queued q.requests) × (queue_depth q ≤ 2)))
run_queue_lem_example = run_queue_lem 2 queue_moves
