-- ===== src/Scheduler/Queue/Depth/Count.antt =====
-- QueueDepth counts the requests that wait.
use playwright_distributed.Base.{
  Error, no_capacity, queue_full, Result, ok, err, ℕ, zero, suc, ◌+◌, ◌≤◌, ◌≡◌, refl, inl, inr,
  Bool, true, false, Option, some, List, [], ◌∷◌, arith, leb, bit, Bool-cases, get_elem?, set,
  count, count-set, bit-le-count,
}
use playwright_distributed.Scheduler.Queue.{Round, Turn, returns, goes_on, take_turn}
use playwright_distributed.Scheduler.Queue.Depth.{
  Place, claiming, queued_with, answered_with, QueueState, queue_depth, entered, after_claiming,
  after_turn, QueueMove, comes, claims_first, takes_turn, put_back, first_claimed, turn_taken,
  move_queue, run_queue, empty_queue,
}
use playwright_distributed.Db.Models.{Session}

abbrev pub is_queued : Place → Bool
is_queued (queued_with seen) = true
is_queued place = false

record IsCounted (max_queue_size : ℕ) (q : QueueState) : Type 0 where
  exact : q.queued ≡ count is_queued q.requests
  bounded : q.queued ≤ max_queue_size

abbrev Goes : ℕ → Option QueueState → Type 0
Goes max_queue_size r = (q : QueueState) × ((r ≡ some q) × IsCounted max_queue_size q)

-- The count changes as the place of the request does.
abbrev Balanced : ℕ → Place → ℕ → Option (Place × ℕ) → Type 0
Balanced max_queue_size place n r =
    (place' : Place) × ((n' : ℕ) × ((r ≡ some (place', n'))
        × ((n' + bit (is_queued place) ≡ n + bit (is_queued place')) × (n' ≤ max_queue_size))))

put_back-Goes :
    (max_queue_size i : ℕ) (q : QueueState) (place : Place) (r : Option (Place × ℕ))
    → IsCounted max_queue_size q
    → get_elem? q.requests i ≡ some place
    → Balanced max_queue_size place q.queued r
    → Goes max_queue_size (put_back i q r)
unfolding put_back
put_back-Goes max_queue_size i q place r h e (place', (n', (same, (b, le)))) = rw same (
  record { queued = n'; requests = set q.requests i place' },
  (
    refl,
    record {
      exact = omega (arith, h.exact, b, count-set is_queued q.requests i place place' e);
      bounded = le;
    },
  ),
)

claiming-Balanced :
    (max_queue_size n : ℕ) (result : Result Session) (draining_after : Bool)
    → n ≤ max_queue_size
    → Balanced max_queue_size claiming n
        (some (after_claiming max_queue_size result draining_after n))
unfolding after_claiming entered
claiming-Balanced max_queue_size n (ok s) draining_after le = (_, (n, (refl, (refl, le))))
claiming-Balanced max_queue_size n (err no_capacity) draining_after le =
    elim (Bool-cases draining_after) [
      | inl d ↦ rw d (answered_with (err Error.draining), (n, (refl, (refl, le))))
      | inr d ↦ elim (Bool-cases (leb max_queue_size n)) [
        | inl full ↦ rw (d, full) (answered_with (err queue_full), (n, (refl, (refl, le))))
        | inr room ↦
            rw (d, room) (queued_with [], (n + 1, (refl, (omega arith, ground (arith, room)))))
      ]
    ]
claiming-Balanced max_queue_size n (err e) draining_after le = (_, (n, (refl, (refl, le))))

turn-Balanced :
    (max_queue_size n : ℕ) (seen : List ℕ) (turn : Turn)
    → 1 ≤ n
    → n ≤ max_queue_size
    → Balanced max_queue_size (queued_with seen) n (after_turn turn n)
unfolding after_turn
turn-Balanced max_queue_size zero seen (returns r) some_wait le = absurd (omega arith)
turn-Balanced max_queue_size (suc n) seen (returns r) some_wait le =
    (_, (n, (refl, (omega arith, omega arith))))
turn-Balanced max_queue_size n seen (goes_on later) some_wait le = (_, (n, (refl, (refl, le))))

first_claimed-Goes :
    (max_queue_size i : ℕ) (result : Result Session) (draining_after : Bool) (q : QueueState)
    (found : Option Place)
    → get_elem? q.requests i ≡ found
    → IsCounted max_queue_size q
    → Goes max_queue_size (first_claimed max_queue_size i result draining_after q found)
unfolding first_claimed
first_claimed-Goes max_queue_size i result draining_after q (some claiming) e h =
    put_back-Goes max_queue_size i q claiming _ h e
      (claiming-Balanced max_queue_size q.queued result draining_after h.bounded)
first_claimed-Goes max_queue_size i result draining_after q found e h = (q, (refl, h))

turn_taken-Goes :
    (max_queue_size i : ℕ) (attempt : Result Session) (round : Round) (q : QueueState)
    (found : Option Place)
    → get_elem? q.requests i ≡ found
    → IsCounted max_queue_size q
    → Goes max_queue_size (turn_taken i attempt round q found)
unfolding turn_taken
turn_taken-Goes max_queue_size i attempt round q (some (queued_with seen)) e h =
    put_back-Goes max_queue_size i q (queued_with seen) _ h e (
      turn-Balanced max_queue_size q.queued seen (take_turn attempt seen round)
        (rw h.exact (bit-le-count is_queued q.requests i (queued_with seen) e)) h.bounded)
turn_taken-Goes max_queue_size i attempt round q found e h = (q, (refl, h))

move_queue-Goes :
    (max_queue_size : ℕ) (move : QueueMove) (q : QueueState)
    → IsCounted max_queue_size q
    → Goes max_queue_size (move_queue max_queue_size move q)
unfolding move_queue
move_queue-Goes max_queue_size comes q h =
    (_, (refl, record { exact = omega (arith, h.exact); bounded = h.bounded }))
move_queue-Goes max_queue_size (claims_first i result draining_after) q h =
    first_claimed-Goes max_queue_size i result draining_after q _ refl h
move_queue-Goes max_queue_size (takes_turn i attempt round) q h =
    turn_taken-Goes max_queue_size i attempt round q _ refl h

run_queue-Goes :
    (max_queue_size : ℕ) (moves : List QueueMove) (q : QueueState)
    → IsCounted max_queue_size q
    → Goes max_queue_size (run_queue max_queue_size moves q)
unfolding run_queue
run_queue-Goes max_queue_size [] q h = (q, (refl, h))
run_queue-Goes max_queue_size (move ∷ moves) q h =
    let (q', (e, h')) = move_queue-Goes max_queue_size move q h in
    rw (run_queue, e) (run_queue-Goes max_queue_size moves q' h')

-- However the admissions of any number of requests interleave, QueueDepth is the number of requests
-- that wait in the queue, it is at most the size of the queue, and it never falls below 0.
pub run_queue_lem :
    (max_queue_size : ℕ) (moves : List QueueMove)
    → (q : QueueState) × ((run_queue max_queue_size moves empty_queue ≡ some q)
        × ((queue_depth q ≡ count is_queued q.requests) × (queue_depth q ≤ max_queue_size)))
run_queue_lem max_queue_size moves =
    let (q, (e, h)) =
      run_queue-Goes max_queue_size moves empty_queue
        (record { exact = refl; bounded = omega arith }) in
    (q, (e, (h.exact, h.bounded)))
