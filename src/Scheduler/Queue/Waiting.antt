-- ===== src/Scheduler/Queue/Waiting.antt =====
-- How the wait in the queue ends.

use playwright_distributed.Base.{
  Fault, unavailable, canceled, deadline_exceeded, Error, no_capacity, worker_full, fault,
  uncertain_commit, Result, ok, err, ℕ, zero, suc, ◌+◌, ◌≡◌, refl, sym, ap, ◌∙◌, subst, ◌⊎◌, inl,
  inr, Bool, true, false, Option, none, some, List, arith, Bool-cases, Option-cases,
}
use playwright_distributed.Scheduler.Queue.{
  Signals, wait_error, queue_wait_error, Wakeup, wait_done, drained, woken, polled, Round, Turn,
  returns, goes_on, is_context, woken_by, claim_failed, after_claim, take_turn, wait_in_queue,
}
use playwright_distributed.Db.Models.{Session}

-- A result that tells the client something else than a want of capacity.
abbrev pub is_final : Result Session → Bool
is_final (err (worker_full id)) = false
is_final (err no_capacity) = false
is_final r = true

abbrev pub all_final : Option (Result Session) → Bool
all_final none = true
all_final (some r) = is_final r

abbrev turn_final : Turn → Bool
turn_final (returns r) = is_final r
turn_final (goes_on seen) = true

wait_error_final : (f : Fault) → is_final (err (wait_error f)) ≡ true
wait_error_final unavailable = refl
wait_error_final canceled = refl
wait_error_final deadline_exceeded = refl

stop_final : (s : Signals) (e : Error) → queue_wait_error s ≡ some e → is_final (err e) ≡ true
stop_final s e h = elim (Option-cases s.ctx_err) [
  | inr (f, c) ↦ ground arith
  | inl c ↦ elim (Bool-cases s.lifecycle_done) [
    | inl l ↦ ground arith
    | inr l ↦ elim (Option-cases s.wait_err) [
      | inl w ↦ ground arith
      | inr (f, w) ↦ ground (arith, wait_error_final f)
    ]
  ]
]

woken_final : (w : Wakeup) → turn_final (woken_by w) ≡ true
unfolding woken_by
woken_final (wait_done c l f) =
    elim (Option-cases
      (queue_wait_error (record { ctx_err = c; lifecycle_done = l; wait_err = some f }))) [
        | inl n ↦ ground arith
        | inr (e, n) ↦
            ground (
              arith,
              stop_final (record { ctx_err = c; lifecycle_done = l; wait_err = some f }) e n,
            )
      ]
woken_final drained = refl
woken_final woken = refl
woken_final polled = refl

context_final : (e : Error) → is_context e ≡ true → is_final (err e) ≡ true
context_final (fault f) h = refl
context_final (worker_full id) h = cc
context_final no_capacity h = cc
context_final e h = cc

claim_failed_final : (e : Error) (r : Round) → turn_final (claim_failed e r) ≡ true
unfolding claim_failed
claim_failed_final e r = elim (Option-cases (queue_wait_error r.after)) [
  | inr (stop, n) ↦ ground (arith, stop_final r.after stop n)
  | inl n ↦ elim (Bool-cases (is_context e)) [
    | inl c ↦ ground (arith, context_final e c)
    | inr c ↦ ground (arith, woken_final r.wakeup)
  ]
]

after_claim_final :
    (attempt : Result Session) (excluded : List ℕ) (r : Round)
    → turn_final (after_claim attempt excluded r) ≡ true
unfolding after_claim
after_claim_final (ok s) excluded r = refl
after_claim_final (err (worker_full id)) excluded r = refl
after_claim_final (err (uncertain_commit f)) excluded r = refl
after_claim_final (err e) excluded r = claim_failed_final e r

take_turn_final :
    (attempt : Result Session) (excluded : List ℕ) (r : Round)
    → turn_final (take_turn attempt excluded r) ≡ true
unfolding take_turn
take_turn_final attempt excluded r = elim (Option-cases (queue_wait_error r.before)) [
  | inr (stop, n) ↦ ground (arith, stop_final r.before stop n)
  | inl n ↦ ground (arith, after_claim_final attempt excluded r)
]

turn_cases :
    (t : Turn) → ((r : Result Session) × (t ≡ returns r)) ⊎ ((seen : List ℕ) × (t ≡ goes_on seen))
turn_cases (returns r) = inl (r, refl)
turn_cases (goes_on seen) = inr (seen, refl)

module _ (once : ℕ → List ℕ → Result Session) (rounds : ℕ → Round) where
  pub wait_final :
      (fuel i : ℕ) (excluded : List ℕ)
      → all_final (wait_in_queue once rounds fuel i excluded) ≡ true
  unfolding wait_in_queue
  wait_final zero i excluded = refl
  wait_final (suc fuel) i excluded =
      elim (turn_cases (take_turn (once i excluded) excluded (rounds i))) [
        | inl (r, e) ↦
            let f : is_final r ≡ true =
              ap turn_final (sym e) ∙ take_turn_final (once i excluded) excluded (rounds i) in
            ground arith
        | inr (seen, e) ↦ ground (arith, wait_final fuel (suc i) seen)
      ]

  -- Once the signals tell a turn to stop, the loop has returned by the end of that turn.
  pub wait_ends_by :
      (n i : ℕ) (excluded : List ℕ) (stop : Error)
      → queue_wait_error (rounds (i + n)).before ≡ some stop
      → (r : Result Session) × (wait_in_queue once rounds (suc n) i excluded ≡ some r)
  unfolding wait_in_queue take_turn
  wait_ends_by zero i excluded stop h =
      let here : queue_wait_error (rounds i).before ≡ some stop =
        subst (λ m. queue_wait_error (rounds m).before ≡ some stop) (omega arith) h in
      (err stop, ground arith)
  wait_ends_by (suc n) i excluded stop h =
      elim (turn_cases (take_turn (once i excluded) excluded (rounds i))) [
        | inl (r, e) ↦ (r, ground arith)
        | inr (seen, e) ↦
            let (r, q) =
              wait_ends_by n (suc i) seen stop
                (subst (λ m. queue_wait_error (rounds m).before ≡ some stop) (omega arith) h) in
            (r, ground arith)
      ]
