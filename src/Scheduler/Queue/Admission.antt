-- ===== src/Scheduler/Queue/Admission.antt =====
-- How an admission ends.
use playwright_distributed.Scheduler.Settings.{Options}
use playwright_distributed.Scheduler.Retry.{claim}
use playwright_distributed.Base.{
  Fault, Error, no_capacity, queue_full, worker_full, Result, ok, err, ℕ, suc, ◌≡◌, refl, sym, ap,
  ◌∙◌, subst, ◌≢◌, inl, inr, Bool, true, Option, some, List, [], arith, Bool-cases, Option-cases,
  true-false,
}
use playwright_distributed.Scheduler.Queue.{
  queue_wait_error, Round, wait_in_queue, enter_queue, Arrival, join_queue, after_first, admit,
}
use playwright_distributed.Db.Models.{Session}
use playwright_distributed.Scheduler.Retry.Attempts.{
  Ends, success, error, full, empty, interrupted, claim_lem,
}
use playwright_distributed.Scheduler.Queue.Waiting.{is_final, all_final, wait_final, wait_ends_by}

ended-not_full :
    (once : ℕ → List ℕ → Result Session) (waits : ℕ → Option Fault) (k : ℕ) (seen : List ℕ)
    (last : Bool) (r : Result Session) (id : ℕ)
    → Ends once waits k seen last r
    → r ≢ err (worker_full id)
ended-not_full once waits k seen last _ id (success s e) h = cc
ended-not_full once waits k seen last _ id (error e q f g) h = f id (ground arith)
ended-not_full once waits k seen last _ id (full i l q) h = cc
ended-not_full once waits k seen last _ id (empty l q) h = cc
ended-not_full once waits k seen last _ id (interrupted f l q w) h = cc

-- Claim does not say which worker was full.
claim-not_full :
    (once : ℕ → List ℕ → Result Session) (waits : ℕ → Option Fault) (id : ℕ)
    → claim once waits ≢ err (worker_full id)
claim-not_full once waits id h =
    let (k, (seen, (l, (lt, e)))) = claim_lem once waits in
    ended-not_full once waits k seen _ _ id e h

after_first_final :
    (o : Options) (a : Arrival) (first : Result Session) (waited : Option (Result Session))
    → ((id : ℕ) → first ≢ err (worker_full id))
    → all_final waited ≡ true
    → all_final (after_first o a first waited) ≡ true
unfolding after_first join_queue
after_first_final o a (ok s) waited h w = refl
after_first_final o a (err no_capacity) waited h w = ground arith
after_first_final o a (err (worker_full id)) waited h w = absurd (h id refl)
after_first_final o a (err e) waited h w = refl

-- What Admit returns is never a want of capacity: a request gets a session, waits, or learns that the
-- queue is full, that its wait ended, that the server drains, or what failed.
pub admit_final :
    (o : Options) (a : Arrival) (once : ℕ → List ℕ → Result Session) (waits : ℕ → Option Fault)
    (queued_once : ℕ → List ℕ → Result Session) (rounds : ℕ → Round) (fuel : ℕ) (r : Result Session)
    → admit o a (claim once waits) queued_once rounds fuel ≡ some r
    → (r ≢ err no_capacity) × ((id : ℕ) → r ≢ err (worker_full id))
unfolding admit
admit_final o a once waits queued_once rounds fuel r h =
    let f : is_final r ≡ true = elim (Bool-cases a.draining_before) [
      | inl d ↦ ground arith
      | inr d ↦
          let e : after_first o a (claim once waits) (wait_in_queue queued_once rounds fuel 0 [])
              ≡ some r =
            ground arith in
          ap all_final (sym e)
          ∙ after_first_final o a (claim once waits) _ (claim-not_full once waits)
              (wait_final queued_once rounds fuel 0 [])
    ] in
    ((λ e. true-false f (ap is_final e)), λ id e. true-false f (ap is_final e))

join_queue-some :
    (n : ℕ) (a : Arrival) (r : Result Session)
    → (r' : Result Session) × (join_queue n a (some r) ≡ some r')
unfolding join_queue
join_queue-some n a r = elim (Bool-cases a.draining_after) [
  | inl d ↦ (err Error.draining, ground arith)
  | inr d ↦ elim (Option-cases (enter_queue n a.queued)) [
    | inl e ↦ (err queue_full, ground arith)
    | inr (m, e) ↦ (r, ground arith)
  ]
]

after_first-some :
    (o : Options) (a : Arrival) (first r : Result Session)
    → (r' : Result Session) × (after_first o a first (some r) ≡ some r')
unfolding after_first
after_first-some o a (ok s) r = (ok s, refl)
after_first-some o a (err no_capacity) r = join_queue-some o.max_queue_size a r
after_first-some o a (err e) r = (err e, refl)

-- Once the signals tell a turn of the queue to stop, because the request's context or its wait has
-- ended or the server drains, Admit has returned by the end of that turn.
pub admit_ends :
    (o : Options) (a : Arrival) (first : Result Session) (queued_once : ℕ → List ℕ → Result Session)
    (rounds : ℕ → Round) (n : ℕ) (stop : Error)
    → queue_wait_error (rounds n).before ≡ some stop
    → (r : Result Session) × (admit o a first queued_once rounds (suc n) ≡ some r)
unfolding admit
admit_ends o a first queued_once rounds n stop h =
    let (r, q) =
      wait_ends_by queued_once rounds n 0 [] stop
        (subst (λ m. queue_wait_error (rounds m).before ≡ some stop) (omega arith) h) in
    let (r', q') = after_first-some o a first r in
    let e : after_first o a first (wait_in_queue queued_once rounds (suc n) 0 []) ≡ some r' =
      ap (after_first o a first) q ∙ q' in
    elim (Bool-cases a.draining_before) [
      | inl d ↦ (err Error.draining, ground arith)
      | inr d ↦ (r', ground arith)
    ]

-- Once the signals tell a turn of the queue to stop, because the request's context or its wait has
-- ended or the server drains, Admit has returned by the end of that turn, and what it returns is
-- never a want of capacity: a session, or that the queue is full, that the wait ended, that the
-- server drains, or what failed.
pub admit_answers :
    (o : Options) (a : Arrival) (once : ℕ → List ℕ → Result Session) (waits : ℕ → Option Fault)
    (queued_once : ℕ → List ℕ → Result Session) (rounds : ℕ → Round) (n : ℕ) (stop : Error)
    → queue_wait_error (rounds n).before ≡ some stop
    → (r : Result Session) × ((admit o a (claim once waits) queued_once rounds (suc n) ≡ some r)
        × ((r ≢ err no_capacity) × ((id : ℕ) → r ≢ err (worker_full id))))
admit_answers o a once waits queued_once rounds n stop h =
    let (r, e) = admit_ends o a (claim once waits) queued_once rounds n stop h in
    (r, (e, admit_final o a once waits queued_once rounds (suc n) r e))
