-- ===== src/Scheduler/Retry/Trips.antt =====
-- A claim attempt ends within its seven round trips.
use playwright_distributed.Scheduler.Settings.{Options, ClaimRequest}
use playwright_distributed.Base.{
  Fault, Result-cases, ℕ, zero, suc, ◌-◌, ◌≤◌, ◌≡◌, refl, inl, inr, Bool, List, arith, Option-cases,
}
use playwright_distributed.Scheduler.Claim.{
  Phase, beginning, selecting, locking, recounting, inserting, incrementing, committing, finished,
  Claim, new_claim, apply_writes, claim_params, select_params, on_answer, on_fault, claim_trip,
}
use playwright_distributed.Scheduler.Retry.{
  Moment, run_trips, claim_trips, result_of, Env, claimed, claim_once,
}
use playwright_distributed.Db.Workers.{increment_worker_lifetime_sessions, select_claimable_worker}
use playwright_distributed.Db.Models.{Database}
use playwright_distributed.Db.Driver.{Reply, delivered, refused, lost}
use playwright_distributed.Db.Sessions.{insert_claimed_session}

-- How many round trips a phase still has, at most.
abbrev trips_left : Phase → ℕ
trips_left beginning = 7
trips_left selecting = 6
trips_left (locking snapshot) = 5
trips_left (recounting w) = 4
trips_left (inserting w) = 3
trips_left (incrementing w s) = 2
trips_left (committing w s) = 1
trips_left (finished r) = 0

on_answer-trips_left :
    (o : Options) (locked : ℕ → Bool) (p : Phase) (db : Database) (c : Claim)
    → c.phase ≡ p
    → trips_left (on_answer o locked p db c).phase ≤ trips_left p - 1
unfolding on_answer
on_answer-trips_left o locked beginning db c e = omega arith
on_answer-trips_left o locked selecting db c e = omega arith
on_answer-trips_left o locked (locking snapshot) db c e =
    elim (Option-cases (select_claimable_worker locked c.now (select_params o c) snapshot db)) [
      | inl n ↦ ground arith
      | inr (w, n) ↦ ground arith
    ]
on_answer-trips_left o locked (recounting w) db c e = ground arith
on_answer-trips_left o locked (inserting w) db c e =
    elim (Result-cases (insert_claimed_session c.now (claim_params o c w) db).0) [
      | inl (s, n) ↦ ground arith
      | inr (x, n) ↦ ground arith
    ]
on_answer-trips_left o locked (incrementing w s) db c e =
    elim (Result-cases (increment_worker_lifetime_sessions w.id db).0) [
      | inl (s, n) ↦ ground arith
      | inr (x, n) ↦ ground arith
    ]
on_answer-trips_left o locked (committing w s) db c e = omega arith
on_answer-trips_left o locked (finished r) db c e = rw e (omega arith)

on_fault-trips_left :
    (p : Phase) (f : Fault) (c : Claim)
    → c.phase ≡ p
    → trips_left (on_fault p f c).phase ≤ trips_left p - 1
on_fault-trips_left (committing w s) f c e = omega arith
on_fault-trips_left (finished r) f c e = rw e (omega arith)
on_fault-trips_left _ f c e = omega arith

claim_trip-trips_left :
    (o : Options) (locked : ℕ → Bool) (reply : Reply) (db : Database) (c : Claim)
    → trips_left (claim_trip o locked reply db c).1.phase ≤ trips_left c.phase - 1
unfolding claim_trip
claim_trip-trips_left o locked delivered db c =
    on_answer-trips_left o locked c.phase (apply_writes c.writes db) c refl
claim_trip-trips_left o locked (refused f) db c = on_fault-trips_left c.phase f c refl
claim_trip-trips_left o locked (lost f) db c = on_fault-trips_left c.phase f c refl

run_trips-trips_left :
    (o : Options) (n : ℕ) (at : ℕ → Moment) (c : Claim)
    → trips_left (run_trips o n at c).phase ≤ trips_left c.phase - n
unfolding run_trips
run_trips-trips_left o zero at c = omega arith
run_trips-trips_left o (suc n) at c = omega (
  arith,
  run_trips-trips_left o n (λ i. at (suc i))
      (claim_trip o (at 0).locked (at 0).reply (at 0).db c).1,
  claim_trip-trips_left o (at 0).locked (at 0).reply (at 0).db c,
)

finished_of : (p : Phase) → trips_left p ≡ 0 → p ≡ finished (result_of p)
finished_of (finished r) h = refl
finished_of beginning h = absurd (omega arith)
finished_of selecting h = absurd (omega arith)
finished_of (locking snapshot) h = absurd (omega arith)
finished_of (recounting w) h = absurd (omega arith)
finished_of (inserting w) h = absurd (omega arith)
finished_of (incrementing w s) h = absurd (omega arith)
finished_of (committing w s) h = absurd (omega arith)

-- Whatever other transactions do between its round trips and whichever replies fail, a claim attempt
-- is finished after its seven round trips, with the result that the loop of Claim reads.
pub claim_once_finishes :
    (o : Options) (request : ClaimRequest) (env : Env) (attempt : ℕ) (excluded : List ℕ)
    → (claimed o request env attempt excluded).phase
      ≡ finished (claim_once o request env attempt excluded)
unfolding claim_once new_claim
claim_once_finishes o request env attempt excluded =
    finished_of (claimed o request env attempt excluded).phase (
      omega (
        arith,
        run_trips-trips_left o claim_trips (env.moments attempt)
            (new_claim request excluded (env.session_ids attempt) (env.times attempt)),
      ))
