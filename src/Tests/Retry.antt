-- ===== src/Tests/Retry.antt =====
-- Claim on the shared store, whose worker 2 fills up between the snapshot and the recount.
use playwright_distributed.Base.{
  no_capacity, worker_full, ok, err, ℕ, ◌+◌, ◌<◌, ◌≡◌, refl, false, none, some, List, [], ◌∷◌, leb,
  ◌==◌, if◌then◌else◌,
}
use playwright_distributed.Tests.Data.{session_row, store, request, options}
use playwright_distributed.Scheduler.Retry.{
  Moment, run_trips, claim_trips, claim_from, claim, Env, claim_once,
}
use playwright_distributed.Db.Models.{pending, Session, Database}
use playwright_distributed.Db.Driver.{delivered}
use playwright_distributed.Scheduler.Retry.Attempts.{
  Leads, stays, after_full, Ends, IsEnded, claim_lem,
}
use playwright_distributed.Scheduler.Claim.{new_claim, apply_writes, on_answer, claim_trip}
use playwright_distributed.Scheduler.Retry.Effects.{Tells, claim_once_effects}
use playwright_distributed.Scheduler.Retry.Exclusion.{FindsAnew, claim_excludes}
use playwright_distributed.Db.Workers.{
  count_active_sessions_by_worker, increment_worker_lifetime_sessions, goes_first,
  select_claimable_worker,
}
use playwright_distributed.Scheduler.Retry.Gives.{IsGiven, claim_gives}
use playwright_distributed.Db.Sessions.{insert_claimed_session}

abbrev full_store : Database
full_store = record store { sessions = session_row 13 2 ∷ store.sessions }

abbrev filling : ℕ → Moment
filling n = record {
  locked = λ id. false;
  db = if leb n 1 then store else full_store;
  reply = delivered;
}

abbrev env : Env
env = record {
  moments = λ attempt. filling;
  session_ids = λ attempt. 30 + attempt;
  times = λ attempt. 120 + attempt;
  waits = λ attempt. none;
}

first_full : claim_once options request env 0 [] ≡ err (worker_full 2)
unfolding claim_once run_trips new_claim select_claimable_worker count_active_sessions_by_worker
    goes_first claim_trip on_answer apply_writes
first_full = refl

-- Worker 2 is excluded after the first attempt, and no other one has a free slot.
claim_none : claim (claim_once options request env) env.waits ≡ err no_capacity
unfolding claim claim_from claim_once run_trips new_claim select_claimable_worker
    count_active_sessions_by_worker goes_first claim_trip on_answer apply_writes
claim_none = refl

claim_lem_example :
    IsEnded
      (claim_once options request env)
      env.waits
      0
      []
      0
      8
      (claim (claim_once options request env) env.waits)
claim_lem_example = claim_lem (claim_once options request env) env.waits

one_full : Leads (claim_once options request env) env.waits 0 [] 1 (2 ∷ [])
one_full = after_full 0 [] 2 stays first_full

claim_excludes_example :
    (k : ℕ) × ((seen : List ℕ) × (Leads (claim_once options request env) env.waits 0 [] k seen
        × ((k < 8)
            × (Ends
                  (claim_once options request env)
                  env.waits
                  k
                  seen
                  (k + 1 == 8)
                  (claim (claim_once options request env) env.waits)
                × FindsAnew (claim_once options request env) k seen))))
claim_excludes_example = claim_excludes options request env

-- Nobody takes the free slot of worker 2.
abbrev quiet_env : Env
quiet_env = record env {
  moments = λ attempt n. record { locked = λ id. false; db = store; reply = delivered };
}

abbrev given_session : Session
given_session = record (session_row 30 2) {
  status = pending;
  created_at = 120;
  started_at = none;
  expires_at = some 150;
  last_heartbeat = 120;
}

claim_some : claim (claim_once options request quiet_env) quiet_env.waits ≡ ok given_session
unfolding claim claim_from claim_once run_trips new_claim select_claimable_worker
    count_active_sessions_by_worker goes_first claim_trip on_answer apply_writes
    insert_claimed_session increment_worker_lifetime_sessions
claim_some = refl

claim_gives_example :
    (attempt : ℕ) × ((found_full : List ℕ) × (Leads
          (claim_once options request quiet_env)
          quiet_env.waits
          0
          []
          attempt
          found_full
        × IsGiven options request found_full
            (quiet_env.session_ids attempt)
            (quiet_env.times attempt)
            given_session))
claim_gives_example = claim_gives options request quiet_env given_session claim_some

-- The first attempt stores the session that it returns, once.
claim_once_effects_example :
    Tells options claim_trips
      (quiet_env.moments 0)
      (new_claim request [] 30 120)
      (claim_once options request quiet_env 0 [])
claim_once_effects_example = claim_once_effects options request quiet_env 0 []
