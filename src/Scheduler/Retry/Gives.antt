-- ===== src/Scheduler/Retry/Gives.antt =====
-- What session a claim gives.
use playwright_distributed.Base.{
  Fault, no_capacity, worker_full, fault, uncertain_commit, Result, ok, err, Result-cases, ℕ, zero,
  suc, ◌+◌, ◌≡◌, refl, sym, ap, ◌∙◌, subst, ◌≢◌, inl, inr, Bool, Option, some, List, [], ◌∷◌, ◌++◌,
  arith, leb, Option-cases, if-cases, All, Bytes,
}
use playwright_distributed.Db.Models.{pending, Session, Worker, Database}
use playwright_distributed.Db.Sessions.{
  InsertClaimedSessionParams, claimed_session, insert_claimed_session,
}
use playwright_distributed.Db.Workers.{
  count_active_sessions_by_worker, increment_worker_lifetime_sessions, select_claimable_worker,
}
use playwright_distributed.Db.Workers.Selection.{IsWanted, select_claimable_worker-best}
use playwright_distributed.Scheduler.Settings.{Options, ClaimRequest}
use playwright_distributed.Scheduler.Claim.{
  Phase, beginning, selecting, locking, recounting, inserting, incrementing, committing, finished,
  Write, insert_session, increment_lifetime, Claim, new_claim, apply_writes, claim_params,
  select_params, on_answer, on_fault, claim_trip,
}
use playwright_distributed.Scheduler.Retry.{Moment, run_trips, claim_trips, claim, Env, claim_once}
use playwright_distributed.Db.Driver.{Reply, delivered, refused, lost}
use playwright_distributed.Scheduler.Retry.Attempts.{
  Leads, Ends, success, error, full, empty, interrupted, claim_lem,
}
use playwright_distributed.Scheduler.Retry.Trips.{claim_once_finishes}

-- A pending session for the request, on a worker that was not excluded.
pub record IsGiven (o : Options) (request : ClaimRequest) (excluded : List ℕ) (id now : ℕ)
    (s : Session) : Type 0 where
  pub same_id : s.id ≡ id
  pub waits : s.status ≡ pending
  pub expires : s.expires_at ≡ some (now + o.pending_session_ttl)
  pub same_browser : s.browser ≡ request.browser
  pub has_version : (rest : Bytes) × (s.playwright_version ≡ request.version_prefix ++ rest)
  pub by_key : s.created_by_key ≡ request.created_by_key
  pub not_excluded : All (λ x. x ≢ s.worker_id) excluded

pub insert_claimed_session_ok :
    (now : ℕ) (p : InsertClaimedSessionParams) (db : Database) (s : Session)
    → (insert_claimed_session now p db).0 ≡ ok s
    → s ≡ claimed_session now p
unfolding insert_claimed_session
insert_claimed_session_ok now p db s h = ground arith

module _ (o : Options) (request : ClaimRequest) (excluded : List ℕ) (id now : ℕ) where
  -- The claim in a phase.
  abbrev claim_at : Phase → List Write → Claim
  claim_at phase writes = record {
    request = request;
    excluded = excluded;
    session_id = id;
    now = now;
    phase = phase;
    writes = writes;
  }

  abbrev Picked : Worker → Type 0
  Picked w = IsWanted now (select_params o (claim_at beginning [])) w

  -- The worker of a phase meets the request, and its session is for the request.
  abbrev Gives : Phase → Type 0
  Gives (recounting w) = Picked w
  Gives (inserting w) = Picked w
  Gives (incrementing w s) = IsGiven o request excluded id now s
  Gives (committing w s) = IsGiven o request excluded id now s
  Gives (finished (ok s)) = IsGiven o request excluded id now s
  Gives phase = Unit

  abbrev Goes : Claim → Type 0
  Goes c = (phase : Phase) × ((writes : List Write) × ((c ≡ claim_at phase writes) × Gives phase))

  given :
      (w : Worker) (s : Session)
      → Picked w
      → s ≡ claimed_session now (claim_params o (claim_at (inserting w) []) w)
      → IsGiven o request excluded id now s
  given w s p e = rw e (record {
    same_id = refl;
    waits = refl;
    expires = refl;
    same_browser = p.same_browser;
    has_version = p.has_version;
    by_key = refl;
    not_excluded = p.not_excluded;
  })

  on_answer-Goes :
      (locked : ℕ → Bool) (phase : Phase) (writes : List Write) (db : Database)
      → Gives phase
      → Goes (on_answer o locked phase db (claim_at phase writes))
  unfolding on_answer
  on_answer-Goes locked beginning writes db g = (selecting, (writes, (refl, tt)))
  on_answer-Goes locked selecting writes db g = (locking db, (writes, (refl, tt)))
  on_answer-Goes locked (locking snapshot) writes db g =
      elim (Option-cases (
        select_claimable_worker locked now (select_params o (claim_at beginning [])) snapshot db)) [
          | inl n ↦ rw (on_answer, n) (finished (err no_capacity), ([], (refl, tt)))
          | inr (w, n) ↦
              let (v, chosen) =
                select_claimable_worker-best locked now (select_params o (claim_at beginning []))
                  snapshot db w n in
              rw (on_answer, n) (recounting w, (writes, (refl, chosen.wanted)))
        ]
  on_answer-Goes locked (recounting w) writes db g =
      if-cases Goes (leb w.max_slots (count_active_sessions_by_worker w.id db)) _ _
        (λ _. (finished (err (worker_full w.id)), ([], (refl, tt))))
        (λ _. (inserting w, (writes, (refl, g))))
  on_answer-Goes locked (inserting w) writes db g =
      elim (Result-cases
        (insert_claimed_session now (claim_params o (claim_at (inserting w) writes) w) db).0) [
          | inl (s, n) ↦
              rw (on_answer, n)
                (
                  incrementing w s,
                  (
                    insert_session s ∷ [],
                    (
                      refl,
                      given w s g (
                          insert_claimed_session_ok now
                            (claim_params o (claim_at (inserting w) writes) w) db s n),
                    ),
                  ),
                )
          | inr (z, n) ↦ rw (on_answer, n) (finished (err z), ([], (refl, tt)))
        ]
  on_answer-Goes locked (incrementing w s) writes db g =
      elim (Result-cases (increment_worker_lifetime_sessions w.id db).0) [
        | inl (w', n) ↦
            rw (on_answer, n)
              (committing w s, (insert_session s ∷ increment_lifetime w.id ∷ [], (refl, g)))
        | inr (z, n) ↦ rw (on_answer, n) (finished (err z), ([], (refl, tt)))
      ]
  on_answer-Goes locked (committing w s) writes db g = (finished (ok s), ([], (refl, g)))
  on_answer-Goes locked (finished r) writes db g = (finished r, (writes, (refl, g)))

  on_fault-Goes :
      (phase : Phase) (f : Fault) (writes : List Write)
      → Gives phase
      → Goes (on_fault phase f (claim_at phase writes))
  on_fault-Goes (committing w s) f writes g =
      (finished (err (uncertain_commit f)), ([], (refl, tt)))
  on_fault-Goes (finished r) f writes g = (finished r, (writes, (refl, g)))
  on_fault-Goes phase f writes g = (finished (err (fault f)), ([], (refl, tt)))

  claim_trip-Goes :
      (locked : ℕ → Bool) (reply : Reply) (db : Database) (phase : Phase) (writes : List Write)
      → Gives phase
      → Goes (claim_trip o locked reply db (claim_at phase writes)).1
  unfolding claim_trip
  claim_trip-Goes locked delivered db phase writes g =
      on_answer-Goes locked phase writes (apply_writes writes db) g
  claim_trip-Goes locked (refused f) db phase writes g = on_fault-Goes phase f writes g
  claim_trip-Goes locked (lost f) db phase writes g = on_fault-Goes phase f writes g

  run_trips-Goes :
      (n : ℕ) (at : ℕ → Moment) (phase : Phase) (writes : List Write)
      → Gives phase
      → Goes (run_trips o n at (claim_at phase writes))
  unfolding run_trips
  run_trips-Goes zero at phase writes g = (phase, (writes, (refl, g)))
  run_trips-Goes (suc n) at phase writes g =
      let (phase', (writes', (same, g'))) =
        claim_trip-Goes (at 0).locked (at 0).reply (at 0).db phase writes g in
      rw same (run_trips-Goes n (λ i. at (suc i)) phase' writes' g')

claim_once_gives :
    (o : Options) (request : ClaimRequest) (env : Env) (attempt : ℕ) (excluded : List ℕ)
    (s : Session)
    → claim_once o request env attempt excluded ≡ ok s
    → IsGiven o request excluded (env.session_ids attempt) (env.times attempt) s
unfolding new_claim
claim_once_gives o request env attempt excluded s h =
    let id = env.session_ids attempt in
    let now = env.times attempt in
    let (phase, (writes, (same, g))) =
      run_trips-Goes o request excluded id now claim_trips (env.moments attempt) beginning [] tt in
    let ends : phase ≡ finished (ok s) =
      sym (ap (λ c. c.phase) same)
      ∙ (claim_once_finishes o request env attempt excluded ∙ ap finished h) in
    subst (Gives o request excluded id now) ends g

Ends-ok :
    (once : ℕ → List ℕ → Result Session) (waits : ℕ → Option Fault) (k : ℕ) (seen : List ℕ)
    (last : Bool) (r : Result Session) (s : Session)
    → Ends once waits k seen last r
    → r ≡ ok s
    → once k seen ≡ ok s
Ends-ok once waits k seen last _ s (success t e) h = e ∙ h
Ends-ok once waits k seen last _ s (error e q f g) h = cc
Ends-ok once waits k seen last _ s (full id l q) h = cc
Ends-ok once waits k seen last _ s (empty l q) h = cc
Ends-ok once waits k seen last _ s (interrupted f l q w) h = cc

-- The session that Claim gives was made by an attempt that the attempts before it lead to: it is
-- pending, has the id of that attempt and expires after the pending time to live, is of the
-- browser, of a version with the prefix and of the key of the request, and stands on a worker that
-- none of the attempts before found full, whatever other transactions do between the round trips.
pub claim_gives :
    (o : Options) (request : ClaimRequest) (env : Env) (s : Session)
    → claim (claim_once o request env) env.waits ≡ ok s
    → (attempt : ℕ) × ((found_full : List ℕ) × (Leads
            (claim_once o request env)
            env.waits
            0
            []
            attempt
            found_full
          × IsGiven o request found_full (env.session_ids attempt) (env.times attempt) s))
claim_gives o request env s h =
    let (k, (seen, (l, (lt, e)))) = claim_lem (claim_once o request env) env.waits in
    (
      k,
      (
        seen,
        (
          l,
          claim_once_gives o request env k seen s
              (Ends-ok (claim_once o request env) env.waits k seen _ _ s e h),
        ),
      ),
    )
