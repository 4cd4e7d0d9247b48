-- ===== src/Scheduler/Retry/Effects.antt =====
-- What a claim attempt does to the committed tables.
use playwright_distributed.Base.{
  Fault, Error, no_rows, fault, uncertain_commit, Result, ok, err, Result-cases, ℕ, zero, suc, ◌+◌,
  ◌≡◌, refl, sym, ap, subst, ◌⊎◌, inl, inr, Bool, none, List, [], ◌∷◌, ◌++◌, arith, leb, ◌==◌,
  Bool-cases, Option-cases, update, find,
}
use playwright_distributed.Db.Models.{Session, Worker, Database}
use playwright_distributed.Db.Sessions.{insert_claimed_session}
use playwright_distributed.Db.Workers.{
  count_active_sessions_by_worker, increment_worker_lifetime_sessions, select_claimable_worker,
}
use playwright_distributed.Scheduler.Settings.{Options, ClaimRequest}
use playwright_distributed.Scheduler.Claim.{
  Phase, beginning, selecting, locking, recounting, inserting, incrementing, committing, finished,
  Write, insert_session, increment_lifetime, Claim, new_claim, apply_write, apply_writes,
  claim_params, select_params, on_answer, claim_trip,
}
use playwright_distributed.Scheduler.Retry.{Moment, run_trips, claim_trips, Env, claim_once}
use playwright_distributed.Db.Driver.{Reply, delivered, refused, lost}
use playwright_distributed.Scheduler.Retry.Trips.{claim_once_finishes}
use playwright_distributed.Scheduler.Retry.Gives.{insert_claimed_session_ok}

-- The tables with the row of a session more, and one session more in its worker's lifetime.
abbrev pub stored : Session → Database → Database
stored s db = record db {
  sessions = db.sessions ++ (s ∷ []);
  workers =
      update (λ w. w.id == s.worker_id)
        (λ w. record w { lifetime_sessions = w.lifetime_sessions + 1 }) db.workers;
}

module _ (o : Options) where
  -- None of the next round trips changes the committed tables.
  abbrev pub Untouched : ℕ → (ℕ → Moment) → Claim → Type 0
  Untouched zero at c = Unit
  Untouched (suc n) at c =
      ((claim_trip o (at 0).locked (at 0).reply (at 0).db c).0 ≡ (at 0).db)
      × Untouched n (λ i. at (suc i)) (claim_trip o (at 0).locked (at 0).reply (at 0).db c).1

  -- One of the next round trips stores the session, and no other one changes the committed tables.
  abbrev pub StoredOnce : ℕ → (ℕ → Moment) → Claim → Session → Type 0
  StoredOnce zero at c s = ⊥
  StoredOnce (suc n) at c s =
      (((claim_trip o (at 0).locked (at 0).reply (at 0).db c).0 ≡ (at 0).db)
        × StoredOnce n (λ i. at (suc i)) (claim_trip o (at 0).locked (at 0).reply (at 0).db c).1 s)
      ⊎ (((claim_trip o (at 0).locked (at 0).reply (at 0).db c).0 ≡ stored s (at 0).db)
          × Untouched n (λ i. at (suc i)) (claim_trip o (at 0).locked (at 0).reply (at 0).db c).1)

  -- What the result of a claim tells of its round trips.
  abbrev pub Tells : ℕ → (ℕ → Moment) → Claim → Result Session → Type 0
  Tells n at c (ok s) = StoredOnce n at c s
  Tells n at c (err (uncertain_commit f)) = Untouched n at c ⊎ ((s : Session) × StoredOnce n at c s)
  Tells n at c (err e) = Untouched n at c

  abbrev TellsOf : ℕ → (ℕ → Moment) → Claim → Phase → Type 0
  TellsOf n at c (finished r) = Tells n at c r
  TellsOf n at c _ = Unit

-- A claim under way, and what it has written.
abbrev IsReady : Phase → List Write → Type 0
IsReady (finished r) writes = ⊥
IsReady (incrementing w s) writes = s.worker_id ≡ w.id
IsReady (committing w s) writes = writes ≡ insert_session s ∷ increment_lifetime s.worker_id ∷ []
IsReady _ writes = Unit

abbrev IsNext : Phase → Claim → Type 0
IsNext (committing w s) c = c.phase ≡ finished (ok s)
IsNext _ c = IsReady c.phase c.writes ⊎ ((e : Error) × (c.phase ≡ finished (err e)))

update_missing :
    (p : Worker → Bool) (f : Worker → Worker) (ws : List Worker)
    → find p ws ≡ none
    → update p f ws ≡ ws
update_missing p f [] h = refl
update_missing p f (w ∷ ws) h = elim (Bool-cases (p w)) [
  | inl e ↦ absurd (ground arith)
  | inr e ↦ ground (arith, update_missing p f ws)
]

apply_writes-stored :
    (s : Session) (db : Database)
    → apply_writes (insert_session s ∷ increment_lifetime s.worker_id ∷ []) db ≡ stored s db
unfolding apply_writes apply_write increment_worker_lifetime_sessions
apply_writes-stored s db = elim (Option-cases (find (λ w. w.id == s.worker_id) db.workers)) [
  | inl n ↦ ground (
    arith,
    update_missing (λ w. w.id == s.worker_id)
        (λ w. record w { lifetime_sessions = w.lifetime_sessions + 1 }) db.workers n,
  )
  | inr (w, n) ↦ ground arith
]

module _ (o : Options) (locked : ℕ → Bool) where
  on_answer-IsNext :
      (p : Phase) (db : Database) (c : Claim)
      → IsReady p c.writes
      → IsNext p (on_answer o locked p db c)
  unfolding on_answer
  on_answer-IsNext beginning db c h = inl tt
  on_answer-IsNext selecting db c h = inl tt
  on_answer-IsNext (locking snapshot) db c h =
      elim (Option-cases (select_claimable_worker locked c.now (select_params o c) snapshot db)) [
        | inl n ↦ rw (on_answer, n) (inr (_, refl))
        | inr (w, n) ↦ rw (on_answer, n) (inl tt)
      ]
  on_answer-IsNext (recounting w) db c h =
      elim (Bool-cases (leb w.max_slots (count_active_sessions_by_worker w.id db))) [
        | inl n ↦ rw (on_answer, n) (inr (_, refl))
        | inr n ↦ rw (on_answer, n) (inl tt)
      ]
  on_answer-IsNext (inserting w) db c h =
      elim (Result-cases (insert_claimed_session c.now (claim_params o c w) db).0) [
        | inl (s, n) ↦
            rw (on_answer, n)
              (inl (
                ap (λ x. x.worker_id)
                  (insert_claimed_session_ok c.now (claim_params o c w) db s n)))
        | inr (e, n) ↦ rw (on_answer, n) (inr (e, refl))
      ]
  on_answer-IsNext (incrementing w s) db c h =
      elim (Result-cases (increment_worker_lifetime_sessions w.id db).0) [
        | inl (v, n) ↦
            rw (on_answer, n)
              (inl (ap (λ id. insert_session s ∷ increment_lifetime id ∷ []) (sym h)))
        | inr (e, n) ↦ rw (on_answer, n) (inr (e, refl))
      ]
  on_answer-IsNext (committing w s) db c h = refl
  on_answer-IsNext (finished r) db c h = elim h [ ]

module _ (o : Options) (locked : ℕ → Bool) where
  finished_trip :
      (reply : Reply) (db : Database) (c : Claim) (r : Result Session)
      → c.phase ≡ finished r
      → ((claim_trip o locked reply db c).0 ≡ db)
        × ((claim_trip o locked reply db c).1.phase ≡ finished r)
  unfolding claim_trip
  finished_trip delivered db c r e = rw (e, on_answer) (refl, refl)
  finished_trip (refused f) db c r e = rw e (refl, refl)
  finished_trip (lost f) db c r e = rw e (refl, refl)

  -- A round trip that leaves the committed tables and the claim under way, or ends it in an error, or
  -- is a commit that runs.
  IsStep : Reply → Database → Claim → Type 0
  IsStep reply db c =
      (((claim_trip o locked reply db c).0 ≡ db)
        × (IsReady (claim_trip o locked reply db c).1.phase
              (claim_trip o locked reply db c).1.writes
            ⊎ ((e : Error) × ((claim_trip o locked reply db c).1.phase ≡ finished (err e)))))
      ⊎ ((s : Session) × (((claim_trip o locked reply db c).0 ≡ stored s db)
            × (((claim_trip o locked reply db c).1.phase ≡ finished (ok s))
                ⊎ ((f : Fault) × ((claim_trip o locked reply db c).1.phase
                      ≡ finished (err (uncertain_commit f)))))))

  claim_trip-IsStep :
      (reply : Reply) (db : Database) (c : Claim) (p : Phase)
      → c.phase ≡ p
      → IsReady p c.writes
      → IsStep reply db c
  unfolding IsStep claim_trip
  claim_trip-IsStep delivered db c (committing w s) e h = inr (
    s,
    (
      rw (e, h) (apply_writes-stored s db),
      inl (rw e (on_answer-IsNext o locked (committing w s) (apply_writes c.writes db) c h)),
    ),
  )
  claim_trip-IsStep (refused f) db c (committing w s) e h =
      inl (refl, inr (uncertain_commit f, rw e refl))
  claim_trip-IsStep (lost f) db c (committing w s) e h =
      inr (s, (rw (e, h) (apply_writes-stored s db), inr (f, rw e refl)))
  claim_trip-IsStep reply db c (finished r) e h = elim h [ ]
  claim_trip-IsStep delivered db c p e h =
      inl (rw e refl, rw e (on_answer-IsNext o locked p (apply_writes c.writes db) c h))
  claim_trip-IsStep (refused f) db c p e h = inl (refl, inr (fault f, rw e refl))
  claim_trip-IsStep (lost f) db c p e h = inl (rw e refl, inr (fault f, rw e refl))

module _ (o : Options) where
  finished-Untouched :
      (n : ℕ) (at : ℕ → Moment) (c : Claim) (r : Result Session)
      → c.phase ≡ finished r
      → Untouched o n at c × ((run_trips o n at c).phase ≡ finished r)
  unfolding run_trips
  finished-Untouched zero at c r e = (tt, e)
  finished-Untouched (suc n) at c r e =
      let (kept, still) = finished_trip o (at 0).locked (at 0).reply (at 0).db c r e in
      let (u, ends) = finished-Untouched n (λ i. at (suc i)) _ r still in ((kept, u), ends)

  Tells-later :
      (n : ℕ) (at : ℕ → Moment) (c : Claim) (p : Phase)
      → (claim_trip o (at 0).locked (at 0).reply (at 0).db c).0 ≡ (at 0).db
      → TellsOf o n (λ i. at (suc i)) (claim_trip o (at 0).locked (at 0).reply (at 0).db c).1 p
      → TellsOf o (suc n) at c p
  Tells-later n at c (finished (ok s)) e t = inl (e, t)
  Tells-later n at c (finished (err (uncertain_commit f))) e (inl u) = inl (e, u)
  Tells-later n at c (finished (err (uncertain_commit f))) e (inr (s, t)) = inr (s, inl (e, t))
  Tells-later n at c (finished (err no_rows)) e u = (e, u)
  Tells-later n at c (finished (err _)) e u = (e, u)
  Tells-later n at c _ e u = tt

  ready-Tells :
      (at : ℕ → Moment) (c : Claim) (p : Phase) → IsReady p c.writes → TellsOf o zero at c p
  ready-Tells at c (finished r) h = elim h [ ]
  ready-Tells at c _ h = tt

  err-Tells :
      (n : ℕ) (at : ℕ → Moment) (c : Claim) (e : Error)
      → Untouched o n at c
      → Tells o n at c (err e)
  err-Tells n at c (uncertain_commit f) u = inl u
  err-Tells n at c _ u = u

module _ (o : Options) where
  run_trips-Tells :
      (n : ℕ) (at : ℕ → Moment) (c : Claim)
      → IsReady c.phase c.writes
      → TellsOf o n at c (run_trips o n at c).phase
  unfolding run_trips IsStep
  run_trips-Tells zero at c h = ready-Tells o at c c.phase h
  run_trips-Tells (suc n) at c h =
      let after = (claim_trip o (at 0).locked (at 0).reply (at 0).db c).1 in
      elim (claim_trip-IsStep o (at 0).locked (at 0).reply (at 0).db c c.phase refl h) [
        | inl (kept, inl ready) ↦
            Tells-later o n at c _ kept (run_trips-Tells n (λ i. at (suc i)) after ready)
        | inl (kept, inr (e, ends)) ↦
            let (u, still) = finished-Untouched o n (λ i. at (suc i)) after (err e) ends in
            rw still (err-Tells o (suc n) at c e (kept, u))
        | inr (s, (does, inl ends)) ↦
            let (u, still) = finished-Untouched o n (λ i. at (suc i)) after (ok s) ends in
            rw still (inr (does, u))
        | inr (s, (does, inr (f, ends))) ↦
            let (u, still) =
              finished-Untouched o n (λ i. at (suc i)) after (err (uncertain_commit f)) ends in
            rw still (inr (s, inr (does, u)))
      ]

-- Whatever other transactions do between its round trips and whichever replies fail, a claim
-- attempt that returns a session has, in exactly one of its round trips, added the row of that
-- session to the committed tables and one to the lifetime sessions of the worker of that row, and
-- has changed nothing in the others; an attempt that fails has changed nothing in any of them,
-- unless its error is that of an uncertain commit, when it has changed nothing or stored one
-- session in that way.
pub claim_once_effects :
    (o : Options) (request : ClaimRequest) (env : Env) (attempt : ℕ) (excluded : List ℕ)
    → Tells o claim_trips
        (env.moments attempt)
        (new_claim request excluded (env.session_ids attempt) (env.times attempt))
        (claim_once o request env attempt excluded)
unfolding new_claim
claim_once_effects o request env attempt excluded =
    subst
      (TellsOf o claim_trips (env.moments attempt)
        (new_claim request excluded (env.session_ids attempt) (env.times attempt)))
      (claim_once_finishes o request env attempt excluded)
      (run_trips-Tells o claim_trips (env.moments attempt)
        (new_claim request excluded (env.session_ids attempt) (env.times attempt)) tt)
