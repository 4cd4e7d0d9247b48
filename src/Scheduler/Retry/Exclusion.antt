-- ===== src/Scheduler/Retry/Exclusion.antt =====
-- Claim never finds one worker full twice.
use playwright_distributed.Base.{
  Fault, unavailable, Error, no_rows, worker_full, fault, Result, err, Result-cases, ℕ, zero, suc,
  ◌+◌, ◌≤◌, ◌<◌, ◌≡◌, refl, ap, ◌∙◌, subst, ◌≢◌, inl, inr, Bool, true, false, List, [], ◌∷◌, ◌++◌,
  arith, leb, ◌==◌, Bool-cases, Option-cases, count, All, count-append, All-mono, count-zero, find,
}
use playwright_distributed.Scheduler.Settings.{Options, ClaimRequest}
use playwright_distributed.Scheduler.Claim.{
  Phase, beginning, selecting, locking, recounting, inserting, incrementing, committing, finished,
  Claim, new_claim, apply_writes, claim_params, select_params, on_answer, on_fault, claim_trip,
}
use playwright_distributed.Db.Workers.Selection.{select_claimable_worker-best}
use playwright_distributed.Db.Driver.{Reply, delivered, refused, lost}
use playwright_distributed.Scheduler.Retry.{Moment, run_trips, claim_trips, claim, Env, claim_once}
use playwright_distributed.Db.Workers.{
  count_active_sessions_by_worker, increment_worker_lifetime_sessions, select_claimable_worker,
}
use playwright_distributed.Scheduler.Retry.Trips.{claim_once_finishes}
use playwright_distributed.Scheduler.Retry.Attempts.{
  Leads, stays, after_full, after_wait, Ends, claim_lem,
}
use playwright_distributed.Db.Models.{Session, Database}
use playwright_distributed.Db.Sessions.{InsertClaimedSessionParams, insert_claimed_session}

-- The worker that a phase has chosen, or found full, is not an excluded one.
abbrev Fresh : List ℕ → Phase → Type 0
Fresh ex (recounting w) = All (λ id. id ≢ w.id) ex
Fresh ex (finished (err (worker_full id))) = All (λ x. x ≢ id) ex
Fresh ex _ = Unit

abbrev IsFresh : List ℕ → Claim → Type 0
IsFresh ex c = (c.excluded ≡ ex) × Fresh ex c.phase

insert_claimed_session_err :
    (now : ℕ) (p : InsertClaimedSessionParams) (db : Database) (e : Error)
    → (insert_claimed_session now p db).0 ≡ err e
    → e ≡ fault unavailable
unfolding insert_claimed_session
insert_claimed_session_err now p db e h = ground arith

increment_worker_lifetime_sessions_err :
    (id : ℕ) (db : Database) (e : Error)
    → (increment_worker_lifetime_sessions id db).0 ≡ err e
    → e ≡ no_rows
unfolding increment_worker_lifetime_sessions
increment_worker_lifetime_sessions_err id db e h =
    elim (Option-cases (find (λ w. w.id == id) db.workers)) [
      | inl n ↦ ground arith
      | inr (w, n) ↦ ground arith
    ]

module _ (o : Options) (locked : ℕ → Bool) (ex : List ℕ) where
  on_answer-IsFresh :
      (p : Phase) (db : Database) (c : Claim)
      → c.phase ≡ p
      → IsFresh ex c
      → IsFresh ex (on_answer o locked p db c)
  unfolding on_answer
  on_answer-IsFresh beginning db c e (x, f) = (x, tt)
  on_answer-IsFresh selecting db c e (x, f) = (x, tt)
  on_answer-IsFresh (locking snapshot) db c e (x, f) =
      elim (Option-cases (select_claimable_worker locked c.now (select_params o c) snapshot db)) [
        | inl n ↦ rw (on_answer, n) (x, tt)
        | inr (w, n) ↦
            let (v, chosen) =
              select_claimable_worker-best locked c.now (select_params o c) snapshot db w n in
            rw (on_answer, n) (x, subst (All (λ id. id ≢ w.id)) x chosen.wanted.not_excluded)
      ]
  on_answer-IsFresh (recounting w) db c e (x, f) =
      elim (Bool-cases (leb w.max_slots (count_active_sessions_by_worker w.id db))) [
        | inl n ↦ rw (on_answer, n) (x, subst (Fresh ex) e f)
        | inr n ↦ rw (on_answer, n) (x, tt)
      ]
  on_answer-IsFresh (inserting w) db c e (x, f) =
      elim (Result-cases (insert_claimed_session c.now (claim_params o c w) db).0) [
        | inl (s, n) ↦ rw (on_answer, n) (x, tt)
        | inr (z, n) ↦
            let is = insert_claimed_session_err c.now (claim_params o c w) db z n in
            rw (on_answer, n, is) (x, tt)
      ]
  on_answer-IsFresh (incrementing w s) db c e (x, f) =
      elim (Result-cases (increment_worker_lifetime_sessions w.id db).0) [
        | inl (s, n) ↦ rw (on_answer, n) (x, tt)
        | inr (z, n) ↦
            let is = increment_worker_lifetime_sessions_err w.id db z n in
            rw (on_answer, n, is) (x, tt)
      ]
  on_answer-IsFresh (committing w s) db c e (x, f) = (x, tt)
  on_answer-IsFresh (finished r) db c e h = h

  on_fault-IsFresh :
      (p : Phase) (f : Fault) (c : Claim) → c.phase ≡ p → IsFresh ex c → IsFresh ex (on_fault p f c)
  on_fault-IsFresh (committing w s) f c e (x, h) = (x, tt)
  on_fault-IsFresh (finished r) f c e h = h
  on_fault-IsFresh beginning f c e (x, h) = (x, tt)
  on_fault-IsFresh selecting f c e (x, h) = (x, tt)
  on_fault-IsFresh (locking snapshot) f c e (x, h) = (x, tt)
  on_fault-IsFresh (recounting w) f c e (x, h) = (x, tt)
  on_fault-IsFresh (inserting w) f c e (x, h) = (x, tt)
  on_fault-IsFresh (incrementing w s) f c e (x, h) = (x, tt)

  claim_trip-IsFresh :
      (reply : Reply) (db : Database) (c : Claim)
      → IsFresh ex c
      → IsFresh ex (claim_trip o locked reply db c).1
  unfolding claim_trip
  claim_trip-IsFresh delivered db c h =
      on_answer-IsFresh c.phase (apply_writes c.writes db) c refl h
  claim_trip-IsFresh (refused f) db c h = on_fault-IsFresh c.phase f c refl h
  claim_trip-IsFresh (lost f) db c h = on_fault-IsFresh c.phase f c refl h

run_trips-IsFresh :
    (o : Options) (ex : List ℕ) (n : ℕ) (at : ℕ → Moment) (c : Claim)
    → IsFresh ex c
    → IsFresh ex (run_trips o n at c)
unfolding run_trips
run_trips-IsFresh o ex zero at c h = h
run_trips-IsFresh o ex (suc n) at c h =
    run_trips-IsFresh o ex n (λ i. at (suc i)) _
      (claim_trip-IsFresh o (at 0).locked ex (at 0).reply (at 0).db c h)

claim_once-not_excluded :
    (o : Options) (request : ClaimRequest) (env : Env) (attempt : ℕ) (excluded : List ℕ) (id : ℕ)
    → claim_once o request env attempt excluded ≡ err (worker_full id)
    → All (λ x. x ≢ id) excluded
unfolding new_claim
claim_once-not_excluded o request env attempt excluded id e =
    let f =
      run_trips-IsFresh o excluded claim_trips (env.moments attempt)
        (new_claim request excluded (env.session_ids attempt) (env.times attempt)) (refl, tt) in
    subst (Fresh excluded) (claim_once_finishes o request env attempt excluded ∙ ap finished e) f.1

not_same : (id x y : ℕ) → (x == id) ≡ true → y ≢ id → (y == x) ≡ false
not_same id x y e ne = elim (Bool-cases (y == x)) [ inl h ↦ absurd (ne (ground arith)) | inr h ↦ h ]

append-once :
    (xs : List ℕ) (id : ℕ)
    → ((x : ℕ) → count (λ y. y == x) xs ≤ 1)
    → All (λ x. x ≢ id) xs
    → (x : ℕ) → count (λ y. y == x) (xs ++ (id ∷ [])) ≤ 1
append-once xs id h a x = elim (Bool-cases (x == id)) [
  | inl e ↦
      let gone : All (λ y. (y == x) ≡ false) xs =
        All-mono (λ y. y ≢ id) (λ y. (y == x) ≡ false) xs (λ y ne. not_same id x y e ne) a in
      let z = count-zero (λ y. y == x) xs gone in
      ground (arith, count-append (λ y. y == x) xs (id ∷ []))
  | inr e ↦ ground (arith, count-append (λ y. y == x) xs (id ∷ []), h x)
]

Leads-distinct :
    (o : Options) (request : ClaimRequest) (env : Env) (k : ℕ) (seen : List ℕ)
    → Leads (claim_once o request env) env.waits 0 [] k seen
    → (x : ℕ) → count (λ y. y == x) seen ≤ 1
Leads-distinct o request env _ _ stays x = omega arith
Leads-distinct o request env _ _ (after_full j seen id l e) x =
    append-once seen id (Leads-distinct o request env j seen l)
      (claim_once-not_excluded o request env j seen id e) x
Leads-distinct o request env _ _ (after_wait j seen l e w) x =
    Leads-distinct o request env j seen l x

-- The workers that were found full before an attempt are distinct, and one that it finds full is not
-- among them.
abbrev pub FindsAnew : (ℕ → List ℕ → Result Session) → ℕ → List ℕ → Type 0
FindsAnew once k seen =
    ((x : ℕ) → count (λ y. y == x) seen ≤ 1)
    × ((id : ℕ) → once k seen ≡ err (worker_full id) → All (λ x. x ≢ id) seen)

-- Claim ends with one of at most eight attempts, to which the attempts before it lead. The workers
-- that those found full are distinct, and the last attempt finds none of them full again, whatever
-- other transactions do between the round trips.
pub claim_excludes :
    (o : Options) (request : ClaimRequest) (env : Env)
    → (k : ℕ) × ((seen : List ℕ) × (Leads (claim_once o request env) env.waits 0 [] k seen
          × ((k < 8)
              × (Ends
                    (claim_once o request env)
                    env.waits
                    k
                    seen
                    (k + 1 == 8)
                    (claim (claim_once o request env) env.waits)
                  × FindsAnew (claim_once o request env) k seen))))
claim_excludes o request env =
    let (k, (seen, (l, (few, e)))) = claim_lem (claim_once o request env) env.waits in
    (
      k,
      (
        seen,
        (
          l,
          (
            few,
            (
              e,
              (Leads-distinct o request env k seen l, claim_once-not_excluded o request env k seen),
            ),
          ),
        ),
      ),
    )
