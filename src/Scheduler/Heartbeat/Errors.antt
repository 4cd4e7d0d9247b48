-- ===== src/Scheduler/Heartbeat/Errors.antt =====
-- How a heartbeat fails.
use playwright_distributed.Base.{
  Error, no_rows, Result, ok, err, ℕ, ◌≡◌, refl, ◌⊎◌, inl, inr, Bool, ◌&&◌, none, List, [], ◌∷◌,
  arith, ◌==◌, Bool-cases, Option-cases, find,
}
use playwright_distributed.Db.Models.{WorkerStatus, draining, Worker, Database}
use playwright_distributed.Db.Sessions.{
  fail_unreported_worker_sessions, list_stale_worker_session_ids,
}
use playwright_distributed.Db.Driver.{World, ◌>>=◌, ◌>>◌, return, next_reply, statement, query}
use playwright_distributed.Db.Driver.Failures.{
  IsFault, OnlyFaults, statement_err, statement-OnlyFaults, total-OnlyFaults, return-OnlyFaults,
  transact_fails, and_then_err, >>=-OnlyFaults,
}
use playwright_distributed.Scheduler.Settings.{Options}
use playwright_distributed.Db.Driver.Atomic.{
  IsHonest, TakesReplies, statement-TakesReplies, >>=-TakesReplies, transact_err,
}
use playwright_distributed.Scheduler.Heartbeat.{
  notify_failed, should_drain, keep_if_no_rows, drain_if_spent, heartbeat_body, heartbeat,
}
use playwright_distributed.Db.Workers.{
  update_worker, may_set, set_worker_status, revived, update_worker_heartbeat,
}

-- The update of a row gives no other error than that there is none.
update_worker_err :
    (p : Worker → Bool) (f : Worker → Worker) (db : Database) (e : Error)
    → (update_worker p f db).0 ≡ err e
    → (e ≡ no_rows) × (find p db.workers ≡ none)
update_worker_err p f db e h = elim (Option-cases (find p db.workers)) [
  | inl n ↦ (ground arith, n)
  | inr (w, n) ↦ absurd (ground arith)
]

set_worker_status_err :
    (status : WorkerStatus) (id : ℕ) (db : Database) (e : Error)
    → (set_worker_status status id db).0 ≡ err e
    → e ≡ no_rows
unfolding set_worker_status
set_worker_status_err status id db e h =
    (update_worker_err (λ w. (w.id == id) && may_set status w.status)
      (λ w. record w { status = status }) db e h).0

-- ErrNoRows ends with the drain.
keep_if_no_rows_err :
    (w : Worker) (r : Result Worker × World) (e : Error)
    → ((x : Error) → r.0 ≡ err x → IsFault x ⊎ (x ≡ no_rows))
    → (keep_if_no_rows w r).0 ≡ err e
    → IsFault e
unfolding keep_if_no_rows
keep_if_no_rows_err w (ok v, world) e f h = cc
keep_if_no_rows_err w (err no_rows, world) e f h = cc
keep_if_no_rows_err w (err x, world) e f h = elim (f x refl) [
  | inl (g, is) ↦ (g, ground arith)
  | inr is ↦ absurd (ground arith)
]

drain_if_spent-OnlyFaults :
    (o : Options) (worker_id : ℕ) (w : Worker) → OnlyFaults (drain_if_spent o worker_id w)
unfolding drain_if_spent
drain_if_spent-OnlyFaults o worker_id w world e = elim (Bool-cases (should_drain o w)) [
  | inl is ↦ rw is λ h.
      keep_if_no_rows_err w (statement (set_worker_status draining worker_id) world) e
        (λ x g. elim (statement_err (set_worker_status draining worker_id) world x g) [
          | inl f ↦ inl f
          | inr q ↦ inr (set_worker_status_err draining worker_id world.db x q)
        ])
        h
  | inr is ↦ rw is λ h. cc
]

notify_failed-OnlyFaults : (ids : List ℕ) → OnlyFaults (notify_failed ids)
unfolding notify_failed
notify_failed-OnlyFaults [] w e h = cc
notify_failed-OnlyFaults (x ∷ xs) w e h = statement-OnlyFaults _ (λ db y g. cc) w e h

keep_if_no_rows-IsHonest :
    (w : Worker) (r : Result Worker × World) → IsHonest r.1 → IsHonest (keep_if_no_rows w r).1
unfolding keep_if_no_rows
keep_if_no_rows-IsHonest w (ok v, world) h = h
keep_if_no_rows-IsHonest w (err no_rows, world) h = h
keep_if_no_rows-IsHonest w (err e, world) h = h

drain_if_spent-TakesReplies :
    (o : Options) (worker_id : ℕ) (w : Worker) → TakesReplies (drain_if_spent o worker_id w)
unfolding drain_if_spent
drain_if_spent-TakesReplies o worker_id w world h = elim (Bool-cases (should_drain o w)) [
  | inl e ↦ rw e (
      keep_if_no_rows-IsHonest w _
        (statement-TakesReplies (set_worker_status draining worker_id) world h))
  | inr e ↦ rw e h
]

notify_failed-TakesReplies : (ids : List ℕ) → TakesReplies (notify_failed ids)
unfolding notify_failed
notify_failed-TakesReplies [] w h = h
notify_failed-TakesReplies (x ∷ xs) w h = statement-TakesReplies _ w h

heartbeat_body-TakesReplies :
    (o : Options) (now worker_id : ℕ) (reported : List ℕ)
    → TakesReplies (heartbeat_body o now worker_id reported)
unfolding heartbeat_body
heartbeat_body-TakesReplies o now worker_id reported =
    >>=-TakesReplies _ _ (statement-TakesReplies _) λ worker.
      >>=-TakesReplies _ _ (statement-TakesReplies _) λ ids.
        >>=-TakesReplies _ _ (notify_failed-TakesReplies ids) λ _.
          >>=-TakesReplies _ _ (statement-TakesReplies _) λ stale.
            >>=-TakesReplies _ _ (drain_if_spent-TakesReplies o worker_id worker) λ final w h. h

beat_err :
    (now id : ℕ) (db : Database) (e : Error)
    → (update_worker_heartbeat now id db).0 ≡ err e
    → (e ≡ no_rows) × (find (λ v. v.id == id) db.workers ≡ none)
unfolding update_worker_heartbeat
beat_err now id db e h =
    update_worker_err (λ v. v.id == id)
      (λ w. record w { last_heartbeat = now; status = revived w.status }) db e h

-- The worker does not exist, or a round trip failed.
abbrev pub IsCause : ℕ → Database → Error → Type 0
IsCause worker_id db e =
    ((e ≡ no_rows) × (find (λ v. v.id == worker_id) db.workers ≡ none)) ⊎ IsFault e

-- The statements after the one for the worker's row.
after_beat-OnlyFaults :
    (o : Options) (now worker_id : ℕ) (reported : List ℕ) (worker : Worker)
    → OnlyFaults {A = Worker × List ℕ × List ℕ} (do
      failed_ids ← statement (λ db.
          let (ids, db') =
            fail_unreported_worker_sessions now worker_id o.reconciliation_grace reported db in
          (ok ids, db'))
      notify_failed failed_ids
      stale_ids ← query (λ db. ok (list_stale_worker_session_ids reported worker_id db))
      final ← drain_if_spent o worker_id worker
      return (final, stale_ids, failed_ids))
after_beat-OnlyFaults o now worker_id reported worker =
    let fails = fail_unreported_worker_sessions now worker_id o.reconciliation_grace reported in
    >>=-OnlyFaults _ _ (total-OnlyFaults (λ db. (fails db).0) (λ db. (fails db).1)) λ failed_ids.
      >>=-OnlyFaults _ _ (notify_failed-OnlyFaults failed_ids) λ _.
        >>=-OnlyFaults _ _
          (total-OnlyFaults (list_stale_worker_session_ids reported worker_id) (λ db. db))
          λ stale_ids.
            >>=-OnlyFaults _ _ (drain_if_spent-OnlyFaults o worker_id worker)
              λ final. return-OnlyFaults (final, stale_ids, failed_ids)

heartbeat_body_err :
    (o : Options) (now worker_id : ℕ) (reported : List ℕ) (w : World) (e : Error)
    → (heartbeat_body o now worker_id reported w).0 ≡ err e
    → IsCause worker_id w.db e
unfolding heartbeat_body
heartbeat_body_err o now worker_id reported w e h =
    elim (and_then_err (statement (update_worker_heartbeat now worker_id) w) _ e h) [
      | inl q ↦ elim (statement_err (update_worker_heartbeat now worker_id) w e q) [
        | inl f ↦ inr f
        | inr g ↦ inl (beat_err now worker_id w.db e g)
      ]
      | inr (worker, (v, q)) ↦ inr (after_beat-OnlyFaults o now worker_id reported worker v e q)
    ]

-- A heartbeat that returns an error, with no reply lost on the way back, has changed nothing, and
-- it returns that there is no row only when no worker with the id is registered; every other error
-- is that of a failed round trip. Above all the drain of a worker that has served its lifetime
-- limit never fails the heartbeat because no row could be drained.
pub heartbeat_err :
    (o : Options) (now worker_id : ℕ) (reported : List ℕ) (w : World) {e : Error}
    → IsHonest w
    → (heartbeat o now worker_id reported w).0 ≡ err e
    → IsCause worker_id w.db e × ((heartbeat o now worker_id reported w).1.db ≡ w.db)
unfolding heartbeat
heartbeat_err o now worker_id reported w h q = (
  elim (transact_fails (heartbeat_body o now worker_id reported) w _ q) [
    | inl f ↦ inr f
    | inr g ↦
        heartbeat_body_err o now worker_id reported
          (record { db = w.db; replies = (next_reply w.replies).1 }) _ g
  ],
  transact_err (heartbeat_body o now worker_id reported) w
      (heartbeat_body-TakesReplies o now worker_id reported) h q,
)
