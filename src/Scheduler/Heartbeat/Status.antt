-- ===== src/Scheduler/Heartbeat/Status.antt =====
-- What a heartbeat makes of a worker and its sessions.
use mathlib.Core.Option
use mathlib.Core.Path.{fun_ext}
use playwright_distributed.Base.{
  no_rows, Result, ok, err, ℕ, ◌+◌, ◌≡◌, refl, subst, inl, inr, Bool, true, false, not, ◌&&◌,
  Option, none, some, List, [], ◌∷◌, map, arith, ltb, leb, ◌==◌, if◌then◌else◌, Bool-cases, elem,
  select, update, find, find-test,
}
use playwright_distributed.Db.Models.{
  SessionStatus, running, failed, WorkerStatus, available, draining, shutting_down, Session, Worker,
  Database, is_running,
}
use playwright_distributed.Db.Driver.{World, and_then, statement}
use playwright_distributed.Scheduler.Settings.{Options}
use playwright_distributed.Scheduler.Heartbeat.{
  notify_failed, should_drain, keep_if_no_rows, drain_if_spent, heartbeat,
}
use playwright_distributed.Db.Workers.{
  update_worker, notify_capacity_changed, may_set, set_worker_status, revived,
  update_worker_heartbeat,
}
use playwright_distributed.Db.Sessions.{
  set_status, before, is_unreported, fail_unreported_worker_sessions, list_stale_worker_session_ids,
}

-- The status that a heartbeat leaves: intent to drain or to shut down stays, and a worker that has
-- served its lifetime limit starts to drain.
abbrev pub beat_status : Options → Worker → WorkerStatus → WorkerStatus
beat_status o w shutting_down = shutting_down
beat_status o w draining = draining
beat_status o w _ =
    if ltb 0 o.max_lifetime_sessions && leb o.max_lifetime_sessions w.lifetime_sessions
    then draining
    else available

-- A running session that started longer than `grace` ago.
abbrev pub ran_long : ℕ → ℕ → SessionStatus → Option ℕ → Bool
ran_long now grace running (some t) = ltb (t + grace) now
ran_long now grace _ _ = false

-- A session of the worker that runs for longer than `grace` and was not reported.
abbrev pub is_missed : ℕ → ℕ → ℕ → List ℕ → Session → Bool
is_missed now worker_id grace reported s =
    not (elem s.id reported)
    && (ran_long now grace s.status s.started_at && (s.worker_id == worker_id))

missed :
    (now grace : ℕ) (status : SessionStatus) (started : Option ℕ) (own other : Bool)
    → (own && (is_running status && (before (Option.map (λ t. t + grace) started) now && other)))
      ≡ (other && (ran_long now grace status started && own))
missed now grace running none true true = refl
missed now grace running none true false = refl
missed now grace running none false true = refl
missed now grace running none false false = refl
missed now grace running (some t) own other = ground arith
missed now grace _ started true true = refl
missed now grace _ started true false = refl
missed now grace _ started false true = refl
missed now grace _ started false false = refl

is_unreported-is_missed :
    (now worker_id grace : ℕ) (reported : List ℕ)
    → is_unreported now worker_id grace reported ≡ is_missed now worker_id grace reported
is_unreported-is_missed now worker_id grace reported = fun_ext λ s.
    missed now grace s.status s.started_at (s.worker_id == worker_id) (not (elem s.id reported))

find-update :
    (p q : Worker → Bool) (f : Worker → Worker) (ws : List Worker) (w : Worker)
    → ((x : Worker) → p x ≡ false → q x ≡ false)
    → q (f w) ≡ true
    → find p ws ≡ some w
    → find q (update p f ws) ≡ some (f w)
find-update p q f [] w h k e = cc
find-update p q f (v ∷ vs) w h k e = elim (Bool-cases (p v)) [
  | inl is ↦ let same : v ≡ w = ground arith in rw (is, same, k) refl
  | inr isnt ↦
      let later : find p vs ≡ some w = ground arith in
      rw (isnt, h v isnt) (find-update p q f vs w h k later)
]

module _ (o : Options) (now worker_id : ℕ) (reported : List ℕ) (db : Database) (w : Worker) where
  abbrev beaten : Worker
  beaten = record w { last_heartbeat = now; status = revived w.status }

  abbrev failed_ids : (Session → Bool) → List ℕ
  failed_ids p = map (λ s. s.id) (select p db.sessions)

  -- The sessions once those have failed.
  abbrev reconciled : (Session → Bool) → List Session
  reconciled p = update p (set_status failed) db.sessions

  beat_update :
      find (λ v. v.id == worker_id) db.workers ≡ some w
      → update_worker_heartbeat now worker_id db ≡ (
        ok beaten,
        record db {
          workers =
              update
                (λ v. v.id == worker_id)
                (λ v. record v { last_heartbeat = now; status = revived v.status })
                db.workers;
        },
      )
  unfolding update_worker_heartbeat
  beat_update e = rw (e, update_worker)

  abbrev beaten_workers : List Worker
  beaten_workers =
      update (λ v. v.id == worker_id)
        (λ v. record v { last_heartbeat = now; status = revived v.status }) db.workers

  -- The drain finds the worker: it is available after the heartbeat.
  drain_finds :
      find (λ v. v.id == worker_id) db.workers ≡ some w
      → should_drain o beaten ≡ true
      → find (λ v. (v.id == worker_id) && may_set draining v.status) beaten_workers ≡ some beaten
  drain_finds e h =
      find-update (λ v. v.id == worker_id) (λ v. (v.id == worker_id) && may_set draining v.status)
        (λ v. record v { last_heartbeat = now; status = revived v.status }) db.workers w
        (λ x k. ground arith) (ground (arith, find-test (λ v. v.id == worker_id) db.workers w e)) e

  -- The worker as the heartbeat leaves it.
  abbrev beat_worker : Worker
  beat_worker = record w { last_heartbeat = now; status = beat_status o w w.status }

  -- What a heartbeat of a known worker returns and leaves behind if it fails the sessions of a test.
  abbrev pub IsBeatenBy : (Session → Bool) → Result (Worker × List ℕ × List ℕ) × World → Type 0
  IsBeatenBy p (r, world) =
      (r
        ≡ ok (
          beat_worker,
          list_stale_worker_session_ids reported worker_id (record db { sessions = reconciled p }),
          failed_ids p,
        ))
      × (world.db.sessions ≡ reconciled p)

  abbrev pub IsBeaten : Result (Worker × List ℕ × List ℕ) × World → Type 0
  IsBeaten = IsBeatenBy (is_missed now worker_id o.reconciliation_grace reported)

  heartbeat-IsBeatenBy :
      find (λ v. v.id == worker_id) db.workers ≡ some w
      → IsBeatenBy
          (is_unreported now worker_id o.reconciliation_grace reported)
          (heartbeat o now worker_id reported (record { db = db; replies = [] }))
  unfolding heartbeat statement and_then notify_failed drain_if_spent keep_if_no_rows
      set_worker_status list_stale_worker_session_ids notify_capacity_changed
      fail_unreported_worker_sessions
  heartbeat-IsBeatenBy e = elim (Bool-cases (should_drain o beaten)) [
    | inl h ↦ ground (arith, beat_update e, drain_finds e h)
    | inr h ↦ ground (arith, beat_update e)
  ]

  -- A heartbeat of a known worker whose round trips all succeed returns the worker alive at `now`: a
  -- draining or shutting down one stays so, a stalled or available one becomes available, or draining
  -- once it has served its lifetime limit. It fails exactly the running sessions of the worker that
  -- started longer than the grace ago and were not reported, returns their ids, and returns the
  -- reported ids that are stale after that.
  pub heartbeat_ok :
      find (λ v. v.id == worker_id) db.workers ≡ some w
      → IsBeaten (heartbeat o now worker_id reported (record { db = db; replies = [] }))
  heartbeat_ok e =
      subst
        (λ p. IsBeatenBy p (heartbeat o now worker_id reported (record { db = db; replies = [] })))
        (is_unreported-is_missed now worker_id o.reconciliation_grace reported)
        (heartbeat-IsBeatenBy e)

-- A heartbeat of an unknown worker reports that there is no row, and changes nothing.
pub heartbeat_unknown :
    (o : Options) (now worker_id : ℕ) (reported : List ℕ) (db : Database)
    → find (λ v. v.id == worker_id) db.workers ≡ none
    → heartbeat o now worker_id reported (record { db = db; replies = [] })
      ≡ (err no_rows, record { db = db; replies = [] })
unfolding heartbeat statement and_then update_worker_heartbeat
heartbeat_unknown o now worker_id reported db e = ground arith
