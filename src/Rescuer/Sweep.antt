-- ===== src/Rescuer/Sweep.antt =====
-- What a sweep achieves: nothing dead is left, nothing alive is lost, and a second sweep is idle.
use playwright_distributed.Base.{
  ℕ, ◌≡◌, refl, ◌∙◌, true, false, none, List, [], arith, ◌==◌, count, any, All, count-zero, delete,
  update, All-select, update-none, select-none, delete-none, update_clears, delete_clears,
  count-update, count-delete,
}
use playwright_distributed.Db.Models.{expired, stalled, Session, Worker, Database}
use playwright_distributed.Db.Driver.{World, and_then, statement, transact}
use playwright_distributed.Db.Workers.{
  occupies, is_dead_worker, delete_dead_workers, notify_capacity_changed, is_silent,
  stall_silent_workers,
}
use playwright_distributed.Db.Sessions.{set_status, is_dead, expire_dead_sessions}
use playwright_distributed.Rescuer.{
  Options, stall_silent, expire_dead, delete_dead, Times, nothing, sweep,
}

-- Every round trip succeeds.
abbrev pub quiet : Database → World
quiet db = record { db = db; replies = [] }

-- The tables after a sweep.
unfoldable pub swept : Options → Times → Database → Database
swept o t db = (sweep o t (quiet db)).2.db

-- A worker with a session in a slot is not deleted.
occupied_stays :
    (now ttl stalled_ttl : ℕ) (db : Database) (id : ℕ) (w : Worker)
    → any (occupies id) db.sessions ≡ true
    → (w.id == id) ≡ true
    → is_dead_worker now ttl stalled_ttl db w ≡ false
occupied_stays now ttl stalled_ttl db id w h e =
    let same : w.id ≡ id = ground arith in rw same (ground (arith, h))

module _ (o : Options) (t : Times) (db : Database) where
  abbrev pub stalled_workers : List Worker
  stalled_workers =
      update (is_silent t.at_stall o.worker_ttl) (λ w. record w { status = stalled }) db.workers

  abbrev pub live_sessions : List Session
  live_sessions = update (is_dead t.at_expire o.session_ttl) (set_status expired) db.sessions

  abbrev pub expired_db : Database
  expired_db = record db { workers = stalled_workers; sessions = live_sessions }

  abbrev pub kept_workers : List Worker
  kept_workers =
      delete (is_dead_worker t.at_delete o.worker_ttl o.stalled_worker_ttl expired_db)
        stalled_workers

  pub swept-tables :
      ((swept o t db).workers ≡ kept_workers)
      × (((swept o t db).sessions ≡ live_sessions) × ((sweep o t (quiet db)).1 ≡ none))
  unfolding swept sweep stall_silent expire_dead delete_dead statement transact and_then
      stall_silent_workers expire_dead_sessions delete_dead_workers notify_capacity_changed
  swept-tables = ground arith

  -- No row is left that a statement of the sweep looks for.
  abbrev pub IsClear : Database → Type 0
  IsClear d =
      All (λ w. is_silent t.at_stall o.worker_ttl w ≡ false) d.workers
      × (All (λ s. is_dead t.at_expire o.session_ttl s ≡ false) d.sessions
          × All (λ w. is_dead_worker t.at_delete o.worker_ttl o.stalled_worker_ttl d w ≡ false)
              d.workers)

  swept-IsClear : ((sweep o t (quiet db)).1 ≡ none) × IsClear (swept o t db)
  swept-IsClear =
      rw (swept-tables.0, swept-tables.1.0)
        (
          swept-tables.1.1,
          (
            All-select (λ w. is_silent t.at_stall o.worker_ttl w ≡ false) _ stalled_workers
                (update_clears (is_silent t.at_stall o.worker_ttl) _ db.workers (λ w. refl)),
            (
              update_clears (is_dead t.at_expire o.session_ttl) _ db.sessions (λ s. refl),
              delete_clears
                  (is_dead_worker t.at_delete o.worker_ttl o.stalled_worker_ttl expired_db)
                  stalled_workers,
            ),
          ),
        )

  sweep_idle : IsClear db → sweep o t (quiet db) ≡ (nothing, none, quiet db)
  unfolding sweep stall_silent expire_dead delete_dead statement transact and_then
      stall_silent_workers expire_dead_sessions delete_dead_workers notify_capacity_changed
  sweep_idle c = ground (
    arith,
    count-zero (is_silent t.at_stall o.worker_ttl) db.workers c.0,
    update-none (is_silent t.at_stall o.worker_ttl) (λ w. record w { status = stalled }) db.workers
        c.0,
    update-none (is_dead t.at_expire o.session_ttl) (set_status expired) db.sessions c.1.0,
    select-none (is_dead t.at_expire o.session_ttl) db.sessions c.1.0,
    select-none (is_dead_worker t.at_delete o.worker_ttl o.stalled_worker_ttl db) db.workers c.1.1,
    delete-none (is_dead_worker t.at_delete o.worker_ttl o.stalled_worker_ttl db) db.workers c.1.1,
  )

-- A sweep whose round trips all succeed deletes no row of a worker that still has a pending or running
-- session after it.
pub sweep_keeps :
    (o : Options) (t : Times) (db : Database) (id : ℕ)
    → any (occupies id) (swept o t db).sessions ≡ true
    → count (λ w. w.id == id) (swept o t db).workers ≡ count (λ w. w.id == id) db.workers
sweep_keeps o t db id h =
    let g : any (occupies id) (live_sessions o t db) ≡ true = rw (swept-tables o t db).1.0 at h in
    rw (swept-tables o t db).0 (
      count-delete
        (is_dead_worker t.at_delete o.worker_ttl o.stalled_worker_ttl (expired_db o t db))
        (λ w. w.id == id) (stalled_workers o t db)
        (λ w e.
          occupied_stays t.at_delete o.worker_ttl o.stalled_worker_ttl (expired_db o t db) id w g e)
      ∙ count-update (is_silent t.at_stall o.worker_ttl) (λ w. w.id == id) _ db.workers (λ w. refl))

-- A second sweep at the same times finds nothing to do: it counts nothing and changes nothing.
pub sweep_idempotent :
    (o : Options) (t : Times) (db : Database)
    → sweep o t (quiet (swept o t db)) ≡ (nothing, none, quiet (swept o t db))
sweep_idempotent o t db = sweep_idle o t (swept o t db) (swept-IsClear o t db).1
