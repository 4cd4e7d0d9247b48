-- ===== src/Tests/Background.antt =====
-- A heartbeat and a sweep of the shared store.
use playwright_distributed.Base.{
  unavailable, no_rows, fault, ok, err, ◌≡◌, refl, none, [], ◌∷◌, ◌==◌, count,
}
use playwright_distributed.Tests.Data.{worker_row, store, options}
use playwright_distributed.Scheduler.Heartbeat.{heartbeat}
use playwright_distributed.Scheduler.Heartbeat.Errors.{IsCause, heartbeat_err}
use playwright_distributed.Scheduler.Heartbeat.Status.{IsBeaten, heartbeat_ok, heartbeat_unknown}
use playwright_distributed.Rescuer.{stall_silent, expire_dead, delete_dead, Times, nothing, sweep}
use playwright_distributed.Rescuer.Fates.{SessionFates, WorkerFates, sweep_fates}
use playwright_distributed.Rescuer.Sweep.{quiet, swept, sweep_keeps, sweep_idempotent}
use playwright_distributed.Db.Sessions.{
  expire_dead_sessions, fail_unreported_worker_sessions, list_stale_worker_session_ids,
}
use playwright_distributed.Db.Driver.{delivered, refused, World, and_then, statement, transact}
use playwright_distributed.Db.Workers.{
  delete_dead_workers, notify_capacity_changed, stall_silent_workers, update_worker_heartbeat,
}
use playwright_distributed.Db.Driver.Atomic.{IsHonest}

-- Worker 2 reports no session, and its session 12 is failed.
beat :
    (heartbeat options 120 2 [] (record { db = store; replies = [] })).0
    ≡ ok (record (worker_row 2 2 5) { last_heartbeat = 120 }, [], 12 ∷ [])
unfolding heartbeat statement and_then update_worker_heartbeat fail_unreported_worker_sessions
    list_stale_worker_session_ids notify_capacity_changed
beat = refl

heartbeat_ok_example :
    IsBeaten options 120 2 [] store
      (worker_row 2 2 5)
      (heartbeat options 120 2 [] (record { db = store; replies = [] }))
heartbeat_ok_example = heartbeat_ok options 120 2 [] store (worker_row 2 2 5) refl

unknown_worker :
    heartbeat options 120 9 [] (record { db = store; replies = [] })
    ≡ (err no_rows, record { db = store; replies = [] })
unknown_worker = heartbeat_unknown options 120 9 [] store refl

-- The connection breaks at the third statement.
abbrev broken : World
broken = record {
  db = store;
  replies = delivered ∷ delivered ∷ delivered ∷ refused unavailable ∷ [];
}

broken_beat : (heartbeat options 120 2 [] broken).0 ≡ err (fault unavailable)
unfolding heartbeat statement and_then update_worker_heartbeat fail_unreported_worker_sessions
broken_beat = refl

broken-IsHonest : IsHonest broken
unfolding IsHonest
broken-IsHonest = (refl, (refl, (refl, (refl, tt))))

heartbeat_err_example :
    IsCause 2 store (fault unavailable) × ((heartbeat options 120 2 [] broken).1.db ≡ store)
heartbeat_err_example = heartbeat_err options 120 2 [] broken broken-IsHonest broken_beat

abbrev rescue : playwright_distributed.Rescuer.Options
rescue = record { worker_ttl = 50; session_ttl = 30; stalled_worker_ttl = 100 }

abbrev times : Times
times = record { at_stall = 201; at_expire = 202; at_delete = 203 }

-- Later both are stalled and their sessions expired; much later they are gone.
late :
    (sweep rescue times (quiet store)).0
    ≡ record { stalled_workers = 2; expired_sessions = 2; removed_workers = 2 }
unfolding sweep stall_silent expire_dead delete_dead statement transact and_then
    stall_silent_workers expire_dead_sessions delete_dead_workers notify_capacity_changed
late = refl

abbrev early : Times
early = record { at_stall = 118; at_expire = 119; at_delete = 122 }

sweep_fates_example :
    ((sweep rescue early (quiet store)).1 ≡ none)
    × (SessionFates early.at_expire rescue.session_ttl store.sessions
          (swept rescue early store).sessions
        × WorkerFates rescue early
            (swept rescue early store).sessions
            store.workers
            (swept rescue early store).workers)
sweep_fates_example = sweep_fates rescue early store

sweep_keeps_example :
    count (λ w. w.id == 2) (swept rescue early store).workers ≡ count (λ w. w.id == 2) store.workers
unfolding swept sweep stall_silent expire_dead delete_dead statement transact and_then
    stall_silent_workers expire_dead_sessions delete_dead_workers notify_capacity_changed
sweep_keeps_example = sweep_keeps rescue early store 2 refl

second_sweep :
    sweep rescue times (quiet (swept rescue times store))
    ≡ (nothing, none, quiet (swept rescue times store))
second_sweep = sweep_idempotent rescue times store
