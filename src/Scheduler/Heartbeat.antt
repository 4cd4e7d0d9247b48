-- ===== src/Scheduler/Heartbeat.antt =====
-- Heartbeat of server/internal/scheduler/scheduler.go: one transaction for a worker's heartbeat.
pub mod Errors
pub mod Status
use playwright_distributed.Base.{
  no_rows, Result, ok, err, ℕ, Bool, ◌&&◌, List, ltb, leb, if◌then◌else◌, is_empty,
}
use playwright_distributed.Db.Models.{draining, Worker, is_available}
use playwright_distributed.Db.Driver.{World, M, ◌>>=◌, ◌>>◌, return, statement, query, transact}
use playwright_distributed.Db.Workers.{
  notify_capacity_changed, set_worker_status, update_worker_heartbeat,
}
use playwright_distributed.Db.Sessions.{
  fail_unreported_worker_sessions, list_stale_worker_session_ids,
}
use playwright_distributed.Scheduler.Settings.{Options}

-- A notification if any session was failed.
pub notify_failed : List ℕ → M (Unit {0})
notify_failed failed_ids =
    if is_empty failed_ids then return tt else statement (λ db. (ok tt, notify_capacity_changed db))

abbrev pub should_drain : Options → Worker → Bool
should_drain o w =
    ltb 0 o.max_lifetime_sessions
    && (leb o.max_lifetime_sessions w.lifetime_sessions && is_available w.status)

-- ErrNoRows leaves the worker as it is; another error fails the heartbeat.
pub keep_if_no_rows : Worker → Result Worker × World → Result Worker × World
keep_if_no_rows w (ok draining_worker, world) = (ok draining_worker, world)
keep_if_no_rows w (err no_rows, world) = (ok w, world)
keep_if_no_rows w (err e, world) = (err e, world)

pub drain_if_spent : Options → ℕ → Worker → M Worker
unfolding keep_if_no_rows
drain_if_spent o worker_id w world =
    if should_drain o w
    then keep_if_no_rows w (statement (set_worker_status draining worker_id) world)
    else (ok w, world)

unfoldable pub heartbeat_body : Options → ℕ → ℕ → List ℕ → M (Worker × List ℕ × List ℕ)
unfolding notify_failed drain_if_spent statement
heartbeat_body o now worker_id reported = do
  worker ← statement (update_worker_heartbeat now worker_id)
  failed_ids ← statement (λ db.
      let (ids, db') =
        fail_unreported_worker_sessions now worker_id o.reconciliation_grace reported db in
      (ok ids, db'))
  notify_failed failed_ids
  stale_ids ← query (λ db. ok (list_stale_worker_session_ids reported worker_id db))
  final ← drain_if_spent o worker_id worker
  return (final, stale_ids, failed_ids)

-- The worker as it is now, the stale ids and the failed ids.
unfoldable pub heartbeat : Options → ℕ → ℕ → List ℕ → M (Worker × List ℕ × List ℕ)
unfolding heartbeat_body transact
heartbeat o now worker_id reported = transact (heartbeat_body o now worker_id reported)
