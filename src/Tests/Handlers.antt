-- ===== src/Tests/Handlers.antt =====
-- Handlers of the HTTP interface, and the waker.
use playwright_distributed.Base.{
  unavailable, ℕ, ◌≤◌, ◌≡◌, refl, ◌≢◌, ◌↔◌, true, false, Option, none, some, List, [], ◌∷◌, arith,
  ◌==◌, count, Bytes, find, codes,
}
use playwright_distributed.Db.Models.{chromium, default, pending, draining, Database}
use playwright_distributed.Db.Driver.{lost, World, statement}
use playwright_distributed.Db.Sessions.{
  complete_session, terminate_session, start_session, get_session,
}
use playwright_distributed.Db.Sessions.Ops.{SessionOp, completes, run_op}
use playwright_distributed.Db.Sessions.Over.{IsOver}
use playwright_distributed.Db.Sessions.Lifecycle.{run_ops}
use playwright_distributed.Scheduler.Waker.{
  Waker, subscribe, wake, receive, listener_initial_backoff, backoffs,
}
use playwright_distributed.Scheduler.Waker.Delivery.{no_lost_wakeup}
use playwright_distributed.Http.Response.{answered}
use playwright_distributed.Http.Sessions.{
  CreateSessionBody, SessionBody, create_session, looked_up, terminated, delete_session,
}
use playwright_distributed.Http.Sessions.Answers.{IsCreated, create_session_iff}
use playwright_distributed.Http.Sessions.Deletion.{delete_session-IsOver}
use playwright_distributed.Http.Workers.{set_status_handler}
use playwright_distributed.Http.Workers.Transitions.{
  calm, same_tables, expected, set_status_handler_lem,
}
use playwright_distributed.Http.Relay.Attach.{granted, relayed, started, attach}
use playwright_distributed.Http.Relay.Attach.Once.{attach_once}
use playwright_distributed.Http.Relay.Attach.Cleanup.{gives_up, attach-IsOver}
use playwright_distributed.Http.Capacity.{measured, capacity, add_rows, reported, get_capacity}
use playwright_distributed.Db.Workers.Report.{get_capacity_by_browser}
use playwright_distributed.Tests.Data.{
  version, store, options, at_peace, with_waiting, gives, nobody,
}
use playwright_distributed.Scheduler.Waker.Waiting.{
  WakerOp, subscribes, unsubscribes, receives, run_waker,
}
use playwright_distributed.Db.Workers.{count_active_sessions_by_worker}

-- Stands for JSON: the metadata are the text.
abbrev marshal : Bytes → Option Bytes
marshal metadata = some metadata

abbrev asked_for : CreateSessionBody Bytes
asked_for = record {
  browser = chromium;
  mode = default;
  playwright_version = version;
  connect_metadata = none;
}

abbrev made : SessionBody Bytes
made = record {
  id = 14;
  worker_id = 1;
  browser = chromium;
  playwright_version = version;
  worker_address = [];
  mode = default;
  status = pending;
  created_by_key = none;
  created_at = 10;
  started_at = some 20;
  expires_at = none;
  last_heartbeat = 90;
  keep_alive_ms = none;
  connect_metadata = codes "{}";
}

create_session_iff_example :
    (create_session (codes "{}") marshal marshal (some gives) nobody asked_for ≡ answered 201 made)
    ↔ ((◌≡◌ {A = ℕ} 201 201)
        × IsCreated (codes "{}") marshal marshal (some gives) nobody asked_for made)
create_session_iff_example =
    create_session_iff (codes "{}") marshal marshal (some gives) nobody asked_for 201 made

-- Another transaction completes the session between the two statements.
abbrev between : List SessionOp
between = completes 12 ∷ []

deleted :
    (delete_session 11 (run_ops between) (at_peace (run_ops (completes 11 ∷ []) store))).0
    ≡ answered 204 tt
unfolding delete_session terminated looked_up statement terminate_session get_session run_ops run_op
    complete_session
deleted = refl

delete_session-IsOver_example :
    IsOver 11
      (delete_session 11 (run_ops between) (at_peace (run_ops (completes 11 ∷ []) store))).1.db
delete_session-IsOver_example =
    delete_session-IsOver 11 between (at_peace (run_ops (completes 11 ∷ []) store)) deleted

one_worker : count (λ w. w.id == 2) store.workers ≤ 1
one_worker = omega arith

set_status_handler_lem_example :
    set_status_handler draining 2 same_tables (calm store)
    ≡ expected draining 2 store (find (λ w. w.id == 2) store.workers)
set_status_handler_lem_example = set_status_handler_lem draining 2 store one_worker

abbrev keep_tables : Database → Database
keep_tables db = db

attached : (attach 150 13 granted true true keep_tables (at_peace with_waiting)).0 ≡ relayed
unfolding attach started statement start_session
attached = refl

attach_once_example :
    (attach 160 13 granted true true keep_tables (
      at_peace (
        run_ops between
          (attach 150 13 granted true true keep_tables (at_peace with_waiting)).1.db))).0
    ≢ relayed
attach_once_example =
    attach_once 150 13 160 granted granted true true true true keep_tables keep_tables
      (at_peace with_waiting)
      (at_peace (
        run_ops between (attach 150 13 granted true true keep_tables (at_peace with_waiting)).1.db))
      between attached refl

-- The answer to the first statement is lost.
abbrev losing : World
losing = record { db = with_waiting; replies = lost unavailable ∷ [] }

given_up : gives_up (attach 150 13 granted true true keep_tables losing).0 ≡ true
unfolding attach started statement start_session
given_up = refl

attach-IsOver_example : IsOver 13 (attach 150 13 granted true true keep_tables losing).1.db
attach-IsOver_example = attach-IsOver 150 13 granted true true keep_tables losing given_up refl

abbrev early : List WakerOp
early = subscribes ∷ (receives 0 ∷ [])

abbrev late : List WakerOp
late = unsubscribes 6 ∷ []

abbrev waker : Waker
waker = record { next_id = 5; waiters = record { id = 0; ready = true } ∷ [] }

no_lost_wakeup_example :
    receive 5 (run_waker late (wake (run_waker early (subscribe waker).1))) ≢ none
unfolding subscribe
no_lost_wakeup_example =
    no_lost_wakeup waker early late (omega arith) (refl, (refl, tt)) (refl, tt) (omega arith)

backoff_doubles :
    backoffs listener_initial_backoff (false ∷ (false ∷ (true ∷ (false ∷ []))))
    ≡ 100_000 ∷ (200_000 ∷ (100_000 ∷ (200_000 ∷ [])))
unfolding backoffs
backoff_doubles = refl

-- Two eligible workers with three slots, two of them taken.
capacity_report :
    (get_capacity (some (capacity options 110 0)) (at_peace store)).0
    ≡ answered 200 (record {
      browsers =
          record {
            browser = chromium;
            workers = 2;
            max_slots = 3;
            active_sessions = 2;
            available_slots = 1;
          }
          ∷ [];
      totals = record { workers = 2; max_slots = 3; active_sessions = 2; available_slots = 1 };
      queued = 0;
      max_queue_size = 2;
    })
unfolding get_capacity reported capacity measured statement get_capacity_by_browser add_rows
    count_active_sessions_by_worker
capacity_report = refl
