-- ===== src/Http/Workers.antt =====
-- The worker handlers of server/internal/httpapi/server.go, with the types of models.go: ListWorkers,
-- registerWorkerRoutes and registerWorker. A parameter is the host name of a parsed URL.
pub mod Transitions
use playwright_distributed.Base.{
  no_rows, Result, ok, err, ℕ, true, Option, none, some, List, [], map, if◌then◌else◌, Bytes, codes,
  is_empty,
}
use playwright_distributed.Db.Models.{Browser, WorkerStatus, available, Worker, Database}
use playwright_distributed.Db.Driver.{World, M, ◌>>=◌, ◌>>◌, return, statement, query, transact}
use playwright_distributed.Db.Workers.{
  get_worker, list_workers, notify_capacity_changed, RegisterWorkerParams, register_worker,
  set_worker_status, update_worker_heartbeat,
}
use playwright_distributed.Http.Response.{Answer, answered, refuse, internal_error}

pub record WorkerBody : Type 0 where
  pub id : ℕ
  pub address : Bytes
  pub browser : Browser
  pub playwright_version : Bytes
  pub max_slots : ℕ
  pub status : WorkerStatus
  pub last_heartbeat : ℕ
  pub lifetime_sessions : ℕ
  pub created_at : ℕ

abbrev pub worker_from_data : Worker → WorkerBody
worker_from_data w = record {
  id = w.id;
  address = w.address;
  browser = w.browser;
  playwright_version = w.playwright_version;
  max_slots = w.max_slots;
  status = w.status;
  last_heartbeat = w.last_heartbeat;
  lifetime_sessions = w.lifetime_sessions;
  created_at = w.created_at;
}

unfoldable pub listed : Result (List Worker) × World → Answer (List WorkerBody) × World
listed (ok workers, w) = (answered 200 (map worker_from_data workers), w)
listed (err e, w) = (internal_error, w)

unfoldable pub list_workers_handler : World → Answer (List WorkerBody) × World
unfolding listed
list_workers_handler w = listed (query (λ db. ok (list_workers db)) w)

-- The body of a registration, checked against its schema.
pub record RegisterWorkerBody : Type 0 where
  pub address : Bytes
  pub browser : Browser
  pub playwright_version : Bytes
  pub max_slots : ℕ

-- The row and the notification in one transaction.
unfoldable pub register_in_transaction : ℕ → RegisterWorkerParams → M Worker
register_in_transaction now params = transact (do
  worker ← statement (register_worker now params)
  statement (λ db. (ok tt, notify_capacity_changed db))
  return worker)

unfoldable pub worker_answer : ℕ → Result Worker × World → Answer WorkerBody × World
worker_answer status (ok worker, w) = (answered status (worker_from_data worker), w)
worker_answer status (err e, w) = (internal_error, w)

-- `hostname` is the host name of the address, and none for an address that does not parse.
unfoldable pub register_worker_handler :
    (Bytes → Option Bytes) → ℕ → ℕ → RegisterWorkerBody → World → Answer WorkerBody × World
unfolding worker_answer
register_worker_handler hostname now id body w =
    if elim (hostname body.address) [ none ↦ true | some host ↦ is_empty host ]
    then (refuse 422 (codes "address must include a hostname"), w)
    else worker_answer 201 (
        register_in_transaction now
          (record {
            id = id;
            address = body.address;
            browser = body.browser;
            playwright_version = body.playwright_version;
            max_slots = body.max_slots;
            status = available;
          })
          w)

pub record HeartbeatBody : Type 0 where
  pub status : WorkerStatus
  pub stale_session_ids : List ℕ

unfoldable pub heartbeat_answer :
    Result (Worker × List ℕ × List ℕ) × World → Answer HeartbeatBody × World
heartbeat_answer (ok (worker, stale_ids, failed_ids), w) =
    (answered 200 (record { status = worker.status; stale_session_ids = stale_ids }), w)
heartbeat_answer (err no_rows, w) = (refuse 404 (codes "worker not found"), w)
heartbeat_answer (err e, w) = (internal_error, w)

abbrev without_sessions : Result Worker × World → Result (Worker × List ℕ × List ℕ) × World
without_sessions (ok worker, w) = (ok (worker, [], []), w)
without_sessions (err e, w) = (err e, w)

-- Without a scheduler only the worker's row is touched.
unfoldable pub heartbeat_handler :
    Option (ℕ → List ℕ → M (Worker × List ℕ × List ℕ))
    → ℕ
    → ℕ
    → List ℕ
    → World
    → Answer HeartbeatBody × World
unfolding heartbeat_answer
heartbeat_handler none now id reported w =
    heartbeat_answer (without_sessions (statement (update_worker_heartbeat now id) w))
heartbeat_handler (some heartbeat) now id reported w = heartbeat_answer (heartbeat id reported w)

-- The lookup after a transition that no row allowed.
unfoldable pub not_set : Result Worker × World → Answer WorkerBody × World
not_set (ok worker, w) = (refuse 409 (codes "invalid worker status transition"), w)
not_set (err no_rows, w) = (refuse 404 (codes "worker not found"), w)
not_set (err e, w) = (internal_error, w)

-- `others` is what other transactions do between the two statements.
unfoldable pub status_set :
    ℕ → (Database → Database) → Result Worker × World → Answer WorkerBody × World
unfolding not_set
status_set id others (ok worker, w) = (answered 200 (worker_from_data worker), w)
status_set id others (err no_rows, w) =
    not_set (query (get_worker id) (record w { db = others w.db }))
status_set id others (err e, w) = (internal_error, w)

unfoldable pub set_status_handler :
    WorkerStatus → ℕ → (Database → Database) → World → Answer WorkerBody × World
unfolding status_set
set_status_handler status id others w =
    status_set id others (statement (set_worker_status status id) w)
