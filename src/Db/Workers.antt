-- ===== src/Db/Workers.antt =====
-- The worker statements: server/internal/db/data/workers.sql.go. `now` is the transaction's now().
pub mod Order
pub mod Report
pub mod Selection
use playwright_distributed.Base.{
  unavailable, fault, Result, ok, err, ℕ, ◌+◌, Bool, true, false, not, ◌&&◌, ◌||◌, Option, none,
  some, List, [], ◌∷◌, ◌++◌, map, ltb, ◌==◌, if◌then◌else◌, count, any, elem, Bytes, is_prefix,
  select, delete, update, find, sort_by,
}
use playwright_distributed.Db.Models.{
  Browser, browser_eq, WorkerStatus, available, draining, stalled, shutting_down, Session, Worker,
  Database, is_active, is_available, created_before, one_row,
}

-- Whether a session occupies a slot of the worker.
abbrev pub occupies : ℕ → Session → Bool
occupies worker_id s = (s.worker_id == worker_id) && is_active s.status

unfoldable pub count_active_sessions_by_worker : ℕ → Database → ℕ
count_active_sessions_by_worker worker_id db = count (occupies worker_id) db.sessions

-- UPDATE workers SET f WHERE p, RETURNING the row.
abbrev pub update_worker : (Worker → Bool) → (Worker → Worker) → Database → Result Worker × Database
update_worker p f db = elim (find p db.workers) [
  | none ↦ (one_row none, db)
  | some w ↦ (ok (f w), record db { workers = update p f db.workers })
]

abbrev pub is_removable : ℕ → ℕ → ℕ → WorkerStatus → ℕ → Bool
is_removable now worker_ttl stalled_ttl shutting_down beat = ltb (beat + worker_ttl) now
is_removable now worker_ttl stalled_ttl stalled beat = ltb (beat + stalled_ttl) now
is_removable now worker_ttl stalled_ttl draining beat = ltb (beat + stalled_ttl) now
is_removable now worker_ttl stalled_ttl available beat = false

-- A silent worker on its way out, with no session in a slot.
abbrev pub is_dead_worker : ℕ → ℕ → ℕ → Database → Worker → Bool
is_dead_worker now worker_ttl stalled_ttl db w =
    is_removable now worker_ttl stalled_ttl w.status w.last_heartbeat
    && not (any (occupies w.id) db.sessions)

unfoldable pub delete_dead_workers : ℕ → ℕ → ℕ → Database → List ℕ × Database
delete_dead_workers now worker_ttl stalled_ttl db =
    let p = is_dead_worker now worker_ttl stalled_ttl db in
    (map (λ w. w.id) (select p db.workers), record db { workers = delete p db.workers })

unfoldable pub delete_worker : ℕ → Database → Database
delete_worker id db = record db { workers = delete (λ w. w.id == id) db.workers }

unfoldable pub get_worker : ℕ → Database → Result Worker
get_worker id db = one_row (find (λ w. w.id == id) db.workers)

unfoldable pub increment_worker_lifetime_sessions : ℕ → Database → Result Worker × Database
increment_worker_lifetime_sessions id =
    update_worker (λ w. w.id == id) (λ w. record w { lifetime_sessions = w.lifetime_sessions + 1 })

unfoldable pub list_workers : Database → List Worker
list_workers db = sort_by (λ v w. created_before v.created_at v.id w.created_at w.id) db.workers

unfoldable pub notify_capacity_changed : Database → Database
notify_capacity_changed db = record db { capacity_changed = db.capacity_changed + 1 }

pub record RegisterWorkerParams : Type 0 where
  pub id : ℕ
  pub address : Bytes
  pub browser : Browser
  pub playwright_version : Bytes
  pub max_slots : ℕ
  pub status : WorkerStatus

abbrev pub registered_worker : ℕ → RegisterWorkerParams → Worker
registered_worker now p = record {
  id = p.id;
  address = p.address;
  browser = p.browser;
  playwright_version = p.playwright_version;
  max_slots = p.max_slots;
  status = p.status;
  last_heartbeat = now;
  lifetime_sessions = 0;
  created_at = now;
}

-- A taken id, or no slots, violates a constraint of the table.
unfoldable pub register_worker : ℕ → RegisterWorkerParams → Database → Result Worker × Database
register_worker now p db =
    if any (λ w. w.id == p.id) db.workers || (p.max_slots == 0)
    then (err (fault unavailable), db)
    else (
      ok (registered_worker now p),
      record db { workers = db.workers ++ (registered_worker now p ∷ []) },
    )

-- Heard of within `ttl`, available, and below the limit of lifetime sessions (0 is no limit).
abbrev pub is_eligible : ℕ → ℕ → ℕ → Worker → Bool
is_eligible now ttl max_lifetime w =
    is_available w.status
    && (ltb now (w.last_heartbeat + ttl)
        && ((max_lifetime == 0) || ltb w.lifetime_sessions max_lifetime))

pub record SelectClaimableWorkerParams : Type 0 where
  pub browser : Browser
  pub version_prefix : Bytes
  pub worker_ttl : ℕ
  pub max_lifetime_sessions : ℕ
  pub excluded_ids : List ℕ

-- The conditions of the WHERE clause on the row alone.
abbrev pub is_wanted : ℕ → SelectClaimableWorkerParams → Worker → Bool
is_wanted now p w =
    is_eligible now p.worker_ttl p.max_lifetime_sessions w
    && (browser_eq w.browser p.browser
        && (is_prefix p.version_prefix w.playwright_version && not (elem w.id p.excluded_ids)))

-- FOR UPDATE SKIP LOCKED: the row is there, no other transaction holds it, and its present version
-- still meets the conditions on the row.
abbrev pub is_lockable : (ℕ → Bool) → ℕ → SelectClaimableWorkerParams → Database → ℕ → Bool
is_lockable locked now p db id =
    not (locked id)
    && elim (find (λ w. w.id == id) db.workers) [ none ↦ false | some w ↦ is_wanted now p w ]

-- A row of the snapshot that the query can return: it meets the WHERE clause there, where the
-- sessions are counted, and can be locked now.
abbrev pub is_claimable :
    (ℕ → Bool) → ℕ → SelectClaimableWorkerParams → Database → Database → Worker → Bool
is_claimable locked now p snapshot db w =
    is_wanted now p w
    && (ltb (count_active_sessions_by_worker w.id snapshot) w.max_slots
        && is_lockable locked now p db w.id)

-- ORDER BY lifetime_sessions DESC, active_count ASC, id.
unfoldable pub goes_first : Database → Worker → Worker → Bool
goes_first db v w =
    let active_v = count_active_sessions_by_worker v.id db in
    let active_w = count_active_sessions_by_worker w.id db in
    ltb w.lifetime_sessions v.lifetime_sessions
    || ((v.lifetime_sessions == w.lifetime_sessions)
        && (ltb active_v active_w || ((active_v == active_w) && ltb v.id w.id)))

-- The first row in that order: ORDER BY … LIMIT 1.
unfoldable pub first_in_order : Database → List Worker → Option Worker
first_in_order db [] = none
first_in_order db (w ∷ ws) = elim (first_in_order db ws) [
  | none ↦ some w
  | some v ↦ some (if goes_first db v w then v else w)
]

-- The statement reads its snapshot when it starts, and locks later: `db` is the store by then. It
-- returns the present version of the row.
unfoldable pub select_claimable_worker :
    (ℕ → Bool) → ℕ → SelectClaimableWorkerParams → Database → Database → Option Worker
unfolding first_in_order
select_claimable_worker locked now p snapshot db =
    elim (first_in_order snapshot
      (select (is_claimable locked now p snapshot db) snapshot.workers)) [
        | none ↦ none
        | some v ↦ find (λ w. w.id == v.id) db.workers
      ]

-- The transitions that a status request may make.
abbrev pub may_set : WorkerStatus → WorkerStatus → Bool
may_set draining available = true
may_set draining draining = true
may_set shutting_down _ = true
may_set _ _ = false

unfoldable pub set_worker_status : WorkerStatus → ℕ → Database → Result Worker × Database
set_worker_status status id =
    update_worker (λ w. (w.id == id) && may_set status w.status) (λ w. record w { status = status })

-- An available worker that fell silent for longer than `ttl`.
abbrev pub is_silent : ℕ → ℕ → Worker → Bool
is_silent now ttl w = is_available w.status && ltb (w.last_heartbeat + ttl) now

unfoldable pub stall_silent_workers : ℕ → ℕ → Database → ℕ × Database
stall_silent_workers now ttl db = (
  count (is_silent now ttl) db.workers,
  record db {
    workers = update (is_silent now ttl) (λ w. record w { status = stalled }) db.workers;
  },
)

abbrev pub revived : WorkerStatus → WorkerStatus
revived stalled = available
revived status = status

unfoldable pub update_worker_heartbeat : ℕ → ℕ → Database → Result Worker × Database
update_worker_heartbeat now id =
    update_worker (λ w. w.id == id)
      (λ w. record w { last_heartbeat = now; status = revived w.status })
