-- ===== src/Http/Capacity.antt =====
-- The capacity report of server/internal/httpapi/server.go, with the types of models.go and Capacity of
-- server/internal/scheduler/scheduler.go; health and readiness. An int64 is its residue modulo 2 ^ 64.
use playwright_distributed.Base.{
  Result, ok, err, ℕ, ◌+◌, ◌%◌, ◌^◌, Bool, Option, none, some, List, [], ◌∷◌, map, if◌then◌else◌,
  Bytes, codes,
}
use playwright_distributed.Db.Models.{Browser}
use playwright_distributed.Db.Driver.{World, M, query}
use playwright_distributed.Db.Workers.Report.{GetCapacityByBrowserRow, get_capacity_by_browser}
use playwright_distributed.Scheduler.Settings.{Options}
use playwright_distributed.Http.Response.{Answer, answered, refuse, internal_error}

pub record CapacityReport : Type 0 where
  pub browsers : List GetCapacityByBrowserRow
  pub queued : ℕ
  pub max_queue_size : ℕ

unfoldable pub measured :
    Options → ℕ → Result (List GetCapacityByBrowserRow) × World → Result CapacityReport × World
measured o queued (ok rows, w) =
    (ok (record { browsers = rows; queued = queued; max_queue_size = o.max_queue_size }), w)
measured o queued (err e, w) = (err e, w)

-- `queued` is the queue depth when the query has answered.
unfoldable pub capacity : Options → ℕ → ℕ → M CapacityReport
unfolding measured
capacity o now queued w =
    measured o queued
      (query (λ db. ok (get_capacity_by_browser now o.worker_ttl o.max_lifetime_sessions db)) w)

pub record BrowserCapacity : Type 0 where
  pub browser : Browser
  pub workers : ℕ
  pub max_slots : ℕ
  pub active_sessions : ℕ
  pub available_slots : ℕ

pub record CapacityTotals : Type 0 where
  pub workers : ℕ
  pub max_slots : ℕ
  pub active_sessions : ℕ
  pub available_slots : ℕ

pub record CapacityBody : Type 0 where
  pub browsers : List BrowserCapacity
  pub totals : CapacityTotals
  pub queued : ℕ
  pub max_queue_size : ℕ

abbrev pub browser_capacity : GetCapacityByBrowserRow → BrowserCapacity
browser_capacity row = record {
  browser = row.browser;
  workers = row.workers;
  max_slots = row.max_slots;
  active_sessions = row.active_sessions;
  available_slots = row.available_slots;
}

abbrev pub add_int64 : ℕ → ℕ → ℕ
add_int64 a b = (a + b) % 2 ^ 64

abbrev pub add_row : CapacityTotals → GetCapacityByBrowserRow → CapacityTotals
add_row t row = record {
  workers = add_int64 t.workers row.workers;
  max_slots = add_int64 t.max_slots row.max_slots;
  active_sessions = add_int64 t.active_sessions row.active_sessions;
  available_slots = add_int64 t.available_slots row.available_slots;
}

-- The loop over the rows.
unfoldable pub add_rows : CapacityTotals → List GetCapacityByBrowserRow → CapacityTotals
add_rows t [] = t
add_rows t (row ∷ rows) = add_rows (add_row t row) rows

abbrev pub no_capacity_yet : CapacityTotals
no_capacity_yet = record { workers = 0; max_slots = 0; active_sessions = 0; available_slots = 0 }

unfoldable pub reported : Result CapacityReport × World → Answer CapacityBody × World
unfolding add_rows
reported (ok c, w) = (
  answered 200 (record {
    browsers = map browser_capacity c.browsers;
    totals = add_rows no_capacity_yet c.browsers;
    queued = c.queued;
    max_queue_size = c.max_queue_size;
  }),
  w,
)
reported (err e, w) = (internal_error, w)

-- The scheduler's Capacity, which is none if it is not configured.
unfoldable pub get_capacity : Option (M CapacityReport) → World → Answer CapacityBody × World
unfolding reported
get_capacity none w = (internal_error, w)
get_capacity (some measure) w = reported (measure w)

abbrev pub health : Answer Bytes
health = answered 200 (codes "ok")

-- `pings` is whether the database answers a ping in time.
abbrev pub readiness : Bool → Answer Bytes
readiness pings =
    if pings then answered 200 (codes "ok") else refuse 503 (codes "database unavailable")
