-- ===== src/Db/Models.antt =====
-- Rows and tables: server/internal/db/data/models.go, with the constraints of the first migration.
-- A uuid is the number that its 16 bytes write, a timestamp counts microseconds, texts are bytes.
use playwright_distributed.Base.{
  no_rows, Result, ok, err, ℕ, ◌≡◌, Bool, true, false, ◌&&◌, ◌||◌, Option, none, some, List, arith,
  ltb, ◌==◌, Bytes,
}

-- The CHECK on the browser columns leaves these three values.
pub data Browser : Type 0 where
  chromium firefox webkit : Browser

abbrev pub browser_eq : Browser → Browser → Bool
browser_eq chromium chromium = true
browser_eq firefox firefox = true
browser_eq webkit webkit = true
browser_eq _ _ = false

pub data SessionMode : Type 0 where
  default dedicated : SessionMode

pub data SessionStatus : Type 0 where
  pending running completed failed expired : SessionStatus

pub data WorkerStatus : Type 0 where
  available draining stalled shutting_down : WorkerStatus

pub record ApiKey : Type 0 where
  pub id : ℕ
  pub name : Bytes
  pub hash : Bytes
  pub prefix : Bytes
  pub created_at : ℕ
  pub last_used_at : Option ℕ
  pub revoked_at : Option ℕ

pub record Session : Type 0 where
  pub id : ℕ
  pub worker_id : ℕ
  pub browser : Browser
  pub playwright_version : Bytes
  pub worker_address : Bytes
  pub mode : SessionMode
  pub status : SessionStatus
  pub created_by_key : Option ℕ
  pub created_at : ℕ
  pub started_at : Option ℕ
  pub expires_at : Option ℕ
  pub last_heartbeat : ℕ
  pub keep_alive_ms : Option ℕ
  pub connect_metadata : Bytes

pub record Worker : Type 0 where
  pub id : ℕ
  pub address : Bytes
  pub browser : Browser
  pub playwright_version : Bytes
  pub max_slots : ℕ
  pub status : WorkerStatus
  pub last_heartbeat : ℕ
  pub lifetime_sessions : ℕ
  pub created_at : ℕ

-- `capacity_changed` counts the notifications sent on the channel of that name.
pub record Database : Type 0 where
  pub workers : List Worker
  pub sessions : List Session
  pub api_keys : List ApiKey
  pub capacity_changed : ℕ

-- status IN ('pending', 'running').
abbrev pub is_active : SessionStatus → Bool
is_active pending = true
is_active running = true
is_active _ = false

abbrev pub is_pending : SessionStatus → Bool
is_pending pending = true
is_pending _ = false

abbrev pub is_running : SessionStatus → Bool
is_running running = true
is_running _ = false

abbrev pub is_available : WorkerStatus → Bool
is_available available = true
is_available _ = false

-- ORDER BY created_at, id.
abbrev pub created_before : ℕ → ℕ → ℕ → ℕ → Bool
created_before t id u id' = ltb t u || ((t == u) && ltb id id')

-- Scanning the one row of a `:one` query: pgx.ErrNoRows if there is none.
abbrev pub one_row {ℓ} : {A : Type ℓ} → Option A → Result A
one_row none = err no_rows
one_row (some a) = ok a

pub one_row_ok {ℓ} : {A : Type ℓ} (o : Option A) (a : A) → one_row o ≡ ok a → o ≡ some a
one_row_ok none a h = cc
one_row_ok (some b) a h = ground arith
