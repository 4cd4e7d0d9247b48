-- ===== src/Tests/Data.antt =====
-- Rows that the tests share.
use playwright_distributed.Base.{Result, ok, ℕ, none, some, [], ◌∷◌, Bytes}
use playwright_distributed.Db.Driver.{World}
use playwright_distributed.Http.Auth.{Principal}
use playwright_distributed.Db.Models.{
  chromium, default, pending, running, available, Session, Worker, Database,
}
use playwright_distributed.Scheduler.Settings.{Options, ClaimRequest}

abbrev pub version : Bytes
version = b'1' ∷ b'.' ∷ b'5' ∷ b'7' ∷ b'.' ∷ b'0' ∷ []

abbrev pub prefix : Bytes
prefix = b'1' ∷ b'.' ∷ b'5' ∷ b'7' ∷ b'.' ∷ []

abbrev pub worker_row : ℕ → ℕ → ℕ → Worker
worker_row id slots lifetime = record {
  id = id;
  address = [];
  browser = chromium;
  playwright_version = version;
  max_slots = slots;
  status = available;
  last_heartbeat = 100;
  lifetime_sessions = lifetime;
  created_at = 1;
}

abbrev pub session_row : ℕ → ℕ → Session
session_row id worker_id = record {
  id = id;
  worker_id = worker_id;
  browser = chromium;
  playwright_version = version;
  worker_address = [];
  mode = default;
  status = running;
  created_by_key = none;
  created_at = 10;
  started_at = some 20;
  expires_at = none;
  last_heartbeat = 90;
  keep_alive_ms = none;
  connect_metadata = b'{' ∷ b'}' ∷ [];
}

-- Two workers: 1 has its only slot taken, 2 has one of two free.
abbrev pub store : Database
store = record {
  workers = worker_row 1 1 9 ∷ worker_row 2 2 5 ∷ [];
  sessions = session_row 11 1 ∷ session_row 12 2 ∷ [];
  api_keys = [];
  capacity_changed = 0;
}

abbrev pub request : ClaimRequest
request = record {
  browser = chromium;
  version_prefix = prefix;
  created_by_key = none;
  connect_metadata = none;
}

abbrev pub options : Options
options = record {
  worker_ttl = 50;
  pending_session_ttl = 30;
  max_lifetime_sessions = 0;
  max_queue_size = 2;
  queue_wait_timeout = 1_000;
  polling_interval = 10;
  reconciliation_grace = 15;
}

abbrev pub at_peace : Database → World
at_peace db = record { db = db; replies = [] }

-- A pending session beside those of the store.
abbrev pub waiting : Session
waiting = record (session_row 13 2) { status = pending; started_at = none; expires_at = some 200 }

abbrev pub with_waiting : Database
with_waiting = record store { sessions = waiting ∷ store.sessions }

abbrev pub gives : ClaimRequest → Result Session
gives r = ok (record (session_row 14 1) { status = pending })

abbrev pub nobody : Principal
nobody = record { key_id = none }
