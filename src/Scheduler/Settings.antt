-- ===== src/Scheduler/Settings.antt =====
-- Options, request and New of server/internal/scheduler/scheduler.go. Durations count microseconds.
use playwright_distributed.Base.{ℕ, Option, ◌==◌, if◌then◌else◌, Bytes}
use playwright_distributed.Db.Models.{Browser}

pub record Options : Type 0 where
  pub worker_ttl : ℕ
  pub pending_session_ttl : ℕ
  pub max_lifetime_sessions : ℕ
  pub max_queue_size : ℕ
  pub queue_wait_timeout : ℕ
  pub polling_interval : ℕ
  pub reconciliation_grace : ℕ

pub record ClaimRequest : Type 0 where
  pub browser : Browser
  pub version_prefix : Bytes
  pub created_by_key : Option ℕ
  pub connect_metadata : Option Bytes

abbrev pub default_polling_interval : ℕ
default_polling_interval = 1_000_000

abbrev pub default_reconciliation_grace : ℕ
default_reconciliation_grace = 15_000_000

abbrev pub max_claim_attempts : ℕ
max_claim_attempts = 8

abbrev pub claim_retry_delay : ℕ
claim_retry_delay = 5_000

-- The settings that `New` keeps: an interval or a grace that is not positive takes its default.
unfoldable pub new : Options → Options
new o = record o {
  polling_interval =
      if o.polling_interval == 0 then default_polling_interval else o.polling_interval;
  reconciliation_grace =
      if o.reconciliation_grace == 0 then default_reconciliation_grace else o.reconciliation_grace;
}
