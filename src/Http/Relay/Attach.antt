-- ===== src/Http/Relay/Attach.antt =====
-- attach, writeRejectedStart and failSession of server/internal/httpapi/relay.go, statement by
-- statement.
pub mod Once
pub mod Relayed
pub mod Cleanup
use playwright_distributed.Base.{
  no_rows, Result, ok, err, ℕ, Bool, true, false, Option, none, some, if◌then◌else◌, codes,
}
use playwright_distributed.Db.Models.{Session, Database, is_running}
use playwright_distributed.Db.Driver.{World, statement, query}
use playwright_distributed.Db.Sessions.{fail_session, start_session, get_session}
use playwright_distributed.Http.Response.{Refusal, refusal, retry_later}

-- The answer of BeginAttach.
pub data Reserved : Type 0 where
  granted is_draining not_reserved : Reserved

-- How attach ends. A failed upgrade has been answered by the upgrader.
pub data AttachEnd : Type 0 where
  turned_away : Refusal → AttachEnd
  start_failed dial_failed upgrade_failed relayed : AttachEnd

abbrev pub gone : Refusal
gone = refusal 410 (codes "session is no longer available")

abbrev pub already_attached : Refusal
already_attached = refusal 409 (codes "session already has an attached client")

-- What is written to the client, if the handler writes it.
pub attach_answer : AttachEnd → Option Refusal
attach_answer (turned_away r) = some r
attach_answer start_failed = some (refusal 500 (codes "internal server error"))
attach_answer dial_failed = some (refusal 502 (codes "worker connection failed"))
attach_answer upgrade_failed = none
attach_answer relayed = none

unfoldable pub rejected_start : Result Session × World → AttachEnd × World
rejected_start (ok s, w) = (turned_away (if is_running s.status then already_attached else gone), w)
rejected_start (err e, w) = (turned_away gone, w)

-- An error of the statement is only logged.
abbrev pub failed_with : ℕ → (Database → Database) → World → AttachEnd → AttachEnd × World
failed_with id others w end = (end, (statement (fail_session id) (record w { db = others w.db })).1)

-- `others` is what other transactions do before the second statement.
unfoldable pub started :
    ℕ → Bool → Bool → (Database → Database) → Result Session × World → AttachEnd × World
unfolding rejected_start
started id dials upgrades others (err no_rows, w) =
    rejected_start (query (get_session id) (record w { db = others w.db }))
started id dials upgrades others (err e, w) = failed_with id others w start_failed
started id false upgrades others (ok s, w) = failed_with id others w dial_failed
started id true false others (ok s, w) = failed_with id others w upgrade_failed
started id true true others (ok s, w) = (relayed, w)

unfoldable pub attach :
    ℕ → ℕ → Reserved → Bool → Bool → (Database → Database) → World → AttachEnd × World
unfolding started
attach now id is_draining dials upgrades others w =
    (turned_away (retry_later (codes "server is shutting down")), w)
attach now id not_reserved dials upgrades others w =
    (turned_away (refusal 500 (codes "internal server error")), w)
attach now id granted dials upgrades others w =
    started id dials upgrades others (statement (start_session now id) w)
