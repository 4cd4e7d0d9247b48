-- ===== src/Tests/Outcomes.antt =====
-- Ends of relays of the shared store's sessions.
use playwright_distributed.Base.{◌≡◌, refl, true, false, ◌||◌, some, [], ◌==◌, find}
use playwright_distributed.Tests.Data.{session_row, store}
use playwright_distributed.Relay.Outcome.{
  close_no_status_received, is_valid_received_close_code, is_normal_close_code, PeerError,
  close_error, peer_connection_lost, error_event, record_outcome, error_event_code,
  record_outcome_lem,
}
use playwright_distributed.Db.Models.{failed}

-- A peer that vanished, which the websocket library reports as code 1006.
abbrev vanished : PeerError
vanished = close_error 1006 []

vanished_event :
    error_event vanished ≡ record { code = 1011; reason = peer_connection_lost; normal = false }
unfolding error_event is_valid_received_close_code
vanished_event = refl

vanished_is_valid :
    ((((error_event vanished).code == close_no_status_received)
        || is_valid_received_close_code (error_event vanished).code)
      ≡ true)
    × ((error_event vanished).normal ≡ is_normal_close_code (error_event vanished).code)
vanished_is_valid = error_event_code vanished

failed_row :
    find
      (λ r. r.id == 12)
      (record_outcome 12 false (record { db = store; replies = [] })).db.sessions
    ≡ some (record (session_row 12 2) { status = failed })
failed_row = record_outcome_lem 12 false store (session_row 12 2) refl refl
