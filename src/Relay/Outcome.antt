-- ===== src/Relay/Outcome.antt =====
-- How a relay ends, in server/internal/relay/manager.go: the event of a broken peer connection
-- (errorEvent) and the outcome that Run records on the session (recordOutcome).
use playwright_distributed.Base.{
  ℕ, ◌≡◌, refl, inl, inr, Bool, true, false, not, ◌&&◌, ◌||◌, some, List, [], ◌∷◌, arith, leb, ◌==◌,
  if◌then◌else◌, Bool-cases, elem, Bytes, find, find-test, find-update, find-narrow,
}
use playwright_distributed.Db.Driver.{World, statement}
use playwright_distributed.Db.Sessions.{set_status, complete_session, fail_session}
use playwright_distributed.Db.Models.{
  running, completed, failed, Session, Database, is_active, is_running,
}

-- The close codes that the websocket library names.
abbrev close_normal_closure : ℕ
close_normal_closure = 1000

abbrev pub close_going_away : ℕ
close_going_away = 1001

abbrev pub close_no_status_received : ℕ
close_no_status_received = 1005

abbrev pub close_internal_server_err : ℕ
close_internal_server_err = 1011

-- Protocol error, unsupported data, invalid payload, policy violation, message too big, mandatory
-- extension, internal server error, service restart, try again later.
abbrev named_close_codes : List ℕ
named_close_codes =
    close_normal_closure ∷ close_going_away ∷ 1002 ∷ 1003 ∷ 1007 ∷ 1008 ∷ 1009 ∷ 1010
    ∷ close_internal_server_err ∷ 1012 ∷ 1013 ∷ []

unfoldable pub is_valid_received_close_code : ℕ → Bool
is_valid_received_close_code code = elem code named_close_codes || (leb 3000 code && leb code 4999)

unfoldable pub is_normal_close_code : ℕ → Bool
is_normal_close_code code =
    (code == close_normal_closure)
    || ((code == close_going_away) || (code == close_no_status_received))

-- A CloseError of the websocket library, or any other error.
pub data PeerError : Type 0 where
  close_error : ℕ → Bytes → PeerError
  other_error : PeerError

pub data Reason : Type 0 where
  peer_connection_lost relay_error : Reason
  text : Bytes → Reason

-- The `err` of an event is only logged.
pub record RelayEvent : Type 0 where
  pub code : ℕ
  pub reason : Reason
  pub normal : Bool

unfoldable pub error_event : PeerError → RelayEvent
error_event (close_error code reason) =
    if not (code == close_no_status_received) && not (is_valid_received_close_code code)
    then record { code = close_internal_server_err; reason = peer_connection_lost; normal = false }
    else record { code = code; reason = text reason; normal = is_normal_close_code code }
error_event other_error = record {
  code = close_internal_server_err;
  reason = relay_error;
  normal = false;
}

-- An error of the statement is only logged.
unfoldable pub record_outcome : ℕ → Bool → World → World
record_outcome session_id normal w =
    if normal
    then (statement (complete_session session_id) w).1
    else (statement (fail_session session_id) w).1

internal_is_valid :
    ((close_internal_server_err == close_no_status_received)
      || is_valid_received_close_code close_internal_server_err)
    ≡ true
unfolding is_valid_received_close_code
internal_is_valid = refl

internal_is_abnormal : false ≡ is_normal_close_code close_internal_server_err
unfolding is_normal_close_code
internal_is_abnormal = refl

-- The code that is sent on to both peers is one that an endpoint may send in a close frame, or 1005,
-- for which the frame has no code; and the relay counts as normal exactly if that code is 1000, 1001
-- or 1005.
pub error_event_code :
    (e : PeerError)
    → ((((error_event e).code == close_no_status_received)
          || is_valid_received_close_code (error_event e).code)
        ≡ true)
      × ((error_event e).normal ≡ is_normal_close_code (error_event e).code)
unfolding error_event
error_event_code other_error = (internal_is_valid, internal_is_abnormal)
error_event_code (close_error code reason) =
    elim (Bool-cases
      (not (code == close_no_status_received) && not (is_valid_received_close_code code))) [
        | inl e ↦
            let same : error_event (close_error code reason) ≡ record {
              code = close_internal_server_err;
              reason = peer_connection_lost;
              normal = false;
            } =
              ground arith in
            rw same (internal_is_valid, internal_is_abnormal)
        | inr e ↦
            let same : error_event (close_error code reason)
                ≡ record { code = code; reason = text reason; normal = is_normal_close_code code } =
              ground arith in
            rw same (ground arith, refl)
      ]

module _ (session_id : ℕ) (normal : Bool) (db : Database) (s : Session) where
  -- The session row that a relay leaves.
  abbrev recorded : Session
  recorded = record s { status = if normal then completed else failed }

  -- When a relay of a running session ends and the statement's round trip succeeds, the row of the
  -- session is completed after a normal end and failed after any other.
  pub record_outcome_lem :
      find (λ r. r.id == session_id) db.sessions ≡ some s
      → s.status ≡ running
      → find
          (λ r. r.id == session_id)
          (record_outcome session_id normal (record { db = db; replies = [] })).db.sessions
        ≡ some recorded
  unfolding record_outcome statement complete_session fail_session
  record_outcome_lem e h = elim (Bool-cases normal) [
    | inl n ↦
        let one =
          find-narrow (λ r. (r.id == session_id) && is_running r.status) (λ r. r.id == session_id)
            db.sessions s (λ r k. ground arith)
            (ground (arith, h, find-test (λ r. r.id == session_id) db.sessions s e)) e in
        let new =
          find-update (λ r. (r.id == session_id) && is_running r.status) (λ r. r.id == session_id)
            (set_status completed) db.sessions s (λ r. refl) (find-test _ db.sessions s one) e in
        ground (arith, one, new)
    | inr n ↦
        let one =
          find-narrow (λ r. (r.id == session_id) && is_active r.status) (λ r. r.id == session_id)
            db.sessions s (λ r k. ground arith)
            (ground (arith, h, find-test (λ r. r.id == session_id) db.sessions s e)) e in
        let new =
          find-update (λ r. (r.id == session_id) && is_active r.status) (λ r. r.id == session_id)
            (set_status failed) db.sessions s (λ r. refl) (find-test _ db.sessions s one) e in
        ground (arith, one, new)
  ]
