-- ===== src/Http/Sessions.antt =====
-- The session and capacity handlers of registerPublicRoutes in server/internal/httpapi/server.go, with
-- the types of models.go. Parameters are the encoding and decoding of JSON objects.
pub mod Answers
pub mod Deletion
use playwright_distributed.Base.{
  Error, no_rows, queue_full, wait_timeout, Result, ok, err, ℕ, ◌*◌, Option, none, some, [], ◌∷◌,
  ltb, if◌then◌else◌, length, Bytes, codes,
}
use playwright_distributed.Db.Models.{
  Browser, SessionMode, default, dedicated, SessionStatus, Session, Database,
}
use playwright_distributed.Db.Driver.{World, statement, query}
use playwright_distributed.Db.Sessions.{terminate_session, get_session}
use playwright_distributed.Scheduler.Settings.{ClaimRequest}
use playwright_distributed.Http.Auth.{Principal}
use playwright_distributed.Http.Response.{
  Answer, answered, refuses, passes_on, retry_later, refuse, internal_error, is_canceled,
}
use playwright_distributed.Relay.Version.{version_prefix}

abbrev pub max_connect_metadata_size : ℕ
max_connect_metadata_size = 8 * 1_024

-- The body of a request to create a session, checked against its schema. An empty version is one left
-- out.
pub record CreateSessionBody (Metadata : Type 0) : Type 0 where
  pub browser : Browser
  pub mode : SessionMode
  pub playwright_version : Bytes
  pub connect_metadata : Option Metadata

pub record SessionBody (Metadata : Type 0) : Type 0 where
  pub id : ℕ
  pub worker_id : ℕ
  pub browser : Browser
  pub playwright_version : Bytes
  pub worker_address : Bytes
  pub mode : SessionMode
  pub status : SessionStatus
  pub created_by_key : Option ℕ
  pub created_at : ℕ
  pub started_at : Option ℕ
  pub expires_at : Option ℕ
  pub last_heartbeat : ℕ
  pub keep_alive_ms : Option ℕ
  pub connect_metadata : Metadata

-- The prefix of the version asked for: an empty one for no version, and none for a text that is no
-- version.
pub requested_prefix : Bytes → Option Bytes
requested_prefix [] = some []
requested_prefix (c ∷ cs) = version_prefix (c ∷ cs)

pub admission_answer : {A : Type 0} → Error → Answer A
admission_answer queue_full = refuse 429 (codes "session capacity and queue are full")
admission_answer wait_timeout = refuses (retry_later (codes "session queue wait timed out"))
admission_answer Error.draining = refuses (retry_later (codes "server is shutting down"))
admission_answer e = if is_canceled e then passes_on e else internal_error

module _ {Metadata : Type 0} (no_metadata : Metadata) (marshal : Metadata → Option Bytes)
    (unmarshal : Bytes → Option Metadata) where
  unfoldable pub session_from_data : Session → Option (SessionBody Metadata)
  session_from_data s = elim (unmarshal s.connect_metadata) [
    | none ↦ none
    | some metadata ↦ some (record {
      id = s.id;
      worker_id = s.worker_id;
      browser = s.browser;
      playwright_version = s.playwright_version;
      worker_address = s.worker_address;
      mode = s.mode;
      status = s.status;
      created_by_key = s.created_by_key;
      created_at = s.created_at;
      started_at = s.started_at;
      expires_at = s.expires_at;
      last_heartbeat = s.last_heartbeat;
      keep_alive_ms = s.keep_alive_ms;
      connect_metadata = metadata;
    })
  ]

  unfoldable pub session_answer : ℕ → Option (SessionBody Metadata) → Answer (SessionBody Metadata)
  session_answer status none = internal_error
  session_answer status (some body) = answered status body

  unfoldable pub created : Result Session → Answer (SessionBody Metadata)
  unfolding admission_answer session_from_data session_answer
  created (ok s) = session_answer 201 (session_from_data s)
  created (err e) = admission_answer e

  -- The request to the scheduler, which is none if it is not configured.
  unfoldable pub admitted :
      Principal
      → CreateSessionBody Metadata
      → Option (ClaimRequest → Result Session)
      → Bytes
      → Answer (SessionBody Metadata)
  unfolding created requested_prefix
  admitted p body none encoded = internal_error
  admitted p body (some admit) encoded = elim (requested_prefix body.playwright_version) [
    | none ↦ refuse 422 (codes "playwright_version must be semver or major.minor")
    | some prefix ↦ created (
        admit (record {
          browser = body.browser;
          version_prefix = prefix;
          created_by_key = p.key_id;
          connect_metadata = some encoded;
        }))
  ]

  unfoldable pub encoded_as :
      Option (ClaimRequest → Result Session)
      → Principal
      → CreateSessionBody Metadata
      → Option Bytes
      → Answer (SessionBody Metadata)
  unfolding admitted
  encoded_as scheduler p body none = refuse 422 (codes "connect_metadata must be a JSON object")
  encoded_as scheduler p body (some encoded) =
      if ltb max_connect_metadata_size (length encoded)
      then refuse 422 (codes "connect_metadata must not exceed 8 KiB")
      else admitted p body scheduler encoded

  -- Metadata left out are an empty object.
  unfoldable pub in_mode :
      Option (ClaimRequest → Result Session)
      → Principal
      → CreateSessionBody Metadata
      → SessionMode
      → Answer (SessionBody Metadata)
  unfolding encoded_as
  in_mode scheduler p body dedicated = refuse 422 (codes "dedicated mode is not available yet")
  in_mode scheduler p body default =
      encoded_as scheduler p body
        (marshal (elim body.connect_metadata [ none ↦ no_metadata | some m ↦ m ]))

  unfoldable pub create_session :
      Option (ClaimRequest → Result Session)
      → Principal
      → CreateSessionBody Metadata
      → Answer (SessionBody Metadata)
  unfolding in_mode
  create_session scheduler p body = in_mode scheduler p body body.mode

  unfoldable pub got_session : Result Session × World → Answer (SessionBody Metadata) × World
  unfolding session_from_data session_answer
  got_session (ok s, w) = (session_answer 200 (session_from_data s), w)
  got_session (err no_rows, w) = (refuse 404 (codes "session not found"), w)
  got_session (err e, w) = (internal_error, w)

  unfoldable pub get_session_handler : ℕ → World → Answer (SessionBody Metadata) × World
  unfolding got_session
  get_session_handler id w = got_session (query (get_session id) w)

-- The lookup after a termination that found no active session.
unfoldable pub looked_up : Result Session × World → Answer (Unit {0}) × World
looked_up (ok s, w) = (answered 204 tt, w)
looked_up (err no_rows, w) = (refuse 404 (codes "session not found"), w)
looked_up (err e, w) = (internal_error, w)

-- `others` is what other transactions do between the two statements.
unfoldable pub terminated :
    ℕ → (Database → Database) → Result Session × World → Answer (Unit {0}) × World
unfolding looked_up
terminated id others (ok s, w) = (answered 204 tt, w)
terminated id others (err no_rows, w) =
    looked_up (query (get_session id) (record w { db = others w.db }))
terminated id others (err e, w) = (internal_error, w)

unfoldable pub delete_session : ℕ → (Database → Database) → World → Answer (Unit {0}) × World
unfolding terminated
delete_session id others w = terminated id others (statement (terminate_session id) w)
