-- ===== src/Http/Relay.antt =====
-- The relay handlers of server/internal/httpapi/relay.go. Parameters are the host name of an origin and
-- the equality of host names up to case. What a handler does after it has attached is in Attach.
pub mod Attach
pub mod Guard
pub mod Dial
use playwright_distributed.Base.{
  Error, no_rows, queue_full, wait_timeout, Result, ok, err, ℕ, Bool, true, false, not, Option,
  none, some, List, [], ◌∷◌, ◌++◌, if◌then◌else◌, Bytes, codes, is_empty, bytes_eq,
}
use playwright_distributed.Db.Models.{
  Browser, chromium, firefox, webkit, SessionStatus, pending, running, Session,
}
use playwright_distributed.Db.Driver.{World, query}
use playwright_distributed.Db.Sessions.{get_session}
use playwright_distributed.Scheduler.Settings.{ClaimRequest}
use playwright_distributed.Relay.Version.{version_prefix, user_agent_version}
use playwright_distributed.Http.Auth.{Principal, AuthResult, authenticated, rejected}
use playwright_distributed.Http.Response.{Refusal, refusal, retry_later, is_canceled, auth_refusal}
use playwright_distributed.Http.Relay.Attach.{gone, already_attached}

-- An empty text stands for a header or a parameter that is missing.
pub record RelayRequest : Type 0 where
  pub is_upgrade : Bool
  pub origins : List Bytes
  pub host : Bytes
  pub authorization : Bytes
  pub token : Bytes
  pub browser : Bytes
  pub user_agent : Bytes

-- A refusal, no answer because the request was cancelled, or a session to attach to.
pub data RelayReply : Type 0 where
  replied : Refusal → RelayReply
  unanswered : RelayReply
  attaches : Session → RelayReply

pub valid_browser : Bytes → Option Browser
valid_browser name =
    if bytes_eq name (codes "chromium")
    then some chromium
    else if bytes_eq name (codes "firefox")
    then some firefox
    else if bytes_eq name (codes "webkit")
    then some webkit
    else none

module _ (origin_host : Bytes → Option Bytes) (equal_fold : Bytes → Bytes → Bool) where
  unfoldable pub same_origin : RelayRequest → List Bytes → Bool
  same_origin r [] = true
  same_origin r (origin ∷ []) = elim (origin_host origin) [
    | none ↦ false
    | some host ↦ equal_fold host r.host
  ]
  same_origin r (origin ∷ o ∷ os) = false

  -- `accepting` is the manager's Accepting.
  unfoldable pub preflight : Bool → RelayRequest → Option Refusal
  unfolding same_origin
  preflight accepting r =
      if not r.is_upgrade
      then some (refusal 426 (codes "This endpoint is for WebSocket connections only."))
      else if not (same_origin r r.origins)
      then some (refusal 403 (codes "websocket origin is not allowed"))
      else if not accepting
      then some (retry_later (codes "server is shutting down"))
      else none

-- The header, or else the token parameter.
abbrev pub relay_authorization : RelayRequest → Bytes
relay_authorization r =
    if not (is_empty r.authorization)
    then r.authorization
    else if is_empty r.token
    then []
    else codes "Bearer " ++ r.token

-- The handler goes on with the principal, after the authentication of the request.
unfoldable pub authenticate_relay :
    AuthResult × Bool × World → (Principal → World → RelayReply × World) → RelayReply × Bool × World
authenticate_relay (authenticated p, latched, w) next =
    let (reply, w') = next p w in (reply, latched, w')
authenticate_relay (rejected e, latched, w) next = (replied (auth_refusal e), latched, w)

abbrev pub incompatible : Bytes → Bytes → Refusal
incompatible client_version session_version = refusal 409 (
    codes "client Playwright version "
    ++ (client_version ++ (codes " is incompatible with session version " ++ session_version)))

-- The Go function returns an empty prefix with its false.
abbrev pub prefix_or_empty : Option Bytes → Bytes
prefix_or_empty none = []
prefix_or_empty (some prefix) = prefix

-- A client that tells its version needs a session of the same major and minor version.
pub check_version : Option (Bytes × Bytes) → Session → RelayReply
check_version none s = attaches s
check_version (some (client_version, client_prefix)) s =
    let session_prefix = prefix_or_empty (version_prefix s.playwright_version) in
    if bytes_eq client_prefix session_prefix
    then attaches s
    else replied (incompatible client_version s.playwright_version)

pub check_status : Bytes → SessionStatus → Session → RelayReply
unfolding check_version
check_status user_agent pending s = check_version (user_agent_version user_agent) s
check_status user_agent running s = replied already_attached
check_status user_agent status s = replied gone

unfoldable pub found_session : Bytes → Result Session × World → RelayReply × World
unfolding check_status
found_session user_agent (ok s, w) = (check_status user_agent s.status s, w)
found_session user_agent (err no_rows, w) = (replied (refusal 404 (codes "session not found")), w)
found_session user_agent (err e, w) = (replied (refusal 500 (codes "internal server error")), w)

-- The authentication of a request, on the latch and the tables.
abbrev pub Authenticator : Type 0
Authenticator = Bytes → Bool → World → AuthResult × Bool × World

pub session_of : Bytes → Option ℕ → World → RelayReply × World
unfolding found_session
session_of user_agent none w = (replied (refusal 404 (codes "session not found")), w)
session_of user_agent (some id) w = found_session user_agent (query (get_session id) w)

-- The session that GET /sessions/{id} attaches to. `session_id` is none for a text that is no uuid.
unfoldable pub explicit :
    Option Refusal
    → Authenticator
    → Option ℕ
    → RelayRequest
    → Bool
    → World
    → RelayReply × Bool × World
unfolding authenticate_relay session_of
explicit (some r) auth session_id request latched w = (replied r, latched, w)
explicit none auth session_id request latched w =
    authenticate_relay (auth (relay_authorization request) latched w)
      (λ p. session_of request.user_agent session_id)

pub admission_reply : Result Session → RelayReply
admission_reply (ok s) = attaches s
admission_reply (err queue_full) =
    replied (refusal 429 (codes "session capacity and queue are full"))
admission_reply (err wait_timeout) = replied (retry_later (codes "session queue wait timed out"))
admission_reply (err Error.draining) = replied (retry_later (codes "server is shutting down"))
admission_reply (err e) =
    if is_canceled e then unanswered else replied (refusal 500 (codes "internal server error"))

-- The browser that a request asks for, or the default.
unfoldable pub requested_browser : Browser → Bytes → Option Browser
unfolding valid_browser
requested_browser default_browser [] = some default_browser
requested_browser default_browser (c ∷ cs) = valid_browser (c ∷ cs)

abbrev unknown_browser : Bytes → Refusal
unknown_browser name =
    refusal 400
      (codes "Unknown browser type: " ++ (name ++ codes " - allowed: chromium, firefox, webkit"))

-- What GET / asks the scheduler for: an unknown client version is no version.
abbrev pub implicit_request : Browser → Principal → RelayRequest → ClaimRequest
implicit_request browser p r = record {
  browser = browser;
  version_prefix = elim (user_agent_version r.user_agent) [ none ↦ [] | some (v, prefix) ↦ prefix ];
  created_by_key = p.key_id;
  connect_metadata = some (codes "{}");
}

unfoldable pub implicit_admitted :
    Option (ClaimRequest → Result Session)
    → Browser
    → RelayRequest
    → Principal
    → World
    → RelayReply × World
unfolding admission_reply
implicit_admitted none browser request p w =
    (replied (refusal 500 (codes "internal server error")), w)
implicit_admitted (some admit) browser request p w =
    (admission_reply (admit (implicit_request browser p request)), w)

pub implicit_in :
    Option Browser
    → Option Refusal
    → Authenticator
    → Option (ClaimRequest → Result Session)
    → RelayRequest
    → Bool
    → World
    → RelayReply × Bool × World
unfolding authenticate_relay implicit_admitted
implicit_in none preflighted auth scheduler request latched w =
    (replied (unknown_browser request.browser), latched, w)
implicit_in (some browser) (some r) auth scheduler request latched w = (replied r, latched, w)
implicit_in (some browser) none auth scheduler request latched w =
    authenticate_relay (auth (relay_authorization request) latched w)
      (implicit_admitted scheduler browser request)

-- The session that GET / attaches to.
unfoldable pub implicit :
    Browser
    → Option Refusal
    → Authenticator
    → Option (ClaimRequest → Result Session)
    → RelayRequest
    → Bool
    → World
    → RelayReply × Bool × World
unfolding requested_browser implicit_in
implicit default_browser preflighted auth scheduler request latched w =
    implicit_in (requested_browser default_browser request.browser) preflighted auth scheduler
      request latched w
