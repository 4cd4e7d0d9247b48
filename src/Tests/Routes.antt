-- ===== src/Tests/Routes.antt =====
-- The two relay routes.
use playwright_distributed.Base.{
  ◌≡◌, refl, true, false, none, some, [], ◌∷◌, codes, bytes_eq, span, strip_prefix,
}
use playwright_distributed.Db.Models.{chromium, pending}
use playwright_distributed.Db.Driver.{statement}
use playwright_distributed.Db.Sessions.{get_session}
use playwright_distributed.Http.Auth.{
  authenticated, counted, requires_authentication, required_then, authenticate,
}
use playwright_distributed.Http.Relay.Attach.{already_attached}
use playwright_distributed.Http.Relay.{
  RelayRequest, replied, attaches, same_origin, preflight, relay_authorization, authenticate_relay,
  incompatible, found_session, Authenticator, explicit, requested_browser, implicit_admitted,
  implicit,
}
use playwright_distributed.Relay.Version.{major_minor, version_prefix, agent_at, user_agent_version}
use playwright_distributed.Http.Relay.Guard.{IsLetIn, explicit-IsLetIn}
use playwright_distributed.Db.ApiKeys.{count_active_api_keys}
use playwright_distributed.Tests.Data.{
  version, session_row, store, at_peace, waiting, with_waiting, gives, nobody,
}
use playwright_distributed.ApiKeyCommand.Tokens.{header}

abbrev client : RelayRequest
client = record {
  is_upgrade = true;
  origins = codes "http://h" ∷ [];
  host = codes "h";
  authorization = [];
  token = codes "pwd_x";
  browser = [];
  user_agent = codes "Playwright/1.58.0";
}

abbrev lets_pass : Authenticator
lets_pass header latched w = (authenticated nobody, latched, w)

checked : preflight (λ origin. some (codes "h")) bytes_eq true client ≡ none
unfolding preflight
checked = refl

header_of_token : relay_authorization client ≡ codes "Bearer pwd_x"
header_of_token = refl

-- The session is running; and the next one waits, for another version.
not_explicit :
    (explicit none lets_pass (some 11) client true (at_peace with_waiting)).0
    ≡ replied already_attached
unfolding explicit found_session authenticate_relay statement get_session
not_explicit = refl

other_version :
    (explicit none lets_pass (some 13) client true (at_peace with_waiting)).0
    ≡ replied (incompatible (codes "1.58") version)
unfolding explicit found_session authenticate_relay statement get_session user_agent_version
    agent_at major_minor span strip_prefix version_prefix
other_version = refl

implicit_session :
    (implicit chromium none lets_pass (some gives) client true (at_peace store)).0
    ≡ attaches (record (session_row 14 1) { status = pending })
unfolding implicit authenticate_relay implicit_admitted requested_browser
implicit_session = refl

abbrev same_version : RelayRequest
same_version = record client { user_agent = codes "Playwright/1.57.1" }

-- No key exists, and the session of the id waits.
let_in :
    (explicit
      (preflight (λ origin. some (codes "h")) bytes_eq true same_version)
      (λ header. authenticate (λ token. token) 150 header false)
      (some 13)
      same_version
      false
      (at_peace with_waiting)).0
    ≡ attaches waiting
unfolding explicit preflight same_origin found_session authenticate_relay statement get_session
    user_agent_version agent_at major_minor span strip_prefix version_prefix authenticate
    requires_authentication counted required_then count_active_api_keys
let_in = refl

explicit-IsLetIn_example :
    IsLetIn
      (λ origin. some (codes "h"))
      bytes_eq
      (λ token. token)
      true
      same_version
      false
      false
      with_waiting
      waiting
explicit-IsLetIn_example =
    explicit-IsLetIn (λ origin. some (codes "h")) bytes_eq (λ token. token) true false false 150
      (some 13) same_version (at_peace with_waiting) waiting let_in
