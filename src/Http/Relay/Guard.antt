-- ===== src/Http/Relay/Guard.antt =====
-- Which requests reach a session.
use playwright_distributed.Base.{
  no_rows, Result, ok, err, ℕ, ◌≡◌, refl, sym, subst, ◌⊎◌, inl, inr, Bool, true, Option, none, some,
  List, [], ◌∷◌, arith, Bool-cases, Option-cases, Bytes, bytes_eq, eq_of_bytes_eq,
}
use playwright_distributed.Db.Models.{SessionStatus, pending, running, Session, Database}
use playwright_distributed.Db.Driver.{World}
use playwright_distributed.Relay.Version.{version_prefix, user_agent_version}
use playwright_distributed.Http.Auth.{Principal, AuthResult, authenticated, rejected, authenticate}
use playwright_distributed.Http.Auth.Guard.{IsKeyHolder, IsOpen, authenticate_sound}
use playwright_distributed.Http.Response.{Refusal}
use playwright_distributed.Http.Relay.{
  RelayRequest, RelayReply, attaches, same_origin, preflight, relay_authorization,
  authenticate_relay, prefix_or_empty, check_version, check_status, found_session, Authenticator,
  session_of, explicit,
}

-- The client tells no version, or one of the prefix of the session's version.
abbrev pub IsCompatible : Option (Bytes × Bytes) → Session → Type 0
IsCompatible none s = Unit
IsCompatible (some (client_version, client_prefix)) s =
    client_prefix ≡ prefix_or_empty (version_prefix s.playwright_version)

check_version_attaches :
    (told : Option (Bytes × Bytes)) (s t : Session)
    → check_version told s ≡ attaches t
    → (t ≡ s) × IsCompatible told s
unfolding check_version
check_version_attaches none s t h = (ground arith, tt)
check_version_attaches (some (v, q)) s t h =
    elim (Bool-cases (bytes_eq q (prefix_or_empty (version_prefix s.playwright_version)))) [
      | inl e ↦
          (ground arith, eq_of_bytes_eq q (prefix_or_empty (version_prefix s.playwright_version)) e)
      | inr e ↦ absurd (ground arith)
    ]

check_status_attaches :
    (user_agent : Bytes) (status : SessionStatus) (s t : Session)
    → check_status user_agent status s ≡ attaches t
    → (status ≡ pending) × ((t ≡ s) × IsCompatible (user_agent_version user_agent) s)
unfolding check_status
check_status_attaches user_agent pending s t h =
    (refl, check_version_attaches (user_agent_version user_agent) s t h)
check_status_attaches user_agent running s t h = cc
check_status_attaches user_agent status s t h = cc

found_session_attaches :
    (user_agent : Bytes) (r : Result Session × World) (t : Session)
    → (found_session user_agent r).0 ≡ attaches t
    → (t.status ≡ pending) × IsCompatible (user_agent_version user_agent) t
unfolding found_session
found_session_attaches user_agent (ok s, w) t h =
    let (waits, (same, fits)) = check_status_attaches user_agent s.status s t h in
    (
      subst (λ x. x.status ≡ pending) (sym same) waits,
      subst (IsCompatible (user_agent_version user_agent)) (sym same) fits,
    )
found_session_attaches user_agent (err no_rows, w) t h = cc
found_session_attaches user_agent (err e, w) t h = cc

session_of_attaches :
    (user_agent : Bytes) (session_id : Option ℕ) (w : World) (t : Session)
    → (session_of user_agent session_id w).0 ≡ attaches t
    → (t.status ≡ pending) × IsCompatible (user_agent_version user_agent) t
unfolding session_of
session_of_attaches user_agent none w t h = cc
session_of_attaches user_agent (some id) w t h = found_session_attaches user_agent _ t h

authenticate_relay_attaches :
    (r : AuthResult × Bool × World) (next : Principal → World → RelayReply × World) (t : Session)
    → (authenticate_relay r next).0 ≡ attaches t
    → (p : Principal) × ((r.0 ≡ authenticated p) × ((next p r.2).0 ≡ attaches t))
unfolding authenticate_relay
authenticate_relay_attaches (authenticated p, latched, w) next t h = (p, (refl, h))
authenticate_relay_attaches (rejected e, latched, w) next t h = cc

module _ (origin_host : Bytes → Option Bytes) (equal_fold : Bytes → Bytes → Bool)
    (sha : Bytes → Bytes) where
  -- A request that names no origin, as clients that are no browsers do, or one origin, of its own host.
  abbrev pub FromOrigin : RelayRequest → Type 0
  FromOrigin request =
      (request.origins ≡ [])
      ⊎ ((origin : Bytes) × ((host : Bytes) × ((request.origins ≡ origin ∷ [])
              × ((origin_host origin ≡ some host) × (equal_fold host request.host ≡ true)))))

  same_origin-FromOrigin :
      (request : RelayRequest) (origins : List Bytes)
      → request.origins ≡ origins
      → same_origin origin_host equal_fold request origins ≡ true
      → FromOrigin request
  unfolding same_origin
  same_origin-FromOrigin request [] e h = inl e
  same_origin-FromOrigin request (origin ∷ []) e h = elim (Option-cases (origin_host origin)) [
    | inl n ↦ absurd (ground arith)
    | inr (host, n) ↦ inr (origin, (host, (e, (n, ground arith))))
  ]
  same_origin-FromOrigin request (origin ∷ o ∷ os) e h = absurd (ground arith)

  -- A request that may attach to a session.
  pub record IsLetIn (accepting : Bool) (request : RelayRequest) (meanwhile latched : Bool)
      (db : Database) (s : Session) : Type 0 where
    pub upgrades : request.is_upgrade ≡ true
    pub from_origin : FromOrigin request
    pub still_accepting : accepting ≡ true
    pub principal : Principal
    pub passes :
        IsOpen latched meanwhile db principal
        ⊎ IsKeyHolder sha (relay_authorization request) db principal
    pub waits : s.status ≡ pending
    pub fits : IsCompatible (user_agent_version request.user_agent) s

  preflight-none :
      (accepting : Bool) (request : RelayRequest)
      → preflight origin_host equal_fold accepting request ≡ none
      → (request.is_upgrade ≡ true)
        × ((same_origin origin_host equal_fold request request.origins ≡ true) × (accepting ≡ true))
  unfolding preflight
  preflight-none accepting request h = ground arith

  explicit-none :
      (preflighted : Option Refusal) (auth : Authenticator) (session_id : Option ℕ)
      (request : RelayRequest) (latched : Bool) (w : World) (s : Session)
      → (explicit preflighted auth session_id request latched w).0 ≡ attaches s
      → (preflighted ≡ none) × ((explicit none auth session_id request latched w).0 ≡ attaches s)
  unfolding explicit
  explicit-none (some r) auth session_id request latched w s h = cc
  explicit-none none auth session_id request latched w s h = (refl, h)

  -- The route of a session attaches only a WebSocket upgrade that names no origin, or one origin
  -- whose host is that of the request, while the relays accept, that holds an unrevoked key or
  -- needs none; and only to a pending session, of the client's major and minor version if the
  -- client tells its version.
  pub explicit-IsLetIn :
      (accepting meanwhile latched : Bool) (now : ℕ) (session_id : Option ℕ)
      (request : RelayRequest) (w : World) (s : Session)
      → (explicit
          (preflight origin_host equal_fold accepting request)
          (λ header. authenticate sha now header meanwhile)
          session_id
          request
          latched
          w).0
        ≡ attaches s
      → IsLetIn accepting request meanwhile latched w.db s
  unfolding explicit
  explicit-IsLetIn accepting meanwhile latched now session_id request w s h =
      let (e, g) = explicit-none _ _ session_id request latched w s h in
      let (upgrades, (from_origin, accepts)) = preflight-none accepting request e in
      let (p, (passed, next)) = authenticate_relay_attaches _ _ s g in
      let (waits, fits) = session_of_attaches request.user_agent session_id _ s next in
      record {
        upgrades = upgrades;
        from_origin = same_origin-FromOrigin request request.origins refl from_origin;
        still_accepting = accepts;
        principal = p;
        passes =
            authenticate_sound sha now (relay_authorization request) meanwhile latched w p passed;
        waits = waits;
        fits = fits;
      }
