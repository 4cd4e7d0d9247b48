-- ===== src/Http/Response.antt =====
-- What a handler of server/internal/httpapi answers, and authMiddleware of middleware.go.
use playwright_distributed.Base.{
  canceled, Error, fault, uncertain_commit, ℕ, Bool, true, false, Bytes, codes,
}
use playwright_distributed.Db.Driver.{World}
use playwright_distributed.Http.Auth.{
  AuthError, unauthorized, auth_backend, Principal, AuthResult, authenticated, rejected,
}

-- A refusal: the status, the message, and whether there are the headers Retry-After: 1 and
-- WWW-Authenticate: Bearer.
pub record Refusal : Type 0 where
  pub status : ℕ
  pub message : Bytes
  pub retry_after : Bool
  pub bearer : Bool

-- A handler answers with a status and a body, refuses, or passes an error on to the framework.
pub data Answer (A : Type 0) : Type 0 where
  answered : ℕ → A → Answer A
  refuses : Refusal → Answer A
  passes_on : Error → Answer A

abbrev pub refusal : ℕ → Bytes → Refusal
refusal status message = record {
  status = status;
  message = message;
  retry_after = false;
  bearer = false;
}

abbrev pub retry_later : Bytes → Refusal
retry_later message = record (refusal 503 message) { retry_after = true }

abbrev pub unauthorized_refusal : Refusal
unauthorized_refusal = record (refusal 401 (codes "unauthorized")) { bearer = true }

abbrev pub refuse : {A : Type 0} → ℕ → Bytes → Answer A
refuse status message = refuses (refusal status message)

abbrev pub internal_error : {A : Type 0} → Answer A
internal_error = refuse 500 (codes "internal server error")

-- errors.Is(err, context.Canceled): an uncertain commit wraps its cause.
abbrev pub is_canceled : Error → Bool
is_canceled (fault canceled) = true
is_canceled (uncertain_commit canceled) = true
is_canceled e = false

pub auth_refusal : AuthError → Refusal
auth_refusal unauthorized = unauthorized_refusal
auth_refusal auth_backend = retry_later (codes "authentication service unavailable")

-- The next handler runs on the principal of a request that passes.
unfoldable pub auth_middleware :
    {A : Type 0}
    → AuthResult × Bool × World
    → (Principal → World → Answer A × World)
    → Answer A × Bool × World
unfolding auth_refusal
auth_middleware (authenticated p, latched, w) next =
    let (answer, w') = next p w in (answer, latched, w')
auth_middleware (rejected e, latched, w) next = (refuses (auth_refusal e), latched, w)
