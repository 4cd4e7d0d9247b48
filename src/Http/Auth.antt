-- ===== src/Http/Auth.antt =====
-- Authentication by API key: TokenAuthenticator of server/internal/httpapi/auth.go. The hash of a
-- token, SHA-256 written in hexadecimal, is a parameter.
pub mod Bearer
pub mod Guard
pub mod Accepts
use playwright_distributed.Base.{
  no_rows, Result, ok, err, ℕ, zero, suc, ◌+◌, Bool, true, false, not, ◌&&◌, ◌||◌, Option, none,
  some, map, leb, ◌==◌, if◌then◌else◌, any, Bytes, codes, is_empty, bytes_eq, span, after_byte,
  strip_prefix,
}
use playwright_distributed.Db.Driver.{World, M, statement, query}
use playwright_distributed.Db.ApiKeys.{
  count_active_api_keys, get_active_api_key_by_hash, touch_api_key,
}
use playwright_distributed.Db.Models.{ApiKey}

pub data AuthError : Type 0 where
  unauthorized auth_backend : AuthError

-- None is the principal of a request that needs no key.
pub record Principal : Type 0 where
  pub key_id : Option ℕ

pub data AuthResult : Type 0 where
  authenticated : Principal → AuthResult
  rejected : AuthError → AuthResult

-- ASCII letters in lower case. No letter of "Bearer" folds to another character.
abbrev pub to_lower : ℕ → ℕ
to_lower c = if leb b'A' c && leb c b'Z' then c + 32 else c

abbrev pub is_blank : ℕ → Bool
is_blank c = (c == 32) || ((c == 9) || ((c == 13) || (c == 10)))

abbrev pub token_prefix : Bytes
token_prefix = codes "pwd_"

abbrev pub is_bearer : Bytes → Bool
is_bearer scheme = bytes_eq (map to_lower scheme) (codes "bearer")

-- A token has its prefix, something after it, and no blank.
abbrev pub is_token : Bytes → Bool
is_token token = elim (strip_prefix token_prefix token) [
  | none ↦ false
  | some rest ↦ not (is_empty rest) && not (any is_blank token)
]

unfoldable pub token_of : Bytes → Option Bytes → Option Bytes
token_of scheme none = none
token_of scheme (some token) = if is_bearer scheme && is_token token then some token else none

-- The scheme ends at the first space.
unfoldable pub bearer_token : Bytes → Option Bytes
unfolding token_of
bearer_token authorization =
    let (scheme, rest) = span (λ c. not (c == 32)) authorization in
    token_of scheme (after_byte 32 rest)

-- `latched` is authRequired, and `meanwhile` whether another request sets it before the second read.
unfoldable pub counted : Bool → Result ℕ × World → Result Bool × World
counted meanwhile (err e, w) = (err e, w)
counted meanwhile (ok zero, w) = (ok meanwhile, w)
counted meanwhile (ok (suc n), w) = (ok true, w)

-- Whether a key is needed: the answer is also the latch from then on, unless the query fails.
unfoldable pub requires_authentication : Bool → Bool → World → Result Bool × World
unfolding counted
requires_authentication latched meanwhile w =
    if latched
    then (ok true, w)
    else counted meanwhile (query (λ db. ok (count_active_api_keys db)) w)

-- A failure to touch the key is only logged.
unfoldable pub found_key : ℕ → Result ApiKey × World → AuthResult × World
found_key now (ok key, w) =
    let touch : M (Unit {0}) = statement (λ db. (ok tt, touch_api_key now key.id db)) in
    (authenticated (record { key_id = some key.id }), (touch w).1)
found_key now (err no_rows, w) = (rejected unauthorized, w)
found_key now (err e, w) = (rejected auth_backend, w)

unfoldable pub check_token : (Bytes → Bytes) → ℕ → Option Bytes → World → AuthResult × World
unfolding found_key
check_token sha now none w = (rejected unauthorized, w)
check_token sha now (some token) w =
    found_key now (query (get_active_api_key_by_hash (sha token)) w)

unfoldable pub required_then :
    (Bytes → Bytes) → ℕ → Bytes → Bool → Result Bool × World → AuthResult × Bool × World
unfolding check_token
required_then sha now authorization latched (err e, w) = (rejected auth_backend, latched, w)
required_then sha now authorization latched (ok false, w) =
    (authenticated (record { key_id = none }), latched, w)
required_then sha now authorization latched (ok true, w) =
    let (result, w') = check_token sha now (bearer_token authorization) w in (result, true, w')

-- The result, and the latch and the tables after it.
unfoldable pub authenticate :
    (Bytes → Bytes) → ℕ → Bytes → Bool → Bool → World → AuthResult × Bool × World
unfolding requires_authentication required_then
authenticate sha now authorization meanwhile latched w =
    required_then sha now authorization (latched || meanwhile)
      (requires_authentication latched meanwhile w)
