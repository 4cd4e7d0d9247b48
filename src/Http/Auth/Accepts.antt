-- ===== src/Http/Auth/Accepts.antt =====
-- Which requests pass the authentication for sure.
use playwright_distributed.Base.{
  ok, ℕ, zero, suc, ◌≤◌, ◌≡◌, refl, Bool, true, false, some, [], arith, Bytes,
}
use playwright_distributed.Http.Auth.{
  authenticated, bearer_token, counted, requires_authentication, found_key, check_token,
  required_then, authenticate,
}
use playwright_distributed.Db.Models.{ApiKey, Database}
use playwright_distributed.Db.Driver.{World, statement}
use playwright_distributed.Db.ApiKeys.{count_active_api_keys, get_active_api_key_by_hash}

-- Tables at rest: every reply arrives.
abbrev pub at_rest : Database → World
at_rest db = record { db = db; replies = [] }

counted_some :
    (meanwhile : Bool) (n : ℕ) (w : World) → 1 ≤ n → counted meanwhile (ok n, w) ≡ (ok true, w)
unfolding counted
counted_some meanwhile zero w h = absurd (omega arith)
counted_some meanwhile (suc n) w h = refl

required_some :
    (latched meanwhile : Bool) (db : Database)
    → 1 ≤ count_active_api_keys db
    → requires_authentication latched meanwhile (at_rest db) ≡ (ok true, at_rest db)
unfolding requires_authentication statement
required_some true meanwhile db h = refl
required_some false meanwhile db h =
    counted_some meanwhile (count_active_api_keys db) (at_rest db) h

-- A request whose token has an unrevoked key is let pass as that key.
pub key_passes :
    (sha : Bytes → Bytes) (now : ℕ) (authorization token : Bytes) (meanwhile latched : Bool)
    (db : Database) (key : ApiKey)
    → bearer_token authorization ≡ some token
    → 1 ≤ count_active_api_keys db
    → get_active_api_key_by_hash (sha token) db ≡ ok key
    → (authenticate sha now authorization meanwhile latched (at_rest db)).0
      ≡ authenticated (record { key_id = some key.id })
unfolding authenticate required_then check_token found_key statement
key_passes sha now authorization token meanwhile latched db key e n g =
    rw (required_some latched meanwhile db n, e, g) refl
