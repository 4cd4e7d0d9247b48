-- ===== src/Db/ApiKeys.antt =====
-- The API-key statements: server/internal/db/data/api_keys.sql.go.
pub mod KeyMap
pub mod Refinement
use playwright_distributed.Base.{
  unavailable, no_rows, fault, Result, ok, err, ℕ, ◌+◌, Bool, true, false, ◌&&◌, ◌||◌, none, some,
  List, [], ◌∷◌, ◌++◌, ltb, ◌==◌, if◌then◌else◌, count, any, Bytes, delete, update, find, sort_by,
  bytes_eq,
}
use playwright_distributed.Db.Models.{ApiKey, Session, Database, created_before, one_row}

-- revoked_at IS NULL.
abbrev pub is_unrevoked : ApiKey → Bool
is_unrevoked k = elim k.revoked_at [ none ↦ true | some t ↦ false ]

unfoldable pub count_active_api_keys : Database → ℕ
count_active_api_keys db = count is_unrevoked db.api_keys

abbrev pub created_by : ℕ → Session → Bool
created_by id s = elim s.created_by_key [ none ↦ false | some k ↦ k == id ]

-- ON DELETE RESTRICT: a key that a session names stays, and the statement fails.
unfoldable pub delete_api_key : ℕ → Database → Result (Unit {0}) × Database
delete_api_key id db =
    if any (λ k. k.id == id) db.api_keys && any (created_by id) db.sessions
    then (err (fault unavailable), db)
    else (ok tt, record db { api_keys = delete (λ k. k.id == id) db.api_keys })

unfoldable pub get_api_key : ℕ → Database → Result ApiKey
get_api_key id db = one_row (find (λ k. k.id == id) db.api_keys)

unfoldable pub get_active_api_key_by_hash : Bytes → Database → Result ApiKey
get_active_api_key_by_hash hash db =
    one_row (find (λ k. bytes_eq k.hash hash && is_unrevoked k) db.api_keys)

pub record InsertApiKeyParams : Type 0 where
  pub id : ℕ
  pub name : Bytes
  pub hash : Bytes
  pub prefix : Bytes

-- The id is the primary key and the hash is unique.
unfoldable pub insert_api_key : ℕ → InsertApiKeyParams → Database → Result ApiKey × Database
insert_api_key now p db =
    let key : ApiKey = record {
      id = p.id;
      name = p.name;
      hash = p.hash;
      prefix = p.prefix;
      created_at = now;
      last_used_at = none;
      revoked_at = none;
    } in
    if any (λ k. (k.id == p.id) || bytes_eq k.hash p.hash) db.api_keys
    then (err (fault unavailable), db)
    else (ok key, record db { api_keys = db.api_keys ++ (key ∷ []) })

unfoldable pub revoke_api_key : ℕ → ℕ → Database → Result ApiKey × Database
revoke_api_key now id db =
    let p : ApiKey → Bool = λ k. (k.id == id) && is_unrevoked k in
    let f : ApiKey → ApiKey = λ k. record k { revoked_at = some now } in
    elim (find p db.api_keys) [
      | none ↦ (err no_rows, db)
      | some k ↦ (ok (f k), record db { api_keys = update p f db.api_keys })
    ]

abbrev pub minute : ℕ
minute = 60_000_000

unfoldable pub touch_api_key : ℕ → ℕ → Database → Database
touch_api_key now id db = record db {
  api_keys =
      update
        (λ k. (k.id == id) && elim k.last_used_at [ none ↦ true | some t ↦ ltb (t + minute) now ])
        (λ k. record k { last_used_at = some now }) db.api_keys;
}

unfoldable pub list_api_keys : Database → List ApiKey
list_api_keys db = sort_by (λ k l. created_before k.created_at k.id l.created_at l.id) db.api_keys
