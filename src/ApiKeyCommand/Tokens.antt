-- ===== src/ApiKeyCommand/Tokens.antt =====
-- A new token is one that the server accepts, until its key is revoked.
use playwright_distributed.Http.Auth.{is_blank}
use playwright_distributed.Db.Driver.Queries.{statement_ok}
use playwright_distributed.Base.{
  Result, ok, err, ℕ, ◌+◌, ◌*◌, ◌/◌, ◌%◌, ◌≡◌, refl, ap, ◌∙◌, ◌≢◌, inl, inr, Bool, true, false,
  ◌||◌, none, some, [], ◌∷◌, ◌++◌, arith, ◌==◌, Bool-cases, any, All, any-false, Bytes, codes,
  is_empty, bytes_eq,
}
use playwright_distributed.ApiKeyCommand.{
  name_required, done, stopped, url_char, encode_raw_url, generate_token, key_params, cleaned_up,
  inserted, create,
}
use playwright_distributed.Http.Auth.Bearer.{IsBearer}
use playwright_distributed.Db.Models.{ApiKey, Database}
use playwright_distributed.Db.Driver.{World, statement}
use playwright_distributed.Db.ApiKeys.{InsertApiKeyParams, insert_api_key}

url_char_shown : (i : ℕ) → is_blank (url_char i) ≡ false
url_char_shown i = ground arith

encode_shown : (bytes : Bytes) → All (λ c. is_blank c ≡ false) (encode_raw_url bytes)
unfolding encode_raw_url
encode_shown [] = tt
encode_shown (a ∷ []) = (url_char_shown (a / 4), (url_char_shown (a % 4 * 16), tt))
encode_shown (a ∷ b ∷ []) = (
  url_char_shown (a / 4),
  (url_char_shown (a % 4 * 16 + b / 16), (url_char_shown (b % 16 * 4), tt)),
)
encode_shown (a ∷ b ∷ c ∷ rest) = (
  url_char_shown (a / 4),
  (
    url_char_shown (a % 4 * 16 + b / 16),
    (url_char_shown (b % 16 * 4 + c / 64), (url_char_shown (c % 64), encode_shown rest)),
  ),
)

encode_not_empty :
    (bytes : Bytes) → is_empty bytes ≡ false → is_empty (encode_raw_url bytes) ≡ false
unfolding encode_raw_url
encode_not_empty [] h = h
encode_not_empty (a ∷ []) h = refl
encode_not_empty (a ∷ b ∷ []) h = refl
encode_not_empty (a ∷ b ∷ c ∷ rest) h = refl

-- The header that a client sends with a token.
abbrev pub header : Bytes → Bytes
header token = codes "Bearer" ++ (32 ∷ token)

pub header-IsBearer :
    (random : Bytes)
    → is_empty random ≡ false
    → IsBearer (header (generate_token random)) (generate_token random)
header-IsBearer random n = record {
  scheme = codes "Bearer";
  rest = encode_raw_url random;
  is_scheme = refl;
  parts = refl;
  has_prefix = refl;
  not_empty = encode_not_empty random n;
  no_blank = (refl, (refl, (refl, (refl, encode_shown random))));
}

-- What an insert that succeeds did.
pub record IsInserted (now : ℕ) (p : InsertApiKeyParams) (db : Database) (key : ApiKey)
    : Type 0 where
  pub same_id : key.id ≡ p.id
  pub same_hash : key.hash ≡ p.hash
  pub unrevoked : key.revoked_at ≡ none
  pub is_new : All (λ k. ((k.id == p.id) || bytes_eq k.hash p.hash) ≡ false) db.api_keys
  pub tables : (insert_api_key now p db).1 ≡ record db { api_keys = db.api_keys ++ (key ∷ []) }

pub insert-IsInserted :
    (now : ℕ) (p : InsertApiKeyParams) (db : Database) (key : ApiKey)
    → (insert_api_key now p db).0 ≡ ok key
    → IsInserted now p db key
unfolding insert_api_key
insert-IsInserted now p db key h =
    elim (Bool-cases (any (λ k. (k.id == p.id) || bytes_eq k.hash p.hash) db.api_keys)) [
      | inl e ↦ absurd (ground arith)
      | inr e ↦ record {
        same_id = ground arith;
        same_hash = ground arith;
        unrevoked = ground arith;
        is_new = any-false (λ k. (k.id == p.id) || bytes_eq k.hash p.hash) db.api_keys e;
        tables = ground arith;
      }
    ]

cleaned_up-not_done : (r : Result (Unit {0}) × World) (key : ApiKey) → (cleaned_up r).0 ≢ done key
unfolding cleaned_up
cleaned_up-not_done (ok u, w) key h = cc
cleaned_up-not_done (err e, w) key h = cc

inserted-done :
    (prints : Bool) (r : Result ApiKey × World) (key : ApiKey)
    → (inserted prints r).0 ≡ done key
    → (r.0 ≡ ok key) × ((inserted prints r).1 ≡ r.1)
unfolding inserted
inserted-done prints (err e, w) key h = cc
inserted-done true (ok k, w) key h = (ground arith, refl)
inserted-done false (ok k, w) key h = absurd (cleaned_up-not_done _ key h)

-- What Create has done when it returns a key.
pub create-done :
    (trim_space sha : Bytes → Bytes) (now id : ℕ) (name random : Bytes) (prints : Bool) (w : World)
    (key : ApiKey)
    → (create trim_space sha now id name (some random) prints w).0 ≡ done key
    → IsInserted now (key_params sha id (trim_space name) (generate_token random)) w.db key
      × ((create trim_space sha now id name (some random) prints w).1.db
          ≡ record w.db { api_keys = w.db.api_keys ++ (key ∷ []) })
unfolding create
create-done trim_space sha now id name random prints w key h =
    let p = key_params sha id (trim_space name) (generate_token random) in
    elim (Bool-cases (is_empty (trim_space name))) [
      | inl e ↦ let q : stopped name_required ≡ done key = rw (create, e) at h in cc
      | inr e ↦
          let g : (inserted prints (statement (insert_api_key now p) w)).0 ≡ done key =
            rw (create, e) at h in
          let (hit, same) = inserted-done prints _ key g in
          let (ran, kept) = statement_ok (insert_api_key now p) w key hit in
          let i = insert-IsInserted now p w.db key ran in
          (i, rw e (ap (λ x. x.db) same ∙ kept ∙ i.tables))
    ]
