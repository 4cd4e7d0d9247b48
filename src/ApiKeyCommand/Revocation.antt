-- ===== src/ApiKeyCommand/Revocation.antt =====
-- A revoked key lets no request pass.

use playwright_distributed.Base.{
  no_rows, Result, ok, err, ℕ, ◌≤◌, ◌≡◌, refl, sym, ap, ◌∙◌, subst, ◌≢◌, inl, inr, Bool, false,
  ◌&&◌, Option, none, some, List, [], ◌∷◌, arith, ◌==◌, Bool-cases, Option-cases, count, All,
  All-mono, All-get_Memᴰ, zero_count, Bytes, update, find, update_clears,
}
use playwright_distributed.Http.Auth.{Principal, authenticated}
use playwright_distributed.Http.Auth.Guard.{authenticate_sound, Request, answer}
use playwright_distributed.ApiKeyCommand.{done, looked_up, revoked, revoke}
use playwright_distributed.Db.Models.{ApiKey, Database, one_row_ok}
use playwright_distributed.Db.Driver.{World, statement}
use playwright_distributed.Db.Driver.Queries.{statement_ok, query_ok}
use playwright_distributed.Db.ApiKeys.{is_unrevoked, get_api_key, revoke_api_key}

-- Every key of that id is revoked.
abbrev pub IsRevoked : ℕ → Database → Type 0
IsRevoked id db = All (λ k. ((k.id == id) && is_unrevoked k) ≡ false) db.api_keys

revoke-IsRevoked :
    (now id : ℕ) (db : Database) (key : ApiKey)
    → (revoke_api_key now id db).0 ≡ ok key
    → IsRevoked id (revoke_api_key now id db).1
unfolding revoke_api_key
revoke-IsRevoked now id db key h =
    elim (Option-cases (find (λ k. (k.id == id) && is_unrevoked k) db.api_keys)) [
      | inl e ↦ absurd (ground arith)
      | inr (k, e) ↦
          let tables : (revoke_api_key now id db).1 ≡ record db {
            api_keys =
                update (λ k. (k.id == id) && is_unrevoked k)
                  (λ k. record k { revoked_at = some now }) db.api_keys;
          } =
            rw (revoke_api_key, e) refl in
          subst (IsRevoked id) (sym tables) (
            update_clears (λ k. (k.id == id) && is_unrevoked k)
              (λ k. record k { revoked_at = some now }) db.api_keys (λ k. ground arith))
    ]

-- The row that a lookup finds is the only one of its id.
found-IsRevoked :
    (id : ℕ) (keys : List ApiKey) (key : ApiKey)
    → count (λ k. k.id == id) keys ≤ 1
    → find (λ k. k.id == id) keys ≡ some key
    → is_unrevoked key ≡ false
    → All (λ k. ((k.id == id) && is_unrevoked k) ≡ false) keys
found-IsRevoked id [] key one f r = tt
found-IsRevoked id (k ∷ ks) key one f r = elim (Bool-cases (k.id == id)) [
  | inl e ↦
      let same : k ≡ key = ground arith in
      let no_more : count (λ x. x.id == id) ks ≡ 0 = ground arith in
      (
        rw same (ground arith),
        All-mono (λ x. (x.id == id) ≡ false) (λ x. ((x.id == id) && is_unrevoked x) ≡ false) ks
            (λ x h. ground arith) (zero_count (λ x. x.id == id) ks no_more),
      )
  | inr e ↦ (ground arith, found-IsRevoked id ks key (ground arith) (ground arith) r)
]

looked_up-done :
    (prints : Bool) (r : Result ApiKey × World)
    → (looked_up prints r).0 ≡ done tt
    → (key : ApiKey) × ((r.0 ≡ ok key)
        × ((is_unrevoked key ≡ false) × ((looked_up prints r).1 ≡ r.1)))
unfolding looked_up
looked_up-done prints (err no_rows, w) h = cc
looked_up-done prints (err e, w) h = cc
looked_up-done prints (ok key, w) h = elim (Bool-cases (is_unrevoked key)) [
  | inl e ↦ absurd (ground arith)
  | inr e ↦ (key, (refl, (e, ground arith)))
]

get_some :
    (id : ℕ) (db : Database) (key : ApiKey)
    → get_api_key id db ≡ ok key
    → find (λ k. k.id == id) db.api_keys ≡ some key
unfolding get_api_key
get_some id db key h = one_row_ok _ key h

-- What is left when Revoke returns without an error.
revoked-done :
    (id : ℕ) (prints : Bool) (others : Database → Database) (r : Result ApiKey × World)
    → ((key : ApiKey) → r.0 ≡ ok key → IsRevoked id r.1.db)
    → count (λ k. k.id == id) (others r.1.db).api_keys ≤ 1
    → (revoked id prints others r).0 ≡ done tt
    → IsRevoked id (revoked id prints others r).1.db
unfolding revoked
revoked-done id prints others (ok key, w) all one h = all key refl
revoked-done id prints others (err no_rows, w) all one h =
    let (key, (hit, (r, same))) = looked_up-done prints _ h in
    let (got, kept) = query_ok (get_api_key id) _ key hit in
    subst (IsRevoked id) (sym (ap (λ x. x.db) same ∙ kept))
      (found-IsRevoked id (others w.db).api_keys key one (get_some id (others w.db) key got) r)
revoked-done id prints others (err e, w) all one h = cc

named_revoked :
    (id : ℕ) (key : ApiKey) (named : Option ℕ)
    → named ≡ some key.id
    → named ≡ some id
    → ((key.id == id) && is_unrevoked key) ≡ false
    → key.revoked_at ≢ none
named_revoked id key named e is_id r u = ground arith

-- Once Revoke has returned without an error, no request that meets the tables it left is let pass as
-- that key, whether this call revoked it or found that it was; where that id names at most one row when
-- the second statement runs.
pub revoke_stays_out :
    (now id : ℕ) (prints : Bool) (others : Database → Database) (w : World) (sha : Bytes → Bytes)
    (request : Request) (latched : Bool) (p : Principal)
    → count (λ k. k.id == id) (others (statement (revoke_api_key now id) w).1.db).api_keys ≤ 1
    → (revoke now id prints others w).0 ≡ done tt
    → request.world.db ≡ (revoke now id prints others w).1.db
    → (answer sha latched request).0 ≡ authenticated p
    → p.key_id ≢ some id
unfolding revoke
revoke_stays_out now id prints others w sha request latched p one h at_db passed is_id =
    let gone : IsRevoked id request.world.db = subst (IsRevoked id) (sym at_db) (
      revoked-done id prints others (statement (revoke_api_key now id) w)
        (λ key hit.
          let (ran, kept) = statement_ok (revoke_api_key now id) w key hit in
          subst (IsRevoked id) (sym kept) (revoke-IsRevoked now id w.db key ran))
        one h) in
    elim (authenticate_sound sha request.now request.authorization request.meanwhile latched
      request.world p passed) [
        | inl (n, rest) ↦ let q : none ≡ some id = sym n ∙ is_id in cc
        | inr holder ↦
            named_revoked id holder.key p.key_id holder.named is_id
              (All-get_Memᴰ (λ k. ((k.id == id) && is_unrevoked k) ≡ false)
                request.world.db.api_keys holder.key holder.present gone)
              holder.unrevoked
      ]
