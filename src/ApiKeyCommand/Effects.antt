-- ===== src/ApiKeyCommand/Effects.antt =====
-- What the commands do to the requests that follow.

use playwright_distributed.Base.{
  Result, ok, err, ℕ, ◌≤◌, ◌≡◌, refl, sym, ap, ◌∙◌, inl, inr, Bool, true, false, ◌&&◌, ◌||◌, some,
  [], ◌∷◌, ◌++◌, arith, ◌==◌, Bool-cases, any, All, count-append, All-mono, Bytes, delete,
  find-append, delete-append, is_empty, bytes_eq, bytes_eq_self,
}
use playwright_distributed.Http.Auth.{authenticated, authenticate}
use playwright_distributed.Http.Auth.Accepts.{at_rest, key_passes}
use playwright_distributed.Http.Auth.Bearer.{bearer_token_iff}
use playwright_distributed.ApiKeyCommand.{
  name_required, print_failed, CommandResult, done, stopped, generate_token, key_params, cleaned_up,
  inserted, create,
}
use playwright_distributed.ApiKeyCommand.Tokens.{
  header, header-IsBearer, IsInserted, insert-IsInserted, create-done,
}
use playwright_distributed.Db.Models.{ApiKey, Database}
use playwright_distributed.Db.Driver.{World, statement}
use playwright_distributed.Db.ApiKeys.{
  is_unrevoked, count_active_api_keys, created_by, delete_api_key, get_active_api_key_by_hash,
  InsertApiKeyParams, insert_api_key,
}
use playwright_distributed.Db.Driver.Queries.{statement_ok}

new_is_found :
    (sha : Bytes → Bytes) (now : ℕ) (p : InsertApiKeyParams) (db : Database) (key : ApiKey)
    → IsInserted now p db key
    → get_active_api_key_by_hash p.hash (record db { api_keys = db.api_keys ++ (key ∷ []) })
      ≡ ok key
unfolding get_active_api_key_by_hash
new_is_found sha now p db key i =
    let q : ApiKey → Bool = λ k. bytes_eq k.hash p.hash && is_unrevoked k in
    let no_other : All (λ k. q k ≡ false) db.api_keys =
      All-mono (λ k. ((k.id == p.id) || bytes_eq k.hash p.hash) ≡ false) (λ k. q k ≡ false)
        db.api_keys (λ k h. ground arith) i.is_new in
    let hit : q key ≡ true = rw (i.same_hash, bytes_eq_self p.hash, i.unrevoked) refl in
    rw (find-append q db.api_keys key no_other hit) refl

new_counts :
    (now : ℕ) (p : InsertApiKeyParams) (db : Database) (key : ApiKey)
    → IsInserted now p db key
    → 1 ≤ count_active_api_keys (record db { api_keys = db.api_keys ++ (key ∷ []) })
unfolding count_active_api_keys
new_counts now p db key i =
    let one : is_unrevoked key ≡ true = rw i.unrevoked refl in
    ground (arith, count-append is_unrevoked db.api_keys (key ∷ []), one)

-- When Create returns a key, made from at least one random byte, a request with the printed token is
-- let pass as that key, if it meets the tables that Create left and its round trips succeed, with the
-- latch on or off.
pub create_authenticates :
    (trim_space sha : Bytes → Bytes) (now id : ℕ) (name random : Bytes) (prints : Bool) (w : World)
    (key : ApiKey) (later : ℕ) (meanwhile latched : Bool)
    → is_empty random ≡ false
    → (create trim_space sha now id name (some random) prints w).0 ≡ done key
    → (authenticate sha later
        (header (generate_token random))
        meanwhile
        latched
        (at_rest (create trim_space sha now id name (some random) prints w).1.db)).0
      ≡ authenticated (record { key_id = some id })
create_authenticates trim_space sha now id name random prints w key later meanwhile latched n h =
    let p = key_params sha id (trim_space name) (generate_token random) in
    let (i, tables) = create-done trim_space sha now id name random prints w key h in
    let sent =
      (bearer_token_iff (header (generate_token random)) (generate_token random)).1
        (header-IsBearer random n) in
    rw (tables, sym i.same_id)
      (key_passes sha later (header (generate_token random)) (generate_token random) meanwhile
        latched (record w.db { api_keys = w.db.api_keys ++ (key ∷ []) }) key sent
        (new_counts now p w.db key i) (new_is_found sha now p w.db key i))

delete_ok :
    (id : ℕ) (db : Database)
    → (delete_api_key id db).0 ≡ ok tt
    → (delete_api_key id db).1 ≡ record db { api_keys = delete (λ k. k.id == id) db.api_keys }
unfolding delete_api_key
delete_ok id db h =
    elim (Bool-cases (any (λ k. k.id == id) db.api_keys && any (created_by id) db.sessions)) [
      | inl e ↦ absurd (ground arith)
      | inr e ↦ rw e refl
    ]

pub cleaned_up_print :
    (r : Result (Unit {0}) × World)
    → (cleaned_up r).0 ≡ stopped print_failed
    → (r.0 ≡ ok tt) × ((cleaned_up r).1 ≡ r.1)
unfolding cleaned_up
cleaned_up_print (ok tt, w) h = (refl, refl)
cleaned_up_print (err e, w) h = cc

inserted_print :
    (prints : Bool) (r : Result ApiKey × World)
    → (inserted prints r).0 ≡ stopped print_failed
    → (key : ApiKey) × ((r.0 ≡ ok key)
        × ((inserted prints r).1.db
            ≡ record r.1.db { api_keys = delete (λ k. k.id == key.id) r.1.db.api_keys }))
unfolding inserted
inserted_print prints (err e, w) h = cc
inserted_print true (ok k, w) h = cc
inserted_print false (ok k, w) h =
    let (gone, kept) = cleaned_up_print _ h in
    let (ran, tables) = statement_ok (delete_api_key k.id) w tt gone in
    (k, (refl, ap (λ x. x.db) kept ∙ tables ∙ delete_ok k.id w.db ran))

cleaned :
    (key : ApiKey) (before after : Database)
    → after ≡ record before { api_keys = before.api_keys ++ (key ∷ []) }
    → delete (λ k. k.id == key.id) (before.api_keys ++ (key ∷ [])) ≡ before.api_keys
    → record after { api_keys = delete (λ k. k.id == key.id) after.api_keys } ≡ before
cleaned key before after e same = rw (e, same) refl

-- When Create reports that it could not print the token, and no more than that, the tables are as before:
-- no key is left that nobody can use.
pub create_print_failed :
    (trim_space sha : Bytes → Bytes) (now id : ℕ) (name random : Bytes) (prints : Bool) (w : World)
    → (create trim_space sha now id name (some random) prints w).0 ≡ stopped print_failed
    → (create trim_space sha now id name (some random) prints w).1.db ≡ w.db
unfolding create
create_print_failed trim_space sha now id name random prints w h =
    let p = key_params sha id (trim_space name) (generate_token random) in
    elim (Bool-cases (is_empty (trim_space name))) [
      | inl e ↦
          let q : ◌≡◌ {A = CommandResult ApiKey} (stopped name_required) (stopped print_failed) =
            rw (create, e) at h in
          cc
      | inr e ↦
          let g : (inserted prints (statement (insert_api_key now p) w)).0 ≡ stopped print_failed =
            rw (create, e) at h in
          let (key, (hit, left)) = inserted_print prints _ g in
          let (ran, kept) = statement_ok (insert_api_key now p) w key hit in
          let i = insert-IsInserted now p w.db key ran in
          let same : delete (λ k. k.id == key.id) (w.db.api_keys ++ (key ∷ [])) ≡ w.db.api_keys =
            delete-append (λ k. k.id == key.id) w.db.api_keys key
              (All-mono (λ k. ((k.id == p.id) || bytes_eq k.hash p.hash) ≡ false)
                (λ k. (k.id == key.id) ≡ false) w.db.api_keys (λ k u. rw i.same_id (ground arith))
                i.is_new)
              (ground arith) in
          rw e (left ∙ cleaned key w.db _ (kept ∙ i.tables) same)
    ]
