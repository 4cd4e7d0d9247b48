-- ===== src/Http/Auth/Guard.antt =====
-- Who passes the authentication.
use mathlib.Core.List.{Memᴰ}
use playwright_distributed.Db.Models.{ApiKey, Database, one_row_ok}
use playwright_distributed.Db.Driver.{World, query}
use playwright_distributed.Base.{
  no_rows, Result, ok, err, ℕ, zero, suc, ◌≡◌, refl, sym, ap, ◌∙◌, subst, ◌⊎◌, inl, inr, Bool, true,
  false, ◌&&◌, ◌||◌, none, some, List, [], ◌∷◌, arith, &&_left, Option-cases, All, All-Memᴰ, Bytes,
  find, find-All, bytes_eq, eq_of_bytes_eq,
}
use playwright_distributed.Http.Auth.{
  Principal, AuthResult, authenticated, bearer_token, counted, requires_authentication, found_key,
  check_token, required_then, authenticate,
}
use playwright_distributed.Db.ApiKeys.{
  is_unrevoked, count_active_api_keys, get_active_api_key_by_hash,
}
use playwright_distributed.Db.Driver.Queries.{query_ok}

-- The holder of an unrevoked key, by the token of the request.
pub record IsKeyHolder (sha : Bytes → Bytes) (authorization : Bytes) (db : Database) (p : Principal)
    : Type 0 where
  pub token : Bytes
  pub key : ApiKey
  pub sent : bearer_token authorization ≡ some token
  pub present : Memᴰ key db.api_keys
  pub same_hash : key.hash ≡ sha token
  pub unrevoked : key.revoked_at ≡ none
  pub named : p.key_id ≡ some key.id

hash_test :
    (sha : Bytes → Bytes) (token : Bytes) (key : ApiKey)
    → (bytes_eq key.hash (sha token) && is_unrevoked key) ≡ true
    → (key.hash ≡ sha token) × (key.revoked_at ≡ none)
hash_test sha token key h =
    (eq_of_bytes_eq key.hash (sha token) (&&_left _ (is_unrevoked key) h), ground arith)

active_found :
    (sha : Bytes → Bytes) (authorization token : Bytes) (db : Database) (key : ApiKey)
    → bearer_token authorization ≡ some token
    → get_active_api_key_by_hash (sha token) db ≡ ok key
    → IsKeyHolder sha authorization db (record { key_id = some key.id })
unfolding get_active_api_key_by_hash
active_found sha authorization token db key e h =
    let f : find (λ k. bytes_eq k.hash (sha token) && is_unrevoked k) db.api_keys ≡ some key =
      one_row_ok _ key h in
    let (test, here_now) =
      find-All (λ k. Memᴰ k db.api_keys) (λ k. bytes_eq k.hash (sha token) && is_unrevoked k)
        db.api_keys key f (All-Memᴰ db.api_keys) in
    let (same, none_revoked) = hash_test sha token key test in
    record {
      token = token;
      key = key;
      sent = e;
      present = here_now;
      same_hash = same;
      unrevoked = none_revoked;
      named = refl;
    }

found_key_sound :
    (now : ℕ) (r : Result ApiKey × World) (p : Principal)
    → (found_key now r).0 ≡ authenticated p
    → (key : ApiKey) × ((r.0 ≡ ok key) × (p ≡ record { key_id = some key.id }))
unfolding found_key
found_key_sound now (ok key, w) p h = (key, (refl, ground arith))
found_key_sound now (err no_rows, w) p h = cc
found_key_sound now (err e, w) p h = cc

check_token_sound :
    (sha : Bytes → Bytes) (now : ℕ) (authorization : Bytes) (w : World) (p : Principal)
    → (check_token sha now (bearer_token authorization) w).0 ≡ authenticated p
    → IsKeyHolder sha authorization w.db p
unfolding check_token
check_token_sound sha now authorization w p h = elim (Option-cases (bearer_token authorization)) [
  | inl e ↦ absurd (ground arith)
  | inr (token, e) ↦
      let g : (found_key now (query (get_active_api_key_by_hash (sha token)) w)).0
          ≡ authenticated p =
        rw (check_token, e) at h in
      let (key, (q, same)) = found_key_sound now _ p g in
      let (hit, kept) = query_ok (get_active_api_key_by_hash (sha token)) w key q in
      subst (IsKeyHolder sha authorization w.db) (sym same)
        (active_found sha authorization token w.db key e hit)
]

-- What an answer to whether a key is needed rests on.
counted_sound :
    (meanwhile b : Bool) (r : Result ℕ × World)
    → (counted meanwhile r).0 ≡ ok b
    → (n : ℕ) × ((r.0 ≡ ok n)
        × (((counted meanwhile r).1 ≡ r.1) × (b ≡ false → (meanwhile ≡ false) × (n ≡ 0))))
unfolding counted
counted_sound meanwhile b (err e, w) h = cc
counted_sound meanwhile b (ok zero, w) h = (0, (refl, (refl, λ f. (ground arith, refl))))
counted_sound meanwhile b (ok (suc n), w) h = (suc n, (refl, (refl, λ f. absurd (ground arith))))

required_sound :
    (latched meanwhile b : Bool) (w : World)
    → (requires_authentication latched meanwhile w).0 ≡ ok b
    → ((requires_authentication latched meanwhile w).1.db ≡ w.db)
      × (b ≡ false → ((latched || meanwhile) ≡ false) × (count_active_api_keys w.db ≡ 0))
unfolding requires_authentication
required_sound true meanwhile b w h = (refl, λ f. absurd (ground arith))
required_sound false meanwhile b w h =
    let (n, (q, (same, empty))) =
      counted_sound meanwhile b (query (λ db. ok (count_active_api_keys db)) w) h in
    let (hit, kept) = query_ok (λ db. ok (count_active_api_keys db)) w n q in
    (ap (λ x. x.db) same ∙ kept, λ f. let (m, z) = empty f in (m, ground arith))

-- A request with no key, where nothing asks for one.
abbrev pub IsOpen : Bool → Bool → Database → Principal → Type 0
IsOpen latched meanwhile db p =
    (p.key_id ≡ none) × (((latched || meanwhile) ≡ false) × (count_active_api_keys db ≡ 0))

required_then_sound :
    (sha : Bytes → Bytes) (now : ℕ) (authorization : Bytes) (l : Bool) (r : Result Bool × World)
    (p : Principal)
    → (required_then sha now authorization l r).0 ≡ authenticated p
    → ((r.0 ≡ ok false) × (p.key_id ≡ none))
      ⊎ ((r.0 ≡ ok true) × IsKeyHolder sha authorization r.1.db p)
unfolding required_then
required_then_sound sha now authorization l (err e, w) p h = cc
required_then_sound sha now authorization l (ok false, w) p h = inl (refl, ground arith)
required_then_sound sha now authorization l (ok true, w) p h =
    inr (refl, check_token_sound sha now authorization w p h)

-- A request that passes names the unrevoked key whose hash is that of its bearer token; or the latch
-- is off and there is no unrevoked key. So it is whichever round trips fail.
pub authenticate_sound :
    (sha : Bytes → Bytes) (now : ℕ) (authorization : Bytes) (meanwhile latched : Bool) (w : World)
    (p : Principal)
    → (authenticate sha now authorization meanwhile latched w).0 ≡ authenticated p
    → IsOpen latched meanwhile w.db p ⊎ IsKeyHolder sha authorization w.db p
unfolding authenticate
authenticate_sound sha now authorization meanwhile latched w p h =
    elim (required_then_sound sha now authorization (latched || meanwhile)
      (requires_authentication latched meanwhile w) p h) [
        | inl (q, n) ↦ inl (n, (required_sound latched meanwhile false w q).1 refl)
        | inr (q, k) ↦ inr (
            subst (λ db. IsKeyHolder sha authorization db p)
              (required_sound latched meanwhile true w q).0 k)
      ]

-- A request as it meets the server.
pub record Request : Type 0 where
  pub authorization : Bytes
  pub now : ℕ
  pub meanwhile : Bool
  pub world : World

abbrev pub answer : (Bytes → Bytes) → Bool → Request → AuthResult × Bool × World
answer sha latched r = authenticate sha r.now r.authorization r.meanwhile latched r.world

-- Requests one after another, each with the tables and replies of its time.
unfoldable pub answers : (Bytes → Bytes) → Bool → List Request → List (Request × AuthResult)
answers sha latched [] = []
answers sha latched (r ∷ rs) =
    (r, (answer sha latched r).0) ∷ answers sha (answer sha latched r).1 rs

-- A request that was let pass holds a key.
abbrev pub NeedsKey : (Bytes → Bytes) → Request × AuthResult → Type 0
NeedsKey sha (r, result) =
    (p : Principal) → result ≡ authenticated p → IsKeyHolder sha r.authorization r.world.db p

latch_stays :
    (sha : Bytes → Bytes) (now : ℕ) (authorization : Bytes) (meanwhile : Bool) (w : World)
    → (authenticate sha now authorization meanwhile true w).1 ≡ true
unfolding authenticate required_then requires_authentication
latch_stays sha now authorization meanwhile w = refl

-- Once the latch is on, every later request that passes holds an unrevoked key, even if all keys have
-- been revoked or deleted since.
pub latched-NeedsKey :
    (sha : Bytes → Bytes) (rs : List Request) → All (NeedsKey sha) (answers sha true rs)
unfolding answers
latched-NeedsKey sha [] = tt
latched-NeedsKey sha (r ∷ rs) = (
  (λ p h. elim (authenticate_sound sha r.now r.authorization r.meanwhile true r.world p h) [
    | inl (n, (l, z)) ↦ absurd (ground arith)
    | inr k ↦ k
  ]),
  subst (λ b. All (NeedsKey sha) (answers sha b rs))
      (sym (latch_stays sha r.now r.authorization r.meanwhile r.world)) (latched-NeedsKey sha rs),
)
