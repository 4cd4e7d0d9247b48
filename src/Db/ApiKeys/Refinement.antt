-- ===== src/Db/ApiKeys/Refinement.antt =====
-- The statements on API keys implement the operations of the map.
use mathlib.Core.Path.{fun_ext}
use playwright_distributed.Base.{
  unavailable, no_rows, fault, ok, err, ℕ, ◌+◌, ◌≡◌, refl, sym, ap, ◌∙◌, subst, inl, inr, Bool,
  true, false, not, ◌&&◌, ◌||◌, none, some, List, [], ◌∷◌, ◌++◌, arith, ltb, ◌==◌, Bool-cases,
  Option-cases, any, All-mono, any-false, delete, update, find, count-update_le, bytes_eq,
}
use playwright_distributed.Db.Models.{ApiKey, Database}
use playwright_distributed.Db.ApiKeys.{
  is_unrevoked, created_by, delete_api_key, InsertApiKeyParams, insert_api_key, revoke_api_key,
  minute, touch_api_key,
}
use playwright_distributed.Db.ApiKeys.KeyMap.{
  KeyMap, view, KeyOp, insert_op, delete_op, revoke_op, touch_op, succeeded, run_key_op,
  spec_key_op, HasHashIndex, delete_drops, revoke_drops, touch_keeps, insert_puts, count-select_le,
  insert_index,
}

-- What a statement has to do that ends like this: be its abstract operation, and keep the index.
abbrev Fits : KeyOp → Database → Bool × Database → Type 0
Fits op db (did, after) = HasHashIndex after × (view after ≡ spec_key_op op did (view db))

insert-Fits :
    (now : ℕ) (p : InsertApiKeyParams) (db : Database)
    → HasHashIndex db
    → Fits (insert_op p) db (succeeded (insert_api_key now p db))
unfolding spec_key_op insert_api_key view
insert-Fits now p db one =
    let key : ApiKey = record {
      id = p.id;
      name = p.name;
      hash = p.hash;
      prefix = p.prefix;
      created_at = now;
      last_used_at = none;
      revoked_at = none;
    } in
    let taken : ApiKey → Bool = λ k. (k.id == p.id) || bytes_eq k.hash p.hash in
    elim (Bool-cases (any taken db.api_keys)) [
      | inl e ↦
          let out : insert_api_key now p db ≡ (err (fault unavailable), db) = rw e refl in
          subst (λ r. Fits (insert_op p) db (succeeded r)) (sym out) (one, refl)
      | inr e ↦
          let out : insert_api_key now p db
              ≡ (ok key, record db { api_keys = db.api_keys ++ (key ∷ []) }) =
            rw e refl in
          let new_hash =
            All-mono (λ k. taken k ≡ false) (λ k. bytes_eq k.hash p.hash ≡ false) db.api_keys
              (λ k u. ground arith) (any-false taken db.api_keys e) in
          subst (λ r. Fits (insert_op p) db (succeeded r)) (sym out)
            (
              (λ h. insert_index h db.api_keys key new_hash (one h)),
              fun_ext (λ h. insert_puts h db.api_keys key refl new_hash),
            )
    ]

delete-Fits :
    (id : ℕ) (db : Database)
    → HasHashIndex db
    → Fits (delete_op id) db (succeeded (delete_api_key id db))
unfolding spec_key_op delete_api_key view
delete-Fits id db one =
    elim (Bool-cases (any (λ k. k.id == id) db.api_keys && any (created_by id) db.sessions)) [
      | inl e ↦
          let out : delete_api_key id db ≡ (err (fault unavailable), db) = rw e refl in
          subst (λ r. Fits (delete_op id) db (succeeded r)) (sym out) (one, refl)
      | inr e ↦
          let out : delete_api_key id db
              ≡ (ok tt, record db { api_keys = delete (λ k. k.id == id) db.api_keys }) =
            rw e refl in
          subst (λ r. Fits (delete_op id) db (succeeded r)) (sym out)
            (
              (λ h. omega (
                arith,
                one h,
                count-select_le (λ k. bytes_eq k.hash h) (λ k. not (k.id == id)) db.api_keys,
              )),
              fun_ext (λ h. delete_drops id h db.api_keys (one h)),
            )
    ]

revoke-Fits :
    (now id : ℕ) (db : Database)
    → HasHashIndex db
    → Fits (revoke_op id) db (succeeded (revoke_api_key now id db))
unfolding spec_key_op revoke_api_key view
revoke-Fits now id db one =
    let p : ApiKey → Bool = λ k. (k.id == id) && is_unrevoked k in
    let f : ApiKey → ApiKey = λ k. record k { revoked_at = some now } in
    elim (Option-cases (find p db.api_keys)) [
      | inl e ↦
          let out : revoke_api_key now id db ≡ (err no_rows, db) = rw (revoke_api_key, e) refl in
          subst (λ r. Fits (revoke_op id) db (succeeded r)) (sym out) (one, refl)
      | inr (k, e) ↦
          let out : revoke_api_key now id db
              ≡ (ok (f k), record db { api_keys = update p f db.api_keys }) =
            rw (revoke_api_key, e) refl in
          subst (λ r. Fits (revoke_op id) db (succeeded r)) (sym out)
            (
              (λ h. omega (
                arith,
                one h,
                count-update_le (λ k. bytes_eq k.hash h) p f db.api_keys (λ k t. omega arith),
              )),
              fun_ext (λ h. revoke_drops now id h db.api_keys (one h)),
            )
    ]

touch-Fits :
    (now id : ℕ) (db : Database)
    → HasHashIndex db
    → Fits (touch_op id) db (true, touch_api_key now id db)
unfolding spec_key_op touch_api_key view
touch-Fits now id db one =
    let p : ApiKey → Bool =
      λ k. (k.id == id) && elim k.last_used_at [ none ↦ true | some t ↦ ltb (t + minute) now ] in
    let f : ApiKey → ApiKey = λ k. record k { last_used_at = some now } in
    (
      (λ h. omega (
        arith,
        one h,
        count-update_le (λ k. bytes_eq k.hash h) p f db.api_keys (λ k t. omega arith),
      )),
      fun_ext (λ h. touch_keeps p now h db.api_keys),
    )

run_key_op-Fits :
    (now : ℕ) (op : KeyOp) (db : Database) → HasHashIndex db → Fits op db (run_key_op now op db)
unfolding run_key_op
run_key_op-Fits now (insert_op p) db one = insert-Fits now p db one
run_key_op-Fits now (delete_op id) db one = delete-Fits id db one
run_key_op-Fits now (revoke_op id) db one = revoke-Fits now id db one
run_key_op-Fits now (touch_op id) db one = touch-Fits now id db one

-- Statements one after another, and the map that the successful ones make.
unfoldable pub run_key_ops : List (ℕ × KeyOp) → Database → List (KeyOp × Bool) × Database
run_key_ops [] db = ([], db)
run_key_ops ((now, op) ∷ ops) db =
    let (did, db') = run_key_op now op db in
    let (log, last) = run_key_ops ops db' in ((op, did) ∷ log, last)

unfoldable pub spec_key_ops : List (KeyOp × Bool) → KeyMap → KeyMap
spec_key_ops [] keys = keys
spec_key_ops ((op, did) ∷ log) keys = spec_key_ops log (spec_key_op op did keys)

-- With a unique index on the hashes, whatever statements on keys run, the table is the map from hashes
-- to ids that the successful ones make: an insert puts an entry, a deletion and a revocation drop the
-- entry of the id, a touch keeps all; and the index stays unique.
pub run_key_ops_refine :
    (ops : List (ℕ × KeyOp)) (db : Database)
    → HasHashIndex db
    → HasHashIndex (run_key_ops ops db).1
      × (view (run_key_ops ops db).1 ≡ spec_key_ops (run_key_ops ops db).0 (view db))
unfolding run_key_ops spec_key_ops
run_key_ops_refine [] db one = (one, refl)
run_key_ops_refine ((now, op) ∷ ops) db one =
    let (kept, same) = run_key_op-Fits now op db one in
    let (last, map_of) = run_key_ops_refine ops (run_key_op now op db).1 kept in
    (last, map_of ∙ ap (spec_key_ops (run_key_ops ops (run_key_op now op db).1).0) same)
