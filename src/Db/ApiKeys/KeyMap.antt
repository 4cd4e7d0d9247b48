-- ===== src/Db/ApiKeys/KeyMap.antt =====
-- What the API keys are to the requests: a map from hashes to the ids of their unrevoked keys. The
-- statements on keys put entries, drop them, or keep them all.
use playwright_distributed.Base.{
  Result, ok, err, ℕ, ◌≤◌, ◌≡◌, refl, sym, subst, inl, inr, Bool, true, false, not, ◌&&◌, Option,
  none, some, List, [], ◌∷◌, ◌++◌, arith, ◌==◌, if◌then◌else◌, Bool-cases, count, All, count-append,
  All-mono, count-zero, zero_count, Bytes, select, delete, update, find, All-update, All-select,
  find-append, bytes_eq, eq_of_bytes_eq,
}
use playwright_distributed.Db.Models.{ApiKey, Database}
use playwright_distributed.Db.ApiKeys.{
  is_unrevoked, delete_api_key, InsertApiKeyParams, insert_api_key, revoke_api_key, touch_api_key,
}

abbrev pub KeyMap : Type 0
KeyMap = Bytes → Option ℕ

abbrev pub id_of : Option ApiKey → Option ℕ
id_of none = none
id_of (some k) = some k.id

abbrev pub is_active_hash : Bytes → ApiKey → Bool
is_active_hash hash k = bytes_eq k.hash hash && is_unrevoked k

-- The abstract view of the table.
unfoldable pub view : Database → KeyMap
view db hash = id_of (find (is_active_hash hash) db.api_keys)

abbrev pub put_key : Bytes → ℕ → KeyMap → KeyMap
put_key hash id keys h = if bytes_eq hash h then some id else keys h

abbrev pub drop_id : ℕ → Option ℕ → Option ℕ
drop_id id none = none
drop_id id (some k) = if k == id then none else some k

abbrev pub drop_key : ℕ → KeyMap → KeyMap
drop_key id keys h = drop_id id (keys h)

pub data KeyOp : Type 0 where
  insert_op : InsertApiKeyParams → KeyOp
  delete_op revoke_op touch_op : ℕ → KeyOp

-- Whether the statement did something, and the tables after it.
abbrev pub succeeded {ℓ} : {A : Type ℓ} → Result A × Database → Bool × Database
succeeded (ok a, db) = (true, db)
succeeded (err e, db) = (false, db)

unfoldable pub run_key_op : ℕ → KeyOp → Database → Bool × Database
run_key_op now (insert_op p) db = succeeded (insert_api_key now p db)
run_key_op now (delete_op id) db = succeeded (delete_api_key id db)
run_key_op now (revoke_op id) db = succeeded (revoke_api_key now id db)
run_key_op now (touch_op id) db = (true, touch_api_key now id db)

unfoldable pub spec_key_op : KeyOp → Bool → KeyMap → KeyMap
spec_key_op op false keys = keys
spec_key_op (insert_op p) true keys = put_key p.hash p.id keys
spec_key_op (delete_op id) true keys = drop_key id keys
spec_key_op (revoke_op id) true keys = drop_key id keys
spec_key_op (touch_op id) true keys = keys

-- The unique index on hashes.
abbrev pub HasHashIndex : Database → Type 0
HasHashIndex db = (h : Bytes) → count (λ k. bytes_eq k.hash h) db.api_keys ≤ 1

find-append-none :
    (q : ApiKey → Bool) (keys : List ApiKey) (key : ApiKey)
    → q key ≡ false
    → find q (keys ++ (key ∷ [])) ≡ find q keys
find-append-none q [] key h = ground arith
find-append-none q (k ∷ keys) key h = ground (arith, find-append-none q keys key h)

-- Where no key has a hash, none is found by it.
none_left :
    (h : Bytes) (keys : List ApiKey)
    → All (λ k. bytes_eq k.hash h ≡ false) keys
    → find (is_active_hash h) keys ≡ none
none_left h [] a = refl
none_left h (k ∷ keys) a = ground (arith, none_left h keys a.1)

others_differ :
    (h : Bytes) (k : ApiKey) (keys : List ApiKey)
    → bytes_eq k.hash h ≡ true
    → count (λ k. bytes_eq k.hash h) (k ∷ keys) ≤ 1
    → All (λ k. bytes_eq k.hash h ≡ false) keys
others_differ h k keys e one = zero_count (λ k. bytes_eq k.hash h) keys (ground arith)

pub delete_drops :
    (id : ℕ) (h : Bytes) (keys : List ApiKey)
    → count (λ k. bytes_eq k.hash h) keys ≤ 1
    → id_of (find (is_active_hash h) (delete (λ k. k.id == id) keys))
      ≡ drop_id id (id_of (find (is_active_hash h) keys))
delete_drops id h [] one = refl
delete_drops id h (k ∷ keys) one = elim (Bool-cases (bytes_eq k.hash h)) [
  | inl e ↦
      let others = others_differ h k keys e one in
      let rest = none_left h keys others in
      let rest_after =
        none_left h (delete (λ k. k.id == id) keys)
          (All-select (λ k. bytes_eq k.hash h ≡ false) (λ k. not (k.id == id)) keys others) in
      ground (arith, rest, rest_after)
  | inr e ↦ ground (arith, delete_drops id h keys)
]

pub revoke_drops :
    (now id : ℕ) (h : Bytes) (keys : List ApiKey)
    → count (λ k. bytes_eq k.hash h) keys ≤ 1
    → id_of (
        find (is_active_hash h) (
          update
            (λ k. (k.id == id) && is_unrevoked k)
            (λ k. record k { revoked_at = some now })
            keys))
      ≡ drop_id id (id_of (find (is_active_hash h) keys))
revoke_drops now id h [] one = refl
revoke_drops now id h (k ∷ keys) one = elim (Bool-cases (bytes_eq k.hash h)) [
  | inl e ↦
      let others = others_differ h k keys e one in
      let rest = none_left h keys others in
      let rest_after =
        none_left h
          (update (λ k. (k.id == id) && is_unrevoked k) (λ k. record k { revoked_at = some now })
            keys)
          (All-update (λ k. bytes_eq k.hash h ≡ false) (λ k. (k.id == id) && is_unrevoked k)
            (λ k. record k { revoked_at = some now }) keys (λ k t a. a) others) in
      ground (arith, rest, rest_after)
  | inr e ↦ ground (arith, revoke_drops now id h keys)
]

pub touch_keeps :
    (p : ApiKey → Bool) (now : ℕ) (h : Bytes) (keys : List ApiKey)
    → id_of (find (is_active_hash h) (update p (λ k. record k { last_used_at = some now }) keys))
      ≡ id_of (find (is_active_hash h) keys)
touch_keeps p now h [] = refl
touch_keeps p now h (k ∷ keys) = ground (arith, touch_keeps p now h keys)

pub insert_puts :
    (h : Bytes) (keys : List ApiKey) (key : ApiKey)
    → key.revoked_at ≡ none
    → All (λ k. bytes_eq k.hash key.hash ≡ false) keys
    → id_of (find (is_active_hash h) (keys ++ (key ∷ [])))
      ≡ (if bytes_eq key.hash h then some key.id else id_of (find (is_active_hash h) keys))
insert_puts h keys key u a = elim (Bool-cases (bytes_eq key.hash h)) [
  | inl e ↦
      let same : key.hash ≡ h = eq_of_bytes_eq key.hash h e in
      let none_yet : All (λ k. is_active_hash h k ≡ false) keys =
        All-mono (λ k. bytes_eq k.hash key.hash ≡ false) (λ k. is_active_hash h k ≡ false) keys
          (λ k d. rw (sym same) (ground arith)) a in
      let hit : is_active_hash h key ≡ true = ground arith in
      ground (arith, find-append (is_active_hash h) keys key none_yet hit)
  | inr e ↦
      let missed : is_active_hash h key ≡ false = ground arith in
      ground (arith, find-append-none (is_active_hash h) keys key missed)
]

pub count-select_le :
    (q p : ApiKey → Bool) (keys : List ApiKey) → count q (select p keys) ≤ count q keys
count-select_le q p [] = omega arith
count-select_le q p (k ∷ keys) = ground (arith, count-select_le q p keys)

pub insert_index :
    (h : Bytes) (keys : List ApiKey) (key : ApiKey)
    → All (λ k. bytes_eq k.hash key.hash ≡ false) keys
    → count (λ k. bytes_eq k.hash h) keys ≤ 1
    → count (λ k. bytes_eq k.hash h) (keys ++ (key ∷ [])) ≤ 1
insert_index h keys key a one = elim (Bool-cases (bytes_eq key.hash h)) [
  | inl e ↦
      let same : key.hash ≡ h = eq_of_bytes_eq key.hash h e in
      let none_yet : count (λ k. bytes_eq k.hash h) keys ≡ 0 =
        count-zero (λ k. bytes_eq k.hash h) keys
          (subst (λ x. All (λ k. bytes_eq k.hash x ≡ false) keys) same a) in
      ground (arith, count-append (λ k. bytes_eq k.hash h) keys (key ∷ []))
  | inr e ↦ ground (arith, count-append (λ k. bytes_eq k.hash h) keys (key ∷ []))
]
