-- ===== src/Db/Sessions/Stale.antt =====
-- The report of stale ids: EXCEPT and ORDER BY against membership and order.
use playwright_distributed.Base.{
  ℕ, ◌<◌, ◌≡◌, refl, inl, inr, Bool, not, ◌&&◌, ◌||◌, List, [], ◌∷◌, arith, ◌==◌, ==_iff,
  Bool-cases, any, elem,
}
use playwright_distributed.Db.Models.{Database, is_active}
use playwright_distributed.Db.Sessions.{insert_unique, except_sorted, list_stale_worker_session_ids}

elem-insert_unique : (x y : ℕ) (ys : List ℕ) → elem x (insert_unique y ys) ≡ ((x == y) || elem x ys)
unfolding insert_unique
elem-insert_unique x y [] = refl
elem-insert_unique x y (z ∷ zs) = ground (arith, elem-insert_unique x y zs)

elem-except_sorted :
    (known : ℕ → Bool) (x : ℕ) (xs : List ℕ)
    → elem x (except_sorted known xs) ≡ (elem x xs && not (known x))
unfolding except_sorted
elem-except_sorted known x [] = refl
elem-except_sorted known x (y ∷ ys) = elim (Bool-cases (x == y)) [
  | inl e ↦
      let same : x ≡ y = (==_iff x y).0 e in
      rw (← same) (
        ground
          (arith, elem-except_sorted known x ys, elem-insert_unique x x (except_sorted known ys)))
  | inr e ↦
      ground (arith, elem-except_sorted known x ys, elem-insert_unique x y (except_sorted known ys))
]

-- Strictly increasing, above a bound.
abbrev pub Above : ℕ → List ℕ → Type 0
Above n [] = Unit
Above n (x ∷ xs) = (n < x) × Above x xs

abbrev pub IsIncreasing : List ℕ → Type 0
IsIncreasing [] = Unit
IsIncreasing (x ∷ xs) = Above x xs

insert_unique-Above : (n x : ℕ) (ys : List ℕ) → n < x → Above n ys → Above n (insert_unique x ys)
unfolding insert_unique
insert_unique-Above n x [] h a = (h, tt)
insert_unique-Above n x (y ∷ ys) h a = ground (arith, insert_unique-Above y x ys)

insert_unique-IsIncreasing :
    (x : ℕ) (ys : List ℕ) → IsIncreasing ys → IsIncreasing (insert_unique x ys)
unfolding insert_unique
insert_unique-IsIncreasing x [] a = tt
insert_unique-IsIncreasing x (y ∷ ys) a = ground (arith, insert_unique-Above y x ys)

except_sorted-IsIncreasing :
    (known : ℕ → Bool) (xs : List ℕ) → IsIncreasing (except_sorted known xs)
unfolding except_sorted
except_sorted-IsIncreasing known [] = tt
except_sorted-IsIncreasing known (x ∷ xs) = elim (Bool-cases (known x)) [
  | inl e ↦ rw e (except_sorted-IsIncreasing known xs)
  | inr e ↦
      rw e (
        insert_unique-IsIncreasing x (except_sorted known xs) (except_sorted-IsIncreasing known xs))
]

-- The stale ids are the reported ids that name no active session of the worker, each once and in
-- increasing order.
pub list_stale_worker_session_ids_lem :
    (reported : List ℕ) (worker_id : ℕ) (db : Database)
    → ((x : ℕ)
        → elem x (list_stale_worker_session_ids reported worker_id db) ≡ (
            elem x reported
            && not (
                any
                  (λ s. (s.id == x) && ((s.worker_id == worker_id) && is_active s.status))
                  db.sessions)))
      × IsIncreasing (list_stale_worker_session_ids reported worker_id db)
unfolding list_stale_worker_session_ids
list_stale_worker_session_ids_lem reported worker_id db = (
  (λ x.
      elem-except_sorted
        (λ id.
          any (λ s. (s.id == id) && ((s.worker_id == worker_id) && is_active s.status)) db.sessions)
        x reported),
  except_sorted-IsIncreasing
      (λ id.
        any (λ s. (s.id == id) && ((s.worker_id == worker_id) && is_active s.status)) db.sessions)
      reported,
)
