-- ===== src/Base/Clears.antt =====
-- What a statement does to the rows that pass no test, and to their count.
use mathlib.Core.Logic.{inl, inr}
use mathlib.Core.Path.{◌≡◌, refl}
use mathlib.Core.Bool.{Bool, true, false}
use mathlib.Core.Option.{none, some}
use mathlib.Core.List.{List, [], ◌∷◌, ◌++◌}
use native.Mathlib.Omega.{arith}
use playwright_distributed.Base.Tests.{Bool-cases}
use playwright_distributed.Base.Lists.{count, All}
use playwright_distributed.Base.Table.{select, delete, update, find}

module _ {ℓ} {A : Type ℓ} where
  pub update-none :
      (p : A → Bool) (f : A → A) (xs : List A) → All (λ x. p x ≡ false) xs → update p f xs ≡ xs
  update-none p f [] a = refl
  update-none p f (x ∷ xs) a = ground (arith, update-none p f xs a.1)

  pub select-none : (p : A → Bool) (xs : List A) → All (λ x. p x ≡ false) xs → select p xs ≡ []
  select-none p [] a = refl
  select-none p (x ∷ xs) a = ground (arith, select-none p xs a.1)

  pub delete-none : (p : A → Bool) (xs : List A) → All (λ x. p x ≡ false) xs → delete p xs ≡ xs
  delete-none p [] a = refl
  delete-none p (x ∷ xs) a = ground (arith, delete-none p xs a.1)

  -- No row passes the test of a statement that makes it fail on the rows that it writes.
  pub update_clears :
      (p : A → Bool) (f : A → A) (xs : List A)
      → ((x : A) → p (f x) ≡ false)
      → All (λ x. p x ≡ false) (update p f xs)
  update_clears p f [] h = tt
  update_clears p f (x ∷ xs) h = elim (Bool-cases (p x)) [
    | inl e ↦ rw e (h x, update_clears p f xs h)
    | inr e ↦ rw e (e, update_clears p f xs h)
  ]

  pub delete_clears : (p : A → Bool) (xs : List A) → All (λ x. p x ≡ false) (delete p xs)
  delete_clears p [] = tt
  delete_clears p (x ∷ xs) = elim (Bool-cases (p x)) [
    | inl e ↦ rw e (delete_clears p xs)
    | inr e ↦ rw e (e, delete_clears p xs)
  ]

  pub count-update :
      (p q : A → Bool) (f : A → A) (xs : List A)
      → ((x : A) → q (f x) ≡ q x)
      → count q (update p f xs) ≡ count q xs
  count-update p q f [] h = refl
  count-update p q f (x ∷ xs) h = ground (arith, h x, count-update p q f xs h)

  pub count-delete :
      (p q : A → Bool) (xs : List A)
      → ((x : A) → q x ≡ true → p x ≡ false)
      → count q (delete p xs) ≡ count q xs
  count-delete p q [] h = refl
  count-delete p q (x ∷ xs) h = elim (Bool-cases (q x)) [
    | inl e ↦ let keep : p x ≡ false = h x e in ground (arith, count-delete p q xs h)
    | inr e ↦ ground (arith, count-delete p q xs h)
  ]

  -- What a query finds after an update that keeps the query's verdict.
  pub find-update :
      (p q : A → Bool) (f : A → A) (xs : List A) (x : A)
      → ((y : A) → q (f y) ≡ q y)
      → p x ≡ true
      → find q xs ≡ some x
      → find q (update p f xs) ≡ some (f x)
  find-update p q f [] x h k e = cc
  find-update p q f (v ∷ vs) x h k e = elim (Bool-cases (q v)) [
    | inl is ↦ let same : v ≡ x = ground arith in rw (same, k) (ground (arith, h x))
    | inr isnt ↦
        let later : find q vs ≡ some x = ground arith in
        ground (arith, h v, find-update p q f vs x h k later)
  ]

  -- A narrower query finds the row that a wider one finds, if that row passes.
  pub find-narrow :
      (p q : A → Bool) (xs : List A) (x : A)
      → ((y : A) → q y ≡ false → p y ≡ false)
      → p x ≡ true
      → find q xs ≡ some x
      → find p xs ≡ some x
  find-narrow p q [] x h k e = cc
  find-narrow p q (v ∷ vs) x h k e = elim (Bool-cases (q v)) [
    | inl is ↦ let same : v ≡ x = ground arith in rw (same, k) refl
    | inr isnt ↦
        let later : find q vs ≡ some x = ground arith in
        rw (h v isnt) (find-narrow p q vs x h k later)
  ]

  -- A query finds a new last row if it finds no other.
  pub find-append :
      (p : A → Bool) (xs : List A) (x : A)
      → All (λ y. p y ≡ false) xs
      → p x ≡ true
      → find p (xs ++ (x ∷ [])) ≡ some x
  find-append p [] x a h = ground arith
  find-append p (y ∷ ys) x a h = ground (arith, find-append p ys x a.1 h)

  -- Deleting a new last row gives the table back.
  pub delete-append :
      (p : A → Bool) (xs : List A) (x : A)
      → All (λ y. p y ≡ false) xs
      → p x ≡ true
      → delete p (xs ++ (x ∷ [])) ≡ xs
  delete-append p [] x a h = ground arith
  delete-append p (y ∷ ys) x a h = ground (arith, delete-append p ys x a.1 h)

  pub find_no_match : (p : A → Bool) (xs : List A) → All (λ x. p x ≡ false) xs → find p xs ≡ none
  find_no_match p [] a = refl
  find_no_match p (x ∷ xs) a = ground (arith, find_no_match p xs a.1)

  pub no_match_find : (p : A → Bool) (xs : List A) → find p xs ≡ none → All (λ x. p x ≡ false) xs
  no_match_find p [] h = tt
  no_match_find p (x ∷ xs) h = ground (arith, no_match_find p xs)
