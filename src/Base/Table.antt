-- ===== src/Base/Table.antt =====
-- Tables as lists of rows: SELECT, UPDATE, DELETE by a test on the row.
use mathlib.Core.Logic.{◌⊎◌, inl, inr}
use Prim.Native.Nat.{◌≤◌}
use mathlib.Core.Path.{subst, ◌≡◌}
use mathlib.Core.Bool.{Bool, true, not}
use mathlib.Core.Option.{Option, none, some}
use mathlib.Core.List.{List, [], ◌∷◌}
use native.Mathlib.Omega.{arith}
use playwright_distributed.Base.Tests.{if◌then◌else◌, bit, Bool-cases, true-false}
use playwright_distributed.Base.Lists.{count, All, All-of}

module _ {ℓ} {A : Type ℓ} where
  -- SELECT * FROM rows WHERE p.
  abbrev pub select : (A → Bool) → List A → List A
  select p [] = []
  select p (x ∷ xs) = let rest = select p xs in if p x then x ∷ rest else rest

  -- DELETE FROM rows WHERE p.
  abbrev pub delete : (A → Bool) → List A → List A
  delete p = select (λ x. not (p x))

  -- UPDATE rows SET f WHERE p.
  abbrev pub update : (A → Bool) → (A → A) → List A → List A
  update p f [] = []
  update p f (x ∷ xs) = (if p x then f x else x) ∷ update p f xs

  -- The row that a `:one` query scans: the first of the result.
  abbrev pub find : (A → Bool) → List A → Option A
  find p [] = none
  find p (x ∷ xs) = let rest = find p xs in if p x then some x else rest

  -- A statement that keeps a test's verdict on every row keeps the count.
  pub count-update_le :
      (q p : A → Bool) (f : A → A) (xs : List A)
      → ((x : A) → p x ≡ true → bit (q (f x)) ≤ bit (q x))
      → count q (update p f xs) ≤ count q xs
  count-update_le q p f [] h = omega arith
  count-update_le q p f (x ∷ xs) h = ground (arith, h x, count-update_le q p f xs h)

  pub All-update {κ} :
      (P : A → Type κ) (p : A → Bool) (f : A → A) (xs : List A)
      → ((x : A) → p x ≡ true → P x → P (f x))
      → All P xs
      → All P (update p f xs)
  All-update P p f [] h a = tt
  All-update P p f (x ∷ xs) h a = ground (arith, h x, All-update P p f xs h)

  pub All-select {κ} :
      (P : A → Type κ) (p : A → Bool) (xs : List A) → All P xs → All P (select p xs)
  All-select P p [] a = tt
  All-select P p (x ∷ xs) a = ground (arith, All-select P p xs)

  pub All-delete {κ} :
      (P : A → Type κ) (p : A → Bool) (xs : List A) → All P xs → All P (delete p xs)
  All-delete P p [] a = tt
  All-delete P p (x ∷ xs) a = ground (arith, All-delete P p xs)

  pub select_test : (p : A → Bool) (xs : List A) → All (λ x. p x ≡ true) (select p xs)
  select_test p [] = tt
  select_test p (x ∷ xs) = ground (arith, select_test p xs)

  pub All-select_back {κ} :
      (P : A → Type κ) (p : A → Bool) (xs : List A)
      → All P (select p xs)
      → All (λ x. p x ≡ true → P x) xs
  All-select_back P p [] a = tt
  All-select_back P p (x ∷ xs) a = elim (Bool-cases (p x)) [
    | inl e ↦
        let b : All P (x ∷ select p xs) = rw e at a in ((λ _. b.0), All-select_back P p xs b.1)
    | inr e ↦
        let b : All P (select p xs) = rw e at a in
        ((λ h. absurd (true-false h e)), All-select_back P p xs b)
  ]

  find-cons :
      (p : A → Bool) (v : A) (vs : List A) (w : A)
      → find p (v ∷ vs) ≡ some w
      → ((p v ≡ true) × (v ≡ w)) ⊎ (find p vs ≡ some w)
  find-cons p v vs w e = ground arith

  -- The row that a query scans passes its test, and is a row.
  pub find-All {κ} :
      (P : A → Type κ) (p : A → Bool) (ws : List A) (w : A)
      → find p ws ≡ some w
      → All P ws
      → (p w ≡ true) × P w
  find-All P p [] w e a = cc
  find-All P p (v ∷ vs) w e a = elim (find-cons p v vs w e) [
    | inl (yes_v, is_w) ↦ subst (λ u. (p u ≡ true) × P u) is_w (yes_v, a.0)
    | inr later ↦ find-All P p vs w later a.1
  ]

  pub find-test : (p : A → Bool) (ws : List A) (w : A) → find p ws ≡ some w → p w ≡ true
  find-test p ws w e = (find-All (λ u. Unit {0}) p ws w e (All-of (λ u. Unit {0}) ws (λ u. tt))).0
