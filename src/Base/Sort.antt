-- ===== src/Base/Sort.antt =====
-- ORDER BY: insertion sort by a test that says which row comes first.

use mathlib.Core.Path.{◌≡◌, refl}
use mathlib.Core.Logic.{inl, inr}
use mathlib.Core.Bool.{Bool, true, false}
use mathlib.Core.List.{List, [], ◌∷◌}
use native.Mathlib.Omega.{arith}
use playwright_distributed.Base.Tests.{if◌then◌else◌, Bool-cases}
use playwright_distributed.Base.Lists.{count, All, All-mono}

module _ {ℓ} {A : Type ℓ} (before : A → A → Bool) where
  unfoldable pub insert_by : A → List A → List A
  insert_by x [] = x ∷ []
  insert_by x (y ∷ ys) = let later = y ∷ insert_by x ys in if before y x then later else x ∷ y ∷ ys

  unfoldable pub sort_by : List A → List A
  unfolding insert_by
  sort_by [] = []
  sort_by (x ∷ xs) = insert_by x (sort_by xs)

  count-insert_by :
      (p : A → Bool) (x : A) (xs : List A) → count p (insert_by x xs) ≡ count p (x ∷ xs)
  unfolding insert_by
  count-insert_by p x [] = refl
  count-insert_by p x (y ∷ ys) = ground (arith, count-insert_by p x ys)

  -- Sorting keeps every row, and how often it stands there.
  pub count-sort_by : (p : A → Bool) (xs : List A) → count p (sort_by xs) ≡ count p xs
  unfolding sort_by
  count-sort_by p [] = refl
  count-sort_by p (x ∷ xs) = omega (arith, count-insert_by p x (sort_by xs), count-sort_by p xs)

  -- No later row comes before an earlier one.
  abbrev pub IsOrdered : List A → Type 0
  IsOrdered [] = Unit
  IsOrdered (x ∷ xs) = All (λ y. before y x ≡ false) xs × IsOrdered xs

  module _ (asym : (x y : A) → before x y ≡ true → before y x ≡ false)
      (negtrans : (x y z : A) → before z y ≡ false → before y x ≡ false → before z x ≡ false) where
    All-insert_by :
        (w x : A) (ys : List A)
        → before x w ≡ false
        → All (λ y. before y w ≡ false) ys
        → All (λ y. before y w ≡ false) (insert_by x ys)
    unfolding insert_by
    All-insert_by w x [] h a = (h, tt)
    All-insert_by w x (y ∷ ys) h (a, b) = elim (Bool-cases (before y x)) [
      | inl e ↦ rw e (a, All-insert_by w x ys h b)
      | inr e ↦ rw e (h, (a, b))
    ]

    insert_by-IsOrdered : (x : A) (ys : List A) → IsOrdered ys → IsOrdered (insert_by x ys)
    unfolding insert_by
    insert_by-IsOrdered x [] o = (tt, tt)
    insert_by-IsOrdered x (y ∷ ys) (a, o) = elim (Bool-cases (before y x)) [
      | inl e ↦ rw e (All-insert_by y x ys (asym y x e) a, insert_by-IsOrdered x ys o)
      | inr e ↦ rw e (
        (
          e,
          All-mono (λ z. before z y ≡ false) (λ z. before z x ≡ false) ys
              (λ z h. negtrans x y z h e) a,
        ),
        (a, o),
      )
    ]

    pub sort_by-IsOrdered : (xs : List A) → IsOrdered (sort_by xs)
    unfolding sort_by
    sort_by-IsOrdered [] = tt
    sort_by-IsOrdered (x ∷ xs) = insert_by-IsOrdered x (sort_by xs) (sort_by-IsOrdered xs)
