-- ===== src/Base/Text.antt =====
-- Texts as lists of bytes: literals, equality, and the scans of parsers.
use Prim.Native.Nat.{ℕ}
use Prim.Native.Char.{code}
use Prim.Native.String.{String}
use mathlib.Core.Path.{◌≡◌, refl}
use mathlib.Core.Bool.{Bool, true, false, ◌&&◌}
use mathlib.Core.Option.{Option, none, some}
use mathlib.Core.List.{List, [], ◌∷◌, ◌++◌}
use native.Mathlib.Omega.{arith}
use playwright_distributed.Base.Tests.{leb, ◌==◌, if◌then◌else◌}
use playwright_distributed.Base.Lists.{All, Bytes, is_prefix}

-- The bytes of an ASCII literal.
abbrev pub codes : String → Bytes
codes String.[] = []
codes (String.◌∷◌ c s) = code c ∷ codes s

abbrev pub is_empty {ℓ} : {A : Type ℓ} → List A → Bool
is_empty [] = true
is_empty (x ∷ xs) = false

abbrev pub bytes_eq : Bytes → Bytes → Bool
bytes_eq [] [] = true
bytes_eq (x ∷ xs) (y ∷ ys) = (x == y) && bytes_eq xs ys
bytes_eq _ _ = false

pub bytes_eq_self : (xs : Bytes) → bytes_eq xs xs ≡ true
bytes_eq_self [] = refl
bytes_eq_self (x ∷ xs) = ground (arith, bytes_eq_self xs)

pub eq_of_bytes_eq : (xs ys : Bytes) → bytes_eq xs ys ≡ true → xs ≡ ys
eq_of_bytes_eq [] [] h = refl
eq_of_bytes_eq [] (y ∷ ys) h = cc
eq_of_bytes_eq (x ∷ xs) [] h = cc
eq_of_bytes_eq (x ∷ xs) (y ∷ ys) h = ground (arith, eq_of_bytes_eq xs ys)

abbrev pub is_digit : ℕ → Bool
is_digit c = leb b'0' c && leb c b'9'

-- The longest prefix of bytes that pass the test, and the rest.
unfoldable pub span : (ℕ → Bool) → Bytes → Bytes × Bytes
span p [] = ([], [])
span p (x ∷ xs) = let (taken, rest) = span p xs in if p x then (x ∷ taken, rest) else ([], x ∷ xs)

-- The rest of a text after a given first byte.
abbrev pub after_byte : ℕ → Bytes → Option Bytes
after_byte b [] = none
after_byte b (c ∷ cs) = if c == b then some cs else none

-- The rest of a text after a given prefix.
unfoldable pub strip_prefix : Bytes → Bytes → Option Bytes
strip_prefix [] ys = some ys
strip_prefix (x ∷ xs) [] = none
strip_prefix (x ∷ xs) (y ∷ ys) = let rest = strip_prefix xs ys in if x == y then rest else none

-- A non-empty text whose bytes all pass the test.
abbrev pub IsWord : (ℕ → Bool) → Bytes → Type 0
IsWord p w = All (λ c. p c ≡ true) w × (is_empty w ≡ false)

abbrev pub Stops : (ℕ → Bool) → Bytes → Type 0
Stops p [] = Unit
Stops p (c ∷ cs) = p c ≡ false

pub span-append :
    (p : ℕ → Bool) (xs ys : Bytes)
    → All (λ c. p c ≡ true) xs
    → Stops p ys
    → span p (xs ++ ys) ≡ (xs, ys)
unfolding span
span-append p [] [] a s = refl
span-append p [] (y ∷ ys) a s = ground arith
span-append p (x ∷ xs) ys a s = ground (arith, span-append p xs ys a.1 s)

pub span_split : (p : ℕ → Bool) (xs : Bytes) → xs ≡ (span p xs).0 ++ (span p xs).1
unfolding span
span_split p [] = refl
span_split p (x ∷ xs) = ground (arith, span_split p xs)

pub span-All : (p : ℕ → Bool) (xs : Bytes) → All (λ c. p c ≡ true) (span p xs).0
unfolding span
span-All p [] = tt
span-All p (x ∷ xs) = ground (arith, span-All p xs)

pub strip_prefix-append : (xs ys : Bytes) → strip_prefix xs (xs ++ ys) ≡ some ys
unfolding strip_prefix
strip_prefix-append [] ys = refl
strip_prefix-append (x ∷ xs) ys = ground (arith, strip_prefix-append xs ys)

pub strip_prefix-some : (xs ys rest : Bytes) → strip_prefix xs ys ≡ some rest → ys ≡ xs ++ rest
unfolding strip_prefix
strip_prefix-some [] ys rest h = ground arith
strip_prefix-some (x ∷ xs) [] rest h = cc
strip_prefix-some (x ∷ xs) (y ∷ ys) rest h = ground (arith, strip_prefix-some xs ys rest)

pub span-whole : (p : ℕ → Bool) (xs : Bytes) → All (λ c. p c ≡ true) xs → span p xs ≡ (xs, [])
unfolding span
span-whole p [] a = refl
span-whole p (x ∷ xs) a = ground (arith, span-whole p xs a.1)

-- A word at the start of a text, and that it is the whole text if nothing is left.
pub span-IsWord :
    (p : ℕ → Bool) (xs : Bytes) → is_empty (span p xs).0 ≡ false → IsWord p (span p xs).0
span-IsWord p xs h = (span-All p xs, h)

pub empty_of_is_empty {ℓ} : {A : Type ℓ} (xs : List A) → is_empty xs ≡ true → xs ≡ []
empty_of_is_empty [] h = refl
empty_of_is_empty (x ∷ xs) h = cc

pub is_prefix_some : (xs ys : Bytes) → is_prefix xs ys ≡ true → (rest : Bytes) × (ys ≡ xs ++ rest)
is_prefix_some [] ys h = (ys, refl)
is_prefix_some (x ∷ xs) [] h = cc
is_prefix_some (x ∷ xs) (y ∷ ys) h =
    let (rest, e) = is_prefix_some xs ys (ground arith) in (rest, ground arith)

pub after_byte-some : (b : ℕ) (v rest : Bytes) → after_byte b v ≡ some rest → v ≡ b ∷ rest
after_byte-some b [] rest h = cc
after_byte-some b (c ∷ cs) rest h = ground arith
