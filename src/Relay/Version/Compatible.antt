-- ===== src/Relay/Version/Compatible.antt =====
-- A prefix of versions matches the versions of one major and minor number.
use mathlib.Core.List.{append_assoc, append-nil}
use playwright_distributed.Base.{
  ◌≡◌, refl, sym, ap, ◌∙◌, true, false, some, [], ◌∷◌, ◌++◌, arith, All, Bytes, is_prefix, is_empty,
  is_digit, IsWord, Stops, strip_prefix-append, is_prefix_some,
}
use playwright_distributed.Relay.Version.{
  ends_word, agent_suffix, dotted, prefix_of, version_prefix, agent_name, agent_at,
  user_agent_version,
}
use playwright_distributed.Relay.Version.Grammar.{
  IsSuffix, no_patch, patch, major_minor-append, version_prefix_iff,
}

-- Two texts that begin with digits up to a full stop begin with the same digits.
same_digits :
    (a b xs ys : Bytes)
    → All (λ c. is_digit c ≡ true) a
    → All (λ c. is_digit c ≡ true) b
    → a ++ (b'.' ∷ xs) ≡ b ++ (b'.' ∷ ys)
    → (a ≡ b) × (xs ≡ ys)
same_digits [] [] xs ys ha hb e = ground arith
same_digits [] (c ∷ b) xs ys ha hb e = absurd (ground arith)
same_digits (c ∷ a) [] xs ys ha hb e = absurd (ground arith)
same_digits (c ∷ a) (d ∷ b) xs ys ha hb e =
    let (p, q) = same_digits a b xs ys ha.1 hb.1 (ground arith) in (ground arith, q)

prefix_of-append : (x y r : Bytes) → prefix_of x y ++ r ≡ x ++ (b'.' ∷ (y ++ (b'.' ∷ r)))
prefix_of-append x y r = simp append_assoc

-- Digits are followed by no full stop.
no_dot : (a b xs : Bytes) → All (λ c. is_digit c ≡ true) a → a ++ [] ≡ b ++ (b'.' ∷ xs) → ⊥
no_dot [] [] xs h e = cc
no_dot [] (c ∷ b) xs h e = cc
no_dot (c ∷ a) [] xs h e = absurd (ground arith)
no_dot (c ∷ a) (d ∷ b) xs h e = no_dot a b xs h.1 (ground arith)

same_minor :
    (a b rest xs : Bytes)
    → IsSuffix rest
    → All (λ c. is_digit c ≡ true) a
    → All (λ c. is_digit c ≡ true) b
    → a ++ rest ≡ b ++ (b'.' ∷ xs)
    → a ≡ b
same_minor a b _ xs no_patch ha hb e = absurd (no_dot a b xs ha e)
same_minor a b _ xs (patch d r u hd hr hu) ha hb e = (same_digits a b _ xs ha hb e).0

-- A version that the prefix of a client's version matches has that prefix itself: the two versions
-- have the same major and the same minor number.
pub prefix_match :
    (client worker p q : Bytes)
    → version_prefix client ≡ some p
    → version_prefix worker ≡ some q
    → is_prefix p worker ≡ true
    → q ≡ p
prefix_match client worker p q hc hw h =
    let (cx, (cy, (c, ec))) = (version_prefix_iff client p).0 hc in
    let (wx, (wy, (w, ew))) = (version_prefix_iff worker q).0 hw in
    let (r, e) = is_prefix_some p worker h in
    let whole : wx ++ (b'.' ∷ (wy ++ w.rest)) ≡ cx ++ (b'.' ∷ (cy ++ (b'.' ∷ r))) =
      sym w.parts ∙ e ∙ ap (λ x. x ++ r) ec ∙ prefix_of-append cx cy r in
    let (first, later) = same_digits wx cx _ _ w.major_digits.0 c.major_digits.0 whole in
    let second = same_minor wy cy w.rest r w.suffix w.minor_digits.0 c.minor_digits.0 later in
    ground arith

agent_suffix-word : (rest : Bytes) → ends_word rest ≡ true → agent_suffix rest ≡ true
unfolding agent_suffix
agent_suffix-word [] h = refl
agent_suffix-word (c ∷ cs) h = ground arith

Stops-word : (rest : Bytes) → ends_word rest ≡ true → Stops is_digit rest
Stops-word [] h = tt
Stops-word (c ∷ cs) h = ground arith

user_agent_version_at :
    (s : Bytes) (found : Bytes × Bytes)
    → is_empty s ≡ false
    → agent_at s ≡ some found
    → user_agent_version s ≡ some found
unfolding user_agent_version
user_agent_version_at [] found n h = cc
user_agent_version_at (c ∷ cs) found n h = ground arith

-- A user agent that begins with Playwright/ and a version of two numbers, followed by white space or by
-- nothing, is read as that version and its prefix; and that prefix is the one that VersionPrefix gives
-- for the version.
pub user_agent_version_print :
    (major minor rest : Bytes)
    → IsWord is_digit major
    → IsWord is_digit minor
    → ends_word rest ≡ true
    → (user_agent_version (agent_name ++ (major ++ (b'.' ∷ (minor ++ rest))))
        ≡ some (dotted major minor, prefix_of major minor))
      × (version_prefix (dotted major minor) ≡ some (prefix_of major minor))
unfolding agent_at
user_agent_version_print major minor rest hx hy h = (
  user_agent_version_at _ _ refl (
      ground (
        arith,
        strip_prefix-append agent_name (major ++ (b'.' ∷ (minor ++ rest))),
        major_minor-append major minor rest hx hy (Stops-word rest h),
        agent_suffix-word rest h,
      )),
  (version_prefix_iff (dotted major minor) (prefix_of major minor)).1 (
    major,
    (
      minor,
      (
        record {
          rest = [];
          major_digits = hx;
          minor_digits = hy;
          suffix = no_patch;
          parts = ap (λ x. major ++ (b'.' ∷ x)) (sym (append-nil minor));
        },
        refl,
      ),
    ),
  ),
)
