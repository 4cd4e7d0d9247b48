-- ===== src/Relay/Version.antt =====
-- server/internal/relay/version.go: the version of a Playwright client or worker, by the two regular
-- expressions of that file, each as a scan without backtracking.
pub mod Grammar
pub mod Compatible
use playwright_distributed.Base.{
  ℕ, Bool, true, not, ◌&&◌, ◌||◌, Option, none, some, [], ◌∷◌, ◌++◌, leb, ◌==◌, if◌then◌else◌,
  Bytes, codes, is_empty, is_digit, span, after_byte, strip_prefix,
}

-- The minor number after the full stop.
pub minor_of : Bytes → Option Bytes → Option (Bytes × Bytes × Bytes)
minor_of major none = none
minor_of major (some rest) =
    let (minor, after) = span is_digit rest in
    if is_empty minor then none else some (major, minor, after)

-- One or more digits, a full stop, one or more digits: the two numbers, and what follows.
unfoldable pub major_minor : Bytes → Option (Bytes × Bytes × Bytes)
unfolding minor_of
major_minor v =
    let (major, rest) = span is_digit v in
    if is_empty major then none else minor_of major (after_byte b'.' rest)

-- [0-9A-Za-z.-]
abbrev pub is_tag_byte : ℕ → Bool
is_tag_byte c =
    is_digit c
    || ((leb b'A' c && leb c b'Z') || ((leb b'a' c && leb c b'z') || ((c == b'.') || (c == b'-'))))

-- (\+[0-9A-Za-z.-]+)?$
pub build_suffix : Bytes → Bool
build_suffix [] = true
build_suffix (c ∷ cs) =
    let (build, rest) = span is_tag_byte cs in
    (c == b'+') && (not (is_empty build) && is_empty rest)

-- (-[0-9A-Za-z.-]+)?(\+[0-9A-Za-z.-]+)?$
pub release_suffix : Bytes → Bool
unfolding build_suffix
release_suffix [] = true
release_suffix (c ∷ cs) =
    let (tag, rest) = span is_tag_byte cs in
    if c == b'-' then not (is_empty tag) && build_suffix rest else build_suffix (c ∷ cs)

-- (\.[0-9]+(-[0-9A-Za-z.-]+)?(\+[0-9A-Za-z.-]+)?)?$
pub input_suffix : Bytes → Bool
unfolding release_suffix
input_suffix [] = true
input_suffix (c ∷ cs) =
    let (patch, rest) = span is_digit cs in
    (c == b'.') && (not (is_empty patch) && release_suffix rest)

-- [[:space:]]
abbrev pub is_space : ℕ → Bool
is_space c = (c == 32) || (leb 9 c && leb c 13)

-- [[:space:]]|$
abbrev pub ends_word : Bytes → Bool
ends_word [] = true
ends_word (c ∷ cs) = is_space c

-- (\.[0-9]+)?([[:space:]]|$)
pub agent_suffix : Bytes → Bool
agent_suffix [] = true
agent_suffix (c ∷ cs) =
    let (patch, rest) = span is_digit cs in
    if c == b'.' then not (is_empty patch) && ends_word rest else is_space c

abbrev pub dotted : Bytes → Bytes → Bytes
dotted major minor = major ++ (b'.' ∷ minor)

abbrev pub prefix_of : Bytes → Bytes → Bytes
prefix_of major minor = major ++ (b'.' ∷ (minor ++ (b'.' ∷ [])))

-- The prefix that versions of the same major and minor number share.
unfoldable pub version_prefix : Bytes → Option Bytes
unfolding input_suffix
version_prefix v = elim (major_minor v) [
  | none ↦ none
  | some (major, minor, rest) ↦ if input_suffix rest then some (prefix_of major minor) else none
]

abbrev pub agent_name : Bytes
agent_name = codes "Playwright/"

-- A match of the user agent's pattern at the start of a text.
unfoldable pub agent_at : Bytes → Option (Bytes × Bytes)
unfolding agent_suffix
agent_at s = elim (strip_prefix agent_name s) [
  | none ↦ none
  | some v ↦ elim (major_minor v) [
    | none ↦ none
    | some (major, minor, rest) ↦
        if agent_suffix rest then some (dotted major minor, prefix_of major minor) else none
  ]
]

-- The first match of a user agent: the version, and the prefix.
unfoldable pub user_agent_version : Bytes → Option (Bytes × Bytes)
user_agent_version [] = none
user_agent_version (c ∷ cs) = elim (agent_at (c ∷ cs)) [
  | some found ↦ some found
  | none ↦ user_agent_version cs
]
