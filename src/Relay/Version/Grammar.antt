-- ===== src/Relay/Version/Grammar.antt =====
-- The scan of versions against the grammar of the regular expression.
use mathlib.Core.List.{append-nil}
use playwright_distributed.Base.{
  ℕ, ◌≡◌, refl, sym, ap, ◌∙◌, subst, ◌↔◌, inl, inr, true, false, Option, none, some, [], ◌∷◌, ◌++◌,
  arith, ◌==◌, Bool-cases, Option-cases, Bytes, is_empty, is_digit, span, after_byte, IsWord, Stops,
  span-append, span_split, span-whole, span-IsWord, empty_of_is_empty, after_byte-some,
}
use playwright_distributed.Relay.Version.{
  minor_of, major_minor, is_tag_byte, build_suffix, release_suffix, input_suffix, prefix_of,
  version_prefix,
}

-- An optional tag: nothing, or the byte and a word of tag bytes.
pub data IsTag (b : ℕ) : Bytes → Type 0 where
  untagged : IsTag b []
  tagged : (w : Bytes) → IsWord is_tag_byte w → IsTag b (b ∷ w)

-- What may follow the minor number.
pub data IsSuffix : Bytes → Type 0 where
  no_patch : IsSuffix []
  patch :
      (digits release_tag build : Bytes)
      → IsWord is_digit digits
      → IsTag b'-' release_tag
      → IsTag b'+' build
      → IsSuffix (b'.' ∷ (digits ++ (release_tag ++ build)))

-- A version by its parts.
pub record IsVersion (v major minor : Bytes) : Type 0 where
  pub rest : Bytes
  pub major_digits : IsWord is_digit major
  pub minor_digits : IsWord is_digit minor
  pub suffix : IsSuffix rest
  pub parts : v ≡ major ++ (b'.' ∷ (minor ++ rest))

Stops-suffix : (rest : Bytes) → IsSuffix rest → Stops is_digit rest
Stops-suffix _ no_patch = tt
Stops-suffix _ (patch d r b hd hr hb) = refl

pub major_minor-append :
    (major minor rest : Bytes)
    → IsWord is_digit major
    → IsWord is_digit minor
    → Stops is_digit rest
    → major_minor (major ++ (b'.' ∷ (minor ++ rest))) ≡ some (major, minor, rest)
unfolding major_minor minor_of
major_minor-append major minor rest hM hm s = ground (
  arith,
  span-append is_digit major (b'.' ∷ (minor ++ rest)) hM.0 refl,
  span-append is_digit minor rest hm.0 s,
  hM.1,
  hm.1,
)

build_suffix-tag : (b : Bytes) → IsTag b'+' b → build_suffix b ≡ true
unfolding build_suffix
build_suffix-tag _ untagged = refl
build_suffix-tag _ (tagged w h) = ground (arith, span-whole is_tag_byte w h.0, h.1)

Stops-tag : (b : Bytes) → IsTag b'+' b → Stops is_tag_byte b
Stops-tag _ untagged = tt
Stops-tag _ (tagged w h) = refl

release_suffix-tags : (r b : Bytes) → IsTag b'-' r → IsTag b'+' b → release_suffix (r ++ b) ≡ true
unfolding release_suffix
release_suffix-tags _ _ untagged untagged = refl
release_suffix-tags _ _ untagged (tagged w h) = build_suffix-tag _ (tagged w h)
release_suffix-tags _ b (tagged w h) hb =
    ground (arith, span-append is_tag_byte w b h.0 (Stops-tag b hb), h.1, build_suffix-tag b hb)

Stops-tags : (r b : Bytes) → IsTag b'-' r → IsTag b'+' b → Stops is_digit (r ++ b)
Stops-tags _ _ untagged untagged = tt
Stops-tags _ _ untagged (tagged w h) = refl
Stops-tags _ b (tagged w h) hb = refl

input_suffix_complete : (rest : Bytes) → IsSuffix rest → input_suffix rest ≡ true
unfolding input_suffix
input_suffix_complete _ no_patch = refl
input_suffix_complete _ (patch d r b hd hr hb) = ground (
  arith,
  span-append is_digit d (r ++ b) hd.0 (Stops-tags r b hr hb),
  hd.1,
  release_suffix-tags r b hr hb,
)

build_suffix_sound : (b : Bytes) → build_suffix b ≡ true → IsTag b'+' b
unfolding build_suffix
build_suffix_sound [] h = untagged
build_suffix_sound (c ∷ cs) h =
    let plus : b'+' ≡ c = ground arith in
    let word : is_empty (span is_tag_byte cs).0 ≡ false = ground arith in
    let left : (span is_tag_byte cs).1 ≡ [] =
      empty_of_is_empty (span is_tag_byte cs).1 (ground arith) in
    let whole : (span is_tag_byte cs).0 ≡ cs =
      ground (arith, span_split is_tag_byte cs, append-nil (span is_tag_byte cs).0) in
    subst (λ x. IsTag b'+' (x ∷ cs)) plus
      (tagged cs (subst (IsWord is_tag_byte) whole (span-IsWord is_tag_byte cs word)))

-- What follows the patch number, by its two tags.
record Tags (r : Bytes) : Type 0 where
  release_tag : Bytes
  build : Bytes
  is_release : IsTag b'-' release_tag
  is_build : IsTag b'+' build
  split : r ≡ release_tag ++ build

release_suffix_sound : (r : Bytes) → release_suffix r ≡ true → Tags r
unfolding release_suffix
release_suffix_sound [] h = record {
  release_tag = [];
  build = [];
  is_release = untagged;
  is_build = untagged;
  split = refl;
}
release_suffix_sound (c ∷ cs) h = elim (Bool-cases (c == b'-')) [
  | inl e ↦
      let word : is_empty (span is_tag_byte cs).0 ≡ false = ground arith in
      record {
        release_tag = b'-' ∷ (span is_tag_byte cs).0;
        build = (span is_tag_byte cs).1;
        is_release = tagged (span is_tag_byte cs).0 (span-IsWord is_tag_byte cs word);
        is_build = build_suffix_sound (span is_tag_byte cs).1 (ground arith);
        split = ground (arith, span_split is_tag_byte cs);
      }
  | inr e ↦ record {
    release_tag = [];
    build = c ∷ cs;
    is_release = untagged;
    is_build = build_suffix_sound (c ∷ cs) (ground arith);
    split = refl;
  }
]

input_suffix_sound : (rest : Bytes) → input_suffix rest ≡ true → IsSuffix rest
unfolding input_suffix
input_suffix_sound [] h = no_patch
input_suffix_sound (c ∷ cs) h =
    let dot : b'.' ≡ c = ground arith in
    let word : is_empty (span is_digit cs).0 ≡ false = ground arith in
    let t = release_suffix_sound (span is_digit cs).1 (ground arith) in
    let whole : (span is_digit cs).0 ++ (t.release_tag ++ t.build) ≡ cs =
      ap (λ x. (span is_digit cs).0 ++ x) (sym t.split) ∙ sym (span_split is_digit cs) in
    subst IsSuffix (ap (λ x. b'.' ∷ x) whole ∙ ap (λ x. x ∷ cs) dot) (
      patch (span is_digit cs).0 t.release_tag t.build (span-IsWord is_digit cs word) t.is_release
        t.is_build)

-- The parts of a text that begins with two dotted numbers.
record Numbers (v major minor rest : Bytes) : Type 0 where
  major_digits : IsWord is_digit major
  minor_digits : IsWord is_digit minor
  parts : v ≡ major ++ (b'.' ∷ (minor ++ rest))

-- What the scan of the minor number found.
record Minor (found : Option Bytes) (major x y rest : Bytes) : Type 0 where
  text : Bytes
  is_found : found ≡ some text
  same_major : x ≡ major
  minor_digits : IsWord is_digit y
  minor_parts : text ≡ y ++ rest

minor_of_sound :
    (major : Bytes) (found : Option Bytes) (x y rest : Bytes)
    → minor_of major found ≡ some (x, y, rest)
    → Minor found major x y rest
unfolding minor_of
minor_of_sound major none x y rest h = cc
minor_of_sound major (some t) x y rest h =
    let word : is_empty (span is_digit t).0 ≡ false = ground arith in
    let digits : (span is_digit t).0 ≡ y = ground arith in
    let left : (span is_digit t).1 ≡ rest = ground arith in
    record {
      text = t;
      is_found = refl;
      same_major = ground arith;
      minor_digits = subst (IsWord is_digit) digits (span-IsWord is_digit t word);
      minor_parts = ground (arith, span_split is_digit t, digits, left);
    }

major_minor_sound :
    (v major minor rest : Bytes)
    → major_minor v ≡ some (major, minor, rest)
    → Numbers v major minor rest
unfolding major_minor
major_minor_sound v major minor rest h =
    let word : is_empty (span is_digit v).0 ≡ false = ground arith in
    let q : minor_of (span is_digit v).0 (after_byte b'.' (span is_digit v).1)
        ≡ some (major, minor, rest) =
      ground arith in
    let m = minor_of_sound (span is_digit v).0 _ major minor rest q in
    let dot = after_byte-some b'.' (span is_digit v).1 m.text m.is_found in
    record {
      major_digits = subst (IsWord is_digit) (sym m.same_major) (span-IsWord is_digit v word);
      minor_digits = m.minor_digits;
      parts = ground (arith, span_split is_digit v, dot, m.same_major, m.minor_parts);
    }

abbrev HasPrefix : Bytes → Bytes → Type 0
HasPrefix v p =
    (major : Bytes) × ((minor : Bytes) × (IsVersion v major minor × (p ≡ prefix_of major minor)))

version_prefix_sound : (v p : Bytes) → version_prefix v ≡ some p → HasPrefix v p
unfolding version_prefix
version_prefix_sound v p h = elim (Option-cases (major_minor v)) [
  | inl e ↦ absurd (ground arith)
  | inr ((major, minor, rest), e) ↦
      let n = major_minor_sound v major minor rest e in
      let fits : input_suffix rest ≡ true = ground arith in
      (
        major,
        (
          minor,
          (
            record {
              rest = rest;
              major_digits = n.major_digits;
              minor_digits = n.minor_digits;
              suffix = input_suffix_sound rest fits;
              parts = n.parts;
            },
            ground arith,
          ),
        ),
      )
]

version_prefix_complete : (v p : Bytes) → HasPrefix v p → version_prefix v ≡ some p
unfolding version_prefix
version_prefix_complete v p (major, (minor, (n, e))) =
    rw (n.parts, e)
      (ground (
        arith,
        input_suffix_complete n.rest n.suffix,
        major_minor-append major minor n.rest n.major_digits n.minor_digits
            (Stops-suffix n.rest n.suffix),
      ))

-- VersionPrefix accepts exactly the texts of the form major.minor, major.minor.patch, and the latter with
-- a release tag, a build tag or both; and it gives major.minor followed by a full stop.
pub version_prefix_iff :
    (v p : Bytes)
    → (version_prefix v ≡ some p) ↔ (
        (major : Bytes) × ((minor : Bytes) × (IsVersion v major minor
            × (p ≡ prefix_of major minor))))
version_prefix_iff v p = (version_prefix_sound v p, version_prefix_complete v p)
