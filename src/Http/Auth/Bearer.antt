-- ===== src/Http/Auth/Bearer.antt =====
-- The bearer token of an Authorization header.
use playwright_distributed.Base.{
  ◌≡◌, refl, ap, ◌∙◌, subst, ◌↔◌, inl, inr, true, false, not, ◌&&◌, Option, none, some, [], ◌∷◌,
  ◌++◌, map, arith, ◌==◌, &&_left, &&_right, Bool-cases, Option-cases, any, All, any-false,
  any_none, Bytes, codes, is_empty, bytes_eq, span, after_byte, strip_prefix, span-append,
  span_split, strip_prefix-append, strip_prefix-some, after_byte-some,
}
use playwright_distributed.Http.Auth.{
  to_lower, is_blank, token_prefix, is_bearer, is_token, token_of, bearer_token,
}

-- A token after its scheme.
pub record IsBearer (authorization token : Bytes) : Type 0 where
  pub scheme : Bytes
  pub rest : Bytes
  pub is_scheme : is_bearer scheme ≡ true
  pub parts : authorization ≡ scheme ++ (32 ∷ token)
  pub has_prefix : token ≡ token_prefix ++ rest
  pub not_empty : is_empty rest ≡ false
  pub no_blank : All (λ c. is_blank c ≡ false) token

-- A scheme holds no space.
scheme_no_space :
    (scheme : Bytes) (word : Bytes)
    → All (λ c. not (c == 32) ≡ true) word
    → bytes_eq (map to_lower scheme) word ≡ true
    → All (λ c. not (c == 32) ≡ true) scheme
scheme_no_space [] word a h = tt
scheme_no_space (c ∷ cs) [] a h = cc
scheme_no_space (c ∷ cs) (d ∷ ds) a h =
    (ground (arith, a.0), scheme_no_space cs ds a.1 (ground arith))

token_of_sound :
    (scheme : Bytes) (found : Option Bytes) (token : Bytes)
    → token_of scheme found ≡ some token
    → (found ≡ some token) × ((is_bearer scheme ≡ true) × (is_token token ≡ true))
unfolding token_of
token_of_sound scheme none token h = cc
token_of_sound scheme (some t) token h = elim (Bool-cases (is_bearer scheme && is_token t)) [
  | inl e ↦
      let q : some t ≡ some token = rw e at h in
      let same : t ≡ token = ground arith in
      (
        q,
        (
          &&_left (is_bearer scheme) (is_token t) e,
          subst (λ x. is_token x ≡ true) same (&&_right (is_bearer scheme) (is_token t) e),
        ),
      )
  | inr e ↦ let q : none ≡ some token = rw e at h in cc
]

-- What the test of a token says.
is_token_sound :
    (token : Bytes)
    → is_token token ≡ true
    → (rest : Bytes) × ((token ≡ token_prefix ++ rest)
        × ((is_empty rest ≡ false) × All (λ c. is_blank c ≡ false) token))
is_token_sound token h = elim (Option-cases (strip_prefix token_prefix token)) [
  | inl e ↦ absurd (ground arith)
  | inr (rest, e) ↦
      let none_blank : any is_blank token ≡ false = ground arith in
      (
        rest,
        (
          strip_prefix-some token_prefix token rest e,
          (ground arith, any-false is_blank token none_blank),
        ),
      )
]

bearer_token_sound :
    (authorization token : Bytes)
    → bearer_token authorization ≡ some token
    → IsBearer authorization token
unfolding bearer_token
bearer_token_sound authorization token h =
    let scheme = (span (λ c. not (c == 32)) authorization).0 in
    let (found, (is_scheme, fits)) =
      token_of_sound scheme (after_byte 32 (span (λ c. not (c == 32)) authorization).1) token h in
    let (rest, (e, (n, b))) = is_token_sound token fits in
    record {
      scheme = scheme;
      rest = rest;
      is_scheme = is_scheme;
      parts =
          span_split (λ c. not (c == 32)) authorization
          ∙ ap (λ x. scheme ++ x) (after_byte-some 32 _ token found);
      has_prefix = e;
      not_empty = n;
      no_blank = b;
    }

bearer_no_space : All (λ c. not (c == 32) ≡ true) (codes "bearer")
bearer_no_space = (refl, (refl, (refl, (refl, (refl, (refl, tt))))))

token_of_complete :
    (scheme token rest : Bytes)
    → is_bearer scheme ≡ true
    → strip_prefix token_prefix token ≡ some rest
    → is_empty rest ≡ false
    → All (λ c. is_blank c ≡ false) token
    → token_of scheme (some token) ≡ some token
unfolding token_of
token_of_complete scheme token rest s p n b = ground (arith, any_none is_blank token b)

bearer_token_complete :
    (authorization token : Bytes)
    → IsBearer authorization token
    → bearer_token authorization ≡ some token
unfolding bearer_token
bearer_token_complete authorization token b =
    let e =
      span-append (λ c. not (c == 32)) b.scheme (32 ∷ token)
        (scheme_no_space b.scheme (codes "bearer") bearer_no_space b.is_scheme) refl in
    let p : strip_prefix token_prefix token ≡ some b.rest =
      rw b.has_prefix (strip_prefix-append token_prefix b.rest) in
    rw (b.parts, e) (token_of_complete b.scheme token b.rest b.is_scheme p b.not_empty b.no_blank)

-- The token of a header is what follows the scheme Bearer, in any case, and one space; and there is a
-- token exactly if that begins with pwd_, goes on after it, and holds no blank.
pub bearer_token_iff :
    (authorization token : Bytes)
    → (bearer_token authorization ≡ some token) ↔ IsBearer authorization token
bearer_token_iff authorization token =
    (bearer_token_sound authorization token, bearer_token_complete authorization token)
