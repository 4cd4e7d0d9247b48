-- ===== src/Http/Relay/Dial/Headers.antt =====
-- What a worker learns from the headers of a dial.
use mathlib.Core.List.{Memᴰ}
use playwright_distributed.Base.{
  ◌≡◌, refl, sym, subst, Bool, true, false, some, List, [], ◌∷◌, ◌++◌, map, arith, if-cases, any,
  All, All-append, All-mono, All-Memᴰ, Bytes, is_prefix, find, All-update, All-delete, codes,
  is_empty, bytes_eq, bytes_eq_self, eq_of_bytes_eq,
}
use playwright_distributed.Http.Relay.Dial.{
  Field, is_forwarded, is_named, set_header, add_header, add_values, forward_headers, dial_headers,
}
use playwright_distributed.Http.Auth.{to_lower}

abbrev pub is_authorization : Bytes → Bool
is_authorization name = bytes_eq (map to_lower name) (codes "authorization")

module _ (canonical : Bytes → Bytes) (user_agent : Bytes) (header : List Field)
    (session_id : Bytes) where
  -- A name and a value that may be sent: the client's user agent, a value of one of its x-playwright-
  -- headers under the same name, or the id of the session.
  pub data Sent : Bytes → Bytes → Type 0 where
    agent : Sent (canonical (codes "User-Agent")) user_agent
    playwright :
        (f : Field) (value : Bytes)
        → Memᴰ f header
        → is_forwarded f.name ≡ true
        → Memᴰ value f.values
        → Sent (canonical f.name) value
    session : Sent (canonical (codes "x-pwd-session-id")) session_id

  abbrev pub IsSent : Field → Type 0
  IsSent f = All (Sent f.name) f.values

  set_header-All :
      (name value : Bytes) (h : List Field)
      → Sent (canonical name) value
      → All IsSent h
      → All IsSent (set_header canonical name value h)
  set_header-All name value h s a = ((s, tt), All-delete IsSent (is_named canonical name) h a)

  add_header-All :
      (name value : Bytes) (h : List Field)
      → Sent (canonical name) value
      → All IsSent h
      → All IsSent (add_header canonical name value h)
  add_header-All name value h s a =
      if-cases (All IsSent) (any (is_named canonical name) h) _ _
        (λ _.
          All-update IsSent (is_named canonical name)
            (λ f. record f { values = f.values ++ (value ∷ []) }) h
            (λ f e q.
              All-append (Sent f.name) f.values (value ∷ []) q
                (subst (λ n. Sent n value) (sym (eq_of_bytes_eq f.name (canonical name) e)) s, tt))
            a)
        (λ _. ((s, tt), a))

  add_values-All :
      (name : Bytes) (values : List Bytes) (h : List Field)
      → All (Sent (canonical name)) values
      → All IsSent h
      → All IsSent (add_values canonical name values h)
  unfolding add_values
  add_values-All name [] h s a = a
  add_values-All name (value ∷ values) h s a =
      add_values-All name values _ s.1 (add_header-All name value h s.0 a)

  forward_headers-All :
      (fs h : List Field)
      → All (λ f. Memᴰ f header) fs
      → All IsSent h
      → All IsSent (forward_headers canonical fs h)
  unfolding forward_headers
  forward_headers-All [] h m a = a
  forward_headers-All (f ∷ fs) h m a = forward_headers-All fs _ m.1 (
      if-cases (All IsSent) (is_forwarded f.name) _ h
        (λ e.
          add_values-All f.name f.values h
            (All-mono (λ v. Memᴰ v f.values) (Sent (canonical f.name)) f.values
              (λ v q. playwright f v m.0 e q) (All-Memᴰ f.values))
            a)
        (λ _. a))

  dial_headers-IsSent : All IsSent (dial_headers canonical user_agent header session_id)
  unfolding dial_headers
  dial_headers-IsSent = set_header-All (codes "x-pwd-session-id") session_id _ session (
      forward_headers-All header _ (All-Memᴰ header)
        (if-cases (All IsSent) (is_empty user_agent) [] _ (λ _. tt) (λ _. ((agent, tt), tt))))

  playwright_only :
      (name : Bytes)
      → is_prefix (codes "x-playwright-") name ≡ true
      → bytes_eq name (codes "authorization") ≡ false
  playwright_only [] h = refl
  playwright_only (c ∷ cs) h = ground arith

  not_authorization :
      ((n : Bytes) → map to_lower (canonical n) ≡ map to_lower n)
      → (name value : Bytes) → Sent name value
      → is_authorization name ≡ false
  not_authorization keeps _ _ agent = rw (keeps (codes "User-Agent")) refl
  not_authorization keeps _ _ (playwright f value m h n) =
      rw (keeps f.name) (playwright_only (map to_lower f.name) h)
  not_authorization keeps _ _ session = rw (keeps (codes "x-pwd-session-id")) refl

  -- Every header value that dialWorker sends to a worker is the user agent of the client, a value
  -- of one of its x-playwright- headers under the same name, or the id of the session; none is an
  -- Authorization header; and the header of the session id has the id of the session and nothing
  -- else, whatever the client sent, if the canonical form of a name changes only the case of its
  -- letters.
  pub dial_headers_lem :
      ((n : Bytes) → map to_lower (canonical n) ≡ map to_lower n)
      → All
          (λ f. All (λ value. Sent f.name value × (is_authorization f.name ≡ false)) f.values)
          (dial_headers canonical user_agent header session_id)
        × (find
              (is_named canonical (codes "x-pwd-session-id"))
              (dial_headers canonical user_agent header session_id)
            ≡ some
                (record { name = canonical (codes "x-pwd-session-id"); values = session_id ∷ [] }))
  unfolding dial_headers
  dial_headers_lem keeps = (
    All-mono IsSent
        (λ f. All (λ value. Sent f.name value × (is_authorization f.name ≡ false)) f.values)
        (dial_headers canonical user_agent header session_id)
        (λ f a.
          All-mono (Sent f.name) (λ value. Sent f.name value × (is_authorization f.name ≡ false))
            f.values (λ v q. (q, not_authorization keeps f.name v q)) a)
        dial_headers-IsSent,
    rw (bytes_eq_self (canonical (codes "x-pwd-session-id"))) refl,
  )
