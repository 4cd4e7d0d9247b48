-- ===== src/Http/Relay/Dial.antt =====
-- The headers of dialWorker in server/internal/httpapi/relay.go. An http.Header is a list of fields in
-- some order of the map; the canonical form of a name is a parameter.
pub mod Headers
use playwright_distributed.Base.{
  Bool, List, [], ◌∷◌, ◌++◌, map, if◌then◌else◌, any, Bytes, is_prefix, delete, update, codes,
  is_empty, bytes_eq,
}
use playwright_distributed.Http.Auth.{to_lower}

pub record Field : Type 0 where
  pub name : Bytes
  pub values : List Bytes

abbrev pub is_forwarded : Bytes → Bool
is_forwarded name = is_prefix (codes "x-playwright-") (map to_lower name)

module _ (canonical : Bytes → Bytes) where
  abbrev pub is_named : Bytes → Field → Bool
  is_named name f = bytes_eq f.name (canonical name)

  -- Header.Set.
  abbrev pub set_header : Bytes → Bytes → List Field → List Field
  set_header name value h =
      record { name = canonical name; values = value ∷ [] } ∷ delete (is_named name) h

  -- Header.Add.
  abbrev pub add_header : Bytes → Bytes → List Field → List Field
  add_header name value h =
      if any (is_named name) h
      then update (is_named name) (λ f. record f { values = f.values ++ (value ∷ []) }) h
      else record { name = canonical name; values = value ∷ [] } ∷ h

  unfoldable pub add_values : Bytes → List Bytes → List Field → List Field
  add_values name [] h = h
  add_values name (value ∷ values) h = add_values name values (add_header name value h)

  unfoldable pub forward_headers : List Field → List Field → List Field
  unfolding add_values
  forward_headers [] h = h
  forward_headers (f ∷ fs) h =
      forward_headers fs (if is_forwarded f.name then add_values f.name f.values h else h)

  abbrev pub agent_header : Bytes → List Field
  agent_header user_agent =
      if is_empty user_agent then [] else set_header (codes "User-Agent") user_agent []

  unfoldable pub dial_headers : Bytes → List Field → Bytes → List Field
  unfolding forward_headers
  dial_headers user_agent header session_id =
      set_header (codes "x-pwd-session-id") session_id
        (forward_headers header (agent_header user_agent))
