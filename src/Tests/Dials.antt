-- ===== src/Tests/Dials.antt =====
-- A dial for a client that sends an id of its own, its key, and two headers of Playwright.
use playwright_distributed.Base.{
  ℕ, ◌≡◌, refl, false, some, List, [], ◌∷◌, map, arith, All, Bytes, find, codes,
}
use playwright_distributed.Http.Auth.{to_lower}
use playwright_distributed.Http.Relay.Dial.{
  Field, is_named, add_values, forward_headers, dial_headers,
}
use playwright_distributed.Http.Relay.Dial.Headers.{is_authorization, Sent, dial_headers_lem}

-- A canonical form that only changes the case.
abbrev lowered : Bytes → Bytes
lowered name = map to_lower name

to_lower_twice : (c : ℕ) → to_lower (to_lower c) ≡ to_lower c
to_lower_twice c = ground arith

lowered_twice : (name : Bytes) → map to_lower (lowered name) ≡ map to_lower name
lowered_twice [] = refl
lowered_twice (c ∷ cs) = ground (arith, to_lower_twice c, lowered_twice cs)

abbrev field : Bytes → Bytes → Field
field name value = record { name = name; values = value ∷ [] }

abbrev sent_by_client : List Field
sent_by_client =
    field (codes "Authorization") (codes "Bearer pwd_x")
    ∷ field (codes "X-Playwright-Proxy") (codes "a")
    ∷ field (codes "X-Pwd-Session-Id") (codes "99")
    ∷ field (codes "x-playwright-proxy") (codes "b")
    ∷ []

abbrev sent_to_worker : List Field
sent_to_worker =
    field (codes "x-pwd-session-id") (codes "7")
    ∷ record { name = codes "x-playwright-proxy"; values = codes "a" ∷ codes "b" ∷ [] }
    ∷ field (codes "user-agent") (codes "Playwright/1.57.0")
    ∷ []

dialled :
    dial_headers lowered (codes "Playwright/1.57.0") sent_by_client (codes "7") ≡ sent_to_worker
unfolding dial_headers forward_headers add_values
dialled = refl

dial_headers_lem_example :
    All
      (λ f.
        All
          (λ value.
            Sent lowered (codes "Playwright/1.57.0") sent_by_client (codes "7") f.name value
            × (is_authorization f.name ≡ false))
          f.values)
      (dial_headers lowered (codes "Playwright/1.57.0") sent_by_client (codes "7"))
    × (find
          (is_named lowered (codes "x-pwd-session-id"))
          (dial_headers lowered (codes "Playwright/1.57.0") sent_by_client (codes "7"))
        ≡ some (field (codes "x-pwd-session-id") (codes "7")))
dial_headers_lem_example =
    dial_headers_lem lowered (codes "Playwright/1.57.0") sent_by_client (codes "7") lowered_twice
