-- ===== src/Tests/Versions.antt =====
-- Versions and user agents.
use playwright_distributed.Base.{
  ◌≡◌, refl, ◌↔◌, none, some, [], ◌∷◌, ◌++◌, map, Bytes, codes, span, strip_prefix,
}
use playwright_distributed.Relay.Version.Compatible.{prefix_match, user_agent_version_print}
use playwright_distributed.Relay.Version.Grammar.{IsVersion, version_prefix_iff}
use playwright_distributed.Relay.Version.{
  major_minor, dotted, prefix_of, version_prefix, agent_name, agent_at, user_agent_version,
}

abbrev worker_version : Bytes
worker_version = codes "1.57.0-alpha-2.x+b"

client_prefix : version_prefix (codes "1.57") ≡ some (codes "1.57.")
unfolding version_prefix major_minor span
client_prefix = refl

worker_prefix : version_prefix worker_version ≡ some (codes "1.57.")
unfolding version_prefix major_minor span
worker_prefix = refl

no_prefix :
    map version_prefix (codes "1" ∷ codes "1." ∷ codes "1.5." ∷ codes "1.5.0-" ∷ codes "v1.5" ∷ [])
    ≡ none ∷ none ∷ none ∷ none ∷ none ∷ []
unfolding version_prefix major_minor span
no_prefix = refl

agent :
    user_agent_version (codes "Mozilla Playwright/x Playwright/1.57.3 (x64)")
    ≡ some (codes "1.57", codes "1.57.")
unfolding user_agent_version agent_at major_minor span strip_prefix
agent = refl

no_agent : user_agent_version (codes "Playwright/1.57.3-beta") ≡ none
unfolding user_agent_version agent_at major_minor span strip_prefix
no_agent = refl

version_prefix_iff_example : (version_prefix worker_version ≡ some (codes "1.57.")) ↔ (
    (major : Bytes) × ((minor : Bytes) × (IsVersion worker_version major minor
        × (codes "1.57." ≡ prefix_of major minor))))
version_prefix_iff_example = version_prefix_iff worker_version (codes "1.57.")

same_prefix : ◌≡◌ {A = Bytes} (codes "1.57.") (codes "1.57.")
same_prefix =
    prefix_match (codes "1.57") worker_version (codes "1.57.") (codes "1.57.") client_prefix
      worker_prefix refl

agent_printed :
    (user_agent_version (agent_name ++ (codes "1" ++ (b'.' ∷ (codes "57" ++ codes " (x64)"))))
      ≡ some (dotted (codes "1") (codes "57"), prefix_of (codes "1") (codes "57")))
    × (version_prefix (dotted (codes "1") (codes "57")) ≡ some (prefix_of (codes "1") (codes "57")))
agent_printed =
    user_agent_version_print (codes "1") (codes "57") (codes " (x64)") ((refl, tt), refl)
      ((refl, (refl, tt)), refl) refl
