-- ===== src/Tests/Settings.antt =====
-- Configurations from an empty environment, and from one with a relay timeout that is too short.
use playwright_distributed.Base.{◌*◌, ◌≡◌, refl, Option, none, some, [], ◌∷◌, Bytes}
use playwright_distributed.Config.{
  ℤ, pos, Variable, relay_pong_timeout, ping_too_long, loaded, rejected, bind, second, Config,
  chromium_name, positive_duration, non_negative_int, browser_type, check_less, load,
}
use playwright_distributed.Config.Bounds.{IsBounded, load-IsBounded}

abbrev unset : Variable → Bytes
unset name = []

abbrev no_value : Bytes → Option ℤ
no_value raw = none

abbrev ten_seconds : Bytes → Option ℤ
ten_seconds raw = some (pos (10 * second))

abbrev short_pong : Variable → Bytes
short_pong relay_pong_timeout = b'1' ∷ b'0' ∷ b's' ∷ []
short_pong name = []

abbrev defaults : Config
defaults = record {
  worker_ttl = 30 * second;
  session_ttl = 30 * second;
  session_interval = 10 * second;
  pending_ttl = 30 * second;
  stalled_ttl = 600 * second;
  rescue_interval = 5 * second;
  queue_timeout = 30 * second;
  queue_size = 100;
  lifetime_sessions = 50;
  default_browser = chromium_name;
  dial_timeout = 10 * second;
  write_timeout = 30 * second;
  ping_interval = 20 * second;
  pong_timeout = 60 * second;
  shutdown_grace = 20 * second;
}

loaded_defaults : load no_value no_value unset ≡ loaded defaults
unfolding load bind positive_duration non_negative_int browser_type check_less
loaded_defaults = refl

refused_short_pong : load ten_seconds no_value short_pong ≡ rejected ping_too_long
unfolding load bind positive_duration non_negative_int browser_type check_less
refused_short_pong = refl

load-IsBounded_example : IsBounded defaults
load-IsBounded_example = load-IsBounded no_value no_value unset defaults loaded_defaults
