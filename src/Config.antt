-- ===== src/Config.antt =====
-- Load of server/internal/config/config.go. Durations count nanoseconds.
pub mod Bounds
use playwright_distributed.Base.{
  ℕ, ◌*◌, Bool, ◌&&◌, ◌||◌, Option, none, some, [], ◌∷◌, ltb, leb, ◌==◌, if◌then◌else◌, Bytes,
  is_prefix,
}

pub data ℤ : Type 0 where
  pos : ℕ → ℤ
  negsuc : ℕ → ℤ

-- The environment variables that Load reads.
pub data Variable : Type 0 where
  worker_heartbeat_ttl session_heartbeat_ttl session_heartbeat_interval : Variable
  pending_session_ttl stalled_worker_ttl rescuer_interval queue_wait_timeout : Variable
  max_queue_size max_lifetime_sessions default_browser_type worker_dial_timeout : Variable
  relay_write_timeout relay_ping_interval relay_pong_timeout shutdown_grace_period : Variable

pub data ConfigError : Type 0 where
  not_a_duration not_positive below_microsecond : Variable → ConfigError
  not_an_integer is_negative not_a_browser : Variable → ConfigError
  interval_too_long ping_too_long : ConfigError

pub data Loaded (A : Type 0) : Type 0 where
  loaded : A → Loaded A
  rejected : ConfigError → Loaded A

unfoldable pub bind : {A B : Type 0} → Loaded A → (A → Loaded B) → Loaded B
bind (loaded a) f = f a
bind (rejected e) f = rejected e

infixl 5 ◌>>=◌
abbrev pub ◌>>=◌ : {A B : Type 0} → Loaded A → (A → Loaded B) → Loaded B
◌>>=◌ m f = bind m f

abbrev pub second : ℕ
second = 1_000_000_000

pub record Config : Type 0 where
  pub worker_ttl : ℕ
  pub session_ttl : ℕ
  pub session_interval : ℕ
  pub pending_ttl : ℕ
  pub stalled_ttl : ℕ
  pub rescue_interval : ℕ
  pub queue_timeout : ℕ
  pub queue_size : ℕ
  pub lifetime_sessions : ℕ
  pub default_browser : Bytes
  pub dial_timeout : ℕ
  pub write_timeout : ℕ
  pub ping_interval : ℕ
  pub pong_timeout : ℕ
  pub shutdown_grace : ℕ

abbrev pub check_duration : Variable → Option ℤ → Loaded ℕ
check_duration name none = rejected (not_a_duration name)
check_duration name (some (negsuc n)) = rejected (not_positive name)
check_duration name (some (pos n)) =
    if n == 0
    then rejected (not_positive name)
    else if ltb n 1_000
    then rejected (below_microsecond name)
    else loaded n

abbrev check_integer : Variable → Option ℤ → Loaded ℕ
check_integer name none = rejected (not_an_integer name)
check_integer name (some (negsuc n)) = rejected (is_negative name)
check_integer name (some (pos n)) = loaded n

abbrev pub or_default : Loaded ℕ → ℕ → Bytes → Loaded ℕ
or_default value default_value [] = loaded default_value
or_default value default_value (c ∷ cs) = value

abbrev pub non_empty_or : Bytes → Bytes → Bytes
non_empty_or default_value [] = default_value
non_empty_or default_value (c ∷ cs) = c ∷ cs

abbrev bytes_eq : Bytes → Bytes → Bool
bytes_eq xs ys = is_prefix xs ys && is_prefix ys xs

abbrev pub chromium_name : Bytes
chromium_name = b'c' ∷ b'h' ∷ b'r' ∷ b'o' ∷ b'm' ∷ b'i' ∷ b'u' ∷ b'm' ∷ []

abbrev firefox_name : Bytes
firefox_name = b'f' ∷ b'i' ∷ b'r' ∷ b'e' ∷ b'f' ∷ b'o' ∷ b'x' ∷ []

abbrev webkit_name : Bytes
webkit_name = b'w' ∷ b'e' ∷ b'b' ∷ b'k' ∷ b'i' ∷ b't' ∷ []

abbrev pub is_browser_name : Bytes → Bool
is_browser_name v = bytes_eq v chromium_name || (bytes_eq v firefox_name || bytes_eq v webkit_name)

-- The parsers of the standard library, and the environment.
module _ (parse_duration parse_int : Bytes → Option ℤ) (getenv : Variable → Bytes) where
  unfoldable pub positive_duration : Variable → ℕ → Loaded ℕ
  positive_duration name default_value =
      or_default (check_duration name (parse_duration (getenv name))) default_value (getenv name)

  unfoldable pub non_negative_int : Variable → ℕ → Loaded ℕ
  non_negative_int name default_value =
      or_default (check_integer name (parse_int (getenv name))) default_value (getenv name)

  unfoldable pub browser_type : Variable → Bytes → Loaded Bytes
  browser_type name default_value =
      let value = non_empty_or default_value (getenv name) in
      if is_browser_name value then loaded value else rejected (not_a_browser name)

  unfoldable pub check_less : ℕ → ℕ → ConfigError → Loaded (Unit {0})
  check_less short long e = if leb long short then rejected e else loaded tt

  unfoldable pub load : Loaded Config
  unfolding positive_duration non_negative_int browser_type check_less
  load = do
    worker_ttl ← positive_duration worker_heartbeat_ttl (30 * second)
    session_ttl ← positive_duration session_heartbeat_ttl (30 * second)
    session_interval ← positive_duration session_heartbeat_interval (10 * second)
    order ← check_less session_interval session_ttl interval_too_long
    pending_ttl ← positive_duration pending_session_ttl (30 * second)
    stalled_ttl ← positive_duration stalled_worker_ttl (600 * second)
    rescue_interval ← positive_duration rescuer_interval (5 * second)
    queue_timeout ← positive_duration queue_wait_timeout (30 * second)
    queue_size ← non_negative_int max_queue_size 100
    lifetime_sessions ← non_negative_int max_lifetime_sessions 50
    default_browser ← browser_type default_browser_type chromium_name
    dial_timeout ← positive_duration worker_dial_timeout (10 * second)
    write_timeout ← positive_duration relay_write_timeout (30 * second)
    ping_interval ← positive_duration relay_ping_interval (20 * second)
    pong_timeout ← positive_duration relay_pong_timeout (60 * second)
    ping_order ← check_less ping_interval pong_timeout ping_too_long
    shutdown_grace ← positive_duration shutdown_grace_period (20 * second)
    loaded (record {
      worker_ttl = worker_ttl;
      session_ttl = session_ttl;
      session_interval = session_interval;
      pending_ttl = pending_ttl;
      stalled_ttl = stalled_ttl;
      rescue_interval = rescue_interval;
      queue_timeout = queue_timeout;
      queue_size = queue_size;
      lifetime_sessions = lifetime_sessions;
      default_browser = default_browser;
      dial_timeout = dial_timeout;
      write_timeout = write_timeout;
      ping_interval = ping_interval;
      pong_timeout = pong_timeout;
      shutdown_grace = shutdown_grace;
    })
