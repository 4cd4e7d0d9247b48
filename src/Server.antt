-- ===== src/Server.antt =====
-- The process: run, validateRuntimeConfig and the wiring of server/cmd/server/main.go. Parameters are
-- the parser of the API-key command, whether the database opens and migrates, and Load's result.
pub mod Grace
pub mod Serving
use playwright_distributed.Base.{
  ℕ, ◌*◌, ◌/◌, Bool, not, Option, none, some, List, [], ◌∷◌, leb, if◌then◌else◌, Bytes, codes,
  is_empty, bytes_eq,
}
use playwright_distributed.ApiKeyCommand.{Command, ParseError, Parsed, helped, to_run, refused_args}
use playwright_distributed.Config.{ConfigError, Loaded, loaded, rejected, Config}
use playwright_distributed.Scheduler.Settings.{default_reconciliation_grace}
use playwright_distributed.Scheduler.Settings
use playwright_distributed.Rescuer

pub data StartError : Type 0 where
  serve_takes_no_arguments unknown_command database_url_required : StartError
  database_unavailable migration_failed dial_timeout_too_long : StartError
  arguments_refused : ParseError → StartError
  config_refused : ConfigError → StartError

-- What run does in the end, before it serves or executes.
pub data Plan : Type 0 where
  fails : StartError → Plan
  shows_help : Plan
  executes : Command → Plan
  serves : Config → Plan

-- The active grace is the default, in nanoseconds here.
abbrev pub grace : ℕ
grace = default_reconciliation_grace * 1_000

unfoldable pub validate_runtime_config : Config → Option StartError
validate_runtime_config c = if leb grace c.dial_timeout then some dial_timeout_too_long else none

-- What the environment of the process gives.
pub record Surroundings : Type 0 where
  pub database_url : Bytes
  pub opens : Bool
  pub migrates : Bool
  pub config : Loaded Config

unfoldable pub plan_config : Bool → Loaded Config → Plan
unfolding validate_runtime_config
plan_config migrates (rejected e) = fails (config_refused e)
plan_config migrates (loaded c) = elim (validate_runtime_config c) [
  | some e ↦ fails e
  | none ↦ if migrates then serves c else fails migration_failed
]

-- With a command of the API keys, or none to serve.
unfoldable pub with_database : Surroundings → Option Command → Plan
unfolding plan_config
with_database s command =
    if is_empty s.database_url
    then fails database_url_required
    else if not s.opens
    then fails database_unavailable
    else elim command [ some c ↦ executes c | none ↦ plan_config s.migrates s.config ]

unfoldable pub key_command : Surroundings → Parsed → Plan
unfolding with_database
key_command s helped = shows_help
key_command s (to_run command) = with_database s (some command)
key_command s (refused_args e) = fails (arguments_refused e)

unfoldable pub run : (List Bytes → Parsed) → Surroundings → List Bytes → Plan
unfolding key_command
run parse_args s [] = with_database s none
run parse_args s (name ∷ args) =
    if bytes_eq name (codes "serve")
    then if is_empty args then with_database s none else fails serve_takes_no_arguments
    else if bytes_eq name (codes "apikey")
    then key_command s (parse_args args)
    else fails unknown_command

-- Durations of the configuration count nanoseconds, those of the scheduler and the rescuer
-- microseconds.
abbrev microseconds : ℕ → ℕ
microseconds d = d / 1_000

abbrev pub scheduler_options : Config → Settings.Options
scheduler_options c = Settings.new (record {
  worker_ttl = microseconds c.worker_ttl;
  pending_session_ttl = microseconds c.pending_ttl;
  max_lifetime_sessions = c.lifetime_sessions;
  max_queue_size = c.queue_size;
  queue_wait_timeout = microseconds c.queue_timeout;
  polling_interval = 0;
  reconciliation_grace = 0;
})

abbrev pub rescuer_options : Config → Rescuer.Options
rescuer_options c = record {
  worker_ttl = microseconds c.worker_ttl;
  session_ttl = microseconds c.session_ttl;
  stalled_worker_ttl = microseconds c.stalled_ttl;
}
