-- ===== src/Tests/Process.antt =====
-- The start of the process.
use playwright_distributed.Base.{◌≡◌, refl, true, false, List, [], ◌∷◌, map, arith, Bytes, codes}
use playwright_distributed.Db.Sessions.{is_unreported}
use playwright_distributed.ApiKeyCommand.{Parsed, helped}
use playwright_distributed.Config.{loaded, Config}
use playwright_distributed.Server.{
  serve_takes_no_arguments, unknown_command, fails, shows_help, serves, validate_runtime_config,
  Surroundings, plan_config, with_database, key_command, run, scheduler_options,
}
use playwright_distributed.Server.Grace.{run_spares_dialling}
use playwright_distributed.Tests.Data.{session_row}

abbrev settings : Config
settings = record {
  worker_ttl = 30_000_000_000;
  session_ttl = 30_000_000_000;
  session_interval = 5_000_000_000;
  pending_ttl = 30_000_000_000;
  stalled_ttl = 60_000_000_000;
  rescue_interval = 5_000_000_000;
  queue_timeout = 10_000_000_000;
  queue_size = 100;
  lifetime_sessions = 50;
  default_browser = codes "chromium";
  dial_timeout = 10_000_000_000;
  write_timeout = 5_000_000_000;
  ping_interval = 5_000_000_000;
  pong_timeout = 10_000_000_000;
  shutdown_grace = 5_000_000_000;
}

abbrev here_now : Surroundings
here_now = record {
  database_url = codes "postgres:";
  opens = true;
  migrates = true;
  config = loaded settings;
}

abbrev no_command : List Bytes → Parsed
no_command args = helped

started_up : run no_command here_now (codes "serve" ∷ []) ≡ serves settings
unfolding run with_database plan_config validate_runtime_config
started_up = refl

refused_start :
    map
      (run no_command here_now)
      ((codes "serve" ∷ (codes "now" ∷ [])) ∷ ((codes "apikey" ∷ []) ∷ ((codes "help" ∷ []) ∷ [])))
    ≡ fails serve_takes_no_arguments ∷ (shows_help ∷ (fails unknown_command ∷ []))
unfolding run key_command
refused_start = refl

run_spares_dialling_example :
    is_unreported 10_000_020 1
      (scheduler_options settings).reconciliation_grace
      []
      (session_row 11 1)
    ≡ false
run_spares_dialling_example =
    run_spares_dialling no_command here_now (codes "serve" ∷ []) settings 10_000_020 1 20 []
      (session_row 11 1) started_up refl (omega arith)
