-- ===== src/Server/Grace.antt =====
-- A session whose worker is still being dialled is not reported lost.
use playwright_distributed.Base.{
  ℕ, ◌+◌, ◌*◌, ◌≤◌, ◌≡◌, subst, inl, inr, Bool, false, Option, none, some, List, [], ◌∷◌, arith,
  ltb, leb, Bool-cases, Bytes, codes, is_empty, bytes_eq,
}
use playwright_distributed.Db.Models.{Session}
use playwright_distributed.Db.Sessions.{is_unreported}
use playwright_distributed.ApiKeyCommand.{Command, Parsed, helped, to_run, refused_args}
use playwright_distributed.Config.{Loaded, loaded, rejected, Config}
use playwright_distributed.Scheduler.Settings
use playwright_distributed.Server.{
  serve_takes_no_arguments, unknown_command, fails, serves, grace, validate_runtime_config,
  Surroundings, plan_config, with_database, key_command, run, scheduler_options,
}

plan_config_serves :
    (migrates : Bool) (l : Loaded Config) (c : Config)
    → plan_config migrates l ≡ serves c
    → c.dial_timeout + 1 ≤ grace
unfolding plan_config validate_runtime_config
plan_config_serves migrates (rejected e) c h = cc
plan_config_serves migrates (loaded d) c h = elim (Bool-cases (leb grace d.dial_timeout)) [
  | inl e ↦ absurd (ground arith)
  | inr e ↦
      let same : d ≡ c = ground arith in
      let short : d.dial_timeout + 1 ≤ grace = ground arith in
      subst (λ x. x.dial_timeout + 1 ≤ grace) same short
]

with_database_serves :
    (s : Surroundings) (command : Option Command) (c : Config)
    → with_database s command ≡ serves c
    → c.dial_timeout + 1 ≤ grace
unfolding with_database
with_database_serves s (some command) c h = absurd (ground arith)
with_database_serves s none c h = elim (Bool-cases (is_empty s.database_url)) [
  | inl e ↦ absurd (ground arith)
  | inr e ↦ elim (Bool-cases s.opens) [
    | inl o ↦ plan_config_serves s.migrates s.config c (rw (with_database, e, o) at h)
    | inr o ↦ absurd (ground arith)
  ]
]

key_command_serves :
    (s : Surroundings) (p : Parsed) (c : Config)
    → key_command s p ≡ serves c
    → c.dial_timeout + 1 ≤ grace
unfolding key_command
key_command_serves s helped c h = cc
key_command_serves s (to_run command) c h = with_database_serves s (some command) c h
key_command_serves s (refused_args e) c h = cc

run_serves :
    (parse_args : List Bytes → Parsed) (s : Surroundings) (args : List Bytes) (c : Config)
    → run parse_args s args ≡ serves c
    → c.dial_timeout + 1 ≤ grace
unfolding run
run_serves parse_args s [] c h = with_database_serves s none c h
run_serves parse_args s (name ∷ args) c h = elim (Bool-cases (bytes_eq name (codes "serve"))) [
  | inl e ↦ elim (Bool-cases (is_empty args)) [
    | inl f ↦ with_database_serves s none c (rw (run, e, f) at h)
    | inr f ↦ let q : fails serve_takes_no_arguments ≡ serves c = rw (run, e, f) at h in cc
  ]
  | inr e ↦ elim (Bool-cases (bytes_eq name (codes "apikey"))) [
    | inl f ↦ key_command_serves s (parse_args args) c (rw (run, e, f) at h)
    | inr f ↦ let q : fails unknown_command ≡ serves c = rw (run, e, f) at h in cc
  ]
]

-- In a server that run starts, a heartbeat counts no session as unreported that was started no longer
-- ago than the timeout for dialling its worker.
pub run_spares_dialling :
    (parse_args : List Bytes → Parsed) (s : Surroundings) (args : List Bytes) (c : Config)
    (now worker_id t : ℕ) (reported : List ℕ) (session : Session)
    → run parse_args s args ≡ serves c
    → session.started_at ≡ some t
    → now * 1_000 ≤ t * 1_000 + c.dial_timeout
    → is_unreported now worker_id (scheduler_options c).reconciliation_grace reported session
      ≡ false
unfolding Settings.new
run_spares_dialling parse_args s args c now worker_id t reported session h started recent =
    let short = run_serves parse_args s args c h in
    let early : ltb (t + 15_000_000) now ≡ false = ground arith in
    rw (started, early) (ground arith)
