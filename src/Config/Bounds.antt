-- ===== src/Config/Bounds.antt =====
-- What a configuration that Load accepts promises to the rest of the server.
use playwright_distributed.Base.{
  ℕ, ◌*◌, ◌≤◌, ◌<◌, ◌≡◌, refl, subst, inl, inr, true, Option, none, some, [], ◌∷◌, arith,
  Bool-cases, Bytes,
}
use playwright_distributed.Config.{
  ℤ, pos, negsuc, Variable, worker_heartbeat_ttl, session_heartbeat_ttl, session_heartbeat_interval,
  pending_session_ttl, stalled_worker_ttl, rescuer_interval, queue_wait_timeout,
  default_browser_type, worker_dial_timeout, relay_write_timeout, relay_ping_interval,
  relay_pong_timeout, shutdown_grace_period, ConfigError, not_a_browser, interval_too_long,
  ping_too_long, Loaded, loaded, rejected, bind, second, Config, check_duration, or_default,
  non_empty_or, chromium_name, is_browser_name, positive_duration, browser_type, check_less, load,
}

-- Every duration is a microsecond at least, the two intervals are shorter than the time to live and
-- the timeout that they serve, and the browser is one of the three.
pub record IsBounded (c : Config) : Type 0 where
  pub worker_ttl : 1_000 ≤ c.worker_ttl
  pub session_ttl : 1_000 ≤ c.session_ttl
  pub session_interval : 1_000 ≤ c.session_interval
  pub session_order : c.session_interval < c.session_ttl
  pub pending_ttl : 1_000 ≤ c.pending_ttl
  pub stalled_ttl : 1_000 ≤ c.stalled_ttl
  pub rescue_interval : 1_000 ≤ c.rescue_interval
  pub queue_timeout : 1_000 ≤ c.queue_timeout
  pub browser : is_browser_name c.default_browser ≡ true
  pub dial_timeout : 1_000 ≤ c.dial_timeout
  pub write_timeout : 1_000 ≤ c.write_timeout
  pub ping_interval : 1_000 ≤ c.ping_interval
  pub pong_timeout : 1_000 ≤ c.pong_timeout
  pub ping_order : c.ping_interval < c.pong_timeout
  pub shutdown_grace : 1_000 ≤ c.shutdown_grace

-- A predicate of what was loaded, if anything was.
abbrev Holds : {A : Type 0} → (A → Type 0) → Loaded A → Type 0
Holds P (loaded a) = P a
Holds P (rejected e) = Unit

bind-Holds :
    {A B : Type 0} (P : B → Type 0) (m : Loaded A) (f : A → Loaded B)
    → ((a : A) → m ≡ loaded a → Holds P (f a))
    → Holds P (bind m f)
unfolding bind
bind-Holds P (loaded a) f h = h a refl
bind-Holds P (rejected e) f h = tt

check_duration_loaded :
    (name : Variable) (v : Option ℤ) (n : ℕ) → check_duration name v ≡ loaded n → 1_000 ≤ n
check_duration_loaded name none n h = cc
check_duration_loaded name (some (negsuc k)) n h = cc
check_duration_loaded name (some (pos k)) n h = ground arith

or_default_loaded :
    (name : Variable) (v : Option ℤ) (d : ℕ) (raw : Bytes) (n : ℕ)
    → 1_000 ≤ d
    → or_default (check_duration name v) d raw ≡ loaded n
    → 1_000 ≤ n
or_default_loaded name v d [] n h e = ground arith
or_default_loaded name v d (x ∷ xs) n h e = check_duration_loaded name v n e

module _ (parse_duration parse_int : Bytes → Option ℤ) (getenv : Variable → Bytes) where
  duration_bound :
      (name : Variable) (d n : ℕ)
      → 1_000 ≤ d
      → positive_duration parse_duration parse_int getenv name d ≡ loaded n
      → 1_000 ≤ n
  unfolding positive_duration
  duration_bound name d n h e =
      or_default_loaded name (parse_duration (getenv name)) d (getenv name) n h e

  browser_loaded :
      (name : Variable) (d v : Bytes)
      → browser_type parse_duration parse_int getenv name d ≡ loaded v
      → is_browser_name v ≡ true
  unfolding browser_type
  browser_loaded name d v e = elim (Bool-cases (is_browser_name (non_empty_or d (getenv name)))) [
    | inl h ↦
        let q : loaded (non_empty_or d (getenv name)) ≡ loaded v = rw h at e in
        let same : non_empty_or d (getenv name) ≡ v = ground arith in
        subst (λ x. is_browser_name x ≡ true) same h
    | inr h ↦ let q : rejected (not_a_browser name) ≡ loaded v = rw h at e in cc
  ]

  less_loaded :
      (short long : ℕ) (e : ConfigError) (u : Unit {0})
      → check_less parse_duration parse_int getenv short long e ≡ loaded u
      → short < long
  unfolding check_less
  less_loaded short long e u h = ground arith

  load-Holds : Holds IsBounded (load parse_duration parse_int getenv)
  unfolding load
  load-Holds = bind-Holds IsBounded _ _ λ a1 e1. bind-Holds IsBounded _ _ λ a2 e2.
      bind-Holds IsBounded _ _ λ a3 e3. bind-Holds IsBounded _ _ λ a4 e4.
        bind-Holds IsBounded _ _ λ a5 e5. bind-Holds IsBounded _ _ λ a6 e6.
          bind-Holds IsBounded _ _ λ a7 e7. bind-Holds IsBounded _ _ λ a8 e8.
            bind-Holds IsBounded _ _ λ a9 e9. bind-Holds IsBounded _ _ λ a10 e10.
              bind-Holds IsBounded _ _ λ a11 e11. bind-Holds IsBounded _ _ λ a12 e12.
                bind-Holds IsBounded _ _ λ a13 e13. bind-Holds IsBounded _ _ λ a14 e14.
                  bind-Holds IsBounded _ _ λ a15 e15. bind-Holds IsBounded _ _ λ a16 e16.
                    bind-Holds IsBounded _ _ λ a17 e17. record {
                      worker_ttl =
                          duration_bound worker_heartbeat_ttl (30 * second) a1 (omega arith) e1;
                      session_ttl =
                          duration_bound session_heartbeat_ttl (30 * second) a2 (omega arith) e2;
                      session_interval =
                          duration_bound session_heartbeat_interval (10 * second) a3 (omega arith)
                            e3;
                      session_order = less_loaded a3 a2 interval_too_long a4 e4;
                      pending_ttl =
                          duration_bound pending_session_ttl (30 * second) a5 (omega arith) e5;
                      stalled_ttl =
                          duration_bound stalled_worker_ttl (600 * second) a6 (omega arith) e6;
                      rescue_interval =
                          duration_bound rescuer_interval (5 * second) a7 (omega arith) e7;
                      queue_timeout =
                          duration_bound queue_wait_timeout (30 * second) a8 (omega arith) e8;
                      browser = browser_loaded default_browser_type chromium_name a11 e11;
                      dial_timeout =
                          duration_bound worker_dial_timeout (10 * second) a12 (omega arith) e12;
                      write_timeout =
                          duration_bound relay_write_timeout (30 * second) a13 (omega arith) e13;
                      ping_interval =
                          duration_bound relay_ping_interval (20 * second) a14 (omega arith) e14;
                      pong_timeout =
                          duration_bound relay_pong_timeout (60 * second) a15 (omega arith) e15;
                      ping_order = less_loaded a14 a15 ping_too_long a16 e16;
                      shutdown_grace =
                          duration_bound shutdown_grace_period (20 * second) a17 (omega arith) e17;
                    }

  -- A configuration that Load accepts is bounded, whatever the environment holds and however the
  -- parsers read it: every duration is a microsecond at least, the session heartbeat interval is shorter
  -- than the session TTL and the ping interval than the pong timeout, and the default browser is one of
  -- the three.
  pub load-IsBounded : (c : Config) → load parse_duration parse_int getenv ≡ loaded c → IsBounded c
  load-IsBounded c h = subst (Holds IsBounded) h load-Holds
