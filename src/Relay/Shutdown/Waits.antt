-- ===== src/Relay/Shutdown/Waits.antt =====
-- When the waits of Shutdown end: the WaitGroup at `idle`, if the relays end by themselves, the context
-- after `timeout`, the timer after `grace`; and `wind_down` after the relays were stopped.
use playwright_distributed.Base.{Fault, ℕ, ◌+◌, ◌≤◌, ◌<◌, ◌≡◌, refl, Option, none, some, arith}
use playwright_distributed.Relay.Shutdown.{Wait, all_done, context_done, grace_over, shutdown}

-- Nothing happens before `t` at the time that is given, if there is one.
abbrev pub NotBefore : ℕ → Option ℕ → Type 0
NotBefore t none = Unit
NotBefore t (some u) = t ≤ u

abbrev pub Ready : ℕ → Option ℕ → Type 0
Ready t none = ⊥
Ready t (some u) = u ≤ t

module _ (grace timeout : ℕ) (idle : Option ℕ) where
  pub data FirstWait : Wait → Type 0 where
    first_done : Ready grace idle → Ready timeout idle → FirstWait all_done
    first_expired : timeout ≤ grace → NotBefore timeout idle → FirstWait context_done
    first_timer : grace ≤ timeout → NotBefore grace idle → FirstWait grace_over

  module _ (wind_down : ℕ) where
    -- The relays are gone after the stop at the latest.
    pub data SecondWait : Wait → Type 0 where
      second_idle : Ready timeout idle → SecondWait all_done
      second_done : grace + wind_down ≤ timeout → SecondWait all_done
      second_expired :
          NotBefore timeout idle → timeout ≤ grace + wind_down → SecondWait context_done

    -- If the time to wind down fits into what is left of the timeout after the grace period, Shutdown
    -- waits for all relays and returns no error.
    pub shutdown_in_time :
        (ctx_err : Fault) (first later : Wait)
        → grace + wind_down < timeout
        → FirstWait first
        → SecondWait later
        → (shutdown ctx_err first later).0 ≡ none
    unfolding shutdown
    shutdown_in_time ctx_err _ later fits (first_done r s) w = refl
    shutdown_in_time ctx_err _ later fits (first_expired le n) w = absurd (omega arith)
    shutdown_in_time ctx_err _ _ fits (first_timer le n) (second_idle r) = refl
    shutdown_in_time ctx_err _ _ fits (first_timer le n) (second_done r) = refl
    shutdown_in_time ctx_err _ _ fits (first_timer le n) (second_expired m r) = absurd (omega arith)
