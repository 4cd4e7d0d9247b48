-- ===== src/Tests/Relays.antt =====
-- Handlers, relays and Shutdown.
use playwright_distributed.Base.{
  ℕ, ◌≤◌, ◌≡◌, refl, Bool, true, false, some, List, [], ◌∷◌, count, All,
}
use playwright_distributed.Relay.Manager.{
  begin_attach, release, register, unregister, reserved, relaying, left, Attachment, State, runs,
  ends, releases, advance, Move, arrives, acts, drains, acted, perform, run_moves,
}
use playwright_distributed.Relay.Manager.Accounting.{is_waited, relays}
use playwright_distributed.Relay.Manager.Drain.{initial, run_moves_total, wait_ends_once}
use playwright_distributed.Relay.Manager.Completion.{IsAct, drain_completes}

-- A relay of session 7 runs, a second one for it is turned away, Shutdown begins, and both end.
abbrev moves : List Move
moves =
    arrives 7
    ∷ acts 0 runs
    ∷ arrives 7
    ∷ acts 0 runs
    ∷ drains
    ∷ arrives 8
    ∷ acts 1 ends
    ∷ acts 0 releases
    ∷ acts 1 releases
    ∷ []

abbrev handler : Bool → Attachment
handler consumed = record {
  reservation = record { session_id = 7; consumed = consumed };
  stage = left;
}

abbrev finished_state : State
finished_state = record {
  manager = record { draining = true; live = []; wg = 0 };
  attachments = handler true ∷ handler true ∷ [];
}

moves_end : run_moves moves initial ≡ some finished_state
unfolding run_moves perform acted begin_attach register release unregister advance initial
moves_end = refl

run_moves_total_example :
    (s : State) × ((run_moves moves initial ≡ some s)
      × ((id : ℕ) → count (relays id) s.attachments ≤ 1))
run_moves_total_example = run_moves_total moves

abbrev later : List Move
later = arrives 9 ∷ acts 0 runs ∷ []

later_end : run_moves later finished_state ≡ some finished_state
unfolding run_moves perform acted begin_attach register release unregister advance
later_end = refl

wait_ends_once_example :
    (finished_state.manager.wg ≡ 0)
    × ((finished_state.manager.live ≡ [])
        × All (λ a. is_waited a ≡ false) finished_state.attachments)
wait_ends_once_example =
    wait_ends_once moves later finished_state finished_state moves_end refl refl later_end

-- The relay of session 7 still runs when Shutdown begins, and a second handler holds its reservation.
abbrev early_moves : List Move
early_moves = arrives 7 ∷ acts 0 runs ∷ arrives 8 ∷ drains ∷ []

abbrev busy_state : State
busy_state = record {
  manager = record { draining = true; live = 7 ∷ []; wg = 2 };
  attachments =
      record { reservation = record { session_id = 8; consumed = false }; stage = reserved }
      ∷ record { reservation = record { session_id = 7; consumed = true }; stage = relaying }
      ∷ [];
}

early_end : run_moves early_moves initial ≡ some busy_state
unfolding run_moves perform acted begin_attach register release unregister advance initial
early_end = refl

drain_completes_example :
    (rest : List Move) × (All IsAct rest
      × ((t : State) × ((run_moves rest busy_state ≡ some t) × (t.manager.wg ≡ 0))))
drain_completes_example = drain_completes early_moves busy_state early_end
