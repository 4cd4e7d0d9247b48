-- ===== src/Tests/Lifetimes.antt =====
-- A relay of a session of the shared store, from register to its end.
use playwright_distributed.Base.{
  unavailable, ◌≡◌, refl, true, false, none, some, List, [], ◌∷◌, ◌++◌, All,
}
use playwright_distributed.Relay.Run.Stopped.{run_relay_returns}
use playwright_distributed.Http.Relay.Attach.{granted, relayed, started, attach}
use playwright_distributed.Tests.Data.{store, at_peace, with_waiting}
use playwright_distributed.Relay.Run.{
  pinger, renewer, any_running, client, worker, outcome, returned, stop, close_connections,
  begin_run, round, RelayAct, copies, renewal, sees_done, stops, others, proceeds, renewed,
  renew_session, see_done, receive_event, proceed, perform_act, run_relay,
}
use playwright_distributed.Relay.Manager.{register_accepted}
use playwright_distributed.Db.Driver.{delivered, lost, statement}
use playwright_distributed.Relay.Outcome.{
  is_valid_received_close_code, close_error, peer_connection_lost, RelayEvent, error_event,
  record_outcome,
}
use playwright_distributed.Db.Sessions.Ops.{completes}
use playwright_distributed.Relay.Run.Outcomes.{run_relay_lem}
use playwright_distributed.Relay.Run.Forwarded.{IsForwarded}
use playwright_distributed.Db.Sessions.{renew_session_heartbeat, start_session}
use playwright_distributed.Relay.Loops.{CopyRound, copy_round, ping_round, renewal_round}
use playwright_distributed.Relay.Run.Returns.{failed_read, last_acts, IsStopped}
use playwright_distributed.Db.Sessions.Over.{IsOver}
use playwright_distributed.Db.Sessions.Lifecycle.{run_ops}
use playwright_distributed.Db.Models.{Database}
use playwright_distributed.Relay.Run.Recorded.{IsExecuted}
use playwright_distributed.Http.Relay.Attach.Relayed.{relayed-IsOver}

abbrev passes : CopyRound
passes = record failed_read { next_reader = none }

-- The worker vanishes, which the websocket library reports as code 1006.
abbrev vanishes : CopyRound
vanishes = record failed_read { next_reader = some (close_error 1006 []) }

abbrev vanished_worker : RelayEvent
vanished_worker = record { code = 1011; reason = peer_connection_lost; normal = false }

abbrev life : List RelayAct
life =
    renewal 95 delivered
    ∷ copies client passes
    ∷ proceeds delivered
    ∷ others (completes 11)
    ∷ copies worker vanishes
    ∷ stops
    ∷ []

abbrev death : List RelayAct
death =
    proceeds delivered
    ∷ proceeds delivered
    ∷ proceeds delivered
    ∷ copies client failed_read
    ∷ sees_done pinger
    ∷ sees_done renewer
    ∷ proceeds delivered
    ∷ proceeds (lost unavailable)
    ∷ []

abbrev whole : List RelayAct
whole = life ++ death

life_ends :
    (run_relay 12 whole (begin_run register_accepted store)).stage ≡ returned vanished_worker
unfolding run_relay perform_act begin_run round stop renewed renew_session see_done receive_event
    proceed copy_round ping_round renewal_round error_event is_valid_received_close_code statement
    renew_session_heartbeat record_outcome
life_ends = refl

run_relay_lem_example :
    ((run_relay 12 whole (begin_run register_accepted store)).effects
      ≡ close_connections vanished_worker ++ (outcome false ∷ []))
    × (IsForwarded vanished_worker
        × (any_running (run_relay 12 whole (begin_run register_accepted store)).running ≡ false))
run_relay_lem_example =
    run_relay_lem 12 register_accepted whole store vanished_worker (λ q. cc) life_ends

life-IsStopped : IsStopped (run_relay 12 life (begin_run register_accepted store))
unfolding run_relay perform_act begin_run round stop renewed renew_session see_done receive_event
    proceed copy_round ping_round renewal_round error_event is_valid_received_close_code statement
    renew_session_heartbeat
life-IsStopped q = cc

run_relay_returns_example :
    (e : RelayEvent) × ((run_relay 12 last_acts
        (run_relay 12 (stops ∷ []) (run_relay 12 life (begin_run register_accepted store)))).stage
      ≡ returned e)
run_relay_returns_example =
    run_relay_returns 12 register_accepted life (stops ∷ []) store (λ q. cc) life-IsStopped

abbrev same_tables : Database → Database
same_tables db = db

abbrev attached_tables : Database
attached_tables = (attach 90 13 granted true true same_tables (at_peace with_waiting)).1.db

taken : (attach 90 13 granted true true same_tables (at_peace with_waiting)).0 ≡ relayed
unfolding attach started statement start_session
taken = refl

whole_ends :
    (run_relay 13 whole (begin_run register_accepted attached_tables)).stage
    ≡ returned vanished_worker
unfolding run_relay perform_act begin_run round stop renewed renew_session see_done receive_event
    proceed copy_round ping_round renewal_round error_event is_valid_received_close_code statement
    renew_session_heartbeat record_outcome attach started start_session
whole_ends = refl

nothing_between : (db : Database) → db ≡ run_ops [] db
unfolding run_ops
nothing_between db = refl

whole-IsExecuted : All IsExecuted whole
whole-IsExecuted =
    (tt, (tt, (tt, (tt, (tt, (tt, (tt, (tt, (tt, (tt, (tt, (tt, (tt, (tt, tt))))))))))))))

relayed-IsOver_example :
    IsOver 13 (run_relay 13 whole (begin_run register_accepted attached_tables)).db
relayed-IsOver_example =
    relayed-IsOver 90 13 granted true true same_tables (at_peace with_waiting) [] register_accepted
      whole attached_tables vanished_worker taken (nothing_between attached_tables) (λ q. cc)
      whole-IsExecuted whole_ends
