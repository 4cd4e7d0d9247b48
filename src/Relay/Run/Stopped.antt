-- ===== src/Relay/Run/Stopped.antt =====
-- A relay that has been stopped, by Shutdown or by a goroutine, returns.
use playwright_distributed.Base.{
  Result, ℕ, ◌≡◌, refl, ◌≢◌, Option, none, some, List, [], ◌∷◌, ltb, if-cases, length,
}
use playwright_distributed.Relay.Run.{
  Goroutine, from_client, from_worker, pinger, renewer, runs_in, returned, LiveRelay, stop,
  shutting_down_event, begin_run, round, RelayAct, copies, ticks, renewal, sees_done, stops, others,
  proceeds, copier, renewed, renew_session, see_done, perform_act, run_relay,
}
use playwright_distributed.Db.Driver.{World, statement}
use playwright_distributed.Relay.Outcome.{RelayEvent}
use playwright_distributed.Relay.Loops.{copy_round, ping_round, renewal_round, canceled_event}
use playwright_distributed.Relay.Run.Outcomes.{run_relay-IsReached, begin_run-IsReached}
use playwright_distributed.Db.Models.{Session, Database}
use playwright_distributed.Db.Sessions.{renew_session_heartbeat}
use playwright_distributed.Relay.Manager.{RegisterResult, register_duplicate}
use playwright_distributed.Relay.Run.Returns.{last_acts, IsStopped, proceed_leaves, finish_returns}

stop_not_empty : (e : RelayEvent) (events : List RelayEvent) → stop e events ≢ []
unfolding stop
stop_not_empty e [] = λ q. cc
stop_not_empty e (x ∷ xs) =
    if-cases (λ l. l ≢ []) (ltb (length (x ∷ xs)) 4) _ (x ∷ xs) (λ _ q. cc) (λ _ q. cc)

stop-IsStopped :
    (e : RelayEvent) (r : LiveRelay) → IsStopped (record r { events = stop e r.events })
stop-IsStopped e r h = stop_not_empty e r.events

round-IsStopped :
    (g : Goroutine) (o : Option RelayEvent) (r : LiveRelay) → IsStopped r → IsStopped (round g o r)
unfolding round
round-IsStopped g none r h = h
round-IsStopped g (some e) r h =
    if-cases IsStopped (runs_in g r.running) _ r (λ _ _. stop_not_empty e r.events) (λ _. h)

see_done-IsStopped : (g : Goroutine) (r : LiveRelay) → IsStopped r → IsStopped (see_done g r)
unfolding see_done
see_done-IsStopped from_client r h = h
see_done-IsStopped from_worker r h = h
see_done-IsStopped g r h =
    if-cases IsStopped r.canceled _ r (λ _. round-IsStopped g (some canceled_event) r h) (λ _. h)

perform_act-IsStopped :
    (session_id : ℕ) (act : RelayAct) (r : LiveRelay)
    → IsStopped r
    → IsStopped (perform_act session_id act r)
unfolding perform_act renew_session renewed
perform_act-IsStopped session_id (copies peer c) r h =
    round-IsStopped (copier peer) (copy_round c) r h
perform_act-IsStopped session_id (ticks client_err worker_err) r h =
    round-IsStopped pinger (ping_round client_err worker_err) r h
perform_act-IsStopped session_id (renewal now reply) r h =
    let (result, w) : Result Session × World =
      statement (renew_session_heartbeat now session_id)
        (record { db = r.db; replies = reply ∷ [] }) in
    if-cases IsStopped r.running.renews_session _ r
      (λ _. round-IsStopped renewer (renewal_round result) (record r { db = w.db }) h) (λ _. h)
perform_act-IsStopped session_id (sees_done g) r h = see_done-IsStopped g r h
perform_act-IsStopped session_id stops r h = stop-IsStopped shutting_down_event r
perform_act-IsStopped session_id (others op) r h = h
perform_act-IsStopped session_id (proceeds reply) r h =
    λ q. absurd (proceed_leaves session_id reply r.stage r refl h q)

run_relay-IsStopped :
    (session_id : ℕ) (trace : List RelayAct) (r : LiveRelay)
    → IsStopped r
    → IsStopped (run_relay session_id trace r)
unfolding run_relay
run_relay-IsStopped session_id [] r h = h
run_relay-IsStopped session_id (act ∷ trace) r h =
    run_relay-IsStopped session_id trace (perform_act session_id act r)
      (perform_act-IsStopped session_id act r h)

-- In a relay that was not turned away as a duplicate, once an event is in the channel or Run has
-- received one, Run returns after any further acts, as soon as the goroutines that still run have
-- ended: they end when a read on the closed connection fails or the context is done, and Run waits
-- for nothing else.
pub run_relay_returns :
    (session_id : ℕ) (result : RegisterResult) (trace later : List RelayAct) (db : Database)
    → result ≢ register_duplicate
    → IsStopped (run_relay session_id trace (begin_run result db))
    → (e : RelayEvent) × ((run_relay session_id last_acts
          (run_relay session_id later (run_relay session_id trace (begin_run result db)))).stage
        ≡ returned e)
run_relay_returns session_id result trace later db d h =
    let at_stop = run_relay session_id trace (begin_run result db) in
    let reached =
      run_relay-IsReached session_id trace (begin_run result db)
        (begin_run-IsReached result db d) in
    finish_returns session_id (run_relay session_id later at_stop)
      (run_relay-IsReached session_id later at_stop reached)
      (run_relay-IsStopped session_id later at_stop h)

-- A relay is stopped by Shutdown's stop.
pub stops-IsStopped : (session_id : ℕ) (r : LiveRelay) → IsStopped (perform_act session_id stops r)
unfolding perform_act
stops-IsStopped session_id r = stop-IsStopped shutting_down_event r
