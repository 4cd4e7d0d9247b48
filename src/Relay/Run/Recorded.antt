-- ===== src/Relay/Run/Recorded.antt =====
-- What a relay leaves in the table of sessions.
use playwright_distributed.Relay.Manager.{
  RegisterResult, register_accepted, register_draining, register_duplicate,
}
use playwright_distributed.Base.{
  Result, ℕ, ◌≡◌, refl, subst, ◌≢◌, Bool, true, false, Option, none, some, List, [], ◌∷◌, if-cases,
  All,
}
use playwright_distributed.Db.Driver.{Reply, delivered, refused, lost, World, statement}
use playwright_distributed.Relay.Run.{
  Goroutine, from_client, from_worker, pinger, renewer, runs_in, any_running, RunStage, receiving,
  closing, joining, recording, returned, LiveRelay, begin_run, round, RelayAct, copies, ticks,
  renewal, sees_done, stops, others, proceeds, copier, renewed, renew_session, see_done,
  receive_event, proceed, perform_act, run_relay,
}
use playwright_distributed.Db.Sessions.Started.{IsStarted, run_op-IsStarted, complete-IsOver}
use playwright_distributed.Relay.Outcome.{RelayEvent, record_outcome}
use playwright_distributed.Db.Sessions.Over.{IsOver, fail-IsOver, run_ops-IsOver}
use playwright_distributed.Relay.Loops.{copy_round, ping_round, renewal_round, canceled_event}
use playwright_distributed.Db.Driver.Queries.{statement-keeps}
use playwright_distributed.Db.Sessions.Ops.{SessionOp, completes, fails, renews, run_op}
use playwright_distributed.Db.Models.{Session, Database}
use playwright_distributed.Db.Sessions.Lifecycle.{run_ops}
use playwright_distributed.Db.Sessions.{renew_session_heartbeat}

-- The statement that records the outcome runs, if it is this act that makes it.
abbrev pub IsExecuted : RelayAct → Type 0
IsExecuted (proceeds (refused f)) = ⊥
IsExecuted act = Unit

-- The session is not pending; and once Run has returned it is not running either.
abbrev Left : ℕ → RunStage → Database → Type 0
Left id (returned e) db = IsStarted id db × IsOver id db
Left id stage db = IsStarted id db

Left-IsStarted : (id : ℕ) (s : RunStage) (db : Database) → Left id s db → IsStarted id db
Left-IsStarted id receiving db h = h
Left-IsStarted id (closing e) db h = h
Left-IsStarted id (joining e) db h = h
Left-IsStarted id (recording e) db h = h
Left-IsStarted id (returned e) db h = h.0

op-Left :
    (id : ℕ) (op : SessionOp) (s : RunStage) (db : Database)
    → Left id s db
    → Left id s (run_op op db)
unfolding run_ops
op-Left id op (returned e) db (a, o) =
    (run_op-IsStarted id op db a, run_ops-IsOver id (op ∷ []) db o)
op-Left id op receiving db h = run_op-IsStarted id op db h
op-Left id op (closing e) db h = run_op-IsStarted id op db h
op-Left id op (joining e) db h = run_op-IsStarted id op db h
op-Left id op (recording e) db h = run_op-IsStarted id op db h

round-Left :
    (id : ℕ) (g : Goroutine) (o : Option RelayEvent) (r : LiveRelay)
    → Left id r.stage r.db
    → Left id (round g o r).stage (round g o r).db
unfolding round
round-Left id g none r h = h
round-Left id g (some e) r h =
    if-cases (λ t. Left id t.stage t.db) (runs_in g r.running) _ r (λ _. h) (λ _. h)

renewed-Left :
    (id now : ℕ) (reply : Reply) (r : LiveRelay)
    → Left id r.stage r.db
    → Left id r.stage
        (statement
          (renew_session_heartbeat now id)
          (record { db = r.db; replies = reply ∷ [] })).1.db
unfolding run_op
renewed-Left id now reply r h =
    statement-keeps (Left id r.stage) (renew_session_heartbeat now id)
      (record { db = r.db; replies = reply ∷ [] }) h (op-Left id (renews now id) r.stage r.db h)

renew_session-Left :
    (id now : ℕ) (reply : Reply) (r : LiveRelay)
    → Left id r.stage r.db
    → Left id (renew_session id now reply r).stage (renew_session id now reply r).db
unfolding renew_session renewed
renew_session-Left id now reply r h =
    let (result, w) : Result Session × World =
      statement (renew_session_heartbeat now id) (record { db = r.db; replies = reply ∷ [] }) in
    if-cases (λ t. Left id t.stage t.db) r.running.renews_session _ r
      (λ _.
        round-Left id renewer (renewal_round result) (record r { db = w.db })
          (renewed-Left id now reply r h))
      (λ _. h)

record-IsOver :
    (id : ℕ) (normal : Bool) (reply : Reply) (db : Database)
    → IsExecuted (proceeds reply)
    → IsStarted id db
    → (IsStarted id (record_outcome id normal (record { db = db; replies = reply ∷ [] })).db)
      × IsOver id (record_outcome id normal (record { db = db; replies = reply ∷ [] })).db
unfolding record_outcome statement run_op
record-IsOver id true delivered db n a =
    (run_op-IsStarted id (completes id) db a, complete-IsOver id db a)
record-IsOver id true (lost f) db n a =
    (run_op-IsStarted id (completes id) db a, complete-IsOver id db a)
record-IsOver id false delivered db n a = (run_op-IsStarted id (fails id) db a, fail-IsOver id db)
record-IsOver id false (lost f) db n a = (run_op-IsStarted id (fails id) db a, fail-IsOver id db)
record-IsOver id normal (refused f) db n a = absurd n

receive_event-Left :
    (id : ℕ) (events : List RelayEvent) (r : LiveRelay)
    → Left id r.stage r.db
    → Left id (receive_event events r).stage (receive_event events r).db
unfolding receive_event
receive_event-Left id [] r h = h
receive_event-Left id (event ∷ events) r h = Left-IsStarted id r.stage r.db h

proceed-Left :
    (id : ℕ) (reply : Reply) (s : RunStage) (r : LiveRelay)
    → r.stage ≡ s
    → IsExecuted (proceeds reply)
    → Left id r.stage r.db
    → Left id (proceed id reply s r).stage (proceed id reply s r).db
unfolding proceed receive_event
proceed-Left id reply receiving r e n h = receive_event-Left id r.events r h
proceed-Left id reply (closing w) r e n h = Left-IsStarted id r.stage r.db h
proceed-Left id reply (joining w) r e n h =
    if-cases (λ t. Left id t.stage t.db) (any_running r.running) r _ (λ _. h)
      (λ _. Left-IsStarted id r.stage r.db h)
proceed-Left id reply (recording w) r e n h =
    record-IsOver id w.normal reply r.db n (Left-IsStarted id r.stage r.db h)
proceed-Left id reply (returned w) r e n h = h

see_done-Left :
    (id : ℕ) (g : Goroutine) (r : LiveRelay)
    → Left id r.stage r.db
    → Left id (see_done g r).stage (see_done g r).db
unfolding see_done
see_done-Left id from_client r h = h
see_done-Left id from_worker r h = h
see_done-Left id g r h =
    if-cases (λ t. Left id t.stage t.db) r.canceled _ r
      (λ _. round-Left id g (some canceled_event) r h) (λ _. h)

perform_act-Left :
    (id : ℕ) (act : RelayAct) (r : LiveRelay)
    → IsExecuted act
    → Left id r.stage r.db
    → Left id (perform_act id act r).stage (perform_act id act r).db
unfolding perform_act
perform_act-Left id (copies peer c) r n h = round-Left id (copier peer) (copy_round c) r h
perform_act-Left id (ticks client_err worker_err) r n h =
    round-Left id pinger (ping_round client_err worker_err) r h
perform_act-Left id (renewal now reply) r n h = renew_session-Left id now reply r h
perform_act-Left id (sees_done g) r n h = see_done-Left id g r h
perform_act-Left id stops r n h = h
perform_act-Left id (others op) r n h = op-Left id op r.stage r.db h
perform_act-Left id (proceeds reply) r n h = proceed-Left id reply r.stage r refl n h

run_relay-Left :
    (id : ℕ) (trace : List RelayAct) (r : LiveRelay)
    → All IsExecuted trace
    → Left id r.stage r.db
    → Left id (run_relay id trace r).stage (run_relay id trace r).db
unfolding run_relay
run_relay-Left id [] r n h = h
run_relay-Left id (act ∷ trace) r n h =
    run_relay-Left id trace (perform_act id act r) n.1 (perform_act-Left id act r n.0 h)

begin_run-Left :
    (id : ℕ) (result : RegisterResult) (db : Database)
    → result ≢ register_duplicate
    → IsStarted id db
    → Left id (begin_run result db).stage (begin_run result db).db
unfolding begin_run
begin_run-Left id register_accepted db h a = a
begin_run-Left id register_draining db h a = a
begin_run-Left id register_duplicate db h a = absurd (h refl)

-- Once Run has returned from a relay that was not turned away as a duplicate, no session of that id is
-- pending or running, if none was pending when Run began and the statement that records the outcome
-- reached the database: whatever the peers did and whichever statements updated sessions meanwhile.
pub run_relay-IsOver :
    (id : ℕ) (result : RegisterResult) (trace : List RelayAct) (db : Database) (e : RelayEvent)
    → result ≢ register_duplicate
    → IsStarted id db
    → All IsExecuted trace
    → (run_relay id trace (begin_run result db)).stage ≡ returned e
    → IsOver id (run_relay id trace (begin_run result db)).db
run_relay-IsOver id result trace db e d a n h =
    let kept : Left id (returned e) (run_relay id trace (begin_run result db)).db =
      subst (λ s. Left id s (run_relay id trace (begin_run result db)).db) h
        (run_relay-Left id trace (begin_run result db) n (begin_run-Left id result db d a)) in
    kept.1
