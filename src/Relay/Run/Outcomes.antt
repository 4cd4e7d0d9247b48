-- ===== src/Relay/Run/Outcomes.antt =====
-- How Run ends, whatever the peers, the database and Shutdown do.
use playwright_distributed.Relay.Run.{
  Goroutine, from_client, from_worker, pinger, renewer, Running, runs_in, without, any_running,
  outcome, RunStage, receiving, closing, joining, recording, returned, LiveRelay, stop,
  shutting_down_event, close_connections, begin_run, round, RelayAct, copies, ticks, renewal,
  sees_done, stops, others, proceeds, copier, renewed, renew_session, see_done, receive_event,
  proceed, perform_act, run_relay,
}
use playwright_distributed.Base.{
  Result, ℕ, ◌≡◌, refl, sym, subst, ◌≢◌, inl, inr, true, false, Option, none, some, List, [], ◌∷◌,
  ◌++◌, arith, Bool-cases, true-false, if-cases, All, codes,
}
use playwright_distributed.Relay.Run.Forwarded.{
  IsForwarded, going_away-IsForwarded, Sends, map-Sends, renewal-Sends, stop-All,
}
use playwright_distributed.Relay.Loops.{copy_round, ping_round, renewal_round, canceled_event}
use playwright_distributed.Db.Models.{Session, Database}
use playwright_distributed.Relay.Manager.{
  RegisterResult, register_accepted, register_draining, register_duplicate,
}
use playwright_distributed.Db.Sessions.{renew_session_heartbeat}
use playwright_distributed.Db.Driver.{Reply, World, statement}
use playwright_distributed.Db.Sessions.Ops.{run_op}
use playwright_distributed.Relay.Outcome.{RelayEvent}

-- What holds of a relay at each call of Run: until the receive nothing is written, and the context is
-- not done; after goroutines.Wait no goroutine runs.
abbrev pub Reached : RunStage → LiveRelay → Type 0
Reached receiving r = (r.canceled ≡ false) × ((r.effects ≡ []) × All IsForwarded r.events)
Reached (closing e) r = (r.canceled ≡ true) × ((r.effects ≡ []) × IsForwarded e)
Reached (joining e) r = (r.canceled ≡ true) × ((r.effects ≡ close_connections e) × IsForwarded e)
Reached (recording e) r =
    (r.effects ≡ close_connections e) × (IsForwarded e × (any_running r.running ≡ false))
Reached (returned e) r =
    (r.effects ≡ close_connections e ++ (outcome e.normal ∷ []))
    × (IsForwarded e × (any_running r.running ≡ false))

abbrev pub IsReached : LiveRelay → Type 0
IsReached r = Reached r.stage r

pub not_running : (g : Goroutine) (r : Running) → any_running r ≡ false → runs_in g r ≡ false
not_running from_client r h = ground arith
not_running g r h = ground arith

sent-Reached :
    (g : Goroutine) (e : RelayEvent) (r : LiveRelay) (s : RunStage)
    → runs_in g r.running ≡ true
    → (s ≡ receiving → IsForwarded e)
    → Reached s r
    → Reached s (record r { events = stop e r.events; running = without g r.running })
sent-Reached g e r receiving busy f (c, (none_yet, all)) =
    (c, (none_yet, stop-All e r.events (f refl) all))
sent-Reached g e r (closing w) busy f h = h
sent-Reached g e r (joining w) busy f h = h
sent-Reached g e r (recording w) busy f (effects, (forwarded, none_runs)) =
    absurd (true-false busy (not_running g r.running none_runs))
sent-Reached g e r (returned w) busy f (effects, (forwarded, none_runs)) =
    absurd (true-false busy (not_running g r.running none_runs))

round-stage :
    (g : Goroutine) (o : Option RelayEvent) (r : LiveRelay) → (round g o r).stage ≡ r.stage
unfolding round
round-stage g none r = refl
round-stage g (some e) r = ground arith

round-Reached :
    (g : Goroutine) (o : Option RelayEvent) (r : LiveRelay) (s : RunStage)
    → (s ≡ receiving → Sends o)
    → Reached s r
    → Reached s (round g o r)
unfolding round
round-Reached g none r s f h = h
round-Reached g (some e) r s f h = elim (Bool-cases (runs_in g r.running)) [
  | inl busy ↦ rw busy (sent-Reached g e r s busy f h)
  | inr ended ↦ rw ended h
]

round-IsReached :
    (g : Goroutine) (o : Option RelayEvent) (r : LiveRelay)
    → (r.stage ≡ receiving → Sends o)
    → IsReached r
    → IsReached (round g o r)
round-IsReached g o r f h =
    subst (λ s. Reached s (round g o r)) (sym (round-stage g o r)) (round-Reached g o r r.stage f h)

-- The tables may change in between: a relay's stage, events and effects do not depend on them.
db-Reached :
    (r : LiveRelay) (db : Database) (s : RunStage) → Reached s r → Reached s (record r { db = db })
db-Reached r db receiving h = h
db-Reached r db (closing e) h = h
db-Reached r db (joining e) h = h
db-Reached r db (recording e) h = h
db-Reached r db (returned e) h = h

renew_session-IsReached :
    (session_id now : ℕ) (reply : Reply) (r : LiveRelay)
    → IsReached r
    → IsReached (renew_session session_id now reply r)
unfolding renew_session renewed
renew_session-IsReached session_id now reply r h =
    let (result, w) : Result Session × World =
      statement (renew_session_heartbeat now session_id)
        (record { db = r.db; replies = reply ∷ [] }) in
    if-cases IsReached r.running.renews_session _ r
      (λ busy.
        round-IsReached renewer (renewal_round result) (record r { db = w.db })
          (λ _. renewal-Sends result) (db-Reached r w.db r.stage h))
      (λ ended. h)

Reached-waiting : (r : LiveRelay) (s : RunStage) → r.canceled ≡ true → Reached s r → s ≢ receiving
Reached-waiting r receiving c h e = true-false c h.0
Reached-waiting r (closing w) c h e = cc
Reached-waiting r (joining w) c h e = cc
Reached-waiting r (recording w) c h e = cc
Reached-waiting r (returned w) c h e = cc

see_done-IsReached : (g : Goroutine) (r : LiveRelay) → IsReached r → IsReached (see_done g r)
unfolding see_done
see_done-IsReached from_client r h = h
see_done-IsReached from_worker r h = h
see_done-IsReached g r h =
    if-cases IsReached r.canceled (round g (some canceled_event) r) r
      (λ c.
        round-IsReached g (some canceled_event) r (λ e. absurd (Reached-waiting r r.stage c h e)) h)
      (λ c. h)

receive_event-IsReached :
    (events : List RelayEvent) (r : LiveRelay)
    → r.stage ≡ receiving
    → r.events ≡ events
    → IsReached r
    → IsReached (receive_event events r)
unfolding receive_event
receive_event-IsReached [] r e q h = h
receive_event-IsReached (event ∷ events) r e q h =
    let (c, (none_yet, all)) : Reached receiving r = subst (λ s. Reached s r) e h in
    let sent : All IsForwarded (event ∷ events) = subst (All IsForwarded) q all in
    (refl, (none_yet, sent.0))

proceed-IsReached :
    (session_id : ℕ) (reply : Reply) (s : RunStage) (r : LiveRelay)
    → r.stage ≡ s
    → Reached s r
    → IsReached r
    → IsReached (proceed session_id reply s r)
unfolding proceed
proceed-IsReached session_id reply receiving r e h k = receive_event-IsReached r.events r e refl k
proceed-IsReached session_id reply (closing w) r e (c, (none_yet, f)) k = (c, (rw none_yet refl, f))
proceed-IsReached session_id reply (joining w) r e (c, (effects, f)) k =
    elim (Bool-cases (any_running r.running)) [
      | inl busy ↦ rw busy k
      | inr ended ↦ rw ended (effects, (f, ended))
    ]
proceed-IsReached session_id reply (recording w) r e (effects, (f, ended)) k =
    (rw effects refl, (f, ended))
proceed-IsReached session_id reply (returned w) r e h k = k

stops-Reached :
    (r : LiveRelay) (s : RunStage)
    → Reached s r
    → Reached s (record r { events = stop shutting_down_event r.events })
stops-Reached r receiving (c, (none_yet, all)) = (
  c,
  (
    none_yet,
    stop-All shutting_down_event r.events (going_away-IsForwarded (codes "server shutting down"))
        all,
  ),
)
stops-Reached r (closing e) h = h
stops-Reached r (joining e) h = h
stops-Reached r (recording e) h = h
stops-Reached r (returned e) h = h

pub perform_act-IsReached :
    (session_id : ℕ) (act : RelayAct) (r : LiveRelay)
    → IsReached r
    → IsReached (perform_act session_id act r)
unfolding perform_act copy_round ping_round
perform_act-IsReached session_id (copies peer c) r h =
    round-IsReached (copier peer) (copy_round c) r (λ _. map-Sends _) h
perform_act-IsReached session_id (ticks client_err worker_err) r h =
    round-IsReached pinger (ping_round client_err worker_err) r (λ _. map-Sends _) h
perform_act-IsReached session_id (renewal now reply) r h =
    renew_session-IsReached session_id now reply r h
perform_act-IsReached session_id (sees_done g) r h = see_done-IsReached g r h
perform_act-IsReached session_id stops r h = stops-Reached r r.stage h
perform_act-IsReached session_id (others op) r h = db-Reached r (run_op op r.db) r.stage h
perform_act-IsReached session_id (proceeds reply) r h =
    proceed-IsReached session_id reply r.stage r refl h h

pub run_relay-IsReached :
    (session_id : ℕ) (trace : List RelayAct) (r : LiveRelay)
    → IsReached r
    → IsReached (run_relay session_id trace r)
unfolding run_relay
run_relay-IsReached session_id [] r h = h
run_relay-IsReached session_id (act ∷ trace) r h =
    run_relay-IsReached session_id trace (perform_act session_id act r)
      (perform_act-IsReached session_id act r h)

pub begin_run-IsReached :
    (result : RegisterResult) (db : Database)
    → result ≢ register_duplicate
    → IsReached (begin_run result db)
unfolding begin_run
begin_run-IsReached register_accepted db d = (refl, (refl, tt))
begin_run-IsReached register_draining db d =
    (refl, (going_away-IsForwarded (codes "server shutting down"), refl))
begin_run-IsReached register_duplicate db d = absurd (d refl)

-- When Run returns with an event, from a relay that was not turned away as a duplicate, no
-- goroutine of the relay runs any more, and what it has written is one close frame with the code
-- and the reason of the event to each peer, then the close of both connections, then one outcome,
-- which is that of the event. The code is one that an endpoint may send, or 1005, and the outcome
-- is normal exactly if the code is 1000, 1001 or 1005. So the event is never the one that a
-- cancelled loop returns, whatever the peers, the database and Shutdown do.
pub run_relay_lem :
    (session_id : ℕ) (result : RegisterResult) (trace : List RelayAct) (db : Database)
    (e : RelayEvent)
    → result ≢ register_duplicate
    → (run_relay session_id trace (begin_run result db)).stage ≡ returned e
    → ((run_relay session_id trace (begin_run result db)).effects
        ≡ close_connections e ++ (outcome e.normal ∷ []))
      × (IsForwarded e
          × (any_running (run_relay session_id trace (begin_run result db)).running ≡ false))
run_relay_lem session_id result trace db e d h =
    subst (λ s. Reached s (run_relay session_id trace (begin_run result db))) h
      (run_relay-IsReached session_id trace (begin_run result db) (begin_run-IsReached result db d))
