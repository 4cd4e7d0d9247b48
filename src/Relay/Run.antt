-- ===== src/Relay/Run.antt =====
-- Run of server/internal/relay/manager.go: the four goroutines of a relay, the channel of their
-- events, and the steps of Run itself, interleaved with one another, with Shutdown's call of stop
-- and with the other statements on sessions.
pub mod Forwarded
pub mod Outcomes
pub mod Recorded
pub mod Returns
pub mod Stopped
use playwright_distributed.Base.{
  Result, ℕ, Bool, true, false, ◌||◌, Option, none, some, List, [], ◌∷◌, ◌++◌, ltb, if◌then◌else◌,
  length, codes,
}
use playwright_distributed.Db.Models.{Session, Database}
use playwright_distributed.Db.Driver.{Reply, World, statement}
use playwright_distributed.Db.Sessions.{renew_session_heartbeat}
use playwright_distributed.Db.Sessions.Ops.{SessionOp, run_op}
use playwright_distributed.Relay.Manager.{
  RegisterResult, register_accepted, register_draining, register_duplicate,
}
use playwright_distributed.Relay.Outcome.{
  close_internal_server_err, PeerError, Reason, text, RelayEvent, record_outcome,
}
use playwright_distributed.Relay.Loops.{
  CopyRound, copy_round, ping_round, going_away, renewal_round, canceled_event,
}

-- copyMessages from the client and from the worker, pingPeers and renewHeartbeat.
pub data Goroutine : Type 0 where
  from_client from_worker pinger renewer : Goroutine

-- The goroutines that have not called Done.
pub record Running : Type 0 where
  pub copies_client : Bool
  pub copies_worker : Bool
  pub pings_peers : Bool
  pub renews_session : Bool

abbrev pub runs_in : Goroutine → Running → Bool
runs_in from_client r = r.copies_client
runs_in from_worker r = r.copies_worker
runs_in pinger r = r.pings_peers
runs_in renewer r = r.renews_session

abbrev pub without : Goroutine → Running → Running
without from_client r = record r { copies_client = false }
without from_worker r = record r { copies_worker = false }
without pinger r = record r { pings_peers = false }
without renewer r = record r { renews_session = false }

abbrev all_running : Running
all_running = record {
  copies_client = true;
  copies_worker = true;
  pings_peers = true;
  renews_session = true;
}

abbrev pub none_running : Running
none_running = record {
  copies_client = false;
  copies_worker = false;
  pings_peers = false;
  renews_session = false;
}

abbrev pub any_running : Running → Bool
any_running r = r.copies_client || (r.copies_worker || (r.pings_peers || r.renews_session))

pub data Peer : Type 0 where
  client worker : Peer

-- A close frame that is written, a connection that is closed, an outcome that is recorded.
pub data Effect : Type 0 where
  close_peer : Peer → ℕ → Reason → Effect
  close : Peer → Effect
  outcome : Bool → Effect

-- Which call of Run is next: the receive, closeConnections, goroutines.Wait, recordOutcome.
pub data RunStage : Type 0 where
  receiving : RunStage
  closing joining recording returned : RelayEvent → RunStage

pub record LiveRelay : Type 0 where
  pub stage : RunStage
  pub events : List RelayEvent
  pub canceled : Bool
  pub running : Running
  pub effects : List Effect
  pub db : Database

abbrev events_capacity : ℕ
events_capacity = 4

-- stop: an event that finds the channel full is dropped.
unfoldable pub stop : RelayEvent → List RelayEvent → List RelayEvent
stop event events = if ltb (length events) events_capacity then events ++ (event ∷ []) else events

abbrev pub shutting_down_event : RelayEvent
shutting_down_event = going_away (codes "server shutting down")

abbrev pub duplicate_event : RelayEvent
duplicate_event = record {
  code = close_internal_server_err;
  reason = text (codes "duplicate relay");
  normal = false;
}

-- The errors of the four calls are at most logged.
abbrev pub close_connections : RelayEvent → List Effect
close_connections e =
    close_peer client e.code e.reason
    ∷ close_peer worker e.code e.reason
    ∷ close client
    ∷ close worker
    ∷ []

-- Run after register: a relay that is turned away starts no goroutine.
unfoldable pub begin_run : RegisterResult → Database → LiveRelay
begin_run register_accepted db = record {
  stage = receiving;
  events = [];
  canceled = false;
  running = all_running;
  effects = [];
  db = db;
}
begin_run register_draining db = record {
  stage = recording shutting_down_event;
  events = [];
  canceled = false;
  running = none_running;
  effects = close_connections shutting_down_event;
  db = db;
}
begin_run register_duplicate db = record {
  stage = returned duplicate_event;
  events = [];
  canceled = false;
  running = none_running;
  effects = close_connections duplicate_event;
  db = db;
}

-- A goroutine that runs ends a round of its loop: none goes on, an event is sent and then Done.
unfoldable pub round : Goroutine → Option RelayEvent → LiveRelay → LiveRelay
unfolding stop
round g none r = r
round g (some event) r =
    if runs_in g r.running
    then record r { events = stop event r.events; running = without g r.running }
    else r

-- A round of a loop, the end of the two loops that watch the context, Shutdown's stop, another
-- statement on sessions, and the next call of Run.
pub data RelayAct : Type 0 where
  copies : Peer → CopyRound → RelayAct
  ticks : Option PeerError → Option PeerError → RelayAct
  renewal : ℕ → Reply → RelayAct
  sees_done : Goroutine → RelayAct
  stops : RelayAct
  others : SessionOp → RelayAct
  proceeds : Reply → RelayAct

abbrev pub copier : Peer → Goroutine
copier client = from_client
copier worker = from_worker

unfoldable pub renewed : Result Session × World → LiveRelay → LiveRelay
unfolding round renewal_round
renewed (result, w) r = round renewer (renewal_round result) (record r { db = w.db })

-- The statement is made if the loop still runs.
unfoldable pub renew_session : ℕ → ℕ → Reply → LiveRelay → LiveRelay
unfolding renewed
renew_session session_id now reply r =
    if r.running.renews_session
    then renewed
        (statement (renew_session_heartbeat now session_id)
          (record { db = r.db; replies = reply ∷ [] }))
        r
    else r

unfoldable pub see_done : Goroutine → LiveRelay → LiveRelay
unfolding round
see_done from_client r = r
see_done from_worker r = r
see_done g r = if r.canceled then round g (some canceled_event) r else r

unfoldable pub receive_event : List RelayEvent → LiveRelay → LiveRelay
receive_event [] r = r
receive_event (event ∷ events) r = record r {
  stage = closing event;
  events = events;
  canceled = true;
}

-- A call that blocks changes nothing.
unfoldable pub proceed : ℕ → Reply → RunStage → LiveRelay → LiveRelay
unfolding receive_event
proceed session_id reply receiving r = receive_event r.events r
proceed session_id reply (closing e) r = record r {
  stage = joining e;
  effects = r.effects ++ close_connections e;
}
proceed session_id reply (joining e) r =
    if any_running r.running then r else record r { stage = recording e }
proceed session_id reply (recording e) r = record r {
  stage = returned e;
  effects = r.effects ++ (outcome e.normal ∷ []);
  db = (record_outcome session_id e.normal (record { db = r.db; replies = reply ∷ [] })).db;
}
proceed session_id reply (returned e) r = r

unfoldable pub perform_act : ℕ → RelayAct → LiveRelay → LiveRelay
unfolding renew_session see_done round copy_round ping_round
perform_act session_id (copies peer c) r = round (copier peer) (copy_round c) r
perform_act session_id (ticks client_err worker_err) r =
    round pinger (ping_round client_err worker_err) r
perform_act session_id (renewal now reply) r = renew_session session_id now reply r
perform_act session_id (sees_done g) r = see_done g r
perform_act session_id stops r = record r { events = stop shutting_down_event r.events }
perform_act session_id (others op) r = record r { db = run_op op r.db }
perform_act session_id (proceeds reply) r = proceed session_id reply r.stage r

unfoldable pub run_relay : ℕ → List RelayAct → LiveRelay → LiveRelay
unfolding perform_act
run_relay session_id [] r = r
run_relay session_id (act ∷ later) r = run_relay session_id later (perform_act session_id act r)
