-- ===== src/Http/Relay/Attach/Relayed.antt =====
-- A session from the attachment of its client to the end of its relay.
use playwright_distributed.Http.Relay.Attach.{Reserved, relayed, attach}
use playwright_distributed.Base.{ℕ, ◌≡◌, sym, subst, ◌≢◌, Bool, List, All}
use playwright_distributed.Db.Models.{Database}
use playwright_distributed.Db.Driver.{World}
use playwright_distributed.Relay.Run.{returned, begin_run, RelayAct, run_relay}
use playwright_distributed.Relay.Manager.{RegisterResult, register_duplicate}
use playwright_distributed.Http.Relay.Attach.{Reserved, relayed, attach}
use playwright_distributed.Relay.Run.Recorded.{IsExecuted, run_relay-IsOver}
use playwright_distributed.Http.Relay.Attach.Once.{attach-IsStarted}
use playwright_distributed.Db.Sessions.Lifecycle.{run_ops}
use playwright_distributed.Db.Sessions.Over.{IsOver}
use playwright_distributed.Db.Sessions.Started.{IsStarted, run_ops-IsStarted}
use playwright_distributed.Db.Sessions.Ops.{SessionOp}
use playwright_distributed.Relay.Outcome.{RelayEvent}

-- When attach has relayed a client and Run has returned, not as a duplicate, no session of that id
-- is pending or running, if the statement that records the outcome reached the database: whatever
-- the peers did, and whichever statements updated sessions before Run and during it.
pub relayed-IsOver :
    (now id : ℕ) (reserve : Reserved) (dials upgrades : Bool) (other_tables : Database → Database)
    (w : World) (ops : List SessionOp) (result : RegisterResult) (trace : List RelayAct)
    (db : Database) (e : RelayEvent)
    → (attach now id reserve dials upgrades other_tables w).0 ≡ relayed
    → db ≡ run_ops ops (attach now id reserve dials upgrades other_tables w).1.db
    → result ≢ register_duplicate
    → All IsExecuted trace
    → (run_relay id trace (begin_run result db)).stage ≡ returned e
    → IsOver id (run_relay id trace (begin_run result db)).db
relayed-IsOver now id reserve dials upgrades other_tables w ops result trace db e h at_db d n end =
    run_relay-IsOver id result trace db e d
      (subst (IsStarted id) (sym at_db) (
        run_ops-IsStarted id ops _
          (attach-IsStarted now id reserve dials upgrades other_tables w h)))
      n end
