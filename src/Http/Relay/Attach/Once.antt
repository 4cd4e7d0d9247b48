-- ===== src/Http/Relay/Attach/Once.antt =====
-- A session is relayed at most once.
use playwright_distributed.Base.{
  no_rows, Result, ok, err, ℕ, ◌≡◌, refl, sym, ap, ◌∙◌, subst, ◌≢◌, Bool, true, false, ◌&&◌, List,
  ◌==◌, find_no_match,
}
use playwright_distributed.Db.Models.{Session, Database, is_pending}
use playwright_distributed.Db.Driver.{World}
use playwright_distributed.Db.Driver.Queries.{statement_ok}
use playwright_distributed.Db.Sessions.{update_session, start_session}
use playwright_distributed.Db.Sessions.Ops.{SessionOp}
use playwright_distributed.Db.Sessions.Lifecycle.{run_ops}
use playwright_distributed.Http.Relay.Attach.{
  Reserved, granted, is_draining, not_reserved, relayed, rejected_start, started, attach,
}
use playwright_distributed.Db.Sessions.Started.{IsStarted, start-IsStarted, run_ops-IsStarted}

rejected_not_relayed : (r : Result Session × World) → (rejected_start r).0 ≢ relayed
unfolding rejected_start
rejected_not_relayed (ok s, w) h = cc
rejected_not_relayed (err e, w) h = cc

started_relayed :
    (id : ℕ) (dials upgrades : Bool) (others : Database → Database) (r : Result Session × World)
    → (started id dials upgrades others r).0 ≡ relayed
    → (s : Session) × ((r.0 ≡ ok s) × ((started id dials upgrades others r).1 ≡ r.1))
unfolding started
started_relayed id dials upgrades others (err no_rows, w) h = absurd (rejected_not_relayed _ h)
started_relayed id dials upgrades others (err e, w) h = cc
started_relayed id false upgrades others (ok s, w) h = cc
started_relayed id true false others (ok s, w) h = cc
started_relayed id true true others (ok s, w) h = (s, (refl, refl))

-- A relayed session was started in the tables that attach met.
attach_relayed :
    (now id : ℕ) (reserved : Reserved) (dials upgrades : Bool) (others : Database → Database)
    (w : World)
    → (attach now id reserved dials upgrades others w).0 ≡ relayed
    → (s : Session) × (((start_session now id w.db).0 ≡ ok s)
        × ((attach now id reserved dials upgrades others w).1.db ≡ (start_session now id w.db).1))
unfolding attach
attach_relayed now id is_draining dials upgrades others w h = cc
attach_relayed now id not_reserved dials upgrades others w h = cc
attach_relayed now id granted dials upgrades others w h =
    let (s, (hit, same)) = started_relayed id dials upgrades others _ h in
    let (ran, kept) = statement_ok (start_session now id) w s hit in
    (s, (ran, ap (λ x. x.db) same ∙ kept))

pub attach-IsStarted :
    (now id : ℕ) (reserved : Reserved) (dials upgrades : Bool) (others : Database → Database)
    (w : World)
    → (attach now id reserved dials upgrades others w).0 ≡ relayed
    → IsStarted id (attach now id reserved dials upgrades others w).1.db
attach-IsStarted now id reserved dials upgrades others w h =
    let (s, (ran, tables)) = attach_relayed now id reserved dials upgrades others w h in
    subst (IsStarted id) (sym tables) (start-IsStarted now id w.db)

not_started_twice :
    (now id : ℕ) (db : Database) (s : Session)
    → IsStarted id db
    → (start_session now id db).0 ≢ ok s
unfolding start_session
not_started_twice now id db s a h =
    let missed = find_no_match (λ x. (x.id == id) && is_pending x.status) db.sessions a in
    let q : err no_rows ≡ ok s = rw (update_session, missed) at h in cc

-- Once a client is attached to a session and relayed, no other one is, whichever statements update
-- sessions in between and whenever it tries.
pub attach_once :
    (now id later : ℕ) (reserved reserved' : Reserved) (dials upgrades dials' upgrades' : Bool)
    (others others' : Database → Database) (w w' : World) (ops : List SessionOp)
    → (attach now id reserved dials upgrades others w).0 ≡ relayed
    → w'.db ≡ run_ops ops (attach now id reserved dials upgrades others w).1.db
    → (attach later id reserved' dials' upgrades' others' w').0 ≢ relayed
attach_once now id later reserved reserved' dials upgrades dials' upgrades' others others' w w' ops
      h at_db again =
    let (s', (ran', tables')) =
      attach_relayed later id reserved' dials' upgrades' others' w' again in
    let first = attach-IsStarted now id reserved dials upgrades others w h in
    let kept : IsStarted id w'.db =
      subst (IsStarted id) (sym at_db) (run_ops-IsStarted id ops _ first) in
    not_started_twice later id w'.db s' kept ran'
