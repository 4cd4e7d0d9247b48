-- ===== src/Http/Relay/Attach/Cleanup.antt =====
-- A session that attach gives up is over.
use playwright_distributed.Base.{
  no_rows, Result, ok, err, ℕ, ◌≡◌, refl, sym, subst, Bool, true, false, arith, true-false,
}
use playwright_distributed.Db.Models.{Session, Database}
use playwright_distributed.Db.Driver.{delivered, World, next_reply, statement}
use playwright_distributed.Db.Driver.Queries.{statement_replies, statement_delivered}
use playwright_distributed.Db.Sessions.{fail_session, start_session}
use playwright_distributed.Db.Sessions.Over.{IsOver, fail-IsOver}
use playwright_distributed.Http.Relay.Attach.{
  Reserved, granted, is_draining, not_reserved, AttachEnd, start_failed, dial_failed,
  upgrade_failed, rejected_start, failed_with, started, attach,
}

-- The handler may have started the session, and hands it to no relay.
abbrev pub gives_up : AttachEnd → Bool
gives_up start_failed = true
gives_up dial_failed = true
gives_up upgrade_failed = true
gives_up end = false

failed-IsOver :
    (id : ℕ) (others : Database → Database) (w : World) (end : AttachEnd)
    → (next_reply w.replies).0 ≡ delivered
    → IsOver id (failed_with id others w end).1.db
failed-IsOver id others w end d =
    subst (IsOver id)
      (sym (statement_delivered (fail_session id) (record w { db = others w.db }) d))
      (fail-IsOver id (others w.db))

rejected_keeps : (r : Result Session × World) → gives_up (rejected_start r).0 ≡ false
unfolding rejected_start
rejected_keeps (ok s, w) = refl
rejected_keeps (err e, w) = refl

started-IsOver :
    (id : ℕ) (dials upgrades : Bool) (others : Database → Database) (r : Result Session × World)
    → gives_up (started id dials upgrades others r).0 ≡ true
    → (next_reply r.1.replies).0 ≡ delivered
    → IsOver id (started id dials upgrades others r).1.db
unfolding started
started-IsOver id dials upgrades others (err no_rows, w) h d =
    absurd (true-false h (rejected_keeps _))
started-IsOver id dials upgrades others (err e, w) h d = failed-IsOver id others w start_failed d
started-IsOver id false upgrades others (ok s, w) h d = failed-IsOver id others w dial_failed d
started-IsOver id true false others (ok s, w) h d = failed-IsOver id others w upgrade_failed d
started-IsOver id true true others (ok s, w) h d = absurd (ground arith)

-- When attach gives up after the attempt to start the session, because the statement or the dial or
-- the upgrade failed, and the answer to its second statement arrives, no session of that id is pending
-- or running, even if the answer to the first was lost.
pub attach-IsOver :
    (now id : ℕ) (reserved : Reserved) (dials upgrades : Bool) (others : Database → Database)
    (w : World)
    → gives_up (attach now id reserved dials upgrades others w).0 ≡ true
    → (next_reply (next_reply w.replies).1).0 ≡ delivered
    → IsOver id (attach now id reserved dials upgrades others w).1.db
unfolding attach
attach-IsOver now id is_draining dials upgrades others w h d = absurd (ground arith)
attach-IsOver now id not_reserved dials upgrades others w h d = absurd (ground arith)
attach-IsOver now id granted dials upgrades others w h d =
    started-IsOver id dials upgrades others (statement (start_session now id) w) h
      (rw (statement_replies (start_session now id) w) d)
