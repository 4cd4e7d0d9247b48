-- ===== src/Http/Sessions/Deletion.antt =====
-- A session that was deleted is over.
use playwright_distributed.Base.{no_rows, Result, ok, err, ℕ, ◌≡◌, refl, sym, ap, ◌∙◌, subst, List}
use playwright_distributed.Db.Models.{Session, Database}
use playwright_distributed.Db.Driver.{World, statement}
use playwright_distributed.Db.Driver.Queries.{statement_ok, query_ok, statement_no_rows}
use playwright_distributed.Db.Sessions.{terminate_session, get_session}
use playwright_distributed.Db.Sessions.Ops.{SessionOp}
use playwright_distributed.Db.Sessions.Lifecycle.{run_ops}
use playwright_distributed.Db.Sessions.Over.{
  IsOver, terminate-IsOver, not_found-IsOver, run_ops-IsOver,
}
use playwright_distributed.Http.Response.{answered}
use playwright_distributed.Http.Sessions.{looked_up, terminated, delete_session}

looked_up_204 :
    (r : Result Session × World)
    → (looked_up r).0 ≡ answered 204 tt
    → (s : Session) × ((r.0 ≡ ok s) × ((looked_up r).1 ≡ r.1))
unfolding looked_up
looked_up_204 (ok s, w) h = (s, (refl, refl))
looked_up_204 (err no_rows, w) h = cc
looked_up_204 (err e, w) h = cc

terminated_204 :
    (id : ℕ) (ops : List SessionOp) (db : Database) (r : Result Session × World)
    → ((s : Session) → r.0 ≡ ok s → IsOver id r.1.db)
    → (r.0 ≡ err no_rows → IsOver id r.1.db)
    → (terminated id (run_ops ops) r).0 ≡ answered 204 tt
    → IsOver id (terminated id (run_ops ops) r).1.db
unfolding terminated
terminated_204 id ops db (ok s, w) found missed h = found s refl
terminated_204 id ops db (err no_rows, w) found missed h =
    let (s, (hit, same)) = looked_up_204 _ h in
    let (got, kept) = query_ok (get_session id) _ s hit in
    subst (IsOver id) (sym (ap (λ x. x.db) same ∙ kept)) (run_ops-IsOver id ops w.db (missed refl))
terminated_204 id ops db (err e, w) found missed h = cc

-- When the deletion of a session is answered with 204, no session of that id is pending or running,
-- whichever statements update sessions between its two statements.
pub delete_session-IsOver :
    (id : ℕ) (ops : List SessionOp) (w : World)
    → (delete_session id (run_ops ops) w).0 ≡ answered 204 tt
    → IsOver id (delete_session id (run_ops ops) w).1.db
unfolding delete_session
delete_session-IsOver id ops w h =
    terminated_204 id ops w.db (statement (terminate_session id) w)
      (λ s hit.
        let (ran, kept) = statement_ok (terminate_session id) w s hit in
        subst (IsOver id) (sym kept) (terminate-IsOver id w.db))
      (λ miss.
        let (ran, kept) = statement_no_rows (terminate_session id) w miss in
        let (over, same) = not_found-IsOver id w.db ran in
        subst (IsOver id) (sym (kept ∙ same)) over)
      h
