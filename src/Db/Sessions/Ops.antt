-- ===== src/Db/Sessions/Ops.antt =====
-- The statements that update sessions, as one data type, and each of them as one UPDATE.
use playwright_distributed.Base.{
  ℕ, ◌≡◌, refl, sym, inl, inr, Bool, ◌&&◌, none, some, List, [], ◌∷◌, arith, ◌==◌, Option-cases,
  update, find,
}
use playwright_distributed.Db.Models.{
  running, completed, failed, expired, Session, Database, is_active, is_pending, is_running,
}
use playwright_distributed.Db.Sessions.{
  update_session, set_status, complete_session, fail_session, terminate_session,
  renew_session_heartbeat, start_session, is_dead, expire_dead_sessions, is_unreported,
  fail_unreported_worker_sessions,
}

pub data SessionOp : Type 0 where
  completes fails terminates : ℕ → SessionOp
  renews starts : ℕ → ℕ → SessionOp
  expires : ℕ → ℕ → SessionOp
  fails_unreported : ℕ → ℕ → ℕ → List ℕ → SessionOp

unfoldable pub run_op : SessionOp → Database → Database
run_op (completes id) db = (complete_session id db).1
run_op (fails id) db = (fail_session id db).1
run_op (terminates id) db = (terminate_session id db).1
run_op (renews now id) db = (renew_session_heartbeat now id db).1
run_op (starts now id) db = (start_session now id db).1
run_op (expires now ttl) db = (expire_dead_sessions now ttl db).1
run_op (fails_unreported now worker_id grace reported) db =
    (fail_unreported_worker_sessions now worker_id grace reported db).1

-- The rows that the statement changes.
abbrev pub op_test : SessionOp → Session → Bool
op_test (completes id) s = (s.id == id) && is_running s.status
op_test (fails id) s = (s.id == id) && is_active s.status
op_test (terminates id) s = (s.id == id) && is_active s.status
op_test (renews now id) s = (s.id == id) && is_running s.status
op_test (starts now id) s = (s.id == id) && is_pending s.status
op_test (expires now ttl) s = is_dead now ttl s
op_test (fails_unreported now worker_id grace reported) s =
    is_unreported now worker_id grace reported s

-- What it makes of such a row.
abbrev pub op_write : SessionOp → Session → Session
op_write (completes id) = set_status completed
op_write (fails id) = set_status failed
op_write (terminates id) = set_status completed
op_write (renews now id) = λ s. record s { last_heartbeat = now }
op_write (starts now id) = λ s. record s {
  status = running;
  started_at = some now;
  last_heartbeat = now;
  expires_at = none;
}
op_write (expires now ttl) = set_status expired
op_write (fails_unreported now worker_id grace reported) = set_status failed

update-find-none :
    (p : Session → Bool) (f : Session → Session) (xs : List Session)
    → find p xs ≡ none
    → update p f xs ≡ xs
update-find-none p f [] h = refl
update-find-none p f (x ∷ xs) h = ground (arith, update-find-none p f xs)

update_session-sessions :
    (p : Session → Bool) (f : Session → Session) (notify : ℕ) (db : Database)
    → (update_session p f notify db).1.sessions ≡ update p f db.sessions
update_session-sessions p f notify db = elim (Option-cases (find p db.sessions)) [
  | inl e ↦ rw (e, update_session) (sym (update-find-none p f db.sessions e))
  | inr (s, e) ↦ rw (e, update_session)
]

update_session-workers :
    (p : Session → Bool) (f : Session → Session) (notify : ℕ) (db : Database)
    → (update_session p f notify db).1.workers ≡ db.workers
update_session-workers p f notify db = ground arith

-- Each statement is the UPDATE of its rows, also where it reports that there is no row.
pub run_op-sessions :
    (op : SessionOp) (db : Database)
    → (run_op op db).sessions ≡ update (op_test op) (op_write op) db.sessions
unfolding run_op complete_session fail_session terminate_session renew_session_heartbeat
    start_session expire_dead_sessions fail_unreported_worker_sessions
run_op-sessions (expires now ttl) db = refl
run_op-sessions (fails_unreported now worker_id grace reported) db = refl
run_op-sessions op db = update_session-sessions (op_test op) (op_write op) _ db

-- The workers stay as they are.
pub run_op-workers : (op : SessionOp) (db : Database) → (run_op op db).workers ≡ db.workers
unfolding run_op complete_session fail_session terminate_session renew_session_heartbeat
    start_session expire_dead_sessions fail_unreported_worker_sessions
run_op-workers (expires now ttl) db = refl
run_op-workers (fails_unreported now worker_id grace reported) db = refl
run_op-workers op db = update_session-workers (op_test op) (op_write op) _ db
