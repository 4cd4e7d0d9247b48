-- ===== src/Db/Sessions/Started.antt =====
-- Sessions that no longer wait for a client.
use playwright_distributed.Base.{
  ℕ, ◌≡◌, refl, sym, subst, inl, inr, false, ◌&&◌, List, [], ◌∷◌, arith, ◌==◌, Bool-cases, All,
  All-zip, update_clears,
}
use playwright_distributed.Db.Sessions.Lifecycle.{
  fail as fail_edge, ◌⟶◌, renew, start, complete, cancel, expire, ◌⟶*◌, here, then, Evolves,
  run_ops, EvolvesAll, run_ops-EvolvesAll,
}
use playwright_distributed.Db.Sessions.Over.{IsOver}
use playwright_distributed.Db.Models.{
  SessionStatus, Session, Database, is_active, is_pending, is_running,
}
use playwright_distributed.Db.Sessions.Ops.{
  SessionOp, completes, starts, run_op, op_test, op_write, run_op-sessions,
}
use playwright_distributed.Db.Sessions.{complete_session, start_session}

-- No session of that id waits for a client.
abbrev pub IsStarted : ℕ → Database → Type 0
IsStarted id db = All (λ s. ((s.id == id) && is_pending s.status) ≡ false) db.sessions

pub start-IsStarted : (now id : ℕ) (db : Database) → IsStarted id (start_session now id db).1
unfolding run_op
start-IsStarted now id db =
    let written : IsStarted id (run_op (starts now id) db) =
      subst (All (λ s. ((s.id == id) && is_pending s.status) ≡ false))
        (sym (run_op-sessions (starts now id) db))
        (update_clears (op_test (starts now id)) (op_write (starts now id)) db.sessions
          (λ t. ground arith)) in
    written

edge_past_pending : (s t : SessionStatus) → s ⟶ t → is_pending t ≡ false
edge_past_pending s t renew = refl
edge_past_pending s t start = refl
edge_past_pending s t complete = refl
edge_past_pending s t cancel = refl
edge_past_pending s t (fail_edge a) = refl
edge_past_pending s t (expire a) = refl

path_past_pending : (s t : SessionStatus) → s ⟶* t → is_pending s ≡ false → is_pending t ≡ false
path_past_pending s t here h = h
path_past_pending s t (then p e) h = edge_past_pending _ t e

Evolves-started :
    (id : ℕ) (s t : Session)
    → Evolves s t
    → ((s.id == id) && is_pending s.status) ≡ false
    → ((t.id == id) && is_pending t.status) ≡ false
Evolves-started id s t e h = elim (Bool-cases (is_pending s.status)) [
  | inl waits ↦ rw e.same_id (ground arith)
  | inr past ↦ ground (arith, path_past_pending s.status t.status e.path past)
]

All-EvolvesAll :
    (id : ℕ) (ss ts : List Session)
    → EvolvesAll ss ts
    → All (λ s. ((s.id == id) && is_pending s.status) ≡ false) ss
    → All (λ s. ((s.id == id) && is_pending s.status) ≡ false) ts
All-EvolvesAll id [] [] e a = tt
All-EvolvesAll id [] (t ∷ ts) e a = elim e [ ]
All-EvolvesAll id (s ∷ ss) [] e a = elim e [ ]
All-EvolvesAll id (s ∷ ss) (t ∷ ts) e a =
    (Evolves-started id s t e.0 a.0, All-EvolvesAll id ss ts e.1 a.1)

-- Whatever statements update sessions, one that was started stays so.
pub run_ops-IsStarted :
    (id : ℕ) (ops : List SessionOp) (db : Database)
    → IsStarted id db
    → IsStarted id (run_ops ops db)
run_ops-IsStarted id ops db a =
    All-EvolvesAll id db.sessions (run_ops ops db).sessions (run_ops-EvolvesAll ops db) a

pub run_op-IsStarted :
    (id : ℕ) (op : SessionOp) (db : Database) → IsStarted id db → IsStarted id (run_op op db)
unfolding run_ops
run_op-IsStarted id op db a = run_ops-IsStarted id (op ∷ []) db a

-- One that was started is over once it is completed.
pub complete-IsOver :
    (id : ℕ) (db : Database) → IsStarted id db → IsOver id (complete_session id db).1
unfolding run_op
complete-IsOver id db a =
    let past : IsStarted id (run_op (completes id) db) = run_op-IsStarted id (completes id) db a in
    let stopped : All (λ s. ((s.id == id) && is_running s.status) ≡ false)
        (run_op (completes id) db).sessions =
      subst (All (λ s. ((s.id == id) && is_running s.status) ≡ false))
        (sym (run_op-sessions (completes id) db))
        (update_clears (op_test (completes id)) (op_write (completes id)) db.sessions
          (λ t. ground arith)) in
    All-zip (λ s. ((s.id == id) && is_pending s.status) ≡ false)
      (λ s. ((s.id == id) && is_running s.status) ≡ false)
      (λ s. ((s.id == id) && is_active s.status) ≡ false) (run_op (completes id) db).sessions
      (λ s p q. ground arith) past stopped
