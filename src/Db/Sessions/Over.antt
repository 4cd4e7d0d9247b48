-- ===== src/Db/Sessions/Over.antt =====
-- Sessions that are over stay over.
use playwright_distributed.Base.{
  no_rows, err, ℕ, ◌≡◌, refl, sym, subst, inl, inr, false, ◌&&◌, List, [], ◌∷◌, arith, ◌==◌,
  Bool-cases, Option-cases, All, find, update_clears, no_match_find,
}
use playwright_distributed.Db.Models.{Session, Database, is_active}
use playwright_distributed.Db.Sessions.{update_session, fail_session, terminate_session}
use playwright_distributed.Db.Sessions.Ops.{
  SessionOp, fails, terminates, run_op, op_test, op_write, run_op-sessions,
}
use playwright_distributed.Db.Sessions.Lifecycle.{Evolves, run_ops, EvolvesAll, run_ops-EvolvesAll}

-- No session of that id is pending or running.
abbrev pub IsOver : ℕ → Database → Type 0
IsOver id db = All (λ s. ((s.id == id) && is_active s.status) ≡ false) db.sessions

pub terminate-IsOver : (id : ℕ) (db : Database) → IsOver id (terminate_session id db).1
unfolding run_op
terminate-IsOver id db =
    let written : IsOver id (run_op (terminates id) db) =
      subst (All (λ s. ((s.id == id) && is_active s.status) ≡ false))
        (sym (run_op-sessions (terminates id) db))
        (update_clears (op_test (terminates id)) (op_write (terminates id)) db.sessions
          (λ t. ground arith)) in
    written

pub fail-IsOver : (id : ℕ) (db : Database) → IsOver id (fail_session id db).1
unfolding run_op
fail-IsOver id db =
    let written : IsOver id (run_op (fails id) db) =
      subst (All (λ s. ((s.id == id) && is_active s.status) ≡ false))
        (sym (run_op-sessions (fails id) db))
        (update_clears (op_test (fails id)) (op_write (fails id)) db.sessions
          (λ t. ground arith)) in
    written

pub not_found-IsOver :
    (id : ℕ) (db : Database)
    → (terminate_session id db).0 ≡ err no_rows
    → IsOver id db × ((terminate_session id db).1 ≡ db)
unfolding terminate_session
not_found-IsOver id db h =
    elim (Option-cases (find (λ s. (s.id == id) && is_active s.status) db.sessions)) [
      | inl e ↦ (no_match_find _ db.sessions e, rw (update_session, e) refl)
      | inr (s, e) ↦ absurd (ground arith)
    ]

Evolves-over :
    (id : ℕ) (s t : Session)
    → Evolves s t
    → ((s.id == id) && is_active s.status) ≡ false
    → ((t.id == id) && is_active t.status) ≡ false
Evolves-over id s t e h = elim (Bool-cases (is_active s.status)) [
  | inl active ↦ rw e.same_id (ground arith)
  | inr over ↦ rw (e.final over) h
]

All-EvolvesAll :
    (id : ℕ) (ss ts : List Session)
    → EvolvesAll ss ts
    → All (λ s. ((s.id == id) && is_active s.status) ≡ false) ss
    → All (λ s. ((s.id == id) && is_active s.status) ≡ false) ts
All-EvolvesAll id [] [] e a = tt
All-EvolvesAll id [] (t ∷ ts) e a = elim e [ ]
All-EvolvesAll id (s ∷ ss) [] e a = elim e [ ]
All-EvolvesAll id (s ∷ ss) (t ∷ ts) e a =
    (Evolves-over id s t e.0 a.0, All-EvolvesAll id ss ts e.1 a.1)

-- Whatever statements update sessions, one that is over stays so.
pub run_ops-IsOver :
    (id : ℕ) (ops : List SessionOp) (db : Database) → IsOver id db → IsOver id (run_ops ops db)
run_ops-IsOver id ops db a =
    All-EvolvesAll id db.sessions (run_ops ops db).sessions (run_ops-EvolvesAll ops db) a
