-- ===== src/Db/Sessions/Lifecycle.antt =====
-- The life of a session row: the edges between its states, and what its columns hold in each.
use playwright_distributed.Base.{
  ◌≡◌, refl, ◌∙◌, ◌≢◌, inl, inr, true, false, none, List, [], ◌∷◌, arith, Bool-cases, All, update,
  All-update,
}
use playwright_distributed.Db.Models.{
  SessionStatus, pending, running, completed, failed, expired, Session, Database, is_active,
}
use playwright_distributed.Db.Sessions.Ops.{
  SessionOp, completes, run_op, op_test, op_write, run_op-sessions,
}

infix 40 ◌⟶◌
-- The edges of the life of a session. No edge leaves `completed`, `failed` or `expired`.
pub data ◌⟶◌ : SessionStatus → SessionStatus → Type 0 where
  renew : running ⟶ running
  start : pending ⟶ running
  complete : running ⟶ completed
  cancel : pending ⟶ completed
  fail : {s : SessionStatus} → is_active s ≡ true → s ⟶ failed
  expire : {s : SessionStatus} → is_active s ≡ true → s ⟶ expired

ruleset edges = (renew, start, complete, cancel, fail, expire)

op-⟶ : (op : SessionOp) (s : Session) → op_test op s ≡ true → s.status ⟶ (op_write op s).status
op-⟶ (completes id) s h = grind (arith, edges)
op-⟶ op s h = grind (arith, edges)

-- The states that a row can pass through from one to another.
infix 40 ◌⟶*◌
pub data ◌⟶*◌ : SessionStatus → SessionStatus → Type 0 where
  here : {s : SessionStatus} → s ⟶* s
  then : {s t u : SessionStatus} → s ⟶* t → t ⟶ u → s ⟶* u

-- A later state of a row: its identity and its history columns stay, and a row whose session is
-- over stays as it is.
pub record Evolves (s t : Session) : Type 0 where
  pub path : s.status ⟶* t.status
  pub same_id : t.id ≡ s.id
  pub same_worker : t.worker_id ≡ s.worker_id
  pub same_browser : t.browser ≡ s.browser
  pub same_created : t.created_at ≡ s.created_at
  pub final : is_active s.status ≡ false → t ≡ s

unfoldable pub run_ops : List SessionOp → Database → Database
run_ops [] db = db
run_ops (op ∷ ops) db = run_ops ops (run_op op db)

Evolves-refl : (s : Session) → Evolves s s
Evolves-refl s = record {
  path = here;
  same_id = refl;
  same_worker = refl;
  same_browser = refl;
  same_created = refl;
  final = λ _. refl;
}

op_test-is_active : (op : SessionOp) (s : Session) → op_test op s ≡ true → is_active s.status ≡ true
op_test-is_active (completes id) s h = ground arith
op_test-is_active op s h = ground arith

op_write_keeps :
    (op : SessionOp) (s : Session)
    → ((op_write op s).id ≡ s.id)
      × ((op_write op s).worker_id ≡ s.worker_id)
      × ((op_write op s).browser ≡ s.browser)
      × ((op_write op s).created_at ≡ s.created_at)
op_write_keeps (completes id) s = (refl, refl, refl, refl)
op_write_keeps op s = (refl, refl, refl, refl)

Evolves-write :
    (op : SessionOp) (s t : Session) → op_test op t ≡ true → Evolves s t → Evolves s (op_write op t)
Evolves-write op s t h e =
    let (k, l, m, n) = op_write_keeps op t in
    record {
      path = then e.path (op-⟶ op t h);
      same_id = k ∙ e.same_id;
      same_worker = l ∙ e.same_worker;
      same_browser = m ∙ e.same_browser;
      same_created = n ∙ e.same_created;
      final = λ over. cc (op_test-is_active op t h, e.final over, over);
    }

-- The row at each place of the later table is the row at that place of the earlier one, evolved.
abbrev pub EvolvesAll : List Session → List Session → Type 0
EvolvesAll [] [] = Unit
EvolvesAll (s ∷ ss) (t ∷ ts) = Evolves s t × EvolvesAll ss ts
EvolvesAll _ _ = ⊥

EvolvesAll-refl : (ss : List Session) → EvolvesAll ss ss
EvolvesAll-refl [] = tt
EvolvesAll-refl (s ∷ ss) = (Evolves-refl s, EvolvesAll-refl ss)

EvolvesAll-update :
    (op : SessionOp) (ss ts : List Session)
    → EvolvesAll ss ts
    → EvolvesAll ss (update (op_test op) (op_write op) ts)
EvolvesAll-update op [] [] h = tt
EvolvesAll-update op [] (t ∷ ts) h = elim h [ ]
EvolvesAll-update op (s ∷ ss) [] h = elim h [ ]
EvolvesAll-update op (s ∷ ss) (t ∷ ts) h = (
  elim (Bool-cases (op_test op t)) [ inl e ↦ rw e (Evolves-write op s t e h.0) | inr e ↦ rw e h.0 ],
  EvolvesAll-update op ss ts h.1,
)

run_ops-EvolvesAll_from :
    (ss : List Session) (ops : List SessionOp) (db : Database)
    → EvolvesAll ss db.sessions
    → EvolvesAll ss (run_ops ops db).sessions
unfolding run_ops
run_ops-EvolvesAll_from ss [] db h = h
run_ops-EvolvesAll_from ss (op ∷ ops) db h =
    run_ops-EvolvesAll_from ss ops (run_op op db)
      (rw (run_op-sessions op db) (EvolvesAll-update op ss db.sessions h))

-- Any sequence of the statements that update sessions keeps every row in its place, moves its
-- status along the edges only, keeps its id, worker, browser and creation time, and leaves a row
-- whose session is completed, failed or expired exactly as it was.
pub run_ops-EvolvesAll :
    (ops : List SessionOp) (db : Database) → EvolvesAll db.sessions (run_ops ops db).sessions
run_ops-EvolvesAll ops db = run_ops-EvolvesAll_from db.sessions ops db (EvolvesAll-refl db.sessions)

-- What the columns of a row hold in each state.
pub record IsSound (s : Session) : Type 0 where
  pub pending_expires : s.status ≡ pending → (s.expires_at ≢ none) × (s.started_at ≡ none)
  pub running_started : s.status ≡ running → (s.started_at ≢ none) × (s.expires_at ≡ none)

op_write-IsSound :
    (op : SessionOp) (s : Session) → op_test op s ≡ true → IsSound s → IsSound (op_write op s)
op_write-IsSound (completes id) s h v = ground arith
op_write-IsSound op s h v = ground arith

-- A pending session has an expiry and no start, a running one a start and no expiry: every
-- statement that updates sessions keeps this of all rows.
pub run_op-IsSound :
    (op : SessionOp) (db : Database) → All IsSound db.sessions → All IsSound (run_op op db).sessions
run_op-IsSound op db v =
    rw (run_op-sessions op db)
      (All-update IsSound (op_test op) (op_write op) db.sessions (op_write-IsSound op) v)
