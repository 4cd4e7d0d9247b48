-- ===== src/Scheduler/Capacity/Steps.antt =====
-- Every step of the system keeps the invariant, and every reachable system has it.

use playwright_distributed.Scheduler.Capacity.Trips.{reserves-holds}
use playwright_distributed.Base.{
  ℕ, ◌+◌, ◌≤◌, ◌≡◌, refl, sym, ap, subst, ◌≢◌, inl, inr, true, false, ◌||◌, Option, none, some, [],
  ◌∷◌, ◌++◌, arith, ◌==◌, bit, ||_left, Bool-cases, count, any, All, count-append, count_mono,
  All-append, All-mono, All-of, any-false, count-zero, All-zip, count-update_le,
}
use playwright_distributed.Db.Models.{Session, Worker, Database}
use playwright_distributed.Db.Sessions.Ops.{
  SessionOp, completes, run_op, op_test, op_write, run_op-sessions, run_op-workers,
}
use playwright_distributed.Db.Workers.{
  occupies, count_active_sessions_by_worker, RegisterWorkerParams, registered_worker,
  register_worker,
}
use playwright_distributed.Scheduler.Settings.{Options}
use playwright_distributed.Scheduler.Claim.{beginning, Claim, new_claim, held, is_of, holds}
use playwright_distributed.Scheduler.System.{
  System, WorkerOp, registers, run_worker_op, IsFresh, Step, begin, claim, session, worker, Reach,
  here, next,
}
use playwright_distributed.Scheduler.Capacity.Defs.{
  reserved, reserves, taken, SameSlots, AgreesWith, Agrees, HasWrites, Inv, Inv-Keeps,
}
use playwright_distributed.Scheduler.Capacity.Workers.{run_worker_op-Keeps, run_worker_op-sessions}
use playwright_distributed.Scheduler.Capacity.Answers.{trip-Inv}

op_write-occupies :
    (id : ℕ) (op : SessionOp) (t : Session)
    → op_test op t ≡ true
    → bit (occupies id (op_write op t)) ≤ bit (occupies id t)
op_write-occupies id (completes k) t h = ground arith
op_write-occupies id op t h = ground arith

-- A statement on sessions frees slots or leaves them.
session-Inv : (op : SessionOp) (s : System) → Inv s → Inv (record s { db = run_op op s.db })
session-Inv op s v =
    Inv-Keeps s (run_op op s.db) (rw (run_op-workers op s.db) (λ P a. a))
      (λ id. rw (run_op-sessions op s.db) (
        count-update_le (occupies id) (op_test op) (op_write op) s.db.sessions
          (op_write-occupies id op)))
      v

apart :
    (held_worker : Option Worker) (id slots : ℕ)
    → is_of id held_worker ≡ false
    → AgreesWith held_worker id slots
apart none id slots h = tt
apart (some w) id slots h = λ e. ground arith

-- A new worker has no session, and no claim holds it.
module _ (now : ℕ) (p : RegisterWorkerParams) (s : System) (fresh : IsFresh (registers now p) s)
    (v : Inv s) where
  added : System
  added = record s { db = record s.db { workers = s.db.workers ++ (registered_worker now p ∷ []) } }

  untaken : taken p.id s ≡ 0
  untaken = omega (
    arith,
    count-zero (occupies p.id) s.db.sessions (
        All-mono (λ t. t.worker_id ≢ p.id) (λ t. occupies p.id t ≡ false) s.db.sessions
          (λ t h. ground arith) fresh.0),
    count-zero (holds p.id) s.claims fresh.1,
    count_mono (reserves p.id) (holds p.id) s.claims (reserves-holds p.id),
  )

  added-Inv : any (λ w. w.id == p.id) s.db.workers ≡ false → Inv added
  unfolding added
  added-Inv new_id = record {
    bounded =
        All-append (λ w. taken w.id s ≤ w.max_slots) s.db.workers (registered_worker now p ∷ [])
          v.bounded (omega (arith, untaken), tt);
    alone = v.alone;
    same_slots =
        All-append (λ w. SameSlots added.db.workers w.id w.max_slots) s.db.workers
          (registered_worker now p ∷ [])
          (All-zip (λ w. SameSlots s.db.workers w.id w.max_slots) (λ w. (w.id == p.id) ≡ false)
            (λ w. SameSlots added.db.workers w.id w.max_slots) s.db.workers
            (λ w h k.
              All-append (λ u. u.id ≡ w.id → u.max_slots ≡ w.max_slots) s.db.workers
                (registered_worker now p ∷ []) h ((λ e. ground arith), tt))
            v.same_slots others)
          (
            All-append (λ u. u.id ≡ p.id → u.max_slots ≡ p.max_slots) s.db.workers
                (registered_worker now p ∷ [])
                (All-mono (λ u. (u.id == p.id) ≡ false)
                  (λ u. u.id ≡ p.id → u.max_slots ≡ p.max_slots) s.db.workers
                  (λ u h e. ground arith) others)
                ((λ e. refl), tt),
            tt,
          );
    agrees =
        All-zip (λ c. All (λ w. Agrees c w.id w.max_slots) s.db.workers) (λ c. holds p.id c ≡ false)
          (λ c. All (λ w. Agrees c w.id w.max_slots) added.db.workers) s.claims
          (λ c h k.
            All-append (λ w. Agrees c w.id w.max_slots) s.db.workers (registered_worker now p ∷ [])
              h (apart (held c.phase) p.id p.max_slots k, tt))
          v.agrees fresh.1;
    has_writes = v.has_writes;
  }
    where
      others : All (λ w. (w.id == p.id) ≡ false) s.db.workers
      others = any-false (λ w. w.id == p.id) s.db.workers new_id

  register-Inv : Inv (record s { db = (register_worker now p s.db).1 })
  unfolding added register_worker
  register-Inv = elim (Bool-cases (any (λ w. w.id == p.id) s.db.workers || (p.max_slots == 0))) [
    | inl bad ↦ rw (bad, register_worker) v
    | inr good ↦ rw (good, register_worker) (added-Inv (||_left _ _ good))
  ]

worker-Inv :
    (op : WorkerOp) (s : System)
    → IsFresh op s
    → Inv s
    → Inv (record s { db = run_worker_op op s.db })
worker-Inv (registers now p) s fresh v = unfold run_worker_op in register-Inv now p s fresh v
worker-Inv op s fresh v =
    Inv-Keeps s (run_worker_op op s.db) (run_worker_op-Keeps op s.db (λ now p e. cc))
      (λ id. rw (run_worker_op-sessions op s.db) (omega arith)) v

begin-Inv :
    (c : Claim) (s : System)
    → c.phase ≡ beginning
    → c.writes ≡ []
    → Inv s
    → Inv (record s { claims = s.claims ++ (c ∷ []) })
begin-Inv c s e f v = record {
  bounded =
      All-mono (λ w. taken w.id s ≤ w.max_slots)
        (λ w.
          count (occupies w.id) s.db.sessions + count (reserves w.id) (s.claims ++ (c ∷ []))
          ≤ w.max_slots)
        s.db.workers
        (λ w h. omega (
          arith,
          count-append (reserves w.id) s.claims (c ∷ []),
          ap (λ r. bit (is_of w.id (reserved r))) e,
        ))
        v.bounded;
  alone = λ id. omega (
    arith,
    count-append (holds id) s.claims (c ∷ []),
    ap (λ r. bit (is_of id (held r))) e,
    v.alone id,
  );
  same_slots = v.same_slots;
  agrees =
      All-append (λ d. All (λ w. Agrees d w.id w.max_slots) s.db.workers) s.claims (c ∷ []) v.agrees
        (
          subst (λ r. All (λ w. AgreesWith (held r) w.id w.max_slots) s.db.workers) (sym e)
              (All-of (λ w. Unit {0}) s.db.workers (λ w. tt)),
          tt,
        );
  has_writes =
      All-append (λ d. HasWrites d.phase d.writes) s.claims (c ∷ []) v.has_writes
        (subst (λ r. HasWrites r c.writes) (sym e) f, tt);
}

Step-Inv : {o : Options} {s t : System} → Step o s t → Inv s → Inv t
Step-Inv {o} {s} (begin request excluded id now) v =
    begin-Inv (new_claim request excluded id now) s (unfold new_claim in refl)
      (unfold new_claim in refl) v
Step-Inv {o} {s} (claim i reply c at) v = trip-Inv o s i c at v reply
Step-Inv {o} {s} (session op) v = session-Inv op s v
Step-Inv {o} {s} (worker op fresh) v = worker-Inv op s fresh v

-- Whatever claims and other statements interleave, replies are lost and statements fail: no worker
-- ever has more sessions, committed or about to be, than slots, and no worker row is held by two
-- claims at once. It holds at every system that is reached from one where it holds.
pub Reach-Inv : {o : Options} {s t : System} → Reach o s t → Inv s → Inv t
Reach-Inv here v = v
Reach-Inv (next r st) v = Step-Inv st (Reach-Inv r v)

-- With no claim in flight the invariant is that no worker has more active sessions than slots, and
-- that rows of one id agree on the number of slots.
pub idle-Inv :
    (db : Database)
    → All (λ w. count_active_sessions_by_worker w.id db ≤ w.max_slots) db.workers
    → All (λ w. SameSlots db.workers w.id w.max_slots) db.workers
    → Inv (record { db = db; claims = [] })
unfolding count_active_sessions_by_worker
idle-Inv db h k = record {
  bounded =
      All-mono (λ w. count (occupies w.id) db.sessions ≤ w.max_slots)
        (λ w. count (occupies w.id) db.sessions + 0 ≤ w.max_slots) db.workers (λ w h. omega arith)
        h;
  alone = λ id. omega arith;
  same_slots = k;
  agrees = tt;
  has_writes = tt;
}
