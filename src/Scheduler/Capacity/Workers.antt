-- ===== src/Scheduler/Capacity/Workers.antt =====
-- What the statements on workers keep, and what a selected worker is.

use playwright_distributed.Base.{
  ℕ, ◌+◌, ◌≡◌, refl, ◌≢◌, inl, inr, Bool, not, ◌&&◌, List, arith, ◌==◌, Option-cases, select,
  update, find, All-update, All-select,
}
use playwright_distributed.Db.Models.{stalled, Worker, Database}
use playwright_distributed.Db.Workers.{
  update_worker, is_dead_worker, delete_dead_workers, delete_worker,
  increment_worker_lifetime_sessions, RegisterWorkerParams, register_worker, may_set,
  set_worker_status, is_silent, stall_silent_workers, revived, update_worker_heartbeat,
}
use playwright_distributed.Scheduler.System.{
  WorkerOp, registers, heartbeats, sets_status, stalls, deletes_dead, deletes, run_worker_op,
}
use playwright_distributed.Scheduler.Capacity.Defs.{Keeps}

Keeps-update :
    (p : Worker → Bool) (f : Worker → Worker) (ws : List Worker)
    → ((w : Worker) → ((f w).id ≡ w.id) × ((f w).max_slots ≡ w.max_slots))
    → Keeps ws (update p f ws)
Keeps-update p f ws h P =
    All-update (λ w. P w.id w.max_slots) p f ws λ w _ a. rw ((h w).0, (h w).1) a

Keeps-select : (p : Worker → Bool) (ws : List Worker) → Keeps ws (select p ws)
Keeps-select p ws P = All-select (λ w. P w.id w.max_slots) p ws

update_worker-Keeps :
    (p : Worker → Bool) (f : Worker → Worker) (db : Database)
    → ((w : Worker) → ((f w).id ≡ w.id) × ((f w).max_slots ≡ w.max_slots))
    → Keeps db.workers (update_worker p f db).1.workers
update_worker-Keeps p f db h = elim (Option-cases (find p db.workers)) [
  | inl e ↦ rw (e, update_worker) (λ P a. a)
  | inr (w, e) ↦ rw (e, update_worker) (Keeps-update p f db.workers h)
]

pub increment-Keeps :
    (id : ℕ) (db : Database) → Keeps db.workers (increment_worker_lifetime_sessions id db).1.workers
unfolding increment_worker_lifetime_sessions
increment-Keeps id db =
    update_worker-Keeps (λ w. w.id == id)
      (λ w. record w { lifetime_sessions = w.lifetime_sessions + 1 }) db (λ w. (refl, refl))

update_worker-sessions :
    (p : Worker → Bool) (f : Worker → Worker) (db : Database)
    → (update_worker p f db).1.sessions ≡ db.sessions
update_worker-sessions p f db = ground arith

pub increment-sessions :
    (id : ℕ) (db : Database) → (increment_worker_lifetime_sessions id db).1.sessions ≡ db.sessions
unfolding increment_worker_lifetime_sessions
increment-sessions id db =
    update_worker-sessions (λ w. w.id == id)
      (λ w. record w { lifetime_sessions = w.lifetime_sessions + 1 }) db

-- Every statement on workers but a registration keeps the ids and the slots.
pub run_worker_op-Keeps :
    (op : WorkerOp) (db : Database)
    → ((now : ℕ) (p : RegisterWorkerParams) → op ≢ registers now p)
    → Keeps db.workers (run_worker_op op db).workers
unfolding run_worker_op update_worker_heartbeat set_worker_status stall_silent_workers
    delete_dead_workers delete_worker
run_worker_op-Keeps (registers now p) db other = absurd (other now p refl)
run_worker_op-Keeps (heartbeats now id) db other =
    update_worker-Keeps (λ w. w.id == id)
      (λ w. record w { last_heartbeat = now; status = revived w.status }) db (λ w. (refl, refl))
run_worker_op-Keeps (sets_status status id) db other =
    update_worker-Keeps (λ w. (w.id == id) && may_set status w.status)
      (λ w. record w { status = status }) db (λ w. (refl, refl))
run_worker_op-Keeps (stalls now ttl) db other =
    Keeps-update (is_silent now ttl) (λ w. record w { status = stalled }) db.workers
      (λ w. (refl, refl))
run_worker_op-Keeps (deletes_dead now worker_ttl stalled_ttl) db other =
    Keeps-select (λ w. not (is_dead_worker now worker_ttl stalled_ttl db w)) db.workers
run_worker_op-Keeps (deletes id) db other = Keeps-select (λ w. not (w.id == id)) db.workers

pub run_worker_op-sessions :
    (op : WorkerOp) (db : Database) → (run_worker_op op db).sessions ≡ db.sessions
unfolding run_worker_op register_worker update_worker_heartbeat set_worker_status
    stall_silent_workers delete_dead_workers delete_worker
run_worker_op-sessions (registers now p) db = ground arith
run_worker_op-sessions (heartbeats now id) db = ground arith
run_worker_op-sessions (sets_status status id) db = ground arith
run_worker_op-sessions op db = refl
