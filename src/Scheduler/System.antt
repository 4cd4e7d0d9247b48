-- ===== src/Scheduler/System.antt =====
-- The store under concurrent transactions: any number of claims in flight, on any number of
-- replicas, whose round trips interleave with one another and with the other statements.
use playwright_distributed.Base.{
  ℕ, ◌≡◌, ◌≢◌, Bool, false, some, List, [], ◌∷◌, ◌++◌, get_elem?, set, any, All,
}
use playwright_distributed.Db.Models.{WorkerStatus, Database}
use playwright_distributed.Db.Sessions.Ops.{SessionOp, run_op}
use playwright_distributed.Db.Workers.{
  delete_dead_workers, delete_worker, RegisterWorkerParams, register_worker, set_worker_status,
  stall_silent_workers, update_worker_heartbeat,
}
use playwright_distributed.Scheduler.Settings.{Options, ClaimRequest}
use playwright_distributed.Scheduler.Claim.{Claim, new_claim, claim_trip, holds}
use playwright_distributed.Db.Driver.{Reply}

pub record System : Type 0 where
  pub db : Database
  pub claims : List Claim

-- The statements that change workers.
pub data WorkerOp : Type 0 where
  registers : ℕ → RegisterWorkerParams → WorkerOp
  heartbeats : ℕ → ℕ → WorkerOp
  sets_status : WorkerStatus → ℕ → WorkerOp
  stalls : ℕ → ℕ → WorkerOp
  deletes_dead : ℕ → ℕ → ℕ → WorkerOp
  deletes : ℕ → WorkerOp

unfoldable pub run_worker_op : WorkerOp → Database → Database
run_worker_op (registers now p) db = (register_worker now p db).1
run_worker_op (heartbeats now id) db = (update_worker_heartbeat now id db).1
run_worker_op (sets_status status id) db = (set_worker_status status id db).1
run_worker_op (stalls now ttl) db = (stall_silent_workers now ttl db).1
run_worker_op (deletes_dead now worker_ttl stalled_ttl) db =
    (delete_dead_workers now worker_ttl stalled_ttl db).1
run_worker_op (deletes id) db = delete_worker id db

-- A new worker's id is one that uuid.New has not given before: no session and no claim names it.
abbrev pub IsFresh : WorkerOp → System → Type 0
IsFresh (registers now p) s =
    All (λ t. t.worker_id ≢ p.id) s.db.sessions × All (λ c. holds p.id c ≡ false) s.claims
IsFresh _ s = Unit

-- SKIP LOCKED passes over the rows that any claim holds.
abbrev pub locked : System → ℕ → Bool
locked s id = any (holds id) s.claims

unfoldable pub trip : Options → ℕ → Reply → Claim → System → System
unfolding claim_trip
trip o i reply c s =
    let (db, c') = claim_trip o (locked s) reply s.db c in
    record { db = db; claims = set s.claims i c' }

pub data Step (o : Options) (s : System) : System → Type 0 where
  begin :
      (request : ClaimRequest) (excluded : List ℕ) (id now : ℕ)
      → Step o s (record s { claims = s.claims ++ (new_claim request excluded id now ∷ []) })
  claim :
      (i : ℕ) (reply : Reply) (c : Claim)
      → get_elem? s.claims i ≡ some c
      → Step o s (trip o i reply c s)
  session : (op : SessionOp) → Step o s (record s { db = run_op op s.db })
  worker : (op : WorkerOp) → IsFresh op s → Step o s (record s { db = run_worker_op op s.db })

pub data Reach (o : Options) (s : System) : System → Type 0 where
  here : Reach o s s
  next : {t u : System} → Reach o s t → Step o t u → Reach o s u
