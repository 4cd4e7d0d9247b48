-- ===== src/Scheduler/Capacity/Bound.antt =====
-- The capacity bound of claimOnce, stated on the tables alone.
use playwright_distributed.Base.{ℕ, ◌≤◌, [], arith, count, All, All-mono}
use playwright_distributed.Db.Models.{Database}
use playwright_distributed.Db.Workers.{occupies, count_active_sessions_by_worker}
use playwright_distributed.Scheduler.Settings.{Options}
use playwright_distributed.Scheduler.Claim.{holds}
use playwright_distributed.Scheduler.System.{System, Reach}
use playwright_distributed.Scheduler.Capacity.Defs.{taken, SameSlots}
use playwright_distributed.Scheduler.Capacity.Steps.{Reach-Inv, idle-Inv}

-- A store with no claim in flight.
abbrev pub idle : Database → System
idle db = record { db = db; claims = [] }

lock_exclusive :
    (o : Options) (db : Database) (t : System)
    → All (λ w. count_active_sessions_by_worker w.id db ≤ w.max_slots) db.workers
    → All (λ w. SameSlots db.workers w.id w.max_slots) db.workers
    → Reach o (idle db) t
    → (id : ℕ) → count (holds id) t.claims ≤ 1
lock_exclusive o db t h k r = (Reach-Inv r (idle-Inv db h k)).alone

-- From a store where no worker has more active sessions than slots and rows of one id agree on the
-- slots, no interleaving of claim transactions with one another, with lost or failed replies, and
-- with the other statements on sessions and workers reaches a store where some worker has more, or
-- a point where two claims in flight hold the lock of one worker row.
pub capacity_bound :
    (o : Options) (db : Database) (t : System)
    → All (λ w. count_active_sessions_by_worker w.id db ≤ w.max_slots) db.workers
    → All (λ w. SameSlots db.workers w.id w.max_slots) db.workers
    → Reach o (idle db) t
    → All (λ w. count_active_sessions_by_worker w.id t.db ≤ w.max_slots) t.db.workers
      × ((id : ℕ) → count (holds id) t.claims ≤ 1)
unfolding count_active_sessions_by_worker
capacity_bound o db t h k r = (
  All-mono (λ w. taken w.id t ≤ w.max_slots)
      (λ w. count (occupies w.id) t.db.sessions ≤ w.max_slots) t.db.workers (λ w b. omega arith)
      (Reach-Inv r (idle-Inv db h k)).bounded,
  lock_exclusive o db t h k r,
)
