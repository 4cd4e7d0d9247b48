-- ===== src/Scheduler/Capacity/Defs.antt =====
-- The invariant of a system with claims in flight.
use playwright_distributed.Base.{
  ℕ, ◌+◌, ◌≤◌, ◌≡◌, Bool, Option, none, some, List, [], ◌∷◌, arith, count, All, All-mono,
}
use playwright_distributed.Db.Models.{Worker, Database}
use playwright_distributed.Db.Workers.{occupies}
use playwright_distributed.Scheduler.Claim.{
  Phase, inserting, incrementing, committing, Write, insert_session, increment_lifetime, Claim,
  held, is_of, holds,
}
use playwright_distributed.Scheduler.System.{System}

-- A claim that has passed its recount has the slot, committed or not.
abbrev pub reserved : Phase → Option Worker
reserved (inserting w) = some w
reserved (incrementing w s) = some w
reserved (committing w s) = some w
reserved _ = none

abbrev pub reserves : ℕ → Claim → Bool
reserves id c = is_of id (reserved c.phase)

-- The slots of a worker that are given away.
abbrev pub taken : ℕ → System → ℕ
taken id s = count (occupies id) s.db.sessions + count (reserves id) s.claims

-- Rows of one id have the same number of slots.
abbrev pub SameSlots : List Worker → ℕ → ℕ → Type 0
SameSlots ws id slots = All (λ w. w.id ≡ id → w.max_slots ≡ slots) ws

-- What a claim has copied from a row still agrees with the row.
abbrev pub AgreesWith : Option Worker → ℕ → ℕ → Type 0
AgreesWith none id slots = Unit
AgreesWith (some w) id slots = id ≡ w.id → slots ≡ w.max_slots

abbrev pub Agrees : Claim → ℕ → ℕ → Type 0
Agrees c = AgreesWith (held c.phase)

-- The uncommitted writes are those of the statements that have run.
abbrev pub HasWrites : Phase → List Write → Type 0
HasWrites (incrementing w s) ws = (s.worker_id ≡ w.id) × (ws ≡ insert_session s ∷ [])
HasWrites (committing w s) ws =
    (s.worker_id ≡ w.id) × (ws ≡ insert_session s ∷ increment_lifetime w.id ∷ [])
HasWrites _ ws = ws ≡ []

pub record Inv (s : System) : Type 0 where
  pub bounded : All (λ w. taken w.id s ≤ w.max_slots) s.db.workers
  pub alone : (id : ℕ) → count (holds id) s.claims ≤ 1
  pub same_slots : All (λ w. SameSlots s.db.workers w.id w.max_slots) s.db.workers
  pub agrees : All (λ c. All (λ w. Agrees c w.id w.max_slots) s.db.workers) s.claims
  pub has_writes : All (λ c. HasWrites c.phase c.writes) s.claims

-- What holds of the id and the slots of every row before holds of every row after.
abbrev pub Keeps : List Worker → List Worker → Type 1
Keeps ws vs =
    (P : ℕ → ℕ → Type 0) → All (λ w. P w.id w.max_slots) ws → All (λ w. P w.id w.max_slots) vs

pub SameSlots-Keeps :
    (ws vs : List Worker)
    → Keeps ws vs
    → All (λ w. SameSlots ws w.id w.max_slots) ws
    → All (λ w. SameSlots vs w.id w.max_slots) vs
SameSlots-Keeps ws vs k h = k (SameSlots vs) (
    All-mono (λ w. SameSlots ws w.id w.max_slots) (λ w. SameSlots vs w.id w.max_slots) ws
      (λ w. k (λ id slots. id ≡ w.id → slots ≡ w.max_slots)) h)

-- The statements on workers and the commits change the rows so, and take no slot.
pub Inv-Keeps :
    (s : System) (db : Database)
    → Keeps s.db.workers db.workers
    → ((id : ℕ) → count (occupies id) db.sessions ≤ count (occupies id) s.db.sessions)
    → Inv s
    → Inv (record s { db = db })
Inv-Keeps s db k fewer v = record {
  bounded =
      All-mono (λ w. taken w.id s ≤ w.max_slots)
        (λ w. taken w.id (record s { db = db }) ≤ w.max_slots) db.workers
        (λ w h. omega (arith, fewer w.id)) (k (λ id slots. taken id s ≤ slots) v.bounded);
  alone = v.alone;
  same_slots = SameSlots-Keeps s.db.workers db.workers k v.same_slots;
  agrees =
      All-mono (λ c. All (λ w. Agrees c w.id w.max_slots) s.db.workers)
        (λ c. All (λ w. Agrees c w.id w.max_slots) db.workers) s.claims (λ c. k (Agrees c))
        v.agrees;
  has_writes = v.has_writes;
}
