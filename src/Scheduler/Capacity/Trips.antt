-- ===== src/Scheduler/Capacity/Trips.antt =====
-- A round trip of a claim keeps the invariant.
use playwright_distributed.Db.Workers.{occupies}
use playwright_distributed.Base.{
  ℕ, ◌+◌, ◌≤◌, ◌<◌, ◌≡◌, ap, inl, inr, true, false, none, some, [], ◌∷◌, ◌++◌, arith, ◌==◌, bit,
  Bool-cases, get_elem?, set, count, All, count-append, count-set, All-set, All-mono, All-of,
  count-zero-any, All-zip, count-lt,
}
use playwright_distributed.Db.Models.{Session, Worker, Database}
use playwright_distributed.Scheduler.Claim.{Phase, beginning, Claim, held, holds}
use playwright_distributed.Scheduler.System.{System, locked}
use playwright_distributed.Scheduler.Capacity.Defs.{
  reserved, reserves, taken, Agrees, HasWrites, Inv, Keeps, SameSlots-Keeps,
}

-- What one claim may do without a look at the others: it takes no slot and no lock that it had not.
pub record IsQuiet (s : System) (c c' : Claim) : Type 0 where
  pub no_slot : (id : ℕ) → bit (reserves id c') ≤ bit (reserves id c)
  pub no_lock : (id : ℕ) → bit (holds id c') ≤ bit (holds id c)
  pub agrees : All (λ w. Agrees c' w.id w.max_slots) s.db.workers
  pub has_writes : HasWrites c'.phase c'.writes

-- A slot is reserved under the row lock only.
pub reserves-holds : (id : ℕ) (c : Claim) → bit (reserves id c) ≤ bit (holds id c)
reserves-holds id c = go c.phase
  where
    go :
        (p : Phase)
        → bit (elim (reserved p) [ none ↦ false | some w ↦ w.id == id ])
          ≤ bit (elim (held p) [ none ↦ false | some w ↦ w.id == id ])
    go beginning = omega arith
    go _ = omega arith

module _ (s : System) (i : ℕ) (c c' : Claim) (at : get_elem? s.claims i ≡ some c) where
  abbrev after : System
  after = record s { claims = set s.claims i c' }

  pub Inv-quiet : IsQuiet s c c' → Inv s → Inv after
  Inv-quiet q v = record {
    bounded =
        All-mono (λ w. taken w.id s ≤ w.max_slots) (λ w. taken w.id after ≤ w.max_slots)
          s.db.workers
          (λ w h. omega (arith, count-set (reserves w.id) s.claims i c c' at, q.no_slot w.id))
          v.bounded;
    alone = λ id. omega (arith, count-set (holds id) s.claims i c c' at, q.no_lock id, v.alone id);
    same_slots = v.same_slots;
    agrees =
        All-set (λ d. All (λ w. Agrees d w.id w.max_slots) s.db.workers) s.claims i c' q.agrees
          v.agrees;
    has_writes = All-set (λ d. HasWrites d.phase d.writes) s.claims i c' q.has_writes v.has_writes;
  }

  -- A selection locks a row that nobody holds.
  pub Inv-lock :
      (w : Worker)
      → ((id : ℕ) → bit (reserves id c') ≤ bit (reserves id c))
      → ((id : ℕ) → holds id c' ≡ (w.id == id))
      → locked s w.id ≡ false
      → All (λ u. Agrees c' u.id u.max_slots) s.db.workers
      → HasWrites c'.phase c'.writes
      → Inv s
      → Inv after
  Inv-lock w quiet only free ag hw v = record {
    bounded =
        All-mono (λ u. taken u.id s ≤ u.max_slots) (λ u. taken u.id after ≤ u.max_slots)
          s.db.workers
          (λ u h. omega (arith, count-set (reserves u.id) s.claims i c c' at, quiet u.id))
          v.bounded;
    alone = λ id. elim (Bool-cases (w.id == id)) [
      | inl e ↦ ground (
        arith,
        count-set (holds id) s.claims i c c' at,
        only id,
        count-zero-any (holds w.id) s.claims free,
      )
      | inr e ↦ ground (arith, count-set (holds id) s.claims i c c' at, only id, v.alone id)
    ];
    same_slots = v.same_slots;
    agrees =
        All-set (λ d. All (λ u. Agrees d u.id u.max_slots) s.db.workers) s.claims i c' ag v.agrees;
    has_writes = All-set (λ d. HasWrites d.phase d.writes) s.claims i c' hw v.has_writes;
  }

  -- A claim that holds a row and has not passed its recount is the only one to hold it.
  reserves-alone :
      (id : ℕ)
      → holds id c ≡ true
      → reserves id c ≡ false
      → count (holds id) s.claims ≤ 1
      → count (reserves id) s.claims ≡ 0
  reserves-alone id h r one =
      omega (arith, count-lt (reserves id) (holds id) s.claims i c at r h (reserves-holds id))

  -- A recount that finds a free slot takes it.
  pub Inv-reserve :
      (w : Worker)
      → ((id : ℕ) → holds id c ≡ (w.id == id))
      → ((id : ℕ) → holds id c' ≡ (w.id == id))
      → ((id : ℕ) → reserves id c ≡ false)
      → ((id : ℕ) → reserves id c' ≡ (w.id == id))
      → count (occupies w.id) s.db.sessions < w.max_slots
      → All (λ u. u.id ≡ w.id → u.max_slots ≡ w.max_slots) s.db.workers
      → All (λ u. Agrees c' u.id u.max_slots) s.db.workers
      → HasWrites c'.phase c'.writes
      → Inv s
      → Inv after
  Inv-reserve w held_before held_after none_before one_after free same ag hw v = record {
    bounded =
        All-zip (λ u. taken u.id s ≤ u.max_slots) (λ u. u.id ≡ w.id → u.max_slots ≡ w.max_slots)
          (λ u. taken u.id after ≤ u.max_slots) s.db.workers
          (λ u h k. elim (Bool-cases (w.id == u.id)) [
            | inl e ↦ ground (
              arith,
              count-set (reserves u.id) s.claims i c c' at,
              none_before u.id,
              one_after u.id,
              reserves-alone u.id,
              held_before u.id,
              v.alone u.id,
              k,
            )
            | inr e ↦ ground (
              arith,
              count-set (reserves u.id) s.claims i c c' at,
              none_before u.id,
              one_after u.id,
            )
          ])
          v.bounded same;
    alone = λ id. omega (
      arith,
      count-set (holds id) s.claims i c c' at,
      ap bit (held_before id),
      ap bit (held_after id),
      v.alone id,
    );
    same_slots = v.same_slots;
    agrees =
        All-set (λ d. All (λ u. Agrees d u.id u.max_slots) s.db.workers) s.claims i c' ag v.agrees;
    has_writes = All-set (λ d. HasWrites d.phase d.writes) s.claims i c' hw v.has_writes;
  }

  -- A commit turns the claim's reserved slot into a session that occupies it.
  pub Inv-commit :
      (db : Database) (t : Session)
      → Keeps s.db.workers db.workers
      → db.sessions ≡ s.db.sessions ++ (t ∷ [])
      → ((id : ℕ) → bit (occupies id t) + bit (reserves id c') ≤ bit (reserves id c))
      → ((id : ℕ) → bit (holds id c') ≤ bit (holds id c))
      → ((id slots : ℕ) → Agrees c' id slots)
      → HasWrites c'.phase c'.writes
      → Inv s
      → Inv (record s { db = db; claims = set s.claims i c' })
  Inv-commit db t k rows slot lock ag hw v = record {
    bounded =
        k (λ id slots. taken id last ≤ slots)
          (All-mono (λ w. taken w.id s ≤ w.max_slots) (λ w. taken w.id last ≤ w.max_slots)
            s.db.workers (λ w h. omega (arith, fewer w.id)) v.bounded);
    alone = λ id. omega (arith, count-set (holds id) s.claims i c c' at, lock id, v.alone id);
    same_slots = SameSlots-Keeps s.db.workers db.workers k v.same_slots;
    agrees =
        All-set (λ d. All (λ w. Agrees d w.id w.max_slots) db.workers) s.claims i c'
          (k (Agrees c')
            (All-of (λ w. Agrees c' w.id w.max_slots) s.db.workers (λ w. ag w.id w.max_slots)))
          (All-mono (λ d. All (λ w. Agrees d w.id w.max_slots) s.db.workers)
            (λ d. All (λ w. Agrees d w.id w.max_slots) db.workers) s.claims (λ d. k (Agrees d))
            v.agrees);
    has_writes = All-set (λ d. HasWrites d.phase d.writes) s.claims i c' hw v.has_writes;
  }
    where
      last : System
      last = record s { db = db; claims = set s.claims i c' }

      fewer : (id : ℕ) → taken id last ≤ taken id s
      fewer id = omega (
        arith,
        count-set (reserves id) s.claims i c c' at,
        slot id,
        ap (count (occupies id)) rows,
        count-append (occupies id) s.db.sessions (t ∷ []),
      )
