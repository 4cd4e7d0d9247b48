-- ===== src/Scheduler/Capacity/Answers.antt =====
-- An answer to a claim, or a failure, keeps the invariant.

use playwright_distributed.Db.Workers.{
  occupies, count_active_sessions_by_worker, increment_worker_lifetime_sessions,
  select_claimable_worker,
}
use playwright_distributed.Scheduler.Capacity.Workers.{increment-Keeps, increment-sessions}
use playwright_distributed.Base.{
  Fault, no_capacity, worker_full, fault, uncertain_commit, Result, ok, err, Result-cases, ℕ, ◌+◌,
  ◌≤◌, ◌≡◌, refl, sym, ap, subst, inl, inr, some, List, [], ◌∷◌, ◌++◌, arith, leb, bit, Bool-cases,
  Option-cases, get_elem?, set, All, All-get, All-mono, All-of,
}
use playwright_distributed.Db.Models.{Session, Worker, Database}
use playwright_distributed.Scheduler.Settings.{Options}
use playwright_distributed.Scheduler.Claim.{
  Phase, beginning, selecting, locking, recounting, inserting, incrementing, committing, finished,
  Write, insert_session, increment_lifetime, Claim, apply_writes, finish, claim_params,
  select_params, on_answer, on_fault, committed, held, is_of,
}
use playwright_distributed.Scheduler.System.{System, locked, trip}
use playwright_distributed.Db.Sessions.{InsertClaimedSessionParams, insert_claimed_session}
use playwright_distributed.Scheduler.Capacity.Defs.{
  reserved, SameSlots, AgreesWith, Agrees, HasWrites, Inv,
}
use playwright_distributed.Scheduler.Capacity.Trips.{
  IsQuiet, Inv-quiet, Inv-lock, Inv-reserve, Inv-commit,
}
use playwright_distributed.Db.Workers.Selection.{
  select_claimable_worker-unlocked, select_claimable_worker-All,
}
use playwright_distributed.Db.Driver.{Reply, delivered, refused, lost}

insert_claimed_session-worker_id :
    (now : ℕ) (p : InsertClaimedSessionParams) (db : Database) (t : Session)
    → (insert_claimed_session now p db).0 ≡ ok t
    → t.worker_id ≡ p.worker_id
unfolding insert_claimed_session
insert_claimed_session-worker_id now p db t e = ground arith

module _ (o : Options) (s : System) (i : ℕ) (c : Claim) (at : get_elem? s.claims i ≡ some c)
    (v : Inv s) where
  -- A claim that ends without a commit.
  finish-IsQuiet : (r : Result Session) → IsQuiet s c (finish r c)
  finish-IsQuiet r = record {
    no_slot = λ id. omega arith;
    no_lock = λ id. omega arith;
    agrees = All-of (λ w. Unit {0}) s.db.workers (λ w. tt);
    has_writes = refl;
  }

  agrees_of :
      (p : Phase) → c.phase ≡ p → All (λ w. AgreesWith (held p) w.id w.max_slots) s.db.workers
  agrees_of p e =
      subst (λ r. All (λ w. AgreesWith (held r) w.id w.max_slots) s.db.workers) e
        (All-get (λ d. All (λ w. Agrees d w.id w.max_slots) s.db.workers) s.claims i c at v.agrees)

  -- A claim that goes on to a phase with no more slots and locks.
  move-IsQuiet :
      (p q : Phase) (ws : List Write)
      → c.phase ≡ p
      → ((id : ℕ) → bit (is_of id (reserved q)) ≤ bit (is_of id (reserved p)))
      → ((id : ℕ) → bit (is_of id (held q)) ≤ bit (is_of id (held p)))
      → ((id slots : ℕ) → AgreesWith (held p) id slots → AgreesWith (held q) id slots)
      → HasWrites q ws
      → IsQuiet s c (record c { phase = q; writes = ws })
  move-IsQuiet p q ws e slot lock ag hw = record {
    no_slot = λ id.
        subst (λ r. bit (is_of id (reserved q)) ≤ bit (is_of id (reserved r))) (sym e) (slot id);
    no_lock =
        λ id. subst (λ r. bit (is_of id (held q)) ≤ bit (is_of id (held r))) (sym e) (lock id);
    agrees =
        All-mono (λ w. AgreesWith (held p) w.id w.max_slots)
          (λ w. AgreesWith (held q) w.id w.max_slots) s.db.workers (λ w. ag w.id w.max_slots)
          (subst (λ r. All (λ w. AgreesWith (held r) w.id w.max_slots) s.db.workers) e
            (All-get (λ d. All (λ w. Agrees d w.id w.max_slots) s.db.workers) s.claims i c at
              v.agrees));
    has_writes = hw;
  }

  writes_of : (p : Phase) → c.phase ≡ p → HasWrites p c.writes
  writes_of p e =
      subst (λ r. HasWrites r c.writes) e
        (All-get (λ d. HasWrites d.phase d.writes) s.claims i c at v.has_writes)

  quiet : (c' : Claim) → IsQuiet s c c' → Inv (record s { claims = set s.claims i c' })
  quiet c' q = Inv-quiet s i c c' at q v

  ended : (r : Result Session) → Inv (record s { claims = set s.claims i (finish r c) })
  ended r = quiet (finish r c) (finish-IsQuiet r)

  stays-IsQuiet : IsQuiet s c c
  stays-IsQuiet = record {
    no_slot = λ id. omega arith;
    no_lock = λ id. omega arith;
    agrees =
        All-get (λ d. All (λ w. Agrees d w.id w.max_slots) s.db.workers) s.claims i c at v.agrees;
    has_writes = All-get (λ d. HasWrites d.phase d.writes) s.claims i c at v.has_writes;
  }

  fault-Inv : (p : Phase) (f : Fault) → Inv (record s { claims = set s.claims i (on_fault p f c) })
  fault-Inv (committing w t) f = ended (err (uncertain_commit f))
  fault-Inv (finished r) f = quiet c stays-IsQuiet
  fault-Inv _ f = ended (err (fault f))

  locking-Inv :
      (snapshot : Database)
      → c.phase ≡ locking snapshot
      → Inv
          (record s { claims = set s.claims i (on_answer o (locked s) (locking snapshot) s.db c) })
  unfolding on_answer
  locking-Inv snapshot e =
      elim (Option-cases
        (select_claimable_worker (locked s) c.now (select_params o c) snapshot s.db)) [
          | inl none_left ↦ rw (none_left, on_answer) (ended (err no_capacity))
          | inr (w, found) ↦
              rw (found, on_answer)
                (Inv-lock s i c (record c { phase = recounting w }) at w (λ id. omega arith)
                  (λ id. refl)
                  (select_claimable_worker-unlocked (locked s) c.now (select_params o c) snapshot
                    s.db w found)
                  (select_claimable_worker-All (locked s) c.now (select_params o c) snapshot s.db
                    (λ w. SameSlots s.db.workers w.id w.max_slots) w found v.same_slots)
                  (writes_of (locking snapshot) e) v)
        ]

  recounting-Inv :
      (w : Worker)
      → c.phase ≡ recounting w
      → Inv (record s { claims = set s.claims i (on_answer o (locked s) (recounting w) s.db c) })
  unfolding on_answer
  recounting-Inv w e =
      elim (Bool-cases (leb w.max_slots (count_active_sessions_by_worker w.id s.db))) [
        | inl full ↦ rw (full, on_answer) (ended (err (worker_full w.id)))
        | inr free ↦
            rw (free, on_answer)
              (Inv-reserve s i c (record c { phase = inserting w }) at w
                (λ id. ap (λ r. is_of id (held r)) e) (λ id. refl)
                (λ id. ap (λ r. is_of id (reserved r)) e) (λ id. refl)
                (unfold count_active_sessions_by_worker in ground arith)
                (agrees_of (recounting w) e) (agrees_of (recounting w) e)
                (writes_of (recounting w) e) v)
      ]

  inserting-Inv :
      (w : Worker)
      → c.phase ≡ inserting w
      → Inv (record s { claims = set s.claims i (on_answer o (locked s) (inserting w) s.db c) })
  unfolding on_answer
  inserting-Inv w e =
      elim (Result-cases (insert_claimed_session c.now (claim_params o c w) s.db).0) [
        | inl (t, done) ↦
            rw (done, on_answer)
              (quiet _ (
                move-IsQuiet (inserting w) (incrementing w t) (insert_session t ∷ []) e
                  (λ id. omega arith) (λ id. omega arith) (λ id slots h. h)
                  (insert_claimed_session-worker_id c.now (claim_params o c w) s.db t done, refl)))
        | inr (x, bad) ↦ rw (bad, on_answer) (ended (err x))
      ]

  incrementing-Inv :
      (w : Worker) (t : Session) (db : Database)
      → c.phase ≡ incrementing w t
      → Inv (record s { claims = set s.claims i (on_answer o (locked s) (incrementing w t) db c) })
  unfolding on_answer
  incrementing-Inv w t db e = elim (Result-cases (increment_worker_lifetime_sessions w.id db).0) [
    | inl (w', done) ↦
        rw (done, on_answer)
          (quiet _ (
            move-IsQuiet (incrementing w t) (committing w t)
              (insert_session t ∷ increment_lifetime w.id ∷ []) e (λ id. omega arith)
              (λ id. omega arith) (λ id slots h. h) ((writes_of (incrementing w t) e).0, refl)))
    | inr (x, bad) ↦ rw (bad, on_answer) (ended (err x))
  ]

  commit-Inv :
      (w : Worker) (t : Session) (r : Result Session)
      → c.phase ≡ committing w t
      → Inv (record { db = apply_writes c.writes s.db; claims = set s.claims i (finish r c) })
  unfolding apply_writes
  commit-Inv w t r e =
      let (same, ws) = writes_of (committing w t) e in
      rw ws (
        Inv-commit s i c (finish r c) at
          (apply_writes (insert_session t ∷ increment_lifetime w.id ∷ []) s.db) t
          (increment-Keeps w.id (record s.db { sessions = s.db.sessions ++ (t ∷ []) }))
          (increment-sessions w.id (record s.db { sessions = s.db.sessions ++ (t ∷ []) }))
          (λ id.
            subst (λ p. bit (occupies id t) + 0 ≤ bit (is_of id (reserved p))) (sym e)
              (ground arith))
          (λ id. omega arith) (λ id slots. tt) refl v)

  -- With nothing written yet, a statement sees the committed tables.
  unwritten :
      (p : Phase)
      → c.writes ≡ []
      → Inv (record { db = s.db; claims = set s.claims i (on_answer o (locked s) p s.db c) })
      → Inv (record {
        db = s.db;
        claims = set s.claims i (on_answer o (locked s) p (apply_writes c.writes s.db) c);
      })
  unfolding apply_writes
  unwritten p e =
      subst
        (λ ws. Inv (record {
          db = s.db;
          claims = set s.claims i (on_answer o (locked s) p (apply_writes ws s.db) c);
        }))
        (sym e)

  answer-Inv :
      (p : Phase)
      → c.phase ≡ p
      → Inv (record {
        db = committed p c s.db;
        claims = set s.claims i (on_answer o (locked s) p (apply_writes c.writes s.db) c);
      })
  unfolding on_answer apply_writes
  answer-Inv beginning e = quiet _ (
      move-IsQuiet beginning selecting c.writes e (λ id. omega arith) (λ id. omega arith)
        (λ id slots h. h) (writes_of beginning e))
  answer-Inv selecting e = quiet _ (
      move-IsQuiet selecting (locking (apply_writes c.writes s.db)) c.writes e (λ id. omega arith)
        (λ id. omega arith) (λ id slots h. h) (writes_of selecting e))
  answer-Inv (locking snapshot) e =
      unwritten (locking snapshot) (writes_of (locking snapshot) e) (locking-Inv snapshot e)
  answer-Inv (recounting w) e =
      unwritten (recounting w) (writes_of (recounting w) e) (recounting-Inv w e)
  answer-Inv (inserting w) e =
      unwritten (inserting w) (writes_of (inserting w) e) (inserting-Inv w e)
  answer-Inv (incrementing w t) e = incrementing-Inv w t (apply_writes c.writes s.db) e
  answer-Inv (committing w t) e = commit-Inv w t (ok t) e
  answer-Inv (finished r) e = quiet c stays-IsQuiet

  lost-Inv :
      (p : Phase) (f : Fault)
      → c.phase ≡ p
      → Inv (record { db = committed p c s.db; claims = set s.claims i (on_fault p f c) })
  lost-Inv (committing w t) f e = commit-Inv w t (err (uncertain_commit f)) e
  lost-Inv (finished r) f e = fault-Inv (finished r) f
  lost-Inv p f e = ended (err (fault f))

  pub trip-Inv : (reply : Reply) → Inv (trip o i reply c s)
  unfolding trip
  trip-Inv delivered = answer-Inv c.phase refl
  trip-Inv (refused f) = fault-Inv c.phase f
  trip-Inv (lost f) = lost-Inv c.phase f refl
