-- ===== src/Rescuer/Fates.antt =====
-- What a sweep makes of every row, told without the conditions of its statements.
use playwright_distributed.Base.{
  ℕ, ◌+◌, ◌<◌, ◌≡◌, refl, ◌⊎◌, inl, inr, Bool, true, false, Option, none, some, List, [], ◌∷◌,
  arith, if◌then◌else◌, Bool-cases, any, All, All-mono, any-false, any_none, delete, update,
}
use playwright_distributed.Db.Models.{
  SessionStatus, pending, running, expired, WorkerStatus, available, draining, stalled,
  shutting_down, Session, Worker, Database, is_active, is_available,
}
use playwright_distributed.Db.Sessions.{set_status, before, is_dead}
use playwright_distributed.Rescuer.{Options, Times, sweep}
use playwright_distributed.Db.Workers.{occupies, is_removable, is_dead_worker, is_silent}
use playwright_distributed.Rescuer.Sweep.{quiet, swept, expired_db, swept-tables}

-- A session that holds a slot.
abbrev pub IsTaken : Session → Type 0
IsTaken s = (s.status ≡ pending) ⊎ (s.status ≡ running)

-- A session in a slot that sent no heartbeat for longer than `ttl`, or whose expiry has passed.
abbrev pub IsLost : ℕ → ℕ → Session → Type 0
IsLost now ttl s =
    IsTaken s × ((s.last_heartbeat + ttl < now) ⊎ ((t : ℕ) × ((s.expires_at ≡ some t) × (t < now))))

-- The row of a session after a sweep.
abbrev pub SessionFate : ℕ → ℕ → Session → Session → Type 0
SessionFate now ttl s t =
    (IsLost now ttl s × (t ≡ record s { status = expired })) ⊎ (¬ IsLost now ttl s × (t ≡ s))

abbrev pub SessionFates : ℕ → ℕ → List Session → List Session → Type 0
SessionFates now ttl [] [] = Unit
SessionFates now ttl (s ∷ ss) (t ∷ ts) = SessionFate now ttl s t × SessionFates now ttl ss ts
SessionFates now ttl _ _ = ⊥

-- An available worker that sent no heartbeat for longer than `ttl`.
abbrev pub HasGoneSilent : ℕ → ℕ → Worker → Type 0
HasGoneSilent now ttl w = (w.status ≡ available) × (w.last_heartbeat + ttl < now)

-- The row of a worker before the sweep deletes any.
abbrev pub Stalls : ℕ → ℕ → Worker → Worker → Type 0
Stalls now ttl w v =
    (HasGoneSilent now ttl w × (v ≡ record w { status = stalled }))
    ⊎ (¬ HasGoneSilent now ttl w × (v ≡ w))

-- How long a worker that is not available may be silent.
abbrev pub HasRunOut : ℕ → ℕ → ℕ → Worker → Type 0
HasRunOut now ttl stalled_ttl v =
    ((v.status ≡ shutting_down) × (v.last_heartbeat + ttl < now))
    ⊎ (((v.status ≡ stalled) ⊎ (v.status ≡ draining)) × (v.last_heartbeat + stalled_ttl < now))

-- No session holds a slot of the worker.
abbrev pub HasNoSession : List Session → Worker → Type 0
HasNoSession ss v = All (λ s. ¬ ((s.worker_id ≡ v.id) × IsTaken s)) ss

abbrev pub IsGone : ℕ → ℕ → ℕ → List Session → Worker → Type 0
IsGone now ttl stalled_ttl ss v = HasRunOut now ttl stalled_ttl v × HasNoSession ss v

-- The rows of the workers before and after a sweep with the sessions `ss` after it.
pub data WorkerFates (o : Options) (t : Times) (ss : List Session)
    : List Worker → List Worker → Type 0 where
  all_told : WorkerFates o t ss [] []
  stays :
      (w v : Worker) (ws vs : List Worker)
      → Stalls t.at_stall o.worker_ttl w v
      → ¬ IsGone t.at_delete o.worker_ttl o.stalled_worker_ttl ss v
      → WorkerFates o t ss ws vs
      → WorkerFates o t ss (w ∷ ws) (v ∷ vs)
  goes :
      (w v : Worker) (ws vs : List Worker)
      → Stalls t.at_stall o.worker_ttl w v
      → IsGone t.at_delete o.worker_ttl o.stalled_worker_ttl ss v
      → WorkerFates o t ss ws vs
      → WorkerFates o t ss (w ∷ ws) vs

is_active-taken : (x : SessionStatus) → is_active x ≡ true → (x ≡ pending) ⊎ (x ≡ running)
is_active-taken pending h = inl refl
is_active-taken running h = inr refl
is_active-taken _ h = cc

taken-is_active : (x : SessionStatus) → (x ≡ pending) ⊎ (x ≡ running) → is_active x ≡ true
taken-is_active x (inl e) = rw e refl
taken-is_active x (inr e) = rw e refl

is_available-available : (x : WorkerStatus) → is_available x ≡ true → x ≡ available
is_available-available available h = refl
is_available-available _ h = cc

before-some : (x : Option ℕ) (now : ℕ) → before x now ≡ true → (t : ℕ) × ((x ≡ some t) × (t < now))
before-some none now h = cc
before-some (some t) now h = (t, (refl, ground arith))

is_dead-IsLost : (now ttl : ℕ) (s : Session) → is_dead now ttl s ≡ true → IsLost now ttl s
is_dead-IsLost now ttl s h = elim (Bool-cases (before s.expires_at now)) [
  | inl e ↦ (is_active-taken s.status (ground arith), inr (before-some s.expires_at now e))
  | inr e ↦ (is_active-taken s.status (ground arith), inl (ground arith))
]

IsLost-is_dead : (now ttl : ℕ) (s : Session) → IsLost now ttl s → is_dead now ttl s ≡ true
IsLost-is_dead now ttl s (taken, inl late) = let a = taken-is_active s.status taken in ground arith
IsLost-is_dead now ttl s (taken, inr (t, (e, late))) =
    let a = taken-is_active s.status taken in
    let b : before s.expires_at now ≡ true = rw e (ground arith) in ground arith

update-SessionFates :
    (now ttl : ℕ) (ss : List Session)
    → SessionFates now ttl ss (update (is_dead now ttl) (set_status expired) ss)
update-SessionFates now ttl [] = tt
update-SessionFates now ttl (s ∷ ss) = (
  elim (Bool-cases (is_dead now ttl s)) [
    | inl e ↦ rw e (inl (is_dead-IsLost now ttl s e, refl))
    | inr e ↦ rw e (inr ((λ lost. absurd (let f = IsLost-is_dead now ttl s lost in cc)), refl))
  ],
  update-SessionFates now ttl ss,
)

is_silent-HasGoneSilent :
    (now ttl : ℕ) (w : Worker) → is_silent now ttl w ≡ true → HasGoneSilent now ttl w
is_silent-HasGoneSilent now ttl w h = (is_available-available w.status (ground arith), ground arith)

HasGoneSilent-is_silent :
    (now ttl : ℕ) (w : Worker) → HasGoneSilent now ttl w → is_silent now ttl w ≡ true
HasGoneSilent-is_silent now ttl w (e, late) =
    let a : is_available w.status ≡ true = rw e refl in ground arith

is_removable-HasRunOut :
    (now ttl stalled_ttl : ℕ) (v : Worker) (status : WorkerStatus)
    → v.status ≡ status
    → is_removable now ttl stalled_ttl status v.last_heartbeat ≡ true
    → HasRunOut now ttl stalled_ttl v
is_removable-HasRunOut now ttl stalled_ttl v shutting_down e h = inl (e, ground arith)
is_removable-HasRunOut now ttl stalled_ttl v stalled e h = inr (inl e, ground arith)
is_removable-HasRunOut now ttl stalled_ttl v WorkerStatus.draining e h = inr (inr e, ground arith)
is_removable-HasRunOut now ttl stalled_ttl v available e h = cc

HasRunOut-is_removable :
    (now ttl stalled_ttl : ℕ) (v : Worker)
    → HasRunOut now ttl stalled_ttl v
    → is_removable now ttl stalled_ttl v.status v.last_heartbeat ≡ true
HasRunOut-is_removable now ttl stalled_ttl v (inl (e, late)) = rw e (ground arith)
HasRunOut-is_removable now ttl stalled_ttl v (inr (inl e, late)) = rw e (ground arith)
HasRunOut-is_removable now ttl stalled_ttl v (inr (inr e, late)) = rw e (ground arith)

occupied-HasNoSession :
    (ss : List Session) (v : Worker) → any (occupies v.id) ss ≡ false → HasNoSession ss v
occupied-HasNoSession ss v h =
    All-mono (λ s. occupies v.id s ≡ false) (λ s. ¬ ((s.worker_id ≡ v.id) × IsTaken s)) ss
      (λ s e (same, taken). absurd (let a = taken-is_active s.status taken in ground arith))
      (any-false (occupies v.id) ss h)

HasNoSession-occupied :
    (ss : List Session) (v : Worker) → HasNoSession ss v → any (occupies v.id) ss ≡ false
HasNoSession-occupied ss v h = any_none (occupies v.id) ss (
    All-mono (λ s. ¬ ((s.worker_id ≡ v.id) × IsTaken s)) (λ s. occupies v.id s ≡ false) ss
      (λ s none_of. elim (Bool-cases (occupies v.id s)) [
        | inl e ↦ absurd (none_of (ground arith, is_active-taken s.status (ground arith)))
        | inr e ↦ e
      ])
      h)

module _ (now ttl stalled_ttl : ℕ) (db : Database) (v : Worker) where
  is_dead_worker-IsGone :
      is_dead_worker now ttl stalled_ttl db v ≡ true → IsGone now ttl stalled_ttl db.sessions v
  is_dead_worker-IsGone h = (
    is_removable-HasRunOut now ttl stalled_ttl v v.status refl (ground arith),
    occupied-HasNoSession db.sessions v (ground arith),
  )

  IsGone-is_dead_worker :
      IsGone now ttl stalled_ttl db.sessions v → is_dead_worker now ttl stalled_ttl db v ≡ true
  IsGone-is_dead_worker (out, free) =
      let a = HasRunOut-is_removable now ttl stalled_ttl v out in
      let b = HasNoSession-occupied db.sessions v free in ground arith

stalled-Stalls :
    (now ttl : ℕ) (w : Worker)
    → Stalls now ttl w (if is_silent now ttl w then record w { status = stalled } else w)
stalled-Stalls now ttl w = elim (Bool-cases (is_silent now ttl w)) [
  | inl e ↦ rw e (inl (is_silent-HasGoneSilent now ttl w e, refl))
  | inr e ↦
      rw e (inr ((λ gone. absurd (let f = HasGoneSilent-is_silent now ttl w gone in cc)), refl))
]

module _ (o : Options) (t : Times) (d : Database) where
  abbrev is_over : Worker → Bool
  is_over = is_dead_worker t.at_delete o.worker_ttl o.stalled_worker_ttl d

  kept-WorkerFates :
      (ws : List Worker)
      → WorkerFates o t d.sessions ws (
          delete is_over
            (update (is_silent t.at_stall o.worker_ttl) (λ w. record w { status = stalled }) ws))
  kept-WorkerFates [] = all_told
  kept-WorkerFates (w ∷ ws) =
      let v = if is_silent t.at_stall o.worker_ttl w then record w { status = stalled } else w in
      let s = stalled-Stalls t.at_stall o.worker_ttl w in
      elim (Bool-cases (is_over v)) [
        | inl e ↦ rw e (
            goes w v ws _ s
              (is_dead_worker-IsGone t.at_delete o.worker_ttl o.stalled_worker_ttl d v e)
              (kept-WorkerFates ws))
        | inr e ↦ rw e (
            stays w v ws _ s
              (λ gone. absurd (
                let f =
                  IsGone-is_dead_worker t.at_delete o.worker_ttl o.stalled_worker_ttl d v gone in
                cc))
              (kept-WorkerFates ws))
      ]

-- A sweep whose round trips all succeed ends without an error. A session row is expired exactly if
-- it was pending or running and, when the second transaction began, had sent no heartbeat for
-- longer than the session TTL or its expiry had passed; any other session row is as it was. An
-- available worker that had sent no heartbeat for longer than the worker TTL when the first began
-- is stalled. After that, exactly those workers are deleted that no pending or running session is
-- left of and that, when the third began, had been silent for longer than the worker TTL if they
-- were shutting down, or than the TTL of stalled workers if they were stalled or draining.
pub sweep_fates :
    (o : Options) (t : Times) (db : Database)
    → ((sweep o t (quiet db)).1 ≡ none)
      × (SessionFates t.at_expire o.session_ttl db.sessions (swept o t db).sessions
          × WorkerFates o t (swept o t db).sessions db.workers (swept o t db).workers)
sweep_fates o t db = rw (swept-tables o t db).0 (
    rw (swept-tables o t db).1.0 (
      (swept-tables o t db).1.1,
      (
        update-SessionFates t.at_expire o.session_ttl db.sessions,
        kept-WorkerFates o t (expired_db o t db) db.workers,
      ),
    ))
