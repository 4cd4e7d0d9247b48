-- ===== src/Rescuer.antt =====
-- The rescuer: server/internal/rescuer/rescuer.go. A sweep is three transactions, each at the time
-- when it begins.
pub mod Fates
pub mod Sweep
use playwright_distributed.Base.{
  Error, Result, ok, err, ℕ, Option, none, some, List, [], ◌∷◌, length,
}
use playwright_distributed.Db.Driver.{World, M, ◌>>=◌, ◌>>◌, return, statement, transact}
use playwright_distributed.Db.Workers.{
  delete_dead_workers, notify_capacity_changed, stall_silent_workers,
}
use playwright_distributed.Db.Sessions.{ExpireDeadSessionsRow, expire_dead_sessions}

pub record Options : Type 0 where
  pub worker_ttl : ℕ
  pub session_ttl : ℕ
  pub stalled_worker_ttl : ℕ

pub record Summary : Type 0 where
  pub stalled_workers : ℕ
  pub expired_sessions : ℕ
  pub removed_workers : ℕ

unfoldable pub stall_silent : Options → ℕ → M ℕ
stall_silent o now =
    transact
      (statement (λ db. let (n, db') = stall_silent_workers now o.worker_ttl db in (ok n, db')))

notify_expired : List ExpireDeadSessionsRow → M (Unit {0})
notify_expired [] = return tt
notify_expired (row ∷ rows) = statement (λ db. (ok tt, notify_capacity_changed db))

unfoldable pub expire_dead : Options → ℕ → M (List ExpireDeadSessionsRow)
unfolding notify_expired
expire_dead o now = transact do
  expired_rows ←
      statement
        (λ db. let (rows, db') = expire_dead_sessions now o.session_ttl db in (ok rows, db'))
  notify_expired expired_rows
  return expired_rows

unfoldable pub delete_dead : Options → ℕ → M (List ℕ)
delete_dead o now = transact (
    statement (λ db.
      let (ids, db') = delete_dead_workers now o.worker_ttl o.stalled_worker_ttl db in
      (ok ids, db')))

-- The times at which the three transactions begin.
pub record Times : Type 0 where
  pub at_stall : ℕ
  pub at_expire : ℕ
  pub at_delete : ℕ

abbrev pub nothing : Summary
nothing = record { stalled_workers = 0; expired_sessions = 0; removed_workers = 0 }

deleted : Summary → Result (List ℕ) × World → Summary × Option Error × World
deleted s (err e, w) = (s, some e, w)
deleted s (ok ids, w) = (record s { removed_workers = length ids }, none, w)

expired_then :
    Options
    → Times
    → Summary
    → Result (List ExpireDeadSessionsRow) × World
    → Summary × Option Error × World
unfolding deleted
expired_then o t s (err e, w) = (s, some e, w)
expired_then o t s (ok rows, w) =
    deleted (record s { expired_sessions = length rows }) (delete_dead o t.at_delete w)

stalled_then : Options → Times → Result ℕ × World → Summary × Option Error × World
unfolding expired_then
stalled_then o t (err e, w) = (nothing, some e, w)
stalled_then o t (ok n, w) =
    expired_then o t (record nothing { stalled_workers = n }) (expire_dead o t.at_expire w)

-- The counts so far, and the error that stopped the sweep, if any.
unfoldable pub sweep : Options → Times → World → Summary × Option Error × World
unfolding stalled_then
sweep o t w = stalled_then o t (stall_silent o t.at_stall w)
