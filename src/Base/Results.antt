-- ===== src/Base/Results.antt =====
-- The errors that the Go code tells apart by errors.Is, and results of fallible calls.
use mathlib.Core.Path.{◌≡◌, refl}
use mathlib.Core.Logic.{◌⊎◌, inl, inr}
use Prim.Native.Nat.{ℕ}

-- How a round trip to the database can fail: pgx reports a cancelled or expired context, or
-- another error of the connection or the server.
pub data Fault : Type 0 where
  unavailable canceled deadline_exceeded : Fault

-- `worker_full id` is the pair (&id, ErrNoCapacity) of claimOnce; `uncertain_commit f` wraps both
-- errUncertainCommit and the cause of the failed commit.
pub data Error : Type 0 where
  no_rows no_capacity queue_full wait_timeout draining : Error
  worker_full : ℕ → Error
  fault uncertain_commit : Fault → Error

pub data Result {ℓ} (A : Type ℓ) : Type ℓ where
  ok : A → Result A
  err : Error → Result A

pub Result-cases {ℓ} :
    {A : Type ℓ} (r : Result A) → ((a : A) × (r ≡ ok a)) ⊎ ((e : Error) × (r ≡ err e))
Result-cases (ok a) = inl (a, refl)
Result-cases (err e) = inr (e, refl)
