-- ===== src/Scheduler/Retry.antt =====
-- claimOnce as a whole, and the loop of Claim around it, in server/internal/scheduler/scheduler.go.
pub mod Trips
pub mod Attempts
pub mod Effects
pub mod Exclusion
pub mod Gives
use playwright_distributed.Base.{
  Fault, unavailable, no_capacity, worker_full, fault, Result, err, ℕ, zero, suc, Bool, true, false,
  Option, none, some, List, [], ◌∷◌, ◌++◌,
}
use playwright_distributed.Scheduler.Claim.{Phase, finished, Claim, new_claim, claim_trip}
use playwright_distributed.Scheduler.Settings.{Options, ClaimRequest, max_claim_attempts}
use playwright_distributed.Db.Models.{Session, Database}
use playwright_distributed.Db.Driver.{Reply}

-- What a round trip meets: the row locks of others, the committed tables, and the reply.
pub record Moment : Type 0 where
  pub locked : ℕ → Bool
  pub db : Database
  pub reply : Reply

-- The next `n` round trips.
unfoldable pub run_trips : Options → ℕ → (ℕ → Moment) → Claim → Claim
run_trips o zero at c = c
run_trips o (suc n) at c =
    run_trips o n (λ i. at (suc i)) (claim_trip o (at 0).locked (at 0).reply (at 0).db c).1

-- Begin, two moments of the select, the recount, the insert, the increment and the commit.
abbrev pub claim_trips : ℕ
claim_trips = 7

-- The result of a claim; one that had trips left would count as unavailable.
abbrev pub result_of : Phase → Result Session
result_of (finished r) = r
result_of _ = err (fault unavailable)

-- What the loop makes of the result of an attempt.
pub data Verdict : Type 0 where
  settled : Result Session → Verdict
  exclude : ℕ → Verdict
  wait : Verdict

abbrev pub verdict : Result Session → Verdict
verdict (err (worker_full id)) = exclude id
verdict (err no_capacity) = wait
verdict r = settled r

abbrev pub is_zero : ℕ → Bool
is_zero zero = true
is_zero (suc n) = false

-- The loop over an attempt `once` and the ends of the waits for a retry: none is a wait that elapses.
module _ (once : ℕ → List ℕ → Result Session) (waits : ℕ → Option Fault) where
  -- `left` attempts are left, and the next one has number `attempt`.
  unfoldable pub claim_from : ℕ → ℕ → List ℕ → Result Session
  claim_from zero attempt excluded = err no_capacity
  claim_from (suc left) attempt excluded = elim (verdict (once attempt excluded)) [
    | settled r ↦ r
    | exclude id ↦ claim_from left (suc attempt) (excluded ++ (id ∷ []))
    | wait ↦ elim (is_zero left) [
      | true ↦ err no_capacity
      | false ↦ elim (waits attempt) [
        | some f ↦ err (fault f)
        | none ↦ claim_from left (suc attempt) excluded
      ]
    ]
  ]

  unfoldable pub claim : Result Session
  unfolding claim_from
  claim = claim_from max_claim_attempts 0 []

-- What the attempts of one call of Claim meet, by attempt and round trip.
pub record Env : Type 0 where
  pub moments : ℕ → ℕ → Moment
  pub session_ids : ℕ → ℕ
  pub times : ℕ → ℕ
  pub waits : ℕ → Option Fault

-- The claim of an attempt after its round trips.
abbrev pub claimed : Options → ClaimRequest → Env → ℕ → List ℕ → Claim
claimed o request env attempt excluded =
    run_trips o claim_trips (env.moments attempt)
      (new_claim request excluded (env.session_ids attempt) (env.times attempt))

unfoldable pub claim_once : Options → ClaimRequest → Env → ℕ → List ℕ → Result Session
claim_once o request env attempt excluded = result_of (claimed o request env attempt excluded).phase
