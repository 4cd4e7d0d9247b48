-- ===== src/Scheduler/Retry/Attempts.antt =====
-- Which attempts Claim makes, and how it ends.
use playwright_distributed.Base.{
  Fault, Error, no_rows, no_capacity, queue_full, wait_timeout, worker_full, fault,
  uncertain_commit, Result, ok, err, Result-cases, ℕ, zero, suc, ◌+◌, ◌<◌, ◌≡◌, refl, ap, ◌∙◌,
  subst, ◌≢◌, ◌⊎◌, inl, inr, Bool, true, false, Option, none, some, List, [], ◌∷◌, ◌++◌, arith,
  ◌==◌, Option-cases,
}
use playwright_distributed.Scheduler.Retry.{settled, verdict, is_zero, claim_from, claim}
use playwright_distributed.Db.Models.{Session}

-- An error that is not for want of capacity.
abbrev IsOther : Error → Type 0
IsOther e = ((id : ℕ) → e ≢ worker_full id) × (e ≢ no_capacity)

abbrev ErrorCases : Error → Type 0
ErrorCases e =
    ((id : ℕ) × (e ≡ worker_full id))
    ⊎ ((e ≡ no_capacity) ⊎ ((verdict (err e) ≡ settled (err e)) × IsOther e))

error_cases : (e : Error) → ErrorCases e
error_cases (worker_full id) = inl (id, refl)
error_cases no_capacity = inr (inl refl)
error_cases no_rows = inr (inr (refl, ((λ id h. cc), λ h. cc)))
error_cases queue_full = inr (inr (refl, ((λ id h. cc), λ h. cc)))
error_cases wait_timeout = inr (inr (refl, ((λ id h. cc), λ h. cc)))
error_cases Error.draining = inr (inr (refl, ((λ id h. cc), λ h. cc)))
error_cases (fault f) = inr (inr (refl, ((λ id h. cc), λ h. cc)))
error_cases (uncertain_commit f) = inr (inr (refl, ((λ id h. cc), λ h. cc)))

last_of : (left j : ℕ) → is_zero left ≡ (j + 1 == j + suc left)
last_of zero j = ground arith
last_of (suc n) j = ground arith

module _ (once : ℕ → List ℕ → Result Session) (waits : ℕ → Option Fault) where
  -- From one attempt with its excluded workers to a later one: each attempt before it found its worker
  -- full, or no worker, and then waited.
  pub data Leads (i : ℕ) (ex : List ℕ) : ℕ → List ℕ → Type 0 where
    stays : Leads i ex i ex
    after_full :
        (j : ℕ) (seen : List ℕ) (id : ℕ)
        → Leads i ex j seen
        → once j seen ≡ err (worker_full id)
        → Leads i ex (suc j) (seen ++ (id ∷ []))
    after_wait :
        (j : ℕ) (seen : List ℕ)
        → Leads i ex j seen
        → once j seen ≡ err no_capacity
        → waits j ≡ none
        → Leads i ex (suc j) seen

  -- The end of the loop at an attempt, when `last` says that no attempt is left after it.
  pub data Ends (j : ℕ) (seen : List ℕ) (last : Bool) : Result Session → Type 0 where
    success : (s : Session) → once j seen ≡ ok s → Ends j seen last (ok s)
    error :
        (e : Error)
        → once j seen ≡ err e
        → ((id : ℕ) → e ≢ worker_full id)
        → e ≢ no_capacity
        → Ends j seen last (err e)
    full :
        (id : ℕ)
        → last ≡ true
        → once j seen ≡ err (worker_full id)
        → Ends j seen last (err no_capacity)
    empty : last ≡ true → once j seen ≡ err no_capacity → Ends j seen last (err no_capacity)
    interrupted :
        (f : Fault)
        → last ≡ false
        → once j seen ≡ err no_capacity
        → waits j ≡ some f
        → Ends j seen last (err (fault f))

  module _ (i0 : ℕ) (ex0 : List ℕ) where
    -- The loop from attempt j on ends at some attempt that it leads to, before `j + left`.
    abbrev pub IsEnded : ℕ → ℕ → Result Session → Type 0
    IsEnded j left r =
        (k : ℕ) × ((seen : List ℕ) × (Leads i0 ex0 k seen
            × ((k < j + left) × Ends k seen (k + 1 == j + left) r)))

    end_at :
        (left j : ℕ) (seen : List ℕ) (r : Result Session)
        → Leads i0 ex0 j seen
        → Ends j seen (is_zero left) r
        → IsEnded j (suc left) r
    end_at left j seen r l e =
        (j, (seen, (l, (omega arith, subst (λ b. Ends j seen b r) (last_of left j) e))))

    IsEnded-later :
        (j left : ℕ) (r : Result Session) → IsEnded (suc j) left r → IsEnded j (suc left) r
    IsEnded-later j left r (k, (seen, (l, (lt, e)))) =
        (k, (seen, (l, (omega arith, subst (λ n. Ends k seen (k + 1 == n) r) (omega arith) e))))

    -- What the loop does with `left` attempts left.
    Continues : ℕ → Type 0
    Continues zero = Unit
    Continues (suc n) =
        (j : ℕ) (seen : List ℕ)
        → Leads i0 ex0 j seen
        → IsEnded j (suc n) (claim_from once waits (suc n) j seen)

    full_end :
        (left : ℕ)
        → Continues left
        → (j : ℕ) (seen : List ℕ) (id : ℕ) → Leads i0 ex0 j seen
        → once j seen ≡ err (worker_full id)
        → IsEnded j (suc left) (claim_from once waits (suc left) j seen)
    unfolding claim_from Continues
    full_end zero c j seen id l e =
        let q : claim_from once waits 1 j seen ≡ err no_capacity = ground arith in
        rw q (end_at 0 j seen (err no_capacity) l (full id refl e))
    full_end (suc n) c j seen id l e =
        let q : claim_from once waits (suc (suc n)) j seen
            ≡ claim_from once waits (suc n) (suc j) (seen ++ (id ∷ [])) =
          ground arith in
        rw q (IsEnded-later j (suc n) _ (c (suc j) (seen ++ (id ∷ [])) (after_full j seen id l e)))

    wait_end :
        (left : ℕ)
        → Continues left
        → (j : ℕ) (seen : List ℕ) → Leads i0 ex0 j seen
        → once j seen ≡ err no_capacity
        → IsEnded j (suc left) (claim_from once waits (suc left) j seen)
    unfolding claim_from Continues
    wait_end zero c j seen l e =
        let q : claim_from once waits 1 j seen ≡ err no_capacity = ground arith in
        rw q (end_at 0 j seen (err no_capacity) l (empty refl e))
    wait_end (suc n) c j seen l e = elim (Option-cases (waits j)) [
      | inl h ↦
          let q : claim_from once waits (suc (suc n)) j seen
              ≡ claim_from once waits (suc n) (suc j) seen =
            ground arith in
          rw q (IsEnded-later j (suc n) _ (c (suc j) seen (after_wait j seen l e h)))
      | inr (f, h) ↦
          let q : claim_from once waits (suc (suc n)) j seen ≡ err (fault f) = ground arith in
          rw q (end_at (suc n) j seen (err (fault f)) l (interrupted f refl e h))
    ]

    step-IsEnded :
        (left : ℕ)
        → Continues left
        → (j : ℕ) (seen : List ℕ) → Leads i0 ex0 j seen
        → IsEnded j (suc left) (claim_from once waits (suc left) j seen)
    unfolding claim_from
    step-IsEnded left c j seen l = elim (Result-cases (once j seen)) [
      | inl (s, e) ↦
          let q : claim_from once waits (suc left) j seen ≡ ok s = ground arith in
          rw q (end_at left j seen (ok s) l (success s e))
      | inr (x, e) ↦ elim (error_cases x) [
        | inl (id, is) ↦ full_end left c j seen id l (e ∙ ap err is)
        | inr (inl is) ↦ wait_end left c j seen l (e ∙ ap err is)
        | inr (inr (v, other)) ↦
            let q : claim_from once waits (suc left) j seen ≡ err x = ground arith in
            rw q (end_at left j seen (err x) l (error x e other.0 other.1))
      ]
    ]

    continues : (left : ℕ) → Continues left
    unfolding Continues
    continues zero = tt
    continues (suc n) = λ j seen l. step-IsEnded n (continues n) j seen l

-- Claim makes at most eight attempts. Each attempt before the last one found its worker full, and then
-- excluded that worker, or found no worker, and then waited. The last one gives its session or its
-- error, whichever error that is but a want of capacity; or the wait after it is interrupted; or it is
-- the eighth and there is no capacity.
pub claim_lem :
    (once : ℕ → List ℕ → Result Session) (waits : ℕ → Option Fault)
    → IsEnded once waits 0 [] 0 8 (claim once waits)
unfolding claim Continues
claim_lem once waits = continues once waits 0 [] 8 0 [] stays
