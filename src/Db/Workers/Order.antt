-- ===== src/Db/Workers/Order.antt =====
-- The order in which SelectClaimableWorker prefers workers.
use playwright_distributed.Base.{
  ℕ, ◌≤◌, ◌<◌, ◌≡◌, refl, sym, subst, ◌≢◌, ◌⊎◌, inl, inr, true, false, none, some, List, [], ◌∷◌,
  arith, Bool-cases, Option-cases, All, All-mono,
}
use playwright_distributed.Db.Models.{Worker, Database}
use playwright_distributed.Db.Workers.{count_active_sessions_by_worker, goes_first, first_in_order}

-- More lifetime sessions, then fewer active ones, then the smaller id.
abbrev pub Precedes : Database → Worker → Worker → Type 0
Precedes db w v =
    (v.lifetime_sessions < w.lifetime_sessions)
    ⊎ ((v.lifetime_sessions ≡ w.lifetime_sessions)
        × ((active w < active v) ⊎ ((active w ≡ active v) × (w.id ≤ v.id))))
  where
    active : Worker → ℕ
    active u = count_active_sessions_by_worker u.id db

pub goes_first_total : (db : Database) (v w : Worker) → goes_first db v w ≡ false → Precedes db w v
unfolding goes_first
goes_first_total db v w h = ground arith

goes_first_trans :
    (db : Database) (u v w : Worker)
    → goes_first db u v ≡ false
    → goes_first db v w ≡ false
    → goes_first db u w ≡ false
unfolding goes_first
goes_first_trans db u v w h k = ground arith

goes_first_asym :
    (db : Database) (v w : Worker) → goes_first db v w ≡ true → goes_first db w v ≡ false
unfolding goes_first
goes_first_asym db v w h = ground arith

goes_first_irrefl : (db : Database) (w : Worker) → goes_first db w w ≡ false
unfolding goes_first
goes_first_irrefl db w = ground arith

first_in_order-cons :
    (db : Database) (v w : Worker) (vs : List Worker)
    → first_in_order db (v ∷ vs) ≡ some w
    → (v ≡ w) ⊎ (first_in_order db vs ≡ some w)
unfolding first_in_order
first_in_order-cons db v w vs e = ground arith

first_in_order-nil : (db : Database) (w : Worker) → first_in_order db [] ≢ some w
unfolding first_in_order
first_in_order-nil db w = ground arith

pub first_in_order-All {κ} :
    (P : Worker → Type κ) (db : Database) (ws : List Worker) (w : Worker)
    → first_in_order db ws ≡ some w
    → All P ws
    → P w
first_in_order-All P db [] w e a = absurd (first_in_order-nil db w e)
first_in_order-All P db (v ∷ vs) w e a = elim (first_in_order-cons db v w vs e) [
  | inl first ↦ subst P first a.0
  | inr later ↦ first_in_order-All P db vs w later a.1
]

first_in_order-ne_none :
    (db : Database) (w : Worker) (ws : List Worker) → first_in_order db (w ∷ ws) ≢ none
unfolding first_in_order
first_in_order-ne_none db w ws = ground arith

pub first_in_order-none : (db : Database) (ws : List Worker) → first_in_order db ws ≡ none → ws ≡ []
first_in_order-none db [] e = refl
first_in_order-none db (w ∷ ws) e = absurd (first_in_order-ne_none db w ws e)

pub first_in_order-best :
    (db : Database) (ws : List Worker) (w : Worker)
    → first_in_order db ws ≡ some w
    → All (λ v. goes_first db v w ≡ false) ws
unfolding first_in_order
first_in_order-best db [] w e = tt
first_in_order-best db (v ∷ vs) w e = elim (Option-cases (first_in_order db vs)) [
  | inl n ↦
      let is_v : v ≡ w = ground arith in
      subst (λ u. All (λ x. goes_first db x u ≡ false) (v ∷ vs)) is_v
        (
          goes_first_irrefl db v,
          subst (λ us. All (λ x. goes_first db x v ≡ false) us) (sym (first_in_order-none db vs n))
              tt,
        )
  | inr (u, n) ↦ elim (Bool-cases (goes_first db u v)) [
    | inl beats ↦
        let is_u : u ≡ w = ground arith in
        subst (λ x. All (λ y. goes_first db y x ≡ false) (v ∷ vs)) is_u
          (goes_first_asym db u v beats, first_in_order-best db vs u n)
    | inr loses ↦
        let is_v : v ≡ w = ground arith in
        subst (λ x. All (λ y. goes_first db y x ≡ false) (v ∷ vs)) is_v
          (
            goes_first_irrefl db v,
            All-mono (λ y. goes_first db y u ≡ false) (λ y. goes_first db y v ≡ false) vs
                (λ y h. goes_first_trans db y u v h loses) (first_in_order-best db vs u n),
          )
  ]
]
