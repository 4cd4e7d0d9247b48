-- ===== src/Db/Workers/Selection.antt =====
-- Which worker a claim gets: SelectClaimableWorker against an independent description of its order.
use mathlib.Core.List.{Memᴰ}
use playwright_distributed.Base.{
  ℕ, ◌+◌, ◌<◌, ◌≡◌, refl, sym, subst, ◌≢◌, ◌⊎◌, inl, inr, Bool, true, false, Option, none, some,
  List, [], ◌∷◌, ◌++◌, arith, ◌==◌, ==_iff, Bool-cases, Option-cases, All, All-mono, All-of,
  All-Memᴰ, elem, Bytes, select, find, All-select, select_test, All-select_back, find-All,
  is_prefix_some,
}
use playwright_distributed.Db.Models.{
  Browser, chromium, browser_eq, WorkerStatus, available, Worker, Database, is_available,
}
use playwright_distributed.Db.Workers.{
  count_active_sessions_by_worker, SelectClaimableWorkerParams, is_wanted, is_claimable, goes_first,
  first_in_order, select_claimable_worker,
}
use playwright_distributed.Db.Workers.Order.{
  Precedes, goes_first_total, first_in_order-All, first_in_order-none, first_in_order-best,
}

-- The conditions on the row: available, heard of within the TTL, under the lifetime limit, of the
-- browser and the version asked for, and not excluded.
pub record IsWanted (now : ℕ) (p : SelectClaimableWorkerParams) (w : Worker) : Type 0 where
  pub is_up : w.status ≡ available
  pub is_alive : now < w.last_heartbeat + p.worker_ttl
  pub is_young : (p.max_lifetime_sessions ≡ 0) ⊎ (w.lifetime_sessions < p.max_lifetime_sessions)
  pub same_browser : w.browser ≡ p.browser
  pub has_version : (rest : Bytes) × (w.playwright_version ≡ p.version_prefix ++ rest)
  pub not_excluded : All (λ id. id ≢ w.id) p.excluded_ids

elem-false : (x : ℕ) (xs : List ℕ) → elem x xs ≡ false → All (λ y. y ≢ x) xs
elem-false x [] h = tt
elem-false x (y ∷ ys) h = ((λ e. ground arith), elem-false x ys (ground arith))

browser_eq-eq : (a b : Browser) → browser_eq a b ≡ true → a ≡ b
browser_eq-eq chromium b h = ground arith
browser_eq-eq a b h = ground arith

is_available-eq : (s : WorkerStatus) → is_available s ≡ true → s ≡ available
is_available-eq available h = refl
is_available-eq s h = ground arith

is_wanted-IsWanted :
    (now : ℕ) (p : SelectClaimableWorkerParams) (w : Worker)
    → is_wanted now p w ≡ true
    → IsWanted now p w
is_wanted-IsWanted now p w h = record {
  is_up = is_available-eq w.status (ground arith);
  is_alive = ground arith;
  is_young = ground arith;
  same_browser = browser_eq-eq w.browser p.browser (ground arith);
  has_version = is_prefix_some p.version_prefix w.playwright_version (ground arith);
  not_excluded = elem-false w.id p.excluded_ids (ground arith);
}

module _ (locked : ℕ → Bool) (now : ℕ) (p : SelectClaimableWorkerParams)
    (snapshot db : Database) where
  -- What is returned is the present version of the first row in order that the query can return.
  chosen :
      (w : Worker)
      → select_claimable_worker locked now p snapshot db ≡ some w
      → (v : Worker) × (first_in_order snapshot
            (select (is_claimable locked now p snapshot db) snapshot.workers)
          ≡ some v)
        × (find (λ u. u.id == v.id) db.workers ≡ some w)
  unfolding select_claimable_worker
  chosen w e =
      elim (Option-cases (
        first_in_order snapshot
          (select (is_claimable locked now p snapshot db) snapshot.workers))) [
            | inl n ↦ ground arith
            | inr (v, n) ↦ (v, n, ground arith)
          ]

  chosen-is_claimable :
      (v : Worker)
      → first_in_order snapshot (select (is_claimable locked now p snapshot db) snapshot.workers)
        ≡ some v
      → is_claimable locked now p snapshot db v ≡ true
  chosen-is_claimable v n =
      first_in_order-All (λ v. is_claimable locked now p snapshot db v ≡ true) snapshot
        (select (is_claimable locked now p snapshot db) snapshot.workers) v n
        (select_test (is_claimable locked now p snapshot db) snapshot.workers)

  is_claimable-now :
      (v w : Worker)
      → is_claimable locked now p snapshot db v ≡ true
      → find (λ u. u.id == v.id) db.workers ≡ some w
      → (w.id == v.id) ≡ true
      → (locked w.id ≡ false) × (is_wanted now p w ≡ true)
  is_claimable-now v w c f e =
      let same : w.id ≡ v.id = (==_iff w.id v.id).0 e in (rw same (ground arith), ground arith)

  -- No other transaction holds the row.
  pub select_claimable_worker-unlocked :
      (w : Worker) → select_claimable_worker locked now p snapshot db ≡ some w → locked w.id ≡ false
  select_claimable_worker-unlocked w e =
      let (v, n, f) = chosen w e in
      (is_claimable-now v w (chosen-is_claimable v n) f
        (find-All (λ u. Unit {0}) (λ u. u.id == v.id) db.workers w f
          (All-of (λ u. Unit {0}) db.workers (λ u. tt))).0).0

  -- What holds of every row holds of the row.
  pub select_claimable_worker-All {κ} :
      (P : Worker → Type κ) (w : Worker)
      → select_claimable_worker locked now p snapshot db ≡ some w
      → All P db.workers
      → P w
  select_claimable_worker-All P w e a =
      let (v, n, f) = chosen w e in (find-All P (λ u. u.id == v.id) db.workers w f a).1

  -- How the worker `w` was chosen, by its version `v` in the snapshot.
  pub record IsChosen (w v : Worker) : Type 0 where
    pub wanted : IsWanted now p w
    pub unlocked : locked w.id ≡ false
    pub present : Memᴰ w db.workers
    pub same_id : w.id ≡ v.id
    pub seen : Memᴰ v snapshot.workers
    pub was_wanted : IsWanted now p v
    pub had_slot : count_active_sessions_by_worker v.id snapshot < v.max_slots
    pub first :
        All
          (λ u. is_claimable locked now p snapshot db u ≡ true → Precedes snapshot v u)
          snapshot.workers

  -- The worker that a claim is given is a present row that nobody else has locked and that meets the
  -- conditions of the query. In the snapshot of the query it met them too and had a free slot, and
  -- no row that the query could return comes before it: it has the most lifetime sessions, then the
  -- fewest active ones, then the smallest id.
  pub select_claimable_worker-best :
      (w : Worker)
      → select_claimable_worker locked now p snapshot db ≡ some w
      → (v : Worker) × IsChosen w v
  select_claimable_worker-best w e =
      let (v, n, f) = chosen w e in
      let c = chosen-is_claimable v n in
      let (hit, here_now) =
        find-All (λ u. Memᴰ u db.workers) (λ u. u.id == v.id) db.workers w f
          (All-Memᴰ db.workers) in
      let (free, good) = is_claimable-now v w c f hit in
      (
        v,
        record {
          wanted = is_wanted-IsWanted now p w good;
          unlocked = free;
          present = here_now;
          same_id = (==_iff w.id v.id).0 hit;
          seen =
              first_in_order-All (λ u. Memᴰ u snapshot.workers) snapshot
                (select (is_claimable locked now p snapshot db) snapshot.workers) v n
                (All-select (λ u. Memᴰ u snapshot.workers) (is_claimable locked now p snapshot db)
                  snapshot.workers (All-Memᴰ snapshot.workers));
          was_wanted = is_wanted-IsWanted now p v (ground arith);
          had_slot = ground arith;
          first =
              All-mono
                (λ u.
                  is_claimable locked now p snapshot db u ≡ true → goes_first snapshot u v ≡ false)
                (λ u. is_claimable locked now p snapshot db u ≡ true → Precedes snapshot v u)
                snapshot.workers (λ u h k. goes_first_total snapshot u v (h k))
                (All-select_back (λ u. goes_first snapshot u v ≡ false)
                  (is_claimable locked now p snapshot db) snapshot.workers
                  (first_in_order-best snapshot
                    (select (is_claimable locked now p snapshot db) snapshot.workers) v n));
        },
      )

  -- A claim is told that there is no worker only if no row of the snapshot can be returned.
  pub select_claimable_worker-none :
      select_claimable_worker locked now p snapshot db ≡ none
      → All (λ v. is_claimable locked now p snapshot db v ≡ false) snapshot.workers
  unfolding select_claimable_worker
  select_claimable_worker-none e =
      elim (Option-cases (
        first_in_order snapshot
          (select (is_claimable locked now p snapshot db) snapshot.workers))) [
            | inl n ↦
                All-mono (λ v. is_claimable locked now p snapshot db v ≡ true → ⊥)
                  (λ v. is_claimable locked now p snapshot db v ≡ false) snapshot.workers
                  (λ v h. elim (Bool-cases (is_claimable locked now p snapshot db v)) [
                    | inl c ↦ absurd (h c)
                    | inr c ↦ c
                  ])
                  (All-select_back (λ v. ⊥) (is_claimable locked now p snapshot db) snapshot.workers
                    (subst (λ us. All (λ v. ⊥) us)
                      (sym (
                        first_in_order-none snapshot
                          (select (is_claimable locked now p snapshot db) snapshot.workers) n))
                      tt))
            | inr (v, n) ↦ let c = chosen-is_claimable v n in ground arith
          ]

  -- What the answer of the query says.
  abbrev pub IsSelected : Option Worker → Type 0
  IsSelected none = All (λ v. is_claimable locked now p snapshot db v ≡ false) snapshot.workers
  IsSelected (some w) = (v : Worker) × IsChosen w v

  -- The worker that a claim is given is a present row that nobody else has locked and that meets
  -- the conditions of the query; in the snapshot of the query it met them too and had a free slot,
  -- and no row that the query could return comes before it in the order of lifetime sessions (most
  -- first), active sessions (fewest first) and id. If the claim is given no worker, no row of the
  -- snapshot can be returned.
  pub select_claimable_worker_lem :
      (answer : Option Worker)
      → select_claimable_worker locked now p snapshot db ≡ answer
      → IsSelected answer
  select_claimable_worker_lem none e = select_claimable_worker-none e
  select_claimable_worker_lem (some w) e = select_claimable_worker-best w e
