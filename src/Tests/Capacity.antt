-- ===== src/Tests/Capacity.antt =====
-- Claims against the shared store.
use playwright_distributed.Db.Sessions.{insert_claimed_session}
use playwright_distributed.Base.{
  worker_full, err, ℕ, ◌≤◌, ◌≡◌, refl, none, some, [], ◌∷◌, arith, get_elem?, count, All,
}
use playwright_distributed.Db.Workers.{
  count_active_sessions_by_worker, increment_worker_lifetime_sessions, goes_first,
  select_claimable_worker,
}
use playwright_distributed.Scheduler.Claim.{finished, Claim, new_claim, holds}
use playwright_distributed.Scheduler.System.{System, trip, begin, claim, Reach, here, next}
use playwright_distributed.Tests.Data.{store, request, options}
use playwright_distributed.Scheduler.Capacity.Bound.{idle, capacity_bound}
use playwright_distributed.Scheduler.Capacity.Defs.{SameSlots}
use playwright_distributed.Db.Driver.{Reply, delivered}

abbrev claim_at : System → ℕ → Claim
claim_at s i = elim (get_elem? s.claims i) [ none ↦ new_claim request [] 0 0 | some c ↦ c ]

abbrev go : System → ℕ → Reply → System
go s i reply = trip options i reply (claim_at s i) s

abbrev begun : System
begun = record {
  db = store;
  claims = new_claim request [] 30 120 ∷ new_claim request [] 31 121 ∷ [];
}

-- Both claims take a snapshot in which worker 2 has a free slot, and claim 0 locks it first.
abbrev raced : System
raced = go (go (go (go (go begun 0 delivered) 1 delivered) 0 delivered) 1 delivered) 0 delivered

abbrev won : System
won = go (go (go (go raced 0 delivered) 0 delivered) 0 delivered) 0 delivered

-- Claim 1 locks the row after that commit, by its old snapshot, and the recount turns it away.
abbrev lost_race : System
lost_race = go (go won 1 delivered) 1 delivered

won_sessions : count_active_sessions_by_worker 2 won.db ≡ 2
unfolding trip new_claim select_claimable_worker count_active_sessions_by_worker goes_first
    insert_claimed_session increment_worker_lifetime_sessions
won_sessions = refl

lost_race_full : (claim_at lost_race 1).phase ≡ finished (err (worker_full 2))
unfolding trip new_claim select_claimable_worker count_active_sessions_by_worker goes_first
    insert_claimed_session increment_worker_lifetime_sessions
lost_race_full = refl

raced_reached : Reach options (idle store) raced
unfolding trip new_claim select_claimable_worker count_active_sessions_by_worker goes_first
raced_reached =
    next
      (next
        (next
          (next
            (next (next (next here (begin request [] 30 120)) (begin request [] 31 121))
              (claim 0 delivered _ refl))
            (claim 1 delivered _ refl))
          (claim 0 delivered _ refl))
        (claim 1 delivered _ refl))
      (claim 0 delivered _ refl)

won_reached : Reach options (idle store) won
unfolding trip new_claim select_claimable_worker count_active_sessions_by_worker goes_first
    insert_claimed_session increment_worker_lifetime_sessions
won_reached =
    next
      (next (next (next raced_reached (claim 0 delivered _ refl)) (claim 0 delivered _ refl))
        (claim 0 delivered _ refl))
      (claim 0 delivered _ refl)

lost_race_reached : Reach options (idle store) lost_race
unfolding trip new_claim select_claimable_worker count_active_sessions_by_worker goes_first
    insert_claimed_session increment_worker_lifetime_sessions
lost_race_reached = next (next won_reached (claim 1 delivered _ refl)) (claim 1 delivered _ refl)

store_bounded : All (λ w. count_active_sessions_by_worker w.id store ≤ w.max_slots) store.workers
unfolding count_active_sessions_by_worker
store_bounded = (omega arith, (omega arith, tt))

store_slots : All (λ w. SameSlots store.workers w.id w.max_slots) store.workers
store_slots = (
  ((λ e. refl), ((λ e. absurd (omega arith)), tt)),
  (((λ e. absurd (omega arith)), ((λ e. refl), tt)), tt),
)

capacity_bound_example :
    All (λ w. count_active_sessions_by_worker w.id lost_race.db ≤ w.max_slots) lost_race.db.workers
    × ((id : ℕ) → count (holds id) lost_race.claims ≤ 1)
capacity_bound_example =
    capacity_bound options store lost_race store_bounded store_slots lost_race_reached
