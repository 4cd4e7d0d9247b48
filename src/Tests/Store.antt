-- ===== src/Tests/Store.antt =====
-- Statements on the shared store.
use playwright_distributed.Base.{
  ℕ, ◌≡◌, refl, Bool, false, not, ◌&&◌, none, some, List, [], ◌∷◌, map, arith, ◌==◌, any, All, elem,
}
use playwright_distributed.Tests.Data.{prefix, worker_row, store}
use playwright_distributed.Db.Sessions.Ops.{
  SessionOp, completes, fails, renews, starts, expires, run_op,
}
use playwright_distributed.Db.Workers.{
  count_active_sessions_by_worker, SelectClaimableWorkerParams, is_claimable, goes_first,
  select_claimable_worker,
}
use playwright_distributed.Db.Models.{chromium, completed, expired, is_active}
use playwright_distributed.Db.Sessions.Lifecycle.{
  run_ops, EvolvesAll, run_ops-EvolvesAll, IsSound, run_op-IsSound,
}
use playwright_distributed.Db.Sessions.{
  complete_session, fail_session, renew_session_heartbeat, start_session, expire_dead_sessions,
  list_stale_worker_session_ids,
}
use playwright_distributed.Db.Workers.Selection.{IsSelected, select_claimable_worker_lem}
use playwright_distributed.Db.Sessions.Stale.{IsIncreasing, list_stale_worker_session_ids_lem}

abbrev ops : List SessionOp
ops = starts 95 11 ∷ renews 96 11 ∷ completes 12 ∷ fails 12 ∷ expires 200 50 ∷ []

run_ops_statuses : map (λ s. s.status) (run_ops ops store).sessions ≡ expired ∷ completed ∷ []
unfolding run_ops run_op complete_session fail_session renew_session_heartbeat start_session
    expire_dead_sessions
run_ops_statuses = refl

run_ops-EvolvesAll_example : EvolvesAll store.sessions (run_ops ops store).sessions
run_ops-EvolvesAll_example = run_ops-EvolvesAll ops store

store-IsSound : All IsSound store.sessions
store-IsSound = (ground arith, (ground arith, tt))

run_op-IsSound_example : All IsSound (run_op (completes 12) store).sessions
run_op-IsSound_example = run_op-IsSound (completes 12) store store-IsSound

abbrev chromium_params : SelectClaimableWorkerParams
chromium_params = record {
  browser = chromium;
  version_prefix = prefix;
  worker_ttl = 50;
  max_lifetime_sessions = 0;
  excluded_ids = [];
}

abbrev free : ℕ → Bool
free id = false

-- Worker 1 has more lifetime sessions and no free slot.
selected : select_claimable_worker free 120 chromium_params store store ≡ some (worker_row 2 2 5)
unfolding select_claimable_worker goes_first count_active_sessions_by_worker
selected = refl

select_claimable_worker_lem_example :
    IsSelected free 120 chromium_params store store (some (worker_row 2 2 5))
select_claimable_worker_lem_example =
    select_claimable_worker_lem free 120 chromium_params store store (some (worker_row 2 2 5))
      selected

-- Once another claim holds worker 2, there is none.
held_2 : ℕ → Bool
held_2 id = id == 2

none_selected : select_claimable_worker held_2 120 chromium_params store store ≡ none
unfolding select_claimable_worker goes_first count_active_sessions_by_worker held_2
none_selected = refl

nobody_else : All (λ v. is_claimable held_2 120 chromium_params store store v ≡ false) store.workers
nobody_else = select_claimable_worker_lem held_2 120 chromium_params store store none none_selected

-- Worker 2 reports session 12, and sessions 11 and 99, which are not its own.
stale_ids : list_stale_worker_session_ids (99 ∷ 12 ∷ 11 ∷ 99 ∷ []) 2 store ≡ 11 ∷ 99 ∷ []
unfolding list_stale_worker_session_ids
stale_ids = refl

list_stale_worker_session_ids_lem_example :
    ((x : ℕ)
      → elem x (list_stale_worker_session_ids (99 ∷ 12 ∷ 11 ∷ 99 ∷ []) 2 store) ≡ (
          elem x (99 ∷ 12 ∷ 11 ∷ 99 ∷ [])
          && not (
              any (λ s. (s.id == x) && ((s.worker_id == 2) && is_active s.status)) store.sessions)))
    × IsIncreasing (list_stale_worker_session_ids (99 ∷ 12 ∷ 11 ∷ 99 ∷ []) 2 store)
list_stale_worker_session_ids_lem_example =
    list_stale_worker_session_ids_lem (99 ∷ 12 ∷ 11 ∷ 99 ∷ []) 2 store
