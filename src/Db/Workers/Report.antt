-- ===== src/Db/Workers/Report.antt =====
-- The capacity report: GetCapacityByBrowser of server/internal/db/data/workers.sql.go.
use playwright_distributed.Base.{
  ℕ, ◌+◌, ◌-◌, Bool, ◌&&◌, ◌||◌, List, [], ◌∷◌, map, ltb, length, count, select,
}
use playwright_distributed.Db.Models.{
  Browser, chromium, firefox, webkit, browser_eq, Worker, Database, is_active,
}
use playwright_distributed.Db.Workers.{count_active_sessions_by_worker, is_eligible}

pub record GetCapacityByBrowserRow : Type 0 where
  pub browser : Browser
  pub workers : ℕ
  pub max_slots : ℕ
  pub active_sessions : ℕ
  pub available_slots : ℕ

abbrev pub sum_of {ℓ} : {A : Type ℓ} → (A → ℕ) → List A → ℕ
sum_of f [] = 0
sum_of f (x ∷ xs) = f x + sum_of f xs

-- GREATEST(max_slots - active_count, 0): subtraction on ℕ stops at 0.
abbrev pub free_slots : Database → Worker → ℕ
free_slots db w = w.max_slots - count_active_sessions_by_worker w.id db

pub capacity_row : ℕ → ℕ → ℕ → Database → Browser → GetCapacityByBrowserRow
capacity_row now ttl max_lifetime db b =
    let eligible =
      select (λ w. is_eligible now ttl max_lifetime w && browser_eq w.browser b) db.workers in
    record {
      browser = b;
      workers = length eligible;
      max_slots = sum_of (λ w. w.max_slots) eligible;
      active_sessions = count (λ s. browser_eq s.browser b && is_active s.status) db.sessions;
      available_slots = sum_of (free_slots db) eligible;
    }

-- A browser with neither an eligible worker nor an active session has no row.
is_listed : GetCapacityByBrowserRow → Bool
is_listed row = ltb 0 row.workers || ltb 0 row.active_sessions

unfoldable pub get_capacity_by_browser : ℕ → ℕ → ℕ → Database → List GetCapacityByBrowserRow
unfolding capacity_row is_listed
get_capacity_by_browser now ttl max_lifetime db =
    select is_listed (map (capacity_row now ttl max_lifetime db) (chromium ∷ firefox ∷ webkit ∷ []))
