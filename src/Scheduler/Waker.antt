-- ===== src/Scheduler/Waker.antt =====
-- The waker of server/internal/scheduler/waker.go, one critical section of its mutex at a time, and the
-- back-off of server/internal/scheduler/listener.go.
pub mod Waiting
pub mod Delivery
use playwright_distributed.Base.{
  ℕ, ◌+◌, ◌*◌, ◌%◌, ◌^◌, Bool, true, false, Option, none, some, List, [], ◌∷◌, map, leb, ◌==◌,
  if◌then◌else◌, delete, update, find,
}

-- A channel with room for one token: `ready` says that it holds one.
pub record Waiter : Type 0 where
  pub id : ℕ
  pub ready : Bool

-- The map of waiters, by id.
pub record Waker : Type 0 where
  pub next_id : ℕ
  pub waiters : List Waiter

abbrev pub new_waker : Waker
new_waker = record { next_id = 0; waiters = [] }

abbrev pub has_id : ℕ → Waiter → Bool
has_id id x = x.id == id

-- nextID is a uint64. An entry of the map with that id is replaced.
unfoldable pub subscribe : Waker → ℕ × Waker
subscribe w = (
  w.next_id,
  record {
    next_id = (w.next_id + 1) % 2 ^ 64;
    waiters = record { id = w.next_id; ready = false } ∷ delete (has_id w.next_id) w.waiters;
  },
)

unfoldable pub unsubscribe : ℕ → Waker → Waker
unsubscribe id w = record w { waiters = delete (has_id id) w.waiters }

abbrev pub fill : Waiter → Waiter
fill x = record x { ready = true }

-- A channel that is full stays so.
unfoldable pub wake : Waker → Waker
wake w = record w { waiters = map fill w.waiters }

-- Receiving takes the token, if the channel holds one.
unfoldable pub receive : ℕ → Waker → Option Waker
receive id w = elim (find (has_id id) w.waiters) [
  | none ↦ none
  | some x ↦
      if x.ready
      then some
          (record w { waiters = update (has_id id) (λ y. record y { ready = false }) w.waiters })
      else none
]

abbrev pub listener_initial_backoff : ℕ
listener_initial_backoff = 100_000

abbrev pub listener_max_backoff : ℕ
listener_max_backoff = 5_000_000

abbrev min : ℕ → ℕ → ℕ
min a b = if leb a b then a else b

-- The waits before the reconnections: each attempt either was connected or not.
unfoldable pub backoffs : ℕ → List Bool → List ℕ
backoffs backoff [] = []
backoffs backoff (connected ∷ attempts) =
    let wait = if connected then listener_initial_backoff else backoff in
    wait ∷ backoffs (min (wait * 2) listener_max_backoff) attempts
