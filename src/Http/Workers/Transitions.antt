-- ===== src/Http/Workers/Transitions.antt =====
-- What a status request does.
use playwright_distributed.Base.{
  ℕ, ◌≤◌, ◌≡◌, refl, sym, ◌∙◌, inl, inr, Bool, true, false, ◌&&◌, Option, none, some, List, [], ◌∷◌,
  arith, ◌==◌, if◌then◌else◌, Bool-cases, count, All-mono, zero_count, update, find, find_no_match,
  codes,
}
use playwright_distributed.Db.Models.{
  WorkerStatus, available, stalled, shutting_down, Worker, Database,
}
use playwright_distributed.Db.Driver.{World, statement}
use playwright_distributed.Db.Workers.{update_worker, get_worker, may_set, set_worker_status}
use playwright_distributed.Http.Response.{Answer, answered, refuse}
use playwright_distributed.Http.Workers.{
  WorkerBody, worker_from_data, not_set, status_set, set_status_handler,
}

abbrev pub calm : Database → World
calm db = record { db = db; replies = [] }

abbrev pub same_tables : Database → Database
same_tables db = db

abbrev with_status : WorkerStatus → Worker → Worker
with_status status v = record v { status = status }

abbrev pub is_last : WorkerStatus → Bool
is_last shutting_down = true
is_last _ = false

abbrev pub is_leaving : WorkerStatus → Bool
is_leaving WorkerStatus.draining = true
is_leaving shutting_down = true
is_leaving _ = false

-- The statuses that a worker can be given, by its status: an available or draining one may drain, and
-- every one may shut down.
abbrev pub permits : WorkerStatus → WorkerStatus → Bool
permits available new = is_leaving new
permits WorkerStatus.draining new = is_leaving new
permits _ new = is_last new

may_set-permits : (new old : WorkerStatus) → may_set new old ≡ permits old new
may_set-permits available available = refl
may_set-permits available WorkerStatus.draining = refl
may_set-permits available stalled = refl
may_set-permits available shutting_down = refl
may_set-permits stalled available = refl
may_set-permits stalled WorkerStatus.draining = refl
may_set-permits stalled stalled = refl
may_set-permits stalled shutting_down = refl
may_set-permits WorkerStatus.draining available = refl
may_set-permits WorkerStatus.draining WorkerStatus.draining = refl
may_set-permits WorkerStatus.draining stalled = refl
may_set-permits WorkerStatus.draining shutting_down = refl
may_set-permits shutting_down available = refl
may_set-permits shutting_down WorkerStatus.draining = refl
may_set-permits shutting_down stalled = refl
may_set-permits shutting_down shutting_down = refl

abbrev allowed : WorkerStatus → Option Worker → Option Worker
allowed status none = none
allowed status (some v) = if may_set status v.status then some v else none

-- The row of the id, if its status allows the transition.
find-allowed :
    (status : WorkerStatus) (id : ℕ) (ws : List Worker)
    → count (λ w. w.id == id) ws ≤ 1
    → find (λ w. (w.id == id) && may_set status w.status) ws
      ≡ allowed status (find (λ w. w.id == id) ws)
find-allowed status id [] one = refl
find-allowed status id (w ∷ ws) one = elim (Bool-cases (w.id == id)) [
  | inl e ↦
      let no_more : count (λ x. x.id == id) ws ≡ 0 = ground arith in
      let rest : find (λ x. (x.id == id) && may_set status x.status) ws ≡ none =
        find_no_match (λ x. (x.id == id) && may_set status x.status) ws
          (All-mono (λ x. (x.id == id) ≡ false)
            (λ x. ((x.id == id) && may_set status x.status) ≡ false) ws (λ x h. rw h refl)
            (zero_count (λ x. x.id == id) ws no_more)) in
      ground (arith, rest)
  | inr e ↦ ground (arith, find-allowed status id ws)
]

-- The answer by the row of the id, and the tables after it.
pub expected : WorkerStatus → ℕ → Database → Option Worker → Answer WorkerBody × World
expected status id db none = (refuse 404 (codes "worker not found"), calm db)
expected status id db (some v) =
    if permits v.status status
    then (
      answered 200 (worker_from_data (with_status status v)),
      calm (record db {
        workers =
            update (λ w. (w.id == id) && may_set status w.status) (with_status status) db.workers;
      }),
    )
    else (refuse 409 (codes "invalid worker status transition"), calm db)

handled :
    (status : WorkerStatus) (id : ℕ) (db : Database) (found : Option Worker)
    → find (λ w. w.id == id) db.workers ≡ found
    → find (λ w. (w.id == id) && may_set status w.status) db.workers ≡ allowed status found
    → set_status_handler status id same_tables (calm db) ≡ expected status id db found
unfolding expected set_status_handler status_set not_set statement set_worker_status get_worker
handled status id db none e a = rw (update_worker, a, e) refl
handled status id db (some v) e a = elim (Bool-cases (may_set status v.status)) [
  | inl yes_set ↦
      let b : find (λ w. (w.id == id) && may_set status w.status) db.workers ≡ some v =
        rw yes_set at a in
      let y : permits v.status status ≡ true = sym (may_set-permits status v.status) ∙ yes_set in
      rw (update_worker, b, y) refl
  | inr no_set ↦
      let b : find (λ w. (w.id == id) && may_set status w.status) db.workers ≡ none =
        rw no_set at a in
      let n : permits v.status status ≡ false = sym (may_set-permits status v.status) ∙ no_set in
      rw (update_worker, b, n, get_worker, e) refl
]

-- Where the id names at most one row and the round trips succeed, with nothing between them, a
-- status request is answered by the row of the id: 404 if there is none, 409 if the request is for
-- neither shutting down nor, of an available or draining worker, draining, and both change nothing;
-- or 200 with the row in the new status, which is then its row.
pub set_status_handler_lem :
    (status : WorkerStatus) (id : ℕ) (db : Database)
    → count (λ w. w.id == id) db.workers ≤ 1
    → set_status_handler status id same_tables (calm db)
      ≡ expected status id db (find (λ w. w.id == id) db.workers)
set_status_handler_lem status id db one =
    handled status id db (find (λ w. w.id == id) db.workers) refl
      (find-allowed status id db.workers one)
