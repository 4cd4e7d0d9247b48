-- ===== src/Db/Sessions.antt =====
-- The session statements: server/internal/db/data/sessions.sql.go. `now` is the transaction's now().
use mathlib.Core.Option
pub mod Ops
pub mod Stale
pub mod Lifecycle
pub mod Over
pub mod Started
use playwright_distributed.Base.{
  unavailable, fault, Result, ok, err, ℕ, ◌+◌, Bool, true, false, not, ◌&&◌, ◌||◌, Option, none,
  some, List, [], ◌∷◌, ◌++◌, map, ltb, ◌==◌, if◌then◌else◌, take, drop, count, any, elem, Bytes,
  select, update, find, sort_by,
}
use playwright_distributed.Db.Models.{
  Browser, default, SessionStatus, pending, running, completed, failed, expired, Session, Database,
  is_active, is_pending, is_running, created_before, one_row,
}

-- UPDATE sessions SET f WHERE p, RETURNING the row; with `notify` it calls pg_notify once for it.
abbrev pub update_session :
    (Session → Bool) → (Session → Session) → ℕ → Database → Result Session × Database
update_session p f notify db = elim (find p db.sessions) [
  | none ↦ (one_row none, db)
  | some s ↦ (
    ok (f s),
    record db {
      sessions = update p f db.sessions;
      capacity_changed = db.capacity_changed + notify;
    },
  )
]

abbrev pub set_status : SessionStatus → Session → Session
set_status status s = record s { status = status }

unfoldable pub complete_session : ℕ → Database → Result Session × Database
complete_session id =
    update_session (λ s. (s.id == id) && is_running s.status) (set_status completed) 1

unfoldable pub fail_session : ℕ → Database → Result Session × Database
fail_session id = update_session (λ s. (s.id == id) && is_active s.status) (set_status failed) 1

unfoldable pub terminate_session : ℕ → Database → Result Session × Database
terminate_session id =
    update_session (λ s. (s.id == id) && is_active s.status) (set_status completed) 1

unfoldable pub renew_session_heartbeat : ℕ → ℕ → Database → Result Session × Database
renew_session_heartbeat now id =
    update_session (λ s. (s.id == id) && is_running s.status)
      (λ s. record s { last_heartbeat = now }) 0

unfoldable pub start_session : ℕ → ℕ → Database → Result Session × Database
start_session now id =
    update_session (λ s. (s.id == id) && is_pending s.status)
      (λ s. record s {
        status = running;
        started_at = some now;
        last_heartbeat = now;
        expires_at = none;
      })
      0

unfoldable pub get_session : ℕ → Database → Result Session
get_session id db = one_row (find (λ s. s.id == id) db.sessions)

abbrev pub before : Option ℕ → ℕ → Bool
before none t = false
before (some u) t = ltb u t

-- An active session that fell silent for longer than `ttl`, or whose expiry has passed.
abbrev pub is_dead : ℕ → ℕ → Session → Bool
is_dead now ttl s =
    is_active s.status && (ltb (s.last_heartbeat + ttl) now || before s.expires_at now)

pub record ExpireDeadSessionsRow : Type 0 where
  pub id : ℕ
  pub worker_id : ℕ

unfoldable pub expire_dead_sessions : ℕ → ℕ → Database → List ExpireDeadSessionsRow × Database
expire_dead_sessions now ttl db = (
  map (λ s. record { id = s.id; worker_id = s.worker_id }) (select (is_dead now ttl) db.sessions),
  record db { sessions = update (is_dead now ttl) (set_status expired) db.sessions },
)

-- A running session of the worker that started longer than `grace` ago and is not in `reported`.
abbrev pub is_unreported : ℕ → ℕ → ℕ → List ℕ → Session → Bool
is_unreported now worker_id grace reported s =
    (s.worker_id == worker_id)
    && (is_running s.status
        && (before (Option.map (λ t. t + grace) s.started_at) now && not (elem s.id reported)))

unfoldable pub fail_unreported_worker_sessions : ℕ → ℕ → ℕ → List ℕ → Database → List ℕ × Database
fail_unreported_worker_sessions now worker_id grace reported db =
    let p = is_unreported now worker_id grace reported in
    (
      map (λ s. s.id) (select p db.sessions),
      record db { sessions = update p (set_status failed) db.sessions },
    )

pub record InsertClaimedSessionParams : Type 0 where
  pub id : ℕ
  pub worker_id : ℕ
  pub browser : Browser
  pub playwright_version : Bytes
  pub worker_address : Bytes
  pub created_by_key : Option ℕ
  pub pending_ttl : ℕ
  pub connect_metadata : Option Bytes

-- COALESCE(metadata, '{}').
abbrev or_empty_object : Option Bytes → Bytes
or_empty_object none = b'{' ∷ b'}' ∷ []
or_empty_object (some m) = m

abbrev pub claimed_session : ℕ → InsertClaimedSessionParams → Session
claimed_session now p = record {
  id = p.id;
  worker_id = p.worker_id;
  browser = p.browser;
  playwright_version = p.playwright_version;
  worker_address = p.worker_address;
  mode = default;
  status = pending;
  created_by_key = p.created_by_key;
  created_at = now;
  started_at = none;
  expires_at = some (now + p.pending_ttl);
  last_heartbeat = now;
  keep_alive_ms = none;
  connect_metadata = or_empty_object p.connect_metadata;
}

-- The foreign key of created_by_key.
abbrev key_exists : Option ℕ → Database → Bool
key_exists none db = true
key_exists (some k) db = any (λ a. a.id == k) db.api_keys

-- A taken id or an unknown key violates a constraint of the table.
unfoldable pub insert_claimed_session :
    ℕ → InsertClaimedSessionParams → Database → Result Session × Database
insert_claimed_session now p db =
    if any (λ s. s.id == p.id) db.sessions || not (key_exists p.created_by_key db)
    then (err (fault unavailable), db)
    else (
      ok (claimed_session now p),
      record db { sessions = db.sessions ++ (claimed_session now p ∷ []) },
    )

-- EXCEPT drops duplicates, ORDER BY sorts: insertion into an increasing list.
pub insert_unique : ℕ → List ℕ → List ℕ
insert_unique x [] = x ∷ []
insert_unique x (y ∷ ys) =
    let later = y ∷ insert_unique x ys in
    if x == y then y ∷ ys else if ltb x y then x ∷ y ∷ ys else later

pub except_sorted : (ℕ → Bool) → List ℕ → List ℕ
unfolding insert_unique
except_sorted known [] = []
except_sorted known (x ∷ xs) =
    let rest = except_sorted known xs in if known x then rest else insert_unique x rest

-- The reported ids that name no active session of the worker.
unfoldable pub list_stale_worker_session_ids : List ℕ → ℕ → Database → List ℕ
unfolding except_sorted
list_stale_worker_session_ids reported worker_id db =
    except_sorted
      (λ id.
        any (λ s. (s.id == id) && ((s.worker_id == worker_id) && is_active s.status)) db.sessions)
      reported

unfoldable pub count_running_sessions_by_worker : ℕ → Database → ℕ
count_running_sessions_by_worker worker_id db =
    count (λ s. (s.worker_id == worker_id) && is_running s.status) db.sessions

pub record ListSessionsByWorkerParams : Type 0 where
  pub worker_id : ℕ
  pub page_offset : ℕ
  pub page_size : ℕ

unfoldable pub list_sessions_by_worker : ListSessionsByWorkerParams → Database → List Session
list_sessions_by_worker p db = take p.page_size (
    drop p.page_offset (
      sort_by (λ s t. created_before s.created_at s.id t.created_at t.id)
        (select (λ s. s.worker_id == p.worker_id) db.sessions)))
