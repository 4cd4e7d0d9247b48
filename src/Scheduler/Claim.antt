-- ===== src/Scheduler/Claim.antt =====
-- claimOnce of server/internal/scheduler/scheduler.go, one round trip to the database at a time. The
-- select has two moments: it takes its snapshot, and locks a row later.
-- A claim in flight is a transaction: the phase says which statement is next, `writes` what it has
-- done and not committed. It runs at READ COMMITTED: each statement sees the committed tables of
-- that moment with the transaction's own writes on top.
use playwright_distributed.Base.{
  Fault, no_capacity, worker_full, fault, uncertain_commit, Result, ok, err, ℕ, Bool, false, Option,
  none, some, List, [], ◌∷◌, ◌++◌, leb, ◌==◌, if◌then◌else◌,
}
use playwright_distributed.Db.Models.{Session, Worker, Database}
use playwright_distributed.Db.Sessions.{InsertClaimedSessionParams, insert_claimed_session}
use playwright_distributed.Db.Workers.{
  count_active_sessions_by_worker, increment_worker_lifetime_sessions, SelectClaimableWorkerParams,
  select_claimable_worker,
}
use playwright_distributed.Scheduler.Settings.{Options, ClaimRequest}
use playwright_distributed.Db.Driver.{Reply, delivered, refused, lost}

pub data Phase : Type 0 where
  beginning selecting : Phase
  locking : Database → Phase
  recounting inserting : Worker → Phase
  incrementing committing : Worker → Session → Phase
  finished : Result Session → Phase

pub data Write : Type 0 where
  insert_session : Session → Write
  increment_lifetime : ℕ → Write

pub record Claim : Type 0 where
  pub request : ClaimRequest
  pub excluded : List ℕ
  pub session_id : ℕ
  pub now : ℕ
  pub phase : Phase
  pub writes : List Write

unfoldable pub new_claim : ClaimRequest → List ℕ → ℕ → ℕ → Claim
new_claim request excluded session_id now = record {
  request = request;
  excluded = excluded;
  session_id = session_id;
  now = now;
  phase = beginning;
  writes = [];
}

unfoldable pub apply_write : Write → Database → Database
apply_write (insert_session s) db = record db { sessions = db.sessions ++ (s ∷ []) }
apply_write (increment_lifetime id) db = (increment_worker_lifetime_sessions id db).1

unfoldable pub apply_writes : List Write → Database → Database
unfolding apply_write
apply_writes [] db = db
apply_writes (w ∷ ws) db = apply_writes ws (apply_write w db)

-- The deferred rollback: what was not committed is dropped, and the row lock with it. The error of a
-- failed rollback, which the code joins to the result, is left out.
abbrev pub finish : Result Session → Claim → Claim
finish r c = record c { phase = finished r; writes = [] }

abbrev pub claim_params : Options → Claim → Worker → InsertClaimedSessionParams
claim_params o c w = record {
  id = c.session_id;
  worker_id = w.id;
  browser = w.browser;
  playwright_version = w.playwright_version;
  worker_address = w.address;
  created_by_key = c.request.created_by_key;
  pending_ttl = o.pending_session_ttl;
  connect_metadata = c.request.connect_metadata;
}

abbrev pub select_params : Options → Claim → SelectClaimableWorkerParams
select_params o c = record {
  browser = c.request.browser;
  version_prefix = c.request.version_prefix;
  worker_ttl = o.worker_ttl;
  max_lifetime_sessions = o.max_lifetime_sessions;
  excluded_ids = c.excluded;
}

-- The statement of a phase that is answered, and the code up to the next one.
unfoldable pub on_answer : Options → (ℕ → Bool) → Phase → Database → Claim → Claim
on_answer o locked beginning db c = record c { phase = selecting }
on_answer o locked selecting db c = record c { phase = locking db }
on_answer o locked (locking snapshot) db c =
    elim (select_claimable_worker locked c.now (select_params o c) snapshot db) [
      | none ↦ finish (err no_capacity) c
      | some w ↦ record c { phase = recounting w }
    ]
on_answer o locked (recounting w) db c =
    if leb w.max_slots (count_active_sessions_by_worker w.id db)
    then finish (err (worker_full w.id)) c
    else record c { phase = inserting w }
on_answer o locked (inserting w) db c =
    elim (insert_claimed_session c.now (claim_params o c w) db).0 [
      | ok s ↦ record c { phase = incrementing w s; writes = insert_session s ∷ [] }
      | err e ↦ finish (err e) c
    ]
on_answer o locked (incrementing w s) db c = elim (increment_worker_lifetime_sessions w.id db).0 [
  | ok w' ↦ record c {
    phase = committing w s;
    writes = insert_session s ∷ increment_lifetime w.id ∷ [];
  }
  | err e ↦ finish (err e) c
]
on_answer o locked (committing w s) db c = finish (ok s) c
on_answer o locked (finished r) db c = c

-- A failed commit is uncertain; any other failed statement fails the claim with its cause.
abbrev pub on_fault : Phase → Fault → Claim → Claim
on_fault (committing w s) f c = finish (err (uncertain_commit f)) c
on_fault (finished r) f c = c
on_fault _ f c = finish (err (fault f)) c

-- Only a commit that runs changes the committed tables.
abbrev pub committed : Phase → Claim → Database → Database
committed (committing w s) c db = apply_writes c.writes db
committed _ c db = db

-- One round trip: the committed tables and the claim after it.
unfoldable pub claim_trip : Options → (ℕ → Bool) → Reply → Database → Claim → Database × Claim
unfolding on_answer apply_writes
claim_trip o locked delivered db c =
    (committed c.phase c db, on_answer o locked c.phase (apply_writes c.writes db) c)
claim_trip o locked (refused f) db c = (db, on_fault c.phase f c)
claim_trip o locked (lost f) db c = (committed c.phase c db, on_fault c.phase f c)

-- The worker row that the transaction holds: FOR UPDATE, until it ends.
abbrev pub held : Phase → Option Worker
held (recounting w) = some w
held (inserting w) = some w
held (incrementing w s) = some w
held (committing w s) = some w
held _ = none

abbrev pub is_of : ℕ → Option Worker → Bool
is_of id none = false
is_of id (some w) = w.id == id

abbrev pub holds : ℕ → Claim → Bool
holds id c = is_of id (held c.phase)
