-- ===== src/Db/Driver.antt =====
-- Round trips to the database and transactions, as the code uses pgx: BeginTx, Rollback and Commit of
-- the scheduler, the rescuer and the HTTP handlers.
pub mod Atomic
pub mod Failures
pub mod Queries
use playwright_distributed.Base.{
  Fault, Error, fault, Result, ok, err, Bool, true, false, List, [], ◌∷◌,
}
use playwright_distributed.Db.Models.{Database}

-- How a round trip ends: the answer arrives, or the statement does not run, or it runs and the
-- answer is lost.
pub data Reply : Type 0 where
  delivered : Reply
  refused lost : Fault → Reply

-- The committed tables, or within a transaction its view of them, and the replies to come. Past the
-- end of the list every answer arrives.
pub record World : Type 0 where
  pub db : Database
  pub replies : List Reply

abbrev pub M {ℓ} : Type ℓ → Type ℓ
M A = World → Result A × World

unfoldable pub and_then {ℓ κ} :
    {A : Type ℓ} {B : Type κ} → Result A × World → (A → M B) → Result B × World
and_then (ok a, w) f = f a w
and_then (err e, w) f = (err e, w)

infixl 5 ◌>>=◌ ◌>>◌
abbrev pub ◌>>=◌ {ℓ κ} : {A : Type ℓ} {B : Type κ} → M A → (A → M B) → M B
◌>>=◌ m f w = and_then (m w) f

abbrev pub ◌>>◌ {ℓ} : {B : Type ℓ} → M (Unit {0}) → M B → M B
m >> k = m >>= λ _. k

abbrev pub return {ℓ} : {A : Type ℓ} → A → M A
return a w = (ok a, w)

abbrev pub fail {ℓ} : {A : Type ℓ} → Error → M A
fail e w = (err e, w)

abbrev pub next_reply : List Reply → Reply × List Reply
next_reply [] = (delivered, [])
next_reply (r ∷ rs) = (r, rs)

-- What comes of a statement by its reply: `before` and `after` are the tables.
abbrev pub settle {ℓ} :
    {A : Type ℓ} → Reply → Database → Result A × Database → List Reply → Result A × World
settle delivered before (r, after) rest = (r, record { db = after; replies = rest })
settle (refused f) before (r, after) rest = (err (fault f), record { db = before; replies = rest })
settle (lost f) before (r, after) rest = (err (fault f), record { db = after; replies = rest })

-- One statement.
unfoldable pub statement {ℓ} : {A : Type ℓ} → (Database → Result A × Database) → M A
statement run w = let (reply, rest) = next_reply w.replies in settle reply w.db (run w.db) rest

-- A statement that reads.
abbrev pub query {ℓ} : {A : Type ℓ} → (Database → Result A) → M A
query read = statement (λ db. (read db, db))

-- The end of a transaction that began at `start`: a rollback of what a failed body did, or a commit.
-- The error of a failed rollback, which the code joins to that of the body, is left out.
abbrev pub end_transaction {ℓ} : {A : Type ℓ} → Database → Result A × World → Result A × World
end_transaction start (err e, w) = (err e, record { db = start; replies = w.replies })
end_transaction start (ok a, w) =
    let (reply, rest) = next_reply w.replies in settle reply start (ok a, w.db) rest

abbrev pub in_transaction {ℓ} :
    {A : Type ℓ} → M A → Database → Reply → List Reply → Result A × World
in_transaction body start delivered rest =
    end_transaction start (body (record { db = start; replies = rest }))
in_transaction body start (refused f) rest = (err (fault f), record { db = start; replies = rest })
in_transaction body start (lost f) rest = (err (fault f), record { db = start; replies = rest })

-- Begin, the body, and the commit or the deferred rollback.
unfoldable pub transact {ℓ} : {A : Type ℓ} → M A → M A
transact body w = let (reply, rest) = next_reply w.replies in in_transaction body w.db reply rest

-- No answer is lost on the way back.
abbrev pub is_lost : Reply → Bool
is_lost (lost f) = true
is_lost _ = false
