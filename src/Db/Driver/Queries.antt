-- ===== src/Db/Driver/Queries.antt =====
-- A query that answers has read the tables, and no query changes them.
use playwright_distributed.Base.{no_rows, Result, ok, err, ◌≡◌, refl, List}
use playwright_distributed.Db.Driver.{
  Reply, delivered, refused, lost, World, next_reply, settle, statement, query,
}
use playwright_distributed.Db.Models.{Database}

settle_ok {ℓ} :
    {A : Type ℓ} (reply : Reply) (before after : Database) (r : Result A) (rest : List Reply)
    (a : A)
    → (settle reply before (r, after) rest).0 ≡ ok a
    → (r ≡ ok a) × ((settle reply before (r, after) rest).1.db ≡ after)
settle_ok delivered before after r rest a h = (h, refl)
settle_ok (refused f) before after r rest a h = cc
settle_ok (lost f) before after r rest a h = cc

pub statement_ok {ℓ} :
    {A : Type ℓ} (run : Database → Result A × Database) (w : World) (a : A)
    → (statement run w).0 ≡ ok a
    → ((run w.db).0 ≡ ok a) × ((statement run w).1.db ≡ (run w.db).1)
unfolding statement
statement_ok run w a h =
    settle_ok (next_reply w.replies).0 w.db (run w.db).1 (run w.db).0 (next_reply w.replies).1 a h

pub query_ok {ℓ} :
    {A : Type ℓ} (read : Database → Result A) (w : World) (a : A)
    → (query read w).0 ≡ ok a
    → (read w.db ≡ ok a) × ((query read w).1.db ≡ w.db)
query_ok read w a h = statement_ok (λ db. (read db, db)) w a h

settle_no_rows {ℓ} :
    {A : Type ℓ} (reply : Reply) (before after : Database) (r : Result A) (rest : List Reply)
    → (settle reply before (r, after) rest).0 ≡ err no_rows
    → (r ≡ err no_rows) × ((settle reply before (r, after) rest).1.db ≡ after)
settle_no_rows delivered before after r rest h = (h, refl)
settle_no_rows (refused f) before after r rest h = cc
settle_no_rows (lost f) before after r rest h = cc

-- A statement that reports that there is no row has run.
pub statement_no_rows {ℓ} :
    {A : Type ℓ} (run : Database → Result A × Database) (w : World)
    → (statement run w).0 ≡ err no_rows
    → ((run w.db).0 ≡ err no_rows) × ((statement run w).1.db ≡ (run w.db).1)
unfolding statement
statement_no_rows run w h =
    settle_no_rows (next_reply w.replies).0 w.db (run w.db).1 (run w.db).0 (next_reply w.replies).1
      h

settle_replies {ℓ} :
    {A : Type ℓ} (reply : Reply) (before after : Database) (r : Result A) (rest : List Reply)
    → (settle reply before (r, after) rest).1.replies ≡ rest
settle_replies delivered before after r rest = refl
settle_replies (refused f) before after r rest = refl
settle_replies (lost f) before after r rest = refl

pub statement_replies {ℓ} :
    {A : Type ℓ} (run : Database → Result A × Database) (w : World)
    → (statement run w).1.replies ≡ (next_reply w.replies).1
unfolding statement
statement_replies run w =
    settle_replies (next_reply w.replies).0 w.db (run w.db).1 (run w.db).0 (next_reply w.replies).1

-- A statement whose answer arrives has run.
pub statement_delivered {ℓ} :
    {A : Type ℓ} (run : Database → Result A × Database) (w : World)
    → (next_reply w.replies).0 ≡ delivered
    → (statement run w).1.db ≡ (run w.db).1
unfolding statement
statement_delivered run w h = rw h refl

settle-keeps {ℓ κ} :
    {A : Type ℓ} (P : Database → Type κ) (reply : Reply) (before after : Database) (r : Result A)
    (rest : List Reply)
    → P before
    → P after
    → P (settle reply before (r, after) rest).1.db
settle-keeps P delivered before after r rest a b = b
settle-keeps P (refused f) before after r rest a b = a
settle-keeps P (lost f) before after r rest a b = b

-- What holds of the tables before a statement and after it holds whether or not it ran.
pub statement-keeps {ℓ κ} :
    {A : Type ℓ} (P : Database → Type κ) (run : Database → Result A × Database) (w : World)
    → P w.db
    → P (run w.db).1
    → P (statement run w).1.db
unfolding statement
statement-keeps P run w a b =
    settle-keeps P (next_reply w.replies).0 w.db (run w.db).1 (run w.db).0 (next_reply w.replies).1
      a b
