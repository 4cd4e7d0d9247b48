-- ===== src/ApiKeyCommand/Execution.antt =====
-- List and Execute of server/internal/apikey/command.go. The texts of ids and times are parameters, as
-- is whether an error of the database says that a table is missing. What List shows is the text that
-- it hands to the tab writer, one piece for each print; the tab writer aligns the cells of its lines.
pub mod Listing
use mathlib.Core.Option
use playwright_distributed.Base.{
  Error, Result, ok, err, ℕ, suc, Bool, Option, none, some, List, [], ◌∷◌, ◌++◌, map, if◌then◌else◌,
  Bytes, codes,
}
use playwright_distributed.Db.Models.{ApiKey, Database}
use playwright_distributed.Db.Driver.{World, query}
use playwright_distributed.Db.ApiKeys.{list_api_keys}
use playwright_distributed.ApiKeyCommand.{
  Command, create_command, list_command, revoke_command, CommandError, print_failed,
  statement_failed, cleanup_failed, CommandResult, done, stopped, create, revoke,
}

-- A piece of text: bytes, with tabs and line ends among them.
abbrev pub Line : Type 0
Line = Bytes

abbrev pub tab : ℕ
tab = 9

abbrev pub newline : ℕ
newline = 10

-- Six values by the format of six strings with tabs between them and a line end after them.
abbrev pub tabbed : Bytes → Bytes → Bytes → Bytes → Bytes → Bytes → Line
tabbed a b c d e f =
    a ++ (tab ∷ b ++ (tab ∷ c ++ (tab ∷ d ++ (tab ∷ e ++ (tab ∷ f ++ (newline ∷ []))))))

abbrev pub header_line : Line
header_line =
    tabbed (codes "ID") (codes "NAME") (codes "PREFIX") (codes "CREATED_AT") (codes "LAST_USED_AT")
      (codes "REVOKED_AT")

-- `prints n` is whether print number n succeeds: the header, a line for each key, the flush.
unfoldable pub print_lines : (ℕ → Bool) → ℕ → List Line → CommandResult (List Line)
print_lines prints n [] = if prints n then done [] else stopped print_failed
print_lines prints n (line ∷ lines) =
    let rest = print_lines prints (suc n) lines in
    if prints n
    then elim rest [ stopped e ↦ stopped e | done ls ↦ done (line ∷ ls) ]
    else stopped print_failed

module _ (uuid_text time_text : ℕ → Bytes) where
  abbrev pub format_time : Option ℕ → Bytes
  format_time none = codes "-"
  format_time (some t) = time_text t

  abbrev pub key_line : ApiKey → Line
  key_line k =
      tabbed (uuid_text k.id) k.name k.prefix (time_text k.created_at) (format_time k.last_used_at)
        (format_time k.revoked_at)

  unfoldable pub listed_keys :
      (ℕ → Bool) → Result (List ApiKey) × World → CommandResult (List Line) × World
  unfolding print_lines
  listed_keys prints (err e, w) = (stopped (statement_failed e), w)
  listed_keys prints (ok keys, w) = (print_lines prints 0 (header_line ∷ map key_line keys), w)

  -- The lines that the table shows, if all prints succeed.
  unfoldable pub list : (ℕ → Bool) → World → CommandResult (List Line) × World
  unfolding listed_keys
  list prints w = listed_keys prints (query (λ db. ok (list_api_keys db)) w)

-- What Execute ends with: the lines it has shown, advice to migrate, or an error.
pub data Executed : Type 0 where
  finished : List Line → Executed
  not_migrated : Executed
  failed_by : CommandError → Executed

module _ (undefined_table : Error → Bool) where
  -- friendlyDatabaseError.
  unfoldable pub friendly_database_error : CommandError → Executed
  friendly_database_error (statement_failed e) =
      if undefined_table e then not_migrated else failed_by (statement_failed e)
  friendly_database_error (cleanup_failed e) =
      if undefined_table e then not_migrated else failed_by (cleanup_failed e)
  friendly_database_error e = failed_by e

  unfoldable pub report :
      {A : Type 0} → (A → List Line) → CommandResult A × World → Executed × World
  unfolding friendly_database_error
  report lines (done a, w) = (finished (lines a), w)
  report lines (stopped e, w) = (friendly_database_error e, w)

-- The time, a fresh id, the random bytes, whether the print of Create or of Revoke succeeds, whether
-- those of List do, and what other transactions do meanwhile.
pub record Circumstances : Type 0 where
  pub now : ℕ
  pub fresh_id : ℕ
  pub random : Option Bytes
  pub prints : Bool
  pub list_prints : ℕ → Bool
  pub others : Database → Database

unfoldable pub execute :
    (ℕ → Bytes)
    → (ℕ → Bytes)
    → (Error → Bool)
    → (Bytes → Bytes)
    → (Bytes → Bytes)
    → Circumstances
    → Command
    → World
    → Executed × World
unfolding report
execute uuid_text time_text undefined_table trim_space sha c (create_command name) w =
    report undefined_table (λ k. [])
      (create trim_space sha c.now c.fresh_id name c.random c.prints w)
execute uuid_text time_text undefined_table trim_space sha c list_command w =
    report undefined_table (λ ls. ls) (list uuid_text time_text c.list_prints w)
execute uuid_text time_text undefined_table trim_space sha c (revoke_command id) w =
    report undefined_table (λ u. []) (revoke c.now id c.prints c.others w)
