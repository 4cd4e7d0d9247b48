-- ===== src/Tests/Commands.antt =====
-- `apikey list` on a table of two keys.
use playwright_distributed.Base.{
  Error, ℕ, ◌≡◌, refl, Bool, true, false, none, List, [], ◌∷◌, ◌++◌, count, Bytes, insert_by,
  sort_by, IsOrdered, codes,
}
use playwright_distributed.Db.Models.{ApiKey}
use playwright_distributed.Db.Driver.{World, statement}
use playwright_distributed.Db.ApiKeys.{list_api_keys}
use playwright_distributed.ApiKeyCommand.{list_command}
use playwright_distributed.ApiKeyCommand.Execution.{
  Line, print_lines, listed_keys, list, finished, report, Circumstances, execute,
}
use playwright_distributed.ApiKeyCommand.Execution.Listing.{
  older, column_names, AreRows, execute_list,
}

abbrev key_row : ℕ → ℕ → ApiKey
key_row id created_at = record {
  id = id;
  name = codes "ci";
  hash = [];
  prefix = codes "pwd_abcd";
  created_at = created_at;
  last_used_at = none;
  revoked_at = none;
}

abbrev two_keys : World
two_keys = record {
  db = record {
    workers = [];
    sessions = [];
    api_keys = key_row 1 20 ∷ key_row 2 10 ∷ [];
    capacity_changed = 0;
  };
  replies = [];
}

abbrev one_byte : ℕ → Bytes
one_byte n = n ∷ []

abbrev unchanged : Bytes → Bytes
unchanged name = name

abbrev never : Error → Bool
never e = false

abbrev calm_terminal : Circumstances
calm_terminal = record {
  now = 30;
  fresh_id = 3;
  random = none;
  prints = true;
  list_prints = λ n. true;
  others = λ db. db;
}

abbrev two_lines : List Line
two_lines =
    column_names
    ∷ (one_byte 2 ++ codes "\tci\tpwd_abcd\t" ++ one_byte 10 ++ codes "\t-\t-\n")
    ∷ (one_byte 1 ++ codes "\tci\tpwd_abcd\t" ++ one_byte 20 ++ codes "\t-\t-\n")
    ∷ []

two_shown :
    (execute one_byte one_byte never unchanged unchanged calm_terminal list_command two_keys).0
    ≡ finished two_lines
unfolding execute report list listed_keys print_lines list_api_keys statement sort_by insert_by
two_shown = refl

execute_list_example :
    (keys : List ApiKey) × ((texts : List Bytes) × (((two_lines ≡ column_names ∷ texts)
          × AreRows one_byte one_byte never keys texts)
        × (IsOrdered older keys
            × (((p : ApiKey → Bool) → count p keys ≡ count p two_keys.db.api_keys)
                × ((execute one_byte one_byte never unchanged unchanged calm_terminal list_command
                      two_keys).1.db
                    ≡ two_keys.db)))))
execute_list_example =
    execute_list one_byte one_byte never unchanged unchanged calm_terminal two_keys two_lines
      two_shown
