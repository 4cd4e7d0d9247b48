-- ===== src/Tests/Keys.antt =====
-- API keys: tokens, commands and requests.
use playwright_distributed.Base.{
  ℕ, ◌≤◌, ◌≡◌, refl, sym, ap, ◌≢◌, ◌↔◌, ◌⊎◌, true, false, Option, none, some, List, [], ◌∷◌, map,
  arith, ◌==◌, if◌then◌else◌, count, All, Bytes, codes, is_empty, span, strip_prefix,
}
use playwright_distributed.Http.Auth.{
  authenticated, token_of, bearer_token, counted, requires_authentication, found_key, check_token,
  required_then, authenticate,
}
use playwright_distributed.Http.Auth.Bearer.{IsBearer, bearer_token_iff}
use playwright_distributed.Http.Auth.Guard.{
  IsKeyHolder, IsOpen, authenticate_sound, Request, answer, answers, NeedsKey, latched-NeedsKey,
}
use playwright_distributed.Http.Auth.Accepts.{at_rest}
use playwright_distributed.ApiKeyCommand.{
  create_command, list_command, revoke_command, Flags, parsed, subcommand_required,
  takes_no_arguments, id_invalid, unknown_subcommand, help_not_printed, helped, to_run,
  refused_args, parse, print_failed, done, stopped, encode_raw_url, generate_token, key_params,
  cleaned_up, inserted, create, looked_up, revoked, revoke,
}
use playwright_distributed.ApiKeyCommand.Tokens.{header}
use playwright_distributed.ApiKeyCommand.Effects.{create_authenticates, create_print_failed}
use playwright_distributed.Db.Models.{ApiKey, Database}
use playwright_distributed.Db.Driver.{World, statement}
use playwright_distributed.Db.ApiKeys.KeyMap.{
  view, KeyOp, insert_op, revoke_op, touch_op, run_key_op, HasHashIndex,
}
use playwright_distributed.Db.ApiKeys.Refinement.{run_key_ops, spec_key_ops, run_key_ops_refine}
use playwright_distributed.Tests.Data.{store}
use playwright_distributed.Db.ApiKeys.{
  count_active_api_keys, delete_api_key, get_api_key, get_active_api_key_by_hash, insert_api_key,
  revoke_api_key, touch_api_key,
}
use playwright_distributed.ApiKeyCommand.Revocation.{revoke_stays_out}

-- Stands for SHA-256: a text is its own hash.
abbrev sha : Bytes → Bytes
sha token = token

abbrev trim_space : Bytes → Bytes
trim_space name = name

abbrev random : Bytes
random = 0 ∷ 255 ∷ 16 ∷ 7 ∷ []

abbrev token : Bytes
token = codes "pwd_AP8QBw"

token_text : generate_token random ≡ token
unfolding encode_raw_url
token_text = refl

abbrev name : Bytes
name = codes "ci"

abbrev new_key : ApiKey
new_key = record {
  id = 5;
  name = name;
  hash = token;
  prefix = codes "pwd_AP8Q";
  created_at = 40;
  last_used_at = none;
  revoked_at = none;
}

abbrev with_key : Database
with_key = record store { api_keys = new_key ∷ [] }

abbrev calm : Database → World
calm db = record { db = db; replies = [] }

created_key :
    create trim_space sha 40 5 name (some random) true (calm store) ≡ (done new_key, calm with_key)
unfolding create inserted encode_raw_url statement insert_api_key
created_key = refl

abbrev parse_uuid : Bytes → Option ℕ
parse_uuid arg = if is_empty arg then none else some 5

abbrev flags : Option Bytes → List Bytes → Flags
flags wanted [] = parsed [] 0
flags wanted (arg ∷ []) = parsed arg 0
flags wanted (arg ∷ args) = parsed arg 1

bearer_token_iff_example :
    (bearer_token (codes "bEARER pwd_AP8QBw") ≡ some token)
    ↔ IsBearer (codes "bEARER pwd_AP8QBw") token
bearer_token_iff_example = bearer_token_iff (codes "bEARER pwd_AP8QBw") token

abbrev sent : Bytes
sent = codes "Bearer pwd_AP8QBw"

passes :
    (authenticate sha 50 sent false false (calm with_key)).0
    ≡ authenticated (record { key_id = some 5 })
unfolding authenticate requires_authentication required_then check_token found_key statement
    count_active_api_keys get_active_api_key_by_hash bearer_token strip_prefix token_of span counted
passes = refl

authenticate_sound_example :
    IsOpen false false with_key (record { key_id = some 5 })
    ⊎ IsKeyHolder sha sent with_key (record { key_id = some 5 })
authenticate_sound_example =
    authenticate_sound sha 50 sent false false (calm with_key) (record { key_id = some 5 }) passes

abbrev asked : Request
asked = record { authorization = sent; now = 50; meanwhile = false; world = calm with_key }

latched-NeedsKey_example : All (NeedsKey sha) (answers sha true (asked ∷ (asked ∷ [])))
latched-NeedsKey_example = latched-NeedsKey sha (asked ∷ (asked ∷ []))

create_authenticates_example :
    (authenticate sha 60
      (header (generate_token random))
      false
      false
      (at_rest (create trim_space sha 40 5 name (some random) true (calm store)).1.db)).0
    ≡ authenticated (record { key_id = some 5 })
create_authenticates_example =
    create_authenticates trim_space sha 40 5 name random true (calm store) new_key 60 false false
      refl (ap (λ x. x.0) created_key)

not_printed :
    (create trim_space sha 40 5 name (some random) false (calm store)).0 ≡ stopped print_failed
unfolding create inserted encode_raw_url statement insert_api_key delete_api_key cleaned_up
not_printed = refl

nothing_left : (create trim_space sha 40 5 name (some random) false (calm store)).1.db ≡ store
nothing_left = create_print_failed trim_space sha 40 5 name random false (calm store) not_printed

abbrev same_tables : Database → Database
same_tables db = db

abbrev revoked_key : Database
revoked_key = record store { api_keys = record new_key { revoked_at = some 45 } ∷ [] }

-- A second revocation finds the key revoked.
revoked_twice : revoke 46 5 true same_tables (calm revoked_key) ≡ (done tt, calm revoked_key)
unfolding revoke revoked looked_up statement revoke_api_key get_api_key
revoked_twice = refl

abbrev other_key : ApiKey
other_key = record new_key { id = 6; hash = codes "pwd_x" }

abbrev two_keys : Database
two_keys = record store { api_keys = new_key ∷ (other_key ∷ []) }

abbrev one_left : Database
one_left = record store { api_keys = record new_key { revoked_at = some 46 } ∷ (other_key ∷ []) }

revoked_once : revoke 46 5 true same_tables (calm two_keys) ≡ (done tt, calm one_left)
unfolding revoke revoked statement revoke_api_key
revoked_once = refl

one_row_each :
    count
      (λ k. k.id == 5)
      (same_tables (statement (revoke_api_key 46 5) (calm two_keys)).1.db).api_keys
    ≤ 1
unfolding statement revoke_api_key
one_row_each = omega arith

abbrev from_other : Request
from_other = record {
  authorization = codes "Bearer pwd_x";
  now = 50;
  meanwhile = false;
  world = calm one_left;
}

other_passes : (answer sha true from_other).0 ≡ authenticated (record { key_id = some 6 })
unfolding authenticate requires_authentication required_then check_token found_key statement
    get_active_api_key_by_hash bearer_token strip_prefix token_of span
other_passes = refl

revoke_stays_out_example : ◌≢◌ {A = Option ℕ} (some 6) (some 5)
revoke_stays_out_example =
    revoke_stays_out 46 5 true same_tables (calm two_keys) sha from_other true
      (record { key_id = some 6 }) one_row_each (ap (λ x. x.0) revoked_once)
      (ap (λ x. x.1.db) (sym revoked_once)) other_passes

args_read :
    map (parse flags parse_uuid true) (
      (codes "create" ∷ (codes "ci" ∷ []))
      ∷ ((codes "list" ∷ [])
          ∷ ((codes "revoke" ∷ (codes "u" ∷ []))
              ∷ ((codes "revoke" ∷ [])
                  ∷ ((codes "list" ∷ (codes "a" ∷ (codes "b" ∷ [])))
                      ∷ ((codes "help" ∷ []) ∷ ((codes "drop" ∷ []) ∷ ([] ∷ []))))))))
    ≡ to_run (create_command (codes "ci"))
      ∷ (to_run list_command
          ∷ (to_run (revoke_command 5)
              ∷ (refused_args id_invalid
                  ∷ (refused_args takes_no_arguments
                      ∷ (helped
                          ∷ (refused_args unknown_subcommand
                              ∷ (refused_args subcommand_required ∷ [])))))))
unfolding parse
args_read = refl

abbrev ops : List (ℕ × KeyOp)
ops =
    (40, insert_op (key_params sha 5 name token))
    ∷ ((41, insert_op (key_params sha 5 name (codes "pwd_x")))
        ∷ ((42, touch_op 5) ∷ ((43, revoke_op 5) ∷ [])))

one_key : HasHashIndex store
one_key h = omega arith

run_key_ops_refine_example :
    HasHashIndex (run_key_ops ops store).1
    × (view (run_key_ops ops store).1 ≡ spec_key_ops (run_key_ops ops store).0 (view store))
run_key_ops_refine_example = run_key_ops_refine ops store one_key

ops_log : map (λ x. x.1) (run_key_ops ops store).0 ≡ true ∷ (false ∷ (true ∷ (true ∷ [])))
unfolding run_key_ops run_key_op insert_api_key touch_api_key revoke_api_key
ops_log = refl

help_fails : parse flags parse_uuid false (codes "help" ∷ []) ≡ refused_args help_not_printed
unfolding parse
help_fails = refl
