-- ===== src/ApiKeyCommand.antt =====
-- The apikey command: server/internal/apikey/command.go. Parameters are the flag parser of the
-- standard library, the parser of uuids, the hash of a token (SHA-256 in hexadecimal), and the
-- trimming of white space. Times, fresh ids and random bytes are arguments.
pub mod Tokens
pub mod Effects
pub mod Revocation
pub mod Execution
use playwright_distributed.Base.{
  Error, no_rows, Result, ok, err, ℕ, zero, suc, ◌+◌, ◌-◌, ◌*◌, ◌/◌, ◌%◌, Bool, ◌||◌, Option, none,
  some, List, [], ◌∷◌, ◌++◌, ltb, ◌==◌, if◌then◌else◌, take, Bytes, codes, is_empty, bytes_eq,
}
use playwright_distributed.Db.Models.{ApiKey, Database}
use playwright_distributed.Db.Driver.{World, statement, query}
use playwright_distributed.Db.ApiKeys.{
  is_unrevoked, delete_api_key, get_api_key, InsertApiKeyParams, insert_api_key, revoke_api_key,
}
use playwright_distributed.Http.Auth.{token_prefix}

pub data Command : Type 0 where
  create_command : Bytes → Command
  list_command : Command
  revoke_command : ℕ → Command

-- What the flag parser makes of the arguments after the subcommand: a call for help, an error, or the
-- value of the flag and the number of arguments left.
pub data Flags : Type 0 where
  asks_help invalid : Flags
  parsed : Bytes → ℕ → Flags

pub data ParseError : Type 0 where
  subcommand_required flags_invalid takes_no_arguments id_invalid unknown_subcommand : ParseError
  help_not_printed : ParseError

-- Help has been printed and nothing is left to do, or there is a command, or an error.
pub data Parsed : Type 0 where
  helped : Parsed
  to_run : Command → Parsed
  refused_args : ParseError → Parsed

abbrev with_no_arguments : Flags → (Bytes → Parsed) → Parsed
with_no_arguments asks_help next = helped
with_no_arguments invalid next = refused_args flags_invalid
with_no_arguments (parsed value zero) next = next value
with_no_arguments (parsed value (suc n)) next = refused_args takes_no_arguments

abbrev revoke_of : Option ℕ → Parsed
revoke_of none = refused_args id_invalid
revoke_of (some id) = to_run (revoke_command id)

abbrev is_help : Bytes → Bool
is_help arg =
    bytes_eq arg (codes "-h") || (bytes_eq arg (codes "--help") || bytes_eq arg (codes "help"))

-- `flags name args` parses the arguments for the one flag of that name, or for none. `prints` is
-- whether the help can be printed.
unfoldable pub parse :
    (Option Bytes → List Bytes → Flags) → (Bytes → Option ℕ) → Bool → List Bytes → Parsed
parse flags parse_uuid prints [] = refused_args subcommand_required
parse flags parse_uuid prints (name ∷ args) =
    if is_help name
    then if prints then helped else refused_args help_not_printed
    else if bytes_eq name (codes "create")
    then with_no_arguments (flags (some (codes "name")) args)
        (λ value. to_run (create_command value))
    else if bytes_eq name (codes "list")
    then with_no_arguments (flags none args) (λ value. to_run list_command)
    else if bytes_eq name (codes "revoke")
    then with_no_arguments (flags (some (codes "id")) args) (λ value. revoke_of (parse_uuid value))
    else refused_args unknown_subcommand

pub data CommandError : Type 0 where
  name_required no_random print_failed key_not_found key_not_revoked : CommandError
  statement_failed cleanup_failed : Error → CommandError

pub data CommandResult (A : Type 0) : Type 0 where
  done : A → CommandResult A
  stopped : CommandError → CommandResult A

-- base64.RawURLEncoding: six bits a character, no padding.
abbrev pub url_char : ℕ → ℕ
url_char i =
    if ltb i 26
    then b'A' + i
    else if ltb i 52
    then b'a' + (i - 26)
    else if ltb i 62
    then b'0' + (i - 52)
    else if i == 62
    then b'-'
    else b'_'

unfoldable pub encode_raw_url : Bytes → Bytes
encode_raw_url [] = []
encode_raw_url (a ∷ []) = url_char (a / 4) ∷ url_char (a % 4 * 16) ∷ []
encode_raw_url (a ∷ b ∷ []) =
    url_char (a / 4) ∷ url_char (a % 4 * 16 + b / 16) ∷ url_char (b % 16 * 4) ∷ []
encode_raw_url (a ∷ b ∷ c ∷ rest) =
    url_char (a / 4)
    ∷ url_char (a % 4 * 16 + b / 16)
    ∷ url_char (b % 16 * 4 + c / 64)
    ∷ url_char (c % 64)
    ∷ encode_raw_url rest

abbrev pub generate_token : Bytes → Bytes
generate_token random = token_prefix ++ encode_raw_url random

abbrev pub stored_token_prefix_length : ℕ
stored_token_prefix_length = 8

abbrev pub key_params : (Bytes → Bytes) → ℕ → Bytes → Bytes → InsertApiKeyParams
key_params sha id name token = record {
  id = id;
  name = name;
  hash = sha token;
  prefix = take stored_token_prefix_length token;
}

-- A key that could not be shown is deleted again.
unfoldable pub cleaned_up : Result (Unit {0}) × World → CommandResult ApiKey × World
cleaned_up (ok u, w) = (stopped print_failed, w)
cleaned_up (err e, w) = (stopped (cleanup_failed e), w)

unfoldable pub inserted : Bool → Result ApiKey × World → CommandResult ApiKey × World
unfolding cleaned_up
inserted prints (err e, w) = (stopped (statement_failed e), w)
inserted prints (ok key, w) =
    if prints then (done key, w) else cleaned_up (statement (delete_api_key key.id) w)

-- `random` is what the random source gives, and `prints` whether the token can be printed.
unfoldable pub create :
    (Bytes → Bytes)
    → (Bytes → Bytes)
    → ℕ
    → ℕ
    → Bytes
    → Option Bytes
    → Bool
    → World
    → CommandResult ApiKey × World
unfolding inserted
create trim_space sha now id name random prints w =
    if is_empty (trim_space name) then (stopped name_required, w) else elim random [
      | none ↦ (stopped no_random, w)
      | some bytes ↦ inserted prints (
          statement
            (insert_api_key now (key_params sha id (trim_space name) (generate_token bytes))) w)
    ]

unfoldable pub looked_up : Bool → Result ApiKey × World → CommandResult (Unit {0}) × World
looked_up prints (err no_rows, w) = (stopped key_not_found, w)
looked_up prints (err e, w) = (stopped (statement_failed e), w)
looked_up prints (ok key, w) =
    if is_unrevoked key
    then (stopped key_not_revoked, w)
    else if prints
    then (done tt, w)
    else (stopped print_failed, w)

-- `others` is what other transactions do between the two statements.
unfoldable pub revoked :
    ℕ → Bool → (Database → Database) → Result ApiKey × World → CommandResult (Unit {0}) × World
unfolding looked_up
revoked id prints others (ok key, w) = (done tt, w)
revoked id prints others (err no_rows, w) =
    looked_up prints (query (get_api_key id) (record w { db = others w.db }))
revoked id prints others (err e, w) = (stopped (statement_failed e), w)

unfoldable pub revoke :
    ℕ → ℕ → Bool → (Database → Database) → World → CommandResult (Unit {0}) × World
unfolding revoked
revoke now id prints others w = revoked id prints others (statement (revoke_api_key now id) w)
