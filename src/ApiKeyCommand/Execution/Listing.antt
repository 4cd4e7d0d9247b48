-- ===== src/ApiKeyCommand/Execution/Listing.antt =====
-- What `apikey list` shows.
use playwright_distributed.Base.{
  Error, Result, ok, err, ℕ, suc, ◌≡◌, refl, ap, ◌∙◌, subst, ◌≢◌, ◌⊎◌, inl, inr, Bool, Option, none,
  some, List, [], ◌∷◌, ◌++◌, map, arith, if-cases, count, Bytes, count-sort_by, IsOrdered,
  sort_by-IsOrdered, codes,
}
use playwright_distributed.Db.Models.{ApiKey, created_before}
use playwright_distributed.Db.Driver.{World, query}
use playwright_distributed.ApiKeyCommand.{
  list_command, CommandError, statement_failed, cleanup_failed, CommandResult, done, stopped,
}
use playwright_distributed.ApiKeyCommand.Execution.{
  Line, header_line, print_lines, format_time, key_line, listed_keys, list, finished,
  friendly_database_error, report, Circumstances, execute,
}
use playwright_distributed.Db.ApiKeys.{list_api_keys}
use playwright_distributed.Db.Driver.Queries.{query_ok}

abbrev pub older : ApiKey → ApiKey → Bool
older k l = created_before k.created_at k.id l.created_at l.id

CommandResult-cases :
    {A : Type 0} (r : CommandResult A)
    → ((a : A) × (r ≡ done a)) ⊎ ((e : CommandError) × (r ≡ stopped e))
CommandResult-cases (done a) = inl (a, refl)
CommandResult-cases (stopped e) = inr (e, refl)

print_lines-done :
    (prints : ℕ → Bool) (n : ℕ) (lines shown : List Line)
    → print_lines prints n lines ≡ done shown
    → shown ≡ lines
unfolding print_lines
print_lines-done prints n [] shown h = ground arith
print_lines-done prints n (line ∷ lines) shown h =
    elim (CommandResult-cases (print_lines prints (suc n) lines)) [
      | inl (ls, e) ↦ let same = print_lines-done prints (suc n) lines ls e in ground arith
      | inr (x, e) ↦ absurd (ground arith)
    ]

friendly_not_finished :
    (undefined_table : Error → Bool) (e : CommandError) (lines : List Line)
    → friendly_database_error undefined_table e ≢ finished lines
unfolding friendly_database_error
friendly_not_finished undefined_table (statement_failed e) lines =
    if-cases (λ x. x ≢ finished lines) (undefined_table e) _ _ (λ _ h. cc) (λ _ h. cc)
friendly_not_finished undefined_table (cleanup_failed e) lines =
    if-cases (λ x. x ≢ finished lines) (undefined_table e) _ _ (λ _ h. cc) (λ _ h. cc)
friendly_not_finished undefined_table e lines = λ h. cc

-- The text of the header.
abbrev pub column_names : Bytes
column_names = codes "ID\tNAME\tPREFIX\tCREATED_AT\tLAST_USED_AT\tREVOKED_AT\n"

module _ (uuid_text time_text : ℕ → Bytes) (undefined_table : Error → Bool) where
  -- A moment that may be missing, for which a dash stands.
  abbrev MayBe : Option ℕ → Bytes → Type 0
  MayBe none text = text ≡ b'-' ∷ []
  MayBe (some t) text = text ≡ time_text t

  format_time-MayBe : (t : Option ℕ) → MayBe t (format_time uuid_text time_text t)
  format_time-MayBe none = refl
  format_time-MayBe (some t) = refl

  -- The text of a key: its id, name and prefix, when it was made, last used and revoked, with tabs
  -- between them and a line end after them. The name stands as it is, with its tabs and line ends.
  pub record IsRow (k : ApiKey) (text : Bytes) : Type 0 where
    pub used : Bytes
    pub withdrawn : Bytes
    pub when_used : MayBe k.last_used_at used
    pub when_revoked : MayBe k.revoked_at withdrawn
    pub same :
        text
        ≡ uuid_text k.id
          ++ (9 ∷ k.name
              ++ (9 ∷ k.prefix
                  ++ (9 ∷ time_text k.created_at ++ (9 ∷ used ++ (9 ∷ withdrawn ++ (10 ∷ []))))))

  -- One text for each key, in the order of the keys.
  abbrev pub AreRows : List ApiKey → List Bytes → Type 0
  AreRows [] [] = Unit
  AreRows (k ∷ keys) (text ∷ texts) = IsRow k text × AreRows keys texts
  AreRows _ _ = ⊥

  key_line-IsRow : (k : ApiKey) → IsRow k (key_line uuid_text time_text k)
  key_line-IsRow k = record {
    used = format_time uuid_text time_text k.last_used_at;
    withdrawn = format_time uuid_text time_text k.revoked_at;
    when_used = format_time-MayBe k.last_used_at;
    when_revoked = format_time-MayBe k.revoked_at;
    same = refl;
  }

  map-AreRows : (keys : List ApiKey) → AreRows keys (map (key_line uuid_text time_text) keys)
  map-AreRows [] = tt
  map-AreRows (k ∷ keys) = (key_line-IsRow k, map-AreRows keys)

  report-finished :
      (r : CommandResult (List Line) × World) (lines : List Line)
      → (report undefined_table (λ ls. ls) r).0 ≡ finished lines
      → r.0 ≡ done lines
  unfolding report
  report-finished (done ls, w) lines h = ground arith
  report-finished (stopped e, w) lines h = absurd (friendly_not_finished undefined_table e lines h)

  listed_keys-done :
      (prints : ℕ → Bool) (r : Result (List ApiKey) × World) (lines : List Line)
      → (listed_keys uuid_text time_text prints r).0 ≡ done lines
      → (keys : List ApiKey) × ((r.0 ≡ ok keys)
          × (lines ≡ header_line ∷ map (key_line uuid_text time_text) keys))
  unfolding listed_keys
  listed_keys-done prints (err e, w) lines h = cc
  listed_keys-done prints (ok keys, w) lines h = (keys, (refl, print_lines-done prints 0 _ lines h))

  report_world :
      {A : Type 0} (show : A → List Line) (r : CommandResult A × World)
      → (report undefined_table show r).1 ≡ r.1
  unfolding report
  report_world show (done a, w) = refl
  report_world show (stopped e, w) = refl

  listed_keys_world :
      (prints : ℕ → Bool) (r : Result (List ApiKey) × World)
      → (listed_keys uuid_text time_text prints r).1 ≡ r.1
  unfolding listed_keys
  listed_keys_world prints (err e, w) = refl
  listed_keys_world prints (ok keys, w) = refl

  module _ (trim_space sha : Bytes → Bytes) where
    -- When the list command ends without an error, it has handed to the tab writer the names of the
    -- columns and then one row of text for each key of the table, as often as the table has it, in
    -- the order of creation and then of the ids, and it has left the tables as they were; a row is
    -- the id, the name, the prefix and the times of creation, last use and revocation of the key,
    -- with tabs between them, a line end after them, and a dash for a time that the key does not
    -- have.
    pub execute_list :
        (c : Circumstances) (w : World) (lines : List Line)
        → (execute uuid_text time_text undefined_table trim_space sha c list_command w).0
          ≡ finished lines
        → (keys : List ApiKey) × ((texts : List Bytes) × (((lines ≡ column_names ∷ texts)
                × AreRows keys texts)
              × (IsOrdered older keys
                  × (((p : ApiKey → Bool) → count p keys ≡ count p w.db.api_keys)
                      × ((execute uuid_text time_text undefined_table trim_space sha c list_command
                            w).1.db
                          ≡ w.db)))))
    unfolding execute list list_api_keys
    execute_list c w lines h =
        let r = query (λ db. ok (list_api_keys db)) w in
        let shown = report-finished (listed_keys uuid_text time_text c.list_prints r) lines h in
        let (keys, (got, same)) = listed_keys-done c.list_prints r lines shown in
        let (read, kept) = query_ok (λ db. ok (list_api_keys db)) w keys got in
        let sorted : list_api_keys w.db ≡ keys = ground arith in
        (
          keys,
          (
            map (key_line uuid_text time_text) keys,
            (
              (same, map-AreRows keys),
              (
                subst (IsOrdered older) sorted (
                    sort_by-IsOrdered older (λ k l h. ground arith) (λ j k l g h. ground arith)
                      w.db.api_keys),
                (
                  (λ p. rw⁻¹ sorted (count-sort_by older p w.db.api_keys)),
                  ap (λ v. v.db)
                        (report_world (λ ls. ls) (listed_keys uuid_text time_text c.list_prints r))
                      ∙ (ap (λ v. v.db) (listed_keys_world c.list_prints r) ∙ kept),
                ),
              ),
            ),
          ),
        )
