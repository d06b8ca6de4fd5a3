-- ===== src/Runner/Actions/Import.antt =====
-- `Runner::import_tracking`, and the quoting of its table's name in crates/zedb-ch/src/runner.rs.
use ze_db.Prelude.{ℕ, ◌^◌, Bool, ◌&&◌, ◌||◌, List, [], ◌∷◌, ◌++◌, none}
use ze_db.Prelude.Tests.{◌==◌, ltb, if◌then◌else◌}
use ze_db.Prelude.Lists.{all}
use ze_db.Prelude.Text.{Text, codes, text_eq, replace, is_ascii_digit}
use ze_db.Prelude.Utf8.{is_empty, has_control, has_white}
use ze_db.Repo.Chain.Parse.{decimal}
use ze_db.Runner.Base.{
  bad_table, already_has_rows, Result, ok, err, M, ◌>>=◌, ◌>>◌, return, count_rows, copy_rows,
  client, Outside, Runner,
}
use ze_db.Runner.Tracking.{S, require_write, ensure_tracking, execute, query, first_field}
use ze_db.Runner.Apply.{lift, audit, success}

abbrev push_part : ℕ → List Text → List Text
push_part c [] = (c ∷ []) ∷ []
push_part c (p ∷ ps) = (c ∷ p) ∷ ps

-- `value.split('.')`
unfoldable pub split_dots : Text → List Text
split_dots [] = [] ∷ []
split_dots (c ∷ t) = let parts = split_dots t in if c == b'.' then [] ∷ parts else push_part c parts

unfoldable pub backtick_identifier : Text → Text
unfolding replace
backtick_identifier name =
    b'`'
    ∷ (replace (b'`' ∷ []) (b'\\' ∷ b'`' ∷ []) (replace (b'\\' ∷ []) (b'\\' ∷ b'\\' ∷ []) name)
        ++ b'`' ∷ [])

abbrev is_bad_part : Text → Bool
is_bad_part part = is_empty part || (has_control part || has_white part)

abbrev quote_parts : List Text → Result Text
quote_parts (table ∷ []) =
    if is_bad_part table then err bad_table else ok (backtick_identifier table)
quote_parts (database ∷ table ∷ []) =
    if is_bad_part database || is_bad_part table
    then err bad_table
    else ok (backtick_identifier database ++ b'.' ∷ backtick_identifier table)
quote_parts _ = err bad_table

unfoldable pub backtick_qualified_table : Text → Result Text
backtick_qualified_table value = quote_parts (split_dots value)

-- `value.to_string()` of the first field, where the field came as text, and its `parse::<u64>`.
abbrev u64_digits : Text → ℕ
u64_digits [] = 0
u64_digits (c ∷ t) =
    if all is_ascii_digit (c ∷ t) && ltb (decimal (c ∷ t)) (2 ^ 64) then decimal (c ∷ t) else 0

unfoldable pub parse_u64_or_zero : Text → ℕ
unfolding is_ascii_digit
parse_u64_or_zero [] = 0
parse_u64_or_zero (c ∷ t) = if c == b'+' then u64_digits t else u64_digits (c ∷ t)

module _ (o : Outside) (r : Runner) where
  -- The import proper, behind the checks.
  unfoldable pub copy_tracking : Text → M (S o r) ℕ
  copy_tracking source_table = do
    ensure_tracking o r
    existing ← query o r count_rows
    lift o r (
        if text_eq (first_field existing) (codes "0")
        then ok tt
        else err (already_has_rows (first_field existing)))
    execute o r client (copy_rows source_table)
    imported ← query o r count_rows
    audit o r (codes "*") 0 (codes "import-tracking") success none
    return (parse_u64_or_zero (first_field imported))

  unfoldable pub import_tracking : Text → M (S o r) ℕ
  import_tracking source_table = do
    require_write o r (codes "import-tracking")
    table ← lift o r (backtick_qualified_table source_table)
    if r.options.dry_run then return 0 else copy_tracking table
