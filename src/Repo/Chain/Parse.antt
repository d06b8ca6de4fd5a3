-- ===== src/Repo/Chain/Parse.antt =====
-- One migration directory: `parse_migration` and `parse_rollback_class`.
use ze_db.Prelude.{ℕ, ◌+◌, ◌-◌, ◌*◌, Bool, not, ◌&&◌, List, [], ◌∷◌, Option, none, some}
use ze_db.Prelude.Tests.{◌==◌, leb, if◌then◌else◌}
use ze_db.Prelude.Lists.{length, all}
use ze_db.Prelude.Text.{Text, codes, text_eq, is_ascii_digit, strip_prefix}
use ze_db.Prelude.Utf8.{lines, trim}
use ze_db.Repo.Chain.Disk.{
  Contents, Entries, invalid_path, bad_rollback_class, layout, config, Result, ok, err, ◌>>=◌,
  regular_file, read_repo_file,
}

pub data RollbackClass : Type 0 where
  clean structural irreversible : RollbackClass

-- `RollbackClass::as_str` and `RollbackClass::parse`.
unfoldable pub as_str : RollbackClass → Text
as_str clean = codes "clean"
as_str structural = codes "structural"
as_str irreversible = codes "irreversible"

unfoldable pub parse_class : Text → Option RollbackClass
unfolding text_eq
parse_class text =
    if text_eq text (codes "clean")
    then some clean
    else if text_eq text (codes "structural")
    then some structural
    else if text_eq text (codes "irreversible")
    then some irreversible
    else none

-- `directory` is the listing of the migration's directory, from which its files are read.
pub record Migration : Type 0 where
  pub number : ℕ
  pub directory : Entries
  pub year : ℕ
  pub month : ℕ
  pub rollback_class : Option RollbackClass
  pub targeted : Option (List Text)

unfoldable pub upgrade_sql : Migration → Result Text
upgrade_sql m = read_repo_file (regular_file (codes "upgrade.sql") m.directory)

abbrev read_some : Option Contents → Result (Option Text)
read_some none = ok none
read_some (some c) = do t ← read_repo_file (some c); ok (some t)

unfoldable pub rollback_sql : Migration → Result (Option Text)
rollback_sql m = read_some (regular_file (codes "rollback.sql") m.directory)

abbrev class_or_error : Option RollbackClass → Result RollbackClass
class_or_error (some c) = ok c
class_or_error none = err (layout bad_rollback_class)

abbrev parse_comment : Option Text → Option RollbackClass
parse_comment none = none
parse_comment (some t) = elim (strip_prefix (codes "rollback-class:") (trim t)) [
  | none ↦ none
  | some c ↦ parse_class (trim c)
]

abbrev first_or_empty : List Text → Text
first_or_empty [] = []
first_or_empty (l ∷ ls) = l

unfoldable pub parse_rollback_class : Text → Result RollbackClass
unfolding parse_class strip_prefix lines trim
parse_rollback_class text =
    class_or_error (parse_comment (strip_prefix (codes "--") (first_or_empty (lines text))))

unfoldable pub is_digits : ℕ → Text → Bool
is_digits width t = length t == width && all is_ascii_digit t

-- The value of a run of digits, from the left.
abbrev pub decimal_from : ℕ → Text → ℕ
decimal_from acc [] = acc
decimal_from acc (c ∷ cs) = decimal_from (acc * 10 + (c - b'0')) cs

abbrev pub decimal : Text → ℕ
decimal t = decimal_from 0 t

-- The three tests of the path's parts, before anything is read.
unfoldable pub check_path : List Text → Result (Text × Text × Text)
check_path (year ∷ month ∷ number ∷ []) =
    if not (is_digits 4 year)
    then err (layout invalid_path)
    else if not (is_digits 2 month)
    then err (layout invalid_path)
    else if not (leb 1 (decimal month) && leb (decimal month) 12)
    then err (layout invalid_path)
    else if not (is_digits 5 number)
    then err (layout invalid_path)
    else ok (year, month, number)
check_path _ = err (layout invalid_path)

-- The TOML reader, and what it makes of `targeted.toml`: the allow list, or none if the text is
-- refused.
module _ (parse_targeted : Text → Option (List Text)) where
  unfoldable pub read_class : Option Contents → Result (Option RollbackClass)
  read_class none = ok none
  read_class (some c) = do
    text ← read_repo_file (some c)
    class ← parse_rollback_class text
    ok (some class)

  unfoldable pub read_targeted : Option Contents → Result (Option (List Text))
  read_targeted none = ok none
  read_targeted (some c) = do
    text ← read_repo_file (some c)
    elim (parse_targeted text) [ none ↦ err config | some allow_list ↦ ok (some allow_list) ]

  unfoldable pub parse_migration : List Text → Entries → Result Migration
  parse_migration parts directory = do
    (year, month, number) ← check_path parts
    rollback_class ← read_class (regular_file (codes "rollback.sql") directory)
    targeted ← read_targeted (regular_file (codes "targeted.toml") directory)
    ok (record {
      number = decimal number;
      directory = directory;
      year = decimal year;
      month = decimal month;
      rollback_class = rollback_class;
      targeted = targeted;
    })
