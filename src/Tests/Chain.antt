-- ===== src/Tests/Chain.antt =====
-- The chain of a small repository.
use ze_db.Prelude.{◌↔◌, ◌≢◌, ℕ, ◌≡◌, ◌≢◌, refl, List, [], ◌∷◌, ◌++◌, Option, none, some, arith}
use ze_db.Prelude.Lists.{All}
use ze_db.Prelude.Text.{Text, codes}
use ze_db.Repo.Chain.{discover_chain, declared_params, next_number, migration}
use ze_db.Repo.Chain.Disk.{
  readable, Entry, file, symlink, dir, Entries, nil, cons, ok, err, layout, dated_before, symlinked,
}
use ze_db.Repo.Chain.Parse.{Migration, structural, check_path, decimal}
use ze_db.Repo.Chain.Order.{IsChain}
use ze_db.Repo.Chain.Dated.{IsDated}
use ze_db.Repo.Chain.Accept.{
  IsDeclared, discover_chain-IsChain, migration_iff, IsIn, next_number-unreachable,
}

-- A reader of `targeted.toml` that knows one text.
abbrev parse_targeted : Text → Option (List Text)
parse_targeted text = some []

abbrev first : Entries
first = cons (file (codes "upgrade.sql") (readable (codes "CREATE TABLE ${db}.t"))) nil

abbrev second : Entries
second =
    cons (file (codes "rollback.sql") (readable (codes "-- rollback-class: structural\nDROP")))
      (cons (file (codes "upgrade.sql") (readable (codes "ALTER"))) nil)

abbrev root : Entries
root =
    cons
      (dir (codes "2026") (
        cons
          (dir (codes "08")
            (cons (dir (codes "00100") second) (cons (dir (codes "00000") first) nil)))
          nil))
      nil

abbrev m0 : Migration
m0 = record {
  number = 0;
  directory = first;
  year = 2026;
  month = 8;
  rollback_class = none;
  targeted = none;
}

abbrev m100 : Migration
m100 = record {
  number = 100;
  directory = second;
  year = 2026;
  month = 8;
  rollback_class = some structural;
  targeted = none;
}

discover_root : discover_chain parse_targeted (some root) [] [] ≡ ok (m0 ∷ m100 ∷ [])
unfolding discover_chain ze_db.Repo.Chain.collect ze_db.Repo.Chain.Disk.regular_file
    ze_db.Prelude.Text.text_eq ze_db.Repo.Chain.Parse.parse_migration check_path
    ze_db.Repo.Chain.Parse.is_digits ze_db.Prelude.Text.is_ascii_digit
    ze_db.Repo.Chain.Parse.read_class ze_db.Repo.Chain.Parse.parse_rollback_class
    ze_db.Repo.Chain.Parse.read_targeted ze_db.Repo.Chain.check_windows
    ze_db.Repo.Chain.sort_by_number ze_db.Repo.Chain.check_params ze_db.Repo.Chain.Parse.upgrade_sql
    ze_db.Repo.Template.undeclared_placeholders ze_db.Repo.Template.placeholders
    ze_db.Repo.Template.scan ze_db.Repo.Template.after_open ze_db.Repo.Template.until_close
    ze_db.Repo.Template.push_name ze_db.Repo.Template.is_placeholder_name
    ze_db.Repo.Template.is_word_char ze_db.Prelude.Text.is_ascii_alphanumeric
    ze_db.Prelude.Text.contains_text ze_db.Repo.Chain.Parse.rollback_sql
discover_root = refl

discover_backwards :
    discover_chain parse_targeted
      (some (
        cons
          (dir (codes "2026") (cons (dir (codes "07") (cons (dir (codes "00100") first) nil)) nil))
          root))
      []
      []
    ≡ err (layout (dated_before 100 0))
unfolding discover_chain ze_db.Repo.Chain.collect ze_db.Repo.Chain.Disk.regular_file
    ze_db.Prelude.Text.text_eq ze_db.Repo.Chain.Parse.parse_migration check_path
    ze_db.Repo.Chain.Parse.is_digits ze_db.Prelude.Text.is_ascii_digit
    ze_db.Repo.Chain.Parse.read_class ze_db.Repo.Chain.Parse.read_targeted
    ze_db.Repo.Chain.Parse.parse_rollback_class ze_db.Repo.Chain.check_windows
    ze_db.Repo.Chain.sort_by_number
discover_backwards = refl

discover_symlink :
    discover_chain parse_targeted (some (cons (symlink (codes "2026") none) nil)) [] []
    ≡ err (layout symlinked)
unfolding discover_chain ze_db.Repo.Chain.collect
discover_symlink = refl

discover_chain-IsChain_example :
    IsChain (m0 ∷ m100 ∷ [])
    × All IsDated (m0 ∷ m100 ∷ [])
    × All (IsDeclared (declared_params [] [])) (m0 ∷ m100 ∷ [])
discover_chain-IsChain_example =
    discover_chain-IsChain parse_targeted (some root) [] [] (m0 ∷ m100 ∷ []) discover_root

migration_iff_example :
    ((m : Migration)
      → (migration (m0 ∷ m100 ∷ []) 100 ≡ some m) ↔ (IsIn m (m0 ∷ m100 ∷ []) × (m.number ≡ 100)))
    × ((migration (m0 ∷ m100 ∷ []) 100 ≡ none) ↔ All (λ m. m.number ≢ 100) (m0 ∷ m100 ∷ []))
migration_iff_example = migration_iff (m0 ∷ m100 ∷ []) 100 discover_chain-IsChain_example.0

abbrev late : Migration
late = record {
  number = 99900;
  directory = first;
  year = 2026;
  month = 8;
  rollback_class = none;
  targeted = none;
}

abbrev path : List Text
path = codes "2026" ∷ codes "08" ∷ codes "00200" ∷ []

path_ok : check_path path ≡ ok (codes "2026", codes "08", codes "00200")
unfolding check_path ze_db.Repo.Chain.Parse.is_digits ze_db.Prelude.Text.is_ascii_digit
path_ok = refl

next_number-unreachable_example : decimal (codes "00200") ≢ next_number (late ∷ [])
next_number-unreachable_example =
    next_number-unreachable [] late path (codes "2026") (codes "08") (codes "00200") (omega arith)
      path_ok
