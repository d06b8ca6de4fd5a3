-- ===== src/Repo/Chain.antt =====
-- crates/zedb-core/src/repo/chain.rs: the migrations on disk, read into an ordered chain.
-- A directory is the list of its entries, in the order in which `read_dir` gives them.
pub mod Disk
pub mod Parse
pub mod Order
pub mod Dated
pub mod Accept
use ze_db.Prelude.{
  ℕ, ◌+◌, ◌*◌, ◌≡◌, refl, Bool, true, false, not, ◌&&◌, ◌||◌, List, [], ◌∷◌, ◌++◌, Option, none,
  some, map,
}
use ze_db.Prelude.Tests.{◌==◌, leb, ltb, if◌then◌else◌}
use ze_db.Prelude.Lists.{find}
use ze_db.Prelude.Text.{Text, codes}
use ze_db.Repo.Template.{builtin_params, undeclared_placeholders}
use ze_db.Repo.Chain.Disk.{
  Contents, Entry, file, symlink, dir, Entries, nil, cons, LayoutProblem, too_deep, symlinked,
  duplicate_number, dated_before, undeclared_param, RepoError, layout, Result, ok, err, ◌>>=◌, ◌>>◌,
  regular_file, read_repo_file,
}
use ze_db.Repo.Chain.Parse.{Migration, upgrade_sql, rollback_sql, parse_migration}

abbrev pub max_migration_depth : ℕ
max_migration_depth = 8

abbrev pub is_some {ℓ} : {A : Type ℓ} → Option A → Bool
is_some none = false
is_some (some a) = true

-- The test at the head of `collect`.
abbrev pub check_depth : ℕ → Result (Unit {0})
check_depth depth = if ltb max_migration_depth depth then err (layout too_deep) else ok tt

module _ (parse_targeted : Text → Option (List Text)) where
  -- `collect`: the loop over the entries of a directory, and its body for one of them. `parts`
  -- is the path below the root.
  unfoldable mutual
    pub collect : List Text → ℕ → Entries → Result (List Migration)
    collect parts depth nil = ok []
    collect parts depth (cons e es) = collect_entry parts depth e >>= λ found.
        collect parts depth es >>= λ more. ok (found ++ more)

    pub collect_entry : List Text → ℕ → Entry → Result (List Migration)
    collect_entry parts depth (file name c) = ok []
    collect_entry parts depth (symlink name o) = err (layout symlinked)
    collect_entry parts depth (dir name es) =
        let here = parts ++ name ∷ [] in
        let found = parse_migration parse_targeted here es >>= λ m. ok (m ∷ []) in
        let below = check_depth (depth + 1) >> collect here (depth + 1) es in
        if is_some (regular_file (codes "upgrade.sql") es) then found else below

-- `sort_by_key` is a stable sort.
unfoldable pub insert_by_number : Migration → List Migration → List Migration
insert_by_number m [] = m ∷ []
insert_by_number m (n ∷ ms) =
    if leb m.number n.number then m ∷ n ∷ ms else n ∷ insert_by_number m ms

unfoldable pub sort_by_number : List Migration → List Migration
unfolding insert_by_number
sort_by_number [] = []
sort_by_number (m ∷ ms) = insert_by_number m (sort_by_number ms)

-- `(b.year, b.month) < (a.year, a.month)`.
abbrev pub dated_earlier : Migration → Migration → Bool
dated_earlier b a = ltb b.year a.year || (b.year == a.year && ltb b.month a.month)

abbrev pub check_pair : Migration → Migration → Result (Unit {0})
check_pair a b =
    if a.number == b.number
    then err (layout (duplicate_number a.number))
    else if dated_earlier b a
    then err (layout (dated_before b.number a.number))
    else ok tt

-- The loop over `found.windows(2)`.
unfoldable pub check_windows : List Migration → Result (Unit {0})
check_windows [] = ok tt
check_windows (a ∷ []) = ok tt
check_windows (a ∷ b ∷ ms) = check_pair a b >> check_windows (b ∷ ms)

abbrev pub first_unknown : List Text → Result (Unit {0})
first_unknown [] = ok tt
first_unknown (name ∷ names) = err (layout (undeclared_param name))

abbrev pub check_some : List Text → Option Text → Result (Unit {0})
check_some declared none = ok tt
check_some declared (some sql) = first_unknown (undeclared_placeholders sql declared)

-- The loop over the migrations' files.
unfoldable pub check_params : List Text → List Migration → Result (Unit {0})
check_params declared [] = ok tt
check_params declared (m ∷ ms) = do
  sql ← upgrade_sql m
  check_some declared (some sql)
  back ← rollback_sql m
  check_some declared back
  check_params declared ms

-- `RepoConfig::declared_params`, of the names under `[params]` and of the scopes' parameters.
abbrev pub declared_params : List Text → List Text → List Text
declared_params params scopes = builtin_params ++ (params ++ scopes)

abbrev pub collect_root : (Text → Option (List Text)) → Option Entries → Result (List Migration)
collect_root parse_targeted none = ok []
collect_root parse_targeted (some es) = collect parse_targeted [] 0 es

-- `none` for a root that is no directory.
unfoldable pub discover_chain :
    (Text → Option (List Text)) → Option Entries → List Text → List Text → Result (List Migration)
discover_chain parse_targeted root params scopes = do
  found ← collect_root parse_targeted root
  let chain = sort_by_number found
  check_windows chain
  check_params (declared_params params scopes) chain
  ok chain

-- `MigrationRepo::next_number` and `MigrationRepo::migration`.
unfoldable pub next_number : List Migration → ℕ
next_number [] = 0
next_number (m ∷ []) = m.number + 100
next_number (m ∷ n ∷ ms) = next_number (n ∷ ms)

unfoldable pub migration : List Migration → ℕ → Option Migration
migration ms number = find (λ m. m.number == number) ms
