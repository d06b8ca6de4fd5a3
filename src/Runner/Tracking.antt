-- ===== src/Runner/Tracking.antt =====
-- crates/zedb-ch/src/runner/tracking.rs, and the checks that stand before it in
-- runner.rs and runner/targets.rs.
use ze_db.Prelude.{
  ℕ, ◌^◌, Bool, false, not, ◌&&◌, ◌||◌, List, [], ◌∷◌, ◌++◌, Option, none, some, map,
}
use ze_db.Prelude.Tests.{◌==◌, ltb, if◌then◌else◌}
use ze_db.Prelude.Lists.{all, keep}
use ze_db.Prelude.Text.{Text, codes, text_eq, is_ascii_digit}
use ze_db.Prelude.Utf8.{has_control, is_empty, contains_part}
use ze_db.Repo.Chain.Parse.{Migration, decimal}
use ze_db.Runner.Base.{
  server, read_only_refused, bad_identifier, Result, ok, err, M, ◌>>=◌, ◌>>◌, return, fail, Sql,
  create_database, create_meta, create_migrations, count_version, seed_version, latest_states,
  replica_hosts, Executor, client, replica, Reply, rows, failed, Outside, State, Runner, is_some,
}

-- `validate_quotable_identifier`
unfoldable pub is_quotable : Text → Bool
unfolding has_control
is_quotable value = not (is_empty value) && not (has_control value)

-- `Runner::fleet`
unfoldable pub fleet : Runner → List Migration
fleet r = keep (λ m. not (is_some m.targeted)) r.migrations

-- `Runner::tracking_repo`
abbrev or_default : Option Text → Option Text → Text
or_default (some repo) root = repo
or_default none (some name) = name
or_default none none = codes "default"

unfoldable pub tracking_repo : Runner → Text
tracking_repo r = or_default r.config.repo r.config.root_name

-- The three results of a state as `last_states` gives them: migration, action, status.
abbrev pub LastState : Type 0
LastState = ℕ × Text × Text

-- `str::parse::<u32>`: digits, behind at most one `+`.
abbrev digits_value : Text → Option ℕ
digits_value [] = none
digits_value (c ∷ cs) =
    if all is_ascii_digit (c ∷ cs) && ltb (decimal (c ∷ cs)) (2 ^ 32)
    then some (decimal (c ∷ cs))
    else none

unfoldable pub parse_u32 : Text → Option ℕ
unfolding is_ascii_digit
parse_u32 [] = none
parse_u32 (c ∷ cs) = if c == b'+' then digits_value cs else digits_value (c ∷ cs)

abbrev state_of_number : Option ℕ → Text → Text → List LastState
state_of_number none action status = []
state_of_number (some n) action status = (n, action, status) ∷ []

abbrev state_of_row : List Text → List LastState
state_of_row (n ∷ action ∷ status ∷ more) = state_of_number (parse_u32 n) action status
state_of_row _ = []

unfoldable pub states_of_rows : List (List Text) → List LastState
unfolding parse_u32
states_of_rows [] = []
states_of_rows (x ∷ xs) = state_of_row x ++ states_of_rows xs

-- The error says that the tracking table or database is not there.
unfoldable pub names_missing_tracking : Text → Text → Bool
unfolding contains_part
names_missing_tracking database text =
    (contains_part (codes "UNKNOWN_TABLE") text
      || contains_part (codes "UNKNOWN_DATABASE") text
      || contains_part (codes "(code 60)") text
      || contains_part (codes "(code 81)") text)
    && contains_part database text

-- A `BTreeSet<u32>` is its elements in ascending order.
unfoldable pub insert_number : ℕ → List ℕ → List ℕ
insert_number n [] = n ∷ []
insert_number n (x ∷ xs) =
    let rest = insert_number n xs in
    if ltb n x then n ∷ x ∷ xs else if n == x then x ∷ xs else x ∷ rest

unfoldable pub number_set : List ℕ → List ℕ
unfolding insert_number
number_set [] = []
number_set (n ∷ ns) = insert_number n (number_set ns)

unfoldable pub has_number : List ℕ → ℕ → Bool
has_number [] n = false
has_number (x ∷ xs) n = x == n || has_number xs n

-- The filters of `applied_migrations` and `applied_customisations`.
unfoldable pub is_applied : LastState → Bool
is_applied (n, action, status) =
    text_eq status (codes "success")
    && (text_eq action (codes "upgrade") || text_eq action (codes "stamp"))

unfoldable pub is_customised : LastState → Bool
is_customised (n, action, status) =
    text_eq status (codes "success") && text_eq action (codes "apply")

abbrev pub number_of : LastState → ℕ
number_of t = t.0

-- The first field of the first row, or nothing.
abbrev pub first_field : List (List Text) → Text
first_field ((x ∷ xs) ∷ ys) = x
first_field _ = []

-- The first field of each row that has one.
abbrev pub first_fields : List (List Text) → List Text
first_fields [] = []
first_fields ([] ∷ xs) = first_fields xs
first_fields ((x ∷ ys) ∷ xs) = x ∷ first_fields xs

abbrev pub fan : Bool → List Text → List Executor
fan routed [] = []
fan routed (h ∷ []) = []
fan routed (h ∷ hs) = map (replica routed) (h ∷ hs)

abbrev pub cluster_of : Option Text → Option Text → Bool → Option Text
cluster_of (some param) (some name) false = some name
cluster_of _ _ _ = none

abbrev pub replied : Reply → Result (List (List Text))
replied (rows xs) = ok xs
replied (failed text) = err (server text)

abbrev pub answered : Text → Reply → Result (List LastState)
answered database (rows xs) = ok (states_of_rows xs)
answered database (failed text) =
    if names_missing_tracking database text then ok [] else err (server text)

module _ (o : Outside) (r : Runner) where
  abbrev pub S : Type 0
  S = State o.World

  unfoldable pub validate_sql_identifiers : M S (Unit {0})
  validate_sql_identifiers s =
      (if is_quotable r.config.tracking_database then ok tt else err bad_identifier, s)

  unfoldable pub require_write : Text → M S (Unit {0})
  require_write action = do
    validate_sql_identifiers
    if r.options.read_only || not r.options.write
        then fail (read_only_refused action)
        else return tt

  abbrev pub executed : State o.World → Option Text × o.World → Result (Unit {0}) × S
  executed s (none, w) = (ok tt, record s { world = w })
  executed s (some text, w) = (err (server text), record s { world = w })

  -- `executor.execute(sql)`, its error made a `RunnerError`.
  unfoldable pub execute : Executor → Sql → M S (Unit {0})
  execute e sql s = executed s (o.execute e sql s.world)

  unfoldable pub query : Sql → M S (List (List Text))
  query sql s = (replied (o.query sql s.world), s)

  -- The statements of `ensure_tracking`.
  unfoldable pub bootstrap : Option Text → M S (Unit {0})
  bootstrap on = do
    execute client (create_database on)
    execute client (create_meta on)
    execute client (create_migrations on)
    seeded ← query count_version
    if text_eq (first_field seeded) (codes "0") then execute client seed_version else return tt

  unfoldable pub ensure_tracking : M S (Unit {0})
  ensure_tracking = do
    validate_sql_identifiers
    let on = cluster_of r.config.cluster_param r.options.cluster r.options.no_cluster
    if r.options.dry_run then return tt else bootstrap on

  unfoldable pub last_states : Text → M S (List LastState)
  unfolding states_of_rows names_missing_tracking
  last_states database = do
    validate_sql_identifiers
    λ s. (
      answered r.config.tracking_database
          (o.query (latest_states (tracking_repo r) database) s.world),
      s,
    )

  unfoldable pub applied_migrations : Text → M S (List ℕ)
  applied_migrations database = do
    states ← last_states database
    return (number_set (map number_of (keep is_applied states)))

  unfoldable pub applied_customisations : Text → M S (List ℕ)
  applied_customisations database = do
    states ← last_states database
    return (number_set (map number_of (keep is_customised states)))

  abbrev pub hosts_of : Option Text → M S (List Text)
  hosts_of none = return []
  hosts_of (some cluster) = do xs ← query (replica_hosts cluster); return (first_fields xs)

  -- No executors mean the current one: there is no cluster, or one host at most.
  unfoldable pub system_executors : Bool → M S (List Executor)
  system_executors routed = do hosts ← hosts_of r.options.cluster; return (fan routed hosts)
