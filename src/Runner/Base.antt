-- ===== src/Runner/Base.antt =====
-- The state, the errors and the outside of crates/zedb-ch/src/runner.rs. A method of `Runner`
-- takes the state and returns its result with the state that it leaves.
use ze_db.Prelude.{ℕ, Bool, true, false, List, [], ◌∷◌, Option, none, some}
use ze_db.Prelude.Text.{Text}
use ze_db.Repo.Template.{RenderError}
use ze_db.Repo.Chain.Disk.{RepoError}
use ze_db.Repo.Chain.Parse.{Migration}

-- `RunnerError`, with a constructor for each message.
pub data RunnerError : Type 0 where
  server : Text → RunnerError
  failed_statement : Text → Text → ℕ → Text → RunnerError
  no_migration no_rollback not_targeted : ℕ → RunnerError
  unreadable : RepoError → RunnerError
  bad_template : RenderError → RunnerError
  needs_cluster : Text → RunnerError
  unresolved : Text → List Text → RunnerError
  unknown_group : Text → RunnerError
  no_databases : RunnerError
  bad_identifier bad_table : RunnerError
  read_only_refused : Text → RunnerError
  irreversible_refused targeted_refused : ℕ → RunnerError
  not_latest : Text → ℕ → ℕ → RunnerError
  restricted : Text → ℕ → RunnerError
  already_has_rows : Text → RunnerError

-- `panicked`: the process stops here.
pub data Result (A : Type 0) : Type 0 where
  ok : A → Result A
  err : RunnerError → Result A
  panicked : Result A

abbrev pub M : Type 0 → Type 0 → Type 0
M S A = S → Result A × S

abbrev pub bind : {S A B : Type 0} → Result A × S → (A → M S B) → Result B × S
bind (ok a, s) f = f a s
bind (err e, s) f = (err e, s)
bind (panicked, s) f = (panicked, s)

infixl 5 ◌>>=◌ ◌>>◌
abbrev pub ◌>>=◌ : {S A B : Type 0} → M S A → (A → M S B) → M S B
◌>>=◌ m f s = bind (m s) f

abbrev pub ◌>>◌ : {S B : Type 0} → M S (Unit {0}) → M S B → M S B
m >> k = m >>= λ _. k

abbrev pub return : {S A : Type 0} → A → M S A
return a s = (ok a, s)

abbrev pub fail : {S A : Type 0} → RunnerError → M S A
fail e s = (err e, s)

abbrev pub crash : {S A : Type 0} → M S A
crash s = (panicked, s)

-- `for x in xs { body(x)? }`
unfoldable pub for_each : {S A : Type 0} → List A → (A → M S (Unit {0})) → M S (Unit {0})
for_each [] body = return tt
for_each (x ∷ xs) body = body x >> for_each xs body

pub record Row : Type 0 where
  pub repo : Text
  pub db : Text
  pub migration : ℕ
  pub action : Text
  pub status : Text
  pub error : Option Text
  pub run_id : Text

-- The statements that the runner writes, and the scripts that it passes on.
pub data Sql : Type 0 where
  create_database create_meta create_migrations : Option Text → Sql
  count_version seed_version count_rows : Sql
  insert_row : Row → Sql
  copy_rows : Text → Sql
  latest_states : Text → Text → Sql
  replica_hosts : Text → Sql
  registry : Text → Sql
  default_registry : Sql
  script : Text → Sql

-- `replica` is a connection to one host, on the client's configuration or the admin's.
pub data Executor : Type 0 where
  client admin : Executor
  replica : Bool → Text → Executor

pub data Reply : Type 0 where
  rows : List (List Text) → Reply
  failed : Text → Reply

-- What the runner does not implement: the ClickHouse servers behind `ChClient`, and the regular
-- expressions of `decluster` and of `NEEDS_ADMIN`. A statement changes the world and may answer
-- with an error's text; a query does not change it.
pub record Outside : Type 1 where
  pub World : Type 0
  pub execute : Executor → Sql → World → Option Text × World
  pub query : Sql → World → Reply
  pub decluster : Text → Text
  pub admin_form : Text → Bool

pub record AuditLine : Type 0 where
  pub db : Text
  pub migration : ℕ
  pub action : Text
  pub status : Text
  pub error : Text

-- The servers, and the lines handed to the local audit log, the first one first.
pub record State (World : Type 0) : Type 0 where
  pub world : World
  pub audited : List AuditLine

-- `TrackingConfig`, `FleetConfig` and `ParamConfig` of `zedb.toml`; `root_name` is the name of
-- the repository's directory.
pub record Config : Type 0 where
  pub tracking_database : Text
  pub cluster_param : Option Text
  pub repo : Option Text
  pub root_name : Option Text
  pub registry_query : Option Text
  pub params : List (Text × Option Text)

pub record Options : Type 0 where
  pub read_only : Bool
  pub has_admin : Bool
  pub cluster : Option Text
  pub no_cluster : Bool
  pub write : Bool
  pub dry_run : Bool
  pub overrides : List (Text × Text)

-- `Runner`, with the parts of `MigrationRepo` that it reads. `groups` are those of
-- `exclusions.toml`.
pub record Runner : Type 0 where
  pub migrations : List Migration
  pub groups : List (Text × List Text)
  pub config : Config
  pub options : Options
  pub run_id : Text

pub data Targets : Type 0 where
  databases : List Text → Targets
  group : Text → Targets
  everything : Targets

abbrev pub is_some : {A : Type 0} → Option A → Bool
is_some none = false
is_some (some a) = true
