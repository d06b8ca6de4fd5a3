-- ===== src/Tests/Fleet.antt =====
-- A small fleet: a ledger of tracking rows in the place of the servers, and two migrations.
use ze_db.Prelude.{ℕ, true, false, ◌&&◌, not, List, [], ◌∷◌, ◌++◌, Option, none, some}
use ze_db.Prelude.Tests.{◌==◌, if◌then◌else◌}
use ze_db.Prelude.Text.{Text, codes, text_eq}
use ze_db.Repo.Chain.Disk.{readable, file, Entries, nil, cons}
use ze_db.Repo.Chain.Parse.{Migration, irreversible}
use ze_db.Runner.Base.{
  Row, Sql, insert_row, latest_states, Executor, Reply, rows, Outside, State, Config, Options,
  Runner, Targets, databases,
}
use ze_db.Runner.Execution.{show}
use ze_db.Runner.Tracking.{LastState}

-- The last finished row of each migration of a database.
abbrev pub keep_last : Row → List Row → List Row
keep_last x [] = x ∷ []
keep_last x (y ∷ ys) = if x.migration == y.migration then x ∷ ys else y ∷ keep_last x ys

abbrev pub latest : Text → List Row → List Row → List Row
latest db [] acc = acc
latest db (x ∷ xs) acc =
    latest db xs
      (if text_eq x.db db && not (text_eq x.status (codes "started")) then keep_last x acc else acc)

abbrev pub fields : List Row → List (List Text)
fields [] = []
fields (x ∷ xs) = (show x.migration ∷ x.action ∷ x.status ∷ []) ∷ fields xs

abbrev pub run : Executor → Sql → List Row → Option Text × List Row
run e (insert_row x) w = (none, w ++ x ∷ [])
run e _ w = (none, w)

abbrev pub answer : Sql → List Row → Reply
answer (latest_states repo db) w = rows (fields (latest db w []))
answer _ w = rows []

abbrev pub ledger : Outside
ledger = record {
  World = List Row;
  execute = run;
  query = answer;
  decluster = λ t. t;
  admin_form = λ t. false;
}

abbrev pub up : Text → Entries
up sql = cons (file (codes "upgrade.sql") (readable sql)) nil

abbrev pub m0 : Migration
m0 = record {
  number = 0;
  directory = up (codes "CREATE TABLE ${db}.t; SELECT 1");
  year = 2026;
  month = 8;
  rollback_class = none;
  targeted = none;
}

abbrev pub m100 : Migration
m100 = record {
  number = 100;
  directory =
      cons (file (codes "rollback.sql") (readable (codes "DROP TABLE ${db}.u")))
        (up (codes "CREATE TABLE ${db}.u"));
  year = 2026;
  month = 8;
  rollback_class = some irreversible;
  targeted = none;
}

abbrev pub config : Config
config = record {
  tracking_database = codes "zedb_config";
  cluster_param = none;
  repo = some (codes "demo");
  root_name = none;
  registry_query = none;
  params = [];
}

abbrev pub consenting : Options
consenting = record {
  read_only = false;
  has_admin = false;
  cluster = none;
  no_cluster = true;
  write = true;
  dry_run = false;
  overrides = [];
}

abbrev pub runner_with : Options → Runner
runner_with options = record {
  migrations = m0 ∷ m100 ∷ [];
  groups = [];
  config = config;
  options = options;
  run_id = codes "run-1";
}

abbrev pub runner : Runner
runner = runner_with consenting

abbrev pub barred : Runner
barred = runner_with (record consenting { write = false })

abbrev pub dry : Runner
dry = runner_with (record consenting { dry_run = true })

abbrev pub shop : Targets
shop = databases (codes "shop" ∷ [])

abbrev pub row : ℕ → Text → Row
row n status = record {
  repo = codes "demo";
  db = codes "shop";
  migration = n;
  action = codes "upgrade";
  status = status;
  error = none;
  run_id = codes "run-1";
}

abbrev pub fresh : State (List Row)
fresh = record { world = []; audited = [] }

abbrev pub upgraded : State (List Row)
upgraded = record {
  world =
      row 0 (codes "started")
      ∷ row 0 (codes "success")
      ∷ row 100 (codes "started")
      ∷ row 100 (codes "success")
      ∷ [];
  audited = [];
}

abbrev pub halfway : State (List Row)
halfway = record { world = row 0 (codes "started") ∷ row 0 (codes "success") ∷ []; audited = [] }

abbrev pub halfway_states : List LastState
halfway_states = (0, codes "upgrade", codes "success") ∷ []
