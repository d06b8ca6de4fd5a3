-- ===== src/Runner/Apply.antt =====
-- `record`, `audit` and `apply_sql` of crates/zedb-ch/src/runner/execution.rs.
pub mod Silent
pub mod Runs
pub mod Journal
use ze_db.Prelude.{ℕ, ◌+◌, Bool, not, ◌&&◌, List, [], ◌∷◌, ◌++◌, Option, none, some}
use ze_db.Prelude.Tests.{if◌then◌else◌}
use ze_db.Prelude.Lists.{length, keep}
use ze_db.Prelude.Text.{Text, codes}
use ze_db.Prelude.Utf8.{trim}
use ze_db.Repo.Template.{Rendered, render}
use ze_db.Repo.Template
use ze_db.Repo.Chain.Parse.{Migration}
use ze_db.Replay.Split.{Outcome, finished, panic, stuck, split_statements}
use ze_db.Runner.Base.{
  failed_statement, bad_template, Result, ok, err, panicked, M, ◌>>=◌, ◌>>◌, return, fail, Row,
  insert_row, script, Executor, client, admin, Outside, State, Runner,
}
use ze_db.Runner.Route.{is_system, needs_admin}
use ze_db.Runner.Tracking.{S, tracking_repo, execute, system_executors}
use ze_db.Runner.Execution.{Params, resolve_params, redact_params, has_code, failure_text}

abbrev pub or_empty : Option Text → Text
or_empty none = []
or_empty (some t) = t

abbrev pub of_rendered : Rendered Text → Result Text
of_rendered (Template.ok t) = ok t
of_rendered (Template.err e) = err (bad_template e)

-- A panic of the splitter is one of the caller.
abbrev pub of_split : Outcome (List Text) → Result (List Text)
of_split (finished ts) = ok ts
of_split panic = panicked
of_split stuck = panicked

abbrev pub started : Text
started = codes "started"

abbrev pub failed_status : Text
failed_status = codes "failed"

abbrev pub success : Text
success = codes "success"

module _ (o : Outside) (r : Runner) where
  abbrev pub lift : {A : Type 0} → Result A → M (S o r) A
  lift a s = (a, s)

  -- Writing the log is best effort: a failure is reported and nothing more.
  unfoldable pub audit : Text → ℕ → Text → Text → Option Text → M (S o r) (Unit {0})
  audit database number action status error s = (
    ok tt,
    record s {
      audited =
          s.audited
          ++ record {
            db = database;
            migration = number;
            action = action;
            status = status;
            error = or_empty error;
          }
            ∷ [];
    },
  )

  abbrev pub row_of : Text → ℕ → Text → Text → Option Text → Row
  row_of database number action status error = record {
    repo = tracking_repo r;
    db = database;
    migration = number;
    action = action;
    status = status;
    error = error;
    run_id = r.run_id;
  }

  -- `record`
  unfoldable pub record_row : Text → ℕ → Text → Text → Option Text → M (S o r) (Unit {0})
  record_row database number action status error =
      execute o r client (insert_row (row_of database number action status error))
      >> audit database number action status error

  abbrev pub reached : State o.World → Option Text × o.World → Result (Option Text) × State o.World
  reached s (answer, w) = (ok answer, record s { world = w })

  -- `executor.execute(sql)` with its own outcome, for the caller to look at.
  unfoldable pub attempt : Executor → Text → M (S o r) (Option Text)
  attempt e sql s = reached s (o.execute e (script sql) s.world)

  -- The loop over the replicas ends at the first error.
  unfoldable pub run_replicas : Text → List Executor → M (S o r) (Option Text)
  run_replicas sql [] = return none
  run_replicas sql (e ∷ es) = attempt e sql >>= λ answer. elim answer [
    | none ↦ run_replicas sql es
    | some text ↦ return (some text)
  ]

  unfoldable pub run_system : Executor → Text → List Executor → M (S o r) (Option Text)
  unfolding attempt run_replicas
  run_system executor sql [] = attempt executor sql
  run_system executor sql (e ∷ es) = run_replicas sql (e ∷ es)

  -- Replicas are looked up once for a script.
  abbrev pub executors_for : Bool → Option (List Executor) → M (S o r) (List Executor)
  executors_for routed (some es) = return es
  executors_for routed none = system_executors o r routed

  abbrev pub Cache : Type 0
  Cache = Option (List Executor)

  unfoldable pub run_statement : Text → Cache → M (S o r) (Option Text × Cache)
  run_statement statement cache =
      let routed = r.options.has_admin && needs_admin o statement in
      let executor = if routed then admin else client in
      let fanned : M (S o r) (Option Text × Cache) = executors_for routed cache >>= λ es.
      run_system executor (trim statement) es >>= λ answer. return (answer, some es) in
      let plain : M (S o r) (Option Text × Cache) =
        attempt executor (trim statement) >>= λ answer. return (answer, cache) in
      if is_system statement && not r.options.no_cluster then fanned else plain

  -- What is fixed during one call of `apply_sql`.
  pub record Job : Type 0 where
    pub database : Text
    pub migration : Migration
    pub action : Text
    pub params : Params
    pub count : ℕ

  -- The error branch of the loop: the message without the parameters' values is recorded, and
  -- returned.
  unfoldable pub fail_statement : Job → ℕ → Text → Text → M (S o r) (Unit {0})
  fail_statement j index statement error =
      let message = redact_params (failure_text index j.count statement error) j.params in
      record_row j.database j.migration.number j.action failed_status (some message)
      >> fail (failed_statement j.database j.action j.migration.number message)

  unfoldable pub run_statements : Job → ℕ → List Text → Cache → M (S o r) (Unit {0})
  run_statements j index [] cache = return tt
  run_statements j index (statement ∷ statements) cache =
      run_statement statement cache >>= λ (answer, cache'). elim answer [
        | none ↦ run_statements j (index + 1) statements cache'
        | some error ↦ fail_statement j index statement error
      ]

  unfoldable pub run_job : Job → List Text → M (S o r) (Unit {0})
  run_job j statements =
      record_row j.database j.migration.number j.action started none
      >> (run_statements j 0 statements none
          >> record_row j.database j.migration.number j.action success none)

  unfoldable pub apply_sql : Text → Migration → Text → Text → M (S o r) (Unit {0})
  apply_sql database migration action sql = do
    params ← lift (resolve_params r database sql)
    rendered ← lift (of_rendered (render sql params))
    split ← lift (
        of_split
          (split_statements (if r.options.no_cluster then o.decluster rendered else rendered)))
    let statements = keep has_code split
    if r.options.dry_run
        then return tt
        else run_job
            (record {
              database = database;
              migration = migration;
              action = action;
              params = params;
              count = length statements;
            })
            statements
