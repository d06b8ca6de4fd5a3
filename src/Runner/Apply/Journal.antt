-- ===== src/Runner/Apply/Journal.antt =====
-- The lines that `apply_sql` writes to the audit log.
use ze_db.Prelude.{◌≡◌, refl, ap, ◌∙◌, ◌⊎◌, inl, inr, Bool, true, false, List, [], ◌∷◌, ◌++◌, none}
use mathlib.Core.List.{append_assoc}
use ze_db.Prelude.Tests.{if◌then◌else◌}
use ze_db.Prelude.Text.{Text}
use ze_db.Prelude.Lists.{keep, length}
use ze_db.Repo.Template.{render}
use ze_db.Replay.Split.{split_statements}
use ze_db.Runner.Execution.{Params, resolve_params, has_code}
use ze_db.Repo.Chain.Parse.{Migration}
use ze_db.Runner.Base.{
  failed_statement, Result, ok, err, panicked, M, bind, ◌>>◌, return, Outside, AuditLine, Runner,
}
use ze_db.Runner.Tracking.{S}
use ze_db.Runner.Apply.{
  started, failed_status, success, record_row, Job, run_statements, run_job, apply_sql, of_rendered,
  of_split,
}
use ze_db.Runner.Apply.Silent.{IsServer}
use ze_db.Runner.Apply.Runs.{entry, Runs, Answered, run_statements-Runs, record_row-Answered}

module _ (o : Outside) (r : Runner) where
  -- The log and the result of a whole script, from where it began.
  abbrev pub Journals : Text → Migration → Text → S o r → Result (Unit {0}) × S o r → Type 0
  Journals database m action s (ok x, t) =
      ((r.options.dry_run ≡ true) × (t.audited ≡ s.audited))
      ⊎ ((r.options.dry_run ≡ false)
          × (t.audited
              ≡ s.audited
                ++ entry database m action started [] ∷ entry database m action success [] ∷ []))
  Journals database m action s (err e, t) =
      (t.audited ≡ s.audited)
      ⊎ (((t.audited ≡ s.audited ++ entry database m action started [] ∷ []) × IsServer e)
          ⊎ ((text : Text) × (t.audited
                ≡ s.audited
                  ++ entry database m action started []
                    ∷ entry database m action failed_status text
                    ∷ [])
              × (e ≡ failed_statement database action m.number text)))
  Journals database m action s (panicked, t) = t.audited ≡ s.audited

  extend :
      (s t u : List AuditLine) (a b : AuditLine)
      → t ≡ s ++ a ∷ []
      → u ≡ t ++ b ∷ []
      → u ≡ s ++ a ∷ b ∷ []
  extend s t u a b h k = k ∙ ap (λ l. l ++ b ∷ []) h ∙ append_assoc s (a ∷ []) (b ∷ [])

  success_row-Journals :
      (j : Job o r) (s t u : S o r) (x : Result (Unit {0}) × S o r)
      → r.options.dry_run ≡ false
      → t.audited ≡ s.audited ++ entry j.database j.migration j.action started [] ∷ []
      → u.audited ≡ t.audited
      → Answered o r j.database j.migration j.action success [] u x
      → Journals j.database j.migration j.action s x
  success_row-Journals j s t u (ok x, v) d h k a = inr (d, extend _ _ _ _ _ (k ∙ h) a)
  success_row-Journals j s t u (err e, v) d h k a = inr (inl (a.0 ∙ (k ∙ h), a.1))
  success_row-Journals j s t u (panicked, v) d h k a = elim a [ ]

  script-Journals :
      (j : Job o r) (s t : S o r) (x : Result (Unit {0}) × S o r)
      → r.options.dry_run ≡ false
      → t.audited ≡ s.audited ++ entry j.database j.migration j.action started [] ∷ []
      → Runs o r j t x
      → Journals j.database j.migration j.action s
          (bind x (λ _. record_row o r j.database j.migration.number j.action success none))
  script-Journals j s t (ok x, u) d h k =
      success_row-Journals j s t u _ d h k
        (record_row-Answered o r j.database j.migration j.action success none u)
  script-Journals j s t (err e, u) d h (inl k) = inr (inl (k.0 ∙ h, k.1))
  script-Journals j s t (err e, u) d h (inr (text, k, q)) =
      inr (inr (text, extend _ _ _ _ _ h k, q))
  script-Journals j s t (panicked, u) d h k = elim k [ ]

  started_row-Journals :
      (j : Job o r) (statements : List Text) (s : S o r) (x : Result (Unit {0}) × S o r)
      → r.options.dry_run ≡ false
      → Answered o r j.database j.migration j.action started [] s x
      → Journals j.database j.migration j.action s (
          bind x (λ _.
            run_statements o r j 0 statements none
            >> record_row o r j.database j.migration.number j.action success none))
  started_row-Journals j statements s (ok x, t) d h =
      script-Journals j s t _ d h (run_statements-Runs o r j 0 statements none t)
  started_row-Journals j statements s (err e, t) d h = inl h.0
  started_row-Journals j statements s (panicked, t) d h = elim h [ ]

  run_job-Journals :
      (j : Job o r) (statements : List Text) (s : S o r)
      → r.options.dry_run ≡ false
      → Journals j.database j.migration j.action s (run_job o r j statements s)
  unfolding run_job
  run_job-Journals j statements s d =
      started_row-Journals j statements s _ d
        (record_row-Answered o r j.database j.migration j.action started none s)

  lifted-Journals :
      {A : Type 0} (database : Text) (m : Migration) (action : Text) (s : S o r) (a : Result A)
      (f : A → M (S o r) (Unit {0}))
      → ((x : A) → Journals database m action s (f x s))
      → Journals database m action s (bind (a, s) f)
  lifted-Journals database m action s (ok x) f h = h x
  lifted-Journals database m action s (err e) f h = inl refl
  lifted-Journals database m action s panicked f h = refl

  ended-Journals :
      (j : Job o r) (statements : List Text) (s : S o r) (dry : Bool)
      → r.options.dry_run ≡ dry
      → Journals j.database j.migration j.action s
          ((if dry then return tt else run_job o r j statements) s)
  ended-Journals j statements s true d = inl (d, refl)
  ended-Journals j statements s false d = run_job-Journals j statements s d

  abbrev job_of : Text → Migration → Text → Params → List Text → Job o r
  job_of database m action params statements = record {
    database = database;
    migration = m;
    action = action;
    params = params;
    count = length statements;
  }

  -- What `apply_sql` adds to the audit log, always behind what is there. If it succeeds, nothing
  -- in a dry run, and otherwise a line that the script started and one that it succeeded. If it
  -- fails, nothing; or the line that it started, if a query or a tracking row failed on the server
  -- and that error is returned; or that line and one that it failed with the message returned. If it panics, nothing.
  pub apply_sql-Journals :
      (database : Text) (m : Migration) (action sql : Text) (s : S o r)
      → Journals database m action s (apply_sql o r database m action sql s)
  unfolding apply_sql
  apply_sql-Journals database m action sql s =
      lifted-Journals database m action s (resolve_params r database sql) _ λ params.
        lifted-Journals database m action s (of_rendered (render sql params)) _ λ rendered.
          lifted-Journals database m action s
            (of_split
              (split_statements (if r.options.no_cluster then o.decluster rendered else rendered)))
            _
            λ split.
              let statements = keep has_code split in
              ended-Journals (job_of database m action params statements) statements s _ refl
