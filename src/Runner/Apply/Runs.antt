-- ===== src/Runner/Apply/Runs.antt =====
-- The audit log at the end of the loop over the statements of a script.
use ze_db.Prelude.{
  ℕ, ◌+◌, ◌≡◌, refl, ap, ◌∙◌, ◌⊎◌, inl, inr, List, [], ◌∷◌, ◌++◌, Option, none, some,
}
use ze_db.Prelude.Text.{Text}
use ze_db.Repo.Chain.Parse.{Migration}
use ze_db.Runner.Base.{
  failed_statement, Result, ok, err, panicked, M, bind, fail, Outside, AuditLine, Runner,
}
use ze_db.Runner.Tracking.{S, executed, execute}
use ze_db.Runner.Apply.{
  or_empty, failed_status, audit, record_row, Cache, run_statement, Job, fail_statement,
  run_statements,
}
use ze_db.Runner.Apply.Silent.{IsServer, Quiet, run_statement-Silent}

abbrev pub entry : Text → Migration → Text → Text → Text → AuditLine
entry database m action status error = record {
  db = database;
  migration = m.number;
  action = action;
  status = status;
  error = error;
}

module _ (o : Outside) (r : Runner) where
  -- How a script ends, in the log and in the result: `s` is where it began.
  abbrev pub Runs : Job o r → S o r → Result (Unit {0}) × S o r → Type 0
  Runs j s (ok x, t) = t.audited ≡ s.audited
  Runs j s (err e, t) =
      ((t.audited ≡ s.audited) × IsServer e)
      ⊎ ((text : Text) × (t.audited
            ≡ s.audited ++ entry j.database j.migration j.action failed_status text ∷ [])
          × (e ≡ failed_statement j.database j.action j.migration.number text))
  Runs j s (panicked, t) = ⊥

  -- A row is recorded, and the line is written behind it; or the row fails, without a line.
  abbrev pub Answered :
      Text → Migration → Text → Text → Text → S o r → Result (Unit {0}) × S o r → Type 0
  Answered database m action status error s (ok x, t) =
      t.audited ≡ s.audited ++ entry database m action status error ∷ []
  Answered database m action status error s (err e, t) = (t.audited ≡ s.audited) × IsServer e
  Answered database m action status error s (panicked, t) = ⊥

  row-Answered :
      (database : Text) (m : Migration) (action status : Text) (error : Option Text) (s : S o r)
      (x : Option Text × o.World)
      → Answered database m action status
          (or_empty error)
          s
          (bind (executed o r s x) (λ _. audit o r database m.number action status error))
  unfolding audit
  row-Answered database m action status error s (none, w) = refl
  row-Answered database m action status error s (some text, w) = (refl, (text, refl))

  pub record_row-Answered :
      (database : Text) (m : Migration) (action status : Text) (error : Option Text) (s : S o r)
      → Answered database m action status
          (or_empty error)
          s
          (record_row o r database m.number action status error s)
  unfolding record_row execute
  record_row-Answered database m action status error s =
      row-Answered database m action status error s _

  Runs-trans :
      (j : Job o r) (s t : S o r) (x : Result (Unit {0}) × S o r)
      → t.audited ≡ s.audited
      → Runs j t x
      → Runs j s x
  Runs-trans j s t (ok x, u) h k = k ∙ h
  Runs-trans j s t (err e, u) h (inl k) = inl (k.0 ∙ h, k.1)
  Runs-trans j s t (err e, u) h (inr (text, k, q)) =
      inr (
        text,
        k ∙ ap (λ l. l ++ entry j.database j.migration j.action failed_status text ∷ []) h,
        q,
      )
  Runs-trans j s t (panicked, u) h k = k

  bind-Runs :
      {A : Type 0} (j : Job o r) (s : S o r) (x : Result A × S o r) (f : A → M (S o r) (Unit {0}))
      → Quiet o r s x
      → ((a : A) (t : S o r) → Runs j t (f a t))
      → Runs j s (bind x f)
  bind-Runs j s (ok a, t) f h k = Runs-trans j s t (f a t) h (k a t)
  bind-Runs j s (err e, t) f h k = inl h
  bind-Runs j s (panicked, t) f h k = h

  failed_row-Runs :
      (j : Job o r) (message : Text) (s : S o r) (x : Result (Unit {0}) × S o r)
      → Answered j.database j.migration j.action failed_status message s x
      → Runs j s
          (bind x (λ _. fail (failed_statement j.database j.action j.migration.number message)))
  failed_row-Runs j message s (ok x, t) h = inr (message, h, refl)
  failed_row-Runs j message s (err e, t) h = inl h
  failed_row-Runs j message s (panicked, t) h = h

  fail_statement-Runs :
      (j : Job o r) (index : ℕ) (statement error : Text) (s : S o r)
      → Runs j s (fail_statement o r j index statement error s)
  unfolding fail_statement
  fail_statement-Runs j index statement error s =
      failed_row-Runs j _ s _
        (record_row-Answered j.database j.migration j.action failed_status (some _) s)

  on_run-Runs :
      (j : Job o r) (index : ℕ) (statement : Text) (m : M (S o r) (Unit {0})) (answer : Option Text)
      (s : S o r)
      → Runs j s (m s)
      → Runs j s (
          (elim answer as (λ _. M (S o r) (Unit {0})) [
            | none ↦ m
            | some error ↦ fail_statement o r j index statement error
          ])
            s)
  on_run-Runs j index statement m none s h = h
  on_run-Runs j index statement m (some error) s h = fail_statement-Runs j index statement error s

  pub run_statements-Runs :
      (j : Job o r) (index : ℕ) (statements : List Text) (cache : Cache o r) (s : S o r)
      → Runs j s (run_statements o r j index statements cache s)
  unfolding run_statements
  run_statements-Runs j index [] cache s = refl
  run_statements-Runs j index (statement ∷ statements) cache s =
      bind-Runs j s (run_statement o r statement cache s) _
        (run_statement-Silent o r statement cache s)
        λ (answer, cache') t.
          on_run-Runs j index statement (run_statements o r j (index + 1) statements cache') answer
            t (run_statements-Runs j (index + 1) statements cache' t)
