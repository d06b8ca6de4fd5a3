-- ===== src/Runner/Actions/DryRun.antt =====
-- The operations in a dry run: the servers and the audit log.
use ze_db.Prelude.{
  ℕ, ◌≡◌, refl, ◌∙◌, Bool, true, false, not, List, [], ◌∷◌, ◌++◌, Option, none, some,
}
use ze_db.Prelude.Tests.{if◌then◌else◌}
use ze_db.Prelude.Text.{Text, codes}
use ze_db.Repo.Chain.{migration}
use ze_db.Repo.Chain.Parse.{Migration, upgrade_sql, rollback_sql}
use ze_db.Runner.Base.{
  no_migration, Result, ok, err, panicked, M, bind, ◌>>=◌, return, fail, for_each, Sql, Outside,
  Runner, Targets, databases, group, everything, is_some,
}
use ze_db.Runner.Tracking.{
  S, validate_sql_identifiers, require_write, fleet, ensure_tracking, query, last_states,
  applied_migrations, applied_customisations, has_number,
}
use ze_db.Repo.Template.{render}
use ze_db.Replay.Split.{split_statements}
use ze_db.Runner.Targets.{registry_of, resolve, resolve_targets, target_databases}
use ze_db.Runner.Execution.{resolve_params}
use ze_db.Runner.Apply.{lift, apply_sql, of_rendered, of_split}
use ze_db.Runner.Actions.Import.{backtick_qualified_table, import_tracking}
use ze_db.Runner.Actions.{
  pending, gate, todo, last_of, upgrade_migration, upgrade_database, upgrade, roll, on_found,
  with_migration, rollback_database, rollback_to, remove_customisation, peel, rollback_found,
  rollback_one, stamp_database, stamp, apply_database, apply_targeted_inner, apply_targeted,
  of_disk, has_migration, check_ceiling, named, allow_list_of, is_top, script_of,
}

-- The state that the computation leaves is the one that it found.
abbrev pub Keeps : {S A : Type 0} → M S A → Type 0
Keeps {S} m = (s : S) → (m s).1 ≡ s

bind-Keeps :
    {S A B : Type 0} (p : Result A × S) (f : A → M S B)
    → ((a : A) → Keeps (f a))
    → (bind p f).1 ≡ p.1
bind-Keeps (ok a, s) f h = h a s
bind-Keeps (err e, s) f h = refl
bind-Keeps (panicked, s) f h = refl

pub >>=-Keeps :
    {S A B : Type 0} (m : M S A) (f : A → M S B)
    → Keeps m
    → ((a : A) → Keeps (f a))
    → Keeps (m >>= f)
>>=-Keeps m f h k s = bind-Keeps (m s) f k ∙ h s

pub for_each-Keeps :
    {S A : Type 0} (xs : List A) (body : A → M S (Unit {0}))
    → ((x : A) → Keeps (body x))
    → Keeps (for_each xs body)
unfolding for_each
for_each-Keeps [] body h s = refl
for_each-Keeps (x ∷ xs) body h s =
    >>=-Keeps (body x) (λ _. for_each xs body) (h x) (λ _. for_each-Keeps xs body h) s

if_Keeps : {S A : Type 0} (b : Bool) (m k : M S A) → Keeps m → Keeps k → Keeps (if b then m else k)
if_Keeps true m k h j = h
if_Keeps false m k h j = j

module _ (o : Outside) (r : Runner) where
  lift-Keeps : {A : Type 0} (a : Result A) → Keeps (lift o r a)
  lift-Keeps a s = refl

  lifted-Keeps :
      {A B : Type 0} (a : Result A) (f : A → M (S o r) B)
      → ((x : A) → Keeps (f x))
      → Keeps (lift o r a >>= f)
  lifted-Keeps a f h s = bind-Keeps (a, s) f h

  validate-Keeps : Keeps (validate_sql_identifiers o r)
  unfolding validate_sql_identifiers
  validate-Keeps s = refl

  require_write-Keeps : (action : Text) → Keeps (require_write o r action)
  unfolding require_write
  require_write-Keeps action =
      >>=-Keeps (validate_sql_identifiers o r) _ validate-Keeps
        (λ _. if_Keeps _ _ _ (λ s. refl) (λ s. refl))

  query-Keeps : (sql : Sql) → Keeps (query o r sql)
  unfolding query
  query-Keeps sql s = refl

  last_states-Keeps : (database : Text) → Keeps (last_states o r database)
  unfolding last_states
  last_states-Keeps database =
      >>=-Keeps (validate_sql_identifiers o r) _ validate-Keeps (λ _ s. refl)

  applied-Keeps : (database : Text) → Keeps (applied_migrations o r database)
  unfolding applied_migrations
  applied-Keeps database =
      >>=-Keeps (last_states o r database) _ (last_states-Keeps database) (λ _ s. refl)

  customised-Keeps : (database : Text) → Keeps (applied_customisations o r database)
  unfolding applied_customisations
  customised-Keeps database =
      >>=-Keeps (last_states o r database) _ (last_states-Keeps database) (λ _ s. refl)

  resolve-Keeps : (targets : Targets) → Keeps (resolve o r targets)
  unfolding resolve
  resolve-Keeps (databases dbs) s = refl
  resolve-Keeps (group name) s = refl
  resolve-Keeps everything s =
      >>=-Keeps (query o r (registry_of r.config.registry_query)) _ (query-Keeps _) (λ _ s. refl) s

  pub target_databases-Keeps : (targets : Targets) → Keeps (target_databases o r targets)
  unfolding target_databases resolve_targets
  target_databases-Keeps targets =
      >>=-Keeps (resolve_targets o r targets) _
        (>>=-Keeps (validate_sql_identifiers o r) _ validate-Keeps (λ _. resolve-Keeps targets))
        (λ _ s. refl)

  module _ (dry : r.options.dry_run ≡ true) where
    ensure_tracking-Keeps : Keeps (ensure_tracking o r)
    unfolding ensure_tracking
    ensure_tracking-Keeps =
        >>=-Keeps (validate_sql_identifiers o r) _ validate-Keeps (λ _ s. rw dry)

    apply_sql-Keeps :
        (database : Text) (m : Migration) (action sql : Text)
        → Keeps (apply_sql o r database m action sql)
    unfolding apply_sql
    apply_sql-Keeps database m action sql = lifted-Keeps (resolve_params r database sql) _ λ params.
        lifted-Keeps (of_rendered (render sql params)) _ λ rendered.
          lifted-Keeps
            (of_split
              (split_statements (if r.options.no_cluster then o.decluster rendered else rendered)))
            _ λ split s. rw dry

    upgrade_database-Keeps :
        (ceiling : Option ℕ) (database : Text) → Keeps (upgrade_database o r ceiling database)
    unfolding upgrade_database upgrade_migration
    upgrade_database-Keeps ceiling database =
        >>=-Keeps (applied_migrations o r database) _ (applied-Keeps database) λ applied.
          >>=-Keeps (applied_customisations o r database) _ (customised-Keeps database)
            λ customised. for_each-Keeps (pending (fleet r) (applied ++ customised) ceiling) _ λ m.
              lifted-Keeps (of_disk (upgrade_sql m)) _
                λ sql. apply_sql-Keeps database m (codes "upgrade") sql

    roll-Keeps : (database : Text) (m : Migration) → Keeps (roll o r database m)
    unfolding roll
    roll-Keeps database m = lifted-Keeps (of_disk (rollback_sql m)) _ λ back.
        lifted-Keeps (script_of m.number back) _
          λ sql. apply_sql-Keeps database m (codes "rollback") sql

    on_found-Keeps :
        (body : Migration → M (S o r) (Unit {0})) (found : Option Migration)
        → ((m : Migration) → Keeps (body m))
        → Keeps (on_found o r body found)
    on_found-Keeps body none h s = refl
    on_found-Keeps body (some m) h s = h m s

    rollback_database-Keeps :
        (floor : ℕ) (a : Bool) (database : Text) → Keeps (rollback_database o r floor a database)
    unfolding rollback_database
    rollback_database-Keeps floor a database =
        >>=-Keeps (applied_migrations o r database) _ (applied-Keeps database) λ applied.
          >>=-Keeps
            (for_each (todo (fleet r) applied floor)
              (with_migration o r (λ m. lift o r (gate m a))))
            _
            (for_each-Keeps (todo (fleet r) applied floor) _
              λ n. on_found-Keeps _ (migration (fleet r) n) (λ m. lift-Keeps (gate m a)))
            λ _.
              for_each-Keeps (todo (fleet r) applied floor) _
                λ n. on_found-Keeps _ (migration (fleet r) n) (roll-Keeps database)

    remove_customisation-Keeps :
        (m : Migration) (database : Text) → Keeps (remove_customisation o r m database)
    unfolding remove_customisation
    remove_customisation-Keeps m database =
        >>=-Keeps (applied_customisations o r database) _ (customised-Keeps database) λ customised.
          if_Keeps (has_number customised m.number) (roll o r database m) (return tt)
            (roll-Keeps database m) (λ s. refl)

    peel-Keeps : (m : Migration) (database : Text) → Keeps (peel o r m database)
    unfolding peel
    peel-Keeps m database =
        >>=-Keeps (applied_migrations o r database) _ (applied-Keeps database) λ applied.
          if_Keeps _ (return tt) _ (λ s. refl)
            (if_Keeps (not (is_top o r (last_of applied) m.number)) (fail _) (roll o r database m)
              (λ s. refl) (roll-Keeps database m))

    stamp_database-Keeps :
        (number : ℕ) (database : Text) → Keeps (stamp_database o r number database)
    unfolding stamp_database
    stamp_database-Keeps number database s = rw dry

    apply_database-Keeps :
        (m : Migration) (allow_list : List Text) (enforce : Bool) (database : Text)
        → Keeps (apply_database o r m allow_list enforce database)
    unfolding apply_database
    apply_database-Keeps m allow_list enforce database =
        if_Keeps _ (fail _) _ (λ s. refl)
          (>>=-Keeps (applied_customisations o r database) _ (customised-Keeps database)
            λ customised.
              if_Keeps (has_number customised m.number) (return tt) _ (λ s. refl)
                (lifted-Keeps (of_disk (upgrade_sql m)) _
                  λ sql. apply_sql-Keeps database m (codes "apply") sql))

    on_targets-Keeps :
        (targets : Targets) (body : Text → M (S o r) (Unit {0}))
        → ((database : Text) → Keeps (body database))
        → Keeps (target_databases o r targets >>= λ databases. for_each databases body)
    on_targets-Keeps targets body h =
        >>=-Keeps (target_databases o r targets) _ (target_databases-Keeps targets)
          λ databases. for_each-Keeps databases body h

    -- A dry run of any of the six operations, whatever its outcome, leaves the servers as they
    -- are and writes no line to the audit log.
    pub dry_run-Keeps :
        (targets : Targets) (ceiling : Option ℕ) (number : ℕ) (a b : Bool) (source_table : Text)
        → Keeps (upgrade o r targets ceiling)
          × Keeps (rollback_to o r targets number a)
          × Keeps (rollback_one o r targets number a b)
          × Keeps (stamp o r targets number)
          × Keeps (apply_targeted o r targets number)
          × Keeps (import_tracking o r source_table)
    unfolding upgrade rollback_to rollback_one rollback_found stamp apply_targeted
        apply_targeted_inner import_tracking
    dry_run-Keeps targets ceiling number a b source_table = (
      >>=-Keeps (require_write o r (codes "upgrade")) _ (require_write-Keeps _) λ _.
          lifted-Keeps (check_ceiling o r ceiling) _ λ _.
            >>=-Keeps (ensure_tracking o r) _ ensure_tracking-Keeps
              λ _. on_targets-Keeps targets _ (upgrade_database-Keeps ceiling),
      >>=-Keeps (require_write o r (codes "rollback")) _ (require_write-Keeps _) λ _.
          lifted-Keeps (if has_migration (fleet r) number then ok tt else err (no_migration number))
            _
            λ _.
              >>=-Keeps (ensure_tracking o r) _ ensure_tracking-Keeps
                λ _. on_targets-Keeps targets _ (rollback_database-Keeps number a),
      >>=-Keeps (require_write o r (codes "rollback")) _ (require_write-Keeps _) λ _.
          lifted-Keeps (named o r number (migration r.migrations number)) _ λ m.
            lifted-Keeps (gate m a) _ λ _.
              >>=-Keeps (ensure_tracking o r) _ ensure_tracking-Keeps λ _.
                if_Keeps (is_some m.targeted) _ _
                  (if_Keeps b _ (fail _) (on_targets-Keeps targets _ (remove_customisation-Keeps m))
                    (λ s. refl))
                  (on_targets-Keeps targets _ (peel-Keeps m)),
      >>=-Keeps (require_write o r (codes "stamp")) _ (require_write-Keeps _) λ _.
          lifted-Keeps (if has_migration (fleet r) number then ok tt else err (no_migration number))
            _
            λ _.
              >>=-Keeps (ensure_tracking o r) _ ensure_tracking-Keeps
                λ _. on_targets-Keeps targets _ (stamp_database-Keeps number),
      >>=-Keeps (require_write o r (codes "apply")) _ (require_write-Keeps _) λ _.
          lifted-Keeps (named o r number (migration r.migrations number)) _ λ m.
            lifted-Keeps (allow_list_of o r number m.targeted) _ λ allow_list.
              >>=-Keeps (ensure_tracking o r) _ ensure_tracking-Keeps
                λ _. on_targets-Keeps targets _ (apply_database-Keeps m allow_list true),
      >>=-Keeps (require_write o r (codes "import-tracking")) _ (require_write-Keeps _)
          λ _. lifted-Keeps (backtick_qualified_table source_table) _ λ table. rw dry (λ s. refl),
    )
