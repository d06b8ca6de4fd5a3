-- ===== src/Tests/Runner.antt =====
-- The runner against a server that is a list of tracking rows.
use ze_db.Prelude.{
  map, ℕ, ◌+◌, ◌≤◌, ◌<◌, ◌≡◌, refl, Bool, true, false, ◌&&◌, ◌||◌, not, List, [], ◌∷◌, ◌++◌, Option,
  none, some, arith, ◌⊎◌,
}
use ze_db.Prelude.Tests.{ltb}
use ze_db.Prelude.Lists.{All}
use ze_db.Prelude.Text.{codes, text_eq}
use ze_db.Repo.Chain.Parse.{Migration}
use ze_db.Runner.Base.{not_latest, ok, err, for_each}
use ze_db.Runner.Tracking.{
  S, require_write, ensure_tracking, number_set, applied_migrations, fleet, has_number,
}
use ze_db.Repo.Chain.{migration}
use ze_db.Runner.Targets.{target_databases}
use ze_db.Runner.Execution.{show}
use ze_db.Runner.Numbers.{IsDescending}
use ze_db.Runner.Apply.{apply_sql}
use ze_db.Runner.Status.{status_of}
use ze_db.Runner.Status.Pending.{status_of-upgrade_database}
use ze_db.Runner.Actions.{upgrade_migration, upgrade_database}
use ze_db.Runner.Tracking.{last_states, LastState}
use ze_db.Runner.Apply.Journal.{Journals, apply_sql-Journals}
use ze_db.Runner.Actions.Import.{import_tracking}
use ze_db.Runner.Actions.{
  has_migration, gate, todo, with_migration, roll, rollback_database, upgrade, rollback_to,
  rollback_one, stamp, apply_targeted,
}
use ze_db.Runner.Actions.Refusal.{refusal, refused}
use ze_db.Runner.Actions.DryRun.{Keeps, dry_run-Keeps}
use ze_db.Runner.Actions.Rollback.{
  Passes, Stops, rollback_database-gated, rollback_database-newest_first, rollback_one-refuses,
}
use ze_db.Tests.Fleet.{
  ledger, m0, runner, barred, dry, shop, fresh, upgraded, halfway, halfway_states,
}

refused_example :
    (upgrade ledger barred shop none fresh ≡ (err (refusal barred (codes "upgrade")), fresh))
    × (rollback_to ledger barred shop 0 false fresh
        ≡ (err (refusal barred (codes "rollback")), fresh))
    × (rollback_one ledger barred shop 0 false false fresh
        ≡ (err (refusal barred (codes "rollback")), fresh))
    × (stamp ledger barred shop 0 fresh ≡ (err (refusal barred (codes "stamp")), fresh))
    × (apply_targeted ledger barred shop 0 fresh ≡ (err (refusal barred (codes "apply")), fresh))
    × (import_tracking ledger barred (codes "old.rows") fresh
        ≡ (err (refusal barred (codes "import-tracking")), fresh))
refused_example = refused ledger barred refl fresh shop none 0 false false (codes "old.rows")

dry_run-Keeps_example :
    Keeps (upgrade ledger dry shop none)
    × Keeps (rollback_to ledger dry shop 100 true)
    × Keeps (rollback_one ledger dry shop 100 true false)
    × Keeps (stamp ledger dry shop 100)
    × Keeps (apply_targeted ledger dry shop 100)
    × Keeps (import_tracking ledger dry (codes "old.rows"))
unfolding rollback_to has_migration rollback_database todo apply_targeted stamp rollback_one upgrade
dry_run-Keeps_example = dry_run-Keeps ledger dry refl shop none 100 true false (codes "old.rows")

applied_upgraded :
    applied_migrations ledger runner (codes "shop") upgraded ≡ (ok (0 ∷ 100 ∷ []), upgraded)
unfolding applied_migrations ze_db.Runner.Tracking.last_states
    ze_db.Runner.Tracking.validate_sql_identifiers ze_db.Runner.Tracking.is_quotable number_set
    text_eq show ze_db.Runner.Tracking.is_applied ze_db.Prelude.Utf8.text_lt
applied_upgraded = refl

rollback_database-gated_example :
    ((rollback_database ledger runner 0 false (codes "shop") upgraded
        ≡ for_each
            (todo (fleet runner) (0 ∷ 100 ∷ []) 0)
            (with_migration ledger runner (roll ledger runner (codes "shop")))
            upgraded)
      × All (Passes ledger runner false) (todo (fleet runner) (0 ∷ 100 ∷ []) 0))
    ⊎ (Stops (rollback_database ledger runner 0 false (codes "shop") upgraded).0
        × ((rollback_database ledger runner 0 false (codes "shop") upgraded).1 ≡ upgraded))
rollback_database-gated_example =
    rollback_database-gated ledger runner 0 false (codes "shop") upgraded (0 ∷ 100 ∷ [])
      applied_upgraded

rollback_database-newest_first_example :
    ((ns : List ℕ) × (rollback_database ledger runner 0 false (codes "shop") upgraded
        ≡ for_each ns (with_migration ledger runner (roll ledger runner (codes "shop"))) upgraded)
      × IsDescending ns
      × ((n : ℕ)
          → has_number ns n
            ≡ (has_number (0 ∷ 100 ∷ []) n && (ltb 0 n && has_migration (fleet runner) n))))
    ⊎ (Stops (rollback_database ledger runner 0 false (codes "shop") upgraded).0
        × ((rollback_database ledger runner 0 false (codes "shop") upgraded).1 ≡ upgraded))
rollback_database-newest_first_example =
    rollback_database-newest_first ledger runner 0 false (codes "shop") upgraded (0 ∷ 100 ∷ [])
      applied_upgraded

may_write : require_write ledger runner (codes "rollback") upgraded ≡ (ok tt, upgraded)
unfolding require_write ze_db.Runner.Tracking.validate_sql_identifiers
    ze_db.Runner.Tracking.is_quotable
may_write = refl

tracked : ensure_tracking ledger runner upgraded ≡ (ok tt, upgraded)
unfolding ensure_tracking ze_db.Runner.Tracking.validate_sql_identifiers
    ze_db.Runner.Tracking.is_quotable ze_db.Runner.Tracking.bootstrap ze_db.Runner.Tracking.execute
    ze_db.Runner.Tracking.query text_eq
tracked = refl

shop_resolved : target_databases ledger runner shop upgraded ≡ (ok (codes "shop" ∷ []), upgraded)
unfolding target_databases ze_db.Runner.Targets.resolve_targets
    ze_db.Runner.Tracking.validate_sql_identifiers ze_db.Runner.Tracking.is_quotable
    ze_db.Runner.Targets.resolve ze_db.Runner.Targets.unique ze_db.Prelude.Text.contains_text
shop_resolved = refl

found_m0 : migration runner.migrations 0 ≡ some m0
unfolding migration
found_m0 = refl

gate-m0 : gate m0 false ≡ ok tt
unfolding gate
gate-m0 = refl

rollback_one-refuses_example :
    (top : ℕ) × (rollback_one ledger runner shop 0 false false upgraded
      ≡ (err (not_latest (codes "shop") 0 top), upgraded))
    × (has_number (0 ∷ 100 ∷ []) top ≡ true)
    × ((k : ℕ) → has_number (0 ∷ 100 ∷ []) k ≡ true → k ≤ top)
rollback_one-refuses_example =
    rollback_one-refuses ledger runner shop false false m0 0 100 (codes "shop") [] (0 ∷ 100 ∷ [])
      upgraded upgraded upgraded upgraded upgraded may_write found_m0 gate-m0 refl tracked
      shop_resolved applied_upgraded (unfold has_number in refl) (unfold has_number in refl)
      (omega arith)

apply_sql-Journals_example :
    Journals ledger runner
      (codes "shop")
      m0
      (codes "upgrade")
      fresh
      (apply_sql ledger runner (codes "shop") m0 (codes "upgrade") (codes "SELECT 1;") fresh)
apply_sql-Journals_example =
    apply_sql-Journals ledger runner (codes "shop") m0 (codes "upgrade") (codes "SELECT 1;") fresh

halfway_read : last_states ledger runner (codes "shop") halfway ≡ (ok halfway_states, halfway)
unfolding last_states ze_db.Runner.Tracking.validate_sql_identifiers
    ze_db.Runner.Tracking.is_quotable text_eq show
halfway_read = refl

status_of-upgrade_database_example :
    (ms : List Migration) × (upgrade_database ledger runner none (codes "shop") halfway
      ≡ for_each ms (upgrade_migration ledger runner (codes "shop")) halfway)
    × (map (λ m. m.number) ms ≡ (status_of (fleet runner) (codes "shop") halfway_states).pending)
status_of-upgrade_database_example =
    status_of-upgrade_database ledger runner (codes "shop") halfway halfway_states halfway_read
