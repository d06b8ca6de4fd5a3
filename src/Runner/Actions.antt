-- ===== src/Runner/Actions.antt =====
-- crates/zedb-ch/src/runner/actions.rs: the operations that change a fleet.
pub mod Import
pub mod Refusal
pub mod DryRun
pub mod Rollback
use ze_db.Prelude.{
  ℕ, ◌+◌, ◌≡◌, refl, Bool, true, false, not, ◌&&◌, ◌||◌, List, [], ◌∷◌, ◌++◌, Option, none, some,
}
use ze_db.Prelude.Tests.{◌==◌, leb, ltb, if◌then◌else◌}
use ze_db.Prelude.Lists.{any, all, keep, find}
use ze_db.Prelude.Text.{Text, codes, text_eq, contains_text}
use ze_db.Prelude.Utf8.{is_empty}
use ze_db.Repo.Chain.{migration}
use ze_db.Repo.Chain.Disk
use ze_db.Repo.Chain.Parse.{
  RollbackClass, clean, structural, irreversible, Migration, upgrade_sql, rollback_sql,
}
use ze_db.Runner.Base.{
  RunnerError, server, no_migration, no_rollback, not_targeted, unreadable, irreversible_refused,
  targeted_refused, not_latest, restricted, Result, ok, err, panicked, M, bind, ◌>>=◌, ◌>>◌, return,
  fail, crash, for_each, Executor, client, Outside, State, Options, Runner, Targets, is_some,
}
use ze_db.Runner.Tracking.{
  S, require_write, fleet, ensure_tracking, execute, applied_migrations, applied_customisations,
  has_number,
}
use ze_db.Runner.Targets.{target_databases}
use ze_db.Runner.Apply.{lift, audit, record_row, success, apply_sql}
use mathlib.Core.List.{reverse}

abbrev pub of_disk : {A : Type 0} → Disk.Result A → Result A
of_disk (Disk.ok a) = ok a
of_disk (Disk.err e) = err (unreadable e)

unfoldable pub has_migration : List Migration → ℕ → Bool
has_migration ms number = any (λ m. m.number == number) ms

abbrev pub within_ceiling : Option ℕ → ℕ → Bool
within_ceiling none number = true
within_ceiling (some ceiling) number = leb number ceiling

-- What `upgrade` runs on a database: the fleet's migrations that are not applied, up to the
-- ceiling, in the chain's order.
unfoldable pub pending : List Migration → List ℕ → Option ℕ → List Migration
pending ms applied ceiling =
    keep (λ m. not (has_number applied m.number) && within_ceiling ceiling m.number) ms

-- `gate`
unfoldable pub gate : Migration → Bool → Result (Unit {0})
gate m acknowledge = if m.number == 0 then ok tt else elim m.rollback_class [
  | none ↦ err (no_rollback m.number)
  | some clean ↦ ok tt
  | some structural ↦ ok tt
  | some irreversible ↦ if acknowledge then ok tt else err (irreversible_refused m.number)
]

-- What `rollback_to` takes off a database, the newest first.
unfoldable pub todo : List Migration → List ℕ → ℕ → List ℕ
todo ms applied floor = keep (λ n. ltb floor n && has_migration ms n) (reverse applied)

abbrev pub last_of : List ℕ → Option ℕ
last_of [] = none
last_of (n ∷ []) = some n
last_of (n ∷ k ∷ ns) = last_of (k ∷ ns)

abbrev pub script_of : ℕ → Option Text → Result Text
script_of number none = err (no_rollback number)
script_of number (some sql) = ok sql

module _ (o : Outside) (r : Runner) where
  abbrev pub check_ceiling : Option ℕ → Result (Unit {0})
  check_ceiling none = ok tt
  check_ceiling (some ceiling) =
      if has_migration (fleet r) ceiling then ok tt else err (no_migration ceiling)

  unfoldable pub upgrade_migration : Text → Migration → M (S o r) (Unit {0})
  upgrade_migration database m =
      lift o r (of_disk (upgrade_sql m)) >>= λ sql. apply_sql o r database m (codes "upgrade") sql

  unfoldable pub upgrade_database : Option ℕ → Text → M (S o r) (Unit {0})
  upgrade_database ceiling database = do
    applied ← applied_migrations o r database
    customised ← applied_customisations o r database
    for_each (pending (fleet r) (applied ++ customised) ceiling) (upgrade_migration database)

  unfoldable pub upgrade : Targets → Option ℕ → M (S o r) (Unit {0})
  upgrade targets ceiling = do
    require_write o r (codes "upgrade")
    lift o r (check_ceiling ceiling)
    ensure_tracking o r
    databases ← target_databases o r targets
    for_each databases (upgrade_database ceiling)

  -- `roll`; its warnings are printed only.
  unfoldable pub roll : Text → Migration → M (S o r) (Unit {0})
  roll database m = do
    back ← lift o r (of_disk (rollback_sql m))
    sql ← lift o r (script_of m.number back)
    apply_sql o r database m (codes "rollback") sql

  -- `fleet[&number]`, which panics for a number that is not there.
  abbrev pub on_found : (Migration → M (S o r) (Unit {0})) → Option Migration → M (S o r) (Unit {0})
  on_found body none = crash
  on_found body (some m) = body m

  abbrev pub with_migration : (Migration → M (S o r) (Unit {0})) → ℕ → M (S o r) (Unit {0})
  with_migration body number = on_found body (migration (fleet r) number)

  unfoldable pub rollback_database : ℕ → Bool → Text → M (S o r) (Unit {0})
  rollback_database floor acknowledge database = do
    applied ← applied_migrations o r database
    for_each (todo (fleet r) applied floor) (with_migration (λ m. lift o r (gate m acknowledge)))
    for_each (todo (fleet r) applied floor) (with_migration (roll database))

  unfoldable pub rollback_to : Targets → ℕ → Bool → M (S o r) (Unit {0})
  rollback_to targets floor acknowledge = do
    require_write o r (codes "rollback")
    lift o r (if has_migration (fleet r) floor then ok tt else err (no_migration floor))
    ensure_tracking o r
    databases ← target_databases o r targets
    for_each databases (rollback_database floor acknowledge)

  abbrev pub named : ℕ → Option Migration → Result Migration
  named number none = err (no_migration number)
  named number (some m) = ok m

  unfoldable pub remove_customisation : Migration → Text → M (S o r) (Unit {0})
  remove_customisation m database = do
    customised ← applied_customisations o r database
    if has_number customised m.number then roll database m else return tt

  abbrev pub is_top : Option ℕ → ℕ → Bool
  is_top none number = false
  is_top (some top) number = number == top

  abbrev pub top_or : Option ℕ → ℕ
  top_or none = 0
  top_or (some top) = top

  unfoldable pub peel : Migration → Text → M (S o r) (Unit {0})
  peel m database = do
    applied ← applied_migrations o r database
    let latest = last_of applied
    if not (has_number applied m.number)
        then return tt
        else if not (is_top latest m.number)
        then fail (not_latest database m.number (top_or latest))
        else roll database m

  unfoldable pub rollback_found : Targets → Bool → Migration → M (S o r) (Unit {0})
  rollback_found targets acknowledge_targeted m =
      let customisation : M (S o r) (Unit {0}) =
        target_databases o r targets >>= λ databases. for_each databases (remove_customisation m) in
      let fleetwide : M (S o r) (Unit {0}) =
        target_databases o r targets >>= λ databases. for_each databases (peel m) in
      if is_some m.targeted
      then if acknowledge_targeted then customisation else fail (targeted_refused m.number)
      else fleetwide

  unfoldable pub rollback_one : Targets → ℕ → Bool → Bool → M (S o r) (Unit {0})
  rollback_one targets number acknowledge acknowledge_targeted = do
    require_write o r (codes "rollback")
    m ← lift o r (named number (migration r.migrations number))
    lift o r (gate m acknowledge)
    ensure_tracking o r
    rollback_found targets acknowledge_targeted m

  unfoldable pub stamp_database : ℕ → Text → M (S o r) (Unit {0})
  stamp_database number database =
      let body : M (S o r) (Unit {0}) = applied_migrations o r database >>= λ applied.
      for_each (keep (λ m. leb m.number number && not (has_number applied m.number)) (fleet r))
        (λ m. record_row o r database m.number (codes "stamp") success none) in
      if r.options.dry_run then return tt else body

  unfoldable pub stamp : Targets → ℕ → M (S o r) (Unit {0})
  stamp targets number = do
    require_write o r (codes "stamp")
    lift o r (if has_migration (fleet r) number then ok tt else err (no_migration number))
    ensure_tracking o r
    databases ← target_databases o r targets
    for_each databases (stamp_database number)

  abbrev pub allow_list_of : ℕ → Option (List Text) → Result (List Text)
  allow_list_of number none = err (not_targeted number)
  allow_list_of number (some names) = ok names

  abbrev pub is_nil : List Text → Bool
  is_nil [] = true
  is_nil (x ∷ xs) = false

  unfoldable pub apply_database : Migration → List Text → Bool → Text → M (S o r) (Unit {0})
  apply_database m allow_list enforce database =
      let run : M (S o r) (Unit {0}) = lift o r (of_disk (upgrade_sql m)) >>= λ sql.
      apply_sql o r database m (codes "apply") sql in
      let body : M (S o r) (Unit {0}) = applied_customisations o r database >>= λ customised.
      if has_number customised m.number then return tt else run in
      if enforce && not (is_nil allow_list) && not (contains_text allow_list database)
      then fail (restricted database m.number)
      else body

  -- `apply_targeted_inner`; `apply_targeted` enforces the allow list, and the lifecycle check's
  -- `apply_targeted_for_check` does not.
  unfoldable pub apply_targeted_inner : Targets → ℕ → Bool → M (S o r) (Unit {0})
  apply_targeted_inner targets number enforce = do
    require_write o r (codes "apply")
    m ← lift o r (named number (migration r.migrations number))
    allow_list ← lift o r (allow_list_of number m.targeted)
    ensure_tracking o r
    databases ← target_databases o r targets
    for_each databases (apply_database m allow_list enforce)

  unfoldable pub apply_targeted : Targets → ℕ → M (S o r) (Unit {0})
  apply_targeted targets number = apply_targeted_inner targets number true
