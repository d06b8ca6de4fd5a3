-- ===== src/Runner/Actions/Refusal.antt =====
-- The operations of a runner whose connection has no consent to write.
use ze_db.Prelude.{ℕ, ◌≡◌, Bool, true, not, ◌||◌, Option, arith}
use ze_db.Prelude.Tests.{if◌then◌else◌}
use ze_db.Prelude.Text.{Text, codes}
use ze_db.Runner.Base.{
  RunnerError, read_only_refused, bad_identifier, err, Outside, Runner, Targets,
}
use ze_db.Runner.Tracking.{S, validate_sql_identifiers, is_quotable, require_write}
use ze_db.Runner.Actions.Import.{import_tracking}
use ze_db.Runner.Actions.{
  upgrade, rollback_to, rollback_one, stamp, apply_targeted_inner, apply_targeted,
}

-- What a refused operation answers: the name of the tracking database is looked at first.
abbrev pub refusal : Runner → Text → RunnerError
refusal r action =
    if is_quotable r.config.tracking_database then read_only_refused action else bad_identifier

module _ (o : Outside) (r : Runner)
    (barred : r.options.read_only || not r.options.write ≡ true) where
  require_write_refuses :
      (action : Text) (s : S o r) → require_write o r action s ≡ (err (refusal r action), s)
  unfolding require_write validate_sql_identifiers
  require_write_refuses action s = ground arith

  -- On a read-only connection, or without the consent to write, each of the six operations is
  -- refused before it reads or changes anything: the state stays, the audit log included.
  pub refused :
      (s : S o r) (targets : Targets) (ceiling : Option ℕ) (number : ℕ) (a b : Bool)
      (source_table : Text)
      → (upgrade o r targets ceiling s ≡ (err (refusal r (codes "upgrade")), s))
        × (rollback_to o r targets number a s ≡ (err (refusal r (codes "rollback")), s))
        × (rollback_one o r targets number a b s ≡ (err (refusal r (codes "rollback")), s))
        × (stamp o r targets number s ≡ (err (refusal r (codes "stamp")), s))
        × (apply_targeted o r targets number s ≡ (err (refusal r (codes "apply")), s))
        × (import_tracking o r source_table s ≡ (err (refusal r (codes "import-tracking")), s))
  unfolding upgrade rollback_to rollback_one stamp apply_targeted apply_targeted_inner
      import_tracking
  refused s targets ceiling number a b source_table = (
    rw (require_write_refuses (codes "upgrade") s),
    rw (require_write_refuses (codes "rollback") s),
    rw (require_write_refuses (codes "rollback") s),
    rw (require_write_refuses (codes "stamp") s),
    rw (require_write_refuses (codes "apply") s),
    rw (require_write_refuses (codes "import-tracking") s),
  )
