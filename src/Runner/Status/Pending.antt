-- ===== src/Runner/Status/Pending.antt =====
-- What `status` lists as pending, and what `upgrade` runs.
use ze_db.Prelude.{
  ℕ, ◌≡◌, refl, ap, Bool, true, not, ◌&&◌, List, [], ◌∷◌, ◌++◌, none, map, arith, inl, inr,
}
use ze_db.Prelude.Tests.{Bool-cases}
use ze_db.Prelude.Lists.{keep}
use ze_db.Prelude.Text.{Text}
use ze_db.Repo.Chain.Parse.{Migration}
use ze_db.Runner.Base.{ok, Outside, Runner, for_each}
use ze_db.Runner.Tracking.{
  S, LastState, number_set, has_number, fleet, last_states, applied_migrations,
  applied_customisations,
}
use ze_db.Runner.Numbers.{has_number-append, has_number-number_set}
use ze_db.Runner.Actions.{pending, upgrade_migration, upgrade_database}
use ze_db.Runner.Status.{status_of}

keep_same :
    (p q : Migration → Bool) (ms : List Migration)
    → ((m : Migration) → p m ≡ q m)
    → keep p ms ≡ keep q ms
keep_same p q [] h = refl
keep_same p q (m ∷ ms) h =
    let e = h m in
    let ih = keep_same p q ms h in
    elim (Bool-cases (q m)) [ inl t ↦ ground (arith, e, t, ih) | inr f ↦ ground (arith, e, f, ih) ]

pending_same :
    (applied customised : List ℕ) (n : ℕ)
    → (not (has_number (applied ++ number_set customised) n) && true)
      ≡ (not (has_number applied n) && not (has_number customised n))
pending_same applied customised n =
    rw (has_number-append applied (number_set customised) n, has_number-number_set customised n)
      (ground arith)

module _ (o : Outside) (r : Runner) where
  -- On a database whose last states can be read, `upgrade` without a ceiling runs exactly the
  -- migrations that `status` lists as pending, in the order of the list.
  pub status_of-upgrade_database :
      (database : Text) (s : S o r) (states : List LastState)
      → last_states o r database s ≡ (ok states, s)
      → (ms : List Migration) × (upgrade_database o r none database s
          ≡ for_each ms (upgrade_migration o r database) s)
        × (map (λ m. m.number) ms ≡ (status_of (fleet r) database states).pending)
  unfolding upgrade_database applied_migrations applied_customisations status_of pending
  status_of-upgrade_database database s states e = (
    _,
    rw (e, e) refl,
    ap (map (λ m. m.number)) (keep_same _ _ (fleet r) (λ m. pending_same _ _ m.number)),
  )
