-- ===== src/Runner/Status.antt =====
-- `Runner::status` of crates/zedb-ch/src/runner/status.rs.
pub mod Pending
use ze_db.Prelude.{ℕ, Bool, not, ◌&&◌, List, [], ◌∷◌, Option, map}
use ze_db.Prelude.Lists.{keep}
use ze_db.Prelude.Text.{Text, codes, text_eq}
use ze_db.Repo.Chain.Parse.{Migration}
use ze_db.Runner.Base.{M, ◌>>=◌, return, Outside, Runner, Targets}
use ze_db.Runner.Tracking.{
  S, LastState, number_of, is_applied, is_customised, number_set, has_number, fleet, last_states,
}
use ze_db.Runner.Targets.{target_databases}
use ze_db.Runner.Actions.{last_of}

pub record DatabaseStatus : Type 0 where
  pub database : Text
  pub head : Option ℕ
  pub latest : ℕ
  pub pending : List ℕ
  pub customised : List ℕ
  pub failed : List (ℕ × Text)

abbrev is_failed : LastState → Bool
is_failed (n, action, status) = text_eq status (codes "failed")

abbrev failure_of : LastState → ℕ × Text
failure_of (n, action, status) = (n, action)

abbrev latest_of : List Migration → ℕ
latest_of [] = 0
latest_of (m ∷ []) = m.number
latest_of (m ∷ n ∷ ms) = latest_of (n ∷ ms)

-- The body of the loop, from what `last_states` returned.
unfoldable pub status_of : List Migration → Text → List LastState → DatabaseStatus
status_of ms database states =
    let applied = number_set (map number_of (keep is_applied states)) in
    let customised = map number_of (keep is_customised states) in
    record {
      database = database;
      head = last_of applied;
      latest = latest_of ms;
      pending =
          map (λ m. m.number)
            (keep (λ m. not (has_number applied m.number) && not (has_number customised m.number))
              ms);
      customised = customised;
      failed = map failure_of (keep is_failed states);
    }

module _ (o : Outside) (r : Runner) where
  unfoldable pub statuses : List Text → M (S o r) (List DatabaseStatus)
  statuses [] = return []
  statuses (database ∷ databases) = last_states o r database >>= λ states.
      statuses databases >>= λ rest. return (status_of (fleet r) database states ∷ rest)

  unfoldable pub status : Targets → M (S o r) (List DatabaseStatus)
  status targets = do databases ← target_databases o r targets; statuses databases
