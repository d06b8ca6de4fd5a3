-- ===== src/Runner/Actions/Rollback.antt =====
-- Rollbacks: the order, the gates and the refusals.
use ze_db.Prelude.{
  ℕ, ◌≤◌, ◌<◌, ◌≡◌, refl, ◌∙◌, Bool, true, ◌&&◌, List, [], ◌∷◌, Option, none, some, arith, inl, inr,
  ◌⊎◌, map,
}
use ze_db.Prelude.Tests.{ltb}
use ze_db.Prelude.Lists.{All, keep}
use ze_db.Prelude.Text.{Text, codes}
use ze_db.Repo.Chain.{migration}
use ze_db.Repo.Chain.Parse.{Migration}
use ze_db.Runner.Base.{
  not_latest, RunnerError, Result, ok, err, panicked, M, bind, return, for_each, Outside, Runner,
  Targets,
}
use mathlib.Core.Path.{subst}
use mathlib.Core.List.{reverse}
use ze_db.Runner.Tracking.{
  S, LastState, require_write, ensure_tracking, fleet, last_states, applied_migrations, has_number,
  number_set, is_applied, number_of,
}
use ze_db.Runner.Numbers.{
  IsAscending, IsDescending, number_set-IsAscending, last_of-IsLargest, reverse-IsDescending,
  has_number-reverse, keep-IsDescending, has_number-keep,
}
use ze_db.Runner.Targets.{target_databases}
use ze_db.Runner.Apply.{lift}
use ze_db.Runner.Actions.{
  gate, todo, roll, on_found, with_migration, rollback_database, peel, rollback_found, rollback_one,
  has_migration,
}

-- The numbers to take off: the applied ones above the floor that the fleet has.
todo_lem :
    (ms : List Migration) (applied : List ℕ) (floor : ℕ)
    → IsAscending applied
    → IsDescending (todo ms applied floor)
      × ((n : ℕ)
          → has_number (todo ms applied floor) n
            ≡ (has_number applied n && (ltb floor n && has_migration ms n)))
unfolding todo
todo_lem ms applied floor up = (
  keep-IsDescending _ _ (reverse-IsDescending applied up),
  λ n. has_number-keep _ (reverse applied) n ∙ rw (has_number-reverse applied n) refl,
)

abbrev pub Stops : {A : Type 0} → Result A → Type 0
Stops (ok x) = ⊥
Stops (err e) = Unit
Stops panicked = Unit

bind-Stops :
    {S A B : Type 0} (p : Result A × S) (f : A → M S B)
    → Stops p.0
    → Stops (bind p f).0 × ((bind p f).1 ≡ p.1)
bind-Stops (ok a, s) f h = absurd h
bind-Stops (err e, s) f h = (tt, refl)
bind-Stops (panicked, s) f h = (tt, refl)

-- The computation passes, with its state as it was and `P`, or it stops in that state.
abbrev Checks : {S : Type 0} → Type 0 → M S (Unit {0}) → S → Type 0
Checks P m s = ((m s ≡ (ok tt, s)) × P) ⊎ (Stops (m s).0 × ((m s).1 ≡ s))

for_each-Checks :
    {S A : Type 0} (P : A → Type 0) (body : A → M S (Unit {0})) (s : S)
    → ((x : A) → Checks (P x) (body x) s)
    → (xs : List A) → Checks (All P xs) (for_each xs body) s
unfolding for_each
for_each-Checks P body s h [] = inl (refl, tt)
for_each-Checks P body s h (x ∷ xs) = elim (h x) [
  | inl (e, p) ↦ rw e (elim (for_each-Checks P body s h xs) [
    | inl (e', ps) ↦ inl (e', (p, ps))
    | inr (stops, e') ↦ inr (stops, e')
  ])
  | inr (stops, e) ↦
      let (stops', e') = bind-Stops (body x s) (λ _. for_each xs body) stops in inr (stops', e' ∙ e)
]

module _ (o : Outside) (r : Runner) where
  -- The fleet has the number, and the gate lets its rollback through.
  abbrev pub Passes : Bool → ℕ → Type 0
  Passes a n = (m : Migration) × (migration (fleet r) n ≡ some m) × (gate m a ≡ ok tt)

  gate-Checks :
      (m : Migration) (a : Bool) (s : S o r) → Checks (gate m a ≡ ok tt) (lift o r (gate m a)) s
  gate-Checks m a s = go (gate m a)
    where
      go : (x : Result (Unit {0})) → Checks (x ≡ ok tt) (lift o r x) s
      go (ok u) = inl (refl, refl)
      go (err e) = inr (tt, refl)
      go panicked = inr (tt, refl)

  found-Checks :
      (a : Bool) (found : Option Migration) (s : S o r)
      → Checks
          ((m : Migration) × (found ≡ some m) × (gate m a ≡ ok tt))
          (on_found o r (λ m. lift o r (gate m a)) found)
          s
  found-Checks a none s = inr (tt, refl)
  found-Checks a (some m) s = elim (gate-Checks m a s) [
    | inl (e, g) ↦ inl (e, (m, refl, g))
    | inr stops ↦ inr stops
  ]

  -- On a database whose applied numbers can be read, `rollback_to` looks through all that it
  -- would take off before it takes anything off: either every number passes its gate and the
  -- rollbacks run one after the other from the state at hand, or the call stops with the state
  -- untouched.
  pub rollback_database-gated :
      (floor : ℕ) (a : Bool) (database : Text) (s : S o r) (applied : List ℕ)
      → applied_migrations o r database s ≡ (ok applied, s)
      → ((rollback_database o r floor a database s
            ≡ for_each (todo (fleet r) applied floor) (with_migration o r (roll o r database)) s)
          × All (Passes a) (todo (fleet r) applied floor))
        ⊎ (Stops (rollback_database o r floor a database s).0
            × ((rollback_database o r floor a database s).1 ≡ s))
  unfolding rollback_database
  rollback_database-gated floor a database s applied e =
      rw e
        (elim (for_each-Checks (Passes a) (with_migration o r (λ m. lift o r (gate m a))) s
          (λ n. found-Checks a (migration (fleet r) n) s) (todo (fleet r) applied floor)) [
            | inl (passed, all_pass) ↦ inl (rw passed, all_pass)
            | inr (stops, same) ↦
                let (stops', same') =
                  bind-Stops
                    (for_each (todo (fleet r) applied floor)
                      (with_migration o r (λ m. lift o r (gate m a))) s)
                    (λ _.
                      for_each (todo (fleet r) applied floor)
                        (with_migration o r (roll o r database)))
                    stops in
                inr (stops', same' ∙ same)
          ])

  applied_migrations-IsAscending :
      (database : Text) (s s' : S o r) (applied : List ℕ)
      → applied_migrations o r database s ≡ (ok applied, s')
      → IsAscending applied
  unfolding applied_migrations
  applied_migrations-IsAscending database s s' applied e = go (last_states o r database s) e
    where
      go :
          (p : Result (List LastState) × S o r)
          → bind p (λ states. return (number_set (map number_of (keep is_applied states))))
            ≡ (ok applied, s')
          → IsAscending applied
      go (ok states, t) h =
          subst IsAscending (cc h) (number_set-IsAscending (map number_of (keep is_applied states)))
      go (err x, t) h = cc
      go (panicked, t) h = cc

  -- On a database whose applied numbers can be read, `rollback_database`, which `rollback_to` runs
  -- on each of its databases, either stops with the state as it was, or it rolls back one number
  -- after the other, up to the first that fails, of a list that descends and has exactly the
  -- applied numbers that are above the floor and in the fleet.
  pub rollback_database-newest_first :
      (floor : ℕ) (a : Bool) (database : Text) (s : S o r) (applied : List ℕ)
      → applied_migrations o r database s ≡ (ok applied, s)
      → ((ns : List ℕ) × (rollback_database o r floor a database s
            ≡ for_each ns (with_migration o r (roll o r database)) s)
          × IsDescending ns
          × ((n : ℕ)
              → has_number ns n
                ≡ (has_number applied n && (ltb floor n && has_migration (fleet r) n))))
        ⊎ (Stops (rollback_database o r floor a database s).0
            × ((rollback_database o r floor a database s).1 ≡ s))
  rollback_database-newest_first floor a database s applied e =
      elim (rollback_database-gated floor a database s applied e) [
        | inl (run, passed) ↦
            let up = applied_migrations-IsAscending database s s applied e in
            let (down, exact) = todo_lem (fleet r) applied floor up in
            inl (todo (fleet r) applied floor, run, down, exact)
        | inr stopped ↦ inr stopped
      ]

  peel_refuses :
      (m : Migration) (database : Text) (s s' : S o r) (applied : List ℕ) (n : ℕ)
      → applied_migrations o r database s ≡ (ok applied, s')
      → has_number applied m.number ≡ true
      → has_number applied n ≡ true
      → m.number < n
      → (top : ℕ) × (peel o r m database s ≡ (err (not_latest database m.number top), s'))
        × (has_number applied top ≡ true)
        × ((k : ℕ) → has_number applied k ≡ true → k ≤ top)
  unfolding peel
  peel_refuses m database s s' applied n e h k l =
      let (top, t, has, most) =
        last_of-IsLargest applied n (applied_migrations-IsAscending database s s' applied e) k in
      let le = most n k in (top, rw e (rw (h, t) (ground arith)), has, most)

  rollback_found-peels :
      (targets : Targets) (acknowledge_targeted : Bool) (m : Migration) (s : S o r)
      → m.targeted ≡ none
      → rollback_found o r targets acknowledge_targeted m s
        ≡ bind (target_databases o r targets s) (λ databases. for_each databases (peel o r m))
  unfolding rollback_found
  rollback_found-peels targets acknowledge_targeted m s u = simp u

  peel_first :
      (m : Migration) (database : Text) (later : List Text) (s s' : S o r) (problem : RunnerError)
      → peel o r m database s ≡ (err problem, s')
      → for_each (database ∷ later) (peel o r m) s ≡ (err problem, s')
  unfolding for_each
  peel_first m database later s s' problem e = rw e refl

  -- Let `rollback_one` be asked for a migration of the fleet that is not targeted, let it be
  -- allowed to write, the gate let it through, the tracking tables be there or be made, and the
  -- first target database's applied numbers be read. If they hold the migration's number and a
  -- larger one, the call ends in the refusal that names the largest number applied there, in the
  -- state in which the numbers were read: nothing is rolled back.
  pub rollback_one-refuses :
      (targets : Targets) (acknowledge acknowledge_targeted : Bool) (m : Migration) (number n : ℕ)
      (database : Text) (later : List Text) (applied : List ℕ) (s s0 s1 s2 s3 : S o r)
      → require_write o r (codes "rollback") s ≡ (ok tt, s0)
      → migration r.migrations number ≡ some m
      → gate m acknowledge ≡ ok tt
      → m.targeted ≡ none
      → ensure_tracking o r s0 ≡ (ok tt, s1)
      → target_databases o r targets s1 ≡ (ok (database ∷ later), s2)
      → applied_migrations o r database s2 ≡ (ok applied, s3)
      → has_number applied m.number ≡ true
      → has_number applied n ≡ true
      → m.number < n
      → (top : ℕ) × (rollback_one o r targets number acknowledge acknowledge_targeted s
          ≡ (err (not_latest database m.number top), s3))
        × (has_number applied top ≡ true)
        × ((k : ℕ) → has_number applied k ≡ true → k ≤ top)
  unfolding rollback_one
  rollback_one-refuses targets acknowledge acknowledge_targeted m number n database later applied s
        s0 s1 s2 s3 w f g u b d e h k l =
      let (top, refused, has, most) = peel_refuses m database s2 s3 applied n e h k l in
      (
        top,
        rw (w, f, g, b, rollback_found-peels targets acknowledge_targeted m s1 u, d)
            (peel_first m database later s2 s3 _ refused),
        has,
        most,
      )
