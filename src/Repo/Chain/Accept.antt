-- ===== src/Repo/Chain/Accept.antt =====
-- Chains that `discover_chain` accepts, and the numbers given out from them.
use ze_db.Prelude.{
  ℕ, ◌⊎◌, inl, inr, ◌↔◌, sym, ap, ◌∙◌, ◌≤◌, ◌<◌, ◌≡◌, ◌≢◌, refl, List, [], ◌∷◌, ◌++◌, Option, none,
  some, arith,
}
use ze_db.Prelude.Tests.{◌==◌, Bool-cases}
use ze_db.Prelude.Lists.{All}
use ze_db.Prelude.Text.{Text}
use ze_db.Repo.Template.{undeclared_placeholders}
use ze_db.Repo.Chain.{
  first_unknown, sort_by_number, check_windows, check_some, check_params, declared_params,
  collect_root, discover_chain, next_number, migration,
}
use ze_db.Repo.Chain.Disk.{Entries, ok, >>=-eq-ok, ok-injective}
use ze_db.Repo.Chain.Parse.{Migration, upgrade_sql, rollback_sql, decimal, check_path}
use ze_db.Repo.Chain.Order.{Follows, IsChain, sort-IsSorted, check_windows-IsChain, All-sort}
use ze_db.Repo.Chain.Dated.{IsDated, decimal_bound, check_path-dated, collect-IsDated}
use mathlib.Core.Option.{some-injective}
use mathlib.Core.Path.{subst}

-- The migration's SQL is there, and uses declared parameters only.
abbrev pub IsDeclared : List Text → Migration → Type 0
IsDeclared declared m =
    ((sql : Text) × (upgrade_sql m ≡ ok sql) × (undeclared_placeholders sql declared ≡ []))
    × ((back : Option Text) × (rollback_sql m ≡ ok back)
        × ((sql : Text) → back ≡ some sql → undeclared_placeholders sql declared ≡ []))

first_unknown-eq-ok : (names : List Text) → first_unknown names ≡ ok tt → names ≡ []
first_unknown-eq-ok [] e = refl
first_unknown-eq-ok (n ∷ names) e = cc

check_some-eq-ok :
    (declared : List Text) (o : Option Text)
    → check_some declared o ≡ ok tt
    → (sql : Text) → o ≡ some sql
    → undeclared_placeholders sql declared ≡ []
check_some-eq-ok declared none e sql h = cc
check_some-eq-ok declared (some t) e sql h = rw (← some-injective t sql h) (first_unknown-eq-ok _ e)

check_params-IsDeclared :
    (declared : List Text) (ms : List Migration)
    → check_params declared ms ≡ ok tt
    → All (IsDeclared declared) ms
unfolding check_params
check_params-IsDeclared declared [] e = tt
check_params-IsDeclared declared (m ∷ ms) e =
    let (sql, p, e1) = >>=-eq-ok (upgrade_sql m) _ e in
    let (u, q, e2) = >>=-eq-ok (check_some declared (some sql)) _ e1 in
    let (back, r, e3) = >>=-eq-ok (rollback_sql m) _ e2 in
    let (v, s, e4) = >>=-eq-ok (check_some declared back) (λ _. check_params declared ms) e3 in
    (
      (
        (sql, p, check_some-eq-ok declared (some sql) q sql refl),
        (back, r, check_some-eq-ok declared back s),
      ),
      check_params-IsDeclared declared ms e4,
    )

module _ (parse_targeted : Text → Option (List Text)) where
  collect_root-IsDated :
      (root : Option Entries) (found : List Migration)
      → collect_root parse_targeted root ≡ ok found
      → All IsDated found
  collect_root-IsDated none found e = ground arith
  collect_root-IsDated (some es) found e = collect-IsDated parse_targeted [] 0 es found e

  -- In every chain that `discover_chain` accepts the numbers strictly ascend below 100000, no
  -- month directory lies before an earlier migration's, months are 1 to 12, and each file can
  -- be read and uses declared parameters only.
  pub discover_chain-IsChain :
      (root : Option Entries) (params scopes : List Text) (chain : List Migration)
      → discover_chain parse_targeted root params scopes ≡ ok chain
      → IsChain chain × All IsDated chain × All (IsDeclared (declared_params params scopes)) chain
  unfolding discover_chain
  discover_chain-IsChain root params scopes chain e =
      let (found, p, e1) = >>=-eq-ok (collect_root parse_targeted root) _ e in
      let (u, q, e2) = >>=-eq-ok (check_windows (sort_by_number found)) _ e1 in
      let (v, r, e3) =
        >>=-eq-ok (check_params (declared_params params scopes) (sort_by_number found)) _ e2 in
      subst (λ c. IsChain c × All IsDated c × All (IsDeclared (declared_params params scopes)) c)
        (ok-injective _ _ e3)
        (
          check_windows-IsChain (sort_by_number found) (sort-IsSorted found) q,
          All-sort IsDated found (collect_root-IsDated root found p),
          check_params-IsDeclared (declared_params params scopes) (sort_by_number found) r,
        )

-- The migration is one of the list.
abbrev pub IsIn : Migration → List Migration → Type 0
IsIn m [] = ⊥
IsIn m (x ∷ xs) = (m ≡ x) ⊎ IsIn m xs

All-IsIn :
    (P : Migration → Type 0) (m : Migration) (ms : List Migration) → All P ms → IsIn m ms → P m
All-IsIn P m [] h i = absurd i
All-IsIn P m (x ∷ xs) h i = elim i [
  | inl e ↦ subst P (sym e) h.0
  | inr later ↦ All-IsIn P m xs h.1 later
]

Nat-cases : (m n : ℕ) → (m ≡ n) ⊎ (m ≢ n)
Nat-cases m n = elim (Bool-cases (m == n)) [
  | inl t ↦ inl (ground arith)
  | inr f ↦ inr (λ e. absurd (ground arith))
]

some-not-none : {x : Migration} → some x ≢ none
some-not-none e = cc

module _ (x : Migration) (xs : List Migration) (n : ℕ) where
  migration-here : x.number ≡ n → migration (x ∷ xs) n ≡ some x
  unfolding migration
  migration-here e = ground arith

  migration-later : x.number ≢ n → migration (x ∷ xs) n ≡ migration xs n
  unfolding migration
  migration-later e = ground arith

migration-IsIn :
    (ms : List Migration) (n : ℕ) (m : Migration)
    → migration ms n ≡ some m
    → IsIn m ms × (m.number ≡ n)
unfolding migration
migration-IsIn [] n m e = cc
migration-IsIn (x ∷ xs) n m e = elim (Nat-cases x.number n) [
  | inl t ↦
      let same = some-injective x m (sym (migration-here x xs n t) ∙ e) in
      (inl (sym same), ap (λ y. y.number) (sym same) ∙ t)
  | inr f ↦
      let (later, number) = migration-IsIn xs n m (sym (migration-later x xs n f) ∙ e) in
      (inr later, number)
]

IsIn-migration :
    (ms : List Migration) (n : ℕ) (m : Migration)
    → IsChain ms
    → IsIn m ms
    → m.number ≡ n
    → migration ms n ≡ some m
IsIn-migration [] n m c i e = absurd i
IsIn-migration (x ∷ xs) n m c i e = elim i [
  | inl same ↦ migration-here x xs n (ap (λ y. y.number) (sym same) ∙ e) ∙ ap some (sym same)
  | inr later ↦
      let after = All-IsIn (Follows x) m xs c.0 later in
      migration-later x xs n (λ t. let lt = after.0 in absurd (omega arith))
      ∙ IsIn-migration xs n m c.1 later e
]

migration-absent :
    (xs : List Migration) (n : ℕ) → migration xs n ≡ none → All (λ m. m.number ≢ n) xs
migration-absent [] n e = tt
migration-absent (x ∷ xs) n e = elim (Nat-cases x.number n) [
  | inl t ↦ absurd (some-not-none (sym (migration-here x xs n t) ∙ e))
  | inr f ↦ (f, migration-absent xs n (sym (migration-later x xs n f) ∙ e))
]

absent-migration :
    (xs : List Migration) (n : ℕ) → All (λ m. m.number ≢ n) xs → migration xs n ≡ none
unfolding migration
absent-migration [] n h = refl
absent-migration (x ∷ xs) n h = migration-later x xs n h.0 ∙ absent-migration xs n h.1

-- In a chain, `migration` finds exactly the migration that the chain has under the number asked
-- for, and none for a number that no migration of the chain has.
pub migration_iff :
    (ms : List Migration) (n : ℕ)
    → IsChain ms
    → ((m : Migration) → (migration ms n ≡ some m) ↔ (IsIn m ms × (m.number ≡ n)))
      × ((migration ms n ≡ none) ↔ All (λ m. m.number ≢ n) ms)
migration_iff ms n c = (
  λ m. (migration-IsIn ms n m, λ h. IsIn-migration ms n m c h.0 h.1),
  (migration-absent ms n, absent-migration ms n),
)

next_number_grows :
    (m : Migration) (ms : List Migration)
    → IsChain (m ∷ ms)
    → All (λ x. x.number < next_number (m ∷ ms)) (m ∷ ms)
unfolding next_number
next_number_grows m [] c = (omega arith, tt)
next_number_grows m (n ∷ ms) c = let ih = next_number_grows n ms c.1 in (omega arith, ih)

-- Once the last migration's number is 99900 or more, the directory that `next_number` asks for
-- is one that no path can name: `parse_migration` accepts no path for it.
pub next_number-unreachable :
    (before : List Migration) (m : Migration) (parts : List Text) (year month number : Text)
    → 99900 ≤ m.number
    → check_path parts ≡ ok (year, month, number)
    → decimal number ≢ next_number (before ++ m ∷ [])
unfolding next_number
next_number-unreachable [] m parts year month number h e =
    let (_, n, _, _) = check_path-dated parts year month number e in
    omega (arith, decimal_bound 5 number n)
next_number-unreachable (x ∷ []) m parts year month number h e =
    next_number-unreachable [] m parts year month number h e
next_number-unreachable (x ∷ y ∷ before) m parts year month number h e =
    next_number-unreachable (y ∷ before) m parts year month number h e
