-- ===== src/Runner/Targets.antt =====
-- crates/zedb-ch/src/runner/targets.rs: which databases an operation works on, and
-- crates/zedb-core/src/repo/exclusions.rs.
use ze_db.Prelude.{Bool, not, List, [], ◌∷◌, ◌++◌, Option, none, some, map}
use ze_db.Prelude.Tests.{if◌then◌else◌}
use ze_db.Prelude.Lists.{any, keep, find}
use ze_db.Prelude.Text.{Text, text_eq, contains_text}
use ze_db.Prelude.Utf8.{text_lt}
use ze_db.Runner.Base.{
  unknown_group, no_databases, Result, ok, err, M, ◌>>=◌, ◌>>◌, return, Sql, registry,
  default_registry, Outside, Runner, Targets, databases, group, everything,
}
use ze_db.Runner.Tracking.{S, validate_sql_identifiers, query, first_fields}

-- `Exclusions::excluded`, each database with its group.
unfoldable pub excluded : List (Text × List Text) → List (Text × Text)
excluded [] = []
excluded ((name, dbs) ∷ groups) = map (λ db. (db, name)) dbs ++ excluded groups

abbrev same_database : Text → Text × Text → Bool
same_database database (db, name) = text_eq db database

unfoldable pub is_excluded : List (Text × List Text) → Text → Bool
unfolding excluded
is_excluded groups database = any (same_database database) (excluded groups)

-- The loop that keeps the first of equal names.
unfoldable pub unique : List Text → List Text → List Text
unique seen [] = seen
unique seen (x ∷ xs) = unique (if contains_text seen x then seen else seen ++ x ∷ []) xs

-- `sort`, and `dedup` behind it.
unfoldable pub insert_text : Text → List Text → List Text
insert_text t [] = t ∷ []
insert_text t (x ∷ xs) = if text_lt x t then x ∷ insert_text t xs else t ∷ x ∷ xs

unfoldable pub sort_texts : List Text → List Text
unfolding insert_text
sort_texts [] = []
sort_texts (x ∷ xs) = insert_text x (sort_texts xs)

unfoldable pub dedup : List Text → List Text
dedup [] = []
dedup (x ∷ []) = x ∷ []
dedup (x ∷ y ∷ xs) = let rest = dedup (y ∷ xs) in if text_eq x y then rest else x ∷ rest

pub record ResolvedTargets : Type 0 where
  pub databases : List Text
  pub skipped : List (Text × Text)

abbrev skip_of : Text → Option (Text × Text) → List (Text × Text)
skip_of database none = []
skip_of database (some (db, name)) = (database, name) ∷ []

-- The databases that an exclusion group names, each with the first such group.
unfoldable pub skips : List (Text × List Text) → List Text → List (Text × Text)
unfolding excluded
skips groups [] = []
skips groups (d ∷ ds) = skip_of d (find (same_database d) (excluded groups)) ++ skips groups ds

unfoldable pub group_named : Text → List (Text × List Text) → Option (List Text)
group_named name [] = none
group_named name ((k, dbs) ∷ groups) = if text_eq k name then some dbs else group_named name groups

abbrev resolve_group : Text → Option (List Text) → Result ResolvedTargets
resolve_group name none = err (unknown_group name)
resolve_group name (some dbs) = ok (record { databases = dbs; skipped = [] })

-- What `Targets::All` makes of the names that the registry query returned.
unfoldable pub discovered : Text → List (Text × List Text) → List Text → List Text
discovered tracking groups names =
    keep (λ d. not (is_excluded groups d))
      (keep (λ d. not (text_eq d tracking)) (dedup (sort_texts names)))

abbrev resolve_all : Text → List (Text × List Text) → List Text → Result ResolvedTargets
resolve_all tracking groups names = elim (discovered tracking groups names) [
  | [] ↦ err no_databases
  | d ∷ ds ↦ ok (record {
    databases = d ∷ ds;
    skipped = skips groups (keep (λ d. not (text_eq d tracking)) (dedup (sort_texts names)));
  })
]

abbrev pub registry_of : Option Text → Sql
registry_of (some q) = registry q
registry_of none = default_registry

module _ (o : Outside) (r : Runner) where
  unfoldable pub resolve : Targets → M (S o r) ResolvedTargets
  resolve (databases dbs) = λ s. (ok (record { databases = unique [] dbs; skipped = [] }), s)
  resolve (group name) = λ s. (resolve_group name (group_named name r.groups), s)
  resolve everything = do
    xs ← query o r (registry_of r.config.registry_query)
    λ s. (resolve_all r.config.tracking_database r.groups (first_fields xs), s)

  unfoldable pub resolve_targets : Targets → M (S o r) ResolvedTargets
  resolve_targets targets = do validate_sql_identifiers o r; resolve targets

  unfoldable pub target_databases : Targets → M (S o r) (List Text)
  target_databases targets = do resolved ← resolve_targets targets; return resolved.databases
