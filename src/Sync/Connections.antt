-- ===== src/Sync/Connections.antt =====
-- crates/zedb-core/src/connection.rs, and `merge_synced_connections` of sync.rs.
use ze_db.Prelude.{
  ℕ, Bool, true, false, not, ◌&&◌, ◌||◌, List, [], ◌∷◌, ◌++◌, Option, none, some, map,
}
use ze_db.Prelude.Tests.{if◌then◌else◌}
use ze_db.Prelude.Lists.{all}
use ze_db.Prelude.Text.{Text, codes, text_eq, contains_text}
use ze_db.Prelude.Utf8.{trim, is_empty}

pub data EnvTier : Type 0 where
  dev staging production : EnvTier

pub record ConnectionNode : Type 0 where
  pub name : Text
  pub endpoint : Text
  pub native_port : Option ℕ

pub record DriverSetting : Type 0 where
  pub name : Text
  pub value : Text

pub record CloudProvenance : Type 0 where
  pub org_id : Text
  pub service_id : Text

-- `driver` is the list that a `DriverConfig` holds.
pub record ConnectionConfig : Type 0 where
  pub name : Text
  pub nodes : List ConnectionNode
  pub user : Text
  pub database : Option Text
  pub driver : List DriverSetting
  pub tier : EnvTier
  pub read_only : Bool
  pub cloud : Option CloudProvenance

-- What is read off a `url::Url`.
pub record Url : Type 0 where
  pub scheme : Text
  pub has_host : Bool
  pub username : Text
  pub has_password : Bool

-- The loop of the merge: the list so far, and the names seen.
abbrev pub Merged : Type 0
Merged = List ConnectionConfig × List Text

-- `url` is `url::Url::parse`.
module _ (url : Text → Option Url) where
  abbrev is_web : Option Url → Bool
  is_web none = false
  is_web (some u) =
      (text_eq u.scheme (codes "http") || text_eq u.scheme (codes "https"))
      && (u.has_host && (is_empty u.username && not u.has_password))

  unfoldable pub is_syncable_endpoint : Text → Bool
  is_syncable_endpoint endpoint =
      if is_empty (trim endpoint) || not (text_eq endpoint (trim endpoint))
      then false
      else is_web (url (trim endpoint))

  abbrev pub some_node : List ConnectionNode → Bool
  some_node [] = false
  some_node (n ∷ ns) = true

  abbrev pub is_acceptable : ConnectionConfig → Bool
  is_acceptable c = all (λ n. is_syncable_endpoint n.endpoint) c.nodes && some_node c.nodes

  -- A connection without a local decision on it.
  abbrev pub guarded : ConnectionConfig → ConnectionConfig
  guarded c = record c { read_only = true; tier = production; driver = []; cloud = none }

  abbrev pub adopt : ConnectionConfig → ConnectionConfig → ConnectionConfig
  adopt incoming c = record c { user = incoming.user; database = incoming.database }

  -- `iter_mut().find`, and the change of what it finds.
  unfoldable pub update_first :
      ConnectionConfig → List ConnectionConfig → Option (List ConnectionConfig)
  update_first incoming [] = none
  update_first incoming (c ∷ cs) = elim (text_eq c.name incoming.name) [
    | true ↦ some (adopt incoming c ∷ cs)
    | false ↦ elim (update_first incoming cs) [ none ↦ none | some ds ↦ some (c ∷ ds) ]
  ]

  -- A name that no merged connection has: `seen` then holds the names that were turned down.
  abbrev pub merge_new : ConnectionConfig → Merged → Merged
  merge_new incoming (merged, seen) = if contains_text seen incoming.name then (merged, seen) else (
    if is_acceptable incoming then merged ++ guarded incoming ∷ [] else merged,
    incoming.name ∷ seen,
  )

  abbrev pub merge_named : ConnectionConfig → Option (List ConnectionConfig) → Merged → Merged
  merge_named incoming (some updated) (merged, seen) = (updated, seen)
  merge_named incoming none state = merge_new incoming state

  unfoldable pub merge_step : ConnectionConfig → Merged → Merged
  merge_step incoming (merged, seen) =
      if is_empty incoming.name
      then (merged, seen)
      else merge_named incoming (update_first incoming merged) (merged, seen)

  unfoldable pub merge_loop : List ConnectionConfig → Merged → List ConnectionConfig
  merge_loop [] state = state.0
  merge_loop (incoming ∷ pulled) state = merge_loop pulled (merge_step incoming state)

  unfoldable pub merge_synced_connections :
      List ConnectionConfig → List ConnectionConfig → List ConnectionConfig
  merge_synced_connections local pulled = merge_loop pulled (local, map (λ c. c.name) local)
