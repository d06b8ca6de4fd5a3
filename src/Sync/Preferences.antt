-- ===== src/Sync/Preferences.antt =====
-- crates/zedb-core/src/preferences.rs, and what sync.rs makes of preferences.
use ze_db.Prelude.{ℕ, Bool, List, [], ◌∷◌, Option, none, some}
use ze_db.Prelude.Text.{Text}

pub record CustomAgent : Type 0 where
  pub name : Text
  pub command : Text
  pub args : List Text

-- `saved_at` is the 64 bits of an `i64`.
pub record SavedQuery : Type 0 where
  pub name : Text
  pub sql : Text
  pub favorite : Bool
  pub saved_at : ℕ

pub record CloudOrgRef : Type 0 where
  pub id : Text
  pub name : Text

-- `agent_pane_width` is the 32 bits of an `f32`.
pub record Preferences : Type 0 where
  pub vim_mode : Bool
  pub experimental_streaming_queries : Bool
  pub fleet_repo : Option Text
  pub fleet_repos : List (Text × Text)
  pub fleet_cluster : Option Text
  pub custom_agents : List CustomAgent
  pub agent_always_allow : List Text
  pub agent_pane_width : Option ℕ
  pub last_agent : Option Text
  pub theme : Option Text
  pub settings_sync_url : Option Text
  pub settings_sync_repo : Option Text
  pub saved_queries : List SavedQuery
  pub cloud_orgs : List CloudOrgRef

unfoldable pub sanitized_preferences : Preferences → Preferences
sanitized_preferences p = record p {
  fleet_repo = none;
  fleet_repos = [];
  settings_sync_url = none;
  settings_sync_repo = none;
  agent_always_allow = [];
  last_agent = none;
}

abbrev pub agents_or : List CustomAgent → List CustomAgent → List CustomAgent
agents_or [] here = here
agents_or (a ∷ more) here = a ∷ more

abbrev pub cluster_or : Option Text → Option Text → Option Text
cluster_or none here = here
cluster_or (some c) here = some c

unfoldable pub apply_preferences : Preferences → Preferences → Preferences
apply_preferences here pulled = record pulled {
  fleet_repo = here.fleet_repo;
  fleet_repos = here.fleet_repos;
  settings_sync_url = here.settings_sync_url;
  settings_sync_repo = here.settings_sync_repo;
  agent_always_allow = here.agent_always_allow;
  last_agent = here.last_agent;
  custom_agents = agents_or pulled.custom_agents here.custom_agents;
  fleet_cluster = cluster_or pulled.fleet_cluster here.fleet_cluster;
}
