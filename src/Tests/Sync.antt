-- ===== src/Tests/Sync.antt =====
-- The sync on a small repository: one file that holds the settings of a machine.
use ze_db.Prelude.{
  ℕ, ◌≡◌, ◌≢◌, refl, ◌↔◌, ◌⊎◌, Bool, true, false, List, [], ◌∷◌, ◌++◌, Option, none, some,
}
use ze_db.Prelude.Text.{contains_text, Text, codes, text_eq}
use ze_db.Sync.Connections.{
  EnvTier, dev, staging, production, ConnectionNode, ConnectionConfig, Url,
  merge_synced_connections,
}
use ze_db.Sync.Preferences.{Preferences, sanitized_preferences}
use ze_db.Sync.Tick.{
  Payload, SyncState, content, parsed, Outside, apply_repo, push_local_conflict, in_step, reconcile,
  build_payload, read_payload, pulled, run_sync_tick,
}
use ze_db.Repo.Template.Scan.{Distinct}
use ze_db.Sync.Names.{names, merge_synced_connections-Distinct}
use ze_db.Sync.Merge.{Extends, merge_synced_connections-Extends}
use ze_db.Sync.Decide.{
  reconcile_iff, Accounts, repo_of, run_sync_tick-Accounts, run_sync_tick-in_step,
}

abbrev web : Text → Option Url
web text =
    some (record { scheme = codes "https"; has_host = true; username = []; has_password = false })

abbrev node : Text → ConnectionNode
node endpoint = record { name = codes "n"; endpoint = endpoint; native_port = none }

abbrev shop : ConnectionConfig
shop = record {
  name = codes "shop";
  nodes = node (codes "https://shop") ∷ [];
  user = codes "ann";
  database = none;
  driver = [];
  tier = staging;
  read_only = false;
  cloud = none;
}

abbrev moved : ConnectionConfig
moved = record shop { nodes = node (codes "https://evil") ∷ []; user = codes "bob" }

abbrev lab : ConnectionConfig
lab = record shop { name = codes "lab"; tier = dev }

abbrev lab_again : ConnectionConfig
lab_again = record lab { user = codes "eve" }

merge_run :
    merge_synced_connections web (shop ∷ []) (moved ∷ lab ∷ lab_again ∷ [])
    ≡ record shop { user = codes "bob" }
      ∷ record lab { user = codes "eve"; read_only = true; tier = production }
      ∷ []
unfolding merge_synced_connections ze_db.Sync.Connections.merge_loop
    ze_db.Sync.Connections.merge_step ze_db.Sync.Connections.update_first text_eq
    ze_db.Prelude.Text.contains_text ze_db.Sync.Connections.is_syncable_endpoint
    ze_db.Prelude.Utf8.trim
merge_run = refl

merge_synced_connections-Extends_example :
    Extends web
      (shop ∷ [])
      (merge_synced_connections web (shop ∷ []) (moved ∷ lab ∷ lab_again ∷ []))
merge_synced_connections-Extends_example =
    merge_synced_connections-Extends web (shop ∷ []) (moved ∷ lab ∷ lab_again ∷ [])

abbrev plain : Preferences
plain = record {
  vim_mode = true;
  experimental_streaming_queries = false;
  fleet_repo = none;
  fleet_repos = [];
  fleet_cluster = some (codes "main");
  custom_agents = [];
  agent_always_allow = [];
  agent_pane_width = none;
  last_agent = none;
  theme = some (codes "dark");
  settings_sync_url = none;
  settings_sync_repo = none;
  saved_queries = [];
  cloud_orgs = [];
}

abbrev here : Preferences
here = record plain { fleet_repo = some (codes "/here"); last_agent = some (codes "claude") }

abbrev there : Payload
there = build_payload plain (shop ∷ []) 7 (codes "desk")

-- The world is the state that was saved; the file is always the other machine's payload.
abbrev disk : Outside
disk = record {
  World = Option SyncState;
  has_upstream = λ w. true;
  pull = λ w. (none, w);
  commit_payload = λ message w. (none, w);
  push_setting_upstream = λ w. (none, w);
  read_file = λ w. content (codes "{}");
  write_file = λ text w. (none, w);
  read_state = λ w. w;
  write_state = λ state w. some state;
  content_json = λ preferences connections. codes "{}";
  parse_json = λ text. parsed there;
  to_json_pretty = λ payload. codes "{}";
  unix_now = λ w. 8;
  hostname = λ w. codes "lap";
}

conflict_run : reconcile (codes "a") (some (codes "b")) (some (codes "c")) ≡ push_local_conflict
unfolding reconcile text_eq
conflict_run = refl

reconcile_iff_example :
    (reconcile (codes "a") (some (codes "b")) (some (codes "a")) ≡ apply_repo) ↔ (
      (hash : Text) × (some (codes "b") ≡ some hash)
      × (hash ≢ codes "a")
      × (some (codes "a") ≡ some (codes "a")))
reconcile_iff_example = reconcile_iff (codes "a") (some (codes "b")) (some (codes "a"))

run_sync_tick-Accounts_example :
    Accounts disk here
      (shop ∷ [])
      (pulled disk none).1
      (pulled disk none).0
      (repo_of disk (read_payload disk (pulled disk none).1))
      (run_sync_tick disk here (shop ∷ []) none)
run_sync_tick-Accounts_example = run_sync_tick-Accounts disk here (shop ∷ []) none

run_sync_tick-in_step_example : (run_sync_tick disk here (shop ∷ []) none).0 ≡ in_step
unfolding sanitized_preferences read_payload build_payload
run_sync_tick-in_step_example =
    run_sync_tick-in_step disk here plain (shop ∷ []) none 7 (codes "desk") refl refl

merge_synced_connections-Distinct_example :
    Distinct (names (merge_synced_connections web (shop ∷ []) (moved ∷ lab ∷ lab_again ∷ [])))
unfolding contains_text
merge_synced_connections-Distinct_example =
    merge_synced_connections-Distinct web (shop ∷ []) (moved ∷ lab ∷ lab_again ∷ []) (refl, tt)
