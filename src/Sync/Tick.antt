-- ===== src/Sync/Tick.antt =====
-- crates/zedb-core/src/sync.rs: the payload, its fingerprint, and one pass of the sync.
use ze_db.Prelude.{
  ℕ, zero, suc, ◌+◌, ◌*◌, ◌/◌, ◌%◌, ◌^◌, Bool, true, false, not, List, [], ◌∷◌, ◌++◌, Option, none,
  some,
}
use ze_db.Prelude.Tests.{ltb, if◌then◌else◌}
use ze_db.Prelude.Text.{Text, codes, text_eq}
use ze_db.Sync.Connections.{ConnectionConfig}
use ze_db.Sync.Preferences.{Preferences, sanitized_preferences}

pub record Payload : Type 0 where
  pub version : ℕ
  pub updated_at : ℕ
  pub updated_by : Text
  pub preferences : Preferences
  pub connections : List ConnectionConfig

pub record SyncState : Type 0 where
  pub last_synced_hash : Option Text
  pub last_synced_at : Option ℕ

pub data FileRead : Type 0 where
  absent : FileRead
  unreadable : Text → FileRead
  content : Text → FileRead

pub data Parsed : Type 0 where
  invalid : Text → Parsed
  parsed : Payload → Parsed

pub data PayloadRead : Type 0 where
  failed : Text → PayloadRead
  found : Option Payload → PayloadRead

-- What the sync calls: the store's bounded reads and atomic writes, serde_json, git, the clock
-- and the host's name. A call that can fail answers with the error's
-- text, which holds the path too.
pub record Outside : Type 1 where
  pub World : Type 0
  pub has_upstream : World → Bool
  pub pull : World → Option Text × World
  pub commit_payload : Text → World → Option Text × World
  pub push_setting_upstream : World → Option Text × World
  pub read_file : World → FileRead
  pub write_file : Text → World → Option Text × World
  pub read_state : World → Option SyncState
  pub write_state : SyncState → World → World
  pub content_json : Preferences → List ConnectionConfig → Text
  pub parse_json : Text → Parsed
  pub to_json_pretty : Payload → Text
  pub unix_now : World → ℕ
  pub hostname : World → Text

-- `hash ^= byte`, bit by bit.
abbrev pub xor_bits : ℕ → ℕ → ℕ → ℕ
xor_bits zero a b = 0
xor_bits (suc n) a b = (a + b) % 2 + 2 * xor_bits n (a / 2) (b / 2)

-- One byte of the FNV-1a loop, with the wrap-around of a `u64`.
abbrev pub fnv_byte : ℕ → ℕ → ℕ
fnv_byte hash byte = (xor_bits 64 hash byte * 1099511628211) % 2 ^ 64

unfoldable pub fnv_loop : ℕ → Text → ℕ
fnv_loop hash [] = hash
fnv_loop hash (byte ∷ bytes) = fnv_loop (fnv_byte hash byte) bytes

abbrev hex_digit : ℕ → ℕ
hex_digit d = if ltb d 10 then 48 + d else 87 + d

-- `{:016x}`
unfoldable pub hex : ℕ → ℕ → Text
hex zero n = []
hex (suc k) n = hex k (n / 16) ++ hex_digit (n % 16) ∷ []

pub data Reconcile : Type 0 where
  up_to_date apply_repo push_local push_local_conflict : Reconcile

-- `crashed` is the panic of `expect`.
pub data SyncTickResult : Type 0 where
  in_step : SyncTickResult
  applied : Payload → Text → SyncTickResult
  pushed : Bool → SyncTickResult
  tick_failed : Text → SyncTickResult
  crashed : SyncTickResult

abbrev pub is_hash : Option Text → Text → Bool
is_hash none hash = false
is_hash (some known) hash = text_eq known hash

abbrev pub decide : Bool → Bool → Reconcile
decide false true = apply_repo
decide true false = push_local
decide true true = push_local_conflict
decide false false = apply_repo

unfoldable pub reconcile : Text → Option Text → Option Text → Reconcile
reconcile local_hash none last_synced = push_local
reconcile local_hash (some repo_hash) last_synced =
    if text_eq repo_hash local_hash
    then up_to_date
    else decide (not (is_hash last_synced local_hash)) (not (is_hash last_synced repo_hash))

unfoldable pub build_payload : Preferences → List ConnectionConfig → ℕ → Text → Payload
build_payload preferences connections updated_at updated_by = record {
  version = 1;
  updated_at = updated_at;
  updated_by = updated_by;
  preferences = sanitized_preferences preferences;
  connections = connections;
}

module _ (o : Outside) where
  unfoldable pub content_hash : Preferences → List ConnectionConfig → Text
  content_hash preferences connections = hex 16 (
      fnv_loop 14695981039346656037
        (o.content_json (sanitized_preferences preferences) connections))

  abbrev pub payload_hash : Payload → Text
  payload_hash payload = content_hash payload.preferences payload.connections

  abbrev pub hash_of : Option Payload → Option Text
  hash_of none = none
  hash_of (some payload) = some (payload_hash payload)

  abbrev payload_or_error : Parsed → PayloadRead
  payload_or_error (invalid text) = failed text
  payload_or_error (parsed payload) = found (some payload)

  abbrev payload_of : FileRead → PayloadRead
  payload_of absent = found none
  payload_of (unreadable text) = failed text
  payload_of (content text) = payload_or_error (o.parse_json text)

  unfoldable pub read_payload : o.World → PayloadRead
  read_payload w = payload_of (o.read_file w)

  unfoldable pub write_payload : Payload → o.World → Option Text × o.World
  write_payload payload w = o.write_file (o.to_json_pretty payload) w

  abbrev state_or_default : Option SyncState → SyncState
  state_or_default none = record { last_synced_hash = none; last_synced_at = none }
  state_or_default (some state) = state

  unfoldable pub load_state : o.World → SyncState
  load_state w = state_or_default (o.read_state w)

  -- `save_state` of the hash, at the present time.
  unfoldable pub stamp_state : Text → o.World → o.World
  stamp_state hash w =
      o.write_state (record { last_synced_hash = some hash; last_synced_at = some (o.unix_now w) })
        w

  abbrev pub Tick : Type 0
  Tick = SyncTickResult × o.World

  abbrev pub pulled : o.World → Option Text × o.World
  pulled w = if o.has_upstream w then o.pull w else (none, w)

  -- A push, and when it fails a pull and a second push. What is reported is the first error.
  abbrev pub second_push : Text → Option Text × o.World → Option Text × o.World
  second_push first (some again, w) = (some first, w)
  second_push first (none, w) = (none, w)

  abbrev pub after_pull : Text → Option Text × o.World → Option Text × o.World
  after_pull first (some text, w) = (some first, w)
  after_pull first (none, w) = second_push first (o.push_setting_upstream w)

  abbrev pub retry : Option Text × o.World → Option Text × o.World
  retry (none, w) = (none, w)
  retry (some first, w) = after_pull first (o.pull w)

  abbrev pub finish : Bool → Text → Option Text × o.World → Tick
  finish conflicted hash (some first, w) = (tick_failed (codes "push failed: " ++ first), w)
  finish conflicted hash (none, w) = (pushed conflicted, stamp_state hash w)

  abbrev pub committed : Bool → Text → Option Text × o.World → Tick
  committed conflicted hash (some text, w) = (tick_failed (codes "commit failed: " ++ text), w)
  committed conflicted hash (none, w) = finish conflicted hash (retry (o.push_setting_upstream w))

  abbrev pub written : Bool → Text → Text → Option Text × o.World → Tick
  written conflicted hash author (some text, w) = (tick_failed text, w)
  written conflicted hash author (none, w) =
      committed conflicted hash (o.commit_payload (codes "settings: update from " ++ author) w)

  -- The branch that pushes the local settings.
  unfoldable pub push_settings :
      Bool → Option Text → Preferences → List ConnectionConfig → o.World → Tick
  push_settings conflicted (some text) preferences connections w =
      (tick_failed (codes "could not pull the sync repo; push postponed"), w)
  push_settings conflicted none preferences connections w =
      let payload = build_payload preferences connections (o.unix_now w) (o.hostname w) in
      written conflicted (content_hash preferences connections) payload.updated_by
        (write_payload payload w)

  abbrev pub in_step_tick : Text → o.World → Tick
  in_step_tick hash w =
      (in_step, if is_hash (load_state w).last_synced_hash hash then w else stamp_state hash w)

  -- The match on the decision.
  abbrev pub act :
      Reconcile
      → Option Text
      → Option Payload
      → Preferences
      → List ConnectionConfig
      → o.World
      → Tick
  act up_to_date pull_error repo p cs w = in_step_tick (content_hash p cs) w
  act apply_repo pull_error (some payload) p cs w = (applied payload (payload_hash payload), w)
  act apply_repo pull_error none p cs w = (crashed, w)
  act push_local pull_error repo p cs w = push_settings false pull_error p cs w
  act push_local_conflict pull_error repo p cs w = push_settings true pull_error p cs w

  abbrev pub tick_on :
      PayloadRead → Option Text → Preferences → List ConnectionConfig → o.World → Tick
  tick_on (failed text) pull_error p cs w = (tick_failed text, w)
  tick_on (found repo) pull_error p cs w =
      act (reconcile (content_hash p cs) (hash_of repo) (load_state w).last_synced_hash) pull_error
        repo p cs w

  unfoldable pub run_sync_tick : Preferences → List ConnectionConfig → o.World → Tick
  run_sync_tick preferences connections w =
      tick_on (read_payload (pulled w).1) (pulled w).0 preferences connections (pulled w).1
