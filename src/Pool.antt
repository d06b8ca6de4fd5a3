-- ===== src/Pool.antt =====
-- crates/zedb-ch/src/native/pool.rs: the process-wide pool of native connections.
pub mod Entries
pub mod Key
pub mod Owners
pub mod Settle
pub mod Probes
use ze_db.Prelude.{
  ℕ, zero, suc, ◌+◌, ◌-◌, ◌*◌, Bool, true, false, not, ◌&&◌, ◌||◌, List, [], ◌∷◌, ◌++◌, Option,
  none, some,
}
use ze_db.Prelude.Tests.{ltb, ◌==◌, if◌then◌else◌}
use ze_db.Prelude.Lists.{length, any}
use ze_db.Prelude.Text.{Text, codes, text_eq, contains_text, to_ascii_upper}
use ze_db.Prelude.Utf8.{trim, trim_start, white_width, is_empty}
use ze_db.Sync.Connections.{DriverSetting}
use ze_db.Value.{decimal}
use mathlib.Core.List.{map}

-- `ChConfig`; of the driver, its settings.
pub record ChConfig : Type 0 where
  pub url : Text
  pub user : Text
  pub password : Option Text
  pub database : Option Text
  pub read_only : Bool
  pub settings : List DriverSetting
  pub native_port : Option ℕ

-- A `NativeClient` is the number of its socket.
pub data PoolEntry : Type 0 where
  connecting : PoolEntry
  ready : (client : ℕ) → PoolEntry
  failed : (at : ℕ) → PoolEntry

abbrev pub Entries : Type 0
Entries = List (Text × PoolEntry)

-- What the file calls: the environment, the URL parser, SHA-256 as hexadecimal digits, and the salt
-- of the process.
pub record Outside : Type 0 where
  pub zedb_native : Option Text
  pub parse_url : Text → Option (Text × Option Text)
  pub sha256 : Text → Text
  pub salt : Text

-- 300 seconds, in nanoseconds.
abbrev pub retry_after : ℕ
retry_after = 300000000000

abbrev pub is_zero : Option Text → Bool
is_zero none = false
is_zero (some value) = text_eq (trim value) (codes "0")

unfoldable pub disabled : Outside → Bool
disabled o = is_zero o.zedb_native

abbrev pub or_empty : Option Text → Text
or_empty none = []
or_empty (some t) = t

abbrev pub settings_bytes : List DriverSetting → Text
settings_bytes [] = []
settings_bytes (s ∷ ss) = 0 ∷ trim s.name ++ b'=' ∷ trim s.value ++ settings_bytes ss

unfoldable pub session_digest : Outside → ChConfig → Text
session_digest o cfg = o.sha256 (o.salt ++ or_empty cfg.password ++ settings_bytes cfg.settings)

-- `{:?}` of an optional port, and `{}` of a flag.
abbrev pub show_port : Option ℕ → Text
show_port none = codes "None"
show_port (some p) = codes "Some(" ++ decimal p ++ codes ")"

abbrev pub show_flag : Bool → Text
show_flag true = codes "true"
show_flag false = codes "false"

-- A user or a password in the URL.
abbrev pub carries_credentials : Text × Option Text → Bool
carries_credentials (user, none) = not (is_empty user)
carries_credentials (user, some p) = true

abbrev pub bar : ℕ
bar = b'|'

unfoldable pub key_text : Outside → ChConfig → Text
key_text o cfg =
    trim cfg.url
    ++ (bar ∷ show_port cfg.native_port
        ++ (bar ∷ cfg.user
            ++ (bar ∷ or_empty cfg.database
                ++ (bar ∷ show_flag cfg.read_only ++ (bar ∷ session_digest o cfg)))))

abbrev pub key_of_url : Option (Text × Option Text) → Text → Option Text
key_of_url none k = none
key_of_url (some parsed) k = if carries_credentials parsed then none else some k

unfoldable pub pool_key : Outside → ChConfig → Option Text
pool_key o cfg =
    if is_empty (trim cfg.url)
    then none
    else key_of_url (o.parse_url (trim cfg.url)) (key_text o cfg)

-- The map of the pool.
unfoldable pub get : Text → Entries → Option PoolEntry
get k [] = none
get k ((j, e) ∷ es) = if text_eq j k then some e else get k es

unfoldable pub remove : Text → Entries → Entries
remove k [] = []
remove k ((j, e) ∷ es) = if text_eq j k then remove k es else (j, e) ∷ remove k es

unfoldable pub insert : Text → PoolEntry → Entries → Entries
insert k e es = (k, e) ∷ remove k es

-- The process. `sockets` are the connections made so far, by number, with the configuration that
-- each was made for; `background` and `foreground` are the connects in flight, by key.
pub record Process : Type 0 where
  pub entries : Entries
  pub background : List (Text × ChConfig)
  pub foreground : List (Text × ChConfig)
  pub sockets : List ChConfig
  pub closed : List ℕ
  pub now : ℕ

abbrev pub start : Process
start = record {
  entries = [];
  background = [];
  foreground = [];
  sockets = [];
  closed = [];
  now = 0;
}

abbrev pub is_closed : Process → ℕ → Bool
is_closed s c = any (λ d. d == c) s.closed

-- What `pooled` makes of the entry: a client to hand out, nothing, or a new connect.
pub data Answer : Type 0 where
  hand_out : ℕ → Answer
  wait : Answer
  connect : Answer

unfoldable pub answer : Process → Option PoolEntry → Answer
answer s none = connect
answer s (some PoolEntry.connecting) = wait
answer s (some (PoolEntry.ready c)) = if is_closed s c then connect else hand_out c
answer s (some (PoolEntry.failed at)) = if ltb (s.now - at) retry_after then wait else connect

-- The entry is written and the connect spawned, if there is a runtime to spawn it on.
abbrev pub spawn : Bool → Text → ChConfig → Process → Process
spawn false k cfg s = s
spawn true k cfg s = record s {
  entries = insert k PoolEntry.connecting s.entries;
  background = s.background ++ (k, cfg) ∷ [];
}

abbrev pub pooled_answer : Bool → Text → ChConfig → Process → Answer → Option ℕ × Process
pooled_answer runtime k cfg s (hand_out c) = (some c, s)
pooled_answer runtime k cfg s wait = (none, s)
pooled_answer runtime k cfg s connect = (none, spawn runtime k cfg s)

abbrev pub pooled_key : Bool → Option Text → ChConfig → Process → Option ℕ × Process
pooled_key runtime none cfg s = (none, s)
pooled_key runtime (some k) cfg s = pooled_answer runtime k cfg s (answer s (get k s.entries))

-- `runtime`: the caller runs in the context of a tokio runtime.
unfoldable pub pooled : Outside → Bool → ChConfig → Process → Option ℕ × Process
pooled o runtime cfg s = if disabled o then (none, s) else pooled_key runtime (pool_key o cfg) cfg s

abbrev pub remove_key : Option Text → Process → Process
remove_key none s = s
remove_key (some k) s = record s { entries = remove k s.entries }

unfoldable pub evict : Outside → ChConfig → Process → Process
evict o cfg s = remove_key (pool_key o cfg) s

-- `connect_pooled` up to its wait: an error, a client, or a connect in flight.
pub data Demanded : Type 0 where
  transport_disabled invalid_endpoint : Demanded
  client : ℕ → Demanded
  in_flight : Demanded

abbrev pub dial : Text → ChConfig → Process → Demanded × Process
dial k cfg s = (Demanded.in_flight, record s { foreground = s.foreground ++ (k, cfg) ∷ [] })

abbrev pub demand_entry : Text → ChConfig → Process → Option PoolEntry → Demanded × Process
demand_entry k cfg s (some (PoolEntry.ready c)) =
    if is_closed s c then dial k cfg s else (Demanded.client c, s)
demand_entry k cfg s (some PoolEntry.connecting) = dial k cfg s
demand_entry k cfg s (some (PoolEntry.failed at)) = dial k cfg s
demand_entry k cfg s none = dial k cfg s

abbrev pub demand_key : Option Text → ChConfig → Process → Demanded × Process
demand_key none cfg s = (Demanded.invalid_endpoint, s)
demand_key (some k) cfg s = demand_entry k cfg s (get k s.entries)

unfoldable pub connect_pooled : Outside → ChConfig → Process → Demanded × Process
connect_pooled o cfg s =
    if disabled o then (Demanded.transport_disabled, s) else demand_key (pool_key o cfg) cfg s

-- A connect ends: the new socket, or the time of the failure, is the entry of its key.
unfoldable pub landed : Text → ChConfig → Bool → Process → Process
landed k cfg true s = record s {
  entries = insert k (PoolEntry.ready (length s.sockets)) s.entries;
  sockets = s.sockets ++ cfg ∷ [];
}
landed k cfg false s = record s { entries = insert k (PoolEntry.failed s.now) s.entries }

-- What happens in the process, one at a time: the mutex is held within a call and never across a
-- wait. A connect in flight is named by its place in its list.
pub data Event : Type 0 where
  ask : (runtime : Bool) → ChConfig → Event
  drop_broken : ChConfig → Event
  demand : ChConfig → Event
  background_landed : ℕ → Bool → Event
  foreground_landed : ℕ → Bool → Event
  closes : ℕ → Event
  passes : ℕ → Event

-- The connect at a place, and the others.
unfoldable pub pick :
    ℕ → List (Text × ChConfig) → Option ((Text × ChConfig) × List (Text × ChConfig))
pick n [] = none
pick zero (t ∷ ts) = some (t, ts)
pick (suc n) (t ∷ ts) = elim (pick n ts) [ none ↦ none | some (u, us) ↦ some (u, t ∷ us) ]

abbrev pub background_ends :
    Bool → Process → Option ((Text × ChConfig) × List (Text × ChConfig)) → Process
background_ends made s none = s
background_ends made s (some ((k, cfg), others)) =
    landed k cfg made (record s { background = others })

abbrev pub foreground_ends :
    Bool → Process → Option ((Text × ChConfig) × List (Text × ChConfig)) → Process
foreground_ends made s none = s
foreground_ends made s (some ((k, cfg), others)) =
    landed k cfg made (record s { foreground = others })

unfoldable pub step : Outside → Process → Event → Process
step o s (ask runtime cfg) = (pooled o runtime cfg s).1
step o s (drop_broken cfg) = evict o cfg s
step o s (demand cfg) = (connect_pooled o cfg s).1
step o s (background_landed n made) = background_ends made s (pick n s.background)
step o s (foreground_landed n made) = foreground_ends made s (pick n s.foreground)
step o s (closes c) = record s { closed = c ∷ s.closed }
step o s (passes t) = record s { now = s.now + t }

unfoldable pub run : Outside → Process → List Event → Process
run o s [] = s
run o s (e ∷ es) = run o (step o s e) es

-- `split_whitespace().next()`, of a text that is trimmed at its start.
unfoldable pub first_word : Text → Text
unfolding white_width
first_word [] = []
first_word (c ∷ t) = if white_width (c ∷ t) == 0 then c ∷ first_word t else []

abbrev read_keywords : List Text
read_keywords =
    codes "SELECT"
    ∷ codes "SHOW"
    ∷ codes "DESCRIBE"
    ∷ codes "DESC"
    ∷ codes "EXPLAIN"
    ∷ codes "EXISTS"
    ∷ []

unfoldable pub is_read_statement : Text → Bool
unfolding first_word trim_start contains_text
is_read_statement sql =
    contains_text read_keywords (map to_ascii_upper (first_word (trim_start sql)))
