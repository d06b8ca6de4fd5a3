-- ===== src/Tests/Pool.antt =====
-- Runs of the pool of native connections.
use ze_db.Prelude.{
  ◌+◌, ◌*◌, ◌≤◌, ◌≡◌, ◌↔◌, refl, inl, true, false, List, [], ◌∷◌, none, some, arith,
}
use ze_db.Prelude.Text.{Text, codes, text_eq}
use ze_db.Prelude.Utf8.{trim}
use ze_db.Pool.{
  is_read_statement, ChConfig, Outside, Event, retry_after, start, run, pool_key, pooled, get,
  disabled, step, evict, landed, insert, remove, answer, pick, key_text, session_digest,
}
use ze_db.Pool.Key.{SameSession, pool_key-SameSession}
use ze_db.Pool.Owners.{HandsOut, run-HandsOut}
use ze_db.Pool.Settle.{Moves, land_all, land_all-Moves}
use ze_db.Pool.Probes.{started, started_bound}

-- URLs that parse to themselves, and a digest that keeps what it is given.
abbrev world : Outside
world = record {
  zedb_native = none;
  parse_url = λ t. some ([], none);
  sha256 = λ t. t;
  salt = codes "salt";
}

abbrev node : ChConfig
node = record {
  url = codes " http://a:8123";
  user = codes "u";
  password = none;
  database = none;
  read_only = true;
  settings = [];
  native_port = some 9000;
}

abbrev same_node : ChConfig
same_node = record node { url = codes "http://a:8123 "; database = some [] }

abbrev node_key : Text
node_key = codes "http://a:8123|Some(9000)|u||true|salt"

pool_key-node : pool_key world node ≡ some node_key
unfolding pool_key trim key_text ze_db.Value.decimal ze_db.Value.decimal_loop session_digest
pool_key-node = refl

-- The user `a|b` in the database `c` shares the key of the user `a` in the database `b|c`.
pool_key-collision :
    pool_key world (record node { user = codes "a|b"; database = some (codes "c") })
    ≡ pool_key world (record node { user = codes "a"; database = some (codes "b|c") })
unfolding pool_key key_text session_digest
pool_key-collision = refl

abbrev connected : List Event
connected = Event.ask true node ∷ Event.background_landed 0 true ∷ []

-- A socket that has closed is not handed out: a new connect starts.
reconnect :
    (pooled world true node (record (run world start connected) { closed = 0 ∷ [] })).0 ≡ none
unfolding pooled disabled pool_key trim answer get run step pick landed insert text_eq key_text
    ze_db.Value.decimal ze_db.Value.decimal_loop session_digest
reconnect = refl

pool_key-SameSession_example : (node_key ≡ node_key) ↔ SameSession world node same_node
unfolding pool_key trim key_text ze_db.Value.decimal ze_db.Value.decimal_loop session_digest
pool_key-SameSession_example =
    pool_key-SameSession world node same_node node_key node_key
      (record { url = omega arith; user = omega arith; database = tt })
      (record { url = omega arith; user = omega arith; database = tt }) pool_key-node refl

run-HandsOut_example : HandsOut world (run world start connected) same_node 0
unfolding pooled disabled pool_key trim answer get run step pick landed insert text_eq key_text
    ze_db.Value.decimal ze_db.Value.decimal_loop session_digest
run-HandsOut_example = run-HandsOut world connected same_node false 0 (inl refl)

-- One connect has landed well, another is in flight, and it fails.
abbrev busy : List Event
busy = Event.ask true node ∷ Event.drop_broken node ∷ Event.ask true node ∷ []

land_all-Moves_example :
    Moves world same_node node_key
      (run world (run world start busy) (land_all ((1, true) ∷ (0, false) ∷ [])))
unfolding disabled pool_key trim key_text ze_db.Value.decimal ze_db.Value.decimal_loop
    session_digest run step pooled answer get evict remove insert text_eq
land_all-Moves_example =
    land_all-Moves world busy ((1, true) ∷ (0, false) ∷ []) same_node node_key refl refl
      (omega arith, (omega arith, refl))

-- Two connects within five minutes and a nanosecond.
abbrev down : List Event
down =
    Event.ask true node
    ∷ Event.background_landed 0 false
    ∷ Event.ask true node
    ∷ Event.passes (retry_after + 1)
    ∷ Event.ask true same_node
    ∷ []

started-down : started world node_key start down ≡ 2
unfolding step pooled disabled pool_key trim answer get text_eq key_text ze_db.Value.decimal
    ze_db.Value.decimal_loop session_digest pick landed insert remove
started-down = refl

started_bound_example :
    started world node_key start down * retry_after ≤ (run world start down).now + retry_after
started_bound_example = started_bound world node_key down (tt, (refl, (tt, (tt, (tt, tt)))))

is_read_statement-with :
    is_read_statement (codes "WITH x AS (SELECT 1) INSERT INTO t SELECT 1") ≡ false
unfolding is_read_statement text_eq
is_read_statement-with = refl

is_read_statement-select : is_read_statement (codes "  select 1") ≡ true
unfolding is_read_statement text_eq
is_read_statement-select = refl
