-- ===== src/Lib.antt =====
-- zeDB's migration engine, and the sync of its settings: a repository of numbered SQL migrations
-- on disk, the template language of their scripts, the splitter that cuts a script into
-- statements, and the runner that applies, rolls back, stamps and reports migrations over a fleet
-- of ClickHouse databases; the pass that keeps preferences and connections in step with a git repository; and
-- the reader of ClickHouse's RowBinary responses, whole and as they stream in; and the tokenizer
-- that the editor's name intelligence stands on; the pool of native connections; and, of the
-- desktop application, the live tail of a table and the statements of the query editor.
--
-- The parts and their files:
--
--   Repo/Template.antt         crates/zedb-core/src/repo/template.rs: `placeholders`,
--                              `undeclared_placeholders`, `is_identifier`, `render`.
--   Repo/Chain.antt, Repo/Chain/Parse.antt, Repo/Chain/Disk.antt
--                              crates/zedb-core/src/repo/chain.rs: `collect`, `parse_migration`,
--                              `discover_chain`; `next_number` and `migration` of repo/mod.rs.
--   Replay/Split.antt          crates/zedb-ch/src/replay.rs: `split_statements`.
--   Runner/Base.antt           crates/zedb-ch/src/runner.rs: errors, options, the state.
--   Runner/Targets.antt        crates/zedb-ch/src/runner/targets.rs, with
--                              crates/zedb-core/src/repo/exclusions.rs.
--   Runner/Tracking.antt       crates/zedb-ch/src/runner/tracking.rs: the tracking tables.
--   Runner/Execution.antt, Runner/Apply.antt
--                              crates/zedb-ch/src/runner/execution.rs: parameters, redaction, the
--                              audit log and `apply_sql`.
--   Runner/Route.antt          crates/zedb-ch/src/runner/status.rs: `statement_body`, `is_system`,
--                              `needs_admin`.
--   Runner/Status.antt         `Runner::status` of the same file.
--   Runner/Actions.antt        crates/zedb-ch/src/runner/actions.rs: `upgrade`, `rollback_to`,
--                              `rollback_one`, `stamp`, `apply_targeted`.
--   Runner/Actions/Import.antt `import_tracking` of the same file.
--   Sync/Connections.antt      crates/zedb-core/src/sync.rs: `merge_synced_connections`, and the
--                              data of crates/zedb-core/src/connection.rs.
--   Sync/Preferences.antt      `sanitized_preferences` and `apply_preferences` of sync.rs, and the
--                              data of crates/zedb-core/src/preferences.rs.
--   Sync/Tick.antt             `reconcile`, `content_hash`, `build_payload`, `run_sync_tick`.
--   Wire/Types.antt            the data of crates/zedb-ch/src/types.rs and of
--                              crates/zedb-core/src/value.rs.
--   Wire/Lexer.antt, Wire/Parse.antt
--                              crates/zedb-ch/src/types.rs: the scanner and `parse_type`.
--   Wire/Reader.antt, Wire/Values.antt, Wire/Rows.antt, Wire/Stream.antt
--                              crates/zedb-ch/src/rowbinary.rs: `Reader` and `DecodeBudget`,
--                              `read_value`, `decode`, `StreamingDecoder`.
--   Value.antt                 the `Display` of a decimal of crates/zedb-core/src/value.rs.
--   Client.antt                crates/zedb-ch/src/client/streaming.rs: the loop of `query_stream`.
--   Intelligence/Tokens.antt, Intelligence/Statement.antt
--                              crates/zedb-ch/src/schema_intelligence/tokens.rs: `tokenize`,
--                              `statement_bounds`.
--   Pool.antt                  crates/zedb-ch/src/native/pool.rs: the pool of native connections.
--   Tail.antt                  crates/zedb-app/src/features/query/tail.rs: the queries of a live
--                              tail.
--   Tail/Poll.antt             crates/zedb-app/src/features/query/tail_controller/polling.rs: a poll
--                              and its reply, with `prepend_tail` of the grid.
--   Tail/Sql.antt              the SELECTs that a tail's server is asked, and the rows they stand for.
--   Tail/Server.antt           what a tail relies on of its server.
--   Editor.antt                crates/zedb-app/src/features/query/buffer.rs: `split_statements` of
--                              the editor.
--   Editor/Comments.antt       `sql_is_blank` and `comment_spans` there.
--   Editor/Values.antt         `strip_insert_values_comments` there.
--   Editor/Pick.antt           `statement_at_cursor` there.
--   Editor/Declare.antt        `collect_param_declarations` and `unquote_literal` there.
--   Editor/Variables.antt      `collect_variable_declarations` there.
--   Editor/Resolve.antt        `resolve_query_variables` there.
--   Editor/Params.antt         `params_at` and the lookup of `resolve_query_variables` there.
--   Prelude/                   Rust's text operations, tests into Bool and list lemmas.
--   Tests/                     runs on concrete inputs and the theorems at such inputs.
--
-- The discovery of the chain reads a directory tree and gives the ordered list of migrations; the
-- runner holds that list. An operation resolves its targets, reads the numbers applied to each
-- database from the tracking table, and hands each script to `apply_sql`, which renders it,
-- splits it and runs its statements one by one, with a row in the tracking table and a line in
-- the audit log before and after.
--
-- A pass of the sync pulls, reads the payload, compares the hashes of the local settings, of the
-- payload and of the last sync, and then hands the payload over, pushes, or does nothing.
--
-- A query's response is a header, with the names and the types of the columns, and rows. `decode`
-- reads a whole one; `query_stream` hands each chunk of the body to `StreamingDecoder::push`, which
-- keeps the bytes of a row that is not complete, and passes the rows on in batches, up to the
-- limit, between the progress reports of a timer.
--
-- The pool keeps one entry for each key of a configuration. `pooled` and `connect_pooled` read it and
-- start connects, and a connect that ends writes it; these are events, one after the other in any
-- order. A live tail polls its query with the key of the last row that it has shown, and puts the
-- rows of the reply in front of its grid.
--
-- The editor cuts its buffer into statements and `@set` directives, and looks the value of a
-- variable up by where it is used.
--
-- State. A method of `Runner` is a function from the state to a result and the state that it
-- leaves. The state is the servers' world and the lines handed to the audit log. The servers
-- (`ChClient`), the regular expressions of `decluster` and `needs_admin`, and the TOML reader are
-- parameters: any functions of their types. A statement that the runner writes is a constructor of
-- `Sql`; the scripts are passed on as text.
--
-- The sync is a function from a world to a result and a world in the same way. Git, the store, the
-- JSON serialiser, the URL parser, the clock and the host's name are its parameters.
--
-- A reader is a function from the bytes that are left and the budget of values to a value and what
-- is left then, an error, or a panic. The range of chrono's dates and times and the widening of a
-- float are parameters. What the network and the timer bring is a list of arrivals. The server of a
-- tail is a record with what SQL says of two kinds of SELECT, written out in Tail/Sql.antt apart from
-- the queries of the code: it is stated for a body that can stand in brackets, a key whose name has no
-- backtick or backslash in it, and keys that are integers and not negative, so that nothing is assumed
-- of the literals of other keys, as of times, which are printed without a zone. The URL parser,
-- SHA-256 and the environment are parameters of the pool.
--
-- Text. A `str` is the list of its UTF-8 bytes. Numbers are natural numbers; `parse_u32` and the
-- five digits of a migration's number keep the bounds of the source.
--
-- Fuel. `scan`, `split_loop` and `body_loop` take fuel, the length of the text and one more: each
-- round takes off at least one byte. So do `rows_loop`, `push_loop`, `tokenize_loop`, `name_loop`,
-- the loop of the editor's `split_statements` and the loops of the type parser; a row that takes no byte ends the loop. `parse` takes the levels of nesting that are left,
-- 64 of them, as the source does. `varuint_loop` takes its ten rounds. A directory tree is finite, so that `collect` needs none.
--
-- Not modelled: durations, run identifiers, terminal output, the text of the runner's own SQL, the
-- file handling of the audit log, symbolic links' targets, the numbers in the decoder's messages, the
-- request of a query, the desktop application but for the parts named above, the agent
-- protocol, the HTTP client, the schema tools and the stores of the other crates.
pub mod Prelude
pub mod Repo
pub mod Replay
pub mod Runner
pub mod Tests
pub mod Sync
pub mod Wire
pub mod Client
pub mod Pool
pub mod Editor
pub mod Tail
pub mod Value
pub mod Intelligence
