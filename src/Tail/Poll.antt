-- ===== src/Tail/Poll.antt =====
-- `tail_poll_once` of crates/zedb-app/src/features/query/tail_controller/polling.rs, and
-- `prepend_tail` of crates/zedb-app/src/features/query/components/grid/mod.rs.
use mathlib.Core.List.{reverse}
use ze_db.Prelude.{ℕ, suc, Bool, true, false, List, [], ◌∷◌, ◌++◌, Option, none, some}
use ze_db.Prelude.Tests.{ltb, ◌==◌, if◌then◌else◌}
use ze_db.Prelude.Lists.{length, take}
use ze_db.Prelude.Text.{Text, codes, text_eq}
use ze_db.Wire.Types.{ColumnMeta, QueryResult}
use ze_db.Tail.{Outside, TailQuery, Row, tail_seed, seed_sql, poll_sql, last_key}

-- `TailState`, as far as the polls use it.
pub record TailState : Type 0 where
  pub query : TailQuery
  pub last : Option Text
  pub key_index : ℕ
  pub cap : Option ℕ
  pub generation : ℕ
  pub error : Option Text

-- The tab's tail, and what its grid holds, the newest row first.
pub record Tab : Type 0 where
  pub tail : Option TailState
  pub pending : Option (List ColumnMeta)
  pub columns : List ColumnMeta
  pub rows : List Row
  pub result_rows : ℕ
  pub has_result : Bool
  pub result_columns : ℕ

-- What a poll keeps until its reply comes.
pub record Request : Type 0 where
  pub sql : Text
  pub key : Text
  pub priming : Bool
  pub cap : Option ℕ
  pub generation : ℕ

abbrev pub is_none : Option Text → Bool
is_none none = true
is_none (some t) = false

abbrev pub sql_of : TailQuery → Option Text → Text
sql_of q none = seed_sql q tail_seed
sql_of q (some last) = poll_sql q last q.limit

abbrev pub request_of : ℕ → Option TailState → Option Request
request_of generation none = none
request_of generation (some s) =
    if s.generation == generation
    then some (record {
      sql = sql_of s.query s.last;
      key = s.query.key;
      priming = is_none s.last;
      cap = s.cap;
      generation = generation;
    })
    else none

-- `tail_poll_once` up to the query. `on_connection`: the connection is still the tail's.
unfoldable pub poll_request : Bool → ℕ → Tab → Option Request
poll_request on_connection generation tab =
    if on_connection then request_of generation tab.tail else none

-- The outcome of the query; an error of the client or of the task is its message.
pub data Reply : Type 0 where
  answered : QueryResult → Reply
  failed : Text → Reply

-- `columns.iter().position(|column| column.name == key)`
unfoldable pub position : Text → List ColumnMeta → Option ℕ
position key [] = none
position key (c ∷ cs) = elim (text_eq c.name key) [
  | true ↦ some 0
  | false ↦ elim (position key cs) [ none ↦ none | some i ↦ some (suc i) ]
]

-- `begin_result`
abbrev pub begin_result : List ColumnMeta → Tab → Tab
begin_result columns tab = record tab { pending = some columns }

abbrev pub adopted : Tab → Option (List ColumnMeta) → Tab
adopted tab none = tab
adopted tab (some columns) = record tab { pending = none; columns = columns; rows = [] }

-- `split_off(cap)`; without a cap it is `usize::MAX`, which no grid reaches.
abbrev pub trimmed : Option ℕ → List Row → List Row
trimmed none rows = rows
trimmed (some cap) rows = if ltb cap (length rows) then take cap rows else rows

unfoldable pub prepend_tail : List Row → Option ℕ → Tab → Tab
prepend_tail [] cap tab = tab
prepend_tail (row ∷ batch) cap tab =
    let tab' = adopted tab tab.pending in
    record tab' { rows = trimmed cap (reverse (row ∷ batch) ++ tab'.rows) }

abbrev pub counted : Tab → Tab
counted tab = record tab { result_rows = length tab.rows; has_result = true }

abbrev pub show_batch : Request → List ColumnMeta → List Row → Tab → Tab
show_batch r columns rows tab =
    if r.priming
    then record (counted (prepend_tail rows r.cap (begin_result columns tab))) {
      result_columns = length columns;
    }
    else counted (prepend_tail rows r.cap tab)

abbrev pub or_last : Option Text → Option Text → Option Text
or_last none last = last
or_last (some next) last = some next

abbrev pub batch_at : Outside → Request → QueryResult → TailState → Tab → Option ℕ → Tab
batch_at o r res s tab none = record tab {
  tail =
      some
        (record s { error = some (codes "tail key `" ++ r.key ++ codes "` is not in the result") });
}
batch_at o r res s tab (some index) = show_batch r res.columns res.rows (record tab {
  tail = some (record s {
    error = none;
    key_index = index;
    last = or_last (last_key o index res.rows) s.last;
  });
})

abbrev pub with_rows : Outside → Request → QueryResult → TailState → Tab → List Row → Tab
with_rows o r res s tab [] = record tab { tail = some (record s { error = none }) }
with_rows o r res s tab (row ∷ rows) = batch_at o r res s tab (position r.key res.columns)

abbrev pub absorb : Outside → Request → Reply → TailState → Tab → Tab
absorb o r (failed message) s tab = record tab { tail = some (record s { error = some message }) }
absorb o r (answered res) s tab = with_rows o r res s tab res.rows

abbrev pub land_on : Outside → Request → Reply → Tab → Option TailState → Tab
land_on o r reply tab none = tab
land_on o r reply tab (some s) =
    if s.generation == r.generation then absorb o r reply s tab else tab

-- `tail_poll_once` when the reply comes.
unfoldable pub land : Outside → Request → Reply → Tab → Tab
land o r reply tab = land_on o r reply tab tab.tail
