-- ===== src/Tail.antt =====
-- crates/zedb-app/src/features/query/tail.rs: the queries of a live tail, and the key it goes on from.
pub mod Poll
pub mod Sql
pub mod Server
pub mod Land
pub mod Shown
pub mod CatchUp
pub mod Overlap
use ze_db.Prelude.{
  ℕ, zero, suc, ◌+◌, ◌-◌, Bool, true, false, not, ◌&&◌, ◌||◌, List, [], ◌∷◌, ◌++◌, Option, none,
  some,
}
use ze_db.Prelude.Tests.{ltb, leb, ◌==◌, if◌then◌else◌}
use ze_db.Prelude.Lists.{length, get_elem?}
use ze_db.Prelude.Text.{Text, codes, replace, is_ascii_alphanumeric}
use ze_db.Wire.Types.{ℤ, Value}
use ze_db.Value.{decimal, integer, display_decimal}

-- `TAIL_BATCH` and `TAIL_SEED`.
abbrev pub tail_batch : ℕ
tail_batch = 500

abbrev pub tail_seed : ℕ
tail_seed = 20

pub record TailQuery : Type 0 where
  pub body : Text
  pub key : Text
  pub limit : ℕ

-- The `Display` of floats, UUIDs, dates and times.
pub record Outside : Type 0 where
  pub is_finite : ℕ → Bool
  pub show_float : ℕ → Text
  pub show_uuid : Text → Text
  pub show_date : ℤ → Text
  pub show_time : ℤ → ℕ → Text

unfoldable pub quote_ident : Text → Text
quote_ident t = codes "`" ++ replace (codes "`") (codes "``") t ++ codes "`"

unfoldable pub quote_string : Text → Text
quote_string t =
    codes "'"
    ++ replace (codes "'") (codes "\\'") (replace (codes "\\") (codes "\\\\") t)
    ++ codes "'"

unfoldable pub table_body : Text → Text → Text
unfolding quote_ident
table_body database table =
    codes "SELECT *"
    ++ b'\n' ∷ codes "FROM "
    ++ quote_ident database
    ++ codes "."
    ++ quote_ident table

unfoldable pub base_sql : TailQuery → Text
unfolding quote_ident
base_sql q =
    q.body
    ++ b'\n' ∷ codes "ORDER BY "
    ++ quote_ident q.key
    ++ codes " ASC"
    ++ b'\n' ∷ codes "LIMIT "
    ++ decimal q.limit

unfoldable pub seed_sql : TailQuery → ℕ → Text
unfolding quote_ident
seed_sql q limit =
    codes "SELECT * FROM (SELECT * FROM ("
    ++ q.body
    ++ codes ") ORDER BY "
    ++ quote_ident q.key
    ++ codes " DESC LIMIT "
    ++ decimal limit
    ++ codes ") ORDER BY "
    ++ quote_ident q.key
    ++ codes " ASC"

unfoldable pub poll_sql : TailQuery → Text → ℕ → Text
unfolding quote_ident
poll_sql q last limit =
    codes "SELECT * FROM ("
    ++ q.body
    ++ codes ") WHERE "
    ++ quote_ident q.key
    ++ codes " > "
    ++ last
    ++ codes " ORDER BY "
    ++ quote_ident q.key
    ++ codes " ASC LIMIT "
    ++ decimal limit

abbrev quoted : Text → Text
quoted t = codes "'" ++ t ++ codes "'"

unfoldable pub key_literal : Outside → Value → Option Text
unfolding quote_string
key_literal o (Value.int v) = some (integer v)
key_literal o (Value.uint v) = some (decimal v)
key_literal o (Value.int128 v) = some (integer v)
key_literal o (Value.uint128 v) = some (decimal v)
key_literal o (Value.decimal v scale) = some (display_decimal v scale)
key_literal o (Value.float v) = if o.is_finite v then some (o.show_float v) else none
key_literal o (Value.date d) = some (quoted (o.show_date d))
key_literal o (Value.date_time s n) = some (quoted (o.show_time s n))
key_literal o (Value.string t) = some (quote_string t)
key_literal o (Value.enum t) = some (quote_string t)
key_literal o (Value.uuid u) = some (codes "toUUID('" ++ o.show_uuid u ++ codes "')")
key_literal o Value.null = none
key_literal o (Value.bool b) = none
key_literal o (Value.bytes b) = none
key_literal o (Value.ipv4 a) = none
key_literal o (Value.ipv6 a) = none
key_literal o (Value.array vs) = none
key_literal o (Value.tuple vs) = none
key_literal o (Value.map ps) = none

abbrev pub Row : Type 0
Row = List Value

abbrev pub of_value : Outside → Option Value → Option Text
of_value o none = none
of_value o (some v) = key_literal o v

-- The literal of a row's key.
unfoldable pub row_key : Outside → ℕ → Row → Option Text
row_key o index row = of_value o (get_elem? row index)

unfoldable pub last_key : Outside → ℕ → List Row → Option Text
last_key o index [] = none
last_key o index (row ∷ []) = row_key o index row
last_key o index (row ∷ next ∷ rows) = last_key o index (next ∷ rows)

-- The loop of `is_simple_table_source`, with `quoted` and `has_name`; the code looks at characters,
-- and all but ASCII ones are refused or skipped alike, byte by byte.
unfoldable pub source_loop : Bool → Bool → Text → Bool
source_loop in_quotes has_name [] = has_name && not in_quotes
source_loop in_quotes has_name (c ∷ cs) = elim (c == b'`') [
  | true ↦ source_loop (not in_quotes) has_name cs
  | false ↦ elim (in_quotes || is_ascii_alphanumeric c || c == b'_') [
    | true ↦ source_loop in_quotes true cs
    | false ↦ elim (c == b'.') [ true ↦ source_loop in_quotes has_name cs | false ↦ false ]
  ]
]

abbrev is_dot : Option ℕ → Bool
is_dot none = false
is_dot (some c) = c == b'.'

unfoldable pub is_simple_table_source : Text → Bool
unfolding source_loop
is_simple_table_source [] = false
is_simple_table_source (c ∷ cs) =
    source_loop false false (c ∷ cs)
    && not (c == b'.')
    && not (is_dot (get_elem? (c ∷ cs) (length cs)))
