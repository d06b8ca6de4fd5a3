-- ===== src/Wire/Rows.antt =====
-- `decode` of crates/zedb-ch/src/rowbinary.rs: a whole response.
pub mod Stable
pub mod Fuel
pub mod RoundTrip
pub mod Ends
use ze_db.Prelude.{ℕ, zero, suc, ◌+◌, Bool, true, false, List, [], ◌∷◌, Option, none, some}
use ze_db.Prelude.Tests.{ltb, ◌==◌, if◌then◌else◌}
use ze_db.Prelude.Lists.{length}
use ze_db.Prelude.Text.{Text}
use ze_db.Wire.Types.{ChType, Value, ColumnMeta, QueryResult, Outside}
use ze_db.Wire.Reader.{
  ChError, rows_after_no_columns, response_too_large, Input, Read, ok, err, panicked, bind, Reader,
  ◌>>=◌, ◌>>◌, return, fail, max_materialized_response_bytes, max_columns, max_header_string_bytes,
  max_decoded_values, bounded_len, header_string,
}
use ze_db.Wire.Parse.{parse_type}
use ze_db.Wire.Values.{read_value}

unfoldable pub read_names : ℕ → Reader (List Text)
read_names zero = return []
read_names (suc n) = header_string max_header_string_bytes >>= λ name.
    read_names n >>= λ names. return (name ∷ names)

-- `parse_type(&s)?` in the middle of reading.
abbrev pub parsed : Text → Read ChType → Reader (Text × ChType)
parsed s (ok t j) i = ok (s, t) i
parsed s (err e) i = err e
parsed s panicked i = panicked

unfoldable pub read_column_types : ℕ → Reader (List (Text × ChType))
read_column_types zero = return []
read_column_types (suc n) = header_string max_header_string_bytes >>= λ s.
    parsed s (parse_type s) >>= λ t. read_column_types n >>= λ ts. return (t ∷ ts)

pub record Header : Type 0 where
  pub columns : List ColumnMeta
  pub types : List ChType

-- `names.into_iter().zip(type_names)`
abbrev pub zip_columns : List Text → List (Text × ChType) → List ColumnMeta
zip_columns (name ∷ names) ((s, t) ∷ ts) =
    record { name = name; type_name = s } ∷ zip_columns names ts
zip_columns _ _ = []

abbrev pub types_of : List (Text × ChType) → List ChType
types_of [] = []
types_of ((s, t) ∷ ts) = t ∷ types_of ts

unfoldable pub read_header : Reader Header
read_header = do
  n ← bounded_len max_columns
  names ← read_names n
  ts ← read_column_types n
  return (record { columns = zip_columns names ts; types = types_of ts })

-- A text at the head of a row, with the budget of a row.
abbrev pub at_row : Text → Input
at_row rest = record { rest = rest; budget = max_decoded_values }

abbrev pub Rows : Type 0
Rows = List (List Value)

-- `stopped`: a panic.
pub data Outcome {ℓ} (A : Type ℓ) : Type ℓ where
  done : A → Outcome A
  failed : ChError → Outcome A
  stopped : Outcome A

abbrev pub prepend : List Value → Outcome Rows → Outcome Rows
prepend row (Outcome.done rows) = Outcome.done (row ∷ rows)
prepend row (Outcome.failed e) = Outcome.failed e
prepend row Outcome.stopped = Outcome.stopped

-- The body of the loop, behind the reading of a row from a text of this length.
abbrev pub after_row : (Text → Outcome Rows) → ℕ → Read (List Value) → Outcome Rows
after_row next len (Read.ok row i) = elim (length i.rest == len) [
  | true ↦ Outcome.failed rows_after_no_columns
  | false ↦ prepend row (next i.rest)
]
after_row next len (Read.err e) = Outcome.failed e
after_row next len Read.panicked = Outcome.stopped

module _ (o : Outside) where
  unfoldable pub read_row : List ChType → Reader (List Value)
  read_row [] = return []
  read_row (t ∷ ts) = read_value o t 0 >>= λ v. read_row ts >>= λ vs. return (v ∷ vs)

  -- The loop over the rows. `stopped` is for fuel that ran out, too.
  unfoldable pub rows_loop : ℕ → List ChType → Text → Outcome Rows
  rows_loop zero types rest = Outcome.stopped
  rows_loop (suc fuel) types [] = Outcome.done []
  rows_loop (suc fuel) types (b ∷ bs) =
      after_row (rows_loop fuel types) (length (b ∷ bs)) (read_row types (at_row (b ∷ bs)))

  unfoldable pub read_rows : List ChType → Text → Outcome Rows
  read_rows types rest = rows_loop (suc (length rest)) types rest

  abbrev pub result_of : List ColumnMeta → Outcome Rows → Outcome QueryResult
  result_of columns (Outcome.done rows) = Outcome.done (record { columns = columns; rows = rows })
  result_of columns (Outcome.failed e) = Outcome.failed e
  result_of columns Outcome.stopped = Outcome.stopped

  abbrev pub behind_header : Read Header → Outcome QueryResult
  behind_header (Read.ok h i) = result_of h.columns (read_rows h.types i.rest)
  behind_header (Read.err e) = Outcome.failed e
  behind_header Read.panicked = Outcome.stopped

  unfoldable pub decode : Text → Outcome QueryResult
  decode buf =
      if ltb max_materialized_response_bytes (length buf)
      then Outcome.failed response_too_large
      else behind_header (read_header (at_row buf))
