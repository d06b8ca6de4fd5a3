-- ===== src/Wire/Stream.antt =====
-- `StreamingDecoder` of crates/zedb-ch/src/rowbinary.rs: a response in chunks.
pub mod Loop
pub mod Chunks
use ze_db.Prelude.{ℕ, zero, suc, ◌+◌, Bool, true, false, List, [], ◌∷◌, ◌++◌, Option, none, some}
use ze_db.Prelude.Tests.{ltb, ◌==◌, if◌then◌else◌}
use ze_db.Prelude.Lists.{length}
use ze_db.Prelude.Text.{Text}
use ze_db.Wire.Types.{ChType, Value, ColumnMeta, QueryResult, Outside}
use ze_db.Wire.Reader.{
  ChError, unexpected_end, buffer_too_large, no_header, incomplete_row, Input, Read,
  max_stream_buffer_bytes,
}
use ze_db.Wire.Rows.{Header, read_header, at_row, Rows, Outcome, prepend, read_row}

pub record StreamingDecoder : Type 0 where
  pub buffer : Text
  pub columns : Option (List ColumnMeta)
  pub types : List ChType

abbrev pub new : StreamingDecoder
new = record { buffer = []; columns = none; types = [] }

abbrev pub is_incomplete : ChError → Bool
is_incomplete unexpected_end = true
is_incomplete _ = false

-- What a method returns, and the decoder that it leaves.
abbrev pub Step : Type 0 → Type 0
Step A = Outcome A × StreamingDecoder

-- `try_decode_header`
abbrev pub header_step : StreamingDecoder → Read Header → Step Bool
header_step d (Read.ok h i) =
    (Outcome.done true, record { buffer = i.rest; columns = some h.columns; types = h.types })
header_step d (Read.err e) = (if is_incomplete e then Outcome.done false else Outcome.failed e, d)
header_step d Read.panicked = (Outcome.stopped, d)

unfoldable pub try_decode_header : StreamingDecoder → Step Bool
try_decode_header d = header_step d (read_header (at_row d.buffer))

abbrev pub prepend_row : List Value → Outcome Rows × Text → Outcome Rows × Text
prepend_row row (rows, rest) = (prepend row rows, rest)

-- The body of the loop of `push`, behind the reading of a row from the buffer.
abbrev pub push_row : (Text → Outcome Rows × Text) → Text → Read (List Value) → Outcome Rows × Text
push_row next buffer (Read.ok row i) = elim (length i.rest == length buffer) [
  | true ↦ (Outcome.done [], buffer)
  | false ↦ elim (length i.rest == 0) [
    | true ↦ (Outcome.done (row ∷ []), [])
    | false ↦ prepend_row row (next i.rest)
  ]
]
push_row next buffer (Read.err e) =
    (if is_incomplete e then Outcome.done [] else Outcome.failed e, buffer)
push_row next buffer Read.panicked = (Outcome.stopped, buffer)

module _ (o : Outside) where
  -- The loop of `push`: the rows, and what stays in the buffer. `stopped` is for fuel that ran
  -- out, too.
  unfoldable pub push_loop : ℕ → List ChType → Text → Outcome Rows × Text
  push_loop zero types buffer = (Outcome.stopped, buffer)
  push_loop (suc fuel) types buffer =
      push_row (push_loop fuel types) buffer (read_row o types (at_row buffer))

  -- The bytes of the rows are drained, unless the loop fails.
  abbrev pub drained : StreamingDecoder → Outcome Rows × Text → Step Rows
  drained d (Outcome.done rows, rest) = (Outcome.done rows, record d { buffer = rest })
  drained d (Outcome.failed e, rest) = (Outcome.failed e, d)
  drained d (Outcome.stopped, rest) = (Outcome.stopped, d)

  unfoldable pub take_rows : StreamingDecoder → Step Rows
  take_rows d = drained d (push_loop (suc (length d.buffer)) d.types d.buffer)

  abbrev pub behind_header : Step Bool → Step Rows
  behind_header (Outcome.done true, d) = take_rows d
  behind_header (Outcome.done false, d) = (Outcome.done [], d)
  behind_header (Outcome.failed e, d) = (Outcome.failed e, d)
  behind_header (Outcome.stopped, d) = (Outcome.stopped, d)

  abbrev pub with_columns : Option (List ColumnMeta) → StreamingDecoder → Step Rows
  with_columns none d = behind_header (try_decode_header d)
  with_columns (some columns) d = take_rows d

  unfoldable pub push : StreamingDecoder → Text → Step Rows
  push d chunk =
      if ltb max_stream_buffer_bytes (length d.buffer + length chunk)
      then (Outcome.failed buffer_too_large, d)
      else with_columns d.columns (record d { buffer = d.buffer ++ chunk })

abbrev pub finish_buffer : ChError → Text → Outcome (Unit {0})
finish_buffer e [] = Outcome.done tt
finish_buffer e (b ∷ bs) = Outcome.failed e

abbrev pub finish_columns : Option (List ColumnMeta) → Text → Outcome (Unit {0})
finish_columns none buffer = finish_buffer no_header buffer
finish_columns (some columns) buffer = finish_buffer incomplete_row buffer

unfoldable pub finish : StreamingDecoder → Outcome (Unit {0})
finish d = finish_columns d.columns d.buffer
