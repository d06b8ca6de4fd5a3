-- ===== src/Tests/Wire.antt =====
-- Runs of the decoders of crates/zedb-ch.
use ze_db.Prelude.{◌≤◌, ◌≡◌, refl, sym, ap, true, false, List, [], ◌∷◌, ◌++◌, none, arith}
use ze_db.Prelude.Lists.{length, take}
use mathlib.Core.Path.{subst}
use ze_db.Prelude.Text.{Text, text_eq, is_ascii_alphanumeric}
use ze_db.Prelude.Utf8.{trim_start}
use ze_db.Wire.Lexer.{ident, skip_ws, take_while, span, peek_char}
use ze_db.Wire.Parse.{plain_type, parse, parse_type}
use ze_db.Wire.Values.{read_value}
use ze_db.Wire.Types.{ChType, Value, QueryResult, Outside}
use ze_db.Wire.Reader.{Read, varuint, consume, u8, take_bytes}
use ze_db.Prelude.Utf8.{is_utf8, utf8_loop}
use ze_db.Wire.Reader.Varuint.{encode, varuint-encode}
use ze_db.Wire.Rows.{
  Rows, Outcome, at_row, read_header, decode, behind_header, read_row, rows_loop, read_rows,
}
use ze_db.Wire.Rows.RoundTrip.{Column, IsColumn, metas, kinds, encode_header, read_header-encode}
use ze_db.Wire.Stream.Loop.{settle}
use ze_db.Wire.Stream.Chunks.{
  concat, HeaderIsSoft, stream, rows_of, decode-stream, stream-eq-rows_of,
}
use ze_db.Client.{Arrival, Ending, query_stream}
use ze_db.Client.Delivered.{delivered}
use ze_db.Client.Limit.{delivered-decode}
use ze_db.Client.Order.{in_order, query_stream-in_order}
use ze_db.Client.Count.{Reports, query_stream-Reports}

-- No date is out of range, and a float has the same bits at both widths.
abbrev lenient : Outside
lenient = record { date_in_range = λ n. true; time_in_range = λ n m. true; widen = λ n. n }

-- Two rows of one column `a` of type `UInt8`, cut within the header.
abbrev two_rows : List Text
two_rows = (1 ∷ 1 ∷ []) ∷ (97 ∷ 5 ∷ 85 ∷ 73 ∷ 110 ∷ []) ∷ (116 ∷ 56 ∷ 7 ∷ []) ∷ (9 ∷ []) ∷ []

abbrev column_a : Column
column_a = (record { name = 97 ∷ []; type_name = 85 ∷ 73 ∷ 110 ∷ 116 ∷ 56 ∷ [] }, ChType.uint8)

abbrev both : Rows
both = (Value.uint 7 ∷ []) ∷ (Value.uint 9 ∷ []) ∷ []

abbrev two_results : QueryResult
two_results = record { columns = metas (column_a ∷ []); rows = both }

abbrev arrivals : List Arrival
arrivals =
    Arrival.chunk (1 ∷ 1 ∷ [])
    ∷ Arrival.chunk (97 ∷ 5 ∷ 85 ∷ 73 ∷ 110 ∷ [])
    ∷ Arrival.tick none
    ∷ Arrival.chunk (116 ∷ 56 ∷ 7 ∷ [])
    ∷ Arrival.chunk (9 ∷ [])
    ∷ []

column_a-IsColumn : IsColumn column_a
unfolding is_utf8 utf8_loop parse_type parse ident skip_ws take_while plain_type text_eq span
    trim_start is_ascii_alphanumeric peek_char
column_a-IsColumn =
    ((omega arith, refl), (omega arith, refl), (record { rest = []; budget = 0 }, refl))

header_a :
    (rest : Text)
    → read_header (at_row (encode_header (column_a ∷ []) ++ rest))
      ≡ Read.ok
          (record { columns = metas (column_a ∷ []); types = kinds (column_a ∷ []) })
          (at_row rest)
header_a rest = read_header-encode (column_a ∷ []) rest (omega arith) (column_a-IsColumn, tt)

two_rows-HeaderIsSoft : HeaderIsSoft lenient (read_header (at_row (concat two_rows)))
unfolding read_row read_value consume u8 take_bytes
two_rows-HeaderIsSoft = subst (HeaderIsSoft lenient) (sym (header_a (7 ∷ 9 ∷ []))) refl

decode-two_rows : decode lenient (concat two_rows) ≡ Outcome.done two_results
unfolding decode read_rows rows_loop read_row read_value consume u8 take_bytes
decode-two_rows = ap (behind_header lenient) (header_a (7 ∷ 9 ∷ []))

stream-two_rows : stream lenient two_rows ≡ Outcome.done both
stream-two_rows =
    decode-stream lenient two_rows two_results (omega arith) two_rows-HeaderIsSoft decode-two_rows

stream-eq-rows_of_example :
    settle (stream lenient two_rows) ≡ settle (rows_of lenient (concat two_rows))
stream-eq-rows_of_example = stream-eq-rows_of lenient two_rows (omega arith) two_rows-HeaderIsSoft

delivered-decode_example :
    let (events, ending) = query_stream lenient 1 arrivals in
    (delivered events ≡ take 1 both)
    × (ending ≡ Ending.summary (record { rows = 1; capped = true }))
delivered-decode_example =
    delivered-decode 1 lenient arrivals two_results tt (omega arith) two_rows-HeaderIsSoft
      decode-two_rows

query_stream-in_order_example : in_order false (query_stream lenient 1 arrivals).0 ≡ true
query_stream-in_order_example = query_stream-in_order lenient 1 arrivals

query_stream-Reports_example :
    let (events, ending) = query_stream lenient 1 arrivals in
    (length (delivered events) ≤ 1) × Reports (length (delivered events)) ending
query_stream-Reports_example = query_stream-Reports 1 lenient arrivals

varuint-encode_example :
    varuint (record { rest = encode 300 ++ 5 ∷ []; budget = 2 })
    ≡ Read.ok 300 (record { rest = 5 ∷ []; budget = 2 })
varuint-encode_example = varuint-encode 300 (5 ∷ []) 2 (omega arith)

read_header-encode_example :
    read_header (at_row (encode_header (column_a ∷ []) ++ 7 ∷ []))
    ≡ Read.ok
        (record { columns = metas (column_a ∷ []); types = kinds (column_a ∷ []) })
        (at_row (7 ∷ []))
read_header-encode_example =
    read_header-encode (column_a ∷ []) (7 ∷ []) (omega arith) (column_a-IsColumn, tt)
