-- ===== src/Wire/Parse.antt =====
-- `parse_type` of crates/zedb-ch/src/types.rs.
pub mod Yields
pub mod Sound
use ze_db.Prelude.{ℕ, zero, suc, Bool, true, false, ◌||◌, List, [], ◌∷◌, Option, none, some}
use ze_db.Prelude.Tests.{ltb, ◌==◌, if◌then◌else◌}
use ze_db.Prelude.Lists.{length}
use ze_db.Prelude.Text.{Text, codes, text_eq, is_ascii_alphabetic}
use ze_db.Wire.Types.{ℤ, ChType, ChTypes}
use ze_db.Wire.Reader.{
  unsupported_type, type_too_long, type_too_deep, type_syntax, Read, err, bind, Reader, ◌>>=◌, ◌>>◌,
  return, fail,
}
use ze_db.Wire.Lexer.{
  max_type_string_bytes, max_type_depth, max_fixed_string_bytes, max_tuple_items, skip_ws, first,
  skip_char, peek_char, is_char, eat, ident, quoted_string, number, max_u8, max_usize, closes,
  enum_entries, skip_parens,
}

-- The types that are a name only.
unfoldable pub plain_type : Text → Option ChType
plain_type name =
    let is = λ (s : Text). text_eq name s in
    if is (codes "UInt8")
    then some ChType.uint8
    else if is (codes "UInt16")
    then some ChType.uint16
    else if is (codes "UInt32")
    then some ChType.uint32
    else if is (codes "UInt64")
    then some ChType.uint64
    else if is (codes "UInt128")
    then some ChType.uint128
    else if is (codes "Int8")
    then some ChType.int8
    else if is (codes "Int16")
    then some ChType.int16
    else if is (codes "Int32")
    then some ChType.int32
    else if is (codes "Int64")
    then some ChType.int64
    else if is (codes "Int128")
    then some ChType.int128
    else if is (codes "Float32")
    then some ChType.float32
    else if is (codes "Float64")
    then some ChType.float64
    else if is (codes "Bool")
    then some ChType.bool
    else if is (codes "String")
    then some ChType.string
    else if is (codes "UUID")
    then some ChType.uuid
    else if is (codes "Date")
    then some ChType.date
    else if is (codes "Date32")
    then some ChType.date32
    else if is (codes "IPv4")
    then some ChType.ipv4
    else if is (codes "IPv6")
    then some ChType.ipv6
    else none

-- `('tz')`, if there is one.
unfoldable pub zone_in_parens : Reader (Option Text)
zone_in_parens = do
  c ← peek_char
  if is_char b'(' c
      then (skip_char >> (quoted_string >>= λ tz. eat b')' >> return (some tz)))
      else return none

unfoldable pub zone_behind_comma : Reader (Option Text)
zone_behind_comma = do
  c ← peek_char
  if is_char b',' c then (skip_char >> (quoted_string >>= λ tz. return (some tz))) else return none

unfoldable pub fixed_string_type : Reader ChType
fixed_string_type = do
  eat b'('
  n ← number max_usize
  eat b')'
  if ltb max_fixed_string_bytes n then fail type_syntax else return (ChType.fixed_string n)

unfoldable pub date_time64_type : Reader ChType
date_time64_type = do
  eat b'('
  precision ← number max_u8
  tz ← zone_behind_comma
  eat b')'
  if ltb 9 precision then fail type_syntax else return (ChType.date_time64 precision tz)

unfoldable pub decimal_type : Reader ChType
decimal_type = do
  eat b'('
  precision ← number max_u8
  eat b','
  scale ← number max_u8
  eat b')'
  if precision == 0 || (ltb 38 precision || ltb precision scale)
      then fail type_syntax
      else return (ChType.decimal precision scale)

-- `Decimal32`, `Decimal64` and `Decimal128`, by their precision.
unfoldable pub sized_decimal_type : ℕ → Reader ChType
sized_decimal_type precision = do
  eat b'('
  scale ← number max_u8
  eat b')'
  if ltb precision scale then fail type_syntax else return (ChType.decimal precision scale)

-- The branches that parse types within. `inner` is `parse` one level below.
module _ (inner : Reader ChType) where
  unfoldable pub wrapped : (ChType → ChType) → Reader ChType
  wrapped make = do eat b'('; t ← inner; eat b')'; return (make t)

  unfoldable pub map_type : Reader ChType
  map_type = do
    eat b'('
    key ← inner
    eat b','
    value ← inner
    eat b')'
    return (ChType.map key value)

  -- The text behind the next backquote, or behind everything.
  abbrev pub behind_quote : Text → Text
  behind_quote [] = []
  behind_quote (c ∷ t) = elim (c == b'`') [ true ↦ t | false ↦ behind_quote t ]

  abbrev pub starts_ident : Option ℕ → Bool
  starts_ident none = false
  starts_ident (some c) = is_ascii_alphabetic c

  -- A name in front is taken off if an identifier follows it.
  abbrev pub named_element : Reader ChType
  named_element i = bind (ident i) λ name after.
      bind (skip_ws after)
        λ _ behind. if starts_ident (first behind.rest) then inner behind else inner i

  unfoldable pub tuple_element : Reader ChType
  tuple_element = do
    c ← peek_char
    if is_char b'`' c
        then (skip_char >> λ i. inner (record i { rest = behind_quote i.rest }))
        else named_element

  -- The loop over the elements, for the ones that may still come.
  unfoldable pub tuple_loop : ℕ → Reader ChTypes
  tuple_loop zero = fail type_syntax
  tuple_loop (suc left) = do
    t ← tuple_element
    c ← peek_char
    done ← closes c
    let more = tuple_loop left >>= λ ts. return (ChTypes.cons t ts)
    if done then return (ChTypes.cons t ChTypes.nil) else more

  unfoldable pub tuple_type : Reader ChType
  tuple_type = eat b'(' >> (tuple_loop max_tuple_items >>= λ ts. return (ChType.tuple ts))

unfoldable pub date_time_type : Reader ChType
date_time_type = zone_in_parens >>= λ tz. return (ChType.date_time tz)

unfoldable pub enum_type : (List (Text × ℤ) → ChType) → Reader ChType
enum_type make = enum_entries >>= λ entries. return (make entries)

unfoldable pub json_type : Reader ChType
json_type = do
  c ← peek_char
  if is_char b'(' c then (skip_parens >> return ChType.json) else return ChType.json

unfoldable pub other_type : Text → Reader ChType
other_type name = fail (unsupported_type name)

-- The types with arguments.
unfoldable pub type_with : Reader ChType → Text → Reader ChType
type_with inner name =
    let is = λ (s : Text). text_eq name s in
    if is (codes "FixedString")
    then fixed_string_type
    else if is (codes "DateTime")
    then date_time_type
    else if is (codes "DateTime64")
    then date_time64_type
    else if is (codes "Decimal")
    then decimal_type
    else if is (codes "Decimal32")
    then sized_decimal_type 9
    else if is (codes "Decimal64")
    then sized_decimal_type 18
    else if is (codes "Decimal128")
    then sized_decimal_type 38
    else if is (codes "Enum8")
    then enum_type ChType.enum8
    else if is (codes "Enum16")
    then enum_type ChType.enum16
    else if is (codes "Nullable")
    then wrapped inner ChType.nullable
    else if is (codes "LowCardinality")
    then wrapped inner ChType.low_cardinality
    else if is (codes "Array")
    then wrapped inner ChType.array
    else if is (codes "Map")
    then map_type inner
    else if is (codes "Tuple")
    then tuple_type inner
    else if is (codes "JSON")
    then json_type
    else other_type name

abbrev pub type_named : Reader ChType → Text → Reader ChType
type_named inner name = elim (plain_type name) [ some t ↦ return t | none ↦ type_with inner name ]

-- `parse`, for the levels that are left.
unfoldable pub parse : ℕ → Reader ChType
parse zero = fail type_too_deep
parse (suc levels) = ident >>= type_named (parse levels)

abbrev pub ended : ChType → Reader ChType
ended t = peek_char >>= λ c. elim c [ none ↦ return t | some d ↦ fail type_syntax ]

unfoldable pub parse_type : Text → Read ChType
parse_type input =
    if ltb max_type_string_bytes (length input)
    then err type_too_long
    else (parse max_type_depth >>= ended) (record { rest = input; budget = 0 })
