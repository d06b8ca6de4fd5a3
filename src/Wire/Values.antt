-- ===== src/Wire/Values.antt =====
-- `read_value` of crates/zedb-ch/src/rowbinary.rs.
pub mod Stable
pub mod Safe
use ze_db.Prelude.{
  ℕ, zero, suc, ◌+◌, ◌-◌, ◌*◌, ◌/◌, ◌%◌, ◌^◌, Bool, true, false, not, ◌&&◌, ◌||◌, List, [], ◌∷◌,
  ◌++◌, Option, none, some,
}
use mathlib.Core.List.{reverse}
use ze_db.Prelude.Tests.{ltb, leb, ◌==◌, if◌then◌else◌}
use ze_db.Prelude.Lists.{length, take, drop}
use ze_db.Prelude.Text.{Text}
use ze_db.Wire.Types.{ℤ, pos, negsuc, ChType, ChTypes, Value, Values, Pairs, end, pair, Outside}
use ze_db.Wire.Reader.{
  values_too_deep, enum_unknown, time_out_of_range, unsupported_decimal, Reader, ◌>>=◌, ◌>>◌,
  return, fail, crash, max_value_bytes, max_decoded_values, max_value_depth, consume, ensure,
  take_bytes, u8, bounded_len,
}
use ze_db.Prelude.Utf8.{is_utf8}

-- `from_le_bytes`
unfoldable pub le_value : Text → ℕ
le_value [] = 0
le_value (b ∷ bs) = b + 256 * le_value bs

-- The same at a signed type: two's complement.
abbrev pub signed : ℕ → ℕ → ℤ
signed bytes n = if ltb n (2 ^ (8 * bytes - 1)) then pos n else negsuc (2 ^ (8 * bytes) - n - 1)

-- `le!`
unfoldable pub le : ℕ → Reader ℕ
le n = do bytes ← take_bytes n; return (le_value bytes)

abbrev pub le_signed : ℕ → Reader ℤ
le_signed n = do raw ← le n; return (signed n raw)

abbrev bytes_to_value : Text → Value
bytes_to_value bytes = if is_utf8 bytes then Value.string bytes else Value.bytes bytes

-- `reader.take(len)` behind a length.
abbrev pub text_value : Reader Value
text_value = do
  len ← bounded_len max_value_bytes
  bytes ← take_bytes len
  return (bytes_to_value bytes)

-- Each half of the sixteen bytes, reversed.
abbrev uuid_order : Text → Text
uuid_order raw = reverse (take 8 raw) ++ reverse (drop 8 raw)

abbrev same_int : ℤ → ℤ → Bool
same_int (pos n) (pos m) = n == m
same_int (negsuc n) (negsuc m) = n == m
same_int _ _ = false

abbrev pub enum_name : List (Text × ℤ) → ℤ → Reader Value
enum_name [] v = fail enum_unknown
enum_name ((name, ev) ∷ entries) v =
    if same_int ev v then return (Value.enum name) else enum_name entries v

-- `div_euclid` and `rem_euclid` by a positive number.
abbrev pub div_euclid : ℤ → ℕ → ℤ
div_euclid (pos n) d = pos (n / d)
div_euclid (negsuc n) d = negsuc (n / d)

abbrev pub rem_euclid : ℤ → ℕ → ℕ
rem_euclid (pos n) d = n % d
rem_euclid (negsuc n) d = d - 1 - n % d

-- A decimal is four, eight or sixteen bytes by its precision.
abbrev pub decimal_width : ℕ → ℕ
decimal_width precision = if leb precision 9 then 4 else if leb precision 18 then 8 else 16

-- The loops `for _ in 0..len`.
unfoldable pub repeat_items : ℕ → Reader Value → Reader Values
repeat_items zero item = return Values.nil
repeat_items (suc n) item = item >>= λ v. repeat_items n item >>= λ vs. return (Values.cons v vs)

unfoldable pub repeat_pairs : ℕ → Reader Value → Reader Value → Reader Pairs
repeat_pairs zero key value = return end
repeat_pairs (suc n) key value =
    key >>= λ k. value >>= λ v. repeat_pairs n key value >>= λ ps. return (pair k v ps)

unfoldable pub length_types : ChTypes → ℕ
length_types ChTypes.nil = 0
length_types (ChTypes.cons t ts) = suc (length_types ts)

module _ (o : Outside) where
  -- `epoch_date() + Duration::days(n)` panics out of chrono's range.
  abbrev pub date_value : ℤ → Reader Value
  date_value days = if o.date_in_range days then return (Value.date days) else crash

  abbrev pub time_value : ℤ → ℕ → Reader Value
  time_value secs nanos =
      if o.time_in_range secs nanos
      then return (Value.date_time secs nanos)
      else fail time_out_of_range

  -- `9 - p` is a subtraction of `u32`.
  abbrev pub ticks_value : ℕ → ℤ → Reader Value
  ticks_value p ticks =
      if ltb 9 p
      then crash
      else time_value (div_euclid ticks (10 ^ p)) (rem_euclid ticks (10 ^ p) * 10 ^ (9 - p))

  -- The test at the head of `read_value`.
  abbrev pub enter : ℕ → Reader (Unit {0})
  enter depth = if leb max_value_depth depth then fail values_too_deep else consume 1

  -- `read_value`, and its loop over the types of a tuple.
  unfoldable mutual
    pub read_value : ChType → ℕ → Reader Value
    read_value ChType.uint8 depth = enter depth >> (u8 >>= λ n. return (Value.uint n))
    read_value ChType.uint16 depth = enter depth >> (le 2 >>= λ n. return (Value.uint n))
    read_value ChType.uint32 depth = enter depth >> (le 4 >>= λ n. return (Value.uint n))
    read_value ChType.uint64 depth = enter depth >> (le 8 >>= λ n. return (Value.uint n))
    read_value ChType.uint128 depth = enter depth >> (le 16 >>= λ n. return (Value.uint128 n))
    read_value ChType.int8 depth = enter depth >> (le_signed 1 >>= λ n. return (Value.int n))
    read_value ChType.int16 depth = enter depth >> (le_signed 2 >>= λ n. return (Value.int n))
    read_value ChType.int32 depth = enter depth >> (le_signed 4 >>= λ n. return (Value.int n))
    read_value ChType.int64 depth = enter depth >> (le_signed 8 >>= λ n. return (Value.int n))
    read_value ChType.int128 depth = enter depth >> (le_signed 16 >>= λ n. return (Value.int128 n))
    read_value ChType.float32 depth =
        enter depth >> (le 4 >>= λ n. return (Value.float (o.widen n)))
    read_value ChType.float64 depth = enter depth >> (le 8 >>= λ n. return (Value.float n))
    read_value ChType.bool depth = enter depth >> (u8 >>= λ n. return (Value.bool (not (n == 0))))
    read_value ChType.string depth = enter depth >> text_value
    read_value (ChType.fixed_string n) depth =
        enter depth >> (take_bytes n >>= λ bytes. return (bytes_to_value bytes))
    read_value ChType.uuid depth =
        enter depth >> (take_bytes 16 >>= λ raw. return (Value.uuid (uuid_order raw)))
    read_value ChType.date depth = enter depth >> (le 2 >>= λ days. date_value (pos days))
    read_value ChType.date32 depth = enter depth >> (le_signed 4 >>= λ days. date_value days)
    read_value (ChType.date_time tz) depth =
        enter depth >> (le 4 >>= λ secs. time_value (pos secs) 0)
    read_value (ChType.date_time64 p tz) depth =
        enter depth >> (le_signed 8 >>= λ ticks. ticks_value p ticks)
    read_value (ChType.decimal p scale) depth =
        enter depth
        >> (if leb p 38
            then (le_signed (decimal_width p) >>= λ n. return (Value.decimal n scale))
            else fail (unsupported_decimal p scale))
    read_value (ChType.enum8 entries) depth =
        enter depth >> (le_signed 1 >>= λ v. enum_name entries v)
    read_value (ChType.enum16 entries) depth =
        enter depth >> (le_signed 2 >>= λ v. enum_name entries v)
    read_value ChType.ipv4 depth = enter depth >> (le 4 >>= λ n. return (Value.ipv4 n))
    read_value ChType.ipv6 depth = enter depth >> (take_bytes 16 >>= λ b. return (Value.ipv6 b))
    read_value (ChType.nullable t) depth =
        let inner = read_value t (depth + 1) in
        enter depth >> (u8 >>= λ n. if n == 0 then inner else return Value.null)
    read_value (ChType.low_cardinality t) depth = enter depth >> read_value t (depth + 1)
    read_value (ChType.array t) depth =
        enter depth
        >> (bounded_len max_decoded_values >>= λ len.
            ensure len
            >> (repeat_items len (read_value t (depth + 1)) >>= λ vs. return (Value.array vs)))
    read_value (ChType.tuple ts) depth =
        enter depth
        >> (ensure (length_types ts)
            >> (read_types ts (depth + 1) >>= λ vs. return (Value.tuple vs)))
    read_value (ChType.map k t) depth =
        enter depth
        >> (bounded_len max_decoded_values >>= λ len.
            ensure (len * 2)
            >> (repeat_pairs len (read_value k (depth + 1)) (read_value t (depth + 1)) >>= λ ps.
                return (Value.map ps)))
    read_value ChType.json depth = enter depth >> text_value

    pub read_types : ChTypes → ℕ → Reader Values
    read_types ChTypes.nil depth = return Values.nil
    read_types (ChTypes.cons t ts) depth =
        read_value t depth >>= λ v. read_types ts depth >>= λ vs. return (Values.cons v vs)
