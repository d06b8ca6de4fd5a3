-- ===== src/Wire/Reader.antt =====
-- `Reader`, `DecodeBudget` and the errors of crates/zedb-ch/src/rowbinary.rs.
pub mod Stable
pub mod Bits
pub mod Varuint
pub mod Safe
use Prim.Native.Nat.{bit_or}
use ze_db.Prelude.{
  ℕ, zero, suc, ◌+◌, ◌-◌, ◌*◌, ◌/◌, ◌%◌, ◌^◌, Bool, true, false, not, ◌&&◌, ◌||◌, List, [], ◌∷◌,
  Option, none, some,
}
use ze_db.Prelude.Tests.{ltb, leb, ◌==◌, if◌then◌else◌}
use ze_db.Prelude.Lists.{length, take, drop}
use ze_db.Prelude.Text.{Text}
use ze_db.Prelude.Utf8.{is_utf8}

-- `ChError`, with a constructor for each message; the numbers in a message are left out.
-- `unexpected_end` is the message that `is_incomplete` looks for. `unsupported_type` holds the
-- type's name; where there is none the source puts the whole text.
pub data ChError : Type 0 where
  unexpected_end varuint_overflow varuint_too_long : ChError
  over_limit header_not_utf8 : ChError
  values_too_deep too_many_values enum_unknown time_out_of_range : ChError
  rows_after_no_columns response_too_large : ChError
  buffer_too_large no_header incomplete_row : ChError
  unsupported_type : Text → ChError
  unsupported_decimal : ℕ → ℕ → ChError
  type_too_long type_too_deep type_syntax : ChError

-- What is left of the bytes, and of the values that a row may hold.
pub record Input : Type 0 where
  pub rest : Text
  pub budget : ℕ

pub data Read {ℓ} (A : Type ℓ) : Type ℓ where
  ok : A → Input → Read A
  err : ChError → Read A
  panicked : Read A

abbrev pub bind {ℓ κ} : {A : Type ℓ} {B : Type κ} → Read A → (A → Input → Read B) → Read B
bind (ok a i) f = f a i
bind (err e) f = err e
bind panicked f = panicked

abbrev pub Reader : Type 0 → Type 0
Reader A = Input → Read A

infixl 5 ◌>>=◌ ◌>>◌
abbrev pub ◌>>=◌ : {A B : Type 0} → Reader A → (A → Reader B) → Reader B
◌>>=◌ p f i = bind (p i) f

abbrev pub ◌>>◌ : {B : Type 0} → Reader (Unit {0}) → Reader B → Reader B
p >> q = p >>= λ _. q

abbrev pub return : {A : Type 0} → A → Reader A
return a i = ok a i

abbrev pub fail : {A : Type 0} → ChError → Reader A
fail e i = err e

abbrev pub crash : {A : Type 0} → Reader A
crash i = panicked

-- The limits.
abbrev pub max_materialized_response_bytes : ℕ
max_materialized_response_bytes = 1073741824

abbrev pub max_stream_buffer_bytes : ℕ
max_stream_buffer_bytes = 67108864

abbrev pub max_columns : ℕ
max_columns = 16384

abbrev pub max_header_string_bytes : ℕ
max_header_string_bytes = 65536

abbrev pub max_value_bytes : ℕ
max_value_bytes = 67108864

abbrev pub max_decoded_values : ℕ
max_decoded_values = 2000000

abbrev pub max_value_depth : ℕ
max_value_depth = 64

-- `DecodeBudget`
unfoldable pub consume : ℕ → Reader (Unit {0})
consume count i =
    if ltb i.budget count
    then err too_many_values
    else ok tt (record i { budget = i.budget - count })

unfoldable pub ensure : ℕ → Reader (Unit {0})
ensure count i = if ltb i.budget count then err too_many_values else ok tt i

-- `Reader::take`. An offset is at most a response's length, and `n` a limit, so that their sum
-- does not overflow.
unfoldable pub take_bytes : ℕ → Reader Text
take_bytes n i =
    if ltb (length i.rest) n
    then err unexpected_end
    else ok (take n i.rest) (record i { rest = drop n i.rest })

abbrev first_byte : Text → ℕ
first_byte [] = 0
first_byte (b ∷ bs) = b

-- `Reader::u8`
unfoldable pub u8 : Reader ℕ
u8 = do bytes ← take_bytes 1; return (first_byte bytes)

-- The loop of `Reader::varuint`, for the rounds that are left: the tenth is at shift 63.
unfoldable pub varuint_loop : ℕ → ℕ → ℕ → Reader ℕ
varuint_loop zero shift out = fail varuint_too_long
varuint_loop (suc rounds) shift out = do
  b ← u8
  let out' = bit_or out ((b % 128 * 2 ^ shift) % 2 ^ 64)
  let more = varuint_loop rounds (shift + 7) out'
  if shift == 63 && ltb 1 b then fail varuint_overflow else if ltb b 128 then return out' else more

unfoldable pub varuint : Reader ℕ
varuint = varuint_loop 10 0 0

-- `Reader::bounded_len`, on a machine whose `usize` has 64 bits.
unfoldable pub bounded_len : ℕ → Reader ℕ
bounded_len most = do len ← varuint; if ltb most len then fail over_limit else return len

-- `Reader::string`
unfoldable pub header_string : ℕ → Reader Text
header_string most = do
  len ← bounded_len most
  bytes ← take_bytes len
  if is_utf8 bytes then return bytes else fail header_not_utf8
