-- ===== src/Wire/Lexer.antt =====
-- The scanning of crates/zedb-ch/src/types.rs. The marks of the grammar are ASCII, so the parser
-- goes over bytes.
use ze_db.Prelude.{
  ℕ, zero, suc, ◌+◌, ◌-◌, Bool, true, false, ◌||◌, List, [], ◌∷◌, Option, none, some,
}
use ze_db.Prelude.Tests.{ltb, leb, ◌==◌, if◌then◌else◌}
use ze_db.Prelude.Lists.{length}
use ze_db.Prelude.Text.{Text, is_ascii_digit, is_ascii_alphanumeric}
use ze_db.Prelude.Utf8.{trim_start}
use ze_db.Repo.Chain.Parse.{decimal}
use ze_db.Wire.Types.{ℤ, pos, negsuc}
use ze_db.Wire.Reader.{type_syntax, ok, err, Reader, ◌>>=◌, ◌>>◌, return, fail, crash}

abbrev pub max_type_string_bytes : ℕ
max_type_string_bytes = 65536

abbrev pub max_type_depth : ℕ
max_type_depth = 64

abbrev pub max_fixed_string_bytes : ℕ
max_fixed_string_bytes = 67108864

abbrev pub max_tuple_items : ℕ
max_tuple_items = 4096

-- `Parser::skip_ws`
unfoldable pub skip_ws : Reader (Unit {0})
skip_ws i = ok tt (record i { rest = trim_start i.rest })

abbrev pub first : Text → Option ℕ
first [] = none
first (c ∷ cs) = some c

abbrev pub behind : Text → Text
behind [] = []
behind (c ∷ cs) = cs

-- `chars.next()` where the character is known.
unfoldable pub skip_char : Reader (Unit {0})
skip_char i = ok tt (record i { rest = behind i.rest })

unfoldable pub peek_char : Reader (Option ℕ)
peek_char = skip_ws >> λ i. ok (first i.rest) i

abbrev pub is_char : ℕ → Option ℕ → Bool
is_char c none = false
is_char c (some d) = d == c

unfoldable pub eat : ℕ → Reader (Unit {0})
eat expected = do c ← peek_char; if is_char expected c then skip_char else fail type_syntax

abbrev pub is_word : ℕ → Bool
is_word c = is_ascii_alphanumeric c || c == b'_'

-- The bytes at the front that pass a test, and the rest.
unfoldable pub span : (ℕ → Bool) → Text → Text × Text
span p [] = ([], [])
span p (c ∷ cs) = let (run, rest) = span p cs in if p c then (c ∷ run, rest) else ([], c ∷ cs)

unfoldable pub take_while : (ℕ → Bool) → Reader Text
take_while p i = ok (span p i.rest).0 (record i { rest = (span p i.rest).1 })

unfoldable pub ident : Reader Text
ident = skip_ws >> take_while is_word

unfoldable pub unescape : ℕ → ℕ
unescape c =
    if c == b'n'
    then 10
    else if c == b't'
    then 9
    else if c == b'r'
    then 13
    else if c == b'0'
    then 0
    else c

abbrev push_char : ℕ → Option (Text × Text) → Option (Text × Text)
push_char c none = none
push_char c (some (out, rest)) = some (c ∷ out, rest)

-- The loop of `quoted_string`, behind the opening quote.
unfoldable pub quoted_loop : Text → Option (Text × Text)
quoted_loop [] = none
quoted_loop (c ∷ []) = if c == b'\'' then some ([], []) else none
quoted_loop (c ∷ d ∷ t) =
    let escaped = push_char (unescape d) (quoted_loop t) in
    let plain = push_char c (quoted_loop (d ∷ t)) in
    if c == b'\\' then escaped else if c == b'\'' then some ([], d ∷ t) else plain

abbrev or_syntax : {A : Type 0} → Option (A × Text) → Reader A
or_syntax none i = err type_syntax
or_syntax (some (a, rest)) i = ok a (record i { rest = rest })

unfoldable pub quoted_string : Reader Text
quoted_string = eat b'\'' >> λ i. or_syntax (quoted_loop i.rest) i

-- `number`, before `parse`: whether there is a minus, and the digits.
unfoldable pub digits : Reader (Bool × Text)
digits = do
  c ← peek_char
  let minus = is_char b'-' c
  if minus then skip_char else return tt
  run ← take_while is_ascii_digit
  return (minus, run)

-- `parse::<T>()` at an unsigned type, by its largest value.
abbrev pub unsigned_of : ℕ → Bool → Text → Reader ℕ
unsigned_of most true run = fail type_syntax
unsigned_of most false [] = fail type_syntax
unsigned_of most false (c ∷ cs) =
    if ltb most (decimal (c ∷ cs)) then fail type_syntax else return (decimal (c ∷ cs))

-- The same at `i16`.
abbrev pub minus_of : ℕ → ℤ
minus_of zero = pos 0
minus_of (suc n) = negsuc n

abbrev pub i16_of : Bool → Text → Reader ℤ
i16_of minus [] = fail type_syntax
i16_of false (c ∷ cs) =
    if ltb 32767 (decimal (c ∷ cs)) then fail type_syntax else return (pos (decimal (c ∷ cs)))
i16_of true (c ∷ cs) =
    if ltb 32768 (decimal (c ∷ cs)) then fail type_syntax else return (minus_of (decimal (c ∷ cs)))

unfoldable pub number : ℕ → Reader ℕ
number most = digits >>= λ (minus, run). unsigned_of most minus run

unfoldable pub number_i16 : Reader ℤ
number_i16 = digits >>= λ (minus, run). i16_of minus run

abbrev pub max_u8 : ℕ
max_u8 = 255

abbrev pub max_usize : ℕ
max_usize = 18446744073709551615

-- What stands behind an item: a comma, or the closing parenthesis.
abbrev pub closes : Option ℕ → Reader Bool
closes c =
    if is_char b',' c
    then (skip_char >> return false)
    else if is_char b')' c
    then (skip_char >> return true)
    else fail type_syntax

-- The loop of `enum_entries`. `crash` is for fuel that ran out.
unfoldable pub entries_loop : ℕ → Reader (List (Text × ℤ))
entries_loop zero = crash
entries_loop (suc fuel) = do
  name ← quoted_string
  eat b'='
  value ← number_i16
  c ← peek_char
  done ← closes c
  let more = entries_loop fuel >>= λ entries. return ((name, value) ∷ entries)
  if done then return ((name, value) ∷ []) else more

unfoldable pub enum_entries : Reader (List (Text × ℤ))
enum_entries = eat b'(' >> λ i. entries_loop (suc (length i.rest)) i

-- The loop of `skip_parens`, at a depth, inside a quoted string or not.
unfoldable pub skip_loop : ℕ → Bool → Text → Option Text
skip_loop depth in_string [] = none
skip_loop depth true (c ∷ []) = none
skip_loop depth true (c ∷ d ∷ t) =
    let escaped = skip_loop depth true t in
    let closed = skip_loop depth false (d ∷ t) in
    let inside = skip_loop depth true (d ∷ t) in
    if c == b'\\' then escaped else if c == b'\'' then closed else inside
skip_loop depth false (c ∷ t) =
    let opened = skip_loop (depth + 1) false t in
    let closed = skip_loop (depth - 1) false t in
    let quoted = skip_loop depth true t in
    let plain = skip_loop depth false t in
    if c == b'('
    then if leb max_type_depth depth then none else opened
    else if c == b')'
    then if depth == 1 then some t else closed
    else if c == b'\''
    then quoted
    else plain

abbrev with_unit : Option Text → Option (Unit {0} × Text)
with_unit none = none
with_unit (some rest) = some (tt, rest)

unfoldable pub skip_parens : Reader (Unit {0})
skip_parens = eat b'(' >> λ i. or_syntax (with_unit (skip_loop 1 false i.rest)) i
