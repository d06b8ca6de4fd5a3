-- ===== src/Replay/Split/Script.antt =====
-- A script as the tokens that ClickHouse's lexer would see, and its statements. Nothing here
-- refers to the loop.
use ze_db.Prelude.{ℕ, ◌<◌, ◌≡◌, ◌≢◌, true, false, not, List, [], ◌∷◌, ◌++◌}
use ze_db.Prelude.Tests.{◌==◌, if◌then◌else◌}
use ze_db.Prelude.Lists.{all}
use ze_db.Prelude.Text.{Text, starts_with}
use ze_db.Prelude.Utf8.{trim, is_empty}
use ze_db.Replay.Split.{cut_block}

-- A byte of a string literal, alone or behind a backslash.
pub data StringUnit : Type 0 where
  raw : ℕ → StringUnit
  escaped : ℕ → StringUnit

pub data Token : Type 0 where
  plain : ℕ → Token
  quoted : List StringUnit → Token
  line_comment : Text → Token
  block_comment : Text → Token
  separator : Token

abbrev pub print_string : List StringUnit → Text
print_string [] = b'\'' ∷ []
print_string (raw c ∷ us) = c ∷ print_string us
print_string (escaped c ∷ us) = b'\\' ∷ c ∷ print_string us

abbrev pub print_token : Token → Text
print_token (plain c) = c ∷ []
print_token (quoted us) = b'\'' ∷ print_string us
print_token (line_comment t) = b'-' ∷ b'-' ∷ (t ++ b'\n' ∷ [])
print_token (block_comment t) = b'/' ∷ b'*' ∷ (t ++ b'*' ∷ b'/' ∷ [])
print_token separator = b';' ∷ []

abbrev pub print_script : List Token → Text
print_script [] = []
print_script (k ∷ ks) = print_token k ++ print_script ks

abbrev pub IsString : List StringUnit → Type 0
IsString [] = Unit
IsString (raw c ∷ us) = (c < 128) × (c ≢ b'\'') × (c ≢ b'\\') × IsString us
IsString (escaped c ∷ us) = (c < 128) × IsString us

-- The token is well formed in front of `rest`. The two kinds of comment hold any bytes.
abbrev pub IsToken : Token → Text → Type 0
IsToken (plain c) rest =
    (c < 128)
    × (c ≢ b'\'')
    × (c ≢ b';')
    × (starts_with (b'-' ∷ b'-' ∷ []) (c ∷ rest) ≡ false)
    × (starts_with (b'/' ∷ b'*' ∷ []) (c ∷ rest) ≡ false)
IsToken (quoted us) rest = IsString us
IsToken (line_comment t) rest = all (λ c. not (c == b'\n')) t ≡ true
IsToken (block_comment t) rest = cut_block (t ++ b'*' ∷ b'/' ∷ []) ≡ (t ++ b'*' ∷ b'/' ∷ [], [])
IsToken separator rest = Unit

-- Well formed in front of `rest`.
abbrev pub IsScript : List Token → Text → Type 0
IsScript [] rest = Unit
IsScript (k ∷ ks) rest = IsToken k (print_script ks ++ rest) × IsScript ks rest

-- The statements that the separators end, and what follows the last, behind those at hand.
abbrev pub parts : List Token → List Text → Text → List Text × Text
parts [] out current = (out, current)
parts (plain c ∷ ks) out current = parts ks out (current ++ c ∷ [])
parts (quoted us ∷ ks) out current = parts ks out (current ++ b'\'' ∷ print_string us)
parts (line_comment t ∷ ks) out current = parts ks out (current ++ b'-' ∷ b'-' ∷ (t ++ b'\n' ∷ []))
parts (block_comment t ∷ ks) out current =
    parts ks out (current ++ b'/' ∷ b'*' ∷ (t ++ b'*' ∷ b'/' ∷ []))
parts (separator ∷ ks) out current = parts ks (out ++ current ∷ []) []

abbrev pub statements_of : List Token → List Text
statements_of ks =
    let (out, current) = parts ks [] [] in
    if is_empty (trim current) then out else out ++ current ∷ []
