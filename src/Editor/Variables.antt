-- ===== src/Editor/Variables.antt =====
-- `collect_variable_declarations` of
-- crates/zedb-app/src/features/query/buffer.rs.
use ze_db.Prelude.{ℕ, ◌+◌, Bool, true, false, not, ◌&&◌, ◌||◌, List, [], ◌∷◌, Option, none, some}
use ze_db.Prelude.Tests.{◌==◌, if◌then◌else◌}
use ze_db.Prelude.Lists.{length, all, take, drop}
use ze_db.Prelude.Text.{Text, codes, text_eq, strip_prefix, starts_with, is_ascii_alphabetic}
use ze_db.Prelude.Utf8.{trim, trim_end, is_empty}
use ze_db.Intelligence.Tokens.{is_word_byte}
use ze_db.Editor.Params.{Declaration}
use ze_db.Editor.Declare.{starts_white, strip_suffix}

-- The texts of the errors, with the numbers of the lines.
pub data VariableError : Type 0 where
  invalid_variable : ℕ → VariableError
  invalid_name : Text → ℕ → VariableError
  no_value : Text → ℕ → VariableError
  unclosed_placeholder : VariableError
  not_set : Text → VariableError

pub data Resolved (A : Type 0) : Type 0 where
  ok : A → Resolved A
  err : VariableError → Resolved A

infixl 5 ◌>>=◌
abbrev pub ◌>>=◌ : {A B : Type 0} → Resolved A → (A → Resolved B) → Resolved B
ok x >>= next = next x
err problem >>= next = err problem

-- `split_inclusive('\n')`
abbrev push_front : ℕ → List Text → List Text
push_front c [] = (c ∷ []) ∷ []
push_front c (l ∷ ls) = (c ∷ l) ∷ ls

unfoldable pub split_inclusive : Text → List Text
split_inclusive [] = []
split_inclusive (c ∷ cs) = elim (c == b'\n') [
  | true ↦ (c ∷ []) ∷ split_inclusive cs
  | false ↦ push_front c (split_inclusive cs)
]

-- `find`: where the first occurrence begins, the text beginning at this offset.
unfoldable pub find_part : Text → ℕ → Text → Option ℕ
unfolding starts_with
find_part needle i [] = if is_empty needle then some i else none
find_part needle i (c ∷ cs) =
    if starts_with needle (c ∷ cs) then some i else find_part needle (i + 1) cs

-- What follows `@set` on a line that is a directive.
abbrev pub white_rest : Option Text → Option Text
white_rest none = none
white_rest (some rest) = if starts_white rest then some rest else none

unfoldable pub directive_of : Text → Option Text
unfolding text_eq strip_prefix starts_white
directive_of trimmed =
    if text_eq trimmed (codes "@set")
    then some []
    else white_rest (strip_prefix (codes "@set") trimmed)

-- `split_once('=')`
abbrev pub cut_at : Text → Option ℕ → Option (Text × Text)
cut_at text none = none
cut_at text (some i) = some (take i text, drop (i + 1) text)

abbrev pub split_once : Text → Option (Text × Text)
split_once text = cut_at text (find_part (codes "=") 0 text)

abbrev pub or_trimmed : Text → Option Text → Text
or_trimmed value none = value
or_trimmed value (some rest) = trim_end rest

abbrev pub without_semicolon : Text → Text
without_semicolon value = or_trimmed value (strip_suffix (codes ";") value)

abbrev pub begins_name : Text → Bool
begins_name [] = false
begins_name (c ∷ cs) = is_ascii_alphabetic c || c == b'_'

abbrev pub is_valid_name : Text → Bool
is_valid_name name = begins_name name && all is_word_byte name

abbrev pub check_declaration : ℕ → ℕ → Text → Text → Resolved Declaration
check_declaration line offset name value =
    if not (is_valid_name name)
    then err (invalid_name name line)
    else if is_empty value
    then err (no_value name line)
    else ok (record { at = offset; name = name; value = value })

abbrev pub declared_by : ℕ → ℕ → Option (Text × Text) → Resolved Declaration
declared_by line offset none = err (invalid_variable line)
declared_by line offset (some (name, value)) =
    check_declaration line offset (trim name) (without_semicolon (trim value))

unfoldable pub declaration_of_line : ℕ → ℕ → Text → Resolved Declaration
unfolding find_part trim trim_end strip_prefix is_ascii_alphabetic
declaration_of_line line offset directive = declared_by line offset (split_once (trim directive))

abbrev pub add_line :
    (Text → Resolved Declaration)
    → Resolved (List Declaration)
    → Option Text
    → Resolved (List Declaration)
add_line declare rest none = rest
add_line declare rest (some directive) = do d ← declare directive; ds ← rest; ok (d ∷ ds)

-- The lines from this one on, which begins at `offset`. The first error is the one returned.
unfoldable pub variables_loop : ℕ → ℕ → List Text → Resolved (List Declaration)
unfolding directive_of declaration_of_line trim
variables_loop line offset [] = ok []
variables_loop line offset (l ∷ ls) =
    add_line (declaration_of_line line offset) (variables_loop (line + 1) (offset + length l) ls)
      (directive_of (trim l))

unfoldable pub collect_variable_declarations : Text → Resolved (List Declaration)
unfolding variables_loop split_inclusive
collect_variable_declarations editor_text = variables_loop 1 0 (split_inclusive editor_text)
