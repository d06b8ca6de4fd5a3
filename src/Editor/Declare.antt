-- ===== src/Editor/Declare.antt =====
-- `collect_param_declarations` and `unquote_literal` of
-- crates/zedb-app/src/features/query/buffer.rs.
use mathlib.Core.List.{reverse}
use ze_db.Prelude.{
  ℕ, zero, suc, ◌+◌, ◌-◌, Bool, true, false, not, List, [], ◌∷◌, Option, none, some,
}
use ze_db.Prelude.Tests.{◌==◌, if◌then◌else◌}
use ze_db.Prelude.Lists.{length, take, drop}
use ze_db.Prelude.Text.{Text, codes, strip_prefix}
use ze_db.Prelude.Utf8.{trim, trim_start, white_width}
use ze_db.Intelligence.Tokens.{Cursor, skip_word, width}
use ze_db.Editor.{Ranges, split_statements}
use ze_db.Editor.Params.{Declaration, only}
use ze_db.Editor.Values.{slice, eq_ignore_ascii_case}

infixl 5 ◌>>=◌
abbrev pub ◌>>=◌ : {A B : Type 0} → Option A → (A → Option B) → Option B
none >>= next = none
some a >>= next = next a

-- The characters of the value, escapes undone; the first number counts the bytes of the character
-- behind a quote that are still to be dropped.
unfoldable pub unquote_loop : ℕ → Text → Text
unquote_loop skip [] = []
unquote_loop (suc skip) (c ∷ cs) = unquote_loop skip cs
unquote_loop zero (c ∷ []) = if c == b'\\' then [] else c ∷ []
unquote_loop zero (c ∷ d ∷ cs) = elim (c == b'\\') [
  | true ↦ d ∷ unquote_loop zero cs
  | false ↦ elim (c == b'\'') [
    | true ↦ c ∷ unquote_loop (width d) (d ∷ cs)
    | false ↦ c ∷ unquote_loop zero (d ∷ cs)
  ]
]

-- `strip_suffix`
abbrev pub unreverse : Option Text → Option Text
unreverse none = none
unreverse (some t) = some (reverse t)

abbrev pub strip_suffix : Text → Text → Option Text
strip_suffix s t = unreverse (strip_prefix (reverse s) (reverse t))

abbrev pub unquote_inner : Text → Option Text → Text
unquote_inner value none = value
unquote_inner value (some inner) = unquote_loop 0 inner

unfoldable pub unquote_literal : Text → Text
unfolding strip_prefix unquote_loop
unquote_literal value =
    unquote_inner value (strip_prefix (codes "'") value >>= λ rest. strip_suffix (codes "'") rest)

-- `text.starts_with(char::is_whitespace)`
unfoldable pub starts_white : Text → Bool
unfolding white_width
starts_white text = not (white_width text == 0)

abbrev pub behind_set : Text → Option Text
behind_set statement =
    only (eq_ignore_ascii_case (take 3 statement) (codes "set")) (drop 3 statement)

-- The length of the name, and the text behind it.
abbrev pub name_of : Text → Option Cursor
name_of rest = only (not ((skip_word 0 rest).0 == 0)) (skip_word 0 rest)

-- The declaration of a statement at this offset.
unfoldable pub param_declaration : ℕ → Text → Option Declaration
unfolding eq_ignore_ascii_case starts_white strip_prefix trim_start trim skip_word unquote_literal
param_declaration offset statement = do
  rest ← behind_set statement
  rest ← only (starts_white rest) rest
  rest ← strip_prefix (codes "param_") (trim_start rest)
  (name_len, behind) ← name_of rest
  value ← strip_prefix (codes "=") (trim_start behind)
  some (record { at = offset; name = take name_len rest; value = unquote_literal (trim value) })

-- Where the statement begins in `raw`, which begins at `start`.
abbrev pub statement_offset : ℕ → Text → ℕ
statement_offset start raw = start + (length raw - length (trim_start raw))

abbrev pub push_declaration : Option Declaration → List Declaration → List Declaration
push_declaration none ds = ds
push_declaration (some d) ds = d ∷ ds

abbrev pub declaration_in : ℕ → Text → Option Declaration
declaration_in start raw = param_declaration (statement_offset start raw) (trim raw)

unfoldable pub declarations_of : Text → Ranges → List Declaration
unfolding param_declaration
declarations_of text [] = []
declarations_of text ((start, end) ∷ rs) =
    push_declaration (declaration_in start (slice text start end)) (declarations_of text rs)

unfoldable pub collect_param_declarations : Text → List Declaration
unfolding split_statements declarations_of
collect_param_declarations text = declarations_of text (split_statements text)
