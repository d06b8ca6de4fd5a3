-- ===== src/Tests/Intelligence.antt =====
-- Runs of the editor's tokenizer.
use Prim.Native.Nat.{min}
use ze_db.Prelude.{
  ℕ, zero, suc, ◌+◌, ◌≡◌, refl, Bool, true, false, List, [], ◌∷◌, ◌++◌, Option, none, some, arith,
}
use ze_db.Prelude.Lists.{length, All}
use ze_db.Prelude.Text.{Text, codes}
use ze_db.Prelude.Utf8.{is_utf8, utf8_loop}
use ze_db.Intelligence.Tokens.{Token, tokenize}
use ze_db.Intelligence.Tokens.Spans.{Spans, tokenize-Spans}
use ze_db.Intelligence.Statement.{semicolons, statement_bounds}
use ze_db.Intelligence.Statement.Marks.{Mark}
use ze_db.Intelligence.Statement.Cut.{IsStatement, statement_bounds-IsStatement}

-- `a';';é -- ;`, with a string, a comment and a character of two bytes.
abbrev script : Text
script = codes "a';';" ++ 0xc3 ∷ 0xa9 ∷ codes " -- ;"

script-IsUtf8 : is_utf8 script ≡ true
unfolding is_utf8 utf8_loop
script-IsUtf8 = refl

-- Only the second semicolon is a token.
statement_bounds-script : statement_bounds script 6 ≡ some (5, 12)
unfolding statement_bounds tokenize ze_db.Intelligence.Tokens.tokenize_loop
    ze_db.Intelligence.Tokens.round ze_db.Intelligence.Tokens.is_ascii_whitespace
    ze_db.Prelude.Text.is_ascii_alphabetic ze_db.Intelligence.Tokens.is_boundary
    ze_db.Intelligence.Tokens.skip_word ze_db.Prelude.Text.is_ascii_alphanumeric
    ze_db.Intelligence.Tokens.skip_string ze_db.Intelligence.Tokens.char_len
    ze_db.Intelligence.Tokens.width ze_db.Intelligence.Statement.latest ze_db.Prelude.Text.text_eq
    ze_db.Intelligence.Tokens.skip_line
statement_bounds-script = refl

-- A name `;` in backticks is taken for the end of a statement.
statement_bounds-quoted_name : statement_bounds (codes "a `;` b") 7 ≡ some (3, 7)
unfolding statement_bounds tokenize ze_db.Intelligence.Tokens.tokenize_loop
    ze_db.Intelligence.Tokens.round ze_db.Intelligence.Tokens.is_ascii_whitespace
    ze_db.Prelude.Text.is_ascii_alphabetic ze_db.Intelligence.Tokens.is_boundary
    ze_db.Intelligence.Tokens.skip_word ze_db.Prelude.Text.is_ascii_alphanumeric
    ze_db.Intelligence.Tokens.skip_string ze_db.Intelligence.Tokens.char_len
    ze_db.Intelligence.Tokens.width ze_db.Intelligence.Statement.latest ze_db.Prelude.Text.text_eq
    ze_db.Intelligence.Tokens.skip_line ze_db.Intelligence.Tokens.name_loop
statement_bounds-quoted_name = refl

tokenize-Spans_example :
    (tokens : List Token) × (tokenize script ≡ some tokens) × Spans 0 (length script) tokens
tokenize-Spans_example = tokenize-Spans script script-IsUtf8

statement_bounds-IsStatement_example :
    (tokens : List Token) × (range : ℕ × ℕ) × (tokenize script ≡ some tokens)
    × (statement_bounds script 6 ≡ some range)
    × IsStatement (length script) (min 6 (length script)) (semicolons tokens) range
    × All (Mark script) (semicolons tokens)
statement_bounds-IsStatement_example = statement_bounds-IsStatement script 6 script-IsUtf8
