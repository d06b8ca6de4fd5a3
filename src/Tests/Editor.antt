-- ===== src/Tests/Editor.antt =====
-- Runs of the editor's splitter and of its parameters.
use ze_db.Prelude.{◌≡◌, refl, true, false, none, some, List, [], ◌∷◌, ◌++◌}
use ze_db.Prelude.Text.{
  Text, codes, strip_prefix, text_eq, is_ascii_digit, is_ascii_alphabetic, is_ascii_alphanumeric,
}
use ze_db.Prelude.Utf8.{
  is_utf8, utf8_loop, trim, trim_start, trim_end, strip_white, white_width, white_width_back,
}
use ze_db.Intelligence.Tokens.{is_boundary, width, skip_line, skip_word, is_ascii_whitespace}
use ze_db.Editor.{
  split_statements, split_loop, round, is_directive, directive_line_end, skip_quoted, skip_comment,
}
use ze_db.Editor.Comments.{sql_is_blank, blank_loop, skip_blank, comment_spans, spans_loop}
use ze_db.Editor.Values.{
  strip_insert_values_comments, leading_loop, values_loop, copy_loop, seek, eq_ignore_ascii_case,
}
use ze_db.Editor.Pick.{statement_at_cursor, pick_before, pick_after, pick}
use ze_db.Editor.Declare.{
  collect_param_declarations, declarations_of, param_declaration, unquote_literal, unquote_loop,
  starts_white,
}
use ze_db.Editor.Variables.{Resolved, not_set, no_value, collect_variable_declarations}
use ze_db.Editor.Resolve.{resolve_query_variables}
use ze_db.Editor.Segments.{Tiles}
use ze_db.Editor.Tiles.{split_statements-Tiles}
use ze_db.Editor.Params.{Declaration, params_at, params_loop, add_param, in_effect, lookup}
use ze_db.Editor.Params.Scope.{value_in, params_at-lookup}

-- A directive, a statement with semicolons in a string and in comments, a directive behind a
-- statement that is not ended, and a string that is not closed.
abbrev buffer : Text
buffer =
    codes "@set a=1"
    ++ b'\n' ∷ codes "f(';', `\\`) -- ;"
    ++ b'\n' ∷ codes "/* ; */; x"
    ++ b'\n' ∷ codes " @set b"
    ++ b'\n' ∷ codes "y '"
    ++ 0xc3 ∷ 0xa9 ∷ codes ";"

split_statements-buffer :
    split_statements buffer ≡ (0, 8) ∷ (9, 33) ∷ (34, 37) ∷ (37, 44) ∷ (45, 51) ∷ []
unfolding split_statements split_loop round is_directive directive_line_end skip_line skip_quoted
    skip_comment strip_prefix is_ascii_whitespace
split_statements-buffer = refl

buffer-IsUtf8 : is_utf8 buffer ≡ true
unfolding is_utf8 utf8_loop
buffer-IsUtf8 = refl

split_statements-Tiles_example : Tiles 0 buffer (split_statements buffer)
split_statements-Tiles_example = split_statements-Tiles buffer buffer-IsUtf8

abbrev declarations : List Declaration
declarations =
    record { at = 0; name = codes "a"; value = codes "1" }
    ∷ record { at = 10; name = codes "a"; value = codes "2" }
    ∷ record { at = 20; name = codes "b"; value = codes "3" }
    ∷ []

-- The nearest declaration above, and for `b` the first below.
params_at-declarations :
    params_at declarations (some 12) ≡ (codes "a", codes "2") ∷ (codes "b", codes "3") ∷ []
unfolding params_at params_loop add_param in_effect text_eq
params_at-declarations = refl

params_at-lookup_example :
    value_in (codes "a") (params_at declarations (some 12))
    ≡ lookup declarations (some 12) (codes "a")
params_at-lookup_example = params_at-lookup (codes "a") declarations (some 12)

-- A comment marker in a string is not one; a block comment that is not closed ends with the text.
comment_spans-quoted :
    comment_spans (codes "'--' /* ' */ -- x" ++ b'\n' ∷ codes "y /*")
    ≡ (5, 12) ∷ (13, 17) ∷ (20, 22) ∷ []
unfolding comment_spans spans_loop skip_line skip_quoted skip_comment
comment_spans-quoted = refl

sql_is_blank-comments : sql_is_blank (codes " -- a" ++ b'\n' ∷ codes "/* ; */ ") ≡ true
unfolding sql_is_blank blank_loop skip_blank skip_line skip_comment is_ascii_whitespace
sql_is_blank-comments = refl

sql_is_blank-semicolon : sql_is_blank (codes " /* a */;") ≡ false
unfolding sql_is_blank blank_loop skip_blank skip_line skip_comment is_ascii_whitespace
sql_is_blank-semicolon = refl

-- The comments of the rows go, the string with a marker stays.
strip_insert_values_comments-rows :
    strip_insert_values_comments
      (codes "/* x */ insert INTO t (a, values) VALUES -- r" ++ b'\n' ∷ codes "('-- n', /* o */ 1)")
    ≡ codes "/* x */ insert INTO t (a, values) VALUES " ++ b'\n' ∷ codes "('-- n',   1)"
unfolding strip_insert_values_comments leading_loop values_loop copy_loop seek eq_ignore_ascii_case
    skip_blank skip_line skip_quoted skip_comment skip_word is_ascii_whitespace is_ascii_alphabetic
    is_ascii_alphanumeric text_eq
strip_insert_values_comments-rows = refl

strip_insert_values_comments-select :
    strip_insert_values_comments (codes "SELECT 1 -- VALUES") ≡ codes "SELECT 1 -- VALUES"
unfolding strip_insert_values_comments leading_loop eq_ignore_ascii_case skip_blank
    is_ascii_whitespace text_eq
strip_insert_values_comments-select = refl

-- Behind a semicolon and a comment the statement that ended is picked; in blank space the one before.
statement_at_cursor-behind :
    statement_at_cursor (codes "a 1; -- c" ++ b'\n' ∷ codes " b 2") 7 ≡ some (some (codes "a 1"))
unfolding statement_at_cursor pick_before pick_after pick is_boundary split_statements split_loop
    round is_directive directive_line_end skip_line skip_quoted skip_comment strip_prefix
    is_ascii_whitespace sql_is_blank blank_loop skip_blank trim trim_start trim_end strip_white
    white_width white_width_back
statement_at_cursor-behind = refl

statement_at_cursor-none : statement_at_cursor (codes " ; -- c") 2 ≡ some none
unfolding statement_at_cursor pick_before pick_after pick is_boundary split_statements split_loop
    round is_directive directive_line_end skip_line skip_quoted skip_comment strip_prefix
    is_ascii_whitespace sql_is_blank blank_loop skip_blank trim trim_start trim_end strip_white
    white_width white_width_back
statement_at_cursor-none = refl

-- A cursor within a character panics.
statement_at_cursor-panics : statement_at_cursor (codes "a;" ++ 0xc3 ∷ 0xa9 ∷ []) 3 ≡ none
unfolding statement_at_cursor is_boundary split_statements split_loop round is_directive
    directive_line_end skip_line skip_quoted skip_comment strip_prefix is_ascii_whitespace
statement_at_cursor-panics = refl

collect_param_declarations-two :
    collect_param_declarations (codes "x; SET param_a = 'it''s'; set param_b=1")
    ≡ record { at = 3; name = codes "a"; value = codes "it's" }
      ∷ record { at = 26; name = codes "b"; value = codes "1" }
      ∷ []
unfolding collect_param_declarations declarations_of param_declaration unquote_literal unquote_loop
    starts_white eq_ignore_ascii_case text_eq width split_statements split_loop round is_directive
    directive_line_end skip_line skip_quoted skip_comment skip_word strip_prefix is_ascii_whitespace
    is_ascii_alphabetic is_ascii_alphanumeric is_ascii_digit trim trim_start trim_end strip_white
    white_width white_width_back
collect_param_declarations-two = refl

-- Each use has the value of the nearest declaration above it, and a comment keeps its placeholder.
resolve_query_variables-buffer :
    resolve_query_variables
      (codes "@set db=x;" ++ b'\n' ∷ codes "a ${db} -- ${z}")
      (codes "@set db=x;" ++ b'\n' ∷ codes "a ${db} -- ${z}")
    ≡ Resolved.ok (b'\n' ∷ codes "a x -- ${z}")
unfolding resolve_query_variables is_ascii_alphanumeric ze_db.Editor.Params.lookup_loop
resolve_query_variables-buffer = refl

resolve_query_variables-not_set :
    resolve_query_variables (codes "a ${db}") (codes "a ${db}")
    ≡ Resolved.err (not_set (codes "db"))
unfolding resolve_query_variables ze_db.Editor.Params.lookup_loop
resolve_query_variables-not_set = refl

collect_variable_declarations-no_value :
    collect_variable_declarations (codes "x" ++ b'\n' ∷ codes "@set a = ;")
    ≡ Resolved.err (no_value (codes "a") 2)
unfolding collect_variable_declarations is_ascii_alphanumeric
collect_variable_declarations-no_value = refl
