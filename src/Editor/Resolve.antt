-- ===== src/Editor/Resolve.antt =====
-- `resolve_query_variables` of crates/zedb-app/src/features/query/buffer.rs.
use ze_db.Prelude.{
  ℕ, zero, suc, ◌+◌, Bool, true, false, ◌&&◌, List, [], ◌∷◌, ◌++◌, Option, none, some,
}
use ze_db.Prelude.Tests.{leb, ltb, if◌then◌else◌}
use ze_db.Prelude.Lists.{length, any, take, drop}
use ze_db.Prelude.Text.{Text, codes, text_eq}
use ze_db.Prelude.Utf8.{trim}
use ze_db.Editor.{Ranges}
use ze_db.Editor.Comments.{comment_spans}
use ze_db.Editor.Params.{lookup}
use ze_db.Editor.Declare.{strip_suffix}
use ze_db.Editor.Variables.{
  unclosed_placeholder, not_set, Resolved, ok, err, ◌>>=◌, split_inclusive, find_part, directive_of,
  collect_variable_declarations,
}

abbrev pub in_span : ℕ → ℕ × ℕ → Bool
in_span global (from, to) = leb from global && ltb global to

-- The offset in the buffer of a use, if it is known where the text stands there.
abbrev pub use_at : Option ℕ → ℕ → Option ℕ
use_at none global = none
use_at (some start) global = some (start + global)

-- What is the same in all rounds: the comments, and the value of a name at an offset of the text.
pub record Uses : Type 0 where
  pub comments : Ranges
  pub value : Text → ℕ → Option Text

-- What a placeholder is replaced by, and what is behind it; the offsets are those of `placeholder`.
pub data Use : Type 0 where
  prose : Use
  value : ℕ → Text → Use
  unclosed : Use
  missing : Text → Use

abbrev pub use_value : ℕ → Text → Option Text → Use
use_value end name none = missing name
use_value end name (some v) = Use.value end v

abbrev pub use_named : Uses → ℕ → Text → Option ℕ → Use
use_named u global placeholder none = unclosed
use_named u global placeholder (some end) =
    use_value end (take end placeholder) (u.value (take end placeholder) global)

unfoldable pub use_of : Uses → ℕ → Text → Use
unfolding find_part
use_of u global placeholder = elim (any (in_span global) u.comments) [
  | true ↦ prose
  | false ↦ use_named u global placeholder (find_part (codes "}") 0 placeholder)
]

-- `next` takes where `remaining` begins in the text, `remaining`, and `sql`.
abbrev pub Next : Type 0
Next = ℕ → Text → Text → Resolved Text

abbrev pub behind_use : Next → ℕ → ℕ → Text → Text → Use → Resolved Text
behind_use next global start remaining sql prose =
    next (global + 2) (drop (start + 2) remaining) (sql ++ take (start + 2) remaining)
behind_use next global start remaining sql (Use.value end v) =
    next (global + 2 + (end + 1)) (drop (end + 1) (drop (start + 2) remaining))
      (sql ++ take start remaining ++ v)
behind_use next global start remaining sql unclosed = err unclosed_placeholder
behind_use next global start remaining sql (missing name) = err (not_set name)

abbrev pub behind_find : Next → Uses → ℕ → Text → Text → Option ℕ → Resolved Text
behind_find next u at remaining sql none = ok (sql ++ remaining)
behind_find next u at remaining sql (some start) =
    behind_use next (at + start) start remaining sql
      (use_of u (at + start) (drop (start + 2) remaining))

-- The loop over a line. A round takes at least two bytes.
unfoldable pub uses_loop : ℕ → Uses → Next
unfolding find_part use_of
uses_loop zero u at remaining sql = ok (sql ++ remaining)
uses_loop (suc f) u at remaining sql =
    behind_find (uses_loop f u) u at remaining sql (find_part (codes "${") 0 remaining)

-- `strip_suffix('\n')` of a line, and whether it ends with one.
abbrev pub content_of : Text → Option Text → Text
content_of line none = line
content_of line (some content) = content

abbrev pub newline_of : Option Text → Text
newline_of none = []
newline_of (some content) = b'\n' ∷ []

-- A directive leaves its newline only.
abbrev pub resolve_line : Uses → ℕ → Text → Option Text → Option Text → Text → Resolved Text
resolve_line u line_start line content none sql =
    uses_loop (suc (length line)) u line_start line sql
resolve_line u line_start line content (some rest) sql = ok (sql ++ newline_of content)

unfoldable pub resolve_lines : Uses → ℕ → List Text → Text → Resolved Text
unfolding uses_loop directive_of trim
resolve_lines u line_start [] sql = ok sql
resolve_lines u line_start (l ∷ ls) sql = do
  more ←
      resolve_line u line_start l (strip_suffix (b'\n' ∷ []) l)
        (directive_of (trim (content_of l (strip_suffix (b'\n' ∷ []) l)))) sql
  resolve_lines u (line_start + length l) ls more

abbrev pub start_of : Text → Text → Option ℕ
start_of text editor_text =
    if text_eq text editor_text then some 0 else find_part text 0 editor_text

unfoldable pub resolve_query_variables : Text → Text → Resolved Text
unfolding collect_variable_declarations comment_spans lookup resolve_lines split_inclusive find_part
    text_eq
resolve_query_variables text editor_text = do
  declarations ← collect_variable_declarations editor_text
  resolve_lines
      (record {
        comments = comment_spans text;
        value = λ name at. lookup declarations (use_at (start_of text editor_text) at) name;
      })
      0 (split_inclusive text) []
