-- ===== src/Editor/Comments.antt =====
-- `sql_is_blank` and `comment_spans` of crates/zedb-app/src/features/query/buffer.rs.
use ze_db.Prelude.{ℕ, zero, suc, ◌+◌, Bool, true, false, ◌&&◌, [], ◌∷◌, Option, none, some}
use ze_db.Prelude.Tests.{◌==◌, if◌then◌else◌}
use ze_db.Prelude.Lists.{length, drop}
use ze_db.Prelude.Text.{Text}
use ze_db.Intelligence.Tokens.{Cursor, is_ascii_whitespace, skip_line}
use ze_db.Editor.{Ranges, is_any_quote, head_is, skip_quoted, skip_comment}

-- The cursor behind the comment or the blank that the text begins with; none if it begins with
-- neither.
unfoldable pub skip_blank : ℕ → ℕ → Text → Option Cursor
unfolding skip_line skip_comment is_ascii_whitespace
skip_blank i c cs = elim (c == b'-' && head_is b'-' cs) [
  | true ↦ some (skip_line i (c ∷ cs))
  | false ↦ elim (c == b'/' && head_is b'*' cs) [
    | true ↦ some (skip_comment (i + 2) (drop 1 cs))
    | false ↦ if is_ascii_whitespace c then some (i + 1, cs) else none
  ]
]

abbrev pub behind_blank : (ℕ → Text → Bool) → Option Cursor → Bool
behind_blank next none = false
behind_blank next (some (i, more)) = next i more

-- A round takes at least a byte.
unfoldable pub blank_loop : ℕ → ℕ → Text → Bool
unfolding skip_blank
blank_loop zero i t = false
blank_loop (suc f) i [] = true
blank_loop (suc f) i (c ∷ cs) = behind_blank (blank_loop f) (skip_blank i c cs)

unfoldable pub sql_is_blank : Text → Bool
unfolding blank_loop
sql_is_blank sql = blank_loop (suc (length sql)) 0 sql

abbrev pub behind_span : (ℕ → Text → Ranges) → ℕ → Cursor → Ranges
behind_span next start (i, more) = (start, i) ∷ next i more

abbrev pub behind_string : (ℕ → Text → Ranges) → Cursor → Ranges
behind_string next (i, more) = next i more

unfoldable pub spans_loop : ℕ → ℕ → Text → Ranges
unfolding skip_line skip_comment skip_quoted
spans_loop zero i t = []
spans_loop (suc f) i [] = []
spans_loop (suc f) i (c ∷ cs) = elim (is_any_quote c) [
  | true ↦ behind_string (spans_loop f) (skip_quoted c (i + 1) cs)
  | false ↦ elim (c == b'-' && head_is b'-' cs) [
    | true ↦ behind_span (spans_loop f) i (skip_line i (c ∷ cs))
    | false ↦ elim (c == b'/' && head_is b'*' cs) [
      | true ↦ behind_span (spans_loop f) i (skip_comment (i + 2) (drop 1 cs))
      | false ↦ spans_loop f (i + 1) cs
    ]
  ]
]

unfoldable pub comment_spans : Text → Ranges
unfolding spans_loop
comment_spans text = spans_loop (suc (length text)) 0 text
