-- ===== src/Editor.antt =====
-- crates/zedb-app/src/features/query/buffer.rs: the statements of the editor's buffer, on bytes.
pub mod Modes
pub mod Skips
pub mod Rounds
pub mod Segments
pub mod Tiles
pub mod Params
pub mod Comments
pub mod Values
pub mod Pick
pub mod Declare
pub mod Variables
pub mod Resolve
use Prim.Native.Nat.{min}
use ze_db.Prelude.{
  ℕ, zero, suc, ◌+◌, ◌-◌, Bool, true, false, not, ◌&&◌, ◌||◌, List, [], ◌∷◌, ◌++◌, Option, none,
  some,
}
use ze_db.Prelude.Tests.{ltb, leb, ◌==◌, if◌then◌else◌}
use ze_db.Prelude.Lists.{length, any, drop, find}
use ze_db.Prelude.Text.{Text, codes, text_eq, strip_prefix}
use ze_db.Intelligence.Tokens.{Cursor, is_ascii_whitespace, skip_line}

-- The byte ranges of segments.
abbrev pub Ranges : Type 0
Ranges = List (ℕ × ℕ)

abbrev pub is_blank_byte : ℕ → Bool
is_blank_byte c = c == b' ' || c == b'\t'

abbrev pub skip_blanks : Text → Text
skip_blanks [] = []
skip_blanks (c ∷ cs) = if is_blank_byte c then skip_blanks cs else c ∷ cs

-- `after < bytes.len() && !bytes[after].is_ascii_whitespace()` fails.
abbrev pub ends_word : Option Text → Bool
ends_word none = false
ends_word (some []) = true
ends_word (some (c ∷ cs)) = is_ascii_whitespace c

-- The line behind the cursor is an `@set` directive.
unfoldable pub is_directive : Text → Bool
unfolding strip_prefix is_ascii_whitespace
is_directive line = ends_word (strip_prefix (codes "@set") (skip_blanks line))

-- `directive_line_end`: the end of the line, if it is a directive.
unfoldable pub directive_line_end : ℕ → Text → Option Cursor
unfolding is_directive skip_line
directive_line_end i rest = if is_directive rest then some (skip_line i rest) else none

abbrev pub is_any_quote : ℕ → Bool
is_any_quote c = c == b'\'' || c == b'"' || c == b'`'

-- The loop behind a quote. A backslash escapes a byte, but not between backticks.
unfoldable pub skip_quoted : ℕ → ℕ → Text → Cursor
skip_quoted q i [] = (i, [])
skip_quoted q i (c ∷ []) = (if c == b'\\' && not (q == b'`') then i + 2 else i + 1, [])
skip_quoted q i (c ∷ d ∷ cs) = elim (c == b'\\' && not (q == b'`')) [
  | true ↦ skip_quoted q (i + 2) cs
  | false ↦ elim (c == q) [ true ↦ (i + 1, d ∷ cs) | false ↦ skip_quoted q (i + 1) (d ∷ cs) ]
]

-- The loop behind `/*`, and its end.
unfoldable pub skip_comment : ℕ → Text → Cursor
skip_comment i [] = (i, [])
skip_comment i (c ∷ []) = (i + 1, [])
skip_comment i (c ∷ d ∷ cs) = elim (c == b'*' && d == b'/') [
  | true ↦ (i + 2, cs)
  | false ↦ skip_comment (i + 1) (d ∷ cs)
]

abbrev pub head_is : ℕ → Text → Bool
head_is b [] = false
head_is b (c ∷ cs) = c == b

-- A round of the loop at a byte that begins no directive: it cuts at a semicolon, or goes on.
pub data Round : Type 0 where
  cut : Round
  newline : Round
  go : Cursor → Round

unfoldable pub round : ℕ → ℕ → Text → Round
unfolding skip_line skip_quoted skip_comment
round i c cs = elim (c == b'\n') [
  | true ↦ Round.newline
  | false ↦ elim (is_any_quote c) [
    | true ↦ go (skip_quoted c (i + 1) cs)
    | false ↦ elim (c == b'-' && head_is b'-' cs) [
      | true ↦ go (skip_line i (c ∷ cs))
      | false ↦ elim (c == b'/' && head_is b'*' cs) [
        | true ↦ go (skip_comment (i + 2) (drop 1 cs))
        | false ↦ elim (c == b';') [ true ↦ cut | false ↦ go (i + 1, cs) ]
      ]
    ]
  ]
]

abbrev pub push_if : Bool → ℕ × ℕ → Ranges → Ranges
push_if true r rs = r ∷ rs
push_if false r rs = rs

-- What a round adds to the ranges; `next` takes the new start, `line_begin` and the cursor.
abbrev pub behind_round : (ℕ → Bool → ℕ → Text → Ranges) → ℕ → ℕ → Text → Round → Ranges
behind_round next start i cs cut = (start, i) ∷ next (i + 1) false (i + 1) cs
behind_round next start i cs newline = next start true (i + 1) cs
behind_round next start i cs (go (j, more)) = next start false j more

abbrev pub behind_line :
    (ℕ → Bool → ℕ → Text → Ranges) → ℕ → ℕ → ℕ → ℕ → Text → Option Cursor → Ranges
behind_line next len start i c cs none = behind_round next start i cs (round i c cs)
behind_line next len start i c cs (some (end, more)) =
    push_if (ltb start i) (start, i)
      ((i, end) ∷ next (min (end + 1) len) true (min (end + 1) len) (drop 1 more))

-- The loop of `split_statements`, `len` being the length of the text. The rounds are fewer than the
-- bytes that are left and one more.
unfoldable pub split_loop : ℕ → ℕ → ℕ → Bool → ℕ → Text → Ranges
split_loop zero len start line_begin i rest = []
split_loop (suc f) len start line_begin i [] = (start, len) ∷ []
split_loop (suc f) len start true i (c ∷ cs) =
    behind_line (split_loop f len) len start i c cs (directive_line_end i (c ∷ cs))
split_loop (suc f) len start false i (c ∷ cs) =
    behind_round (split_loop f len) start i cs (round i c cs)

unfoldable pub split_statements : Text → Ranges
split_statements text = split_loop (suc (length text)) (length text) 0 true 0 text
