-- ===== src/Editor/Values.antt =====
-- `strip_insert_values_comments` of crates/zedb-app/src/features/query/buffer.rs: the comments between
-- the rows of an INSERT.
use ze_db.Prelude.{
  ℕ, zero, suc, map, ◌+◌, ◌-◌, Bool, true, false, ◌&&◌, ◌||◌, [], ◌∷◌, ◌++◌, Option, none, some,
}
use ze_db.Prelude.Tests.{◌==◌, if◌then◌else◌}
use ze_db.Prelude.Lists.{length, take, drop}
use ze_db.Prelude.Text.{Text, codes, text_eq, to_ascii_upper, is_ascii_alphabetic}
use ze_db.Intelligence.Tokens.{Cursor, skip_line, skip_word}
use ze_db.Editor.{is_any_quote, head_is, skip_quoted, skip_comment}
use ze_db.Editor.Comments.{skip_blank}

-- `a.eq_ignore_ascii_case(b)`
unfoldable pub eq_ignore_ascii_case : Text → Text → Bool
unfolding text_eq
eq_ignore_ascii_case a b = text_eq (map to_ascii_upper a) (map to_ascii_upper b)

-- `&sql[from..to]`
abbrev pub slice : Text → ℕ → ℕ → Text
slice sql from to = take (to - from) (drop from sql)

abbrev pub behind_leading : (ℕ → Text → Cursor) → Cursor → Option Cursor → Cursor
behind_leading next here none = here
behind_leading next here (some (i, more)) = next i more

-- The loop over the blanks and the comments in front of the keyword.
unfoldable pub leading_loop : ℕ → ℕ → Text → Cursor
unfolding skip_blank
leading_loop zero i rest = (i, rest)
leading_loop (suc f) i [] = (i, [])
leading_loop (suc f) i (c ∷ cs) = behind_leading (leading_loop f) (i, c ∷ cs) (skip_blank i c cs)

abbrev pub is_insert : Text → Bool
is_insert rest = eq_ignore_ascii_case (take 6 rest) (codes "insert")

-- A round of the loop to the keyword: a cursor and the depth there, or a word up to a cursor.
pub data Seek : Type 0 where
  onward : ℕ → Cursor → Seek
  word : Cursor → Seek

unfoldable pub seek : ℕ → ℕ → ℕ → Text → Seek
unfolding skip_line skip_comment skip_quoted skip_word is_ascii_alphabetic
seek depth i c cs = elim (is_any_quote c) [
  | true ↦ onward depth (skip_quoted c (i + 1) cs)
  | false ↦ elim (c == b'-' && head_is b'-' cs) [
    | true ↦ onward depth (skip_line i (c ∷ cs))
    | false ↦ elim (c == b'/' && head_is b'*' cs) [
      | true ↦ onward depth (skip_comment (i + 2) (drop 1 cs))
      | false ↦ elim (c == b'(') [
        | true ↦ onward (depth + 1) (i + 1, cs)
        | false ↦ elim (c == b')') [
          | true ↦ onward (depth - 1) (i + 1, cs)
          | false ↦ elim (is_ascii_alphabetic c || c == b'_') [
            | true ↦ word (skip_word i (c ∷ cs))
            | false ↦ onward depth (i + 1, cs)
          ]
        ]
      ]
    ]
  ]
]

-- `depth == 0` and the word is the keyword.
abbrev pub is_values : ℕ → ℕ → Text → ℕ → Bool
is_values depth i rest j = depth == 0 && eq_ignore_ascii_case (take (j - i) rest) (codes "values")

abbrev pub behind_seek : (ℕ → ℕ → Text → Option Cursor) → ℕ → ℕ → Text → Seek → Option Cursor
behind_seek next depth i rest (onward depth' (j, more)) = next depth' j more
behind_seek next depth i rest (word (j, more)) = elim (is_values depth i rest j) [
  | true ↦ some (j, more)
  | false ↦ next depth j more
]

-- `data_start`, and the text behind it.
unfoldable pub values_loop : ℕ → ℕ → ℕ → Text → Option Cursor
unfolding seek eq_ignore_ascii_case
values_loop zero depth i rest = none
values_loop (suc f) depth i [] = none
values_loop (suc f) depth i (c ∷ cs) =
    behind_seek (values_loop f) depth i (c ∷ cs) (seek depth i c cs)

-- `out`, `segment` and `changed`.
pub record Copied : Type 0 where
  pub out : Text
  pub segment : ℕ
  pub changed : Bool

-- A comment from `i` to `j` is left out, `gap` in its place.
abbrev pub leave_out : Text → Text → ℕ → ℕ → Copied → Copied
leave_out sql gap i j s = record {
  out = s.out ++ slice sql s.segment i ++ gap;
  segment = j;
  changed = true;
}

abbrev pub behind_copy : (ℕ → Text → Copied → Copied) → Copied → Cursor → Copied
behind_copy next s (i, more) = next i more s

abbrev pub behind_comment :
    (ℕ → Text → Copied → Copied) → Text → Text → ℕ → Copied → Cursor → Copied
behind_comment next sql gap i s (j, more) = next j more (leave_out sql gap i j s)

unfoldable pub copy_loop : ℕ → Text → ℕ → Text → Copied → Copied
unfolding skip_line skip_comment skip_quoted
copy_loop zero sql i rest s = s
copy_loop (suc f) sql i [] s = s
copy_loop (suc f) sql i (c ∷ cs) s = elim (is_any_quote c) [
  | true ↦ behind_copy (copy_loop f sql) s (skip_quoted c (i + 1) cs)
  | false ↦ elim (c == b'-' && head_is b'-' cs) [
    | true ↦ behind_comment (copy_loop f sql) sql [] i s (skip_line i (c ∷ cs))
    | false ↦ elim (c == b'/' && head_is b'*' cs) [
      | true ↦
          behind_comment (copy_loop f sql) sql (b' ' ∷ []) i s (skip_comment (i + 2) (drop 1 cs))
      | false ↦ copy_loop f sql (i + 1) cs s
    ]
  ]
]

abbrev pub close : Text → Copied → Text
close sql s = if s.changed then s.out ++ drop s.segment sql else sql

abbrev pub copy_data : Text → Option Cursor → Text
copy_data sql none = sql
copy_data sql (some (i, rest)) = close sql (
    copy_loop (suc (length rest)) sql i rest
      (record { out = take i sql; segment = i; changed = false }))

abbrev pub behind_keyword : Text → Cursor → Text
behind_keyword sql (i, rest) =
    if is_insert rest then copy_data sql (values_loop (suc (length rest)) 0 i rest) else sql

-- A borrowed and an owned text are the same here. A round of a loop takes at least a byte.
unfoldable pub strip_insert_values_comments : Text → Text
unfolding leading_loop values_loop copy_loop eq_ignore_ascii_case
strip_insert_values_comments sql = behind_keyword sql (leading_loop (suc (length sql)) 0 sql)
