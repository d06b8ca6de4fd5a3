-- ===== src/Editor/Pick.antt =====
-- `statement_at_cursor` of crates/zedb-app/src/features/query/buffer.rs.
use ze_db.Prelude.{
  ℕ, zero, suc, ◌+◌, ◌-◌, Bool, true, false, not, ◌&&◌, [], ◌∷◌, Option, none, some,
}
use ze_db.Prelude.Tests.{ltb, leb, ◌==◌, if◌then◌else◌}
use ze_db.Prelude.Lists.{length, any, drop, get_elem?}
use ze_db.Prelude.Text.{Text}
use ze_db.Prelude.Utf8.{trim}
use ze_db.Intelligence.Tokens.{is_boundary}
use ze_db.Editor.{Ranges, split_statements}
use ze_db.Editor.Comments.{sql_is_blank}
use ze_db.Editor.Params.{or_first, only}
use ze_db.Editor.Values.{slice}

-- `segments.iter().position(..)`, or the last index.
abbrev pub has_cursor : ℕ → ℕ × ℕ → Bool
has_cursor cursor (start, end) = leb start cursor && leb cursor end

abbrev pub segment_of : ℕ → ℕ → Ranges → ℕ
segment_of cursor i [] = i - 1
segment_of cursor i (r ∷ rs) = if has_cursor cursor r then i else segment_of cursor (i + 1) rs

-- `pick`; an index out of range, a panic in the source, does not arise.
abbrev pub runnable : Text → Option Text
runnable statement = only (not (sql_is_blank statement)) statement

abbrev pub pick_range : Text → Option (ℕ × ℕ) → Option Text
pick_range text none = none
pick_range text (some (start, end)) = runnable (trim (slice text start end))

unfoldable pub pick : Text → Ranges → ℕ → Option Text
unfolding sql_is_blank trim
pick text segments i = pick_range text (get_elem? segments i)

-- `(0..idx).rev().find_map(pick)`
unfoldable pub pick_before : Text → Ranges → ℕ → Option Text
unfolding pick
pick_before text segments zero = none
pick_before text segments (suc i) = or_first (pick text segments i) (pick_before text segments i)

-- `find_map(pick)` over this number of indices from `i` on.
unfoldable pub pick_after : Text → Ranges → ℕ → ℕ → Option Text
unfolding pick
pick_after text segments zero i = none
pick_after text segments (suc n) i =
    or_first (pick text segments i) (pick_after text segments n (i + 1))

-- Nothing that runs has begun between the start of the segment and the cursor, on one line.
abbrev pub not_begun : Text → ℕ → Option (ℕ × ℕ) → Bool
not_begun text cursor none = false
not_begun text cursor (some (start, end)) =
    not (any (λ c. c == b'\n') (slice text start cursor)) && sql_is_blank (slice text start cursor)

abbrev pub looks_back : Text → ℕ → ℕ → Bool
looks_back text cursor idx = ltb 0 idx && leb cursor (length text)

abbrev pub step_back : Text → Ranges → ℕ → ℕ → ℕ
step_back text segments cursor idx =
    if not_begun text cursor (get_elem? segments idx) then idx - 1 else idx

abbrev pub pick_from : Text → Ranges → ℕ → Option Text
pick_from text segments idx = or_first (pick text segments idx) (
    or_first (pick_before text segments idx)
      (pick_after text segments (length segments - (idx + 1)) (idx + 1)))

-- The outer `none` is a panic: a cursor that is off a character boundary.
abbrev pub at_segment : Text → ℕ → Ranges → ℕ → Option (Option Text)
at_segment text cursor segments idx = elim (looks_back text cursor idx) [
  | true ↦
      only (is_boundary (drop cursor text))
        (pick_from text segments (step_back text segments cursor idx))
  | false ↦ some (pick_from text segments idx)
]

abbrev pub in_segments : Text → ℕ → Ranges → Option (Option Text)
in_segments text cursor segments = at_segment text cursor segments (segment_of cursor 0 segments)

unfoldable pub statement_at_cursor : Text → ℕ → Option (Option Text)
unfolding split_statements sql_is_blank is_boundary pick_before pick_after
statement_at_cursor text cursor = in_segments text cursor (split_statements text)
