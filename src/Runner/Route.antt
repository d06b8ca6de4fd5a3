-- ===== src/Runner/Route.antt =====
-- crates/zedb-ch/src/runner/status.rs: where a statement runs.
use ze_db.Prelude.{
  ℕ, zero, suc, map, Bool, true, false, not, ◌&&◌, ◌||◌, [], ◌∷◌, Option, none, some,
}
use ze_db.Prelude.Tests.{◌==◌, if◌then◌else◌}
use ze_db.Prelude.Lists.{length, take, drop}
use ze_db.Prelude.Text.{to_ascii_upper, Text, codes, text_eq, is_ascii_alphanumeric, strip_prefix}
use ze_db.Prelude.Utf8.{trim_start}
use ze_db.Runner.Base.{Outside}

-- `trim_start_matches('\u{feff}')`
unfoldable pub strip_marks : Text → Text
strip_marks (b ∷ c ∷ d ∷ t) =
    let rest = strip_marks t in if b == 0xef && c == 0xbb && d == 0xbf then rest else b ∷ c ∷ d ∷ t
strip_marks t = t

-- What follows the first newline, or nothing.
unfoldable pub after_line : Text → Text
after_line [] = []
after_line (c ∷ cs) = elim (c == b'\n') [ true ↦ cs | false ↦ after_line cs ]

unfoldable pub after_block : Text → Option Text
after_block [] = none
after_block (c ∷ cs) = elim (strip_prefix (b'*' ∷ b'/' ∷ []) (c ∷ cs)) [
  | some rest ↦ some rest
  | none ↦ after_block cs
]

abbrev nonempty : Text → Option Text
nonempty [] = none
nonempty (c ∷ cs) = some (c ∷ cs)

abbrev line_comment : Text → Option Text
line_comment t = elim (strip_prefix (b'-' ∷ b'-' ∷ []) t) [
  | some rest ↦ some rest
  | none ↦ strip_prefix (b'#' ∷ []) t
]

-- The loop, on fuel: each round takes a comment's opening at least.
unfoldable pub body_loop : ℕ → Text → Option Text
unfolding trim_start strip_marks after_line after_block strip_prefix
body_loop zero statement = none
body_loop (suc f) statement =
    let t = trim_start (strip_marks (trim_start statement)) in
    elim (line_comment t) [
      | some comment ↦ body_loop f (after_line comment)
      | none ↦ elim (strip_prefix (b'/' ∷ b'*' ∷ []) t) [
        | some comment ↦ elim (after_block comment) [ some rest ↦ body_loop f rest | none ↦ none ]
        | none ↦ nonempty t
      ]
    ]

unfoldable pub statement_body : Text → Option Text
unfolding body_loop
statement_body statement = body_loop (suc (length statement)) statement

abbrev word_follows : Text → Bool
word_follows [] = false
word_follows (c ∷ cs) = is_ascii_alphanumeric c || c == b'_'

abbrev system_form : Option Text → Bool
system_form none = false
system_form (some body) =
    text_eq (map to_ascii_upper (take 6 body)) (codes "SYSTEM") && not (word_follows (drop 6 body))

unfoldable pub is_system : Text → Bool
unfolding statement_body text_eq is_ascii_alphanumeric
is_system statement = system_form (statement_body statement)

abbrev admin_body : (Text → Bool) → Option Text → Bool
admin_body form none = false
admin_body form (some body) = form body

-- `NEEDS_ADMIN.is_match` is the outside's.
unfoldable pub needs_admin : Outside → Text → Bool
unfolding statement_body
needs_admin o statement = admin_body o.admin_form (statement_body statement)
