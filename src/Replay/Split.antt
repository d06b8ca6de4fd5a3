-- ===== src/Replay/Split.antt =====
-- `split_statements` of crates/zedb-ch/src/replay.rs. The source walks the bytes of the text, so
-- a text is its UTF-8 bytes here, the input's and each statement's.
pub mod Script
pub mod Rounds
pub mod Tokens
pub mod NonAscii
use ze_db.Prelude.{ℕ, zero, suc, ◌+◌, ◌/◌, ◌%◌, Bool, true, false, not, ◌&&◌, List, [], ◌∷◌, ◌++◌}
use ze_db.Prelude.Tests.{◌==◌, leb, ltb, if◌then◌else◌}
use ze_db.Prelude.Lists.{length, drop}
use ze_db.Prelude.Text.{Text, starts_with}
use ze_db.Prelude.Utf8.{trim, is_empty}

-- `panic` is a slice that does not fall on a character boundary; `stuck` is no outcome of the
-- source: the loop ran out of fuel.
pub data Outcome (A : Type 0) : Type 0 where
  finished : A → Outcome A
  panic : Outcome A
  stuck : Outcome A

-- The byte offset in front of `t` is a character boundary.
unfoldable pub is_boundary : Text → Bool
is_boundary [] = true
is_boundary (b ∷ t) = not (leb 128 b && ltb b 192)

-- `current.push(bytes[i] as char)`: the byte is taken for a code point below 256, which is
-- written as one byte or two.
unfoldable pub push_byte_as_char : ℕ → Text
push_byte_as_char c = if ltb c 128 then c ∷ [] else (192 + c / 64) ∷ (128 + c % 64) ∷ []

-- The text up to the next newline, which stays, or to the end.
unfoldable pub cut_line : Text → Text × Text
cut_line [] = ([], [])
cut_line (c ∷ cs) =
    let (line, rest) = cut_line cs in if c == b'\n' then ([], c ∷ cs) else (c ∷ line, rest)

-- The text up to and with the next `*/`, or to the end.
unfoldable pub cut_block : Text → Text × Text
cut_block [] = ([], [])
cut_block (c ∷ []) = (c ∷ [], [])
cut_block (c ∷ d ∷ cs) =
    let (block, rest) = cut_block (d ∷ cs) in
    if c == b'*' && d == b'/' then (c ∷ d ∷ [], cs) else (c ∷ block, rest)

abbrev pub Statements : Type 0
Statements = List Text × Text

-- The `while` loop: `in_string`, `current`, `statements`, and what is left from `i` on.
unfoldable pub split_loop : ℕ → Bool → Text → List Text → Text → Outcome Statements
unfolding starts_with is_boundary cut_line cut_block push_byte_as_char
split_loop zero in_string current out rest = stuck
split_loop (suc f) in_string current out [] = finished (out, current)
split_loop (suc f) true current out (c ∷ []) =
    let escaped = split_loop f true (current ++ c ∷ []) out [] in
    let closed = split_loop f false (current ++ push_byte_as_char c) out [] in
    let inside = split_loop f true (current ++ push_byte_as_char c) out [] in
    if c == b'\\' then escaped else if c == b'\'' then closed else inside
split_loop (suc f) true current out (c ∷ d ∷ cs) =
    let escaped = split_loop f true (current ++ c ∷ d ∷ []) out cs in
    let closed = split_loop f false (current ++ push_byte_as_char c) out (d ∷ cs) in
    let inside = split_loop f true (current ++ push_byte_as_char c) out (d ∷ cs) in
    if c == b'\\'
    then if is_boundary cs then escaped else panic
    else if c == b'\''
    then closed
    else inside
split_loop (suc f) false current out (c ∷ cs) =
    let quoted = split_loop f true (current ++ push_byte_as_char c) out cs in
    let line = cut_line (c ∷ cs) in
    let after_line = split_loop f false (current ++ line.0) out line.1 in
    let block = cut_block (drop 1 cs) in
    let after_block = split_loop f false (current ++ c ∷ b'*' ∷ block.0) out block.1 in
    let separated = split_loop f false [] (out ++ current ∷ []) cs in
    let plain = split_loop f false (current ++ push_byte_as_char c) out cs in
    if c == b'\''
    then quoted
    else if not (is_boundary (c ∷ cs))
    then panic
    else if starts_with (b'-' ∷ b'-' ∷ []) (c ∷ cs)
    then after_line
    else if starts_with (b'/' ∷ b'*' ∷ []) (c ∷ cs)
    then after_block
    else if c == b';'
    then separated
    else plain

-- The last statement is kept unless `trim` leaves nothing of it.
unfoldable pub close_last : Outcome Statements → Outcome (List Text)
close_last (finished (out, current)) =
    finished (if is_empty (trim current) then out else out ++ current ∷ [])
close_last panic = panic
close_last stuck = stuck

unfoldable pub split_statements : Text → Outcome (List Text)
unfolding split_loop close_last
split_statements sql = close_last (split_loop (suc (length sql)) false [] [] sql)
