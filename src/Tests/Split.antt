-- ===== src/Tests/Split.antt =====
-- `split_statements` on concrete scripts.
use ze_db.Prelude.{ℕ, ◌≡◌, refl, suc, List, [], ◌∷◌, ◌++◌, arith, false}
use ze_db.Prelude.Lists.{length}
use ze_db.Prelude.Text.{codes, starts_with}
use ze_db.Replay.Split.{finished, panic, split_loop, split_statements}
use ze_db.Replay.Split.Script.{
  raw, escaped, Token, plain, quoted, line_comment, block_comment, separator, print_script, parts,
  IsScript,
}
use ze_db.Replay.Split.NonAscii.{garbled, split_statements-non_ascii, split_loop-garbles}

-- `A ';\'';-- ;` with a newline, `/*;*/ B`
abbrev script : List Token
script =
    plain b'A'
    ∷ quoted (raw b';' ∷ escaped b'\'' ∷ [])
    ∷ separator
    ∷ line_comment (codes " ;")
    ∷ block_comment (codes ";")
    ∷ plain b'B'
    ∷ []

split_script :
    split_statements (codes "A';\\'';-- ;\n/*;*/B")
    ≡ finished (codes "A';\\''" ∷ codes "-- ;\n/*;*/B" ∷ [])
unfolding split_statements ze_db.Prelude.Utf8.trim
split_script = refl

split_blank : split_statements (codes "A; \n") ≡ finished (codes "A" ∷ [])
unfolding split_statements ze_db.Prelude.Utf8.trim
split_blank = refl

abbrev start : List Token
start = plain b'A' ∷ []

start-IsScript : IsScript start (0xc3 ∷ 0xa9 ∷ [])
unfolding starts_with
start-IsScript = ((omega arith, omega arith, omega arith, refl, refl), tt)

start-IsScript_quoted : IsScript start (b'\'' ∷ 0xc3 ∷ 0xa9 ∷ b'\'' ∷ [])
unfolding starts_with
start-IsScript_quoted = ((omega arith, omega arith, omega arith, refl, refl), tt)

split_statements-non_ascii_example :
    split_statements (print_script start ++ 0xc3 ∷ 0xa9 ∷ []) ≡ panic
split_statements-non_ascii_example =
    split_statements-non_ascii start 0xc3 0xa9 [] start-IsScript (omega arith) (omega arith)
      (omega arith)

split_loop-garbles_example :
    split_loop
      (suc (length (print_script start ++ b'\'' ∷ 0xc3 ∷ 0xa9 ∷ b'\'' ∷ [])))
      false
      []
      []
      (print_script start ++ b'\'' ∷ 0xc3 ∷ 0xa9 ∷ b'\'' ∷ [])
    ≡ finished ((parts start [] []).0, (parts start [] []).1 ++ garbled 0xc3 0xa9)
split_loop-garbles_example =
    split_loop-garbles start 0xc3 0xa9 start-IsScript_quoted (omega arith) (omega arith)
