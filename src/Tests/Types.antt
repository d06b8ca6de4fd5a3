-- ===== src/Tests/Types.antt =====
-- Runs of the type parser, and of the rows that it allows.
use ze_db.Prelude.{ℕ, zero, suc, ◌≤◌, ◌≡◌, refl, Bool, true, false, List, [], ◌∷◌, none, arith}
use ze_db.Prelude.Tests.{ltb}
use ze_db.Prelude.Text.{codes}
use ze_db.Wire.Types.{ℤ, pos, negsuc, ChType, Outside}
use ze_db.Wire.Types.Sound.{IsSound}
use ze_db.Wire.Reader.{Read}
use ze_db.Wire.Parse.{parse_type}
use ze_db.Wire.Parse.Sound.{parse_type-IsSound}
use ze_db.Wire.Rows.{read_rows}
use ze_db.Wire.Rows.Ends.{Finishes, read_rows-Finishes}

-- Dates end in the year 262142, and a float has the same bits at both widths.
abbrev in_chrono : ℤ → Bool
in_chrono (pos n) = ltb n 95026237
in_chrono (negsuc n) = ltb n 96465292

abbrev clock : Outside
clock = record { date_in_range = in_chrono; time_in_range = λ n m. true; widen = λ n. n }

parse_type-decimal :
    parse_type (codes "Decimal(9,2)")
    ≡ Read.ok (ChType.decimal 9 2) (record { rest = []; budget = 0 })
unfolding parse_type ze_db.Wire.Parse.parse ze_db.Wire.Lexer.ident ze_db.Wire.Lexer.skip_ws
    ze_db.Wire.Lexer.take_while ze_db.Wire.Parse.plain_type ze_db.Prelude.Text.text_eq
    ze_db.Wire.Lexer.span ze_db.Prelude.Utf8.trim_start ze_db.Prelude.Text.is_ascii_alphanumeric
    ze_db.Wire.Parse.type_with ze_db.Wire.Parse.decimal_type ze_db.Wire.Lexer.eat
    ze_db.Wire.Lexer.peek_char ze_db.Wire.Lexer.skip_char ze_db.Wire.Lexer.number
    ze_db.Wire.Lexer.digits ze_db.Prelude.Text.is_ascii_digit ze_db.Prelude.Text.is_ascii_alphabetic
parse_type-decimal = refl

parse_type-IsSound_example : IsSound (ChType.decimal 9 2)
parse_type-IsSound_example =
    parse_type-IsSound (codes "Decimal(9,2)") (ChType.decimal 9 2)
      (record { rest = []; budget = 0 }) parse_type-decimal

read_rows-Finishes_example :
    Finishes (read_rows clock (ChType.date ∷ ChType.date_time64 3 none ∷ []) (255 ∷ 255 ∷ 1 ∷ []))
read_rows-Finishes_example =
    read_rows-Finishes clock (λ days h. ground arith) (ChType.date ∷ ChType.date_time64 3 none ∷ [])
      (255 ∷ 255 ∷ 1 ∷ []) (tt, (omega arith, tt)) (tt, (tt, tt))
      (omega arith, (omega arith, (omega arith, tt)))
