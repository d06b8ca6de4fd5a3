-- ===== src/Wire/Rows/Fuel.antt =====
-- The loop over the rows and its fuel.
use ze_db.Prelude.{ℕ, zero, suc, ◌<◌, ◌≡◌, refl, ap, inl, inr, List, [], ◌∷◌, arith}
use ze_db.Prelude.Tests.{◌==◌, Bool-cases}
use ze_db.Prelude.Lists.{length}
use ze_db.Prelude.Text.{Text}
use ze_db.Wire.Types.{ChType, Value, Outside}
use ze_db.Wire.Reader.{Input, Read}
use ze_db.Wire.Reader.Stable.{Shrinks}
use ze_db.Wire.Rows.{at_row, Rows, Outcome, prepend, after_row, read_row, rows_loop, read_rows}
use ze_db.Wire.Rows.Stable.{read_row-IsStable}

after_row_same :
    (next next' : Text → Outcome Rows) (i : Input) (x : Read (List Value))
    → Shrinks i x
    → ((t : Text) → length t < length i.rest → next t ≡ next' t)
    → after_row next (length i.rest) x ≡ after_row next' (length i.rest) x
after_row_same next next' i (Read.ok row j) h same =
    elim (Bool-cases (length j.rest == length i.rest)) [
      | inl t ↦ rw (t, after_row)
      | inr f ↦ rw (f, after_row) (ap (prepend row) (same j.rest (ground arith)))
    ]
after_row_same next next' i (Read.err e) h same = refl
after_row_same next next' i Read.panicked h same = refl

module _ (o : Outside) (types : List ChType) where
  rows_loop_fuel :
      (f g : ℕ) (rest : Text)
      → length rest < f
      → length rest < g
      → rows_loop o f types rest ≡ rows_loop o g types rest
  unfolding rows_loop
  rows_loop_fuel zero g rest h k = absurd (omega arith)
  rows_loop_fuel (suc f) zero rest h k = absurd (omega arith)
  rows_loop_fuel (suc f) (suc g) [] h k = refl
  rows_loop_fuel (suc f) (suc g) (b ∷ bs) h k =
      after_row_same (rows_loop o f types) (rows_loop o g types) (at_row (b ∷ bs)) _
        ((read_row-IsStable o types).shrinks (at_row (b ∷ bs)))
        (λ t l. rows_loop_fuel f g t (omega arith) (omega arith))

  -- The loop without its fuel.
  pub read_rows_step :
      (b : ℕ) (bs : Text)
      → read_rows o types (b ∷ bs)
        ≡ after_row (read_rows o types) (length (b ∷ bs)) (read_row o types (at_row (b ∷ bs)))
  unfolding read_rows rows_loop
  read_rows_step b bs =
      after_row_same (rows_loop o (length (b ∷ bs)) types) (read_rows o types) (at_row (b ∷ bs)) _
        ((read_row-IsStable o types).shrinks (at_row (b ∷ bs)))
        (λ t l. rows_loop_fuel (length (b ∷ bs)) (suc (length t)) t (omega arith) (omega arith))
