-- ===== src/Wire/Rows/Ends.antt =====
-- The loops over the rows end.
use ze_db.Prelude.{ℕ, zero, suc, ◌<◌, ◌≡◌, inl, inr, true, List, [], ◌∷◌, arith}
use ze_db.Prelude.Tests.{◌==◌, Bool-cases}
use ze_db.Prelude.Lists.{length, All}
use ze_db.Prelude.Text.{Text}
use ze_db.Wire.Types.{pos, ChType, Value, Outside}
use ze_db.Wire.Reader.{Input, Read}
use ze_db.Wire.Reader.Stable.{Shrinks}
use ze_db.Wire.Reader.Safe.{AreBytes, Ends, IsSafe, >>=-IsSafe, return-IsSafe}
use ze_db.Wire.Types.Sound.{IsSound, HasNoDate32}
use ze_db.Wire.Values.Safe.{read_value-IsSafe}
use ze_db.Wire.Rows.{at_row, Rows, Outcome, prepend, after_row, read_row, rows_loop, read_rows}
use ze_db.Wire.Rows.Stable.{read_row-IsStable}

-- Rows, or an error of the decoder.
abbrev pub Finishes : Outcome Rows → Type 0
Finishes (Outcome.done rows) = Unit
Finishes (Outcome.failed e) = Unit
Finishes Outcome.stopped = ⊥

prepend-Finishes : (row : List Value) (x : Outcome Rows) → Finishes x → Finishes (prepend row x)
prepend-Finishes row (Outcome.done rows) h = tt
prepend-Finishes row (Outcome.failed e) h = tt
prepend-Finishes row Outcome.stopped h = h

after_row-Finishes :
    (next : Text → Outcome Rows) (i : Input) (x : Read (List Value))
    → Shrinks i x
    → Ends x
    → ((t : Text) → AreBytes t → length t < length i.rest → Finishes (next t))
    → Finishes (after_row next (length i.rest) x)
after_row-Finishes next i (Read.ok row j) le safe later =
    elim (Bool-cases (length j.rest == length i.rest)) [
      | inl t ↦ rw (t, after_row) tt
      | inr f ↦
          rw (f, after_row) (prepend-Finishes row (next j.rest) (later j.rest safe (ground arith)))
    ]
after_row-Finishes next i (Read.err e) le h later = tt
after_row-Finishes next i Read.panicked le h later = h

module _ (o : Outside)
    (in_range : (days : ℕ) → days < 65536 → o.date_in_range (pos days) ≡ true) where
  pub read_row-IsSafe :
      (types : List ChType) → All IsSound types → All HasNoDate32 types → IsSafe (read_row o types)
  unfolding read_row
  read_row-IsSafe [] h n = return-IsSafe _
  read_row-IsSafe (t ∷ ts) h n =
      >>=-IsSafe _ _ (read_value-IsSafe o in_range t 0 h.0 n.0)
        λ v. >>=-IsSafe _ _ (read_row-IsSafe ts h.1 n.1) (λ vs. return-IsSafe _)

  rows_loop-Finishes :
      (fuel : ℕ) (types : List ChType) (rest : Text)
      → All IsSound types
      → All HasNoDate32 types
      → AreBytes rest
      → length rest < fuel
      → Finishes (rows_loop o fuel types rest)
  unfolding rows_loop
  rows_loop-Finishes zero types rest h n bytes lt = absurd (omega arith)
  rows_loop-Finishes (suc fuel) types [] h n bytes lt = tt
  rows_loop-Finishes (suc fuel) types (b ∷ bs) h n bytes lt =
      after_row-Finishes (rows_loop o fuel types) (at_row (b ∷ bs)) _
        ((read_row-IsStable o types).shrinks (at_row (b ∷ bs)))
        ((read_row-IsSafe types h n).ends (at_row (b ∷ bs)) bytes)
        (λ t bytes' le. rows_loop-Finishes fuel types t h n bytes' (omega arith))

  -- Let chrono have a date for each of the 65536 days that a `Date` can be. On all bytes the loop
  -- over the rows ends in rows or in an error, without a panic and with the fuel that it has, if the
  -- columns' types have their numbers in bounds and no `Date32` in them.
  pub read_rows-Finishes :
      (types : List ChType) (rest : Text)
      → All IsSound types
      → All HasNoDate32 types
      → AreBytes rest
      → Finishes (read_rows o types rest)
  unfolding read_rows
  read_rows-Finishes types rest h n bytes =
      rows_loop-Finishes (suc (length rest)) types rest h n bytes (omega arith)
