-- ===== src/Wire/Rows/Stable.antt =====
-- Headers and rows on more input.
use native.Mathlib.Omega.{arith}
use ze_db.Prelude.{ℕ, zero, suc, refl, List, [], ◌∷◌, inr}
use ze_db.Prelude.Text.{Text}
use ze_db.Wire.Types.{ChType, Outside}
use ze_db.Wire.Reader.{Read, ok, err, panicked, max_header_string_bytes}
use ze_db.Wire.Reader.Stable.{
  IsStable, stable, >>=-IsStable, return-IsStable, header_string-IsStable,
}
use ze_db.Wire.Values.Stable.{read_value-IsStable}
use ze_db.Wire.Parse.{parse_type}
use ze_db.Wire.Rows.{read_names, parsed, read_column_types, read_header, read_row}

read_names-IsStable : (n : ℕ) → IsStable (read_names n)
unfolding read_names
read_names-IsStable zero = return-IsStable _
read_names-IsStable (suc n) =
    >>=-IsStable _ _ (header_string-IsStable max_header_string_bytes)
      λ name. >>=-IsStable _ _ (read_names-IsStable n) (λ names. return-IsStable _)

parsed-IsStable : (s : Text) (t : Read ChType) → IsStable (parsed s t)
parsed-IsStable s (ok t j) = record { agrees = λ more i. refl; shrinks = λ i. omega arith }
parsed-IsStable s (err e) = record { agrees = λ more i. inr refl; shrinks = λ i. tt }
parsed-IsStable s panicked = record { agrees = λ more i. refl; shrinks = λ i. tt }

read_column_types-IsStable : (n : ℕ) → IsStable (read_column_types n)
unfolding read_column_types
read_column_types-IsStable zero = return-IsStable _
read_column_types-IsStable (suc n) =
    >>=-IsStable _ _ (header_string-IsStable max_header_string_bytes) λ s.
      >>=-IsStable _ _ (parsed-IsStable s (parse_type s))
        λ t. >>=-IsStable _ _ (read_column_types-IsStable n) (λ ts. return-IsStable _)

pub read_header-IsStable : IsStable read_header
unfolding read_header
read_header-IsStable = search (stable, read_names-IsStable, read_column_types-IsStable)

module _ (o : Outside) where
  pub read_row-IsStable : (ts : List ChType) → IsStable (read_row o ts)
  unfolding read_row
  read_row-IsStable [] = return-IsStable _
  read_row-IsStable (t ∷ ts) =
      >>=-IsStable _ _ (read_value-IsStable o t 0)
        λ v. >>=-IsStable _ _ (read_row-IsStable ts) (λ vs. return-IsStable _)
